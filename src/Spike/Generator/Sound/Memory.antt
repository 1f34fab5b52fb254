-- ===== src/Spike/Generator/Sound/Memory.antt =====
-- What the items of tools/spike_diff/gen.py that use memory write, and their sizes.
use determinant.Base.{
  ℕ, ◌+◌, ◌-◌, ◌*◌, ◌/◌, ◌<◌, String, ◌≡◌, refl, sym, Bool, true, false, ◌&&◌, List, [], ◌∷◌, ◌++◌,
  arith, ltb, ◌==◌, if◌then◌else◌, All,
}
use determinant.Base.Int.{pos, neg}
use determinant.Spike.Generator.Lines.{Line, immediate, load, store, amo, straight, rvc}
use determinant.Spike.Generator.Draws.{Gen, member}
use determinant.Spike.Generator.Rules.{
  Draws, Draws-bind, Draws-pure, Draws-gets, Draws-if, Draws-below, Draws-choice-Any, every,
  Draws-choice_test, Draws-randrange, Draws-chance,
}
use determinant.Spike.Generator.Lines.{written, is_compressed, mnemonic_size, line_size, lines_size}
use determinant.Spike.Generator.Registers.{
  Free, IsRoomy, Draws-tmp, Draws-cw, Draws-wreg, Draws-rreg, Draws-cr,
}
use determinant.Base.Text.{strip_prefix}
use determinant.Spike.Generator.Sound.{
  IsSound, is_long, mnemonic_size-long, IsChunk, IsChunk-append, IsChunk-nil, IsChunk-cons,
  IsChunk-IsSound, IsChunk-rvc,
}
use determinant.Spike.Generator.Memory.{
  amos, loads, stores, addr, biased_addr, plain_addr, mem_addr, g_load, g_store, c_lw, c_sw, c_lwsp,
  c_swsp, c_mem_case, g_c_mem, suffixes, aqrl, g_amo, g_sc_only,
}

-- A mnemonic of four bytes with a width that leaves `mem_addr` an offset to choose.
unfoldable is_access : String × ℕ → Bool
is_access (op, w) = is_long op && ltb (1024 / w) (2047 / w + 1)

is_access-Holds :
    (op : String) (w : ℕ)
    → is_access (op, w) ≡ true
    → (is_long op ≡ true) × (1024 / w < 2047 / w + 1)
unfolding is_access
is_access-Holds op w h = (ground (arith, h), ground (arith, h))

module _ {g : Gen} (room : IsRoomy 0 g) where
  pub Draws-addr : (t mask : ℕ) → Free g t → Draws g (addr t mask) (λ ls. IsChunk g ls 8)
  unfolding addr written line_size lines_size mnemonic_size is_compressed strip_prefix
  Draws-addr t mask free = Draws-bind (Draws-rreg room) λ r _.
      Draws-bind (Draws-gets (λ g. g.base))
        λ b _. Draws-pure _ (record { spares = ((free, tt), ((free, tt), tt)); sized = refl })

  Draws-biased_addr :
      (t w : ℕ) (ls : List Line)
      → Free g t
      → 1024 / w < 2047 / w + 1
      → IsChunk g ls 8
      → Draws g (biased_addr t w ls) (λ a. IsChunk g a.lines a.size)
  unfolding biased_addr written line_size lines_size mnemonic_size is_compressed strip_prefix
  Draws-biased_addr t w ls free h c =
      Draws-bind (Draws-randrange (1024 / w) (2047 / w + 1) h) λ k _. Draws-pure _ (
        IsChunk-append c
          (IsChunk-cons (immediate "addi" t t (neg 2048)) 4 (free, tt) refl IsChunk-nil))

  Draws-plain_addr :
      (w : ℕ) (ls : List Line)
      → IsChunk g ls 8
      → Draws g (plain_addr w ls) (λ a. IsChunk g a.lines a.size)
  unfolding plain_addr
  Draws-plain_addr w ls c =
      Draws-bind (Draws-randrange 0 (1024 / w + 1) (omega arith)) λ k _. Draws-pure _ c

  pub Draws-mem_addr :
      (t w : ℕ)
      → Free g t
      → 1024 / w < 2047 / w + 1
      → Draws g (mem_addr t w) (λ a. IsChunk g a.lines a.size)
  unfolding mem_addr
  Draws-mem_addr t w free h = Draws-bind (Draws-addr t (0x400 - w) free) λ ls c.
      Draws-bind (Draws-chance 30)
        λ b _. Draws-if b (Draws-biased_addr t w ls free h c) (Draws-plain_addr w ls c)

  -- What is drawn for an address that masks, then the rest.
  access-IsSound :
      {ls : List Line} (l : Line) (n : ℕ)
      → IsChunk g ls n
      → All (Free g) (written l)
      → line_size l ≡ 4
      → IsSound g (straight (ls ++ l ∷ []) (n + 4))
  access-IsSound l n c free size =
      IsChunk-IsSound (n + 4) (IsChunk-append c (IsChunk-cons l 4 free size IsChunk-nil)) refl

  pub Draws-g_load : Draws g g_load (IsSound g)
  unfolding g_load is_access every written line_size is_long is_compressed strip_prefix
  Draws-g_load = Draws-bind (Draws-choice_test is_access loads refl (omega arith)) λ (op, w) test.
      let (long, fits) = is_access-Holds op w test in
      Draws-bind (Draws-tmp room) λ t (free, _). Draws-bind (Draws-mem_addr t w free fits) λ a c.
        Draws-bind (Draws-wreg room 6) λ rd spare.
          Draws-pure _ (
            access-IsSound (load op rd a.offset t) a.size c (spare, tt)
              (mnemonic_size-long op long))

  pub Draws-g_store : Draws g g_store (IsSound g)
  unfolding g_store is_access every written line_size is_long is_compressed strip_prefix
  Draws-g_store = Draws-bind (Draws-choice_test is_access stores refl (omega arith)) λ (op, w) test.
      let (long, fits) = is_access-Holds op w test in
      Draws-bind (Draws-tmp room) λ t (free, _). Draws-bind (Draws-mem_addr t w free fits) λ a c.
        Draws-bind (Draws-rreg room) λ rs _.
          Draws-pure _
            (access-IsSound (store op rs a.offset t) a.size c tt (mnemonic_size-long op long))

  pub Draws-g_amo : Draws g g_amo (IsSound g)
  unfolding g_amo aqrl suffixes written line_size
  Draws-g_amo = Draws-bind (Draws-choice-Any amos (omega arith)) λ op _.
      Draws-bind (Draws-tmp room) λ t (free, _). Draws-bind (Draws-addr t 0x3FC free) λ ls c.
        Draws-bind (Draws-choice-Any suffixes (omega arith)) λ suffix _.
          Draws-bind (Draws-wreg room 6) λ rd spare.
            Draws-bind (Draws-rreg room)
              λ rs _. Draws-pure _ (access-IsSound (amo op suffix rd rs t) 8 c (spare, tt) refl)

  pub Draws-g_sc_only : Draws g g_sc_only (IsSound g)
  unfolding g_sc_only written line_size
  Draws-g_sc_only = Draws-bind (Draws-tmp room) λ t (free, _).
      Draws-bind (Draws-addr t 0x3FC free) λ ls c. Draws-bind (Draws-wreg room 6) λ rd spare.
        Draws-bind (Draws-rreg room)
          λ rs _. Draws-pure _ (access-IsSound (amo "sc" "" rd rs t) 8 c (spare, tt) refl)

  short-IsSound :
      {ls : List Line} (l : Line)
      → IsChunk g ls 8
      → All (Free g) (written l)
      → line_size l ≡ 2
      → IsSound g (straight (ls ++ rvc l) 10)
  short-IsSound l c free size = IsChunk-IsSound 10 (IsChunk-append c (IsChunk-rvc l free size)) refl

  Draws-c_lw : Draws g c_lw (IsSound g)
  unfolding c_lw written line_size mnemonic_size is_compressed strip_prefix
  Draws-c_lw = Draws-bind (Draws-cw room) λ t (free, _).
      Draws-bind (Draws-below 32 (omega arith)) λ k _. Draws-bind (Draws-addr t 0x37C free) λ ls c.
        Draws-bind (Draws-cw room) λ rd (spare, _).
          Draws-pure _ (short-IsSound (load "c.lw" rd (pos (4 * k)) t) c (spare, tt) refl)

  Draws-c_sw : Draws g c_sw (IsSound g)
  unfolding c_sw written line_size mnemonic_size is_compressed strip_prefix
  Draws-c_sw = Draws-bind (Draws-cw room) λ t (free, _).
      Draws-bind (Draws-below 32 (omega arith)) λ k _. Draws-bind (Draws-addr t 0x37C free) λ ls c.
        Draws-bind (Draws-cr room)
          λ rs _. Draws-pure _ (short-IsSound (store "c.sw" rs (pos (4 * k)) t) c tt refl)

  Draws-c_lwsp : Free g 2 → Draws g c_lwsp (IsSound g)
  unfolding c_lwsp written line_size mnemonic_size is_compressed strip_prefix
  Draws-c_lwsp free = Draws-bind (Draws-below 64 (omega arith)) λ k _.
      Draws-bind (Draws-addr 2 0x2FC free) λ ls c. Draws-bind (Draws-wreg room 0) λ rd spare.
        Draws-pure _ (short-IsSound (load "c.lwsp" rd (pos (4 * k)) 2) c (spare, tt) refl)

  Draws-c_swsp : Free g 2 → Draws g c_swsp (IsSound g)
  unfolding c_swsp written line_size mnemonic_size is_compressed strip_prefix
  Draws-c_swsp free = Draws-bind (Draws-below 64 (omega arith)) λ k _.
      Draws-bind (Draws-addr 2 0x2FC free) λ ls c.
        Draws-bind (Draws-rreg room)
          λ rs _. Draws-pure _ (short-IsSound (store "c.swsp" rs (pos (4 * k)) 2) c tt refl)

  Draws-sp_mem :
      (k : ℕ) (b : Bool)
      → member 2 g.reserved ≡ b
      → Draws g (if b then g_load else if k == 2 then c_lwsp else c_swsp) (IsSound g)
  Draws-sp_mem k true e = Draws-g_load
  Draws-sp_mem k false e = Draws-if (k == 2) (Draws-c_lwsp e) (Draws-c_swsp e)

  pub Draws-g_c_mem : Draws g g_c_mem (IsSound g)
  unfolding g_c_mem c_mem_case
  Draws-g_c_mem = Draws-bind (Draws-below 4 (omega arith)) λ k _.
      Draws-bind (Draws-gets (λ g. member 2 g.reserved)) λ b e.
        Draws-if (k == 0) Draws-c_lw (Draws-if (k == 1) Draws-c_sw (Draws-sp_mem k b (sym e)))
