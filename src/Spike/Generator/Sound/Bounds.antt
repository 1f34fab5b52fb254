-- ===== src/Spike/Generator/Sound/Bounds.antt =====
-- Where the loads, stores and single atomics of tools/spike_diff/gen.py go.
use determinant.Base.{
  ℕ, ◌+◌, ◌-◌, ◌*◌, ◌/◌, ◌%◌, ◌^◌, ◌≤◌, bit_and, String, ◌≡◌, refl, sym, subst, ◌≢◌, ◌⊎◌, inl, inr,
  Bool, true, false, ◌&&◌, ◌||◌, [], ◌∷◌, ◌++◌, arith, ◌==◌, if◌then◌else◌, Bool-cases,
}
use determinant.Base.Int.{pos, neg}
use determinant.Spike.Generator.Lines.{amo}
use determinant.Spike.Generator.Draws.{Gen, member}
use determinant.Spike.Generator.Rules.{
  Draws, Draws-bind, Draws-pure, Draws-gets, Draws-if, Draws-weaken, Draws-below, Draws-choice-Any,
  every, Draws-choice_test, Draws-randrange, Draws-chance,
}
use determinant.Spike.Generator.Registers.{
  Free, IsRoomy, Draws-tmp, Draws-cw, Draws-wreg, Draws-rreg, Draws-cr,
}
use determinant.Spike.Generator.Memory.{
  amos, loads, stores, addr, biased_addr, plain_addr, mem_addr, g_load, g_store, c_lw, c_sw, c_lwsp,
  c_swsp, c_mem_case, g_c_mem, suffixes, aqrl, g_amo, g_sc_only,
}
use determinant.Spike.Constants.{Registers}
use determinant.Spike.Generator.Sound.Addresses.{
  step_line, width, InData, Inside, bit_and-le, bit_and-fours, IsWidth, IsWidth-range, IsWidth-mask,
  masked, run_lines, Aims, addr_pair, Draws-addr_pair, IsBased, run-addr, Aims-addr, Aims-biased,
  two_nonzero, fixed-InData, biased-InData, plain-InData,
}

-- `mem_addr` aims into the data, whatever the registers hold.
module _ {g : Gen} (middle t : ℕ) (regs : Registers) (room : IsRoomy 0 g)
    (based : IsBased middle g.base t regs) where
  Draws-biased-Aims :
      (w r : ℕ)
      → IsWidth w
      → Draws g
          (biased_addr t w (addr_pair t g.base r (0x400 - w)))
          (λ a. Aims middle regs t w a.offset a.lines)
  unfolding biased_addr
  Draws-biased-Aims w r known =
      let (le, multiple) = masked (regs r) w known in
      Draws-bind (Draws-randrange (1024 / w) (2047 / w + 1) (IsWidth-range w known))
        λ k (from, upto). Draws-pure _ (
          Aims-biased middle g.base t regs based r (0x400 - w) (IsWidth-mask w known) w
            (pos (w * k))
            (biased-InData middle (bit_and (regs r) (0x400 - w)) k based.low based.high
              based.aligned w known le multiple from upto))

  Draws-plain-Aims :
      (w r : ℕ)
      → IsWidth w
      → Draws g
          (plain_addr w (addr_pair t g.base r (0x400 - w)))
          (λ a. Aims middle regs t w a.offset a.lines)
  unfolding plain_addr
  Draws-plain-Aims w r known =
      let (le, multiple) = masked (regs r) w known in
      Draws-bind (Draws-randrange 0 (1024 / w + 1) (omega arith)) λ k (_, upto). Draws-pure _ (
        Aims-addr middle g.base t regs based r (0x400 - w) (IsWidth-mask w known) w (neg (w * k)) (
          plain-InData middle (bit_and (regs r) (0x400 - w)) k based.low based.high based.aligned w
            known le multiple upto))

  Draws-mem_addr-Aims :
      (w : ℕ) → IsWidth w → Draws g (mem_addr t w) (λ a. Aims middle regs t w a.offset a.lines)
  unfolding mem_addr
  Draws-mem_addr-Aims w known = Draws-bind (Draws-addr_pair t (0x400 - w) room) λ ls (r, e).
      Draws-bind (Draws-chance 30) λ b _.
        Draws-if b
          (subst (λ ls. Draws g (biased_addr t w ls) (λ a. Aims middle regs t w a.offset a.lines))
            (sym e) (Draws-biased-Aims w r known))
          (subst (λ ls. Draws g (plain_addr w ls) (λ a. Aims middle regs t w a.offset a.lines))
            (sym e) (Draws-plain-Aims w r known))

-- A mnemonic that accesses as many bytes as its table says, one, two or four.
unfoldable is_sized : String × ℕ → Bool
unfolding width
is_sized (op, w) = width op == w && ((w == 1 || w == 2) || w == 4)

is_sized-Holds : (op : String) (w : ℕ) → is_sized (op, w) ≡ true → (width op ≡ w) × IsWidth w
unfolding is_sized
is_sized-Holds op w h = (ground (arith, h), cases (Bool-cases (w == 1)) (Bool-cases (w == 2)))
  where
    cases :
        ((w == 1) ≡ true) ⊎ ((w == 1) ≡ false) → ((w == 2) ≡ true) ⊎ ((w == 2) ≡ false) → IsWidth w
    cases (inl is_one) _ = inl (ground (arith, is_one))
    cases (inr not_one) (inl is_two) = inr (inl (ground (arith, is_two)))
    cases (inr not_one) (inr not_two) = inr (inr (ground (arith, h, not_one, not_two)))

InData-width : {middle w k x : ℕ} → k ≡ w → InData middle w x → InData middle k x
InData-width {middle} {x = x} e d = subst (λ n. InData middle n x) (sym e) d

-- The base register is reserved and holds the middle of the data, which is inside the memory and, since
-- the data is aligned to 64 bytes, a multiple of four.
pub record HoldsMiddle (g : Gen) (middle : ℕ) (regs : Registers) : Type 0 where
  pub room : IsRoomy 0 g
  pub held : member g.base g.reserved ≡ true
  pub holds : regs g.base ≡ middle
  pub low : 1024 ≤ middle
  pub high : middle + 1024 ≤ 2 ^ 32
  pub aligned : middle % 4 ≡ 0

module _ {g : Gen} (middle : ℕ) (regs : Registers) (m : HoldsMiddle g middle regs) where
  based : (t : ℕ) → Free g t → t ≢ 0 → IsBased middle g.base t regs
  based t free nonzero = record {
    holds = m.holds;
    low = m.low;
    high = m.high;
    aligned = m.aligned;
    nonzero = nonzero;
    other =
        λ e. absurd (ground (arith, m.held, subst (λ r. member r g.reserved ≡ false) (sym e) free));
  }

  Draws-g_load-Inside : Draws g g_load (λ it. Inside middle regs it.lines)
  unfolding g_load every is_sized width Inside
  Draws-g_load-Inside =
      Draws-bind (Draws-choice_test is_sized loads refl (omega arith)) λ (op, w) test.
        let (size, known) = is_sized-Holds op w test in
        Draws-bind (Draws-tmp m.room) λ t (free, nonzero).
          Draws-bind (Draws-mem_addr-Aims middle t regs m.room (based t free nonzero) w known)
            λ a aims.
              Draws-bind (Draws-wreg m.room 6)
                λ rd _. Draws-pure _ (aims.enter _ (InData-width size aims.hits, tt))

  Draws-g_store-Inside : Draws g g_store (λ it. Inside middle regs it.lines)
  unfolding g_store every is_sized width Inside
  Draws-g_store-Inside =
      Draws-bind (Draws-choice_test is_sized stores refl (omega arith)) λ (op, w) test.
        let (size, known) = is_sized-Holds op w test in
        Draws-bind (Draws-tmp m.room) λ t (free, nonzero).
          Draws-bind (Draws-mem_addr-Aims middle t regs m.room (based t free nonzero) w known)
            λ a aims.
              Draws-bind (Draws-rreg m.room)
                λ rs _. Draws-pure _ (aims.enter _ (InData-width size aims.hits, tt))

  -- The fixed masks are multiples of four.
  Draws-fixed-Aims :
      (t q k : ℕ)
      → Free g t
      → t ≢ 0
      → q * 4 + 4 * k + 4 ≤ 1024
      → Draws g (addr t (q * 4)) (λ ls. Aims middle regs t 4 (pos (4 * k)) ls)
  Draws-fixed-Aims t q k free nonzero h =
      Draws-weaken (Draws-addr_pair t (q * 4) m.room) λ ls (r, e).
        let le = bit_and-le (q * 4) (regs r) (q * 4) (omega arith) in
        let inside =
          fixed-InData middle (bit_and (regs r) (q * 4)) (4 * k) m.high (omega (arith, le, h))
            (omega (arith, bit_and-fours (regs r) q, m.aligned)) in
        subst (Aims middle regs t 4 (pos (4 * k))) (sym e) (
          Aims-addr middle g.base t regs (based t free nonzero) r (q * 4) (omega (arith, h)) 4
            (pos (4 * k)) inside)

  Draws-c_lw-Inside : Draws g c_lw (λ it. Inside middle regs it.lines)
  unfolding c_lw width Inside step_line
  Draws-c_lw-Inside = Draws-bind (Draws-cw m.room) λ t (free, nonzero).
      Draws-bind (Draws-below 32 (omega arith)) λ k upto.
        Draws-bind (Draws-fixed-Aims t 223 k free nonzero (omega arith)) λ ls aims.
          Draws-bind (Draws-cw m.room) λ rd _. Draws-pure _ (aims.enter _ (aims.hits, tt))

  Draws-c_sw-Inside : Draws g c_sw (λ it. Inside middle regs it.lines)
  unfolding c_sw width Inside step_line
  Draws-c_sw-Inside = Draws-bind (Draws-cw m.room) λ t (free, nonzero).
      Draws-bind (Draws-below 32 (omega arith)) λ k upto.
        Draws-bind (Draws-fixed-Aims t 223 k free nonzero (omega arith)) λ ls aims.
          Draws-bind (Draws-cr m.room) λ rs _. Draws-pure _ (aims.enter _ (aims.hits, tt))

  Draws-sp-Inside :
      (k : ℕ) (sp : Bool)
      → member 2 g.reserved ≡ sp
      → Draws g
          (if sp then g_load else if k == 2 then c_lwsp else c_swsp)
          (λ it. Inside middle regs it.lines)
  unfolding c_lwsp c_swsp width Inside step_line
  Draws-sp-Inside k true free = Draws-g_load-Inside
  Draws-sp-Inside k false free =
      Draws-if (k == 2)
        (Draws-bind (Draws-below 64 (omega arith)) λ k upto.
          Draws-bind (Draws-fixed-Aims 2 191 k free two_nonzero (omega arith)) λ ls aims.
            Draws-bind (Draws-wreg m.room 0) λ rd _. Draws-pure _ (aims.enter _ (aims.hits, tt)))
        (Draws-bind (Draws-below 64 (omega arith)) λ k upto.
          Draws-bind (Draws-fixed-Aims 2 191 k free two_nonzero (omega arith)) λ ls aims.
            Draws-bind (Draws-rreg m.room) λ rs _. Draws-pure _ (aims.enter _ (aims.hits, tt)))

  Draws-g_c_mem-Inside : Draws g g_c_mem (λ it. Inside middle regs it.lines)
  unfolding g_c_mem c_mem_case
  Draws-g_c_mem-Inside = Draws-bind (Draws-below 4 (omega arith)) λ k _.
      Draws-bind (Draws-gets (λ g. member 2 g.reserved)) λ sp e.
        Draws-if (k == 0) Draws-c_lw-Inside
          (Draws-if (k == 1) Draws-c_sw-Inside (Draws-sp-Inside k sp (sym e)))

  -- An AMO has no offset.
  Draws-word_aims :
      (t : ℕ)
      → Free g t
      → t ≢ 0
      → Draws g (addr t 0x3FC) (λ ls.
        (op suffix : String) (rd rs : ℕ) → Inside middle regs (ls ++ amo op suffix rd rs t ∷ []))
  unfolding Inside run_lines step_line
  Draws-word_aims t free nonzero =
      Draws-weaken (Draws-addr_pair t 0x3FC m.room) λ ls (r, e) op suffix rd rs.
        let le = bit_and-le 1020 (regs r) 1020 (omega arith) in
        let inside : InData middle 4 (bit_and (regs r) 0x3FC + middle) = record {
          above = omega arith;
          below_end = omega (arith, le);
          aligned = omega (arith, bit_and-fours (regs r) 255, m.aligned);
        } in
        subst (λ ls. Inside middle regs (ls ++ amo op suffix rd rs t ∷ [])) (sym e)
          (
            subst (InData middle 4)
                (sym (run-addr middle g.base t regs (based t free nonzero) r 0x3FC (omega arith)))
                inside,
            tt,
          )

  Draws-g_amo-Inside : Draws g g_amo (λ it. Inside middle regs it.lines)
  unfolding g_amo aqrl suffixes
  Draws-g_amo-Inside = Draws-bind (Draws-choice-Any amos (omega arith)) λ op _.
      Draws-bind (Draws-tmp m.room) λ t (free, nonzero).
        Draws-bind (Draws-word_aims t free nonzero) λ ls aims.
          Draws-bind (Draws-choice-Any suffixes (omega arith)) λ suffix _.
            Draws-bind (Draws-wreg m.room 6)
              λ rd _. Draws-bind (Draws-rreg m.room) λ rs _. Draws-pure _ (aims op suffix rd rs)

  Draws-g_sc_only-Inside : Draws g g_sc_only (λ it. Inside middle regs it.lines)
  unfolding g_sc_only
  Draws-g_sc_only-Inside = Draws-bind (Draws-tmp m.room) λ t (free, nonzero).
      Draws-bind (Draws-word_aims t free nonzero) λ ls aims.
        Draws-bind (Draws-wreg m.room 6)
          λ rd _. Draws-bind (Draws-rreg m.room) λ rs _. Draws-pure _ (aims "sc" "" rd rs)

  -- Whatever is drawn and whatever the other registers hold, each instruction that accesses memory
  -- in an item of `g_load`, `g_store`, `g_c_mem`, `g_amo` or `g_sc_only` has an address that is a
  -- multiple of its width and accesses bytes among the 2048 of the data, where the base register is
  -- reserved and holds the middle of the data, which is a multiple of four. The sequences of
  -- `g_lrsc`, and the endings that fault on purpose, are not among these items.
  pub Draws-memory_items :
      Draws g g_load (λ it. Inside middle regs it.lines)
      × Draws g g_store (λ it. Inside middle regs it.lines)
      × Draws g g_c_mem (λ it. Inside middle regs it.lines)
      × Draws g g_amo (λ it. Inside middle regs it.lines)
      × Draws g g_sc_only (λ it. Inside middle regs it.lines)
  Draws-memory_items = (
    Draws-g_load-Inside, Draws-g_store-Inside, Draws-g_c_mem-Inside, Draws-g_amo-Inside,
    Draws-g_sc_only-Inside,
  )
