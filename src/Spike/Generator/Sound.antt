-- ===== src/Spike/Generator/Sound.antt =====
-- What makes an item of tools/spike_diff/gen.py sound, for the items that compute on registers.
pub mod Memory
pub mod Compressed
pub mod Reservation
pub mod Control
pub mod Reach
pub mod Targets
pub mod Reached
pub mod Filling
pub mod Placing
pub mod Making
pub mod Looping
pub mod Ending
pub mod Whole
pub mod Addresses
pub mod Bounds
use determinant.Base.{
  ℕ, zero, suc, ◌+◌, ◌-◌, ◌*◌, ◌/◌, ◌%◌, ◌^◌, ◌≤◌, ◌<◌, bit_and, bit_or, bit_xor, min, max, String,
  ◌≡◌, refl, sym, ap, ◌∙◌, subst, ◌≢◌, ◌↔◌, ◌⊎◌, inl, inr, Bool, true, false, ◌&&◌, ◌||◌, not,
  Option, none, some, List, [], ◌∷◌, ◌++◌, map, append_assoc, append-nil, arith, str_eq, eq_iff,
  ltb, leb, ◌==◌, if◌then◌else◌, ==_iff, Bool-cases, Option-cases, length, get_elem?, get_or, take,
  drop, length-append, All, All-append, In, append-eq-nil, All-take,
}
use determinant.Base.Int.{ℤ, pos, negsuc, sub_ℕ, neg}
use determinant.Spike.Generator.Lines.{
  Target, hole, to, Place, place, offset_place, data_middle, Source, reg, imm, Line, three,
  immediate, two, one, upper, adjust_sp, add_sp, load, store, amo, lr, branch, branch_zero, jal,
  jump, jalr, jump_register, la, csr, csrr, csrw, plain, option, two_bytes, four_bytes, label,
  Label, Item, straight, branching, rvc,
}
use determinant.Spike.Generator.Draws.{
  Gen, Stream, M, ◌>>=◌, ◌>>◌, pure, gets, modify, below, choice, randrange, randint, random,
  lt_percent, chance, member, without, range_from, val, imm12, next_label, tmp_from, tmp, wreg,
  rreg, rpair, cw, cr,
}
use determinant.Spike.Generator.Rules.{
  Draws, Makes, Draws-bind, Makes-bind, Makes-draw, Draws-pure, Makes-pure, Draws-gets, Draws-if,
  Draws-weaken, Makes-if, Makes-Draws, Makes-weaken, Makes-modify, Draws-below, Draws-choice, Any,
  any, Draws-choice-Any, Draws-Any, every, Draws-choice_test, Draws-randrange, Draws-randint,
  Draws-random, Draws-chance, Draws-imm12, Draws-val,
}
use determinant.Spike.Generator.Lines.{
  written, is_compressed, mnemonic_size, line_size, lines_size, lines_size-append,
}
use determinant.Spike.Generator.Registers.{
  Free, IsRoomy, IsRoomy-le, member-without, Draws-tmp_from, Draws-tmp, Draws-cw, Draws-wreg,
  Draws-rreg, Draws-rpair, Draws-cr,
}
use determinant.Base.Text.{strip_prefix}
use determinant.Spike.Constants.{li}
use determinant.Spike.Generator.Alu.{
  alu_r, alu_i, shift_i, m_ops, zba, zbb_r, zbb_u, zbs_r, zbs_i, register_item, g_alu_r, shift_item,
  chosen_shift, immediate_item, g_alu_i, g_lui_auipc, g_m, g_zba, unary_item, g_zbb, g_zbs, li_line,
  li_lines, g_li_special, AluCategory, c_alu_r, c_alu_i, c_m, c_zba, c_zbb, c_zbs, c_lui_auipc,
  alu_category, alu_one,
}

-- The lines write no reserved register, the size is that of the code that they become, and a branch
-- reaches over its own item.
pub record IsSound (g : Gen) (it : Item) : Type 0 where
  pub spares : All (λ l. All (Free g) (written l)) it.lines
  pub sized : lines_size it.lines ≡ it.size
  pub reach : it.branches ≡ true → it.size ≤ it.maxdist

-- A mnemonic of four bytes.
unfoldable pub is_long : String → Bool
is_long op = not (is_compressed op)

pub mnemonic_size-long : (op : String) → is_long op ≡ true → mnemonic_size op ≡ 4
unfolding is_long mnemonic_size
mnemonic_size-long op h = ground (arith, h)

-- Lines that write no reserved register, and become that many bytes.
pub record IsChunk (g : Gen) (ls : List Line) (n : ℕ) : Type 0 where
  pub spares : All (λ l. All (Free g) (written l)) ls
  pub sized : lines_size ls ≡ n

pub IsChunk-append :
    {g : Gen} {xs ys : List Line} {m n : ℕ}
    → IsChunk g xs m
    → IsChunk g ys n
    → IsChunk g (xs ++ ys) (m + n)
IsChunk-append {g} {xs} {ys} cx cy = record {
  spares = All-append (λ l. All (Free g) (written l)) xs ys cx.spares cy.spares;
  sized = omega (arith, lines_size-append xs ys, cx.sized, cy.sized);
}

pub IsChunk-nil : {g : Gen} → IsChunk g [] 0
unfolding lines_size
IsChunk-nil = record { spares = tt; sized = refl }

pub IsChunk-cons :
    {g : Gen} (l : Line) {ls : List Line} (m : ℕ) {n : ℕ}
    → All (Free g) (written l)
    → line_size l ≡ m
    → IsChunk g ls n
    → IsChunk g (l ∷ ls) (m + n)
unfolding lines_size
IsChunk-cons l m free size c = record {
  spares = (free, c.spares);
  sized = omega (arith, size, c.sized);
}

pub IsChunk-IsSound :
    {g : Gen} {ls : List Line} {n : ℕ} (m : ℕ) → IsChunk g ls n → n ≡ m → IsSound g (straight ls m)
IsChunk-IsSound m c e = record {
  spares = c.spares;
  sized = c.sized ∙ e;
  reach = λ b. absurd (ground (arith, b));
}

-- A compressed line between its options.
pub IsChunk-rvc :
    {g : Gen} (l : Line) → All (Free g) (written l) → line_size l ≡ 2 → IsChunk g (rvc l) 2
unfolding lines_size line_size written
IsChunk-rvc l free size = record { spares = (tt, (free, (tt, tt))); sized = omega (arith, size) }

pub one_line-IsSound :
    {g : Gen} (l : Line) (n : ℕ)
    → All (Free g) (written l)
    → line_size l ≡ n
    → IsSound g (straight (l ∷ []) n)
unfolding lines_size
one_line-IsSound l n free size =
    IsChunk-IsSound n (IsChunk-cons l n free size IsChunk-nil) (omega arith)

pub li_lines-IsChunk : {g : Gen} (rd v : ℕ) → Free g rd → IsChunk g (li_lines rd v) 8
unfolding li_lines li li_line written lines_size line_size mnemonic_size is_compressed strip_prefix
li_lines-IsChunk rd v free = record { spares = ((free, tt), ((free, tt), tt)); sized = refl }

module _ {g : Gen} (room : IsRoomy 0 g) where
  Draws-register_item :
      (ops : List String)
      → every is_long ops ≡ true
      → 0 < length ops
      → Draws g (register_item ops) (IsSound g)
  unfolding register_item written line_size
  Draws-register_item ops long some_one =
      Draws-bind (Draws-choice_test is_long ops long some_one) λ op h.
        Draws-bind (Draws-rpair room) λ (a, b) _. Draws-bind (Draws-wreg room 6) λ rd free.
          Draws-pure _ (one_line-IsSound (three op rd a b) 4 (free, tt) (mnemonic_size-long op h))

  Draws-shift_item :
      (op : String) (edges : List ℕ)
      → is_long op ≡ true
      → 0 < length (edges ++ 0 ∷ [])
      → Draws g (shift_item op edges) (IsSound g)
  unfolding shift_item written line_size
  Draws-shift_item op edges h some_one = Draws-bind (Draws-below 32 (omega arith)) λ drawn _.
      Draws-bind
        (Draws-choice-Any (edges ++ drawn ∷ [])
          (omega (arith, length-append {0} edges (0 ∷ []), length-append {0} edges (drawn ∷ []))))
        λ sh _. Draws-bind (Draws-wreg room 6) λ rd free. Draws-bind (Draws-rreg room) λ a _.
          Draws-pure _
            (one_line-IsSound (immediate op rd a (pos sh)) 4 (free, tt) (mnemonic_size-long op h))

  Draws-chosen_shift :
      (ops : List String) (edges : List ℕ)
      → every is_long ops ≡ true
      → 0 < length ops
      → 0 < length (edges ++ 0 ∷ [])
      → Draws g (chosen_shift ops edges) (IsSound g)
  unfolding chosen_shift
  Draws-chosen_shift ops edges long some_one some_edge =
      Draws-bind (Draws-choice_test is_long ops long some_one)
        λ op h. Draws-shift_item op edges h some_edge

  Draws-immediate_item : Draws g immediate_item (IsSound g)
  unfolding immediate_item written line_size every is_long is_compressed strip_prefix
  Draws-immediate_item = Draws-bind (Draws-choice_test is_long alu_i refl (omega arith)) λ op h.
      Draws-bind (Draws-wreg room 6) λ rd free. Draws-bind (Draws-rreg room) λ a _.
        Draws-bind Draws-imm12 λ i _.
          Draws-pure _
            (one_line-IsSound (immediate op rd a i) 4 (free, tt) (mnemonic_size-long op h))

  Draws-unary_item : Draws g unary_item (IsSound g)
  unfolding unary_item written line_size every is_long is_compressed strip_prefix
  Draws-unary_item = Draws-bind (Draws-choice_test is_long zbb_u refl (omega arith)) λ op h.
      Draws-bind (Draws-wreg room 6) λ rd free.
        Draws-bind (Draws-rreg room) λ a _.
          Draws-pure _ (one_line-IsSound (two op rd a) 4 (free, tt) (mnemonic_size-long op h))

  pub Draws-g_alu_r : Draws g g_alu_r (IsSound g)
  unfolding g_alu_r every is_long is_compressed strip_prefix
  Draws-g_alu_r = Draws-register_item alu_r refl (omega arith)

  pub Draws-g_alu_i : Draws g g_alu_i (IsSound g)
  unfolding g_alu_i every is_long is_compressed strip_prefix
  Draws-g_alu_i = Draws-bind (Draws-chance 35) λ shift _.
      Draws-if shift (Draws-chosen_shift shift_i (0 ∷ 1 ∷ 31 ∷ []) refl (omega arith) (omega arith))
        Draws-immediate_item

  pub Draws-g_lui_auipc : Draws g g_lui_auipc (IsSound g)
  unfolding g_lui_auipc written line_size every is_long is_compressed strip_prefix
  Draws-g_lui_auipc =
      Draws-bind (Draws-choice_test is_long ("lui" ∷ "auipc" ∷ []) refl (omega arith)) λ op h.
        Draws-bind (Draws-below (2 ^ 20) (omega arith)) λ drawn _.
          Draws-bind (Draws-choice-Any _ (omega arith)) λ hi _.
            Draws-bind (Draws-wreg room 6) λ rd free.
              Draws-pure _
                (one_line-IsSound (upper op rd hi) 4 (free, tt) (mnemonic_size-long op h))

  pub Draws-g_m : Draws g g_m (IsSound g)
  unfolding g_m every is_long is_compressed strip_prefix
  Draws-g_m = Draws-register_item m_ops refl (omega arith)

  pub Draws-g_zba : Draws g g_zba (IsSound g)
  unfolding g_zba every is_long is_compressed strip_prefix
  Draws-g_zba = Draws-register_item zba refl (omega arith)

  pub Draws-g_zbb : Draws g g_zbb (IsSound g)
  unfolding g_zbb every is_long is_compressed strip_prefix
  Draws-g_zbb = Draws-bind Draws-random λ p _.
      Draws-if (lt_percent p 45) (Draws-register_item zbb_r refl (omega arith)) (
        Draws-if (lt_percent p 85) Draws-unary_item
          (Draws-shift_item "rori" (0 ∷ 1 ∷ 31 ∷ []) refl (omega arith)))

  pub Draws-g_zbs : Draws g g_zbs (IsSound g)
  unfolding g_zbs every is_long is_compressed strip_prefix
  Draws-g_zbs = Draws-bind (Draws-chance 50) λ b _.
      Draws-if b (Draws-register_item zbs_r refl (omega arith))
        (Draws-chosen_shift zbs_i (0 ∷ 31 ∷ []) refl (omega arith) (omega arith))

  pub Draws-g_li_special : Draws g g_li_special (IsSound g)
  unfolding g_li_special
  Draws-g_li_special = Draws-bind (Draws-wreg room 2) λ rd free.
      Draws-bind Draws-val λ v _. Draws-pure _ (IsChunk-IsSound 8 (li_lines-IsChunk rd v free) refl)

  Draws-alu_category : (c : AluCategory) → Draws g (alu_category c) (IsSound g)
  unfolding alu_category
  Draws-alu_category c_alu_r = Draws-g_alu_r
  Draws-alu_category c_alu_i = Draws-g_alu_i
  Draws-alu_category c_m = Draws-g_m
  Draws-alu_category c_zba = Draws-g_zba
  Draws-alu_category c_zbb = Draws-g_zbb
  Draws-alu_category c_zbs = Draws-g_zbs
  Draws-alu_category c_lui_auipc = Draws-g_lui_auipc

  pub Draws-alu_one : Draws g alu_one (IsSound g)
  unfolding alu_one
  Draws-alu_one = Draws-bind (Draws-choice-Any _ (omega arith)) λ c _. Draws-alu_category c
