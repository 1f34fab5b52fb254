-- ===== src/Spike/Generator/Sound/Ending.antt =====
-- The ends of a program: `Gen.terminator` of tools/spike_diff/gen.py.
use determinant.Base.{ℕ, ◌<◌, String, ◌≡◌, refl, Bool, true, List, [], ◌∷◌, arith, ltb, ◌==◌, All}
use determinant.Base.Int.{pos}
use determinant.Spike.Generator.Lines.{
  Line, immediate, upper, load, store, jalr, plain, two_bytes, four_bytes,
}
use determinant.Spike.Generator.Draws.{Gen}
use determinant.Spike.Generator.Rules.{
  Draws, Draws-bind, Draws-pure, Draws-gets, Draws-if, Draws-below, Draws-choice, Any, any,
  Draws-choice-Any, every, Draws-choice_test, Draws-randrange, Draws-chance,
}
use determinant.Spike.Generator.Lines.{written}
use determinant.Spike.Generator.Registers.{Free, IsRoomy, Draws-tmp, Draws-wreg, Draws-rreg}
use determinant.Spike.Generator.Program.{
  stop_lines, misaligned, misaligned_load, misaligned_store, misaligned_amo, unmapped,
  unmapped_load, unmapped_store, unmapped_amo, unmapped_jump, counter_write, unknown_csr,
  reserved_word, reserved_half, high_fault, fault_case, fault_lines, terminator,
}

-- Lines that write no reserved register.
pub record IsSpared (g : Gen) (ls : List Line) : Type 0 where
  pub spares : All (λ l. All (Free g) (written l)) ls

one_line-IsSpared : {g : Gen} (l : Line) → All (Free g) (written l) → IsSpared g (l ∷ [])
one_line-IsSpared l free = record { spares = (free, tt) }

two_lines-IsSpared :
    {g : Gen} (l k : Line)
    → All (Free g) (written l)
    → All (Free g) (written k)
    → IsSpared g (l ∷ k ∷ [])
two_lines-IsSpared l k free free' = record { spares = (free, (free', tt)) }

Draws-stop_lines : {g : Gen} → Draws g stop_lines (IsSpared g)
unfolding stop_lines written
Draws-stop_lines =
    Draws-choice _
      (
        one_line-IsSpared _ tt,
        (
          one_line-IsSpared _ tt,
          (
            one_line-IsSpared _ tt,
            (one_line-IsSpared _ tt, (record { spares = (tt, (tt, (tt, tt))) }, tt)),
          ),
        ),
      )
      (omega arith)

Draws-misaligned : {g : Gen} (w : ℕ) → 1 < w → Draws g (misaligned w) Any
unfolding misaligned
Draws-misaligned w h =
    Draws-bind (Draws-below 201 (omega arith))
      λ n _. Draws-bind (Draws-randrange 1 w h) λ d _. Draws-pure _ (any _)

Draws-unmapped : {g : Gen} → Draws g unmapped Any
unfolding unmapped
Draws-unmapped =
    Draws-bind (Draws-randrange 0x50 0x100000 (omega arith)) λ v _. Draws-choice-Any _ (omega arith)

is_wide : String × ℕ → Bool
is_wide (op, w) = ltb 1 w

is_wide-Holds : (op : String) (w : ℕ) → is_wide (op, w) ≡ true → 1 < w
unfolding is_wide
is_wide-Holds op w h = ground (arith, h)

module _ {g : Gen} (rd rs t base : ℕ) (free : Free g rd) (spare : Free g t)
    (zero_free : Free g 0) where
  Draws-misaligned_load : Draws g (misaligned_load rd base) (IsSpared g)
  unfolding misaligned_load every is_wide written
  Draws-misaligned_load = Draws-bind (Draws-choice_test is_wide _ refl (omega arith)) λ (op, w) h.
      Draws-bind (Draws-misaligned w (is_wide-Holds op w h))
        λ off _. Draws-pure _ (one_line-IsSpared (load op rd off base) (free, tt))

  Draws-misaligned_store : Draws g (misaligned_store rs base) (IsSpared g)
  unfolding misaligned_store every is_wide written
  Draws-misaligned_store = Draws-bind (Draws-choice_test is_wide _ refl (omega arith)) λ (op, w) h.
      Draws-bind (Draws-misaligned w (is_wide-Holds op w h))
        λ off _. Draws-pure _ (one_line-IsSpared (store op rs off base) tt)

  Draws-misaligned_amo : Draws g (misaligned_amo rd rs t base) (IsSpared g)
  unfolding misaligned_amo written
  Draws-misaligned_amo =
      Draws-bind
        (Draws-choice {P = λ l. All (Free g) (written l)} _
          ((free, tt), ((free, tt), ((free, tt), ((free, tt), tt)))) (omega arith))
        λ insn fr. Draws-bind (Draws-choice-Any _ (omega arith)) λ off _.
          Draws-pure _ (two_lines-IsSpared (immediate "addi" t base off) insn (spare, tt) fr)

  Draws-unmapped_load : (hi : ℕ) → Draws g (unmapped_load rd t hi) (IsSpared g)
  unfolding unmapped_load written
  Draws-unmapped_load hi = Draws-bind (Draws-choice-Any _ (omega arith)) λ op _.
      Draws-bind (Draws-choice-Any _ (omega arith)) λ off _.
        Draws-pure _
          (two_lines-IsSpared (upper "lui" t hi) (load op rd (pos off) t) (spare, tt) (free, tt))

  Draws-unmapped_store : (hi : ℕ) → Draws g (unmapped_store rs t hi) (IsSpared g)
  unfolding unmapped_store written
  Draws-unmapped_store hi = Draws-bind (Draws-choice-Any _ (omega arith)) λ op _.
      Draws-bind (Draws-choice-Any _ (omega arith)) λ off _.
        Draws-pure _
          (two_lines-IsSpared (upper "lui" t hi) (store op rs (pos off) t) (spare, tt) tt)

  Draws-unmapped_amo : (hi : ℕ) → Draws g (unmapped_amo rd rs t hi) (IsSpared g)
  unfolding unmapped_amo written
  Draws-unmapped_amo hi =
      Draws-bind
        (Draws-choice {P = λ l. All (Free g) (written l)} _
          ((free, tt), ((free, tt), ((free, tt), tt))) (omega arith))
        λ insn fr. Draws-pure _ (two_lines-IsSpared (upper "lui" t hi) insn (spare, tt) fr)

  Draws-unmapped_jump : (hi : ℕ) → Draws g (unmapped_jump rd t hi) (IsSpared g)
  unfolding unmapped_jump written
  Draws-unmapped_jump hi = Draws-bind (Draws-choice-Any _ (omega arith)) λ off _.
      Draws-pure _
        (two_lines-IsSpared (upper "lui" t hi) (jalr rd (pos off) t) (spare, tt) (free, tt))

  Draws-counter_write : Draws g (counter_write rd rs) (IsSpared g)
  unfolding counter_write written
  Draws-counter_write =
      Draws-bind
        (Draws-choice {P = λ l. All (Free g) (written l)} _
          ((free, tt), ((zero_free, tt), ((free, tt), ((free, tt), tt)))) (omega arith))
        λ l fr. Draws-pure _ (one_line-IsSpared l fr)

  Draws-unknown_csr : Draws g (unknown_csr rd) (IsSpared g)
  unfolding unknown_csr written
  Draws-unknown_csr =
      Draws-bind
        (Draws-choice {P = λ l. All (Free g) (written l)} _
          ((free, tt), ((free, tt), ((free, tt), tt))) (omega arith))
        λ l fr. Draws-pure _ (one_line-IsSpared l fr)

  Draws-reserved_word : Draws g reserved_word (IsSpared g)
  unfolding reserved_word written
  Draws-reserved_word =
      Draws-bind (Draws-choice-Any _ (omega arith))
        λ w _. Draws-pure _ (one_line-IsSpared (four_bytes w) tt)

  Draws-reserved_half : Draws g reserved_half (IsSpared g)
  unfolding reserved_half written
  Draws-reserved_half =
      Draws-bind (Draws-choice-Any _ (omega arith))
        λ h _. Draws-pure _ (one_line-IsSpared (two_bytes h) tt)

  Draws-high_fault : (k hi : ℕ) → Draws g (high_fault k rd rs t hi) (IsSpared g)
  unfolding high_fault written
  Draws-high_fault k hi = Draws-if (k == 3) (Draws-unmapped_load hi) (
      Draws-if (k == 4) (Draws-unmapped_store hi) (
        Draws-if (k == 5) (Draws-unmapped_amo hi) (
          Draws-if (k == 6) (Draws-unmapped_jump hi) (
            Draws-if (k == 7) Draws-counter_write (
              Draws-if (k == 8) Draws-unknown_csr (
                Draws-if (k == 9) Draws-reserved_word (
                  Draws-if (k == 10) Draws-reserved_half
                    (Draws-pure _ (one_line-IsSpared (plain "ecall") tt)))))))))

  Draws-fault_case : (k : ℕ) → Draws g (fault_case k rd rs t base) (IsSpared g)
  unfolding fault_case
  Draws-fault_case k = Draws-if (k == 0) Draws-misaligned_load (
      Draws-if (k == 1) Draws-misaligned_store (
        Draws-if (k == 2) Draws-misaligned_amo
          (Draws-bind Draws-unmapped λ hi _. Draws-high_fault k hi)))

-- A program's end, whichever it is.
pub Draws-terminator : {g : Gen} → IsRoomy 0 g → Draws g terminator (IsSpared g)
unfolding terminator fault_lines
Draws-terminator room = Draws-bind (Draws-chance 70) λ stops _. Draws-if stops Draws-stop_lines (
    Draws-bind (Draws-gets (λ g. g.base)) λ base _. Draws-bind (Draws-tmp room) λ t (spare, _).
      Draws-bind (Draws-wreg room 6) λ rd free. Draws-bind (Draws-rreg room) λ rs _.
        Draws-bind (Draws-below 12 (omega arith))
          λ k _. Draws-fault_case rd rs t base free spare room.zero_free k)
