-- ===== src/Spike/Constants.antt =====
-- `s12` and `Gen.li` of tools/spike_diff/gen.py: how the generator puts a constant into a register.
use determinant.Base.{
  ℕ, zero, suc, ◌+◌, ◌-◌, ◌*◌, ◌/◌, ◌%◌, ◌^◌, ◌≤◌, ◌<◌, bit_and, ◌≡◌, refl, ap, ◌∙◌, ◌≢◌, ◌⊎◌, inl,
  inr, List, [], ◌∷◌, arith, ltb, ◌==◌, if◌then◌else◌, Bool-cases, All,
}
use determinant.Base.Bits.{bit_and_mask, bit_and_fields, bit_and-zero}
use determinant.Base.Int.{ℤ, pos, negsuc, sub_ℕ, ◌+ℤ◌, ◌≤ℤ◌, neg}

-- `s12(v)` for a non-negative v.
unfoldable pub s12 : ℕ → ℤ
s12 v = let w = bit_and v 0xFFF in if bit_and w 0x800 == 0 then pos w else sub_ℕ w 0x1000

-- `v >> 12` and `v & 0xFFFFF`, which round down and wrap around for a negative v.
shift12 : ℤ → ℤ
shift12 (pos n) = pos (n / 4096)
shift12 (negsuc n) = negsuc (n / 4096)

low20 : ℤ → ℕ
low20 (pos n) = n % 2 ^ 20
low20 (negsuc n) = 2 ^ 20 - 1 - n % 2 ^ 20

-- `-v`
negated : ℤ → ℤ
negated (pos n) = neg n
negated (negsuc n) = pos (suc n)

pub data Instruction : Type 0 where
  lui : (rd hi : ℕ) → Instruction
  addi : (rd rs : ℕ) → ℤ → Instruction

-- `Gen.li(rd, v)`, for a non-negative v.
unfoldable pub li : ℕ → ℕ → List Instruction
unfolding s12 shift12 low20 negated
li rd v =
    let w = v % 2 ^ 32 in
    lui rd (low20 (shift12 (pos w +ℤ negated (s12 w)))) ∷ addi rd rd (s12 w) ∷ []

-- What the two instructions do to the registers, by the RISC-V specification.
abbrev pub Registers : Type 0
Registers = ℕ → ℕ

unfoldable pub write : Registers → (rd value : ℕ) → Registers
write regs zero value r = regs r
write regs (suc rd) value r = if r == suc rd then value else regs r

-- An integer modulo 2 ^ 32.
unfoldable pub wrap32 : ℤ → ℕ
wrap32 (pos n) = n % 2 ^ 32
wrap32 (negsuc n) = 2 ^ 32 - 1 - n % 2 ^ 32

pub step : Instruction → Registers → Registers
unfolding write wrap32
step (lui rd hi) regs = write regs rd (hi * 4096 % 2 ^ 32)
step (addi rd rs imm) regs = write regs rd (wrap32 (pos (regs rs) +ℤ imm))

pub run : List Instruction → Registers → Registers
unfolding step
run [] regs = regs
run (i ∷ is) regs = run is (step i regs)

-- The immediates fit the instructions' fields.
pub Encodable : Instruction → Type 0
Encodable (lui rd hi) = hi < 2 ^ 20
Encodable (addi rd rs imm) = (neg 2048 ≤ℤ imm) × (imm ≤ℤ pos 2047)

-- Bit 11 decides the sign.
sign_bit : (w : ℕ) → w < 4096 → (bit_and w 0x800 ≡ 0) ⊎ (2048 ≤ w)
sign_bit w h = elim (Bool-cases (ltb w 2048)) [
  | inl small ↦ inl (ground (arith, small, bit_and_fields 11 0 1 w 0, bit_and-zero w))
  | inr large ↦ inr (ground (arith, large))
]

sign_bit_set : (w : ℕ) → w < 4096 → 2048 ≤ w → bit_and w 0x800 ≡ 0x800
sign_bit_set w h g = ground (arith, bit_and_fields 11 1 1 (w - 2048) 0, bit_and-zero (w - 2048))

s12_cases :
    (v : ℕ)
    → ((v % 4096 < 2048) × (s12 v ≡ pos (v % 4096)))
      ⊎ ((2048 ≤ v % 4096) × (s12 v ≡ negsuc (4095 - v % 4096)))
unfolding s12
s12_cases v = elim (Bool-cases (ltb (v % 4096) 2048)) [
  | inl small ↦
      inl (ground (arith, small), ground (arith, small, bit_and_mask 12 v, sign_bit (v % 4096)))
  | inr large ↦
      inr (ground (arith, large), ground (arith, large, bit_and_mask 12 v, sign_bit_set (v % 4096)))
]

abbrev upper : ℕ → ℤ → ℕ
unfolding low20 shift12 negated
upper w lo = low20 (shift12 (pos w +ℤ negated lo))

upper_pos : (w l : ℕ) → w < 2 ^ 32 → l ≡ w % 4096 → upper w (pos l) ≡ w / 4096
unfolding upper low20 shift12 negated
upper_pos w zero h e = ground arith
upper_pos w (suc l) h e = ground arith

upper_neg :
    (w k : ℕ) → k < 2048 → k + w % 4096 ≡ 4095 → upper w (negsuc k) ≡ (w / 4096 + 1) % 2 ^ 20
unfolding upper low20 shift12 negated
upper_neg w k h e = ground arith

-- The sum that `addi` forms.
sum_pos :
    (w l : ℕ) → w < 2 ^ 32 → l ≡ w % 4096 → wrap32 (pos (w / 4096 * 4096 % 2 ^ 32) +ℤ pos l) ≡ w
unfolding wrap32
sum_pos w l h e = ground arith

sum_neg :
    (w k : ℕ)
    → w < 2 ^ 32
    → k < 2048
    → k + w % 4096 ≡ 4095
    → wrap32 (pos ((w / 4096 + 1) % 2 ^ 20 * 4096 % 2 ^ 32) +ℤ negsuc k) ≡ w
unfolding wrap32
sum_neg w k h small e = elim (Bool-cases (w / 4096 == 2 ^ 20 - 1)) [
  | inl top ↦ ground (arith, top)
  | inr below ↦ ground (arith, below)
]

pub write_read : (regs : Registers) (rd v : ℕ) → rd ≢ 0 → write regs rd v rd ≡ v
unfolding write
write_read regs zero v h = absurd (h refl)
write_read regs (suc rd) v h = ground arith

pub write_other : (regs : Registers) (rd v r : ℕ) → r ≢ rd → write regs rd v r ≡ regs r
unfolding write
write_other regs zero v r h = refl
write_other regs (suc rd) v r h = ground arith

module _ (rd w : ℕ) (regs : Registers) (nonzero : rd ≢ 0) where
  abbrev pair : (hi : ℕ) → ℤ → List Instruction
  pair hi lo = lui rd hi ∷ addi rd rd lo ∷ []

  run-pair : (hi : ℕ) (lo : ℤ) → run (pair hi lo) regs rd ≡ wrap32 (pos (hi * 4096 % 2 ^ 32) +ℤ lo)
  unfolding run step
  run-pair hi lo =
      let after = write regs rd (hi * 4096 % 2 ^ 32) in
      write_read after rd (wrap32 (pos (after rd) +ℤ lo)) nonzero
      ∙ ap (λ x. wrap32 (pos x +ℤ lo)) (write_read regs rd (hi * 4096 % 2 ^ 32) nonzero)

  run-pair_other : (hi : ℕ) (lo : ℤ) (r : ℕ) → r ≢ rd → run (pair hi lo) regs r ≡ regs r
  unfolding run step
  run-pair_other hi lo r other =
      let after = write regs rd (hi * 4096 % 2 ^ 32) in
      write_other after rd (wrap32 (pos (after rd) +ℤ lo)) r other
      ∙ write_other regs rd (hi * 4096 % 2 ^ 32) r other

  pair-Loads :
      (lo : ℤ)
      → w < 2 ^ 32
      → ((w % 4096 < 2048) × (lo ≡ pos (w % 4096)))
        ⊎ ((2048 ≤ w % 4096) × (lo ≡ negsuc (4095 - w % 4096)))
      → (run (pair (upper w lo) lo) regs rd ≡ w) × All Encodable (pair (upper w lo) lo)
  unfolding Encodable
  pair-Loads lo h (inl (small, e)) =
      let up = upper_pos w (w % 4096) h refl in
      rw (e, run-pair (upper w (pos (w % 4096))) (pos (w % 4096)), up)
        (sum_pos w (w % 4096) h refl, (omega arith, ((omega arith, omega arith), tt)))
  pair-Loads lo h (inr (large, e)) =
      let k = 4095 - w % 4096 in
      let up = upper_neg w k (omega arith) (omega arith) in
      rw (e, run-pair (upper w (negsuc k)) (negsuc k), up)
        (sum_neg w k h (omega arith) (omega arith), (omega arith, ((omega arith, omega arith), tt)))

-- Run on a RISC-V hart, the two instructions of `li` leave v, modulo 2 ^ 32, in its register and
-- every other register as it was, and their immediates fit their fields. The register is not x0.
pub run-li :
    (rd v r : ℕ) (regs : Registers)
    → rd ≢ 0
    → r ≢ rd
    → (run (li rd v) regs rd ≡ v % 2 ^ 32)
      × (run (li rd v) regs r ≡ regs r)
      × All Encodable (li rd v)
unfolding li
run-li rd v r regs nonzero other =
    let w = v % 2 ^ 32 in
    let (value, fits) = pair-Loads rd w regs nonzero (s12 w) (omega arith) (s12_cases w) in
    (value, run-pair_other rd w regs nonzero (upper w (s12 w)) (s12 w) r other, fits)
