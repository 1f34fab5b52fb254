-- ===== src/Base/Bits.antt =====
-- `&` with a constant mask and `|` of disjoint fields, as arithmetic. A law at a numeral mask
-- takes one step of the digit recursion for each bit of the mask.
use Prim.Native.Nat.{
  ℕ, zero, suc, ◌+◌, ◌-◌, ◌*◌, ◌/◌, ◌%◌, ◌^◌, ◌≤◌, ◌<◌, min, max, bit_and, bit_or, bit_xor, differ,
  digits, bit_and-bitwise, bit_or-bitwise, bit_xor-bitwise,
}
use mathlib.Core.Path.{◌≡◌, refl, ap}
use mathlib.Core.Bool.{Bool, true, ◌&&◌}
use native.Mathlib.Nat.{pow-suc, one-le-pow}
use native.Mathlib.Omega.{arith}

-- A test of every value below a bound, by evaluation.
unfoldable pub all_below : ℕ → (ℕ → Bool) → Bool
all_below zero test = true
all_below (suc bound) test = all_below bound test && test bound

pub all_below_sound :
    (bound : ℕ) (test : ℕ → Bool) (i : ℕ) → all_below bound test ≡ true → i < bound → test i ≡ true
unfolding all_below
all_below_sound zero test i passed inside = absurd (omega arith)
all_below_sound (suc bound) test i passed inside = ground (arith, all_below_sound bound test i)

-- The rounds of the native definition do not matter once they reach the first number.
module _ (alone : ℕ → ℕ) (on_digits : ℕ → ℕ → ℕ) where
  rounds_irrelevant :
      (k l x y : ℕ) → x ≤ k → x ≤ l → digits alone on_digits k x y ≡ digits alone on_digits l x y
  rounds_irrelevant zero zero x y hk hl = refl
  rounds_irrelevant (suc k) (suc l) zero y hk hl = refl
  rounds_irrelevant zero (suc l) zero y hk hl = refl
  rounds_irrelevant (suc k) zero zero y hk hl = refl
  rounds_irrelevant zero (suc l) (suc x) y hk hl = absurd (omega arith)
  rounds_irrelevant (suc k) zero (suc x) y hk hl = absurd (omega arith)
  rounds_irrelevant (suc k) (suc l) (suc x) y hk hl =
      rw (rounds_irrelevant k l (suc x / 2) (y / 2) (omega arith) (omega arith))

  -- The round that the native definition makes on a successor's half.
  half_rounds :
      (x y : ℕ)
      → digits alone on_digits x (suc x / 2) (y / 2)
        ≡ digits alone on_digits (suc x / 2) (suc x / 2) (y / 2)
  half_rounds x y = rounds_irrelevant x (suc x / 2) (suc x / 2) (y / 2) (omega arith) (omega arith)

pub bit_and_step : (x y : ℕ) → bit_and x y ≡ bit_and (x / 2) (y / 2) * 2 + min (x % 2) (y % 2)
bit_and_step zero y = simp bit_and-bitwise (omega arith)
bit_and_step (suc x) y = omega (
  arith,
  half_rounds (λ z. 0) min x y,
  bit_and-bitwise (suc x / 2) (y / 2),
  bit_and-bitwise (suc x) y,
)

pub bit_or_step : (x y : ℕ) → bit_or x y ≡ bit_or (x / 2) (y / 2) * 2 + max (x % 2) (y % 2)
bit_or_step zero y = simp bit_or-bitwise (omega arith)
bit_or_step (suc x) y = omega (
  arith,
  half_rounds (λ z. z) max x y,
  bit_or-bitwise (suc x / 2) (y / 2),
  bit_or-bitwise (suc x) y,
)

-- By rounds that reach the number.
zero_mask : (rounds x : ℕ) → x ≤ rounds → (bit_and x 0 ≡ 0) × (bit_or x 0 ≡ x)
zero_mask rounds zero enough = (refl, refl)
zero_mask zero (suc x) enough = absurd (omega arith)
zero_mask (suc rounds) (suc x) enough =
    let (and_half, or_half) = zero_mask rounds (suc x / 2) (omega arith) in
    (omega (arith, and_half, bit_and_step (suc x) 0), omega (arith, or_half, bit_or_step (suc x) 0))

pub bit_and-zero : (x : ℕ) → bit_and x 0 ≡ 0
bit_and-zero x = (zero_mask x x (omega arith)).0

pub bit_or-zero : (x : ℕ) → bit_or x 0 ≡ x
bit_or-zero x = (zero_mask x x (omega arith)).1

double : (q k : ℕ) → q * 2 ^ suc k ≡ 2 * (q * 2 ^ k)
double q k = omega (arith, ap (λ (t : ℕ). q * t) (pow-suc 2 k))

-- `&` and `|` act on the low `k` bits and on those above them apart.
pub bit_and_fields :
    (k p q r s : ℕ)
    → r < 2 ^ k
    → s < 2 ^ k
    → bit_and (p * 2 ^ k + r) (q * 2 ^ k + s) ≡ bit_and p q * 2 ^ k + bit_and r s
bit_and_fields zero p q zero zero hr hs = ground arith
bit_and_fields zero p q zero (suc s) hr hs = absurd (omega arith)
bit_and_fields zero p q (suc r) s hr hs = absurd (omega arith)
bit_and_fields (suc k) p q r s hr hs = ground (
  arith,
  bit_and_step (p * 2 ^ suc k + r) (q * 2 ^ suc k + s),
  bit_and_step r s,
  double p k,
  double q k,
  double (bit_and p q) k,
  pow-suc 2 k,
  bit_and_fields k p q (r / 2) (s / 2),
)

pub bit_or_fields :
    (k p q r s : ℕ)
    → r < 2 ^ k
    → s < 2 ^ k
    → bit_or (p * 2 ^ k + r) (q * 2 ^ k + s) ≡ bit_or p q * 2 ^ k + bit_or r s
bit_or_fields zero p q zero zero hr hs = ground arith
bit_or_fields zero p q zero (suc s) hr hs = absurd (omega arith)
bit_or_fields zero p q (suc r) s hr hs = absurd (omega arith)
bit_or_fields (suc k) p q r s hr hs = ground (
  arith,
  bit_or_step (p * 2 ^ suc k + r) (q * 2 ^ suc k + s),
  bit_or_step r s,
  double p k,
  double q k,
  double (bit_or p q) k,
  pow-suc 2 k,
  bit_or_fields k p q (r / 2) (s / 2),
)

-- Masks of low ones.
low_ones : (k r : ℕ) → r < 2 ^ k → bit_and r (2 ^ k - 1) ≡ r
low_ones zero r h = omega (arith, bit_and-zero r)
low_ones (suc k) r h =
    ground (arith, one-le-pow k 2, pow-suc 2 k, bit_and_step r (2 ^ suc k - 1), low_ones k (r / 2))

zero_and : (b : ℕ) → bit_and 0 b ≡ 0
zero_and b = bit_and-bitwise 0 b

pub bit_and_mask : (k a : ℕ) → bit_and a (2 ^ k - 1) ≡ a % 2 ^ k
bit_and_mask k a = ground (
  arith,
  one-le-pow k 2,
  bit_and_fields k (a / 2 ^ k) 0 (a % 2 ^ k) (2 ^ k - 1),
  bit_and-zero (a / 2 ^ k),
  low_ones k (a % 2 ^ k),
)

pub bit_and-lt : (k a b : ℕ) → a < 2 ^ k → bit_and a b < 2 ^ k
bit_and-lt zero a b h = ground (arith, zero_and b)
bit_and-lt (suc k) a b h =
    ground (arith, pow-suc 2 k, bit_and_step a b, bit_and-lt k (a / 2) (b / 2))

pub bit_or_zero_left : (b : ℕ) → bit_or 0 b ≡ b
bit_or_zero_left b = bit_or-bitwise 0 b

pub bit_and_zero_left : (b : ℕ) → bit_and 0 b ≡ 0
bit_and_zero_left b = bit_and-bitwise 0 b

pub bit_xor_step : (x y : ℕ) → bit_xor x y ≡ bit_xor (x / 2) (y / 2) * 2 + differ (x % 2) (y % 2)
bit_xor_step zero y = simp bit_xor-bitwise (omega arith)
bit_xor_step (suc x) y = omega (
  arith,
  half_rounds (λ z. z) differ x y,
  bit_xor-bitwise (suc x / 2) (y / 2),
  bit_xor-bitwise (suc x) y,
)

-- The low `k` bits of `^` come from the low `k` bits of its arguments.
pub bit_xor_low :
    (k p q r s : ℕ)
    → r < 2 ^ k
    → s < 2 ^ k
    → bit_xor (p * 2 ^ k + r) (q * 2 ^ k + s) ≡ bit_xor p q * 2 ^ k + bit_xor r s
bit_xor_low zero p q zero zero hr hs = ground arith
bit_xor_low zero p q zero (suc s) hr hs = absurd (omega arith)
bit_xor_low zero p q (suc r) s hr hs = absurd (omega arith)
bit_xor_low (suc k) p q r s hr hs = ground (
  arith,
  bit_xor_step (p * 2 ^ suc k + r) (q * 2 ^ suc k + s),
  bit_xor_step r s,
  double p k,
  double q k,
  double (bit_xor p q) k,
  pow-suc 2 k,
  bit_xor_low k p q (r / 2) (s / 2),
)
