-- ===== src/Spike/Generator/Draws.antt =====
-- The state of `Gen` of tools/spike_diff/gen.py and its random helpers. What `self.rng` gives is a
-- stream of numbers, and each call of it takes the next one; a method is a function of the other
-- attributes and of the stream.
use determinant.Base.{
  ℕ, zero, suc, ◌+◌, ◌-◌, ◌*◌, ◌%◌, ◌^◌, Bool, false, ◌||◌, Option, none, some, List, [], ◌∷◌, ltb,
  ◌==◌, if◌then◌else◌, length, get_elem?,
}
use determinant.Base.Int.{ℤ, pos, negsuc, sub_ℕ, neg}
use determinant.Spike.Generator.Lines.{Label}

-- The attributes of `Gen` other than `rng` and `weights`; a set is a list of its elements.
pub record Gen : Type 0 where
  pub base : ℕ
  pub reserved : List ℕ
  pub noread : List ℕ
  pub nlabel : ℕ
  pub in_loop : Bool

abbrev pub Stream : Type 0
Stream = ℕ → ℕ

-- `none` is the `IndexError` of `rng.choice` on an empty list.
abbrev pub M : Type 0 → Type 0
M A = Gen → Stream → Option (A × Gen × Stream)

infixl 5 ◌>>=◌ ◌>>◌
unfoldable pub ◌>>=◌ : {A B : Type 0} → M A → (A → M B) → M B
◌>>=◌ m f g s = elim (m g s) [ none ↦ none | some (a, g', s') ↦ f a g' s' ]

abbrev pub ◌>>◌ : {B : Type 0} → M (Unit {0}) → M B → M B
m >> k = m >>= λ _. k

unfoldable pub pure : {A : Type 0} → A → M A
pure a g s = some (a, g, s)

unfoldable pub gets : {A : Type 0} → (Gen → A) → M A
gets f g s = some (f g, g, s)

unfoldable pub modify : (Gen → Gen) → M (Unit {0})
modify f g s = some (tt, f g, s)

-- The next number of the stream, below n.
unfoldable pub below : ℕ → M ℕ
below n g s = some (s 0 % n, g, λ k. s (suc k))

-- `rng.choice(xs)`
unfoldable pub choice : {A : Type 0} → List A → M A
choice xs g s = elim (get_elem? xs (s 0 % length xs)) [
  | none ↦ none
  | some a ↦ some (a, g, λ k. s (suc k))
]

-- `rng.randrange(a, b)`, and `rng.randint(-a, b)`.
unfoldable pub randrange : ℕ → ℕ → M ℕ
randrange a b = do d ← below (b - a); pure (a + d)

unfoldable pub randint : (a b : ℕ) → M ℤ
randint a b = do d ← below (a + b + 1); pure (sub_ℕ d a)

-- `rng.random()` is a number of 53 bits over 2 ^ 53; a bound is given in percent.
unfoldable pub random : M ℕ
random = below (2 ^ 53)

unfoldable pub lt_percent : ℕ → ℕ → Bool
lt_percent r p = ltb (r * 100) (p * 2 ^ 53)

unfoldable pub chance : ℕ → M Bool
chance p = do r ← random; pure (lt_percent r p)

unfoldable pub member : ℕ → List ℕ → Bool
member x [] = false
member x (y ∷ ys) = (x == y) || member x ys

-- `[r for r in choices if r not in taken]`
unfoldable pub without : List ℕ → List ℕ → List ℕ
without taken [] = []
without taken (r ∷ rs) = let rest = without taken rs in if member r taken then rest else r ∷ rest

-- `range(a, a + n)`
unfoldable pub range_from : ℕ → ℕ → List ℕ
range_from a zero = []
range_from a (suc n) = a ∷ range_from (a + 1) n

-- `SPECIAL`
abbrev pub special : List ℕ
special =
    0 ∷ 1 ∷ 2 ∷ 3 ∷ 0xFFFFFFFF ∷ 0xFFFFFFFE ∷ 0x80000000 ∷ 0x7FFFFFFF ∷ 0x80000001 ∷ 31 ∷ 32 ∷ 33
    ∷ 63 ∷ 64 ∷ 0x7F ∷ 0x80 ∷ 0xFF ∷ 0x100 ∷ 0x7FFF ∷ 0x8000 ∷ 0xFFFF ∷ 0x10000 ∷ 0xFFFF8000
    ∷ 0xFFFFFF80 ∷ 0xFFFF0000 ∷ 0x00FF00FF ∷ 0xFF00FF00 ∷ 0x01010101 ∷ 0x80808080 ∷ 0x7F7F7F7F
    ∷ 0xAAAAAAAA ∷ 0x55555555 ∷ 0x00000800 ∷ 0xFFFFF800 ∷ 0x000007FF ∷ []

-- `IMM_SPECIAL`
abbrev pub imm_special : List ℤ
imm_special =
    pos 0
    ∷ pos 1
    ∷ neg 1
    ∷ pos 2047
    ∷ neg 2048
    ∷ pos 2
    ∷ neg 2
    ∷ pos 31
    ∷ pos 32
    ∷ pos 0x7FF
    ∷ neg 0x800
    ∷ pos 0x400
    ∷ neg 0x400
    ∷ []

-- `v & M32` of an integer.
unfoldable pub wrap32 : ℤ → ℕ
wrap32 (pos n) = n % 2 ^ 32
wrap32 (negsuc n) = 2 ^ 32 - 1 - n % 2 ^ 32

-- `val`
unfoldable pub small_val : M ℕ
small_val = do v ← randint 64 64; pure (wrap32 v)

unfoldable pub bit_val : M ℕ
bit_val = do
  k ← below 32
  let b = 2 ^ k
  choice (b ∷ (2 ^ 32 - b) % 2 ^ 32 ∷ (b - 1) ∷ (2 ^ 32 - 1 - b) ∷ [])

unfoldable pub val : M ℕ
val = do
  p ← random
  if lt_percent p 25
      then choice special
      else if lt_percent p 35
      then small_val
      else if lt_percent p 45
      then bit_val
      else below (2 ^ 32)

unfoldable pub imm12 : M ℤ
imm12 = do b ← chance 30; if b then choice imm_special else randint 2048 2047

-- `label`
unfoldable pub next_label : M Label
next_label = do modify (λ g. record g { nlabel = g.nlabel + 1 }); gets (λ g. g.nlabel)

-- `tmp(choices)`
unfoldable pub tmp_from : List ℕ → M ℕ
tmp_from choices = do taken ← gets (λ g. 0 ∷ g.reserved); choice (without taken choices)

unfoldable pub tmp : M ℕ
tmp = tmp_from (range_from 1 31)

-- `wreg(x0_prob)`
unfoldable pub free_reg : M ℕ
free_reg = do taken ← gets (λ g. g.reserved); choice (without taken (range_from 1 31))

unfoldable pub wreg : ℕ → M ℕ
wreg x0_prob = do b ← chance x0_prob; if b then pure 0 else free_reg

unfoldable pub readable_reg : List ℕ → M ℕ
readable_reg choices = do taken ← gets (λ g. g.noread); choice (without taken choices)

unfoldable pub rreg : M ℕ
rreg = do b ← chance 5; if b then pure 0 else readable_reg (range_from 1 31)

unfoldable pub rpair : M (ℕ × ℕ)
rpair = do a ← rreg; same ← chance 10; b ← if same then pure a else rreg; pure (a, b)

unfoldable pub cw : M ℕ
cw = tmp_from (range_from 8 8)

unfoldable pub cr : M ℕ
cr = readable_reg (range_from 8 8)
