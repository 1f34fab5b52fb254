-- ===== src/Spike/Generator/Rules.antt =====
-- Rules for what the methods of `Gen` of tools/spike_diff/gen.py return, whatever is drawn.
use determinant.Base.{
  ℕ, zero, suc, ◌+◌, ◌-◌, ◌%◌, ◌^◌, ◌≤◌, ◌<◌, ◌≡◌, refl, Bool, true, false, ◌&&◌, some, List, [],
  ◌∷◌, arith, if◌then◌else◌, length, get_elem?, All,
}
use native.Mathlib.Nat.{mod-lt}
use determinant.Base.Int.{sub_ℕ}
use determinant.Spike.Generator.Draws.{
  imm_special, small_val, bit_val, special, wrap32, Gen, Stream, M, ◌>>=◌, pure, gets, modify,
  below, choice, randrange, randint, random, lt_percent, chance, val, imm12,
}

-- `m` returns a value with P, whatever is drawn, and leaves the attributes alone.
pub record Draws {A : Type 0} (g : Gen) (m : M A) (P : A → Type 0) : Type 0 where
  pub at : (s : Stream) → (a : A) × (s' : Stream) × (m g s ≡ some (a, g, s')) × P a

-- `m` returns a value and new attributes with Q, whatever is drawn.
pub record Makes {A : Type 0} (g : Gen) (m : M A) (Q : A → Gen → Type 0) : Type 0 where
  pub at : (s : Stream) → (a : A) × (g' : Gen) × (s' : Stream) × (m g s ≡ some (a, g', s')) × Q a g'

module _ {A B : Type 0} {g : Gen} {m : M A} {f : A → M B} where
  pub Draws-bind :
      {P : A → Type 0} {Q : B → Type 0}
      → Draws g m P
      → ((a : A) → P a → Draws g (f a) Q)
      → Draws g (m >>= f) Q
  unfolding ◌>>=◌
  Draws-bind dm df = record {
    at = λ s.
        let (a, s', e, p) = dm.at s in
        let (b, s'', e', q) = (df a p).at s' in (b, s'', ground (arith, e, e'), q);
  }

  pub Makes-bind :
      {P : A → Gen → Type 0} {Q : B → Gen → Type 0}
      → Makes g m P
      → ((a : A) (g' : Gen) → P a g' → Makes g' (f a) Q)
      → Makes g (m >>= f) Q
  unfolding ◌>>=◌
  Makes-bind dm df = record {
    at = λ s.
        let (a, g', s', e, p) = dm.at s in
        let (b, g'', s'', e', q) = (df a g' p).at s' in (b, g'', s'', ground (arith, e, e'), q);
  }

  pub Makes-draw :
      {P : A → Type 0} {Q : B → Gen → Type 0}
      → Draws g m P
      → ((a : A) → P a → Makes g (f a) Q)
      → Makes g (m >>= f) Q
  unfolding ◌>>=◌
  Makes-draw dm df = record {
    at = λ s.
        let (a, s', e, p) = dm.at s in
        let (b, g'', s'', e', q) = (df a p).at s' in (b, g'', s'', ground (arith, e, e'), q);
  }

module _ {A : Type 0} {g : Gen} where
  pub Draws-pure : (a : A) {P : A → Type 0} → P a → Draws g (pure a) P
  unfolding pure
  Draws-pure a p = record { at = λ s. (a, s, refl, p) }

  pub Makes-pure : (a : A) {Q : A → Gen → Type 0} → Q a g → Makes g (pure a) Q
  unfolding pure
  Makes-pure a q = record { at = λ s. (a, g, s, refl, q) }

  pub Draws-gets : (f : Gen → A) → Draws g (gets f) (λ a. a ≡ f g)
  unfolding gets
  Draws-gets f = record { at = λ s. (f g, s, refl, refl) }

  pub Draws-if :
      {P : A → Type 0} (b : Bool) {m n : M A}
      → Draws g m P
      → Draws g n P
      → Draws g (if b then m else n) P
  Draws-if true dm dn = dm
  Draws-if false dm dn = dn

  pub Draws-weaken :
      {P Q : A → Type 0} {m : M A} → Draws g m P → ((a : A) → P a → Q a) → Draws g m Q
  Draws-weaken d w = record { at = λ s. let (a, s', e, p) = d.at s in (a, s', e, w a p) }

  pub Makes-if :
      {Q : A → Gen → Type 0} (b : Bool) {m n : M A}
      → (b ≡ true → Makes g m Q)
      → (b ≡ false → Makes g n Q)
      → Makes g (if b then m else n) Q
  Makes-if true dm dn = dm refl
  Makes-if false dm dn = dn refl

  pub Makes-Draws :
      {P : A → Type 0} {Q : A → Gen → Type 0} {m : M A}
      → Draws g m P
      → ((a : A) → P a → Q a g)
      → Makes g m Q
  Makes-Draws d w = record { at = λ s. let (a, s', e, p) = d.at s in (a, g, s', e, w a p) }

  pub Makes-weaken :
      {P Q : A → Gen → Type 0} {m : M A}
      → Makes g m P
      → ((a : A) (g' : Gen) → P a g' → Q a g')
      → Makes g m Q
  Makes-weaken d w = record { at = λ s. let (a, g', s', e, p) = d.at s in (a, g', s', e, w a g' p) }

pub Makes-modify : {g : Gen} (f : Gen → Gen) → Makes g (modify f) (λ _ g'. g' ≡ f g)
unfolding modify
Makes-modify {g} f = record { at = λ s. (tt, f g, s, refl, refl) }

-- The numbers that are drawn.
pub Draws-below : {g : Gen} (n : ℕ) → 0 < n → Draws g (below n) (λ d. d < n)
unfolding below
Draws-below n h = record { at = λ s. (s 0 % n, λ k. s (suc k), refl, mod-lt (s 0) h) }

get_elem?-All :
    {A : Type 0} (P : A → Type 0) (xs : List A) (i : ℕ)
    → All P xs
    → i < length xs
    → (a : A) × (get_elem? xs i ≡ some a) × P a
get_elem?-All P [] i h lt = absurd (omega arith)
get_elem?-All P (x ∷ xs) zero (p, h) lt = (x, refl, p)
get_elem?-All P (x ∷ xs) (suc i) (p, h) lt = get_elem?-All P xs i h (omega arith)

pub Draws-choice :
    {A : Type 0} {g : Gen} {P : A → Type 0} (xs : List A)
    → All P xs
    → 0 < length xs
    → Draws g (choice xs) P
unfolding choice
Draws-choice {P = P} xs all some_one = record {
  at = λ s.
      let (a, e, p) = get_elem?-All P xs (s 0 % length xs) all (mod-lt (s 0) some_one) in
      (a, (λ k. s (suc k)), ground (arith, e), p);
}

-- A choice of which nothing matters.
pub Any : {A : Type 0} → A → Type 0
Any a = Unit

pub All-Any : {A : Type 0} (xs : List A) → All Any xs
unfolding Any
All-Any [] = tt
All-Any (x ∷ xs) = (tt, All-Any xs)

pub any : {A : Type 0} (a : A) → Any a
unfolding Any
any a = tt

pub Draws-choice-Any :
    {A : Type 0} {g : Gen} (xs : List A) → 0 < length xs → Draws g (choice xs) Any
Draws-choice-Any xs h = Draws-choice xs (All-Any xs) h

pub Draws-Any : {A : Type 0} {g : Gen} {m : M A} {P : A → Type 0} → Draws g m P → Draws g m Any
Draws-Any d = Draws-weaken d (λ a _. any a)

unfoldable pub every : {A : Type 0} → (A → Bool) → List A → Bool
every test [] = true
every test (x ∷ xs) = test x && every test xs

All-every :
    {A : Type 0} (test : A → Bool) (xs : List A)
    → every test xs ≡ true
    → All (λ a. test a ≡ true) xs
unfolding every
All-every test [] h = tt
All-every test (x ∷ xs) h = (ground arith, All-every test xs (ground arith))

-- A choice from a list of which a test holds throughout.
pub Draws-choice_test :
    {A : Type 0} {g : Gen} (test : A → Bool) (xs : List A)
    → every test xs ≡ true
    → 0 < length xs
    → Draws g (choice xs) (λ a. test a ≡ true)
Draws-choice_test test xs h some_one = Draws-choice xs (All-every test xs h) some_one

pub Draws-randrange : {g : Gen} (a b : ℕ) → a < b → Draws g (randrange a b) (λ d. (a ≤ d) × (d < b))
unfolding randrange
Draws-randrange a b h =
    Draws-bind (Draws-below (b - a) (omega arith))
      λ d lt. Draws-pure (a + d) (omega arith, omega arith)

pub Draws-randint : {g : Gen} (a b : ℕ) → Draws g (randint a b) Any
unfolding randint
Draws-randint a b =
    Draws-bind (Draws-below (a + b + 1) (omega arith)) λ d lt. Draws-pure (sub_ℕ d a) (any _)

pub Draws-random : {g : Gen} → Draws g random Any
unfolding random
Draws-random = Draws-Any (Draws-below (2 ^ 53) (omega arith))

pub Draws-chance : {g : Gen} (p : ℕ) → Draws g (chance p) Any
unfolding chance
Draws-chance p = Draws-bind Draws-random λ r _. Draws-pure (lt_percent r p) (any _)

pub Draws-imm12 : {g : Gen} → Draws g imm12 Any
unfolding imm12
Draws-imm12 =
    Draws-bind (Draws-chance 30)
      λ b _. Draws-if b (Draws-choice-Any imm_special (omega arith)) (Draws-randint 2048 2047)

Draws-small_val : {g : Gen} → Draws g small_val Any
unfolding small_val
Draws-small_val = Draws-bind (Draws-randint 64 64) λ v _. Draws-pure (wrap32 v) (any _)

Draws-bit_val : {g : Gen} → Draws g bit_val Any
unfolding bit_val
Draws-bit_val = Draws-bind (Draws-below 32 (omega arith)) λ k _. Draws-choice-Any _ (omega arith)

pub Draws-val : {g : Gen} → Draws g val Any
unfolding val
Draws-val = Draws-bind Draws-random λ p _.
    Draws-if (lt_percent p 25) (Draws-choice-Any special (omega arith)) (
      Draws-if (lt_percent p 35) Draws-small_val
        (Draws-if (lt_percent p 45) Draws-bit_val (Draws-Any (Draws-below (2 ^ 32) (omega arith)))))
