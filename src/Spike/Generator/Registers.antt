-- ===== src/Spike/Generator/Registers.antt =====
-- The choice of registers in tools/spike_diff/gen.py: `tmp`, `wreg`, `rreg`, `cw` and `cr`.
use determinant.Base.{
  ℕ, zero, suc, ◌+◌, ◌≤◌, ◌<◌, ◌≡◌, refl, sym, ◌∙◌, subst, ◌≢◌, inl, inr, true, false, List, [],
  ◌∷◌, arith, ◌==◌, Bool-cases, length, All, In,
}
use determinant.Spike.Generator.Draws.{
  free_reg, readable_reg, Gen, choice, member, without, range_from, tmp_from, tmp, wreg, rreg,
  rpair, cw, cr,
}
use determinant.Spike.Generator.Rules.{
  All-Any, Draws, Draws-bind, Draws-pure, Draws-gets, Draws-if, Draws-weaken, Draws-choice, Any,
  any, Draws-Any, Draws-chance,
}

-- The register is not reserved.
abbrev pub Free : Gen → ℕ → Type 0
Free g r = member r g.reserved ≡ false

-- There is room for n more reserved registers, and x0 is not one of them.
pub record IsRoomy (n : ℕ) (g : Gen) : Type 0 where
  pub zero_free : member 0 g.reserved ≡ false
  pub few : length g.reserved + n ≤ 6
  pub few_unread : length g.noread + n ≤ 6

pub IsRoomy-le : {g : Gen} (m n : ℕ) → m ≤ n → IsRoomy n g → IsRoomy m g
IsRoomy-le m n h r = record {
  zero_free = r.zero_free;
  few = omega (arith, r.few);
  few_unread = omega (arith, r.few_unread);
}

length-without_le : (taken rs : List ℕ) → length (without taken rs) ≤ length rs
unfolding without
length-without_le taken [] = omega arith
length-without_le taken (r ∷ rs) = ground (arith, length-without_le taken rs)

length-without_lt :
    (a : ℕ) (rs : List ℕ) → member a rs ≡ true → length (without (a ∷ []) rs) < length rs
unfolding without member
length-without_lt a [] h = absurd (cc)
length-without_lt a (r ∷ rs) h = elim (Bool-cases (r == a)) [
  | inl same ↦ ground (arith, same, length-without_le (a ∷ []) rs)
  | inr other ↦ ground (arith, other, length-without_lt a rs)
]

pub member-without : (a r : ℕ) (rs : List ℕ) → r ≢ a → member r (without (a ∷ []) rs) ≡ member r rs
unfolding without member
member-without a r [] ne = refl
member-without a r (x ∷ rs) ne = elim (Bool-cases (x == a)) [
  | inl same ↦ ground (arith, same, member-without a r rs ne)
  | inr other ↦ ground (arith, other, member-without a r rs ne)
]

-- Fewer numbers than a range has cannot be all of it.
fresh :
    (n a : ℕ) (taken : List ℕ)
    → length taken < n
    → (r : ℕ) × (member r taken ≡ false) × (a ≤ r) × In r (range_from a n)
unfolding range_from
fresh zero a taken h = absurd (omega arith)
fresh (suc n) a taken h = elim (Bool-cases (member a taken)) [
  | inr free ↦ (a, free, omega arith, inl refl)
  | inl there ↦
      let (r, free, above, at) =
        fresh n (a + 1) (without (a ∷ []) taken) (omega (arith, length-without_lt a taken there)) in
      let other : r ≢ a = λ e. absurd (omega (arith, above, e)) in
      (r, sym (member-without a r taken other) ∙ free, omega arith, inr at)
]

length-without_pos :
    (taken rs : List ℕ) (r : ℕ) → In r rs → member r taken ≡ false → 0 < length (without taken rs)
unfolding without
length-without_pos taken [] r at free = absurd at
length-without_pos taken (x ∷ rs) r (inl e) free =
    let new : member x taken ≡ false = subst (λ k. member k taken ≡ false) e free in
    ground (arith, new)
length-without_pos taken (x ∷ rs) r (inr at) free =
    ground (arith, length-without_pos taken rs r at free)

All-without :
    (P : ℕ → Type 0) (taken rs : List ℕ)
    → All P rs
    → All (λ r. (member r taken ≡ false) × P r) (without taken rs)
unfolding without
All-without P taken [] h = tt
All-without P taken (x ∷ rs) (p, h) = elim (Bool-cases (member x taken)) [
  | inl there ↦ rw there (All-without P taken rs h)
  | inr free ↦ rw free ((free, p), All-without P taken rs h)
]

-- A choice among what is not taken of some candidates that hold a whole range.
Draws-free :
    {g : Gen} {P : ℕ → Type 0} (taken choices : List ℕ) (n a : ℕ)
    → ((r : ℕ) → In r (range_from a n) → In r choices)
    → length taken < n
    → All P choices
    → Draws g (choice (without taken choices)) (λ r. (member r taken ≡ false) × P r)
Draws-free {P = P} taken choices n a covers room all =
    let (r, free, above, at) = fresh n a taken room in
    Draws-choice (without taken choices) (All-without P taken choices all)
      (length-without_pos taken choices r (covers r at) free)

tmp-Free : (g : Gen) (r : ℕ) → member r (0 ∷ g.reserved) ≡ false → Free g r × (r ≢ 0)
unfolding member
tmp-Free g r h = (ground (arith, h), λ e. absurd (ground (arith, h, e)))

module _ {g : Gen} (room : IsRoomy 0 g) where
  -- Candidates that hold eight registers in a row are enough for `tmp`.
  pub Draws-tmp_from :
      {P : ℕ → Type 0} (choices : List ℕ) (n a : ℕ)
      → ((r : ℕ) → In r (range_from a n) → In r choices)
      → 8 ≤ n
      → All P choices
      → Draws g (tmp_from choices) (λ t. Free g t × (t ≢ 0) × P t)
  unfolding tmp_from
  Draws-tmp_from {P} choices n a covers h all =
      Draws-bind (Draws-gets (λ g. 0 ∷ g.reserved)) λ taken e.
        Draws-weaken (Draws-free taken choices n a covers (rw e (omega (arith, h, room.few))) all)
          (λ r (free, p).
            let (f, ne) = tmp-Free g r (subst (λ t. member r t ≡ false) e free) in (f, ne, p))

  pub Draws-tmp : Draws g tmp (λ t. Free g t × (t ≢ 0))
  unfolding tmp
  Draws-tmp =
      Draws-weaken (Draws-tmp_from (range_from 1 31) 31 1 (λ r at. at) (omega arith) (All-Any _))
        (λ t (free, ne, _). (free, ne))

  pub Draws-cw : Draws g cw (λ t. Free g t × (t ≢ 0))
  unfolding cw
  Draws-cw =
      Draws-weaken (Draws-tmp_from (range_from 8 8) 8 8 (λ r at. at) (omega arith) (All-Any _))
        (λ t (free, ne, _). (free, ne))

  Draws-free_reg : Draws g free_reg (Free g)
  unfolding free_reg
  Draws-free_reg = Draws-bind (Draws-gets (λ g. g.reserved)) λ taken e.
      Draws-weaken
        (Draws-free taken (range_from 1 31) 31 1 (λ r at. at) (rw e (omega (arith, room.few)))
          (All-Any _))
        (λ r (free, _). subst (λ t. member r t ≡ false) e free)

  pub Draws-wreg : (p : ℕ) → Draws g (wreg p) (Free g)
  unfolding wreg
  Draws-wreg p =
      Draws-bind (Draws-chance p) λ b _. Draws-if b (Draws-pure 0 room.zero_free) Draws-free_reg

  Draws-readable_reg :
      (choices : List ℕ) (n a : ℕ)
      → ((r : ℕ) → In r (range_from a n) → In r choices)
      → 8 ≤ n
      → Draws g (readable_reg choices) Any
  unfolding readable_reg
  Draws-readable_reg choices n a covers h = Draws-bind (Draws-gets (λ g. g.noread)) λ taken e.
      Draws-Any (
        Draws-free taken choices n a covers (rw e (omega (arith, h, room.few_unread)))
          (All-Any choices))

  pub Draws-rreg : Draws g rreg Any
  unfolding rreg
  Draws-rreg = Draws-bind (Draws-chance 5) λ b _.
      Draws-if b (Draws-pure 0 (any 0))
        (Draws-readable_reg (range_from 1 31) 31 1 (λ r at. at) (omega arith))

  pub Draws-rpair : Draws g rpair Any
  unfolding rpair
  Draws-rpair = Draws-bind Draws-rreg λ a _. Draws-bind (Draws-chance 10) λ same _.
      Draws-bind (Draws-if same (Draws-pure a (any a)) Draws-rreg) λ b _. Draws-pure (a, b) (any _)

  pub Draws-cr : Draws g cr Any
  unfolding cr
  Draws-cr = Draws-readable_reg (range_from 8 8) 8 8 (λ r at. at) (omega arith)
