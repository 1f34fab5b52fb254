-- ===== src/Spike/Generator/Sound/Reach.antt =====
-- The boundaries that `resolve` of tools/spike_diff/gen.py chooses a branch's target from.
use determinant.Base.{
  ℕ, zero, suc, ◌+◌, ◌-◌, ◌≤◌, ◌<◌, ◌≡◌, refl, sym, ap, ◌↔◌, ◌⊎◌, inl, inr, Bool, true, false, List,
  [], ◌∷◌, arith, ltb, ◌==◌, if◌then◌else◌, Bool-cases, length, take, In,
}
use determinant.Spike.Generator.Lines.{Item}
use determinant.Spike.Generator.Resolve.{candidates}
use determinant.Spike.Generator.Blocks.{items_size}

-- Boundary t is at most that many boundaries from t₀ on, and the items up to it fit.
pub record InReach (t rounds t₀ dist maxdist : ℕ) (rest : List Item) : Type 0 where
  pub from : t₀ ≤ t
  pub near : t < t₀ + rounds
  pub inside : t ≤ t₀ + length rest
  pub fits : dist + items_size (take (t - t₀) rest) ≤ maxdist

In-if : (t : ℕ) (b : Bool) (ts : List ℕ) → In t (if b then [] else ts) → (b ≡ false) × In t ts
In-if t true ts at = absurd at
In-if t false ts at = (refl, at)

pub items_size-first :
    (it : Item) (rest : List Item) (t t₀ : ℕ)
    → t₀ < t
    → items_size (take (t - t₀) (it ∷ rest)) ≡ it.size + items_size (take (t - (t₀ + 1)) rest)
unfolding items_size
items_size-first it rest t t₀ h =
    let e : t - t₀ ≡ suc (t - (t₀ + 1)) = omega arith in ap (λ k. items_size (take k (it ∷ rest))) e

pub take-none : (n : ℕ) → items_size (take n []) ≡ 0
unfolding items_size
take-none zero = refl
take-none (suc n) = refl

In-unless : (b : Bool) (t : ℕ) (ts : List ℕ) → b ≡ false → In t ts → In t (if b then [] else ts)
In-unless true t ts e at = absurd (ground (arith, e))
In-unless false t ts e at = at

pub le-cases : (m n : ℕ) → m ≤ n → (m ≡ n) ⊎ (m < n)
le-cases m n h = elim (Bool-cases (m == n)) [
  | inl same ↦ inl (ground (arith, same))
  | inr other ↦ inr (ground (arith, other, h))
]

-- The candidates are boundaries in reach.
candidates-InReach :
    (t rounds t₀ dist maxdist : ℕ) (rest : List Item)
    → In t (candidates rounds t₀ dist maxdist rest)
    → InReach t rounds t₀ dist maxdist rest
unfolding candidates items_size
candidates-InReach t zero t₀ dist maxdist rest at = absurd at
candidates-InReach t (suc k) t₀ dist maxdist [] at =
    let (fits, here) = In-if t (ltb maxdist dist) (t₀ ∷ []) at in
    elim here [
      | inl e ↦ record {
        from = omega (arith, e);
        near = omega (arith, e);
        inside = omega (arith, e);
        fits = ground (arith, fits, take-none (t - t₀));
      }
      | inr nowhere ↦ absurd nowhere
    ]
candidates-InReach t (suc k) t₀ dist maxdist (it ∷ rest) at =
    let (fits, here) =
      In-if t (ltb maxdist dist) (t₀ ∷ candidates k (t₀ + 1) (dist + it.size) maxdist rest) at in
    elim here [
      | inl e ↦ record {
        from = omega (arith, e);
        near = omega (arith, e);
        inside = omega (arith, e);
        fits = let z : t - t₀ ≡ 0 = omega (arith, e) in rw z (ground (arith, fits));
      }
      | inr later ↦
          let r = candidates-InReach t k (t₀ + 1) (dist + it.size) maxdist rest later in
          record {
            from = omega (arith, r.from);
            near = omega (arith, r.near);
            inside = omega (arith, r.inside);
            fits = omega (arith, r.fits, items_size-first it rest t t₀ (omega (arith, r.from)));
          }
    ]

-- A boundary in reach is a candidate.
InReach-candidates :
    (t rounds t₀ dist maxdist : ℕ) (rest : List Item)
    → InReach t rounds t₀ dist maxdist rest
    → In t (candidates rounds t₀ dist maxdist rest)
unfolding candidates items_size
InReach-candidates t zero t₀ dist maxdist rest r = absurd (omega (arith, r.from, r.near))
InReach-candidates t (suc k) t₀ dist maxdist [] r =
    let fits : ltb maxdist dist ≡ false = ground (arith, r.fits) in
    In-unless (ltb maxdist dist) t (t₀ ∷ []) fits (inl (omega (arith, r.from, r.inside)))
InReach-candidates t (suc k) t₀ dist maxdist (it ∷ rest) r =
    let fits : ltb maxdist dist ≡ false = ground (arith, r.fits) in
    In-unless (ltb maxdist dist) t (t₀ ∷ candidates k (t₀ + 1) (dist + it.size) maxdist rest) fits
      (elim (le-cases t₀ t r.from) [
        | inl e ↦ inl (sym e)
        | inr above ↦ inr (
            InReach-candidates t k (t₀ + 1) (dist + it.size) maxdist rest (record {
              from = omega (arith, above);
              near = omega (arith, r.near);
              inside = omega (arith, r.inside);
              fits = omega (arith, r.fits, items_size-first it rest t t₀ above);
            }))
      ])

-- The candidates for a branch's target are the boundaries in reach, no more and no fewer: at most
-- the given number of boundaries on, not past the end of the block, and with no more bytes in
-- between than the branch can jump over.
pub candidates_iff :
    (t rounds t₀ dist maxdist : ℕ) (rest : List Item)
    → In t (candidates rounds t₀ dist maxdist rest) ↔ InReach t rounds t₀ dist maxdist rest
candidates_iff t rounds t₀ dist maxdist rest = (
  candidates-InReach t rounds t₀ dist maxdist rest,
  InReach-candidates t rounds t₀ dist maxdist rest,
)
