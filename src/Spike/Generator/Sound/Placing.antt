-- ===== src/Spike/Generator/Sound/Placing.antt =====
-- The lines that `resolve` of tools/spike_diff/gen.py makes of items, and the labels that it takes.
use determinant.Base.{
  ℕ, ◌+◌, ◌≤◌, ◌<◌, ◌≡◌, refl, sym, ap, ◌∙◌, inl, inr, Bool, true, false, Option, none, some, List,
  [], ◌∷◌, arith, ◌==◌, Bool-cases, Option-cases, length, In, ◌⊎◌, All,
}
use determinant.Spike.Generator.Lines.{Label, Item}
use determinant.Spike.Generator.Draws.{Gen, next_label, choice}
use determinant.Spike.Generator.Rules.{
  Makes, Makes-bind, Makes-draw, Makes-pure, Draws-gets, Makes-if, Makes-Draws, Makes-modify, Draws,
  Draws-choice,
}
use determinant.Spike.Generator.Lines.{lines_size}
use determinant.Spike.Generator.Sound.{IsSound, IsChunk}
use determinant.Spike.Generator.Resolve.{
  Labels, label_at, candidates, new_label, label_for, targets_from, resolve,
}
use determinant.Spike.Generator.Blocks.{items_size}
use determinant.Spike.Generator.Sound.Reach.{InReach, candidates_iff}
use determinant.Spike.Generator.Sound.Filling.{lines_from-IsChunk}
use determinant.Spike.Generator.Sound.Targets.{IsPlaced, AreAimed, IsAimed}
use determinant.Spike.Generator.Sound.Reached.{lines_from-IsPlaced}

-- Only labels were taken.
pub record Labelled (g g' : Gen) : Type 0 where
  pub count : ℕ
  pub only : g' ≡ record g { nlabel = count }

pub Labelled-refl : (g : Gen) → Labelled g g
Labelled-refl g = record { count = g.nlabel; only = refl }

next_label_of : ℕ → Gen → Gen
next_label_of k g = record g { nlabel = k }

pub Labelled-trans : {g g' g'' : Gen} → Labelled g g' → Labelled g' g'' → Labelled g g''
unfolding next_label_of
Labelled-trans a b = record { count = b.count; only = b.only ∙ ap (next_label_of b.count) a.only }

pub Makes-next_label : {g : Gen} → Makes g next_label (λ _ g'. Labelled g g')
unfolding next_label
Makes-next_label {g} = Makes-bind (Makes-modify (λ g. record g { nlabel = g.nlabel + 1 })) λ _ g' e.
    Makes-Draws (Draws-gets (λ g. g.nlabel)) λ l _. record { count = g.nlabel + 1; only = e }

Makes-new_label :
    {g : Gen} (b : Bool) (e : Option Label) → Makes g (new_label b e) (λ _ g'. Labelled g g')
unfolding new_label
Makes-new_label true none = Makes-next_label
Makes-new_label true (some l) = Makes-pure l (Labelled-refl _)
Makes-new_label false e = Makes-next_label

-- Labels stay where they are.
Grows : Labels → Labels → Type 0
Grows labels all = (b : ℕ) (l : Label) → label_at b labels ≡ some l → label_at b all ≡ some l

-- Boundary t has the label now.
IsLabelFor : ℕ → Labels → Label → Labels → Type 0
IsLabelFor t labels l labels' = (label_at t labels' ≡ some l) × Grows labels labels'

new-IsLabelFor :
    (t : ℕ) (l : Label) (labels : Labels)
    → label_at t labels ≡ none
    → IsLabelFor t labels l ((t, l) ∷ labels)
unfolding IsLabelFor Grows label_at
new-IsLabelFor t l labels missing = (ground arith, λ b k at. later b k at (Bool-cases (b == t)))
  where
    later :
        (b : ℕ) (k : Label)
        → label_at b labels ≡ some k
        → ((b == t) ≡ true) ⊎ ((b == t) ≡ false)
        → label_at b ((t, l) ∷ labels) ≡ some k
    later b k at (inl same) =
        let same_place : b ≡ t = ground (arith, same) in
        let none_there = ap (λ b. label_at b labels) same_place ∙ missing in
        let clash : none ≡ some k = sym none_there ∙ at in absurd (ground (arith, clash))
    later b k at (inr other) = ground (arith, other, at)

Makes-label_for :
    {g : Gen} (t total : ℕ) (e : Option Label) (labels : Labels)
    → Makes g
        (label_for t total e labels)
        (λ (l, labels') g'. Labelled g g' × IsLabelFor t labels l labels')
unfolding label_for IsLabelFor Grows
Makes-label_for {g} t total e labels = elim (Option-cases (label_at t labels)) [
  | inl missing ↦
      rw (missing, label_for)
        (Makes-bind (Makes-new_label (t == total) e)
          λ l g' k. Makes-pure (l, (t, l) ∷ labels) (k, new-IsLabelFor t l labels missing))
  | inr (l, found) ↦
      rw (found, label_for) (Makes-pure (l, labels) (Labelled-refl g, (found, λ b k at. at)))
]

candidates-some :
    (t size maxdist : ℕ) (rest : List Item)
    → size ≤ maxdist
    → 0 < length (candidates 8 t size maxdist rest)
unfolding candidates
candidates-some t size maxdist [] h = ground (arith, h)
candidates-some t size maxdist (it ∷ rest) h = ground (arith, h)

All-candidates : (P : ℕ → Type 0) (ts : List ℕ) → ((t : ℕ) → In t ts → P t) → All P ts
All-candidates P [] f = tt
All-candidates P (t ∷ ts) f = (f t (inl refl), All-candidates P ts (λ u at. f u (inr at)))

-- A target is drawn from the boundaries in reach.
Draws-target :
    {g : Gen} (i size maxdist : ℕ) (rest : List Item)
    → size ≤ maxdist
    → Draws g (choice (candidates 8 i size maxdist rest)) (λ t. InReach t 8 i size maxdist rest)
Draws-target i size maxdist rest h =
    Draws-choice (candidates 8 i size maxdist rest)
      (All-candidates (λ t. InReach t 8 i size maxdist rest) (candidates 8 i size maxdist rest)
        (λ t. (candidates_iff t 8 i size maxdist rest).0))
      (candidates-some i size maxdist rest h)

-- What the first loop gives: the labels only grow, and each item that branches has a target.
HasTargets : Labels → ℕ → List Item → Labels × List (Option Label) → Type 0
HasTargets labels i items (all, ts) = Grows labels all × AreAimed all i items ts

Makes-targets_from :
    (g : Gen) (i total : ℕ) (e : Option Label) (labels : Labels) (items : List Item)
    → All (λ it. it.branches ≡ true → it.size ≤ it.maxdist) items
    → Makes g
        (targets_from i total e labels items)
        (λ r g'. Labelled g g' × HasTargets labels i items r)
unfolding targets_from HasTargets AreAimed IsAimed IsLabelFor Grows
Makes-targets_from g i total e labels [] h = Makes-pure _ (Labelled-refl g, ((λ b l at. at), tt))
Makes-targets_from g i total e labels (it ∷ rest) (reach, h) =
    Makes-if it.branches
      (λ b. Makes-draw (Draws-target (i + 1) it.size it.maxdist rest (reach b)) λ t near.
        Makes-bind (Makes-label_for t total e labels) λ (l, labels') g' (k, (at, grows)).
          Makes-bind (Makes-targets_from g' (i + 1) total e labels' rest h)
            λ (all, ts) g'' (k', (more, aims)). Makes-pure _ (
              Labelled-trans k k',
              ((λ b l at. more b l (grows b l at)), (inl (b, l, t, refl, more t l at, near), aims)),
            ))
      λ b.
        Makes-bind (Makes-targets_from g (i + 1) total e labels rest h)
          λ (all, ts) g' (k, (more, aims)). Makes-pure _ (k, (more, (inr (b, refl), aims)))

All-reach :
    (g : Gen) (items : List Item)
    → All (IsSound g) items
    → All (λ it. it.branches ≡ true → it.size ≤ it.maxdist) items
All-reach g [] h = tt
All-reach g (it ∷ rest) (s, h) = (s.reach, All-reach g rest h)

All-sized :
    (g : Gen) (items : List Item)
    → All (IsSound g) items
    → All (λ it. lines_size it.lines ≡ it.size) items
All-sized g [] h = tt
All-sized g (it ∷ rest) (s, h) = (s.sized, All-sized g rest h)

-- Sound items are always placed, in their order, each behind at most one label. An item that does
-- not branch keeps its lines, and in the lines of one that branches every hole is filled with one
-- label, which stands behind the item with no more bytes in between than it can jump over, or is
-- the label that the caller puts behind all the lines. The lines write no reserved register and
-- have the size of the items together, and of the attributes only the number of labels changes.
pub Makes-resolve :
    (g : Gen) (items : List Item) (e : Option Label)
    → All (IsSound g) items
    → Makes g
        (resolve items e)
        (λ ls g'. Labelled g g' × IsChunk g ls (items_size items) × IsPlaced e items ls)
unfolding resolve HasTargets
Makes-resolve g items e h =
    Makes-bind (Makes-targets_from g 0 (length items) e [] items (All-reach g items h))
      λ (labels, ts) g' (k, (grows, aims)). Makes-pure _ (
        k,
        lines_from-IsChunk 0 e labels items ts h,
        lines_from-IsPlaced labels e 0 items ts (All-sized g items h) aims,
      )
