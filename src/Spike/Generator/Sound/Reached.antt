-- ===== src/Spike/Generator/Sound/Reached.antt =====
-- The lines of the second loop of `resolve` in tools/spike_diff/gen.py, with the labels in them.
use determinant.Base.{
  ℕ, ◌+◌, ◌-◌, ◌≤◌, ◌≡◌, refl, sym, ap, ◌∙◌, subst, ◌⊎◌, inl, inr, Option, none, some, List, [],
  ◌∷◌, ◌++◌, map, append_assoc, arith, ◌==◌, Bool-cases, length, take, All,
}
use determinant.Spike.Generator.Lines.{Line, label, Label, Item, lines_size, lines_size-append}
use determinant.Spike.Generator.Resolve.{
  Labels, label_at, fill, fill_all, label_lines, end_lines, lines_from,
}
use determinant.Spike.Generator.Blocks.{items_size}
use determinant.Spike.Generator.Sound.Reach.{take-none, items_size-first, le-cases}
use determinant.Spike.Generator.Sound.Targets.{
  targets, IsReached, IsFilled, IsPlaced, IsAimed, AreAimed, fill-targets, fill_all-size,
  label_lines-size, label_lines-IsLabels, end_lines-IsLabels,
}

-- The label stands in lines behind others of that size, or it is the caller's, behind all of them.
IsAt : (end_label : Option Label) → Label → ℕ → List Line → Type 0
IsAt end_label l n ls =
    ((between : List Line) × (behind : List Line) × (ls ≡ between ++ (label l ∷ behind))
      × (lines_size between ≡ n))
    ⊎ ((end_label ≡ some l) × (lines_size ls ≡ n))

IsAt-behind :
    (e : Option Label) (l : Label) (m n : ℕ) (xs ls : List Line)
    → lines_size xs ≡ m
    → IsAt e l n ls
    → IsAt e l (m + n) (xs ++ ls)
unfolding IsAt
IsAt-behind e l m n xs ls size (inl (between, behind, split, before)) = inl (
  xs ++ between,
  behind,
  ap (λ ls. xs ++ ls) split ∙ sym (append_assoc xs between (label l ∷ behind)),
  omega (arith, lines_size-append xs between, size, before),
)
IsAt-behind e l m n xs ls size (inr (last, whole)) =
    inr (last, omega (arith, lines_size-append xs ls, size, whole))

end_lines-IsAt : (l : Label) (o e : Option Label) → o ≡ some l → IsAt e l 0 (end_lines o e)
unfolding IsAt lines_size end_lines
end_lines-IsAt l o e at = subst (λ o. IsAt e l 0 (end_lines o e)) (sym at) (by_end e)
  where
    by_end : (e : Option Label) → IsAt e l 0 (end_lines (some l) e)
    by_end none = inl ([], [], refl, refl)
    by_end (some k) = elim (Bool-cases (l == k)) [
      | inl same ↦
          let here : k ≡ l = ground (arith, same) in rw (same, end_lines) (inr (ap some here, refl))
      | inr other ↦ rw (other, end_lines) (inl ([], [], refl, refl))
    ]

label_lines-IsAt :
    (l : Label) (o e : Option Label) (rest : List Line)
    → o ≡ some l
    → IsAt e l 0 (label_lines o ++ rest)
unfolding IsAt label_lines lines_size
label_lines-IsAt l o e rest at =
    subst (λ o. IsAt e l 0 (label_lines o ++ rest)) (sym at) (inl ([], rest, refl, refl))

abbrev IsSized : Item → Type 0
IsSized it = lines_size it.lines ≡ it.size

-- A boundary that has a label has it in the lines, behind the items before the boundary.
lines_from-IsAt :
    (all : Labels) (e : Option Label) (l : Label) (b i : ℕ) (items : List Item)
    (ts : List (Option Label))
    → All IsSized items
    → AreAimed all i items ts
    → i ≤ b
    → b ≤ i + length items
    → label_at b all ≡ some l
    → IsAt e l (items_size (take (b - i) items)) (lines_from i e all items ts)
unfolding lines_from AreAimed items_size
lines_from-IsAt all e l b i [] ts sized h from upto at =
    let same : b ≡ i = omega arith in
    subst (λ n. IsAt e l n (end_lines (label_at i all) e)) (sym (take-none (b - i)))
      (end_lines-IsAt l (label_at i all) e (subst (λ b. label_at b all ≡ some l) same at))
lines_from-IsAt all e l b i (it ∷ rest) [] sized h from upto at = absurd h
lines_from-IsAt all e l b i (it ∷ rest) (t ∷ ts) (size, sized) (aim, h) from upto at =
    let front = label_lines (label_at i all) in
    let own = fill_all t it.lines in
    let after = lines_from (i + 1) e all rest ts in
    elim (le-cases i b from) [
      | inl same ↦
          let none_before : 0 ≡ items_size (take (b - i) (it ∷ rest)) = first_of it rest same in
          subst (λ n. IsAt e l n (front ++ (own ++ after))) none_before
            (label_lines-IsAt l (label_at i all) e (own ++ after)
              (ap (λ i. label_at i all) same ∙ at))
      | inr above ↦
          let later =
            lines_from-IsAt all e l b (i + 1) rest ts sized h (omega arith) (omega arith) at in
          let n = items_size (take (b - (i + 1)) rest) in
          let steps : 0 + (it.size + n) ≡ items_size (take (b - i) (it ∷ rest)) =
            omega (arith, items_size-first it rest b i above) in
          subst (λ n. IsAt e l n (front ++ (own ++ after))) steps
            (IsAt-behind e l 0 (it.size + n) front (own ++ after)
              (label_lines-size (label_at i all))
              (IsAt-behind e l it.size n own after (fill_all-size t it.lines ∙ size) later))
    ]
  where
    first_of : (it : Item) (rest : List Item) → i ≡ b → 0 ≡ items_size (take (b - i) (it ∷ rest))
    first_of it rest same =
        let z : b - i ≡ 0 = omega (arith, same) in sym (ap (λ n. items_size (take n (it ∷ rest))) z)

IsAt-IsReached :
    (e : Option Label) (it : Item) (l : Label) (n : ℕ) (after : List Line)
    → it.size + n ≤ it.maxdist
    → IsAt e l n after
    → IsReached e it l after
unfolding IsAt IsReached
IsAt-IsReached e it l n after fits (inl (between, behind, split, size)) =
    inl (between, behind, split, omega (arith, fits, size))
IsAt-IsReached e it l n after fits (inr (last, size)) = inr (last, omega (arith, fits, size))

IsAimed-IsFilled :
    (all : Labels) (e : Option Label) (i : ℕ) (it : Item) (rest : List Item) (t : Option Label)
    (ts : List (Option Label))
    → All IsSized rest
    → IsAimed all i it rest t
    → AreAimed all (i + 1) rest ts
    → IsFilled e it (fill_all t it.lines) (lines_from (i + 1) e all rest ts)
unfolding IsAimed IsFilled fill_all
IsAimed-IsFilled all e i it rest t ts sized (inl (branches, l, b, chosen, at, near)) h =
    let found =
      lines_from-IsAt all e l b (i + 1) rest ts sized h near.from (omega (arith, near.inside)) at in
    let filled : fill_all t it.lines ≡ map (fill l) it.lines = fill_all-some t l it.lines chosen in
    inl (
      branches,
      l,
      filled,
      ap targets filled ∙ fill-targets l it.lines,
      IsAt-IsReached e it l (items_size (take (b - (i + 1)) rest))
          (lines_from (i + 1) e all rest ts) near.fits found,
    )
  where
    fill_all-some :
        (t : Option Label) (l : Label) (ls : List Line)
        → t ≡ some l
        → fill_all t ls ≡ map (fill l) ls
    fill_all-some t l ls chosen = ap (λ t. fill_all t ls) chosen
IsAimed-IsFilled all e i it rest t ts sized (inr (straight_on, nothing)) h =
    inr (straight_on, fill_all-none t it.lines nothing)
  where
    fill_all-none : (t : Option Label) (ls : List Line) → t ≡ none → fill_all t ls ≡ ls
    fill_all-none t ls nothing = ap (λ t. fill_all t ls) nothing

-- The lines of the second loop, where the first found the targets.
pub lines_from-IsPlaced :
    (all : Labels) (e : Option Label) (i : ℕ) (items : List Item) (ts : List (Option Label))
    → All (λ it. lines_size it.lines ≡ it.size) items
    → AreAimed all i items ts
    → IsPlaced e items (lines_from i e all items ts)
unfolding lines_from AreAimed IsPlaced
lines_from-IsPlaced all e i [] ts sized h = end_lines-IsLabels (label_at i all) e
lines_from-IsPlaced all e i (it ∷ rest) [] sized h = absurd h
lines_from-IsPlaced all e i (it ∷ rest) (t ∷ ts) (size, sized) (aim, h) = (
  label_lines (label_at i all),
  fill_all t it.lines,
  lines_from (i + 1) e all rest ts,
  refl,
  label_lines-IsLabels (label_at i all),
  IsAimed-IsFilled all e i it rest t ts sized aim h,
  lines_from-IsPlaced all e (i + 1) rest ts sized h,
)
