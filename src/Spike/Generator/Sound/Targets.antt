-- ===== src/Spike/Generator/Sound/Targets.antt =====
-- Where the branches go that `resolve` of tools/spike_diff/gen.py places.
use determinant.Base.{
  ℕ, ◌+◌, ◌≤◌, ◌≡◌, refl, sym, ap, ◌∙◌, ◌⊎◌, inl, inr, true, false, Option, none, some, List, [],
  ◌∷◌, ◌++◌, map, arith, ◌==◌, Bool-cases,
}
use determinant.Spike.Generator.Lines.{
  Target, hole, to, place, offset_place, Line, branch, branch_zero, jal, jump, la, label, Label,
  Item, line_size, lines_size,
}
use determinant.Spike.Generator.Resolve.{
  Labels, label_at, fill_target, fill_place, fill, fill_all, label_lines, end_lines,
}
use determinant.Spike.Generator.Sound.Reach.{InReach}

-- The targets that stand in lines.
pub target_of : Line → List Target
target_of (branch op a b t) = t ∷ []
target_of (branch_zero op a t) = t ∷ []
target_of (jal rd t) = t ∷ []
target_of (jump op t) = t ∷ []
target_of (la rd (place t)) = t ∷ []
target_of (la rd (offset_place t i odd)) = t ∷ []
target_of line = []

pub targets : List Line → List Target
targets [] = []
targets (l ∷ ls) = target_of l ++ targets ls

-- The targets of lines with a label for each hole.
pub aimed : Label → List Target → List Target
aimed l [] = []
aimed l (hole ∷ ts) = to l ∷ aimed l ts
aimed l (to m ∷ ts) = to m ∷ aimed l ts

-- The label stands behind an item, no farther away than the item can jump: in the lines that
-- follow, or it is the label that the caller puts behind them.
unfoldable pub IsReached : (end_label : Option Label) → Item → Label → (after : List Line) → Type 0
IsReached end_label it l after =
    ((between : List Line) × (behind : List Line) × (after ≡ between ++ (label l ∷ behind))
      × (it.size + lines_size between ≤ it.maxdist))
    ⊎ ((end_label ≡ some l) × (it.size + lines_size after ≤ it.maxdist))

-- An item's own lines: those of an item that branches, with each hole filled by one label in reach,
-- or as they are.
unfoldable pub IsFilled : (end_label : Option Label) → Item → (own after : List Line) → Type 0
IsFilled end_label it own after =
    ((it.branches ≡ true)
      × (l : Label) × (own ≡ map (fill l) it.lines)
      × (targets own ≡ aimed l (targets it.lines))
      × IsReached end_label it l after)
    ⊎ ((it.branches ≡ false) × (own ≡ it.lines))

-- No line but a label.
pub IsLabels : List Line → Type 0
IsLabels ls = (ls ≡ []) ⊎ ((l : Label) × (ls ≡ label l ∷ []))

-- The lines of the items in turn, with at most a label in front of each and at the end.
unfoldable pub IsPlaced : (end_label : Option Label) → List Item → List Line → Type 0
IsPlaced end_label [] ls = IsLabels ls
IsPlaced end_label (it ∷ rest) ls =
    (before : List Line) × (own : List Line) × (after : List Line) × (ls ≡ before ++ (own ++ after))
    × IsLabels before
    × IsFilled end_label it own after
    × IsPlaced end_label rest after

-- What the first loop of `resolve` finds for one item: a boundary in reach that has the label.
unfoldable pub IsAimed : Labels → (i : ℕ) → Item → (rest : List Item) → Option Label → Type 0
IsAimed all i it rest t =
    ((it.branches ≡ true)
      × (l : Label) × (b : ℕ) × (t ≡ some l)
      × (label_at b all ≡ some l)
      × InReach b 8 (i + 1) it.size it.maxdist rest)
    ⊎ ((it.branches ≡ false) × (t ≡ none))

unfoldable pub AreAimed : Labels → (i : ℕ) → List Item → List (Option Label) → Type 0
AreAimed all i [] ts = Unit
AreAimed all i (it ∷ rest) [] = ⊥
AreAimed all i (it ∷ rest) (t ∷ ts) = IsAimed all i it rest t × AreAimed all (i + 1) rest ts

aimed-append : (l : Label) (xs ys : List Target) → aimed l (xs ++ ys) ≡ aimed l xs ++ aimed l ys
unfolding aimed
aimed-append l [] ys = refl
aimed-append l (hole ∷ xs) ys = ap (λ ts. to l ∷ ts) (aimed-append l xs ys)
aimed-append l (to m ∷ xs) ys = ap (λ ts. to m ∷ ts) (aimed-append l xs ys)

fill-target_of : (l : Label) (line : Line) → target_of (fill l line) ≡ aimed l (target_of line)
unfolding target_of aimed fill fill_target fill_place
fill-target_of l (branch op a b hole) = refl
fill-target_of l (branch op a b (to m)) = refl
fill-target_of l (branch_zero op a hole) = refl
fill-target_of l (branch_zero op a (to m)) = refl
fill-target_of l (jal rd hole) = refl
fill-target_of l (jal rd (to m)) = refl
fill-target_of l (jump op hole) = refl
fill-target_of l (jump op (to m)) = refl
fill-target_of l (la rd (place hole)) = refl
fill-target_of l (la rd (place (to m))) = refl
fill-target_of l (la rd (offset_place hole i odd)) = refl
fill-target_of l (la rd (offset_place (to m) i odd)) = refl
fill-target_of l line = refl

pub fill-targets : (l : Label) (ls : List Line) → targets (map (fill l) ls) ≡ aimed l (targets ls)
unfolding targets aimed
fill-targets l [] = refl
fill-targets l (x ∷ xs) =
    ap (λ ts. ts ++ targets (map (fill l) xs)) (fill-target_of l x)
    ∙ (ap (λ ts. aimed l (target_of x) ++ ts) (fill-targets l xs)
        ∙ sym (aimed-append l (target_of x) (targets xs)))

fill-size : (l : Label) (line : Line) → line_size (fill l line) ≡ line_size line
unfolding fill line_size
fill-size l (branch op a b t) = refl
fill-size l line = refl

pub fill_all-size : (t : Option Label) (ls : List Line) → lines_size (fill_all t ls) ≡ lines_size ls
unfolding fill_all lines_size
fill_all-size none ls = refl
fill_all-size (some l) [] = refl
fill_all-size (some l) (x ∷ xs) = omega (arith, fill-size l x, fill_all-size (some l) xs)

pub label_lines-size : (l : Option Label) → lines_size (label_lines l) ≡ 0
unfolding label_lines lines_size line_size
label_lines-size none = refl
label_lines-size (some l) = refl

pub label_lines-IsLabels : (l : Option Label) → IsLabels (label_lines l)
unfolding label_lines IsLabels
label_lines-IsLabels none = inl refl
label_lines-IsLabels (some l) = inr (l, refl)

pub end_lines-IsLabels : (l e : Option Label) → IsLabels (end_lines l e)
unfolding end_lines IsLabels
end_lines-IsLabels none e = inl refl
end_lines-IsLabels (some l) none = inr (l, refl)
end_lines-IsLabels (some l) (some e) = elim (Bool-cases (l == e)) [
  | inl same ↦ rw (same, end_lines) (inl refl)
  | inr other ↦ rw (other, end_lines) (inr (l, refl))
]
