-- ===== src/Spike/Generator/Resolve.antt =====
-- `resolve` of tools/spike_diff/gen.py: the labels of the forward branches.
use determinant.Base.{
  ℕ, zero, suc, ◌+◌, Bool, true, false, Option, none, some, List, [], ◌∷◌, ◌++◌, map, ltb, ◌==◌,
  if◌then◌else◌, length,
}
use determinant.Spike.Generator.Lines.{
  Target, hole, to, Place, place, offset_place, data_middle, Line, branch, branch_zero, jal, jump,
  la, label, Label, Item,
}
use determinant.Spike.Generator.Draws.{M, ◌>>=◌, pure, choice, next_label}

-- `labels`: the item boundaries that have a label.
abbrev pub Labels : Type 0
Labels = List (ℕ × Label)

unfoldable pub label_at : ℕ → Labels → Option Label
label_at t [] = none
label_at t ((u, l) ∷ ls) = let rest = label_at t ls in if t == u then some l else rest

-- The boundaries from t on that are in reach, at most that many; `rest` are the items from t on,
-- and `dist` is the distance to t.
unfoldable pub candidates : (rounds t dist maxdist : ℕ) → (rest : List Item) → List ℕ
candidates zero t dist maxdist rest = []
candidates (suc k) t dist maxdist [] = if ltb maxdist dist then [] else t ∷ []
candidates (suc k) t dist maxdist (it ∷ rest) =
    let further = candidates k (t + 1) (dist + it.size) maxdist rest in
    if ltb maxdist dist then [] else t ∷ further

-- The label of boundary t: the one that it has, the end's, or a new one.
unfoldable pub new_label : (at_end : Bool) → Option Label → M Label
new_label true (some l) = pure l
new_label true none = next_label
new_label false e = next_label

unfoldable pub label_for : (t total : ℕ) → Option Label → Labels → M (Label × Labels)
label_for t total end_label labels = elim (label_at t labels) [
  | some l ↦ pure (l, labels)
  | none ↦ do l ← new_label (t == total) end_label; pure (l, (t, l) ∷ labels)
]

-- The first loop, from item i on: the labels, and the target of each item that branches.
unfoldable pub targets_from :
    (i total : ℕ) → Option Label → Labels → List Item → M (Labels × List (Option Label))
targets_from i total end_label labels [] = pure (labels, [])
targets_from i total end_label labels (it ∷ rest) =
    if it.branches
    then (do
      t ← choice (candidates 8 (i + 1) it.size it.maxdist rest)
      (l, labels') ← label_for t total end_label labels
      (all, targets) ← targets_from (i + 1) total end_label labels' rest
      pure (all, some l ∷ targets))
    else (do
      (all, targets) ← targets_from (i + 1) total end_label labels rest
      pure (all, none ∷ targets))

-- `line.replace("{L}", l)`
unfoldable pub fill_target : Label → Target → Target
fill_target l hole = to l
fill_target l (to m) = to m

unfoldable pub fill_place : Label → Place → Place
fill_place l (place t) = place (fill_target l t)
fill_place l (offset_place t i odd) = offset_place (fill_target l t) i odd
fill_place l data_middle = data_middle

unfoldable pub fill : Label → Line → Line
fill l (branch op a b t) = branch op a b (fill_target l t)
fill l (branch_zero op a t) = branch_zero op a (fill_target l t)
fill l (jal rd t) = jal rd (fill_target l t)
fill l (jump op t) = jump op (fill_target l t)
fill l (la rd p) = la rd (fill_place l p)
fill l line = line

unfoldable pub fill_all : Option Label → List Line → List Line
fill_all none ls = ls
fill_all (some l) ls = map (fill l) ls

unfoldable pub label_lines : Option Label → List Line
label_lines none = []
label_lines (some l) = label l ∷ []

-- The label behind the last item, unless it is the end's own.
unfoldable pub end_lines : Option Label → Option Label → List Line
end_lines none e = []
end_lines (some l) none = label l ∷ []
end_lines (some l) (some e) = if l == e then [] else label l ∷ []

-- The second loop, and what follows it.
unfoldable pub lines_from :
    (i : ℕ) → Option Label → Labels → List Item → List (Option Label) → List Line
lines_from i end_label labels [] ts = end_lines (label_at i labels) end_label
lines_from i end_label labels (it ∷ rest) [] =
    label_lines (label_at i labels) ++ (it.lines ++ lines_from (i + 1) end_label labels rest [])
lines_from i end_label labels (it ∷ rest) (t ∷ ts) =
    label_lines (label_at i labels)
    ++ (fill_all t it.lines ++ lines_from (i + 1) end_label labels rest ts)

unfoldable pub resolve : List Item → Option Label → M (List Line)
resolve items end_label = do
  (labels, targets) ← targets_from 0 (length items) end_label [] items
  pure (lines_from 0 end_label labels items targets)
