-- ===== src/Mutation/Output.antt =====
-- The summary tree at the end of a build's output: `parse_tree` of tools/mutation/mutate.py, with
-- Python's `rfind`, `splitlines` and `strip`.
use determinant.Base.{
  ℕ, Bool, true, false, ◌&&◌, ◌||◌, Option, none, some, List, [], ◌∷◌, ◌++◌, leb, ◌==◌,
  if◌then◌else◌, drop,
}
use determinant.Base.Text.{Text, codes, strip_prefix}
use determinant.Mutation.Patterns.{is_space}

-- `out[out.rfind(needle):]`: the text from the last place where the needle starts.
from_last : Text → Text → Option Text
from_last needle [] = elim (strip_prefix needle []) [ none ↦ none | some r ↦ some [] ]
from_last needle (c ∷ s) = elim (from_last needle s) [
  | some later ↦ some later
  | none ↦ elim (strip_prefix needle (c ∷ s)) [ none ↦ none | some r ↦ some (c ∷ s) ]
]

-- `text.splitlines()`: a last line without a break counts, an empty one behind a break does not.
is_break : ℕ → Bool
is_break c =
    (leb 10 c && leb c 13) || ((leb 28 c && leb c 30) || ((c == 133) || (leb 8232 c && leb c 8233)))

split_from : (line : Text) → (after_cr : Bool) → Text → List Text
unfolding is_break
split_from [] after_cr [] = []
split_from (l ∷ ls) after_cr [] = (l ∷ ls) ∷ []
split_from line after_cr (c ∷ s) = elim (is_break c) [
  | false ↦ split_from (line ++ c ∷ []) false s
  | true ↦ elim (after_cr && (c == 10)) [
    | true ↦ split_from [] false s
    | false ↦ line ∷ split_from [] (c == 13) s
  ]
]

split_lines : Text → List Text
unfolding split_from
split_lines text = split_from [] false text

-- `text.strip()`
strip_left : Text → Text
unfolding is_space
strip_left [] = []
strip_left (c ∷ s) = let rest = strip_left s in if is_space c then rest else c ∷ s

strip_right : Text → Text
unfolding is_space
strip_right [] = []
strip_right (c ∷ s) = elim (strip_right s) [
  | [] ↦ if is_space c then [] else c ∷ []
  | d ∷ r ↦ c ∷ d ∷ r
]

strip : Text → Text
unfolding strip_left strip_right
strip text = strip_right (strip_left text)

-- A line of the summary tree: a child of the step, a run of corpus-digests, another line below a
-- child, or the end of the tree.
pub data TreeLine : Type 0 where
  child : Text → TreeLine
  digest_run : Text → TreeLine
  below : TreeLine
  other : TreeLine

below_line : Text → TreeLine
below_line rest = elim (strip_prefix (codes "  +- ") rest) [
  | none ↦ below
  | some r ↦ elim (strip_prefix (codes "run exe corpus-digests") r) [
    | none ↦ below
    | some _ ↦ digest_run r
  ]
]

tree_line : Text → TreeLine
unfolding strip below_line
tree_line line = elim (strip_prefix (codes "+- ") line) [
  | some r ↦ child (strip r)
  | none ↦ elim line [
    | [] ↦ other
    | c ∷ rest ↦ if (c == b'|') || (c == b' ') then below_line rest else other
  ]
]

tree_lines : List Text → List Text × List Text
unfolding tree_line
tree_lines [] = ([], [])
tree_lines (l ∷ ls) =
    let (cs, ds) = tree_lines ls in
    elim (tree_line l) [
      | child c ↦ (c ∷ cs, ds)
      | digest_run d ↦ (cs, d ∷ ds)
      | below ↦ (cs, ds)
      | other ↦ ([], [])
    ]

-- `parse_tree`: the children of the step and the corpus-digests runs, if there is a summary.
unfoldable pub parse_tree : Text → Option (List Text × List Text)
unfolding from_last split_lines tree_lines
parse_tree out = elim (from_last (codes "Build Summary:") out) [
  | none ↦ none
  | some s ↦ some (tree_lines (drop 2 (split_lines s)))
]
