-- ===== src/Mutation/Edits.antt =====
-- `apply_edits` of tools/mutation/mutate.py, with Python's `str.count` and `str.replace(…, 1)`.
pub mod Laws
use determinant.Base.{
  ℕ, zero, suc, ◌+◌, List, [], ◌∷◌, ◌++◌, Option, none, some, Bool, true, false, ◌==◌,
  if◌then◌else◌, length,
}
use determinant.Base.Text.{Text, strip_prefix}

-- `text.count(needle)`: the occurrences that do not overlap, found from the left. The second
-- argument is fuel: a text of n characters has its occurrences found in n + 1 rounds.
unfoldable pub count_from : ℕ → Text → Text → ℕ
count_from zero needle text = 0
count_from (suc fuel) needle [] = elim (strip_prefix needle []) [ none ↦ 0 | some rest ↦ 1 ]
count_from (suc fuel) needle (c ∷ text) = elim (strip_prefix needle (c ∷ text)) [
  | none ↦ count_from fuel needle text
  | some rest ↦ suc (count_from fuel needle rest)
]

-- An empty needle occurs before each character and at the end.
unfoldable pub count : Text → Text → ℕ
unfolding count_from
count [] text = length text + 1
count (p ∷ ps) text = count_from (length text + 1) (p ∷ ps) text

-- `text.replace(orig, repl, 1)`
unfoldable pub replace_first : Text → Text → Text → Text
replace_first orig repl [] = elim (strip_prefix orig []) [ none ↦ [] | some rest ↦ repl ++ rest ]
replace_first orig repl (c ∷ text) = elim (strip_prefix orig (c ∷ text)) [
  | none ↦ c ∷ replace_first orig repl text
  | some rest ↦ repl ++ rest
]

pub record Edit : Type 0 where
  pub orig : Text
  pub repl : Text

-- `EditError` with what its message names.
pub data EditResult : Type 0 where
  edited : Text → EditResult
  edit_error : (n occurrences : ℕ) → Text → EditResult

-- The loop of `apply_edits`, from edit number n.
unfoldable pub apply_from : ℕ → Text → List Edit → EditResult
apply_from n text [] = edited text
apply_from n text (e ∷ edits) =
    let rest = apply_from (n + 1) (replace_first e.orig e.repl text) edits in
    if count e.orig text == 1 then rest else edit_error n (count e.orig text) e.orig

unfoldable pub apply_edits : Text → List Edit → EditResult
unfolding apply_from
apply_edits text edits = apply_from 1 text edits
