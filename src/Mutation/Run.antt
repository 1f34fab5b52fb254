-- ===== src/Mutation/Run.antt =====
-- `run_mutant` and `recover_in_progress` of tools/mutation/mutate.py as effects on the tree's
-- files, one after the other, so that a run can be stopped between any two of them.
pub mod Recovery
use determinant.Base.{
  ℕ, zero, suc, ◌+◌, ◌-◌, ◌*◌, ◌/◌, ◌%◌, ◌^◌, ◌≤◌, ◌<◌, bit_and, bit_or, bit_xor, min, max, String,
  ◌≡◌, refl, sym, ap, ◌∙◌, subst, ◌≢◌, ◌↔◌, ◌⊎◌, inl, inr, Bool, true, false, ◌&&◌, ◌||◌, not,
  Option, none, some, List, [], ◌∷◌, ◌++◌, map, append_assoc, append-nil, arith, str_eq, eq_iff,
  ltb, leb, ◌==◌, if◌then◌else◌, ==_iff, Bool-cases, Option-cases, length, get_elem?, get_or, take,
  drop, length-append, All, All-append, In,
}
use determinant.Base.Text.{Text}

-- What a file holds: bytes, or the JSON of the marker (the id, the file and its original bytes).
pub data Content : Type 0 where
  raw : Text → Content
  state : String → String → Text → Content

abbrev pub Tree : Type 0
Tree = String → Option Content

abbrev pub update : Tree → String → Option Content → Tree
update t p c q = if str_eq p q then c else t q

-- `IN_PROGRESS`
abbrev pub marker : String
marker = ".mutation-in-progress.json"

-- `begin` is `open(p, "w")` with what reaches the disk before the file is closed, and `close` is
-- the rest of the write. `outside` is what a build, or the clean-up of its cache, does.
pub data Effect : Type 0 where
  begin : String → Text → Effect
  close : String → Content → Effect
  remove : String → Effect
  outside : (Tree → Tree) → Effect

unfoldable pub perform : Effect → Tree → Tree
perform (begin p part) t = update t p (some (raw part))
perform (close p c) t = update t p (some c)
perform (remove p) t = update t p none
perform (outside f) t = f t

unfoldable pub perform_all : List Effect → Tree → Tree
unfolding perform
perform_all [] t = t
perform_all (e ∷ es) t = perform_all es (perform e t)

-- What one run works with: the mutant, its file's original and mutated text, the parts that are
-- on disk while a file is being written, the two builds and the clean-up of their cache.
pub record Job : Type 0 where
  pub id : String
  pub file : String
  pub original : Text
  pub mutated : Text
  pub part : Text
  pub test : Tree → Tree
  pub test_all : Tree → Tree
  pub clean_up : Tree → Tree

-- The `try` block of `run_mutant`.
unfoldable pub attempt : Job → List Effect
attempt j =
    begin marker j.part
    ∷ close marker (state j.id j.file j.original)
    ∷ begin j.file j.part
    ∷ close j.file (raw j.mutated)
    ∷ outside j.test
    ∷ outside j.test_all
    ∷ []

-- The `finally` block. The marker is removed if it exists.
unfoldable pub at_last : Job → List Effect
at_last j =
    begin j.file j.part ∷ close j.file (raw j.original) ∷ remove marker ∷ outside j.clean_up ∷ []

-- `run_mutant` with an exception behind the k-th effect of its `try` block (none, if it has no
-- more than k effects).
unfoldable pub run_mutant : Job → ℕ → List Effect
unfolding attempt at_last
run_mutant j k = take k (attempt j) ++ at_last j

-- `recover_in_progress`: its effects, or `none` where `json.load` raises.
unfoldable pub recover : Text → Tree → Option (List Effect)
recover part t = elim (t marker) [
  | none ↦ some []
  | some c ↦ elim c [
    | raw text ↦ none
    | state i file original ↦
        some (begin file part ∷ close file (raw original) ∷ remove marker ∷ [])
  ]
]
