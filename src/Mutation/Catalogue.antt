-- ===== src/Mutation/Catalogue.antt =====
-- The catalogue of mutants and its checks: `catalogue_problems`, `validate` and `select` of
-- tools/mutation/mutate.py.
pub mod Laws
pub mod Gate
use determinant.Base.{
  ℕ, zero, suc, ◌+◌, ◌-◌, ◌*◌, ◌/◌, ◌%◌, ◌^◌, ◌≤◌, ◌<◌, bit_and, bit_or, bit_xor, min, max, String,
  ◌≡◌, refl, sym, ap, ◌∙◌, subst, ◌≢◌, ◌↔◌, ◌⊎◌, inl, inr, Bool, true, false, ◌&&◌, ◌||◌, not,
  Option, none, some, List, [], ◌∷◌, ◌++◌, map, append_assoc, append-nil, arith, str_eq, eq_iff,
  ltb, leb, ◌==◌, if◌then◌else◌, ==_iff, Bool-cases, Option-cases, length, get_elem?, get_or, take,
  drop, length-append, All, All-append, In,
}
use mathlib.Core.Option
use determinant.Base.Text.{Text, text_eq}
use determinant.Mutation.Edits.{
  Edit, EditResult, edited, edit_error, count, replace_first, apply_from, apply_edits,
}

-- A mutant is a dict: any key may be missing, and an edit may have any number of texts.
pub record Mutant : Type 0 where
  pub id : Option String
  pub file : Option String
  pub desc : Option String
  pub edits : Option (List (List Text))

pub record Catalogue : Type 0 where
  pub mutants : List Mutant
  pub equivalent : List String

pub data Key : Type 0 where
  id_key file_key desc_key edits_key : Key

-- The messages, with the mutant's id.
pub data Problem : Type 0 where
  missing : String → Key → Problem
  duplicate_id : String → Problem
  no_edits : String → Problem
  bad_edit : String → ℕ → Problem
  unknown_equivalent : String → Problem
  unreadable : String → String → String → Problem
  unchanged : String → String → Problem
  refused : String → String → (n occurrences : ℕ) → Text → Problem

-- `x in seen`
unfoldable pub contains : String → List String → Bool
contains x [] = false
contains x (y ∷ ys) = str_eq x y || contains x ys

-- `m.get("id", "?")`
unfoldable pub mid : Mutant → String
mid m = elim m.id [ none ↦ "?" | some i ↦ i ]

missing_key {ℓ} : {A : Type ℓ} → String → Key → Option A → List Problem
missing_key i k none = missing i k ∷ []
missing_key i k (some a) = []

is_bad_edit : List Text → Bool
is_bad_edit (orig ∷ repl ∷ []) = text_eq orig [] || text_eq orig repl
is_bad_edit _ = true

edit_problems : String → ℕ → List (List Text) → List Problem
unfolding is_bad_edit
edit_problems i n [] = []
edit_problems i n (e ∷ edits) =
    (if is_bad_edit e then bad_edit i n ∷ [] else []) ++ edit_problems i (n + 1) edits

-- `m.get("edits", [])`
edits_of : Option (List (List Text)) → List (List Text)
edits_of none = []
edits_of (some es) = es

-- `if not m.get("edits")`
empty_edits : String → List (List Text) → List Problem
empty_edits i [] = no_edits i ∷ []
empty_edits i (e ∷ es) = []

-- One round of the first loop.
mutant_problems : List String → Mutant → List Problem
unfolding missing_key edit_problems edits_of mid contains empty_edits
mutant_problems seen m =
    missing_key (mid m) Key.id_key m.id
    ++ (missing_key (mid m) Key.file_key m.file
        ++ (missing_key (mid m) Key.desc_key m.desc
            ++ (missing_key (mid m) Key.edits_key m.edits
                ++ ((if contains (mid m) seen then duplicate_id (mid m) ∷ [] else [])
                    ++ (empty_edits (mid m) (edits_of m.edits)
                        ++ edit_problems (mid m) 1 (edits_of m.edits))))))

-- The first loop, with `seen` behind it.
mutants_problems : List String → List Mutant → List Problem × List String
unfolding mutant_problems
mutants_problems seen [] = ([], seen)
mutants_problems seen (m ∷ ms) =
    let (ps, all) = mutants_problems (mid m ∷ seen) ms in (mutant_problems seen m ++ ps, all)

equivalent_problems : List String → List String → List Problem
unfolding contains
equivalent_problems seen [] = []
equivalent_problems seen (i ∷ is) =
    (if contains i seen then [] else unknown_equivalent i ∷ []) ++ equivalent_problems seen is

unfoldable pub catalogue_problems : Catalogue → List Problem
unfolding mutants_problems equivalent_problems
catalogue_problems c =
    let (ps, seen) = mutants_problems [] c.mutants in ps ++ equivalent_problems seen c.equivalent

-- A file of the tree as `validate` meets it: its text, or the reason of the `OSError`.
pub data ReadResult : Type 0 where
  contents : Text → ReadResult
  os_error : String → ReadResult

-- `apply_edits` on a mutant's own edits; `none` is the error of unpacking an edit that is no pair.
unfoldable pub apply_raw : ℕ → Text → List (List Text) → Option EditResult
apply_raw n text [] = some (edited text)
apply_raw n text ((orig ∷ repl ∷ []) ∷ edits) =
    let rest = apply_raw (n + 1) (replace_first orig repl text) edits in
    if count orig text == 1 then rest else some (edit_error n (count orig text) orig)
apply_raw n text (_ ∷ edits) = none

result_problems : String → String → Text → EditResult → List Problem
result_problems i f text (edited t) = if text_eq t text then unchanged i f ∷ [] else []
result_problems i f text (edit_error n k orig) = refused i f n k orig ∷ []

-- What a result of `apply_edits` adds; without an id the message is a `KeyError`.
unfoldable pub checked : Option String → String → Text → EditResult → Option (List Problem)
unfolding result_problems
checked (some i) f text r = some (result_problems i f text r)
checked none f text (edited t) = if text_eq t text then none else some []
checked none f text (edit_error n k orig) = none

unfoldable pub validate_file :
    Option String → Option (List (List Text)) → String → ReadResult → Option (List Problem)
unfolding apply_raw checked
validate_file i es f (os_error reason) = Option.map (λ j. unreadable j f reason ∷ []) i
validate_file i none f (contents text) = none
validate_file i (some es) f (contents text) = elim (apply_raw 1 text es) [
  | none ↦ none
  | some r ↦ checked i f text r
]

-- One round of `validate`; `none` is the `KeyError` of a missing key, or the error of unpacking.
unfoldable pub validate_one : (String → ReadResult) → Mutant → Option (List Problem)
unfolding validate_file
validate_one tree m = elim m.file [ none ↦ none | some f ↦ validate_file m.id m.edits f (tree f) ]

unfoldable pub validate : (String → ReadResult) → List Mutant → Option (List Problem)
unfolding validate_one
validate tree [] = some []
validate tree (m ∷ ms) = elim (validate_one tree m) [
  | none ↦ none
  | some ps ↦ Option.map (λ qs. ps ++ qs) (validate tree ms)
]
