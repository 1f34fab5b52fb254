-- ===== src/Mutation/Tests/Gate.antt =====
-- The catalogue's checks on small catalogues.
use determinant.Base.{
  String, ◌≡◌, refl, ◌↔◌, inl, inr, none, some, [], ◌∷◌, str_eq, if◌then◌else◌, All,
}
use determinant.Base.Text.{codes, strip_prefix}
use determinant.Mutation.Edits.{count, count_from, replace_first}
use determinant.Mutation.Catalogue.{
  Mutant, Catalogue, ReadResult, contents, os_error, duplicate_id, unknown_equivalent, apply_raw,
  checked, validate_file, validate_one, validate, catalogue_problems,
}
use determinant.Mutation.Catalogue.Laws.{IsWellFormed, catalogue_problems-nil_iff}
use determinant.Mutation.Catalogue.Gate.{
  raised, ready, select, problems_gate, gate, Chosen, Applies, gate-ready, gate-missing_id,
}

abbrev mutant : String → Mutant
mutant i = record {
  id = some i;
  file = some "src/a.zig";
  desc = some "no carry";
  edits = some ((codes "b" ∷ codes "xy" ∷ []) ∷ []);
}

abbrev catalogue : Catalogue
catalogue = record { mutants = mutant "m1" ∷ mutant "m2" ∷ []; equivalent = "m2" ∷ [] }

abbrev tree : String → ReadResult
tree f = if str_eq "src/a.zig" f then contents (codes "abc") else os_error "No such file"

catalogue_problems-nil_iff_example : (catalogue_problems catalogue ≡ []) ↔ IsWellFormed catalogue
catalogue_problems-nil_iff_example = catalogue_problems-nil_iff catalogue

duplicate_reported :
    catalogue_problems (record { mutants = mutant "m1" ∷ mutant "m1" ∷ []; equivalent = "m3" ∷ [] })
    ≡ duplicate_id "m1" ∷ unknown_equivalent "m3" ∷ []
unfolding catalogue_problems
duplicate_reported = refl

gate_runs : gate catalogue tree ("m2" ∷ []) ≡ ready (mutant "m2" ∷ [])
unfolding gate select problems_gate validate validate_one validate_file apply_raw checked count
    count_from replace_first strip_prefix catalogue_problems
gate_runs = refl

gate-ready_example :
    IsWellFormed catalogue
    × Chosen catalogue ("m2" ∷ []) (mutant "m2" ∷ [])
    × All (Applies tree) (mutant "m2" ∷ [])
gate-ready_example = gate-ready catalogue tree ("m2" ∷ []) (mutant "m2" ∷ []) gate_runs

abbrev nameless : Mutant
nameless = record { id = none; file = some "src/a.zig"; desc = none; edits = none }

gate-missing_id_example :
    gate (record { mutants = mutant "m1" ∷ nameless ∷ []; equivalent = [] }) tree [] ≡ raised
gate-missing_id_example =
    gate-missing_id (record { mutants = mutant "m1" ∷ nameless ∷ []; equivalent = [] }) tree []
      nameless (inr (inl refl)) refl
