-- ===== src/Mutation/Catalogue/Gate.antt =====
-- `select` of tools/mutation/mutate.py, and the checks that `cmd_check` and `cmd_run` make before
-- anything is changed: only a catalogue that applies to the tree gets through.
use determinant.Base.{
  ℕ, ◌+◌, String, ◌≡◌, refl, ap, subst, ◌≢◌, ◌⊎◌, inl, inr, Option, none, some, List, [], ◌∷◌, ◌++◌,
  map, arith, str_eq, eq_iff, ◌==◌, if◌then◌else◌, Bool-cases, Option-cases, All, All-append, In,
  append-eq-nil,
}
use mathlib.Core.Option
use determinant.Base.Text.{Text, text_eq_refl}
use determinant.Mutation.Edits.{
  Edit, EditResult, edited, edit_error, apply_from, apply_edits, count, replace_first,
}
use determinant.Mutation.Catalogue.{
  Mutant, Catalogue, Problem, ReadResult, contents, os_error, apply_raw, checked, validate_file,
  validate_one, validate, catalogue_problems,
}
use determinant.Mutation.Catalogue.Laws.{IsWellFormed, catalogue_problems-nil_iff}

-- `by_id`: the last mutant with an id stands under it; `none` is the `KeyError` of a missing id.
by_id : List Mutant → Option (List (String × Mutant))
by_id [] = some []
by_id (m ∷ ms) = elim m.id [ none ↦ none | some i ↦ Option.map (λ d. d ++ (i, m) ∷ []) (by_id ms) ]

find : String → List (String × Mutant) → Option Mutant
find i [] = none
find i ((j, m) ∷ d) = if str_eq i j then some m else find i d

unknown_ids : List (String × Mutant) → List String → List String
unfolding find
unknown_ids d [] = []
unknown_ids d (i ∷ is) = elim (find i d) [ none ↦ i ∷ unknown_ids d is | some m ↦ unknown_ids d is ]

pick : List (String × Mutant) → List String → List Mutant
unfolding find
pick d [] = []
pick d (i ∷ is) = elim (find i d) [ none ↦ pick d is | some m ↦ m ∷ pick d is ]

pub data Selection : Type 0 where
  key_error : Selection
  unknown : List String → Selection
  selected : List Mutant → Selection

select_known : List Mutant → List (String × Mutant) → List String → List String → Selection
select_known all d (u ∷ us) ids = unknown (u ∷ us)
select_known all d [] [] = selected all
select_known all d [] (i ∷ is) = selected (pick d (i ∷ is))

unfoldable pub select : List Mutant → List String → Selection
unfolding by_id unknown_ids pick select_known
select all ids = elim (by_id all) [
  | none ↦ key_error
  | some d ↦ select_known all d (unknown_ids d ids) ids
]

-- How the checks end: an uncaught exception, an exit with a message, or the mutants to run.
pub data Gate : Type 0 where
  raised : Gate
  exit_unknown : List String → Gate
  exit_problems : List Problem → Gate
  ready : List Mutant → Gate

unfoldable pub problems_gate : List Mutant → List Problem → Gate
problems_gate ms (p ∷ ps) = exit_problems (p ∷ ps)
problems_gate ms [] = ready ms

unfoldable pub gate : Catalogue → (String → ReadResult) → List String → Gate
unfolding select problems_gate
gate c tree ids = elim (select c.mutants ids) [
  | key_error ↦ raised
  | unknown us ↦ exit_unknown us
  | selected ms ↦ elim (validate tree ms) [
    | none ↦ raised
    | some ps ↦ problems_gate ms (catalogue_problems c ++ ps)
  ]
]

-- The edits as the catalogue writes them.
abbrev pub pairs : List Edit → List (List Text)
pairs = map (λ e. e.orig ∷ e.repl ∷ [])

-- The mutant's edits turn a file of the tree into another text.
pub Applies : (String → ReadResult) → Mutant → Type 0
Applies tree m =
    (f : String) × (text t : Text) × (es : List Edit) × (m.file ≡ some f)
    × (tree f ≡ contents text)
    × (apply_edits text es ≡ edited t)
    × (t ≢ text)
    × (m.edits ≡ some (pairs es))

apply_raw-pairs :
    (n : ℕ) (text : Text) (es : List (List Text)) (t : Text)
    → apply_raw n text es ≡ some (edited t)
    → (ps : List Edit) × (apply_from n text ps ≡ edited t) × (es ≡ pairs ps)
unfolding apply_raw apply_from
apply_raw-pairs n text [] t h = ([], cc, refl)
apply_raw-pairs n text ([] ∷ es) t h = absurd (cc)
apply_raw-pairs n text ((a ∷ []) ∷ es) t h = absurd (cc)
apply_raw-pairs n text ((a ∷ b ∷ x ∷ r) ∷ es) t h = absurd (cc)
apply_raw-pairs n text ((a ∷ b ∷ []) ∷ es) t h = elim (Bool-cases (count a text == 1)) [
  | inr other ↦ absurd (ground (arith, other))
  | inl once ↦
      let (ps, ok, eq) =
        apply_raw-pairs (n + 1) (replace_first a b text) es t (ground (arith, once)) in
      (record { orig = a; repl = b } ∷ ps, ground (arith, once, ok), ap (λ r. (a ∷ b ∷ []) ∷ r) eq)
]

checked-nil :
    (i : Option String) (f : String) (text : Text) (r : EditResult)
    → checked i f text r ≡ some []
    → (t : Text) × (r ≡ edited t) × (t ≢ text)
unfolding checked
checked-nil (some i) f text (edited t) h = (t, refl, λ e. ground (arith, e, text_eq_refl text))
checked-nil (some i) f text (edit_error n k orig) h = absurd (cc)
checked-nil none f text (edited t) h = (t, refl, λ e. ground (arith, e, text_eq_refl text))
checked-nil none f text (edit_error n k orig) h = absurd (cc)

validate_file-nil :
    (i : Option String) (o : Option (List (List Text))) (f : String) (r : ReadResult)
    → validate_file i o f r ≡ some []
    → (text t : Text) × (es : List Edit) × (r ≡ contents text)
      × (apply_edits text es ≡ edited t)
      × (t ≢ text)
      × (o ≡ some (pairs es))
unfolding validate_file apply_edits
validate_file-nil (some i) o f (os_error reason) h = absurd (cc)
validate_file-nil none o f (os_error reason) h = absurd (cc)
validate_file-nil i none f (contents text) h = absurd (cc)
validate_file-nil i (some es) f (contents text) h = elim (Option-cases (apply_raw 1 text es)) [
  | inl e ↦ absurd (ground (arith, e))
  | inr (r, e) ↦
      let (t, eq, ne) = checked-nil i f text r (ground (arith, e)) in
      let (ps, ok, shape) = apply_raw-pairs 1 text es t (cc) in
      (text, t, ps, refl, ok, ne, ap some shape)
]

validate_one-nil :
    (tree : String → ReadResult) (m : Mutant) → validate_one tree m ≡ some [] → Applies tree m
unfolding Applies validate_one
validate_one-nil tree m h = elim (Option-cases m.file) [
  | inl e ↦ absurd (ground (arith, e))
  | inr (f, e) ↦
      let (text, t, es, at, ok, ne, shape) =
        validate_file-nil m.id m.edits f (tree f) (ground (arith, e)) in
      (f, text, t, es, e, at, ok, ne, shape)
]

validate-nil :
    (tree : String → ReadResult) (ms : List Mutant)
    → validate tree ms ≡ some []
    → All (Applies tree) ms
unfolding validate
validate-nil tree [] h = tt
validate-nil tree (m ∷ ms) h = elim (Option-cases (validate_one tree m)) [
  | inl e ↦ absurd (ground (arith, e))
  | inr (ps, e) ↦ elim (Option-cases (validate tree ms)) [
    | inl r ↦ absurd (ground (arith, e, r))
    | inr (qs, r) ↦
        let (a, b) = append-eq-nil ps qs (ground (arith, e, r, h)) in
        (validate_one-nil tree m (cc), validate-nil tree ms (cc))
  ]
]

-- Which mutants a selection takes: every one, or for each id the one with that id.
pub Chosen : Catalogue → List String → List Mutant → Type 0
Chosen c [] ms = ms ≡ c.mutants
Chosen c (i ∷ is) ms = All (λ m. In m c.mutants) ms × (map (λ m. m.id) ms ≡ map some (i ∷ is))

-- What `by_id` holds: mutants of the list under their own ids.
OwnIds : List Mutant → List (String × Mutant) → Type 0
OwnIds all = All (λ p. (p.1.id ≡ some p.0) × In p.1 all)

by_id-OwnIds :
    (all ms : List Mutant) (d : List (String × Mutant))
    → ((m : Mutant) → In m ms → In m all)
    → by_id ms ≡ some d
    → OwnIds all d
unfolding by_id OwnIds
by_id-OwnIds all [] d sub h = subst (All _) {x = []} {y = d} (cc) tt
by_id-OwnIds all (m ∷ ms) d sub h = elim (Option-cases m.id) [
  | inl e ↦ absurd (ground (arith, e))
  | inr (i, e) ↦ elim (Option-cases (by_id ms)) [
    | inl r ↦ absurd (ground (arith, e, r))
    | inr (d', r) ↦ subst (All _) {x = d' ++ (i, m) ∷ []} {y = d} (ground (arith, e, r, h)) (
        All-append _ d' ((i, m) ∷ []) (by_id-OwnIds all ms d' (λ n at. sub n (inr at)) r)
          ((e, sub m (inl refl)), tt))
  ]
]

find-own :
    (all : List Mutant) (i : String) (d : List (String × Mutant)) (m : Mutant)
    → OwnIds all d
    → find i d ≡ some m
    → (m.id ≡ some i) × In m all
unfolding find OwnIds
find-own all i [] m o h = absurd (cc)
find-own all i ((j, n) ∷ d) m ((e, at), o) h = elim (Bool-cases (str_eq i j)) [
  | inl same ↦
      let eq : n ≡ m = ground (arith, same, h) in
      let ij = (eq_iff i j).0 same in subst (λ x. (x.id ≡ some i) × In x all) eq (cc (e, ij), at)
  | inr other ↦ find-own all i d m o (ground (arith, other, h))
]

pick-cons :
    (d : List (String × Mutant)) (i : String) (is : List String) (m : Mutant)
    → find i d ≡ some m
    → pick d (i ∷ is) ≡ m ∷ pick d is
unfolding pick
pick-cons d i is m e = ground (arith, e)

pick-own :
    (all : List Mutant) (d : List (String × Mutant)) (is : List String)
    → OwnIds all d
    → unknown_ids d is ≡ []
    → All (λ m. In m all) (pick d is) × (map (λ m. m.id) (pick d is) ≡ map some is)
unfolding unknown_ids
pick-own all d [] o h = unfold pick in (tt, refl)
pick-own all d (i ∷ is) o h = elim (Option-cases (find i d)) [
  | inl e ↦ absurd (ground (arith, e))
  | inr (m, e) ↦
      let (own, at) = find-own all i d m o e in
      let (members, ids) = pick-own all d is o (ground (arith, e, h)) in
      rw (pick-cons d i is m e) ((at, members), cc (own, ids))
]

known-Chosen :
    (c : Catalogue) (d : List (String × Mutant)) (us is : List String) (ms : List Mutant)
    → OwnIds c.mutants d
    → unknown_ids d is ≡ us
    → select_known c.mutants d us is ≡ selected ms
    → Chosen c is ms
unfolding select_known Chosen
known-Chosen c d (u ∷ us) is ms o e h = absurd (cc)
known-Chosen c d [] [] ms o e h = cc
known-Chosen c d [] (i ∷ is) ms o e h =
    subst (λ x. All (λ m. In m c.mutants) x × (map (λ m. m.id) x ≡ map some (i ∷ is)))
      {x = pick d (i ∷ is)} {y = ms} (cc) (pick-own c.mutants d (i ∷ is) o e)

select-Chosen :
    (c : Catalogue) (is : List String) (ms : List Mutant)
    → select c.mutants is ≡ selected ms
    → Chosen c is ms
unfolding select
select-Chosen c is ms h = elim (Option-cases (by_id c.mutants)) [
  | inl e ↦ absurd (ground (arith, e))
  | inr (d, e) ↦
      known-Chosen c d (unknown_ids d is) is ms (by_id-OwnIds c.mutants c.mutants d (λ m at. at) e)
        refl (ground (arith, e, h))
]

Selection-cases :
    (s : Selection)
    → ((s ≡ key_error) ⊎ ((us : List String) × (s ≡ unknown us)))
      ⊎ ((ms : List Mutant) × (s ≡ selected ms))
Selection-cases key_error = inl (inl refl)
Selection-cases (unknown us) = inl (inr (us, refl))
Selection-cases (selected ms) = inr (ms, refl)

problems_gate-ready :
    (ms out : List Mutant) (ps : List Problem)
    → problems_gate ms ps ≡ ready out
    → (ps ≡ []) × (ms ≡ out)
unfolding problems_gate
problems_gate-ready ms out [] h = (refl, cc)
problems_gate-ready ms out (p ∷ ps) h = absurd (cc)

-- When the checks let a run begin, the catalogue is well formed, the mutants are those selected
-- (all of them if no id is given, else one for each id in turn), and the edits of each of them
-- apply to the file that it names and change it.
pub gate-ready :
    (c : Catalogue) (tree : String → ReadResult) (ids : List String) (ms : List Mutant)
    → gate c tree ids ≡ ready ms
    → IsWellFormed c × Chosen c ids ms × All (Applies tree) ms
unfolding gate
gate-ready c tree ids ms h = elim (Selection-cases (select c.mutants ids)) [
  | inl stop ↦ absurd (elim stop [ inl e ↦ ground (arith, e) | inr (us, e) ↦ ground (arith, e) ])
  | inr (all, e) ↦ elim (Option-cases (validate tree all)) [
    | inl r ↦ absurd (ground (arith, e, r))
    | inr (ps, r) ↦
        let (nil, same) =
          problems_gate-ready all ms (catalogue_problems c ++ ps) (ground (arith, e, r, h)) in
        let (a, b) = append-eq-nil (catalogue_problems c) ps nil in
        (
          (catalogue_problems-nil_iff c).0 a,
          subst (Chosen c ids) same (select-Chosen c ids all e),
          subst (All (Applies tree)) same (validate-nil tree all (cc)),
        )
  ]
]

by_id-missing : (ms : List Mutant) (m : Mutant) → In m ms → m.id ≡ none → by_id ms ≡ none
unfolding by_id
by_id-missing [] m at e = absurd at
by_id-missing (n ∷ ms) m (inl same) e = ground (arith, e, ap (λ (x : Mutant). x.id) same)
by_id-missing (n ∷ ms) m (inr at) e = ground (arith, by_id-missing ms m at e)

-- A catalogue with a mutant without an id never gets as far as the message on it: `select` raises
-- before `catalogue_problems` is called, whatever the tree and the ids asked for.
pub gate-missing_id :
    (c : Catalogue) (tree : String → ReadResult) (ids : List String) (m : Mutant)
    → In m c.mutants
    → m.id ≡ none
    → gate c tree ids ≡ raised
unfolding gate select
gate-missing_id c tree ids m at e = ground (arith, by_id-missing c.mutants m at e)
