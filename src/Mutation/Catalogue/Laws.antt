-- ===== src/Mutation/Catalogue/Laws.antt =====
-- `catalogue_problems` reports nothing exactly for a well-formed catalogue.
use determinant.Base.{
  ℕ, ◌+◌, String, ◌≡◌, refl, subst, ◌≢◌, ◌↔◌, ◌⊎◌, inl, inr, Bool, true, false, Option, none, some,
  List, [], ◌∷◌, arith, str_eq, eq_iff, if◌then◌else◌, Bool-cases, All, In, append-eq-nil,
}
use determinant.Base.Text.{Text, text_eq, text_eq_sound, text_eq_refl}
use determinant.Mutation.Catalogue.{
  Mutant, Catalogue, Key, contains, mid, missing_key, is_bad_edit, edit_problems, edits_of,
  empty_edits, mutant_problems, mutants_problems, equivalent_problems, catalogue_problems,
}

-- An edit is a pair of a non-empty text and another text.
pub IsEdit : List Text → Type 0
IsEdit (orig ∷ repl ∷ []) = (orig ≢ []) × (orig ≢ repl)
IsEdit _ = ⊥

-- A mutant has every key, and its edits are a non-empty list of edits.
pub record IsComplete (m : Mutant) : Type 0 where
  pub has_id : (i : String) × (m.id ≡ some i)
  pub has_file : (f : String) × (m.file ≡ some f)
  pub has_desc : (d : String) × (m.desc ≡ some d)
  pub has_edits :
      (e : List Text) × (es : List (List Text)) × (m.edits ≡ some (e ∷ es)) × All IsEdit (e ∷ es)

-- No id of the list is one of `seen`, or occurs twice.
pub Fresh : List String → List Mutant → Type 0
Fresh seen [] = Unit
Fresh seen (m ∷ ms) = ¬ (In (mid m) seen) × Fresh (mid m ∷ seen) ms

pub record IsWellFormed (c : Catalogue) : Type 0 where
  pub complete : All IsComplete c.mutants
  pub distinct : Fresh [] c.mutants
  pub known : All (λ i. (m : Mutant) × In m c.mutants × (i ≡ mid m)) c.equivalent

contains-In : (x : String) (xs : List String) → contains x xs ≡ true → In x xs
unfolding contains
contains-In x [] h = cc
contains-In x (y ∷ ys) h = elim (Bool-cases (str_eq x y)) [
  | inl e ↦ inl ((eq_iff x y).0 e)
  | inr e ↦ inr (contains-In x ys (ground (arith, e)))
]

In-contains : (x : String) (xs : List String) → In x xs → contains x xs ≡ true
unfolding contains
In-contains x [] h = absurd h
In-contains x (y ∷ ys) (inl e) = ground (arith, (eq_iff x y).1 e)
In-contains x (y ∷ ys) (inr i) = ground (arith, In-contains x ys i)

contains-false : (x : String) (xs : List String) → contains x xs ≡ false → ¬ (In x xs)
contains-false x xs h i = cc (In-contains x xs i)

false-contains : (x : String) (xs : List String) → ¬ (In x xs) → contains x xs ≡ false
false-contains x xs h = elim (Bool-cases (contains x xs)) [
  | inl e ↦ absurd (h (contains-In x xs e))
  | inr e ↦ e
]

good-IsEdit : (e : List Text) → is_bad_edit e ≡ false → IsEdit e
unfolding is_bad_edit IsEdit
good-IsEdit [] h = cc
good-IsEdit (a ∷ []) h = cc
good-IsEdit (a ∷ b ∷ c ∷ r) h = cc
good-IsEdit (a ∷ b ∷ []) h =
    (λ e. ground (arith, text_eq_refl a, e), λ e. ground (arith, text_eq_refl a, e))

edit_good : (e : List Text) → IsEdit e → is_bad_edit e ≡ false
unfolding is_bad_edit IsEdit
edit_good [] h = absurd h
edit_good (a ∷ []) h = absurd h
edit_good (a ∷ b ∷ c ∷ r) h = absurd h
edit_good (a ∷ b ∷ []) (p, q) = elim (Bool-cases (text_eq a [])) [
  | inl e ↦ absurd (p (text_eq_sound a [] e))
  | inr e ↦ elim (Bool-cases (text_eq a b)) [
    | inl f ↦ absurd (q (text_eq_sound a b f))
    | inr f ↦ ground (arith, e, f)
  ]
]

edit_problems-nil :
    (i : String) (n : ℕ) (es : List (List Text)) → (edit_problems i n es ≡ []) ↔ All IsEdit es
unfolding edit_problems
edit_problems-nil i n [] = (λ h. tt, λ h. refl)
edit_problems-nil i n (e ∷ es) = elim (Bool-cases (is_bad_edit e)) [
  | inl b ↦ (λ h. absurd (ground (arith, b)), λ (g, r). absurd (cc (edit_good e g)))
  | inr b ↦ (
    λ h. (good-IsEdit e b, (edit_problems-nil i (n + 1) es).0 (ground (arith, b))),
    λ (g, r). ground (arith, b, (edit_problems-nil i (n + 1) es).1 r),
  )
]

missing_key-nil {ℓ} :
    {A : Type ℓ} (i : String) (k : Key) (o : Option A)
    → (missing_key i k o ≡ []) ↔ ((a : A) × (o ≡ some a))
unfolding missing_key
missing_key-nil i k none = (λ h. absurd (cc), λ (a, e). absurd (cc))
missing_key-nil i k (some a) = (λ h. (a, refl), λ h. refl)

if-nil {ℓ} : {A : Type ℓ} (b : Bool) (a : A) → (if b then a ∷ [] else []) ≡ [] → b ≡ false
if-nil true a h = absurd (cc)
if-nil false a h = refl

HasEdits : Option (List (List Text)) → Type 0
HasEdits o = (e : List Text) × (es : List (List Text)) × (o ≡ some (e ∷ es)) × All IsEdit (e ∷ es)

edits_there :
    (i : String) (k : Key) (o : Option (List (List Text)))
    → missing_key i k o ≡ []
    → empty_edits i (edits_of o) ≡ []
    → edit_problems i 1 (edits_of o) ≡ []
    → HasEdits o
unfolding missing_key edits_of empty_edits HasEdits
edits_there i k none a b c = absurd (cc)
edits_there i k (some []) a b c = absurd (cc)
edits_there i k (some (e ∷ es)) a b c = (e, es, refl, (edit_problems-nil i 1 (e ∷ es)).0 c)

edits_back :
    (i : String) (k : Key) (o : Option (List (List Text)))
    → HasEdits o
    → (missing_key i k o ≡ [])
      × (empty_edits i (edits_of o) ≡ [])
      × (edit_problems i 1 (edits_of o) ≡ [])
unfolding missing_key edits_of empty_edits HasEdits
edits_back i k none (e, es, p, a) = absurd (cc)
edits_back i k (some []) (e, es, p, a) = absurd (cc)
edits_back i k (some (f ∷ fs)) (e, es, p, a) = (
  refl,
  refl,
  (edit_problems-nil i 1 (f ∷ fs)).1 (subst (All IsEdit) {x = e ∷ es} {y = f ∷ fs} (cc) a),
)

mutant_ok :
    (seen : List String) (m : Mutant)
    → mutant_problems seen m ≡ []
    → IsComplete m × (¬ (In (mid m) seen))
unfolding mutant_problems HasEdits
mutant_ok seen m h =
    let (k1, h1) = append-eq-nil _ _ h in
    let (k2, h2) = append-eq-nil _ _ h1 in
    let (k3, h3) = append-eq-nil _ _ h2 in
    let (k4, h4) = append-eq-nil _ _ h3 in
    let (k5, h5) = append-eq-nil _ _ h4 in
    let (k6, h6) = append-eq-nil _ _ h5 in
    (
      record {
        has_id = (missing_key-nil _ _ m.id).0 k1;
        has_file = (missing_key-nil _ _ m.file).0 k2;
        has_desc = (missing_key-nil _ _ m.desc).0 k3;
        has_edits = edits_there _ _ m.edits k4 k6 h6;
      },
      contains-false (mid m) seen (if-nil _ _ k5),
    )

ok_mutant :
    (seen : List String) (m : Mutant)
    → IsComplete m
    → ¬ (In (mid m) seen)
    → mutant_problems seen m ≡ []
unfolding mutant_problems HasEdits
ok_mutant seen m c fresh =
    let (a, b, d) = edits_back (mid m) Key.edits_key m.edits c.has_edits in
    rw (
      (missing_key-nil (mid m) Key.id_key m.id).1 c.has_id,
      (missing_key-nil (mid m) Key.file_key m.file).1 c.has_file,
      (missing_key-nil (mid m) Key.desc_key m.desc).1 c.has_desc,
      a,
      b,
      d,
      false-contains (mid m) seen fresh,
    )

-- The ids that the first loop has seen when it ends.
seen_after : List String → List Mutant → List String
seen_after seen [] = seen
seen_after seen (m ∷ ms) = seen_after (mid m ∷ seen) ms

mutants_seen :
    (seen : List String) (ms : List Mutant) → (mutants_problems seen ms).1 ≡ seen_after seen ms
unfolding mutants_problems seen_after
mutants_seen seen [] = refl
mutants_seen seen (m ∷ ms) = mutants_seen (mid m ∷ seen) ms

mutants_ok :
    (seen : List String) (ms : List Mutant)
    → (mutants_problems seen ms).0 ≡ []
    → All IsComplete ms × Fresh seen ms
unfolding mutants_problems Fresh
mutants_ok seen [] h = (tt, tt)
mutants_ok seen (m ∷ ms) h =
    let (k, r) = append-eq-nil _ _ h in
    let (c, f) = mutant_ok seen m k in
    let (cs, fs) = mutants_ok (mid m ∷ seen) ms r in ((c, cs), (f, fs))

ok_mutants :
    (seen : List String) (ms : List Mutant)
    → All IsComplete ms
    → Fresh seen ms
    → (mutants_problems seen ms).0 ≡ []
unfolding mutants_problems Fresh
ok_mutants seen [] c f = refl
ok_mutants seen (m ∷ ms) (c, cs) (f, fs) =
    rw (ok_mutant seen m c f) (ok_mutants (mid m ∷ seen) ms cs fs)

seen_In :
    (x : String) (seen : List String) (ms : List Mutant)
    → In x (seen_after seen ms)
    → In x seen ⊎ ((m : Mutant) × In m ms × (x ≡ mid m))
unfolding seen_after
seen_In x seen [] i = inl i
seen_In x seen (m ∷ ms) i = elim (seen_In x (mid m ∷ seen) ms i) [
  | inl (inl e) ↦ inr (m, inl refl, e)
  | inl (inr j) ↦ inl j
  | inr (n, j, e) ↦ inr (n, inr j, e)
]

In-seen_old :
    (x : String) (seen : List String) (ms : List Mutant) → In x seen → In x (seen_after seen ms)
unfolding seen_after
In-seen_old x seen [] i = i
In-seen_old x seen (m ∷ ms) i = In-seen_old x (mid m ∷ seen) ms (inr i)

In-seen_new :
    (x : String) (seen : List String) (ms : List Mutant) (m : Mutant)
    → In m ms
    → x ≡ mid m
    → In x (seen_after seen ms)
unfolding seen_after
In-seen_new x seen [] m i e = absurd i
In-seen_new x seen (n ∷ ms) m (inl p) e = In-seen_old x (mid n ∷ seen) ms (inl (cc))
In-seen_new x seen (n ∷ ms) m (inr i) e = In-seen_new x (mid n ∷ seen) ms m i e

equivalent-nil :
    (seen : List String) (is : List String)
    → (equivalent_problems seen is ≡ []) ↔ All (λ i. In i seen) is
unfolding equivalent_problems
equivalent-nil seen [] = (λ h. tt, λ h. refl)
equivalent-nil seen (i ∷ is) = elim (Bool-cases (contains i seen)) [
  | inl e ↦ (
    λ h. (contains-In i seen e, (equivalent-nil seen is).0 (ground (arith, e))),
    λ (a, r). ground (arith, e, (equivalent-nil seen is).1 r),
  )
  | inr e ↦ (λ h. absurd (ground (arith, e)), λ (a, r). absurd (contains-false i seen e a))
]

All-map {κ λ'} :
    {A : Type 0} (P : A → Type κ) (Q : A → Type λ') (f : (a : A) → P a → Q a) (xs : List A)
    → All P xs
    → All Q xs
All-map P Q f [] h = tt
All-map P Q f (x ∷ xs) (p, h) = (f x p, All-map P Q f xs h)

-- `catalogue_problems` returns no message exactly when every mutant has its four keys and a
-- non-empty list of edits, each of them a pair of a non-empty text and another text, no two mutants share an
-- id, and every id listed as equivalent is a mutant's.
pub catalogue_problems-nil_iff : (c : Catalogue) → (catalogue_problems c ≡ []) ↔ IsWellFormed c
unfolding catalogue_problems
catalogue_problems-nil_iff c = (there, back)
  where
    old :
        (i : String) → In i (seen_after [] c.mutants) → (m : Mutant) × In m c.mutants × (i ≡ mid m)
    old i at = elim (seen_In i [] c.mutants at) [ inl x ↦ absurd x | inr found ↦ found ]

    there : catalogue_problems c ≡ [] → IsWellFormed c
    there h =
        let (k, r) = append-eq-nil _ _ h in
        let (cs, fs) = mutants_ok [] c.mutants k in
        record {
          complete = cs;
          distinct = fs;
          known =
              All-map (λ i. In i (seen_after [] c.mutants)) _ old c.equivalent
                ((equivalent-nil _ c.equivalent).0 (
                  subst (λ s. equivalent_problems s c.equivalent ≡ []) (mutants_seen [] c.mutants)
                    r));
        }

    back : IsWellFormed c → catalogue_problems c ≡ []
    back w =
        rw (ok_mutants [] c.mutants w.complete w.distinct, mutants_seen [] c.mutants)
          ((equivalent-nil (seen_after [] c.mutants) c.equivalent).1 (
            All-map _ (λ i. In i (seen_after [] c.mutants))
              (λ i (m, at, e). In-seen_new i [] c.mutants m at e) c.equivalent w.known))
