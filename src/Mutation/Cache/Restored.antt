-- ===== src/Mutation/Cache/Restored.antt =====
-- What `restore_cache` leaves of a cache that a build has changed.
use determinant.Base.{
  String, ◌≡◌, refl, sym, ap, ◌∙◌, subst, ◌≢◌, ◌⊎◌, inl, inr, true, false, Option, none, some, List,
  [], ◌∷◌, arith, str_eq, eq_iff, if◌then◌else◌, Bool-cases, Option-cases,
}
use determinant.Base.Text.{Text, text_eq, text_eq_sound}
use determinant.Mutation.Catalogue.{contains}
use determinant.Mutation.Cache.{
  Subdir, o, h, z, tmp, Entry, file, directory, Listing, Cache, find, Snapshot, names, files,
  manifests_of, snapshot_cache, prune, put, write_manifest, write_manifests, pruned,
  restore_manifests, with_h, restore_cache,
}

unfoldable pub find_in : Option Listing → String → Option Entry
unfolding find
find_in none n = none
find_in (some l) n = find n l

-- The entry of that name in a subdirectory.
unfoldable pub lookup : Cache → Subdir → String → Option Entry
unfolding find_in
lookup c d n = find_in (c d) n

find-put_same : (n : String) (e : Entry) (l : Listing) → find n (put n e l) ≡ some e
unfolding find put
find-put_same n e [] = ground (arith, eq_iff n n)
find-put_same n e ((m, f) ∷ l) = elim (Bool-cases (str_eq n m)) [
  | inl same ↦ ground (arith, same)
  | inr other ↦ ground (arith, other, find-put_same n e l)
]

find-put_other :
    (m n : String) (e : Entry) (l : Listing) → str_eq m n ≡ false → find m (put n e l) ≡ find m l
unfolding find put
find-put_other m n e [] ne = ground (arith, ne)
find-put_other m n e ((k, f) ∷ l) ne = elim (Bool-cases (str_eq n k)) [
  | inl same ↦ ground (arith, same, ne, eq_iff n k, eq_iff m k, eq_iff m n)
  | inr other ↦ ground (arith, other, find-put_other m n e l ne)
]

pub find-prune :
    (n : String) (kept : List String) (l : Listing)
    → find n (prune kept l) ≡ (if contains n kept then find n l else none)
unfolding find prune
find-prune n kept [] = ground arith
find-prune n kept ((m, e) ∷ l) = elim (Bool-cases (str_eq n m)) [
  | inl same ↦
      let eq : n ≡ m = ground (arith, same, eq_iff n m) in
      ground (arith, same, eq, find-prune n kept l, ap (λ k. contains k kept) eq)
  | inr other ↦ ground (arith, other, find-prune n kept l)
]

-- A write of a manifest, at the name and elsewhere.
find-put :
    (m n : String) (e : Entry) (l : Listing)
    → find m (put n e l) ≡ (if str_eq m n then some e else find m l)
find-put m n e l = elim (Bool-cases (str_eq m n)) [
  | inl same ↦
      let eq : m ≡ n = ground (arith, same, eq_iff m n) in
      rw same (subst (λ k. find k (put n e l) ≡ some e) (sym eq) (find-put_same n e l))
  | inr other ↦ rw other (find-put_other m n e l other)
]

keep-file :
    (m n : String) (bytes : Text) (l : Listing)
    → find n l ≡ some (file bytes)
    → find m l ≡ (if str_eq m n then some (file bytes) else find m l)
keep-file m n bytes l at = elim (Bool-cases (str_eq m n)) [
  | inl same ↦
      let eq : m ≡ n = ground (arith, same, eq_iff m n) in
      rw same (subst (λ k. find k l ≡ some (file bytes)) (sym eq) at)
  | inr other ↦ rw other refl
]

pub write_manifest-find :
    (n : String) (bytes : Text) (l l' : Listing) (found : Option Entry) (m : String)
    → find n l ≡ found
    → write_manifest n bytes l found ≡ some l'
    → find m l' ≡ (if str_eq m n then some (file bytes) else find m l)
unfolding write_manifest
write_manifest-find n bytes l l' none m at w =
    let same : put n (file bytes) l ≡ l' = ground (arith, w) in
    subst (λ k. find m k ≡ (if str_eq m n then some (file bytes) else find m l)) same
      (find-put m n (file bytes) l)
write_manifest-find n bytes l l' (some directory) m at w = absurd (cc)
write_manifest-find n bytes l l' (some (file t)) m at w = elim (Bool-cases (text_eq t bytes)) [
  | inl equal ↦
      let same : l ≡ l' = ground (arith, w, equal) in
      let bytes_same : t ≡ bytes = text_eq_sound t bytes equal in
      subst (λ k. find m k ≡ (if str_eq m n then some (file bytes) else find m l)) same
        (keep-file m n bytes l (at ∙ ap (λ b. some (file b)) bytes_same))
  | inr differ ↦
      let same : put n (file bytes) l ≡ l' = ground (arith, w, differ) in
      subst (λ k. find m k ≡ (if str_eq m n then some (file bytes) else find m l)) same
        (find-put m n (file bytes) l)
]

-- The bytes that the last manifest of that name has.
manifest : String → List (String × Text) → Option Text
manifest n [] = none
manifest n ((m, t) ∷ ms) = elim (manifest n ms) [
  | some last ↦ some last
  | none ↦ if str_eq n m then some t else none
]

overridden : Option Text → Option Entry → Option Entry
overridden none e = e
overridden (some t) e = some (file t)

write_manifests-find :
    (ms : List (String × Text)) (l l' : Listing) (m : String)
    → write_manifests ms l ≡ some l'
    → find m l' ≡ overridden (manifest m ms) (find m l)
unfolding write_manifests manifest overridden
write_manifests-find [] l l' m w = ground (arith, w)
write_manifests-find ((n, bytes) ∷ ms) l l' m w =
    elim (Option-cases (write_manifest n bytes l (find n l))) [
      | inl e ↦ absurd (ground (arith, e, w))
      | inr (k, e) ↦
          let rest = write_manifests-find ms k l' m (ground (arith, e, w)) in
          let first = write_manifest-find n bytes l k (find n l) m refl e in
          elim (Option-cases (manifest m ms)) [
            | inl gone ↦ elim (Bool-cases (str_eq m n)) [
              | inl same ↦ ground (arith, rest, first, gone, same)
              | inr other ↦ ground (arith, rest, first, gone, other)
            ]
            | inr (t, there) ↦ ground (arith, rest, there)
          ]
    ]

file_text : Option Entry → Option Text
file_text none = none
file_text (some (file t)) = some t
file_text (some directory) = none

-- No name stands twice in a listing.
unfoldable pub Unique : Listing → Type 0
Unique [] = Unit
Unique ((n, e) ∷ l) = (find n l ≡ none) × Unique l

manifest-files : (n : String) (l : Listing) → Unique l → manifest n (files l) ≡ file_text (find n l)
unfolding manifest files find file_text Unique
manifest-files n [] u = refl
manifest-files n ((m, e) ∷ l) (new, u) = elim (Bool-cases (str_eq n m)) [
  | inl same ↦
      let eq : n ≡ m = ground (arith, same, eq_iff n m) in
      let gone : find n l ≡ none = subst (λ k. find k l ≡ none) (sym eq) new in
      at_head e same (manifest-files n l u ∙ ap (λ x. file_text x) gone)
  | inr other ↦ behind e other (manifest-files n l u)
]
  where
    at_head :
        (e : Entry)
        → str_eq n m ≡ true
        → manifest n (files l) ≡ none
        → manifest n (files ((m, e) ∷ l)) ≡ file_text (find n ((m, e) ∷ l))
    at_head (file t) same none_left = ground (arith, same, none_left)
    at_head directory same none_left = ground (arith, same, none_left)

    behind :
        (e : Entry)
        → str_eq n m ≡ false
        → manifest n (files l) ≡ file_text (find n l)
        → manifest n (files ((m, e) ∷ l)) ≡ file_text (find n ((m, e) ∷ l))
    behind (file t) other ih = elim (Option-cases (manifest n (files l))) [
      | inl e ↦ ground (arith, other, ih, e)
      | inr (b, e) ↦ ground (arith, other, ih, e)
    ]
    behind directory other ih = ground (arith, other, ih)

contains-find :
    (n : String) (l : Listing)
    → contains n (names (some l)) ≡ true
    → (e : Entry) × (find n l ≡ some e)
unfolding contains names find
contains-find n [] c = absurd (cc)
contains-find n ((m, e) ∷ l) c = elim (Bool-cases (str_eq n m)) [
  | inl same ↦ (e, ground (arith, same))
  | inr other ↦
      let (f, at) = contains-find n l (ground (arith, other, c)) in (f, ground (arith, other, at))
]

find-contains :
    (n : String) (l : Listing) (e : Entry) → find n l ≡ some e → contains n (names (some l)) ≡ true
unfolding contains names find
find-contains n [] e at = absurd (cc)
find-contains n ((m, f) ∷ l) e at = elim (Bool-cases (str_eq n m)) [
  | inl same ↦ ground (arith, same)
  | inr other ↦ ground (arith, other, find-contains n l e (ground (arith, other, at)))
]

known :
    (n : String) (l : Option Listing)
    → ((find_in l n ≡ none) × (contains n (names l) ≡ false))
      ⊎ ((e : Entry) × (find_in l n ≡ some e) × (contains n (names l) ≡ true))
unfolding find_in
known n none = inl (refl, unfold contains names in refl)
known n (some l) = elim (Option-cases (find n l)) [
  | inr (e, at) ↦ inr (e, at, find-contains n l e at)
  | inl gone ↦ elim (Bool-cases (contains n (names (some l)))) [
    | inr c ↦ inl (gone, c)
    | inl c ↦ let (e, at) = contains-find n l c in absurd (ground (arith, gone, at))
  ]
]

find_in-pruned :
    (kept : List String) (l : Option Listing) (n : String)
    → find_in (elim l [ none ↦ none | some k ↦ some (prune kept k) ]) n
      ≡ (if contains n kept then find_in l n else none)
unfolding find_in
find_in-pruned kept none n = elim (Bool-cases (contains n kept)) [
  | inl c ↦ rw c refl
  | inr c ↦ rw c refl
]
find_in-pruned kept (some l) n = find-prune n kept l

restore_manifests-find :
    (ms : List (String × Text)) (l l' : Option Listing) (n : String)
    → restore_manifests ms l ≡ some l'
    → find_in l' n ≡ overridden (manifest n ms) (find_in l n)
unfolding restore_manifests find_in manifest overridden
restore_manifests-find [] none l' n r =
    subst (λ k. find_in k n ≡ none) {x = none} {y = l'} (ground (arith, r)) refl
restore_manifests-find (m ∷ ms) none l' n r = absurd (cc)
restore_manifests-find [] (some l) l' n r = elim (Option-cases (write_manifests [] l)) [
  | inl e ↦ absurd (ground (arith, e, r))
  | inr (k, e) ↦
      subst (λ j. find_in j n ≡ find n l) {x = some k} {y = l'} (ground (arith, e, r))
        (write_manifests-find [] l k n e)
]
restore_manifests-find (m ∷ ms) (some l) l' n r = elim (Option-cases (write_manifests (m ∷ ms) l)) [
  | inl e ↦ absurd (ground (arith, e, r))
  | inr (k, e) ↦
      subst (λ j. find_in j n ≡ overridden (manifest n (m ∷ ms)) (find n l)) {x = some k} {y = l'}
        (ground (arith, e, r)) (write_manifests-find (m ∷ ms) l k n e)
]

unfoldable pub UniqueIn : Option Listing → Type 0
unfolding Unique
UniqueIn none = Unit
UniqueIn (some l) = Unique l

manifest-manifests_of :
    (n : String) (l : Option Listing)
    → UniqueIn l
    → manifest n (manifests_of l) ≡ file_text (find_in l n)
unfolding UniqueIn manifests_of find_in manifest file_text
manifest-manifests_of n none u = refl
manifest-manifests_of n (some l) u = manifest-files n l u

-- A build keeps the entries of a cache, but may rewrite or remove the files under `h`.
unfoldable pub Kept : Cache → Cache → Type 0
Kept old c =
    (d : Subdir) (n : String) (e : Entry)
    → lookup old d n ≡ some e
    → (lookup c d n ≡ some e) ⊎ ((d ≡ h) × (t : Text) × (e ≡ file t))

file_case :
    (before e : Option Entry) {m : Option Text} (t : Text)
    → m ≡ file_text e
    → e ≡ some (file t)
    → overridden m before ≡ e
unfolding overridden file_text
file_case before e t a b = ground (arith, a, b)

other_case :
    (before e : Option Entry) {m : Option Text}
    → m ≡ file_text e
    → before ≡ e
    → overridden m before ≡ e
unfolding overridden file_text
other_case before none a b = ground (arith, a, b)
other_case before (some (file t)) a b = ground (arith, a, b)
other_case before (some directory) a b = ground (arith, a, b)

module _ (old c : Cache) (unique : (d : Subdir) → UniqueIn (old d)) (kept : Kept old c) where
  abbrev saved : Snapshot
  saved = snapshot_cache old

  -- What the first loop leaves of an entry that is no manifest.
  pruned-old :
      (d : Subdir) (n : String)
      → (find_in (pruned saved c d) n ≡ lookup old d n)
        ⊎ ((d ≡ h) × (t : Text) × (lookup old d n ≡ some (file t)))
  unfolding pruned lookup snapshot_cache Kept
  pruned-old d n = elim (known n (old d)) [
    | inl (gone, absent) ↦ inl (find_in-pruned (names (old d)) (c d) n ∙ (rw absent (sym gone)))
    | inr (e, at, present) ↦ elim (kept d n e at) [
      | inl same ↦ inl (find_in-pruned (names (old d)) (c d) n ∙ (rw present (same ∙ sym at)))
      | inr (in_h, t, is_file) ↦ inr (in_h, t, at ∙ ap (λ x. some x) is_file)
    ]
  ]

  restored_h :
      (l : Option Listing) (n : String)
      → restore_manifests saved.manifests (pruned saved c h) ≡ some l
      → find_in l n ≡ lookup old h n
  unfolding lookup snapshot_cache
  restored_h l n r =
      let found = restore_manifests-find saved.manifests (pruned saved c h) l n r in
      let text = manifest-manifests_of n (old h) (unique h) in
      elim (pruned-old h n) [
        | inr (in_h, t, at) ↦
            found ∙ file_case (find_in (pruned saved c h) n) (find_in (old h) n) t text at
        | inl same ↦ found ∙ other_case (find_in (pruned saved c h) n) (find_in (old h) n) text same
      ]

  not_h :
      (d : Subdir) (n : String)
      → d ≢ h
      → (find_in (pruned saved c d) n ≡ lookup old d n)
        ⊎ ((d ≡ h) × (t : Text) × (lookup old d n ≡ some (file t)))
      → find_in (pruned saved c d) n ≡ lookup old d n
  not_h d n ne (inl same) = same
  not_h d n ne (inr (in_h, t, at)) = absurd (ne in_h)

  restored_at :
      (l : Option Listing) (d : Subdir) (n : String)
      → restore_manifests saved.manifests (pruned saved c h) ≡ some l
      → find_in (with_h l (pruned saved c) d) n ≡ lookup old d n
  unfolding with_h
  restored_at l h n r = restored_h l n r
  restored_at l o n r = not_h o n (λ e. absurd (cc)) (pruned-old o n)
  restored_at l z n r = not_h z n (λ e. absurd (cc)) (pruned-old z n)
  restored_at l tmp n r = not_h tmp n (λ e. absurd (cc)) (pruned-old tmp n)

-- What a build does to the cache is undone, where it keeps the entries that the snapshot was taken
-- of but for the files under `h`: if `restore_cache` does not raise, every name in the four
-- subdirectories has the entry that it had at the snapshot (none, if it had none). No name stands
-- twice in a subdirectory.
pub restore_cache-lookup :
    (old c r : Cache) (d : Subdir) (n : String)
    → ((s : Subdir) → UniqueIn (old s))
    → Kept old c
    → restore_cache c (snapshot_cache old) ≡ some r
    → lookup r d n ≡ lookup old d n
unfolding restore_cache lookup
restore_cache-lookup old c r d n unique kept done =
    let saved = snapshot_cache old in
    elim (Option-cases (restore_manifests saved.manifests (pruned saved c h))) [
      | inl e ↦ absurd (ground (arith, e, done))
      | inr (l, e) ↦
          subst (λ k. find_in (k d) n ≡ find_in (old d) n) {x = with_h l (pruned saved c)} {y = r}
            (ground (arith, e, done)) (restored_at old c unique kept l d n e)
    ]
