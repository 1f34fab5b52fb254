-- ===== src/Mutation/Cache/Returns.antt =====
-- When `restore_cache` returns.
use determinant.Base.{
  String, ◌≡◌, refl, sym, ap, subst, ◌≢◌, inl, inr, Bool, true, false, Option, none, some, List, [],
  ◌∷◌, arith, str_eq, eq_iff, if◌then◌else◌, Bool-cases, In,
}
use determinant.Base.Text.{Text, text_eq}
use determinant.Mutation.Catalogue.{contains}
use determinant.Mutation.Cache.{
  h, Entry, file, directory, Listing, Cache, find, files, manifests_of, snapshot_cache, prune, put,
  write_manifest, write_manifests, pruned, restore_manifests, with_h, restore_cache,
}
use determinant.Mutation.Cache.Restored.{
  find_in, lookup, Unique, UniqueIn, write_manifest-find, find-prune,
}

write_manifest-some :
    (n : String) (bytes : Text) (l : Listing) (found : Option Entry)
    → found ≢ some directory
    → (k : Listing) × (write_manifest n bytes l found ≡ some k)
unfolding write_manifest
write_manifest-some n bytes l none ok = (put n (file bytes) l, refl)
write_manifest-some n bytes l (some directory) ok = absurd (ok refl)
write_manifest-some n bytes l (some (file t)) ok = elim (Bool-cases (text_eq t bytes)) [
  | inl same ↦ (l, rw same refl)
  | inr other ↦ (put n (file bytes) l, rw other refl)
]

still_file :
    (e : Option Entry) (bytes : Text) (b : Bool)
    → e ≢ some directory
    → (if b then some (file bytes) else e) ≢ some directory
still_file e bytes true ok bad = absurd (cc)
still_file e bytes false ok bad = ok bad

write_manifests-some :
    (ms : List (String × Text)) (l : Listing)
    → ((m : String) (t : Text) → In (m, t) ms → find m l ≢ some directory)
    → (k : Listing) × (write_manifests ms l ≡ some k)
unfolding write_manifests
write_manifests-some [] l ok = (l, refl)
write_manifests-some ((n, bytes) ∷ ms) l ok =
    let (k, e) = write_manifest-some n bytes l (find n l) (ok n bytes (inl refl)) in
    let (k', e') = write_manifests-some ms k (λ m t at.
      let first = write_manifest-find n bytes l k (find n l) m refl e in
      subst (λ x. x ≢ some directory) (sym first)
        (still_file (find m l) bytes (str_eq m n) (ok m t (inr at)))) in
    (k', ground (arith, e, e'))

files-find :
    (l : Listing) (n : String) (t : Text)
    → Unique l
    → In (n, t) (files l)
    → find n l ≡ some (file t)
unfolding files find Unique
files-find [] n t u at = absurd at
files-find ((m, directory) ∷ l) n t (new, u) at = behind (files-find l n t u at)
  where
    behind : find n l ≡ some (file t) → find n ((m, directory) ∷ l) ≡ some (file t)
    behind e = elim (Bool-cases (str_eq n m)) [
      | inl same ↦
          let eq : n ≡ m = ground (arith, same, eq_iff n m) in
          absurd (cc (subst (λ k. find k l ≡ some (file t)) eq e, new))
      | inr other ↦ ground (arith, other, e)
    ]
files-find ((m, file s) ∷ l) n t (new, u) (inl eq) =
    let names_eq : n ≡ m = ap (λ (p : String × Text). p.0) eq in
    let texts_eq : t ≡ s = ap (λ (p : String × Text). p.1) eq in
    ground (arith, names_eq, texts_eq, eq_iff n m)
files-find ((m, file s) ∷ l) n t (new, u) (inr at) = behind (files-find l n t u at)
  where
    behind : find n l ≡ some (file t) → find n ((m, file s) ∷ l) ≡ some (file t)
    behind e = elim (Bool-cases (str_eq n m)) [
      | inl same ↦
          let eq : n ≡ m = ground (arith, same, eq_iff n m) in
          absurd (cc (subst (λ k. find k l ≡ some (file t)) eq e, new))
      | inr other ↦ ground (arith, other, e)
    ]

pruned_file :
    (kept : List String) (l : Listing) (n : String)
    → find n l ≢ some directory
    → find n (prune kept l) ≢ some directory
pruned_file kept l n ok =
    subst (λ x. x ≢ some directory) (sym (find-prune n kept l)) (either (contains n kept))
  where
    either : (b : Bool) → (if b then find n l else none) ≢ some directory
    either true = ok
    either false = λ e. absurd (cc)

manifests_of-find_in :
    (l : Option Listing) (n : String) (t : Text)
    → UniqueIn l
    → In (n, t) (manifests_of l)
    → find_in l n ≡ some (file t)
unfolding manifests_of UniqueIn find_in
manifests_of-find_in none n t u at = absurd at
manifests_of-find_in (some l) n t u at = files-find l n t u at

restore_manifests-some :
    (ms : List (String × Text)) (l : Listing)
    → ((m : String) (t : Text) → In (m, t) ms → find m l ≢ some directory)
    → (k : Option Listing) × (restore_manifests ms (some l) ≡ some k)
unfolding restore_manifests
restore_manifests-some [] l ok =
    let (k, e) = write_manifests-some [] l ok in (some k, ground (arith, e))
restore_manifests-some (m ∷ ms) l ok =
    let (k, e) = write_manifests-some (m ∷ ms) l ok in (some k, ground (arith, e))

-- `restore_cache` returns, if the subdirectory `h` is there and no file that it held at the
-- snapshot has become a directory.
pub restore_cache-some :
    (old c : Cache) (l : Listing)
    → UniqueIn (old h)
    → c h ≡ some l
    → ((n : String) (t : Text) → lookup old h n ≡ some (file t) → find n l ≢ some directory)
    → (r : Cache) × (restore_cache c (snapshot_cache old) ≡ some r)
unfolding restore_cache snapshot_cache pruned lookup
restore_cache-some old c l unique there ok =
    let kept = (snapshot_cache old).entries h in
    let (k, e) =
      restore_manifests-some (manifests_of (old h)) (prune kept l)
        (λ m t at. pruned_file kept l m (ok m t (manifests_of-find_in (old h) m t unique at))) in
    (with_h k (pruned (snapshot_cache old) c), ground (arith, there, e))
