-- ===== src/Mutation/Tests/CacheRuns.antt =====
-- A cache that a build has added to, rewriting a manifest.
use determinant.Base.{
  String, ◌≡◌, refl, ◌≢◌, inl, inr, none, some, [], ◌∷◌, arith, str_eq, eq_iff, Bool-cases,
}
use determinant.Base.Text.{Text, codes}
use determinant.Mutation.Cache.{
  Subdir, o, h, z, tmp, file, directory, Listing, Cache, find, snapshot_cache, restore_cache,
}
use determinant.Mutation.Cache.Restored.{
  find_in, lookup, Unique, UniqueIn, Kept, restore_cache-lookup,
}
use determinant.Mutation.Cache.Returns.{restore_cache-some}

abbrev before : Cache
before h = some (("m", file (codes "a")) ∷ [])
before o = some (("x", directory) ∷ [])
before z = none
before tmp = none

abbrev built_h : Listing
built_h = ("m", file (codes "b")) ∷ ("new", file (codes "q")) ∷ []

abbrev built : Cache
built h = some built_h
built o = some (("y", directory) ∷ ("x", directory) ∷ [])
built z = some (("y", directory) ∷ [])
built tmp = none

unique : (s : Subdir) → UniqueIn (before s)
unfolding UniqueIn Unique find
unique h = (refl, tt)
unique o = (refl, tt)
unique z = tt
unique tmp = tt

kept : Kept before built
unfolding Kept lookup find_in find
kept h n e at = elim (Bool-cases (str_eq n "m")) [
  | inl same ↦ inr (refl, codes "a", ground (arith, same, at))
  | inr other ↦ absurd (ground (arith, other, at))
]
kept o n e at = elim (Bool-cases (str_eq n "x")) [
  | inl same ↦ inl (ground (arith, same, at, eq_iff n "x", eq_iff n "y"))
  | inr other ↦ absurd (ground (arith, other, at))
]
kept z n e at = absurd (cc)
kept tmp n e at = absurd (cc)

no_directory :
    (n : String) (t : Text) → lookup before h n ≡ some (file t) → find n built_h ≢ some directory
unfolding lookup find_in find
no_directory n t at = elim (Bool-cases (str_eq n "m")) [
  | inl same ↦ λ bad. absurd (ground (arith, same, bad))
  | inr other ↦ λ bad. absurd (ground (arith, other, at))
]

restore_cache-some_example : (r : Cache) × (restore_cache built (snapshot_cache before) ≡ some r)
restore_cache-some_example = restore_cache-some before built built_h (unique h) refl no_directory

after : (r : Cache) × (restore_cache built (snapshot_cache before) ≡ some r)
after = restore_cache-some before built built_h (unique h) refl no_directory

restore_cache-lookup_example : lookup after.0 h "m" ≡ lookup before h "m"
restore_cache-lookup_example = restore_cache-lookup before built after.0 h "m" unique kept after.1
