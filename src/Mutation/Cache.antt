-- ===== src/Mutation/Cache.antt =====
-- `snapshot_cache` and `restore_cache` of tools/mutation/mutate.py. Symbolic links, and removals
-- that fail, are not modelled.
pub mod Restored
pub mod Returns
use determinant.Base.{
  ℕ, zero, suc, ◌+◌, ◌-◌, ◌*◌, ◌/◌, ◌%◌, ◌^◌, ◌≤◌, ◌<◌, bit_and, bit_or, bit_xor, min, max, String,
  ◌≡◌, refl, sym, ap, ◌∙◌, subst, ◌≢◌, ◌↔◌, ◌⊎◌, inl, inr, Bool, true, false, ◌&&◌, ◌||◌, not,
  Option, none, some, List, [], ◌∷◌, ◌++◌, map, append_assoc, append-nil, arith, str_eq, eq_iff,
  ltb, leb, ◌==◌, if◌then◌else◌, ==_iff, Bool-cases, Option-cases, length, get_elem?, get_or, take,
  drop, length-append, All, All-append, In, append-eq-nil, All-take,
}
use determinant.Base.Text.{Text, text_eq, text_eq_sound}
use determinant.Mutation.Catalogue.{contains}

-- `CACHE_SUBDIRS`
pub data Subdir : Type 0 where
  o h z tmp : Subdir

-- A directory's own entries do not matter here.
pub data Entry : Type 0 where
  file : Text → Entry
  directory : Entry

abbrev pub Listing : Type 0
Listing = List (String × Entry)

-- `none` is a subdirectory that is not there.
abbrev pub Cache : Type 0
Cache = Subdir → Option Listing

unfoldable pub find : String → Listing → Option Entry
find n [] = none
find n ((m, e) ∷ l) = let rest = find n l in if str_eq n m then some e else rest

pub record Snapshot : Type 0 where
  pub entries : Subdir → List String
  pub manifests : List (String × Text)

names : Option Listing → List String
names none = []
names (some l) = map (λ (e : String × Entry). e.0) l

-- The files of a listing with their bytes.
files : Listing → List (String × Text)
files [] = []
files ((n, file t) ∷ l) = (n, t) ∷ files l
files ((n, directory) ∷ l) = files l

manifests_of : Option Listing → List (String × Text)
unfolding files
manifests_of none = []
manifests_of (some l) = files l

unfoldable pub snapshot_cache : Cache → Snapshot
unfolding names manifests_of
snapshot_cache c = record { entries = λ d. names (c d); manifests = manifests_of (c h) }

-- The first loop, in one subdirectory: entries that are not in the snapshot are removed.
pub prune : List String → Listing → Listing
prune kept [] = []
prune kept ((n, e) ∷ l) = let rest = prune kept l in if contains n kept then (n, e) ∷ rest else rest

-- `open(p, "wb")` and the write.
put : String → Entry → Listing → Listing
put n e [] = (n, e) ∷ []
put n e ((m, f) ∷ l) = let rest = put n e l in if str_eq n m then (m, e) ∷ l else (m, f) ∷ rest

-- What the second loop finds under a manifest's name; a directory there makes `open` raise.
pub write_manifest : String → Text → Listing → Option Entry → Option Listing
unfolding put
write_manifest n bytes l none = some (put n (file bytes) l)
write_manifest n bytes l (some directory) = none
write_manifest n bytes l (some (file t)) =
    if text_eq t bytes then some l else some (put n (file bytes) l)

-- The second loop.
write_manifests : List (String × Text) → Listing → Option Listing
unfolding write_manifest find
write_manifests [] l = some l
write_manifests ((n, bytes) ∷ ms) l = elim (write_manifest n bytes l (find n l)) [
  | none ↦ none
  | some l' ↦ write_manifests ms l'
]

pruned : Snapshot → Cache → Cache
unfolding prune
pruned s c d = elim (c d) [ none ↦ none | some l ↦ some (prune (s.entries d) l) ]

-- Without the subdirectory `h`, `open(p, "wb")` raises if there is a manifest to write.
restore_manifests : List (String × Text) → Option Listing → Option (Option Listing)
unfolding write_manifests
restore_manifests [] none = some none
restore_manifests (m ∷ ms) none = none
restore_manifests ms (some l) = elim (write_manifests ms l) [
  | none ↦ none
  | some l' ↦ some (some l')
]

with_h : Option Listing → Cache → Cache
with_h l c h = l
with_h l c o = c o
with_h l c z = c z
with_h l c tmp = c tmp

-- `none` is an uncaught exception.
unfoldable pub restore_cache : Cache → Snapshot → Option Cache
unfolding pruned restore_manifests with_h
restore_cache c s = elim (restore_manifests s.manifests (pruned s c h)) [
  | none ↦ none
  | some l ↦ some (with_h l (pruned s c))
]
