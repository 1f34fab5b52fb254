-- ===== src/Mutation/Tests.antt =====
-- Runs of the mutation driver's model on small inputs, and the uses of its theorems there.
mod Gate
mod CacheRuns
mod Analysis
use determinant.Base.{
  ℕ, zero, suc, ◌+◌, ◌-◌, ◌*◌, ◌/◌, ◌%◌, ◌^◌, ◌≤◌, ◌<◌, bit_and, bit_or, bit_xor, min, max, String,
  ◌≡◌, refl, sym, ap, ◌∙◌, subst, ◌≢◌, ◌↔◌, ◌⊎◌, inl, inr, Bool, true, false, ◌&&◌, ◌||◌, not,
  Option, none, some, List, [], ◌∷◌, ◌++◌, map, append_assoc, append-nil, arith, str_eq, eq_iff,
  ltb, leb, ◌==◌, if◌then◌else◌, ==_iff, Bool-cases, Option-cases, length, get_elem?, get_or, take,
  drop, length-append, All, All-append, In, append-eq-nil, All-take,
}
use determinant.Base.Text.{Text, codes, strip_prefix}
use determinant.Mutation.Edits.{
  Edit, edited, edit_error, count, count_from, replace_first, apply_from, apply_edits,
}
use determinant.Mutation.Edits.Laws.{Spliced, RefusedAt, apply_edits_iff, apply_edits-edit_error}
use determinant.Mutation.Run.{
  Content, Tree, Effect, Job, raw, state, begin, close, remove, update, marker, perform,
  perform_all, attempt, at_last, run_mutant, recover,
}
use determinant.Mutation.Run.Recovery.{
  update_ne, Keeps, Clean, Marked, Restores, Recovers, run_mutant-Clean, recover-run_mutant,
  recover-recover,
}
use determinant.Mutation.Patterns.{
  failed_test, CompileError, compile_error, digest_diff, native_diff,
}

failed_test_runs :
    failed_test (codes "error: 'a' failed' timed out: x")
    ≡ some (codes "a' failed", codes "timed out")
unfolding failed_test strip_prefix
failed_test_runs = refl

compile_error_runs :
    compile_error (codes "src/a.zig:12:3: error: bad .zig:1:1: error: x")
    ≡ some (record {
      path = codes "src/a.zig";
      line = codes "12";
      message = codes "bad .zig:1:1: error: x";
    })
unfolding compile_error strip_prefix
compile_error_runs = refl

digests_run :
    (digest_diff (codes "+ rv32ui/add.bin 0f") ≡ some (codes "rv32ui/add.bin"))
    × (native_diff (codes "sha.bin: result differs from the native run") ≡ some (codes "sha.bin"))
unfolding digest_diff native_diff strip_prefix
digests_run = (refl, refl)

abbrev one_edit : List Edit
one_edit = record { orig = codes "b"; repl = codes "xy" } ∷ []

one_edit_applies : apply_edits (codes "abc") one_edit ≡ edited (codes "axyc")
unfolding apply_edits apply_from count count_from replace_first strip_prefix
one_edit_applies = refl

abbrev stale_edits : List Edit
stale_edits =
    record { orig = codes "b"; repl = codes "xy" } ∷ record { orig = codes "b"; repl = [] } ∷ []

stale_refused : apply_edits (codes "abc") stale_edits ≡ edit_error 2 0 (codes "b")
unfolding apply_edits apply_from count count_from replace_first strip_prefix
stale_refused = refl

-- `str.count` does not see the occurrence that overlaps the first one.
overlap_accepted :
    apply_edits (codes "aaa") (record { orig = codes "aa"; repl = codes "b" } ∷ [])
    ≡ edited (codes "ba")
unfolding apply_edits apply_from count count_from replace_first strip_prefix
overlap_accepted = refl

apply_edits_iff_example :
    (apply_edits (codes "abc") one_edit ≡ edited (codes "axyc"))
    ↔ Spliced (codes "abc") one_edit (codes "axyc")
apply_edits_iff_example =
    apply_edits_iff (codes "abc") one_edit (codes "axyc") ((λ e. absurd (cc)), tt)

apply_edits-edit_error_example : RefusedAt 1 (codes "abc") stale_edits 2 0 (codes "b")
apply_edits-edit_error_example =
    apply_edits-edit_error (codes "abc") stale_edits 2 0 (codes "b") stale_refused

-- A build that writes nothing but its log.
abbrev log_file : String
log_file = "zig-out/log"

abbrev Source : String → Type 0
Source p = str_eq log_file p ≡ false

abbrev write_log : Tree → Tree
write_log t = update t log_file (some (raw []))

abbrev job : Job
job = record {
  id = "m1";
  file = "src/a.zig";
  original = codes "abc";
  mutated = codes "axyc";
  part = codes "a";
  test = write_log;
  test_all = write_log;
  clean_up = λ t. t;
}

write_log-keeps : (t : Tree) (p : String) → Source p → write_log t p ≡ t p
write_log-keeps t p s = rw s refl

keeps : Keeps Source job
keeps = record {
  file_source = refl;
  marker_source = refl;
  file_ne_marker = λ e. absurd (cc (ap (λ p. str_eq "src/a.zig" p) e));
  test_keeps = write_log-keeps;
  test_all_keeps = write_log-keeps;
  clean_up_keeps = λ t p s. refl;
}

abbrev tree : Tree
tree p = if str_eq "src/a.zig" p then some (raw (codes "abc")) else none

abbrev marked_tree : Tree
marked_tree = update tree marker (some (state "m1" "src/a.zig" (codes "abc")))

run_mutant-Clean_example : Clean Source job keeps tree refl (perform_all (run_mutant job 5) tree)
run_mutant-Clean_example = run_mutant-Clean Source job keeps tree refl 5

recover-run_mutant_example :
    Recovers Source job keeps tree refl (codes "ab") (perform_all (take 4 (run_mutant job 6)) tree)
recover-run_mutant_example = recover-run_mutant Source job keeps tree refl 4 4 (codes "ab") refl

abbrev restoring : List Effect
restoring = begin "src/a.zig" [] ∷ close "src/a.zig" (raw (codes "abc")) ∷ remove marker ∷ []

recover-recover_example :
    Restores Source job keeps tree refl [] (perform_all (take 1 restoring) marked_tree)
unfolding recover
recover-recover_example =
    recover-recover Source job keeps tree refl [] [] marked_tree restoring 1
      (record {
        mark = refl;
        others = λ p s nm nf.
            update_ne tree marker p (some (state "m1" "src/a.zig" (codes "abc"))) (λ e. nm (sym e));
      })
      refl
