-- ===== src/Mutation/Tests/Analysis.antt =====
-- The judgement on the output of a build, on short outputs.
use determinant.Base.{ℕ, ◌<◌, ◌≡◌, refl, ◌≢◌, ◌↔◌, ◌⊎◌, false, some, [], ◌∷◌, All, In}
use determinant.Base.Text.{Text, codes, strip_prefix}
use determinant.Mutation.Output.{parse_tree}
use determinant.Mutation.Patterns.{
  find_all, digest_command, newline_split, failed_test, compile_error as located_error,
}
use determinant.Mutation.Analysis.{
  Suite, fail, test, test_all, timeout, survived, killed, suite_of_test, step_state, digest_suite,
  analyse, overall_status, suites,
}
use determinant.Mutation.Analysis.Consistent.{analyse-digest_commands, analyse-no_warnings}
use determinant.Mutation.Analysis.Verdict.{
  overall_status-survived_iff, overall_status-killed, analyse-killed,
}

overall_status-survived_iff_example :
    (overall_status killed survived ≡ survived) ↔ ((killed ≡ survived) × (survived ≡ survived))
overall_status-survived_iff_example = overall_status-survived_iff killed survived

overall_status-killed_example : (killed ≡ killed) ⊎ (timeout ≡ killed)
unfolding overall_status
overall_status-killed_example = overall_status-killed killed timeout refl

abbrev failing : Text
failing = codes "error: 'vm.add' failed\n"

failing_killed : (analyse test 1 failing false).status ≡ killed
unfolding analyse find_all newline_split located_error strip_prefix failed_test
failing_killed = refl

analyse-killed_example :
    (false ≡ false)
    × (◌≢◌ {A = ℕ} 1 0)
    × ((analyse test 1 failing false).compile_errors ≡ [])
    × (((s : Suite) × In s suites × ((analyse test 1 failing false).suites s ≡ some fail))
        ⊎ (0 < (analyse test 1 failing false).failed_test_count))
analyse-killed_example = analyse-killed test 1 failing false failing_killed

-- A summary that does not name the failed step is contradicted by the failed command.
abbrev reordered : Text
reordered =
    codes
      "failed command: ./corpus-digests --runtime-memory x\nBuild Summary: 1/2\ntest-all failure\n+- run test success\n|  +- run exe corpus-digests success\n"

reordered_read :
    parse_tree reordered
    ≡ some (codes "run test success" ∷ [], codes "run exe corpus-digests success" ∷ [])
unfolding parse_tree strip_prefix
reordered_read = refl

analyse-digest_commands_example :
    All
      (λ c. (analyse test_all 1 reordered false).suites (digest_suite c) ≡ some fail)
      (find_all digest_command (newline_split reordered))
analyse-digest_commands_example =
    analyse-digest_commands 1 reordered false
      (codes "run test success" ∷ [], codes "run exe corpus-digests success" ∷ []) reordered_read

-- An output that names a failed test of a suite that its summary marks as failed.
abbrev consistent : Text
consistent =
    codes
      "error: 'vm.add' failed\nBuild Summary: 1/3\ntest failure\n+- run test 1 fail\n+- run test cli success\n"

consistent_quiet : (analyse test 1 consistent false).warnings ≡ []
unfolding analyse find_all newline_split located_error strip_prefix failed_test step_state
consistent_quiet = refl

analyse-no_warnings_example :
    All
      (λ n. (analyse test 1 consistent false).suites (suite_of_test n) ≡ some fail)
      (analyse test 1 consistent false).failed_tests
analyse-no_warnings_example = analyse-no_warnings test 1 consistent false consistent_quiet
