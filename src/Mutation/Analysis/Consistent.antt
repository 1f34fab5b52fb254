-- ===== src/Mutation/Analysis/Consistent.antt =====
-- The cross-checks of `analyse`: a reordered summary cannot hide a failure.
use determinant.Base.{
  ℕ, ◌≡◌, sym, subst, inl, inr, Bool, true, false, Option, some, List, [], ◌∷◌, arith, Bool-cases,
  All, append-eq-nil, All-take,
}
use determinant.Base.Text.{Text}
use determinant.Mutation.Patterns.{digest_command, find_all, newline_split}
use determinant.Mutation.Output.{parse_tree}
use determinant.Mutation.Analysis.{
  Suite, State, States, Step, Warning, fail, is_fail, put, suite_of_test, digest_suite, check_tests,
  check_commands, analyse, digest_summary, summary, test_all,
}

is_fail-eq : (o : Option State) → is_fail o ≡ true → o ≡ some fail
unfolding is_fail
is_fail-eq o e = ground arith

check_tests-nil :
    (ns : List Text) (d : States)
    → check_tests ns d ≡ []
    → All (λ n. d (suite_of_test n) ≡ some fail) ns
unfolding check_tests
check_tests-nil [] d h = tt
check_tests-nil (n ∷ ns) d h = elim (Bool-cases (is_fail (d (suite_of_test n)))) [
  | inl e ↦ (is_fail-eq _ e, check_tests-nil ns d (ground (arith, e)))
  | inr e ↦ absurd (ground (arith, e))
]

put_keeps : (s r : Suite) (d : States) → d r ≡ some fail → put s fail d r ≡ some fail
unfolding put
put_keeps s r d h = ground arith

put_self : (s : Suite) (d : States) → put s fail d s ≡ some fail
unfolding put
put_self s d = ground arith

commands_keep :
    (cs : List Text) (d : States) (r : Suite)
    → d r ≡ some fail
    → (check_commands cs d).0 r ≡ some fail
unfolding check_commands
commands_keep [] d r h = h
commands_keep (c ∷ cs) d r h = elim (Bool-cases (is_fail (d (digest_suite c)))) [
  | inl e ↦ ground (arith, e, commands_keep cs d r h)
  | inr e ↦ ground (
    arith,
    e,
    commands_keep cs (put (digest_suite c) fail d) r (put_keeps (digest_suite c) r d h),
  )
]

kept_step :
    (c : Text) (cs : List Text) (d : States)
    → is_fail (d (digest_suite c)) ≡ true
    → check_commands (c ∷ cs) d ≡ check_commands cs d
unfolding check_commands
kept_step c cs d e = ground (arith, e)

put_step :
    (c : Text) (cs : List Text) (d : States)
    → is_fail (d (digest_suite c)) ≡ false
    → (check_commands (c ∷ cs) d).0 ≡ (check_commands cs (put (digest_suite c) fail d)).0
unfolding check_commands
put_step c cs d e = ground (arith, e)

abbrev Marked : States → List Text → Type 0
Marked d = All (λ c. d (digest_suite c) ≡ some fail)

commands-Marked : (cs : List Text) (d : States) → Marked (check_commands cs d).0 cs
commands-Marked [] d = tt
commands-Marked (c ∷ cs) d = elim (Bool-cases (is_fail (d (digest_suite c)))) [
  | inl e ↦
      subst (λ (r : States × List Warning). Marked r.0 (c ∷ cs)) (sym (kept_step c cs d e))
        (
          commands_keep cs d (digest_suite c) (is_fail-eq (d (digest_suite c)) e),
          commands-Marked cs d,
        )
  | inr e ↦
      let d' : States = put (digest_suite c) fail d in
      subst (λ (r : States). Marked r (c ∷ cs)) (sym (put_step c cs d e))
        (commands_keep cs d' (digest_suite c) (put_self (digest_suite c) d), commands-Marked cs d')
]

summary-Marked :
    (lines children runs : List Text)
    → Marked (summary test_all lines (some (children, runs))).states (find_all digest_command lines)
unfolding summary digest_summary
summary-Marked lines children runs = commands-Marked (find_all digest_command lines) _

-- In the result for `zig build test-all`, if its output has a summary, the suite of every failed
-- corpus-digests command is marked as failed, whatever the summary says.
pub analyse-digest_commands :
    (rc : ℕ) (out : Text) (timed_out : Bool) (tree : List Text × List Text)
    → parse_tree out ≡ some tree
    → All
        (λ c. (analyse test_all rc out timed_out).suites (digest_suite c) ≡ some fail)
        (find_all digest_command (newline_split out))
unfolding analyse
analyse-digest_commands rc out timed_out (children, runs) e =
    let lines = newline_split out in
    subst
      (λ (o : Option (List Text × List Text)).
        Marked (summary test_all lines o).states (find_all digest_command lines))
      (sym e) (summary-Marked lines children runs)

-- Without warnings, every failed test that a result names belongs to a suite that it marks as
-- failed.
pub analyse-no_warnings :
    (step : Step) (rc : ℕ) (out : Text) (timed_out : Bool)
    → (analyse step rc out timed_out).warnings ≡ []
    → All
        (λ n. (analyse step rc out timed_out).suites (suite_of_test n) ≡ some fail)
        (analyse step rc out timed_out).failed_tests
unfolding analyse
analyse-no_warnings step rc out timed_out h =
    All-take _ 25 _ (check_tests-nil _ _ (append-eq-nil _ _ h).1)
