-- ===== src/Mutation/Analysis.antt =====
-- `analyse` and `overall_status` of tools/mutation/mutate.py: what the output of a build says.
pub mod Consistent
pub mod Verdict
use determinant.Base.{
  ℕ, zero, suc, ◌+◌, ◌-◌, ◌*◌, ◌/◌, ◌%◌, ◌^◌, ◌≤◌, ◌<◌, bit_and, bit_or, bit_xor, min, max, String,
  ◌≡◌, refl, sym, ap, ◌∙◌, subst, ◌≢◌, ◌↔◌, ◌⊎◌, inl, inr, Bool, true, false, ◌&&◌, ◌||◌, not,
  Option, none, some, List, [], ◌∷◌, ◌++◌, map, append_assoc, append-nil, arith, str_eq, eq_iff,
  ltb, leb, ◌==◌, if◌then◌else◌, ==_iff, Bool-cases, Option-cases, length, get_elem?, get_or, take,
  drop, length-append, All, All-append, In,
}
use determinant.Base.Text.{Text, codes, strip_prefix, text_eq}
use determinant.Mutation.Output.{parse_tree}
use determinant.Mutation.Patterns.{
  search_words, fail_words, pass_words, has, newline_split, failed_test, CompileError,
  compile_error as located_error, digest_diff, native_diff, digest_command, find_all,
}

-- `SUITES`
pub data Suite : Type 0 where
  unit cli compliance digests digests_nocache digests_runtime : Suite

abbrev pub suites : List Suite
suites = unit ∷ cli ∷ compliance ∷ digests ∷ digests_nocache ∷ digests_runtime ∷ []

-- A step's state in the summary; `unclear` is `"?"`.
pub data State : Type 0 where
  fail pass skipped unclear : State

pub data Step : Type 0 where
  test test_all : Step

-- `RUN_TESTS[step]`
abbrev pub run_tests : Step → List Suite
run_tests test = unit ∷ cli ∷ []
run_tests test_all = unit ∷ cli ∷ compliance ∷ []

-- `DIGEST_RUNS`
abbrev pub digest_suites : List Suite
digest_suites = digests ∷ digests_nocache ∷ digests_runtime ∷ []

-- `name.startswith(p)`
starts_with : Text → Text → Bool
starts_with p s = elim (strip_prefix p s) [ none ↦ false | some r ↦ true ]

unfoldable pub suite_of_test : Text → Suite
unfolding starts_with
suite_of_test name =
    if starts_with (codes "compliance.") name
    then compliance
    else if starts_with (codes "main.") name
    then cli
    else unit

unfoldable pub step_state : Text → State
unfolding search_words has
step_state text =
    if search_words fail_words false text
    then fail
    else if search_words pass_words false text
    then pass
    else if has (codes "skipped") text
    then skipped
    else unclear

-- `first_unique(items, len(items))`: each item where it first stands; `seen` is what stands before.
member : Text → List Text → Bool
member x [] = false
member x (y ∷ ys) = text_eq x y || member x ys

unique : List Text → List Text → List Text
unfolding member
unique seen [] = []
unique seen (x ∷ xs) = if member x seen then unique seen xs else x ∷ unique (x ∷ seen) xs

unfoldable pub first_unique : List Text → ℕ → List Text
unfolding unique
first_unique items n = take n (unique [] items)

-- `suites` of a result, as a dict.
abbrev pub States : Type 0
States = Suite → Option State

pub same_suite : Suite → Suite → Bool
same_suite unit unit = true
same_suite cli cli = true
same_suite compliance compliance = true
same_suite digests digests = true
same_suite digests_nocache digests_nocache = true
same_suite digests_runtime digests_runtime = true
same_suite _ _ = false

unfoldable pub put : Suite → State → States → States
unfolding same_suite
put s v d r = if same_suite s r then some v else d r

-- `for name, text in zip(expected, texts): suites[name] = step_state(text)`
put_states : List Suite → List Text → States → States
unfolding put
put_states (s ∷ ss) (t ∷ ts) d = put_states ss ts (put s (step_state t) d)
put_states [] ts d = d
put_states (s ∷ ss) [] d = d

pub data Warning : Type 0 where
  step_count : (found expected : ℕ) → Warning
  digest_mismatch : Suite → Option State → Warning
  test_mismatch : Text → Suite → Option State → Warning

is_fail : Option State → Bool
is_fail (some fail) = true
is_fail _ = false

-- The suite that a failed `corpus-digests` command belongs to.
unfoldable pub digest_suite : Text → Suite
unfolding has
digest_suite cmd =
    if has (codes "--no-decode-cache") cmd
    then digests_nocache
    else if has (codes "--runtime-memory") cmd
    then digests_runtime
    else digests

-- The cross-check with the failed commands: it warns, and marks the suite as failed.
check_commands : List Text → States → States × List Warning
unfolding is_fail digest_suite put
check_commands [] d = (d, [])
check_commands (c ∷ cs) d =
    let s = digest_suite c in
    elim (is_fail (d s)) [
      | true ↦ check_commands cs d
      | false ↦
          let (d', ws) = check_commands cs (put s fail d) in (d', digest_mismatch s (d s) ∷ ws)
    ]

-- The cross-check with the failing tests' names: it warns only.
check_tests : List Text → States → List Warning
unfolding is_fail suite_of_test
check_tests [] d = []
check_tests (n ∷ ns) d =
    let rest = check_tests ns d in
    if is_fail (d (suite_of_test n))
    then rest
    else test_mismatch n (suite_of_test n) (d (suite_of_test n)) ∷ rest

-- `[c for c in children if c.startswith("run test")]`
run_test_children : List Text → List Text
unfolding starts_with
run_test_children [] = []
run_test_children (c ∷ cs) =
    let rest = run_test_children cs in if starts_with (codes "run test") c then c ∷ rest else rest

count_warning : ℕ → ℕ → List Warning
count_warning found expected = if found == expected then [] else step_count found expected ∷ []

pub data Status : Type 0 where
  timeout compile_error survived killed error : Status

pub record Result : Type 0 where
  pub status : Status
  pub suites : States
  pub failed_tests : List Text
  pub failed_test_count : ℕ
  pub compile_errors : List Text
  pub digest_programs_count : ℕ
  pub digest_programs : List Text
  pub warnings : List Warning

-- What the summary tree adds: the suites' states, the warnings, the programs whose digest differs.
pub record Summary : Type 0 where
  pub states : States
  pub found : List Warning
  pub programs : List Text

no_states : States
no_states s = none

digest_summary : List Text → List Text → List Warning → States → Summary
unfolding put_states check_commands first_unique
digest_summary lines runs ws d =
    let (d', ws') =
      check_commands (find_all digest_command lines) (put_states digest_suites runs d) in
    record {
      states = d';
      found = ws ++ ws';
      programs = find_all digest_diff lines ++ find_all native_diff lines;
    }

summary : Step → List Text → Option (List Text × List Text) → Summary
unfolding run_test_children count_warning put_states digest_summary no_states
summary step lines none = record { states = no_states; found = []; programs = [] }
summary step lines (some (children, runs)) =
    let tests = run_test_children children in
    let ws = count_warning (length tests) (length (run_tests step)) in
    let d = put_states (run_tests step) tests no_states in
    elim step [
      | test ↦ record { states = d; found = ws; programs = [] }
      | test_all ↦ digest_summary lines runs ws d
    ]

-- `"FAIL" in suites.values()`
any_fail : List Suite → States → Bool
unfolding is_fail
any_fail [] d = false
any_fail (s ∷ ss) d = is_fail (d s) || any_fail ss d

is_empty {ℓ} : {A : Type ℓ} → List A → Bool
is_empty [] = true
is_empty (x ∷ xs) = false

-- `"FAIL" in suites.values() or names`
evidence : States → List Text → Bool
unfolding any_fail is_empty
evidence d names = any_fail suites d || not (is_empty names)

unfoldable pub status_of : (timed_out : Bool) → List Text → (rc : ℕ) → States → List Text → Status
unfolding evidence is_empty
status_of timed_out errors rc d names =
    if timed_out
    then timeout
    else if not (is_empty errors)
    then Status.compile_error
    else if rc == 0
    then survived
    else if evidence d names
    then killed
    else error

-- f"{f}:{ln}: {msg}"
shown : CompileError → Text
shown e = e.path ++ (codes ":" ++ (e.line ++ (codes ": " ++ e.message)))

-- `names`: the failing tests, each once.
failing_names : List Text → List Text
unfolding first_unique
failing_names lines =
    let failed = map (λ (f : Text × Text). f.0) (find_all failed_test lines) in
    first_unique failed (length failed)

-- The counts of `failure_kinds`, the times and the tail of the output are left out.
unfoldable pub analyse : Step → (rc : ℕ) → Text → (timed_out : Bool) → Result
unfolding summary shown failing_names parse_tree check_tests status_of first_unique
analyse step rc out timed_out =
    let lines = newline_split out in
    let names = failing_names lines in
    let errors = first_unique (map shown (find_all located_error lines)) 3 in
    let s = summary step lines (parse_tree out) in
    record {
      status = status_of timed_out errors rc s.states names;
      suites = s.states;
      failed_tests = take 25 names;
      failed_test_count = length names;
      compile_errors = errors;
      digest_programs_count = length (first_unique s.programs (length s.programs));
      digest_programs = take 10 (first_unique s.programs (length s.programs));
      warnings = s.found ++ check_tests names s.states;
    }

same_status : Status → Status → Bool
same_status timeout timeout = true
same_status Status.compile_error Status.compile_error = true
same_status survived survived = true
same_status killed killed = true
same_status error error = true
same_status _ _ = false

unfoldable pub overall_status : (test test_all : Status) → Status
unfolding same_status
overall_status t a =
    if same_status t Status.compile_error || same_status a Status.compile_error
    then Status.compile_error
    else if same_status a timeout && same_status t killed
    then killed
    else if same_status a survived && not (same_status t survived)
    then error
    else a

failed_of : List Suite → States → List Suite
unfolding is_fail
failed_of [] d = []
failed_of (s ∷ ss) d = let rest = failed_of ss d in if is_fail (d s) then s ∷ rest else rest

-- The suites of a record's `test_all` that failed, in the order of `SUITES`.
unfoldable pub failed_suites : Result → List Suite
unfolding failed_of
failed_suites r = failed_of suites r.suites
