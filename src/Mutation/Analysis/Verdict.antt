-- ===== src/Mutation/Analysis/Verdict.antt =====
-- When a mutant counts as killed or as survived.
use determinant.Base.{
  ℕ, zero, suc, ◌<◌, ◌≡◌, refl, ◌≢◌, ◌↔◌, ◌⊎◌, inl, inr, Bool, true, false, ◌||◌, not, Option, some,
  List, [], ◌∷◌, arith, Bool-cases, length, In,
}
use determinant.Base.Text.{Text}
use determinant.Mutation.Patterns.{newline_split}
use determinant.Mutation.Analysis.{
  Suite, State, States, Status, Step, survived, killed, fail, is_fail, any_fail, is_empty, suites,
  status_of, analyse, overall_status, evidence, failing_names,
}

-- A mutant survives exactly when both builds were survived.
pub overall_status-survived_iff :
    (t a : Status) → (overall_status t a ≡ survived) ↔ ((t ≡ survived) × (a ≡ survived))
unfolding overall_status
overall_status-survived_iff t a = (λ h. ground arith, λ h. ground arith)

-- A mutant counts as killed only if one of the builds was.
pub overall_status-killed :
    (t a : Status) → overall_status t a ≡ killed → (t ≡ killed) ⊎ (a ≡ killed)
unfolding overall_status
overall_status-killed t a h = ground arith

any_fail_sound :
    (ss : List Suite) (d : States)
    → any_fail ss d ≡ true
    → (s : Suite) × In s ss × (d s ≡ some fail)
unfolding any_fail is_fail
any_fail_sound [] d h = absurd (cc)
any_fail_sound (s ∷ ss) d h = elim (Bool-cases (is_fail (d s))) [
  | inl e ↦ (s, inl refl, is_fail-eq (d s) e)
  | inr e ↦ let (s', at, f) = any_fail_sound ss d (ground (arith, e)) in (s', inr at, f)
]
  where
    is_fail-eq : (o : Option State) → is_fail o ≡ true → o ≡ some fail
    is_fail-eq o e = ground arith

evidence_sound :
    (d : States) (names : List Text)
    → evidence d names ≡ true
    → ((s : Suite) × In s suites × (d s ≡ some fail)) ⊎ (0 < length names)
unfolding evidence is_empty
evidence_sound d names h = elim (Bool-cases (any_fail suites d)) [
  | inl e ↦ inl (any_fail_sound suites d e)
  | inr e ↦ inr (some_name names (or_right (any_fail suites d) (not (is_empty names)) e h))
]
  where
    or_right : (a b : Bool) → a ≡ false → (a || b) ≡ true → b ≡ true
    or_right a b x y = ground arith

    some_name : (ns : List Text) → not (is_empty ns) ≡ true → 0 < length ns
    some_name [] e = absurd (cc)
    some_name (n ∷ ns) e = omega arith

killed_needs :
    (to : Bool) (errors : List Text) (rc : ℕ) (d : States) (names : List Text)
    → status_of to errors rc d names ≡ killed
    → (to ≡ false) × (rc ≢ 0) × (errors ≡ []) × (evidence d names ≡ true)
unfolding status_of is_empty
killed_needs true errors rc d names h = absurd (cc)
killed_needs false (e ∷ es) rc d names h = absurd (cc)
killed_needs false [] zero d names h = absurd (cc)
killed_needs false [] (suc n) d names h = elim (Bool-cases (evidence d names)) [
  | inl e ↦ (refl, λ z. absurd (omega (arith, z)), refl, e)
  | inr e ↦ absurd (ground (arith, e))
]

-- A build has the status KILLED only with evidence: it ended in time with a non-zero exit status,
-- its output shows no compile error, and a suite is marked as failed or a failed test is named.
pub analyse-killed :
    (step : Step) (rc : ℕ) (out : Text) (timed_out : Bool)
    → (analyse step rc out timed_out).status ≡ killed
    → (timed_out ≡ false)
      × (rc ≢ 0)
      × ((analyse step rc out timed_out).compile_errors ≡ [])
      × (((s : Suite) × In s suites × ((analyse step rc out timed_out).suites s ≡ some fail))
          ⊎ (0 < (analyse step rc out timed_out).failed_test_count))
unfolding analyse
analyse-killed step rc out timed_out h =
    let r = analyse step rc out timed_out in
    let names = failing_names (newline_split out) in
    let (a, b, c, d) = killed_needs timed_out r.compile_errors rc r.suites names h in
    (a, b, c, evidence_sound r.suites names d)
