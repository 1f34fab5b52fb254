-- ===== src/Spike/Fuzz/Fine.antt =====
-- What a batch of tools/spike_diff/fuzz.py without a bad program has found out.
use determinant.Base.{
  ℕ, String, ◌≡◌, refl, sym, ap, ◌∙◌, subst, Bool, true, false, ◌&&◌, Option, none, some, List, [],
  ◌∷◌, arith, All,
}
use determinant.Spike.Compare.{SpikeState, Record, spike_state, compare}
use determinant.Spike.Compare.Configs.{cache, Records, compare_configs}
use determinant.Spike.Fuzz.{
  Mix, Prepared, Setting, Verdict, compare_cache, judge_words, judge, Accounts, seed_of, is_empty,
  one_if, account, account_all, failed, ran, build_error, spike_error, compared,
}

-- A program that the runner's records say nothing against.
pub record IsFine (det : String → Option Records) (r : Prepared) : Type 0 where
  pub seed : ℕ
  pub bin : String
  pub words : List ℕ
  pub trap_dump : ℕ
  pub rec : Records
  pub final : Record
  pub sp : SpikeState
  pub made : r ≡ ran seed bin (some words) trap_dump
  pub recorded : det bin ≡ some rec
  pub dumped : spike_state words trap_dump ≡ some sp
  pub cached : rec cache ≡ some final
  pub same_configs : compare_configs rec ≡ []
  pub same_state : compare sp final ≡ some []

is_good : Verdict → Bool
is_good (build_error message) = false
is_good spike_error = false
is_good (compared dd diffs det mcause) = is_empty dd && is_empty diffs

-- An account without a bad program is one of a good verdict.
account-bad_total :
    (a : Setting) (mix : Mix) (seed : ℕ) (v : Verdict) (s : Accounts)
    → (account a mix seed v s).bad_total ≡ 0
    → (s.bad_total ≡ 0) × (is_good v ≡ true)
unfolding account is_good one_if is_empty
account-bad_total a mix seed (build_error message) s h = absurd (omega (arith, h))
account-bad_total a mix seed spike_error s h = absurd (omega (arith, h))
account-bad_total a mix seed (compared [] [] det mcause) s h = (omega (arith, h), refl)
account-bad_total a mix seed (compared [] (d ∷ ds) det mcause) s h = absurd (omega (arith, h))
account-bad_total a mix seed (compared (d ∷ dd) diffs det mcause) s h = absurd (omega (arith, h))

-- What a chain of results that gives a value has gone through.
pub chain-some :
    {A B : Type 0} {f : A → Option B} {b : B} (o : Option A)
    → elim o [ none ↦ none | some a ↦ f a ] ≡ some b
    → (a : A) × (o ≡ some a) × (f a ≡ some b)
chain-some none h = absurd (ground (arith, h))
chain-some (some a) h = (a, refl, h)

is_empty-nil : {A : Type 0} (xs : List A) → is_empty xs ≡ true → xs ≡ []
unfolding is_empty
is_empty-nil [] h = refl
is_empty-nil (x ∷ xs) h = absurd (ground (arith, h))

pub some-injective : {A : Type 0} {a b : A} → some a ≡ some b → a ≡ b
some-injective h = cc

judge-IsFine :
    (det : String → Option Records) (r : Prepared) (v : Verdict)
    → judge det r ≡ some v
    → is_good v ≡ true
    → IsFine det r
unfolding judge judge_words compare_cache is_good
judge-IsFine det (failed seed message) v e good =
    absurd (ground (arith, subst (λ v. is_good v ≡ true) (sym (some-injective e)) good))
judge-IsFine det (ran seed bin none trap_dump) v e good =
    absurd (ground (arith, subst (λ v. is_good v ≡ true) (sym (some-injective e)) good))
judge-IsFine det (ran seed bin (some words) trap_dump) v e good =
    let (rec, recorded, e1) = chain-some (det bin) e in
    let (sp, dumped, e2) = chain-some (spike_state words trap_dump) e1 in
    let (final, cached, e3) = chain-some (rec cache) e2 in
    let (diffs, same, e4) = chain-some (compare sp final) e3 in
    let empty = subst (λ v. is_good v ≡ true) (sym (some-injective e4)) good in
    record {
      seed = seed;
      bin = bin;
      words = words;
      trap_dump = trap_dump;
      rec = rec;
      final = final;
      sp = sp;
      made = refl;
      recorded = recorded;
      dumped = dumped;
      cached = cached;
      same_configs = is_empty-nil (compare_configs rec) (ground (arith, empty));
      same_state = same ∙ ap some (is_empty-nil diffs (ground (arith, empty)));
    }

pub account_all-IsFine :
    (a : Setting) (mix : Mix) (det : String → Option Records) (rs : List Prepared) (s s' : Accounts)
    → account_all a mix det rs s ≡ some s'
    → s'.bad_total ≡ 0
    → (s.bad_total ≡ 0) × All (IsFine det) rs
unfolding account_all
account_all-IsFine a mix det [] s s' e h =
    (subst (λ s. s.bad_total ≡ 0) (sym (some-injective e)) h, tt)
account_all-IsFine a mix det (r ∷ rs) s s' e h =
    let (v, judged, e') = chain-some (judge det r) e in
    let (none_so_far, rest) =
      account_all-IsFine a mix det rs (account a mix (seed_of r) v s) s' e' h in
    let (before, good) = account-bad_total a mix (seed_of r) v s none_so_far in
    (before, (judge-IsFine det r v judged good, rest))
