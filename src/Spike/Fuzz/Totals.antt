-- ===== src/Spike/Fuzz/Totals.antt =====
-- What the accounts of tools/spike_diff/fuzz.py add up to.
use determinant.Base.{
  ℕ, zero, suc, ◌+◌, ◌*◌, ◌≤◌, String, ◌≡◌, refl, sym, ap, ◌∙◌, subst, ◌↔◌, not, Option, some, List,
  [], ◌∷◌, ◌++◌, arith, length, take, drop, length-append, All,
}
use determinant.Base.Int.{ℤ, pos, negsuc}
use determinant.Spike.Compare.Configs.{Records}
use determinant.Spike.Fuzz.{
  Mix, Prepared, Setting, prepare, prepare_all, manifest, Verdict, judge, Stats, Entry, Accounts,
  seed_of, is_empty, one_if, entry_if, account, account_all, runner_records, run_batch, run_batches,
  in_batches, run_mix, fresh_mix, seeds_from, run_mixes, no_accounts, exit_status, fuzz,
  build_error, spike_error, compared, build_kind, spike_kind, configs_kind, spike_vs_det,
}
use determinant.Spike.Fuzz.Fine.{chain-some, some-injective}

-- What n programs add to the accounts: each is counted once, as broken, as not run or as compared,
-- and a bad one is logged once or twice.
record Counts (n : ℕ) (s s' : Accounts) : Type 0 where
  pub programs : s'.stats.programs ≡ s.stats.programs + n
  pub sorted :
      s'.stats.build_errors + s'.stats.spike_errors + s'.stats.compared_programs
      ≡ s.stats.build_errors + s.stats.spike_errors + s.stats.compared_programs + n
  pub logged : s'.bad_total + length s.log ≤ s.bad_total + length s'.log
  pub no_more : length s'.log + 2 * s.bad_total ≤ length s.log + 2 * s'.bad_total

Counts-none : (s : Accounts) → Counts 0 s s
Counts-none s = record {
  programs = omega arith;
  sorted = omega arith;
  logged = omega arith;
  no_more = omega arith;
}

Counts-then :
    {m n : ℕ} {s s' s'' : Accounts} → Counts m s s' → Counts n s' s'' → Counts (m + n) s s''
Counts-then a b = record {
  programs = omega (arith, a.programs, b.programs);
  sorted = omega (arith, a.sorted, b.sorted);
  logged = omega (arith, a.logged, b.logged);
  no_more = omega (arith, a.no_more, b.no_more);
}

account-Counts :
    (a : Setting) (mix : Mix) (seed : ℕ) (v : Verdict) (s : Accounts)
    → Counts 1 s (account a mix seed v s)
unfolding account one_if entry_if is_empty
account-Counts a mix seed (build_error message) s = record {
  programs = refl;
  sorted = omega arith;
  logged =
      omega (
        arith,
        length-append s.log (record { mix = mix.name; seed = seed; kind = build_kind } ∷ []),
      );
  no_more =
      omega (
        arith,
        length-append s.log (record { mix = mix.name; seed = seed; kind = build_kind } ∷ []),
      );
}
account-Counts a mix seed spike_error s = record {
  programs = refl;
  sorted = omega arith;
  logged =
      omega (
        arith,
        length-append s.log (record { mix = mix.name; seed = seed; kind = spike_kind } ∷ []),
      );
  no_more =
      omega (
        arith,
        length-append s.log (record { mix = mix.name; seed = seed; kind = spike_kind } ∷ []),
      );
}
account-Counts a mix seed (compared dd diffs det mcause) s =
    let first =
      entry_if (not (is_empty dd)) (record { mix = mix.name; seed = seed; kind = configs_kind }) in
    let second =
      entry_if (not (is_empty diffs))
        (record { mix = mix.name; seed = seed; kind = spike_vs_det }) in
    let both = length-append first second in
    let whole = length-append s.log (first ++ second) in
    record {
      programs = refl;
      sorted = omega arith;
      logged = ground (arith, both, whole);
      no_more = ground (arith, both, whole);
    }

account_all-Counts :
    (a : Setting) (mix : Mix) (det : String → Option Records) (rs : List Prepared) (s s' : Accounts)
    → account_all a mix det rs s ≡ some s'
    → Counts (length rs) s s'
unfolding account_all
account_all-Counts a mix det [] s s' e = subst (Counts 0 s) (some-injective e) (Counts-none s)
account_all-Counts a mix det (r ∷ rs) s s' e =
    let (v, judged, e') = chain-some (judge det r) e in
    subst (λ n. Counts n s s') (omega arith)
      (Counts-then (account-Counts a mix (seed_of r) v s)
        (account_all-Counts a mix det rs (account a mix (seed_of r) v s) s' e'))

length-prepare_all :
    (a : Setting) (mix : Mix) (seeds : List ℕ) (rs : List Prepared)
    → prepare_all a mix seeds ≡ some rs
    → length rs ≡ length seeds
unfolding prepare_all
length-prepare_all a mix [] rs e = ap length (sym (some-injective e))
length-prepare_all a mix (seed ∷ seeds) rs e =
    let (r, prepared, e1) = chain-some (prepare a mix seed) e in
    let (rest, prepared_rest, e2) = chain-some (prepare_all a mix seeds) e1 in
    ap length (sym (some-injective e2)) ∙ ap suc (length-prepare_all a mix seeds rest prepared_rest)

run_batch-Counts :
    (a : Setting) (mix : Mix) (seeds : List ℕ) (s s' : Accounts)
    → run_batch a mix seeds s ≡ some s'
    → Counts (length seeds) s s'
unfolding run_batch
run_batch-Counts a mix seeds s s' e =
    let (rs, prepared, e1) = chain-some (prepare_all a mix seeds) e in
    subst (λ n. Counts n s s') (length-prepare_all a mix seeds rs prepared)
      (account_all-Counts a mix (runner_records a (manifest rs)) rs s s' e1)

length-parts : (n : ℕ) (xs : List ℕ) → length (take n xs) + length (drop n xs) ≡ length xs
length-parts zero xs = omega arith
length-parts (suc n) [] = omega arith
length-parts (suc n) (x ∷ xs) = omega (arith, length-parts n xs)

run_batches-Counts :
    (rounds size : ℕ) (a : Setting) (mix : Mix) (seeds : List ℕ) (s s' : Accounts)
    → run_batches rounds size a mix seeds s ≡ some s'
    → Counts (length seeds) s s'
unfolding run_batches
run_batches-Counts zero size a mix [] s s' e = subst (Counts 0 s) (some-injective e) (Counts-none s)
run_batches-Counts (suc n) size a mix [] s s' e =
    subst (Counts 0 s) (some-injective e) (Counts-none s)
run_batches-Counts zero size a mix (seed ∷ seeds) s s' e = absurd (ground (arith, e))
run_batches-Counts (suc n) size a mix (seed ∷ seeds) s s' e =
    let (mid, first, e1) = chain-some (run_batch a mix (take size (seed ∷ seeds)) s) e in
    subst (λ n. Counts n s s') (length-parts size (seed ∷ seeds))
      (Counts-then (run_batch-Counts a mix (take size (seed ∷ seeds)) s mid first)
        (run_batches-Counts n size a mix (drop size (seed ∷ seeds)) mid s' e1))

-- How many programs the loop runs.
unfoldable pub reached : ℤ → ℕ → ℕ
reached (pos n) count = count
reached (negsuc n) count = 0

in_batches-Counts :
    (batch : ℤ) (a : Setting) (mix : Mix) (seeds : List ℕ) (s s' : Accounts)
    → in_batches batch a mix seeds s ≡ some s'
    → Counts (reached batch (length seeds)) s s'
unfolding in_batches reached
in_batches-Counts (pos zero) a mix seeds s s' e = absurd (ground (arith, e))
in_batches-Counts (pos (suc n)) a mix seeds s s' e =
    run_batches-Counts (length seeds) (suc n) a mix seeds s s' e
in_batches-Counts (negsuc n) a mix seeds s s' e =
    subst (Counts 0 s) (some-injective e) (Counts-none s)

-- The statistics of a mix count each of its programs once.
pub IsBalanced : ℕ → String × Stats → Type 0
IsBalanced n (name, st) =
    (st.programs ≡ n) × (st.build_errors + st.spike_errors + st.compared_programs ≡ n)

-- The log and the count of bad programs are empty together.
record IsLogged (s : Accounts) : Type 0 where
  pub logged : s.bad_total ≤ length s.log
  pub no_more : length s.log ≤ 2 * s.bad_total

run_mixes-IsBalanced :
    (a : Setting) (seeds : List ℕ) (mixes : List Mix) (s s' : Accounts)
    (summary : List (String × Stats))
    → run_mixes a seeds mixes s ≡ some (s', summary)
    → IsLogged s
    → IsLogged s' × All (IsBalanced (reached a.batch (length seeds))) summary
unfolding run_mixes run_mix fresh_mix IsBalanced
run_mixes-IsBalanced a seeds [] s s' summary e h =
    subst (λ (t, sums). IsLogged t × All (IsBalanced (reached a.batch (length seeds))) sums)
      (some-injective e) (h, tt)
run_mixes-IsBalanced a seeds (mix ∷ mixes) s s' summary e h =
    let (mid, first, e1) = chain-some (run_mix a mix seeds (fresh_mix s)) e in
    let ((last, rest), later, e2) = chain-some (run_mixes a seeds mixes mid) e1 in
    let c = in_batches-Counts a.batch a mix seeds (fresh_mix s) mid first in
    let logged : IsLogged mid = record {
      logged = omega (arith, c.logged, h.logged);
      no_more = omega (arith, c.no_more, h.no_more);
    } in
    let (end, balanced) = run_mixes-IsBalanced a seeds mixes mid last rest later logged in
    subst (λ (t, sums). IsLogged t × All (IsBalanced (reached a.batch (length seeds))) sums)
      (some-injective e2) (end, ((c.programs ∙ omega arith, c.sorted ∙ omega arith), balanced))

length-seeds_from : (start count : ℕ) → length (seeds_from start count) ≡ count
unfolding seeds_from
length-seeds_from start zero = refl
length-seeds_from start (suc n) = ap suc (length-seeds_from (start + 1) n)

length-zero : (xs : List Entry) → length xs ≡ 0 → xs ≡ []
length-zero [] h = refl
length-zero (x ∷ xs) h = absurd (omega (arith, h))

-- Where the driver gets to its end, the statistics of every mix count each of its programs once, as
-- not built, as not run on Spike or as compared, if the size of a batch is not negative, and count
-- no program at all if it is negative; and the exit status is 0 if and only if nothing was logged.
pub fuzz-IsBalanced :
    (a : Setting) (start count : ℕ) (mixes : List Mix) (s : Accounts)
    (summary : List (String × Stats))
    → fuzz a start count mixes ≡ some (s, summary)
    → All (IsBalanced (reached a.batch count)) summary × ((exit_status s ≡ 0) ↔ (s.log ≡ []))
unfolding fuzz exit_status
fuzz-IsBalanced a start count mixes s summary e =
    let start_logged : IsLogged no_accounts = record {
      logged = omega arith;
      no_more = omega arith;
    } in
    let (l, balanced) =
      run_mixes-IsBalanced a (seeds_from start count) mixes no_accounts s summary e start_logged in
    (
      subst (λ n. All (IsBalanced (reached a.batch n)) summary) (length-seeds_from start count)
          balanced,
      (
        (λ h. length-zero s.log (ground (arith, h, l.no_more))),
        λ h. ground (arith, ap length h, l.logged),
      ),
    )
