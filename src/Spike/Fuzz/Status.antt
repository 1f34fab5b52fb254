-- ===== src/Spike/Fuzz/Status.antt =====
-- What the exit status of tools/spike_diff/fuzz.py stands for.
use determinant.Base.{
  ℕ, zero, suc, ◌+◌, ◌*◌, ◌<◌, In, String, ◌≡◌, refl, sym, ap, ◌∙◌, subst, inl, inr, Option, some,
  List, [], ◌∷◌, arith, length, take, drop, All,
}
use determinant.Base.Int.{ℤ, pos, negsuc, pos_part}
use determinant.Spike.Compare.{SpikeState, Record, spike_state}
use determinant.Spike.Compare.Configs.{cache, Records}
use determinant.Spike.Generator.Program.{generate}
use determinant.Spike.Fuzz.{
  Mix, Build, Prepared, Setting, run_built, prepare, prepare_all, manifest, Stats, Accounts,
  runner_records, run_batch, run_batches, in_batches, run_mix, fresh_mix, seeds_from, run_mixes,
  no_accounts, exit_status, fuzz, broken, built, ran,
}
use determinant.Spike.Compare.Agree.{Agree, compare-Agree}
use determinant.Spike.Compare.Configs.{compare_configs-nil_iff, nocache, runtime}
use determinant.Spike.Fuzz.Fine.{IsFine, chain-some, some-injective, account_all-IsFine}

-- A program of a batch on which Spike and Determinant agree: it was built, it ran on both, the
-- runner was called with the manifest of the batch, its three records of the program are one, and
-- that record agrees with Spike's final state.
pub record IsPassed (a : Setting) (mix : Mix) (batch : List ℕ) (seed : ℕ) : Type 0 where
  pub bin : String
  pub words : List ℕ
  pub trap_dump : ℕ
  pub recs : List Prepared
  pub rec : Records
  pub final : Record
  pub sp : SpikeState
  pub made : prepare a mix seed ≡ some (ran seed bin (some words) trap_dump)
  pub prepared : prepare_all a mix batch ≡ some recs
  pub listed : In (ran seed bin (some words) trap_dump) recs
  pub recorded : runner_records a (manifest recs) bin ≡ some rec
  pub dumped : spike_state words trap_dump ≡ some sp
  pub identical : (rec cache ≡ some final) × (rec nocache ≡ some final) × (rec runtime ≡ some final)
  pub agree : Agree sp final

-- A program of the mix passed in its batch, which is `seeds[b0:b0 + size]` for a `b0` that `size`
-- divides.
pub PassedInBatch : Setting → (size : ℕ) → Mix → (seeds : List ℕ) → (seed : ℕ) → Type 0
PassedInBatch a size mix seeds seed =
    (round : ℕ) × IsPassed a mix (take size (drop (round * size) seeds)) seed

run_built-seed :
    (a : Setting) (seed k : ℕ) (b : Build) (bin : String) (words : Option (List ℕ)) (trap_dump : ℕ)
    → run_built a seed b ≡ ran k bin words trap_dump
    → k ≡ seed
unfolding run_built
run_built-seed a seed k (broken message) bin words trap_dump e = absurd (cc)
run_built-seed a seed k (built bin' trap_dump') bin words trap_dump e = sym (cc)

prepare-seed :
    (a : Setting) (mix : Mix) (seed k : ℕ) (bin : String) (words : Option (List ℕ)) (trap_dump : ℕ)
    → prepare a mix seed ≡ some (ran k bin words trap_dump)
    → k ≡ seed
unfolding prepare
prepare-seed a mix seed k bin words trap_dump e =
    let (p, made, e') = chain-some (generate mix.weights a.items (a.stream mix.name seed)) e in
    run_built-seed a seed k (a.build mix.name seed p) bin words trap_dump (some-injective e')

module _ (a : Setting) (mix : Mix) (batch : List ℕ) (recs : List Prepared)
    (prepared : prepare_all a mix batch ≡ some recs) where
  IsFine-IsPassed :
      (seed : ℕ) (r : Prepared)
      → prepare a mix seed ≡ some r
      → In r recs
      → IsFine (runner_records a (manifest recs)) r
      → IsPassed a mix batch seed
  IsFine-IsPassed seed r prepared_one listed f =
      let (one_record, first, second, third) = (compare_configs-nil_iff f.rec).0 f.same_configs in
      let same : one_record ≡ f.final = some-injective (sym first ∙ f.cached) in
      let made = prepared_one ∙ ap some f.made in
      let k = prepare-seed a mix seed f.seed f.bin (some f.words) f.trap_dump made in
      let whole = ap (λ k. ran k f.bin (some f.words) f.trap_dump) k in
      record {
        bin = f.bin;
        words = f.words;
        trap_dump = f.trap_dump;
        recs = recs;
        rec = f.rec;
        final = f.final;
        sp = f.sp;
        made = made ∙ ap some whole;
        prepared = prepared;
        listed = subst (λ r. In r recs) (f.made ∙ whole) listed;
        recorded = f.recorded;
        dumped = f.dumped;
        identical = (f.cached, second ∙ ap some same, third ∙ ap some same);
        agree = compare-Agree f.sp f.final f.same_state;
      }

  -- For the seeds of a part of the batch.
  prepare_all-IsPassed :
      (seeds : List ℕ) (rs : List Prepared)
      → prepare_all a mix seeds ≡ some rs
      → ((r : Prepared) → In r rs → In r recs)
      → All (IsFine (runner_records a (manifest recs))) rs
      → All (IsPassed a mix batch) seeds
  unfolding prepare_all
  prepare_all-IsPassed [] rs e part h = tt
  prepare_all-IsPassed (seed ∷ seeds) rs e part h =
      let (r, prepared_one, e1) = chain-some (prepare a mix seed) e in
      let (rest, prepared_rest, e2) = chain-some (prepare_all a mix seeds) e1 in
      let same = sym (some-injective e2) in
      let (fine, fine_rest) = subst (All (IsFine (runner_records a (manifest recs)))) same h in
      (
        IsFine-IsPassed seed r prepared_one (part r (subst (In r) (sym same) (inl refl))) fine,
        prepare_all-IsPassed seeds rest prepared_rest
            (λ q here. part q (subst (In q) (sym same) (inr here))) fine_rest,
      )

All-parts :
    (P : ℕ → Type 0) (n : ℕ) (xs : List ℕ) → All P (take n xs) → All P (drop n xs) → All P xs
All-parts P zero xs h h' = h'
All-parts P (suc n) [] h h' = tt
All-parts P (suc n) (x ∷ xs) (p, h) h' = (p, All-parts P n xs h h')

All-map : {P Q : ℕ → Type 0} (xs : List ℕ) → ((x : ℕ) → P x → Q x) → All P xs → All Q xs
All-map [] f h = tt
All-map (x ∷ xs) f (p, h) = (f x p, All-map xs f h)

drop-nil : (n : ℕ) → drop {A = ℕ} n [] ≡ []
drop-nil zero = refl
drop-nil (suc n) = refl

drop-drop : (m n : ℕ) (xs : List ℕ) → drop m (drop n xs) ≡ drop (n + m) xs
drop-drop m zero xs = ap (λ n. drop n xs) (omega arith)
drop-drop m (suc n) [] = drop-nil m ∙ sym (drop-nil (suc n + m))
drop-drop m (suc n) (x ∷ xs) =
    let more : suc (n + m) ≡ suc n + m = omega arith in
    drop-drop m n xs ∙ ap (λ n. drop n (x ∷ xs)) more

run_batch-IsPassed :
    (a : Setting) (mix : Mix) (seeds : List ℕ) (s s' : Accounts)
    → run_batch a mix seeds s ≡ some s'
    → s'.bad_total ≡ 0
    → (s.bad_total ≡ 0) × All (IsPassed a mix seeds) seeds
unfolding run_batch
run_batch-IsPassed a mix seeds s s' e h =
    let (rs, prepared, e1) = chain-some (prepare_all a mix seeds) e in
    let det = runner_records a (manifest rs) in
    let (before, fine) = account_all-IsFine a mix det rs s s' e1 h in
    (before, prepare_all-IsPassed a mix seeds rs prepared seeds rs prepared (λ r here. here) fine)

-- The batches behind the first one are batches of the whole.
PassedInBatch-drop :
    (a : Setting) (size : ℕ) (mix : Mix) (seeds : List ℕ) (seed : ℕ)
    → PassedInBatch a size mix (drop size seeds) seed
    → PassedInBatch a size mix seeds seed
unfolding PassedInBatch
PassedInBatch-drop a size mix seeds seed (round, p) = (
  suc round,
  subst (λ batch. IsPassed a mix (take size batch) seed)
      (drop-drop (round * size) size seeds ∙ ap (λ n. drop n seeds) (omega arith)) p,
)

PassedInBatch-take :
    (a : Setting) (size : ℕ) (mix : Mix) (seeds : List ℕ) (seed : ℕ)
    → IsPassed a mix (take size seeds) seed
    → PassedInBatch a size mix seeds seed
unfolding PassedInBatch
PassedInBatch-take a size mix seeds seed p =
    let first : 0 ≡ 0 * size = omega arith in
    (0, subst (λ n. IsPassed a mix (take size (drop n seeds)) seed) first p)

run_batches-PassedInBatch :
    (rounds size : ℕ) (a : Setting) (mix : Mix) (seeds : List ℕ) (s s' : Accounts)
    → run_batches rounds size a mix seeds s ≡ some s'
    → s'.bad_total ≡ 0
    → (s.bad_total ≡ 0) × All (PassedInBatch a size mix seeds) seeds
unfolding run_batches
run_batches-PassedInBatch zero size a mix [] s s' e h =
    (subst (λ s. s.bad_total ≡ 0) (sym (some-injective e)) h, tt)
run_batches-PassedInBatch (suc n) size a mix [] s s' e h =
    (subst (λ s. s.bad_total ≡ 0) (sym (some-injective e)) h, tt)
run_batches-PassedInBatch zero size a mix (seed ∷ seeds) s s' e h = absurd (ground (arith, e))
run_batches-PassedInBatch (suc n) size a mix (seed ∷ seeds) s s' e h =
    let batch = take size (seed ∷ seeds) in
    let others = drop size (seed ∷ seeds) in
    let (mid, first, e1) = chain-some (run_batch a mix batch s) e in
    let (clean, later) = run_batches-PassedInBatch n size a mix others mid s' e1 h in
    let (before, now) = run_batch-IsPassed a mix batch s mid first clean in
    (
      before,
      All-parts (PassedInBatch a size mix (seed ∷ seeds)) size (seed ∷ seeds)
          (All-map batch (PassedInBatch-take a size mix (seed ∷ seeds)) now)
          (All-map others (PassedInBatch-drop a size mix (seed ∷ seeds)) later),
    )

in_batches-PassedInBatch :
    (batch : ℤ) (a : Setting) (mix : Mix) (seeds : List ℕ) (s s' : Accounts)
    → 0 < pos_part batch
    → in_batches batch a mix seeds s ≡ some s'
    → s'.bad_total ≡ 0
    → (s.bad_total ≡ 0) × All (PassedInBatch a (pos_part batch) mix seeds) seeds
unfolding in_batches
in_batches-PassedInBatch (pos zero) a mix seeds s s' size e h = absurd (omega (arith, size))
in_batches-PassedInBatch (pos (suc n)) a mix seeds s s' size e h =
    run_batches-PassedInBatch (length seeds) (suc n) a mix seeds s s' e h
in_batches-PassedInBatch (negsuc n) a mix seeds s s' size e h = absurd (omega (arith, size))

module _ (a : Setting) (some_size : 0 < pos_part a.batch) where
  run_mixes-PassedInBatch :
      (seeds : List ℕ) (mixes : List Mix) (s s' : Accounts) (summary : List (String × Stats))
      → run_mixes a seeds mixes s ≡ some (s', summary)
      → s'.bad_total ≡ 0
      → (s.bad_total ≡ 0)
        × All (λ mix. All (PassedInBatch a (pos_part a.batch) mix seeds) seeds) mixes
  unfolding run_mixes run_mix fresh_mix
  run_mixes-PassedInBatch seeds [] s s' summary e h =
      (subst (λ r. r.0.bad_total ≡ 0) (sym (some-injective e)) h, tt)
  run_mixes-PassedInBatch seeds (mix ∷ mixes) s s' summary e h =
      let (mid, first, e1) = chain-some (run_mix a mix seeds (fresh_mix s)) e in
      let ((last, rest), later, e2) = chain-some (run_mixes a seeds mixes mid) e1 in
      let clean_last : last.bad_total ≡ 0 =
        subst (λ r. r.0.bad_total ≡ 0) (sym (some-injective e2)) h in
      let (clean, passed) = run_mixes-PassedInBatch seeds mixes mid last rest later clean_last in
      let (before, now) =
        in_batches-PassedInBatch a.batch a mix seeds (fresh_mix s) mid some_size first clean in
      (before, (now, passed))

  -- Where the size of a batch is positive and the driver ends with exit status 0, every program of
  -- every mix passed in its batch: it was generated, built and run, the runner was called with the
  -- manifest of the batch that the seed is in, its three records of the program are the same, and
  -- they agree with Spike's final state.
  pub exit_status-IsPassed :
      (start count : ℕ) (mixes : List Mix) (s : Accounts) (summary : List (String × Stats))
      → fuzz a start count mixes ≡ some (s, summary)
      → exit_status s ≡ 0
      → All
          (λ mix.
            All
              (PassedInBatch a (pos_part a.batch) mix (seeds_from start count))
              (seeds_from start count))
          mixes
  unfolding fuzz exit_status
  exit_status-IsPassed start count mixes s summary e h =
      (run_mixes-PassedInBatch (seeds_from start count) mixes no_accounts s summary e
        (ground (arith, h))).1
