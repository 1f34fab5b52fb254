-- ===== src/Spike/Fuzz.antt =====
-- tools/spike_diff/fuzz.py: the loop over mixes, batches and programs, with its accounts. The
-- random streams, the build, Spike and the runner are parameters.
pub mod Fine
pub mod Status
pub mod Totals
pub mod Returns
mod Tests
use determinant.Base.{
  ℕ, zero, suc, ◌+◌, ◌-◌, ◌*◌, ◌/◌, ◌%◌, ◌^◌, ◌≤◌, ◌<◌, bit_and, bit_or, bit_xor, min, max, String,
  ◌≡◌, refl, sym, ap, ◌∙◌, subst, ◌≢◌, ◌↔◌, ◌⊎◌, inl, inr, Bool, true, false, ◌&&◌, ◌||◌, not,
  Option, none, some, List, [], ◌∷◌, ◌++◌, map, append_assoc, append-nil, arith, str_eq, eq_iff,
  ltb, leb, ◌==◌, if◌then◌else◌, ==_iff, Bool-cases, Option-cases, length, get_elem?, get_or, take,
  drop, length-append, All, All-append, In, append-eq-nil, All-take,
}
use determinant.Base.Int.{ℤ, pos, negsuc}
use determinant.Spike.Compare.{Outcome, SpikeState, Record, Diff, spike_state, compare}
use determinant.Spike.Compare.Configs.{cache, ConfigDiff, Records, compare_configs}
use determinant.Spike.Generator.Draws.{Stream}
use determinant.Spike.Generator.Mixes.{Weights}
use determinant.Spike.Generator.Program.{Program, generate}

-- A mix: its name and its weights.
pub record Mix : Type 0 where
  pub name : String
  pub weights : Weights

-- What `pipeline.build` gives: a message, or the path of the binary and the symbol `trap_dump`.
pub data Build : Type 0 where
  broken : String → Build
  built : (bin : String) → (trap_dump : ℕ) → Build

-- What `prepare` returns.
pub data Prepared : Type 0 where
  failed : (seed : ℕ) → String → Prepared
  ran : (seed : ℕ) → (bin : String) → (words : Option (List ℕ)) → (trap_dump : ℕ) → Prepared

-- What the script is called with, `--items` (not negative), `--batch` (any integer) and `--keep`, and
-- the programs that it runs: the stream of random numbers of a mix and a seed, `pipeline.build`,
-- `pipeline.run_spike` and `pipeline.run_runner`.
pub record Setting : Type 0 where
  pub items : ℕ
  pub batch : ℤ
  pub keep : Bool
  pub stream : String → ℕ → Stream
  pub build : String → ℕ → Program → Build
  pub run_spike : (bin : String) → Option (List ℕ)
  pub run_runner : List (String × ℕ) → String → Option Records

-- What `prepare` does with a program.
unfoldable pub run_built : Setting → (seed : ℕ) → Build → Prepared
run_built a seed (broken message) = failed seed message
run_built a seed (built bin trap_dump) = ran seed bin (a.run_spike bin) trap_dump

-- `prepare`; `none` is an exception.
unfoldable pub prepare : Setting → Mix → (seed : ℕ) → Option Prepared
prepare a mix seed = elim (generate mix.weights a.items (a.stream mix.name seed)) [
  | none ↦ none
  | some p ↦ some (run_built a seed (a.build mix.name seed p))
]

unfoldable pub prepare_all : Setting → Mix → List ℕ → Option (List Prepared)
prepare_all a mix [] = some []
prepare_all a mix (seed ∷ seeds) =
    let rest = prepare_all a mix seeds in
    elim (prepare a mix seed) [
      | none ↦ none
      | some r ↦ elim rest [ none ↦ none | some rs ↦ some (r ∷ rs) ]
    ]

-- The lines of the manifest: the programs that ran on Spike.
unfoldable pub manifest : List Prepared → List (String × ℕ)
manifest [] = []
manifest (failed seed message ∷ rs) = manifest rs
manifest (ran seed bin none trap_dump ∷ rs) = manifest rs
manifest (ran seed bin (some words) trap_dump ∷ rs) = (bin, trap_dump) ∷ manifest rs

-- What the loop over a batch finds out about one program.
pub data Verdict : Type 0 where
  build_error : String → Verdict
  spike_error : Verdict
  compared : List ConfigDiff → List Diff → Record → (mcause : ℤ) → Verdict

-- `rec["cache"]`, and the comparison with Spike's state.
unfoldable pub compare_cache : SpikeState → Records → Option Verdict
compare_cache sp rec = elim (rec cache) [
  | none ↦ none
  | some det ↦ elim (compare sp det) [
    | none ↦ none
    | some diffs ↦ some (compared (compare_configs rec) diffs det sp.mcause)
  ]
]

unfoldable pub judge_words : Records → (words : List ℕ) → (trap_dump : ℕ) → Option Verdict
judge_words rec words trap_dump = elim (spike_state words trap_dump) [
  | none ↦ none
  | some sp ↦ compare_cache sp rec
]

unfoldable pub judge : (det : String → Option Records) → Prepared → Option Verdict
judge det (failed seed message) = some (build_error message)
judge det (ran seed bin none trap_dump) = some spike_error
judge det (ran seed bin (some words) trap_dump) = elim (det bin) [
  | none ↦ none
  | some rec ↦ judge_words rec words trap_dump
]

-- `st`
pub record Stats : Type 0 where
  pub programs : ℕ
  pub build_errors : ℕ
  pub spike_errors : ℕ
  pub compared_programs : ℕ
  pub configs_differ : ℕ
  pub diverged : ℕ
  pub long_programs : ℕ

-- The lines of divergences.jsonl.
pub data Kind : Type 0 where
  build_kind spike_kind configs_kind spike_vs_det : Kind

pub record Entry : Type 0 where
  pub mix : String
  pub seed : ℕ
  pub kind : Kind

-- What a loop over the programs of a mix changes; `outcomes` and `retired` newest first.
pub record Accounts : Type 0 where
  pub stats : Stats
  pub bad_total : ℕ
  pub log : List Entry
  pub retired : List ℕ
  pub outcomes : List (Outcome × ℤ)
  pub removed : List ℕ

unfoldable pub seed_of : Prepared → ℕ
seed_of (failed seed message) = seed
seed_of (ran seed bin words trap_dump) = seed

unfoldable pub is_empty : {A : Type 0} → List A → Bool
is_empty [] = true
is_empty (x ∷ xs) = false

-- 1 if the condition holds.
unfoldable pub one_if : Bool → ℕ
one_if b = if b then 1 else 0

unfoldable pub entry_if : Bool → Entry → List Entry
entry_if b e = if b then e ∷ [] else []

-- The accounts after one program.
unfoldable pub account : Setting → Mix → ℕ → Verdict → Accounts → Accounts
account a mix seed (build_error message) s = record s {
  stats = record s.stats {
    programs = s.stats.programs + 1;
    build_errors = s.stats.build_errors + 1;
  };
  bad_total = s.bad_total + 1;
  log = s.log ++ record { mix = mix.name; seed = seed; kind = build_kind } ∷ [];
}
account a mix seed spike_error s = record s {
  stats = record s.stats {
    programs = s.stats.programs + 1;
    spike_errors = s.stats.spike_errors + 1;
  };
  bad_total = s.bad_total + 1;
  log = s.log ++ record { mix = mix.name; seed = seed; kind = spike_kind } ∷ [];
}
account a mix seed (compared dd diffs det mcause) s =
    let config_bad = not (is_empty dd) in
    let diff_bad = not (is_empty diffs) in
    let bad = config_bad || diff_bad in
    record s {
      stats = record s.stats {
        programs = s.stats.programs + 1;
        compared_programs = s.stats.compared_programs + 1;
        configs_differ = s.stats.configs_differ + one_if config_bad;
        diverged = s.stats.diverged + one_if diff_bad;
        long_programs = s.stats.long_programs + one_if (ltb 4900 det.retired);
      };
      bad_total = s.bad_total + one_if bad;
      log =
          s.log
          ++ (entry_if config_bad (record { mix = mix.name; seed = seed; kind = configs_kind })
              ++ entry_if diff_bad (record { mix = mix.name; seed = seed; kind = spike_vs_det }));
      retired = det.retired ∷ s.retired;
      outcomes = (det.status, mcause) ∷ s.outcomes;
      removed = if bad || a.keep then s.removed else seed ∷ s.removed;
    }

unfoldable pub account_all :
    Setting → Mix → (det : String → Option Records) → List Prepared → Accounts → Option Accounts
account_all a mix det [] s = some s
account_all a mix det (r ∷ rs) s = elim (judge det r) [
  | none ↦ none
  | some v ↦ account_all a mix det rs (account a mix (seed_of r) v s)
]

-- One batch; the runner is not called for an empty manifest.
unfoldable pub runner_records : Setting → List (String × ℕ) → String → Option Records
runner_records a [] bin = none
runner_records a (line ∷ lines) bin = a.run_runner (line ∷ lines) bin

unfoldable pub run_batch : Setting → Mix → List ℕ → Accounts → Option Accounts
run_batch a mix seeds s = elim (prepare_all a mix seeds) [
  | none ↦ none
  | some recs ↦ account_all a mix (runner_records a (manifest recs)) recs s
]

-- The rounds of `for b0 in range(0, len(seeds), a.batch)` for batches of `size` programs.
unfoldable pub run_batches : (rounds size : ℕ) → Setting → Mix → List ℕ → Accounts → Option Accounts
run_batches rounds size a mix [] s = some s
run_batches zero size a mix (seed ∷ seeds) s = none
run_batches (suc n) size a mix (seed ∷ seeds) s =
    elim (run_batch a mix (take size (seed ∷ seeds)) s) [
      | none ↦ none
      | some s' ↦ run_batches n size a mix (drop size (seed ∷ seeds)) s'
    ]

-- The loop: a step of 0 raises, and the range of a negative step from 0 up is empty.
unfoldable pub in_batches : (batch : ℤ) → Setting → Mix → List ℕ → Accounts → Option Accounts
in_batches (pos zero) a mix seeds s = none
in_batches (pos (suc n)) a mix seeds s = run_batches (length seeds) (suc n) a mix seeds s
in_batches (negsuc n) a mix seeds s = some s

unfoldable pub run_mix : Setting → Mix → List ℕ → Accounts → Option Accounts
run_mix a mix seeds s = in_batches a.batch a mix seeds s

abbrev pub no_stats : Stats
no_stats = record {
  programs = 0;
  build_errors = 0;
  spike_errors = 0;
  compared_programs = 0;
  configs_differ = 0;
  diverged = 0;
  long_programs = 0;
}

-- `st`, `retired` and `outcomes` at the start of a mix.
unfoldable pub fresh_mix : Accounts → Accounts
fresh_mix s = record s { stats = no_stats; retired = []; outcomes = [] }

-- `range(a.start, a.start + a.count)`, where neither is negative.
unfoldable pub seeds_from : (start count : ℕ) → List ℕ
seeds_from start zero = []
seeds_from start (suc n) = start ∷ seeds_from (start + 1) n

-- The loop over the mixes: the accounts, and the statistics of each mix.
unfoldable pub run_mixes :
    Setting → List ℕ → List Mix → Accounts → Option (Accounts × List (String × Stats))
run_mixes a seeds [] s = some (s, [])
run_mixes a seeds (mix ∷ mixes) s = elim (run_mix a mix seeds (fresh_mix s)) [
  | none ↦ none
  | some s' ↦ elim (run_mixes a seeds mixes s') [
    | none ↦ none
    | some (s'', summary) ↦ some (s'', (mix.name, s'.stats) ∷ summary)
  ]
]

abbrev pub no_accounts : Accounts
no_accounts = record {
  stats = no_stats;
  bad_total = 0;
  log = [];
  retired = [];
  outcomes = [];
  removed = [];
}

-- The exit status.
unfoldable pub exit_status : Accounts → ℕ
exit_status s = if s.bad_total == 0 then 0 else 1

-- `main`, from the arguments on: the accounts with the summary.
unfoldable pub fuzz :
    Setting → (start count : ℕ) → List Mix → Option (Accounts × List (String × Stats))
fuzz a start count mixes = run_mixes a (seeds_from start count) mixes no_accounts
