-- ===== src/Spike/Fuzz/Tests.antt =====
-- The fuzz driver with a build and a runner that know one program.
use determinant.Base.{
  ℕ, zero, suc, ◌+◌, ◌*◌, ◌≡◌, refl, ◌↔◌, true, false, some, List, [], ◌∷◌, ◌++◌, arith, All,
}
use determinant.Base.Int.{pos, negsuc}
use determinant.Spike.Compare.{
  SpikeState, Record, spike_state, compare, ebreak, pack_words, le_bytes, causes,
}
use determinant.Spike.Compare.Configs.{compare_configs}
use determinant.Spike.Fuzz.{
  Mix, Setting, run_built, prepare, prepare_all, manifest, compare_cache, judge_words, judge, Stats,
  Accounts, seed_of, is_empty, one_if, entry_if, account, account_all, runner_records, run_batch,
  run_batches, in_batches, run_mix, no_stats, fresh_mix, seeds_from, run_mixes, no_accounts,
  exit_status, fuzz, built, ran,
}
use determinant.Spike.Fuzz.Returns.{prepare-some}
use determinant.Spike.Fuzz.Status.{PassedInBatch, exit_status-IsPassed}
use determinant.Spike.Fuzz.Totals.{IsBalanced, reached, fuzz-IsBalanced}
use determinant.Spike.Generator.Mixes.{total_weight, alu_weights}

abbrev alu : Mix
alu = record { name = "alu"; weights = alu_weights }

-- Two words of memory, and the dump behind them.
abbrev zeros : ℕ → List ℕ
zeros zero = []
zeros (suc n) = 0 ∷ zeros n

abbrev dump : List ℕ
dump = 0x13 ∷ 0x100073 ∷ 0x600DC0DE ∷ (zeros 32 ++ (3 ∷ 0x10004 ∷ 0 ∷ 10 ∷ []))

abbrev det_final : Record
det_final = record {
  status = ebreak;
  epc = 0x10004;
  retired = 2;
  final_pc = 0x10004;
  x0 = 0;
  reservation = "-";
  regs = zeros 31;
  mscratch = 0;
  digest = "d";
  mem = 0x13 ∷ 0 ∷ 0 ∷ 0 ∷ 0x73 ∷ 0 ∷ 0x10 ∷ 0 ∷ [];
}

abbrev toy : Setting
toy = record {
  items = 1;
  batch = pos 1;
  keep = false;
  stream = λ name seed k. seed + 5 * k;
  build = λ name seed p. built "a" 0x10008;
  run_spike = λ bin. some dump;
  run_runner = λ lines bin. some (λ c. some det_final);
}

toy-prepare : (seed : ℕ) → prepare toy alu seed ≡ some (ran seed "a" (some dump) 0x10008)
unfolding total_weight run_built
toy-prepare seed = let (p, sound, e) = prepare-some toy alu seed (omega arith) in e

abbrev sp_final : SpikeState
sp_final = record {
  marker_ok = true;
  regs = zeros 31;
  mscratch = 0;
  mcause = pos 3;
  mepc = 0x10004;
  mtval = 0;
  minstret = 10;
  mem = 0x13 ∷ 0 ∷ 0 ∷ 0 ∷ 0x73 ∷ 0 ∷ 0x10 ∷ 0 ∷ [];
}

dump-spike_state : spike_state dump 0x10008 ≡ some sp_final
unfolding spike_state pack_words le_bytes
dump-spike_state = refl

toy-compare : compare sp_final det_final ≡ some []
unfolding compare causes
toy-compare = refl

-- The same records, one program, and its artifacts removed.
abbrev alu_stats : Stats
alu_stats = record no_stats { programs = 1; compared_programs = 1 }

abbrev final_accounts : Accounts
final_accounts = record {
  stats = alu_stats;
  bad_total = 0;
  log = [];
  retired = 2 ∷ [];
  outcomes = (ebreak, pos 3) ∷ [];
  removed = 0 ∷ [];
}

toy-prepare_all : prepare_all toy alu (0 ∷ []) ≡ some (ran 0 "a" (some dump) 0x10008 ∷ [])
unfolding prepare_all
toy-prepare_all = rw (toy-prepare 0, prepare_all) refl

toy-run_batch : run_batch toy alu (0 ∷ []) no_accounts ≡ some final_accounts
unfolding runner_records manifest account_all judge judge_words compare_cache account seed_of
    is_empty one_if entry_if spike_state pack_words le_bytes compare causes compare_configs
    run_batch
toy-run_batch = rw (toy-prepare_all, run_batch) refl

toy-run_mix : run_mix toy alu (0 ∷ []) no_accounts ≡ some final_accounts
unfolding run_mix in_batches run_batches
toy-run_mix = rw (toy-run_batch, run_batches) refl

toy-fuzz : fuzz toy 0 1 (alu ∷ []) ≡ some (final_accounts, ("alu", alu_stats) ∷ [])
unfolding fuzz fresh_mix seeds_from run_mixes
toy-fuzz = rw (toy-run_mix, run_mixes) refl

exit_status-IsPassed_example :
    All (λ mix. All (PassedInBatch toy 1 mix (seeds_from 0 1)) (seeds_from 0 1)) (alu ∷ [])
unfolding exit_status
exit_status-IsPassed_example =
    exit_status-IsPassed toy (omega arith) 0 1 (alu ∷ []) final_accounts (("alu", alu_stats) ∷ [])
      toy-fuzz refl

fuzz-IsBalanced_example :
    All (IsBalanced (reached (pos 1) 1)) (("alu", alu_stats) ∷ [])
    × ((exit_status final_accounts ≡ 0) ↔ (final_accounts.log ≡ []))
fuzz-IsBalanced_example =
    fuzz-IsBalanced toy 0 1 (alu ∷ []) final_accounts (("alu", alu_stats) ∷ []) toy-fuzz

abbrev backwards : Setting
backwards = record toy { batch = negsuc 0 }
