-- ===== src/Spike/Tests.antt =====
-- The comparison, the HINTs and the sweep's words on small inputs.
use determinant.Base.{
  All, ℕ, zero, suc, ◌%◌, ◌^◌, ◌<◌, ◌≡◌, refl, ◌≢◌, ◌↔◌, ◌⊎◌, true, false, some, List, [], ◌∷◌,
  arith,
}
use determinant.Base.Int.{pos, negsuc}
use determinant.Spike.Constants.{lui, addi, li, run, Encodable, run-li}
use determinant.Spike.DeviceTree.{Writer, start, device_tree, emit, blob_of, build}
use determinant.Spike.DeviceTree.Layout.{struct_of, IsLaidOut, build-IsLaidOut}
use determinant.Spike.Hints.{
  classify_hint, hint_encoding, intended, drawable, classify_hint-hint_encoding,
}
use determinant.Spike.Compare.{ebreak, SpikeState, Record, causes, compare}
use determinant.Spike.Compare.Agree.{Agree, compare-nil_iff}
use determinant.Spike.Compare.Configs.{Config, Records, compare_configs, compare_configs-nil_iff}
use determinant.Spike.Encodings.{Draws, rand_word}
use determinant.Spike.Encodings.Excluded.{IsSwept, rand_word-IsSwept}

classify_hint-hint_encoding_example :
    (classify_hint (hint_encoding 1 0 5) ≡ some (intended 1)) × (hint_encoding 1 0 5 < 2 ^ 16)
unfolding drawable
classify_hint-hint_encoding_example = classify_hint-hint_encoding 1 0 5 (omega arith) refl

zeros : ℕ → List ℕ
zeros zero = []
zeros (suc n) = 0 ∷ zeros n

-- A program of two words that stopped at an EBREAK in the second one.
abbrev spike_final : SpikeState
spike_final = record {
  marker_ok = true;
  regs = 1 ∷ 2 ∷ zeros 29;
  mscratch = 7;
  mcause = pos 3;
  mepc = 0x10004;
  mtval = 0;
  minstret = 10;
  mem = 0x13 ∷ 0 ∷ 0 ∷ 0 ∷ 0x73 ∷ 0 ∷ 0x10 ∷ 0 ∷ [];
}

abbrev det_final : Record
det_final = record {
  status = ebreak;
  epc = 0x10004;
  retired = 2;
  final_pc = 0x10008;
  x0 = 0;
  reservation = "none";
  regs = 1 ∷ 2 ∷ zeros 29;
  mscratch = 7;
  digest = "ab";
  mem = 0x13 ∷ 0 ∷ 0 ∷ 0 ∷ 0x73 ∷ 0 ∷ 0x10 ∷ 0 ∷ [];
}

final_states_agree : compare spike_final det_final ≡ some []
unfolding compare zeros causes
final_states_agree = refl

compare-nil_iff_example : (compare spike_final det_final ≡ some []) ↔ Agree spike_final det_final
unfolding zeros
compare-nil_iff_example = compare-nil_iff spike_final det_final (omega arith)

abbrev records : Records
records c = some det_final

compare_configs-nil_iff_example : (compare_configs records ≡ []) ↔ (
    (r : Record) × (records Config.cache ≡ some r)
    × (records Config.nocache ≡ some r)
    × (records Config.runtime ≡ some r))
compare_configs-nil_iff_example = compare_configs-nil_iff records

-- Draws that ask for the JAL opcode, by the last of the choices.
abbrev jal_draws : Draws
jal_draws = record {
  compressed = false;
  halves = [];
  opcode = 14;
  opcode_bits = 0x6C;
  bits = 0xFFFFFFFF;
  biased = false;
  funct7 = 0;
  word_width = false;
  csr = 0;
  funct3 = 0;
  system = 0;
  scrambled = false;
  rd = 0;
  rs1 = 0;
}

jal_avoided : rand_word jal_draws ≡ some (0xFFFFFFFF, 4)
unfolding rand_word
jal_avoided = refl

rand_word-IsSwept_example :
    ((◌≡◌ {A = ℕ} 4 2) × (◌≢◌ {A = ℕ} (0xFFFFFFFF % 4) 3))
    ⊎ ((◌≡◌ {A = ℕ} 4 4) × IsSwept 0xFFFFFFFF)
rand_word-IsSwept_example = rand_word-IsSwept jal_draws 0xFFFFFFFF 4 jal_avoided

-- A constant whose low half is negative as 12 bits.
run-li_example :
    (run (li 5 0xFFFFF800) (λ r. r) 5 ≡ 0xFFFFF800 % 2 ^ 32)
    × (run (li 5 0xFFFFF800) (λ r. r) 6 ≡ 6)
    × All Encodable (li 5 0xFFFFF800)
run-li_example = run-li 5 0xFFFFF800 6 (λ r. r) (λ e. absurd (cc)) (λ e. absurd (cc))

li_runs : li 5 0xFFFFF800 ≡ lui 5 0 ∷ addi 5 5 (negsuc 2047) ∷ []
unfolding li
li_runs = refl

-- The blob for a small memory, with an empty ISA string.
abbrev small_tree : Writer
small_tree = emit (device_tree [] 0x10000 0x40000) start

tree_built : (blob : List ℕ) × (build [] 0x10000 0x40000 ≡ some blob)
unfolding build
tree_built = (blob_of small_tree, refl)

build-IsLaidOut_example : IsLaidOut (struct_of small_tree) small_tree.strings tree_built.0
build-IsLaidOut_example = build-IsLaidOut [] 0x10000 0x40000 tree_built.0 tree_built.1
