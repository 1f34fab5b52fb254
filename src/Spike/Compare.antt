-- ===== src/Spike/Compare.antt =====
-- `spike_state`, `compare` and `compare_configs` of tools/spike_diff/pipeline.py.
pub mod Agree
pub mod Configs
pub mod Returns
use determinant.Base.{
  ℕ, zero, suc, ◌+◌, ◌-◌, ◌*◌, ◌/◌, ◌%◌, ◌^◌, ◌≤◌, ◌<◌, bit_and, bit_or, bit_xor, min, max, String,
  ◌≡◌, refl, sym, ap, ◌∙◌, subst, ◌≢◌, ◌↔◌, ◌⊎◌, inl, inr, Bool, true, false, ◌&&◌, ◌||◌, not,
  Option, none, some, List, [], ◌∷◌, ◌++◌, map, append_assoc, append-nil, arith, str_eq, eq_iff,
  ltb, leb, ◌==◌, if◌then◌else◌, ==_iff, Bool-cases, Option-cases, length, get_elem?, get_or, take,
  drop, length-append, All, All-append, In,
}
use determinant.Base.Text.{text_eq}
use determinant.Base.Int.{ℤ, pos, negsuc, sub_ℕ}

-- The runner's status.
pub data Outcome : Type 0 where
  ebreak ecall illegal_instruction misaligned_access address_out_of_bounds : Outcome
  pc_out_of_bounds misaligned_pc : Outcome
  other : String → Outcome

pub record SpikeState : Type 0 where
  pub marker_ok : Bool
  pub regs : List ℕ
  pub mscratch : ℕ
  pub mcause : ℤ
  pub mepc : ℕ
  pub mtval : ℕ
  pub minstret : ℕ
  pub mem : List ℕ

pub record Record : Type 0 where
  pub status : Outcome
  pub epc : ℕ
  pub retired : ℕ
  pub final_pc : ℕ
  pub x0 : ℕ
  pub reservation : String
  pub regs : List ℕ
  pub mscratch : ℕ
  pub digest : String
  pub mem : List ℕ

abbrev pub dump_marker : ℕ
dump_marker = 0x600DC0DE

abbrev pub load_addr : ℕ
load_addr = 0x10000

abbrev pub spike_instret_offset : ℕ
spike_instret_offset = 9

-- `struct.pack("<I", w)`
unfoldable pub le_bytes : ℕ → List ℕ
le_bytes w = w % 256 ∷ w / 256 % 256 ∷ w / 65536 % 256 ∷ w / 16777216 % 256 ∷ []

unfoldable pub pack_words : List ℕ → List ℕ
unfolding le_bytes
pack_words [] = []
pack_words (w ∷ ws) = le_bytes w ++ pack_words ws

-- `d[i] if len(d) > i else 0`
or_zero : List ℕ → ℕ → ℕ
or_zero d i = get_or d i 0

or_minus_one : Option ℕ → ℤ
or_minus_one none = negsuc 0
or_minus_one (some w) = pos w

-- `spike_state`; the argument is the symbol `trap_dump`, an address behind the load address, and
-- a signature that ends before it makes `struct.pack` raise.
unfoldable pub spike_state : List ℕ → (trap_dump : ℕ) → Option SpikeState
unfolding pack_words or_zero or_minus_one
spike_state words trap_dump =
    let td = (trap_dump - load_addr) / 4 in
    let d = take 37 (drop td words) in
    if ltb (length words) td
    then none
    else some (record {
      marker_ok = (length d == 37) && (get_or d 0 0 == dump_marker);
      regs = take 31 (drop 1 d);
      mscratch = or_zero d 32;
      mcause = or_minus_one (get_elem? d 33);
      mepc = or_zero d 34;
      mtval = or_zero d 35;
      minstret = or_zero d 36;
      mem = pack_words (take td words);
    })

-- `CAUSES`
unfoldable pub causes : Outcome → Option (List ℕ)
causes ebreak = some (3 ∷ [])
causes ecall = some (11 ∷ [])
causes illegal_instruction = some (2 ∷ [])
causes misaligned_access = some (4 ∷ 6 ∷ [])
causes address_out_of_bounds = some (5 ∷ 7 ∷ [])
causes pc_out_of_bounds = some (1 ∷ [])
causes misaligned_pc = some (0 ∷ [])
causes (other s) = none

-- The differences, with the values that their messages show.
pub data Diff : Type 0 where
  no_marker : Diff
  outcome : ℤ → ℕ → Outcome → ℕ → Diff
  epc : ℕ → ℕ → Diff
  retired : ℕ → ℤ → Diff
  x0_written : ℕ → Diff
  reg : (x : ℕ) → ℕ → ℕ → Diff
  mscratch : ℕ → ℕ → Diff
  word : (address : ℕ) → ℕ → ℕ → Diff
  more_words : ℕ → Diff
  mem_length : ℕ → ℕ → Diff

member : ℕ → List ℕ → Bool
member x [] = false
member x (y ∷ ys) = (x == y) || member x ys

-- `want is not None and mcause in want`
cause_fits : ℤ → Option (List ℕ) → Bool
unfolding member
cause_fits c none = false
cause_fits (pos n) (some want) = member n want
cause_fits (negsuc n) (some want) = false

-- ECALL and EBREAK retire on Determinant and not on Spike.
retires : Outcome → ℕ
retires ebreak = 1
retires ecall = 1
retires _ = 0

same_int : ℤ → ℤ → Bool
same_int (pos a) (pos b) = a == b
same_int (negsuc a) (negsuc b) = a == b
same_int _ _ = false

want_retired : SpikeState → Record → ℤ
unfolding retires
want_retired sp det = sub_ℕ (sp.minstret + retires det.status) spike_instret_offset

-- The first three tests: `if`, `elif` and `else`.
outcome_diffs : SpikeState → Record → List Diff
unfolding cause_fits causes same_int want_retired
outcome_diffs sp det =
    if not (cause_fits sp.mcause (causes det.status))
    then outcome sp.mcause sp.mepc det.status det.epc ∷ []
    else if not (sp.mepc == det.epc)
    then epc sp.mepc det.epc ∷ []
    else if not (same_int (pos det.retired) (want_retired sp det))
    then retired det.retired (want_retired sp det) ∷ []
    else []

-- `for i in range(31)`, from register x on; `none` is the `IndexError` of a list that is too short.
reg_diffs : (rounds x : ℕ) → List ℕ → List ℕ → Option (List Diff)
reg_diffs zero x xs ys = some []
reg_diffs (suc n) x [] ys = none
reg_diffs (suc n) x (a ∷ xs) [] = none
reg_diffs (suc n) x (a ∷ xs) (b ∷ ys) = elim (reg_diffs n (x + 1) xs ys) [
  | none ↦ none
  | some ds ↦ some (if a == b then ds else reg x a b ∷ ds)
]

-- `struct.unpack("<I", chunk)[0]`
unpack : List ℕ → Option ℕ
unpack (a ∷ b ∷ c ∷ d ∷ []) = some (a + 256 * b + 65536 * c + 16777216 * d)
unpack _ = none

-- One word's message, if it is to be written; `none` is the error of a short last chunk.
report : (silent : Bool) → ℕ → List ℕ → List ℕ → List Diff → ℕ → Option (List Diff × ℕ)
unfolding unpack
report true off ca cb ds total = some (ds, total)
report false off ca cb ds total = elim (unpack ca) [
  | none ↦ none
  | some wa ↦ elim (unpack cb) [
    | none ↦ none
    | some wb ↦ some (word (load_addr + off) wa wb ∷ ds, total)
  ]
]

after_rest : (silent : Bool) → ℕ → List ℕ → List ℕ → Option (List Diff × ℕ) → Option (List Diff × ℕ)
unfolding report
after_rest silent off ca cb none = none
after_rest silent off ca cb (some (ds, total)) = report silent off ca cb ds total

-- The loop over the memory: n words differ so far, and the first eight are reported. The fuel is
-- at least the number of words.
mem_loop : (fuel off n : ℕ) → List ℕ → List ℕ → Option (List Diff × ℕ)
unfolding after_rest
mem_loop zero off n xs ys = some ([], n)
mem_loop (suc f) off n [] ys = some ([], n)
mem_loop (suc f) off n (a ∷ xs) [] = some ([], n)
mem_loop (suc f) off n (a ∷ xs) (b ∷ ys) =
    let ca = take 4 (a ∷ xs) in
    let cb = take 4 (b ∷ ys) in
    let same = text_eq ca cb in
    after_rest (same || ltb 7 n) off ca cb
      (mem_loop f (off + 4) (if same then n else n + 1) (drop 4 (a ∷ xs)) (drop 4 (b ∷ ys)))

mem_diffs : List ℕ → List ℕ → Option (List Diff)
unfolding mem_loop
mem_diffs xs ys = if text_eq xs ys then some [] else elim (mem_loop (length xs) 0 0 xs ys) [
  | none ↦ none
  | some (ds, n) ↦ some (
      ds
      ++ ((if ltb 8 n then more_words n ∷ [] else [])
          ++ (if length xs == length ys then [] else mem_length (length xs) (length ys) ∷ [])))
]

-- `none` is an uncaught exception.
unfoldable pub compare : SpikeState → Record → Option (List Diff)
unfolding outcome_diffs reg_diffs mem_diffs
compare sp det =
    if not sp.marker_ok then some (no_marker ∷ []) else elim (reg_diffs 31 1 sp.regs det.regs) [
      | none ↦ none
      | some rs ↦ elim (mem_diffs sp.mem det.mem) [
        | none ↦ none
        | some ms ↦ some (
            outcome_diffs sp det
            ++ ((if det.x0 == 0 then [] else x0_written det.x0 ∷ [])
                ++ (rs
                    ++ ((if sp.mscratch == det.mscratch
                          then []
                          else mscratch sp.mscratch det.mscratch ∷ [])
                        ++ ms))))
      ]
    ]
