-- ===== src/Spike/Encodings.antt =====
-- The single instruction words of tools/spike_diff/encsweep.py: `rand_word`, `effective_address`
-- and `known_class`. Python's `~m` clears the same bits of a 32-bit value as the mask written here.
pub mod Excluded
use determinant.Base.{
  ℕ, zero, suc, ◌+◌, ◌-◌, ◌*◌, ◌/◌, ◌%◌, ◌^◌, ◌≤◌, ◌<◌, bit_and, bit_or, bit_xor, min, max, String,
  ◌≡◌, refl, sym, ap, ◌∙◌, subst, ◌≢◌, ◌↔◌, ◌⊎◌, inl, inr, Bool, true, false, ◌&&◌, ◌||◌, not,
  Option, none, some, List, [], ◌∷◌, ◌++◌, map, append_assoc, append-nil, arith, str_eq, eq_iff,
  ltb, leb, ◌==◌, if◌then◌else◌, ==_iff, Bool-cases, Option-cases, length, get_elem?, get_or, take,
  drop, length-append, All, All-append, In, append-eq-nil, All-take,
}
use determinant.Spike.Compare.{SpikeState, Record, load_addr}
use determinant.Spike.Hints.{◌>>>◌, ◌<<<◌}

-- What `rand_word` draws. `halves` are the 16-bit draws of the loop; the choices are indices.
pub record Draws : Type 0 where
  pub compressed : Bool
  pub halves : List ℕ
  pub opcode : ℕ
  pub opcode_bits : ℕ
  pub bits : ℕ
  pub biased : Bool
  pub funct7 : ℕ
  pub word_width : Bool
  pub csr : ℕ
  pub funct3 : ℕ
  pub system : ℕ
  pub scrambled : Bool
  pub rd : ℕ
  pub rs1 : ℕ

abbrev pub csrs : List ℕ
csrs = 0xC00 ∷ 0xC02 ∷ 0xC80 ∷ 0xC82 ∷ 0x340 ∷ 0x7C0 ∷ 0xC03 ∷ 0x8FF ∷ []

abbrev f7s : List ℕ
f7s = 0x00 ∷ 0x20 ∷ 0x01 ∷ 0x05 ∷ 0x04 ∷ 0x10 ∷ 0x14 ∷ 0x24 ∷ 0x30 ∷ 0x34 ∷ []

abbrev opcodes : List ℕ
opcodes =
    0x33 ∷ 0x33 ∷ 0x13 ∷ 0x13 ∷ 0x03 ∷ 0x23 ∷ 0x0F ∷ 0x2F ∷ 0x2F ∷ 0x73 ∷ 0x37 ∷ 0x17 ∷ 0x63 ∷ 0x67
    ∷ []

abbrev funct3s : List ℕ
funct3s = 1 ∷ 2 ∷ 3 ∷ 5 ∷ 6 ∷ 7 ∷ 0 ∷ []

-- `rng.choice(xs)` of a non-empty list, from a draw.
pick : List ℕ → ℕ → ℕ
pick xs d = get_or xs (d % length xs) 0

-- `while True: h = rng.getrandbits(16); if h & 3 != 3: return h`; `none` if the draws run out.
first_rvc : List ℕ → Option ℕ
first_rvc [] = none
first_rvc (h ∷ hs) = let more = first_rvc hs in if bit_and h 3 == 3 then more else some h

-- The last of the fifteen choices of an opcode is `rng.getrandbits(7) | 3`.
opcode_of : Draws → ℕ
unfolding pick
opcode_of d =
    if d.opcode % 15 == 14 then bit_or (d.opcode_bits % 128) 3 else get_or opcodes (d.opcode % 15) 0

-- `w = rng.getrandbits(32) & ~0x7F | op`
with_opcode : ℕ → ℕ → ℕ
with_opcode bits op = bit_or (bit_and bits 0xFFFFFF80) op

with_funct7 : ℕ → ℕ → ℕ
with_funct7 w f7 = bit_or (bit_and w 0x01FFFFFF) (f7 <<< 25)

with_width : ℕ → ℕ
with_width w = bit_or (bit_and w 0xFFFF8FFF) 0x2000

csr_word : ℕ → (csr f3 : ℕ) → ℕ
csr_word w csr f3 = bit_or (bit_or (bit_or (bit_and w 0x000F8F80) (csr <<< 20)) (f3 <<< 12)) 0x73

-- `if (w & 0x7F) == 0x6F: w ^= 0x10`
never_jal : ℕ → ℕ
never_jal w = if bit_and w 0x7F == 0x6F then bit_xor w 0x10 else w

system_word : Draws → ℕ
unfolding pick
system_word d =
    let w = pick (0x00000073 ∷ 0x00100073 ∷ []) d.system in
    if d.scrambled then bit_or w (bit_or ((d.rd % 32) <<< 7) ((d.rs1 % 32) <<< 15)) else w

never_privileged : Draws → ℕ → ℕ
unfolding system_word
never_privileged d w =
    if (bit_and w 0x7F == 0x73) && (bit_and (w >>> 12) 7 == 0) then system_word d else w

-- The 32-bit branch, statement by statement.
full_word : Draws → ℕ
unfolding opcode_of with_opcode with_funct7 with_width csr_word never_jal never_privileged pick
full_word d =
    let op = opcode_of d in
    let w0 = with_opcode (d.bits % 2 ^ 32) op in
    let w1 =
      if ((op == 0x33) || (op == 0x13)) && d.biased
      then with_funct7 w0 (pick f7s d.funct7)
      else w0 in
    let w2 = if (op == 0x2F) && d.word_width then with_width w1 else w1 in
    let w3 = if op == 0x73 then csr_word w2 (pick csrs d.csr) (pick funct3s d.funct3) else w2 in
    never_privileged d (never_jal w3)

-- The word and its size.
unfoldable pub rand_word : Draws → Option (ℕ × ℕ)
unfolding first_rvc full_word
rand_word d =
    if d.compressed
    then elim (first_rvc d.halves) [ none ↦ none | some h ↦ some (h, 2) ]
    else some (full_word d, 4)

-- `sext(v, bits)`, modulo 2 ^ 32 as its callers use it.
sext32 : (v bits : ℕ) → ℕ
sext32 v bits = if bit_and (v >>> (bits - 1)) 1 == 1 then v + (2 ^ 32 - 2 ^ bits) else v

-- `effective_address`; the registers are a list of 32 values.
unfoldable pub effective_address : (word size : ℕ) → List ℕ → Option ℕ
unfolding sext32
effective_address word size regs =
    let op2 = bit_and word 3 in
    let f3 = word >>> 13 in
    let op = bit_and word 0x7F in
    let rs1 = bit_and (word >>> 15) 31 in
    if size == 2
    then (if (op2 == 0) && ((f3 == 2) || (f3 == 6))
        then some (get_or regs (8 + bit_and (word >>> 7) 7) 0)
        else if (op2 == 2) && ((f3 == 2) || (f3 == 6))
        then some (get_or regs 2 0)
        else if (op2 == 2) && ((f3 == 4) && (bit_and (word >>> 2) 31 == 0))
        then some (get_or regs (bit_and (word >>> 7) 31) 0)
        else none)
    else if (op == 0x03) || (op == 0x67)
    then some ((get_or regs rs1 0 + sext32 (word >>> 20) 12) % 2 ^ 32)
    else if op == 0x23
    then some (
        (get_or regs rs1 0 + sext32 (bit_or ((word >>> 25) <<< 5) (bit_and (word >>> 7) 31)) 12)
        % 2 ^ 32)
    else if op == 0x2F
    then some (get_or regs rs1 0)
    else none

pub data KnownClass : Type 0 where
  absolute_counter memory_map : KnownClass

-- `known_class`, for a divergence with that many differences.
unfoldable pub known_class :
    (word size : ℕ) → (init_regs : List ℕ) → SpikeState → Record → (diffs : ℕ) → Option KnownClass
unfolding effective_address
known_class w size init sp d diffs =
    let rd = bit_and (w >>> 7) 31 in
    let f3 = bit_and (w >>> 12) 3 in
    let counter =
      (size == 4)
      && ((bit_and w 0x7F == 0x73)
          && (((f3 == 2) || (f3 == 3)) && (((w >>> 20) == 0xC00) || ((w >>> 20) == 0xC02)))) in
    let ahead = (get_or sp.regs (rd - 1) 0 + 2 ^ 32 - get_or d.regs (rd - 1) 0) % 2 ^ 32 in
    if counter && ((diffs == 1) && (not (rd == 0) && (ahead == 8)))
    then some absolute_counter
    else elim (effective_address w size init) [
      | none ↦ none
      | some ea ↦ if ltb ea (load_addr + 256) then some memory_map else none
    ]
