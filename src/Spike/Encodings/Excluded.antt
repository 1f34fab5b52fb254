-- ===== src/Spike/Encodings/Excluded.antt =====
-- What the sweep excludes by construction, for whatever it draws.
use determinant.Base.{
  ℕ, zero, suc, ◌+◌, ◌*◌, ◌/◌, ◌%◌, ◌^◌, ◌<◌, bit_and, bit_or, ◌≡◌, refl, sym, subst, ◌≢◌, ◌⊎◌, inl,
  inr, Bool, true, false, ◌&&◌, ◌||◌, some, List, [], ◌∷◌, arith, ltb, ◌==◌, if◌then◌else◌,
  Bool-cases, Option-cases, get_or, In,
}
use determinant.Base.Bits.{
  all_below, all_below_sound, bit_and_fields, bit_or_fields, bit_xor_low, bit_and_mask,
  bit_and-zero, bit_or-zero, bit_or_zero_left,
}
use determinant.Spike.Hints.{◌>>>◌, ◌<<<◌}
use determinant.Spike.Encodings.{
  Draws, csrs, f7s, opcodes, funct3s, pick, first_rvc, opcode_of, with_opcode, with_funct7,
  with_width, csr_word, never_jal, system_word, never_privileged, full_word, rand_word,
}

with_opcode_low : (b op : ℕ) → op < 128 → with_opcode b op % 128 ≡ op
unfolding with_opcode
with_opcode_low b op h = ground (
  arith,
  bit_and_fields 7 (b / 128) 0x1FFFFFF (b % 128) 0,
  bit_and-zero (b % 128),
  bit_or_fields 7 (bit_and (b / 128) 0x1FFFFFF) 0 0 op,
  bit_or_zero_left op,
)

with_funct7_low : (w f : ℕ) → with_funct7 w f % 128 ≡ w % 128
unfolding with_funct7
with_funct7_low w f = ground (
  arith,
  bit_and_fields 25 (w / 2 ^ 25) 0 (w % 2 ^ 25) 0x01FFFFFF,
  bit_and-zero (w / 2 ^ 25),
  bit_and_mask 25 (w % 2 ^ 25),
  bit_or_fields 25 0 f (w % 2 ^ 25) 0,
  bit_or-zero (w % 2 ^ 25),
)

with_width_low : (w : ℕ) → with_width w % 128 ≡ w % 128
unfolding with_width
with_width_low w = ground (
  arith,
  bit_and_fields 7 (w / 128) (0xFFFF8FFF / 128) (w % 128) 127,
  bit_and_mask 7 (w % 128),
  bit_or_fields 7 (bit_and (w / 128) (0xFFFF8FFF / 128)) 64 (w % 128) 0,
  bit_or-zero (w % 128),
)

never_jal_low : (w : ℕ) → never_jal w % 128 ≡ (if w % 128 == 0x6F then 0x7F else w % 128)
unfolding never_jal
never_jal_low w = ground (arith, bit_and_mask 7 w, bit_xor_low 7 (w / 128) 0 0x6F 0x10)

-- The fields rd and rs1 are what the mask of the CSR words keeps.
csr_mask : (w : ℕ) → bit_and w 0x000F8F80 ≡ w / 2 ^ 15 % 32 * 2 ^ 15 + w / 128 % 32 * 128
csr_mask w = ground (
  arith,
  bit_and_fields 7 (w / 128) 0x1F1F (w % 128) 0,
  bit_and-zero (w % 128),
  bit_and_fields 8 (w / 2 ^ 15) 31 (w / 128 % 256) 31,
  bit_and_mask 5 (w / 2 ^ 15),
  bit_and_mask 5 (w / 128 % 256),
)

csr_word_sum :
    (w c f3 : ℕ)
    → f3 < 8
    → csr_word w c f3
      ≡ c * 2 ^ 20 + w / 2 ^ 15 % 32 * 2 ^ 15 + f3 * 2 ^ 12 + w / 128 % 32 * 128 + 0x73
unfolding csr_word
csr_word_sum w c f3 h =
    let a2 = w / 2 ^ 15 % 32 in
    let a1 = w / 128 % 32 in
    rw (csr_mask w) (
      ground (
        arith,
        bit_or_fields 20 0 c (a2 * 2 ^ 15 + a1 * 128) 0,
        bit_or_zero_left c,
        bit_or-zero (a2 * 2 ^ 15 + a1 * 128),
        bit_or_fields 12 (c * 256 + a2 * 8) f3 (a1 * 128) 0,
        bit_or-zero (a1 * 128),
        bit_or_fields 3 (c * 32 + a2) 0 0 f3,
        bit_or-zero (c * 32 + a2),
        bit_or_zero_left f3,
        bit_or_fields 7 (c * 2 ^ 13 + a2 * 2 ^ 8 + f3 * 32 + a1) 0 0 0x73,
        bit_or-zero (c * 2 ^ 13 + a2 * 2 ^ 8 + f3 * 32 + a1),
        bit_or_zero_left 0x73,
      ))

is_opcode : ℕ → Bool
is_opcode v = (v % 4 == 3) && ltb v 128

opcode_table : all_below 14 (λ i. is_opcode (get_or opcodes i 0)) ≡ true
unfolding all_below is_opcode
opcode_table = refl

random_opcode_table : all_below 128 (λ b. is_opcode (bit_or b 3)) ≡ true
unfolding all_below is_opcode
random_opcode_table = refl

is_opcode_sound : (v : ℕ) → is_opcode v ≡ true → (v % 4 ≡ 3) × (v < 128)
unfolding is_opcode
is_opcode_sound v h = ground arith

choose_opcode :
    (last : Bool) (i b : ℕ)
    → (last ≡ false → i < 14)
    → b < 128
    → is_opcode (if last then bit_or b 3 else get_or opcodes i 0) ≡ true
choose_opcode true i b hi hb =
    all_below_sound 128 (λ x. is_opcode (bit_or x 3)) b random_opcode_table hb
choose_opcode false i b hi hb =
    all_below_sound 14 (λ x. is_opcode (get_or opcodes x 0)) i opcode_table (hi refl)

opcode_of_ok : (d : Draws) → (opcode_of d % 4 ≡ 3) × (opcode_of d < 128)
unfolding opcode_of
opcode_of_ok d = is_opcode_sound _ (
    choose_opcode (d.opcode % 15 == 14) (d.opcode % 15) (d.opcode_bits % 128)
      (λ e. not_last (d.opcode % 15) (omega arith) e) (omega arith))
  where
    not_last : (i : ℕ) → i < 15 → (i == 14) ≡ false → i < 14
    not_last i h e = ground arith

scrambled_sum :
    (s rd rs1 : ℕ)
    → rd < 32
    → rs1 < 32
    → bit_or (s * 2 ^ 20 + 0x73) (bit_or (rd <<< 7) (rs1 <<< 15))
      ≡ s * 2 ^ 20 + rs1 * 2 ^ 15 + rd * 2 ^ 7 + 0x73
scrambled_sum s rd rs1 hd hs = ground (
  arith,
  bit_or_fields 15 0 rs1 (rd * 2 ^ 7) 0,
  bit_or_zero_left rs1,
  bit_or-zero (rd * 2 ^ 7),
  bit_or_fields 20 s 0 0x73 (rs1 * 2 ^ 15 + rd * 2 ^ 7),
  bit_or-zero s,
  bit_or_fields 7 0 (rs1 * 2 ^ 8 + rd) 0x73 0,
  bit_or_zero_left (rs1 * 2 ^ 8 + rd),
)

-- `system_word` is ECALL or EBREAK, but for rd and rs1.
record IsEcallOrEbreak (w : ℕ) : Type 0 where
  pub opcode : w % 128 ≡ 0x73
  pub funct3 : w / 4096 % 8 ≡ 0
  pub upper : (w / 2 ^ 20 ≡ 0) ⊎ (w / 2 ^ 20 ≡ 1)

system_base :
    (i s rd rs1 : ℕ) (b : Bool)
    → (s ≡ 0) ⊎ (s ≡ 1)
    → rd < 32
    → rs1 < 32
    → i ≡ s * 2 ^ 20 + 0x73
    → IsEcallOrEbreak (if b then bit_or i (bit_or (rd <<< 7) (rs1 <<< 15)) else i)
system_base i s rd rs1 false hs hd h1 e = record {
  opcode = omega arith;
  funct3 = omega arith;
  upper = elim hs [ inl z ↦ inl (omega arith) | inr z ↦ inr (omega arith) ];
}
system_base i s rd rs1 true hs hd h1 e =
    rw (e, scrambled_sum s rd rs1 hd h1)
      (record {
        opcode = omega arith;
        funct3 = omega arith;
        upper = elim hs [ inl z ↦ inl (omega arith) | inr z ↦ inr (omega arith) ];
      })

system_pick :
    (n : ℕ)
    → n < 2
    → (s : ℕ) × ((s ≡ 0) ⊎ (s ≡ 1))
      × (get_or (0x00000073 ∷ 0x00100073 ∷ []) n 0 ≡ s * 2 ^ 20 + 0x73)
system_pick zero h = (0, inl refl, refl)
system_pick (suc zero) h = (1, inr refl, refl)
system_pick (suc (suc n)) h = absurd (omega arith)

system_word_ok : (d : Draws) → IsEcallOrEbreak (system_word d)
unfolding system_word pick
system_word_ok d =
    let (s, hs, e) = system_pick (d.system % 2) (omega arith) in
    system_base (get_or (0x00000073 ∷ 0x00100073 ∷ []) (d.system % 2) 0) s (d.rd % 32) (d.rs1 % 32)
      d.scrambled hs (omega arith) (omega arith) e

-- What the sweep means to generate: an instruction of 32 bits that is no JAL; a word with the
-- SYSTEM opcode and funct3 = 0 is ECALL or EBREAK but for rd and rs1, and with another funct3 it
-- names one of the chosen CSRs.
pub record IsSwept (w : ℕ) : Type 0 where
  pub full : w % 4 ≡ 3
  pub no_jal : w % 128 ≢ 0x6F
  pub privileged : w % 128 ≡ 0x73 → w / 4096 % 8 ≡ 0 → (w / 2 ^ 20 ≡ 0) ⊎ (w / 2 ^ 20 ≡ 1)
  pub csr : w % 128 ≡ 0x73 → w / 4096 % 8 ≢ 0 → In (w / 2 ^ 20) csrs

csr_table : (i : ℕ) → i < 8 → In (get_or csrs i 0) csrs
csr_table zero h = inl refl
csr_table (suc zero) h = inr (inl refl)
csr_table (suc (suc zero)) h = inr (inr (inl refl))
csr_table (suc (suc (suc zero))) h = inr (inr (inr (inl refl)))
csr_table (suc (suc (suc (suc zero)))) h = inr (inr (inr (inr (inl refl))))
csr_table (suc (suc (suc (suc (suc zero))))) h = inr (inr (inr (inr (inr (inl refl)))))
csr_table (suc (suc (suc (suc (suc (suc zero)))))) h = inr (inr (inr (inr (inr (inr (inl refl))))))
csr_table (suc (suc (suc (suc (suc (suc (suc zero))))))) h =
    inr (inr (inr (inr (inr (inr (inr (inl refl)))))))
csr_table (suc (suc (suc (suc (suc (suc (suc (suc i)))))))) h = absurd (omega arith)

-- What the statements before the last two make: the opcode, and with the SYSTEM opcode a CSR.
record IsDrawn (w : ℕ) : Type 0 where
  pub low : w % 4 ≡ 3
  pub named : w % 128 ≡ 0x73 → In (w / 2 ^ 20) csrs

ecall-IsSwept : (w : ℕ) → IsEcallOrEbreak w → IsSwept w
ecall-IsSwept w e = record {
  full = omega (arith, e.opcode);
  no_jal = omega (arith, e.opcode);
  privileged = λ _ _. e.upper;
  csr = λ _ ne. absurd (ne e.funct3);
}

never_jal-system : (w : ℕ) → never_jal w % 128 ≡ 0x73 → never_jal w ≡ w
unfolding never_jal
never_jal-system w h = ground (arith, bit_and_mask 7 w, bit_xor_low 7 (w / 128) 0 0x6F 0x10)

never_jal-IsDrawn : (w : ℕ) → IsDrawn w → IsDrawn (never_jal w) × (never_jal w % 128 ≢ 0x6F)
never_jal-IsDrawn w h = (
  record {
    low = ground (arith, never_jal_low w);
    named = λ e.
        let same = never_jal-system w e in
        subst (λ v. In (v / 2 ^ 20) csrs) (sym same) (h.named (omega (arith, same, e)));
  },
  λ e. ground (arith, never_jal_low w, e),
)

never_privileged-IsSwept :
    (d : Draws) (v : ℕ) → IsDrawn v → v % 128 ≢ 0x6F → IsSwept (never_privileged d v)
unfolding never_privileged
never_privileged-IsSwept d v h jal =
    elim (Bool-cases ((bit_and v 0x7F == 0x73) && (bit_and (v >>> 12) 7 == 0))) [
      | inl sys ↦ rw sys (ecall-IsSwept (system_word d) (system_word_ok d))
      | inr plain ↦ rw plain (record {
        full = h.low;
        no_jal = jal;
        privileged = λ e z.
            absurd (ground (arith, plain, bit_and_mask 7 v, bit_and_mask 3 (v >>> 12), e, z));
        csr = λ e _. h.named e;
      })
    ]

csr_word-IsDrawn : (w c f3 : ℕ) → f3 < 8 → In c csrs → IsDrawn (csr_word w c f3)
csr_word-IsDrawn w c f3 h at = record {
  low = omega (arith, csr_word_sum w c f3 h);
  named = λ _.
      let e : c ≡ csr_word w c f3 / 2 ^ 20 = omega (arith, csr_word_sum w c f3 h) in
      subst (λ v. In v csrs) e at;
}

IsDrawn-bits :
    (b op : ℕ) (f7 width : Bool) (f csr f3 : ℕ)
    → op % 4 ≡ 3
    → op < 128
    → f3 < 8
    → In csr csrs
    → let w0 = with_opcode b op in
      let w1 = if f7 then with_funct7 w0 f else w0 in
      let w2 = if width then with_width w1 else w1 in
      IsDrawn (if op == 0x73 then csr_word w2 csr f3 else w2)
IsDrawn-bits b op f7 width f csr f3 h3 hop hf hc =
    let w0 = with_opcode b op in
    let w1 = if f7 then with_funct7 w0 f else w0 in
    let w2 = if width then with_width w1 else w1 in
    elim (Bool-cases (op == 0x73)) [
      | inl sys ↦ rw sys (csr_word-IsDrawn w2 csr f3 hf hc)
      | inr plain ↦
          let low : w2 % 128 ≡ op =
            ground (arith, with_opcode_low b op, with_funct7_low w0 f, with_width_low w1) in
          rw plain (record {
            low = omega (arith, low);
            named = λ e. absurd (ground (arith, plain, low, e));
          })
    ]

funct3_ok : (i : ℕ) → i < 7 → get_or funct3s i 0 < 8
unfolding all_below
funct3_ok i h = below (all_below_sound 7 (λ k. ltb (get_or funct3s k 0) 8) i table h)
  where
    below : {a : ℕ} → ltb a 8 ≡ true → a < 8
    below e = ground arith

    table : all_below 7 (λ k. ltb (get_or funct3s k 0) 8) ≡ true
    table = refl

full_word-IsSwept : (d : Draws) → IsSwept (full_word d)
unfolding full_word pick
full_word-IsSwept d =
    let op = opcode_of d in
    let f7 = ((op == 0x33) || (op == 0x13)) && d.biased in
    let width = (op == 0x2F) && d.word_width in
    let w0 = with_opcode (d.bits % 2 ^ 32) op in
    let w1 = if f7 then with_funct7 w0 (get_or f7s (d.funct7 % 10) 0) else w0 in
    let w2 = if width then with_width w1 else w1 in
    let csr = get_or csrs (d.csr % 8) 0 in
    let f3 = get_or funct3s (d.funct3 % 7) 0 in
    let w3 = if op == 0x73 then csr_word w2 csr f3 else w2 in
    let (low, small) = opcode_of_ok d in
    let drawn =
      IsDrawn-bits (d.bits % 2 ^ 32) op f7 width (get_or f7s (d.funct7 % 10) 0) csr f3 low small
        (funct3_ok (d.funct3 % 7) (omega arith)) (csr_table (d.csr % 8) (omega arith)) in
    let (still, jal) = never_jal-IsDrawn w3 drawn in
    never_privileged-IsSwept d (never_jal w3) still jal

first_rvc-low : (hs : List ℕ) (h : ℕ) → first_rvc hs ≡ some h → h % 4 ≢ 3
unfolding first_rvc
first_rvc-low [] h e = absurd (cc)
first_rvc-low (x ∷ hs) h e = elim (Bool-cases (bit_and x 3 == 3)) [
  | inl full ↦ first_rvc-low hs h (ground (arith, full, e))
  | inr half ↦ ground (arith, half, e, bit_and_mask 2 x)
]

-- Whatever is drawn, a 2-byte word is not a 32-bit encoding, and a 4-byte word is one, is no JAL,
-- and with the SYSTEM opcode it is ECALL or EBREAK but for rd and rs1 if funct3 is 0, and names one
-- of the listed CSRs otherwise.
pub rand_word-IsSwept :
    (d : Draws) (w size : ℕ)
    → rand_word d ≡ some (w, size)
    → ((size ≡ 2) × (w % 4 ≢ 3)) ⊎ ((size ≡ 4) × IsSwept w)
unfolding rand_word
rand_word-IsSwept d w size h = elim (Bool-cases d.compressed) [
  | inl c ↦ elim (Option-cases (first_rvc d.halves)) [
    | inl e ↦ absurd (ground (arith, c, e))
    | inr (x, e) ↦ inl (ground (arith, c, e, h), first_rvc-low d.halves w (ground (arith, c, e, h)))
  ]
  | inr c ↦ inr (
    ground (arith, c, h),
    subst IsSwept {x = full_word d} {y = w} (ground (arith, c, h)) (full_word-IsSwept d),
  )
]
