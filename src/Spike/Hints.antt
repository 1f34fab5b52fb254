-- ===== src/Spike/Hints.antt =====
-- The RVC HINT encodings: `Gen.g_c_hint` of tools/spike_diff/gen.py writes them and
-- `classify_hint` of tools/spike_diff/coverage.py recognises them.
use determinant.Base.{
  ℕ, zero, suc, ◌-◌, ◌*◌, ◌/◌, ◌^◌, ◌<◌, bit_and, bit_or, ◌≡◌, refl, Bool, true, false, ◌&&◌, ◌||◌,
  not, Option, none, some, arith, ltb, leb, ◌==◌, if◌then◌else◌,
}
use determinant.Base.Bits.{all_below, all_below_sound}

infixl 68 ◌>>>◌ ◌<<<◌
abbrev pub ◌>>>◌ : ℕ → ℕ → ℕ
x >>> k = x / 2 ^ k

abbrev pub ◌<<<◌ : ℕ → ℕ → ℕ
x <<< k = x * 2 ^ k

-- The names that `classify_hint` returns.
pub data Hint : Type 0 where
  c_nop_nzimm c_addi_imm0 c_li_rd0 c_lui_rd0 c_mv_rd0 c_add_rd0 : Hint
  c_slli_rd0 c_slli_shamt0 c_srli_srai_shamt0 : Hint

unfoldable pub classify_hint : ℕ → Option Hint
classify_hint word =
    if bit_and word 3 == 3
    then none
    else let op = bit_and word 3 in
      let f3 = word >>> 13 in
      let rd = bit_and (word >>> 7) 31 in
      let imm6 = bit_or (bit_and (word >>> 12) 1 <<< 5) (bit_and (word >>> 2) 31) in
      let bit12 = bit_and (word >>> 12) 1 in
      let rs2 = bit_and (word >>> 2) 31 in
      let funct2 = bit_and (word >>> 10) 3 in
      if (op == 1) && ((f3 == 0) && ((rd == 0) && not (imm6 == 0)))
      then some c_nop_nzimm
      else if (op == 1) && ((f3 == 0) && (not (rd == 0) && (imm6 == 0)))
      then some c_addi_imm0
      else if (op == 1) && ((f3 == 2) && (rd == 0))
      then some c_li_rd0
      else if (op == 1) && ((f3 == 3) && ((rd == 0) && not (imm6 == 0)))
      then some c_lui_rd0
      else if (op == 2) && ((f3 == 4) && ((bit12 == 0) && ((rd == 0) && not (rs2 == 0))))
      then some c_mv_rd0
      else if (op == 2) && ((f3 == 4) && (not (bit12 == 0) && ((rd == 0) && not (rs2 == 0))))
      then some c_add_rd0
      else if (op == 2) && ((f3 == 0) && (rd == 0))
      then some c_slli_rd0
      else if (op == 2) && ((f3 == 0) && (imm6 == 0))
      then some c_slli_shamt0
      else if (op == 1) && ((f3 == 4) && (((funct2 == 0) || (funct2 == 1)) && (imm6 == 0)))
      then some c_srli_srai_shamt0
      else none

-- `imm6 or 1`
or_one : ℕ → ℕ
or_one i = if i == 0 then 1 else i

imm_bits : ℕ → ℕ
imm_bits i = bit_or (bit_and (i >>> 5) 1 <<< 12) (bit_or (bit_and i 31 <<< 2) 1)

-- `enc` of `g_c_hint` for the choice k. `r` is the register or the amount that the choice draws:
-- `self.wreg(0)` for 1 and 7, `randrange(1, 32)` for 4 and 5, `randrange(32)` for 6, `self.cw()`
-- for 8 and 9.
unfoldable pub hint_encoding : (k imm6 r : ℕ) → ℕ
unfolding or_one imm_bits
hint_encoding zero i r = imm_bits (or_one i)
hint_encoding (suc zero) i r = bit_or (r <<< 7) 1
hint_encoding (suc (suc zero)) i r = bit_or (2 <<< 13) (imm_bits i)
hint_encoding (suc (suc (suc zero))) i r = bit_or (3 <<< 13) (imm_bits (or_one i))
hint_encoding (suc (suc (suc (suc zero)))) i r = bit_or (8 <<< 12) (bit_or (r <<< 2) 2)
hint_encoding (suc (suc (suc (suc (suc zero))))) i r = bit_or (9 <<< 12) (bit_or (r <<< 2) 2)
hint_encoding (suc (suc (suc (suc (suc (suc zero)))))) i r = bit_or (r <<< 2) 2
hint_encoding (suc (suc (suc (suc (suc (suc (suc zero))))))) i r = bit_or (r <<< 7) 2
hint_encoding (suc (suc (suc (suc (suc (suc (suc (suc zero)))))))) i r =
    bit_or (4 <<< 13) (bit_or (0 <<< 10) (bit_or ((r - 8) <<< 7) 1))
hint_encoding _ i r = bit_or (4 <<< 13) (bit_or (1 <<< 10) (bit_or ((r - 8) <<< 7) 1))

-- What each choice is meant to be, by the comments of `g_c_hint`.
pub intended : ℕ → Hint
intended zero = c_nop_nzimm
intended (suc zero) = c_addi_imm0
intended (suc (suc zero)) = c_li_rd0
intended (suc (suc (suc zero))) = c_lui_rd0
intended (suc (suc (suc (suc zero)))) = c_mv_rd0
intended (suc (suc (suc (suc (suc zero))))) = c_add_rd0
intended (suc (suc (suc (suc (suc (suc zero)))))) = c_slli_rd0
intended (suc (suc (suc (suc (suc (suc (suc zero))))))) = c_slli_shamt0
intended _ = c_srli_srai_shamt0

-- The draws that choice k can make.
unfoldable pub drawable : (k imm6 r : ℕ) → Bool
drawable k i r =
    ltb i 64
    && (if k == 6 then ltb r 32 else if leb 8 k then leb 8 r && ltb r 16 else leb 1 r && ltb r 32)

same_hint : Hint → Hint → Bool
same_hint c_nop_nzimm c_nop_nzimm = true
same_hint c_addi_imm0 c_addi_imm0 = true
same_hint c_li_rd0 c_li_rd0 = true
same_hint c_lui_rd0 c_lui_rd0 = true
same_hint c_mv_rd0 c_mv_rd0 = true
same_hint c_add_rd0 c_add_rd0 = true
same_hint c_slli_rd0 c_slli_rd0 = true
same_hint c_slli_shamt0 c_slli_shamt0 = true
same_hint c_srli_srai_shamt0 c_srli_srai_shamt0 = true
same_hint _ _ = false

is_hint : Option Hint → Hint → Bool
unfolding same_hint
is_hint none h = false
is_hint (some g) h = same_hint g h

row : (k imm6 r : ℕ) → Bool
unfolding drawable hint_encoding classify_hint intended is_hint
row k i r =
    not (drawable k i r)
    || (is_hint (classify_hint (hint_encoding k i r)) (intended k)
        && ltb (hint_encoding k i r) 65536)

table : all_below 10 (λ k. all_below 64 (λ i. all_below 32 (λ r. row k i r))) ≡ true
unfolding row all_below
table = refl

drawable_bounds : (k i r : ℕ) → drawable k i r ≡ true → (i < 64) × (r < 32)
unfolding drawable
drawable_bounds k i r h = ground arith

is_hint-eq : (o : Option Hint) (h : Hint) → is_hint o h ≡ true → o ≡ some h
unfolding is_hint
is_hint-eq none h e = absurd (cc)
is_hint-eq (some g) h e = ground arith

both : (d a b : Bool) → (not d || (a && b)) ≡ true → d ≡ true → (a ≡ true) × (b ≡ true)
both d a b h e = ground arith

below : (a b : ℕ) → ltb a b ≡ true → a < b
below a b h = ground arith

-- Whatever it draws, each of the ten choices of the generator writes a 16-bit encoding, and the
-- coverage report classifies it as the HINT that the choice is meant to be.
pub classify_hint-hint_encoding :
    (k imm6 r : ℕ)
    → k < 10
    → drawable k imm6 r ≡ true
    → (classify_hint (hint_encoding k imm6 r) ≡ some (intended k))
      × (hint_encoding k imm6 r < 2 ^ 16)
classify_hint-hint_encoding k i r hk d =
    let (hi, hr) = drawable_bounds k i r d in
    let at_k = all_below_sound 10 _ k table hk in
    let at_i = all_below_sound 64 _ i at_k hi in
    let ok : row k i r ≡ true = all_below_sound 32 _ r at_i hr in
    let split : (is_hint (classify_hint (hint_encoding k i r)) (intended k) ≡ true)
        × (ltb (hint_encoding k i r) 65536 ≡ true) =
      unfold row in
      both (drawable k i r) (is_hint (classify_hint (hint_encoding k i r)) (intended k))
        (ltb (hint_encoding k i r) 65536) ok d in
    (is_hint-eq (classify_hint (hint_encoding k i r)) (intended k) split.0, below _ _ split.1)
