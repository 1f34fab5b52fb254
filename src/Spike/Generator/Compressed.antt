-- ===== src/Spike/Generator/Compressed.antt =====
-- The compressed register items of tools/spike_diff/gen.py: `g_c_alu` and `g_c_hint`.
use determinant.Base.{
  ℕ, zero, suc, ◌+◌, ◌-◌, ◌*◌, ◌%◌, ◌^◌, String, Bool, ◌&&◌, ◌||◌, not, List, [], ◌∷◌, ◌++◌, leb,
  ◌==◌, if◌then◌else◌,
}
use determinant.Base.Int.{ℤ, pos, negsuc}
use determinant.Spike.Generator.Lines.{
  Line, two, one, upper, adjust_sp, add_sp, plain, two_bytes, Item, straight, rvc,
}
use determinant.Spike.Generator.Draws.{
  M, ◌>>=◌, pure, gets, below, choice, randrange, randint, member, range_from, tmp_from, wreg, cw,
  cr,
}
use determinant.Spike.Hints.{hint_encoding}

-- `Item(rvc(line), 2)`
unfoldable pub compressed : Line → Item
compressed l = straight (rvc l) 2

-- `range(-32, 32)` without 0.
unfoldable pub negatives : ℕ → List ℤ
negatives zero = []
negatives (suc n) = negsuc n ∷ negatives n

unfoldable pub positives : ℕ → ℕ → List ℤ
positives a zero = []
positives a (suc n) = pos a ∷ positives (a + 1) n

unfoldable pub non_zero : List ℤ
non_zero = negatives 32 ++ positives 1 31

-- `i & 0xFFFFF`, and `16 * i`.
unfoldable pub low20 : ℤ → ℕ
low20 (pos n) = n % 2 ^ 20
low20 (negsuc n) = 2 ^ 20 - 1 - n % 2 ^ 20

unfoldable pub times16 : ℤ → ℤ
times16 (pos n) = pos (16 * n)
times16 (negsuc n) = negsuc (16 * n + 15)

unfoldable pub c_addi : M Item
c_addi = do rd ← wreg 0; i ← choice non_zero; pure (compressed (one "c.addi" rd i))

unfoldable pub c_li : M Item
c_li = do rd ← wreg 0; i ← randint 32 31; pure (compressed (one "c.li" rd i))

-- `[r for r in range(1, 32) if r != 2]`
unfoldable pub not_sp : List ℕ
not_sp = 1 ∷ range_from 3 29

unfoldable pub c_lui : M Item
c_lui = do rd ← tmp_from not_sp; i ← choice non_zero; pure (compressed (upper "c.lui" rd (low20 i)))

unfoldable pub c_addi16sp : M Item
c_addi16sp = do i ← choice non_zero; pure (compressed (adjust_sp (times16 i)))

unfoldable pub c_addi4spn : M Item
c_addi4spn = do rd ← cw; n ← randrange 1 256; pure (compressed (add_sp rd (4 * n)))

unfoldable pub c_shift : String → M ℕ → M Item
c_shift op target = do rd ← target; n ← randrange 1 32; pure (compressed (one op rd (pos n)))

unfoldable pub c_andi : M Item
c_andi = do rd ← cw; i ← randint 32 31; pure (compressed (one "c.andi" rd i))

unfoldable pub c_two : String → M Item
c_two op = do rd ← cw; a ← cr; pure (compressed (two op rd a))

-- `c.mv` and `c.add` take any source register but x0.
unfoldable pub c_any : String → M Item
c_any op = do rd ← wreg 0; a ← randrange 1 32; pure (compressed (two op rd a))

unfoldable pub c_nop : M Item
c_nop = pure (compressed (plain "c.nop"))

-- The choices k of `g_c_alu`; a choice of 3 without the stack pointer falls through to the last.
unfoldable pub c_alu_case : (k : ℕ) → (sp_reserved : Bool) → M Item
c_alu_case k sp_reserved =
    if k == 0
    then c_addi
    else if k == 1
    then c_li
    else if k == 2
    then c_lui
    else if (k == 3) && not sp_reserved
    then c_addi16sp
    else if k == 4
    then c_addi4spn
    else if k == 5
    then c_shift "c.srli" cw
    else if k == 6
    then c_shift "c.srai" cw
    else if k == 7
    then c_andi
    else if k == 8
    then c_two "c.sub"
    else if k == 9
    then c_two "c.xor"
    else if k == 10
    then c_two "c.or"
    else if k == 11
    then c_two "c.and"
    else if k == 12
    then c_shift "c.slli" (wreg 0)
    else if k == 13
    then c_any "c.mv"
    else if k == 14
    then c_any "c.add"
    else c_nop

unfoldable pub g_c_alu : M Item
g_c_alu = do k ← below 16; sp_reserved ← gets (λ g. member 2 g.reserved); c_alu_case k sp_reserved

-- What `g_c_hint` draws for the choice k besides `imm6`: a register or an amount.
unfoldable pub hint_register : ℕ → M ℕ
hint_register k =
    if (k == 1) || (k == 7)
    then wreg 0
    else if (k == 4) || (k == 5)
    then randrange 1 32
    else if k == 6
    then below 32
    else if leb 8 k
    then cw
    else pure 0

unfoldable pub g_c_hint : M Item
g_c_hint = do
  k ← below 10
  imm6 ← below 64
  r ← hint_register k
  pure (straight (two_bytes (hint_encoding k imm6 r) ∷ []) 2)
