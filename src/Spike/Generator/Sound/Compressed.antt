-- ===== src/Spike/Generator/Sound/Compressed.antt =====
-- What the compressed register items of tools/spike_diff/gen.py write, and their sizes.
use determinant.Base.{
  ℕ, ◌*◌, String, ◌≡◌, refl, inl, inr, Bool, true, false, ◌&&◌, ◌||◌, not, arith, leb, ◌==◌,
  if◌then◌else◌, Bool-cases, All,
}
use determinant.Base.Int.{pos}
use determinant.Spike.Generator.Lines.{
  Line, two, one, upper, adjust_sp, add_sp, plain, two_bytes, Item,
}
use determinant.Spike.Generator.Draws.{Gen, M, member, range_from, wreg, cw}
use determinant.Spike.Generator.Rules.{
  All-Any, Draws, Draws-bind, Draws-pure, Draws-gets, Draws-if, Draws-weaken, Draws-below, Any, any,
  Draws-choice-Any, Draws-Any, Draws-randrange, Draws-randint,
}
use determinant.Spike.Generator.Lines.{written, is_compressed, mnemonic_size, line_size}
use determinant.Spike.Generator.Registers.{
  Free, IsRoomy, Draws-tmp_from, Draws-cw, Draws-wreg, Draws-cr,
}
use determinant.Base.Text.{strip_prefix}
use determinant.Spike.Generator.Sound.{IsSound, IsChunk-IsSound, IsChunk-rvc, one_line-IsSound}
use determinant.Spike.Generator.Compressed.{
  compressed, non_zero, negatives, positives, low20, times16, c_addi, c_li, not_sp, c_lui,
  c_addi16sp, c_addi4spn, c_shift, c_andi, c_two, c_any, c_nop, c_alu_case, g_c_alu, hint_register,
  g_c_hint,
}

compressed-IsSound :
    {g : Gen} (l : Line) → All (Free g) (written l) → line_size l ≡ 2 → IsSound g (compressed l)
unfolding compressed
compressed-IsSound l free size = IsChunk-IsSound 2 (IsChunk-rvc l free size) refl

module _ {g : Gen} (room : IsRoomy 0 g) where
  Draws-c_addi : Draws g c_addi (IsSound g)
  unfolding c_addi non_zero negatives positives written line_size mnemonic_size is_compressed
      strip_prefix
  Draws-c_addi = Draws-bind (Draws-wreg room 0) λ rd free.
      Draws-bind (Draws-choice-Any non_zero (omega arith))
        λ i _. Draws-pure _ (compressed-IsSound (one "c.addi" rd i) (free, tt) refl)

  Draws-c_li : Draws g c_li (IsSound g)
  unfolding c_li written line_size mnemonic_size is_compressed strip_prefix
  Draws-c_li = Draws-bind (Draws-wreg room 0) λ rd free.
      Draws-bind (Draws-randint 32 31)
        λ i _. Draws-pure _ (compressed-IsSound (one "c.li" rd i) (free, tt) refl)

  Draws-c_lui : Draws g c_lui (IsSound g)
  unfolding c_lui not_sp range_from non_zero negatives positives written line_size mnemonic_size
      is_compressed strip_prefix
  Draws-c_lui =
      Draws-bind
        (Draws-tmp_from room {P = Any} not_sp 29 3 (λ r at. inr at) (omega arith) (All-Any not_sp))
        λ rd (free, _, _).
          Draws-bind (Draws-choice-Any non_zero (omega arith))
            λ i _. Draws-pure _ (compressed-IsSound (upper "c.lui" rd (low20 i)) (free, tt) refl)

  Draws-c_addi16sp : Free g 2 → Draws g c_addi16sp (IsSound g)
  unfolding c_addi16sp non_zero negatives positives written line_size
  Draws-c_addi16sp free =
      Draws-bind (Draws-choice-Any non_zero (omega arith))
        λ i _. Draws-pure _ (compressed-IsSound (adjust_sp (times16 i)) (free, tt) refl)

  Draws-c_addi4spn : Draws g c_addi4spn (IsSound g)
  unfolding c_addi4spn written line_size
  Draws-c_addi4spn = Draws-bind (Draws-cw room) λ rd (free, _).
      Draws-bind (Draws-randrange 1 256 (omega arith))
        λ n _. Draws-pure _ (compressed-IsSound (add_sp rd (4 * n)) (free, tt) refl)

  Draws-c_shift :
      (op : String) (target : M ℕ)
      → is_compressed op ≡ true
      → Draws g target (Free g)
      → Draws g (c_shift op target) (IsSound g)
  unfolding c_shift written line_size mnemonic_size
  Draws-c_shift op target short d = Draws-bind d λ rd free.
      Draws-bind (Draws-randrange 1 32 (omega arith)) λ n _.
        Draws-pure _ (compressed-IsSound (one op rd (pos n)) (free, tt) (ground (arith, short)))

  Draws-c_andi : Draws g c_andi (IsSound g)
  unfolding c_andi written line_size mnemonic_size is_compressed strip_prefix
  Draws-c_andi = Draws-bind (Draws-cw room) λ rd (free, _).
      Draws-bind (Draws-randint 32 31)
        λ i _. Draws-pure _ (compressed-IsSound (one "c.andi" rd i) (free, tt) refl)

  Draws-c_two : (op : String) → is_compressed op ≡ true → Draws g (c_two op) (IsSound g)
  unfolding c_two written line_size mnemonic_size
  Draws-c_two op short = Draws-bind (Draws-cw room) λ rd (free, _).
      Draws-bind (Draws-cr room)
        λ a _. Draws-pure _ (compressed-IsSound (two op rd a) (free, tt) (ground (arith, short)))

  Draws-c_any : (op : String) → is_compressed op ≡ true → Draws g (c_any op) (IsSound g)
  unfolding c_any written line_size mnemonic_size
  Draws-c_any op short = Draws-bind (Draws-wreg room 0) λ rd free.
      Draws-bind (Draws-randrange 1 32 (omega arith))
        λ a _. Draws-pure _ (compressed-IsSound (two op rd a) (free, tt) (ground (arith, short)))

  Draws-c_nop : Draws g c_nop (IsSound g)
  unfolding c_nop written line_size mnemonic_size is_compressed strip_prefix
  Draws-c_nop = Draws-pure _ (compressed-IsSound (plain "c.nop") tt refl)

  Draws-Free-cw : Draws g cw (Free g)
  Draws-Free-cw = Draws-weaken (Draws-cw room) (λ t (free, _). free)

  -- Without the stack pointer, the choice 3 falls through.
  Draws-sp_case :
      (k : ℕ) {m : M Item}
      → Draws g m (IsSound g)
      → Draws g (if (k == 3) && not (member 2 g.reserved) then c_addi16sp else m) (IsSound g)
  Draws-sp_case k d = elim (Bool-cases (member 2 g.reserved)) [
    | inl taken ↦ rw taken (Draws-no (k == 3) d)
    | inr free ↦ rw free (Draws-if ((k == 3) && true) (Draws-c_addi16sp free) d)
  ]
    where
      Draws-no :
          (b : Bool) {m : M Item}
          → Draws g m (IsSound g)
          → Draws g (if b && false then c_addi16sp else m) (IsSound g)
      Draws-no true d = d
      Draws-no false d = d

  Draws-c_alu_case : (k : ℕ) → Draws g (c_alu_case k (member 2 g.reserved)) (IsSound g)
  unfolding c_alu_case is_compressed strip_prefix
  Draws-c_alu_case k = Draws-if (k == 0) Draws-c_addi (
      Draws-if (k == 1) Draws-c_li (
        Draws-if (k == 2) Draws-c_lui (
          Draws-sp_case k (
            Draws-if (k == 4) Draws-c_addi4spn (
              Draws-if (k == 5) (Draws-c_shift "c.srli" cw refl Draws-Free-cw) (
                Draws-if (k == 6) (Draws-c_shift "c.srai" cw refl Draws-Free-cw) (
                  Draws-if (k == 7) Draws-c_andi (
                    Draws-if (k == 8) (Draws-c_two "c.sub" refl) (
                      Draws-if (k == 9) (Draws-c_two "c.xor" refl) (
                        Draws-if (k == 10) (Draws-c_two "c.or" refl) (
                          Draws-if (k == 11) (Draws-c_two "c.and" refl) (
                            Draws-if (k == 12)
                              (Draws-c_shift "c.slli" (wreg 0) refl (Draws-wreg room 0))
                              (Draws-if (k == 13) (Draws-c_any "c.mv" refl) (
                                Draws-if (k == 14) (Draws-c_any "c.add" refl)
                                  Draws-c_nop))))))))))))))

  pub Draws-g_c_alu : Draws g g_c_alu (IsSound g)
  unfolding g_c_alu
  Draws-g_c_alu =
      Draws-bind (Draws-below 16 (omega arith)) λ k _.
        Draws-bind (Draws-gets (λ g. member 2 g.reserved)) λ taken e. rw e (Draws-c_alu_case k)

  Draws-hint_register : (k : ℕ) → Draws g (hint_register k) Any
  unfolding hint_register
  Draws-hint_register k = Draws-if ((k == 1) || (k == 7)) (Draws-Any (Draws-wreg room 0)) (
      Draws-if ((k == 4) || (k == 5)) (Draws-Any (Draws-randrange 1 32 (omega arith))) (
        Draws-if (k == 6) (Draws-Any (Draws-below 32 (omega arith)))
          (Draws-if (leb 8 k) (Draws-Any (Draws-cw room)) (Draws-pure 0 (any 0)))))

  pub Draws-g_c_hint : Draws g g_c_hint (IsSound g)
  unfolding g_c_hint written line_size
  Draws-g_c_hint = Draws-bind (Draws-below 10 (omega arith)) λ k _.
      Draws-bind (Draws-below 64 (omega arith)) λ imm6 _.
        Draws-bind (Draws-hint_register k)
          λ r _. Draws-pure _ (one_line-IsSound (two_bytes _) 2 tt refl)
