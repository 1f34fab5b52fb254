-- ===== src/Spike/Generator/Sound/Control.antt =====
-- What the jumps, branches, fences and CSR items of tools/spike_diff/gen.py write, and their sizes.
use determinant.Base.{
  ℕ, zero, suc, ◌+◌, String, ◌≡◌, refl, sym, ap, ◌∙◌, subst, ◌≢◌, Bool, true, false, List, [], ◌∷◌,
  arith, if◌then◌else◌, All,
}
use determinant.Base.Int.{pos}
use determinant.Spike.Generator.Lines.{
  hole, reg, imm, three, immediate, jump, jump_register, csr, plain, straight,
}
use determinant.Spike.Generator.Draws.{Gen, pure, chance, member, without}
use determinant.Spike.Generator.Rules.{
  Draws, Makes, Draws-bind, Makes-bind, Makes-draw, Draws-pure, Makes-pure, Draws-gets, Draws-if,
  Draws-weaken, Makes-modify, Draws-below, Draws-choice, Any, any, Draws-choice-Any, every,
  Draws-choice_test, Draws-chance, Draws-imm12,
}
use determinant.Spike.Generator.Lines.{written, is_compressed, mnemonic_size, line_size, lines_size}
use determinant.Spike.Generator.Registers.{
  Free, IsRoomy, IsRoomy-le, Draws-tmp, Draws-wreg, Draws-rreg, Draws-cr,
}
use determinant.Base.Text.{strip_prefix}
use determinant.Spike.Generator.Sound.{
  IsSound, IsChunk, IsChunk-append, IsChunk-nil, IsChunk-cons, IsChunk-IsSound, one_line-IsSound,
  Draws-alu_one,
}
use determinant.Spike.Generator.Sound.Reservation.{
  Spares, IsChunk-Spares, Draws-same, IsSound-IsChunk,
}
use determinant.Spike.Generator.Control.{
  branches, g_branch, g_c_branch, g_jal, without_link, g_c_jump, g_jalr, g_c_jr, csr_ops,
  csr_source, g_csr_scratch, counters, counters_h, counter_reads, counter_high, hold, let_go,
  between_reads, counter_sequence, counter_delta, g_csr_counter, g_fence,
}

mnemonic_size-short : (op : String) → is_compressed op ≡ true → mnemonic_size op ≡ 2
unfolding mnemonic_size
mnemonic_size-short op h = ground (arith, h)

module _ {g : Gen} (room : IsRoomy 0 g) where
  pub Draws-g_branch : Draws g g_branch (IsSound g)
  unfolding g_branch written line_size lines_size
  Draws-g_branch = Draws-bind (Draws-choice-Any branches (omega arith)) λ op _.
      Draws-bind (Draws-rreg room) λ a _. Draws-bind (Draws-chance 15) λ same _.
        Draws-bind (Draws-if same (Draws-pure a (any a)) (Draws-rreg room))
          λ b _. Draws-pure _ (record { spares = (tt, tt); sized = refl; reach = λ b. omega arith })

  pub Draws-g_c_branch : Draws g g_c_branch (IsSound g)
  unfolding g_c_branch every is_compressed strip_prefix written line_size lines_size mnemonic_size
  Draws-g_c_branch =
      Draws-bind (Draws-choice_test is_compressed ("c.beqz" ∷ "c.bnez" ∷ []) refl (omega arith))
        λ op h. Draws-bind (Draws-cr room) λ a _. Draws-pure _ (record {
          spares = (tt, (tt, (tt, tt)));
          sized = omega (arith, mnemonic_size-short op h);
          reach = λ b. omega arith;
        })

  pub Draws-g_jal : Draws g g_jal (IsSound g)
  unfolding g_jal written line_size lines_size
  Draws-g_jal = Draws-bind (Draws-wreg room 30) λ rd free.
      Draws-pure _ (record { spares = ((free, tt), tt); sized = refl; reach = λ b. omega arith })

  Draws-chosen_link :
      (taken : Bool)
      → taken ≡ member 1 g.reserved
      → Draws g (if taken then pure true else chance 50) (λ b. b ≡ false → Free g 1)
  Draws-chosen_link true e = Draws-pure true (λ f. absurd (ground (arith, f)))
  Draws-chosen_link false e = Draws-weaken (Draws-chance 50) (λ b _ _. sym e)

  -- The jump that links is drawn only where x1 is not reserved.
  Draws-without_link : Draws g without_link (λ b. b ≡ false → Free g 1)
  unfolding without_link
  Draws-without_link =
      Draws-bind (Draws-gets (λ g. member 1 g.reserved)) λ taken e. Draws-chosen_link taken e

  jump-spares :
      (b : Bool)
      → (b ≡ false → Free g 1)
      → All (Free g) (written (jump (if b then "c.j" else "c.jal") hole))
  unfolding written
  jump-spares true link = tt
  jump-spares false link = (link refl, tt)

  jump_register-spares :
      (t : ℕ) (b : Bool)
      → (b ≡ false → Free g 1)
      → All (Free g) (written (jump_register (if b then "c.jr" else "c.jalr") t))
  unfolding written
  jump_register-spares t true link = tt
  jump_register-spares t false link = (link refl, tt)

  pub Draws-g_c_jump : Draws g g_c_jump (IsSound g)
  unfolding g_c_jump written line_size lines_size
  Draws-g_c_jump = Draws-bind Draws-without_link λ plain_jump link. Draws-pure _ (record {
    spares = (tt, (jump-spares plain_jump link, (tt, tt)));
    sized = refl;
    reach = λ b. omega arith;
  })

  pub Draws-g_jalr : Draws g g_jalr (IsSound g)
  unfolding g_jalr written line_size lines_size
  Draws-g_jalr = Draws-bind (Draws-tmp room) λ t (free, _). Draws-bind Draws-imm12 λ v _.
      Draws-bind (Draws-choice-Any _ (omega arith)) λ i _.
        Draws-bind (Draws-choice-Any _ (omega arith)) λ odd _.
          Draws-bind (Draws-wreg room 25) λ rd spare. Draws-pure _ (record {
            spares = ((free, tt), ((spare, tt), tt));
            sized = refl;
            reach = λ b. omega arith;
          })

  pub Draws-g_c_jr : Draws g g_c_jr (IsSound g)
  unfolding g_c_jr written line_size lines_size
  Draws-g_c_jr = Draws-bind (Draws-tmp room) λ t (free, _).
      Draws-bind Draws-without_link λ plain_jump link. Draws-pure _ (record {
        spares = ((free, tt), (tt, (jump_register-spares t plain_jump link, (tt, tt))));
        sized = refl;
        reach = λ b. omega arith;
      })

  Draws-csr_source : (b : Bool) → Draws g (csr_source b) Any
  unfolding csr_source
  Draws-csr_source b =
      Draws-if b (Draws-bind (Draws-below 32 (omega arith)) λ k _. Draws-pure (imm k) (any _))
        (Draws-bind (Draws-rreg room) λ r _. Draws-pure (reg r) (any _))

  pub Draws-g_csr_scratch : Draws g g_csr_scratch (IsSound g)
  unfolding g_csr_scratch written line_size lines_size
  Draws-g_csr_scratch = Draws-bind (Draws-choice-Any csr_ops (omega arith)) λ (op, is_immediate) _.
      Draws-bind (Draws-csr_source is_immediate) λ source _.
        Draws-bind (Draws-wreg room 20) λ rd free. Draws-pure _ (record {
          spares = ((free, tt), tt);
          sized = refl;
          reach = λ b. absurd (ground (arith, b));
        })

  fence : (op : String) → mnemonic_size op ≡ 4 → IsSound g (straight (plain op ∷ []) 4)
  unfolding written line_size
  fence op size = one_line-IsSound (plain op) 4 tt size

  pub Draws-g_fence : Draws g g_fence (IsSound g)
  unfolding g_fence written line_size lines_size mnemonic_size is_compressed strip_prefix
  Draws-g_fence =
      Draws-bind
        (Draws-choice {P = λ l. IsSound g (straight (l ∷ []) 4)} _
          (
            fence "fence" refl,
            (
              fence "fence rw, rw" refl,
              (
                fence "fence.tso" refl,
                (
                  fence "fence i, o" refl,
                  (
                    fence "fence.i" refl,
                    (
                      record {
                        spares = (tt, tt);
                        sized = refl;
                        reach = λ b. absurd (ground (arith, b));
                      },
                      (fence "fence r, w" refl, tt),
                    ),
                  ),
                ),
              ),
            ),
          )
          (omega arith))
        λ l sound. Draws-pure _ sound

  Draws-counter_high : Draws g counter_high (IsSound g)
  unfolding counter_high written line_size lines_size
  Draws-counter_high = Draws-bind (Draws-wreg room 6) λ rd free.
      Draws-bind (Draws-choice-Any counters_h (omega arith)) λ name _. Draws-pure _ (record {
        spares = ((free, tt), tt);
        sized = refl;
        reach = λ b. absurd (ground (arith, b));
      })

  Draws-between_reads : (n : ℕ) → Draws g (between_reads n) (λ (ls, size). IsChunk g ls size)
  unfolding between_reads
  Draws-between_reads zero = Draws-pure _ IsChunk-nil
  Draws-between_reads (suc n) = Draws-bind (Draws-alu_one room) λ it s.
      Draws-bind (Draws-between_reads n)
        λ (ls, size) c. Draws-pure _ (IsChunk-append (IsSound-IsChunk it s) c)

IsRoomy-hold : {g : Gen} (n a : ℕ) → a ≢ 0 → IsRoomy (n + 1) g → IsRoomy n (hold a g)
unfolding hold member
IsRoomy-hold n a ne room = record {
  zero_free = ground (arith, room.zero_free, ne);
  few = omega (arith, room.few);
  few_unread = omega (arith, room.few_unread);
}

Spares-hold : (a : ℕ) (g : Gen) → Spares (hold a g) g
unfolding hold member
Spares-hold a g = record { spare = λ r h. ground (arith, h) }

without-one : (a : ℕ) (rs : List ℕ) → member a rs ≡ false → without (a ∷ []) rs ≡ rs
unfolding without member
without-one a [] new = refl
without-one a (x ∷ rs) new = ground (arith, new, without-one a rs (ground (arith, new)))

pub discard-add : (a : ℕ) (rs : List ℕ) → member a rs ≡ false → without (a ∷ []) (a ∷ rs) ≡ rs
unfolding without member
discard-add a rs new = ground (arith, new, without-one a rs new)

let_go-hold : (a : ℕ) (g : Gen) → Free g a → member a g.noread ≡ false → let_go a (hold a g) ≡ g
unfolding let_go hold
let_go-hold a g free unread =
    ap (λ rs. record g { reserved = rs; noread = without (a ∷ []) (a ∷ g.noread) })
      (discard-add a g.reserved free)
    ∙ ap (λ us. record g { noread = us }) (discard-add a g.noread unread)

-- Between the two reads of a counter the first result is neither written nor read.
Makes-counter_sequence :
    (g : Gen) (ctr : String) (a : ℕ)
    → Free g a
    → member a g.noread ≡ false
    → IsRoomy 0 (hold a g)
    → Makes (hold a g) (counter_sequence ctr a) (λ it h. (h ≡ g) × IsSound g it)
unfolding counter_sequence written line_size mnemonic_size is_compressed strip_prefix
Makes-counter_sequence g ctr a free unread room =
    let sp = Spares-hold a g in
    Makes-draw (Draws-tmp room) λ b (spare, _).
      Makes-draw (Draws-choice-Any counter_reads (omega arith)) λ (op, source) _.
        Makes-draw (Draws-below 4 (omega arith)) λ n _.
          Makes-draw (Draws-between_reads room n) λ (ls, size) c.
            Makes-bind (Makes-modify (let_go a)) λ _ h e.
              Makes-draw (Draws-choice-Any counter_reads (omega arith)) λ (op', source') _.
                let free_b = sp.spare b spare in
                Makes-pure _ (
                  e ∙ let_go-hold a g free unread,
                  IsChunk-IsSound _
                      (IsChunk-cons (csr op a ctr source) 4 (free, tt) refl
                        (IsChunk-append (IsChunk-Spares sp c) (
                          IsChunk-cons (csr op' b ctr source') 4 (free_b, tt) refl
                            (IsChunk-cons (three "sub" b b a) 4 (free_b, tt) refl
                              (IsChunk-cons (immediate "addi" a b (pos 0)) 4 (free, tt) refl
                                IsChunk-nil)))))
                      (omega arith),
                )

Draws-counter_delta : {g : Gen} → IsRoomy 1 g → g.noread ≡ [] → Draws g counter_delta (IsSound g)
unfolding counter_delta member
Draws-counter_delta {g} room quiet =
    let now = IsRoomy-le 0 1 (omega arith) room in
    Draws-same (
      Makes-draw (Draws-choice-Any counters (omega arith)) λ ctr _.
        Makes-draw (Draws-tmp now) λ a (free, ne). Makes-bind (Makes-modify (hold a)) λ _ g' e.
          subst (λ h. Makes h (counter_sequence ctr a) (λ it k. (k ≡ g) × IsSound g it)) (sym e)
            (Makes-counter_sequence g ctr a free (rw quiet refl) (IsRoomy-hold 0 a ne room)))

-- A read of a counter is always made, gives back the register that it holds, writes no reserved
-- register, and has the size of its lines, where one more register can be reserved and no counter
-- is held.
pub Draws-g_csr_counter :
    {g : Gen} → IsRoomy 1 g → g.noread ≡ [] → Draws g g_csr_counter (IsSound g)
unfolding g_csr_counter
Draws-g_csr_counter room quiet = Draws-bind (Draws-chance 20) λ high _.
    Draws-if high (Draws-counter_high (IsRoomy-le 0 1 (omega arith) room))
      (Draws-counter_delta room quiet)
