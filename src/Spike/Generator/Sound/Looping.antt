-- ===== src/Spike/Generator/Sound/Looping.antt =====
-- Loops and their counters: `Gen.g_loop` of tools/spike_diff/gen.py.
use determinant.Base.{
  ℕ, ◌+◌, ◌≤◌, ◌<◌, ◌≡◌, refl, sym, ap, ◌∙◌, subst, ◌≢◌, true, false, some, List, [], ◌∷◌, ◌++◌,
  arith, All,
}
use determinant.Base.Int.{neg}
use determinant.Spike.Generator.Lines.{
  to, Line, immediate, branch_zero, label, Label, Item, straight,
}
use determinant.Spike.Generator.Draws.{Gen, M, member, range_from}
use determinant.Spike.Generator.Rules.{
  Draws, Makes, Draws-bind, Makes-bind, Makes-draw, Draws-pure, Makes-pure, Draws-gets, Draws-if,
  Makes-if, Makes-Draws, Makes-modify, Draws-choice, Any, any, Draws-randrange, Draws-chance,
}
use determinant.Spike.Generator.Lines.{written, is_compressed, mnemonic_size, line_size, lines_size}
use determinant.Spike.Generator.Registers.{Free, IsRoomy, IsRoomy-le, Draws-tmp_from}
use determinant.Base.Text.{strip_prefix}
use determinant.Spike.Generator.Sound.{
  IsSound, IsChunk, IsChunk-append, IsChunk-cons, IsChunk-IsSound, IsChunk-rvc, Draws-alu_one,
  li_lines-IsChunk,
}
use determinant.Spike.Generator.Sound.Reservation.{Spares, IsChunk-Spares}
use determinant.Spike.Generator.Sound.Placing.{
  Labelled, Labelled-refl, Labelled-trans, Makes-next_label, Makes-resolve,
}
use determinant.Spike.Generator.Sound.Control.{discard-add}
use determinant.Spike.Generator.Mixes.{Weights, cats, total_weight}
use determinant.Spike.Generator.Blocks.{
  block, items_size, enter_loop, leave_loop, loop_branches, is_short, back_branch, new_loop, g_loop,
  body_items,
}
use determinant.Spike.Generator.Rules.{All-Any}
use determinant.Spike.Generator.Alu.{li_lines}
use determinant.Spike.Generator.Sound.Making.{
  IsReady, Adds, Labelled-Spares, Labelled-Spares_back, Labelled-IsReady, All-IsSound-Spares,
  Makes-block,
}

Draws-back_branch :
    {g : Gen} (c body_size : ℕ) (top : Label)
    → Draws g (back_branch c body_size top) (λ (ls, n). IsChunk g ls n)
unfolding back_branch loop_branches written line_size lines_size mnemonic_size is_compressed
    strip_prefix
Draws-back_branch {g} c body_size top =
    Draws-bind (Draws-if (is_short c body_size) (Draws-chance 50) (Draws-pure false (any false)))
      λ short _.
        Draws-if short (Draws-pure _ (IsChunk-rvc (branch_zero "c.bnez" c (to top)) tt refl)) (
          Draws-bind
            (Draws-choice {P = λ l. IsChunk g (l ∷ []) 4} (loop_branches c top)
              (
                record { spares = (tt, tt); sized = refl },
                (
                  record { spares = (tt, tt); sized = refl },
                  (
                    record { spares = (tt, tt); sized = refl },
                    (record { spares = (tt, tt); sized = refl }, tt),
                  ),
                ),
              )
              (omega arith))
            λ l chunk. Draws-pure _ chunk)

IsReady-enter_loop : {g : Gen} (n c : ℕ) → c ≢ 0 → IsReady (n + 1) g → IsReady n (enter_loop c g)
unfolding enter_loop member
IsReady-enter_loop n c ne r = record {
  room = record {
    zero_free = ground (arith, r.room.zero_free, ne);
    few = omega (arith, r.room.few);
    few_unread = omega (arith, r.room.few_unread);
  };
  quiet = r.quiet;
}

Spares-enter_loop : (c : ℕ) (g : Gen) → Spares (enter_loop c g) g
unfolding enter_loop member
Spares-enter_loop c g = record { spare = λ r h. ground (arith, h) }

-- Leaving the loop gives the counter back.
leave-enter_loop :
    (c : ℕ) (g h s : Gen)
    → Free g c
    → g.in_loop ≡ false
    → Labelled (enter_loop c g) h
    → s ≡ leave_loop c h
    → Labelled g s
unfolding leave_loop enter_loop
leave-enter_loop c g h s free outside k e = record {
  count = k.count;
  only =
      e
      ∙ ap (leave_loop c) k.only
      ∙ ap (λ rs. record g { reserved = rs; nlabel = k.count; in_loop = false })
          (discard-add c g.reserved free)
      ∙ ap (λ b. record g { nlabel = k.count; in_loop = b }) (sym outside);
}

-- The lines of a loop around its placed body.
loop-IsSound :
    {g : Gen} (c n m k : ℕ) (top cont : Label) (placed back : List Line)
    → Free g c
    → IsChunk g placed m
    → IsChunk g back k
    → IsSound g (
        straight
          (li_lines c n
            ++ (label top ∷ (placed ++ (label cont ∷ immediate "addi" c c (neg 1) ∷ back))))
          (8 + (m + 4) + k))
unfolding written line_size mnemonic_size is_compressed strip_prefix
loop-IsSound c n m k top cont placed back free body last =
    IsChunk-IsSound _
      (IsChunk-append (li_lines-IsChunk c n free) (
        IsChunk-cons (label top) 0 tt refl (
          IsChunk-append body (
            IsChunk-cons (label cont) 0 tt refl
              (IsChunk-cons (immediate "addi" c c (neg 1)) 4 (free, tt) refl last)))))
      (omega arith)

-- A loop whose body makes sound items is sound.
Makes-new_loop :
    (g : Gen) (body : ℕ → M (List Item))
    → IsReady 3 g
    → g.in_loop ≡ false
    → ((h : Gen) (k : ℕ)
        → IsReady 2 h
        → h.in_loop ≡ true
        → Makes h (body k) (λ its h'. Labelled h h' × All (IsSound h) its))
    → Makes g (new_loop body) (Adds g)
unfolding new_loop enter_loop
Makes-new_loop g body ready outside made =
    let now = IsRoomy-le 0 3 (omega arith) ready.room in
    Makes-draw
      (Draws-tmp_from now {P = Any} (range_from 3 29) 29 3 (λ r at. at) (omega arith)
        (All-Any (range_from 3 29)))
      λ c (free, ne, _). Makes-draw (Draws-randrange 1 7 (omega arith)) λ n _.
        Makes-bind (Makes-modify (enter_loop c)) λ _ g' e.
          Makes-draw (Draws-randrange 1 11 (omega arith)) λ k _.
            Makes-bind
              (subst
                (λ h.
                  Makes h (body k)
                    (λ its h'. Labelled (enter_loop c g) h' × All (IsSound (enter_loop c g)) its))
                (sym e) (made (enter_loop c g) k (IsReady-enter_loop 2 c ne ready) refl))
              λ items h (taken, sound). Makes-bind (Makes-modify (leave_loop c)) λ _ s e'.
                let left = leave-enter_loop c g h s free outside taken e' in
                Makes-bind Makes-next_label λ top s1 k1. Makes-bind Makes-next_label λ cont s2 k2.
                  let so_far = Labelled-trans left (Labelled-trans k1 k2) in
                  let ours = All-IsSound-Spares items (Spares-enter_loop c g) sound in
                  Makes-bind
                    (Makes-resolve s2 items (some cont)
                      (All-IsSound-Spares items (Labelled-Spares_back so_far) ours))
                    λ placed s3 (k3, chunk, aims).
                      Makes-draw (Draws-back_branch c (items_size items + 4) top)
                        λ (back, size) jumps.
                          let all = Labelled-trans so_far k3 in
                          Makes-pure _ (
                            all,
                            loop-IsSound c n (items_size items) size top cont placed back free
                                (IsChunk-Spares (Labelled-Spares so_far) chunk)
                                (IsChunk-Spares (Labelled-Spares all) jumps),
                          )

Labelled-in_loop : {g g' : Gen} → Labelled g g' → g'.in_loop ≡ g.in_loop
Labelled-in_loop k = ap (λ h. h.in_loop) k.only

-- Inside a loop, `g_loop` makes an ALU item.
Makes-g_loop_inside :
    (w : Weights) (g : Gen) → IsRoomy 0 g → g.in_loop ≡ true → Makes g (g_loop w 0) (Adds g)
unfolding g_loop
Makes-g_loop_inside w g room inside = Makes-draw (Draws-gets (λ g. g.in_loop)) λ b e.
    Makes-if b (λ _. Makes-Draws (Draws-alu_one room) (λ it s. (Labelled-refl g, s)))
      λ out. absurd (ground (arith, e, inside, out))

-- `g_loop` at the top level of a program, to depth 1.
pub Makes-g_loop :
    (w : Weights) (g : Gen)
    → 0 < total_weight w cats
    → IsReady 3 g
    → g.in_loop ≡ false
    → Makes g (g_loop w 1) (Adds g)
unfolding g_loop
Makes-g_loop w g some_weight ready outside = Makes-draw (Draws-gets (λ g. g.in_loop)) λ b e.
    Makes-if b (λ inside. absurd (ground (arith, e, inside, outside)))
      λ _. Makes-new_loop g (block w (g_loop w 0)) ready outside λ h k now inside.
        Makes-block w (g_loop w 0) h k some_weight now λ h' l.
          Makes-g_loop_inside w h' (IsRoomy-le 0 2 (omega arith) (Labelled-IsReady l now).room)
            (Labelled-in_loop l ∙ inside)

IsReady-le : {g : Gen} (m n : ℕ) → m ≤ n → IsReady n g → IsReady m g
IsReady-le m n h r = record { room = IsRoomy-le m n h r.room; quiet = r.quiet }

-- The items of a body are made whatever is drawn, for any length and any mix that has a weight:
-- their lines spare the reserved registers, their sizes are those of their lines, every branch can
-- jump over its own item, and of the attributes only the number of labels changes, where three more
-- registers can be reserved, no counter is held and no loop is open.
pub Makes-body_items :
    (w : Weights) (n : ℕ) (g : Gen)
    → 0 < total_weight w cats
    → IsReady 3 g
    → g.in_loop ≡ false
    → Makes g (body_items w n) (λ its g'. Labelled g g' × All (IsSound g) its)
unfolding body_items
Makes-body_items w n g some_weight ready outside =
    Makes-block w (g_loop w 1) g n some_weight (IsReady-le 2 3 (omega arith) ready)
      λ h l. Makes-g_loop w h some_weight (Labelled-IsReady l ready) (Labelled-in_loop l ∙ outside)
