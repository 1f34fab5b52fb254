-- ===== src/Spike/Generator/Sound/Whole.antt =====
-- The whole of a generated program: `Gen.program` of tools/spike_diff/gen.py.
use determinant.Base.{
  ℕ, zero, suc, ◌+◌, ◌*◌, ◌/◌, ◌<◌, ◌≡◌, refl, sym, subst, ◌≢◌, true, false, none, some, List, [],
  ◌∷◌, ◌++◌, append_assoc, arith, length, All, All-append,
}
use determinant.Spike.Generator.Lines.{data_middle, Line, la, csrw}
use determinant.Spike.Generator.Draws.{Gen, Stream, member}
use determinant.Spike.Generator.Rules.{
  Draws, Makes, Draws-bind, Makes-bind, Makes-draw, Draws-pure, Makes-pure, Draws-gets, Any, any,
  Draws-randrange, Draws-val,
}
use determinant.Spike.Generator.Lines.{written}
use determinant.Spike.Generator.Registers.{Free, IsRoomy-le}
use determinant.Spike.Generator.Program.{
  randomize, vals, Program, data_size, program, new_gen, generate,
}
use determinant.Spike.Generator.Alu.{li_lines}
use determinant.Spike.Generator.Mixes.{Weights, cats, total_weight}
use determinant.Spike.Generator.Sound.Reservation.{IsChunk-Spares, All-Spares_lines}
use determinant.Spike.Generator.Sound.Placing.{Labelled-trans, Makes-resolve}
use determinant.Spike.Generator.Sound.Making.{
  IsReady, Labelled-Spares, Labelled-Spares_back, Labelled-IsReady, All-IsSound-Spares,
}
use determinant.Spike.Generator.Sound.Looping.{Makes-body_items}
use determinant.Spike.Generator.Sound.Ending.{Draws-terminator}

Draws-randomize : {g : Gen} (n r : ℕ) → Draws g (randomize n r) Any
unfolding randomize
Draws-randomize zero r = Draws-pure [] (any _)
Draws-randomize (suc n) r =
    Draws-bind Draws-val λ v _. Draws-bind (Draws-randomize n (r + 1)) λ ls _. Draws-pure _ (any _)

Draws-vals : {g : Gen} (n : ℕ) → Draws g (vals n) (λ ws. length ws ≡ n)
unfolding vals
Draws-vals zero = Draws-pure [] refl
Draws-vals (suc n) =
    Draws-bind Draws-val
      λ v _. Draws-bind (Draws-vals n) λ ws e. Draws-pure (v ∷ ws) (omega (arith, e))

-- A program of that base register: its body sets every register, then the base register, which
-- nothing writes from there on; and there are words for all of the data.
pub record IsProgram (b : ℕ) (p : Program) : Type 0 where
  pub setup : List Line
  pub rest : List Line
  pub split : p.body ≡ setup ++ (la b data_middle ∷ rest)
  pub spares : All (λ l. All (λ r. r ≢ b) (written l)) rest
  pub filled : 4 * length p.words ≡ data_size

-- A line that writes no reserved register does not write the base register.
spares-base :
    (g : Gen) (ls : List Line)
    → member g.base g.reserved ≡ true
    → All (λ l. All (Free g) (written l)) ls
    → All (λ l. All (λ r. r ≢ g.base) (written l)) ls
spares-base g [] held h = tt
spares-base g (l ∷ ls) held (h, hs) = (others (written l) h, spares-base g ls held hs)
  where
    others : (rs : List ℕ) → All (Free g) rs → All (λ r. r ≢ g.base) rs
    others [] h = tt
    others (r ∷ rs) (free, h) = (
      (λ e. absurd (ground (arith, held, subst (λ k. member k g.reserved ≡ false) e free))),
      others rs h,
    )

program-split :
    {base b : ℕ} (prologue setup : List Line) (r : ℕ) (rest : List Line)
    → base ≡ b
    → prologue ++ (csrw "mscratch" r ∷ (setup ++ (la base data_middle ∷ rest)))
      ≡ (prologue ++ (csrw "mscratch" r ∷ setup)) ++ (la b data_middle ∷ rest)
program-split {b = b} prologue setup r rest e =
    rw e (sym (append_assoc prologue (csrw "mscratch" r ∷ setup) (la b data_middle ∷ rest)))

Makes-program :
    (w : Weights) (n : ℕ) (g : Gen)
    → 0 < total_weight w cats
    → IsReady 3 g
    → g.in_loop ≡ false
    → member g.base g.reserved ≡ true
    → Makes g (program w n) (λ p g'. IsProgram g.base p)
unfolding program
Makes-program w n g some_weight ready outside held = Makes-draw (Draws-randomize 31 1) λ prologue _.
    Makes-draw (Draws-randrange 1 32 (omega arith)) λ r _.
      Makes-draw (Draws-gets (λ g. g.base)) λ base e.
        Makes-bind (Makes-body_items w n g some_weight ready outside) λ items g1 (k1, sound).
          Makes-bind
            (Makes-resolve g1 items none (All-IsSound-Spares items (Labelled-Spares_back k1) sound))
            λ placed g2 (k2, chunk, aims).
              let k = Labelled-trans k1 k2 in
              Makes-draw
                (Draws-terminator (IsRoomy-le 0 3 (omega arith) (Labelled-IsReady k ready).room))
                λ ending last. Makes-draw (Draws-vals (data_size / 4)) λ words size.
                  Makes-pure _ (record {
                    setup = prologue ++ (csrw "mscratch" r ∷ li_lines base 0);
                    rest = placed ++ ending;
                    split = program-split prologue (li_lines base 0) r (placed ++ ending) e;
                    spares = spares-base g (placed ++ ending) held (
                        All-append _ placed ending
                          (IsChunk-Spares (Labelled-Spares k1) chunk).spares
                          (All-Spares_lines (Labelled-Spares k) ending last.spares));
                    filled = omega (arith, size);
                  })

new_gen-IsReady : (s : Stream) → IsReady 3 (new_gen s).0
unfolding new_gen member
new_gen-IsReady s = record {
  room = record { zero_free = ground arith; few = omega arith; few_unread = omega arith };
  quiet = refl;
}

new_gen-base : (s : Stream) → member (new_gen s).0.base (new_gen s).0.reserved ≡ true
unfolding new_gen member
new_gen-base s = ground arith

-- From every stream of draws a program of any number of items is made, for any mix that has a
-- weight: its body sets the base register, and writes it nowhere after that, and its words fill the
-- data.
pub generate-IsProgram :
    (w : Weights) (n : ℕ) (s : Stream)
    → 0 < total_weight w cats
    → (p : Program) × (generate w n s ≡ some p) × IsProgram (new_gen s).0.base p
unfolding generate new_gen
generate-IsProgram w n s some_weight =
    let made =
      Makes-program w n (new_gen s).0 some_weight (new_gen-IsReady s) refl (new_gen-base s) in
    let (p, g', s', e, sound) = made.at (new_gen s).1 in (p, rw (e, generate, new_gen) refl, sound)
