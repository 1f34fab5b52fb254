-- ===== src/Spike/Generator/Sound/Reservation.antt =====
-- The LR/SC sequences of tools/spike_diff/gen.py and the registers that they reserve.
use determinant.Base.{
  ℕ, zero, suc, ◌+◌, ◌≡◌, refl, sym, ap, ◌∙◌, subst, ◌≢◌, Bool, false, some, List, [], ◌∷◌, arith,
  All,
}
use determinant.Spike.Generator.Lines.{Line, amo, lr, Item}
use determinant.Spike.Generator.Draws.{Gen, M, ◌>>=◌, ◌>>◌, pure, modify, member, without, tmp}
use determinant.Spike.Generator.Rules.{
  Draws, Makes, Draws-bind, Makes-bind, Makes-draw, Draws-pure, Makes-pure, Draws-if, Makes-if,
  Makes-modify, Draws-below, Draws-choice-Any, Draws-chance,
}
use determinant.Spike.Generator.Lines.{written, line_size}
use determinant.Spike.Generator.Registers.{
  Free, IsRoomy, IsRoomy-le, Draws-tmp, Draws-wreg, Draws-rreg,
}
use determinant.Spike.Generator.Sound.{
  IsSound, IsChunk, IsChunk-append, IsChunk-nil, IsChunk-cons, IsChunk-IsSound, Draws-alu_one,
}
use determinant.Spike.Generator.Memory.{
  addr, suffixes, aqrl, reserve, release, window, sc_address, first_sc, sc_lines, lr_sequence,
  g_lrsc,
}
use determinant.Spike.Generator.Sound.Memory.{Draws-addr, Draws-g_load}

-- What is free while more registers are reserved was free before.
pub record Spares (g' g : Gen) : Type 0 where
  pub spare : (r : ℕ) → Free g' r → Free g r

Spares-reserve : (t : ℕ) (g : Gen) → Spares (reserve t g) g
unfolding reserve member
Spares-reserve t g = record { spare = λ r h. ground (arith, h) }

Spares-trans : {g g' g'' : Gen} → Spares g'' g' → Spares g' g → Spares g'' g
Spares-trans a b = record { spare = λ r h. b.spare r (a.spare r h) }

pub All-Spares : {g g' : Gen} → Spares g' g → (rs : List ℕ) → All (Free g') rs → All (Free g) rs
All-Spares sp [] h = tt
All-Spares sp (r ∷ rs) (free, h) = (sp.spare r free, All-Spares sp rs h)

pub All-Spares_lines :
    {g g' : Gen}
    → Spares g' g
    → (ls : List Line) → All (λ l. All (Free g') (written l)) ls
    → All (λ l. All (Free g) (written l)) ls
All-Spares_lines sp [] h = tt
All-Spares_lines sp (l ∷ ls) (free, h) = (All-Spares sp (written l) free, All-Spares_lines sp ls h)

pub IsChunk-Spares :
    {g g' : Gen} {ls : List Line} {n : ℕ} → Spares g' g → IsChunk g' ls n → IsChunk g ls n
IsChunk-Spares {ls = ls} sp c = record { spares = All-Spares_lines sp ls c.spares; sized = c.sized }

pub IsRoomy-reserve : {g : Gen} (n t : ℕ) → t ≢ 0 → IsRoomy (n + 1) g → IsRoomy n (reserve t g)
unfolding reserve member
IsRoomy-reserve n t ne room = record {
  zero_free = ground (arith, room.zero_free, ne);
  few = omega (arith, room.few);
  few_unread = omega (arith, room.few_unread);
}

pub without-fresh :
    (t u : ℕ) (rs : List ℕ)
    → member t rs ≡ false
    → member u rs ≡ false
    → without (t ∷ u ∷ []) rs ≡ rs
unfolding without member
without-fresh t u [] ht hu = refl
without-fresh t u (x ∷ rs) ht hu =
    ground (arith, ht, hu, without-fresh t u rs (ground (arith, ht)) (ground (arith, hu)))

-- A state that leaves nothing changed.
pub Draws-same :
    {A : Type 0} {g : Gen} {m : M A} {P : A → Type 0}
    → Makes g m (λ a g'. (g' ≡ g) × P a)
    → Draws g m P
Draws-same {g = g} {m} d = record {
  at = λ s.
      let (a, g', s', e, (same, p)) = d.at s in
      (a, s', subst (λ h. m g s ≡ some (a, h, s')) same e, p);
}

release-reserve : (t : ℕ) (g : Gen) → Free g t → release t t (reserve t g) ≡ g
unfolding release reserve without member
release-reserve t g free =
    ap (λ rs. record g { reserved = rs })
      (ground (arith, free, without-fresh t t g.reserved free free))

release-reserve_two :
    (t r : ℕ) (g : Gen) → Free g t → Free g r → release t r (reserve r (reserve t g)) ≡ g
unfolding release reserve without member
release-reserve_two t r g ht hr =
    ap (λ rs. record g { reserved = rs })
      (ground (arith, ht, hr, without-fresh t r g.reserved ht hr))

pub IsSound-IsChunk : {g : Gen} (it : Item) → IsSound g it → IsChunk g it.lines it.size
IsSound-IsChunk it s = record { spares = s.spares; sized = s.sized }

-- The instructions between LR and SC.
Draws-window :
    {g : Gen} → IsRoomy 0 g → (n : ℕ) → Draws g (window n) (λ (ls, size). IsChunk g ls size)
unfolding window
Draws-window room zero = Draws-pure _ IsChunk-nil
Draws-window room (suc n) = Draws-bind (Draws-chance 25) λ is_load _.
    Draws-bind (Draws-if is_load (Draws-g_load room) (Draws-alu_one room)) λ it s.
      Draws-bind (Draws-window room n)
        λ (ls, size) c. Draws-pure _ (IsChunk-append (IsSound-IsChunk it s) c)

-- What `sc_address` leaves behind: lines that are sound, and reserved registers that can be given
-- back.
record IsScAddress (g : Gen) (t r : ℕ) (ls : List Line) (n : ℕ) (g' : Gen) : Type 0 where
  pub chunk : IsChunk g ls n
  pub room : IsRoomy 0 g'
  pub spares : Spares g' g
  pub back : release t r g' ≡ g

module _ (g : Gen) (t : ℕ) (free : Free g t) (room : IsRoomy 1 (reserve t g)) where
  Makes-other :
      Makes
        (reserve t g)
        (do r ← tmp; lines ← addr r 0x3FC; modify (reserve r); pure (r, lines, 8))
        (λ (r, ls, n) g'. IsScAddress g t r ls n g')
  Makes-other =
      let now = IsRoomy-le 0 1 (omega arith) room in
      let sp = Spares-reserve t g in
      Makes-draw (Draws-tmp now) λ r (spare, ne). Makes-draw (Draws-addr now r 0x3FC spare) λ ls c.
        Makes-bind (Makes-modify (reserve r)) λ _ g' e.
          Makes-pure (r, ls, 8)
            (subst (IsScAddress g t r ls 8) (sym e) (record {
              chunk = IsChunk-Spares sp c;
              room = IsRoomy-reserve 0 r ne room;
              spares = Spares-trans (Spares-reserve r (reserve t g)) sp;
              back = release-reserve_two t r g free (sp.spare r spare);
            }))

  Makes-sc_address : Makes (reserve t g) (sc_address t) (λ (r, ls, n) g'. IsScAddress g t r ls n g')
  unfolding sc_address
  Makes-sc_address = Makes-draw (Draws-chance 25) λ other _.
      Makes-if other (λ _. Makes-other)
        λ _.
          Makes-pure (t, [], 0)
            (record {
              chunk = IsChunk-nil;
              room = IsRoomy-le 0 1 (omega arith) room;
              spares = Spares-reserve t g;
              back = release-reserve t g free;
            })

module _ {g : Gen} (t r : ℕ) (ls : List Line) (n : ℕ) (g' : Gen)
    (a : IsScAddress g t r ls n g') where
  Draws-first_sc :
      {h : Gen}
      → IsRoomy 0 h
      → Draws h (first_sc r) (λ l. All (Free h) (written l) × (line_size l ≡ 4))
  unfolding first_sc aqrl suffixes written line_size
  Draws-first_sc now = Draws-bind (Draws-choice-Any suffixes (omega arith)) λ suffix _.
      Draws-bind (Draws-wreg now 6)
        λ rd spare. Draws-bind (Draws-rreg now) λ rs _. Draws-pure _ ((spare, tt), refl)

  Makes-sc_lines :
      (second : Bool)
      → IsRoomy 0 g
      → Makes g' (sc_lines t r second) (λ (scs, size) h. (h ≡ g) × IsChunk g scs size)
  unfolding sc_lines written line_size
  Makes-sc_lines second room =
      Makes-if second
        (λ _. Makes-draw (Draws-first_sc a.room) λ l (spare, size).
          Makes-bind (Makes-modify (release t r)) λ _ h e.
            let same : h ≡ g = e ∙ a.back in
            let now = subst (IsRoomy 0) (sym same) room in
            Makes-draw (Draws-wreg now 6) λ rd free. Makes-draw (Draws-rreg now) λ rs _.
              Makes-pure _ (
                same,
                IsChunk-cons l 4 (All-Spares a.spares (written l) spare) size (
                    IsChunk-cons (amo "sc" "" rd rs r) 4 (subst (λ k. Free k rd) same free, tt) refl
                      IsChunk-nil),
              ))
        λ _. Makes-bind (Makes-modify (release t r)) λ _ h e.
          let same : h ≡ g = e ∙ a.back in
          Makes-draw (Draws-first_sc (subst (IsRoomy 0) (sym same) room)) λ l (spare, size).
            Makes-pure _ (
              same,
              IsChunk-cons l 4 (subst (λ k. All (Free k) (written l)) same spare) size IsChunk-nil,
            )

-- The part of `g_lrsc` between the two changes of the reserved registers, and after.
Makes-sequence :
    (g : Gen) (t : ℕ) (ls : List Line)
    → IsRoomy 0 g
    → Free g t
    → IsRoomy 1 (reserve t g)
    → IsChunk g ls 8
    → Makes (reserve t g) (lr_sequence t ls) (λ it h. (h ≡ g) × IsSound g it)
unfolding lr_sequence aqrl suffixes written line_size
Makes-sequence g t ls room free inside c =
    let now = IsRoomy-le 0 1 (omega arith) inside in
    let sp = Spares-reserve t g in
    Makes-draw (Draws-choice-Any suffixes (omega arith)) λ suffix _.
      Makes-draw (Draws-wreg now 6) λ rd spare. Makes-draw (Draws-below 4 (omega arith)) λ n _.
        Makes-draw (Draws-window now n) λ (between, m) cb.
          Makes-bind (Makes-sc_address g t free inside) λ (r, address, k) g' a.
            Makes-draw (Draws-chance 20) λ second _.
              Makes-bind (Makes-sc_lines t r address k g' a second room) λ (scs, n) h (same, cs).
                Makes-pure _ (
                  same,
                  IsChunk-IsSound _
                      (IsChunk-append c (
                        IsChunk-cons (lr suffix rd t) 4 (sp.spare rd spare, tt) refl
                          (IsChunk-append (IsChunk-Spares sp cb) (IsChunk-append a.chunk cs))))
                      (omega arith),
                )

-- An LR/SC sequence is always made, gives back the registers that it reserves, writes none of those
-- reserved before, and has the size of its lines, where two more registers can be reserved.
pub Draws-g_lrsc : {g : Gen} → IsRoomy 2 g → Draws g g_lrsc (IsSound g)
unfolding g_lrsc
Draws-g_lrsc {g} room =
    let now = IsRoomy-le 0 2 (omega arith) room in
    Draws-same (
      Makes-draw (Draws-tmp now) λ t (free, ne). Makes-draw (Draws-addr now t 0x3FC free) λ ls c.
        Makes-bind (Makes-modify (reserve t)) λ _ g' e.
          subst (λ h. Makes h (lr_sequence t ls) (λ it k. (k ≡ g) × IsSound g it)) (sym e)
            (Makes-sequence g t ls now free (IsRoomy-reserve 1 t ne room) c))
