-- ===== src/Spike/Generator/Sound/Making.antt =====
-- Blocks of items of any mix: `Gen.block` of tools/spike_diff/gen.py.
use determinant.Base.{
  ℕ, zero, suc, ◌+◌, ◌*◌, ◌^◌, ◌<◌, ◌≡◌, refl, sym, subst, inl, inr, some, List, [], ◌∷◌, arith,
  ltb, ◌==◌, Bool-cases, length, All,
}
use determinant.Spike.Generator.Lines.{Item}
use determinant.Spike.Generator.Draws.{Gen, M}
use determinant.Spike.Generator.Rules.{
  Draws, Makes, Makes-bind, Makes-draw, Makes-pure, Makes-Draws, Draws-random,
}
use determinant.Spike.Generator.Registers.{IsRoomy, IsRoomy-le}
use determinant.Spike.Generator.Sound.{
  IsSound, Draws-g_alu_r, Draws-g_alu_i, Draws-g_lui_auipc, Draws-g_m, Draws-g_zba, Draws-g_zbb,
  Draws-g_zbs, Draws-g_li_special,
}
use determinant.Spike.Generator.Sound.Memory.{Draws-g_load}
use determinant.Spike.Generator.Sound.Reservation.{Spares, IsChunk-Spares, IsSound-IsChunk}
use determinant.Spike.Generator.Sound.Placing.{Labelled, Labelled-refl, Labelled-trans}
use determinant.Spike.Generator.Sound.Memory.{
  Draws-g_load, Draws-g_store, Draws-g_amo, Draws-g_sc_only, Draws-g_c_mem,
}
use determinant.Spike.Generator.Sound.Compressed.{Draws-g_c_alu, Draws-g_c_hint}
use determinant.Spike.Generator.Sound.Reservation.{Draws-g_lrsc}
use determinant.Spike.Generator.Sound.Control.{
  Draws-g_branch, Draws-g_c_branch, Draws-g_jal, Draws-g_c_jump, Draws-g_jalr, Draws-g_c_jr,
  Draws-g_csr_scratch, Draws-g_fence, Draws-g_csr_counter,
}
use determinant.Spike.Generator.Mixes.{
  Category, Weights, cats, positive, total_weight, pick_weighted,
}
use determinant.Spike.Generator.Blocks.{make_item, pick_category, block}

-- A category is picked that has a weight.
pick_weighted-some :
    {P : Category → Type 0} (w : Weights) (sum total r : ℕ) (cs : List Category)
    → All P cs
    → 0 < length cs
    → (c : Category) × (pick_weighted w sum total r cs ≡ some c) × P c
unfolding pick_weighted
pick_weighted-some w sum total r [] h lt = absurd (omega arith)
pick_weighted-some w sum total r (c ∷ []) (p, h) lt = (c, refl, p)
pick_weighted-some w sum total r (c ∷ d ∷ cs) (p, h) lt =
    elim (Bool-cases (ltb (r * total) ((sum + w c) * 2 ^ 53))) [
      | inl here ↦ (c, rw here refl, p)
      | inr later ↦
          let (e, eq, q) = pick_weighted-some w (sum + w c) total r (d ∷ cs) h (omega arith) in
          (e, rw later eq, q)
    ]

All-positive : (w : Weights) (cs : List Category) → All (λ c. 0 < w c) (positive w cs)
unfolding positive
All-positive w [] = tt
All-positive w (c ∷ cs) = elim (Bool-cases (w c == 0)) [
  | inl nothing ↦ rw nothing (All-positive w cs)
  | inr something ↦ rw something (ground (arith, something), All-positive w cs)
]

length-positive :
    (w : Weights) (cs : List Category) → 0 < total_weight w cs → 0 < length (positive w cs)
unfolding positive total_weight
length-positive w [] h = h
length-positive w (c ∷ cs) h = elim (Bool-cases (w c == 0)) [
  | inl nothing ↦ rw nothing (length-positive w cs (ground (arith, nothing, h)))
  | inr something ↦ rw something (omega arith)
]

-- Where a mix has a weight, a category is always picked, and one that the mix names with a weight.
pub Draws-pick_category :
    {g : Gen} (w : Weights) (r : ℕ)
    → 0 < total_weight w cats
    → Draws g (pick_category w r) (λ c. 0 < w c)
unfolding pick_category
Draws-pick_category {g} w r h = record {
  at = λ s.
      let cs = positive w cats in
      let (c, e, p) =
        pick_weighted-some w 0 (total_weight w cs) r cs (All-positive w cats)
          (length-positive w cats h) in
      (c, s, rw (e, pick_category) refl, p);
}

-- What each item is made in: room for two more reserved registers, no counter held.
pub record IsReady (n : ℕ) (g : Gen) : Type 0 where
  pub room : IsRoomy n g
  pub quiet : g.noread ≡ []

-- An item that is made takes labels, and is sound.
abbrev pub Adds : (g : Gen) → Item → Gen → Type 0
Adds g it g' = Labelled g g' × IsSound g it

module _ {g : Gen} (loop : M Item) (ready : IsReady 2 g) (looped : Makes g loop (Adds g)) where
  Makes-sound : {m : M Item} → Draws g m (IsSound g) → Makes g m (Adds g)
  Makes-sound d = Makes-Draws d (λ it s. (Labelled-refl g, s))

  now : IsRoomy 0 g
  now = IsRoomy-le 0 2 (omega arith) ready.room

  Makes-make_item : (c : Category) → Makes g (make_item loop c) (Adds g)
  unfolding make_item
  Makes-make_item Category.alu_r = Makes-sound (Draws-g_alu_r now)
  Makes-make_item Category.alu_i = Makes-sound (Draws-g_alu_i now)
  Makes-make_item Category.lui_auipc = Makes-sound (Draws-g_lui_auipc now)
  Makes-make_item Category.m = Makes-sound (Draws-g_m now)
  Makes-make_item Category.zba = Makes-sound (Draws-g_zba now)
  Makes-make_item Category.zbb = Makes-sound (Draws-g_zbb now)
  Makes-make_item Category.zbs = Makes-sound (Draws-g_zbs now)
  Makes-make_item Category.li_special = Makes-sound (Draws-g_li_special now)
  Makes-make_item Category.c_alu = Makes-sound (Draws-g_c_alu now)
  Makes-make_item Category.c_hint = Makes-sound (Draws-g_c_hint now)
  Makes-make_item Category.load = Makes-sound (Draws-g_load now)
  Makes-make_item Category.store = Makes-sound (Draws-g_store now)
  Makes-make_item Category.c_mem = Makes-sound (Draws-g_c_mem now)
  Makes-make_item Category.amo = Makes-sound (Draws-g_amo now)
  Makes-make_item Category.lrsc = Makes-sound (Draws-g_lrsc ready.room)
  Makes-make_item Category.sc_only = Makes-sound (Draws-g_sc_only now)
  Makes-make_item Category.branch = Makes-sound (Draws-g_branch now)
  Makes-make_item Category.c_branch = Makes-sound (Draws-g_c_branch now)
  Makes-make_item Category.jal = Makes-sound (Draws-g_jal now)
  Makes-make_item Category.c_jump = Makes-sound (Draws-g_c_jump now)
  Makes-make_item Category.jalr = Makes-sound (Draws-g_jalr now)
  Makes-make_item Category.c_jr = Makes-sound (Draws-g_c_jr now)
  Makes-make_item Category.loop = looped
  Makes-make_item Category.csr_scratch = Makes-sound (Draws-g_csr_scratch now)
  Makes-make_item Category.csr_counter =
      Makes-sound (Draws-g_csr_counter (IsRoomy-le 1 2 (omega arith) ready.room) ready.quiet)
  Makes-make_item Category.fence = Makes-sound (Draws-g_fence now)

-- What a state that only took labels has in common with the one before.
pub Labelled-Spares : {g g' : Gen} → Labelled g g' → Spares g' g
Labelled-Spares {g} {g'} k = subst (λ h. Spares h g) (sym k.only) (record { spare = λ r h. h })

pub Labelled-Spares_back : {g g' : Gen} → Labelled g g' → Spares g g'
Labelled-Spares_back {g} {g'} k = subst (λ h. Spares g h) (sym k.only) (record { spare = λ r h. h })

pub Labelled-IsReady : {g g' : Gen} {n : ℕ} → Labelled g g' → IsReady n g → IsReady n g'
Labelled-IsReady {g} {n = n} k r = subst (IsReady n) (sym k.only) (record {
  room = record { zero_free = r.room.zero_free; few = r.room.few; few_unread = r.room.few_unread };
  quiet = r.quiet;
})

pub IsSound-Spares : {g g' : Gen} (it : Item) → Spares g' g → IsSound g' it → IsSound g it
IsSound-Spares it sp s =
    let c = IsChunk-Spares sp (IsSound-IsChunk it s) in
    record { spares = c.spares; sized = s.sized; reach = s.reach }

pub All-IsSound-Spares :
    {g g' : Gen} (its : List Item) → Spares g' g → All (IsSound g') its → All (IsSound g) its
All-IsSound-Spares [] sp h = tt
All-IsSound-Spares (it ∷ its) sp (s, h) = (IsSound-Spares it sp s, All-IsSound-Spares its sp h)

-- A block of n items.
pub Makes-block :
    (w : Weights) (loop : M Item) (g : Gen) (n : ℕ)
    → 0 < total_weight w cats
    → IsReady 2 g
    → ((h : Gen) → Labelled g h → Makes h loop (Adds h))
    → Makes g (block w loop n) (λ its g'. Labelled g g' × All (IsSound g) its)
unfolding block
Makes-block w loop g zero some_weight ready looped = Makes-pure [] (Labelled-refl g, tt)
Makes-block w loop g (suc n) some_weight ready looped = Makes-draw Draws-random λ r _.
    Makes-draw (Draws-pick_category w r some_weight) λ cat _.
      Makes-bind (Makes-make_item loop ready (looped g (Labelled-refl g)) cat) λ it g' (k, s).
        Makes-bind
          (Makes-block w loop g' n some_weight (Labelled-IsReady k ready)
            (λ h l. looped h (Labelled-trans k l)))
          λ its g'' (l, rest).
            Makes-pure (it ∷ its)
              (Labelled-trans k l, (s, All-IsSound-Spares its (Labelled-Spares k) rest))
