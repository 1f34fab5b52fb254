-- ===== src/Spike/Generator/Tests.antt =====
-- The generator on small inputs.
use determinant.Base.{
  ◌+◌, ◌*◌, ◌<◌, ◌≡◌, refl, ◌↔◌, false, none, some, List, [], ◌∷◌, arith, ◌==◌, if◌then◌else◌, All,
  In,
}
use determinant.Spike.Generator.Lines.{hole, three, branch, Item, straight, branching}
use determinant.Spike.Generator.Draws.{Gen, Stream, member}
use determinant.Base.Text.{strip_prefix}
use determinant.Spike.Constants.{Registers}
use determinant.Spike.Generator.Rules.{Draws, Makes}
use determinant.Spike.Generator.Lines.{lines_size, line_size, mnemonic_size, is_compressed, written}
use determinant.Spike.Generator.Registers.{IsRoomy}
use determinant.Spike.Generator.Mixes.{total_weight, mixed_weights, csr_weights}
use determinant.Spike.Generator.Memory.{g_load, g_store, g_c_mem, g_amo, g_lrsc, g_sc_only}
use determinant.Spike.Generator.Control.{g_csr_counter}
use determinant.Spike.Generator.Blocks.{pick_category, body_items, items_size}
use determinant.Spike.Generator.Resolve.{candidates, resolve}
use determinant.Spike.Generator.Program.{Program, new_gen, generate}
use determinant.Spike.Generator.Sound.{IsSound, IsChunk}
use determinant.Spike.Generator.Sound.Reach.{InReach, candidates_iff}
use determinant.Spike.Generator.Sound.Targets.{IsPlaced}
use determinant.Spike.Generator.Sound.Placing.{Labelled, Makes-resolve}
use determinant.Spike.Generator.Sound.Reservation.{Draws-g_lrsc}
use determinant.Spike.Generator.Sound.Control.{Draws-g_csr_counter}
use determinant.Spike.Generator.Sound.Making.{IsReady, Draws-pick_category}
use determinant.Spike.Generator.Sound.Looping.{Makes-body_items}
use determinant.Spike.Generator.Sound.Whole.{IsProgram, generate-IsProgram}
use determinant.Spike.Generator.Sound.Addresses.{Inside}
use determinant.Spike.Generator.Sound.Bounds.{HoldsMiddle, Draws-memory_items}

abbrev counting : Stream
counting k = 7 * k + 3

generate-IsProgram_example :
    (p : Program) × (generate mixed_weights 4 counting ≡ some p)
    × IsProgram (new_gen counting).0.base p
unfolding total_weight
generate-IsProgram_example = generate-IsProgram mixed_weights 4 counting (omega arith)

abbrev five_held : Gen
five_held = record { base = 5; reserved = 5 ∷ []; noread = []; nlabel = 0; in_loop = false }

abbrev middle_at_five : Registers
middle_at_five r = if r == 5 then 0x12400 else 3 * r

five-HoldsMiddle : HoldsMiddle five_held 0x12400 middle_at_five
unfolding member
five-HoldsMiddle = record {
  room = record { zero_free = refl; few = omega arith; few_unread = omega arith };
  held = refl;
  holds = refl;
  low = omega arith;
  high = omega arith;
  aligned = omega arith;
}

Draws-memory_items_example :
    Draws five_held g_load (λ it. Inside 0x12400 middle_at_five it.lines)
    × Draws five_held g_store (λ it. Inside 0x12400 middle_at_five it.lines)
    × Draws five_held g_c_mem (λ it. Inside 0x12400 middle_at_five it.lines)
    × Draws five_held g_amo (λ it. Inside 0x12400 middle_at_five it.lines)
    × Draws five_held g_sc_only (λ it. Inside 0x12400 middle_at_five it.lines)
Draws-memory_items_example = Draws-memory_items 0x12400 middle_at_five five-HoldsMiddle

five-IsReady : IsReady 3 five_held
unfolding member
five-IsReady = record {
  room = record { zero_free = refl; few = omega arith; few_unread = omega arith };
  quiet = refl;
}

Makes-body_items_example :
    Makes five_held
      (body_items mixed_weights 6)
      (λ its g'. Labelled five_held g' × All (IsSound five_held) its)
unfolding total_weight
Makes-body_items_example =
    Makes-body_items mixed_weights 6 five_held (omega arith) five-IsReady refl

-- A branch over an addition.
abbrev two_items : List Item
two_items = branching (branch "beq" 1 2 hole ∷ []) 4 3500 ∷ straight (three "add" 6 7 8 ∷ []) 4 ∷ []

two_items-IsSound : All (IsSound five_held) two_items
unfolding member written line_size lines_size mnemonic_size is_compressed strip_prefix
two_items-IsSound = (
  record { spares = (tt, tt); sized = refl; reach = λ b. omega arith },
  (record { spares = ((refl, tt), tt); sized = refl; reach = λ b. absurd (ground (arith, b)) }, tt),
)

Makes-resolve_example : Makes five_held (resolve two_items none) (λ ls g'.
    Labelled five_held g'
    × IsChunk five_held ls (items_size two_items)
    × IsPlaced none two_items ls)
Makes-resolve_example = Makes-resolve five_held two_items none two_items-IsSound

candidates_iff_example :
    In 2 (candidates 8 1 4 3500 (straight [] 4 ∷ [])) ↔ InReach 2 8 1 4 3500 (straight [] 4 ∷ [])
candidates_iff_example = candidates_iff 2 8 1 4 3500 (straight [] 4 ∷ [])

five-IsRoomy : IsRoomy 2 five_held
unfolding member
five-IsRoomy = record { zero_free = refl; few = omega arith; few_unread = omega arith }

Draws-g_lrsc_example : Draws five_held g_lrsc (IsSound five_held)
Draws-g_lrsc_example = Draws-g_lrsc five-IsRoomy

five-IsRoomy_one : IsRoomy 1 five_held
unfolding member
five-IsRoomy_one = record { zero_free = refl; few = omega arith; few_unread = omega arith }

Draws-g_csr_counter_example : Draws five_held g_csr_counter (IsSound five_held)
Draws-g_csr_counter_example = Draws-g_csr_counter five-IsRoomy_one refl

Draws-pick_category_example :
    Draws five_held (pick_category csr_weights 12345) (λ c. 0 < csr_weights c)
unfolding total_weight
Draws-pick_category_example = Draws-pick_category csr_weights 12345 (omega arith)
