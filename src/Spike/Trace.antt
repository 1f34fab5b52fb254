-- ===== src/Spike/Trace.antt =====
-- The alignment of two traces in `main` of tools/spike_diff/trace.py. The traces are given, as
-- `spike_trace` and `det_trace` return them.
pub mod Aligned
mod Tests
use determinant.Base.{
  ℕ, zero, suc, ◌+◌, ◌-◌, ◌*◌, ◌/◌, ◌%◌, ◌^◌, ◌≤◌, ◌<◌, min, max, String, ◌≡◌, refl, sym, ap, ◌∙◌,
  subst, ◌≢◌, ◌↔◌, ◌⊎◌, inl, inr, Bool, true, false, ◌&&◌, ◌||◌, not, Option, none, some, List, [],
  ◌∷◌, ◌++◌, map, append_assoc, append-nil, arith, str_eq, eq_iff, ltb, leb, ◌==◌, if◌then◌else◌,
  ==_iff, Bool-cases, Option-cases, length, get_elem?, get_or, take, drop, length-append, All,
  All-append, In, append-eq-nil, All-take,
}

-- A step of Spike: its pc, the registers and the value of mscratch that it writes, and whether its
-- disassembly names a counter.
pub record SpikeStep : Type 0 where
  pub pc : ℕ
  pub regs : List (ℕ × ℕ)
  pub mscratch : Option ℕ
  pub is_counter : Bool

pub record DetStep : Type 0 where
  pub pc : ℕ
  pub regs : List (ℕ × ℕ)
  pub mscratch : Option ℕ

pub data SpikeEvent : Type 0 where
  trap : SpikeEvent
  committed : SpikeStep → SpikeEvent

pub data DetEvent : Type 0 where
  ended : DetEvent
  stepped : DetStep → DetEvent

-- `problems`, with the values that they show.
pub data Problem : Type 0 where
  pc_differs : ℕ → ℕ → Problem
  register_differs : (r : ℕ) → ℕ → ℕ → Problem
  mscratch_differs : ℕ → ℕ → Problem

-- `dregs`: what each register was last written with, if it was.
abbrev pub Dregs : Type 0
Dregs = ℕ → Option ℕ

unfoldable pub write_all : List (ℕ × ℕ) → Dregs → Dregs
write_all [] dregs = dregs
write_all ((r, v) ∷ ws) dregs = write_all ws (λ k. if k == r then some v else dregs k)

-- `(v - d) & 0xFFFFFFFF`, for words
unfoldable pub ahead : (v d : ℕ) → ℕ
ahead v d = (v + 2 ^ 32 - d) % 2 ^ 32

unfoldable pub or_else : Option ℕ → ℕ → ℕ
or_else none off = off
or_else (some c) off = c

-- One written register: its problem, and `ctr_off`.
unfoldable pub counter_problem : (r v d : ℕ) → Option ℕ → List Problem × Option ℕ
counter_problem r v d ctr_off =
    let c = or_else ctr_off (ahead v d) in
    (if ahead v d == c then [] else register_differs r v d ∷ [], some c)

unfoldable pub known_problem :
    (is_counter : Bool) → (r v d : ℕ) → Option ℕ → List Problem × Option ℕ
known_problem is_counter r v d ctr_off =
    if d == v
    then ([], ctr_off)
    else if is_counter
    then counter_problem r v d ctr_off
    else (register_differs r v d ∷ [], ctr_off)

unfoldable pub register_problem :
    (is_counter : Bool) → (r v : ℕ) → Option ℕ → Option ℕ → List Problem × Option ℕ
register_problem is_counter r v none ctr_off = ([], ctr_off)
register_problem is_counter r v (some d) ctr_off =
    if r == 0 then ([], ctr_off) else known_problem is_counter r v d ctr_off

unfoldable pub register_problems :
    (is_counter : Bool) → Dregs → List (ℕ × ℕ) → Option ℕ → List Problem × Option ℕ
register_problems is_counter dregs [] ctr_off = ([], ctr_off)
register_problems is_counter dregs ((r, v) ∷ ws) ctr_off =
    let (ps, next) = register_problem is_counter r v (dregs r) ctr_off in
    let (qs, last) = register_problems is_counter dregs ws next in (ps ++ qs, last)

unfoldable pub pc_problems : (s d : ℕ) → List Problem
pc_problems s d = if s == d then [] else pc_differs s d ∷ []

unfoldable pub mscratch_problems : Option ℕ → Option ℕ → List Problem
mscratch_problems (some s) (some d) = if s == d then [] else mscratch_differs s d ∷ []
mscratch_problems _ _ = []

pub data Result : Type 0 where
  diverged : (n : ℕ) → List Problem → Result
  no_divergence : Result

unfoldable pub verdict : (n : ℕ) → List Problem → Result → Result
verdict n [] later = later
verdict n (p ∷ ps) later = diverged n (p ∷ ps)

-- The loop, from step n on.
unfoldable pub align :
    (n : ℕ) → List SpikeEvent → List DetEvent → Dregs → (ctr_off : Option ℕ) → Result
align n (committed s ∷ sp) (stepped d ∷ dt) dregs ctr_off =
    let now = write_all d.regs dregs in
    let (ps, next) = register_problems s.is_counter now s.regs ctr_off in
    let later = align (n + 1) sp dt now next in
    verdict n (pc_problems s.pc d.pc ++ (ps ++ mscratch_problems s.mscratch d.mscratch)) later
align n _ _ dregs ctr_off = no_divergence

-- The loop with the values before it.
unfoldable pub align_traces : List SpikeEvent → List DetEvent → Result
align_traces sp dt = align 0 sp dt (λ r. none) none

-- The exit status.
unfoldable pub exit_status : Result → ℕ
exit_status (diverged n ps) = 1
exit_status no_divergence = 0
