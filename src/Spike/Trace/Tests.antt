-- ===== src/Spike/Trace/Tests.antt =====
-- Two traces of two steps, the second of which reads a counter.
use determinant.Base.{ℕ, ◌≡◌, refl, ◌↔◌, true, false, none, List, [], ◌∷◌}
use determinant.Spike.Trace.{
  SpikeEvent, committed, DetEvent, ended, stepped, write_all, ahead, or_else, counter_problem,
  known_problem, register_problem, register_problems, pc_problems, mscratch_problems, verdict,
  align, align_traces, exit_status,
}
use determinant.Spike.Trace.Aligned.{Matches, align_traces-Matches}

abbrev spike_events : List SpikeEvent
spike_events =
    committed (record { pc = 0x10000; regs = (5, 7) ∷ []; mscratch = none; is_counter = false })
    ∷ committed (record { pc = 0x10004; regs = (6, 12) ∷ []; mscratch = none; is_counter = true })
    ∷ []

abbrev det_events : List DetEvent
det_events =
    stepped (record { pc = 0x10000; regs = (5, 7) ∷ []; mscratch = none })
    ∷ stepped (record { pc = 0x10004; regs = (6, 4) ∷ []; mscratch = none })
    ∷ ended
    ∷ []

-- The counter is ahead by eight, which is no divergence.
aligned : exit_status (align_traces spike_events det_events) ≡ 0
unfolding write_all ahead or_else counter_problem known_problem register_problem register_problems
    pc_problems mscratch_problems verdict align align_traces exit_status
aligned = refl

align_traces-Matches_example :
    (exit_status (align_traces spike_events det_events) ≡ 0)
    ↔ ((c : ℕ) × Matches c (λ r. none) spike_events det_events)
align_traces-Matches_example = align_traces-Matches spike_events det_events
