-- ===== src/Spike/Handler/Tests.antt =====
-- The trap handler on a hart that trapped at an EBREAK.
use determinant.Base.{ℕ, ◌*◌, ◌≡◌, refl, true, some, [], ◌∷◌, ◌++◌, arith}
use determinant.Spike.Compare.{pack_words, spike_state}
use determinant.Base.Int.{pos}
use determinant.Spike.Handler.{
  Csr, minstret, mcause, mepc, Symbol, trap_dump, tohost, trap_handler, Hart, run,
}
use determinant.Spike.Handler.Dump.{read_words, registers, spike_state-trap_handler}

abbrev symbols : Symbol → ℕ
symbols trap_dump = 0x10008
symbols tohost = 0x10100

abbrev csrs_at_ebreak : Csr → ℕ
csrs_at_ebreak mcause = 3
csrs_at_ebreak mepc = 0x10004
csrs_at_ebreak minstret = 10
csrs_at_ebreak _ = 0

abbrev hart : Hart
hart = record { regs = λ r. 3 * r; csrs = csrs_at_ebreak; mem = λ a. 0 }

spike_state-trap_handler_example :
    spike_state
      ((0x13 ∷ 0x100073 ∷ [])
        ++ (read_words 37 0 0x10008 (run symbols trap_handler hart).mem ++ (0 ∷ [])))
      0x10008
    ≡ some (record {
      marker_ok = true;
      regs = registers 31 1 (λ r. 3 * r);
      mscratch = 0;
      mcause = pos 3;
      mepc = 0x10004;
      mtval = 0;
      minstret = 10;
      mem = pack_words (0x13 ∷ 0x100073 ∷ []);
    })
spike_state-trap_handler_example =
    spike_state-trap_handler symbols hart (omega arith) (omega arith) (omega arith)
      (0x13 ∷ 0x100073 ∷ []) (0 ∷ []) refl
