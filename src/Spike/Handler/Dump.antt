-- ===== src/Spike/Handler/Dump.antt =====
-- What the trap handler of tools/spike_diff/template.py leaves in the dump, for `spike_state`.
use determinant.Base.{
  ℕ, zero, suc, ◌+◌, ◌-◌, ◌*◌, ◌/◌, ◌^◌, ◌≤◌, ◌<◌, ◌≡◌, refl, sym, ap, ◌∙◌, subst, inl, inr, true,
  false, some, List, [], ◌∷◌, ◌++◌, arith, ltb, ◌==◌, Bool-cases, length, take, drop, length-append,
}
use determinant.Spike.Constants.{Registers, write}
use determinant.Spike.Compare.{dump_marker, load_addr, pack_words, spike_state}
use determinant.Base.Int.{pos}
use determinant.Spike.Handler.{
  Csr, sscratch, stval, minstret, mscratch, mcause, mepc, mtval, Symbol, trap_dump, tohost, save,
  entry, rest, trap_handler, same_csr, Hart, step, run,
}
use determinant.Spike.Handler.Stores.{run-append, run-save, save-inside}

-- The hart when the registers are about to be stored, and when they are.
abbrev entered : (Symbol → ℕ) → Hart → Hart
entered syms h = run syms entry h

abbrev saved : (Symbol → ℕ) → Hart → Hart
saved syms h = run syms (save 30 1) (entered syms h)

module _ (syms : Symbol → ℕ) (h : Hart) (fits : syms trap_dump + 148 ≤ 2 ^ 32)
    (apart : syms trap_dump + 148 ≤ syms tohost) (small : syms tohost + 8 ≤ 2 ^ 32) where
  final : Hart
  final = run syms rest (saved syms h)

  saved-regs : (saved syms h).regs ≡ (entered syms h).regs
  unfolding run step
  saved-regs = (run-save syms 30 1 (syms trap_dump) (entered syms h) refl (omega (arith, fits))).0

  saved-csrs : (saved syms h).csrs ≡ (entered syms h).csrs
  unfolding run step
  saved-csrs = (run-save syms 30 1 (syms trap_dump) (entered syms h) refl (omega (arith, fits))).1

  base : (saved syms h).regs 31 ≡ syms trap_dump
  unfolding run step
  base = ap (λ r. r 31) saved-regs

  kept : (c : Csr) → (saved syms h).csrs c ≡ (entered syms h).csrs c
  kept c = ap (λ f. f c) saved-csrs

  entered-regs : (k : ℕ) → k ≤ 30 → (entered syms h).regs k ≡ h.regs k
  unfolding run step write
  entered-regs k upto = ground (arith, upto)

  final-marker : final.mem (syms trap_dump + 4 * 0) ≡ dump_marker
  unfolding final run step
  final-marker = ground (arith, base, fits, apart, small)

  final-saved : (k : ℕ) → 1 ≤ k → k ≤ 30 → final.mem (syms trap_dump + 4 * k) ≡ h.regs k
  unfolding final run step write
  final-saved k from upto =
      let stored =
        save-inside syms 30 1 (syms trap_dump) k (entered syms h) refl (omega (arith, fits)) from
          (omega (arith, upto)) in
      ground (arith, base, fits, apart, small, stored ∙ entered-regs k upto)

  -- The words behind the stored registers.
  final-x31 : final.mem (syms trap_dump + 4 * 31) ≡ h.regs 31
  unfolding final run step same_csr
  final-x31 = ground (arith, base, fits, apart, small, kept sscratch)

  final-mscratch : final.mem (syms trap_dump + 4 * 32) ≡ h.csrs mscratch
  unfolding final run step same_csr
  final-mscratch = ground (arith, base, fits, apart, small, kept mscratch)

  final-mcause : final.mem (syms trap_dump + 4 * 33) ≡ h.csrs mcause
  unfolding final run step same_csr
  final-mcause = ground (arith, base, fits, apart, small, kept mcause)

  final-mepc : final.mem (syms trap_dump + 4 * 34) ≡ h.csrs mepc
  unfolding final run step same_csr
  final-mepc = ground (arith, base, fits, apart, small, kept mepc)

  final-mtval : final.mem (syms trap_dump + 4 * 35) ≡ h.csrs mtval
  unfolding final run step same_csr
  final-mtval = ground (arith, base, fits, apart, small, kept mtval)

  final-minstret : final.mem (syms trap_dump + 4 * 36) ≡ h.csrs minstret
  unfolding final run step same_csr
  final-minstret = ground (arith, base, fits, apart, small, kept stval)

  -- The handler is these parts.
  run-trap_handler : run syms trap_handler h ≡ final
  unfolding trap_handler final
  run-trap_handler =
      run-append syms entry (save 30 1 ++ rest) h
      ∙ run-append syms (save 30 1) rest (entered syms h)

-- The words of memory from a word on, counted from an address.
unfoldable pub read_words : (n i : ℕ) → (address : ℕ) → (mem : ℕ → ℕ) → List ℕ
read_words zero i d mem = []
read_words (suc n) i d mem = mem (d + 4 * i) ∷ read_words n (i + 1) d mem

-- The registers from i on.
unfoldable pub registers : (n i : ℕ) → Registers → List ℕ
registers zero i regs = []
registers (suc n) i regs = regs i ∷ registers n (i + 1) regs

take-append : (xs ys : List ℕ) → take (length xs) (xs ++ ys) ≡ xs
take-append [] ys = refl
take-append (x ∷ xs) ys = ap (λ zs. x ∷ zs) (take-append xs ys)

drop-append : (xs ys : List ℕ) → drop (length xs) (xs ++ ys) ≡ ys
drop-append [] ys = refl
drop-append (x ∷ xs) ys = drop-append xs ys

read_words-registers :
    (n i d : ℕ) (mem : ℕ → ℕ) (regs : Registers)
    → ((k : ℕ) → i ≤ k → k < i + n → mem (d + 4 * k) ≡ regs k)
    → read_words n i d mem ≡ registers n i regs
unfolding read_words registers
read_words-registers zero i d mem regs h = refl
read_words-registers (suc n) i d mem regs h =
    let later =
      read_words-registers n (i + 1) d mem regs
        (λ k from upto. h k (omega (arith, from)) (omega (arith, upto))) in
    rw (later, h i (omega arith) (omega arith)) refl

-- The words that the handler leaves.
unfoldable pub dump_of : Hart → List ℕ
unfolding registers
dump_of h =
    dump_marker
    ∷ (registers 31 1 h.regs
        ++ (h.csrs mscratch ∷ h.csrs mcause ∷ h.csrs mepc ∷ h.csrs mtval ∷ h.csrs minstret ∷ []))

ltb-append : (xs ys : List ℕ) → ltb (length (xs ++ ys)) (length xs) ≡ false
ltb-append xs ys = ground (arith, length-append xs ys)

spike_state-dump_of :
    (h : Hart) (address : ℕ) (image tail : List ℕ)
    → length image ≡ (address - load_addr) / 4
    → spike_state (image ++ (dump_of h ++ tail)) address
      ≡ some (record {
        marker_ok = true;
        regs = registers 31 1 h.regs;
        mscratch = h.csrs mscratch;
        mcause = pos (h.csrs mcause);
        mepc = h.csrs mepc;
        mtval = h.csrs mtval;
        minstret = h.csrs minstret;
        mem = pack_words image;
      })
unfolding spike_state dump_of registers
spike_state-dump_of h address image tail e =
    let behind = dump_of h ++ tail in
    rw (← e, ltb-append image behind, take-append image behind, drop-append image behind) refl

module _ (syms : Symbol → ℕ) (h : Hart) (fits : syms trap_dump + 148 ≤ 2 ^ 32)
    (apart : syms trap_dump + 148 ≤ syms tohost) (small : syms tohost + 8 ≤ 2 ^ 32) where
  abbrev final_mem : ℕ → ℕ
  final_mem = (final syms h fits apart small).mem

  abbrev word : ℕ → ℕ
  word k = final_mem (syms trap_dump + 4 * k)

  word-regs : (k : ℕ) → 1 ≤ k → k < 32 → word k ≡ h.regs k
  word-regs k from upto = elim (Bool-cases (k == 31)) [
    | inl last ↦
        let e : k ≡ 31 = ground (arith, last) in
        subst (λ k. word k ≡ h.regs k) (sym e) (final-x31 syms h fits apart small)
    | inr other ↦ final-saved syms h fits apart small k from (ground (arith, other, upto))
  ]

  stored : read_words 31 1 (syms trap_dump) final_mem ≡ registers 31 1 h.regs
  stored = read_words-registers 31 1 (syms trap_dump) final_mem h.regs word-regs

  abbrev parts : List ℕ
  parts =
      word 0
      ∷ (read_words 31 1 (syms trap_dump) final_mem
          ++ (word 32 ∷ word 33 ∷ word 34 ∷ word 35 ∷ word 36 ∷ []))

  parts-dump_of : parts ≡ dump_of h
  unfolding dump_of
  parts-dump_of =
      rw
        (
          stored,
          final-marker syms h fits apart small,
          final-mscratch syms h fits apart small,
          final-mcause syms h fits apart small,
          final-mepc syms h fits apart small,
          final-mtval syms h fits apart small,
          final-minstret syms h fits apart small,
        )
        refl

  read_words-handler : read_words 37 0 (syms trap_dump) (run syms trap_handler h).mem ≡ dump_of h
  unfolding read_words
  read_words-handler =
      ap (λ (k : Hart). read_words 37 0 (syms trap_dump) k.mem)
        (run-trap_handler syms h fits apart small)
      ∙ parts-dump_of

  -- Once the handler has run, `spike_state` finds its marker in the dump and reads back the registers
  -- and CSRs that the hart had when it trapped, the retired instructions that the handler's second
  -- instruction read, and the memory in front of the dump. The dump and the mailbox behind it are
  -- below 2 ^ 32, and `image` are the words from the load address up to the dump.
  pub spike_state-trap_handler :
      (image tail : List ℕ)
      → length image ≡ (syms trap_dump - load_addr) / 4
      → spike_state
          (image ++ (read_words 37 0 (syms trap_dump) (run syms trap_handler h).mem ++ tail))
          (syms trap_dump)
        ≡ some (record {
          marker_ok = true;
          regs = registers 31 1 h.regs;
          mscratch = h.csrs mscratch;
          mcause = pos (h.csrs mcause);
          mepc = h.csrs mepc;
          mtval = h.csrs mtval;
          minstret = h.csrs minstret;
          mem = pack_words image;
        })
  spike_state-trap_handler image tail e =
      rw read_words-handler (spike_state-dump_of h (syms trap_dump) image tail e)
