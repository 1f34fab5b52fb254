-- ===== src/Spike/Handler.antt =====
-- `trap_handler` of tools/spike_diff/template.py, and what its instructions do on a hart.
pub mod Stores
pub mod Dump
mod Tests
use determinant.Base.{
  ℕ, zero, suc, ◌+◌, ◌-◌, ◌*◌, ◌/◌, ◌%◌, ◌^◌, ◌≤◌, ◌<◌, min, max, String, ◌≡◌, refl, sym, ap, ◌∙◌,
  subst, ◌≢◌, ◌↔◌, ◌⊎◌, inl, inr, Bool, true, false, ◌&&◌, ◌||◌, not, Option, none, some, List, [],
  ◌∷◌, ◌++◌, map, append_assoc, append-nil, arith, str_eq, eq_iff, ltb, leb, ◌==◌, if◌then◌else◌,
  ==_iff, Bool-cases, Option-cases, length, get_elem?, get_or, take, drop, length-append, All,
  All-append, In, append-eq-nil, All-take,
}
use determinant.Spike.Constants.{Registers, write}
use determinant.Spike.Compare.{dump_marker}

pub data Csr : Type 0 where
  sscratch stval minstret mscratch mcause mepc mtval : Csr

pub data Symbol : Type 0 where
  trap_dump tohost : Symbol

-- The lines of the handler; the last three say how it is laid out.
pub data Line : Type 0 where
  csrw : Csr → (rs : ℕ) → Line
  csrr : (rd : ℕ) → Csr → Line
  la : (rd : ℕ) → Symbol → Line
  li : (rd value : ℕ) → Line
  sw : (rs offset base : ℕ) → Line
  jump_here : Line
  norvc : Line
  align : ℕ → Line
  label : Line

-- `for i in range(1, 31)`, from i on.
unfoldable pub save : (rounds i : ℕ) → List Line
save zero i = []
save (suc n) i = sw i (4 * i) 31 ∷ save n (i + 1)

abbrev pub entry : List Line
entry =
    norvc
    ∷ align 2
    ∷ label
    ∷ csrw sscratch 31
    ∷ csrr 31 minstret
    ∷ csrw stval 31
    ∷ la 31 trap_dump
    ∷ []

abbrev pub rest : List Line
rest =
    csrr 1 sscratch
    ∷ sw 1 124 31
    ∷ csrr 1 mscratch
    ∷ sw 1 128 31
    ∷ csrr 1 mcause
    ∷ sw 1 132 31
    ∷ csrr 1 mepc
    ∷ sw 1 136 31
    ∷ csrr 1 mtval
    ∷ sw 1 140 31
    ∷ csrr 1 stval
    ∷ sw 1 144 31
    ∷ li 1 dump_marker
    ∷ sw 1 0 31
    ∷ li 1 1
    ∷ la 31 tohost
    ∷ sw 1 0 31
    ∷ sw 0 4 31
    ∷ jump_here
    ∷ []

unfoldable pub trap_handler : List Line
trap_handler = entry ++ (save 30 1 ++ rest)

-- A hart with its registers, its CSRs and the words of its memory by address. `minstret` stands for
-- what the handler's second instruction reads.
pub record Hart : Type 0 where
  pub regs : Registers
  pub csrs : Csr → ℕ
  pub mem : ℕ → ℕ

unfoldable pub same_csr : Csr → Csr → Bool
same_csr sscratch sscratch = true
same_csr stval stval = true
same_csr minstret minstret = true
same_csr mscratch mscratch = true
same_csr mcause mcause = true
same_csr mepc mepc = true
same_csr mtval mtval = true
same_csr _ _ = false

-- What a line does, by the RISC-V specification; the program's jump to itself stops the model.
unfoldable pub step : (Symbol → ℕ) → Line → Hart → Hart
unfolding write same_csr
step syms (csrw c rs) h = record h { csrs = λ k. if same_csr k c then h.regs rs else h.csrs k }
step syms (csrr rd c) h = record h { regs = write h.regs rd (h.csrs c) }
step syms (la rd s) h = record h { regs = write h.regs rd (syms s) }
step syms (li rd value) h = record h { regs = write h.regs rd value }
step syms (sw rs offset base) h =
    let a = (h.regs base + offset) % 2 ^ 32 in
    record h { mem = λ k. if k == a then h.regs rs else h.mem k }
step syms jump_here h = h
step syms norvc h = h
step syms (align n) h = h
step syms label h = h

unfoldable pub run : (Symbol → ℕ) → List Line → Hart → Hart
unfolding step
run syms [] h = h
run syms (l ∷ ls) h = run syms ls (step syms l h)
