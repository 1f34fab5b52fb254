-- ===== src/Spike/Generator/Control.antt =====
-- Jumps, branches, CSR instructions and fences of tools/spike_diff/gen.py.
use determinant.Base.{
  ℕ, zero, suc, ◌+◌, ◌*◌, ◌/◌, String, Bool, true, false, List, [], ◌∷◌, ◌++◌, if◌then◌else◌,
}
use determinant.Base.Int.{ℤ, pos, negsuc, neg}
use determinant.Spike.Generator.Lines.{
  hole, place, offset_place, Source, reg, imm, Line, three, immediate, branch, branch_zero, jal,
  jump, jalr, jump_register, la, csr, csrr, plain, four_bytes, Item, straight, branching, rvc,
}
use determinant.Spike.Generator.Draws.{
  Gen, M, ◌>>=◌, ◌>>◌, pure, gets, modify, below, choice, chance, member, without, imm12, tmp, wreg,
  rreg, cr,
}
use determinant.Spike.Generator.Alu.{alu_one}

-- `BRANCHES`
abbrev pub branches : List String
branches = "beq" ∷ "bne" ∷ "blt" ∷ "bge" ∷ "bltu" ∷ "bgeu" ∷ []

unfoldable pub g_branch : M Item
g_branch = do
  op ← choice branches
  a ← rreg
  same ← chance 15
  b ← if same then pure a else rreg
  pure (branching (branch op a b hole ∷ []) 4 3500)

unfoldable pub g_c_branch : M Item
g_c_branch = do
  op ← choice ("c.beqz" ∷ "c.bnez" ∷ [])
  a ← cr
  pure (branching (rvc (branch_zero op a hole)) 2 230)

unfoldable pub g_jal : M Item
g_jal = do rd ← wreg 30; pure (branching (jal rd hole ∷ []) 4 100000)

-- `1 in self.reserved or self.chance(0.5)`, which draws only if x1 is free.
unfoldable pub without_link : M Bool
without_link = do taken ← gets (λ g. member 1 g.reserved); if taken then pure true else chance 50

unfoldable pub g_c_jump : M Item
g_c_jump = do
  plain_jump ← without_link
  pure (branching (rvc (jump (if plain_jump then "c.j" else "c.jal") hole)) 2 1800)

-- `v & ~1`
unfoldable pub clear_low : ℤ → ℤ
clear_low (pos n) = pos (n / 2 * 2)
clear_low (negsuc n) = negsuc (n / 2 * 2 + 1)

unfoldable pub g_jalr : M Item
g_jalr = do
  t ← tmp
  any ← imm12
  i ← choice (pos 0 ∷ pos 0 ∷ pos 4 ∷ neg 4 ∷ pos 2 ∷ neg 2 ∷ clear_low any ∷ [])
  odd ← choice (0 ∷ 0 ∷ 1 ∷ [])
  rd ← wreg 25
  pure (branching (la t (offset_place hole i odd) ∷ jalr rd i t ∷ []) 12 100000)

unfoldable pub g_c_jr : M Item
g_c_jr = do
  t ← tmp
  plain_jump ← without_link
  pure (
      branching
        (la t (place hole) ∷ rvc (jump_register (if plain_jump then "c.jr" else "c.jalr") t)) 10
        100000)

-- `op.endswith("i")`, for the mnemonics of `g_csr_scratch`.
abbrev pub csr_ops : List (String × Bool)
csr_ops =
    ("csrrw", false)
    ∷ ("csrrs", false)
    ∷ ("csrrc", false)
    ∷ ("csrrwi", true)
    ∷ ("csrrsi", true)
    ∷ ("csrrci", true)
    ∷ []

unfoldable pub csr_source : Bool → M Source
csr_source is_immediate =
    if is_immediate then (do k ← below 32; pure (imm k)) else (do r ← rreg; pure (reg r))

unfoldable pub g_csr_scratch : M Item
g_csr_scratch = do
  (op, is_immediate) ← choice csr_ops
  source ← csr_source is_immediate
  rd ← wreg 20
  pure (straight (csr op rd "mscratch" source ∷ []) 4)

-- `COUNTERS`, `COUNTERS_H`
abbrev pub counters : List String
counters = "cycle" ∷ "instret" ∷ []

abbrev pub counters_h : List String
counters_h = "cycleh" ∷ "instreth" ∷ []

-- `reads`: four ways to read a counter.
abbrev pub counter_reads : List (String × Source)
counter_reads = ("csrrs", reg 0) ∷ ("csrrc", reg 0) ∷ ("csrrsi", imm 0) ∷ ("csrrci", imm 0) ∷ []

unfoldable pub counter_high : M Item
counter_high = do rd ← wreg 6; name ← choice counters_h; pure (straight (csrr rd name ∷ []) 4)

-- `self.reserved.add(a)` with `self.noread.add(a)`, and both `discard`s.
unfoldable pub hold : ℕ → Gen → Gen
hold a g = record g { reserved = a ∷ g.reserved; noread = a ∷ g.noread }

unfoldable pub let_go : ℕ → Gen → Gen
let_go a g = record g { reserved = without (a ∷ []) g.reserved; noread = without (a ∷ []) g.noread }

-- The instructions between the two reads.
unfoldable pub between_reads : ℕ → M (List Line × ℕ)
between_reads zero = pure ([], 0)
between_reads (suc n) = do
  it ← alu_one
  (lines, size) ← between_reads n
  pure (it.lines ++ lines, it.size + size)

-- `g_csr_counter` from where `a` is held.
unfoldable pub counter_sequence : String → ℕ → M Item
counter_sequence ctr a = do
  b ← tmp
  (op, source) ← choice counter_reads
  n ← below 4
  (lines, size) ← between_reads n
  modify (let_go a)
  (op', source') ← choice counter_reads
  pure (
      straight
        (csr op a ctr source
          ∷ (lines
              ++ (csr op' b ctr source' ∷ three "sub" b b a ∷ immediate "addi" a b (pos 0) ∷ [])))
        (4 + size + 12))

unfoldable pub counter_delta : M Item
counter_delta = do ctr ← choice counters; a ← tmp; modify (hold a); counter_sequence ctr a

unfoldable pub g_csr_counter : M Item
g_csr_counter = do high ← chance 20; if high then counter_high else counter_delta

unfoldable pub g_fence : M Item
g_fence = do
  l ← choice (
      plain "fence"
      ∷ plain "fence rw, rw"
      ∷ plain "fence.tso"
      ∷ plain "fence i, o"
      ∷ plain "fence.i"
      ∷ four_bytes 0x0100000F
      ∷ plain "fence r, w"
      ∷ [])
  pure (straight (l ∷ []) 4)
