-- ===== src/Spike/Generator/Program.antt =====
-- `terminator` and `program` of tools/spike_diff/gen.py: the end of a program, and all of it.
use determinant.Base.{
  ℕ, zero, suc, ◌+◌, ◌*◌, ◌/◌, ◌%◌, max, false, Option, none, some, List, [], ◌∷◌, ◌++◌, ◌==◌,
  if◌then◌else◌,
}
use determinant.Base.Int.{ℤ, pos, sub_ℕ, neg}
use determinant.Spike.Generator.Lines.{
  data_middle, reg, imm, Line, immediate, upper, load, store, amo, lr, jalr, la, csr, csrr, csrw,
  plain, two_bytes, four_bytes, rvc,
}
use determinant.Spike.Generator.Draws.{
  Gen, Stream, M, ◌>>=◌, pure, gets, below, choice, randrange, chance, val, tmp, wreg, rreg,
}
use determinant.Spike.Generator.Alu.{li_lines}
use determinant.Spike.Generator.Resolve.{resolve}
use determinant.Spike.Generator.Mixes.{Weights}
use determinant.Spike.Generator.Blocks.{body_items}

-- `RESERVED_32`, `RESERVED_16`
abbrev pub reserved_32 : List ℕ
reserved_32 =
    0x0000000B ∷ 0x0000200F ∷ 0x00001067 ∷ 0x00002063 ∷ 0x00003003 ∷ 0x00006003 ∷ 0x00003023
    ∷ 0x0000302F ∷ 0x0000003B ∷ 0x0200D013 ∷ 0x02001013 ∷ 0x0A000033 ∷ 0x1051A52F ∷ 0x000000F3
    ∷ 0x00108073 ∷ []

abbrev pub reserved_16 : List ℕ
reserved_16 = 0x0000 ∷ 0x4002 ∷ 0x8002 ∷ 0x6101 ∷ 0x9C01 ∷ 0x6000 ∷ 0x8000 ∷ 0x1082 ∷ []

-- A program that stops: an EBREAK or an ECALL.
unfoldable pub stop_lines : M (List Line)
stop_lines = choice (
    (plain "ebreak" ∷ [])
    ∷ (plain "ebreak" ∷ [])
    ∷ (plain "ebreak" ∷ [])
    ∷ (plain "ecall" ∷ [])
    ∷ rvc (plain "c.ebreak")
    ∷ [])

-- `w * randint(-100, 100) + randrange(1, w)`
unfoldable pub misaligned : ℕ → M ℤ
misaligned w = do n ← below 201; d ← randrange 1 w; pure (sub_ℕ (w * n + d) (w * 100))

unfoldable pub misaligned_load : (rd base : ℕ) → M (List Line)
misaligned_load rd base = do
  (op, w) ← choice (("lw", 4) ∷ ("lh", 2) ∷ ("lhu", 2) ∷ [])
  off ← misaligned w
  pure (load op rd off base ∷ [])

unfoldable pub misaligned_store : (rs base : ℕ) → M (List Line)
misaligned_store rs base = do
  (op, w) ← choice (("sw", 4) ∷ ("sh", 2) ∷ [])
  off ← misaligned w
  pure (store op rs off base ∷ [])

unfoldable pub misaligned_amo : (rd rs t base : ℕ) → M (List Line)
misaligned_amo rd rs t base = do
  insn ←
      choice
        (amo "amoadd" "" rd rs t ∷ amo "amoswap" "" rd rs t ∷ lr "" rd t ∷ amo "sc" "" rd rs t ∷ [])
  off ← choice (pos 1 ∷ pos 2 ∷ pos 3 ∷ neg 1 ∷ neg 2 ∷ pos 6 ∷ [])
  pure (immediate "addi" t base off ∷ insn ∷ [])

-- The upper halves of unmapped addresses.
unfoldable pub unmapped : M ℕ
unmapped = do
  any ← randrange 0x50 0x100000
  choice (0x50 ∷ 0x51 ∷ 0x60 ∷ 0x80000 ∷ 0xFFFFF ∷ any ∷ [])

unfoldable pub unmapped_load : (rd t hi : ℕ) → M (List Line)
unmapped_load rd t hi = do
  op ← choice ("lb" ∷ "lbu" ∷ "lh" ∷ "lhu" ∷ "lw" ∷ [])
  off ← choice (0 ∷ 4 ∷ 8 ∷ 2047 ∷ [])
  pure (upper "lui" t hi ∷ load op rd (pos off) t ∷ [])

unfoldable pub unmapped_store : (rs t hi : ℕ) → M (List Line)
unmapped_store rs t hi = do
  op ← choice ("sb" ∷ "sh" ∷ "sw" ∷ [])
  off ← choice (0 ∷ 4 ∷ 8 ∷ [])
  pure (upper "lui" t hi ∷ store op rs (pos off) t ∷ [])

unfoldable pub unmapped_amo : (rd rs t hi : ℕ) → M (List Line)
unmapped_amo rd rs t hi = do
  insn ← choice (amo "amoor" "" rd rs t ∷ lr "" rd t ∷ amo "sc" "" rd rs t ∷ [])
  pure (upper "lui" t hi ∷ insn ∷ [])

unfoldable pub unmapped_jump : (rd t hi : ℕ) → M (List Line)
unmapped_jump rd t hi = do
  off ← choice (0 ∷ 2 ∷ 4 ∷ [])
  pure (upper "lui" t hi ∷ jalr rd (pos off) t ∷ [])

unfoldable pub counter_write : (rd rs : ℕ) → M (List Line)
counter_write rd rs = do
  l ← choice (
      csr "csrrw" rd "cycle" (reg rs)
      ∷ csr "csrrwi" 0 "instret" (imm 0)
      ∷ csr "csrrsi" rd "cycleh" (imm 1)
      ∷ csr "csrrc" rd "instreth" (reg (max rs 1))
      ∷ [])
  pure (l ∷ [])

unfoldable pub unknown_csr : (rd : ℕ) → M (List Line)
unknown_csr rd = do
  l ← choice (csr "csrrs" rd "0x7c0" (reg 0) ∷ csrr rd "hpmcounter3" ∷ csrr rd "0x8ff" ∷ [])
  pure (l ∷ [])

unfoldable pub reserved_word : M (List Line)
reserved_word = do w ← choice reserved_32; pure (four_bytes w ∷ [])

unfoldable pub reserved_half : M (List Line)
reserved_half = do h ← choice reserved_16; pure (two_bytes h ∷ [])

-- The cases k from 3 on, for which `hi` is drawn.
unfoldable pub high_fault : (k rd rs t hi : ℕ) → M (List Line)
high_fault k rd rs t hi =
    if k == 3
    then unmapped_load rd t hi
    else if k == 4
    then unmapped_store rs t hi
    else if k == 5
    then unmapped_amo rd rs t hi
    else if k == 6
    then unmapped_jump rd t hi
    else if k == 7
    then counter_write rd rs
    else if k == 8
    then unknown_csr rd
    else if k == 9
    then reserved_word
    else if k == 10
    then reserved_half
    else pure (plain "ecall" ∷ [])

unfoldable pub fault_case : (k rd rs t base : ℕ) → M (List Line)
fault_case k rd rs t base =
    if k == 0
    then misaligned_load rd base
    else if k == 1
    then misaligned_store rs base
    else if k == 2
    then misaligned_amo rd rs t base
    else (do hi ← unmapped; high_fault k rd rs t hi)

unfoldable pub fault_lines : M (List Line)
fault_lines = do
  base ← gets (λ g. g.base)
  t ← tmp
  rd ← wreg 6
  rs ← rreg
  k ← below 12
  fault_case k rd rs t base

unfoldable pub terminator : M (List Line)
terminator = do stops ← chance 70; if stops then stop_lines else fault_lines

-- The prologue's loads of every register, from r on.
unfoldable pub randomize : (rounds r : ℕ) → M (List Line)
randomize zero r = pure []
randomize (suc n) r = do v ← val; rest ← randomize n (r + 1); pure (li_lines r v ++ rest)

unfoldable pub vals : ℕ → M (List ℕ)
vals zero = pure []
vals (suc n) = do v ← val; rest ← vals n; pure (v ∷ rest)

-- What `program` gives to `assemble_program`: the lines of the body and the words of the data.
pub record Program : Type 0 where
  pub body : List Line
  pub words : List ℕ

-- `DATA_SIZE`
abbrev pub data_size : ℕ
data_size = 2048

unfoldable pub program : Weights → ℕ → M Program
program w n_items = do
  prologue ← randomize 31 1
  r ← randrange 1 32
  base ← gets (λ g. g.base)
  items ← body_items w n_items
  placed ← resolve items none
  ending ← terminator
  words ← vals (data_size / 4)
  pure (record {
    body =
        prologue
        ++ (csrw "mscratch" r ∷ (li_lines base 0 ++ (la base data_middle ∷ (placed ++ ending))));
    words = words;
  })

-- `Gen(seed, mix)`: the base register is the first draw.
unfoldable pub new_gen : Stream → Gen × Stream
new_gen s =
    let base = 3 + s 0 % 29 in
    (
      record { base = base; reserved = base ∷ []; noread = []; nlabel = 0; in_loop = false },
      λ k. s (suc k),
    )

-- `Gen(seed, mix).program(n_items)`
unfoldable pub generate : Weights → ℕ → Stream → Option Program
generate w n_items s =
    let (g, s') = new_gen s in
    elim (program w n_items g s') [ none ↦ none | some (p, g', s'') ↦ some p ]
