-- ===== src/Spike/Generator/Alu.antt =====
-- The items of tools/spike_diff/gen.py that compute on registers alone.
use determinant.Base.{ℕ, ◌^◌, String, List, [], ◌∷◌, ◌++◌, map, if◌then◌else◌}
use determinant.Base.Int.{pos}
use determinant.Spike.Generator.Lines.{Line, three, immediate, two, upper, Item, straight}
use determinant.Spike.Generator.Draws.{
  M, ◌>>=◌, pure, below, choice, random, lt_percent, chance, val, imm12, wreg, rreg, rpair,
}
use determinant.Spike.Constants.{li, Instruction, lui, addi}

-- `ALU_R`
abbrev pub alu_r : List String
alu_r = "add" ∷ "sub" ∷ "sll" ∷ "slt" ∷ "sltu" ∷ "xor" ∷ "srl" ∷ "sra" ∷ "or" ∷ "and" ∷ []

-- `ALU_I`
abbrev pub alu_i : List String
alu_i = "addi" ∷ "slti" ∷ "sltiu" ∷ "xori" ∷ "ori" ∷ "andi" ∷ []

-- `SHIFT_I`
abbrev pub shift_i : List String
shift_i = "slli" ∷ "srli" ∷ "srai" ∷ []

-- `M_OPS`
abbrev pub m_ops : List String
m_ops = "mul" ∷ "mulh" ∷ "mulhsu" ∷ "mulhu" ∷ "div" ∷ "divu" ∷ "rem" ∷ "remu" ∷ []

-- `ZBA`
abbrev pub zba : List String
zba = "sh1add" ∷ "sh2add" ∷ "sh3add" ∷ []

-- `ZBB_R`
abbrev pub zbb_r : List String
zbb_r = "andn" ∷ "orn" ∷ "xnor" ∷ "max" ∷ "maxu" ∷ "min" ∷ "minu" ∷ "rol" ∷ "ror" ∷ []

-- `ZBB_U`
abbrev pub zbb_u : List String
zbb_u = "clz" ∷ "ctz" ∷ "cpop" ∷ "sext.b" ∷ "sext.h" ∷ "zext.h" ∷ "orc.b" ∷ "rev8" ∷ []

-- `ZBS_R`
abbrev pub zbs_r : List String
zbs_r = "bclr" ∷ "bext" ∷ "binv" ∷ "bset" ∷ []

-- `ZBS_I`
abbrev pub zbs_i : List String
zbs_i = "bclri" ∷ "bexti" ∷ "binvi" ∷ "bseti" ∷ []

-- `op rd, a, b` of a chosen mnemonic.
unfoldable pub register_item : List String → M Item
register_item ops = do
  op ← choice ops
  (a, b) ← rpair
  rd ← wreg 6
  pure (straight (three op rd a b ∷ []) 4)

unfoldable pub g_alu_r : M Item
g_alu_r = register_item alu_r

-- `op rd, a, sh` with one of the edge shift amounts, or any.
unfoldable pub shift_item : String → List ℕ → M Item
shift_item op edges = do
  any ← below 32
  sh ← choice (edges ++ any ∷ [])
  rd ← wreg 6
  a ← rreg
  pure (straight (immediate op rd a (pos sh) ∷ []) 4)

unfoldable pub chosen_shift : List String → List ℕ → M Item
chosen_shift ops edges = do op ← choice ops; shift_item op edges

unfoldable pub immediate_item : M Item
immediate_item = do
  op ← choice alu_i
  rd ← wreg 6
  a ← rreg
  i ← imm12
  pure (straight (immediate op rd a i ∷ []) 4)

unfoldable pub g_alu_i : M Item
g_alu_i = do
  shift ← chance 35
  if shift then chosen_shift shift_i (0 ∷ 1 ∷ 31 ∷ []) else immediate_item

unfoldable pub g_lui_auipc : M Item
g_lui_auipc = do
  op ← choice ("lui" ∷ "auipc" ∷ [])
  any ← below (2 ^ 20)
  hi ← choice (0 ∷ 1 ∷ 0xFFFFF ∷ 0x80000 ∷ 0x7FFFF ∷ any ∷ [])
  rd ← wreg 6
  pure (straight (upper op rd hi ∷ []) 4)

unfoldable pub g_m : M Item
g_m = register_item m_ops

unfoldable pub g_zba : M Item
g_zba = register_item zba

unfoldable pub unary_item : M Item
unary_item = do op ← choice zbb_u; rd ← wreg 6; a ← rreg; pure (straight (two op rd a ∷ []) 4)

unfoldable pub g_zbb : M Item
g_zbb = do
  p ← random
  if lt_percent p 45
      then register_item zbb_r
      else if lt_percent p 85
      then unary_item
      else shift_item "rori" (0 ∷ 1 ∷ 31 ∷ [])

unfoldable pub g_zbs : M Item
g_zbs = do b ← chance 50; if b then register_item zbs_r else chosen_shift zbs_i (0 ∷ 31 ∷ [])

-- The lines of `li`.
unfoldable pub li_line : Instruction → Line
li_line (lui rd hi) = upper "lui" rd hi
li_line (addi rd rs i) = immediate "addi" rd rs i

unfoldable pub li_lines : ℕ → ℕ → List Line
li_lines rd v = map li_line (li rd v)

unfoldable pub g_li_special : M Item
g_li_special = do rd ← wreg 2; v ← val; pure (straight (li_lines rd v) 8)

-- `alu_one`: a category that touches neither memory nor control flow.
pub data AluCategory : Type 0 where
  c_alu_r c_alu_i c_m c_zba c_zbb c_zbs c_lui_auipc : AluCategory

unfoldable pub alu_category : AluCategory → M Item
alu_category c_alu_r = g_alu_r
alu_category c_alu_i = g_alu_i
alu_category c_m = g_m
alu_category c_zba = g_zba
alu_category c_zbb = g_zbb
alu_category c_zbs = g_zbs
alu_category c_lui_auipc = g_lui_auipc

unfoldable pub alu_one : M Item
alu_one = do
  cat ← choice (c_alu_r ∷ c_alu_i ∷ c_m ∷ c_zba ∷ c_zbb ∷ c_zbs ∷ c_lui_auipc ∷ [])
  alu_category cat
