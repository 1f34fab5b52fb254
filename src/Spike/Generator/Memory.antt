-- ===== src/Spike/Generator/Memory.antt =====
-- The items of tools/spike_diff/gen.py that use memory.
use determinant.Base.{
  ℕ, zero, suc, ◌+◌, ◌-◌, ◌*◌, ◌/◌, String, Bool, List, [], ◌∷◌, ◌++◌, ◌==◌, if◌then◌else◌,
}
use determinant.Base.Int.{ℤ, pos, neg}
use determinant.Spike.Generator.Lines.{
  Line, three, immediate, load, store, amo, lr, Item, straight, rvc,
}
use determinant.Spike.Generator.Draws.{
  Gen, M, ◌>>=◌, ◌>>◌, pure, gets, modify, below, choice, randrange, chance, member, without, tmp,
  wreg, rreg, cw, cr,
}
use determinant.Spike.Generator.Alu.{alu_one}

-- `AMOS`, and `LOADS` and `STORES` with the width of each.
abbrev pub amos : List String
amos =
    "amoswap" ∷ "amoadd" ∷ "amoxor" ∷ "amoand" ∷ "amoor" ∷ "amomin" ∷ "amomax" ∷ "amominu"
    ∷ "amomaxu" ∷ []

abbrev pub loads : List (String × ℕ)
loads = ("lb", 1) ∷ ("lbu", 1) ∷ ("lh", 2) ∷ ("lhu", 2) ∷ ("lw", 4) ∷ []

abbrev pub stores : List (String × ℕ)
stores = ("sb", 1) ∷ ("sh", 2) ∷ ("sw", 4) ∷ []

-- `addr(t, mask)`
unfoldable pub addr : (t mask : ℕ) → M (List Line)
addr t mask = do
  r ← rreg
  b ← gets (λ g. g.base)
  pure (immediate "andi" t r (pos mask) ∷ three "add" t t b ∷ [])

-- The lines, the immediate and the size that `mem_addr` returns.
pub record Address : Type 0 where
  pub lines : List Line
  pub offset : ℤ
  pub size : ℕ

-- `mem_addr(t, w)`
unfoldable pub biased_addr : (t w : ℕ) → List Line → M Address
biased_addr t w lines = do
  k ← randrange (1024 / w) (2047 / w + 1)
  pure (record {
    lines = lines ++ immediate "addi" t t (neg 2048) ∷ [];
    offset = pos (w * k);
    size = 12;
  })

unfoldable pub plain_addr : (w : ℕ) → List Line → M Address
plain_addr w lines = do
  k ← randrange 0 (1024 / w + 1)
  pure (record { lines = lines; offset = neg (w * k); size = 8 })

unfoldable pub mem_addr : (t w : ℕ) → M Address
mem_addr t w = do
  lines ← addr t (0x400 - w)
  biased ← chance 30
  if biased then biased_addr t w lines else plain_addr w lines

unfoldable pub g_load : M Item
g_load = do
  (op, w) ← choice loads
  t ← tmp
  a ← mem_addr t w
  rd ← wreg 6
  pure (straight (a.lines ++ load op rd a.offset t ∷ []) (a.size + 4))

unfoldable pub g_store : M Item
g_store = do
  (op, w) ← choice stores
  t ← tmp
  a ← mem_addr t w
  rs ← rreg
  pure (straight (a.lines ++ store op rs a.offset t ∷ []) (a.size + 4))

-- The choices of `g_c_mem`.
unfoldable pub c_lw : M Item
c_lw = do
  t ← cw
  k ← below 32
  lines ← addr t 0x37C
  rd ← cw
  pure (straight (lines ++ rvc (load "c.lw" rd (pos (4 * k)) t)) 10)

unfoldable pub c_sw : M Item
c_sw = do
  t ← cw
  k ← below 32
  lines ← addr t 0x37C
  rs ← cr
  pure (straight (lines ++ rvc (store "c.sw" rs (pos (4 * k)) t)) 10)

unfoldable pub c_lwsp : M Item
c_lwsp = do
  k ← below 64
  lines ← addr 2 0x2FC
  rd ← wreg 0
  pure (straight (lines ++ rvc (load "c.lwsp" rd (pos (4 * k)) 2)) 10)

unfoldable pub c_swsp : M Item
c_swsp = do
  k ← below 64
  lines ← addr 2 0x2FC
  rs ← rreg
  pure (straight (lines ++ rvc (store "c.swsp" rs (pos (4 * k)) 2)) 10)

unfoldable pub c_mem_case : (k : ℕ) → (sp_reserved : Bool) → M Item
c_mem_case k sp_reserved =
    if k == 0
    then c_lw
    else if k == 1
    then c_sw
    else if sp_reserved
    then g_load
    else if k == 2
    then c_lwsp
    else c_swsp

unfoldable pub g_c_mem : M Item
g_c_mem = do k ← below 4; sp_reserved ← gets (λ g. member 2 g.reserved); c_mem_case k sp_reserved

-- `aqrl`; the mnemonic with its suffix is one text.
unfoldable pub suffixes : List String
suffixes = "" ∷ "" ∷ ".aq" ∷ ".rl" ∷ ".aqrl" ∷ []

unfoldable pub aqrl : M String
aqrl = choice suffixes

unfoldable pub g_amo : M Item
g_amo = do
  op ← choice amos
  t ← tmp
  lines ← addr t 0x3FC
  suffix ← aqrl
  rd ← wreg 6
  rs ← rreg
  pure (straight (lines ++ amo op suffix rd rs t ∷ []) 12)

-- `reserved.add(t)`, and `reserved -= {t, r}`.
unfoldable pub reserve : ℕ → Gen → Gen
reserve t g = record g { reserved = t ∷ g.reserved }

unfoldable pub release : (t r : ℕ) → Gen → Gen
release t r g = record g { reserved = without (t ∷ r ∷ []) g.reserved }

-- The loads and the other instructions between LR and the first SC.
unfoldable pub window : ℕ → M (List Line × ℕ)
window zero = pure ([], 0)
window (suc n) = do
  is_load ← chance 25
  it ← if is_load then g_load else alu_one
  (lines, size) ← window n
  pure (it.lines ++ lines, it.size + size)

-- The register that SC addresses memory by, with the lines that set it: the LR's or another.
unfoldable pub sc_address : ℕ → M (ℕ × List Line × ℕ)
sc_address t = do
  other ← chance 25
  if other
      then (do r ← tmp; lines ← addr r 0x3FC; modify (reserve r); pure (r, lines, 8))
      else pure (t, [], 0)

unfoldable pub first_sc : ℕ → M Line
first_sc r = do suffix ← aqrl; rd ← wreg 6; rs ← rreg; pure (amo "sc" suffix rd rs r)

unfoldable pub sc_lines : (t r : ℕ) (second : Bool) → M (List Line × ℕ)
sc_lines t r second =
    if second
    then (do
      first ← first_sc r
      modify (release t r)
      rd ← wreg 6
      rs ← rreg
      pure (first ∷ amo "sc" "" rd rs r ∷ [], 8))
    else (do modify (release t r); first ← first_sc r; pure (first ∷ [], 4))

-- `g_lrsc` from LR on, where `t` has become reserved.
unfoldable pub lr_sequence : ℕ → List Line → M Item
lr_sequence t lines = do
  suffix ← aqrl
  rd ← wreg 6
  n ← below 4
  (between, between_size) ← window n
  (r, address, address_size) ← sc_address t
  second ← chance 20
  (scs, scs_size) ← sc_lines t r second
  pure (
      straight (lines ++ (lr suffix rd t ∷ (between ++ (address ++ scs))))
        (8 + 4 + between_size + address_size + scs_size))

unfoldable pub g_lrsc : M Item
g_lrsc = do t ← tmp; lines ← addr t 0x3FC; modify (reserve t); lr_sequence t lines

unfoldable pub g_sc_only : M Item
g_sc_only = do
  t ← tmp
  lines ← addr t 0x3FC
  rd ← wreg 6
  rs ← rreg
  pure (straight (lines ++ amo "sc" "" rd rs t ∷ []) 12)
