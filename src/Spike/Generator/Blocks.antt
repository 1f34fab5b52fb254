-- ===== src/Spike/Generator/Blocks.antt =====
-- `block` and `g_loop` of tools/spike_diff/gen.py, and the choice of categories.
use determinant.Base.{
  ℕ, zero, suc, ◌+◌, Bool, true, false, ◌&&◌, none, some, List, [], ◌∷◌, ◌++◌, ltb, leb,
  if◌then◌else◌,
}
use determinant.Base.Int.{neg}
use determinant.Spike.Generator.Lines.{
  to, Line, immediate, branch, branch_zero, label, Label, Item, straight, rvc,
}
use determinant.Spike.Generator.Draws.{
  Gen, M, ◌>>=◌, ◌>>◌, pure, gets, modify, choice, randrange, random, chance, without, range_from,
  next_label, tmp_from,
}
use determinant.Spike.Generator.Alu.{
  g_alu_r, g_alu_i, g_lui_auipc, g_m, g_zba, g_zbb, g_zbs, g_li_special, alu_one, li_lines,
}
use determinant.Spike.Generator.Compressed.{g_c_alu, g_c_hint}
use determinant.Spike.Generator.Memory.{g_load, g_store, g_c_mem, g_amo, g_lrsc, g_sc_only}
use determinant.Spike.Generator.Control.{
  g_branch, g_c_branch, g_jal, g_c_jump, g_jalr, g_c_jr, g_csr_scratch, g_csr_counter, g_fence,
}
use determinant.Spike.Generator.Resolve.{resolve}
use determinant.Spike.Generator.Mixes.{
  Category, Weights, cats, positive, total_weight, pick_weighted,
}

-- `getattr(self, "g_" + category)()`, where `loop` stands for `g_loop`.
unfoldable pub make_item : M Item → Category → M Item
make_item loop Category.alu_r = g_alu_r
make_item loop Category.alu_i = g_alu_i
make_item loop Category.lui_auipc = g_lui_auipc
make_item loop Category.m = g_m
make_item loop Category.zba = g_zba
make_item loop Category.zbb = g_zbb
make_item loop Category.zbs = g_zbs
make_item loop Category.li_special = g_li_special
make_item loop Category.c_alu = g_c_alu
make_item loop Category.c_hint = g_c_hint
make_item loop Category.load = g_load
make_item loop Category.store = g_store
make_item loop Category.c_mem = g_c_mem
make_item loop Category.amo = g_amo
make_item loop Category.lrsc = g_lrsc
make_item loop Category.sc_only = g_sc_only
make_item loop Category.branch = g_branch
make_item loop Category.c_branch = g_c_branch
make_item loop Category.jal = g_jal
make_item loop Category.c_jump = g_c_jump
make_item loop Category.jalr = g_jalr
make_item loop Category.c_jr = g_c_jr
make_item loop Category.loop = loop
make_item loop Category.csr_scratch = g_csr_scratch
make_item loop Category.csr_counter = g_csr_counter
make_item loop Category.fence = g_fence

unfoldable pub pick_category : Weights → (r : ℕ) → M Category
pick_category w r g s =
    let cs = positive w cats in
    elim (pick_weighted w 0 (total_weight w cs) r cs) [ none ↦ none | some c ↦ some (c, g, s) ]

-- `block(n)`
unfoldable pub block : Weights → M Item → ℕ → M (List Item)
block w loop zero = pure []
block w loop (suc n) = do
  r ← random
  cat ← pick_category w r
  it ← make_item loop cat
  rest ← block w loop n
  pure (it ∷ rest)

unfoldable pub items_size : List Item → ℕ
items_size [] = 0
items_size (it ∷ its) = it.size + items_size its

-- `self.reserved.add(c)` and `self.in_loop = True`, and what undoes them.
unfoldable pub enter_loop : ℕ → Gen → Gen
enter_loop c g = record g { reserved = c ∷ g.reserved; in_loop = true }

unfoldable pub leave_loop : ℕ → Gen → Gen
leave_loop c g = record g { reserved = without (c ∷ []) g.reserved; in_loop = false }

-- The branch back to the top of a loop, and its size.
unfoldable pub loop_branches : (c : ℕ) → Label → List Line
loop_branches c top =
    branch_zero "bnez" c (to top)
    ∷ branch "blt" 0 c (to top)
    ∷ branch "bne" c 0 (to top)
    ∷ branch "bltu" 0 c (to top)
    ∷ []

unfoldable pub is_short : (c body_size : ℕ) → Bool
is_short c body_size = (leb 8 c && leb c 15) && ltb body_size 200

unfoldable pub back_branch : (c body_size : ℕ) → Label → M (List Line × ℕ)
back_branch c body_size top = do
  short ← if is_short c body_size then chance 50 else pure false
  if short
      then pure (rvc (branch_zero "c.bnez" c (to top)), 2)
      else (do l ← choice (loop_branches c top); pure (l ∷ [], 4))

-- `g_loop` outside a loop; `body` makes that many items with `in_loop` set.
unfoldable pub new_loop : (body : ℕ → M (List Item)) → M Item
new_loop body = do
  c ← tmp_from (range_from 3 29)
  n ← randrange 1 7
  modify (enter_loop c)
  k ← randrange 1 11
  items ← body k
  modify (leave_loop c)
  top ← next_label
  cont ← next_label
  placed ← resolve items (some cont)
  (back, back_size) ← back_branch c (items_size items + 4) top
  pure (
      straight
        (li_lines c n
          ++ (label top ∷ (placed ++ (label cont ∷ immediate "addi" c c (neg 1) ∷ back))))
        (8 + (items_size items + 4) + back_size))

-- `g_loop`, to a depth: a loop's body is made with `in_loop` set, so no loop is begun at depth 1.
unfoldable pub g_loop : Weights → (depth : ℕ) → M Item
g_loop w zero = do inside ← gets (λ g. g.in_loop); if inside then alu_one else (λ g s. none)
g_loop w (suc depth) = do
  inside ← gets (λ g. g.in_loop)
  if inside then alu_one else new_loop (block w (g_loop w depth))

-- The items of a program's body.
unfoldable pub body_items : Weights → ℕ → M (List Item)
body_items w n = block w (g_loop w 1) n
