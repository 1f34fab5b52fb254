-- ===== src/Spike/Generator/Mixes.antt =====
-- The categories of items of tools/spike_diff/gen.py and their weights in each mix.
use determinant.Base.{ℕ, ◌+◌, ◌*◌, ◌^◌, Option, none, some, List, [], ◌∷◌, ltb, ◌==◌, if◌then◌else◌}

pub data Category : Type 0 where
  alu_r alu_i lui_auipc m zba zbb zbs li_special c_alu c_hint load store c_mem amo lrsc : Category
  sc_only branch c_branch jal c_jump jalr c_jr loop csr_scratch csr_counter fence : Category

-- `CATS`
abbrev pub cats : List Category
cats =
    alu_r ∷ alu_i ∷ lui_auipc ∷ m ∷ zba ∷ zbb ∷ zbs ∷ li_special ∷ c_alu ∷ c_hint ∷ load ∷ store
    ∷ c_mem ∷ amo ∷ lrsc ∷ sc_only ∷ branch ∷ c_branch ∷ jal ∷ c_jump ∷ jalr ∷ c_jr ∷ loop
    ∷ csr_scratch ∷ csr_counter ∷ fence ∷ []

-- A mix's weights, in tenths; 0 is a category that the mix does not name.
abbrev pub Weights : Type 0
Weights = Category → ℕ

-- `MIXES`
abbrev pub mixed_weights : Weights
mixed_weights c = 10

abbrev pub alu_weights : Weights
alu_weights alu_r = 40
alu_weights alu_i = 40
alu_weights lui_auipc = 10
alu_weights m = 40
alu_weights zba = 20
alu_weights zbb = 40
alu_weights zbs = 30
alu_weights li_special = 30
alu_weights c_alu = 10
alu_weights branch = 5
alu_weights load = 5
alu_weights store = 5
alu_weights _ = 0

abbrev pub mem_weights : Weights
mem_weights load = 50
mem_weights store = 50
mem_weights c_mem = 40
mem_weights amo = 10
mem_weights alu_r = 10
mem_weights alu_i = 10
mem_weights m = 5
mem_weights li_special = 10
mem_weights branch = 5
mem_weights loop = 5
mem_weights lrsc = 5
mem_weights _ = 0

abbrev pub comp_weights : Weights
comp_weights c_alu = 60
comp_weights c_hint = 20
comp_weights c_mem = 30
comp_weights c_branch = 20
comp_weights c_jump = 20
comp_weights c_jr = 10
comp_weights alu_r = 10
comp_weights alu_i = 10
comp_weights li_special = 10
comp_weights loop = 5
comp_weights _ = 0

abbrev pub amo_weights : Weights
amo_weights amo = 50
amo_weights lrsc = 40
amo_weights sc_only = 10
amo_weights load = 10
amo_weights store = 10
amo_weights alu_r = 10
amo_weights alu_i = 10
amo_weights li_special = 10
amo_weights _ = 0

abbrev pub branch_weights : Weights
branch_weights branch = 40
branch_weights c_branch = 20
branch_weights jal = 20
branch_weights c_jump = 20
branch_weights jalr = 20
branch_weights c_jr = 20
branch_weights loop = 20
branch_weights alu_r = 10
branch_weights alu_i = 10
branch_weights li_special = 10
branch_weights m = 5
branch_weights load = 5
branch_weights store = 5
branch_weights _ = 0

abbrev pub csr_weights : Weights
csr_weights csr_scratch = 40
csr_weights csr_counter = 30
csr_weights alu_r = 10
csr_weights alu_i = 10
csr_weights li_special = 10
csr_weights fence = 10
csr_weights branch = 5
csr_weights _ = 0

abbrev pub mixes : List Weights
mixes =
    mixed_weights ∷ alu_weights ∷ mem_weights ∷ comp_weights ∷ amo_weights ∷ branch_weights
    ∷ csr_weights ∷ []

-- `[c for c in CATS if self.weights.get(c, 0) > 0]`
unfoldable pub positive : Weights → List Category → List Category
positive w [] = []
positive w (c ∷ cs) = let rest = positive w cs in if w c == 0 then rest else c ∷ rest

unfoldable pub total_weight : Weights → List Category → ℕ
total_weight w [] = 0
total_weight w (c ∷ cs) = w c + total_weight w cs

-- `rng.choices(cats, w)[0]` for a draw r of 53 bits, that is r / 2 ^ 53: the first category at which
-- the sum of the weights is above that part of the total, and the last one if there is none.
unfoldable pub pick_weighted : Weights → (sum total r : ℕ) → List Category → Option Category
pick_weighted w sum total r [] = none
pick_weighted w sum total r (c ∷ []) = some c
pick_weighted w sum total r (c ∷ d ∷ cs) =
    let later = pick_weighted w (sum + w c) total r (d ∷ cs) in
    if ltb (r * total) ((sum + w c) * 2 ^ 53) then some c else later
