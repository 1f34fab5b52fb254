-- ===== src/Spike/Generator/Lines.antt =====
-- The lines of assembly that tools/spike_diff/gen.py writes, by the shape of their f-strings, with
-- the registers that they write and the bytes that the assembler makes of them.
use determinant.Base.{
  ℕ, ◌+◌, String, ◌≡◌, Bool, true, false, none, some, List, [], ◌∷◌, ◌++◌, arith, str_eq,
  if◌then◌else◌,
}
use determinant.Base.Text.{codes, strip_prefix}
use determinant.Base.Int.{ℤ}

-- A label `L{n}`.
abbrev pub Label : Type 0
Label = ℕ

-- `{L}`, and what `resolve` puts in its place.
pub data Target : Type 0 where
  hole : Target
  to : Label → Target

-- What `la` loads the address of.
pub data Place : Type 0 where
  place : Target → Place
  offset_place : Target → ℤ → (odd : ℕ) → Place
  data_middle : Place

pub data Source : Type 0 where
  reg : ℕ → Source
  imm : ℕ → Source

-- A constructor for each shape; the text is the mnemonic.
pub data Line : Type 0 where
  three : String → (rd a b : ℕ) → Line
  immediate : String → (rd a : ℕ) → ℤ → Line
  two : String → (rd a : ℕ) → Line
  one : String → (rd : ℕ) → ℤ → Line
  upper : String → (rd hi : ℕ) → Line
  adjust_sp : ℤ → Line
  add_sp : (rd offset : ℕ) → Line
  load : String → (rd : ℕ) → ℤ → (base : ℕ) → Line
  store : String → (rs : ℕ) → ℤ → (base : ℕ) → Line
  amo : (op suffix : String) → (rd rs base : ℕ) → Line
  lr : (suffix : String) → (rd base : ℕ) → Line
  branch : String → (a b : ℕ) → Target → Line
  branch_zero : String → (a : ℕ) → Target → Line
  jal : (rd : ℕ) → Target → Line
  jump : String → Target → Line
  jalr : (rd : ℕ) → ℤ → (base : ℕ) → Line
  jump_register : String → (rs : ℕ) → Line
  la : (rd : ℕ) → Place → Line
  csr : String → (rd : ℕ) → String → Source → Line
  csrr : (rd : ℕ) → String → Line
  csrw : String → (rs : ℕ) → Line
  plain : String → Line
  option : String → Line
  two_bytes : ℕ → Line
  four_bytes : ℕ → Line
  label : Label → Line

-- The registers that a line writes. `.2byte` and `.4byte` stand for HINTs and for reserved
-- encodings, which write none.
unfoldable pub written : Line → List ℕ
written (three op rd a b) = rd ∷ []
written (immediate op rd a i) = rd ∷ []
written (two op rd a) = rd ∷ []
written (one op rd i) = rd ∷ []
written (upper op rd hi) = rd ∷ []
written (adjust_sp i) = 2 ∷ []
written (add_sp rd offset) = rd ∷ []
written (load op rd i base) = rd ∷ []
written (store op rs i base) = []
written (amo op suffix rd rs base) = rd ∷ []
written (lr suffix rd base) = rd ∷ []
written (branch op a b t) = []
written (branch_zero op a t) = []
written (jal rd t) = rd ∷ []
written (jump op t) = if str_eq op "c.jal" then 1 ∷ [] else []
written (jalr rd i base) = rd ∷ []
written (jump_register op rs) = if str_eq op "c.jalr" then 1 ∷ [] else []
written (la rd p) = rd ∷ []
written (csr op rd name s) = rd ∷ []
written (csrr rd name) = rd ∷ []
written (csrw name rs) = []
written (plain op) = []
written (option op) = []
written (two_bytes enc) = []
written (four_bytes enc) = []
written (label l) = []

-- A mnemonic of the compressed extension.
unfoldable pub is_compressed : String → Bool
unfolding strip_prefix
is_compressed op = elim (strip_prefix (codes "c.") (codes op)) [ none ↦ false | some r ↦ true ]

unfoldable pub mnemonic_size : String → ℕ
unfolding is_compressed
mnemonic_size op = if is_compressed op then 2 else 4

-- The bytes of a line: `la` is AUIPC and ADDI, and without `.option rvc` nothing is compressed that
-- is not written so.
unfoldable pub line_size : Line → ℕ
unfolding mnemonic_size
line_size (three op rd a b) = mnemonic_size op
line_size (immediate op rd a i) = mnemonic_size op
line_size (two op rd a) = mnemonic_size op
line_size (one op rd i) = mnemonic_size op
line_size (upper op rd hi) = mnemonic_size op
line_size (adjust_sp i) = 2
line_size (add_sp rd offset) = 2
line_size (load op rd i base) = mnemonic_size op
line_size (store op rs i base) = mnemonic_size op
line_size (amo op suffix rd rs base) = 4
line_size (lr suffix rd base) = 4
line_size (branch op a b t) = 4
line_size (branch_zero op a t) = mnemonic_size op
line_size (jal rd t) = 4
line_size (jump op t) = 2
line_size (jalr rd i base) = 4
line_size (jump_register op rs) = 2
line_size (la rd p) = 8
line_size (csr op rd name s) = 4
line_size (csrr rd name) = 4
line_size (csrw name rs) = 4
line_size (plain op) = mnemonic_size op
line_size (option op) = 0
line_size (two_bytes enc) = 2
line_size (four_bytes enc) = 4
line_size (label l) = 0

unfoldable pub lines_size : List Line → ℕ
unfolding line_size
lines_size [] = 0
lines_size (l ∷ ls) = line_size l + lines_size ls

pub lines_size-append : (xs ys : List Line) → lines_size (xs ++ ys) ≡ lines_size xs + lines_size ys
unfolding lines_size
lines_size-append [] ys = omega arith
lines_size-append (x ∷ xs) ys = omega (arith, lines_size-append xs ys)

-- `Item`
pub record Item : Type 0 where
  pub lines : List Line
  pub size : ℕ
  pub branches : Bool
  pub maxdist : ℕ

-- `Item(lines, size)`
abbrev pub straight : List Line → ℕ → Item
straight ls n = record { lines = ls; size = n; branches = false; maxdist = 0 }

-- `Item(lines, size, True, maxdist)`
abbrev pub branching : List Line → ℕ → ℕ → Item
branching ls n d = record { lines = ls; size = n; branches = true; maxdist = d }

-- `rvc(line)`
abbrev pub rvc : Line → List Line
rvc l = option "rvc" ∷ l ∷ option "norvc" ∷ []
