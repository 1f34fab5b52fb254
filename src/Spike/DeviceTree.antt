-- ===== src/Spike/DeviceTree.antt =====
-- tools/spike_diff/mkdtb.py: the writer of the flattened device tree for Spike. Strings are given
-- encoded, as lists of bytes.
pub mod Layout
use determinant.Base.{
  ℕ, zero, suc, ◌+◌, ◌-◌, ◌*◌, ◌/◌, ◌%◌, ◌^◌, ◌≤◌, ◌<◌, bit_and, bit_or, bit_xor, min, max, String,
  ◌≡◌, refl, sym, ap, ◌∙◌, subst, ◌≢◌, ◌↔◌, ◌⊎◌, inl, inr, Bool, true, false, ◌&&◌, ◌||◌, not,
  Option, none, some, List, [], ◌∷◌, ◌++◌, map, append_assoc, append-nil, arith, str_eq, eq_iff,
  ltb, leb, ◌==◌, if◌then◌else◌, ==_iff, Bool-cases, Option-cases, length, get_elem?, get_or, take,
  drop, length-append, All, All-append, In, append-eq-nil, All-take,
}
use determinant.Base.Text.{Text, codes, text_eq}

-- `struct.pack(">I", v)` of a v below 2 ^ 32. `build` raises where a larger one is to be packed:
-- the arguments are checked below, and no length or offset is above the size of the whole blob.
abbrev pub u32 : ℕ → List ℕ
u32 v = v / 16777216 % 256 ∷ v / 65536 % 256 ∷ v / 256 % 256 ∷ v % 256 ∷ []

pub u32s : List ℕ → List ℕ
u32s [] = []
u32s (v ∷ vs) = u32 v ++ u32s vs

-- `string(s)`
string : Text → List ℕ
string s = s ++ 0 ∷ []

-- A property: its name and its bytes.
abbrev pub Property : Type 0
Property = Text × List ℕ

-- The nodes of one level: a node with its properties and children, and the nodes behind it.
pub data Nodes : Type 0 where
  end : Nodes
  node : Text → List Property → (children behind : Nodes) → Nodes

-- `"%x" % n`, one round for each digit: nine rounds are enough below 2 ^ 36.
hex_digit : ℕ → ℕ
hex_digit d = if ltb d 10 then b'0' + d else b'a' + (d - 10)

hex_from : (rounds : ℕ) → ℕ → Text
unfolding hex_digit
hex_from zero n = []
hex_from (suc k) n =
    let high = hex_from k (n / 16) in
    if ltb n 16 then hex_digit n ∷ [] else high ++ hex_digit (n % 16) ∷ []

hex : ℕ → Text
unfolding hex_from
hex n = hex_from 9 n

interrupt_controller : Nodes → Nodes
unfolding u32s string
interrupt_controller behind =
    node (codes "interrupt-controller")
      ((codes "#address-cells", u32s (2 ∷ []))
        ∷ (codes "#interrupt-cells", u32s (1 ∷ []))
        ∷ (codes "interrupt-controller", [])
        ∷ (codes "compatible", string (codes "riscv,cpu-intc"))
        ∷ [])
      end behind

cpu : Text → Nodes → Nodes
unfolding u32s string interrupt_controller
cpu isa behind =
    node (codes "cpu@0")
      ((codes "device_type", string (codes "cpu"))
        ∷ (codes "reg", u32s (0 ∷ []))
        ∷ (codes "status", string (codes "okay"))
        ∷ (codes "compatible", string (codes "riscv"))
        ∷ (codes "riscv,isa", string isa)
        ∷ (codes "mmu-type", string (codes "riscv,sv32"))
        ∷ (codes "riscv,pmpregions", u32s (16 ∷ []))
        ∷ (codes "riscv,pmpgranularity", u32s (4 ∷ []))
        ∷ (codes "clock-frequency", u32s (1000000000 ∷ []))
        ∷ [])
      (interrupt_controller end) behind

cpus : Text → Nodes → Nodes
unfolding u32s cpu
cpus isa behind =
    node (codes "cpus")
      ((codes "#address-cells", u32s (1 ∷ []))
        ∷ (codes "#size-cells", u32s (0 ∷ []))
        ∷ (codes "timebase-frequency", u32s (10000000 ∷ []))
        ∷ [])
      (cpu isa end) behind

memory : ℕ → ℕ → Nodes → Nodes
unfolding u32s string hex
memory mem_base mem_size behind =
    node (codes "memory@" ++ hex mem_base)
      ((codes "device_type", string (codes "memory"))
        ∷ (codes "reg", u32s (0 ∷ mem_base ∷ 0 ∷ mem_size ∷ []))
        ∷ [])
      end behind

-- `tree`
unfoldable pub device_tree : Text → ℕ → ℕ → Nodes
unfolding u32s string cpus memory
device_tree isa mem_base mem_size =
    node []
      ((codes "#address-cells", u32s (2 ∷ []))
        ∷ (codes "#size-cells", u32s (2 ∷ []))
        ∷ (codes "compatible", string (codes "ucbbar,spike-bare-dev"))
        ∷ (codes "model", string (codes "ucbbar,spike-bare"))
        ∷ [])
      (cpus isa (
        memory mem_base mem_size
          (node (codes "htif") ((codes "compatible", string (codes "ucb,htif0")) ∷ []) end end)))
      end

-- `struct_blk`, `strings` and `str_off`.
pub record Writer : Type 0 where
  pub block : List ℕ
  pub strings : List ℕ
  pub str_off : List (Text × ℕ)

-- Before anything is emitted.
abbrev pub start : Writer
start = record { block = []; strings = []; str_off = [] }

offset_of : Text → List (Text × ℕ) → Option ℕ
offset_of name [] = none
offset_of name ((n, o) ∷ offs) =
    let rest = offset_of name offs in if text_eq name n then some o else rest

-- `stroff(name)`: the offset, and the writer with the name in its table.
stroff : Text → Writer → ℕ × Writer
unfolding offset_of string
stroff name w = elim (offset_of name w.str_off) [
  | some o ↦ (o, w)
  | none ↦ (
    length w.strings,
    record w { strings = w.strings ++ string name; str_off = (name, length w.strings) ∷ w.str_off },
  )
]

-- `while len(b) % 4: b.append(0)`, in at most three rounds.
pad_rounds : ℕ → List ℕ → List ℕ
pad_rounds zero b = b
pad_rounds (suc k) b =
    let rest = pad_rounds k (b ++ 0 ∷ []) in if length b % 4 == 0 then b else rest

pad4 : List ℕ → List ℕ
unfolding pad_rounds
pad4 b = pad_rounds 3 b

emit_property : Property → Writer → Writer
unfolding stroff u32s pad4
emit_property (name, val) w =
    let (off, w') = stroff name w in
    record w' { block = pad4 ((w'.block ++ u32s (3 ∷ length val ∷ off ∷ [])) ++ val) }

emit_properties : List Property → Writer → Writer
unfolding emit_property
emit_properties [] w = w
emit_properties (p ∷ ps) w = emit_properties ps (emit_property p w)

begin_node : Text → Writer → Writer
unfolding u32s string pad4
begin_node name w = record w { block = pad4 ((w.block ++ u32s (1 ∷ [])) ++ string name) }

end_node : Writer → Writer
unfolding u32s
end_node w = record w { block = w.block ++ u32s (2 ∷ []) }

-- `emit` on the nodes of one level in turn.
unfoldable pub emit : Nodes → Writer → Writer
unfolding begin_node emit_properties end_node
emit end w = w
emit (node name props children behind) w =
    emit behind (end_node (emit children (emit_properties props (begin_node name w))))

-- The header, the empty reservation block, the structure block and the strings.
unfoldable pub blob_of : Writer → List ℕ
unfolding u32s
blob_of w =
    let block = w.block ++ u32s (9 ∷ []) in
    let rsv_off = (40 + 7) / 8 * 8 in
    let rsv = u32s (0 ∷ 0 ∷ 0 ∷ 0 ∷ []) in
    let struct_off = rsv_off + length rsv in
    let strings_off = struct_off + length block in
    let total = strings_off + length w.strings in
    u32s (
      0xD00DFEED
      ∷ total
      ∷ struct_off
      ∷ strings_off
      ∷ rsv_off
      ∷ 17
      ∷ 16
      ∷ 0
      ∷ length w.strings
      ∷ length block
      ∷ [])
    ++ (rsv ++ (block ++ w.strings))

-- `none` is the `struct.error` of a number that needs more than 32 bits.
unfoldable pub build : Text → (mem_base mem_size : ℕ) → Option (List ℕ)
unfolding device_tree emit blob_of
build isa mem_base mem_size =
    let blob = blob_of (emit (device_tree isa mem_base mem_size) start) in
    if ltb mem_base (2 ^ 32) && (ltb mem_size (2 ^ 32) && ltb (length blob) (2 ^ 32))
    then some blob
    else none
