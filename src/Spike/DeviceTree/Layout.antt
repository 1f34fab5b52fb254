-- ===== src/Spike/DeviceTree/Layout.antt =====
-- Where the parts of the written device tree stand.
use determinant.Base.{
  ℕ, zero, suc, ◌+◌, ◌*◌, ◌/◌, ◌%◌, ◌^◌, ◌≤◌, ◌<◌, ◌≡◌, refl, sym, ap, ◌∙◌, subst, ◌⊎◌, inl, inr,
  ◌&&◌, some, List, [], ◌∷◌, ◌++◌, arith, ltb, ◌==◌, Bool-cases, length, get_or, take, drop,
  length-append,
}
use determinant.Base.Text.{Text}
use determinant.Spike.DeviceTree.{
  u32, u32s, string, Nodes, end, node, Property, Writer, start, stroff, pad_rounds, pad4,
  emit_property, emit_properties, begin_node, end_node, emit, blob_of, build, device_tree,
}

-- The structure block ends at a multiple of four.
abbrev Aligned : Writer → Type 0
Aligned w = length w.block % 4 ≡ 0

pad_rounds-aligned :
    (k : ℕ) (b : List ℕ)
    → (length b % 4 ≡ 0) ⊎ (4 ≤ length b % 4 + k)
    → length (pad_rounds k b) % 4 ≡ 0
unfolding pad_rounds
pad_rounds-aligned zero b (inl h) = h
pad_rounds-aligned zero b (inr h) = absurd (omega arith)
pad_rounds-aligned (suc k) b h = elim (Bool-cases (length b % 4 == 0)) [
  | inl done ↦ ground (arith, done)
  | inr more ↦
      let longer : length (b ++ 0 ∷ []) ≡ length b + 1 = length-append b (0 ∷ []) in
      let rest = pad_rounds-aligned k (b ++ 0 ∷ []) (elim h [
        | inl e ↦ absurd (ground (arith, e, more))
        | inr enough ↦ one_more (length b) (length (b ++ 0 ∷ [])) longer enough
      ]) in
      ground (arith, more, rest)
]
  where
    one_more : (n m : ℕ) → m ≡ n + 1 → 4 ≤ n % 4 + suc k → (m % 4 ≡ 0) ⊎ (4 ≤ m % 4 + k)
    one_more n m e enough = elim (Bool-cases (n % 4 == 3)) [
      | inl three ↦ inl (ground (arith, three))
      | inr fewer ↦ inr (ground (arith, fewer))
    ]

pad4-aligned : (b : List ℕ) → length (pad4 b) % 4 ≡ 0
unfolding pad4
pad4-aligned b = elim (Bool-cases (length b % 4 == 0)) [
  | inl e ↦ pad_rounds-aligned 3 b (inl (ground (arith, e)))
  | inr e ↦ pad_rounds-aligned 3 b (inr (ground (arith, e)))
]

emit_properties-Aligned :
    (ps : List Property) (w : Writer) → Aligned w → Aligned (emit_properties ps w)
unfolding emit_properties emit_property
emit_properties-Aligned [] w h = h
emit_properties-Aligned ((name, val) ∷ ps) w h =
    emit_properties-Aligned ps (emit_property (name, val) w) (
      pad4-aligned
        (((stroff name w).1.block ++ u32s (3 ∷ length val ∷ (stroff name w).0 ∷ [])) ++ val))

end_node-Aligned : (w : Writer) → Aligned w → Aligned (end_node w)
unfolding end_node u32s
end_node-Aligned w h = omega (arith, length-append w.block (u32 2), h)

emit-Aligned : (t : Nodes) (w : Writer) → Aligned w → Aligned (emit t w)
unfolding emit begin_node
emit-Aligned end w h = h
emit-Aligned (node name props children behind) w h =
    let begun = begin_node name w in
    let filled = emit_properties props begun in
    emit-Aligned behind (end_node (emit children filled)) (
      end_node-Aligned (emit children filled) (
        emit-Aligned children filled (
          emit_properties-Aligned props begun
            (pad4-aligned ((w.block ++ u32s (1 ∷ [])) ++ string name)))))

-- The big-endian word at an offset.
pub word_at : List ℕ → ℕ → ℕ
word_at b off =
    get_or b off 0 * 16777216
    + get_or b (off + 1) 0 * 65536
    + get_or b (off + 2) 0 * 256
    + get_or b (off + 3) 0

-- The header describes the blob: the total size, the empty reservation block, a pair of zeros of 64
-- bits, behind the header of 40 bytes, the structure block, which is a multiple of four bytes long,
-- behind it, and the strings behind that, up to the end.
pub record IsLaidOut (struct strings blob : List ℕ) : Type 0 where
  pub magic : word_at blob 0 ≡ 0xD00DFEED
  pub total : word_at blob 4 ≡ length blob
  pub struct_at : word_at blob 8 ≡ 56
  pub reserved_at : word_at blob 16 ≡ 40
  pub reserved : take 16 (drop 40 blob) ≡ u32s (0 ∷ 0 ∷ 0 ∷ 0 ∷ [])
  pub struct_size : word_at blob 8 + word_at blob 36 ≡ word_at blob 12
  pub strings_size : word_at blob 12 + word_at blob 32 ≡ length blob
  pub aligned : word_at blob 36 % 4 ≡ 0
  pub struct_here : take (word_at blob 36) (drop (word_at blob 8) blob) ≡ struct
  pub strings_here : take (word_at blob 32) (drop (word_at blob 12) blob) ≡ strings

take-length : (xs ys : List ℕ) → take (length xs) (xs ++ ys) ≡ xs
take-length [] ys = refl
take-length (x ∷ xs) ys = ap (λ zs. x ∷ zs) (take-length xs ys)

take-whole : (xs : List ℕ) → take (length xs) xs ≡ xs
take-whole [] = refl
take-whole (x ∷ xs) = ap (λ zs. x ∷ zs) (take-whole xs)

drop-length : (xs ys : List ℕ) → drop (length xs) (xs ++ ys) ≡ ys
drop-length [] ys = refl
drop-length (x ∷ xs) ys = drop-length xs ys

drop-behind : (xs ys : List ℕ) (n : ℕ) → drop (length xs + n) (xs ++ ys) ≡ drop n ys
drop-behind [] ys n = ap (λ n. drop n ys) (omega arith)
drop-behind (x ∷ xs) ys n =
    let more : suc (length xs) + n ≡ suc (length xs + n) = omega arith in
    ap (λ n. drop n (x ∷ (xs ++ ys))) more ∙ drop-behind xs ys n

word_at-u32 :
    (v : ℕ)
    → v < 2 ^ 32
    → v / 16777216 % 256 * 16777216 + v / 65536 % 256 * 65536 + v / 256 % 256 * 256 + v % 256 ≡ v
word_at-u32 v h = omega arith

blob_of-length : (w : Writer) → length (blob_of w) ≡ 56 + (length w.block + 4) + length w.strings
unfolding blob_of u32s
blob_of-length w =
    let block = w.block ++ u32 9 ++ [] in
    omega (
      arith,
      length-append w.block (u32 9 ++ []),
      length-append (w.block ++ (u32 9 ++ [])) w.strings,
    )

-- What stands in the block: the nodes and the end token.
pub struct_of : Writer → List ℕ
struct_of w = w.block ++ u32s (9 ∷ [])

-- The strings are behind the 56 bytes and the structure block.
drop-strings : (w : Writer) → drop (56 + length (struct_of w)) (blob_of w) ≡ w.strings
unfolding blob_of u32s struct_of
drop-strings w =
    let n = length (struct_of w) in
    drop-behind (take 56 (blob_of w)) (drop 56 (blob_of w)) n ∙ drop-length (struct_of w) w.strings

blob_of-IsLaidOut :
    (w : Writer)
    → Aligned w
    → length (blob_of w) < 2 ^ 32
    → IsLaidOut (struct_of w) w.strings (blob_of w)
unfolding blob_of u32s word_at struct_of
blob_of-IsLaidOut w h small =
    let block = struct_of w in
    let size : length block ≡ length w.block + 4 = length-append w.block (u32 9) in
    let whole = blob_of-length w in
    let n = length block in
    let s = length w.strings in
    let block_word = word_at-u32 n (omega (arith, size, whole, small)) in
    let strings_at = word_at-u32 (56 + n) (omega (arith, size, whole, small)) in
    let strings_word = word_at-u32 s (omega (arith, size, whole, small)) in
    record {
      magic = refl;
      total =
          word_at-u32 (56 + n + s) (omega (arith, size, whole, small)) ∙ omega (arith, size, whole);
      struct_at = refl;
      reserved_at = refl;
      reserved = refl;
      struct_size = ap (λ x. 56 + x) block_word ∙ sym strings_at;
      strings_size =
          ap (λ x. x + word_at (blob_of w) 32) strings_at
          ∙ (ap (λ x. 56 + n + x) strings_word ∙ omega (arith, size, whole));
      aligned = ap (λ x. x % 4) block_word ∙ omega (arith, size, h);
      struct_here = ap (λ x. take x (block ++ w.strings)) block_word ∙ take-length block w.strings;
      strings_here =
          ap (λ x. take (word_at (blob_of w) 32) (drop x (blob_of w))) strings_at
          ∙ (ap (λ ys. take (word_at (blob_of w) 32) ys) (drop-strings w)
              ∙ (ap (λ x. take x w.strings) strings_word ∙ take-whole w.strings));
    }

-- Whatever the ISA string, the memory's base and its size, if `build` returns a blob then its
-- header describes it: the magic number, the total size, the empty reservation block, and the
-- offsets and the sizes at which the structure block, a multiple of four bytes long, and the
-- strings behind it stand, which are what the device tree's nodes are written to.
pub build-IsLaidOut :
    (isa : Text) (mem_base mem_size : ℕ) (blob : List ℕ)
    → build isa mem_base mem_size ≡ some blob
    → IsLaidOut
        (struct_of (emit (device_tree isa mem_base mem_size) start))
        (emit (device_tree isa mem_base mem_size) start).strings
        blob
unfolding build
build-IsLaidOut isa mem_base mem_size blob h =
    let w = emit (device_tree isa mem_base mem_size) start in
    let fits =
      ltb mem_base (2 ^ 32) && (ltb mem_size (2 ^ 32) && ltb (length (blob_of w)) (2 ^ 32)) in
    elim (Bool-cases fits) [
      | inr large ↦ absurd (ground (arith, large, h))
      | inl ok ↦
          let eq : blob_of w ≡ blob = ground (arith, ok, h) in
          subst (IsLaidOut (struct_of w) w.strings) eq (
            blob_of-IsLaidOut w (emit-Aligned (device_tree isa mem_base mem_size) start refl)
              (ground (arith, ok)))
    ]
