-- ===== src/Spike/Generator/Sound/Addresses.antt =====
-- What the lines of `Gen.addr` and `Gen.mem_addr` of tools/spike_diff/gen.py leave in a register.
use determinant.Base.{
  ℕ, zero, suc, ◌+◌, ◌-◌, ◌*◌, ◌/◌, ◌%◌, ◌^◌, ◌≤◌, ◌<◌, bit_and, String, ◌≡◌, sym, ap, ◌∙◌, subst,
  ◌≢◌, ◌⊎◌, inl, inr, ◌||◌, List, [], ◌∷◌, ◌++◌, arith, str_eq, if◌then◌else◌,
}
use determinant.Base.Int.{ℤ, pos, neg}
use determinant.Spike.Generator.Lines.{Line, three, immediate, load, store, amo}
use determinant.Spike.Generator.Draws.{Gen, below}
use determinant.Spike.Generator.Rules.{Draws, Draws-bind, Draws-pure, Draws-gets}
use determinant.Spike.Generator.Registers.{IsRoomy, Draws-rreg}
use determinant.Spike.Generator.Memory.{addr}
use determinant.Base.Int.{◌+ℤ◌}
use determinant.Base.Bits.{bit_and_fields, bit_and_step, bit_and-zero}
use determinant.Spike.Constants.{Registers, write, wrap32, write_read, write_other}

-- The instructions that an address is made of, by the RISC-V specification; the others are left out.
unfoldable pub step_line : Line → Registers → Registers
unfolding write wrap32
step_line (immediate op rd a i) regs =
    if str_eq op "andi"
    then write regs rd (bit_and (regs a) (wrap32 i))
    else if str_eq op "addi"
    then write regs rd (wrap32 (pos (regs a) +ℤ i))
    else regs
step_line (three op rd a b) regs =
    if str_eq op "add" then write regs rd ((regs a + regs b) % 2 ^ 32) else regs
step_line l regs = regs

-- The bytes that an instruction accesses.
unfoldable pub width : String → ℕ
width op =
    if (str_eq op "lb" || str_eq op "lbu") || str_eq op "sb"
    then 1
    else if (str_eq op "lh" || str_eq op "lhu") || str_eq op "sh"
    then 2
    else 4

-- An access of w bytes at address x is aligned and inside the 2048 bytes around the middle.
pub record InData (middle w x : ℕ) : Type 0 where
  pub above : middle ≤ x + 1024
  pub below_end : x + w ≤ middle + 1024
  pub aligned : x % w ≡ 0

-- The accesses of lines that compute one address, where x0 is not written.
unfoldable pub Inside : (middle : ℕ) → Registers → List Line → Type 0
unfolding step_line width
Inside middle regs [] = Unit
Inside middle regs (load op rd i base ∷ ls) =
    InData middle (width op) (wrap32 (pos (regs base) +ℤ i)) × Inside middle regs ls
Inside middle regs (store op rs i base ∷ ls) =
    InData middle (width op) (wrap32 (pos (regs base) +ℤ i)) × Inside middle regs ls
Inside middle regs (amo op suffix rd rs base ∷ ls) =
    InData middle 4 (regs base) × Inside middle regs ls
Inside middle regs (l ∷ ls) = Inside middle (step_line l regs) ls

-- A mask bounds what it leaves.
pub bit_and-le : (rounds x m : ℕ) → m ≤ rounds → bit_and x m ≤ m
bit_and-le zero x zero h = omega (arith, bit_and-zero x)
bit_and-le zero x (suc m) h = absurd (omega arith)
bit_and-le (suc k) x zero h = omega (arith, bit_and-zero x)
bit_and-le (suc k) x (suc m) h =
    ground (arith, bit_and_step x (suc m), bit_and-le k (x / 2) (suc m / 2) (omega arith))

pub bit_and-fours : (x m : ℕ) → bit_and x (m * 4) % 4 ≡ 0
bit_and-fours x m = ground (arith, bit_and_fields 2 (x / 4) m (x % 4) 0, bit_and-zero (x % 4))

pub bit_and-twos : (x m : ℕ) → bit_and x (m * 2) % 2 ≡ 0
bit_and-twos x m = ground (arith, bit_and_fields 1 (x / 2) m (x % 2) 0, bit_and-zero (x % 2))

-- An address, with its bias and its offset.
pub biased-sum :
    (a o : ℕ)
    → a < 2 ^ 32
    → 2048 ≤ a + o
    → a + o < 2 ^ 32 + 2048
    → wrap32 (pos (wrap32 (pos a +ℤ neg 2048)) +ℤ pos o) ≡ a + o - 2048
unfolding wrap32
biased-sum a o h low high = ground arith

pub forward-sum : (a o : ℕ) → a + o < 2 ^ 32 → wrap32 (pos a +ℤ pos o) ≡ a + o
unfolding wrap32
forward-sum a o h = ground arith

pub plain-sum : (a o : ℕ) → a < 2 ^ 32 → o ≤ a → wrap32 (pos a +ℤ neg o) ≡ a - o
unfolding wrap32
plain-sum a o h low = ground arith

abbrev pub IsWidth : ℕ → Type 0
IsWidth w = (w ≡ 1) ⊎ ((w ≡ 2) ⊎ (w ≡ 4))

pub IsWidth-range : (w : ℕ) → IsWidth w → 1024 / w < 2047 / w + 1
IsWidth-range w (inl e) = rw e (omega arith)
IsWidth-range w (inr (inl e)) = rw e (omega arith)
IsWidth-range w (inr (inr e)) = rw e (omega arith)

pub IsWidth-mask : (w : ℕ) → IsWidth w → 0x400 - w < 1024
IsWidth-mask w (inl e) = omega (arith, e)
IsWidth-mask w (inr (inl e)) = omega (arith, e)
IsWidth-mask w (inr (inr e)) = omega (arith, e)

-- The masked part of an address of w bytes, for the widths that there are.
pub masked :
    (x w : ℕ) → IsWidth w → (bit_and x (0x400 - w) ≤ 0x400 - w) × (bit_and x (0x400 - w) % w ≡ 0)
masked x w (inl e) = rw e (bit_and-le 1023 x 1023 (omega arith), omega arith)
masked x w (inr (inl e)) = rw e (bit_and-le 1022 x 1022 (omega arith), bit_and-twos x 511)
masked x w (inr (inr e)) = rw e (bit_and-le 1020 x 1020 (omega arith), bit_and-fours x 255)

unfoldable pub run_lines : List Line → Registers → Registers
unfolding step_line
run_lines [] regs = regs
run_lines (l ∷ ls) regs = run_lines ls (step_line l regs)

-- Lines after which register t with that offset addresses w bytes in the data.
pub record Aims (middle : ℕ) (regs : Registers) (t w : ℕ) (off : ℤ) (ls : List Line) : Type 0 where
  pub hits : InData middle w (wrap32 (pos (run_lines ls regs t) +ℤ off))
  pub enter :
      (rest : List Line) → Inside middle (run_lines ls regs) rest → Inside middle regs (ls ++ rest)

abbrev pub addr_pair : (t b r mask : ℕ) → List Line
addr_pair t b r mask = immediate "andi" t r (pos mask) ∷ three "add" t t b ∷ []

pub Draws-addr_pair :
    {g : Gen} (t mask : ℕ)
    → IsRoomy 0 g
    → Draws g (addr t mask) (λ ls. (r : ℕ) × (ls ≡ addr_pair t g.base r mask))
unfolding addr
Draws-addr_pair t mask room = Draws-bind (Draws-rreg room) λ r _.
    Draws-bind (Draws-gets (λ g. g.base)) λ b e. Draws-pure _ (r, ap (λ b. addr_pair t b r mask) e)

-- What the theorems ask of the registers: the base register holds the middle of the data.
pub record IsBased (middle b t : ℕ) (regs : Registers) : Type 0 where
  pub holds : regs b ≡ middle
  pub low : 1024 ≤ middle
  pub high : middle + 1024 ≤ 2 ^ 32
  pub aligned : middle % 4 ≡ 0
  pub nonzero : t ≢ 0
  pub other : b ≢ t

pub wrap32-small : (n : ℕ) → n < 2 ^ 32 → wrap32 (pos n) ≡ n
unfolding wrap32
wrap32-small n h = omega arith

module _ (middle b t : ℕ) (regs : Registers) (based : IsBased middle b t regs) (r mask : ℕ)
    (small : mask < 1024) where
  abbrev pub masked_reg : ℕ
  masked_reg = bit_and (regs r) mask

  abbrev pub addr_lines : List Line
  addr_lines = addr_pair t b r mask

  -- The two lines of `addr`.
  pub run-addr : run_lines addr_lines regs t ≡ masked_reg + middle
  unfolding run_lines step_line
  run-addr =
      let set = write regs t (bit_and (regs r) (wrap32 (pos mask))) in
      write_read set t ((set t + set b) % 2 ^ 32) based.nonzero
      ∙ omega (
        arith,
        write_read regs t (bit_and (regs r) (wrap32 (pos mask))) based.nonzero,
        write_other regs t (bit_and (regs r) (wrap32 (pos mask))) b based.other,
        ap (bit_and (regs r)) (wrap32-small mask (omega (arith, small))),
        bit_and-le mask (regs r) mask (omega arith),
        small,
        based.holds,
        based.high,
      )

  pub Aims-addr :
      (w : ℕ) (off : ℤ)
      → InData middle w (wrap32 (pos (masked_reg + middle) +ℤ off))
      → Aims middle regs t w off addr_lines
  unfolding run_lines step_line Inside
  Aims-addr w off inside = record {
    hits = subst (λ a. InData middle w (wrap32 (pos a +ℤ off))) (sym run-addr) inside;
    enter = λ rest h. h;
  }

  pub Aims-biased :
      (w : ℕ) (off : ℤ)
      → InData middle w (wrap32 (pos (wrap32 (pos (masked_reg + middle) +ℤ neg 2048)) +ℤ off))
      → Aims middle regs t w off (addr_lines ++ immediate "addi" t t (neg 2048) ∷ [])
  unfolding run_lines step_line Inside
  Aims-biased w off inside = record {
    hits =
        subst (λ a. InData middle w (wrap32 (pos a +ℤ off)))
          (sym (
            write_read (run_lines addr_lines regs) t
              (wrap32 (pos (run_lines addr_lines regs t) +ℤ neg 2048)) based.nonzero
            ∙ ap (λ a. wrap32 (pos a +ℤ neg 2048)) run-addr))
          inside;
    enter = λ rest h. h;
  }

-- The arithmetic of `mem_addr`, for a width that divides the data's half.
pub two_nonzero : ◌≢◌ {A = ℕ} 2 0
two_nonzero e = absurd (omega (arith, e))

pub fixed-InData :
    (middle m o : ℕ)
    → middle + 1024 ≤ 2 ^ 32
    → m + o + 4 ≤ 1024
    → (middle + m + o) % 4 ≡ 0
    → InData middle 4 (wrap32 (pos (m + middle) +ℤ pos o))
fixed-InData middle m o high h aligned =
    let sum = forward-sum (m + middle) o (omega arith) in
    record {
      above = rw sum (omega arith);
      below_end = rw sum (omega arith);
      aligned = rw sum (omega (arith, aligned));
    }

module _ (middle m o : ℕ) (low : 1024 ≤ middle) (high : middle + 1024 ≤ 2 ^ 32) where
  pub biased-InData_at :
      (w : ℕ)
      → m + w ≤ 1024
      → 1024 ≤ o
      → o < 2048
      → (m + middle + o - 2048) % w ≡ 0
      → InData middle w (wrap32 (pos (wrap32 (pos (m + middle) +ℤ neg 2048)) +ℤ pos o))
  biased-InData_at w hm from below aligned =
      let sum = biased-sum (m + middle) o (omega arith) (omega arith) (omega arith) in
      record {
        above = rw sum (omega arith);
        below_end = rw sum (omega arith);
        aligned = rw sum aligned;
      }

  pub plain-InData_at :
      (w : ℕ)
      → m + w ≤ 1024
      → o ≤ 1024
      → (m + middle - o) % w ≡ 0
      → InData middle w (wrap32 (pos (m + middle) +ℤ neg o))
  plain-InData_at w hm below aligned =
      let sum = plain-sum (m + middle) o (omega arith) (omega arith) in
      record {
        above = rw sum (omega arith);
        below_end = rw sum (omega arith);
        aligned = rw sum aligned;
      }

-- What `mem_addr` draws, for each width.
module _ (middle m k : ℕ) (low : 1024 ≤ middle) (high : middle + 1024 ≤ 2 ^ 32)
    (fours : middle % 4 ≡ 0) where
  abbrev pub BiasedAims : ℕ → Type 0
  BiasedAims w =
      m ≤ 0x400 - w
      → m % w ≡ 0
      → 1024 / w ≤ k
      → k < 2047 / w + 1
      → InData middle w (wrap32 (pos (wrap32 (pos (m + middle) +ℤ neg 2048)) +ℤ pos (w * k)))

  pub biased-InData : (w : ℕ) → IsWidth w → BiasedAims w
  biased-InData w (inl e) = subst BiasedAims (sym e) λ hm hw from upto.
      biased-InData_at middle m (1 * k) low high 1 (omega arith) (omega arith) (omega arith)
        (omega arith)
  biased-InData w (inr (inl e)) = subst BiasedAims (sym e) λ hm hw from upto.
      biased-InData_at middle m (2 * k) low high 2 (omega arith) (omega arith) (omega arith)
        (omega arith)
  biased-InData w (inr (inr e)) = subst BiasedAims (sym e) λ hm hw from upto.
      biased-InData_at middle m (4 * k) low high 4 (omega arith) (omega arith) (omega arith)
        (omega arith)

  abbrev pub PlainAims : ℕ → Type 0
  PlainAims w =
      m ≤ 0x400 - w
      → m % w ≡ 0
      → k < 1024 / w + 1
      → InData middle w (wrap32 (pos (m + middle) +ℤ neg (w * k)))

  pub plain-InData : (w : ℕ) → IsWidth w → PlainAims w
  plain-InData w (inl e) = subst PlainAims (sym e) λ hm hw upto.
      plain-InData_at middle m (1 * k) low high 1 (omega arith) (omega arith) (omega arith)
  plain-InData w (inr (inl e)) = subst PlainAims (sym e) λ hm hw upto.
      plain-InData_at middle m (2 * k) low high 2 (omega arith) (omega arith) (omega arith)
  plain-InData w (inr (inr e)) = subst PlainAims (sym e) λ hm hw upto.
      plain-InData_at middle m (4 * k) low high 4 (omega arith) (omega arith) (omega arith)
