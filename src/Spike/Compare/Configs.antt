-- ===== src/Spike/Compare/Configs.antt =====
-- `compare_configs` of tools/spike_diff/pipeline.py: the runner's three records against each other.
use determinant.Base.{
  ◌≡◌, refl, sym, ap, ◌↔◌, inl, inr, Bool, true, false, Option, none, some, List, [], ◌∷◌, ◌++◌,
  arith, str_eq, eq_iff, ◌==◌, if◌then◌else◌, ==_iff, Bool-cases, All, append-eq-nil,
}
use determinant.Base.Text.{text_eq, text_eq_sound, text_eq_refl}
use determinant.Spike.Compare.{
  Record, Outcome, ebreak, ecall, illegal_instruction, misaligned_access, address_out_of_bounds,
  pc_out_of_bounds, misaligned_pc, other,
}

-- `CONFIGS`
pub data Config : Type 0 where
  cache nocache runtime : Config

-- The fields of a record, in the order of the runner's dict.
pub data Field : Type 0 where
  status epc retired final_pc x0 reservation regs mscratch digest mem : Field

pub data ConfigDiff : Type 0 where
  missing : List Config → ConfigDiff
  cache_differs : Field → ConfigDiff
  memory_differs : Field → ConfigDiff

-- `rec`: the records that the runner printed for one program.
abbrev pub Records : Type 0
Records = Config → Option Record

same_outcome : Outcome → Outcome → Bool
same_outcome ebreak ebreak = true
same_outcome ecall ecall = true
same_outcome illegal_instruction illegal_instruction = true
same_outcome misaligned_access misaligned_access = true
same_outcome address_out_of_bounds address_out_of_bounds = true
same_outcome pc_out_of_bounds pc_out_of_bounds = true
same_outcome misaligned_pc misaligned_pc = true
same_outcome (other s) (other t) = str_eq s t
same_outcome _ _ = false

-- `a[k] == b[k]`
same_field : Field → Record → Record → Bool
unfolding same_outcome
same_field status a b = same_outcome a.status b.status
same_field epc a b = a.epc == b.epc
same_field retired a b = a.retired == b.retired
same_field final_pc a b = a.final_pc == b.final_pc
same_field x0 a b = a.x0 == b.x0
same_field reservation a b = str_eq a.reservation b.reservation
same_field regs a b = text_eq a.regs b.regs
same_field mscratch a b = a.mscratch == b.mscratch
same_field digest a b = str_eq a.digest b.digest
same_field mem a b = text_eq a.mem b.mem

abbrev fields : List Field
fields = status ∷ epc ∷ retired ∷ final_pc ∷ x0 ∷ reservation ∷ regs ∷ mscratch ∷ digest ∷ mem ∷ []

-- `[… for k in a if a[k] != b[k]]`
differing : (Field → ConfigDiff) → List Field → Record → Record → List ConfigDiff
unfolding same_field
differing c [] a b = []
differing c (k ∷ ks) a b =
    let rest = differing c ks a b in if same_field k a b then rest else c k ∷ rest

absent : Config → Option Record → List Config
absent c none = c ∷ []
absent c (some r) = []

configs_found : Option Record → Option Record → Option Record → List ConfigDiff
unfolding differing absent
configs_found (some a) (some b) (some c) =
    differing cache_differs fields a b ++ differing memory_differs fields a c
configs_found a b c = missing (absent cache a ++ (absent nocache b ++ absent runtime c)) ∷ []

unfoldable pub compare_configs : Records → List ConfigDiff
unfolding configs_found
compare_configs rec = configs_found (rec cache) (rec nocache) (rec runtime)

same_outcome-eq : (a b : Outcome) → same_outcome a b ≡ true → a ≡ b
unfolding same_outcome
same_outcome-eq (other s) (other t) h = ap other ((eq_iff s t).0 h)
same_outcome-eq a b h = ground arith

outcome_refl : (a : Outcome) → same_outcome a a ≡ true
unfolding same_outcome
outcome_refl (other s) = (eq_iff s s).1 refl
outcome_refl a = refl

differing-nil :
    (c : Field → ConfigDiff) (ks : List Field) (a b : Record)
    → differing c ks a b ≡ []
    → All (λ k. same_field k a b ≡ true) ks
unfolding differing
differing-nil c [] a b h = tt
differing-nil c (k ∷ ks) a b h = elim (Bool-cases (same_field k a b)) [
  | inl e ↦ (e, differing-nil c ks a b (ground (arith, e)))
  | inr e ↦ absurd (ground (arith, e))
]

fields-eq : (a b : Record) → All (λ k. same_field k a b ≡ true) fields → a ≡ b
unfolding same_field
fields-eq a b (s, (e, (r, (f, (x, (v, (g, (m, (d, (n, _)))))))))) = λ i. record {
  status = same_outcome-eq a.status b.status s i;
  epc = (==_iff a.epc b.epc).0 e i;
  retired = (==_iff a.retired b.retired).0 r i;
  final_pc = (==_iff a.final_pc b.final_pc).0 f i;
  x0 = (==_iff a.x0 b.x0).0 x i;
  reservation = (eq_iff a.reservation b.reservation).0 v i;
  regs = text_eq_sound a.regs b.regs g i;
  mscratch = (==_iff a.mscratch b.mscratch).0 m i;
  digest = (eq_iff a.digest b.digest).0 d i;
  mem = text_eq_sound a.mem b.mem n i;
}

field_refl : (k : Field) (a : Record) → same_field k a a ≡ true
unfolding same_field
field_refl status a = outcome_refl a.status
field_refl epc a = (==_iff a.epc a.epc).1 refl
field_refl retired a = (==_iff a.retired a.retired).1 refl
field_refl final_pc a = (==_iff a.final_pc a.final_pc).1 refl
field_refl x0 a = (==_iff a.x0 a.x0).1 refl
field_refl reservation a = (eq_iff a.reservation a.reservation).1 refl
field_refl regs a = text_eq_refl a.regs
field_refl mscratch a = (==_iff a.mscratch a.mscratch).1 refl
field_refl digest a = (eq_iff a.digest a.digest).1 refl
field_refl mem a = text_eq_refl a.mem

differing_refl : (c : Field → ConfigDiff) (ks : List Field) (a : Record) → differing c ks a a ≡ []
unfolding differing
differing_refl c [] a = refl
differing_refl c (k ∷ ks) a = ground (arith, field_refl k a, differing_refl c ks a)

-- The three runs are one and the same record.
AllSame : Option Record → Option Record → Option Record → Type 0
AllSame a b c = (r : Record) × (a ≡ some r) × (b ≡ some r) × (c ≡ some r)

configs_found-nil : (a b c : Option Record) → configs_found a b c ≡ [] → AllSame a b c
unfolding configs_found AllSame
configs_found-nil (some a) (some b) (some c) h =
    let (x, y) = append-eq-nil (differing cache_differs fields a b) _ h in
    (
      a,
      refl,
      ap some (sym (fields-eq a b (differing-nil cache_differs fields a b x))),
      ap some (sym (fields-eq a c (differing-nil memory_differs fields a c y))),
    )
configs_found-nil none b c h = absurd (ground arith)
configs_found-nil (some a) none c h = absurd (ground arith)
configs_found-nil (some a) (some b) none h = absurd (ground arith)

-- `compare_configs` finds nothing exactly when all three runs are there and their records are
-- equal in every field.
pub compare_configs-nil_iff :
    (rec : Records)
    → (compare_configs rec ≡ [])
      ↔ ((r : Record) × (rec cache ≡ some r) × (rec nocache ≡ some r) × (rec runtime ≡ some r))
unfolding compare_configs
compare_configs-nil_iff rec = (
  λ h. unfold AllSame in configs_found-nil (rec cache) (rec nocache) (rec runtime) h,
  λ (r, a, b, c).
      unfold configs_found in
      rw (a, b, c, differing_refl cache_differs fields r) (differing_refl memory_differs fields r),
)
