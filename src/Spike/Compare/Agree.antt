-- ===== src/Spike/Compare/Agree.antt =====
-- `compare` finds no difference exactly where the two final states agree.
use determinant.Base.{
  ℕ, zero, suc, ◌+◌, ◌-◌, ◌≤◌, ◌≡◌, refl, ap, subst, ◌↔◌, inl, inr, Bool, true, false, ◌||◌, not,
  Option, none, some, List, [], ◌∷◌, ◌++◌, arith, ltb, ◌==◌, if◌then◌else◌, ==_iff, Bool-cases,
  Option-cases, length, take, drop, In, append-eq-nil,
}
use determinant.Base.Text.{text_eq, text_eq_sound, text_eq_refl}
use determinant.Base.Int.{ℤ, pos, negsuc, sub_ℕ}
use determinant.Spike.Compare.{
  SpikeState, Record, Outcome, ebreak, ecall, Diff, outcome_diffs, reg_diffs, mem_loop, mem_diffs,
  compare, causes, cause_fits, member, same_int, want_retired, retires, report, after_rest,
  more_words, mem_length, outcome, epc, retired, x0_written,
}

-- What ECALL and EBREAK add to the count of retired instructions.
pub Retired : Outcome → ℕ → ℕ → Type 0
Retired ebreak spike det = det + 9 ≡ spike + 1
Retired ecall spike det = det + 9 ≡ spike + 1
Retired _ spike det = det + 9 ≡ spike

-- The two final states agree.
pub record Agree (sp : SpikeState) (det : Record) : Type 0 where
  pub reached : sp.marker_ok ≡ true
  pub cause :
      (want : List ℕ) × (c : ℕ) × (causes det.status ≡ some want) × (sp.mcause ≡ pos c) × In c want
  pub stopped_at : sp.mepc ≡ det.epc
  pub retired : Retired det.status sp.minstret det.retired
  pub x0 : det.x0 ≡ 0
  pub regs : take 31 sp.regs ≡ take 31 det.regs
  pub mscratch : sp.mscratch ≡ det.mscratch
  pub mem : sp.mem ≡ det.mem

some-inv {ℓ} : {A : Type ℓ} (a b : A) → some a ≡ some b → a ≡ b
some-inv a b h = cc

reg_diffs-nil : (n x : ℕ) (xs ys : List ℕ) → reg_diffs n x xs ys ≡ some [] → take n xs ≡ take n ys
unfolding reg_diffs
reg_diffs-nil zero x xs ys h = refl
reg_diffs-nil (suc n) x [] ys h = absurd (cc)
reg_diffs-nil (suc n) x (a ∷ xs) [] h = absurd (cc)
reg_diffs-nil (suc n) x (a ∷ xs) (b ∷ ys) h = elim (Option-cases (reg_diffs n (x + 1) xs ys)) [
  | inl e ↦ absurd (ground (arith, e))
  | inr (ds, e) ↦
      let same : a ≡ b = ground (arith, e, h) in
      let none_left : ds ≡ [] = ground (arith, e, h) in cc (reg_diffs-nil n (x + 1) xs ys (cc))
]

nil-reg_diffs :
    (n x : ℕ) (xs ys : List ℕ)
    → n ≤ length xs
    → take n xs ≡ take n ys
    → reg_diffs n x xs ys ≡ some []
unfolding reg_diffs
nil-reg_diffs zero x xs ys h e = refl
nil-reg_diffs (suc n) x [] ys h e = absurd (omega arith)
nil-reg_diffs (suc n) x (a ∷ xs) [] h e = absurd (cc)
nil-reg_diffs (suc n) x (a ∷ xs) (b ∷ ys) h e =
    let same : a ≡ b = cc in ground (arith, same, nil-reg_diffs n (x + 1) xs ys (omega arith) (cc))

take-drop_eq : (n : ℕ) (xs ys : List ℕ) → take n xs ≡ take n ys → drop n xs ≡ drop n ys → xs ≡ ys
take-drop_eq zero xs ys p q = q
take-drop_eq (suc n) [] [] p q = refl
take-drop_eq (suc n) [] (y ∷ ys) p q = absurd (cc)
take-drop_eq (suc n) (x ∷ xs) [] p q = absurd (cc)
take-drop_eq (suc n) (x ∷ xs) (y ∷ ys) p q = cc (take-drop_eq n xs ys (cc) q)

length-drop : (n : ℕ) (xs : List ℕ) → length (drop n xs) ≡ length xs - n
length-drop zero xs = omega arith
length-drop (suc n) [] = omega arith
length-drop (suc n) (x ∷ xs) = omega (arith, length-drop n xs)

report-inv :
    (silent : Bool) (off : ℕ) (ca cb : List ℕ) (ds : List Diff) (n : ℕ) (out : List Diff) (m : ℕ)
    → report silent off ca cb ds n ≡ some (out, m)
    → (n ≡ m) × (out ≡ [] → (silent ≡ true) × (ds ≡ []))
unfolding report
report-inv true off ca cb ds n out m h = (ground arith, λ e. (refl, ground arith))
report-inv false off ca cb ds n out m h = (ground arith, λ e. absurd (ground arith))

after_rest-inv :
    (silent : Bool) (off : ℕ) (ca cb : List ℕ) (rest : Option (List Diff × ℕ)) (out : List Diff)
    (m : ℕ)
    → after_rest silent off ca cb rest ≡ some (out, m)
    → (ds : List Diff) × (rest ≡ some (ds, m)) × (out ≡ [] → (silent ≡ true) × (ds ≡ []))
unfolding after_rest
after_rest-inv silent off ca cb none out m h = absurd (cc)
after_rest-inv silent off ca cb (some (ds, total)) out m h =
    let (same, inv) = report-inv silent off ca cb ds total out m h in
    (ds, ap (λ (t : ℕ). some (ds, t)) same, inv)

abbrev next : (n : ℕ) → List ℕ → List ℕ → ℕ
next n xs ys = if text_eq (take 4 xs) (take 4 ys) then n else n + 1

module _ (f off n a b : ℕ) (xs ys : List ℕ) where
  abbrev later : Option (List Diff × ℕ)
  later = mem_loop f (off + 4) (next n (a ∷ xs) (b ∷ ys)) (drop 4 (a ∷ xs)) (drop 4 (b ∷ ys))

  loop_step :
      (out : List Diff) (m : ℕ)
      → mem_loop (suc f) off n (a ∷ xs) (b ∷ ys) ≡ some (out, m)
      → (ds : List Diff) × (later ≡ some (ds, m))
        × (out ≡ [] → ((text_eq (take 4 (a ∷ xs)) (take 4 (b ∷ ys)) || ltb 7 n) ≡ true) × (ds ≡ []))
  unfolding mem_loop
  loop_step out m h =
      after_rest-inv (text_eq (take 4 (a ∷ xs)) (take 4 (b ∷ ys)) || ltb 7 n) off (take 4 (a ∷ xs))
        (take 4 (b ∷ ys)) later out m h

-- The count only grows.
mem_loop-count :
    (f off n : ℕ) (xs ys : List ℕ) (ds : List Diff) (total : ℕ)
    → mem_loop f off n xs ys ≡ some (ds, total)
    → n ≤ total
mem_loop-count zero off n xs ys ds total h = unfold mem_loop in ground arith
mem_loop-count (suc f) off n [] ys ds total h = unfold mem_loop in ground arith
mem_loop-count (suc f) off n (a ∷ xs) [] ds total h = unfold mem_loop in ground arith
mem_loop-count (suc f) off n (a ∷ xs) (b ∷ ys) ds total h =
    let (ds', e, _) = loop_step f off n a b xs ys ds total h in
    ground (
      arith,
      mem_loop-count f (off + 4) (next n (a ∷ xs) (b ∷ ys)) (drop 4 (a ∷ xs)) (drop 4 (b ∷ ys)) ds'
          total e,
    )

-- A loop that reports nothing and counts at most eight words has met equal memories.
mem_loop-nil :
    (f off n : ℕ) (xs ys : List ℕ) (total : ℕ)
    → mem_loop f off n xs ys ≡ some ([], total)
    → total ≤ 8
    → length xs ≤ f
    → length xs ≡ length ys
    → xs ≡ ys
mem_loop-nil zero off n [] [] total h few fuel len = refl
mem_loop-nil zero off n [] (y ∷ ys) total h few fuel len = absurd (omega arith)
mem_loop-nil zero off n (x ∷ xs) ys total h few fuel len = absurd (omega arith)
mem_loop-nil (suc f) off n [] [] total h few fuel len = refl
mem_loop-nil (suc f) off n [] (y ∷ ys) total h few fuel len = absurd (omega arith)
mem_loop-nil (suc f) off n (a ∷ xs) [] total h few fuel len = absurd (omega arith)
mem_loop-nil (suc f) off n (a ∷ xs) (b ∷ ys) total h few fuel len =
    let (ds, e, inv) = loop_step f off n a b xs ys [] total h in
    let (quiet, nil) = inv refl in
    let e' : later f off n a b xs ys ≡ some ([], total) = cc (e, nil) in
    elim (Bool-cases (text_eq (take 4 (a ∷ xs)) (take 4 (b ∷ ys)))) [
      | inl same ↦ take-drop_eq 4 (a ∷ xs) (b ∷ ys) (text_eq_sound _ _ same) (
          mem_loop-nil f (off + 4) (next n (a ∷ xs) (b ∷ ys)) (drop 4 (a ∷ xs)) (drop 4 (b ∷ ys))
            total e' few (omega (arith, length-drop 3 xs))
            (omega (arith, length-drop 3 xs, length-drop 3 ys)))
      | inr differ ↦ absurd (
          ground (
            arith,
            differ,
            quiet,
            mem_loop-count f (off + 4) (next n (a ∷ xs) (b ∷ ys)) (drop 4 (a ∷ xs))
                (drop 4 (b ∷ ys)) [] total e',
          ))
    ]

mem_diffs-nil : (xs ys : List ℕ) → mem_diffs xs ys ≡ some [] → xs ≡ ys
unfolding mem_diffs
mem_diffs-nil xs ys h = elim (Bool-cases (text_eq xs ys)) [
  | inl same ↦ text_eq_sound xs ys same
  | inr differ ↦ elim (Option-cases (mem_loop (length xs) 0 0 xs ys)) [
    | inl e ↦ absurd (ground (arith, differ, e))
    | inr ((ds, n), e) ↦
        let all : some (
              ds
              ++ ((if ltb 8 n then more_words n ∷ [] else [])
                  ++ (if length xs == length ys
                      then []
                      else mem_length (length xs) (length ys) ∷ [])))
            ≡ some [] =
          ground (arith, differ, e, h) in
        let (a, r) = append-eq-nil ds _ (some-inv _ _ all) in
        let (b, c) = append-eq-nil (if ltb 8 n then more_words n ∷ [] else []) _ r in
        mem_loop-nil (length xs) 0 0 xs ys n (cc (e, a)) (ground arith) (omega arith) (ground arith)
  ]
]

nil-mem_diffs : (xs ys : List ℕ) → xs ≡ ys → mem_diffs xs ys ≡ some []
unfolding mem_diffs
nil-mem_diffs xs ys e = rw e (ground (arith, text_eq_refl ys))

member-In : (x : ℕ) (xs : List ℕ) → (member x xs ≡ true) ↔ In x xs
unfolding member
member-In x [] = (λ h. absurd (cc), λ h. absurd h)
member-In x (y ∷ ys) = elim (Bool-cases (x == y)) [
  | inl e ↦ (λ h. inl (ground arith), λ h. ground (arith, e))
  | inr e ↦ (
    λ h. inr ((member-In x ys).0 (ground (arith, e))),
    λ h. elim h [ inl q ↦ absurd (ground arith) | inr i ↦ ground (arith, e, (member-In x ys).1 i) ],
  )
]

Caused : ℤ → Option (List ℕ) → Type 0
Caused c o = (want : List ℕ) × (n : ℕ) × (o ≡ some want) × (c ≡ pos n) × In n want

cause_fits-Caused : (c : ℤ) (o : Option (List ℕ)) → (cause_fits c o ≡ true) ↔ Caused c o
unfolding cause_fits Caused
cause_fits-Caused c none = (λ h. absurd (cc), λ (w, n, e, _, _). absurd (cc))
cause_fits-Caused (pos m) (some want) = (
  λ h. (want, m, refl, refl, (member-In m want).0 h),
  λ (w, n, e, p, i). (member-In m want).1 (subst (In m) (cc e) (subst (λ k. In k w) (cc p) i)),
)
cause_fits-Caused (negsuc m) (some want) = (λ h. absurd (cc), λ (w, n, e, p, i). absurd (cc))

same_int-eq : (a b : ℤ) → (same_int a b ≡ true) ↔ (a ≡ b)
unfolding same_int
same_int-eq (pos a) (pos b) = (λ h. ground arith, λ h. ground arith)
same_int-eq (pos a) (negsuc b) = (λ h. absurd (cc), λ h. absurd (cc))
same_int-eq (negsuc a) (pos b) = (λ h. absurd (cc), λ h. absurd (cc))
same_int-eq (negsuc a) (negsuc b) = (λ h. ground arith, λ h. ground arith)

Retired-iff :
    (o : Outcome) (spike det : ℕ) → (pos det ≡ sub_ℕ (spike + retires o) 9) ↔ Retired o spike det
unfolding retires Retired
Retired-iff ebreak spike det = (λ h. ground arith, λ h. ground arith)
Retired-iff ecall spike det = (λ h. ground arith, λ h. ground arith)
Retired-iff _ spike det = (λ h. ground arith, λ h. ground arith)

three_tests :
    (a b c : Bool) (x y z : Diff)
    → ((if not a then x ∷ [] else if not b then y ∷ [] else if not c then z ∷ [] else []) ≡ [])
      ↔ ((a ≡ true) × (b ≡ true) × (c ≡ true))
three_tests true true true x y z = (λ h. (refl, refl, refl), λ h. refl)
three_tests true true false x y z = (λ h. absurd (cc), λ h. absurd (cc))
three_tests true false c x y z = (λ h. absurd (cc), λ h. absurd (cc))
three_tests false b c x y z = (λ h. absurd (cc), λ h. absurd (cc))

outcome_diffs-nil :
    (sp : SpikeState) (det : Record)
    → (outcome_diffs sp det ≡ []) ↔ (
        Caused sp.mcause (causes det.status)
        × (sp.mepc ≡ det.epc)
        × Retired det.status sp.minstret det.retired)
unfolding outcome_diffs want_retired
outcome_diffs-nil sp det =
    let want = want_retired sp det in
    let c = cause_fits sp.mcause (causes det.status) in
    let r = same_int (pos det.retired) want in
    let tests =
      three_tests c (sp.mepc == det.epc) r (outcome sp.mcause sp.mepc det.status det.epc)
        (epc sp.mepc det.epc) (retired det.retired want) in
    (
      λ h.
          let (a, b, d) = tests.0 h in
          (
            (cause_fits-Caused sp.mcause (causes det.status)).0 a,
            (==_iff sp.mepc det.epc).0 b,
            (Retired-iff det.status sp.minstret det.retired).0
                ((same_int-eq (pos det.retired) want).0 d),
          ),
      λ (a, b, d). tests.1 (
        (cause_fits-Caused sp.mcause (causes det.status)).1 a,
        (==_iff sp.mepc det.epc).1 b,
        (same_int-eq (pos det.retired) want).1
            ((Retired-iff det.status sp.minstret det.retired).1 d),
      ),
    )

if-nil : (b : Bool) (x : Diff) → ((if b then [] else x ∷ []) ≡ []) ↔ (b ≡ true)
if-nil true x = (λ h. refl, λ h. refl)
if-nil false x = (λ h. absurd (cc), λ h. absurd (cc))

module _ (sp : SpikeState) (det : Record) where
  pub compare-Agree : compare sp det ≡ some [] → Agree sp det
  unfolding compare Caused
  compare-Agree h = elim (Bool-cases sp.marker_ok) [
    | inr lost ↦ absurd (ground (arith, lost))
    | inl ok ↦ elim (Option-cases (reg_diffs 31 1 sp.regs det.regs)) [
      | inl e ↦ absurd (ground (arith, ok, e))
      | inr (rs, e) ↦ elim (Option-cases (mem_diffs sp.mem det.mem)) [
        | inl m ↦ absurd (ground (arith, ok, e, m))
        | inr (ms, m) ↦
            let all : some (
                  outcome_diffs sp det
                  ++ ((if det.x0 == 0 then [] else x0_written det.x0 ∷ [])
                      ++ (rs
                          ++ ((if sp.mscratch == det.mscratch
                                then []
                                else Diff.mscratch sp.mscratch det.mscratch ∷ [])
                              ++ ms))))
                ≡ some [] =
              ground (arith, ok, e, m, h) in
            let (o, h1) = append-eq-nil (outcome_diffs sp det) _ (some-inv _ _ all) in
            let (x, h2) = append-eq-nil (if det.x0 == 0 then [] else x0_written det.x0 ∷ []) _ h1 in
            let (r, h3) = append-eq-nil rs _ h2 in
            let (s, h4) =
              append-eq-nil
                (if sp.mscratch == det.mscratch
                  then []
                  else Diff.mscratch sp.mscratch det.mscratch ∷ [])
                _ h3 in
            let (c, at, count) = (outcome_diffs-nil sp det).0 o in
            record {
              reached = ok;
              cause = c;
              stopped_at = at;
              retired = count;
              x0 = (==_iff det.x0 0).0 ((if-nil (det.x0 == 0) _).0 x);
              regs = reg_diffs-nil 31 1 sp.regs det.regs (cc (e, r));
              mscratch =
                  (==_iff sp.mscratch det.mscratch).0
                    ((if-nil (sp.mscratch == det.mscratch) _).0 s);
              mem = mem_diffs-nil sp.mem det.mem (cc (m, h4));
            }
      ]
    ]
  ]

  Agree-compare : 31 ≤ length sp.regs → Agree sp det → compare sp det ≡ some []
  unfolding compare Caused
  Agree-compare full a = rw (
    a.reached,
    nil-reg_diffs 31 1 sp.regs det.regs full a.regs,
    nil-mem_diffs sp.mem det.mem a.mem,
    (outcome_diffs-nil sp det).1 (a.cause, a.stopped_at, a.retired),
    (==_iff det.x0 0).1 a.x0,
    (==_iff sp.mscratch det.mscratch).1 a.mscratch,
  )

-- With the 31 registers in Spike's dump, `compare` reports no difference exactly when Spike reached
-- its trap handler with a cause that fits the runner's status, and the stop address, the retired
-- instructions (one more on Determinant for ECALL and EBREAK), x0 = 0, the registers, mscratch and
-- all of the memory agree.
pub compare-nil_iff :
    (sp : SpikeState) (det : Record)
    → 31 ≤ length sp.regs
    → (compare sp det ≡ some []) ↔ Agree sp det
compare-nil_iff sp det full = (compare-Agree sp det, Agree-compare sp det full)
