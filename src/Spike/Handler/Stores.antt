-- ===== src/Spike/Handler/Stores.antt =====
-- The stores of the trap handler of tools/spike_diff/template.py.
use determinant.Base.{
  ℕ, zero, suc, ◌+◌, ◌*◌, ◌%◌, ◌^◌, ◌≤◌, ◌<◌, ◌≡◌, refl, sym, ◌∙◌, subst, ◌≢◌, ◌⊎◌, inl, inr, false,
  List, [], ◌∷◌, ◌++◌, arith, ◌==◌, Bool-cases,
}
use determinant.Spike.Handler.{Symbol, Line, sw, save, Hart, step, run}

pub run-append :
    (syms : Symbol → ℕ) (xs ys : List Line) (h : Hart)
    → run syms (xs ++ ys) h ≡ run syms ys (run syms xs h)
unfolding run
run-append syms [] ys h = refl
run-append syms (x ∷ xs) ys h = run-append syms xs ys (step syms x h)

regs-sw :
    (syms : Symbol → ℕ) (rs offset : ℕ) (h : Hart)
    → (step syms (sw rs offset 31) h).regs 31 ≡ h.regs 31
unfolding step
regs-sw syms rs offset h = refl

-- The stores of the registers.
pub run-save :
    (syms : Symbol → ℕ) (n i d : ℕ) (h : Hart)
    → h.regs 31 ≡ d
    → d + 4 * (i + n) ≤ 2 ^ 32
    → ((run syms (save n i) h).regs ≡ h.regs) × ((run syms (save n i) h).csrs ≡ h.csrs)
unfolding run save step
run-save syms zero i d h base fits = (refl, refl)
run-save syms (suc n) i d h base fits =
    run-save syms n (i + 1) d (step syms (sw i (4 * i) 31) h) base (omega (arith, fits))

-- One store into the dump.
module _ (syms : Symbol → ℕ) (d i rs : ℕ) (h : Hart) (base : h.regs 31 ≡ d)
    (fits : d + 4 * i < 2 ^ 32) where
  store-hit : (step syms (sw rs (4 * i) 31) h).mem (d + 4 * i) ≡ h.regs rs
  unfolding step
  store-hit = ground (arith, base, fits)

  store-miss :
      (k : ℕ) → k ≢ i → (step syms (sw rs (4 * i) 31) h).mem (d + 4 * k) ≡ h.mem (d + 4 * k)
  unfolding step
  store-miss k ne =
      let apart : ((d + 4 * k) == ((h.regs 31 + 4 * i) % 2 ^ 32)) ≡ false =
        ground (arith, base, fits, ne) in
      rw apart refl

save-above :
    (syms : Symbol → ℕ) (n i d k : ℕ) (h : Hart)
    → h.regs 31 ≡ d
    → d + 4 * (i + n) ≤ 2 ^ 32
    → (k < i) ⊎ (i + n ≤ k)
    → (run syms (save n i) h).mem (d + 4 * k) ≡ h.mem (d + 4 * k)
unfolding run save
save-above syms zero i d k h base fits out = refl
save-above syms (suc n) i d k h base fits (inl low) =
    save-above syms n (i + 1) d k (step syms (sw i (4 * i) 31) h) (regs-sw syms i (4 * i) h ∙ base)
      (omega (arith, fits)) (inl (omega (arith, low)))
    ∙ store-miss syms d i i h base (omega (arith, fits)) k (λ e. absurd (omega (arith, e, low)))
save-above syms (suc n) i d k h base fits (inr high) =
    save-above syms n (i + 1) d k (step syms (sw i (4 * i) 31) h) (regs-sw syms i (4 * i) h ∙ base)
      (omega (arith, fits)) (inr (omega (arith, high)))
    ∙ store-miss syms d i i h base (omega (arith, fits)) k (λ e. absurd (omega (arith, e, high)))

pub save-inside :
    (syms : Symbol → ℕ) (n i d k : ℕ) (h : Hart)
    → h.regs 31 ≡ d
    → d + 4 * (i + n) ≤ 2 ^ 32
    → i ≤ k
    → k < i + n
    → (run syms (save n i) h).mem (d + 4 * k) ≡ h.regs k
unfolding run save
save-inside syms zero i d k h base fits from upto = absurd (omega (arith, from, upto))
save-inside syms (suc n) i d k h base fits from upto =
    let next = step syms (sw i (4 * i) 31) h in
    let based = regs-sw syms i (4 * i) h ∙ base in
    elim (Bool-cases (k == i)) [
      | inl same ↦
          let e : k ≡ i = ground (arith, same) in
          save-above syms n (i + 1) d k next based (omega (arith, fits)) (inl (omega (arith, e)))
          ∙ subst (λ j. next.mem (d + 4 * j) ≡ h.regs j) (sym e)
              (store-hit syms d i i h base (omega (arith, fits)))
      | inr later ↦
          let above : i + 1 ≤ k = ground (arith, later, from) in
          save-inside syms n (i + 1) d k next based (omega (arith, fits)) above
            (omega (arith, upto))
    ]
