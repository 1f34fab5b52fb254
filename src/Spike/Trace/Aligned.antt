-- ===== src/Spike/Trace/Aligned.antt =====
-- What the alignment of tools/spike_diff/trace.py compares.
use determinant.Base.{
  ℕ, zero, suc, ◌+◌, ◌≡◌, refl, sym, ◌∙◌, subst, ◌↔◌, ◌⊎◌, inl, inr, Bool, true, false, Option,
  none, some, List, [], ◌∷◌, ◌++◌, arith, ◌==◌, if◌then◌else◌, Bool-cases, All, append-eq-nil,
}
use determinant.Spike.Trace.{
  SpikeEvent, trap, committed, DetEvent, ended, stepped, Problem, register_differs, Dregs,
  write_all, ahead, or_else, counter_problem, known_problem, register_problem, register_problems,
  pc_problems, mscratch_problems, Result, verdict, align, align_traces, exit_status,
}

-- The counters that were read are ahead by c, where that is known.
Compatible : Option ℕ → ℕ → Type 0
Compatible none c = Unit
Compatible (some k) c = k ≡ c

-- What a register written with v on Spike last got on Determinant: nothing, the same, or for a
-- counter a value that is behind by c.
pub Fits : (c : ℕ) (is_counter : Bool) (r v : ℕ) → Option ℕ → Type 0
Fits c is_counter r v none = Unit
Fits c is_counter r v (some d) = (r ≡ 0) ⊎ ((d ≡ v) ⊎ ((is_counter ≡ true) × (ahead v d ≡ c)))

-- One register that differs, of a counter.
counter-nil :
    (r v d c : ℕ) (off : Option ℕ)
    → (counter_problem r v d off).0 ≡ []
    → Compatible (counter_problem r v d off).1 c
    → Compatible off c × (ahead v d ≡ c)
unfolding counter_problem or_else Compatible
counter-nil r v d c none h k = (tt, k)
counter-nil r v d c (some o) h k = elim (Bool-cases (ahead v d == o)) [
  | inl same ↦ let e : ahead v d ≡ o = ground (arith, same) in (k, e ∙ k)
  | inr other ↦ absurd (ground (arith, other, h))
]

nil-counter :
    (r v d c : ℕ) (off : Option ℕ)
    → Compatible off c
    → ahead v d ≡ c
    → ((counter_problem r v d off).0 ≡ []) × Compatible (counter_problem r v d off).1 c
unfolding counter_problem or_else Compatible
nil-counter r v d c none h e = (ground arith, e)
nil-counter r v d c (some o) h e = (ground (arith, h, e), h)

abbrev Known : (c : ℕ) (is_counter : Bool) (v d : ℕ) → Type 0
Known c is_counter v d = (d ≡ v) ⊎ ((is_counter ≡ true) × (ahead v d ≡ c))

Known-nil :
    (is_counter same : Bool) (r v d c : ℕ) (off : Option ℕ)
    → (d == v) ≡ same
    → (known_problem is_counter r v d off).0 ≡ []
    → Compatible (known_problem is_counter r v d off).1 c
    → Compatible off c × Known c is_counter v d
unfolding known_problem
Known-nil is_counter true r v d c off e h k = (
  subst
      (λ (b : Bool).
        Compatible
          (if b
            then ([], off)
            else if is_counter
            then counter_problem r v d off
            else (register_differs r v d ∷ [], off)).1
          c)
      e k,
  inl (ground (arith, e)),
)
Known-nil true false r v d c off e h k =
    let (fits, behind) =
      counter-nil r v d c off
        (subst (λ (b : Bool). (if b then ([], off) else counter_problem r v d off).0 ≡ []) e h)
        (subst (λ (b : Bool). Compatible (if b then ([], off) else counter_problem r v d off).1 c) e
          k) in
    (fits, inr (refl, behind))
Known-nil false false r v d c off e h k = absurd (ground (arith, e, h))

nil-Known :
    (is_counter same : Bool) (r v d c : ℕ) (off : Option ℕ)
    → (d == v) ≡ same
    → Compatible off c
    → Known c is_counter v d
    → ((known_problem is_counter r v d off).0 ≡ [])
      × Compatible (known_problem is_counter r v d off).1 c
unfolding known_problem
nil-Known is_counter true r v d c off e k f = rw e (refl, k)
nil-Known is_counter false r v d c off e k (inl same) = absurd (ground (arith, e, same))
nil-Known true false r v d c off e k (inr (counter, behind)) =
    rw e (nil-counter r v d c off k behind)
nil-Known false false r v d c off e k (inr (counter, behind)) = absurd (ground (arith, counter))

register-suc :
    (is_counter : Bool) (r v d : ℕ) (off : Option ℕ)
    → register_problem is_counter (suc r) v (some d) off ≡ known_problem is_counter (suc r) v d off
unfolding register_problem
register-suc is_counter r v d off = let e : (suc r == 0) ≡ false = ground arith in rw e refl

-- One register, written or not.
register-nil :
    (is_counter : Bool) (r v c : ℕ) (known off : Option ℕ)
    → (register_problem is_counter r v known off).0 ≡ []
    → Compatible (register_problem is_counter r v known off).1 c
    → Compatible off c × Fits c is_counter r v known
unfolding register_problem Fits
register-nil is_counter r v c none off h k = (k, tt)
register-nil is_counter zero v c (some d) off h k = (k, inl refl)
register-nil is_counter (suc r) v c (some d) off h k =
    let e = register-suc is_counter r v d off in
    let (fits, f) =
      Known-nil is_counter (d == v) (suc r) v d c off refl (subst (λ p. p.0 ≡ []) e h)
        (subst (λ p. Compatible p.1 c) e k) in
    (fits, inr f)

nil-register :
    (is_counter : Bool) (r v c : ℕ) (known off : Option ℕ)
    → Compatible off c
    → Fits c is_counter r v known
    → ((register_problem is_counter r v known off).0 ≡ [])
      × Compatible (register_problem is_counter r v known off).1 c
unfolding register_problem Fits
nil-register is_counter r v c none off k f = (refl, k)
nil-register is_counter zero v c (some d) off k f = (refl, k)
nil-register is_counter (suc r) v c (some d) off k (inl e) = absurd (omega (arith, e))
nil-register is_counter (suc r) v c (some d) off k (inr f) =
    subst (λ p. (p.0 ≡ []) × Compatible p.1 c) (sym (register-suc is_counter r v d off))
      (nil-Known is_counter (d == v) (suc r) v d c off refl k f)

-- The registers that a step of Spike writes.
AllFit : (c : ℕ) (is_counter : Bool) → Dregs → List (ℕ × ℕ) → Type 0
AllFit c is_counter dregs ws = All (λ (r, v). Fits c is_counter r v (dregs r)) ws

registers-nil :
    (is_counter : Bool) (dregs : Dregs) (ws : List (ℕ × ℕ)) (c : ℕ) (off : Option ℕ)
    → (register_problems is_counter dregs ws off).0 ≡ []
    → Compatible (register_problems is_counter dregs ws off).1 c
    → Compatible off c × AllFit c is_counter dregs ws
unfolding register_problems AllFit
registers-nil is_counter dregs [] c off h k = (k, tt)
registers-nil is_counter dregs ((r, v) ∷ ws) c off h k =
    let one = register_problem is_counter r v (dregs r) off in
    let (first, rest) = append-eq-nil one.0 (register_problems is_counter dregs ws one.1).0 h in
    let (next, fits) = registers-nil is_counter dregs ws c one.1 rest k in
    let (before, fit) = register-nil is_counter r v c (dregs r) off first next in
    (before, (fit, fits))

nil-registers :
    (is_counter : Bool) (dregs : Dregs) (ws : List (ℕ × ℕ)) (c : ℕ) (off : Option ℕ)
    → Compatible off c
    → AllFit c is_counter dregs ws
    → ((register_problems is_counter dregs ws off).0 ≡ [])
      × Compatible (register_problems is_counter dregs ws off).1 c
unfolding register_problems AllFit
nil-registers is_counter dregs [] c off k f = (refl, k)
nil-registers is_counter dregs ((r, v) ∷ ws) c off k (fit, fits) =
    let (first, next) = nil-register is_counter r v c (dregs r) off k fit in
    let one = register_problem is_counter r v (dregs r) off in
    let (rest, last) = nil-registers is_counter dregs ws c one.1 next fits in
    (rw (first, rest) refl, last)

-- The two values of mscratch, where both sides wrote it.
SameMscratch : Option ℕ → Option ℕ → Type 0
SameMscratch (some s) (some d) = s ≡ d
SameMscratch _ _ = Unit

mscratch-nil : (a b : Option ℕ) → (mscratch_problems a b ≡ []) ↔ SameMscratch a b
unfolding mscratch_problems SameMscratch
mscratch-nil none b = (λ h. tt, λ h. refl)
mscratch-nil (some s) none = (λ h. tt, λ h. refl)
mscratch-nil (some s) (some d) = (λ h. ground (arith, h), λ h. ground (arith, h))

pc-nil : (s d : ℕ) → (pc_problems s d ≡ []) ↔ (s ≡ d)
unfolding pc_problems
pc-nil s d = (λ h. ground (arith, h), λ h. ground (arith, h))

-- The steps up to the first that traps or ends match: the same pc, in each register that Spike
-- writes what fits, and the same mscratch. The counters are ahead by c throughout.
pub Matches : (c : ℕ) → Dregs → List SpikeEvent → List DetEvent → Type 0
unfolding AllFit SameMscratch
Matches c dregs (committed s ∷ sp) (stepped d ∷ dt) =
    (s.pc ≡ d.pc)
    × AllFit c s.is_counter (write_all d.regs dregs) s.regs
    × SameMscratch s.mscratch d.mscratch
    × Matches c (write_all d.regs dregs) sp dt
Matches c dregs _ _ = Unit

verdict-clean :
    (n : ℕ) (ps : List Problem) (later : Result)
    → exit_status (verdict n ps later) ≡ 0
    → (ps ≡ []) × (exit_status later ≡ 0)
unfolding verdict exit_status
verdict-clean n [] later h = (refl, h)
verdict-clean n (p ∷ ps) later h = absurd (omega (arith, h))

Compatible-some : (off : Option ℕ) → (c : ℕ) × Compatible off c
unfolding Compatible
Compatible-some none = (0, tt)
Compatible-some (some k) = (k, refl)

align-Matches :
    (n : ℕ) (sp : List SpikeEvent) (dt : List DetEvent) (dregs : Dregs) (off : Option ℕ)
    → exit_status (align n sp dt dregs off) ≡ 0
    → (c : ℕ) × Compatible off c × Matches c dregs sp dt
unfolding align Matches
align-Matches n [] dt dregs off h = let (c, k) = Compatible-some off in (c, k, tt)
align-Matches n (trap ∷ sp) dt dregs off h = let (c, k) = Compatible-some off in (c, k, tt)
align-Matches n (committed s ∷ sp) [] dregs off h = let (c, k) = Compatible-some off in (c, k, tt)
align-Matches n (committed s ∷ sp) (ended ∷ dt) dregs off h =
    let (c, k) = Compatible-some off in (c, k, tt)
align-Matches n (committed s ∷ sp) (stepped d ∷ dt) dregs off h =
    let now = write_all d.regs dregs in
    let regs = register_problems s.is_counter now s.regs off in
    let ms = mscratch_problems s.mscratch d.mscratch in
    let (clean, later) =
      verdict-clean n (pc_problems s.pc d.pc ++ (regs.0 ++ ms)) (align (n + 1) sp dt now regs.1)
        h in
    let (no_pc, others) = append-eq-nil (pc_problems s.pc d.pc) (regs.0 ++ ms) clean in
    let (no_regs, no_ms) = append-eq-nil regs.0 ms others in
    let (c, k, m) = align-Matches (n + 1) sp dt now regs.1 later in
    let (before, fits) = registers-nil s.is_counter now s.regs c off no_regs k in
    (c, before, ((pc-nil s.pc d.pc).0 no_pc, fits, (mscratch-nil s.mscratch d.mscratch).0 no_ms, m))

Matches-align :
    (n c : ℕ) (sp : List SpikeEvent) (dt : List DetEvent) (dregs : Dregs) (off : Option ℕ)
    → Compatible off c
    → Matches c dregs sp dt
    → exit_status (align n sp dt dregs off) ≡ 0
unfolding align Matches exit_status verdict
Matches-align n c [] dt dregs off k m = refl
Matches-align n c (trap ∷ sp) dt dregs off k m = refl
Matches-align n c (committed s ∷ sp) [] dregs off k m = refl
Matches-align n c (committed s ∷ sp) (ended ∷ dt) dregs off k m = refl
Matches-align n c (committed s ∷ sp) (stepped d ∷ dt) dregs off k (pc, fits, ms, m) =
    let now = write_all d.regs dregs in
    let (no_regs, next) = nil-registers s.is_counter now s.regs c off k fits in
    let regs = register_problems s.is_counter now s.regs off in
    rw ((pc-nil s.pc d.pc).1 pc, no_regs, (mscratch-nil s.mscratch d.mscratch).1 ms)
      (Matches-align (n + 1) c sp dt now regs.1 next m)

-- The aligner's exit status is 0 if and only if up to the first trap or end every step matches:
-- the pc, mscratch where both write it, and each register that Spike writes and Determinant has
-- written before, where the values that a counter gives may be ahead by one constant throughout.
pub align_traces-Matches :
    (sp : List SpikeEvent) (dt : List DetEvent)
    → (exit_status (align_traces sp dt) ≡ 0) ↔ ((c : ℕ) × Matches c (λ r. none) sp dt)
unfolding align_traces Compatible
align_traces-Matches sp dt = (
  (λ h. let (c, k, m) = align-Matches 0 sp dt (λ r. none) none h in (c, m)),
  λ (c, m). Matches-align 0 c sp dt (λ r. none) none tt m,
)
