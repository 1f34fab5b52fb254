-- ===== src/Mutation/Run/Recovery.antt =====
-- A run puts every source file back, by itself or by the recovery of the next run.
use determinant.Base.{
  ℕ, zero, suc, String, ◌≡◌, refl, sym, ap, ◌∙◌, subst, ◌≢◌, ◌⊎◌, inl, inr, Option, none, some,
  List, [], ◌∷◌, ◌++◌, arith, str_eq, eq_iff, Bool-cases, take, All, All-take,
}
use text.Mathlib.TextPositions.{eq_refl}
use determinant.Base.Text.{Text}
use determinant.Mutation.Run.{
  Content, raw, state, Tree, update, marker, Effect, begin, close, remove, outside, perform,
  perform_all, Job, attempt, at_last, run_mutant, recover,
}

-- What builds and the clean-up leave alone: `Source` are the source files and the marker.
pub record Keeps (Source : String → Type 0) (j : Job) : Type 0 where
  pub file_source : Source j.file
  pub marker_source : Source marker
  pub file_ne_marker : j.file ≢ marker
  pub test_keeps : (t : Tree) (p : String) → Source p → j.test t p ≡ t p
  pub test_all_keeps : (t : Tree) (p : String) → Source p → j.test_all t p ≡ t p
  pub clean_up_keeps : (t : Tree) (p : String) → Source p → j.clean_up t p ≡ t p

update_self : (t : Tree) (p : String) (c : Option Content) → update t p c p ≡ c
update_self t p c = rw eq_refl

pub update_ne : (t : Tree) (p q : String) (c : Option Content) → p ≢ q → update t p c q ≡ t q
update_ne t p q c h = ground (arith, eq_iff p q)

perform_all-append :
    (es fs : List Effect) (t : Tree) → perform_all (es ++ fs) t ≡ perform_all fs (perform_all es t)
unfolding perform_all
perform_all-append [] fs t = refl
perform_all-append (e ∷ es) fs t = perform_all-append es fs (perform e t)

recover-none : (part : Text) (t : Tree) → t marker ≡ none → recover part t ≡ some []
unfolding recover
recover-none part t e = ground (arith, e)

recover-raw : (part text : Text) (t : Tree) → t marker ≡ some (raw text) → recover part t ≡ none
unfolding recover
recover-raw part text t e = ground (arith, e)

recover-state :
    (part text : Text) (t : Tree) (i f : String)
    → t marker ≡ some (state i f text)
    → recover part t ≡ some (begin f part ∷ close f (raw text) ∷ remove marker ∷ [])
unfolding recover
recover-state part text t i f e = ground (arith, e)

module _ (Source : String → Type 0) (j : Job) (k : Keeps Source j) (old : Tree)
    (read : old j.file ≡ some (raw j.original)) where
  -- The source files other than the marker, and other than the mutated one, are as before.
  abbrev pub Others : Tree → Type 0
  Others t = (p : String) → Source p → p ≢ marker → p ≢ j.file → t p ≡ old p

  -- The marker says what to restore.
  pub record Marked (t : Tree) : Type 0 where
    pub mark : t marker ≡ some (state j.id j.file j.original)
    pub others : Others t

  -- Every source file is as before, and there is no marker.
  pub record Clean (t : Tree) : Type 0 where
    pub no_mark : t marker ≡ none
    pub same : (p : String) → Source p → p ≢ marker → t p ≡ old p

  -- An effect of the run behind the marker.
  data Behind : Effect → Type 0 where
    begin_file : (part : Text) → Behind (begin j.file part)
    close_file : (c : Content) → Behind (close j.file c)
    build :
        (f : Tree → Tree) → ((t : Tree) (p : String) → Source p → f t p ≡ t p) → Behind (outside f)

  write_keeps : (t : Tree) (c : Content) → Marked t → Marked (update t j.file (some c))
  write_keeps t c m = record {
    mark = update_ne t j.file marker (some c) k.file_ne_marker ∙ m.mark;
    others = λ p s nm nf. update_ne t j.file p (some c) (λ e. nf (sym e)) ∙ m.others p s nm nf;
  }

  Behind-Marked : {e : Effect} (t : Tree) → Behind e → Marked t → Marked (perform e t)
  unfolding perform
  Behind-Marked t (begin_file part) m = write_keeps t (raw part) m
  Behind-Marked t (close_file c) m = write_keeps t c m
  Behind-Marked t (build f keeps) m = record {
    mark = keeps t marker k.marker_source ∙ m.mark;
    others = λ p s nm nf. keeps t p s ∙ m.others p s nm nf;
  }

  All-Behind : (es : List Effect) (t : Tree) → All Behind es → Marked t → Marked (perform_all es t)
  unfolding perform_all
  All-Behind [] t h m = m
  All-Behind (e ∷ es) t (b, h) m = All-Behind es (perform e t) h (Behind-Marked t b m)

  restore : Text → List Effect
  restore part = begin j.file part ∷ close j.file (raw j.original) ∷ remove marker ∷ []

  -- The file's content after `restore`, at any path but the marker's.
  restored :
      (part : Text) (t : Tree) (p : String)
      → Source p
      → p ≢ marker
      → Others t
      → update (update t j.file (some (raw part))) j.file (some (raw j.original)) p ≡ old p
  restored part t p s nm others = elim (Bool-cases (str_eq j.file p)) [
    | inl e ↦ ground (arith, e, ap old ((eq_iff j.file p).0 e), read)
    | inr e ↦
        let away : p ≢ j.file = λ q. cc ((eq_iff j.file p).1 (sym q)) in
        ground (arith, e, others p s nm away)
  ]

  restore-Clean : (part : Text) (t : Tree) → Others t → Clean (perform_all (restore part) t)
  unfolding restore perform_all perform
  restore-Clean part t others =
      let t2 : Tree = update (update t j.file (some (raw part))) j.file (some (raw j.original)) in
      record {
        no_mark = update_self t2 marker none;
        same =
            λ p s nm. update_ne t2 marker p none (λ e. nm (sym e)) ∙ restored part t p s nm others;
      }

  clean_up-Clean : (t : Tree) → Clean t → Clean (j.clean_up t)
  clean_up-Clean t c = record {
    no_mark = k.clean_up_keeps t marker k.marker_source ∙ c.no_mark;
    same = λ p s nm. k.clean_up_keeps t p s ∙ c.same p s nm;
  }

  at_last-Clean : (t : Tree) → Others t → Clean (perform_all (at_last j) t)
  unfolding at_last
  at_last-Clean t others =
      unfold restore perform_all perform in
      clean_up-Clean (perform_all (restore j.part) t) (restore-Clean j.part t others)

  body : List Effect
  body =
      begin j.file j.part ∷ close j.file (raw j.mutated) ∷ outside j.test ∷ outside j.test_all ∷ []

  body-Behind : All Behind body
  unfolding body
  body-Behind = (
    begin_file j.part,
    (
      close_file (raw j.mutated),
      (build j.test k.test_keeps, (build j.test_all k.test_all_keeps, tt)),
    ),
  )

  after_mark : Tree
  after_mark =
      perform_all (begin marker j.part ∷ close marker (state j.id j.file j.original) ∷ []) old

  after_mark-Marked : Marked after_mark
  unfolding after_mark perform_all perform
  after_mark-Marked =
      let t1 : Tree = update old marker (some (raw j.part)) in
      let c : Option Content = some (state j.id j.file j.original) in
      record {
        mark = update_self t1 marker c;
        others = λ p s nm nf.
            update_ne t1 marker p c (λ e. nm (sym e))
            ∙ update_ne old marker p (some (raw j.part)) (λ e. nm (sym e));
      }

  abbrev Safe : Tree → Type 0
  Safe t = Marked t ⊎ Clean t

  -- However far the effects behind the marker and the `finally` block have come.
  prefix-Safe :
      (es : List Effect) (n : ℕ) (t : Tree)
      → All Behind es
      → Marked t
      → Safe (perform_all (take n (es ++ at_last j)) t)
  unfolding perform_all
  prefix-Safe es zero t h m = inl m
  prefix-Safe (e ∷ es) (suc n) t (b, h) m = prefix-Safe es n (perform e t) h (Behind-Marked t b m)
  prefix-Safe [] (suc zero) t h m = unfold at_last in inl (Behind-Marked t (begin_file j.part) m)
  prefix-Safe [] (suc (suc zero)) t h m =
      unfold at_last in
      inl (
        Behind-Marked (perform (begin j.file j.part) t) (close_file (raw j.original))
          (Behind-Marked t (begin_file j.part) m))
  prefix-Safe [] (suc (suc (suc zero))) t h m =
      unfold at_last restore in inr (restore-Clean j.part t m.others)
  prefix-Safe [] (suc (suc (suc (suc zero)))) t h m =
      unfold at_last in inr (at_last-Clean t m.others)
  prefix-Safe [] (suc (suc (suc (suc (suc n))))) t h m =
      unfold at_last in inr (at_last-Clean t m.others)

  attempt-Others : (n : ℕ) → Others (perform_all (take n (attempt j)) old)
  unfolding attempt perform_all
  attempt-Others zero p s nm nf = refl
  attempt-Others (suc zero) p s nm nf =
      unfold perform in update_ne old marker p (some (raw j.part)) (λ e. nm (sym e))
  attempt-Others (suc (suc n)) p s nm nf =
      unfold after_mark body in
      (All-Behind (take n body) after_mark (All-take Behind n body body-Behind)
          after_mark-Marked).others
        p s nm nf

  -- Wherever an exception leaves the `try` block (or none does), `run_mutant` ends with every
  -- source file as it was before and with no marker, if builds and the clean-up leave the source
  -- files and the marker alone.
  pub run_mutant-Clean : (n : ℕ) → Clean (perform_all (run_mutant j n) old)
  unfolding run_mutant
  run_mutant-Clean n =
      rw (perform_all-append (take n (attempt j)) (at_last j) old)
        (at_last-Clean (perform_all (take n (attempt j)) old) (attempt-Others n))

  -- The next run's recovery puts every source file back and removes the marker.
  pub Restores : Text → Tree → Type 0
  Restores part t = (es : List Effect) × (recover part t ≡ some es) × Clean (perform_all es t)

  -- What the next run's recovery makes of a tree: it raises and the source files are as before, or
  -- it puts them back.
  pub Recovers : Text → Tree → Type 0
  Recovers part t =
      ((recover part t ≡ none) × ((p : String) → Source p → p ≢ marker → t p ≡ old p))
      ⊎ Restores part t

  Safe-Restores : (part : Text) (t : Tree) → Safe t → Restores part t
  unfolding Restores perform_all
  Safe-Restores part t (inl m) = (
    restore part,
    unfold restore in recover-state part j.original t j.id j.file m.mark,
    restore-Clean part t m.others,
  )
  Safe-Restores part t (inr c) = ([], recover-none part t c.no_mark, c)

  Safe-Recovers : (part : Text) (t : Tree) → Safe t → Recovers part t
  unfolding Recovers
  Safe-Recovers part t safe = inr (Safe-Restores part t safe)

  -- A run killed between any two of its effects, the beginning and the end of a write included,
  -- leaves a tree that the next run's recovery puts back, or one in which the source files are as
  -- before and the recovery raises on a marker that is not whole. The run is one that no exception
  -- stopped before the marker was whole, it began without a marker, and builds and the clean-up
  -- leave the source files and the marker alone.
  pub recover-run_mutant :
      (n i : ℕ) (part : Text)
      → old marker ≡ none
      → Recovers part (perform_all (take i (run_mutant j (suc (suc n)))) old)
  unfolding run_mutant attempt perform_all
  recover-run_mutant n zero part none_yet =
      Safe-Recovers part old (inr (record { no_mark = none_yet; same = λ p s nm. refl }))
  recover-run_mutant n (suc zero) part none_yet =
      unfold Recovers perform in
      inl (
        recover-raw part j.part _ (update_self old marker (some (raw j.part))),
        λ p s nm. update_ne old marker p (some (raw j.part)) (λ e. nm (sym e)),
      )
  recover-run_mutant n (suc (suc i)) part none_yet =
      unfold body after_mark in
      Safe-Recovers part (perform_all (take i (take n body ++ at_last j)) after_mark) (
        prefix-Safe (take n body) i after_mark (All-take Behind n body body-Behind)
          after_mark-Marked)

  restore-Safe :
      (part : Text) (n : ℕ) (t : Tree) → Marked t → Safe (perform_all (take n (restore part)) t)
  unfolding restore perform_all
  restore-Safe part zero t m = inl m
  restore-Safe part (suc zero) t m = inl (Behind-Marked t (begin_file part) m)
  restore-Safe part (suc (suc zero)) t m = inl (
      Behind-Marked (perform (begin j.file part) t) (close_file (raw j.original))
        (Behind-Marked t (begin_file part) m))
  restore-Safe part (suc (suc (suc zero))) t m = inr (restore-Clean part t m.others)
  restore-Safe part (suc (suc (suc (suc n)))) t m = inr (restore-Clean part t m.others)

  -- A recovery of a tree whose marker says what to restore, killed between any two of its effects,
  -- leaves a tree that the next recovery puts right.
  pub recover-recover :
      (part part' : Text) (t : Tree) (es : List Effect) (n : ℕ)
      → Marked t
      → recover part t ≡ some es
      → Restores part' (perform_all (take n es) t)
  recover-recover part part' t es n m h =
      let eq : restore part ≡ es =
        unfold restore in cc (recover-state part j.original t j.id j.file m.mark) in
      subst (λ x. Restores part' (perform_all (take n x) t)) eq
        (Safe-Restores part' (perform_all (take n (restore part)) t) (restore-Safe part n t m))
