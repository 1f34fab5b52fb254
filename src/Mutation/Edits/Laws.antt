-- ===== src/Mutation/Edits/Laws.antt =====
-- What an accepted edit list did to the text, and when a list is refused.
use determinant.Base.{
  ℕ, zero, suc, ◌+◌, ◌≤◌, ◌<◌, ◌≡◌, refl, ap, ◌≢◌, ◌↔◌, inl, inr, none, some, List, [], ◌∷◌, ◌++◌,
  arith, ◌==◌, Bool-cases, Option-cases, length, length-append, All,
}
use determinant.Base.Text.{Text, strip_prefix, strip_prefix_sound, strip_prefix_complete}
use determinant.Mutation.Edits.{
  Edit, edited, edit_error, count_from, count, replace_first, apply_from, apply_edits,
}

-- `needle` starts at no place of `text`.
pub Absent : Text → Text → Type 0
Absent needle text = (before after : Text) → text ≢ before ++ (needle ++ after)

-- `text` is `before`, the needle and `after`: the leftmost place where the needle starts, and no
-- other one starts behind its end.
pub record OnlyAt (needle text before after : Text) : Type 0 where
  pub splits : text ≡ before ++ (needle ++ after)
  pub leftmost : (b a : Text) → text ≡ b ++ (needle ++ a) → length before ≤ length b
  pub last : Absent needle after

no_start : (needle t a : Text) → strip_prefix needle t ≡ none → t ≢ needle ++ a
no_start needle t a s e = cc (strip_prefix_complete needle a, ap (strip_prefix needle) e, s)

start : (needle t a : Text) → t ≡ needle ++ a → strip_prefix needle t ≡ some a
start needle t a e = cc (strip_prefix_complete needle a, ap (strip_prefix needle) e)

Absent-nil : (p : ℕ) (ps b a : Text) → [] ≢ b ++ ((p ∷ ps) ++ a)
Absent-nil p ps [] a e = cc
Absent-nil p ps (x ∷ b) a e = cc

Absent-cons :
    (needle : Text) (c : ℕ) (text : Text)
    → strip_prefix needle (c ∷ text) ≡ none
    → Absent needle text
    → (b a : Text) → c ∷ text ≢ b ++ (needle ++ a)
unfolding Absent
Absent-cons needle c text s h [] a e = no_start needle (c ∷ text) a s e
Absent-cons needle c text s h (x ∷ b) a e = h b a (cc)

Absent-tail : (needle : Text) (c : ℕ) (text : Text) → Absent needle (c ∷ text) → Absent needle text
unfolding Absent
Absent-tail needle c text h b a e = h (c ∷ b) a (ap (λ t. c ∷ t) e)

module _ (p : ℕ) (ps : Text) where
  rest_shorter :
      (c : ℕ) (text rest : Text)
      → strip_prefix (p ∷ ps) (c ∷ text) ≡ some rest
      → length rest ≤ length text
  rest_shorter c text rest s = omega (
    arith,
    ap (λ (t : Text). length t) (strip_prefix_sound (p ∷ ps) (c ∷ text) rest s),
    length-append {0} ps rest,
  )

  count-Absent :
      (fuel : ℕ) (text : Text)
      → length text < fuel
      → count_from fuel (p ∷ ps) text ≡ 0
      → Absent (p ∷ ps) text
  unfolding Absent count_from
  count-Absent zero text h z = absurd (omega arith)
  count-Absent (suc fuel) [] h z = Absent-nil p ps
  count-Absent (suc fuel) (c ∷ text) h z = elim (Option-cases (strip_prefix (p ∷ ps) (c ∷ text))) [
    | inr (rest, s) ↦ absurd (ground (arith, s))
    | inl s ↦
        Absent-cons (p ∷ ps) c text s (count-Absent fuel text (omega arith) (ground (arith, s, z)))
  ]

  Absent-count : (fuel : ℕ) (text : Text) → Absent (p ∷ ps) text → count_from fuel (p ∷ ps) text ≡ 0
  unfolding count_from strip_prefix
  Absent-count zero text h = refl
  Absent-count (suc fuel) [] h = refl
  Absent-count (suc fuel) (c ∷ text) h = elim (Option-cases (strip_prefix (p ∷ ps) (c ∷ text))) [
    | inr (rest, s) ↦
        absurd (unfold Absent in h [] rest (strip_prefix_sound (p ∷ ps) (c ∷ text) rest s))
    | inl s ↦ ground (arith, s, Absent-count fuel text (Absent-tail (p ∷ ps) c text h))
  ]

  OnlyAt-cons :
      (c : ℕ) (text before after : Text)
      → strip_prefix (p ∷ ps) (c ∷ text) ≡ none
      → OnlyAt (p ∷ ps) text before after
      → OnlyAt (p ∷ ps) (c ∷ text) (c ∷ before) after
  OnlyAt-cons c text before after s o = record {
    splits = ap (λ t. c ∷ t) o.splits;
    leftmost = left;
    last = o.last;
  }
    where
      left : (b a : Text) → c ∷ text ≡ b ++ ((p ∷ ps) ++ a) → length (c ∷ before) ≤ length b
      left [] a e = absurd (no_start (p ∷ ps) (c ∷ text) a s e)
      left (x ∷ b) a e = omega (arith, o.leftmost b a (cc))

  nil_start : strip_prefix (p ∷ ps) [] ≡ none
  unfolding strip_prefix
  nil_start = refl

  count-OnlyAt :
      (fuel : ℕ) (text : Text)
      → length text < fuel
      → count_from fuel (p ∷ ps) text ≡ 1
      → (before after : Text) × OnlyAt (p ∷ ps) text before after
        × ((r : Text) → replace_first (p ∷ ps) r text ≡ before ++ (r ++ after))
  unfolding count_from replace_first
  count-OnlyAt zero text h z = absurd (omega arith)
  count-OnlyAt (suc fuel) [] h z = absurd (ground (arith, nil_start))
  count-OnlyAt (suc fuel) (c ∷ text) h z = elim (Option-cases (strip_prefix (p ∷ ps) (c ∷ text))) [
    | inr (rest, s) ↦
        let shorter = rest_shorter c text rest s in
        (
          [],
          rest,
          record {
            splits = strip_prefix_sound (p ∷ ps) (c ∷ text) rest s;
            leftmost = λ b a e. omega arith;
            last = count-Absent fuel rest (omega arith) (ground (arith, s, z));
          },
          λ r. ground (arith, s),
        )
    | inl s ↦
        let (before, after, o, eq) = count-OnlyAt fuel text (omega arith) (ground (arith, s, z)) in
        (c ∷ before, after, OnlyAt-cons c text before after s o, λ r. ground (arith, s, eq r))
  ]

  no_earlier :
      (c x : ℕ) (text before after : Text)
      → OnlyAt (p ∷ ps) (c ∷ text) (x ∷ before) after
      → strip_prefix (p ∷ ps) (c ∷ text) ≡ none
  no_earlier c x text before after o = elim (Option-cases (strip_prefix (p ∷ ps) (c ∷ text))) [
    | inl s ↦ s
    | inr (rest, s) ↦
        absurd (omega (arith, o.leftmost [] rest (strip_prefix_sound (p ∷ ps) (c ∷ text) rest s)))
  ]

  OnlyAt-tail :
      (c x : ℕ) (text before after : Text)
      → OnlyAt (p ∷ ps) (c ∷ text) (x ∷ before) after
      → OnlyAt (p ∷ ps) text before after
  OnlyAt-tail c x text before after o = record {
    splits = cc o.splits;
    leftmost = λ b a e. omega (arith, o.leftmost (c ∷ b) a (ap (λ t. c ∷ t) e));
    last = o.last;
  }

  OnlyAt-count :
      (fuel : ℕ) (before text after : Text)
      → length text < fuel
      → OnlyAt (p ∷ ps) text before after
      → (count_from fuel (p ∷ ps) text ≡ 1)
        × ((r : Text) → replace_first (p ∷ ps) r text ≡ before ++ (r ++ after))
  unfolding count_from replace_first
  OnlyAt-count zero before text after h o = absurd (omega arith)
  OnlyAt-count (suc fuel) [] [] after h o = absurd (Absent-nil p ps [] after o.splits)
  OnlyAt-count (suc fuel) (x ∷ before) [] after h o =
      absurd (Absent-nil p ps (x ∷ before) after o.splits)
  OnlyAt-count (suc fuel) [] (c ∷ text) after h o =
      let s = start (p ∷ ps) (c ∷ text) after o.splits in
      (ground (arith, s, Absent-count fuel after o.last), λ r. ground (arith, s))
  OnlyAt-count (suc fuel) (x ∷ before) (c ∷ text) after h o =
      let s = no_earlier c x text before after o in
      let rest =
        OnlyAt-count fuel before text after (omega arith) (OnlyAt-tail c x text before after o) in
      (ground (arith, s, rest.0), λ r. ground (arith, s, rest.1 r, o.splits))

-- A text after each edit in turn had its one place taken by the replacement.
pub Spliced : Text → List Edit → Text → Type 0
Spliced text [] t = text ≡ t
Spliced text (e ∷ edits) t =
    (before after : Text) × OnlyAt e.orig text before after
    × Spliced (before ++ (e.repl ++ after)) edits t

-- What `catalogue_problems` demands of an edit's anchor.
abbrev pub Anchored : List Edit → Type 0
Anchored = All (λ e. e.orig ≢ [])

count_once :
    (orig text : Text)
    → orig ≢ []
    → count orig text ≡ 1
    → (before after : Text) × OnlyAt orig text before after
      × ((r : Text) → replace_first orig r text ≡ before ++ (r ++ after))
unfolding count
count_once [] text h z = absurd (h refl)
count_once (p ∷ ps) text h z = count-OnlyAt p ps (length text + 1) text (omega arith) z

once_count :
    (orig text before after : Text)
    → orig ≢ []
    → OnlyAt orig text before after
    → (count orig text ≡ 1) × ((r : Text) → replace_first orig r text ≡ before ++ (r ++ after))
unfolding count
once_count [] text before after h o = absurd (h refl)
once_count (p ∷ ps) text before after h o =
    OnlyAt-count p ps (length text + 1) before text after (omega arith) o

apply_from_sound :
    (n : ℕ) (text : Text) (edits : List Edit) (t : Text)
    → Anchored edits
    → apply_from n text edits ≡ edited t
    → Spliced text edits t
unfolding apply_from Spliced
apply_from_sound n text [] t a h = ground arith
apply_from_sound n text (e ∷ edits) t (ne, a) h =
    let (before, after, o, eq) = count_once e.orig text ne (ground arith) in
    (
      before,
      after,
      o,
      apply_from_sound (n + 1) (before ++ (e.repl ++ after)) edits t a
          (rw (← eq e.repl) (ground arith)),
    )

apply_from_complete :
    (n : ℕ) (text : Text) (edits : List Edit) (t : Text)
    → Anchored edits
    → Spliced text edits t
    → apply_from n text edits ≡ edited t
unfolding apply_from Spliced
apply_from_complete n text [] t a h = ap edited h
apply_from_complete n text (e ∷ edits) t (ne, a) (before, after, o, s) =
    let (once, eq) = once_count e.orig text before after ne o in
    rw (once, eq e.repl) (apply_from_complete (n + 1) (before ++ (e.repl ++ after)) edits t a s)

-- For edits with non-empty anchors, `apply_edits` returns a text exactly when each edit in turn
-- finds its anchor with no other occurrence behind the leftmost one, and that text is the one in
-- which each leftmost occurrence has been replaced.
pub apply_edits_iff :
    (text : Text) (edits : List Edit) (t : Text)
    → Anchored edits
    → (apply_edits text edits ≡ edited t) ↔ Spliced text edits t
unfolding apply_edits
apply_edits_iff text edits t a =
    (apply_from_sound 1 text edits t a, apply_from_complete 1 text edits t a)

-- `edits` up to the n-th one, counted from `start`, apply to `text`; the n-th anchor then occurs
-- `occurrences` times.
pub RefusedAt : (start : ℕ) → Text → List Edit → (n occurrences : ℕ) → Text → Type 0
RefusedAt start text edits n occurrences orig =
    (accepted rest : List Edit) × (e : Edit) × (t : Text) × (edits ≡ accepted ++ (e ∷ rest))
    × (apply_from start text accepted ≡ edited t)
    × (n ≡ start + length accepted)
    × (orig ≡ e.orig)
    × (count orig t ≡ occurrences)
    × (occurrences ≢ 1)

refused_from :
    (start : ℕ) (text : Text) (edits : List Edit) (n k : ℕ) (orig : Text)
    → apply_from start text edits ≡ edit_error n k orig
    → RefusedAt start text edits n k orig
unfolding apply_from RefusedAt
refused_from start text [] n k orig h = absurd (ground arith)
refused_from start text (e ∷ edits) n k orig h = elim (Bool-cases (count e.orig text == 1)) [
  | inr other ↦
      ([], edits, e, text, refl, refl, ground arith, ground arith, ground arith, ground arith)
  | inl once ↦
      let (acc, rest, e', t, split, ok, at, o, c, ne) =
        refused_from (start + 1) (replace_first e.orig e.repl text) edits n k orig (ground arith) in
      (
        e ∷ acc,
        rest,
        e',
        t,
        ap (λ es. e ∷ es) split,
        ground (arith, ok),
        omega (arith, at),
        o,
        c,
        ne,
      )
]

-- When `apply_edits` raises, its message names the first edit, counted from 1, whose anchor does
-- not occur once in the text that the edits before it made, and how often it occurs there.
pub apply_edits-edit_error :
    (text : Text) (edits : List Edit) (n k : ℕ) (orig : Text)
    → apply_edits text edits ≡ edit_error n k orig
    → RefusedAt 1 text edits n k orig
unfolding apply_edits
apply_edits-edit_error = refused_from 1
