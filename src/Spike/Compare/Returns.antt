-- ===== src/Spike/Compare/Returns.antt =====
-- Where `compare` of tools/spike_diff/pipeline.py raises no exception.
use determinant.Base.{◌≡◌, ap, ◌∙◌, Option, none, some}

-- A chain of two results that both are there.
pub chain-made :
    {A B : Type 0} {a : A} {b : B} (f : A → Option B) (o : Option A)
    → o ≡ some a
    → f a ≡ some b
    → elim o [ none ↦ none | some a ↦ f a ] ≡ some b
chain-made f o e e' = ap (λ o. elim o [ none ↦ none | some a ↦ f a ]) e ∙ e'
