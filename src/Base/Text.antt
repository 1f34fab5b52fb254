-- ===== src/Base/Text.antt =====
-- Python's `str` where the program walks it: a list of code points, with the methods the program
-- calls (`startswith`, `count`, `replace` with count 1).
use Prim.Native.Char.{code}
use Prim.Native.String.{String}
use Prim.Native.Nat.{ℕ}
use mathlib.Core.Path.{◌≡◌, refl}
use mathlib.Core.Bool.{Bool, true, false, ◌&&◌}
use mathlib.Core.Option.{Option, none, some}
use mathlib.Core.List.{List, [], ◌∷◌, ◌++◌}
use native.Mathlib.Omega.{arith}
use determinant.Base.Tests.{◌==◌, if◌then◌else◌}

abbrev pub Text : Type 0
Text = List ℕ

abbrev pub codes : String → Text
codes String.[] = []
codes (String.◌∷◌ c s) = code c ∷ codes s

-- `a == b` on texts.
abbrev pub text_eq : Text → Text → Bool
text_eq [] [] = true
text_eq [] (y ∷ ys) = false
text_eq (x ∷ xs) [] = false
text_eq (x ∷ xs) (y ∷ ys) = (x == y) && text_eq xs ys

-- What is left of the text behind the prefix, if it starts with that prefix.
unfoldable pub strip_prefix : Text → Text → Option Text
strip_prefix [] s = some s
strip_prefix (p ∷ ps) [] = none
strip_prefix (p ∷ ps) (c ∷ s) = if p == c then strip_prefix ps s else none

pub strip_prefix_sound : (p s r : Text) → strip_prefix p s ≡ some r → s ≡ p ++ r
unfolding strip_prefix
strip_prefix_sound [] s r h = ground arith
strip_prefix_sound (p ∷ ps) [] r h = ground arith
strip_prefix_sound (p ∷ ps) (c ∷ s) r h = ground (arith, strip_prefix_sound ps s r)

pub strip_prefix_complete : (p r : Text) → strip_prefix p (p ++ r) ≡ some r
unfolding strip_prefix
strip_prefix_complete [] r = refl
strip_prefix_complete (p ∷ ps) r = ground (arith, strip_prefix_complete ps r)

pub text_eq_sound : (a b : Text) → text_eq a b ≡ true → a ≡ b
text_eq_sound [] [] h = refl
text_eq_sound [] (y ∷ ys) h = ground arith
text_eq_sound (x ∷ xs) [] h = ground arith
text_eq_sound (x ∷ xs) (y ∷ ys) h = ground (arith, text_eq_sound xs ys)

pub text_eq_refl : (a : Text) → text_eq a a ≡ true
text_eq_refl [] = refl
text_eq_refl (x ∷ xs) = ground (arith, text_eq_refl xs)
