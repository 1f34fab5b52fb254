-- ===== src/Mutation/Patterns.antt =====
-- The regular expressions of tools/mutation/mutate.py, each as the search that it stands for.
-- `\w`, `\d` and `\s` are taken over ASCII, which is what `zig build` prints.
use determinant.Base.{
  ℕ, Bool, true, false, ◌&&◌, ◌||◌, not, Option, none, some, List, [], ◌∷◌, ◌++◌, leb, ◌==◌,
  if◌then◌else◌,
}
use mathlib.Core.Option
use determinant.Base.Text.{Text, codes, strip_prefix, text_eq}

is_digit : ℕ → Bool
is_digit c = leb b'0' c && leb c b'9'

unfoldable pub is_word : ℕ → Bool
unfolding is_digit
is_word c =
    is_digit c || ((leb b'a' c && leb c b'z') || ((leb b'A' c && leb c b'Z') || (c == b'_')))

unfoldable pub is_space : ℕ → Bool
is_space c = (c == 32) || ((leb 9 c && leb c 13) || (leb 28 c && leb c 31))

-- `\b` behind a word: the text has ended, or goes on with something else.
pub ends_word : Text → Bool
unfolding is_word
ends_word [] = true
ends_word (c ∷ s) = not (is_word c)

pub word_here : List Text → Text → Bool
unfolding ends_word
word_here [] s = false
word_here (w ∷ ws) s =
    elim (strip_prefix w s) [ none ↦ false | some rest ↦ ends_word rest ] || word_here ws s

-- `\b(w₁|w₂|…)\b` somewhere in a text; `inside` says whether a word character stands before it.
unfoldable pub search_words : List Text → (inside : Bool) → Text → Bool
unfolding word_here is_word
search_words ws inside [] = false
search_words ws inside (c ∷ s) =
    (not inside && word_here ws (c ∷ s)) || search_words ws (is_word c) s

-- `FAIL_WORD_RE`, `PASS_WORD_RE`
abbrev pub fail_words : List Text
fail_words =
    codes "fail"
    ∷ codes "failure"
    ∷ codes "crash"
    ∷ codes "timeout"
    ∷ codes "timed out"
    ∷ codes "error"
    ∷ codes "errors"
    ∷ codes "leak"
    ∷ codes "leaks"
    ∷ []

abbrev pub pass_words : List Text
pass_words = codes "pass" ∷ codes "success" ∷ codes "cached" ∷ []

-- `needle in text`
unfoldable pub has : Text → Text → Bool
has needle [] = elim (strip_prefix needle []) [ none ↦ false | some r ↦ true ]
has needle (c ∷ s) = elim (strip_prefix needle (c ∷ s)) [ none ↦ has needle s | some r ↦ true ]

-- The lines of a text, as `^` and `$` see them under `re.M`.
cons_line : ℕ → List Text → List Text
cons_line c [] = (c ∷ []) ∷ []
cons_line c (l ∷ ls) = (c ∷ l) ∷ ls

unfoldable pub newline_split : Text → List Text
unfolding cons_line
newline_split [] = [] ∷ []
newline_split (c ∷ s) =
    let rest = newline_split s in if c == 10 then [] ∷ rest else cons_line c rest

-- The kinds of `FAILED_TEST_RE`.
abbrev pub failure_kinds : List Text
failure_kinds =
    codes "failed"
    ∷ codes "terminated"
    ∷ codes "exited"
    ∷ codes "stopped"
    ∷ codes "timed out"
    ∷ codes "leaked"
    ∷ codes "logged"
    ∷ []

kind_here : List Text → Text → Option Text
kind_here [] s = none
kind_here (k ∷ ks) s = elim (strip_prefix k s) [ none ↦ kind_here ks s | some r ↦ some k ]

-- `(.+)' (kind)` with the longest name; the argument is the text behind `error: '`.
named_kind : Text → Option (Text × Text)
unfolding kind_here
named_kind [] = none
named_kind (c ∷ s) = elim (named_kind s) [
  | some (name, kind) ↦ some (c ∷ name, kind)
  | none ↦ elim (strip_prefix (codes "' ") s) [
    | none ↦ none
    | some r ↦ Option.map (λ k. (c ∷ [], k)) (kind_here failure_kinds r)
  ]
]

-- `FAILED_TEST_RE` on one line.
unfoldable pub failed_test : Text → Option (Text × Text)
unfolding named_kind
failed_test line = elim (strip_prefix (codes "error: '") line) [
  | none ↦ none
  | some r ↦ named_kind r
]

-- One or more digits, as far as they go, and what follows.
digits_then : Text → Text × Text
unfolding is_digit
digits_then [] = ([], [])
digits_then (c ∷ s) = let (ds, r) = digits_then s in if is_digit c then (c ∷ ds, r) else ([], c ∷ s)

non_empty : Text × Text → Option (Text × Text)
non_empty ([], r) = none
non_empty (d ∷ ds, r) = some (d ∷ ds, r)

-- `(\d+)` and the text behind it.
some_digits : Text → Option (Text × Text)
unfolding digits_then non_empty
some_digits s = non_empty (digits_then s)

-- A match of `COMPILE_ERROR_RE`: the file, the line and the message.
pub record CompileError : Type 0 where
  pub path : Text
  pub line : Text
  pub message : Text

infixl 5 ◌>>=◌
abbrev ◌>>=◌ : {A B : Type 0} → Option A → (A → Option B) → Option B
none >>= f = none
some a >>= f = f a

-- `\.zig):(\d+):(\d+): error: (.*)$`
location_here : Text → Option CompileError
unfolding some_digits
location_here s = do
  r ← strip_prefix (codes ".zig:") s
  (line, r1) ← some_digits r
  r2 ← strip_prefix (codes ":") r1
  (column, r3) ← some_digits r2
  message ← strip_prefix (codes ": error: ") r3
  some (record { path = codes ".zig"; line = line; message = message })

-- `(\S+?\.zig)…`: the shortest path of at least one character before `.zig`.
compile_error_from : (started : Bool) → Text → Option CompileError
unfolding location_here is_space
compile_error_from started [] = none
compile_error_from started (c ∷ s) =
    let longer =
      if is_space c
      then none
      else Option.map (λ (e : CompileError). record e { path = c ∷ e.path })
          (compile_error_from true s) in
    elim (location_here (c ∷ s)) [ none ↦ longer | some e ↦ if started then some e else longer ]

unfoldable pub compile_error : Text → Option CompileError
unfolding compile_error_from
compile_error line = compile_error_from false line

-- `(\S*)` as far as it goes, and what follows.
unspaced : Text → Text × Text
unfolding is_space
unspaced [] = ([], [])
unspaced (c ∷ s) = let (t, r) = unspaced s in if is_space c then ([], c ∷ s) else (c ∷ t, r)

-- What is left of a text in front of an ending, if there is something in front of it.
before_ending : Text → Text → Option Text
before_ending ending [] = none
before_ending ending (c ∷ []) = none
before_ending ending (c ∷ d ∷ s) =
    if text_eq ending (d ∷ s)
    then some (c ∷ [])
    else Option.map (λ t. c ∷ t) (before_ending ending (d ∷ s))

-- `DIGEST_DIFF_RE` on one line: `^\+ (\S+\.bin) `.
unfoldable pub digest_diff : Text → Option Text
unfolding unspaced before_ending
digest_diff line = do
  r ← strip_prefix (codes "+ ") line
  let (token, rest) = unspaced r
  b ← before_ending (codes ".bin") token
  _ ← strip_prefix (codes " ") rest
  some (b ++ codes ".bin")

-- `NATIVE_DIFF_RE` on one line: `^(\S+\.bin): result differs from the native run`.
unfoldable pub native_diff : Text → Option Text
unfolding unspaced before_ending
native_diff line = do
  let (token, rest) = unspaced line
  b ← before_ending (codes ".bin:") token
  _ ← strip_prefix (codes " result differs from the native run") rest
  some (b ++ codes ".bin")

-- `DIGEST_CMD_RE` on one line.
unfoldable pub digest_command : Text → Option Text
unfolding has
digest_command line = do
  r ← strip_prefix (codes "failed command: ") line
  if has (codes "corpus-digests") r then some r else none

-- `RE.findall(out)` for an expression that begins with `^` and stays on its line.
unfoldable pub find_all : {A : Type 0} → (Text → Option A) → List Text → List A
find_all f [] = []
find_all f (l ∷ ls) = elim (f l) [ none ↦ find_all f ls | some a ↦ a ∷ find_all f ls ]
