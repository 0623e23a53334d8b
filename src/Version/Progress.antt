-- ===== src/Version/Progress.antt =====
-- Every round of the scanner (version.rs: `tokenize`) moves the position forward, so one unit of
-- fuel for each byte is enough. What it reads depends on the byte before only by whether that
-- is a letter.
use Prim.Native.Nat.{◌≤◌, ◌<◌}
use brewdock.Base.{
  ℕ, zero, suc, ◌+◌, ◌≡◌, ◌↔◌, refl, ap, Bool, true, ◌&&◌, Option, none, some, List, [], ◌∷◌, Text,
  ascii, ◌==◌, arith, Bool-cases, Option-cases, inl, inr,
}
use brewdock.Base.Lists.{length}
use brewdock.Version.Token.{Token, post}
use brewdock.Version.Scan.{
  is_ascii_digit, is_ascii_alphabetic, eq_ignore_ascii_case, is_separator, span, advance_digits,
  advance_alpha, strip_prefix, strip_prefix_ci, ends_word, starts_word, long_keywords,
  short_keywords,
}
use brewdock.Version.Tokenize.{
  Cursor, last_of, with_suffix, try_long, try_short, patch_at, try_patch, try_keyword, or_else,
  at_separator, post_at, scan_separator, scan_word, scan_step, push, tokenize_from, tokenize,
}

length-span-le : (p : ℕ → Bool) (s : Text) → length (span p s).1 ≤ length s
unfolding span
length-span-le p [] = omega arith
length-span-le p (b ∷ s) = ground (arith, length-span-le p s)

length-strip_prefix_ci :
    (s w : Text) {rest : Text} → strip_prefix_ci s w ≡ some rest → length rest + length w ≡ length s
unfolding strip_prefix_ci
length-strip_prefix_ci s [] e = ground arith
length-strip_prefix_ci [] (n ∷ w) e = ground arith
length-strip_prefix_ci (b ∷ s) (n ∷ w) {rest} e = elim (Bool-cases (eq_ignore_ascii_case b n)) [
  | inl f ↦ omega (arith, length-strip_prefix_ci s w (rw f at e))
  | inr f ↦ ground arith
]

length-strip_prefix :
    (s w : Text) {rest : Text} → strip_prefix s w ≡ some rest → length rest + length w ≡ length s
unfolding strip_prefix
length-strip_prefix s [] e = ground arith
length-strip_prefix [] (n ∷ w) e = ground arith
length-strip_prefix (b ∷ s) (n ∷ w) {rest} e = elim (Bool-cases (b == n)) [
  | inl f ↦ omega (arith, length-strip_prefix s w (rw f at e))
  | inr f ↦ ground arith
]

-- A token that is found leaves at most `n` bytes.
abbrev Leaves : ℕ → Option (Token × Cursor) → Type 0
Leaves n none = Unit
Leaves n (some (tok, c)) = length c.rest ≤ n

with_suffix-le :
    (prev : Option ℕ) (ctor : ℕ → Token) (s : Text)
    → length (with_suffix prev ctor s).1.rest ≤ length s
unfolding with_suffix
with_suffix-le prev ctor s = length-span-le is_ascii_digit s

abbrev IsTable : List (Text × (ℕ → Token)) → Type 0
IsTable [] = Unit
IsTable (entry ∷ table) = (0 < length entry.0) × IsTable table

try_long-Leaves :
    (table : List (Text × (ℕ → Token))) (b : ℕ) (s : Text)
    → IsTable table
    → Leaves (length s) (try_long table (b ∷ s))
unfolding try_long
try_long-Leaves [] b s h = tt
try_long-Leaves ((w, ctor) ∷ table) b s h = elim (Option-cases (strip_prefix_ci (b ∷ s) w)) [
  | inl e ↦ rw (e, try_long) (try_long-Leaves table b s h.1)
  | inr (rest, e) ↦ elim (Bool-cases (ends_word rest)) [
    | inl f ↦
        rw (e, f, try_long)
          (omega
            (arith, with_suffix-le (last_of none w) ctor rest, length-strip_prefix_ci (b ∷ s) w e))
    | inr f ↦ rw (e, f, try_long) (try_long-Leaves table b s h.1)
  ]
]

try_short-Leaves :
    (table : List (ℕ × (ℕ → Token))) (prev : Option ℕ) (b : ℕ) (s : Text)
    → Leaves (length s) (try_short table prev (b ∷ s))
unfolding try_short
try_short-Leaves [] prev b s = tt
try_short-Leaves ((letter, ctor) ∷ table) prev b [] = tt
try_short-Leaves ((letter, ctor) ∷ table) prev b (d ∷ s) =
    elim (Bool-cases (eq_ignore_ascii_case b letter && is_ascii_digit d && starts_word prev)) [
      | inl e ↦ rw e (with_suffix-le (some b) ctor (d ∷ s))
      | inr e ↦ rw e (try_short-Leaves table prev b (d ∷ s))
    ]

patch_at-Leaves : (b : ℕ) (digits rest : Text) → Leaves (length rest) (patch_at b digits rest)
unfolding patch_at
patch_at-Leaves b [] rest = elim (Bool-cases (at_separator rest)) [
  | inl e ↦ rw e (omega arith)
  | inr e ↦ rw e tt
]
patch_at-Leaves b (d ∷ ds) rest = omega arith

Leaves-le : (m n : ℕ) (o : Option (Token × Cursor)) → m ≤ n → Leaves m o → Leaves n o
Leaves-le m n none h l = tt
Leaves-le m n (some (tok, c)) h l = omega arith

advance_digits-le : (s : Text) → length (advance_digits s).1 ≤ length s
unfolding advance_digits
advance_digits-le s = length-span-le is_ascii_digit s

try_patch-Leaves : (prev : Option ℕ) (b : ℕ) (s : Text) → Leaves (length s) (try_patch prev (b ∷ s))
unfolding try_patch
try_patch-Leaves prev b s = elim (Bool-cases (eq_ignore_ascii_case b b'p' && starts_word prev)) [
  | inl e ↦ rw e (
      Leaves-le (length (advance_digits s).1) _ _ (advance_digits-le s)
        (patch_at-Leaves b (advance_digits s).0 (advance_digits s).1))
  | inr e ↦ rw e tt
]

Leaves-or_else :
    (n : ℕ) (x y : Option (Token × Cursor)) → Leaves n x → Leaves n y → Leaves n (or_else x y)
unfolding or_else
Leaves-or_else n none y h k = k
Leaves-or_else n (some (tok, c)) y h k = h

try_keyword-Leaves :
    (prev : Option ℕ) (b : ℕ) (s : Text)
    → Leaves (length s) (try_keyword (record { prev = prev; rest = b ∷ s }))
unfolding try_keyword
try_keyword-Leaves prev b s =
    Leaves-or_else (length s) (try_long long_keywords (b ∷ s)) _
      (try_long-Leaves long_keywords b s (omega arith))
      (Leaves-or_else (length s) (try_short short_keywords prev (b ∷ s)) (try_patch prev (b ∷ s))
        (try_short-Leaves short_keywords prev b s) (try_patch-Leaves prev b s))

scan_word-le :
    (prev : Option ℕ) (b : ℕ) (s : Text)
    → is_ascii_alphabetic b ≡ true
    → length (scan_word (record { prev = prev; rest = b ∷ s })).1.rest ≤ length s
unfolding scan_word advance_alpha
scan_word-le prev b s a = elim (Option-cases (try_keyword (record { prev = prev; rest = b ∷ s }))) [
  | inl n ↦ rw (n, a, scan_word) (length-span-le is_ascii_alphabetic s)
  | inr ((tok, c), n) ↦ rw (n, scan_word) (rw n at (try_keyword-Leaves prev b s))
]

post_at-Leaves : (s : Text) → Leaves (length s) (post_at s)
unfolding post_at
post_at-Leaves s = elim (Option-cases (strip_prefix s (ascii "post"))) [
  | inl e ↦ rw (e, post_at) tt
  | inr (rest, e) ↦ elim (Bool-cases (ends_word rest)) [
    | inl f ↦
        rw (e, f, post_at)
          (omega
            (arith, with_suffix-le (some b't') post rest, length-strip_prefix s (ascii "post") e))
    | inr f ↦ rw (e, f, post_at) tt
  ]
]

scan_separator-le : (b : ℕ) (s : Text) → length (scan_separator b s).1.rest ≤ length s
unfolding scan_separator
scan_separator-le b s = elim (Bool-cases (b == b'.')) [
  | inl e ↦ elim (Option-cases (post_at s)) [
    | inl n ↦ rw (e, n, scan_separator) (omega arith)
    | inr ((tok, c), n) ↦ rw (e, n, scan_separator) (rw n at (post_at-Leaves s))
  ]
  | inr e ↦ rw (e, scan_separator) (omega arith)
]

pub scan_step-le :
    (prev : Option ℕ) (b : ℕ) (s : Text) → length (scan_step prev b s).1.rest ≤ length s
unfolding scan_step advance_digits
scan_step-le prev b s = elim (Bool-cases (is_separator b)) [
  | inl e ↦ rw e (scan_separator-le b s)
  | inr e ↦ elim (Bool-cases (is_ascii_digit b)) [
    | inl f ↦ rw (e, f) (length-span-le is_ascii_digit s)
    | inr f ↦ elim (Bool-cases (is_ascii_alphabetic b)) [
      | inl g ↦ rw (e, f, g) (scan_word-le prev b s g)
      | inr g ↦ rw (e, f, g) (omega arith)
    ]
  ]
]

-- Any two amounts of fuel of at least one unit for each byte give the same tokens.
pub tokenize_from-fuel :
    (f g : ℕ) (prev : Option ℕ) (s : Text)
    → length s ≤ f
    → length s ≤ g
    → tokenize_from f prev s ≡ tokenize_from g prev s
unfolding tokenize_from
tokenize_from-fuel zero zero prev s h k = refl
tokenize_from-fuel zero (suc g) prev [] h k = refl
tokenize_from-fuel (suc f) zero prev [] h k = refl
tokenize_from-fuel (suc f) (suc g) prev [] h k = refl
tokenize_from-fuel zero (suc g) prev (b ∷ s) h k = absurd (omega arith)
tokenize_from-fuel (suc f) zero prev (b ∷ s) h k = absurd (omega arith)
tokenize_from-fuel (suc f) (suc g) prev (b ∷ s) h k = ap (push (scan_step prev b s).0) (
    tokenize_from-fuel f g (scan_step prev b s).1.prev (scan_step prev b s).1.rest
      (omega (arith, scan_step-le prev b s)) (omega (arith, scan_step-le prev b s)))

-- The `while` loop without fuel: it runs from a position, with the byte before it, to the end of the
-- input, and pushes the tokens. A loop that does not end has no run.
pub data Runs : Option ℕ → Text → List Token → Type 0 where
  done : (prev : Option ℕ) → Runs prev [] []
  round :
      (prev : Option ℕ) (b : ℕ) (s : Text) (toks : List Token)
      → Runs (scan_step prev b s).1.prev (scan_step prev b s).1.rest toks
      → Runs prev (b ∷ s) (push (scan_step prev b s).0 toks)

tokenize_from-Runs :
    (fuel : ℕ) (prev : Option ℕ) (s : Text)
    → length s ≤ fuel
    → Runs prev s (tokenize_from fuel prev s)
unfolding tokenize_from
tokenize_from-Runs zero prev [] h = done prev
tokenize_from-Runs (suc f) prev [] h = done prev
tokenize_from-Runs zero prev (b ∷ s) h = absurd (omega arith)
tokenize_from-Runs (suc f) prev (b ∷ s) h = round prev b s _ (
    tokenize_from-Runs f (scan_step prev b s).1.prev (scan_step prev b s).1.rest
      (omega (arith, scan_step-le prev b s)))

Runs-tokenize_from :
    (fuel : ℕ) {prev : Option ℕ} {s : Text} {toks : List Token}
    → length s ≤ fuel
    → Runs prev s toks
    → toks ≡ tokenize_from fuel prev s
unfolding tokenize_from
Runs-tokenize_from zero h (done prev) = refl
Runs-tokenize_from (suc f) h (done prev) = refl
Runs-tokenize_from zero h (round prev b s toks r) = absurd (omega arith)
Runs-tokenize_from (suc f) h (round prev b s toks r) =
    ap (push (scan_step prev b s).0) (Runs-tokenize_from f (omega (arith, scan_step-le prev b s)) r)

pub tokenize_lem : (s : Text) → tokenize s ≡ tokenize_from (length s) none s
unfolding tokenize
tokenize_lem s = refl

-- On every input the loop runs to the end of it, in rounds of scan_step, and the tokens that a run
-- pushes are those of tokenize: the model's fuel is enough.
pub tokenize_halts :
    (input : Text) (toks : List Token) → Runs none input toks ↔ (toks ≡ tokenize input)
unfolding tokenize
tokenize_halts input toks = (
  λ r. Runs-tokenize_from (length input) (omega arith) r,
  λ e. rw e (tokenize_from-Runs (length input) none input (omega arith)),
)
