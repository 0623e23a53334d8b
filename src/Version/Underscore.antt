-- ===== src/Version/Underscore.antt =====
-- The tokens of a text with an underscore (version.rs: `tokenize`) are those of the part before it
-- and those of the part behind it; a decimal number is one token.
use Prim.Native.Nat.{◌≤◌}
use brewdock.Base.{
  ℕ, zero, suc, ◌+◌, ◌≡◌, refl, ◌∙◌, ap, true, false, Option, none, some, List, [], ◌∷◌, ◌++◌, Text,
  arith, Bool-cases, Option-cases, inl, inr,
}
use brewdock.Base.Lists.{length, length-append}
use brewdock.Base.Decimal.{decimal, decimal-cons, decimal-IsDigits, IsDigits}
use brewdock.Version.Token.{Token, numeric}
use brewdock.Version.Scan.{
  is_ascii_digit, is_ascii_alphabetic, is_separator, advance_digits, advance_alpha, starts_word,
  short_keywords, u64_max, digits_to_u64,
}
use brewdock.Version.Digits.{digits_to_u64-decimal}
use brewdock.Version.Tokenize.{
  after, try_short, try_patch, try_keyword, scan_separator, scan_word, scan_step, push,
  tokenize_from, tokenize,
}
use brewdock.Version.Join.{joined, scan_step-joined}
use brewdock.Version.Progress.{scan_step-le, tokenize_from-fuel, tokenize_lem}

module _ (p q : Option ℕ) (same : starts_word p ≡ starts_word q) where
  try_short-prev :
      (table : List (ℕ × (ℕ → Token))) (s : Text) → try_short table p s ≡ try_short table q s
  unfolding try_short
  try_short-prev [] s = refl
  try_short-prev (entry ∷ table) [] = refl
  try_short-prev (entry ∷ table) (b ∷ []) = refl
  try_short-prev (entry ∷ table) (b ∷ d ∷ s) = rw (same, try_short-prev table (b ∷ d ∷ s))

  try_patch-prev : (s : Text) → try_patch p s ≡ try_patch q s
  unfolding try_patch
  try_patch-prev [] = refl
  try_patch-prev (b ∷ s) = rw same

  try_keyword-prev :
      (s : Text)
      → try_keyword (record { prev = p; rest = s }) ≡ try_keyword (record { prev = q; rest = s })
  unfolding try_keyword
  try_keyword-prev s = rw (try_short-prev short_keywords s, try_patch-prev s)

  scan_word-prev :
      (b : ℕ) (s : Text)
      → is_ascii_alphabetic b ≡ true
      → scan_word (record { prev = p; rest = b ∷ s })
        ≡ scan_word (record { prev = q; rest = b ∷ s })
  unfolding scan_word advance_alpha
  scan_word-prev b s a = elim (Option-cases (try_keyword (record { prev = q; rest = b ∷ s }))) [
    | inl n ↦ rw (try_keyword-prev (b ∷ s), n, a, scan_word)
    | inr ((tok, c), n) ↦ rw (try_keyword-prev (b ∷ s), n, scan_word)
  ]

  scan_step-prev : (b : ℕ) (s : Text) → scan_step p b s ≡ scan_step q b s
  unfolding scan_step advance_digits
  scan_step-prev b s = elim (Bool-cases (is_separator b)) [
    | inl e ↦ rw e
    | inr e ↦ elim (Bool-cases (is_ascii_digit b)) [
      | inl f ↦ rw (e, f)
      | inr f ↦ elim (Bool-cases (is_ascii_alphabetic b)) [
        | inl g ↦ rw (e, f, g) (scan_word-prev b s g)
        | inr g ↦ rw (e, f, g)
      ]
    ]
  ]

  tokenize_from-prev : (fuel : ℕ) (s : Text) → tokenize_from fuel p s ≡ tokenize_from fuel q s
  unfolding tokenize_from
  tokenize_from-prev zero s = refl
  tokenize_from-prev (suc fuel) [] = refl
  tokenize_from-prev (suc fuel) (b ∷ s) = rw (scan_step-prev b s)

push-append : (tok : Option Token) (xs ys : List Token) → push tok (xs ++ ys) ≡ push tok xs ++ ys
push-append none xs ys = refl
push-append (some t) xs ys = refl

tokenize_from-nil : (fuel : ℕ) (prev : Option ℕ) → tokenize_from fuel prev [] ≡ []
unfolding tokenize_from
tokenize_from-nil zero prev = refl
tokenize_from-nil (suc fuel) prev = refl

scan_step-underscore :
    (prev : Option ℕ) (r : Text) → scan_step prev b'_' r ≡ (none, after (some b'_') [] r)
unfolding scan_step scan_separator
scan_step-underscore prev r = refl

some_underscore : starts_word (some b'_') ≡ starts_word none
unfolding starts_word
some_underscore = refl

tokenize_from-underscore :
    (more fuel : ℕ) (prev : Option ℕ) (s r : Text)
    → length s ≤ fuel
    → length s + length r + 1 ≤ more
    → tokenize_from more prev (joined s r) ≡ tokenize_from fuel prev s ++ tokenize r
unfolding tokenize_from
tokenize_from-underscore zero fuel prev s r h k = absurd (omega arith)
tokenize_from-underscore (suc more) fuel prev [] r h k =
    rw (scan_step-underscore prev r, tokenize_from-nil fuel prev, tokenize_lem)
      (tokenize_from-prev (some b'_') none some_underscore more r
        ∙ tokenize_from-fuel more (length r) none r (omega arith) (omega arith))
tokenize_from-underscore (suc more) zero prev (b ∷ s) r h k = absurd (omega arith)
tokenize_from-underscore (suc more) (suc fuel) prev (b ∷ s) r h k =
    rw (scan_step-joined r prev b s) (
      ap (push (scan_step prev b s).0) (
        tokenize_from-underscore more fuel (scan_step prev b s).1.prev (scan_step prev b s).1.rest r
          (omega (arith, scan_step-le prev b s)) (omega (arith, scan_step-le prev b s)))
      ∙ push-append (scan_step prev b s).0 _ _)

-- Before an underscore, a text is read as if it ended there, and behind it as if it began there.
pub tokenize-underscore : (s r : Text) → tokenize (joined s r) ≡ tokenize s ++ tokenize r
tokenize-underscore s r =
    rw (tokenize_lem (joined s r), tokenize_lem s)
      (tokenize_from-underscore (length (joined s r)) (length s) none s r (omega arith)
        (omega (arith, length-append s (b'_' ∷ r))))

span-IsDigits : (ds : Text) → IsDigits ds → advance_digits ds ≡ (ds, [])
unfolding advance_digits
span-IsDigits [] h = refl
span-IsDigits (d ∷ ds) h =
    let here : is_ascii_digit d ≡ true = ground arith in
    rw here (unfold advance_digits in ground (arith, span-IsDigits ds h.2))

tokenize_digits :
    (d : ℕ) (ds : Text)
    → IsDigits (d ∷ ds)
    → tokenize (d ∷ ds) ≡ numeric (digits_to_u64 (d ∷ ds)) ∷ []
tokenize_digits d ds h = rw (tokenize_lem (d ∷ ds)) (
    unfold tokenize_from scan_step in
    rw (apart, digit, span-IsDigits (d ∷ ds) h, tokenize_from-nil (length ds)))
  where
    apart : is_separator d ≡ false
    apart = ground arith

    digit : is_ascii_digit d ≡ true
    digit = ground arith

-- A written number of at most 64 bits is read as one number, the same.
pub tokenize-decimal : (n : ℕ) → n ≤ u64_max → tokenize (decimal n) ≡ numeric n ∷ []
tokenize-decimal n h =
    let (d, ds, e) = decimal-cons n in
    let digits : IsDigits (d ∷ ds) = rw e at (decimal-IsDigits n) in
    let read : digits_to_u64 (d ∷ ds) ≡ n = rw (← e) (digits_to_u64-decimal n h) in
    rw e (tokenize_digits d ds digits ∙ ap (λ k. numeric k ∷ []) read)
