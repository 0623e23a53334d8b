-- ===== src/Version/Join.antt =====
-- Scanning (version.rs: `tokenize`) across an underscore: what stands before it is read as if the
-- text ended there.
use brewdock.Base.{
  ℕ, ◌≡◌, refl, Bool, false, ◌&&◌, Option, none, some, List, [], ◌∷◌, ◌++◌, Text, ascii, ◌==◌,
  arith, Bool-cases, Option-cases, inl, inr,
}
use brewdock.Version.Token.{Token}
use brewdock.Version.Scan.{
  is_ascii_digit, is_ascii_alphabetic, eq_ignore_ascii_case, is_separator, span, advance_digits,
  advance_alpha, strip_prefix, strip_prefix_ci, ends_word, starts_word, long_keywords,
  short_keywords,
}
use brewdock.Version.Tokenize.{
  Cursor, last_of, with_suffix, try_long, try_short, patch_at, try_patch, try_keyword, at_separator,
  scan_separator, scan_word, scan_step, or_else, post_at,
}

-- The same position, in a text that goes on with an underscore and `r`.
abbrev pub joined : Text → Text → Text
joined s r = s ++ b'_' ∷ r

abbrev pub extend : Text → Cursor → Cursor
extend r c = record c { rest = joined c.rest r }

abbrev pub extend_found : {A : Type 0} → Text → Option (A × Cursor) → Option (A × Cursor)
extend_found r none = none
extend_found r (some (tok, c)) = some (tok, extend r c)

abbrev pub extend_step : Text → Option Token × Cursor → Option Token × Cursor
extend_step r (tok, c) = (tok, extend r c)

-- A word of the tables of keywords has no underscore in it.
abbrev HasNoUnderscore : Text → Type 0
HasNoUnderscore [] = Unit
HasNoUnderscore (b ∷ w) =
    (eq_ignore_ascii_case b'_' b ≡ false) × ((b'_' == b) ≡ false) × HasNoUnderscore w

abbrev IsTable : List (Text × (ℕ → Token)) → Type 0
IsTable [] = Unit
IsTable (entry ∷ table) = HasNoUnderscore entry.0 × IsTable table

abbrev extend_rest : Text → Option Text → Option Text
extend_rest r none = none
extend_rest r (some s) = some (joined s r)

module _ (r : Text) where
  span-joined :
      (p : ℕ → Bool) (s : Text)
      → p b'_' ≡ false
      → span p (joined s r) ≡ ((span p s).0, joined (span p s).1 r)
  unfolding span
  span-joined p [] e = ground arith
  span-joined p (b ∷ s) e = ground (arith, span-joined p s e)

  strip_prefix_ci-joined :
      (s w : Text)
      → HasNoUnderscore w
      → strip_prefix_ci (joined s r) w ≡ extend_rest r (strip_prefix_ci s w)
  unfolding strip_prefix_ci
  strip_prefix_ci-joined s [] h = refl
  strip_prefix_ci-joined [] (n ∷ w) h = rw h.0
  strip_prefix_ci-joined (b ∷ s) (n ∷ w) h = elim (Bool-cases (eq_ignore_ascii_case b n)) [
    | inl e ↦ rw e (strip_prefix_ci-joined s w h.2)
    | inr e ↦ rw e
  ]

  strip_prefix-joined :
      (s w : Text)
      → HasNoUnderscore w
      → strip_prefix (joined s r) w ≡ extend_rest r (strip_prefix s w)
  unfolding strip_prefix
  strip_prefix-joined s [] h = refl
  strip_prefix-joined [] (n ∷ w) h = rw h.1
  strip_prefix-joined (b ∷ s) (n ∷ w) h = elim (Bool-cases (b == n)) [
    | inl e ↦ rw e (strip_prefix-joined s w h.2)
    | inr e ↦ rw e
  ]

  ends_word-joined : (s : Text) → ends_word (joined s r) ≡ ends_word s
  unfolding ends_word
  ends_word-joined [] = refl
  ends_word-joined (b ∷ s) = refl

  at_separator-joined : (s : Text) → at_separator (joined s r) ≡ at_separator s
  unfolding at_separator
  at_separator-joined [] = refl
  at_separator-joined (b ∷ s) = refl

  advance_digits-joined :
      (s : Text)
      → advance_digits (joined s r) ≡ ((advance_digits s).0, joined (advance_digits s).1 r)
  unfolding advance_digits
  advance_digits-joined s = span-joined is_ascii_digit s refl

  advance_alpha-joined :
      (s : Text) → advance_alpha (joined s r) ≡ ((advance_alpha s).0, joined (advance_alpha s).1 r)
  unfolding advance_alpha
  advance_alpha-joined s = span-joined is_ascii_alphabetic s refl

  with_suffix-joined :
      (prev : Option ℕ) (ctor : ℕ → Token) (s : Text)
      → with_suffix prev ctor (joined s r)
        ≡ ((with_suffix prev ctor s).0, extend r (with_suffix prev ctor s).1)
  unfolding with_suffix
  with_suffix-joined prev ctor s = rw (span-joined is_ascii_digit s refl)

  try_long-joined :
      (table : List (Text × (ℕ → Token))) (s : Text)
      → IsTable table
      → try_long table (joined s r) ≡ extend_found r (try_long table s)
  unfolding try_long
  try_long-joined [] s h = refl
  try_long-joined ((w, ctor) ∷ table) s h = elim (Option-cases (strip_prefix_ci s w)) [
    | inl e ↦ ground (arith, strip_prefix_ci-joined s w h.0, try_long-joined table s h.1)
    | inr (rest, e) ↦ ground (
      arith,
      strip_prefix_ci-joined s w h.0,
      ends_word-joined rest,
      with_suffix-joined (last_of none w) ctor rest,
      try_long-joined table s h.1,
    )
  ]

  try_short-singleton :
      (table : List (ℕ × (ℕ → Token))) (prev : Option ℕ) (b : ℕ)
      → try_short table prev (b ∷ b'_' ∷ r) ≡ none
  unfolding try_short
  try_short-singleton [] prev b = refl
  try_short-singleton ((letter, ctor) ∷ table) prev b =
      ground (arith, try_short-singleton table prev b)

  try_short-joined :
      (table : List (ℕ × (ℕ → Token))) (prev : Option ℕ) (b : ℕ) (s : Text)
      → try_short table prev (joined (b ∷ s) r) ≡ extend_found r (try_short table prev (b ∷ s))
  unfolding try_short
  try_short-joined [] prev b s = refl
  try_short-joined ((letter, ctor) ∷ table) prev b [] =
      try_short-singleton ((letter, ctor) ∷ table) prev b
  try_short-joined ((letter, ctor) ∷ table) prev b (d ∷ s) =
      let test = eq_ignore_ascii_case b letter && is_ascii_digit d && starts_word prev in
      elim (Bool-cases test) [
        | inl e ↦ rw e (rw (with_suffix-joined (some b) ctor (d ∷ s)))
        | inr e ↦ rw e (try_short-joined table prev b (d ∷ s))
      ]

  patch_at-joined :
      (b : ℕ) (digits rest : Text)
      → patch_at b digits (joined rest r) ≡ extend_found r (patch_at b digits rest)
  unfolding patch_at
  patch_at-joined b [] rest = ground (arith, at_separator-joined rest)
  patch_at-joined b (d ∷ ds) rest = refl

  try_patch-joined :
      (prev : Option ℕ) (b : ℕ) (s : Text)
      → try_patch prev (joined (b ∷ s) r) ≡ extend_found r (try_patch prev (b ∷ s))
  unfolding try_patch
  try_patch-joined prev b s = elim (Bool-cases (eq_ignore_ascii_case b b'p' && starts_word prev)) [
    | inl e ↦
        rw (e, span-joined is_ascii_digit s refl)
          (patch_at-joined b (span is_ascii_digit s).0 (span is_ascii_digit s).1)
    | inr e ↦ rw e
  ]

  or_else-extend :
      (x y : Option (Token × Cursor))
      → or_else (extend_found r x) (extend_found r y) ≡ extend_found r (or_else x y)
  unfolding or_else
  or_else-extend none y = refl
  or_else-extend (some (tok, c)) y = refl

  try_keyword-joined :
      (prev : Option ℕ) (b : ℕ) (s : Text)
      → try_keyword (record { prev = prev; rest = joined (b ∷ s) r })
        ≡ extend_found r (try_keyword (record { prev = prev; rest = b ∷ s }))
  unfolding try_keyword
  try_keyword-joined prev b s =
      rw
        (
          try_long-joined long_keywords (b ∷ s) table,
          try_short-joined short_keywords prev b s,
          try_patch-joined prev b s,
          or_else-extend,
        )
        (or_else-extend _ _)
    where
      table : IsTable long_keywords
      table = ground arith

  post_at-joined : (s : Text) → post_at (joined s r) ≡ extend_found r (post_at s)
  unfolding post_at
  post_at-joined s = elim (Option-cases (strip_prefix s (ascii "post"))) [
    | inl e ↦ rw (strip_prefix-joined s (ascii "post") (ground arith), e, post_at)
    | inr (rest, e) ↦
        rw (strip_prefix-joined s (ascii "post") (ground arith), e, post_at)
          (elim (Bool-cases (ends_word rest)) [
            | inl f ↦ rw (ends_word-joined rest, f, with_suffix-joined)
            | inr f ↦ rw (ends_word-joined rest, f)
          ])
  ]

  scan_separator-joined :
      (b : ℕ) (s : Text) → scan_separator b (joined s r) ≡ extend_step r (scan_separator b s)
  unfolding scan_separator
  scan_separator-joined b s = elim (Bool-cases (b == b'.')) [
    | inl e ↦ elim (Option-cases (post_at s)) [
      | inl n ↦ rw (e, post_at-joined s, n, scan_separator)
      | inr ((tok, c), n) ↦ rw (e, post_at-joined s, n, scan_separator)
    ]
    | inr e ↦ rw (e, scan_separator)
  ]

  scan_word-joined :
      (prev : Option ℕ) (b : ℕ) (s : Text)
      → scan_word (record { prev = prev; rest = joined (b ∷ s) r })
        ≡ extend_step r (scan_word (record { prev = prev; rest = b ∷ s }))
  unfolding scan_word
  scan_word-joined prev b s =
      elim (Option-cases (try_keyword (record { prev = prev; rest = b ∷ s }))) [
        | inl n ↦ rw (try_keyword-joined prev b s, n, advance_alpha-joined (b ∷ s), scan_word)
        | inr ((tok, c), n) ↦ rw (try_keyword-joined prev b s, n, scan_word)
      ]

  -- One round of the scanner, at a position before the underscore.
  pub scan_step-joined :
      (prev : Option ℕ) (b : ℕ) (s : Text)
      → scan_step prev b (joined s r) ≡ extend_step r (scan_step prev b s)
  unfolding scan_step
  scan_step-joined prev b s = elim (Bool-cases (is_separator b)) [
    | inl e ↦ rw e (scan_separator-joined b s)
    | inr e ↦ elim (Bool-cases (is_ascii_digit b)) [
      | inl f ↦ rw (e, f, advance_digits-joined (b ∷ s))
      | inr f ↦ elim (Bool-cases (is_ascii_alphabetic b)) [
        | inl g ↦ rw (e, f, g) (scan_word-joined prev b s)
        | inr g ↦ rw (e, f, g)
      ]
    ]
  ]
