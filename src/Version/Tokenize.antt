-- ===== src/Version/Tokenize.antt =====
-- The loop of the scanner (version.rs: `try_keyword`, `tokenize`, `FromStr for PkgVersion`).
--
-- A position `pos` in `bytes` is a `Cursor`: the bytes from `pos` on, and the byte at `pos - 1`.
use brewdock.Base.{
  ℕ, zero, suc, Bool, true, false, ◌&&◌, Option, none, some, List, [], ◌∷◌, map, Text, ascii,
  if◌then◌else◌, ◌==◌, Result, ok, err,
}
use brewdock.Base.Lists.{length}
use brewdock.Version.Token.{Token, numeric, patch, post, text, PkgVersion, ParseVersionError}
use brewdock.Version.Scan.{
  is_ascii_digit, is_ascii_alphabetic, to_ascii_lowercase, eq_ignore_ascii_case, is_separator,
  advance_digits, advance_alpha, digits_to_u64, parse_suffix, strip_prefix, strip_prefix_ci,
  ends_word, starts_word, long_keywords, short_keywords,
}

pub record Cursor : Type 0 where
  pub prev : Option ℕ
  pub rest : Text

-- The byte before the position behind `taken`.
abbrev pub last_of : Option ℕ → Text → Option ℕ
last_of prev [] = prev
last_of prev (b ∷ s) = last_of (some b) s

abbrev pub after : Option ℕ → Text → Text → Cursor
after prev taken rest = record { prev = last_of prev taken; rest = rest }

-- `ctor(rev)` for the digits that follow a keyword.
unfoldable pub with_suffix : Option ℕ → (ℕ → Token) → Text → Token × Cursor
unfolding advance_digits parse_suffix
with_suffix prev ctor s =
    let (digits, rest) = advance_digits s in (ctor (parse_suffix digits), after prev digits rest)

unfoldable pub try_long : List (Text × (ℕ → Token)) → Text → Option (Token × Cursor)
unfolding with_suffix strip_prefix_ci ends_word
try_long [] remaining = none
try_long ((prefix, ctor) ∷ table) remaining = elim (strip_prefix_ci remaining prefix) [
  | none ↦ try_long table remaining
  | some rest ↦ elim (ends_word rest) [
    | true ↦ some (with_suffix (last_of none prefix) ctor rest)
    | false ↦ try_long table remaining
  ]
]

unfoldable pub try_short : List (ℕ × (ℕ → Token)) → Option ℕ → Text → Option (Token × Cursor)
unfolding with_suffix starts_word
try_short ((letter, ctor) ∷ table) prev (b ∷ d ∷ s) =
    if eq_ignore_ascii_case b letter && is_ascii_digit d && starts_word prev
    then some (with_suffix (some b) ctor (d ∷ s))
    else try_short table prev (b ∷ d ∷ s)
try_short _ prev remaining = none

unfoldable pub at_separator : Text → Bool
at_separator [] = true
at_separator (b ∷ _) = is_separator b

-- `p` and what follows it, the digits apart from the rest.
unfoldable pub patch_at : ℕ → Text → Text → Option (Token × Cursor)
unfolding digits_to_u64 at_separator
patch_at b [] rest = if at_separator rest then some (patch 0, after (some b) [] rest) else none
patch_at b (d ∷ ds) rest = some (patch (digits_to_u64 (d ∷ ds)), after (some b) (d ∷ ds) rest)

unfoldable pub try_patch : Option ℕ → Text → Option (Token × Cursor)
unfolding advance_digits starts_word patch_at
try_patch prev [] = none
try_patch prev (b ∷ s) =
    let (digits, rest) = advance_digits s in
    if eq_ignore_ascii_case b b'p' && starts_word prev then patch_at b digits rest else none

unfoldable pub or_else : Option (Token × Cursor) → Option (Token × Cursor) → Option (Token × Cursor)
or_else (some found) other = some found
or_else none other = other

unfoldable pub try_keyword : Cursor → Option (Token × Cursor)
try_keyword c =
    or_else (try_long long_keywords c.rest)
      (or_else (try_short short_keywords c.prev c.rest) (try_patch c.prev c.rest))

-- One round of the loop, at a position before the end: the token that it pushes, if any, and the
-- next position. First `.post`, at the bytes behind the dot.
unfoldable pub post_at : Text → Option (Token × Cursor)
unfolding with_suffix strip_prefix ends_word
post_at s = elim (strip_prefix s (ascii "post")) [
  | none ↦ none
  | some rest ↦ if ends_word rest then some (with_suffix (some b't') post rest) else none
]

unfoldable pub scan_separator : ℕ → Text → Option Token × Cursor
scan_separator byte s =
    let skipped = after (some byte) [] s in
    elim (if byte == b'.' then post_at s else none) [
      | some (tok, next) ↦ (some tok, next)
      | none ↦ (none, skipped)
    ]

unfoldable pub scan_word : Cursor → Option Token × Cursor
scan_word c = elim (try_keyword c) [
  | some (tok, next) ↦ (some tok, next)
  | none ↦
      let (word, rest) = advance_alpha c.rest in
      (some (text (map to_ascii_lowercase word)), after c.prev word rest)
]

unfoldable pub scan_step : Option ℕ → ℕ → Text → Option Token × Cursor
scan_step prev byte s =
    if is_separator byte
    then scan_separator byte s
    else if is_ascii_digit byte
    then (let (digits, rest) = advance_digits (byte ∷ s) in
        (some (numeric (digits_to_u64 digits)), after prev digits rest))
    else if is_ascii_alphabetic byte
    then scan_word (record { prev = prev; rest = byte ∷ s })
    else (none, after (some byte) [] s)

abbrev pub push : Option Token → List Token → List Token
push none tokens = tokens
push (some tok) tokens = tok ∷ tokens

-- The `while` loop, on fuel; each round moves the position forward (Version/Progress).
unfoldable pub tokenize_from : ℕ → Option ℕ → Text → List Token
tokenize_from zero prev s = []
tokenize_from (suc fuel) prev [] = []
tokenize_from (suc fuel) prev (byte ∷ s) =
    let (tok, next) = scan_step prev byte s in push tok (tokenize_from fuel next.prev next.rest)

unfoldable pub tokenize : Text → List Token
unfolding tokenize_from scan_step scan_separator post_at scan_word try_keyword try_long try_short
    try_patch or_else advance_digits advance_alpha digits_to_u64
tokenize input = tokenize_from (length input) none input

-- `PkgVersion::from_str`
unfoldable pub from_str : Text → Result ParseVersionError PkgVersion
from_str s = elim (tokenize s) [
  | [] ↦ err (record { input = s })
  | tok ∷ toks ↦ ok (record { tokens = tok ∷ toks; raw = s })
]
