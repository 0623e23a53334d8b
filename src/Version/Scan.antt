-- ===== src/Version/Scan.antt =====
-- The scanner (version.rs: `tokenize`, `try_keyword` and their helpers, `FromStr`).
--
-- A position `pos` in `bytes` is the list of the bytes from `pos` on, together with the byte
-- before it where the source reads `bytes[pos - 1]`. `bytes[start..end]` with
-- `end = advance(bytes, start)` is the part that `span` takes.
use Prim.Native.Nat.{min}
use brewdock.Base.{
  ℕ, ◌+◌, ◌-◌, ◌*◌, ◌^◌, Bool, true, not, ◌&&◌, ◌||◌, Option, none, some, List, [], ◌∷◌, Text,
  ascii, if◌then◌else◌, ◌==◌, leb,
}
use brewdock.Version.Token.{Token, alpha, beta, pre, rc}

abbrev pub u64_max : ℕ
u64_max = 2 ^ 64 - 1

-- The byte tests of Rust's standard library, by its documented ranges.
abbrev pub is_ascii_digit : ℕ → Bool
is_ascii_digit b = leb b'0' b && leb b b'9'

abbrev pub is_ascii_uppercase : ℕ → Bool
is_ascii_uppercase b = leb b'A' b && leb b b'Z'

abbrev pub is_ascii_lowercase : ℕ → Bool
is_ascii_lowercase b = leb b'a' b && leb b b'z'

abbrev pub is_ascii_alphabetic : ℕ → Bool
is_ascii_alphabetic b = is_ascii_uppercase b || is_ascii_lowercase b

abbrev pub to_ascii_lowercase : ℕ → ℕ
to_ascii_lowercase b = if is_ascii_uppercase b then b + 32 else b

abbrev pub eq_ignore_ascii_case : ℕ → ℕ → Bool
eq_ignore_ascii_case a b = to_ascii_lowercase a == to_ascii_lowercase b

abbrev pub is_separator : ℕ → Bool
is_separator byte = byte == b'.' || byte == b'-' || byte == b'_'

-- The bytes from a position that pass a test, and the position behind them.
unfoldable pub span : (ℕ → Bool) → Text → Text × Text
span p [] = ([], [])
span p (b ∷ s) = let (taken, rest) = span p s in if p b then (b ∷ taken, rest) else ([], b ∷ s)

-- `advance_digits`, `advance_alpha`
unfoldable pub advance_digits : Text → Text × Text
unfolding span
advance_digits = span is_ascii_digit

unfoldable pub advance_alpha : Text → Text × Text
unfolding span
advance_alpha = span is_ascii_alphabetic

abbrev pub saturating_mul : ℕ → ℕ → ℕ
saturating_mul a b = min (a * b) u64_max

abbrev pub saturating_add : ℕ → ℕ → ℕ
saturating_add a b = min (a + b) u64_max

-- The fold of `digits_to_u64`, from the accumulator on.
unfoldable pub digits_from : ℕ → Text → ℕ
digits_from acc [] = acc
digits_from acc (digit ∷ ds) =
    digits_from (saturating_add (saturating_mul acc 10) (digit - b'0')) ds

unfoldable pub digits_to_u64 : Text → ℕ
unfolding digits_from
digits_to_u64 ds = digits_from 0 ds

unfoldable pub parse_suffix : Text → ℕ
unfolding digits_to_u64
parse_suffix [] = 0
parse_suffix (d ∷ ds) = digits_to_u64 (d ∷ ds)

-- `starts_with`, with what follows
unfoldable pub strip_prefix : Text → Text → Option Text
strip_prefix s [] = some s
strip_prefix [] (n ∷ ns) = none
strip_prefix (h ∷ s) (n ∷ ns) = if h == n then strip_prefix s ns else none

unfoldable pub strip_prefix_ci : Text → Text → Option Text
strip_prefix_ci s [] = some s
strip_prefix_ci [] (n ∷ ns) = none
strip_prefix_ci (h ∷ s) (n ∷ ns) = if eq_ignore_ascii_case h n then strip_prefix_ci s ns else none

-- `rest.is_empty() || !rest[0].is_ascii_alphabetic()`
unfoldable pub ends_word : Text → Bool
ends_word [] = true
ends_word (b ∷ _) = not (is_ascii_alphabetic b)

-- `pos == 0 || !bytes[pos - 1].is_ascii_alphabetic()`
unfoldable pub starts_word : Option ℕ → Bool
starts_word none = true
starts_word (some b) = not (is_ascii_alphabetic b)

abbrev pub long_keywords : List (Text × (ℕ → Token))
long_keywords =
    (ascii "alpha", alpha) ∷ (ascii "beta", beta) ∷ (ascii "pre", pre) ∷ (ascii "rc", rc) ∷ []

abbrev pub short_keywords : List (ℕ × (ℕ → Token))
short_keywords = (b'a', alpha) ∷ (b'b', beta) ∷ []
