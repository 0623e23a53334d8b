-- ===== src/Platform/OsVersion.antt =====
-- `OsVersion` of crates/core/src/platform.rs: its text form, both ways.
use brewdock.Base.{
  ℕ, ◌≤◌, ◌≡◌, refl, ap, ◌∙◌, true, false, ◌&&◌, none, some, List, [], ◌∷◌, ◌++◌, Text, ascii, leb,
  ◌==◌, if◌then◌else◌, Result, ok, err, ◌>>=◌, arith, Bool-cases, inl, inr,
}
use brewdock.Base.Decimal.{
  decimal, decimal-IsDigits, decimal-cons, IsDigits, parse_digits, at_most, parse_unsigned, u16_max,
}
use brewdock.Platform.{PlatformError, detection}
use brewdock.Version.Digits.{value, value_from, value-decimal}

pub record OsVersion : Type 0 where
  pub major : ℕ
  pub minor : ℕ
  pub patch : ℕ

-- `split('.')`
unfoldable pub split_dot : Text → List Text
split_dot [] = [] ∷ []
split_dot (b ∷ s) = elim (split_dot s) [
  | [] ↦ (b ∷ []) ∷ []
  | part ∷ parts ↦ if b == b'.' then [] ∷ part ∷ parts else (b ∷ part) ∷ parts
]

-- `Display`
unfoldable pub display : OsVersion → Text
display v = decimal v.major ++ b'.' ∷ (decimal v.minor ++ b'.' ∷ decimal v.patch)

-- The text of a `ParseIntError` is the standard library's.
module _ (parse_int_error : Text → Text) where
  unfoldable pub number : Text → Text → Result PlatformError ℕ
  number what part = elim (parse_unsigned u16_max part) [
    | some n ↦ ok n
    | none ↦ err (detection (what ++ parse_int_error part))
  ]

  -- `from_str`, on the parts.
  unfoldable pub from_parts : Text → List Text → Result PlatformError OsVersion
  from_parts s (a ∷ b ∷ []) = do
    major ← number (ascii "invalid major version: ") a
    minor ← number (ascii "invalid minor version: ") b
    ok (record { major = major; minor = minor; patch = 0 })
  from_parts s (a ∷ b ∷ c ∷ []) = do
    major ← number (ascii "invalid major version: ") a
    minor ← number (ascii "invalid minor version: ") b
    patch ← number (ascii "invalid patch version: ") c
    ok (record { major = major; minor = minor; patch = patch })
  from_parts s _ = err (detection (ascii "invalid version format: " ++ s))

  unfoldable pub parse_os_version : Text → Result PlatformError OsVersion
  parse_os_version s = from_parts s (split_dot s)

parse_digits-value_from :
    (ds : Text) (n : ℕ) → IsDigits ds → parse_digits n ds ≡ some (value_from n ds)
unfolding parse_digits value_from
parse_digits-value_from [] n h = refl
parse_digits-value_from (d ∷ ds) n h =
    let digit : (leb b'0' d && leb d b'9') ≡ true = ground arith in
    rw digit (parse_digits-value_from ds _ h.2)

parse_unsigned-IsDigits :
    (max d : ℕ) (ds : Text)
    → IsDigits (d ∷ ds)
    → parse_unsigned max (d ∷ ds) ≡ at_most max (parse_digits 0 (d ∷ ds))
unfolding parse_unsigned
parse_unsigned-IsDigits max d [] h = let no_plus : (d == b'+') ≡ false = ground arith in rw no_plus
parse_unsigned-IsDigits max d (e ∷ ds) h =
    let no_plus : (d == b'+') ≡ false = ground arith in rw no_plus

parse_unsigned-decimal : (max n : ℕ) → n ≤ max → parse_unsigned max (decimal n) ≡ some n
unfolding at_most value
parse_unsigned-decimal max n h =
    let (d, ds, e) = decimal-cons n in
    let digits : IsDigits (d ∷ ds) = rw e at (decimal-IsDigits n) in
    let read : value_from 0 (d ∷ ds) ≡ n = rw (← e) (value-decimal n) in
    let small : leb n max ≡ true = ground arith in
    rw e (
      parse_unsigned-IsDigits max d ds digits
      ∙ ap (at_most max) (parse_digits-value_from (d ∷ ds) 0 digits)
      ∙ ap (λ k. at_most max (some k)) read
      ∙ rw small)

split_dot-cons : (s : Text) → (part : Text) × (parts : List Text) × (split_dot s ≡ part ∷ parts)
unfolding split_dot
split_dot-cons [] = ([], [], refl)
split_dot-cons (b ∷ s) =
    let (part, parts, e) = split_dot-cons s in
    elim (Bool-cases (b == b'.')) [
      | inl d ↦ ([], part ∷ parts, rw (e, d))
      | inr d ↦ (b ∷ part, parts, rw (e, d))
    ]

split_dot-digits :
    (ds rest : Text) → IsDigits ds → split_dot (ds ++ b'.' ∷ rest) ≡ ds ∷ split_dot rest
unfolding split_dot
split_dot-digits [] rest h = let (part, parts, e) = split_dot-cons rest in rw e
split_dot-digits (d ∷ ds) rest h =
    let no_dot : (d == b'.') ≡ false = ground arith in rw (split_dot-digits ds rest h.2, no_dot)

split_dot-end : (ds : Text) → IsDigits ds → split_dot ds ≡ ds ∷ []
unfolding split_dot
split_dot-end [] h = refl
split_dot-end (d ∷ ds) h =
    let no_dot : (d == b'.') ≡ false = ground arith in rw (split_dot-end ds h.2, no_dot)

number-decimal :
    (parse_int_error : Text → Text) (what : Text) (n : ℕ)
    → n ≤ u16_max
    → number parse_int_error what (decimal n) ≡ ok n
unfolding number
number-decimal parse_int_error what n h = rw (parse_unsigned-decimal u16_max n h, number)

-- Reading the text of a version whose three numbers have 16 bits gives the version back.
pub parse_os_version-display :
    (parse_int_error : Text → Text) (v : OsVersion)
    → v.major ≤ u16_max
    → v.minor ≤ u16_max
    → v.patch ≤ u16_max
    → parse_os_version parse_int_error (display v) ≡ ok v
unfolding parse_os_version display from_parts
parse_os_version-display parse_int_error v h k l =
    ap (from_parts parse_int_error (display v)) (
      split_dot-digits (decimal v.major) _ (decimal-IsDigits v.major)
      ∙ ap (λ ps. decimal v.major ∷ ps)
          (split_dot-digits (decimal v.minor) _ (decimal-IsDigits v.minor)
            ∙ ap (λ ps. decimal v.minor ∷ ps)
                (split_dot-end (decimal v.patch) (decimal-IsDigits v.patch))))
    ∙ rw (
      number-decimal parse_int_error (ascii "invalid major version: ") v.major h,
      number-decimal parse_int_error (ascii "invalid minor version: ") v.minor k,
      number-decimal parse_int_error (ascii "invalid patch version: ") v.patch l,
    )
