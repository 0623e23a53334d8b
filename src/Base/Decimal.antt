-- ===== src/Base/Decimal.antt =====
-- `Display` of an unsigned integer: its decimal digits, the most significant first.
use Prim.Native.Nat.{ℕ, zero, suc, ◌+◌, ◌-◌, ◌*◌, ◌^◌, ◌/◌, ◌%◌, ◌≤◌}
use mathlib.Core.Path.{◌≡◌}
use mathlib.Core.Logic.{inl, inr}
use mathlib.Core.List.{[], ◌∷◌}
use native.Mathlib.Omega.{arith}
use mathlib.Core.Bool.{◌&&◌}
use mathlib.Core.Option.{Option, none, some}
use brewdock.Base.Tests.{ltb, leb, ◌==◌, if◌then◌else◌, Bool-cases}
use brewdock.Base.Bytes.{Text}

-- Each round puts the last digit in front of those that are written; a number has fewer digits than
-- one more than itself.
unfoldable pub decimal_onto : ℕ → ℕ → Text → Text
decimal_onto zero n written = written
decimal_onto (suc fuel) n written =
    let rest = decimal_onto fuel (n / 10) ((b'0' + n % 10) ∷ written) in
    if ltb n 10 then (b'0' + n) ∷ written else rest

unfoldable pub decimal : ℕ → Text
unfolding decimal_onto
decimal n = decimal_onto (suc n) n []

abbrev pub IsDigits : Text → Type 0
IsDigits [] = Unit
IsDigits (d ∷ ds) = (b'0' ≤ d) × (d ≤ b'9') × IsDigits ds

decimal_onto-IsDigits :
    (fuel n : ℕ) (written : Text) → IsDigits written → IsDigits (decimal_onto fuel n written)
unfolding decimal_onto
decimal_onto-IsDigits zero n written h = h
decimal_onto-IsDigits (suc fuel) n written h = elim (Bool-cases (ltb n 10)) [
  | inl e ↦ rw e (ground arith, ground arith, h)
  | inr e ↦ rw e (
      decimal_onto-IsDigits fuel (n / 10) ((b'0' + n % 10) ∷ written) (omega arith, omega arith, h))
]

pub decimal-IsDigits : (n : ℕ) → IsDigits (decimal n)
unfolding decimal
decimal-IsDigits n = decimal_onto-IsDigits (suc n) n [] tt

decimal_onto-cons :
    (fuel n : ℕ) (d : ℕ) (written : Text)
    → (e : ℕ) × (rest : Text) × (decimal_onto fuel n (d ∷ written) ≡ e ∷ rest)
unfolding decimal_onto
decimal_onto-cons zero n d written = (d, written, λ i. d ∷ written)
decimal_onto-cons (suc fuel) n d written = elim (Bool-cases (ltb n 10)) [
  | inl e ↦ rw e (b'0' + n, d ∷ written, λ i. (b'0' + n) ∷ d ∷ written)
  | inr e ↦ rw e (decimal_onto-cons fuel (n / 10) (b'0' + n % 10) (d ∷ written))
]

-- There is at least one digit.
pub decimal-cons : (n : ℕ) → (d : ℕ) × (ds : Text) × (decimal n ≡ d ∷ ds)
unfolding decimal
decimal-cons n = elim (Bool-cases (ltb n 10)) [
  | inl e ↦ rw e (b'0' + n, [], λ i. (b'0' + n) ∷ [])
  | inr e ↦ rw e (decimal_onto-cons n (n / 10) (b'0' + n % 10) [])
]

-- `str::parse` for an unsigned integer, whose errors are not told apart: one `+` may come first, then
-- at least one digit and nothing else, for a number in the type's range.
unfoldable pub parse_digits : ℕ → Text → Option ℕ
parse_digits n [] = some n
parse_digits n (d ∷ ds) =
    if leb b'0' d && leb d b'9' then parse_digits (n * 10 + (d - b'0')) ds else none

unfoldable pub at_most : ℕ → Option ℕ → Option ℕ
at_most max none = none
at_most max (some n) = if leb n max then some n else none

unfoldable pub parse_unsigned : ℕ → Text → Option ℕ
unfolding parse_digits at_most
parse_unsigned max [] = none
parse_unsigned max (b ∷ []) = if b == b'+' then none else at_most max (parse_digits 0 (b ∷ []))
parse_unsigned max (b ∷ d ∷ s) =
    if b == b'+'
    then at_most max (parse_digits 0 (d ∷ s))
    else at_most max (parse_digits 0 (b ∷ d ∷ s))

abbrev pub u16_max : ℕ
u16_max = 2 ^ 16 - 1
