-- ===== src/Version/Digits.antt =====
-- Decimal numbers: the value of a run of digits (version.rs: `digits_to_u64`), and the digits that
-- formatting an unsigned integer writes.
use Prim.Native.Nat.{min}
use brewdock.Base.{
  ℕ, zero, suc, ◌+◌, ◌-◌, ◌*◌, ◌/◌, ◌%◌, ◌≤◌, ◌<◌, ◌≡◌, refl, Text, [], ◌∷◌, ltb, arith, ap, ◌∙◌,
  Bool-cases, inl, inr,
}
use brewdock.Base.Decimal.{decimal, decimal_onto}
use brewdock.Version.Scan.{u64_max, digits_from, digits_to_u64, saturating_add, saturating_mul}

-- The number that a run of digits names, with no bound.
unfoldable pub value_from : ℕ → Text → ℕ
value_from acc [] = acc
value_from acc (d ∷ ds) = value_from (acc * 10 + (d - b'0')) ds

unfoldable pub value : Text → ℕ
unfolding value_from
value ds = value_from 0 ds

value_from_mono : (ds : Text) (a b : ℕ) → a ≤ b → value_from a ds ≤ value_from b ds
unfolding value_from
value_from_mono [] a b h = h
value_from_mono (d ∷ ds) a b h = value_from_mono ds _ _ (omega arith)

value_from-ge : (ds : Text) (a : ℕ) → a ≤ value_from a ds
unfolding value_from
value_from-ge [] a = omega arith
value_from-ge (d ∷ ds) a = omega (arith, value_from-ge ds (a * 10 + (d - b'0')))

digits_from-eq-min :
    (ds : Text) (acc : ℕ) → digits_from (min acc u64_max) ds ≡ min (value_from acc ds) u64_max
unfolding digits_from value_from
digits_from-eq-min [] acc = refl
digits_from-eq-min (d ∷ ds) acc =
    let same : saturating_add (saturating_mul (min acc u64_max) 10) (d - b'0')
        ≡ min (acc * 10 + (d - b'0')) u64_max =
      omega arith in
    rw same (digits_from-eq-min ds (acc * 10 + (d - b'0')))

-- The number read from a run of digits is the one that they name, or the greatest 64-bit number
-- where that is smaller.
pub digits_to_u64-eq-min : (ds : Text) → digits_to_u64 ds ≡ min (value ds) u64_max
unfolding digits_to_u64 value
digits_to_u64-eq-min ds = digits_from-eq-min ds 0

value_from-decimal_onto :
    (fuel n : ℕ) (written : Text)
    → n < fuel
    → value_from 0 (decimal_onto fuel n written) ≡ value_from n written
unfolding value_from decimal_onto
value_from-decimal_onto zero n written h = elim h [ ]
value_from-decimal_onto (suc fuel) n written h = elim (Bool-cases (ltb n 10)) [
  | inl e ↦ rw e (ap (λ k. value_from k written) (omega arith))
  | inr e ↦ rw e (
      value_from-decimal_onto fuel (n / 10) ((b'0' + n % 10) ∷ written) (ground arith)
      ∙ ap (λ k. value_from k written) (omega arith))
]

pub value-decimal : (n : ℕ) → value (decimal n) ≡ n
unfolding value decimal
value-decimal n = value_from-decimal_onto (suc n) n [] (omega arith) ∙ unfold value_from in refl

-- Reading back what was written, within 64 bits.
pub digits_to_u64-decimal : (n : ℕ) → n ≤ u64_max → digits_to_u64 (decimal n) ≡ n
digits_to_u64-decimal n h = rw (digits_to_u64-eq-min, value-decimal) (omega arith)
