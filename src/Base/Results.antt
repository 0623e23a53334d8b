-- ===== src/Base/Results.antt =====
-- Rust's `Result<A, E>`, and `?` as the bind of `do` blocks.
use mathlib.Core.Logic.{◌⊎◌, inl, inr}
use mathlib.Core.Path.{◌≡◌, refl, ap}
use native.Mathlib.Omega.{arith}

pub data Result (E A : Type 0) : Type 0 where
  ok : A → Result E A
  err : E → Result E A

-- `e?` and what follows it.
infixl 5 ◌>>=◌
abbrev pub ◌>>=◌ : {E A B : Type 0} → Result E A → (A → Result E B) → Result E B
ok value >>= rest = rest value
err failure >>= rest = err failure

-- Where the whole succeeds, the first step does, and the rest does on its value.
pub ok_of_bind :
    {E A B : Type 0} (first : Result E A) (rest : A → Result E B) {last : B}
    → (first >>= rest) ≡ ok last
    → (value : A) × (rest value ≡ ok last) × (first ≡ ok value)
ok_of_bind (err failure) rest e = ground arith
ok_of_bind (ok value) rest e = (value, e, refl)

-- To split on a result and keep the equation.
pub Result-cases :
    {E A : Type 0} (r : Result E A) → ((e : E) × (r ≡ err e)) ⊎ ((a : A) × (r ≡ ok a))
Result-cases (err e) = inl (e, refl)
Result-cases (ok a) = inr (a, refl)

-- The value of a success is determined by it, and a failure is no success.
pub ok_eq : {E A : Type 0} {a b : A} → ◌≡◌ {A = Result E A} (ok a) (ok b) → a ≡ b
ok_eq {a = a} e = ap (λ r. elim r [ ok c ↦ c | err _ ↦ a ]) e

pub err_ok : {E A : Type 0} {e : E} {a : A} → ¬ ◌≡◌ {A = Result E A} (err e) (ok a)
err_ok bad = ground arith
