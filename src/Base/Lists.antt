-- ===== src/Base/Lists.antt =====
-- Lists measured by native numbers, and membership and order of their items.
use Prim.Native.Nat.{ℕ, suc, ◌+◌}
use mathlib.Core.Path.{◌≡◌, refl, sym}
use mathlib.Core.Logic.{◌⊎◌, inl, inr}
use mathlib.Core.List.{List, [], ◌∷◌, ◌++◌}
use native.Mathlib.Omega.{arith}

module _ {ℓ} {A : Type ℓ} where
  abbrev pub length : List A → ℕ
  length [] = 0
  length (x ∷ xs) = suc (length xs)

  pub length-append : (xs ys : List A) → length (xs ++ ys) ≡ length xs + length ys
  length-append [] ys = omega arith
  length-append (x ∷ xs) ys = omega (arith, length-append xs ys)

-- Membership in a list, with the place kept.
abbrev pub In : {A : Type 0} → A → List A → Type 0
In a [] = ⊥
In a (x ∷ xs) = (a ≡ x) ⊎ In a xs

module _ {A : Type 0} where
  pub In-append_left : (a : A) (xs ys : List A) → In a xs → In a (xs ++ ys)
  In-append_left a [] ys h = absurd h
  In-append_left a (x ∷ xs) ys (inl e) = inl e
  In-append_left a (x ∷ xs) ys (inr h) = inr (In-append_left a xs ys h)

  pub In-append_right : (a : A) (xs ys : List A) → In a ys → In a (xs ++ ys)
  In-append_right a [] ys h = h
  In-append_right a (x ∷ xs) ys h = inr (In-append_right a xs ys h)

  pub In-append_cases : (a : A) (xs ys : List A) → In a (xs ++ ys) → In a xs ⊎ In a ys
  In-append_cases a [] ys h = inr h
  In-append_cases a (x ∷ xs) ys (inl e) = inl (inl e)
  In-append_cases a (x ∷ xs) ys (inr h) = elim (In-append_cases a xs ys h) [
    | inl l ↦ inl (inr l)
    | inr r ↦ inr r
  ]

  pub In-snoc : (a : A) (xs : List A) → In a (xs ++ a ∷ [])
  In-snoc a xs = In-append_right a xs (a ∷ []) (inl refl)

  pub In-snoc_cases : (a b : A) (xs : List A) → In a (xs ++ b ∷ []) → In a xs ⊎ (a ≡ b)
  In-snoc_cases a b xs h = elim (In-append_cases a xs (b ∷ []) h) [
    | inl l ↦ inl l
    | inr r ↦ elim r [ inl e ↦ inr e | inr n ↦ absurd n ]
  ]

  -- No item stands twice.
  abbrev pub IsDistinct : List A → Type 0
  IsDistinct [] = Unit
  IsDistinct (x ∷ xs) = ¬ In x xs × IsDistinct xs

  pub IsDistinct-snoc :
      (a : A) (xs : List A) → IsDistinct xs → ¬ In a xs → IsDistinct (xs ++ a ∷ [])
  IsDistinct-snoc a [] d n = ((λ h. h), tt)
  IsDistinct-snoc a (x ∷ xs) d n = (
    λ h. elim (In-snoc_cases x a xs h) [ inl l ↦ d.0 l | inr e ↦ n (inl (sym e)) ],
    IsDistinct-snoc a xs d.1 (λ h. n (inr h)),
  )
