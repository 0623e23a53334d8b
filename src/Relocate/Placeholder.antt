-- ===== src/Relocate/Placeholder.antt =====
-- Occurrences of a placeholder of crates/cellar/src/relocate.rs in a text that was rewritten.
use brewdock.Base.{
  ℕ, zero, suc, ◌≡◌, ◌≢◌, refl, sym, subst, false, [], ◌∷◌, ◌++◌, Text, arith, Bool-cases, inl, inr,
}
use brewdock.Base.Lists.{length}
use brewdock.Relocate.Replace.{begins, contains_text, replace_from, replace}

-- The byte does not stand in the text.
abbrev pub Lacks : ℕ → Text → Type 0
Lacks c [] = Unit
Lacks c (b ∷ s) = (b ≢ c) × Lacks c s

-- A text that begins with `@` and has no slash, and one that begins with a slash and has no `@`.
abbrev pub IsPlaceholder : Text → Type 0
IsPlaceholder [] = ⊥
IsPlaceholder (b ∷ s) = (b ≡ b'@') × Lacks b'/' s

abbrev pub IsTarget : Text → Type 0
IsTarget [] = ⊥
IsTarget (b ∷ s) = (b ≡ b'/') × Lacks b'@' s

-- An occurrence in the text behind a target is not in part of the target.
contains_behind :
    (p s rest : Text)
    → Lacks b'@' s
    → contains_text (b'@' ∷ p) (s ++ rest) ≡ contains_text (b'@' ∷ p) rest
unfolding contains_text begins
contains_behind p [] rest h = refl
contains_behind p (b ∷ s) rest h = ground (arith, contains_behind p s rest h.1)

module _ (a : ℕ) (from tail : Text) (free : Lacks b'@' tail) where
  begins-replace :
      (p s : Text)
      → Lacks b'/' p
      → begins p s ≡ false
      → begins p (replace (a ∷ from) (b'/' ∷ tail) s) ≡ false
  unfolding begins replace replace_from
  begins-replace [] s h e = ground arith
  begins-replace (c ∷ p) [] h e = refl
  begins-replace (c ∷ p) (b ∷ s) h e = elim (Bool-cases (begins (a ∷ from) (b ∷ s))) [
    | inl m ↦ ground arith
    | inr m ↦ ground (arith, begins-replace p s h.1)
  ]

  contains_text-replace_from :
      (p : Text) (skip : ℕ) (s : Text)
      → Lacks b'/' p
      → contains_text (b'@' ∷ p) s ≡ false
      → contains_text (b'@' ∷ p) (replace_from (a ∷ from) (b'/' ∷ tail) skip s) ≡ false
  unfolding contains_text replace_from replace begins
  contains_text-replace_from p skip [] h e = e
  contains_text-replace_from p (suc skip) (b ∷ s) h e =
      contains_text-replace_from p skip s h (ground arith)
  contains_text-replace_from p zero (b ∷ s) h e = elim (Bool-cases (begins (a ∷ from) (b ∷ s))) [
    | inl m ↦ ground (
      arith,
      contains_behind p (b'/' ∷ tail) (replace_from (a ∷ from) (b'/' ∷ tail) (length from) s)
          (ground arith, free),
      contains_text-replace_from p (length from) s h (ground arith),
    )
    | inr m ↦
        ground (arith, begins-replace p s h, contains_text-replace_from p zero s h (ground arith))
  ]

  -- The pattern itself is gone.
  contains_text-replace_from_own :
      (skip : ℕ) (s : Text)
      → a ≡ b'@'
      → Lacks b'/' from
      → contains_text (a ∷ from) (replace_from (a ∷ from) (b'/' ∷ tail) skip s) ≡ false
  unfolding contains_text replace_from replace begins
  contains_text-replace_from_own skip [] e h = refl
  contains_text-replace_from_own (suc skip) (b ∷ s) e h = contains_text-replace_from_own skip s e h
  contains_text-replace_from_own zero (b ∷ s) e h = elim (Bool-cases (begins (a ∷ from) (b ∷ s))) [
    | inl m ↦ ground (
      arith,
      contains_behind from (b'/' ∷ tail) (replace_from (a ∷ from) (b'/' ∷ tail) (length from) s)
          (ground arith, free),
      contains_text-replace_from_own (length from) s e h,
    )
    | inr m ↦ ground (arith, begins-replace from s h, contains_text-replace_from_own zero s e h)
  ]

pub contains_text-replace :
    (from to p s : Text)
    → IsPlaceholder from
    → IsTarget to
    → IsPlaceholder p
    → contains_text p s ≡ false
    → contains_text p (replace from to s) ≡ false
unfolding replace
contains_text-replace [] to p s f t h e = absurd f
contains_text-replace (a ∷ from) [] p s f t h e = absurd t
contains_text-replace (a ∷ from) (b ∷ to) [] s f t h e = absurd h
contains_text-replace (a ∷ from) (b ∷ to) (c ∷ p) s f t h e =
    subst
      (λ c.
        contains_text (c ∷ p) s ≡ false
        → contains_text (c ∷ p) (replace_from (a ∷ from) (b ∷ to) 0 s) ≡ false)
      (sym h.0)
      (subst
        (λ b.
          contains_text (b'@' ∷ p) s ≡ false
          → contains_text (b'@' ∷ p) (replace_from (a ∷ from) (b ∷ to) 0 s) ≡ false)
        (sym t.0) (contains_text-replace_from a from to t.1 p 0 s h.1))
      e

pub contains_text-replace_own :
    (from to s : Text)
    → IsPlaceholder from
    → IsTarget to
    → contains_text from (replace from to s) ≡ false
unfolding replace
contains_text-replace_own [] to s f t = absurd f
contains_text-replace_own (a ∷ from) [] s f t = absurd t
contains_text-replace_own (a ∷ from) (b ∷ to) s f t =
    subst (λ b. contains_text (a ∷ from) (replace_from (a ∷ from) (b ∷ to) 0 s) ≡ false) (sym t.0)
      (contains_text-replace_from_own a from to t.1 0 s f.0 f.1)
