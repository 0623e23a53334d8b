-- ===== src/Base/Bytes.antt =====
-- Text as its UTF-8 bytes: equality, and the byte-wise order of Rust's `Ord for str`.
use Prim.Native.Nat.{ℕ, compare, Ordering}
use Prim.Native.Char.{code}
use Prim.Native.String.{String}
use mathlib.Core.Path.{◌≡◌, refl}
use mathlib.Core.Logic.{◌↔◌, ◌≢◌}
use mathlib.Core.Bool.{Bool, true, false, ◌&&◌}
use mathlib.Core.List.{List, [], ◌∷◌}
use native.Mathlib.Omega.{arith}
use brewdock.Base.Tests.{◌==◌}

abbrev pub Text : Type 0
Text = List ℕ

-- A literal of the source; all of them are ASCII.
abbrev pub ascii : String → Text
ascii String.[] = []
ascii (String.◌∷◌ c s) = code c ∷ ascii s

unfoldable pub text_eq : Text → Text → Bool
text_eq [] [] = true
text_eq (a ∷ s) (b ∷ t) = a == b && text_eq s t
text_eq _ _ = false

pub text_eq_iff : (s t : Text) → (text_eq s t ≡ true) ↔ (s ≡ t)
unfolding text_eq
text_eq_iff [] [] = ground arith
text_eq_iff [] (b ∷ t) = ground arith
text_eq_iff (a ∷ s) [] = ground arith
text_eq_iff (a ∷ s) (b ∷ t) = ground (arith, text_eq_iff s t)

pub text_eq_refl : (s : Text) → text_eq s s ≡ true
text_eq_refl s = (text_eq_iff s s).1 refl

-- The lexicographic order of byte strings.
unfoldable pub lex_cmp : List ℕ → List ℕ → Ordering
lex_cmp [] [] = Ordering.eq
lex_cmp [] (b ∷ t) = Ordering.lt
lex_cmp (a ∷ s) [] = Ordering.gt
lex_cmp (a ∷ s) (b ∷ t) =
    let rest = lex_cmp s t in
    elim (compare a b) [
      | Ordering.lt ↦ Ordering.lt
      | Ordering.gt ↦ Ordering.gt
      | Ordering.eq ↦ rest
    ]

-- It is a total order.
pub lex_cmp_refl : (s : List ℕ) → lex_cmp s s ≡ Ordering.eq
unfolding lex_cmp
lex_cmp_refl [] = refl
lex_cmp_refl (a ∷ s) = ground (arith, lex_cmp_refl s)

unfoldable pub reverse : Ordering → Ordering
reverse Ordering.lt = Ordering.gt
reverse Ordering.eq = Ordering.eq
reverse Ordering.gt = Ordering.lt

pub lex_cmp_swap : (s t : List ℕ) → lex_cmp t s ≡ reverse (lex_cmp s t)
unfolding lex_cmp reverse
lex_cmp_swap [] [] = refl
lex_cmp_swap [] (b ∷ t) = refl
lex_cmp_swap (a ∷ s) [] = refl
lex_cmp_swap (a ∷ s) (b ∷ t) = ground (arith, lex_cmp_swap s t)

pub eq_of_lex_cmp : (s t : List ℕ) → lex_cmp s t ≡ Ordering.eq → s ≡ t
unfolding lex_cmp
eq_of_lex_cmp [] [] e = refl
eq_of_lex_cmp [] (b ∷ t) e = ground arith
eq_of_lex_cmp (a ∷ s) [] e = ground arith
eq_of_lex_cmp (a ∷ s) (b ∷ t) e = ground (arith, eq_of_lex_cmp s t)

pub lex_cmp_trans :
    (s t u : List ℕ)
    → lex_cmp s t ≢ Ordering.gt
    → lex_cmp t u ≢ Ordering.gt
    → lex_cmp s u ≢ Ordering.gt
unfolding lex_cmp
lex_cmp_trans [] t [] p q = ground arith
lex_cmp_trans [] t (c ∷ u) p q = ground arith
lex_cmp_trans (a ∷ s) [] u p q = ground arith
lex_cmp_trans (a ∷ s) (b ∷ t) [] p q = ground arith
lex_cmp_trans (a ∷ s) (b ∷ t) (c ∷ u) p q = ground (arith, lex_cmp_trans s t u)
