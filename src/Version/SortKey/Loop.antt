-- ===== src/Version/SortKey/Loop.antt =====
-- The loop of `Ord::cmp` (version.rs) compares the sort keys of the two versions.
use brewdock.Base.{
  ℕ, zero, suc, ◌≡◌, refl, sym, ◌∙◌, ◌⊎◌, false, List, [], ◌∷◌, ◌++◌, lex_cmp, arith, Bool-cases,
  inl, inr,
}
use brewdock.Version.Token.{Token, numeric}
use brewdock.Version.Compare.{cmp_loop, is_numeric}
use brewdock.Version.SortKey.{
  token_key, no_number, sort_key, then_by, lex_cmp-token_key, sort_key-no_number, sort_key_number,
  lex_cmp-zeros, lex_cmp-zero_left, lex_cmp-zero_right, sort_key_word,
}

-- A version against the end of the other.
cmp_loop-nil : (ts : List Token) → cmp_loop ts [] ≡ lex_cmp (sort_key ts) (4 ∷ [])
unfolding cmp_loop sort_key lex_cmp
cmp_loop-nil [] = refl
cmp_loop-nil (numeric zero ∷ ts) = elim (Bool-cases (no_number ts)) [
  | inl e ↦ rw e (cmp_loop-nil ts)
  | inr e ↦ rw e (let (k, q) = sort_key_number ts e in ground (arith, cmp_loop-nil ts))
]
cmp_loop-nil (numeric (suc n) ∷ ts) = ground arith
cmp_loop-nil (_ ∷ ts) = ground arith

nil-cmp_loop : (ts : List Token) → cmp_loop [] ts ≡ lex_cmp (4 ∷ []) (sort_key ts)
unfolding cmp_loop sort_key lex_cmp
nil-cmp_loop [] = refl
nil-cmp_loop (numeric zero ∷ ts) = elim (Bool-cases (no_number ts)) [
  | inl e ↦ rw e (nil-cmp_loop ts)
  | inr e ↦ rw e (let (k, q) = sort_key_number ts e in ground (arith, nil-cmp_loop ts))
]
nil-cmp_loop (numeric (suc n) ∷ ts) = ground arith
nil-cmp_loop (_ ∷ ts) = ground arith

-- Two tokens that are no numbers.
cmp_loop_word :
    (t u : Token) (ls rs : List Token)
    → is_numeric t ≡ false
    → is_numeric u ≡ false
    → cmp_loop ls rs ≡ lex_cmp (sort_key ls) (sort_key rs)
    → cmp_loop (t ∷ ls) (u ∷ rs) ≡ lex_cmp (token_key t ++ sort_key ls) (token_key u ++ sort_key rs)
unfolding cmp_loop then_by
cmp_loop_word t u ls rs p q ih = ground (arith, lex_cmp-token_key t u (sort_key ls) (sort_key rs))

-- Two numbers.
cmp_loop_numbers :
    (m n : ℕ) (ls rs : List Token)
    → cmp_loop ls rs ≡ lex_cmp (sort_key ls) (sort_key rs)
    → cmp_loop (numeric m ∷ ls) (numeric n ∷ rs)
      ≡ lex_cmp (sort_key (numeric m ∷ ls)) (sort_key (numeric n ∷ rs))
unfolding cmp_loop sort_key lex_cmp
cmp_loop_numbers zero zero ls rs ih = ih ∙ sym (lex_cmp-zeros ls rs)
cmp_loop_numbers zero (suc n) ls rs ih = elim (Bool-cases (no_number ls)) [
  | inl p ↦ let (x, k, e, lt) = sort_key-no_number ls p in ground arith
  | inr p ↦ ground arith
]
cmp_loop_numbers (suc m) zero ls rs ih = elim (Bool-cases (no_number rs)) [
  | inl p ↦ let (x, k, e, lt) = sort_key-no_number rs p in ground arith
  | inr p ↦ ground arith
]
cmp_loop_numbers (suc m) (suc n) ls rs ih = ground arith

-- A number against a word, both ways round.
cmp_loop_number_word :
    (n : ℕ) (u : Token) (ls rs : List Token)
    → is_numeric u ≡ false
    → cmp_loop ls (u ∷ rs) ≡ lex_cmp (sort_key ls) (sort_key (u ∷ rs))
    → cmp_loop (numeric n ∷ ls) (u ∷ rs) ≡ lex_cmp (sort_key (numeric n ∷ ls)) (sort_key (u ∷ rs))
unfolding cmp_loop
cmp_loop_number_word zero u ls rs q ih =
    ground (arith, lex_cmp-zero_left ls (u ∷ rs) (sort_key_word u rs q).1)
cmp_loop_number_word (suc n) u ls rs q ih =
    let (x, k, e, lt) = sort_key-no_number (u ∷ rs) (sort_key_word u rs q).1 in
    rw e (unfold sort_key lex_cmp in ground arith)

cmp_loop_word_number :
    (t : Token) (n : ℕ) (ls rs : List Token)
    → is_numeric t ≡ false
    → cmp_loop (t ∷ ls) rs ≡ lex_cmp (sort_key (t ∷ ls)) (sort_key rs)
    → cmp_loop (t ∷ ls) (numeric n ∷ rs) ≡ lex_cmp (sort_key (t ∷ ls)) (sort_key (numeric n ∷ rs))
unfolding cmp_loop
cmp_loop_word_number t zero ls rs q ih =
    ground (arith, lex_cmp-zero_right (t ∷ ls) rs (sort_key_word t ls q).1)
cmp_loop_word_number t (suc n) ls rs q ih =
    let (x, k, e, lt) = sort_key-no_number (t ∷ ls) (sort_key_word t ls q).1 in
    rw e (unfold sort_key lex_cmp in ground arith)

is_numeric_cases : (t : Token) → ((n : ℕ) × (t ≡ numeric n)) ⊎ (is_numeric t ≡ false)
is_numeric_cases (numeric n) = inl (n, refl)
is_numeric_cases _ = inr refl

-- The loop compares the sort keys.
pub cmp_loop-eq-lex_cmp :
    (ls rs : List Token) → cmp_loop ls rs ≡ lex_cmp (sort_key ls) (sort_key rs)
cmp_loop-eq-lex_cmp [] [] = unfold cmp_loop sort_key lex_cmp in refl
cmp_loop-eq-lex_cmp (t ∷ ls) [] = cmp_loop-nil (t ∷ ls) ∙ unfold sort_key in refl
cmp_loop-eq-lex_cmp [] (u ∷ rs) = nil-cmp_loop (u ∷ rs) ∙ unfold sort_key in refl
cmp_loop-eq-lex_cmp (t ∷ ls) (u ∷ rs) = elim (is_numeric_cases t) [
  | inl (m, p) ↦ elim (is_numeric_cases u) [
    | inl (n, q) ↦ rw (p, q) (cmp_loop_numbers m n ls rs (cmp_loop-eq-lex_cmp ls rs))
    | inr q ↦ rw p (cmp_loop_number_word m u ls rs q (cmp_loop-eq-lex_cmp ls (u ∷ rs)))
  ]
  | inr p ↦ elim (is_numeric_cases u) [
    | inl (n, q) ↦ rw q (cmp_loop_word_number t n ls rs p (cmp_loop-eq-lex_cmp (t ∷ ls) rs))
    | inr q ↦
        rw ((sort_key_word t ls p).0, (sort_key_word u rs q).0)
          (cmp_loop_word t u ls rs p q (cmp_loop-eq-lex_cmp ls rs))
  ]
]
