-- ===== src/Version/SortKey.antt =====
-- A sort key for versions: a list of numbers whose lexicographic order is meant to be the order of
-- the versions. It is an independent description of `Ord::cmp` of version.rs, in one pass over
-- each version by itself.
pub mod Loop
use brewdock.Base.{
  ℕ, zero, suc, ◌<◌, compare, Ordering, ◌≡◌, refl, sym, ◌∙◌, ◌⊎◌, Bool, true, false, List, [], ◌∷◌,
  ◌++◌, map, Text, if◌then◌else◌, lex_cmp, arith, Bool-cases, inl, inr,
}
use brewdock.Version.Token.{
  Token, alpha, beta, pre, rc, numeric, patch, post, text, stage_rank, token_rev,
}
use brewdock.Version.Compare.{cmp_loop, cmp_tokens, cmp_token_vs_null, is_numeric}

-- The letters of a text, and an end mark below every letter.
spell : Text → List ℕ
spell [] = 0 ∷ []
spell (b ∷ w) = suc b ∷ spell w

-- Pre-releases, then the end of the version (4), then patches, other words, and numbers.
token_key : Token → List ℕ
unfolding spell
token_key (alpha n) = 0 ∷ n ∷ []
token_key (beta n) = 1 ∷ n ∷ []
token_key (pre n) = 2 ∷ n ∷ []
token_key (rc n) = 3 ∷ n ∷ []
token_key (patch n) = 5 ∷ n ∷ []
token_key (post n) = 6 ∷ n ∷ []
token_key (text w) = 7 ∷ spell w
token_key (numeric n) = 8 ∷ n ∷ []

-- Only zeros stand before the next token that is no number, or before the end.
no_number : List Token → Bool
no_number (numeric zero ∷ ts) = no_number ts
no_number (numeric (suc _) ∷ ts) = false
no_number _ = true

-- Zeros count only where a greater number follows.
unfoldable pub sort_key : List Token → List ℕ
unfolding token_key no_number
sort_key [] = 4 ∷ []
sort_key (numeric zero ∷ ts) = let key = sort_key ts in if no_number ts then key else 8 ∷ 0 ∷ key
sort_key (tok ∷ ts) = token_key tok ++ sort_key ts

then_by : Ordering → Ordering → Ordering
then_by Ordering.eq o = o
then_by o _ = o

lex_cmp-spell :
    (v w : Text) (k l : List ℕ)
    → lex_cmp (spell v ++ k) (spell w ++ l) ≡ then_by (lex_cmp v w) (lex_cmp k l)
unfolding spell lex_cmp then_by
lex_cmp-spell [] [] k l = refl
lex_cmp-spell [] (b ∷ w) k l = ground arith
lex_cmp-spell (a ∷ v) [] k l = ground arith
lex_cmp-spell (a ∷ v) (b ∷ w) k l = ground (arith, lex_cmp-spell v w k l)

-- Tokens of which neither or both are numbers are compared as their keys.
lex_cmp-token_key :
    (t u : Token) (k l : List ℕ)
    → is_numeric t ≡ is_numeric u
    → lex_cmp (token_key t ++ k) (token_key u ++ l) ≡ then_by (cmp_tokens t u) (lex_cmp k l)
unfolding token_key lex_cmp then_by cmp_tokens
lex_cmp-token_key (text v) (text w) k l e = lex_cmp-spell v w k l
lex_cmp-token_key (text v) u k l e = ground arith
lex_cmp-token_key (alpha _) u k l e = ground arith
lex_cmp-token_key (beta _) u k l e = ground arith
lex_cmp-token_key (pre _) u k l e = ground arith
lex_cmp-token_key (rc _) u k l e = ground arith
lex_cmp-token_key (numeric _) u k l e = ground arith
lex_cmp-token_key (patch _) u k l e = ground arith
lex_cmp-token_key (post _) u k l e = ground arith

-- The head of a key tells whether a number comes next.
sort_key-no_number :
    (ts : List Token)
    → no_number ts ≡ true
    → (x : ℕ) × (k : List ℕ) × (sort_key ts ≡ x ∷ k) × (x < 8)
unfolding sort_key
sort_key-no_number [] e = (4, [], refl, omega arith)
sort_key-no_number (numeric zero ∷ ts) e = rw e (sort_key-no_number ts e)
sort_key-no_number (numeric (suc n) ∷ ts) e = ground arith
sort_key-no_number (alpha n ∷ ts) e = (0, n ∷ sort_key ts, refl, omega arith)
sort_key-no_number (beta n ∷ ts) e = (1, n ∷ sort_key ts, refl, omega arith)
sort_key-no_number (pre n ∷ ts) e = (2, n ∷ sort_key ts, refl, omega arith)
sort_key-no_number (rc n ∷ ts) e = (3, n ∷ sort_key ts, refl, omega arith)
sort_key-no_number (patch n ∷ ts) e = (5, n ∷ sort_key ts, refl, omega arith)
sort_key-no_number (post n ∷ ts) e = (6, n ∷ sort_key ts, refl, omega arith)
sort_key-no_number (text w ∷ ts) e = (7, spell w ++ sort_key ts, refl, omega arith)

sort_key_number : (ts : List Token) → no_number ts ≡ false → (k : List ℕ) × (sort_key ts ≡ 8 ∷ k)
unfolding sort_key
sort_key_number (numeric zero ∷ ts) e = rw e (0 ∷ sort_key ts, refl)
sort_key_number (numeric (suc n) ∷ ts) e = (suc n ∷ sort_key ts, refl)
sort_key_number [] e = ground arith
sort_key_number (_ ∷ ts) e = ground arith

-- A zero on both sides changes nothing.
lex_cmp-zeros :
    (ls rs : List Token)
    → lex_cmp (sort_key (numeric 0 ∷ ls)) (sort_key (numeric 0 ∷ rs))
      ≡ lex_cmp (sort_key ls) (sort_key rs)
unfolding sort_key lex_cmp
lex_cmp-zeros ls rs = elim (Bool-cases (no_number ls)) [
  | inl p ↦ elim (Bool-cases (no_number rs)) [
    | inl q ↦ rw (p, q)
    | inr q ↦
        let (x, k, e, lt) = sort_key-no_number ls p in
        let (l, f) = sort_key_number rs q in ground arith
  ]
  | inr p ↦ elim (Bool-cases (no_number rs)) [
    | inl q ↦
        let (x, k, e, lt) = sort_key-no_number rs q in
        let (l, f) = sort_key_number ls p in ground arith
    | inr q ↦ ground arith
  ]
]

-- A zero before a number counts for nothing against what is no number.
lex_cmp-zero_left :
    (ls us : List Token)
    → no_number us ≡ true
    → lex_cmp (sort_key (numeric 0 ∷ ls)) (sort_key us) ≡ lex_cmp (sort_key ls) (sort_key us)
unfolding sort_key lex_cmp
lex_cmp-zero_left ls us q = elim (Bool-cases (no_number ls)) [
  | inl p ↦ rw p
  | inr p ↦
      let (x, k, e, lt) = sort_key-no_number us q in
      let (l, f) = sort_key_number ls p in ground arith
]

lex_cmp-zero_right :
    (us rs : List Token)
    → no_number us ≡ true
    → lex_cmp (sort_key us) (sort_key (numeric 0 ∷ rs)) ≡ lex_cmp (sort_key us) (sort_key rs)
unfolding sort_key lex_cmp
lex_cmp-zero_right us rs q = elim (Bool-cases (no_number rs)) [
  | inl p ↦ rw p
  | inr p ↦
      let (x, k, e, lt) = sort_key-no_number us q in
      let (l, f) = sort_key_number rs p in ground arith
]

-- The key of a version whose next token is no number.
sort_key_word :
    (t : Token) (ts : List Token)
    → is_numeric t ≡ false
    → (sort_key (t ∷ ts) ≡ token_key t ++ sort_key ts) × (no_number (t ∷ ts) ≡ true)
unfolding sort_key
sort_key_word (numeric n) ts e = ground arith
sort_key_word _ ts e = (refl, refl)
