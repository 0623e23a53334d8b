-- ===== src/Version/Compare.antt =====
-- The order of versions (version.rs: `cmp_tokens`, `cmp_token_vs_null`, `Ord`, `PartialEq`).
-- The loop's cursors `li` and `ri` are the lists of the tokens that are still to be read.
use brewdock.Base.{
  ℕ, zero, suc, compare, Ordering, Bool, true, false, List, [], ◌∷◌, if◌then◌else◌, ◌==◌, lex_cmp,
  text_eq, reverse,
}
use brewdock.Version.Token.{
  Token, alpha, beta, pre, rc, numeric, patch, post, text, PkgVersion, stage_rank, token_rev,
}

-- Two tokens of one rank: two texts, or two revisions.
cmp_same_rank : Token → Token → Ordering
unfolding token_rev lex_cmp
cmp_same_rank (text tl) (text tr) = lex_cmp tl tr
cmp_same_rank left right = compare (token_rev left) (token_rev right)

unfoldable pub cmp_tokens : Token → Token → Ordering
unfolding stage_rank cmp_same_rank
cmp_tokens left right =
    if stage_rank left == stage_rank right
    then cmp_same_rank left right
    else compare (stage_rank left) (stage_rank right)

abbrev pub null_rank : ℕ
null_rank = 4

unfoldable pub cmp_token_vs_null : Token → Ordering
unfolding stage_rank
cmp_token_vs_null (numeric zero) = Ordering.eq
cmp_token_vs_null (numeric (suc _)) = Ordering.gt
cmp_token_vs_null (patch _) = Ordering.gt
cmp_token_vs_null (post _) = Ordering.gt
cmp_token_vs_null (alpha _) = Ordering.lt
cmp_token_vs_null (beta _) = Ordering.lt
cmp_token_vs_null (pre _) = Ordering.lt
cmp_token_vs_null (rc _) = Ordering.lt
cmp_token_vs_null (text w) = compare (stage_rank (text w)) null_rank

abbrev pub is_numeric : Token → Bool
is_numeric (numeric _) = true
is_numeric _ = false

-- The `while` loop of `cmp`.
unfoldable pub cmp_loop : List Token → List Token → Ordering
unfolding cmp_tokens cmp_token_vs_null reverse
cmp_loop [] [] = Ordering.eq
cmp_loop (lt ∷ ls) [] = elim (cmp_token_vs_null lt) [ Ordering.eq ↦ cmp_loop ls [] | ord ↦ ord ]
cmp_loop [] (rt ∷ rs) = elim (cmp_token_vs_null rt) [
  | Ordering.eq ↦ cmp_loop [] rs
  | ord ↦ reverse ord
]
cmp_loop (lt ∷ ls) (rt ∷ rs) = elim (is_numeric lt) [
  | true ↦ elim (is_numeric rt) [
    | true ↦ elim (cmp_tokens lt rt) [ Ordering.eq ↦ cmp_loop ls rs | ord ↦ ord ]
    | false ↦ elim (cmp_token_vs_null lt) [ Ordering.gt ↦ Ordering.gt | _ ↦ cmp_loop ls (rt ∷ rs) ]
  ]
  | false ↦ elim (is_numeric rt) [
    | true ↦ elim (cmp_token_vs_null rt) [ Ordering.gt ↦ Ordering.lt | _ ↦ cmp_loop (lt ∷ ls) rs ]
    | false ↦ elim (cmp_tokens lt rt) [ Ordering.eq ↦ cmp_loop ls rs | ord ↦ ord ]
  ]
]

-- `Ord::cmp`
unfoldable pub cmp : PkgVersion → PkgVersion → Ordering
cmp self other =
    if text_eq self.raw other.raw then Ordering.eq else cmp_loop self.tokens other.tokens

-- `PartialEq::eq`
unfoldable pub eq : PkgVersion → PkgVersion → Bool
eq self other = elim (cmp self other) [ Ordering.eq ↦ true | _ ↦ false ]
