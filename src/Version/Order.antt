-- ===== src/Version/Order.antt =====
-- `Ord` and `Eq` of parsed versions (version.rs) meet the contract of those traits.
use brewdock.Base.{
  Ordering, ◌≡◌, ◌≢◌, ◌↔◌, sym, true, Text, text_eq, text_eq_iff, lex_cmp, lex_cmp_refl,
  lex_cmp_swap, lex_cmp_trans, eq_of_lex_cmp, reverse, ok, arith, Bool-cases, inl, inr,
}
use brewdock.Version.Token.{PkgVersion}
use brewdock.Version.Tokenize.{tokenize, from_str}
use brewdock.Version.Compare.{cmp, eq}
use brewdock.Version.SortKey.{sort_key}
use brewdock.Version.SortKey.Loop.{cmp_loop-eq-lex_cmp}

-- What parsing sets: the tokens are those of the text that is kept.
pub from_str-tokens :
    (s : Text) {v : PkgVersion} → from_str s ≡ ok v → (v.raw ≡ s) × (v.tokens ≡ tokenize s)
unfolding from_str
from_str-tokens s h = ground arith

-- On parsed versions, the order is that of the sort keys.
pub cmp-eq-lex_cmp :
    (s t : Text) {v w : PkgVersion}
    → from_str s ≡ ok v
    → from_str t ≡ ok w
    → cmp v w ≡ lex_cmp (sort_key v.tokens) (sort_key w.tokens)
unfolding cmp
cmp-eq-lex_cmp s t {v} {w} p q =
    let (a, b) = from_str-tokens s p in
    let (c, d) = from_str-tokens t q in
    elim (Bool-cases (text_eq v.raw w.raw)) [
      | inl e ↦
          let same : v.raw ≡ w.raw = (text_eq_iff v.raw w.raw).0 e in
          let tokens : v.tokens ≡ w.tokens = cc in
          rw (e, tokens) (sym (lex_cmp_refl (sort_key w.tokens)))
      | inr e ↦ rw e (cmp_loop-eq-lex_cmp v.tokens w.tokens)
    ]

cmp_swap :
    (s t : Text) {v w : PkgVersion}
    → from_str s ≡ ok v
    → from_str t ≡ ok w
    → cmp w v ≡ reverse (cmp v w)
cmp_swap s t {v} {w} p q =
    rw (cmp-eq-lex_cmp s t p q, cmp-eq-lex_cmp t s q p)
      (lex_cmp_swap (sort_key v.tokens) (sort_key w.tokens))

cmp_trans :
    (s t r : Text) {v w x : PkgVersion}
    → from_str s ≡ ok v
    → from_str t ≡ ok w
    → from_str r ≡ ok x
    → cmp v w ≢ Ordering.gt
    → cmp w x ≢ Ordering.gt
    → cmp v x ≢ Ordering.gt
cmp_trans s t r {v} {w} {x} p q o h k = rw (cmp-eq-lex_cmp s r p o) (
    lex_cmp_trans (sort_key v.tokens) (sort_key w.tokens) (sort_key x.tokens)
      (rw (cmp-eq-lex_cmp s t p q) at h) (rw (cmp-eq-lex_cmp t r q o) at k))

eq_iff_same_key :
    (s t : Text) {v w : PkgVersion}
    → from_str s ≡ ok v
    → from_str t ≡ ok w
    → (eq v w ≡ true) ↔ (sort_key v.tokens ≡ sort_key w.tokens)
unfolding eq
eq_iff_same_key s t {v} {w} p q =
    rw (cmp-eq-lex_cmp s t p q, eq)
      (
        λ e. eq_of_lex_cmp _ _ (ground arith),
        λ e. rw e (ground (arith, lex_cmp_refl (sort_key w.tokens))),
      )

-- The order of parsed versions is total: comparing two of them the other way round gives the reverse
-- result; and of three, if the first is at most the second and the second at most the third, then the
-- first is at most the third. Two of them are equal exactly when their sort keys are the same.
pub cmp_total :
    (s t r : Text) {v w x : PkgVersion}
    → from_str s ≡ ok v
    → from_str t ≡ ok w
    → from_str r ≡ ok x
    → (cmp w v ≡ reverse (cmp v w))
      × (cmp v w ≢ Ordering.gt → cmp w x ≢ Ordering.gt → cmp v x ≢ Ordering.gt)
      × ((eq v w ≡ true) ↔ (sort_key v.tokens ≡ sort_key w.tokens))
cmp_total s t r p q o = (cmp_swap s t p q, cmp_trans s t r p q o, eq_iff_same_key s t p q)
