-- ===== src/Upgrade/Revision.antt =====
-- Upgrades from one revision of a version to another (crates/core/src/orchestrate.rs), by the tokens
-- that crates/formula/src/version.rs reads from a version with a revision.
use brewdock.Base.{
  ℕ, zero, suc, ◌<◌, ◌^◌, compare, Ordering, ◌≡◌, ◌⊎◌, refl, sym, ap, ◌∙◌, Bool, true, false, List,
  [], ◌∷◌, ◌++◌, Text, text_eq, text_eq_iff, ok, ltb, arith, lex_cmp_refl, Bool-cases, inl, inr,
}
use brewdock.Base.Decimal.{decimal}
use mathlib.Core.List.{append-nil}
use brewdock.Version.Token.{Token, numeric, text, alpha, beta, pre, rc, patch, post, PkgVersion}
use brewdock.Version.Tokenize.{tokenize, from_str}
use brewdock.Version.Underscore.{tokenize-underscore, tokenize-decimal}
use brewdock.Version.Compare.{cmp_tokens, cmp_loop, cmp}
use brewdock.Version.Order.{from_str-tokens}
use brewdock.Upgrade.{pkg_version, is_before, is_older, is_outdated}

compare_refl : (n : ℕ) → compare n n ≡ Ordering.eq
compare_refl n = ground arith

cmp_tokens_refl : (t : Token) → cmp_tokens t t ≡ Ordering.eq
unfolding cmp_tokens
cmp_tokens_refl (text s) = lex_cmp_refl s
cmp_tokens_refl (numeric n) = compare_refl n
cmp_tokens_refl (alpha n) = compare_refl n
cmp_tokens_refl (beta n) = compare_refl n
cmp_tokens_refl (pre n) = compare_refl n
cmp_tokens_refl (rc n) = compare_refl n
cmp_tokens_refl (patch n) = compare_refl n
cmp_tokens_refl (post n) = compare_refl n

cmp_loop-cons : (t : Token) (ls rs : List Token) → cmp_loop (t ∷ ls) (t ∷ rs) ≡ cmp_loop ls rs
unfolding cmp_loop
cmp_loop-cons (numeric n) ls rs = rw (cmp_tokens_refl (numeric n), cmp_loop)
cmp_loop-cons (text n) ls rs = rw (cmp_tokens_refl (text n), cmp_loop)
cmp_loop-cons (alpha n) ls rs = rw (cmp_tokens_refl (alpha n), cmp_loop)
cmp_loop-cons (beta n) ls rs = rw (cmp_tokens_refl (beta n), cmp_loop)
cmp_loop-cons (pre n) ls rs = rw (cmp_tokens_refl (pre n), cmp_loop)
cmp_loop-cons (rc n) ls rs = rw (cmp_tokens_refl (rc n), cmp_loop)
cmp_loop-cons (patch n) ls rs = rw (cmp_tokens_refl (patch n), cmp_loop)
cmp_loop-cons (post n) ls rs = rw (cmp_tokens_refl (post n), cmp_loop)

-- Tokens that both versions begin with do not count.
cmp_loop-append : (ts ls rs : List Token) → cmp_loop (ts ++ ls) (ts ++ rs) ≡ cmp_loop ls rs
cmp_loop-append [] ls rs = refl
cmp_loop-append (t ∷ ts) ls rs = cmp_loop-cons t (ts ++ ls) (ts ++ rs) ∙ cmp_loop-append ts ls rs

cmp_loop_refl : (ts : List Token) → cmp_loop ts ts ≡ Ordering.eq
unfolding cmp_loop
cmp_loop_refl [] = refl
cmp_loop_refl (t ∷ ts) = cmp_loop-cons t ts ts ∙ cmp_loop_refl ts

-- The token of a revision.
abbrev pub revision_tokens : ℕ → List Token
revision_tokens zero = []
revision_tokens (suc revision) = numeric (suc revision) ∷ []

tokenize-pkg_version :
    (version : Text) (revision : ℕ)
    → revision < 2 ^ 32
    → tokenize (pkg_version version revision) ≡ tokenize version ++ revision_tokens revision
unfolding pkg_version
tokenize-pkg_version version zero h = sym (append-nil (tokenize version))
tokenize-pkg_version version (suc revision) h =
    tokenize-underscore version (decimal (suc revision))
    ∙ ap (λ ts. tokenize version ++ ts) (tokenize-decimal (suc revision) (omega arith))

from_str_ok :
    (s : Text) (tok : Token) (toks : List Token)
    → tokenize s ≡ tok ∷ toks
    → from_str s ≡ ok (record { tokens = tok ∷ toks; raw = s })
unfolding from_str
from_str_ok s tok toks h = rw (h, from_str)

-- The texts that `cmp` compares first make no difference.
cmp-eq-cmp_loop :
    (s t : Text) (v w : PkgVersion)
    → from_str s ≡ ok v
    → from_str t ≡ ok w
    → cmp v w ≡ cmp_loop v.tokens w.tokens
unfolding cmp
cmp-eq-cmp_loop s t v w p q =
    let (a, b) = from_str-tokens s p in
    let (c, d) = from_str-tokens t q in
    elim (Bool-cases (text_eq v.raw w.raw)) [
      | inl e ↦
          let same : v.raw ≡ w.raw = (text_eq_iff v.raw w.raw).0 e in
          let tokens : v.tokens ≡ w.tokens = cc in rw (e, tokens) (sym (cmp_loop_refl w.tokens))
      | inr e ↦ rw e
    ]

-- A text whose tokens are some tokens and others behind them parses.
from_str-append :
    (s : Text) (tok : Token) (toks more : List Token)
    → tokenize s ≡ (tok ∷ toks) ++ more
    → (v : PkgVersion) × (from_str s ≡ ok v) × (v.tokens ≡ (tok ∷ toks) ++ more)
from_str-append s tok toks more h =
    (record { tokens = tok ∷ toks ++ more; raw = s }, from_str_ok s tok (toks ++ more) h, refl)

cmp_loop_revisions :
    (r r' : ℕ)
    → elim (cmp_loop (revision_tokens r) (revision_tokens r')) [ Ordering.lt ↦ true | _ ↦ false ]
      ≡ ltb r r'
unfolding cmp_loop cmp_tokens
cmp_loop_revisions zero zero = refl
cmp_loop_revisions zero (suc r') = ground arith
cmp_loop_revisions (suc r) zero = ground arith
cmp_loop_revisions (suc r) (suc r') = ground arith

Tokens-cases :
    (ts : List Token) → (ts ≡ []) ⊎ ((tok : Token) × (toks : List Token) × (ts ≡ tok ∷ toks))
Tokens-cases [] = inl refl
Tokens-cases (tok ∷ toks) = inr (tok, toks, refl)

tokenize-cons :
    (s : Text) {v : PkgVersion}
    → from_str s ≡ ok v
    → (tok : Token) × (toks : List Token) × (tokenize s ≡ tok ∷ toks)
unfolding from_str
tokenize-cons s p = elim (Tokens-cases (tokenize s)) [ inl e ↦ ground arith | inr found ↦ found ]

from_str-pkg_version :
    (version : Text) (tok : Token) (toks : List Token) (revision : ℕ)
    → tokenize version ≡ tok ∷ toks
    → revision < 2 ^ 32
    → (v : PkgVersion) × (from_str (pkg_version version revision) ≡ ok v)
      × (v.tokens ≡ (tok ∷ toks) ++ revision_tokens revision)
from_str-pkg_version version tok toks revision e h =
    from_str-append (pkg_version version revision) tok toks (revision_tokens revision)
      (tokenize-pkg_version version revision h ∙ ap (λ ts. ts ++ revision_tokens revision) e)

abbrev is_lt : Ordering → Bool
is_lt o = elim o [ Ordering.lt ↦ true | _ ↦ false ]

is_outdated-cmp_loop :
    (s t : Text) (v w : PkgVersion)
    → from_str s ≡ ok v
    → from_str t ≡ ok w
    → is_outdated s t ≡ is_lt (cmp_loop v.tokens w.tokens)
unfolding is_outdated is_older is_before
is_outdated-cmp_loop s t v w p q =
    ap (λ a. is_older s t a (from_str t)) p
    ∙ ap (is_older s t (ok v)) q
    ∙ ap is_lt (cmp-eq-cmp_loop s t v w p q)

-- Of two revisions of one version that parses, the installed one is outdated exactly when its number
-- is the smaller. Revisions have 32 bits.
pub is_outdated-pkg_version :
    (version : Text) {v : PkgVersion} (installed latest : ℕ)
    → from_str version ≡ ok v
    → installed < 2 ^ 32
    → latest < 2 ^ 32
    → is_outdated (pkg_version version installed) (pkg_version version latest)
      ≡ ltb installed latest
is_outdated-pkg_version version installed latest p h k =
    let (tok, toks, e) = tokenize-cons version p in
    let (a, p', l) = from_str-pkg_version version tok toks installed e h in
    let (b, q', r) = from_str-pkg_version version tok toks latest e k in
    is_outdated-cmp_loop (pkg_version version installed) (pkg_version version latest) a b p' q'
    ∙ ap (λ ts. is_lt (cmp_loop ts b.tokens)) l
    ∙ ap (λ ts. is_lt (cmp_loop ((tok ∷ toks) ++ revision_tokens installed) ts)) r
    ∙ ap is_lt (cmp_loop-append (tok ∷ toks) (revision_tokens installed) (revision_tokens latest))
    ∙ cmp_loop_revisions installed latest
