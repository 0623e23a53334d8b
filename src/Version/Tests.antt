-- ===== src/Version/Tests.antt =====
-- The order on inputs of the source's tests, and witnesses.
use brewdock.Base.{
  Ordering, ◌≡◌, ◌≢◌, ◌↔◌, refl, true, ascii, [], ◌∷◌, lex_cmp, text_eq, reverse, ok, none, ◌++◌,
}
use brewdock.Version.Token.{PkgVersion, numeric, alpha, rc, patch, post, text}
use brewdock.Version.Compare.{cmp, eq, cmp_loop}
use brewdock.Version.Tokenize.{tokenize, from_str}
use brewdock.Version.Scan.{u64_max, digits_to_u64}
use Prim.Native.Nat.{min}
use brewdock.Version.Digits.{value, digits_to_u64-eq-min}
use brewdock.Version.Progress.{Runs, tokenize_halts}
use brewdock.Version.Underscore.{tokenize-underscore}
use brewdock.Version.SortKey.{sort_key}
use brewdock.Version.Order.{cmp-eq-lex_cmp, cmp_total}

program : Unit {0}
unfolding tokenize from_str cmp cmp_loop eq text_eq
program = tt

tokens :
    tokenize (ascii "1.0Alpha1.post2-p_foo")
    ≡ numeric 1 ∷ numeric 0 ∷ alpha 1 ∷ post 2 ∷ patch 0 ∷ text (ascii "foo") ∷ []
unfolding program
tokens = refl

abbrev candidate : PkgVersion
candidate = record { tokens = numeric 1 ∷ numeric 0 ∷ rc 1 ∷ []; raw = ascii "1.0rc1" }

abbrev release : PkgVersion
release = record { tokens = numeric 1 ∷ numeric 0 ∷ []; raw = ascii "1.0" }

abbrev padded : PkgVersion
padded = record { tokens = numeric 1 ∷ numeric 0 ∷ numeric 0 ∷ []; raw = ascii "1.0.0" }

from_str-candidate : from_str (ascii "1.0rc1") ≡ ok candidate
unfolding program
from_str-candidate = refl

from_str-release : from_str (ascii "1.0") ≡ ok release
unfolding program
from_str-release = refl

from_str-padded : from_str (ascii "1.0.0") ≡ ok padded
unfolding program
from_str-padded = refl

prerelease : cmp candidate release ≡ Ordering.lt
unfolding program
prerelease = refl

trailing_zero : cmp release padded ≡ Ordering.eq
unfolding program
trailing_zero = refl

cmp-eq-lex_cmp_example :
    cmp candidate release ≡ lex_cmp (sort_key candidate.tokens) (sort_key release.tokens)
cmp-eq-lex_cmp_example =
    cmp-eq-lex_cmp (ascii "1.0rc1") (ascii "1.0") from_str-candidate from_str-release

cmp_total_example :
    (cmp release candidate ≡ reverse (cmp candidate release))
    × (cmp candidate release ≢ Ordering.gt
        → cmp release padded ≢ Ordering.gt
        → cmp candidate padded ≢ Ordering.gt)
    × ((eq candidate release ≡ true) ↔ (sort_key candidate.tokens ≡ sort_key release.tokens))
cmp_total_example =
    cmp_total (ascii "1.0rc1") (ascii "1.0") (ascii "1.0.0") from_str-candidate from_str-release
      from_str-padded

-- A number of more than 64 bits.
digits_to_u64-eq-min_example :
    digits_to_u64 (ascii "99999999999999999999")
    ≡ min (value (ascii "99999999999999999999")) u64_max
digits_to_u64-eq-min_example = digits_to_u64-eq-min (ascii "99999999999999999999")

tokenize_halts_example :
    Runs none (ascii "1.0rc1") candidate.tokens ↔ (candidate.tokens ≡ tokenize (ascii "1.0rc1"))
tokenize_halts_example = tokenize_halts (ascii "1.0rc1") candidate.tokens

tokenize-underscore_example :
    tokenize (ascii "1.0rc_2p") ≡ tokenize (ascii "1.0rc") ++ tokenize (ascii "2p")
tokenize-underscore_example = tokenize-underscore (ascii "1.0rc") (ascii "2p")
