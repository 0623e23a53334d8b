-- ===== src/Upgrade/Tests.antt =====
-- Revisions and versions that are compared, and witnesses.
use brewdock.Base.{◌≡◌, refl, true, [], ◌∷◌, Text, ascii, ok, arith, text_eq, lex_cmp}
use brewdock.Version.Token.{numeric}
use brewdock.Version.Tokenize.{tokenize, from_str}
use brewdock.Version.Compare.{cmp, cmp_loop}
use brewdock.Upgrade.{pkg_version, is_before, is_older, is_outdated}
use brewdock.Upgrade.Revision.{is_outdated-pkg_version}

program : Unit {0}
unfolding is_outdated pkg_version is_before is_older tokenize from_str cmp cmp_loop text_eq lex_cmp
program = tt

abbrev one_seven : Text
one_seven = ascii "1.7"

pkg_version-revision : pkg_version one_seven 10 ≡ ascii "1.7_10"
unfolding program
pkg_version-revision = refl

is_outdated-unparsed : is_outdated (ascii "-") (ascii "1.7") ≡ true
unfolding program
is_outdated-unparsed = refl

from_str-one_seven :
    from_str one_seven ≡ ok (record { tokens = numeric 1 ∷ numeric 7 ∷ []; raw = one_seven })
unfolding program
from_str-one_seven = refl

is_outdated-pkg_version_example :
    is_outdated (pkg_version one_seven 2) (pkg_version one_seven 10) ≡ true
is_outdated-pkg_version_example =
    is_outdated-pkg_version one_seven 2 10 from_str-one_seven (ground arith) (ground arith)
