-- ===== src/Upgrade.antt =====
-- The versions of an upgrade (crates/core/src/orchestrate.rs: `pkg_version`, `is_outdated`).
pub mod Revision
mod Tests
use brewdock.Base.{
  ℕ, zero, suc, Ordering, Bool, true, false, not, ◌∷◌, ◌++◌, Text, text_eq, Result, ok, err,
}
use brewdock.Base.Decimal.{decimal}
use brewdock.Version.Token.{PkgVersion, ParseVersionError}
use brewdock.Version.Tokenize.{from_str}
use brewdock.Version.Compare.{cmp}

unfoldable pub pkg_version : Text → ℕ → Text
unfolding decimal
pkg_version version zero = version
pkg_version version (suc revision) = version ++ b'_' ∷ decimal (suc revision)

unfoldable pub is_before : PkgVersion → PkgVersion → Bool
unfolding cmp
is_before inst lat = elim (cmp inst lat) [ Ordering.lt ↦ true | _ ↦ false ]

-- The tests of the two parsed texts, if both parse; otherwise whether the texts differ.
unfoldable pub is_older :
    Text → Text → Result ParseVersionError PkgVersion → Result ParseVersionError PkgVersion → Bool
unfolding is_before text_eq
is_older installed latest (ok inst) (ok lat) = is_before inst lat
is_older installed latest _ _ = not (text_eq installed latest)

unfoldable pub is_outdated : Text → Text → Bool
unfolding is_older from_str
is_outdated installed latest = is_older installed latest (from_str installed) (from_str latest)
