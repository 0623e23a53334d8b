-- ===== src/Formula/Support.antt =====
-- crates/formula/src/supportability.rs: whether a formula can be installed on a host.
use brewdock.Base.{
  Bool, true, false, not, ◌&&◌, ◌||◌, Option, none, some, Text, ascii, text_eq, Result, ok, err,
  if◌then◌else◌,
}
use brewdock.Formula.{
  Formula, FormulaError, unsupported, UnsupportedReason, disabled, pour_bottle_restricted,
  no_bottle, no_bottle_for_tag,
}
use brewdock.Formula.Select.{select_bottle}

abbrev pub is_some {ℓ} : {A : Type ℓ} → Option A → Bool
is_some none = false
is_some (some _) = true

-- The conditions that are taken as satisfied.
unfoldable pub pours : Option Text → Bool
unfolding text_eq
pours none = true
pours (some condition) =
    text_eq condition (ascii "clt_installed") || text_eq condition (ascii "default_prefix")

unfoldable pub missing_reason : Bool → Text → UnsupportedReason
missing_reason true host_tag = no_bottle_for_tag host_tag
missing_reason false host_tag = no_bottle

unfoldable pub check_supportability : Formula → Text → Result FormulaError Unit
unfolding pours select_bottle missing_reason
check_supportability formula host_tag =
    if formula.disabled
    then err (unsupported formula.name disabled)
    else if not (pours formula.pour_bottle_only_if)
    then err (unsupported formula.name pour_bottle_restricted)
    else if formula.versions.bottle && is_some (select_bottle formula host_tag)
    then ok tt
    else if not (is_some formula.urls.stable)
    then err (unsupported formula.name (missing_reason formula.versions.bottle host_tag))
    else ok tt
