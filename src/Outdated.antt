-- ===== src/Outdated.antt =====
-- What is outdated and what an upgrade would do (crates/core/src/orchestrate.rs, orchestrate/query.rs and
-- orchestrate/planning.rs): `outdated`, `plan_upgrade` and `resolve_upgrade_install_list`.
--
-- The metadata store and the API are `Sources` (Plan), fresh already; the events and the lock are left
-- out. Whether a formula's post-install program is one that can be run (`check_post_install_viability`
-- is `Ok`) is an argument.
pub mod Agree
pub mod Pending
mod Tests
use brewdock.Base.{
  ℕ, Bool, true, false, Option, none, some, List, [], ◌∷◌, Text, text_eq, if◌then◌else◌, Result, ok,
  err, ◌>>=◌,
}
use brewdock.Discover.{InstalledKeg, push_found}
use brewdock.Formula.{Formula}
use brewdock.Formula.Support.{check_supportability}
use brewdock.Layout.{Layout}
use brewdock.Plan.{
  BrewdockError, formula_failure, InstallMethod, Sources, FormulaCache, resolve_formula, map_err,
  resolve_install_method, fetch_with_deps, resolve_supported_install_order, filter_pending_formulae,
}
use brewdock.Platform.{HostTag}
use brewdock.Upgrade.{pkg_version, is_outdated}

pub record OutdatedEntry : Type 0 where
  pub name : Text
  pub current_version : Text
  pub latest_version : Text

pub record UpgradeCandidate : Type 0 where
  pub name : Text
  pub installed_on_request : Bool
  pub formula : Formula
  pub current_version : Text
  pub latest_version : Text
  pub method : InstallMethod

pub record UpgradePlanEntry : Type 0 where
  pub name : Text
  pub from_version : Text
  pub to_version : Text
  pub method : InstallMethod

-- The loop of `fetch_installed_kegs` over the names that are given.
unfoldable pub find_each :
    (Text → Result BrewdockError (Option InstalledKeg))
    → List Text
    → Result BrewdockError (List InstalledKeg)
unfolding push_found
find_each find_installed_keg [] = ok []
find_each find_installed_keg (name ∷ names) = do
  found ← find_installed_keg name
  kegs ← find_each find_installed_keg names
  ok (push_found found kegs)

-- `discovered` is what `discover_installed_kegs` gives.
unfoldable pub fetch_installed_kegs :
    (Text → Result BrewdockError (Option InstalledKeg))
    → Result BrewdockError (List InstalledKeg)
    → List Text
    → Result BrewdockError (List InstalledKeg)
unfolding find_each
fetch_installed_kegs find_installed_keg discovered [] = discovered
fetch_installed_kegs find_installed_keg discovered (name ∷ names) =
    find_each find_installed_keg (name ∷ names)

unfoldable pub latest : Formula → Text
unfolding pkg_version
latest formula = pkg_version formula.versions.stable formula.revision

unfoldable pub build_outdated_entry : InstalledKeg → Formula → Option OutdatedEntry
unfolding is_outdated latest
build_outdated_entry keg formula =
    if is_outdated keg.pkg_version (latest formula)
    then some (record {
      name = keg.name;
      current_version = keg.pkg_version;
      latest_version = latest formula;
    })
    else none

unfoldable pub push_some : {A : Type 0} → Option A → List A → List A
push_some none items = items
push_some (some item) items = item ∷ items

-- The loop of `outdated`, which passes over what it cannot resolve.
unfoldable pub outdated_each : Sources → List InstalledKeg → List OutdatedEntry
unfolding resolve_formula build_outdated_entry push_some
outdated_each sources [] = []
outdated_each sources (keg ∷ kegs) =
    let entries = outdated_each sources kegs in
    elim (resolve_formula sources keg.name) [
      | err e ↦ entries
      | ok formula ↦ push_some (build_outdated_entry keg formula) entries
    ]

unfoldable pub outdated :
    Sources → Result BrewdockError (List InstalledKeg) → Result BrewdockError (List OutdatedEntry)
unfolding outdated_each
outdated sources installed = do kegs ← installed; ok (outdated_each sources kegs)

module _ (layout : Layout) (host_tag : HostTag) (xcode : Option ℕ) where
  unfoldable pub build_upgrade_candidate :
      InstalledKeg → Formula → Result BrewdockError (Option UpgradeCandidate)
  unfolding is_outdated latest check_supportability map_err resolve_install_method
  build_upgrade_candidate keg formula = do
    _ ← map_err formula_failure (check_supportability formula host_tag)
    method ← resolve_install_method layout host_tag xcode formula
    ok (
        if is_outdated keg.pkg_version (latest formula)
        then some (record {
          name = keg.name;
          installed_on_request = keg.installed_on_request;
          formula = formula;
          current_version = keg.pkg_version;
          latest_version = latest formula;
          method = method;
        })
        else none)

  module _ (sources : Sources) (viable : Formula → Bool) where
    -- `check_post_install_viability` of a candidate, which is passed over if it fails.
    unfoldable pub only_viable : Option UpgradeCandidate → Option UpgradeCandidate
    only_viable none = none
    only_viable (some candidate) = if viable candidate.formula then some candidate else none

    unfoldable pub collect_each : List InstalledKeg → Result BrewdockError (List UpgradeCandidate)
    unfolding resolve_formula build_upgrade_candidate only_viable push_some
    collect_each [] = ok []
    collect_each (keg ∷ kegs) = do
      formula ← resolve_formula sources keg.name
      candidate ← build_upgrade_candidate keg formula
      candidates ← collect_each kegs
      ok (push_some (only_viable candidate) candidates)

    unfoldable pub collect_upgrade_candidates :
        Result BrewdockError (List InstalledKeg) → Result BrewdockError (List UpgradeCandidate)
    unfolding collect_each
    collect_upgrade_candidates installed = do kegs ← installed; collect_each kegs

    unfoldable pub plan_entry : UpgradeCandidate → UpgradePlanEntry
    plan_entry candidate = record {
      name = candidate.name;
      from_version = candidate.current_version;
      to_version = candidate.latest_version;
      method = candidate.method;
    }

    unfoldable pub plan_entries : List UpgradeCandidate → List UpgradePlanEntry
    unfolding plan_entry
    plan_entries [] = []
    plan_entries (candidate ∷ candidates) = plan_entry candidate ∷ plan_entries candidates

    unfoldable pub plan_upgrade :
        Result BrewdockError (List InstalledKeg) → Result BrewdockError (List UpgradePlanEntry)
    unfolding collect_upgrade_candidates plan_entries
    plan_upgrade installed = do
      candidates ← collect_upgrade_candidates installed
      ok (plan_entries candidates)

  unfoldable pub resolve_upgrade_install_list :
      Sources
      → (Text → Result BrewdockError Bool)
      → ℕ
      → UpgradeCandidate
      → Result BrewdockError (List Text × FormulaCache)
  unfolding fetch_with_deps resolve_supported_install_order filter_pending_formulae text_eq
  resolve_upgrade_install_list sources find_installed_keg fuel candidate = do
    cache ← fetch_with_deps layout host_tag xcode sources fuel (candidate.name ∷ [])
    order ← resolve_supported_install_order layout host_tag xcode cache (candidate.name ∷ [])
    pending ←
        filter_pending_formulae layout host_tag xcode find_installed_keg
          (λ name. text_eq name candidate.name) order
    ok (pending, cache)
