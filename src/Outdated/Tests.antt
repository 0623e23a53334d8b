-- ===== src/Outdated/Tests.antt =====
-- An installed formula with an older version, and witnesses.
use brewdock.Base.{
  ◌≡◌, ◌⊎◌, refl, true, false, Bool, none, List, [], ◌∷◌, ascii, Text, text_eq, lookup, Result, ok,
  err, lex_cmp, insert,
}
use brewdock.Base.Lists.{In}
use brewdock.Discover.{InstalledKeg}
use brewdock.Formula.{Formula, not_found}
use brewdock.Formula.Samples.{sample_formula, sample_tag, sample_file}
use brewdock.Formula.Select.{
  select_bottle, first_bottle, bottle_candidates, apple_silicon_candidates,
  default_bottle_candidates, names_from, SelectedBottle, selected,
}
use brewdock.Formula.Cellar.{is_compatible}
use brewdock.Formula.Support.{check_supportability, pours, missing_reason}
use brewdock.Layout.{production, cellar}
use brewdock.Plan.{
  BrewdockError, from_bottle, Sources, resolve_formula, map_err, resolve_install_method,
  plan_dependencies, is_source, push_missing, insert_formula, fetch_from, fetch_with_deps,
  build_install_graph, check_cache_supportability, resolve_supported_install_order,
  filter_pending_formulae,
}
use brewdock.Resolve.{resolve_install_order, visit, visit_each}
use brewdock.Upgrade.{pkg_version, is_outdated, is_older, is_before}
use brewdock.Version.Tokenize.{from_str, tokenize}
use brewdock.Version.Compare.{cmp, cmp_loop}
use brewdock.Outdated.{
  OutdatedEntry, UpgradeCandidate, UpgradePlanEntry, latest, build_outdated_entry, push_some,
  outdated_each, outdated, build_upgrade_candidate, only_viable, collect_each,
  collect_upgrade_candidates, plan_entry, plan_entries, plan_upgrade, resolve_upgrade_install_list,
}
use brewdock.Outdated.Agree.{reported, viable_kegs, plan_upgrade-outdated}
use brewdock.Outdated.Pending.{resolve_upgrade_install_list-candidate}

program : Unit {0}
unfolding text_eq lookup insert lex_cmp select_bottle first_bottle bottle_candidates
    apple_silicon_candidates default_bottle_candidates names_from is_compatible check_supportability
    pours missing_reason production cellar resolve_formula map_err resolve_install_method
    plan_dependencies is_source push_missing insert_formula fetch_from fetch_with_deps
    build_install_graph check_cache_supportability resolve_supported_install_order
    filter_pending_formulae resolve_install_order visit visit_each pkg_version is_outdated is_older
    is_before from_str tokenize cmp cmp_loop latest build_outdated_entry push_some outdated_each
    outdated build_upgrade_candidate only_viable collect_each collect_upgrade_candidates plan_entry
    plan_entries plan_upgrade resolve_upgrade_install_list viable_kegs
program = tt

abbrev app : Text
app = ascii "app"

abbrev the_app : Formula
the_app = sample_formula app []

abbrev sources : Sources
unfolding text_eq
sources = record {
  load_formula = λ _. ok none;
  formula = λ n. elim (text_eq n app) [ true ↦ ok the_app | false ↦ err (not_found n) ];
}

abbrev keg : InstalledKeg
keg = record { name = app; pkg_version = ascii "0.9"; installed_on_request = true }

abbrev old : InstalledKeg
old = record { name = ascii "old"; pkg_version = ascii "3"; installed_on_request = false }

abbrev all_viable : Formula → Bool
all_viable formula = true

abbrev entry : OutdatedEntry
entry = record { name = app; current_version = ascii "0.9"; latest_version = ascii "1.0.0" }

outdated-kegs : outdated sources (ok (keg ∷ old ∷ [])) ≡ ok (entry ∷ [])
unfolding program sources
outdated-kegs = refl

abbrev bottle : SelectedBottle
bottle = selected sample_tag sample_file

abbrev entries : List UpgradePlanEntry
entries =
    record {
      name = app;
      from_version = ascii "0.9";
      to_version = ascii "1.0.0";
      method = from_bottle bottle;
    }
    ∷ []

plan_upgrade-app :
    plan_upgrade production sample_tag none sources all_viable (ok (keg ∷ [])) ≡ ok entries
unfolding program sources
plan_upgrade-app = refl

plan_upgrade-outdated_example :
    outdated sources (ok (viable_kegs sources all_viable (keg ∷ []))) ≡ ok (reported entries)
plan_upgrade-outdated_example =
    plan_upgrade-outdated production sample_tag none sources all_viable (keg ∷ []) plan_upgrade-app

abbrev candidate : UpgradeCandidate
candidate = record {
  name = app;
  installed_on_request = true;
  formula = the_app;
  current_version = ascii "0.9";
  latest_version = ascii "1.0.0";
  method = from_bottle bottle;
}

-- All is installed.
abbrev found : Text → Result BrewdockError Bool
found name = ok true

resolve_upgrade_install_list-app :
    resolve_upgrade_install_list production sample_tag none sources found 2 candidate
    ≡ ok (app ∷ [], (app, the_app) ∷ [])
unfolding program sources
resolve_upgrade_install_list-app = refl

resolve_upgrade_install_list-candidate_example :
    In app (app ∷ []) × ((n : Text) → In n (app ∷ []) → (n ≡ app) ⊎ (found n ≡ ok false))
resolve_upgrade_install_list-candidate_example =
    resolve_upgrade_install_list-candidate production sample_tag none sources found 2 candidate
      resolve_upgrade_install_list-app
