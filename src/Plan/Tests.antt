-- ===== src/Plan/Tests.antt =====
-- Planning with a small repository, and witnesses.
use brewdock.Base.{
  List, Bool, Result, map, ◌<◌, ◌≡◌, ◌≢◌, ◌⊎◌, refl, sym, false, none, some, [], ◌∷◌, Text, ascii,
  text_eq, text_eq_iff, Assoc, lookup, insert, ok, err, arith, Bool-cases, inl, inr,
}
use brewdock.Base.Lists.{In}
use brewdock.Formula.{Formula, not_found, unsupported, path, incompatible_cellar, BottleFile}
use brewdock.Formula.Samples.{sample_formula, sample_tag, sample_file}
use brewdock.Formula.Select.{
  SelectedBottle, selected, select_bottle, first_bottle, bottle_candidates,
  apple_silicon_candidates, default_bottle_candidates, names_from,
}
use brewdock.Formula.Cellar.{is_compatible}
use brewdock.Formula.Support.{check_supportability, pours, missing_reason}
use brewdock.Layout.{production, cellar}
use brewdock.Paths.{components, path_eq, component_eq, join_text}
use brewdock.Source.{
  SourceBuildError, ok_or, build_source_plan, check_requirements, first_unsatisfied, check_archive,
  is_tar_gz, source_archive_filename, ends_with, has_extension,
}
use brewdock.Resolve.{resolve_install_order, visit_each, visit}
use brewdock.Upgrade.{pkg_version}
use brewdock.Plan.{
  BrewdockError, PlanEntry, from_bottle, plan_install, plan_each, resolve_install_list,
  filter_pending_formulae, check_cache_supportability, from_stop, FormulaCache, source_build,
  formula_failure, out_of_fuel, Sources, resolve_formula, map_err, need_source, is_source,
  insert_formula, push_missing, source_fallback, resolve_install_method, plan_dependencies,
  build_install_graph, fetch_from, fetch_with_deps, resolve_supported_install_order,
}
use brewdock.Plan.Method.{resolve_install_method-supported}
use brewdock.Plan.Ready.{AllReady, IsServed, plan_install-AllReady}
use brewdock.Plan.Fetch.{IsFetched, IsFaithful, IsClosed, fetch_with_deps-IsClosed}
use brewdock.Plan.Enough.{fetch_with_deps_halts}
use brewdock.Plan.Graph.{resolve_supported_install_order_found}

program : Unit {0}
unfolding lookup insert text_eq resolve_formula map_err need_source is_source insert_formula
    push_missing source_fallback resolve_install_method plan_dependencies build_install_graph
    fetch_from fetch_with_deps plan_install plan_each resolve_install_list filter_pending_formulae
    check_cache_supportability from_stop resolve_supported_install_order select_bottle first_bottle
    bottle_candidates apple_silicon_candidates default_bottle_candidates names_from is_compatible
    production cellar components path_eq component_eq join_text check_supportability pours
    missing_reason ok_or build_source_plan check_requirements first_unsatisfied check_archive
    is_tar_gz source_archive_filename ends_with has_extension pkg_version
program = tt

abbrev app : Text
app = ascii "app"

abbrev lib : Text
lib = ascii "lib"

abbrev the_app : Formula
the_app = sample_formula app (lib ∷ [])

abbrev the_lib : Formula
the_lib = sample_formula lib []

abbrev repository : Assoc Formula
repository = (app, the_app) ∷ (lib, the_lib) ∷ []

abbrev sources : Sources
sources = record {
  load_formula = λ _. ok none;
  formula = λ n. ok_or (lookup n repository) (not_found n);
}

resolve_formula-cases :
    (n : Text) (f : Formula)
    → resolve_formula sources n ≡ ok f
    → ((f ≡ the_app) × (n ≡ app)) ⊎ ((f ≡ the_lib) × (n ≡ lib))
unfolding resolve_formula map_err lookup ok_or
resolve_formula-cases n f e = elim (Bool-cases (text_eq app n)) [
  | inl p ↦ inl (ground (arith, e, p), sym ((text_eq_iff app n).0 p))
  | inr p ↦ elim (Bool-cases (text_eq lib n)) [
    | inl q ↦ inr (ground (arith, e, p, q), sym ((text_eq_iff lib n).0 q))
    | inr q ↦ ground (arith, e, p, q)
  ]
]

faithful : IsFaithful sources
faithful n f e = elim (resolve_formula-cases n f e) [
  | inl (p, q) ↦ rw (p, q)
  | inr (p, q) ↦ rw (p, q)
]

finite : (n : Text) (f : Formula) → resolve_formula sources n ≡ ok f → In n (app ∷ lib ∷ [])
finite n f e = elim (resolve_formula-cases n f e) [ inl (p, q) ↦ inl q | inr (p, q) ↦ inr (inl q) ]

abbrev cache : FormulaCache
cache = (app, the_app) ∷ (lib, the_lib) ∷ []

fetch-app : fetch_with_deps production sample_tag none sources 3 (app ∷ []) ≡ ok cache
unfolding program
fetch-app = refl

fetch_with_deps-IsClosed_example :
    IsClosed production sample_tag none [] cache
    × ((n : Text) → In n (app ∷ []) → IsFetched cache n)
fetch_with_deps-IsClosed_example =
    fetch_with_deps-IsClosed production sample_tag none sources faithful 3 (app ∷ []) fetch-app

enough : 2 < 3
enough = ground arith

fetch_with_deps_halts_example :
    fetch_with_deps production sample_tag none sources 3 (app ∷ []) ≢ err out_of_fuel
unfolding program
fetch_with_deps_halts_example =
    fetch_with_deps_halts production sample_tag none sources faithful (app ∷ lib ∷ []) finite 3
      (app ∷ []) enough

resolve_supported_install_order_found_example :
    resolve_supported_install_order production sample_tag none cache (app ∷ [])
    ≢ err (formula_failure (not_found lib))
resolve_supported_install_order_found_example =
    resolve_supported_install_order_found production sample_tag none sources 3 (app ∷ []) faithful
      fetch-app lib

-- A formula with a bottle for another cellar, and no source.
abbrev elsewhere : BottleFile
elsewhere = record sample_file { cellar = path (ascii "/usr/local/Cellar") }

abbrev misplaced : Formula
misplaced = record the_app {
  bottle = record {
    stable = some (record { rebuild = 0; root_url = []; files = (sample_tag, elsewhere) ∷ [] });
  };
  urls = record { stable = none };
}

misplaced_supported : check_supportability misplaced sample_tag ≡ ok tt
unfolding program
misplaced_supported = refl

misplaced_method :
    resolve_install_method production sample_tag none misplaced
    ≡ err (formula_failure (unsupported app (incompatible_cellar elsewhere.cellar)))
unfolding program
misplaced_method = refl

resolve_install_method-supported_example :
    ((b : SelectedBottle) × (select_bottle misplaced sample_tag ≡ some b)
      × (is_compatible b.cellar (cellar production) ≡ false)
      × (misplaced.urls.stable ≡ none)
      × (formula_failure (unsupported app (incompatible_cellar elsewhere.cellar))
          ≡ formula_failure (unsupported app (incompatible_cellar b.cellar))))
    ⊎ ((lack : SourceBuildError) × (build_source_plan production sample_tag none misplaced
          ≡ err lack)
        × (formula_failure (unsupported app (incompatible_cellar elsewhere.cellar))
            ≡ source_build lack)
        × ((b : SelectedBottle)
            → select_bottle misplaced sample_tag ≡ some b
            → is_compatible b.cellar (cellar production) ≡ false))
resolve_install_method-supported_example =
    resolve_install_method-supported production sample_tag none misplaced misplaced_supported
      misplaced_method

abbrev nothing_installed : Text → Result BrewdockError Bool
nothing_installed _ = ok false

abbrev bottle : SelectedBottle
bottle = selected sample_tag sample_file

abbrev plan : List PlanEntry
plan =
    record { name = lib; version = ascii "1.0.0"; method = from_bottle bottle }
    ∷ record { name = app; version = ascii "1.0.0"; method = from_bottle bottle }
    ∷ []

plan-app : plan_install production sample_tag none sources nothing_installed 3 (app ∷ []) ≡ ok plan
unfolding program resolve_install_order visit_each visit
plan-app = refl

plan_install-AllReady_example :
    AllReady production sample_tag none sources faithful nothing_installed [] plan
    × ((n : Text)
        → In n (app ∷ [])
        → IsServed nothing_installed (map (λ (entry : PlanEntry). entry.name) plan) n)
plan_install-AllReady_example =
    plan_install-AllReady production sample_tag none sources faithful nothing_installed 3 (app ∷ [])
      plan-app
