-- ===== src/Plan.antt =====
-- Planning an installation (crates/core/src/orchestrate.rs and orchestrate/planning.rs): how each formula
-- is installed, the formulae to fetch, and the order. The progress events, the log and the lock
-- file are not modelled.
pub mod Method
pub mod Fetch
pub mod Enough
pub mod Graph
pub mod Supported
pub mod Ready
mod Tests
use brewdock.Base.{
  ℕ, zero, suc, Bool, true, false, not, ◌||◌, Option, none, some, List, [], ◌∷◌, ◌++◌, Text, Assoc,
  lookup, insert, if◌then◌else◌, Result, ok, err, ◌>>=◌,
}
use brewdock.Formula.{
  Formula, FormulaError, unsupported, not_found, incompatible_cellar, no_bottle_for_tag,
  UnsupportedReason,
}
use brewdock.Formula.Cellar.{is_compatible}
use brewdock.Formula.Select.{SelectedBottle, select_bottle}
use brewdock.Formula.Support.{is_some, check_supportability}
use brewdock.Layout.{Layout, cellar}
use brewdock.Platform.{HostTag, PlatformError}
use brewdock.Resolve.{Stop, resolve_install_order}
use brewdock.Source.{SourceBuildError, SourceBuildPlan, build_source_plan}
use brewdock.Upgrade.{pkg_version}

-- The errors of other crates, and of std::io, are represented by their messages.
pub data BrewdockError : Type 0 where
  platform : PlatformError → BrewdockError
  io bottle cellar_failure : (message : Text) → BrewdockError
  formula_failure : FormulaError → BrewdockError
  source_build : SourceBuildError → BrewdockError
  -- The fuel of a loop is used up, which is no outcome of the program.
  out_of_fuel : BrewdockError

pub data InstallMethod : Type 0 where
  from_bottle : SelectedBottle → InstallMethod
  from_source : SourceBuildPlan → InstallMethod

pub record PlanEntry : Type 0 where
  pub name : Text
  pub version : Text
  pub method : InstallMethod

-- `#[from]`, as `?` applies it.
unfoldable pub map_err : {E F A : Type 0} → (E → F) → Result E A → Result F A
map_err f (ok a) = ok a
map_err f (err e) = err (f e)

-- `if urls.stable.is_none() { return Err(...) }`
unfoldable pub need_source : Formula → UnsupportedReason → Result BrewdockError Unit
need_source formula reason =
    if is_some formula.urls.stable
    then ok tt
    else err (formula_failure (unsupported formula.name reason))

unfoldable pub is_source : InstallMethod → Bool
is_source (from_bottle _) = false
is_source (from_source _) = true

-- A `FormulaCache` (crates/formula/src/api/cache.rs) is its map.
abbrev pub FormulaCache : Type 0
FormulaCache = Assoc Formula

unfoldable pub insert_formula : Formula → FormulaCache → FormulaCache
insert_formula formula cache = insert formula.name formula cache

-- `if cache.get(&dep).is_none() { queue.push_back(dep) }` for each dependency.
unfoldable pub push_missing : FormulaCache → List Text → List Text → List Text
push_missing cache queue [] = queue
push_missing cache queue (dep ∷ deps) =
    if is_some (lookup dep cache)
    then push_missing cache queue deps
    else push_missing cache (queue ++ dep ∷ []) deps

-- The formulae that the metadata store holds, and those that the API has, each with the errors of
-- asking for one.
pub record Sources : Type 0 where
  pub load_formula : Text → Result Text (Option Formula)
  pub formula : Text → Result FormulaError Formula

unfoldable pub resolve_formula : Sources → Text → Result BrewdockError Formula
resolve_formula sources name = elim (sources.load_formula name) [
  | ok (some found) ↦ ok found
  | _ ↦ map_err formula_failure (sources.formula name)
]

module _ (layout : Layout) (host_tag : HostTag) (xcode : Option ℕ) where
  -- What is done when no bottle can be used, for the reason given.
  unfoldable pub source_fallback : Formula → UnsupportedReason → Result BrewdockError InstallMethod
  source_fallback formula reason = do
    _ ← need_source formula reason
    plan ← map_err source_build (build_source_plan layout host_tag xcode formula)
    ok (from_source plan)

  unfoldable pub resolve_install_method : Formula → Result BrewdockError InstallMethod
  resolve_install_method formula = elim (select_bottle formula host_tag) [
    | none ↦ source_fallback formula (no_bottle_for_tag host_tag)
    | some b ↦
        if is_compatible b.cellar (cellar layout)
        then ok (from_bottle b)
        else source_fallback formula (incompatible_cellar b.cellar)
  ]

  unfoldable pub plan_dependencies : Formula → Result BrewdockError (List Text)
  plan_dependencies formula = do
    method ← resolve_install_method formula
    ok (
        if is_source method
        then formula.dependencies ++ formula.build_dependencies
        else formula.dependencies)

  -- The body of the closure, and `collect`, which stops at the first error.
  unfoldable pub build_install_graph : FormulaCache → Result BrewdockError (Assoc Formula)
  build_install_graph [] = ok []
  build_install_graph ((name, formula) ∷ cache) = do
    dependencies ← plan_dependencies formula
    graph ← build_install_graph cache
    ok ((name, record formula { dependencies = dependencies }) ∷ graph)

  module _ (sources : Sources) where
    -- The `while let` loop, on fuel (Plan/Enough).
    unfoldable pub fetch_from : ℕ → List Text → FormulaCache → Result BrewdockError FormulaCache
    fetch_from zero queue cache = err out_of_fuel
    fetch_from (suc fuel) [] cache = ok cache
    fetch_from (suc fuel) (name ∷ queue) cache = elim (lookup name cache) [
      | some _ ↦ fetch_from fuel queue cache
      | none ↦ do
        formula ← resolve_formula sources name
        deps ← plan_dependencies formula
        fetch_from fuel (push_missing cache queue deps) (insert_formula formula cache)
    ]

    unfoldable pub fetch_with_deps : ℕ → List Text → Result BrewdockError FormulaCache
    fetch_with_deps fuel names = fetch_from fuel names []

  unfoldable pub check_cache_supportability : FormulaCache → Result BrewdockError Unit
  check_cache_supportability [] = ok tt
  check_cache_supportability ((_, formula) ∷ cache) = do
    _ ← map_err formula_failure (check_supportability formula host_tag)
    check_cache_supportability cache

  unfoldable pub from_stop : Stop → BrewdockError
  from_stop Stop.out_of_fuel = out_of_fuel
  from_stop (Stop.error e) = formula_failure e

  unfoldable pub resolve_supported_install_order :
      FormulaCache → List Text → Result BrewdockError (List Text)
  resolve_supported_install_order cache names = do
    _ ← check_cache_supportability cache
    graph ← build_install_graph cache
    map_err from_stop (resolve_install_order graph names)

  -- `find_installed_keg(...)`, for a name; the others of `filter_pending_formulae`.
  module _ (find_installed_keg : Text → Result BrewdockError Bool) (always_keep : Text → Bool) where
    unfoldable pub filter_pending_formulae : List Text → Result BrewdockError (List Text)
    filter_pending_formulae [] = ok []
    filter_pending_formulae (name ∷ order) = do
      installed ← (if always_keep name then ok false else find_installed_keg name)
      pending ← filter_pending_formulae order
      ok (if not installed then name ∷ pending else pending)

  module _ (sources : Sources) (find_installed_keg : Text → Result BrewdockError Bool)
      (fuel : ℕ) where
    unfoldable pub resolve_install_list :
        List Text → Result BrewdockError (List Text × FormulaCache)
    resolve_install_list names = do
      cache ← fetch_with_deps sources fuel names
      order ← resolve_supported_install_order cache names
      pending ← filter_pending_formulae find_installed_keg (λ _. false) order
      ok (pending, cache)

    unfoldable pub plan_each : FormulaCache → List Text → Result BrewdockError (List PlanEntry)
    plan_each cache [] = ok []
    plan_each cache (name ∷ names) = elim (lookup name cache) [
      | none ↦ err (formula_failure (not_found name))
      | some f ↦ do
        method ← resolve_install_method f
        rest ← plan_each cache names
        ok (
            record {
              name = name;
              version = pkg_version f.versions.stable f.revision;
              method = method;
            }
            ∷ rest)
    ]

    unfoldable pub plan_install : List Text → Result BrewdockError (List PlanEntry)
    plan_install names = do
      (to_install, cache) ← resolve_install_list names
      plan_each cache to_install
