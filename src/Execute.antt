-- ===== src/Execute.antt =====
-- The execution of an installation (crates/core/src/orchestrate.rs: `build_execution_plan`;
-- orchestrate/execution.rs): acquiring the payloads, then finalizing each formula in order.
--
-- What the other crates do to the file system is an argument: the tools that acquire a payload, and
-- what each call answers that is made for a formula while it is finalized. The calls that are made are
-- recorded in their order. Payloads are acquired one after the other; the program acquires several at
-- a time and sorts them again, so that of several errors it may report another one.
pub mod Protocol
pub mod Settled
pub mod Order
mod Tests
use brewdock.Base.{
  ℕ, Bool, true, false, Option, none, some, List, [], ◌∷◌, ◌++◌, Text, ascii, if◌then◌else◌, Result,
  ok, err, ◌>>=◌, lookup,
}
use brewdock.Formula.{Formula, CellarType, any_skip_relocation, not_found}
use brewdock.Formula.Select.{SelectedBottle}
use brewdock.Layout.{Layout, cellar, store_dir}
use brewdock.Paths.{FilePath, join_text}
use brewdock.Plan.{
  BrewdockError, io, formula_failure, source_build, InstallMethod, from_bottle, from_source,
  FormulaCache, resolve_install_method,
}
use brewdock.Platform.{HostTag}
use brewdock.Relocate.Keg.{RelocationScope, text_only, full}
use brewdock.Source.{SourceBuildPlan, missing_source_checksum, ok_or}
use brewdock.Upgrade.{pkg_version}

pub data FinalizeStep : Type 0 where
  finalize_bottle build_from_source : FinalizeStep

pub record ExecutionPlanEntry : Type 0 where
  pub formula : Formula
  pub method : InstallMethod
  pub finalize : FinalizeStep

unfoldable pub step_for : InstallMethod → FinalizeStep
step_for (from_bottle _) = finalize_bottle
step_for (from_source _) = build_from_source

-- `ExecutionPlanEntry::new`
unfoldable pub new_entry : Formula → InstallMethod → ExecutionPlanEntry
unfolding step_for
new_entry formula method = record { formula = formula; method = method; finalize = step_for method }

module _ (layout : Layout) (host_tag : HostTag) (xcode : Option ℕ) where
  unfoldable pub build_execution_plan :
      FormulaCache → List Text → Result BrewdockError (List ExecutionPlanEntry)
  unfolding lookup resolve_install_method new_entry ok_or
  build_execution_plan cache [] = ok []
  build_execution_plan cache (name ∷ to_install) = do
    formula ← ok_or (lookup name cache) (formula_failure (not_found name))
    method ← resolve_install_method layout host_tag xcode formula
    entries ← build_execution_plan cache to_install
    ok (new_entry formula method ∷ entries)

-- The path of a keg, or of a source tree and the plan to build it.
pub data AcquiredPayload : Type 0 where
  bottle : (keg_path : FilePath) → AcquiredPayload
  pending_source : (source_root : FilePath) (plan : SourceBuildPlan) → AcquiredPayload

pub record Tools : Type 0 where
  pub has : (sha256 : Text) → Result BrewdockError Bool
  pub download_verified : (url sha256 : Text) → Result BrewdockError Text
  pub put : (sha256 body : Text) → Result BrewdockError Unit
  pub exists : FilePath → Bool
  pub extract : (sha256 : Text) (extract_dir : FilePath) → Result BrewdockError Unit
  pub materialize_and_relocate :
      (source_dir keg_path : FilePath) (name : Text) (scope : RelocationScope)
      → Result BrewdockError Unit
  -- Writing and extracting a source archive.
  pub unpack_source : (url body : Text) → Result BrewdockError FilePath

unfoldable pub scope_for : CellarType → RelocationScope
scope_for any_skip_relocation = text_only
scope_for _ = full

module _ (layout : Layout) (tools : Tools) where
  unfoldable pub fetch_blob : SelectedBottle → Bool → Result BrewdockError Unit
  fetch_blob selected true = ok tt
  fetch_blob selected false = do
    body ← tools.download_verified selected.url selected.sha256
    tools.put selected.sha256 body

  unfoldable pub acquire_bottle : Formula → SelectedBottle → Result BrewdockError AcquiredPayload
  unfolding fetch_blob scope_for store_dir cellar join_text pkg_version
  acquire_bottle formula selected =
      let version = pkg_version formula.versions.stable formula.revision in
      let extract_dir = join_text (store_dir layout) selected.sha256 in
      let source_dir = join_text (join_text extract_dir formula.name) version in
      let keg_path = join_text (join_text (cellar layout) formula.name) version in
      do
        blob_hit ← tools.has selected.sha256
        _ ← fetch_blob selected blob_hit
        _ ← (if tools.exists source_dir then ok tt else tools.extract selected.sha256 extract_dir)
        _ ←
            tools.materialize_and_relocate source_dir keg_path formula.name
              (scope_for selected.cellar)
        ok (bottle keg_path)

  unfoldable pub acquire_source : SourceBuildPlan → Result BrewdockError AcquiredPayload
  unfolding ok_or
  acquire_source plan = do
    checksum ← ok_or plan.source_checksum (source_build (missing_source_checksum plan.formula_name))
    body ← tools.download_verified plan.source_url checksum
    source_root ← tools.unpack_source plan.source_url body
    ok (pending_source source_root plan)

  unfoldable pub acquire_payload : ExecutionPlanEntry → Result BrewdockError AcquiredPayload
  unfolding acquire_bottle acquire_source
  acquire_payload entry = elim entry.method [
    | from_bottle selected ↦ acquire_bottle entry.formula selected
    | from_source plan ↦ acquire_source plan
  ]

  unfoldable pub run_acquire_stage :
      List ExecutionPlanEntry → Result BrewdockError (List AcquiredPayload)
  unfolding acquire_payload
  run_acquire_stage [] = ok []
  run_acquire_stage (entry ∷ entries) = do
    payload ← acquire_payload entry
    payloads ← run_acquire_stage entries
    ok (payload ∷ payloads)

-- The calls that finalize a formula, and those that undo them.
pub data Call : Type 0 where
  run_source_build refresh_opt_link install_bottle_etc_var execute_post_install : Call
  finalize_installed_formula rollback_post rollback_prefix commit_post commit_prefix : Call
  cleanup_failed_install : Call

-- What is returned, and the calls that were made, each with the formula's name.
pub record Logged : Type 0 where
  pub result : Result BrewdockError Unit
  pub calls : List (Text × Call)

unfoldable pub logged : Result BrewdockError Unit → List (Text × Call) → Logged
logged result calls = record { result = result; calls = calls }

unfoldable pub prepend : List (Text × Call) → Logged → Logged
prepend calls next = record { result = next.result; calls = calls ++ next.calls }

-- `match` on what a call answers, and `?`, which returns its error.
unfoldable pub choose :
    (Text × Call) → Result BrewdockError Unit → (BrewdockError → Logged) → Logged → Logged
unfolding prepend
choose made (ok _) failed next = prepend (made ∷ []) next
choose made (err e) failed next = prepend (made ∷ []) (failed e)

unfoldable pub returned : BrewdockError → Logged
unfolding logged
returned e = logged (err e) []

-- What calls answer, and whether the post-install step of a formula gives a transaction.
module _ (answer : Text → Call → Result BrewdockError Unit) (has_post : Text → Bool)
    (name : Text) where
  unfoldable pub attempt : Call → Logged → Logged
  unfolding choose returned
  attempt made next = choose (name, made) (answer name made) returned next

  -- `let _ = ...`, and a warning
  unfoldable pub ignore : Call → Logged → Logged
  unfolding prepend
  ignore made next = prepend ((name, made) ∷ []) next

  unfoldable pub with_post : Call → Logged → Logged
  unfolding attempt
  with_post made next = if has_post name then attempt made next else next

  unfoldable pub finalize_with_keg : Logged
  unfolding choose attempt ignore with_post returned logged
  finalize_with_keg =
      choose (name, install_bottle_etc_var) (answer name install_bottle_etc_var)
        (λ e. ignore cleanup_failed_install (returned e))
        (choose (name, execute_post_install) (answer name execute_post_install)
          (λ e. ignore rollback_prefix (attempt cleanup_failed_install (returned e)))
          (choose (name, finalize_installed_formula) (answer name finalize_installed_formula)
            (λ e.
              with_post rollback_post
                (attempt rollback_prefix (attempt cleanup_failed_install (returned e))))
            (with_post commit_post (ignore commit_prefix (logged (ok tt) [])))))

  unfoldable pub build_source_to_keg : Logged → Logged
  unfolding choose attempt ignore returned
  build_source_to_keg next =
      choose (name, run_source_build) (answer name run_source_build)
        (λ e. ignore cleanup_failed_install (returned e)) (attempt refresh_opt_link next)

  abbrev pub mismatch : BrewdockError
  mismatch = io (ascii "execution plan finalize step does not match acquired payload")

  unfoldable pub finalize_acquired : FinalizeStep → AcquiredPayload → Logged
  unfolding finalize_with_keg build_source_to_keg returned
  finalize_acquired finalize_bottle (bottle keg_path) = finalize_with_keg
  finalize_acquired build_from_source (pending_source source_root plan) =
      build_source_to_keg finalize_with_keg
  finalize_acquired finalize_bottle (pending_source source_root plan) = returned mismatch
  finalize_acquired build_from_source (bottle keg_path) = returned mismatch

module _ (answer : Text → Call → Result BrewdockError Unit) (has_post : Text → Bool) where
  -- The loop over the entries with their payloads.
  unfoldable pub finalize_each : List ExecutionPlanEntry → List AcquiredPayload → Logged
  unfolding finalize_acquired logged prepend
  finalize_each (entry ∷ entries) (payload ∷ payloads) =
      let first = finalize_acquired answer has_post entry.formula.name entry.finalize payload in
      let rest = finalize_each entries payloads in
      elim first.result [ ok _ ↦ prepend first.calls rest | err e ↦ first ]
  finalize_each _ _ = logged (ok tt) []

  -- `cleanup_materialized_kegs`, for the kegs that are there.
  unfoldable pub cleanup_materialized_kegs :
      (Formula → Bool) → List ExecutionPlanEntry → List (Text × Call)
  cleanup_materialized_kegs keg_exists [] = []
  cleanup_materialized_kegs keg_exists (entry ∷ entries) =
      let rest = cleanup_materialized_kegs keg_exists entries in
      if keg_exists entry.formula then (entry.formula.name, cleanup_failed_install) ∷ rest else rest

  -- `keg_exists` tells whether a keg is there when the acquisition has failed.
  unfoldable pub execute_install_plan :
      Layout
      → HostTag
      → (xcode : Option ℕ) → Tools
      → (keg_exists : Formula → Bool) → FormulaCache
      → List Text
      → Logged
  unfolding build_execution_plan run_acquire_stage finalize_each cleanup_materialized_kegs logged
      returned
  execute_install_plan layout host_tag xcode tools keg_exists cache to_install =
      elim (build_execution_plan layout host_tag xcode cache to_install) [
        | err e ↦ returned e
        | ok entries ↦ elim (run_acquire_stage layout tools entries) [
          | err e ↦ logged (err e) (cleanup_materialized_kegs keg_exists entries)
          | ok acquired ↦ finalize_each entries acquired
        ]
      ]
