-- ===== src/Execute/Tests.antt =====
-- A run over two formulae whose second one fails, and witnesses.
use brewdock.Base.{
  ◌≡◌, ◌⊎◌, refl, true, false, Bool, none, List, [], ◌∷◌, ◌++◌, ascii, Text, text_eq, lookup,
  Result, ok, err, arith, ap, ◌∙◌, Bool-cases, inl, inr, text_eq_iff,
}
use brewdock.Execute.{
  Tools, Call, finalize_installed_formula, execute_install_plan, build_execution_plan, new_entry,
  step_for, run_acquire_stage, acquire_payload, acquire_bottle, fetch_blob, scope_for,
  finalize_each, finalize_acquired, finalize_with_keg, choose, attempt, ignore, with_post, prepend,
  returned, logged,
}
use brewdock.Execute.Settled.{committed}
use brewdock.Execute.Order.{IsNamed, execute_install_plan-committed}
use brewdock.Execute.Protocol.{IsCommitted, IsUndone, IsUndoable, finalize_with_keg_protocol}
use brewdock.Formula.Samples.{sample_formula, sample_tag}
use brewdock.Formula.Select.{
  select_bottle, first_bottle, bottle_candidates, apple_silicon_candidates,
  default_bottle_candidates, names_from,
}
use brewdock.Formula.Cellar.{is_compatible}
use brewdock.Layout.{production, cellar, store_dir}
use brewdock.Paths.{join_text}
use brewdock.Plan.{BrewdockError, io, FormulaCache, resolve_install_method}
use brewdock.Source.{ok_or}
use brewdock.Upgrade.{pkg_version}

program : Unit {0}
unfolding text_eq lookup execute_install_plan build_execution_plan new_entry step_for
    run_acquire_stage acquire_payload acquire_bottle fetch_blob scope_for finalize_each
    finalize_acquired finalize_with_keg choose attempt ignore with_post prepend returned logged
    select_bottle first_bottle bottle_candidates apple_silicon_candidates default_bottle_candidates
    names_from is_compatible production cellar store_dir join_text resolve_install_method ok_or
    pkg_version
program = tt

abbrev a : Text
a = ascii "a"

abbrev b : Text
b = ascii "b"

abbrev cache : FormulaCache
cache = (a, sample_formula a []) ∷ (b, sample_formula b []) ∷ []

cache-IsNamed : IsNamed cache
unfolding lookup
cache-IsNamed name formula found = elim (Bool-cases (text_eq a name)) [
  | inl p ↦
      let same : formula ≡ sample_formula a [] = ground (arith, found, p) in
      ap (λ f. f.name) same ∙ (text_eq_iff a name).0 p
  | inr p ↦ elim (Bool-cases (text_eq b name)) [
    | inl q ↦
        let same : formula ≡ sample_formula b [] = ground (arith, found, p, q) in
        ap (λ f. f.name) same ∙ (text_eq_iff b name).0 q
    | inr q ↦ ground (arith, found, p, q)
  ]
]

-- A linked formula named `b` fails; all else succeeds.
abbrev answer : Text → Call → Result BrewdockError Unit
unfolding text_eq
answer name finalize_installed_formula = elim (text_eq name b) [
  | true ↦ err (io (ascii "link"))
  | false ↦ ok tt
]
answer name _ = ok tt

abbrev has_post : Text → Bool
has_post name = true

abbrev tools : Tools
tools = record {
  has = λ sha256. ok true;
  download_verified = λ url sha256. ok [];
  put = λ sha256 body. ok tt;
  exists = λ path. false;
  extract = λ sha256 dir. ok tt;
  materialize_and_relocate = λ source keg name scope. ok tt;
  unpack_source = λ url body. ok [];
}

execute_install_plan-a :
    committed
      (execute_install_plan answer has_post production sample_tag none tools
        (λ f. true)
        cache
        (a ∷ b ∷ [])).calls
    ≡ a ∷ []
unfolding program answer
execute_install_plan-a = refl

execute_install_plan-committed_example :
    (rest : List Text) × ((a ∷ b ∷ [])
      ≡ committed
          (execute_install_plan answer has_post production sample_tag none tools
            (λ f. true)
            cache
            (a ∷ b ∷ [])).calls
        ++ rest)
    × ((execute_install_plan answer has_post production sample_tag none tools
            (λ f. true)
            cache
            (a ∷ b ∷ [])).result
          ≡ ok tt
        → rest ≡ [])
execute_install_plan-committed_example =
    execute_install_plan-committed answer has_post production sample_tag none tools (λ f. true)
      cache (a ∷ b ∷ []) cache-IsNamed

undoable : IsUndoable answer has_post b
unfolding program answer
undoable = (refl, refl, refl, refl)

finalize_with_keg_protocol_example :
    (((finalize_with_keg answer has_post b).result ≡ ok tt)
      × IsCommitted answer has_post b (finalize_with_keg answer has_post b).calls)
    ⊎ ((e : BrewdockError) × ((finalize_with_keg answer has_post b).result ≡ err e)
        × IsUndone answer has_post b (finalize_with_keg answer has_post b).calls)
finalize_with_keg_protocol_example = finalize_with_keg_protocol answer has_post b undoable
