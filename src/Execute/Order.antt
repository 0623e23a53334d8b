-- ===== src/Execute/Order.antt =====
-- Which formulae a run of `execute_install_plan` (crates/core/src/orchestrate/execution.rs) commits.
use brewdock.Base.{
  ℕ, ◌≡◌, refl, sym, ap, subst, ◌∙◌, inl, inr, Bool, Option, some, none, List, [], ◌∷◌, ◌++◌, Text,
  arith, Result, ok, err, ok_of_bind, Result-cases, Bool-cases, lookup,
}
use brewdock.Formula.{Formula}
use brewdock.Layout.{Layout}
use brewdock.Plan.{BrewdockError, FormulaCache, resolve_install_method}
use brewdock.Platform.{HostTag}
use brewdock.Source.{ok_or}
use brewdock.Execute.{
  ExecutionPlanEntry, new_entry, build_execution_plan, AcquiredPayload, Tools, acquire_payload,
  run_acquire_stage, Call, Logged, logged, prepend, returned, finalize_acquired, finalize_each,
  cleanup_materialized_kegs, execute_install_plan,
}
use brewdock.Execute.Settled.{committed, committed-append, finalize_acquired-Settles}

abbrev names_of : List ExecutionPlanEntry → List Text
names_of [] = []
names_of (entry ∷ entries) = entry.formula.name ∷ names_of entries

abbrev IsPaired : List ExecutionPlanEntry → List AcquiredPayload → Type 0
IsPaired [] [] = Unit
IsPaired (entry ∷ entries) (payload ∷ payloads) = IsPaired entries payloads
IsPaired _ _ = ⊥

-- The committed names are the first of those that were asked for, and all of them after a success.
abbrev IsFirstPart : List Text → Logged → Type 0
IsFirstPart names run =
    (rest : List Text) × (names ≡ committed run.calls ++ rest) × (run.result ≡ ok tt → rest ≡ [])

module _ (answer : Text → Call → Result BrewdockError Unit) (has_post : Text → Bool) where
  finalize_each-IsFirstPart :
      (entries : List ExecutionPlanEntry) (payloads : List AcquiredPayload)
      → IsPaired entries payloads
      → IsFirstPart (names_of entries) (finalize_each answer has_post entries payloads)
  unfolding finalize_each logged prepend
  finalize_each-IsFirstPart [] [] h = ([], refl, λ done. refl)
  finalize_each-IsFirstPart [] (payload ∷ payloads) h = absurd h
  finalize_each-IsFirstPart (entry ∷ entries) [] h = absurd h
  finalize_each-IsFirstPart (entry ∷ entries) (payload ∷ payloads) h =
      let first : Logged =
        finalize_acquired answer has_post entry.formula.name entry.finalize payload in
      let (rest, same, all) = finalize_each-IsFirstPart entries payloads h in
      elim (finalize_acquired-Settles answer has_post entry.formula.name entry.finalize payload) [
        | inl (o, c) ↦
            rw (o, finalize_each)
              (
                rest,
                rw
                    (
                      committed-append first.calls
                          (finalize_each answer has_post entries payloads).calls,
                      c,
                    )
                    (ap (λ names. entry.formula.name ∷ names) same),
                all,
              )
        | inr (e, o, c) ↦
            rw (o, finalize_each)
              (entry.formula.name ∷ names_of entries, rw c refl, λ bad. absurd (ground arith))
      ]

-- A formula is cached under its own name.
abbrev pub IsNamed : FormulaCache → Type 0
IsNamed cache =
    (name : Text) (formula : Formula) → lookup name cache ≡ some formula → formula.name ≡ name

ok_of_ok_or : {E A : Type 0} (o : Option A) (e : E) {a : A} → ok_or o e ≡ ok a → o ≡ some a
unfolding ok_or
ok_of_ok_or (some a) e {a = b} h = ap (λ r. elim r [ ok c ↦ some c | err _ ↦ some b ]) h
ok_of_ok_or none e h = absurd (ground arith)

module _ (layout : Layout) (host_tag : HostTag) (xcode : Option ℕ) where
  build_execution_plan-names_of :
      (cache : FormulaCache) (to_install : List Text) {entries : List ExecutionPlanEntry}
      → IsNamed cache
      → build_execution_plan layout host_tag xcode cache to_install ≡ ok entries
      → to_install ≡ names_of entries
  unfolding build_execution_plan new_entry
  build_execution_plan-names_of cache [] {entries} named e =
      ap (λ r. elim r [ ok p ↦ names_of p | err _ ↦ [] ]) e
  build_execution_plan-names_of cache (name ∷ to_install) {entries} named e =
      let (formula, e', l) = ok_of_bind (ok_or (lookup name cache) _) _ e in
      let (method, e'', m) =
        ok_of_bind (resolve_install_method layout host_tag xcode formula) _ e' in
      let (rest, e''', b) =
        ok_of_bind (build_execution_plan layout host_tag xcode cache to_install) _ e'' in
      ap (λ n. n ∷ to_install) (sym (named name formula (ok_of_ok_or (lookup name cache) _ l)))
      ∙ ap (λ names. formula.name ∷ names) (build_execution_plan-names_of cache to_install named b)
      ∙ ap (λ r. elim r [ ok p ↦ names_of p | err _ ↦ [] ]) e'''

run_acquire_stage-IsPaired :
    (layout : Layout) (tools : Tools) (entries : List ExecutionPlanEntry)
    {payloads : List AcquiredPayload}
    → run_acquire_stage layout tools entries ≡ ok payloads
    → IsPaired entries payloads
unfolding run_acquire_stage
run_acquire_stage-IsPaired layout tools [] {payloads} e =
    subst (IsPaired []) (ap (λ r. elim r [ ok p ↦ p | err _ ↦ [] ]) e) tt
run_acquire_stage-IsPaired layout tools (entry ∷ entries) {payloads} e =
    let (payload, e', a) = ok_of_bind (acquire_payload layout tools entry) _ e in
    let (rest, e'', r) = ok_of_bind (run_acquire_stage layout tools entries) _ e' in
    subst (IsPaired (entry ∷ entries)) (ap (λ r. elim r [ ok p ↦ p | err _ ↦ [] ]) e'')
      (run_acquire_stage-IsPaired layout tools entries r)

cleanup_materialized_kegs-committed :
    (answer : Text → Call → Result BrewdockError Unit) (has_post : Text → Bool)
    (keg_exists : Formula → Bool) (entries : List ExecutionPlanEntry)
    → committed (cleanup_materialized_kegs answer has_post keg_exists entries) ≡ []
unfolding cleanup_materialized_kegs
cleanup_materialized_kegs-committed answer has_post keg_exists [] = refl
cleanup_materialized_kegs-committed answer has_post keg_exists (entry ∷ entries) =
    elim (Bool-cases (keg_exists entry.formula)) [
      | inl k ↦ rw k (cleanup_materialized_kegs-committed answer has_post keg_exists entries)
      | inr k ↦ rw k (cleanup_materialized_kegs-committed answer has_post keg_exists entries)
    ]

-- Whatever the tools and the calls answer, for a cache that holds each formula under its name: the
-- formulae that a run commits are the first of those it was to install, in that order, and after a
-- success they are all of them.
pub execute_install_plan-committed :
    (answer : Text → Call → Result BrewdockError Unit) (has_post : Text → Bool) (layout : Layout)
    (host_tag : HostTag) (xcode : Option ℕ) (tools : Tools) (keg_exists : Formula → Bool)
    (cache : FormulaCache) (to_install : List Text)
    → IsNamed cache
    → (rest : List Text) × (to_install
        ≡ committed
            (execute_install_plan answer has_post layout host_tag xcode tools keg_exists cache
              to_install).calls
          ++ rest)
      × ((execute_install_plan answer has_post layout host_tag xcode tools keg_exists cache
              to_install).result
            ≡ ok tt
          → rest ≡ [])
unfolding execute_install_plan returned logged
execute_install_plan-committed answer has_post layout host_tag xcode tools keg_exists cache
      to_install named =
    elim (Result-cases (build_execution_plan layout host_tag xcode cache to_install)) [
      | inl (e, b) ↦ rw (b, execute_install_plan) (to_install, refl, λ bad. absurd (ground arith))
      | inr (entries, b) ↦
          let names =
            build_execution_plan-names_of layout host_tag xcode cache to_install named b in
          elim (Result-cases (run_acquire_stage layout tools entries)) [
            | inl (e, a) ↦
                rw (b, execute_install_plan)
                  (rw (a, execute_install_plan)
                    (
                      to_install,
                      rw (cleanup_materialized_kegs-committed answer has_post keg_exists entries)
                          refl,
                      λ bad. absurd (ground arith),
                    ))
            | inr (payloads, a) ↦
                rw (b, execute_install_plan)
                  (rw (a, execute_install_plan)
                    (subst
                      (λ order. IsFirstPart order (finalize_each answer has_post entries payloads))
                      (sym names)
                      (finalize_each-IsFirstPart answer has_post entries payloads
                        (run_acquire_stage-IsPaired layout tools entries a))))
          ]
    ]
