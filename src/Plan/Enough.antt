-- ===== src/Plan/Enough.antt =====
-- How much fuel `fetch_with_deps` of crates/core/src/orchestrate.rs needs.
use brewdock.Base.{
  Result-cases, ℕ, zero, suc, ◌+◌, ◌≤◌, ◌<◌, ◌≡◌, ◌≢◌, inl, inr, Option, none, some, List, [], ◌∷◌,
  ◌++◌, Text, text_eq, text_eq_iff, lookup, lookup-insert, ok, err, arith, Bool-cases, Option-cases,
  if◌then◌else◌,
}
use brewdock.Base.Lists.{In, length, length-append}
use brewdock.Formula.{Formula}
use brewdock.Formula.Support.{is_some}
use brewdock.Layout.{Layout}
use brewdock.Platform.{HostTag}
use brewdock.Plan.{
  out_of_fuel, formula_failure, FormulaCache, insert_formula, push_missing, Sources,
  resolve_formula, plan_dependencies, fetch_from, fetch_with_deps, map_err,
}
use brewdock.Plan.Fetch.{IsFaithful}
use brewdock.Plan.Method.{plan_dependencies-failure}

resolve_formula_halts : (sources : Sources) (n : Text) → resolve_formula sources n ≢ err out_of_fuel
unfolding resolve_formula map_err
resolve_formula_halts sources n h = elim (Result-cases (sources.load_formula n)) [
  | inl (e, p) ↦ api (rw (p, resolve_formula) at h)
  | inr (none, p) ↦ api (rw (p, resolve_formula) at h)
  | inr (some f, p) ↦ ground (arith, rw (p, resolve_formula) at h)
]
  where
    api : map_err formula_failure (sources.formula n) ≢ err out_of_fuel
    api h = elim (Result-cases (sources.formula n)) [
      | inl (e, p) ↦ ground (arith, rw p at h)
      | inr (f, p) ↦ ground (arith, rw p at h)
    ]

push_missing-le :
    (cache : FormulaCache) (queue deps : List Text)
    → length (push_missing cache queue deps) ≤ length queue + length deps
unfolding push_missing
push_missing-le cache queue [] = omega arith
push_missing-le cache queue (d ∷ deps) = elim (Option-cases (lookup d cache)) [
  | inl e ↦
      rw e
        (omega (arith, push_missing-le cache (queue ++ d ∷ []) deps, length-append queue (d ∷ [])))
  | inr (f, e) ↦ rw e (omega (arith, push_missing-le cache queue deps))
]

module _ (layout : Layout) (host_tag : HostTag) (xcode : Option ℕ) where
  plan_dependencies_halts :
      (f : Formula) → plan_dependencies layout host_tag xcode f ≢ err out_of_fuel
  plan_dependencies_halts f h = plan_dependencies-failure layout host_tag xcode f out_of_fuel h

  module _ (sources : Sources) where
    -- How many names the formula of this name puts on the queue, at most.
    abbrev pub weight : Text → ℕ
    weight n = elim (resolve_formula sources n) [
      | err _ ↦ 0
      | ok f ↦ elim (plan_dependencies layout host_tag xcode f) [ err _ ↦ 0 | ok ds ↦ length ds ]
    ]

    -- The sum over the names that are not cached yet.
    abbrev pub outstanding : FormulaCache → List Text → ℕ
    outstanding cache [] = 0
    outstanding cache (n ∷ known) =
        (if is_some (lookup n cache) then 0 else weight n) + outstanding cache known

    -- A name that is cached now counts no more.
    outstanding-insert :
        (f : Formula) (ds known : List Text) (cache : FormulaCache)
        → lookup f.name cache ≡ none
        → weight f.name ≡ length ds
        → (outstanding (insert_formula f cache) known ≤ outstanding cache known)
          × (In f.name known
              → outstanding (insert_formula f cache) known + length ds ≤ outstanding cache known)
    unfolding insert_formula
    outstanding-insert f ds [] cache e w = (omega arith, λ i. absurd i)
    outstanding-insert f ds (n ∷ known) cache e w = elim (Bool-cases (text_eq f.name n)) [
      | inl t ↦
          let same : f.name ≡ n = (text_eq_iff f.name n).0 t in
          let absent : lookup n cache ≡ none = rw (← same) e in
          let size : weight n ≡ length ds = rw (← same) w in
          let rest = outstanding-insert f ds known cache e w in
          rw (lookup-insert f.name n f cache, t, absent)
            (omega (arith, size, rest.0), λ _. omega (arith, size, rest.0))
      | inr t ↦
          let rest = outstanding-insert f ds known cache e w in
          rw (lookup-insert f.name n f cache, t)
            (
              omega (arith, rest.0),
              λ i. elim i [
                | inl same ↦ absurd (ground (arith, t, (text_eq_iff f.name n).1 same))
                | inr there ↦ omega (arith, rest.1 there)
              ],
            )
    ]

    module _ (faithful : IsFaithful sources) (known : List Text)
        (finite : (n : Text) (f : Formula) → resolve_formula sources n ≡ ok f → In n known) where
      fetch_from_halts :
          (fuel : ℕ) (queue : List Text) (cache : FormulaCache)
          → length queue + outstanding cache known < fuel
          → fetch_from layout host_tag xcode sources fuel queue cache ≢ err out_of_fuel
      unfolding fetch_from
      fetch_from_halts zero queue cache k h = omega arith
      fetch_from_halts (suc fuel) [] cache k h = ground arith
      fetch_from_halts (suc fuel) (name ∷ queue) cache k h =
          elim (Option-cases (lookup name cache)) [
            | inr (f, e) ↦ fetch_from_halts fuel queue cache (omega arith) (rw (e, fetch_from) at h)
            | inl e ↦ elim (Result-cases (resolve_formula sources name)) [
              | inl (failure, r) ↦
                  let same : failure ≡ out_of_fuel = ground (arith, rw (e, fetch_from, r) at h) in
                  resolve_formula_halts sources name (rw (← same) r)
              | inr (f, r) ↦ elim (Result-cases (plan_dependencies layout host_tag xcode f)) [
                | inl (failure, p) ↦
                    let same : failure ≡ out_of_fuel =
                      ground (arith, rw (e, fetch_from, r, p) at h) in
                    plan_dependencies_halts f (rw (← same) p)
                | inr (ds, p) ↦
                    let own : f.name ≡ name = faithful name f r in
                    let size : weight f.name ≡ length ds = rw (own, r, weight, p) in
                    let room =
                      (outstanding-insert f ds known cache (rw own e) size).1
                        (rw own (finite name f r)) in
                    fetch_from_halts fuel (push_missing cache queue ds) (insert_formula f cache)
                      (omega (arith, room, push_missing-le cache queue ds, k))
                      (rw (e, fetch_from, r, p) at h)
              ]
            ]
          ]

      -- The loop of `fetch_with_deps` ends. For a repository of finitely many formulae that answers with
      -- the formula that it is asked for, there are at most as many rounds as there are requested
      -- names and planned dependencies of all its formulae.
      pub fetch_with_deps_halts :
          (fuel : ℕ) (names : List Text)
          → length names + outstanding [] known < fuel
          → fetch_with_deps layout host_tag xcode sources fuel names ≢ err out_of_fuel
      unfolding fetch_with_deps
      fetch_with_deps_halts fuel names k = fetch_from_halts fuel names [] k
