-- ===== src/Plan/Graph.antt =====
-- The install order of what was fetched (crates/core/src/orchestrate.rs: `build_install_graph`, and
-- planning.rs: `resolve_supported_install_order`).
use brewdock.Base.{
  Result-cases, ℕ, ◌≡◌, ◌≢◌, inl, inr, Option, some, List, [], ◌∷◌, Text, text_eq, Assoc, lookup,
  ok, err, arith, Bool-cases,
}
use brewdock.Base.Lists.{In}
use brewdock.Formula.{
  Formula, FormulaError, not_found, unsupported, network, parse, io, database,
  invalid_ruby_source_path, cyclic_dependency,
}
use brewdock.Formula.Support.{check_supportability}
use brewdock.Layout.{Layout}
use brewdock.Platform.{HostTag}
use brewdock.Resolve.{Stop, resolve_install_order}
use brewdock.Resolve.Graph.{Needed, start, step}
use brewdock.Resolve.Order.{resolve_install_order-IsJustified}
use brewdock.Plan.{
  BrewdockError, formula_failure, FormulaCache, Sources, plan_dependencies, build_install_graph,
  check_cache_supportability, from_stop, map_err, resolve_supported_install_order, fetch_with_deps,
}
use brewdock.Plan.Method.{IsPlanFailure, plan_dependencies-failure}
use brewdock.Plan.Fetch.{IsFetched, IsFaithful, IsClosed, fetch_with_deps-IsClosed}

module _ (layout : Layout) (host_tag : HostTag) (xcode : Option ℕ) where
  -- The formula under this name in the graph is the cached one with its dependencies planned.
  pub record IsPlanned (cache : FormulaCache) (n : Text) (g : Formula) : Type 0 where
    pub cached : Formula
    pub found : lookup n cache ≡ some cached
    pub planned : plan_dependencies layout host_tag xcode cached ≡ ok g.dependencies

  pub build_install_graph-IsPlanned :
      (cache : FormulaCache) (graph : Assoc Formula) (n : Text) (g : Formula)
      → build_install_graph layout host_tag xcode cache ≡ ok graph
      → lookup n graph ≡ some g
      → IsPlanned cache n g
  unfolding build_install_graph lookup
  build_install_graph-IsPlanned [] graph n g h e =
      let same : [] ≡ graph = ground arith in absurd (ground (arith, rw (← same) at e))
  build_install_graph-IsPlanned ((m, f) ∷ cache) graph n g h e =
      elim (Result-cases (plan_dependencies layout host_tag xcode f)) [
        | inl (b, p) ↦ absurd (ground (arith, rw (p, build_install_graph) at h))
        | inr (ds, p) ↦ elim (Result-cases (build_install_graph layout host_tag xcode cache)) [
          | inl (b, q) ↦ absurd (ground (arith, rw (p, build_install_graph, q) at h))
          | inr (rest, q) ↦
              let same : (m, record f { dependencies = ds }) ∷ rest ≡ graph =
                ground (arith, rw (p, build_install_graph, q) at h) in
              elim (Bool-cases (text_eq m n)) [
                | inl t ↦
                    let here : record f { dependencies = ds } ≡ g =
                      ground (arith, rw (← same, lookup, t) at e) in
                    rw (← here) (record { cached = f; found = rw t; planned = p })
                | inr t ↦
                    let old =
                      build_install_graph-IsPlanned cache rest n g q
                        (rw (← same, lookup, t) at e) in
                    record { cached = old.cached; found = rw t old.found; planned = old.planned }
              ]
        ]
      ]

  pub build_install_graph-IsFetched :
      (cache : FormulaCache) (graph : Assoc Formula) (n : Text)
      → build_install_graph layout host_tag xcode cache ≡ ok graph
      → IsFetched cache n
      → IsFetched graph n
  unfolding build_install_graph lookup
  build_install_graph-IsFetched [] graph n h (g, e) = absurd (ground (arith, e))
  build_install_graph-IsFetched ((m, f) ∷ cache) graph n h (g, e) =
      elim (Result-cases (plan_dependencies layout host_tag xcode f)) [
        | inl (b, p) ↦ absurd (ground (arith, rw (p, build_install_graph) at h))
        | inr (ds, p) ↦ elim (Result-cases (build_install_graph layout host_tag xcode cache)) [
          | inl (b, q) ↦ absurd (ground (arith, rw (p, build_install_graph, q) at h))
          | inr (rest, q) ↦
              let same : (m, record f { dependencies = ds }) ∷ rest ≡ graph =
                ground (arith, rw (p, build_install_graph, q) at h) in
              elim (Bool-cases (text_eq m n)) [
                | inl t ↦ rw (← same) (record f { dependencies = ds }, rw t)
                | inr t ↦
                    let (g', e') =
                      build_install_graph-IsFetched cache rest n q (g, rw (t, lookup) at e) in
                    rw (← same) (g', rw t e')
              ]
        ]
      ]

  -- In the graph of a closed cache, all that is needed is there.
  Needed-IsFetched :
      (cache : FormulaCache) (graph : Assoc Formula) (names : List Text) (n : Text)
      → build_install_graph layout host_tag xcode cache ≡ ok graph
      → IsClosed layout host_tag xcode [] cache
      → ((m : Text) → In m names → IsFetched cache m)
      → Needed graph names n
      → IsFetched cache n
  Needed-IsFetched cache graph names n h c all (start _ i) = all n i
  Needed-IsFetched cache graph names n h c all (step {a} need d) =
      let planned = build_install_graph-IsPlanned cache graph a d.formula h d.found in
      let (ds, p, awaited) = c.deps a planned.cached planned.found in
      let same : ds ≡ d.formula.dependencies = ground (arith, p, planned.planned) in
      elim (awaited n (rw same d.listed)) [
        | inl there ↦ there
        | inr none_queued ↦ absurd none_queued
      ]

  check_supportability-failure :
      (f : Formula) (e : FormulaError)
      → check_supportability f host_tag ≡ err e
      → IsPlanFailure (formula_failure e)
  unfolding check_supportability
  check_supportability-failure f (unsupported _ _) h = tt
  check_supportability-failure f (not_found _) h = ground (arith, h)
  check_supportability-failure f (network _) h = ground (arith, h)
  check_supportability-failure f (parse _) h = ground (arith, h)
  check_supportability-failure f (io _) h = ground (arith, h)
  check_supportability-failure f (database _) h = ground (arith, h)
  check_supportability-failure f (invalid_ruby_source_path _) h = ground (arith, h)
  check_supportability-failure f (cyclic_dependency _) h = ground (arith, h)

  check_cache_supportability-failure :
      (cache : FormulaCache) (e : BrewdockError)
      → check_cache_supportability layout host_tag xcode cache ≡ err e
      → IsPlanFailure e
  unfolding check_cache_supportability map_err
  check_cache_supportability-failure [] e h = ground (arith, h)
  check_cache_supportability-failure ((m, f) ∷ cache) e h =
      elim (Result-cases (check_supportability f host_tag)) [
        | inl (b, p) ↦
            let same : formula_failure b ≡ e =
              ground (arith, rw (p, check_cache_supportability) at h) in
            rw (← same) (check_supportability-failure f b p)
        | inr (_, p) ↦
            check_cache_supportability-failure cache e (rw (p, check_cache_supportability) at h)
      ]

  build_install_graph-failure :
      (cache : FormulaCache) (e : BrewdockError)
      → build_install_graph layout host_tag xcode cache ≡ err e
      → IsPlanFailure e
  unfolding build_install_graph
  build_install_graph-failure [] e h = ground (arith, h)
  build_install_graph-failure ((m, f) ∷ cache) e h =
      elim (Result-cases (plan_dependencies layout host_tag xcode f)) [
        | inl (b, p) ↦
            let same : b ≡ e = ground (arith, rw (p, build_install_graph) at h) in
            rw (← same) (plan_dependencies-failure layout host_tag xcode f b p)
        | inr (ds, p) ↦ elim (Result-cases (build_install_graph layout host_tag xcode cache)) [
          | inl (b, q) ↦
              let same : b ≡ e = ground (arith, rw (p, build_install_graph, q) at h) in
              rw (← same) (build_install_graph-failure cache b q)
          | inr (rest, q) ↦ absurd (ground (arith, rw (p, build_install_graph, q) at h))
        ]
      ]

  -- The order of a closed cache is never missing a formula.
  order_found :
      (cache : FormulaCache) (graph : Assoc Formula) (names : List Text) (n : Text)
      → build_install_graph layout host_tag xcode cache ≡ ok graph
      → IsClosed layout host_tag xcode [] cache
      → ((m : Text) → In m names → IsFetched cache m)
      → resolve_install_order graph names ≢ err (Stop.error (not_found n))
  order_found cache graph names n p c all h =
      let (absent, need) = resolve_install_order-IsJustified graph names h in
      let there = Needed-IsFetched cache graph names n p c all need in
      let (g, e) = build_install_graph-IsFetched cache graph n p there in ground (arith, absent, e)

  -- After `fetch_with_deps`, the install order is never refused for a formula that is not found, if the
  -- repository answers with the formula that it is asked for.
  pub resolve_supported_install_order_found :
      (sources : Sources) (fuel : ℕ) (names : List Text) {cache : FormulaCache}
      → IsFaithful sources
      → fetch_with_deps layout host_tag xcode sources fuel names ≡ ok cache
      → (n : Text)
      → resolve_supported_install_order layout host_tag xcode cache names
        ≢ err (formula_failure (not_found n))
  unfolding resolve_supported_install_order map_err from_stop
  resolve_supported_install_order_found sources fuel names {cache} faithful fetched n h =
      elim (Result-cases (check_cache_supportability layout host_tag xcode cache)) [
        | inl (b, s) ↦
            let same : b ≡ formula_failure (not_found n) =
              ground (arith, rw (s, resolve_supported_install_order) at h) in
            check_cache_supportability-failure cache (formula_failure (not_found n)) (rw (← same) s)
        | inr (_, s) ↦ elim (Result-cases (build_install_graph layout host_tag xcode cache)) [
          | inl (b, p) ↦
              let same : b ≡ formula_failure (not_found n) =
                ground (arith, rw (s, resolve_supported_install_order, p) at h) in
              build_install_graph-failure cache (formula_failure (not_found n)) (rw (← same) p)
          | inr (graph, p) ↦
              let (closed, all) =
                fetch_with_deps-IsClosed layout host_tag xcode sources faithful fuel names
                  fetched in
              elim (Result-cases (resolve_install_order graph names)) [
                | inl (Stop.out_of_fuel, r) ↦
                    ground (arith, rw (s, resolve_supported_install_order, p, r) at h)
                | inl (Stop.error e, r) ↦
                    let same : e ≡ not_found n =
                      ground (arith, rw (s, resolve_supported_install_order, p, r) at h) in
                    order_found cache graph names n p closed all (rw (← same) r)
                | inr (order, r) ↦
                    ground (arith, rw (s, resolve_supported_install_order, p, r) at h)
              ]
        ]
      ]
