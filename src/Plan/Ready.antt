-- ===== src/Plan/Ready.antt =====
-- What a plan of an installation promises (crates/core/src/orchestrate.rs: `plan_install`, and
-- planning.rs: `resolve_install_list`, `filter_pending_formulae`).
use brewdock.Base.{
  ℕ, zero, suc, ◌≡◌, ◌∙◌, ap, subst, ◌⊎◌, inl, inr, Bool, true, false, not, if◌then◌else◌, Option,
  some, List, [], ◌∷◌, ◌++◌, map, Text, text_eq, text_eq_iff, Assoc, lookup, lookup-insert, Result,
  ok, ok_of_bind, ok_eq, arith, Bool-cases, Option-cases,
}
use brewdock.Base.Lists.{In}
use brewdock.Formula.{Formula}
use brewdock.Layout.{Layout}
use brewdock.Platform.{HostTag}
use brewdock.Resolve.Graph.{DependsOn, IsOrdered, start}
use brewdock.Resolve.Order.{resolve_install_order-IsOrdered, resolve_install_order-mem_iff}
use brewdock.Plan.{
  BrewdockError, InstallMethod, PlanEntry, FormulaCache, Sources, is_source, insert_formula,
  push_missing, resolve_formula, resolve_install_method, plan_dependencies, build_install_graph,
  fetch_from, fetch_with_deps, resolve_supported_install_order, filter_pending_formulae,
  resolve_install_list, plan_each, plan_install,
}
use brewdock.Plan.Fetch.{IsFaithful}
use brewdock.Plan.Graph.{build_install_graph-IsPlanned, build_install_graph-IsFetched}
use brewdock.Plan.Supported.{resolve_supported_install_order-graph}

-- The formulae that a formula needs to be installed this way: those for the build, too, from a source.
abbrev pub needed_by : Formula → InstallMethod → List Text
needed_by formula method =
    if is_source method
    then formula.dependencies ++ formula.build_dependencies
    else formula.dependencies

module _ (find_installed_keg : Text → Result BrewdockError Bool) where
  -- Installed already, or among these.
  abbrev pub IsServed : List Text → Text → Type 0
  IsServed seen n = (find_installed_keg n ≡ ok true) ⊎ In n seen

  IsServed-cons : (seen : List Text) (a n : Text) → IsServed seen n → IsServed (a ∷ seen) n
  IsServed-cons seen a n (inl t) = inl t
  IsServed-cons seen a n (inr h) = inr (inr h)

  -- Each name is not installed, and what it depends on in the graph is, or stands before it.
  abbrev AllServed : Assoc Formula → List Text → List Text → Type 0
  AllServed graph seen [] = Unit
  AllServed graph seen (a ∷ rest) =
      (find_installed_keg a ≡ ok false)
      × ((b : Text) → DependsOn graph a b → IsServed seen b)
      × AllServed graph (a ∷ seen) rest

  module _ (layout : Layout) (host_tag : HostTag) (xcode : Option ℕ) where
    AllServed-choice :
        (graph : Assoc Formula) (seen rest : List Text) (name : Text) (installed : Bool)
        → find_installed_keg name ≡ ok installed
        → (find_installed_keg name ≡ ok true → AllServed graph seen rest)
        → (find_installed_keg name ≡ ok false → AllServed graph seen (name ∷ rest))
        → AllServed graph seen (if not installed then name ∷ rest else rest)
    AllServed-choice graph seen rest name true i there missing = there i
    AllServed-choice graph seen rest name false i there missing = missing i

    filter_pending_formulae-AllServed :
        (graph : Assoc Formula) (seen seen' order : List Text) {pending : List Text}
        → IsOrdered graph seen order
        → ((b : Text) → In b seen → IsServed seen' b)
        → filter_pending_formulae layout host_tag xcode find_installed_keg (λ _. false) order
          ≡ ok pending
        → AllServed graph seen' pending
    unfolding filter_pending_formulae
    filter_pending_formulae-AllServed graph seen seen' [] o s e =
        subst (AllServed graph seen') (ok_eq e) tt
    filter_pending_formulae-AllServed graph seen seen' (name ∷ order) o s e =
        let (installed, e', i) = ok_of_bind (find_installed_keg name) _ e in
        let (rest, e'', r) =
          ok_of_bind
            (filter_pending_formulae layout host_tag xcode find_installed_keg (λ _. false) order) _
            e' in
        subst (AllServed graph seen') (ok_eq e'') (
          AllServed-choice graph seen' rest name installed i
            (λ t.
              filter_pending_formulae-AllServed graph (name ∷ seen) seen' order o.1
                (λ b h. elim h [ inl q ↦ inl (rw q t) | inr k ↦ s b k ]) r)
            (λ f. (
              f,
              (λ b d. s b (o.0 b d)),
              filter_pending_formulae-AllServed graph (name ∷ seen) (name ∷ seen') order o.1
                  (λ b h. elim h [
                    | inl q ↦ inr (inl q)
                    | inr k ↦ IsServed-cons seen' name b (s b k)
                  ])
                  r,
            )))

    IsServed-choice :
        (rest : List Text) (n name : Text) (installed : Bool)
        → find_installed_keg name ≡ ok installed
        → (n ≡ name) ⊎ IsServed rest n
        → IsServed (if not installed then name ∷ rest else rest) n
    IsServed-choice rest n name true i (inl q) = inl (rw q i)
    IsServed-choice rest n name false i (inl q) = inr (inl q)
    IsServed-choice rest n name true i (inr h) = h
    IsServed-choice rest n name false i (inr h) = IsServed-cons rest name n h

    -- A name of the order is installed, or pending.
    filter_pending_formulae-IsServed :
        (order : List Text) {pending : List Text} (n : Text)
        → filter_pending_formulae layout host_tag xcode find_installed_keg (λ _. false) order
          ≡ ok pending
        → In n order
        → IsServed pending n
    unfolding filter_pending_formulae
    filter_pending_formulae-IsServed [] n e h = absurd h
    filter_pending_formulae-IsServed (name ∷ order) n e h =
        let (installed, e', i) = ok_of_bind (find_installed_keg name) _ e in
        let (rest, e'', r) =
          ok_of_bind
            (filter_pending_formulae layout host_tag xcode find_installed_keg (λ _. false) order) _
            e' in
        subst (λ p. IsServed p n) (ok_eq e'')
          (IsServed-choice rest n name installed i
            (elim h [ inl q ↦ inl q | inr k ↦ inr (filter_pending_formulae-IsServed order n r k) ]))

-- Every cached formula is the one that the repository answers with for its name.
abbrev IsSourced : Sources → FormulaCache → Type 0
IsSourced sources cache =
    (n : Text) (f : Formula) → lookup n cache ≡ some f → resolve_formula sources n ≡ ok f

nothing_IsSourced : (sources : Sources) → IsSourced sources []
unfolding lookup
nothing_IsSourced sources n f e = ground (arith, e)

insert_formula-IsSourced :
    (sources : Sources) (cache : FormulaCache) (f : Formula)
    → resolve_formula sources f.name ≡ ok f
    → IsSourced sources cache
    → IsSourced sources (insert_formula f cache)
unfolding insert_formula
insert_formula-IsSourced sources cache f r c n g e = elim (Bool-cases (text_eq f.name n)) [
  | inl t ↦
      let same : f ≡ g = ground (arith, rw (lookup-insert f.name n f cache, t) at e) in
      rw (← same, ← (text_eq_iff f.name n).0 t) r
  | inr t ↦ c n g (rw (lookup-insert f.name n f cache, t) at e)
]

module _ (layout : Layout) (host_tag : HostTag) (xcode : Option ℕ) (sources : Sources)
    (faithful : IsFaithful sources) where
  fetch_from-IsSourced :
      (fuel : ℕ) (queue : List Text) (cache : FormulaCache) {result : FormulaCache}
      → fetch_from layout host_tag xcode sources fuel queue cache ≡ ok result
      → IsSourced sources cache
      → IsSourced sources result
  unfolding fetch_from
  fetch_from-IsSourced zero queue cache h c = ground arith
  fetch_from-IsSourced (suc fuel) [] cache h c = subst (IsSourced sources) (ok_eq h) c
  fetch_from-IsSourced (suc fuel) (name ∷ queue) cache h c =
      elim (Option-cases (lookup name cache)) [
        | inr (f, e) ↦ fetch_from-IsSourced fuel queue cache (rw (e, fetch_from) at h) c
        | inl e ↦
            let (f, h', r) =
              ok_of_bind (resolve_formula sources name) _ (rw (e, fetch_from) at h) in
            let (deps, h'', p) = ok_of_bind (plan_dependencies layout host_tag xcode f) _ h' in
            fetch_from-IsSourced fuel (push_missing cache queue deps) (insert_formula f cache) h''
              (insert_formula-IsSourced sources cache f (rw (faithful name f r) r) c)
      ]

  module _ (find_installed_keg : Text → Result BrewdockError Bool) where
    -- The entry installs the repository's formula of its name, which is not installed, by the method
    -- for it, and what that needs is installed or among the names seen.
    pub record IsReady (seen : List Text) (entry : PlanEntry) : Type 0 where
      pub formula : Formula
      pub resolved : resolve_formula sources entry.name ≡ ok formula
      pub method : resolve_install_method layout host_tag xcode formula ≡ ok entry.method
      pub pending : find_installed_keg entry.name ≡ ok false
      pub served :
          (d : Text) → In d (needed_by formula entry.method) → IsServed find_installed_keg seen d

    abbrev pub AllReady : List Text → List PlanEntry → Type 0
    AllReady seen [] = Unit
    AllReady seen (entry ∷ plan) = IsReady seen entry × AllReady (entry.name ∷ seen) plan

    module _ (fuel : ℕ) (cache : FormulaCache) where
      plan_each-AllReady :
          (graph : Assoc Formula) (seen names : List Text) {plan : List PlanEntry}
          → build_install_graph layout host_tag xcode cache ≡ ok graph
          → IsSourced sources cache
          → AllServed find_installed_keg graph seen names
          → plan_each layout host_tag xcode sources find_installed_keg fuel cache names ≡ ok plan
          → AllReady seen plan
      unfolding plan_each plan_dependencies
      plan_each-AllReady graph seen [] g c s e = subst (AllReady seen) (ok_eq e) tt
      plan_each-AllReady graph seen (name ∷ names) g c (free, deps, s) e =
          elim (Option-cases (lookup name cache)) [
            | inl l ↦ absurd (ground (arith, rw (l, plan_each) at e))
            | inr (f, l) ↦
                let (method, e', m) =
                  ok_of_bind (resolve_install_method layout host_tag xcode f) _
                    (rw (l, plan_each) at e) in
                let (rest, e'', r) =
                  ok_of_bind
                    (plan_each layout host_tag xcode sources find_installed_keg fuel cache names) _
                    e' in
                let (node, found) =
                  build_install_graph-IsFetched layout host_tag xcode cache graph name g (f, l) in
                let planned =
                  build_install_graph-IsPlanned layout host_tag xcode cache graph name node g
                    found in
                let same : planned.cached ≡ f = ground (arith, planned.found, l) in
                let needed : needed_by f method ≡ node.dependencies =
                  ok_eq (rw (same, plan_dependencies, m) at planned.planned) in
                subst (AllReady seen) (ok_eq e'') (
                  record {
                    formula = f;
                    resolved = c name f l;
                    method = m;
                    pending = free;
                    served = λ d i.
                        deps d (record { formula = node; found = found; listed = rw needed at i });
                  },
                  plan_each-AllReady graph (name ∷ seen) names g c s r,
                )
          ]

      plan_each-In :
          (names : List Text) {plan : List PlanEntry} (n : Text)
          → plan_each layout host_tag xcode sources find_installed_keg fuel cache names ≡ ok plan
          → In n names
          → In n (map (λ (entry : PlanEntry). entry.name) plan)
      unfolding plan_each
      plan_each-In [] n e h = absurd h
      plan_each-In (name ∷ names) n e h = elim (Option-cases (lookup name cache)) [
        | inl l ↦ absurd (ground (arith, rw (l, plan_each) at e))
        | inr (f, l) ↦
            let (method, e', m) =
              ok_of_bind (resolve_install_method layout host_tag xcode f) _
                (rw (l, plan_each) at e) in
            let (rest, e'', r) =
              ok_of_bind
                (plan_each layout host_tag xcode sources find_installed_keg fuel cache names) _
                e' in
            subst (λ p. In n (map (λ (entry : PlanEntry). entry.name) p)) (ok_eq e'')
              (elim h [ inl q ↦ inl q | inr k ↦ inr (plan_each-In names n r k) ])
      ]

    -- A plan of an installation can be carried out in its order: each entry is the repository's formula of
    -- that name, not installed yet, with the method for it, and what it needs by that method is installed
    -- or planned before it. Each requested name is installed or in the plan. The repository answers with
    -- the formula that it is asked for.
    pub plan_install-AllReady :
        (fuel : ℕ) (names : List Text) {plan : List PlanEntry}
        → plan_install layout host_tag xcode sources find_installed_keg fuel names ≡ ok plan
        → AllReady [] plan
          × ((n : Text)
              → In n names
              → IsServed find_installed_keg (map (λ (entry : PlanEntry). entry.name) plan) n)
    unfolding plan_install resolve_install_list fetch_with_deps
    plan_install-AllReady fuel names e =
        let ((to_install, cache), e', l) =
          ok_of_bind
            (resolve_install_list layout host_tag xcode sources find_installed_keg fuel names) _
            e in
        let (fetched, l', f) =
          ok_of_bind (fetch_with_deps layout host_tag xcode sources fuel names) _ l in
        let (order, l'', o) =
          ok_of_bind (resolve_supported_install_order layout host_tag xcode fetched names) _ l' in
        let (pending, l''', p) =
          ok_of_bind
            (filter_pending_formulae layout host_tag xcode find_installed_keg (λ _. false) order) _
            l'' in
        let (graph, g, r) =
          resolve_supported_install_order-graph layout host_tag xcode fetched names o in
        let each : plan_each layout host_tag xcode sources find_installed_keg fuel fetched pending
            ≡ ok _ =
          ap (λ q. plan_each layout host_tag xcode sources find_installed_keg fuel q.1 q.0)
            (ok_eq l''')
          ∙ e' in
        (
          plan_each-AllReady fuel fetched graph [] pending g
              (fetch_from-IsSourced fuel names [] f (nothing_IsSourced sources))
              (filter_pending_formulae-AllServed find_installed_keg layout host_tag xcode graph []
                [] order (resolve_install_order-IsOrdered graph names r).0 (λ b h. absurd h) p)
              each,
          λ n i.
              elim (filter_pending_formulae-IsServed find_installed_keg layout host_tag xcode order
                n p ((resolve_install_order-mem_iff graph names r n).1 (start n i))) [
                  | inl t ↦ inl t
                  | inr h ↦ inr (plan_each-In fuel fetched pending n each h)
                ],
        )
