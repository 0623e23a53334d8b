-- ===== src/Plan/Fetch.antt =====
-- What `fetch_with_deps` of crates/core/src/orchestrate.rs leaves in the cache.
use brewdock.Base.{
  Result-cases, ℕ, zero, suc, ◌≡◌, sym, ap, ◌∙◌, ◌⊎◌, inl, inr, Option, some, List, [], ◌∷◌, ◌++◌,
  Text, text_eq, text_eq_iff, text_eq_refl, lookup, insert, lookup-insert, ok, arith, Bool-cases,
  Option-cases,
}
use brewdock.Base.Lists.{In, In-append_left, In-snoc}
use brewdock.Formula.{Formula}
use brewdock.Layout.{Layout}
use brewdock.Platform.{HostTag}
use brewdock.Plan.{
  FormulaCache, insert_formula, push_missing, Sources, resolve_formula, plan_dependencies,
  fetch_from, fetch_with_deps,
}

-- The cache has a formula of this name.
abbrev pub IsFetched : FormulaCache → Text → Type 0
IsFetched cache n = (f : Formula) × (lookup n cache ≡ some f)

-- It has one, or one is to come.
abbrev pub IsAwaited : List Text → FormulaCache → Text → Type 0
IsAwaited queue cache n = IsFetched cache n ⊎ In n queue

-- The repository answers for a name with the formula of that name.
abbrev pub IsFaithful : Sources → Type 0
IsFaithful sources = (n : Text) (f : Formula) → resolve_formula sources n ≡ ok f → f.name ≡ n

pub IsFetched-insert :
    (key n : Text) (f : Formula) (cache : FormulaCache)
    → IsFetched cache n
    → IsFetched (insert key f cache) n
IsFetched-insert key n f cache (g, e) = elim (Bool-cases (text_eq key n)) [
  | inl t ↦ (f, lookup-insert key n f cache ∙ rw t)
  | inr t ↦ (g, lookup-insert key n f cache ∙ rw t e)
]

push_missing-queued :
    (cache : FormulaCache) (queue deps : List Text) (n : Text)
    → In n queue
    → In n (push_missing cache queue deps)
unfolding push_missing
push_missing-queued cache queue [] n h = h
push_missing-queued cache queue (d ∷ deps) n h = elim (Option-cases (lookup d cache)) [
  | inl e ↦
      rw e (push_missing-queued cache (queue ++ d ∷ []) deps n (In-append_left n queue (d ∷ []) h))
  | inr (f, e) ↦ rw e (push_missing-queued cache queue deps n h)
]

push_missing-missing :
    (cache : FormulaCache) (queue deps : List Text) (n : Text)
    → In n deps
    → IsAwaited (push_missing cache queue deps) cache n
unfolding push_missing
push_missing-missing cache queue [] n h = absurd h
push_missing-missing cache queue (d ∷ deps) n (inl p) = elim (Option-cases (lookup d cache)) [
  | inl e ↦ rw (e, p) (inr (push_missing-queued cache (queue ++ d ∷ []) deps d (In-snoc d queue)))
  | inr (f, e) ↦ inl (f, rw p e)
]
push_missing-missing cache queue (d ∷ deps) n (inr h) = elim (Option-cases (lookup d cache)) [
  | inl e ↦ rw e (push_missing-missing cache (queue ++ d ∷ []) deps n h)
  | inr (f, e) ↦ rw e (push_missing-missing cache queue deps n h)
]

module _ (layout : Layout) (host_tag : HostTag) (xcode : Option ℕ) where
  -- What a cached formula needs is cached, or to come.
  pub record IsClosed (queue : List Text) (cache : FormulaCache) : Type 0 where
    pub named : (n : Text) (f : Formula) → lookup n cache ≡ some f → f.name ≡ n
    pub deps :
        (n : Text) (f : Formula)
        → lookup n cache ≡ some f
        → (ds : List Text) × (plan_dependencies layout host_tag xcode f ≡ ok ds)
          × ((d : Text) → In d ds → IsAwaited queue cache d)

  nothing_IsClosed : (queue : List Text) → IsClosed queue []
  unfolding lookup
  nothing_IsClosed queue = record {
    named = λ n f e. ground arith;
    deps = λ n f e. absurd (ground arith);
  }

  skip_IsAwaited :
      (name : Text) (queue : List Text) (cache : FormulaCache) (n : Text)
      → IsFetched cache name
      → IsAwaited (name ∷ queue) cache n
      → IsAwaited queue cache n
  skip_IsAwaited name queue cache n there (inl h) = inl h
  skip_IsAwaited name queue cache n there (inr (inl e)) = inl (rw e there)
  skip_IsAwaited name queue cache n there (inr (inr h)) = inr h

  skip_IsClosed :
      (name : Text) (queue : List Text) (cache : FormulaCache)
      → IsFetched cache name
      → IsClosed (name ∷ queue) cache
      → IsClosed queue cache
  skip_IsClosed name queue cache there c = record {
    named = c.named;
    deps = λ n f e.
        let (ds, p, h) = c.deps n f e in
        (ds, p, λ d i. skip_IsAwaited name queue cache d there (h d i));
  }

  module _ (f : Formula) (queue ds : List Text) (cache : FormulaCache) where
    next_queue : List Text
    next_queue = push_missing cache queue ds

    fetched_now : lookup f.name (insert_formula f cache) ≡ some f
    unfolding insert_formula
    fetched_now = lookup-insert f.name f.name f cache ∙ rw (text_eq_refl f.name)

    grow_IsAwaited :
        (n : Text)
        → IsAwaited (f.name ∷ queue) cache n
        → IsAwaited (push_missing cache queue ds) (insert_formula f cache) n
    unfolding insert_formula
    grow_IsAwaited n (inl h) = inl (IsFetched-insert f.name n f cache h)
    grow_IsAwaited n (inr (inl e)) = inl (f, rw e fetched_now)
    grow_IsAwaited n (inr (inr h)) = inr (push_missing-queued cache queue ds n h)

    new_IsAwaited :
        (n : Text) → In n ds → IsAwaited (push_missing cache queue ds) (insert_formula f cache) n
    unfolding insert_formula
    new_IsAwaited n h = elim (push_missing-missing cache queue ds n h) [
      | inl there ↦ inl (IsFetched-insert f.name n f cache there)
      | inr queued ↦ inr queued
    ]

    lookup-grown :
        (n : Text) (g : Formula)
        → lookup n (insert_formula f cache) ≡ some g
        → ((f.name ≡ n) × (f ≡ g)) ⊎ (lookup n cache ≡ some g)
    unfolding insert_formula
    lookup-grown n g e = elim (Bool-cases (text_eq f.name n)) [
      | inl t ↦
          let here : some f ≡ some g = sym (lookup-insert f.name n f cache ∙ rw t) ∙ e in
          inl ((text_eq_iff f.name n).0 t, ground arith)
      | inr t ↦ inr (sym (lookup-insert f.name n f cache ∙ rw t) ∙ e)
    ]

    grow_IsClosed :
        plan_dependencies layout host_tag xcode f ≡ ok ds
        → IsClosed (f.name ∷ queue) cache
        → IsClosed (push_missing cache queue ds) (insert_formula f cache)
    grow_IsClosed p c = record {
      named = λ n g e. elim (lookup-grown n g e) [
        | inl (q, r) ↦ ap (λ h. h.name) (sym r) ∙ q
        | inr old ↦ c.named n g old
      ];
      deps = λ n g e. elim (lookup-grown n g e) [
        | inl (q, r) ↦ (ds, ap (plan_dependencies layout host_tag xcode) (sym r) ∙ p, new_IsAwaited)
        | inr old ↦ let (es, q, h) = c.deps n g old in (es, q, λ d i. grow_IsAwaited d (h d i))
      ];
    }

  module _ (sources : Sources) (faithful : IsFaithful sources) where
    fetch_from-IsClosed :
        (fuel : ℕ) (queue : List Text) (cache result : FormulaCache)
        → fetch_from layout host_tag xcode sources fuel queue cache ≡ ok result
        → IsClosed queue cache
        → IsClosed [] result × ((n : Text) → IsAwaited queue cache n → IsFetched result n)
    unfolding fetch_from
    fetch_from-IsClosed zero queue cache result h c = ground arith
    fetch_from-IsClosed (suc fuel) [] cache result h c =
        let same : cache ≡ result = ground arith in
        rw (← same) (c, λ n a. elim a [ inl there ↦ there | inr i ↦ absurd i ])
    fetch_from-IsClosed (suc fuel) (name ∷ queue) cache result h c =
        elim (Option-cases (lookup name cache)) [
          | inr (f, e) ↦
              let there : IsFetched cache name = (f, e) in
              let (closed, all) =
                fetch_from-IsClosed fuel queue cache result (rw (e, fetch_from) at h)
                  (skip_IsClosed name queue cache there c) in
              (closed, λ n a. all n (skip_IsAwaited name queue cache n there a))
          | inl e ↦ elim (Result-cases (resolve_formula sources name)) [
            | inl (failure, r) ↦ absurd (ground (arith, rw (e, r, fetch_from) at h))
            | inr (f, r) ↦ elim (Result-cases (plan_dependencies layout host_tag xcode f)) [
              | inl (failure, p) ↦ absurd (ground (arith, rw (e, r, p, fetch_from) at h))
              | inr (ds, p) ↦
                  let c' = rw (← faithful name f r) at c in
                  let (closed, all) =
                    fetch_from-IsClosed fuel (push_missing cache queue ds) (insert_formula f cache)
                      result (rw (e, r, p, fetch_from) at h)
                      (grow_IsClosed f queue ds cache p c') in
                  (
                    closed,
                    λ n a.
                        all n (grow_IsAwaited f queue ds cache n (rw (← faithful name f r) at a)),
                  )
            ]
          ]
        ]

    -- From a repository that answers with the formula that it is asked for, the cache that is fetched
    -- has a formula under each requested name and under each name that a cached formula depends on by
    -- the way it is to be installed, and each formula stands under its own name.
    pub fetch_with_deps-IsClosed :
        (fuel : ℕ) (names : List Text) {cache : FormulaCache}
        → fetch_with_deps layout host_tag xcode sources fuel names ≡ ok cache
        → IsClosed [] cache × ((n : Text) → In n names → IsFetched cache n)
    unfolding fetch_with_deps
    fetch_with_deps-IsClosed fuel names {cache} h =
        let (closed, all) = fetch_from-IsClosed fuel names [] cache h (nothing_IsClosed names) in
        (closed, λ n i. all n (inr i))
