-- ===== src/Plan/Method.antt =====
-- How a formula is installed (crates/core/src/orchestrate.rs: `resolve_install_method`).
use brewdock.Base.{
  Result-cases, ℕ, ◌≡◌, refl, sym, ◌∙◌, ap, ◌⊎◌, inl, inr, true, false, Option, none, some, ok, err,
  arith, Bool-cases, Option-cases,
}
use brewdock.Formula.{
  Formula, unsupported, UnsupportedReason, incompatible_cellar, no_bottle_for_tag,
}
use brewdock.Formula.Cellar.{is_compatible}
use brewdock.Formula.Select.{SelectedBottle, select_bottle}
use brewdock.Formula.Support.{check_supportability}
use brewdock.Layout.{Layout, cellar}
use brewdock.Platform.{HostTag}
use brewdock.Source.{SourceBuildError, SourceBuildPlan, build_source_plan}
use brewdock.Plan.{
  BrewdockError, formula_failure, source_build, from_bottle, from_source, map_err, need_source,
  source_fallback, resolve_install_method, plan_dependencies,
}

-- The errors of planning one formula.
abbrev pub IsPlanFailure : BrewdockError → Type 0
IsPlanFailure (formula_failure (unsupported _ _)) = Unit
IsPlanFailure (source_build _) = Unit
IsPlanFailure _ = ⊥

module _ (layout : Layout) (host_tag : HostTag) (xcode : Option ℕ) where
  -- The fallback reports the given reason, or what the source plan lacks.
  source_fallback-cases :
      (f : Formula) (reason : UnsupportedReason)
      → ((f.urls.stable ≡ none)
          × (source_fallback layout host_tag xcode f reason
              ≡ err (formula_failure (unsupported f.name reason))))
        ⊎ (((e : SourceBuildError) × (build_source_plan layout host_tag xcode f ≡ err e)
              × (source_fallback layout host_tag xcode f reason ≡ err (source_build e)))
            ⊎ ((p : SourceBuildPlan) × (build_source_plan layout host_tag xcode f ≡ ok p)
                × (source_fallback layout host_tag xcode f reason ≡ ok (from_source p))))
  unfolding source_fallback need_source map_err
  source_fallback-cases f reason = elim (Option-cases f.urls.stable) [
    | inl s ↦ inl (s, rw s)
    | inr (url, s) ↦ elim (Result-cases (build_source_plan layout host_tag xcode f)) [
      | inl (e, p) ↦ inr (inl (e, p, rw (p, s)))
      | inr (plan, p) ↦ inr (inr (plan, p, rw (p, s)))
    ]
  ]

  source_fallback-failure :
      (f : Formula) (reason : UnsupportedReason) (e : BrewdockError)
      → source_fallback layout host_tag xcode f reason ≡ err e
      → IsPlanFailure e
  source_fallback-failure f reason e h = elim (source_fallback-cases f reason) [
    | inl (s, p) ↦
        let same : formula_failure (unsupported f.name reason) ≡ e = ground (arith, p, h) in
        rw (← same) tt
    | inr (inl (b, _, p)) ↦ let same : source_build b ≡ e = ground (arith, p, h) in rw (← same) tt
    | inr (inr (plan, b, p)) ↦ absurd (ground (arith, p, h))
  ]

  -- A method, for a bottle that fits and for one that does not, or is not there.
  method-bottle :
      (f : Formula) (b : SelectedBottle)
      → select_bottle f host_tag ≡ some b
      → is_compatible b.cellar (cellar layout) ≡ true
      → resolve_install_method layout host_tag xcode f ≡ ok (from_bottle b)
  unfolding resolve_install_method
  method-bottle f b s c = rw (s, resolve_install_method, c)

  method-fallback :
      (f : Formula)
      → ((b : SelectedBottle) × (select_bottle f host_tag ≡ some b)
          × (is_compatible b.cellar (cellar layout) ≡ true))
        ⊎ ((reason : UnsupportedReason) × (((select_bottle f host_tag ≡ none)
                × (reason ≡ no_bottle_for_tag host_tag))
              ⊎ ((b : SelectedBottle) × (select_bottle f host_tag ≡ some b)
                  × (is_compatible b.cellar (cellar layout) ≡ false)
                  × (reason ≡ incompatible_cellar b.cellar)))
            × (resolve_install_method layout host_tag xcode f
                ≡ source_fallback layout host_tag xcode f reason))
  unfolding resolve_install_method
  method-fallback f = elim (Option-cases (select_bottle f host_tag)) [
    | inl s ↦ inr (no_bottle_for_tag host_tag, inl (s, refl), rw (s, resolve_install_method))
    | inr (b, s) ↦ elim (Bool-cases (is_compatible b.cellar (cellar layout))) [
      | inl c ↦ inl (b, s, c)
      | inr c ↦
          inr (incompatible_cellar b.cellar, inr (b, s, c, refl), rw (s, resolve_install_method, c))
    ]
  ]

  pub resolve_install_method-failure :
      (f : Formula) (e : BrewdockError)
      → resolve_install_method layout host_tag xcode f ≡ err e
      → IsPlanFailure e
  resolve_install_method-failure f e h = elim (method-fallback f) [
    | inl (b, s, c) ↦ absurd (ground (arith, method-bottle f b s c, h))
    | inr (reason, why, p) ↦ source_fallback-failure f reason e (sym p ∙ h)
  ]

  pub plan_dependencies-failure :
      (f : Formula) (e : BrewdockError)
      → plan_dependencies layout host_tag xcode f ≡ err e
      → IsPlanFailure e
  unfolding plan_dependencies
  plan_dependencies-failure f e h =
      elim (Result-cases (resolve_install_method layout host_tag xcode f)) [
        | inl (b, p) ↦
            let same : b ≡ e = ground (arith, rw (p, plan_dependencies) at h) in
            rw (← same) (resolve_install_method-failure f b p)
        | inr (m, p) ↦ absurd (ground (arith, rw (p, plan_dependencies) at h))
      ]

  -- Where the fallback is taken, the selected bottle does not allow the cellar.
  no_bottle-of :
      (f : Formula) (reason : UnsupportedReason)
      → ((select_bottle f host_tag ≡ none) × (reason ≡ no_bottle_for_tag host_tag))
        ⊎ ((b : SelectedBottle) × (select_bottle f host_tag ≡ some b)
            × (is_compatible b.cellar (cellar layout) ≡ false)
            × (reason ≡ incompatible_cellar b.cellar))
      → (b : SelectedBottle) → select_bottle f host_tag ≡ some b
      → is_compatible b.cellar (cellar layout) ≡ false
  no_bottle-of f reason (inl (s, r)) b t = absurd (ground (arith, s, t))
  no_bottle-of f reason (inr (b', s, c, r)) b t =
      let same : b' ≡ b = ground (arith, s, t) in rw (← same) c

  check_supportability-source :
      (f : Formula)
      → check_supportability f host_tag ≡ ok tt
      → f.urls.stable ≡ none
      → (b : SelectedBottle) × (select_bottle f host_tag ≡ some b)
  unfolding check_supportability
  check_supportability-source f h n = elim (Option-cases (select_bottle f host_tag)) [
    | inl s ↦ absurd (ground (arith, rw (s, n, check_supportability) at h))
    | inr found ↦ found
  ]

  -- Planning a formula that has passed `check_supportability` fails in two ways only: there is no source
  -- and the selected bottle, which there is, does not allow the cellar of the layout, or no bottle that
  -- was selected allows it and the source plan fails with the error that is reported.
  pub resolve_install_method-supported :
      (f : Formula) {e : BrewdockError}
      → check_supportability f host_tag ≡ ok tt
      → resolve_install_method layout host_tag xcode f ≡ err e
      → ((b : SelectedBottle) × (select_bottle f host_tag ≡ some b)
          × (is_compatible b.cellar (cellar layout) ≡ false)
          × (f.urls.stable ≡ none)
          × (e ≡ formula_failure (unsupported f.name (incompatible_cellar b.cellar))))
        ⊎ ((lack : SourceBuildError) × (build_source_plan layout host_tag xcode f ≡ err lack)
            × (e ≡ source_build lack)
            × ((b : SelectedBottle)
                → select_bottle f host_tag ≡ some b
                → is_compatible b.cellar (cellar layout) ≡ false))
  resolve_install_method-supported f {e} h k = elim (method-fallback f) [
    | inl (b, s, c) ↦ absurd (ground (arith, method-bottle f b s c, k))
    | inr (why, given, p) ↦ elim (source_fallback-cases f why) [
      | inl (n, q) ↦ elim given [
        | inl (s, r) ↦
            let (b, s') = check_supportability-source f h n in absurd (ground (arith, s, s'))
        | inr (b, s, c, r) ↦
            let same : formula_failure (unsupported f.name why) ≡ e = ground (arith, p, q, k) in
            inl (b, s, c, n, sym same ∙ ap (λ w. formula_failure (unsupported f.name w)) r)
      ]
      | inr (inl (lack, t, q)) ↦
          let same : source_build lack ≡ e = ground (arith, p, q, k) in
          inr (lack, t, sym same, no_bottle-of f why given)
      | inr (inr (plan, _, q)) ↦ absurd (ground (arith, p, q, k))
    ]
  ]
