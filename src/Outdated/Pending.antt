-- ===== src/Outdated/Pending.antt =====
-- The formulae that an upgrade installs (crates/core/src/orchestrate/planning.rs:
-- `resolve_upgrade_install_list`).
use brewdock.Base.{
  ok_eq, ℕ, ◌≡◌, refl, sym, ap, subst, ◌∙◌, ◌↔◌, ◌⊎◌, Bool, true, false, not, Option, List, [], ◌∷◌,
  Text, text_eq, text_eq_iff, text_eq_refl, arith, Result, ok, err, ok_of_bind, Bool-cases, inl,
  inr, if◌then◌else◌,
}
use brewdock.Base.Lists.{In}
use brewdock.Layout.{Layout}
use brewdock.Plan.{
  BrewdockError, Sources, FormulaCache, fetch_with_deps, resolve_supported_install_order,
  filter_pending_formulae,
}
use brewdock.Plan.Supported.{resolve_supported_install_order-graph}
use brewdock.Platform.{HostTag}
use brewdock.Resolve.Graph.{start}
use brewdock.Resolve.Order.{resolve_install_order-mem_iff}
use brewdock.Outdated.{UpgradeCandidate, resolve_upgrade_install_list}

module _ (layout : Layout) (host_tag : HostTag) (xcode : Option ℕ) where
  resolve_supported_install_order-requested :
      (cache : FormulaCache) (name : Text) {order : List Text}
      → resolve_supported_install_order layout host_tag xcode cache (name ∷ []) ≡ ok order
      → In name order
  resolve_supported_install_order-requested cache name e =
      let (graph, g, r) =
        resolve_supported_install_order-graph layout host_tag xcode cache (name ∷ []) e in
      (resolve_install_order-mem_iff graph (name ∷ []) r name).1 (start name (inl refl))

  module _ (find_installed_keg : Text → Result BrewdockError Bool) (always_keep : Text → Bool) where
    abbrev IsPending : Text → Type 0
    IsPending n = (always_keep n ≡ true) ⊎ (find_installed_keg n ≡ ok false)

    abbrev choice : Text → Bool → Result BrewdockError Bool
    choice name keep = if keep then ok false else find_installed_keg name

    IsPending-iff :
        (name : Text) (installed : Bool)
        → (if always_keep name then ok false else find_installed_keg name) ≡ ok installed
        → (installed ≡ false) ↔ IsPending name
    IsPending-iff name installed i = elim (Bool-cases (always_keep name)) [
      | inl k ↦ let kept = ok_eq (sym (ap (choice name) k) ∙ i) in (λ _. inl k, λ _. sym kept)
      | inr k ↦
          let found = sym (ap (choice name) k) ∙ i in
          (
            λ e. inr (found ∙ ap ok e),
            λ p. elim p [ inl t ↦ absurd (ground arith) | inr f ↦ ok_eq (sym found ∙ f) ],
          )
    ]

    In-IsPending :
        (name n : Text) (installed : Bool) (order rest : List Text)
        → (if always_keep name then ok false else find_installed_keg name) ≡ ok installed
        → In n rest ↔ (In n order × IsPending n)
        → In n (if not installed then name ∷ rest else rest) ↔ (In n (name ∷ order) × IsPending n)
    In-IsPending name n true order rest i h = (
      λ m. (inr (h.0 m).0, (h.0 m).1),
      λ m. elim m.0 [
        | inl e ↦ absurd (ground (arith, (IsPending-iff name true i).1 (subst IsPending e m.1)))
        | inr later ↦ h.1 (later, m.1)
      ],
    )
    In-IsPending name n false order rest i h = (
      λ m. elim m [
        | inl e ↦ (inl e, subst IsPending (sym e) ((IsPending-iff name false i).0 refl))
        | inr later ↦ (inr (h.0 later).0, (h.0 later).1)
      ],
      λ m. elim m.0 [ inl e ↦ inl e | inr later ↦ inr (h.1 (later, m.1)) ],
    )

    In-filter_pending_formulae :
        (order : List Text) {pending : List Text}
        → filter_pending_formulae layout host_tag xcode find_installed_keg always_keep order
          ≡ ok pending
        → (n : Text)
        → In n pending ↔ (In n order × ((always_keep n ≡ true) ⊎ (find_installed_keg n ≡ ok false)))
    unfolding filter_pending_formulae
    In-filter_pending_formulae [] {pending} e n = ground arith
    In-filter_pending_formulae (name ∷ order) {pending} e n =
        let (installed, e', i) =
          ok_of_bind (if always_keep name then ok false else find_installed_keg name) _ e in
        let (rest, e'', r) =
          ok_of_bind
            (filter_pending_formulae layout host_tag xcode find_installed_keg always_keep order) _
            e' in
        let built = ap (λ r. elim r [ ok a ↦ a | err _ ↦ pending ]) e'' in
        rw (sym built)
          (In-IsPending name n installed order rest i (In-filter_pending_formulae order r n))

  -- Where the list of an upgrade is resolved, it holds the upgraded formula itself, installed as it may
  -- be, and what else it holds is not installed.
  pub resolve_upgrade_install_list-candidate :
      (sources : Sources) (find_installed_keg : Text → Result BrewdockError Bool) (fuel : ℕ)
      (candidate : UpgradeCandidate) {pending : List Text} {cache : FormulaCache}
      → resolve_upgrade_install_list layout host_tag xcode sources find_installed_keg fuel candidate
        ≡ ok (pending, cache)
      → In candidate.name pending
        × ((n : Text) → In n pending → (n ≡ candidate.name) ⊎ (find_installed_keg n ≡ ok false))
  unfolding resolve_upgrade_install_list
  resolve_upgrade_install_list-candidate sources find_installed_keg fuel candidate {pending} e =
      let keep : Text → Bool = λ name. text_eq name candidate.name in
      let (fetched, e', f) =
        ok_of_bind (fetch_with_deps layout host_tag xcode sources fuel (candidate.name ∷ [])) _ e in
      let (order, e'', o) =
        ok_of_bind
          (resolve_supported_install_order layout host_tag xcode fetched (candidate.name ∷ [])) _
          e' in
      let (listed, e''', l) =
        ok_of_bind (filter_pending_formulae layout host_tag xcode find_installed_keg keep order) _
          e'' in
      let same : listed ≡ pending = ap (λ p. p.0) (ok_eq e''') in
      let members = In-filter_pending_formulae find_installed_keg keep order l in
      (
        subst (In candidate.name) same (
            (members candidate.name).1 (
              resolve_supported_install_order-requested fetched candidate.name o,
              inl (text_eq_refl candidate.name),
            )),
        λ n h. elim ((members n).0 (subst (In n) (sym same) h)).1 [
          | inl k ↦ inl ((text_eq_iff n candidate.name).0 k)
          | inr free ↦ inr free
        ],
      )
