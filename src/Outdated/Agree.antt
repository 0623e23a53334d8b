-- ===== src/Outdated/Agree.antt =====
-- `plan_upgrade` (crates/core/src/orchestrate.rs, orchestrate/planning.rs) against `outdated`
-- (orchestrate/query.rs).
use brewdock.Base.{
  ℕ, ◌≡◌, refl, sym, ap, ◌∙◌, Bool, Option, List, [], ◌∷◌, arith, ok, err, ok_of_bind, Bool-cases,
  inl, inr, if◌then◌else◌,
}
use brewdock.Discover.{InstalledKeg}
use brewdock.Formula.{Formula}
use brewdock.Formula.Support.{check_supportability}
use brewdock.Layout.{Layout}
use brewdock.Plan.{formula_failure, Sources, resolve_formula, resolve_install_method, map_err}
use brewdock.Platform.{HostTag}
use brewdock.Upgrade.{is_outdated}
use brewdock.Outdated.{
  OutdatedEntry, UpgradeCandidate, UpgradePlanEntry, latest, build_outdated_entry, push_some,
  outdated_each, outdated, build_upgrade_candidate, only_viable, collect_each,
  collect_upgrade_candidates, plan_entry, plan_entries, plan_upgrade,
}

-- What the plan says of a formula, without the method.
abbrev pub reported : List UpgradePlanEntry → List OutdatedEntry
reported [] = []
reported (entry ∷ entries) =
    record {
      name = entry.name;
      current_version = entry.from_version;
      latest_version = entry.to_version;
    }
    ∷ reported entries

-- The kegs whose formula has a post-install program that can be run.
unfoldable pub viable_kegs : Sources → (Formula → Bool) → List InstalledKeg → List InstalledKeg
viable_kegs sources viable [] = []
viable_kegs sources viable (keg ∷ kegs) = elim (resolve_formula sources keg.name) [
  | err e ↦ viable_kegs sources viable kegs
  | ok formula ↦
      if viable formula
      then keg ∷ viable_kegs sources viable kegs
      else viable_kegs sources viable kegs
]

viable_kegs-ok :
    (sources : Sources) (viable : Formula → Bool) (keg : InstalledKeg) (kegs : List InstalledKeg)
    (formula : Formula)
    → resolve_formula sources keg.name ≡ ok formula
    → viable_kegs sources viable (keg ∷ kegs) ≡ (
        if viable formula
        then keg ∷ viable_kegs sources viable kegs
        else viable_kegs sources viable kegs)
unfolding viable_kegs
viable_kegs-ok sources viable keg kegs formula r = rw (r, viable_kegs) refl

outdated_each-cons :
    (sources : Sources) (keg : InstalledKeg) (kegs : List InstalledKeg) (formula : Formula)
    → resolve_formula sources keg.name ≡ ok formula
    → outdated_each sources (keg ∷ kegs)
      ≡ push_some (build_outdated_entry keg formula) (outdated_each sources kegs)
unfolding outdated_each
outdated_each-cons sources keg kegs formula r = rw (r, outdated_each) refl

module _ (layout : Layout) (host_tag : HostTag) (xcode : Option ℕ) (sources : Sources)
    (viable : Formula → Bool) where
  abbrev entries_of : List UpgradeCandidate → List OutdatedEntry
  entries_of candidates = reported (plan_entries layout host_tag xcode sources viable candidates)

  build_upgrade_candidate-entry :
      (keg : InstalledKeg) (formula : Formula) {candidate : Option UpgradeCandidate}
      (candidates : List UpgradeCandidate)
      → build_upgrade_candidate layout host_tag xcode keg formula ≡ ok candidate
      → entries_of
          (push_some (only_viable layout host_tag xcode sources viable candidate) candidates)
        ≡ (if viable formula
            then push_some (build_outdated_entry keg formula) (entries_of candidates)
            else entries_of candidates)
  unfolding build_upgrade_candidate only_viable push_some build_outdated_entry plan_entries
      plan_entry
  build_upgrade_candidate-entry keg formula {candidate} candidates e =
      let (checked, e', c) =
        ok_of_bind (map_err formula_failure (check_supportability formula host_tag)) _ e in
      let (method, e'', m) =
        ok_of_bind (resolve_install_method layout host_tag xcode formula) _ e' in
      let built = ap (λ r. elim r [ ok a ↦ a | err _ ↦ candidate ]) e'' in
      rw (sym built) (elim (Bool-cases (is_outdated keg.pkg_version (latest formula))) [
        | inl o ↦ elim (Bool-cases (viable formula)) [
          | inl v ↦ rw (o, v) refl
          | inr v ↦ rw (o, v) refl
        ]
        | inr o ↦ elim (Bool-cases (viable formula)) [
          | inl v ↦ rw (o, v) refl
          | inr v ↦ rw (o, v) refl
        ]
      ])

  outdated_each-ok :
      (keg : InstalledKeg) (kegs : List InstalledKeg) (formula : Formula)
      → resolve_formula sources keg.name ≡ ok formula
      → outdated_each sources (viable_kegs sources viable (keg ∷ kegs)) ≡ (
          if viable formula
          then push_some
              (build_outdated_entry keg formula)
              (outdated_each sources (viable_kegs sources viable kegs))
          else outdated_each sources (viable_kegs sources viable kegs))
  outdated_each-ok keg kegs formula r =
      rw (viable_kegs-ok sources viable keg kegs formula r) (elim (Bool-cases (viable formula)) [
        | inl v ↦ rw v (outdated_each-cons sources keg (viable_kegs sources viable kegs) formula r)
        | inr v ↦ rw v refl
      ])

  no_kegs : entries_of [] ≡ outdated_each sources (viable_kegs sources viable [])
  unfolding outdated_each viable_kegs plan_entries
  no_kegs = refl

  collect_each-outdated :
      (kegs : List InstalledKeg) {candidates : List UpgradeCandidate}
      → collect_each layout host_tag xcode sources viable kegs ≡ ok candidates
      → entries_of candidates ≡ outdated_each sources (viable_kegs sources viable kegs)
  unfolding collect_each
  collect_each-outdated [] {candidates = []} e = no_kegs
  collect_each-outdated [] {candidates = candidate ∷ candidates} e = absurd (ground arith)
  collect_each-outdated (keg ∷ kegs) {candidates} e =
      let (formula, e', r) = ok_of_bind (resolve_formula sources keg.name) _ e in
      let (candidate, e'', c) =
        ok_of_bind (build_upgrade_candidate layout host_tag xcode keg formula) _ e' in
      let (rest, e''', l) =
        ok_of_bind (collect_each layout host_tag xcode sources viable kegs) _ e'' in
      let built = ap (λ r. elim r [ ok a ↦ a | err _ ↦ candidates ]) e''' in
      rw (sym built) (
        build_upgrade_candidate-entry keg formula rest c
        ∙ ap
            (λ entries.
              if viable formula
              then push_some (build_outdated_entry keg formula) entries
              else entries)
            (collect_each-outdated kegs l)
        ∙ sym (outdated_each-ok keg kegs formula r))

  -- Where plan_upgrade succeeds for the installed kegs, it lists, with the same versions and in the
  -- same order, what outdated reports for those of the kegs whose formula has a post-install program
  -- that can be run.
  pub plan_upgrade-outdated :
      (kegs : List InstalledKeg) {plan : List UpgradePlanEntry}
      → plan_upgrade layout host_tag xcode sources viable (ok kegs) ≡ ok plan
      → outdated sources (ok (viable_kegs sources viable kegs)) ≡ ok (reported plan)
  unfolding plan_upgrade outdated collect_upgrade_candidates
  plan_upgrade-outdated kegs {plan} e =
      let (candidates, e', c) =
        ok_of_bind (collect_each layout host_tag xcode sources viable kegs) _ e in
      ap ok (sym (collect_each-outdated kegs c))
      ∙ ap (λ r. elim r [ ok p ↦ ok (reported p) | err x ↦ err x ]) e'
