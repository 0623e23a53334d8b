-- ===== src/Execute/Settled.antt =====
-- Whether finalizing one formula commits it (crates/core/src/orchestrate/execution.rs).
use brewdock.Base.{
  ◌≡◌, refl, ap, ◌∙◌, ◌⊎◌, inl, inr, Bool, List, [], ◌∷◌, ◌++◌, Text, Result, ok, err, Bool-cases,
}
use brewdock.Plan.{BrewdockError}
use brewdock.Execute.{
  AcquiredPayload, finalize_bottle, build_from_source, bottle, pending_source, FinalizeStep, Call,
  run_source_build, refresh_opt_link, execute_post_install, install_bottle_etc_var,
  finalize_installed_formula, rollback_post, rollback_prefix, commit_post, commit_prefix,
  cleanup_failed_install, Logged, logged, prepend, choose, returned, attempt, ignore, with_post,
  finalize_with_keg, build_source_to_keg, finalize_acquired,
}

-- The formulae whose bottle prefix is committed, in the order of the calls.
abbrev pub committed_by : Call → Text → List Text → List Text
committed_by commit_prefix name names = name ∷ names
committed_by _ name names = names

abbrev pub committed : List (Text × Call) → List Text
committed [] = []
committed ((name, made) ∷ calls) = committed_by made name (committed calls)

committed_by-append :
    (made : Call) (name : Text) (first second : List Text)
    → committed_by made name (first ++ second) ≡ committed_by made name first ++ second
committed_by-append commit_prefix name first second = refl
committed_by-append _ name first second = refl

pub committed-append :
    (first second : List (Text × Call))
    → committed (first ++ second) ≡ committed first ++ committed second
committed-append [] second = refl
committed-append ((name, made) ∷ first) second =
    ap (committed_by made name) (committed-append first second)
    ∙ committed_by-append made name (committed first) (committed second)

module _ (answer : Text → Call → Result BrewdockError Unit) (has_post : Text → Bool)
    (name : Text) where
  abbrev pub Fails : Logged → Type 0
  Fails run = (e : BrewdockError) × (run.result ≡ err e) × (committed run.calls ≡ [])

  abbrev pub Settles : Logged → Type 0
  Settles run = ((run.result ≡ ok tt) × (committed run.calls ≡ name ∷ [])) ⊎ Fails run

  abbrev IsSilent : Call → Type 0
  IsSilent made = (names : List Text) → committed_by made name names ≡ names

  choose-Settles :
      (made : Call) (failed : BrewdockError → Logged) (next : Logged)
      (r : Result BrewdockError Unit)
      → IsSilent made
      → ((e : BrewdockError) → Fails (failed e))
      → Settles next
      → Settles (choose (name, made) r failed next)
  unfolding choose prepend
  choose-Settles made failed next (ok x) s f (inl (o, c)) = inl (o, s (committed next.calls) ∙ c)
  choose-Settles made failed next (ok x) s f (inr (e, o, c)) =
      inr (e, o, s (committed next.calls) ∙ c)
  choose-Settles made failed next (err x) s f n =
      let (e, o, c) = f x in inr (e, o, s (committed (failed x).calls) ∙ c)

  returned-Fails : (e : BrewdockError) → Fails (returned e)
  unfolding returned logged
  returned-Fails e = (e, refl, refl)

  ignore-Fails :
      (made : Call) (next : Logged)
      → IsSilent made
      → Fails next
      → Fails (ignore answer has_post name made next)
  unfolding ignore prepend
  ignore-Fails made next s (e, o, c) = (e, o, s (committed next.calls) ∙ c)

  attempt-Settles :
      (made : Call) (next : Logged)
      → IsSilent made
      → Settles next
      → Settles (attempt answer has_post name made next)
  unfolding attempt
  attempt-Settles made next s n =
      choose-Settles made returned next (answer name made) s returned-Fails n

  choose-Fails :
      (made : Call) (failed : BrewdockError → Logged) (next : Logged)
      (r : Result BrewdockError Unit)
      → IsSilent made
      → ((e : BrewdockError) → Fails (failed e))
      → Fails next
      → Fails (choose (name, made) r failed next)
  unfolding choose prepend
  choose-Fails made failed next (ok x) s f (e, o, c) = (e, o, s (committed next.calls) ∙ c)
  choose-Fails made failed next (err x) s f n =
      let (e, o, c) = f x in (e, o, s (committed (failed x).calls) ∙ c)

  attempt-Fails :
      (made : Call) (next : Logged)
      → IsSilent made
      → Fails next
      → Fails (attempt answer has_post name made next)
  unfolding attempt
  attempt-Fails made next s n =
      choose-Fails made returned next (answer name made) s returned-Fails n

  with_post-Fails :
      (made : Call) (next : Logged)
      → IsSilent made
      → Fails next
      → Fails (with_post answer has_post name made next)
  unfolding with_post
  with_post-Fails made next s n = elim (Bool-cases (has_post name)) [
    | inl h ↦ rw (h, with_post) (attempt-Fails made next s n)
    | inr h ↦ rw (h, with_post) n
  ]

  with_post-Settles :
      (made : Call) (next : Logged)
      → IsSilent made
      → Settles next
      → Settles (with_post answer has_post name made next)
  unfolding with_post
  with_post-Settles made next s n = elim (Bool-cases (has_post name)) [
    | inl h ↦ rw (h, with_post) (attempt-Settles made next s n)
    | inr h ↦ rw (h, with_post) n
  ]

  last-Settles : Settles (ignore answer has_post name commit_prefix (logged (ok tt) []))
  unfolding ignore prepend logged
  last-Settles = inl (refl, refl)

  abbrev remove_keg : BrewdockError → Logged
  remove_keg e = attempt answer has_post name cleanup_failed_install (returned e)

  abbrev last : Logged
  last = ignore answer has_post name commit_prefix (logged (ok tt) [])

  abbrev undo_prefix : BrewdockError → Logged
  undo_prefix e = attempt answer has_post name rollback_prefix (remove_keg e)

  abbrev link_receipt : Logged
  link_receipt =
      choose (name, finalize_installed_formula) (answer name finalize_installed_formula)
        (λ e. with_post answer has_post name rollback_post (undo_prefix e))
        (with_post answer has_post name commit_post last)

  abbrev post_install : Logged
  post_install =
      choose (name, execute_post_install) (answer name execute_post_install)
        (λ e. ignore answer has_post name rollback_prefix (remove_keg e)) link_receipt

  cleanup_failed_install-IsSilent : IsSilent cleanup_failed_install
  cleanup_failed_install-IsSilent names = refl

  rollback_prefix-IsSilent : IsSilent rollback_prefix
  rollback_prefix-IsSilent names = refl

  remove_keg-Fails : (e : BrewdockError) → Fails (remove_keg e)
  remove_keg-Fails e =
      attempt-Fails cleanup_failed_install (returned e) cleanup_failed_install-IsSilent
        (returned-Fails e)

  undo_prefix-Fails : (e : BrewdockError) → Fails (undo_prefix e)
  undo_prefix-Fails e =
      attempt-Fails rollback_prefix (remove_keg e) rollback_prefix-IsSilent (remove_keg-Fails e)

  link_receipt-Settles : Settles link_receipt
  link_receipt-Settles =
      choose-Settles finalize_installed_formula
        (λ e. with_post answer has_post name rollback_post (undo_prefix e))
        (with_post answer has_post name commit_post last) (answer name finalize_installed_formula)
        (λ names. refl)
        (λ e. with_post-Fails rollback_post (undo_prefix e) (λ names. refl) (undo_prefix-Fails e))
        (with_post-Settles commit_post last (λ names. refl) last-Settles)

  post_install-Settles : Settles post_install
  post_install-Settles =
      choose-Settles execute_post_install
        (λ e. ignore answer has_post name rollback_prefix (remove_keg e)) link_receipt
        (answer name execute_post_install) (λ names. refl)
        (λ e.
          ignore-Fails rollback_prefix (remove_keg e) rollback_prefix-IsSilent (remove_keg-Fails e))
        link_receipt-Settles

  finalize_with_keg-Settles : Settles (finalize_with_keg answer has_post name)
  unfolding finalize_with_keg
  finalize_with_keg-Settles =
      choose-Settles install_bottle_etc_var
        (λ e. ignore answer has_post name cleanup_failed_install (returned e)) post_install
        (answer name install_bottle_etc_var) (λ names. refl)
        (λ e.
          ignore-Fails cleanup_failed_install (returned e) cleanup_failed_install-IsSilent
            (returned-Fails e))
        post_install-Settles

  build_source_to_keg-Settles :
      (next : Logged) → Settles next → Settles (build_source_to_keg answer has_post name next)
  unfolding build_source_to_keg
  build_source_to_keg-Settles next n =
      choose-Settles run_source_build
        (λ e. ignore answer has_post name cleanup_failed_install (returned e))
        (attempt answer has_post name refresh_opt_link next) (answer name run_source_build)
        (λ names. refl)
        (λ e.
          ignore-Fails cleanup_failed_install (returned e) cleanup_failed_install-IsSilent
            (returned-Fails e))
        (attempt-Settles refresh_opt_link next (λ names. refl) n)

  pub finalize_acquired-Settles :
      (step : FinalizeStep) (payload : AcquiredPayload)
      → Settles (finalize_acquired answer has_post name step payload)
  unfolding finalize_acquired
  finalize_acquired-Settles finalize_bottle (bottle keg_path) = finalize_with_keg-Settles
  finalize_acquired-Settles build_from_source (pending_source source_root plan) =
      build_source_to_keg-Settles (finalize_with_keg answer has_post name) finalize_with_keg-Settles
  finalize_acquired-Settles finalize_bottle (pending_source source_root plan) =
      inr (returned-Fails _)
  finalize_acquired-Settles build_from_source (bottle keg_path) = inr (returned-Fails _)
