-- ===== src/Execute/Protocol.antt =====
-- The calls of `finalize_with_keg` (crates/core/src/orchestrate/execution.rs) for one formula: what is
-- committed, and what is undone.
use brewdock.Base.{
  ◌≡◌, refl, ◌⊎◌, inl, inr, Bool, true, List, [], ◌∷◌, Text, arith, Result, ok, err, Result-cases,
  Bool-cases,
}
use brewdock.Plan.{BrewdockError}
use brewdock.Execute.{
  Call, execute_post_install, install_bottle_etc_var, finalize_installed_formula, rollback_post,
  rollback_prefix, commit_post, commit_prefix, cleanup_failed_install, Logged, logged, prepend,
  choose, returned, attempt, ignore, with_post, finalize_with_keg,
}

abbrev pub IsMade : Call → List (Text × Call) → Type 0
IsMade made [] = ⊥
IsMade made (call ∷ calls) = (call.1 ≡ made) ⊎ IsMade made calls

module _ (answer : Text → Call → Result BrewdockError Unit) (has_post : Text → Bool)
    (name : Text) where
  -- Undoing what was done, and committing the post-install step, succeeds.
  abbrev pub IsUndoable : Type 0
  IsUndoable =
      (answer name rollback_post ≡ ok tt)
      × (answer name rollback_prefix ≡ ok tt)
      × (answer name commit_post ≡ ok tt)
      × (answer name cleanup_failed_install ≡ ok tt)

  -- Every transaction that was opened is rolled back, and the keg is removed.
  abbrev pub IsUndone : List (Text × Call) → Type 0
  IsUndone calls =
      IsMade cleanup_failed_install calls
      × ((answer name install_bottle_etc_var ≡ ok tt) → IsMade rollback_prefix calls)
      × (IsMade finalize_installed_formula calls
          → has_post name ≡ true
          → IsMade rollback_post calls)
      × (¬ IsMade commit_post calls)
      × (¬ IsMade commit_prefix calls)

  -- Every transaction is committed, and nothing is rolled back or removed.
  abbrev pub IsCommitted : List (Text × Call) → Type 0
  IsCommitted calls =
      IsMade commit_prefix calls
      × (has_post name ≡ true → IsMade commit_post calls)
      × (¬ IsMade rollback_post calls)
      × (¬ IsMade rollback_prefix calls)
      × (¬ IsMade cleanup_failed_install calls)

  abbrev run : Logged
  run = finalize_with_keg answer has_post name

  abbrev Outcome : Type 0
  Outcome =
      ((run.result ≡ ok tt) × IsCommitted run.calls)
      ⊎ ((e : BrewdockError) × (run.result ≡ err e) × IsUndone run.calls)

  install_failed : (e : BrewdockError) → answer name install_bottle_etc_var ≡ err e → Outcome
  unfolding finalize_with_keg choose ignore returned logged prepend
  install_failed e i = rw (i, finalize_with_keg) (inr (e, refl, ground (arith, i)))

  post_failed :
      (e : BrewdockError)
      → IsUndoable
      → answer name install_bottle_etc_var ≡ ok tt
      → answer name execute_post_install ≡ err e
      → Outcome
  unfolding finalize_with_keg choose ignore attempt returned logged prepend
  post_failed e u i p = rw (i, finalize_with_keg) (rw (p, u.3) (inr (e, refl, ground arith)))

  finalize_failed :
      (e : BrewdockError)
      → IsUndoable
      → answer name install_bottle_etc_var ≡ ok tt
      → answer name execute_post_install ≡ ok tt
      → answer name finalize_installed_formula ≡ err e
      → Outcome
  unfolding finalize_with_keg choose ignore attempt with_post returned logged prepend
  finalize_failed e u i p f = elim (Bool-cases (has_post name)) [
    | inl h ↦ rw (i, p, f, h, u.0, u.1, u.3) (inr (e, refl, ground arith))
    | inr h ↦ rw (i, p, f, h, u.1, u.3) (inr (e, refl, ground arith))
  ]

  all_done :
      IsUndoable
      → answer name install_bottle_etc_var ≡ ok tt
      → answer name execute_post_install ≡ ok tt
      → answer name finalize_installed_formula ≡ ok tt
      → Outcome
  unfolding finalize_with_keg choose ignore attempt with_post returned logged prepend
  all_done u i p f = elim (Bool-cases (has_post name)) [
    | inl h ↦ rw (i, p, f, h, u.2) (inl (refl, ground arith))
    | inr h ↦ rw (i, p, f, h) (inl (refl, ground arith))
  ]

  -- If undoing succeeds, as the commit of the post-install step does, then finalizing a keg either
  -- succeeds, every transaction being committed, the post-install step's own one too if it gave one,
  -- and nothing being rolled back or removed; or it fails, and then the keg is removed, the files
  -- installed from the bottle into the prefix are rolled back if they were installed, so is the
  -- post-install transaction if finalizing the formula was begun with one, and nothing is committed.
  pub finalize_with_keg_protocol :
      IsUndoable
      → (((finalize_with_keg answer has_post name).result ≡ ok tt)
          × IsCommitted (finalize_with_keg answer has_post name).calls)
        ⊎ ((e : BrewdockError) × ((finalize_with_keg answer has_post name).result ≡ err e)
            × IsUndone (finalize_with_keg answer has_post name).calls)
  finalize_with_keg_protocol u = elim (Result-cases (answer name install_bottle_etc_var)) [
    | inl (e, i) ↦ install_failed e i
    | inr (done, i) ↦ elim (Result-cases (answer name execute_post_install)) [
      | inl (e, p) ↦ post_failed e u i p
      | inr (ran, p) ↦ elim (Result-cases (answer name finalize_installed_formula)) [
        | inl (e, f) ↦ finalize_failed e u i p f
        | inr (linked, f) ↦ all_done u i p f
      ]
    ]
  ]
