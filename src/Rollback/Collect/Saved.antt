-- ===== src/Rollback/Collect/Saved.antt =====
-- What a post-install program writes to is saved (crates/cellar/src/post_install/rollback.rs).
use brewdock.Base.{
  Result-cases, inl, inr, Option, none, some, List, [], ◌∷◌, Bool-cases, Option-cases,
}
use brewdock.Base.Lists.{In}
use brewdock.Paths.{FilePath}
use brewdock.PostInstall.{PathExpr, PostInstallContext, resolve_allowed_path}
use brewdock.PostInstall.Statement
use brewdock.PostInstall.Statement.{Argument, Statement, Block, end, then_}
use brewdock.Rollback.{rollback_root}
use brewdock.Rollback.Collect.{
  set_contains, set_insert, insert_root, insert_path, install_symlink_path, insert_link,
  insert_symlink, insert_arguments, skip_one, target, insert_target, collect_statement,
  collect_statement_roots,
}
use brewdock.Rollback.Collect.Writes.{Writes}

-- The roots that are there stay there.
abbrev Grows : (List FilePath → List FilePath) → Type 0
Grows f = (roots : List FilePath) (r : FilePath) → In r roots → In r (f roots)

set_insert-Grows : (root : FilePath) → Grows (set_insert root)
unfolding set_insert
set_insert-Grows root roots r h = elim (Bool-cases (set_contains root roots)) [
  | inl c ↦ rw (set_insert, c) h
  | inr c ↦ rw (set_insert, c) (inr h)
]

module _ (context : PostInstallContext) where
  insert_root-Grows : (p : FilePath) → Grows (insert_root context p)
  unfolding insert_root
  insert_root-Grows p roots r h = elim (Option-cases (rollback_root p context)) [
    | inl e ↦ rw (insert_root, e) h
    | inr (root, e) ↦ rw (insert_root, e) (set_insert-Grows root roots r h)
  ]

  insert_path-Grows : (e : PathExpr) → Grows (insert_path context e)
  unfolding insert_path
  insert_path-Grows e roots r h = elim (Result-cases (resolve_allowed_path context e)) [
    | inl (b, q) ↦ rw (insert_path, q) h
    | inr (p, q) ↦ rw (insert_path, q) (insert_root-Grows p roots r h)
  ]

  insert_link-Grows : (dir file : FilePath) → Grows (insert_link context dir file)
  unfolding insert_link
  insert_link-Grows dir file roots r h = elim (Option-cases (install_symlink_path dir file)) [
    | inl e ↦ rw (insert_link, e) h
    | inr (link, e) ↦ rw (insert_link, e) (insert_root-Grows link roots r h)
  ]

  insert_symlink-Grows : (dir file : PathExpr) → Grows (insert_symlink context dir file)
  unfolding insert_symlink
  insert_symlink-Grows dir file roots r h = elim (Result-cases (resolve_allowed_path context dir)) [
    | inl (b, q) ↦ rw (insert_symlink, q) h
    | inr (p, q) ↦ elim (Result-cases (resolve_allowed_path context file)) [
      | inl (b, t) ↦ rw (insert_symlink, q, t) h
      | inr (f, t) ↦ rw (insert_symlink, q, t) (insert_link-Grows p f roots r h)
    ]
  ]

  insert_arguments-Grows : (arguments : List Argument) → Grows (insert_arguments context arguments)
  unfolding insert_arguments
  insert_arguments-Grows [] roots r h = h
  insert_arguments-Grows (Statement.path e ∷ arguments) roots r h =
      insert_arguments-Grows arguments (insert_path context e roots) r
        (insert_path-Grows e roots r h)
  insert_arguments-Grows (Statement.string _ ∷ arguments) roots r h =
      insert_arguments-Grows arguments roots r h

  insert_target-Grows : (t : Option PathExpr) → Grows (insert_target context t)
  unfolding insert_target
  insert_target-Grows none roots r h = h
  insert_target-Grows (some e) roots r h = insert_path-Grows e roots r h

  mutual
    unfolding collect_statement

    collect_statement-Grows : (s : Statement) → Grows (collect_statement context s)
    collect_statement-Grows (Statement.install_symlink dir file) roots r h =
        insert_symlink-Grows dir file roots r h
    collect_statement-Grows (Statement.system arguments) roots r h =
        insert_arguments-Grows (skip_one arguments) roots r h
    collect_statement-Grows (Statement.if_path condition kind b) roots r h =
        collect_statement_roots-Grows b roots r h
    collect_statement-Grows (Statement.if_env variable negate b) roots r h =
        collect_statement_roots-Grows b roots r h
    collect_statement-Grows s roots r h = insert_target-Grows (target s) roots r h

    collect_statement_roots-Grows : (b : Block) → Grows (collect_statement_roots context b)
    collect_statement_roots-Grows end roots r h = h
    collect_statement_roots-Grows (then_ s b) roots r h =
        collect_statement_roots-Grows b (collect_statement context s roots) r
          (collect_statement-Grows s roots r h)
