-- ===== src/Rollback/Collect.antt =====
-- Which directories are saved for a post-install program (crates/cellar/src/post_install/rollback.rs:
-- `collect_statement_roots`, `collect_rollback_roots`).
pub mod Saved
pub mod Writes
mod Tests
use brewdock.Base.{
  Bool, true, false, Option, none, some, List, [], ◌∷◌, ◌++◌, Text, Result, ok, err, if◌then◌else◌,
}
use brewdock.Paths.{normal, FilePath, path_eq}
use brewdock.PostInstall.{
  PathExpr, PostInstallContext, CellarError, resolve_allowed_path, file_name,
}
use brewdock.PostInstall.Statement
use brewdock.PostInstall.Statement.{Argument, Statement, Block, end, then_}
use brewdock.Rollback.{rollback_root, collapse_nested_roots}

-- `BTreeSet<PathBuf>` as the list of its items, which are sorted where they are read.
unfoldable pub set_contains : FilePath → List FilePath → Bool
set_contains p [] = false
set_contains p (q ∷ qs) = let later = set_contains p qs in if path_eq q p then true else later

unfoldable pub set_insert : FilePath → List FilePath → List FilePath
set_insert root roots = if set_contains root roots then roots else root ∷ roots

-- What is inserted for a path that was resolved.
unfoldable pub insert_root : PostInstallContext → FilePath → List FilePath → List FilePath
insert_root context path roots = elim (rollback_root path context) [
  | none ↦ roots
  | some root ↦ set_insert root roots
]

unfoldable pub insert_path : PostInstallContext → PathExpr → List FilePath → List FilePath
insert_path context expr roots = elim (resolve_allowed_path context expr) [
  | err _ ↦ roots
  | ok path ↦ insert_root context path roots
]

-- `install_symlink_path`: the link in the directory that has the target's name.
unfoldable pub install_symlink_path : FilePath → FilePath → Option FilePath
install_symlink_path link_dir target = elim (file_name target) [
  | none ↦ none
  | some name ↦ some (link_dir ++ normal name ∷ [])
]

unfoldable pub insert_link :
    PostInstallContext → FilePath → FilePath → List FilePath → List FilePath
insert_link context link_dir target roots = elim (install_symlink_path link_dir target) [
  | none ↦ roots
  | some link ↦ insert_root context link roots
]

unfoldable pub insert_symlink :
    PostInstallContext → PathExpr → PathExpr → List FilePath → List FilePath
insert_symlink context link_dir target roots = elim (resolve_allowed_path context link_dir) [
  | err _ ↦ roots
  | ok dir ↦ elim (resolve_allowed_path context target) [
    | err _ ↦ roots
    | ok file ↦ insert_link context dir file roots
  ]
]

unfoldable pub insert_arguments : PostInstallContext → List Argument → List FilePath → List FilePath
insert_arguments context [] roots = roots
insert_arguments context (Statement.path expr ∷ arguments) roots =
    insert_arguments context arguments (insert_path context expr roots)
insert_arguments context (Statement.string _ ∷ arguments) roots =
    insert_arguments context arguments roots

abbrev pub skip_one : List Argument → List Argument
skip_one [] = []
skip_one (_ ∷ arguments) = arguments

-- The path that a statement of one of the groups in the `match` writes to; none for the others.
unfoldable pub target : Statement → Option PathExpr
target (Statement.copy from to) = some to
target (Statement.recursive_copy from to) = some to
target (Statement.copy_children from to) = some to
target (Statement.write_file to content) = some to
target (Statement.glob_remove to pattern) = some to
target (Statement.glob_chmod to pattern mode) = some to
target (Statement.glob_symlink from pattern to) = some to
target (Statement.force_symlink file to) = some to
target (Statement.install to from) = some to
target (Statement.move from to) = some to
target (Statement.move_children from to) = some to
target (Statement.chmod to mode) = some to
target (Statement.mkpath to) = some to
target (Statement.remove_if_exists to) = some to
target (Statement.mirror_tree source to prune_names) = some to
target (Statement.children_symlink source to suffix) = some to
target _ = none

unfoldable pub insert_target : PostInstallContext → Option PathExpr → List FilePath → List FilePath
insert_target context none roots = roots
insert_target context (some expr) roots = insert_path context expr roots

unfoldable mutual
  pub collect_statement : PostInstallContext → Statement → List FilePath → List FilePath
  collect_statement context (Statement.install_symlink link_dir file) roots =
      insert_symlink context link_dir file roots
  collect_statement context (Statement.system arguments) roots =
      insert_arguments context (skip_one arguments) roots
  collect_statement context (Statement.if_path condition kind then_branch) roots =
      collect_statement_roots context then_branch roots
  collect_statement context (Statement.if_env variable negate then_branch) roots =
      collect_statement_roots context then_branch roots
  collect_statement context statement roots = insert_target context (target statement) roots

  pub collect_statement_roots : PostInstallContext → Block → List FilePath → List FilePath
  collect_statement_roots context end roots = roots
  collect_statement_roots context (then_ statement statements) roots =
      collect_statement_roots context statements (collect_statement context statement roots)

unfoldable pub collect_rollback_roots : Block → PostInstallContext → List FilePath
collect_rollback_roots program context =
    collapse_nested_roots (collect_statement_roots context program [])
