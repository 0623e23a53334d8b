-- ===== src/Rollback/Collect/Writes.antt =====
-- What the statements of a post-install program change (crates/cellar/src/post_install/execute.rs), stated
-- without what rollback.rs collects.
use brewdock.Base.{
  ℕ, ◌≡◌, refl, inl, inr, false, some, List, [], ◌∷◌, ◌++◌, Bool, Text, ok, arith, Option-cases,
}
use brewdock.Base.Lists.{In}
use brewdock.Paths.{normal, FilePath, starts_with}
use brewdock.PostInstall.{
  PathExpr, SegmentPart, PostInstallContext, resolve_allowed_path, file_name,
}
use brewdock.PostInstall.Allowed.{
  IsWithin-child, IsWithin-saved, resolve_allowed_path-IsWithin, resolve_allowed_path-saved,
}
use brewdock.PostInstall.Statement
use brewdock.PostInstall.Statement.{Argument, Statement, Block, end, then_}
use brewdock.Rollback.{rollback_root}
use brewdock.Rollback.Root.{starts_with-child}
use brewdock.Rollback.Collect.{install_symlink_path, target}

-- What a statement creates, replaces, changes or removes, or does so below, when it is executed
-- (crates/cellar/src/post_install/execute.rs), by the path it names. The sources that `move`,
-- `move_children` and `install` take away are left out, and the link of `install_symlink`, which has no
-- path expression of its own.
pub data Changes : Statement → PathExpr → Type 0 where
  made : (path : PathExpr) → Changes (Statement.mkpath path) path
  copied : (from to : PathExpr) → Changes (Statement.copy from to) to
  removed : (path : PathExpr) → Changes (Statement.remove_if_exists path) path
  tree_copied : (from to : PathExpr) → Changes (Statement.recursive_copy from to) to
  children_copied :
      (from_dir to_dir : PathExpr) → Changes (Statement.copy_children from_dir to_dir) to_dir
  link_forced : (file link : PathExpr) → Changes (Statement.force_symlink file link) link
  written :
      (path : PathExpr) (content : List Statement.ContentPart)
      → Changes (Statement.write_file path content) path
  matches_removed :
      (dir : PathExpr) (pattern : Text) → Changes (Statement.glob_remove dir pattern) dir
  matches_changed :
      (dir : PathExpr) (pattern : Text) (mode : ℕ)
      → Changes (Statement.glob_chmod dir pattern mode) dir
  matches_linked :
      (source_dir : PathExpr) (pattern : Text) (link_dir : PathExpr)
      → Changes (Statement.glob_symlink source_dir pattern link_dir) link_dir
  installed : (into_dir from : PathExpr) → Changes (Statement.install into_dir from) into_dir
  moved : (from to : PathExpr) → Changes (Statement.move from to) to
  children_moved :
      (from_dir to_dir : PathExpr) → Changes (Statement.move_children from_dir to_dir) to_dir
  mode_set : (path : PathExpr) (mode : ℕ) → Changes (Statement.chmod path mode) path
  mirrored :
      (source dest : PathExpr) (prune_names : List Text)
      → Changes (Statement.mirror_tree source dest prune_names) dest
  children_linked :
      (source_dir link_dir : PathExpr) (suffix : List SegmentPart)
      → Changes (Statement.children_symlink source_dir link_dir suffix) link_dir

pub Changes-target : {s : Statement} {e : PathExpr} → Changes s e → target s ≡ some e
unfolding target
Changes-target (made _) = refl
Changes-target (copied _ _) = refl
Changes-target (removed _) = refl
Changes-target (tree_copied _ _) = refl
Changes-target (children_copied _ _) = refl
Changes-target (link_forced _ _) = refl
Changes-target (written _ _) = refl
Changes-target (matches_removed _ _) = refl
Changes-target (matches_changed _ _ _) = refl
Changes-target (matches_linked _ _ _) = refl
Changes-target (installed _ _) = refl
Changes-target (moved _ _) = refl
Changes-target (children_moved _ _) = refl
Changes-target (mode_set _ _) = refl
Changes-target (mirrored _ _ _) = refl
Changes-target (children_linked _ _ _) = refl

-- What a statement changes, by the path that it resolves to: also the link of `install_symlink`, and the
-- paths that a command gets as arguments.
pub data Affects (context : PostInstallContext) : Statement → FilePath → Type 0 where
  changed :
      (s : Statement) (e : PathExpr) (p : FilePath)
      → Changes s e
      → resolve_allowed_path context e ≡ ok p
      → Affects context s p
  linked :
      (link_dir file : PathExpr) (dir file_path p : FilePath)
      → resolve_allowed_path context link_dir ≡ ok dir
      → resolve_allowed_path context file ≡ ok file_path
      → install_symlink_path dir file_path ≡ some p
      → Affects context (Statement.install_symlink link_dir file) p
  argument :
      (command : Argument) (arguments : List Argument) (e : PathExpr) (p : FilePath)
      → In (Statement.path e) arguments
      → resolve_allowed_path context e ≡ ok p
      → Affects context (Statement.system (command ∷ arguments)) p

-- What the statements of a program change, those of its branches included.
pub data Writes (context : PostInstallContext) : Block → FilePath → Type 0 where
  single :
      (s : Statement) (b : Block) (p : FilePath)
      → Affects context s p
      → Writes context (then_ s b) p
  branch_path :
      (condition : PathExpr) (kind : Statement.PathCondition) (branch b : Block) (p : FilePath)
      → Writes context branch p
      → Writes context (then_ (Statement.if_path condition kind branch) b) p
  branch_env :
      (variable : Text) (negate : Bool) (branch b : Block) (p : FilePath)
      → Writes context branch p
      → Writes context (then_ (Statement.if_env variable negate branch) b) p
  later :
      (s : Statement) (b : Block) (p : FilePath) → Writes context b p → Writes context (then_ s b) p

abbrev pub IsRooted : PostInstallContext → FilePath → Type 0
IsRooted context p = (root : FilePath) × (rollback_root p context ≡ some root)

-- A link outside of the keg, in a directory that a program may use, has a rollback root.
install_symlink_path-IsRooted :
    (context : PostInstallContext) (e : PathExpr) (dir file p : FilePath)
    → resolve_allowed_path context e ≡ ok dir
    → install_symlink_path dir file ≡ some p
    → starts_with p context.keg_path ≡ false
    → IsRooted context p
unfolding install_symlink_path
install_symlink_path-IsRooted context e dir file p r l k = elim (Option-cases (file_name file)) [
  | inl n ↦ absurd (ground (arith, rw (n, install_symlink_path) at l))
  | inr (name, n) ↦
      let same : dir ++ normal name ∷ [] ≡ p = ground (arith, rw (n, install_symlink_path) at l) in
      let outside : starts_with (dir ++ normal name ∷ []) context.keg_path ≡ false = rw same k in
      elim (resolve_allowed_path-IsWithin context e r).1 [
        | inl inside ↦ absurd (
            ground
              (arith, starts_with-child dir context.keg_path (normal name ∷ []) inside, outside))
        | inr w ↦
            rw (← same)
              (IsWithin-saved context _ (IsWithin-child context dir (normal name ∷ []) w) outside)
      ]
]

Affects-IsRooted :
    {context : PostInstallContext} {s : Statement} {p : FilePath}
    → Affects context s p
    → starts_with p context.keg_path ≡ false
    → IsRooted context p
Affects-IsRooted {context} (changed s e p h r) k = resolve_allowed_path-saved context e r k
Affects-IsRooted {context} (linked link_dir file dir file_path p r t l) k =
    install_symlink_path-IsRooted context link_dir dir file_path p r l k
Affects-IsRooted {context} (argument command arguments e p i r) k =
    resolve_allowed_path-saved context e r k

pub Writes-IsRooted :
    {context : PostInstallContext} {b : Block} {p : FilePath}
    → Writes context b p
    → starts_with p context.keg_path ≡ false
    → IsRooted context p
Writes-IsRooted (single s b p a) k = Affects-IsRooted a k
Writes-IsRooted (branch_path condition kind branch b p w) k = Writes-IsRooted w k
Writes-IsRooted (branch_env variable negate branch b p w) k = Writes-IsRooted w k
Writes-IsRooted (later s b p w) k = Writes-IsRooted w k
