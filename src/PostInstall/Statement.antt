-- ===== src/PostInstall/Statement.antt =====
-- The statements of a post-install program (crates/analysis/src/post_install.rs).
use brewdock.Base.{ℕ, Bool, List, Text}
use brewdock.PostInstall.{PathExpr, SegmentPart}

pub data PathCondition : Type 0 where
  exists missing symlink exists_and_not_symlink : PathCondition

pub data ContentPart : Type 0 where
  literal : Text → ContentPart
  homebrew_prefix : ContentPart
  runtime : SegmentPart → ContentPart

pub data Argument : Type 0 where
  path : PathExpr → Argument
  string : Text → Argument

mutual
  pub data Statement : Type 0 where
    mkpath remove_if_exists : PathExpr → Statement
    copy recursive_copy move : (from to : PathExpr) → Statement
    install_symlink : (link_dir target : PathExpr) → Statement
    system : List Argument → Statement
    if_path : (condition : PathExpr) (kind : PathCondition) (then_branch : Block) → Statement
    copy_children move_children : (from_dir to_dir : PathExpr) → Statement
    force_symlink : (target link : PathExpr) → Statement
    write_file : (path : PathExpr) (content : List ContentPart) → Statement
    glob_remove : (dir : PathExpr) (pattern : Text) → Statement
    glob_chmod : (dir : PathExpr) (pattern : Text) (mode : ℕ) → Statement
    glob_symlink : (source_dir : PathExpr) (pattern : Text) (link_dir : PathExpr) → Statement
    install : (into_dir from : PathExpr) → Statement
    chmod : (path : PathExpr) (mode : ℕ) → Statement
    mirror_tree : (source dest : PathExpr) (prune_names : List Text) → Statement
    children_symlink : (source_dir link_dir : PathExpr) (suffix : List SegmentPart) → Statement
    if_env : (variable : Text) (negate : Bool) (then_branch : Block) → Statement
    set_env : (variable : Text) (value : List ContentPart) → Statement
    process_capture : (variable : Text) (command : List Argument) → Statement

  -- `Vec<Statement>`
  pub data Block : Type 0 where
    end : Block
    then_ : Statement → Block → Block
