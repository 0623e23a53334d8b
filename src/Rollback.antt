-- ===== src/Rollback.antt =====
-- crates/cellar/src/post_install/rollback.rs: the directories that are saved before a post-install
-- program runs. Rollback/Collect reads the paths that a program writes to off its statements.
pub mod Sort
pub mod Collapse
pub mod Root
pub mod Collect
mod Tests
use brewdock.Base.{
  Ordering, Bool, true, false, not, ◌||◌, Option, none, some, List, [], ◌∷◌, ◌++◌, Text, ascii,
  lex_cmp, if◌then◌else◌, ℕ,
}
use brewdock.PostInstall.{PostInstallContext, strip_path}
use brewdock.Paths.{
  Component, root_dir, cur_dir, parent_dir, normal, FilePath, component_eq, starts_with,
}

unfoldable pub is_shared_dir : Component → Bool
unfolding component_eq
is_shared_dir first =
    component_eq first (normal (ascii "etc"))
    || component_eq first (normal (ascii "var"))
    || component_eq first (normal (ascii "share"))

-- The root for a path, by what follows the prefix in it.
unfoldable pub root_below : FilePath → FilePath → FilePath → Option FilePath
unfolding is_shared_dir
root_below prefix path [] = none
root_below prefix path (first ∷ []) = some (prefix ++ first ∷ [])
root_below prefix path (first ∷ second ∷ rest) =
    if is_shared_dir first then some ((prefix ++ first ∷ []) ++ second ∷ []) else some path

unfoldable pub rollback_root : FilePath → PostInstallContext → Option FilePath
unfolding starts_with strip_path root_below
rollback_root path context =
    if starts_with path context.keg_path || not (starts_with path context.prefix)
    then none
    else elim (strip_path path context.prefix) [
      | none ↦ none
      | some relative ↦ root_below context.prefix path relative
    ]

-- `Ord for Component`, derived from the order of the constructors.
abbrev pub component_key : Component → List ℕ
component_key root_dir = 0 ∷ []
component_key cur_dir = 1 ∷ []
component_key parent_dir = 2 ∷ []
component_key (normal s) = 3 ∷ s

-- `Ord for Path`
unfoldable pub path_cmp : FilePath → FilePath → Ordering
unfolding lex_cmp
path_cmp [] [] = Ordering.eq
path_cmp [] (b ∷ q) = Ordering.lt
path_cmp (a ∷ p) [] = Ordering.gt
path_cmp (a ∷ p) (b ∷ q) =
    let rest = path_cmp p q in
    elim (lex_cmp (component_key a) (component_key b)) [
      | Ordering.lt ↦ Ordering.lt
      | Ordering.gt ↦ Ordering.gt
      | Ordering.eq ↦ rest
    ]

-- `sort` of the standard library, by insertion: equal paths are the same.
unfoldable pub insert_sorted : FilePath → List FilePath → List FilePath
unfolding path_cmp
insert_sorted p [] = p ∷ []
insert_sorted p (q ∷ qs) =
    let later = insert_sorted p qs in
    elim (path_cmp p q) [ Ordering.gt ↦ q ∷ later | _ ↦ p ∷ q ∷ qs ]

unfoldable pub sort : List FilePath → List FilePath
unfolding insert_sorted
sort [] = []
sort (p ∷ ps) = insert_sorted p (sort ps)

-- `collapsed.last().is_some_and(...)`
unfoldable pub is_covered : Option FilePath → FilePath → Bool
unfolding starts_with
is_covered none root = false
is_covered (some parent) root = starts_with root parent

-- The loop, from the last root that was kept: the roots that it keeps.
unfoldable pub collapse_from : Option FilePath → List FilePath → List FilePath
unfolding is_covered
collapse_from last [] = []
collapse_from last (root ∷ roots) =
    let skipped = collapse_from last roots in
    let kept = collapse_from (some root) roots in
    if is_covered last root then skipped else root ∷ kept

unfoldable pub collapse_nested_roots : List FilePath → List FilePath
unfolding sort collapse_from
collapse_nested_roots roots = collapse_from none (sort roots)
