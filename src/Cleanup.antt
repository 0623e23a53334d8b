-- ===== src/Cleanup.antt =====
-- `cleanup` (crates/core/src/orchestrate/query.rs and orchestrate.rs): removing what no installed
-- formula needs from the two stores.
--
-- A directory is its entries, each with its name, in the order in which they are listed; listing and
-- removing succeed. A symbolic link below a store is a file of its own length, and the two levels
-- that are walked over have none. The totals are below `2 ^ 64`, as the bytes of a disk are.
pub mod Totals
pub mod Kept
mod Tests
use brewdock.Base.{
  ℕ, zero, suc, ◌+◌, Bool, true, false, Option, none, some, List, [], ◌∷◌, Text, text_eq,
  if◌then◌else◌,
}
use brewdock.Formula.{Formula}
use brewdock.Formula.Select.{SelectedBottle, select_bottle}

mutual
  pub data Node : Type 0 where
    file : (size : ℕ) → Node
    directory : Entries → Node

  pub data Entries : Type 0 where
    nil : Entries
    entry : (name : Text) (node : Node) (rest : Entries) → Entries

unfoldable mutual
  pub dir_size : Node → ℕ
  dir_size (file size) = size
  dir_size (directory entries) = total_size entries

  pub total_size : Entries → ℕ
  total_size nil = 0
  total_size (entry name node rest) = dir_size node + total_size rest

-- `HashSet::contains`
unfoldable pub is_kept : List Text → Text → Bool
unfolding text_eq
is_kept [] name = false
is_kept (sha ∷ shas) name = let rest = is_kept shas name in if text_eq sha name then true else rest

-- What is left of a directory, and the two counts.
pub record Cleaned : Type 0 where
  pub left : Entries
  pub removed : ℕ
  pub freed : ℕ

unfoldable pub keep : Text → Node → Cleaned → Cleaned
keep name node cleaned = record {
  left = entry name node cleaned.left;
  removed = cleaned.removed;
  freed = cleaned.freed;
}

unfoldable pub remove : Bool → Text → Node → Cleaned → Cleaned
unfolding dir_size
remove dry_run name node cleaned = record {
  left = if dry_run then entry name node cleaned.left else cleaned.left;
  removed = suc cleaned.removed;
  freed = dir_size node + cleaned.freed;
}

-- `remove_dir`, which leaves a directory that is not empty.
unfoldable pub remove_dir : Text → Entries → Entries → Entries
remove_dir name nil rest = rest
remove_dir name (entry sub node others) rest = entry name (directory (entry sub node others)) rest

unfoldable pub clean_top : Bool → Text → Cleaned → Cleaned → Cleaned
unfolding remove_dir
clean_top dry_run name inside cleaned = record {
  left =
      if dry_run
      then entry name (directory inside.left) cleaned.left
      else remove_dir name inside.left cleaned.left;
  removed = inside.removed + cleaned.removed;
  freed = inside.freed + cleaned.freed;
}

module _ (keep_shas : List Text) (dry_run : Bool) where
  -- The inner loop, over the entries of a directory at the top.
  unfoldable pub clean_entries : Entries → Cleaned
  unfolding is_kept keep remove
  clean_entries nil = record { left = nil; removed = 0; freed = 0 }
  clean_entries (entry name node rest) =
      let cleaned = clean_entries rest in
      if is_kept keep_shas name then keep name node cleaned else remove dry_run name node cleaned

  unfoldable pub cleanup_directory_tree : Entries → Cleaned
  unfolding clean_entries is_kept keep remove clean_top
  cleanup_directory_tree nil = record { left = nil; removed = 0; freed = 0 }
  cleanup_directory_tree (entry name (directory entries) rest) =
      clean_top dry_run name (clean_entries entries) (cleanup_directory_tree rest)
  cleanup_directory_tree (entry name (file size) rest) =
      let cleaned = cleanup_directory_tree rest in
      if is_kept keep_shas name
      then keep name (file size) cleaned
      else remove dry_run name (file size) cleaned

pub record CleanupResult : Type 0 where
  pub blobs_removed : ℕ
  pub stores_removed : ℕ
  pub bytes_freed : ℕ

-- The two stores, where they are directories.
pub record Stores : Type 0 where
  pub blobs : Option Entries
  pub extracted : Option Entries

-- The digest of an installed formula's bottle, if its metadata is stored and has a bottle.
unfoldable pub installed_sha : Text → Option Formula → Option Text
unfolding select_bottle
installed_sha host_tag none = none
installed_sha host_tag (some formula) = elim (select_bottle formula host_tag) [
  | none ↦ none
  | some bottle ↦ some bottle.sha256
]

-- `load_formula` gives nothing for an error too.
unfoldable pub installed_shas : Text → (Text → Option Formula) → List Text → List Text
unfolding installed_sha
installed_shas host_tag load_formula [] = []
installed_shas host_tag load_formula (name ∷ kegs) =
    let rest = installed_shas host_tag load_formula kegs in
    elim (installed_sha host_tag (load_formula name)) [ none ↦ rest | some sha ↦ sha ∷ rest ]

unfoldable pub clean_store : List Text → Bool → Option Entries → Option Entries × ℕ × ℕ
unfolding cleanup_directory_tree
clean_store keep_shas dry_run none = (none, 0, 0)
clean_store keep_shas dry_run (some root) =
    let cleaned = cleanup_directory_tree keep_shas dry_run root in
    (some cleaned.left, cleaned.removed, cleaned.freed)

-- `kegs` are the names that `fetch_installed_kegs` found.
unfoldable pub cleanup :
    Text → (Text → Option Formula) → List Text → Bool → Stores → Stores × CleanupResult
unfolding installed_shas clean_store
cleanup host_tag load_formula kegs dry_run stores =
    let shas = installed_shas host_tag load_formula kegs in
    let (blobs, blobs_removed, blobs_freed) = clean_store shas dry_run stores.blobs in
    let (extracted, stores_removed, stores_freed) = clean_store shas dry_run stores.extracted in
    (
      record { blobs = blobs; extracted = extracted },
      record {
        blobs_removed = blobs_removed;
        stores_removed = stores_removed;
        bytes_freed = blobs_freed + stores_freed;
      },
    )
