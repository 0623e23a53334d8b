-- ===== src/Cleanup/Totals.antt =====
-- The counts of `cleanup` (crates/core/src/orchestrate.rs and orchestrate/query.rs).
use brewdock.Base.{
  ℕ, ◌+◌, ◌≡◌, refl, true, false, Option, none, some, List, Text, arith, Bool-cases, inl, inr,
}
use brewdock.Formula.{Formula}
use brewdock.Cleanup.{
  file, directory, Entries, nil, entry, total_size, is_kept, Cleaned, keep, remove, remove_dir,
  clean_top, clean_entries, cleanup_directory_tree, Stores, clean_store, cleanup, installed_shas,
}

module _ (keep_shas : List Text) where
  -- A dry run changes nothing, and counts what the other run counts.
  abbrev IsDry : Entries → Cleaned → Cleaned → Type 0
  IsDry entries dry real =
      (dry.left ≡ entries) × (dry.removed ≡ real.removed) × (dry.freed ≡ real.freed)

  clean_entries-IsDry :
      (entries : Entries)
      → IsDry entries (clean_entries keep_shas true entries) (clean_entries keep_shas false entries)
  unfolding clean_entries keep remove
  clean_entries-IsDry nil = (refl, refl, refl)
  clean_entries-IsDry (entry name node rest) = elim (Bool-cases (is_kept keep_shas name)) [
    | inl k ↦ rw k (ground (arith, clean_entries-IsDry rest))
    | inr k ↦ rw k (ground (arith, clean_entries-IsDry rest))
  ]

  cleanup_directory_tree-IsDry :
      (root : Entries)
      → IsDry root
          (cleanup_directory_tree keep_shas true root)
          (cleanup_directory_tree keep_shas false root)
  unfolding cleanup_directory_tree keep remove clean_top
  cleanup_directory_tree-IsDry nil = (refl, refl, refl)
  cleanup_directory_tree-IsDry (entry name (directory entries) rest) =
      ground (arith, clean_entries-IsDry entries, cleanup_directory_tree-IsDry rest)
  cleanup_directory_tree-IsDry (entry name (file size) rest) =
      elim (Bool-cases (is_kept keep_shas name)) [
        | inl k ↦ rw k (ground (arith, cleanup_directory_tree-IsDry rest))
        | inr k ↦ rw k (ground (arith, cleanup_directory_tree-IsDry rest))
      ]

  -- What is counted as freed is what the directory loses.
  abbrev IsExact : Entries → Cleaned → Type 0
  IsExact entries real = total_size entries ≡ total_size real.left + real.freed

  clean_entries-IsExact :
      (entries : Entries) → IsExact entries (clean_entries keep_shas false entries)
  unfolding clean_entries keep remove total_size
  clean_entries-IsExact nil = ground arith
  clean_entries-IsExact (entry name node rest) = elim (Bool-cases (is_kept keep_shas name)) [
    | inl k ↦ rw k (ground (arith, clean_entries-IsExact rest))
    | inr k ↦ rw k (ground (arith, clean_entries-IsExact rest))
  ]

  total_size-remove_dir :
      (name : Text) (inside rest : Entries)
      → total_size (remove_dir name inside rest) ≡ total_size inside + total_size rest
  unfolding remove_dir total_size
  total_size-remove_dir name nil rest = ground arith
  total_size-remove_dir name (entry sub node others) rest = refl

  cleanup_directory_tree-IsExact :
      (root : Entries) → IsExact root (cleanup_directory_tree keep_shas false root)
  unfolding cleanup_directory_tree keep remove clean_top total_size
  cleanup_directory_tree-IsExact nil = ground arith
  cleanup_directory_tree-IsExact (entry name (directory entries) rest) = ground (
    arith,
    clean_entries-IsExact entries,
    cleanup_directory_tree-IsExact rest,
    total_size-remove_dir name (clean_entries keep_shas false entries).left
        (cleanup_directory_tree keep_shas false rest).left,
  )
  cleanup_directory_tree-IsExact (entry name (file size) rest) =
      elim (Bool-cases (is_kept keep_shas name)) [
        | inl k ↦ rw k (ground (arith, cleanup_directory_tree-IsExact rest))
        | inr k ↦ rw k (ground (arith, cleanup_directory_tree-IsExact rest))
      ]

abbrev store_size : Option Entries → ℕ
store_size none = 0
store_size (some entries) = total_size entries

abbrev pub stores_size : Stores → ℕ
stores_size stores = store_size stores.blobs + store_size stores.extracted

clean_store_lem :
    (keep_shas : List Text) (store : Option Entries)
    → ((clean_store keep_shas true store).0 ≡ store)
      × ((clean_store keep_shas true store).1 ≡ (clean_store keep_shas false store).1)
      × ((clean_store keep_shas true store).2 ≡ (clean_store keep_shas false store).2)
      × (store_size store
          ≡ store_size (clean_store keep_shas false store).0
            + (clean_store keep_shas false store).2)
unfolding clean_store
clean_store_lem keep_shas none = (refl, refl, refl, ground arith)
clean_store_lem keep_shas (some root) = ground (
  arith,
  cleanup_directory_tree-IsDry keep_shas root,
  cleanup_directory_tree-IsExact keep_shas root,
)

-- A dry run of cleanup leaves both stores as they are and reports the counts of the real run; and the
-- real run reports as freed exactly the bytes that the two stores lose.
pub cleanup-dry_run :
    (host_tag : Text) (load_formula : Text → Option Formula) (kegs : List Text) (stores : Stores)
    → ((cleanup host_tag load_formula kegs true stores).0 ≡ stores)
      × ((cleanup host_tag load_formula kegs true stores).1
          ≡ (cleanup host_tag load_formula kegs false stores).1)
      × (stores_size stores
          ≡ stores_size (cleanup host_tag load_formula kegs false stores).0
            + (cleanup host_tag load_formula kegs false stores).1.bytes_freed)
unfolding cleanup
cleanup-dry_run host_tag load_formula kegs stores =
    let shas : List Text = installed_shas host_tag load_formula kegs in
    ground (arith, clean_store_lem shas stores.blobs, clean_store_lem shas stores.extracted)
