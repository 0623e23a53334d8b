-- ===== src/Layout.antt =====
-- crates/core/src/layout.rs: the directories under the Homebrew prefix.
mod Tests
use brewdock.Base.{List, [], ◌∷◌, ◌++◌, Text, ascii, text_eq}
use brewdock.Paths.{FilePath, components, join_text}

pub record Layout : Type 0 where
  pub prefix : FilePath

unfoldable pub production : Layout
unfolding components
production = record { prefix = components (ascii "/opt/homebrew") }

unfoldable pub with_root : FilePath → Layout
unfolding join_text
with_root root = record { prefix = join_text root (ascii "opt/homebrew") }

module _ (self : Layout) where
  unfoldable pub cellar : FilePath
  unfolding join_text
  cellar = join_text self.prefix (ascii "Cellar")

  unfoldable pub opt_dir : FilePath
  unfolding join_text
  opt_dir = join_text self.prefix (ascii "opt")

  unfoldable pub bin_dir : FilePath
  unfolding join_text
  bin_dir = join_text self.prefix (ascii "bin")

  unfoldable pub var_brewdock : FilePath
  unfolding join_text
  var_brewdock = join_text self.prefix (ascii "var/brewdock")

  unfoldable pub cache_dir : FilePath
  unfolding join_text var_brewdock
  cache_dir = join_text var_brewdock (ascii "cache")

  unfoldable pub blob_dir : FilePath
  unfolding join_text var_brewdock
  blob_dir = join_text var_brewdock (ascii "blobs")

  unfoldable pub store_dir : FilePath
  unfolding join_text var_brewdock
  store_dir = join_text var_brewdock (ascii "store")

  unfoldable pub lock_dir : FilePath
  unfolding join_text var_brewdock
  lock_dir = join_text var_brewdock (ascii "locks")
