-- ===== src/Bottle/Archive.antt =====
-- The paths of a bottle's archive (crates/bottle/src/extract.rs): what is checked of an entry before it
-- is unpacked. The archive itself is read by the packages tar and flate2.
pub mod Inside
use brewdock.Base.{
  ok_eq, err_ok, ℕ, zero, suc, ◌≡◌, ◌≢◌, refl, sym, ap, subst, ◌∙◌, Bool, true, false, Option, none,
  some, [], ◌∷◌, ◌++◌, Text, arith, Result, ok, err, ◌>>=◌, ok_of_bind, Bool-cases, inl, inr,
  if◌then◌else◌,
}
use brewdock.Base.Lists.{length, length-append}
use brewdock.Discover.{is_absolute, join_relative}
use brewdock.Paths.{Component, root_dir, cur_dir, parent_dir, normal, FilePath, pop, push}
use brewdock.Paths.Relative.{IsNames}
use brewdock.PostInstall.{parent}

-- The errors, told apart by their messages. Reading the name of a link does not fail here.
pub data ArchiveError : Type 0 where
  escapes_root not_relative : ArchiveError
  empty_path missing_target absolute_target : ArchiveError

unfoldable pub normalize_archive_from : FilePath → FilePath → Result ArchiveError FilePath
unfolding pop push
normalize_archive_from normalized [] = ok normalized
normalize_archive_from normalized (normal segment ∷ rest) =
    normalize_archive_from (push normalized (normal segment)) rest
normalize_archive_from normalized (cur_dir ∷ rest) = normalize_archive_from normalized rest
normalize_archive_from normalized (parent_dir ∷ rest) =
    let next = normalize_archive_from (pop normalized).0 rest in
    if (pop normalized).1 then next else err escapes_root
normalize_archive_from normalized (root_dir ∷ rest) = err not_relative

unfoldable pub require_name : FilePath → Result ArchiveError FilePath
require_name [] = err empty_path
require_name (c ∷ p) = ok (c ∷ p)

unfoldable pub normalize_archive_path : FilePath → Result ArchiveError FilePath
unfolding normalize_archive_from require_name
normalize_archive_path path = do
  normalized ← normalize_archive_from [] path
  require_name normalized

-- `EntryType`, as far as it is told apart.
pub data EntryType : Type 0 where
  symlink link other : EntryType

unfoldable pub or_nothing : Option FilePath → FilePath
or_nothing none = []
or_nothing (some p) = p

unfoldable pub validate_link : EntryType → FilePath → FilePath → Result ArchiveError Unit
unfolding normalize_archive_path or_nothing parent join_relative
validate_link link entry_path target = do
  _ ← normalize_archive_path (join_relative (or_nothing (parent entry_path)) target)
  ok tt
validate_link _ entry_path target = ok tt

unfoldable pub validate_target : EntryType → FilePath → Option FilePath → Result ArchiveError Unit
unfolding validate_link is_absolute
validate_target entry_type entry_path none = err missing_target
validate_target entry_type entry_path (some target) =
    if is_absolute target then err absolute_target else validate_link entry_type entry_path target

unfoldable pub validate_entry_target :
    EntryType → FilePath → Option FilePath → Result ArchiveError Unit
unfolding validate_target
validate_entry_target other entry_path link_name = ok tt
validate_entry_target symlink entry_path link_name = validate_target symlink entry_path link_name
validate_entry_target link entry_path link_name = validate_target link entry_path link_name

-- The checks of one round of `extract_tar_gz`.
unfoldable pub check_entry : EntryType → FilePath → Option FilePath → Result ArchiveError FilePath
unfolding normalize_archive_path validate_entry_target
check_entry entry_type path link_name = do
  entry_path ← normalize_archive_path path
  _ ← validate_entry_target entry_type entry_path link_name
  ok entry_path
