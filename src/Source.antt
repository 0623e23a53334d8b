-- ===== src/Source.antt =====
-- crates/core/src/source_build.rs and source_build/archive.rs: what is needed to build a formula from
-- source. The major version of Xcode, which the program asks `xcodebuild` for, is an argument.
mod Tests
use brewdock.Base.{
  ℕ, Bool, true, false, ◌||◌, not, Option, none, some, List, [], ◌∷◌, ◌++◌, map, Text, ascii,
  text_eq, leb, if◌then◌else◌, ◌==◌, Result, ok, err, ◌>>=◌,
}
use brewdock.Base.Decimal.{parse_unsigned, u16_max}
use brewdock.Formula.{Formula, NamedEntry, Requirement, name, detailed}
use brewdock.Layout.{Layout, cellar}
use brewdock.Paths.{FilePath, join_text}
use brewdock.Platform.{HostTag, arch, macos_major}
use brewdock.Upgrade.{pkg_version}
use brewdock.Version.Scan.{to_ascii_lowercase}

pub data SourceBuildError : Type 0 where
  unsupported_requirement unsupported_source_archive missing_source_checksum :
      Text → SourceBuildError
  unsupported_build_system missing_source_root : Text → SourceBuildError
  command_failed : (command stderr : Text) → SourceBuildError

pub record SourceBuildPlan : Type 0 where
  pub formula_name : Text
  pub version : Text
  pub source_url : Text
  pub source_checksum : Option Text
  pub build_dependencies : List Text
  pub runtime_dependencies : List Text
  pub prefix : FilePath
  pub cellar_path : FilePath

-- `split(byte).next()`: what stands before the first such byte.
unfoldable pub before_first : ℕ → Text → Text
before_first byte [] = []
before_first byte (b ∷ s) = let rest = before_first byte s in if b == byte then [] else b ∷ rest

-- `rsplit(byte).next()`: what stands behind the last such byte, or after `found` if there is none.
unfoldable pub after_last_from : Text → ℕ → Text → Text
after_last_from found byte [] = found
after_last_from found byte (b ∷ s) =
    if b == byte then after_last_from s byte s else after_last_from found byte s

unfoldable pub after_last : ℕ → Text → Text
unfolding after_last_from
after_last byte s = after_last_from s byte s

-- The function of archive.rs gives `Some` always.
unfoldable pub source_archive_filename : Text → Text
unfolding before_first after_last
source_archive_filename url = after_last b'/' (before_first b'?' url)

unfoldable pub ends_with : Text → Text → Bool
unfolding text_eq
ends_with [] suffix = text_eq [] suffix
ends_with (b ∷ s) suffix = text_eq (b ∷ s) suffix || ends_with s suffix

-- Whether `Path::extension` of a file name is the given one: what stands behind its last dot, which
-- is not its first byte.
unfoldable pub has_extension : Text → Text → Bool
unfolding ends_with
has_extension [] ext = false
has_extension (b ∷ filename) ext = ends_with filename (b'.' ∷ ext)

-- The one kind there is, `TarGz`, or none.
unfoldable pub is_tar_gz : Text → Bool
unfolding source_archive_filename ends_with has_extension
is_tar_gz url =
    let filename = map to_ascii_lowercase (source_archive_filename url) in
    ends_with filename (ascii ".tar.gz") || has_extension filename (ascii "tgz")

unfoldable pub requirement_name : Requirement → Text
requirement_name (name n) = n
requirement_name (detailed detail) = detail.name

unfoldable pub parse_requirement_major : Text → Option ℕ
unfolding before_first parse_unsigned
parse_requirement_major value = parse_unsigned u16_max (before_first b'.' value)

-- `zip` and `is_some_and`
unfoldable pub both : Option ℕ → Option ℕ → (ℕ → ℕ → Bool) → Bool
both (some required) (some host) satisfies = satisfies host required
both _ _ satisfies = false

module _ (host_tag : HostTag) (xcode : Option ℕ) where
  -- `detail.version.is_none_or(...)`
  unfoldable pub matches_arch_requirement : NamedEntry → Bool
  unfolding text_eq arch
  matches_arch_requirement detail = elim detail.version [
    | none ↦ true
    | some required_arch ↦ text_eq required_arch (arch host_tag)
  ]

  unfoldable pub matches_macos_version_bound : NamedEntry → (ℕ → ℕ → Bool) → Bool
  unfolding both parse_requirement_major macos_major
  matches_macos_version_bound detail satisfies = elim detail.version [
    | none ↦ true
    | some required ↦ both (parse_requirement_major required) (macos_major host_tag) satisfies
  ]

  unfoldable pub matches_xcode_requirement : NamedEntry → Bool
  unfolding both parse_requirement_major
  matches_xcode_requirement detail = elim detail.version [
    | none ↦ true
    | some required ↦
        both (parse_requirement_major required) xcode (λ host required. leb required host)
  ]

  unfoldable pub is_satisfied_detail : NamedEntry → Bool
  unfolding matches_arch_requirement matches_macos_version_bound matches_xcode_requirement text_eq
  is_satisfied_detail detail =
      if text_eq detail.name (ascii "arch")
      then matches_arch_requirement detail
      else if text_eq detail.name (ascii "macos")
      then matches_macos_version_bound detail (λ host required. leb required host)
      else if text_eq detail.name (ascii "maximum_macos")
      then matches_macos_version_bound detail (λ host required. leb host required)
      else if text_eq detail.name (ascii "xcode")
      then matches_xcode_requirement detail
      else false

  unfoldable pub is_satisfied_system_requirement : Requirement → Bool
  unfolding is_satisfied_detail text_eq
  is_satisfied_system_requirement (name n) =
      text_eq n (ascii "xcode")
      || text_eq n (ascii "macos")
      || text_eq n (ascii "arch")
      || text_eq n (ascii "maximum_macos")
  is_satisfied_system_requirement (detailed detail) = is_satisfied_detail detail

  -- `find` of a requirement that is not satisfied.
  unfoldable pub first_unsatisfied : List Requirement → Option Requirement
  first_unsatisfied [] = none
  first_unsatisfied (requirement ∷ rest) =
      let later = first_unsatisfied rest in
      if is_satisfied_system_requirement requirement then later else some requirement

  unfoldable pub check_requirements : List Requirement → Result SourceBuildError Unit
  check_requirements requirements = elim (first_unsatisfied requirements) [
    | none ↦ ok tt
    | some requirement ↦ err (unsupported_requirement (requirement_name requirement))
  ]

unfoldable pub ok_or : {E A : Type 0} → Option A → E → Result E A
ok_or none e = err e
ok_or (some a) e = ok a

unfoldable pub check_archive : Text → Result SourceBuildError Unit
check_archive url = if is_tar_gz url then ok tt else err (unsupported_source_archive url)

module _ (layout : Layout) (host_tag : HostTag) (xcode : Option ℕ) where
  unfoldable pub build_source_plan : Formula → Result SourceBuildError SourceBuildPlan
  build_source_plan formula = do
    _ ← check_requirements host_tag xcode formula.requirements
    stable ← ok_or formula.urls.stable (unsupported_source_archive formula.name)
    source_checksum ← ok_or stable.checksum (missing_source_checksum formula.name)
    _ ← check_archive stable.url
    let version = pkg_version formula.versions.stable formula.revision
    ok (record {
      formula_name = formula.name;
      version = version;
      source_url = stable.url;
      source_checksum = some source_checksum;
      build_dependencies = formula.build_dependencies;
      runtime_dependencies = formula.dependencies;
      prefix = layout.prefix;
      cellar_path = join_text (join_text (cellar layout) formula.name) version;
    })
