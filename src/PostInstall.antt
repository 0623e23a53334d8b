-- ===== src/PostInstall.antt =====
-- The paths of a post-install program (crates/analysis/src/post_install.rs for their syntax, and
-- crates/cellar/src/post_install.rs and post_install/context.rs for what they stand for).
pub mod Allowed
pub mod Statement
mod Tests
use brewdock.Base.{
  ℕ, Bool, true, false, ◌||◌, Option, none, some, List, [], ◌∷◌, ◌++◌, Text, ascii, text_eq, Assoc,
  lookup, Result, ok, err, if◌then◌else◌, ◌==◌,
}
use brewdock.Paths.{
  Component, normal, FilePath, component_eq, components, join_text, starts_with,
  normalize_absolute_path,
}
use brewdock.Source.{before_first}

pub data SegmentPart : Type 0 where
  literal captured_output captured_output_basename : Text → SegmentPart
  formula_name version_major_minor version_major kernel_version_major macos_version cpu_arch :
      SegmentPart

pub data PathSegment : Type 0 where
  literal : Text → PathSegment
  interpolated : List SegmentPart → PathSegment

pub data PathBase : Type 0 where
  prefix bin etc homebrew_prefix lib libexec pkgetc pkgshare share sbin var : PathBase
  formula_pkgetc formula_opt_bin : Text → PathBase

pub record PathExpr : Type 0 where
  pub base : PathBase
  pub segments : List PathSegment

pub record PostInstallContext : Type 0 where
  pub formula_name : Text
  pub formula_version : Text
  pub prefix : FilePath
  pub keg_path : FilePath
  pub kernel_version_major : Text
  pub macos_version : Text
  pub cpu_arch : Text
  pub env_overrides : Assoc Text
  pub captured_outputs : Assoc Text

-- `PlatformContext`
pub record PlatformContext : Type 0 where
  pub kernel_version_major : Text
  pub macos_version : Text
  pub cpu_arch : Text

-- The one error of this part, `UnsupportedPostInstallSyntax`, with the path of its message.
pub data CellarError : Type 0 where
  path_escapes : FilePath → CellarError

-- `Path::file_name`: the last component, if it is a name.
unfoldable pub file_name : FilePath → Option Text
file_name [] = none
file_name (normal s ∷ []) = some s
file_name (_ ∷ []) = none
file_name (_ ∷ c ∷ p) = file_name (c ∷ p)

unfoldable pub or_empty : Option Text → Text
or_empty none = []
or_empty (some s) = s

-- `Path::parent`
unfoldable pub parent : FilePath → Option FilePath
parent [] = none
parent (Component.root_dir ∷ []) = none
parent (_ ∷ []) = some []
parent (c ∷ d ∷ p) = elim (parent (d ∷ p)) [ none ↦ some (c ∷ []) | some q ↦ some (c ∷ q) ]

unfoldable pub formula_name_from_keg : FilePath → Text
unfolding parent file_name or_empty
formula_name_from_keg keg_path = elim (parent keg_path) [
  | none ↦ []
  | some p ↦ or_empty (file_name p)
]

-- `PostInstallContext::new`
unfoldable pub new : FilePath → FilePath → Text → PlatformContext → PostInstallContext
unfolding formula_name_from_keg
new homebrew keg_path formula_version platform = record {
  formula_name = formula_name_from_keg keg_path;
  formula_version = formula_version;
  prefix = homebrew;
  keg_path = keg_path;
  kernel_version_major = platform.kernel_version_major;
  macos_version = platform.macos_version;
  cpu_arch = platform.cpu_arch;
  env_overrides = [];
  captured_outputs = [];
}

unfoldable pub major_version : Text → Text
unfolding before_first
major_version version = before_first b'.' version

-- What stands behind the first dot, if there is one.
unfoldable pub behind_dot : Text → Option Text
behind_dot [] = none
behind_dot (b ∷ s) = let later = behind_dot s in if b == b'.' then some s else later

unfoldable pub major_minor_version : Text → Text
unfolding before_first behind_dot
major_minor_version version = elim (behind_dot version) [
  | some rest ↦ before_first b'.' version ++ b'.' ∷ before_first b'.' rest
  | none ↦ version
]

module _ (context : PostInstallContext) where
  unfoldable pub resolve_segment_part : SegmentPart → Text
  unfolding major_minor_version major_version or_empty lookup file_name components
  resolve_segment_part (literal s) = s
  resolve_segment_part formula_name = context.formula_name
  resolve_segment_part version_major_minor = major_minor_version context.formula_version
  resolve_segment_part version_major = major_version context.formula_version
  resolve_segment_part kernel_version_major = context.kernel_version_major
  resolve_segment_part macos_version = context.macos_version
  resolve_segment_part cpu_arch = context.cpu_arch
  resolve_segment_part (captured_output name) = or_empty (lookup name context.captured_outputs)
  resolve_segment_part (captured_output_basename name) =
      elim (lookup name context.captured_outputs) [
        | none ↦ []
        | some value ↦ or_empty (file_name (components value))
      ]

  unfoldable pub resolve_parts : List SegmentPart → Text
  unfolding resolve_segment_part
  resolve_parts [] = []
  resolve_parts (part ∷ parts) = resolve_segment_part part ++ resolve_parts parts

  unfoldable pub resolve_segment : PathSegment → Text
  unfolding resolve_parts
  resolve_segment (literal s) = s
  resolve_segment (interpolated parts) = resolve_parts parts

  unfoldable pub base_path : PathBase → FilePath
  unfolding join_text
  base_path prefix = context.keg_path
  base_path bin = join_text context.keg_path (ascii "bin")
  base_path etc = join_text context.prefix (ascii "etc")
  base_path (formula_pkgetc formula) = join_text (join_text context.prefix (ascii "etc")) formula
  base_path (formula_opt_bin formula) =
      join_text (join_text (join_text context.prefix (ascii "opt")) formula) (ascii "bin")
  base_path homebrew_prefix = context.prefix
  base_path lib = join_text context.keg_path (ascii "lib")
  base_path libexec = join_text context.keg_path (ascii "libexec")
  base_path pkgetc = join_text (join_text context.prefix (ascii "etc")) context.formula_name
  base_path pkgshare = join_text (join_text context.keg_path (ascii "share")) context.formula_name
  base_path share = join_text context.keg_path (ascii "share")
  base_path sbin = join_text context.keg_path (ascii "sbin")
  base_path var = join_text context.prefix (ascii "var")

  -- `path.push(...)` for each segment.
  unfoldable pub push_segments : FilePath → List PathSegment → FilePath
  unfolding join_text resolve_segment
  push_segments path [] = path
  push_segments path (segment ∷ segments) =
      push_segments (join_text path (resolve_segment segment)) segments

  unfoldable pub resolve_path : PathExpr → FilePath
  unfolding base_path push_segments
  resolve_path expr = push_segments (base_path expr.base) expr.segments

abbrev pub allowed_prefix_dirs : List Text
allowed_prefix_dirs =
    ascii "etc"
    ∷ ascii "var"
    ∷ ascii "share"
    ∷ ascii "bin"
    ∷ ascii "sbin"
    ∷ ascii "lib"
    ∷ ascii "include"
    ∷ ascii "opt"
    ∷ []

unfoldable pub contains : Text → List Text → Bool
unfolding text_eq
contains s [] = false
contains s (t ∷ ts) = text_eq t s || contains s ts

-- `Path::strip_prefix`
unfoldable pub strip_path : FilePath → FilePath → Option FilePath
unfolding component_eq
strip_path p [] = some p
strip_path [] (b ∷ q) = none
strip_path (a ∷ p) (b ∷ q) = let rest = strip_path p q in if component_eq a b then rest else none

-- Whether a relative path begins with an allowed name.
unfoldable pub begins_allowed : FilePath → Bool
unfolding contains
begins_allowed (normal first ∷ _) = contains first allowed_prefix_dirs
begins_allowed _ = false

unfoldable pub in_allowed_dir : Option FilePath → Bool
unfolding begins_allowed
in_allowed_dir none = false
in_allowed_dir (some relative) = begins_allowed relative

unfoldable pub path_is_allowed : FilePath → PostInstallContext → Bool
unfolding starts_with strip_path in_allowed_dir
path_is_allowed path context =
    starts_with path context.keg_path || in_allowed_dir (strip_path path context.prefix)

unfoldable pub admit : PostInstallContext → FilePath → Option FilePath → Result CellarError FilePath
admit context raw none = err (path_escapes raw)
admit context raw (some resolved) =
    if path_is_allowed resolved context then ok resolved else err (path_escapes resolved)

unfoldable pub resolve_allowed_path : PostInstallContext → PathExpr → Result CellarError FilePath
resolve_allowed_path context expr =
    let raw = resolve_path context expr in admit context raw (normalize_absolute_path raw)
