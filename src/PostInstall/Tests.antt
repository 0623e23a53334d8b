-- ===== src/PostInstall/Tests.antt =====
-- Paths of sample programs, and witnesses.
use brewdock.Base.{◌≡◌, ◌⊎◌, refl, true, false, some, [], ◌∷◌, ascii, text_eq, lookup, ok, err}
use brewdock.Paths.{
  FilePath, components, component_eq, join_text, starts_with, pop, push, normalize_absolute_from,
  normalize_absolute_path, not_empty,
}
use brewdock.PostInstall.{
  PathExpr, PathSegment, SegmentPart, PathBase, PostInstallContext, new, formula_name_from_keg,
  parent, file_name, or_empty, major_version, major_minor_version, behind_dot, resolve_segment_part,
  resolve_parts, resolve_segment, base_path, push_segments, resolve_path, contains, strip_path,
  begins_allowed, in_allowed_dir, path_is_allowed, admit, resolve_allowed_path, path_escapes,
}
use brewdock.PostInstall.Allowed.{
  IsPlain, IsWithin, resolve_allowed_path-IsWithin, resolve_allowed_path-saved,
}
use brewdock.Rollback.{rollback_root}
use brewdock.Source.{before_first}

program : Unit {0}
unfolding text_eq lookup components component_eq join_text starts_with pop push
    normalize_absolute_from normalize_absolute_path not_empty new formula_name_from_keg parent
    file_name or_empty major_version major_minor_version behind_dot resolve_segment_part
    resolve_parts resolve_segment base_path push_segments resolve_path contains strip_path
    begins_allowed in_allowed_dir path_is_allowed admit resolve_allowed_path before_first
program = tt

abbrev context : PostInstallContext
unfolding components new
context =
    new (components (ascii "/b")) (components (ascii "/b/Cellar/jq/1.7.1")) (ascii "1.7.1")
      (record {
        kernel_version_major = ascii "24";
        macos_version = ascii "15.1";
        cpu_arch = ascii "arm";
      })

-- `pkgetc/"v#{version.major_minor}"`
abbrev versioned : PathExpr
versioned = record {
  base = PathBase.pkgetc;
  segments =
      PathSegment.interpolated
        (SegmentPart.literal (ascii "v") ∷ SegmentPart.version_major_minor ∷ [])
      ∷ [];
}

abbrev config : FilePath
unfolding components
config = components (ascii "/b/etc/jq/v1.7")

resolve-versioned : resolve_allowed_path context versioned ≡ ok config
unfolding program context config
resolve-versioned = refl

-- `etc/"../../x"`
abbrev escaping : PathExpr
escaping = record { base = PathBase.etc; segments = PathSegment.literal (ascii "../../x") ∷ [] }

resolve-escaping :
    resolve_allowed_path context escaping ≡ err (path_escapes (components (ascii "/x")))
unfolding program context
resolve-escaping = refl

outside : starts_with config context.keg_path ≡ false
unfolding program context config
outside = refl

resolve_allowed_path-IsWithin_example :
    IsPlain config × ((starts_with config context.keg_path ≡ true) ⊎ IsWithin context config)
resolve_allowed_path-IsWithin_example =
    resolve_allowed_path-IsWithin context versioned resolve-versioned

resolve_allowed_path-saved_example : (root : FilePath) × (rollback_root config context ≡ some root)
resolve_allowed_path-saved_example =
    resolve_allowed_path-saved context versioned resolve-versioned outside
