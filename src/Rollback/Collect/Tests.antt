-- ===== src/Rollback/Collect/Tests.antt =====
-- The saved directories of a sample program, and a witness.
use brewdock.Base.{◌≡◌, refl, true, [], ◌∷◌, ascii, text_eq, lex_cmp, lookup}
use brewdock.Paths.{
  FilePath, components, component_eq, path_eq, join_text, starts_with, pop, push,
  normalize_absolute_from, normalize_absolute_path, not_empty,
}
use brewdock.PostInstall.{
  PathExpr, PathSegment, PathBase, PostInstallContext, new, formula_name_from_keg, parent,
  file_name, or_empty, resolve_segment, base_path, push_segments, resolve_path, contains,
  strip_path, begins_allowed, in_allowed_dir, path_is_allowed, admit, resolve_allowed_path,
}
use brewdock.PostInstall.Statement
use brewdock.PostInstall.Statement.{Block, end, then_, mkpath, write_file, if_env, install_symlink}
use brewdock.Rollback.{
  is_shared_dir, root_below, rollback_root, path_cmp, insert_sorted, sort, is_covered,
  collapse_from, collapse_nested_roots,
}
use brewdock.Rollback.Collect.{
  set_contains, set_insert, insert_root, insert_path, install_symlink_path, insert_link,
  insert_symlink, target, insert_target, collect_statement, collect_rollback_roots,
}
use brewdock.Rollback.Collect.Writes.{Writes}

program : Unit {0}
unfolding text_eq lookup lex_cmp components component_eq path_eq join_text starts_with pop push
    normalize_absolute_from normalize_absolute_path not_empty new formula_name_from_keg parent
    file_name or_empty resolve_segment base_path push_segments resolve_path contains strip_path
    begins_allowed in_allowed_dir path_is_allowed admit resolve_allowed_path is_shared_dir
    root_below rollback_root path_cmp insert_sorted sort is_covered collapse_from
    collapse_nested_roots set_contains set_insert insert_root insert_path install_symlink_path
    insert_link insert_symlink target insert_target collect_statement collect_rollback_roots
program = tt

abbrev context : PostInstallContext
unfolding components new
context = new (components (ascii "/b")) (components (ascii "/b/Cellar/jq/1")) (ascii "1") (record {
  kernel_version_major = ascii "24";
  macos_version = ascii "15.1";
  cpu_arch = ascii "arm";
})

-- `pkgetc/"conf"`, `bin/"jq"` in the keg, and `HOMEBREW_PREFIX/"bin"`
abbrev conf : PathExpr
conf = record { base = PathBase.pkgetc; segments = PathSegment.literal (ascii "conf") ∷ [] }

abbrev keg_tool : PathExpr
keg_tool = record { base = PathBase.bin; segments = PathSegment.literal (ascii "jq") ∷ [] }

abbrev bin_dir : PathExpr
bin_dir = record {
  base = PathBase.homebrew_prefix;
  segments = PathSegment.literal (ascii "bin") ∷ [];
}

abbrev statements : Block
statements =
    then_ (if_env (ascii "CI") true (then_ (write_file conf []) end))
      (then_ (install_symlink bin_dir keg_tool) (then_ (mkpath keg_tool) end))

collect-statements :
    collect_rollback_roots statements context
    ≡ components (ascii "/b/bin/jq") ∷ components (ascii "/b/etc/jq") ∷ []
unfolding program context
collect-statements = refl

abbrev conf_path : FilePath
unfolding components
conf_path = components (ascii "/b/etc/jq/conf")

-- A file of etc/jq that is moved into the keg: nothing is saved.
collect-moved : collect_rollback_roots (then_ (Statement.move conf keg_tool) end) context ≡ []
unfolding program context
collect-moved = refl
