-- ===== src/Rollback/Tests.antt =====
-- Rollback roots of sample paths, and witnesses.
use brewdock.Base.{◌≡◌, refl, true, some, none, List, [], ◌∷◌, ascii, text_eq, lex_cmp}
use brewdock.Base.Lists.{In}
use brewdock.Paths.{FilePath, components, component_eq, starts_with}
use brewdock.PostInstall.{PostInstallContext, new, strip_path}
use brewdock.Rollback.{
  is_shared_dir, root_below, rollback_root, path_cmp, insert_sorted, sort, is_covered,
  collapse_from, collapse_nested_roots,
}
use brewdock.Rollback.Collapse.{IsApart, collapse_nested_roots_lem}

program : Unit {0}
unfolding components component_eq starts_with strip_path is_shared_dir root_below rollback_root
    path_cmp insert_sorted sort is_covered collapse_from collapse_nested_roots text_eq lex_cmp
program = tt

abbrev context : PostInstallContext
unfolding components new
context = new (components (ascii "/b")) (components (ascii "/b/Cellar/jq/1")) (ascii "1") (record {
  kernel_version_major = ascii "24";
  macos_version = ascii "15.1";
  cpu_arch = ascii "arm";
})

abbrev written : FilePath
unfolding components
written = components (ascii "/b/etc/jq/conf")

abbrev etc_jq : FilePath
unfolding components
etc_jq = components (ascii "/b/etc/jq")

abbrev share : FilePath
unfolding components
share = components (ascii "/b/share")

abbrev share_doc : FilePath
unfolding components
share_doc = components (ascii "/b/share/doc")

rollback_root-written : rollback_root written context ≡ some etc_jq
unfolding program context
rollback_root-written = refl

rollback_root-keg : rollback_root (components (ascii "/b/Cellar/jq/1/bin")) context ≡ none
unfolding program context
rollback_root-keg = refl

abbrev roots : List FilePath
roots = share_doc ∷ etc_jq ∷ share ∷ []

collapse-roots : collapse_nested_roots roots ≡ etc_jq ∷ share ∷ []
unfolding program
collapse-roots = refl

collapse_nested_roots_lem_example :
    ((r : FilePath) → In r (collapse_nested_roots roots) → In r roots)
    × ((r : FilePath)
        → In r roots
        → (c : FilePath) × In c (collapse_nested_roots roots) × (starts_with r c ≡ true))
    × IsApart (collapse_nested_roots roots)
collapse_nested_roots_lem_example = collapse_nested_roots_lem roots
