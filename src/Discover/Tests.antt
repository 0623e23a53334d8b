-- ===== src/Discover/Tests.antt =====
-- A prefix with one linked keg, and witnesses.
use brewdock.Base.{
  ◌≡◌, refl, ◌↔◌, true, false, some, List, [], ◌∷◌, ◌++◌, ascii, Text, text_eq, lex_cmp, ok, ℕ, inl,
}
use brewdock.Base.Lists.{In}
use brewdock.Paths.{
  FilePath, Component, components, component_eq, path_eq, join_text, pop, push,
  normalize_absolute_from, normalize_absolute_path, not_empty, relative_from_to, common_parts,
}
use brewdock.PostInstall.{file_name, parent}
use brewdock.Discover.{
  InstalledKeg, LinkRead, links_to, no_link, ReceiptRead, receipt, is_absolute, join_relative,
  from_link, and_normalize, normalize_opt_target, read_metadata, check_version, check_target,
  find_installed_keg, push_found, discover_each, insert_keg, sort_kegs, discover_installed_kegs,
}
use brewdock.Discover.Linked.{find_installed_keg-linked}
use brewdock.Discover.Scan.{IsSorted, IsFound, discover_installed_kegs-IsFound}

program : Unit {0}
unfolding text_eq lex_cmp components component_eq path_eq join_text pop push normalize_absolute_from
    normalize_absolute_path not_empty relative_from_to common_parts file_name parent is_absolute
    join_relative from_link and_normalize normalize_opt_target read_metadata check_version
    check_target find_installed_keg push_found discover_each insert_keg sort_kegs
    discover_installed_kegs
program = tt

abbrev cellar_path : FilePath
cellar_path =
    Component.root_dir ∷ Component.normal (ascii "b") ∷ Component.normal (ascii "Cellar") ∷ []

abbrev opt_path : FilePath
opt_path = Component.root_dir ∷ Component.normal (ascii "b") ∷ Component.normal (ascii "opt") ∷ []

-- `../Cellar/<name>/<version>`
abbrev linked : Text → Text → FilePath
linked name version =
    Component.parent_dir
    ∷ Component.normal (ascii "Cellar")
    ∷ Component.normal name
    ∷ Component.normal version
    ∷ []

abbrev read_link : FilePath → LinkRead ℕ
unfolding path_eq
read_link link = elim (path_eq link (opt_path ++ Component.normal (ascii "jq") ∷ [])) [
  | true ↦ links_to (linked (ascii "jq") (ascii "1.7"))
  | false ↦ elim (path_eq link (opt_path ++ Component.normal (ascii "bat") ∷ [])) [
    | true ↦ links_to (linked (ascii "bat") (ascii "1"))
    | false ↦ no_link
  ]
]

abbrev read_receipt : FilePath → ReceiptRead ℕ
read_receipt path = receipt true

abbrev jq : InstalledKeg
jq = record { name = ascii "jq"; pkg_version = ascii "1.7"; installed_on_request = true }

abbrev bat : InstalledKeg
bat = record { name = ascii "bat"; pkg_version = ascii "1"; installed_on_request = true }

name-IsComponent : components (ascii "jq") ≡ Component.normal (ascii "jq") ∷ []
unfolding program
name-IsComponent = refl

version-IsComponent : components (ascii "1.7") ≡ Component.normal (ascii "1.7") ∷ []
unfolding program
version-IsComponent = refl

read_link-jq :
    read_link (join_text opt_path (ascii "jq")) ≡ links_to (linked (ascii "jq") (ascii "1.7"))
unfolding program read_link
read_link-jq = refl

linked-relative :
    linked (ascii "jq") (ascii "1.7")
    ≡ relative_from_to opt_path (join_text (join_text cellar_path (ascii "jq")) (ascii "1.7"))
unfolding program
linked-relative = refl

-- A link by the absolute path.
discover-absolute :
    normalize_opt_target
      (join_text opt_path (ascii "bat"))
      (join_text (join_text cellar_path (ascii "bat")) (ascii "1"))
    ≡ some (join_text (join_text cellar_path (ascii "bat")) (ascii "1"))
unfolding program
discover-absolute = refl

find_installed_keg-linked_example :
    find_installed_keg read_link read_receipt cellar_path opt_path (ascii "jq") ≡ ok (some jq)
find_installed_keg-linked_example =
    find_installed_keg-linked read_link read_receipt cellar_path opt_path (ascii "jq") (ascii "1.7")
      (linked (ascii "jq") (ascii "1.7")) tt tt name-IsComponent version-IsComponent read_link-jq
      (inl linked-relative) refl

abbrev names : List Text
names = ascii "jq" ∷ ascii "zig" ∷ ascii "bat" ∷ []

discover-names :
    discover_installed_kegs read_link read_receipt cellar_path opt_path (some names)
    ≡ ok (bat ∷ jq ∷ [])
unfolding program read_link
discover-names = refl

discover_installed_kegs-IsFound_example :
    IsSorted (bat ∷ jq ∷ [])
    × ((keg : InstalledKeg)
        → In keg (bat ∷ jq ∷ []) ↔ IsFound read_link read_receipt cellar_path opt_path keg names)
discover_installed_kegs-IsFound_example =
    discover_installed_kegs-IsFound read_link read_receipt cellar_path opt_path names discover-names
