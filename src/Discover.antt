-- ===== src/Discover.antt =====
-- crates/cellar/src/discover.rs: the kegs that are installed. What reading a link and reading a receipt
-- give are functions of the path; of a receipt only `installed_on_request` counts.
-- Listing the cellar succeeds, and names are text.
pub mod Linked
pub mod Scan
mod Tests
use brewdock.Base.{
  Bool, true, false, Option, none, some, List, [], ◌∷◌, ◌++◌, Text, ascii, if◌then◌else◌, Result,
  ok, err, ◌>>=◌, lex_cmp, Ordering,
}
use brewdock.Paths.{
  Component, root_dir, cur_dir, FilePath, join_text, path_eq, normalize_absolute_path,
}
use brewdock.PostInstall.{file_name, parent}

pub record InstalledKeg : Type 0 where
  pub name : Text
  pub pkg_version : Text
  pub installed_on_request : Bool

pub data LinkRead (E : Type 0) : Type 0 where
  links_to : FilePath → LinkRead E
  no_link : LinkRead E
  link_failed : E → LinkRead E

pub data ReceiptRead (E : Type 0) : Type 0 where
  receipt : (installed_on_request : Bool) → ReceiptRead E
  no_receipt : ReceiptRead E
  receipt_failed : E → ReceiptRead E

unfoldable pub is_absolute : FilePath → Bool
is_absolute (root_dir ∷ p) = true
is_absolute _ = false

-- `Path::join` with a path that is not absolute.
unfoldable pub join_relative : FilePath → FilePath → FilePath
join_relative [] q = q
join_relative (c ∷ p) (cur_dir ∷ q) = (c ∷ p) ++ q
join_relative (c ∷ p) q = (c ∷ p) ++ q

-- `opt_link.parent()?.join(target)`
unfoldable pub from_link : Option FilePath → FilePath → Option FilePath
unfolding join_relative
from_link none target = none
from_link (some dir) target = some (join_relative dir target)

unfoldable pub and_normalize : Option FilePath → Option FilePath
and_normalize none = none
and_normalize (some joined) = normalize_absolute_path joined

unfoldable pub normalize_opt_target : FilePath → FilePath → Option FilePath
unfolding is_absolute from_link and_normalize
normalize_opt_target opt_link target =
    and_normalize (if is_absolute target then some target else from_link (parent opt_link) target)

unfoldable pub push_found : Option InstalledKeg → List InstalledKeg → List InstalledKeg
push_found none kegs = kegs
push_found (some keg) kegs = keg ∷ kegs

module _ {E : Type 0} (read_link : FilePath → LinkRead E) (read_receipt : FilePath → ReceiptRead E)
    (cellar opt_dir : FilePath) where
  unfoldable pub read_metadata : Text → Text → FilePath → Result E (Option InstalledKeg)
  read_metadata name pkg_version keg_path =
      elim (read_receipt (join_text keg_path (ascii "INSTALL_RECEIPT.json"))) [
        | no_receipt ↦ ok none
        | receipt_failed e ↦ err e
        | receipt on_request ↦ ok (
            some (record {
              name = name;
              pkg_version = pkg_version;
              installed_on_request = on_request;
            }))
      ]

  unfoldable pub check_version : Text → FilePath → Option Text → Result E (Option InstalledKeg)
  unfolding read_metadata path_eq
  check_version name resolved_target none = ok none
  check_version name resolved_target (some pkg_version) =
      let keg_path = join_text (join_text cellar name) pkg_version in
      if path_eq resolved_target keg_path then read_metadata name pkg_version keg_path else ok none

  unfoldable pub check_target : Text → Option FilePath → Result E (Option InstalledKeg)
  unfolding check_version
  check_target name none = ok none
  check_target name (some resolved_target) =
      check_version name resolved_target (file_name resolved_target)

  unfoldable pub find_installed_keg : Text → Result E (Option InstalledKeg)
  unfolding check_target normalize_opt_target
  find_installed_keg name =
      let opt_link = join_text opt_dir name in
      elim (read_link opt_link) [
        | no_link ↦ ok none
        | link_failed e ↦ err e
        | links_to t ↦ check_target name (normalize_opt_target opt_link t)
      ]

  -- The loop over the directories of the cellar, by their names.
  unfoldable pub discover_each : List Text → Result E (List InstalledKeg)
  unfolding find_installed_keg push_found
  discover_each [] = ok []
  discover_each (name ∷ names) = do
    found ← find_installed_keg name
    kegs ← discover_each names
    ok (push_found found kegs)

-- `sort_by` is stable.
unfoldable pub insert_keg : InstalledKeg → List InstalledKeg → List InstalledKeg
unfolding lex_cmp
insert_keg keg [] = keg ∷ []
insert_keg keg (other ∷ kegs) =
    let rest = insert_keg keg kegs in
    elim (lex_cmp keg.name other.name) [ Ordering.gt ↦ other ∷ rest | _ ↦ keg ∷ other ∷ kegs ]

unfoldable pub sort_kegs : List InstalledKeg → List InstalledKeg
unfolding insert_keg
sort_kegs [] = []
sort_kegs (keg ∷ kegs) = insert_keg keg (sort_kegs kegs)

-- `names` are the directories of the cellar, if it is one.
unfoldable pub discover_installed_kegs :
    {E : Type 0}
    → (FilePath → LinkRead E)
    → (FilePath → ReceiptRead E)
    → (cellar opt_dir : FilePath) → Option (List Text)
    → Result E (List InstalledKeg)
unfolding discover_each sort_kegs
discover_installed_kegs read_link read_receipt cellar opt_dir none = ok []
discover_installed_kegs read_link read_receipt cellar opt_dir (some names) = do
  kegs ← discover_each read_link read_receipt cellar opt_dir names
  ok (sort_kegs kegs)
