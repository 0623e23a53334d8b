-- ===== src/Bottle/Tests.antt =====
-- A toy hasher, archive entries, and witnesses.
use mathlib.Core.List.{append_assoc}
use brewdock.Base.{
  true, ◌≡◌, ◌↔◌, refl, some, none, List, [], ◌∷◌, ◌++◌, ascii, Text, text_eq, ok, err, sym, ap,
}
use brewdock.Discover.{is_absolute, join_relative}
use brewdock.Paths.{FilePath, starts_with, Component, components, join_text, pop, push}
use brewdock.PostInstall.{parent}
use brewdock.Relocate.Replace.{take}
use brewdock.Bottle.{
  is_ascii_hexdigit, all_hexdigits, parse, blob_path, new_verifier, update, finish, verify_sha256,
  receive, download_verified,
}
use brewdock.Bottle.Blobs.{blob_path-eq_iff}
use brewdock.Bottle.Verify.{download_verified_iff}
use brewdock.Bottle.Archive.{
  escapes_root, normalize_archive_from, require_name, normalize_archive_path, link, symlink,
  or_nothing, validate_link, validate_target, validate_entry_target, check_entry,
}
use brewdock.Bottle.Archive.Inside.{IsInside, IsSafe, check_entry-IsSafe}

program : Unit {0}
unfolding text_eq is_absolute join_relative components join_text pop push parent take
    is_ascii_hexdigit all_hexdigits parse blob_path new_verifier update finish verify_sha256 receive
    download_verified normalize_archive_from require_name normalize_archive_path or_nothing
    validate_link validate_target validate_entry_target check_entry
program = tt

abbrev zeros : Text
zeros = ascii "0000000000000000000000000000000000000000000000000000000000000000"

abbrev cafes : Text
cafes = ascii "cafecafecafecafecafecafecafecafecafecafecafecafecafecafecafecafe"

abbrev upper_cafes : Text
upper_cafes = ascii "CAFECAFECAFECAFECAFECAFECAFECAFECAFECAFECAFECAFECAFECAFECAFECAFE"

-- It keeps the bytes, and tells apart only whether there are any.
abbrev hex_digest : Text → Text
hex_digest [] = zeros
hex_digest (b ∷ s) = cafes

append_nil : (s : Text) → s ++ [] ≡ s
append_nil [] = refl
append_nil (b ∷ s) = ap (λ t. b ∷ t) (append_nil s)

hex_digest_lower : (s : Text) → parse (hex_digest s) ≡ ok (hex_digest s)
unfolding program
hex_digest_lower [] = refl
hex_digest_lower (b ∷ s) = refl

abbrev chunks : List Text
chunks = ascii "bo" ∷ ascii "ttle" ∷ []

download_verified_iff_example :
    (download_verified [] (λ s t. s ++ t) hex_digest upper_cafes chunks ≡ ok (ascii "bottle"))
    ↔ ((ascii "bottle" ≡ ascii "bottle") × (parse upper_cafes ≡ ok cafes))
download_verified_iff_example =
    download_verified_iff [] (λ s t. s ++ t) hex_digest append_nil
      (λ s a b. sym (append_assoc s a b)) hex_digest_lower upper_cafes chunks (ascii "bottle")

download_verified-cafes :
    download_verified [] (λ s t. s ++ t) hex_digest upper_cafes chunks ≡ ok (ascii "bottle")
unfolding program
download_verified-cafes = refl

blob_path-cafes :
    blob_path (components (ascii "/b")) upper_cafes
    ≡ ok (components (ascii "/b/ca") ++ Component.normal cafes ∷ [])
unfolding program
blob_path-cafes = refl

check_entry-escape : check_entry symlink (components (ascii "jq/../../x")) none ≡ err escapes_root
unfolding program
check_entry-escape = refl

check_entry-link :
    check_entry link (components (ascii "./jq/1.7/bin/jq")) (some (components (ascii "../jq")))
    ≡ ok (components (ascii "jq/1.7/bin/jq"))
unfolding program
check_entry-link = refl

check_entry-IsSafe_example :
    IsInside (components (ascii "./jq/1.7/bin/jq")) (components (ascii "jq/1.7/bin/jq"))
    × IsSafe link (components (ascii "jq/1.7/bin/jq")) (some (components (ascii "../jq")))
check_entry-IsSafe_example =
    check_entry-IsSafe link (components (ascii "./jq/1.7/bin/jq"))
      (some (components (ascii "../jq"))) check_entry-link

abbrev blobs : FilePath
unfolding components
blobs = components (ascii "/b")

abbrev cafes_path : FilePath
cafes_path = blobs ++ Component.normal (ascii "ca") ∷ Component.normal cafes ∷ []

blob_path-upper : blob_path blobs upper_cafes ≡ ok cafes_path
unfolding program blobs
blob_path-upper = refl

blob_path-lower : blob_path blobs cafes ≡ ok cafes_path
unfolding program blobs
blob_path-lower = refl

blob_path-eq_iff_example :
    (starts_with cafes_path blobs ≡ true)
    × ((cafes_path ≡ cafes_path) ↔ (parse upper_cafes ≡ parse cafes))
blob_path-eq_iff_example = blob_path-eq_iff blobs upper_cafes cafes blob_path-upper blob_path-lower
