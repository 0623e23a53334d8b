-- ===== src/Cleanup/Tests.antt =====
-- Two small stores, and witnesses.
use brewdock.Base.{
  ◌≡◌, refl, ◌↔◌, true, false, Option, none, some, List, [], ◌∷◌, ascii, text_eq, Text, lookup,
  arith, ◌+◌,
}
use brewdock.Formula.{Formula}
use brewdock.Formula.Samples.{sample_tag, sample_formula}
use brewdock.Formula.Select.{
  select_bottle, first_bottle, bottle_candidates, apple_silicon_candidates, names_from,
  default_bottle_candidates,
}
use brewdock.Version.Scan.{strip_prefix}
use brewdock.Cleanup.{
  file, directory, Entries, nil, entry, dir_size, total_size, is_kept, keep, remove, remove_dir,
  clean_top, clean_entries, cleanup_directory_tree, Stores, installed_sha, installed_shas,
  clean_store, cleanup,
}
use brewdock.Cleanup.Totals.{stores_size, cleanup-dry_run}
use brewdock.Cleanup.Kept.{
  HoldsStore, IsInstalled, IsExtracted, is_kept-installed_shas, cleanup-blobs, cleanup-extracted,
}

program : Unit {0}
unfolding text_eq lookup strip_prefix select_bottle first_bottle bottle_candidates
    apple_silicon_candidates names_from default_bottle_candidates dir_size total_size is_kept keep
    remove remove_dir clean_top clean_entries cleanup_directory_tree installed_sha installed_shas
    clean_store cleanup
program = tt

-- The metadata has the one formula, whose bottle has the digest `dead`.
abbrev stored : Text → Option Formula
unfolding text_eq
stored name = elim (text_eq name (ascii "jq")) [
  | true ↦ some (sample_formula (ascii "jq") [])
  | false ↦ none
]

abbrev blobs : Entries
blobs =
    entry (ascii "de")
      (directory (entry (ascii "dead") (file 7) (entry (ascii "deaf") (file 5) nil)))
      (entry (ascii "ab") (directory (entry (ascii "abba") (file 3) nil)) nil)

abbrev extracted : Entries
extracted =
    entry (ascii "dead")
      (directory (entry (ascii "jq") (directory (entry (ascii "1.7") (file 11) nil)) nil)) nil

abbrev stores : Stores
stores = record { blobs = some blobs; extracted = some extracted }

abbrev kegs : List Text
kegs = ascii "jq" ∷ []

cleanup-stores : (cleanup sample_tag stored kegs false stores).0 ≡ (record {
  blobs = some (entry (ascii "de") (directory (entry (ascii "dead") (file 7) nil)) nil);
  extracted = some nil;
})
unfolding program stored
cleanup-stores = refl

cleanup-dry_run_example :
    ((cleanup sample_tag stored kegs true stores).0 ≡ stores)
    × ((cleanup sample_tag stored kegs true stores).1
        ≡ (cleanup sample_tag stored kegs false stores).1)
    × (stores_size stores
        ≡ stores_size (cleanup sample_tag stored kegs false stores).0
          + (cleanup sample_tag stored kegs false stores).1.bytes_freed)
cleanup-dry_run_example = cleanup-dry_run sample_tag stored kegs stores

cleanup-blobs_example :
    HoldsStore
      (ascii "de")
      (ascii "dead")
      (file 7)
      (cleanup sample_tag stored kegs false stores).0.blobs
    ↔ (HoldsStore (ascii "de") (ascii "dead") (file 7) stores.blobs
        × IsInstalled sample_tag stored kegs (ascii "dead"))
cleanup-blobs_example =
    cleanup-blobs sample_tag stored kegs stores (ascii "de") (ascii "dead") (file 7)

is_installed-jq : is_kept (installed_shas sample_tag stored kegs) (ascii "jq") ≡ false
unfolding program stored
is_installed-jq = refl

jq-IsInstalled : ¬ IsInstalled sample_tag stored kegs (ascii "jq")
jq-IsInstalled installed = ground (
  arith,
  is_installed-jq,
  (is_kept-installed_shas sample_tag stored (ascii "jq") kegs).1 installed,
)

extracted-IsExtracted : IsExtracted sample_tag stored kegs extracted
unfolding program stored
extracted-IsExtracted = ((jq-IsInstalled, tt), tt)

cleanup-extracted_example : (cleanup sample_tag stored kegs false stores).0.extracted ≡ some nil
cleanup-extracted_example =
    cleanup-extracted sample_tag stored kegs (some blobs) extracted extracted-IsExtracted
