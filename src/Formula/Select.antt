-- ===== src/Formula/Select.antt =====
-- crates/formula/src/bottle_selection.rs: the bottle for a host tag.
use brewdock.Base.{
  Option, none, some, List, [], ◌∷◌, ◌++◌, map, Text, ascii, text_eq, Assoc, lookup, if◌then◌else◌,
}
use brewdock.Formula.{CellarType, BottleFile, Formula}
use brewdock.Version.Scan.{strip_prefix}

abbrev pub apple_silicon_codenames : List Text
apple_silicon_codenames =
    ascii "tahoe"
    ∷ ascii "sequoia"
    ∷ ascii "sonoma"
    ∷ ascii "ventura"
    ∷ ascii "monterey"
    ∷ ascii "big_sur"
    ∷ []

pub record SelectedBottle : Type 0 where
  pub tag : Text
  pub url : Text
  pub sha256 : Text
  pub cellar : CellarType

-- `position`, and the slice from there on.
unfoldable pub names_from : Text → List Text → Option (List Text)
unfolding text_eq
names_from codename [] = none
names_from codename (candidate ∷ rest) =
    let later = names_from codename rest in
    if text_eq candidate codename then some (candidate ∷ rest) else later

abbrev pub all : Text
all = ascii "all"

abbrev pub arm64 : Text → Text
arm64 codename = ascii "arm64_" ++ codename

unfoldable pub apple_silicon_candidates : Text → Option (List Text)
unfolding strip_prefix names_from
apple_silicon_candidates host_tag = elim (strip_prefix host_tag (ascii "arm64_")) [
  | none ↦ none
  | some codename ↦ elim (names_from codename apple_silicon_codenames) [
    | none ↦ none
    | some names ↦ some (map arm64 names ++ all ∷ [])
  ]
]

unfoldable pub default_bottle_candidates : Text → List Text
unfolding text_eq
default_bottle_candidates host_tag = if text_eq host_tag all then all ∷ [] else host_tag ∷ all ∷ []

unfoldable pub bottle_candidates : Text → List Text
unfolding apple_silicon_candidates default_bottle_candidates
bottle_candidates host_tag = elim (apple_silicon_candidates host_tag) [
  | some candidates ↦ candidates
  | none ↦ default_bottle_candidates host_tag
]

abbrev pub selected : Text → BottleFile → SelectedBottle
selected candidate file = record {
  tag = candidate;
  url = file.url;
  sha256 = file.sha256;
  cellar = file.cellar;
}

-- `find_map` over the candidates.
unfoldable pub first_bottle : List Text → Assoc BottleFile → Option SelectedBottle
unfolding lookup
first_bottle [] files = none
first_bottle (candidate ∷ rest) files =
    let later = first_bottle rest files in
    elim (lookup candidate files) [ some file ↦ some (selected candidate file) | none ↦ later ]

unfoldable pub select_bottle : Formula → Text → Option SelectedBottle
unfolding first_bottle bottle_candidates
select_bottle formula host_tag = elim formula.bottle.stable [
  | none ↦ none
  | some stable ↦ first_bottle (bottle_candidates host_tag) stable.files
]
