-- ===== src/Platform.antt =====
-- crates/core/src/platform.rs: host tags, and the macOS releases that they name. The detection of the
-- host by `sw_vers` and `uname` is not modelled.
pub mod Bottle
pub mod OsVersion
mod Tests
use brewdock.Base.{
  ℕ, Bool, true, false, Option, none, some, List, [], ◌∷◌, Text, ascii, text_eq, Result, ok, err,
  if◌then◌else◌, ◌==◌,
}

pub data PlatformError : Type 0 where
  invalid_host_tag : Text → PlatformError
  unsupported : PlatformError
  detection : Text → PlatformError

-- A `HostTag` is the text that it wraps.
abbrev pub HostTag : Type 0
HostTag = Text

-- `split_once('_')`
unfoldable pub split_once : Text → Option (Text × Text)
split_once [] = none
split_once (b ∷ s) =
    let later : Option (Text × Text) = elim (split_once s) [
      | none ↦ none
      | some (before, behind) ↦ some (b ∷ before, behind)
    ] in
    if b == b'_' then some ([], s) else later

unfoldable pub arch : HostTag → Text
unfolding split_once
arch tag = elim (split_once tag) [ none ↦ [] | some (before, _) ↦ before ]

unfoldable pub macos_codename_of : HostTag → Option Text
unfolding split_once
macos_codename_of tag = elim (split_once tag) [ none ↦ none | some (_, codename) ↦ some codename ]

abbrev pub macos_versions : List (ℕ × Text)
macos_versions =
    (26, ascii "tahoe")
    ∷ (15, ascii "sequoia")
    ∷ (14, ascii "sonoma")
    ∷ (13, ascii "ventura")
    ∷ (12, ascii "monterey")
    ∷ (11, ascii "big_sur")
    ∷ []

-- `find` by the major version, and by the name.
unfoldable pub codename_in : ℕ → List (ℕ × Text) → Result PlatformError Text
codename_in major [] = err unsupported
codename_in major ((m, name) ∷ rest) =
    let later = codename_in major rest in if m == major then ok name else later

unfoldable pub macos_codename : ℕ → Result PlatformError Text
unfolding codename_in
macos_codename major = codename_in major macos_versions

unfoldable pub major_in : Text → List (ℕ × Text) → Option ℕ
unfolding text_eq
major_in codename [] = none
major_in codename ((major, name) ∷ rest) =
    let later = major_in codename rest in if text_eq name codename then some major else later

unfoldable pub macos_major_from_codename : Text → Option ℕ
unfolding major_in
macos_major_from_codename codename = major_in codename macos_versions

unfoldable pub macos_major : HostTag → Option ℕ
unfolding macos_codename_of macos_major_from_codename
macos_major tag = elim (macos_codename_of tag) [
  | none ↦ none
  | some codename ↦ macos_major_from_codename codename
]

unfoldable pub contains : ℕ → Text → Bool
contains byte [] = false
contains byte (b ∷ s) = let later = contains byte s in if b == byte then true else later

-- `HostTag::from_str`
unfoldable pub from_str : Text → Result PlatformError HostTag
unfolding contains
from_str [] = err (invalid_host_tag [])
from_str (b ∷ s) = if contains b'_' (b ∷ s) then ok (b ∷ s) else err (invalid_host_tag (b ∷ s))
