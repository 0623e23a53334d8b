-- ===== src/Platform/Bottle.antt =====
-- The bottle that is selected for a host (crates/formula/src/bottle_selection.rs), in terms of the
-- macOS releases that the tags name (crates/core/src/platform.rs).
use brewdock.Base.{
  ℕ, ◌≡◌, refl, sym, ◌∙◌, Bool, true, false, ◌||◌, ◌&&◌, Option, none, some, List, [], ◌∷◌, ◌++◌,
  map, Text, ascii, text_eq, Assoc, lookup, leb, arith, Bool-cases, Option-cases, inl, inr,
}
use brewdock.Formula.{Formula, BottleFile}
use brewdock.Formula.Select.{
  SelectedBottle, select_bottle, selected, first_bottle, bottle_candidates,
  apple_silicon_candidates, default_bottle_candidates, all, names_from, apple_silicon_codenames,
  arm64,
}
use brewdock.Version.Scan.{strip_prefix}
use brewdock.Platform.{
  HostTag, macos_major, macos_major_from_codename, major_in, macos_codename_of, split_once,
}

-- The tag is for every release, or for one that is no newer than the given major version.
abbrev pub runs_on : ℕ → Text → Bool
runs_on major tag =
    text_eq tag all || elim (macos_major tag) [ none ↦ false | some m ↦ leb m major ]

abbrev pub all_run : ℕ → List Text → Bool
all_run major [] = true
all_run major (tag ∷ tags) = runs_on major tag && all_run major tags

abbrev agree : Option (List Text) → Option ℕ → Bool
agree (some names) (some major) = all_run major (map arm64 names ++ all ∷ [])
agree _ _ = true

-- The tables agree: the codenames from one on are those of the releases up to its own.
codenames_agree :
    (codename : Text)
    → agree (names_from codename apple_silicon_codenames) (macos_major_from_codename codename)
      ≡ true
unfolding names_from macos_major_from_codename major_in
codenames_agree codename = elim (Bool-cases (text_eq (ascii "tahoe") codename)) [
  | inl e ↦ rw e (unfold text_eq macos_major in refl)
  | inr e ↦ elim (Bool-cases (text_eq (ascii "sequoia") codename)) [
    | inl f ↦ rw (e, f) (unfold text_eq macos_major in refl)
    | inr f ↦ elim (Bool-cases (text_eq (ascii "sonoma") codename)) [
      | inl g ↦ rw (e, f, g) (unfold text_eq macos_major in refl)
      | inr g ↦ elim (Bool-cases (text_eq (ascii "ventura") codename)) [
        | inl h ↦ rw (e, f, g, h) (unfold text_eq macos_major in refl)
        | inr h ↦ elim (Bool-cases (text_eq (ascii "monterey") codename)) [
          | inl k ↦ rw (e, f, g, h, k) (unfold text_eq macos_major in refl)
          | inr k ↦ elim (Bool-cases (text_eq (ascii "big_sur") codename)) [
            | inl l ↦ rw (e, f, g, h, k, l) (unfold text_eq macos_major in refl)
            | inr l ↦ rw (e, f, g, h, k, l)
          ]
        ]
      ]
    ]
  ]
]

strip_prefix-append : (s p r : Text) → strip_prefix s p ≡ some r → s ≡ p ++ r
unfolding strip_prefix
strip_prefix-append s [] r h = ground arith
strip_prefix-append [] (b ∷ p) r h = ground arith
strip_prefix-append (a ∷ s) (b ∷ p) r h = ground (arith, strip_prefix-append s p r)

macos_major-arm64 :
    (codename : Text) → macos_major (arm64 codename) ≡ macos_major_from_codename codename
unfolding macos_major macos_codename_of split_once
macos_major-arm64 codename = refl

runs_on_itself :
    (host_tag : HostTag) {major : ℕ}
    → macos_major host_tag ≡ some major
    → runs_on major host_tag ≡ true
runs_on_itself host_tag h = rw h (ground arith)

default_candidates_run :
    (host_tag : HostTag) (major : ℕ)
    → macos_major host_tag ≡ some major
    → all_run major (default_bottle_candidates host_tag) ≡ true
unfolding default_bottle_candidates
default_candidates_run host_tag major h = elim (Bool-cases (text_eq host_tag all)) [
  | inl e ↦ rw e (unfold text_eq in refl)
  | inr e ↦ rw (e, runs_on_itself host_tag h) (unfold text_eq in refl)
]

bottle_candidates_run :
    (host_tag : HostTag) (major : ℕ)
    → macos_major host_tag ≡ some major
    → all_run major (bottle_candidates host_tag) ≡ true
unfolding bottle_candidates apple_silicon_candidates
bottle_candidates_run host_tag major h =
    elim (Option-cases (strip_prefix host_tag (ascii "arm64_"))) [
      | inl e ↦ rw e (default_candidates_run host_tag major h)
      | inr (codename, e) ↦ elim (Option-cases (names_from codename apple_silicon_codenames)) [
        | inl f ↦ rw (e, f) (default_candidates_run host_tag major h)
        | inr (names, f) ↦
            let tag = strip_prefix-append host_tag (ascii "arm64_") codename e in
            let same = sym (macos_major-arm64 codename) ∙ (rw tag at h) in
            rw (e, f) (rw (f, same) at (codenames_agree codename))
      ]
    ]

first_bottle_runs :
    (candidates : List Text) (files : Assoc BottleFile) (major : ℕ) (bottle : SelectedBottle)
    → all_run major candidates ≡ true
    → first_bottle candidates files ≡ some bottle
    → runs_on major bottle.tag ≡ true
unfolding first_bottle
first_bottle_runs [] files major bottle h k = ground arith
first_bottle_runs (tag ∷ tags) files major bottle h k = elim (Option-cases (lookup tag files)) [
  | inl e ↦ first_bottle_runs tags files major bottle (ground arith) (rw (e, first_bottle) at k)
  | inr (file, e) ↦
      let same : selected tag file ≡ bottle = ground (arith, k, e) in rw (← same) (ground arith)
]

-- For a host whose tag names a macOS release, the selected bottle has the tag `all`, or the tag of
-- the same release or of an older one.
pub select_bottle-runs_on :
    (formula : Formula) (host_tag : HostTag) {major : ℕ} {bottle : SelectedBottle}
    → macos_major host_tag ≡ some major
    → select_bottle formula host_tag ≡ some bottle
    → runs_on major bottle.tag ≡ true
unfolding select_bottle
select_bottle-runs_on formula host_tag {major} {bottle} h k =
    elim (Option-cases formula.bottle.stable) [
      | inl e ↦ ground arith
      | inr (stable, e) ↦
          first_bottle_runs (bottle_candidates host_tag) stable.files major bottle
            (bottle_candidates_run host_tag major h) (rw (e, select_bottle) at k)
    ]
