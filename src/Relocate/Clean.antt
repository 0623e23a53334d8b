-- ===== src/Relocate/Clean.antt =====
-- crates/cellar/src/relocate.rs: no placeholder is left in a file that was rewritten, and a file
-- without the marker is not rewritten, so that a manifest of the marked files is enough.
use brewdock.Base.{
  ℕ, ◌≡◌, refl, ◌∙◌, Bool, true, false, [], ◌∷◌, ◌++◌, Text, arith, Bool-cases, inl, inr, ascii,
  ◌==◌,
}
use brewdock.Relocate.Replace.{
  begins, contains_text, replace, replace_each, replace_placeholders, relocate_text_file,
  Replacements, has_placeholder, replacements_for, join, cellar_placeholder, prefix_placeholder,
  repository_placeholder,
}
use brewdock.Relocate.Once.{HasPatterns, relocate_text_file-replace_placeholders}
use brewdock.Relocate.Placeholder.{
  Lacks, IsPlaceholder, IsTarget, contains_text-replace, contains_text-replace_own,
}

abbrev pub IsTable : Replacements → Type 0
IsTable [] = Unit
IsTable ((placeholder, actual) ∷ replacements) =
    IsPlaceholder placeholder × IsTarget actual × IsTable replacements

replace_each-absent :
    (replacements : Replacements) (s p : Text) (changed : Bool)
    → IsTable replacements
    → IsPlaceholder p
    → contains_text p s ≡ false
    → contains_text p (replace_each replacements s changed).0 ≡ false
unfolding replace_each
replace_each-absent [] s p changed t h e = e
replace_each-absent ((placeholder, actual) ∷ replacements) s p changed t h e =
    elim (Bool-cases (contains_text placeholder s)) [
      | inl m ↦ rw m (
          replace_each-absent replacements (replace placeholder actual s) p true t.2 h
            (contains_text-replace placeholder actual p s t.0 t.1 h e))
      | inr m ↦ rw m (replace_each-absent replacements s p changed t.2 h e)
    ]

-- None of the table's placeholders stands in the text.
abbrev pub IsClean : Replacements → Text → Type 0
IsClean [] s = Unit
IsClean ((placeholder, actual) ∷ replacements) s =
    (contains_text placeholder s ≡ false) × IsClean replacements s

replace_each-IsClean :
    (replacements : Replacements) (s : Text) (changed : Bool)
    → IsTable replacements
    → IsClean replacements (replace_each replacements s changed).0
unfolding replace_each
replace_each-IsClean [] s changed t = tt
replace_each-IsClean ((placeholder, actual) ∷ replacements) s changed t =
    elim (Bool-cases (contains_text placeholder s)) [
      | inl m ↦ rw m (
        replace_each-absent replacements (replace placeholder actual s) placeholder true t.2 t.0
            (contains_text-replace_own placeholder actual s t.0 t.1),
        replace_each-IsClean replacements (replace placeholder actual s) true t.2,
      )
      | inr m ↦ rw m (
        replace_each-absent replacements s placeholder changed t.2 t.0 m,
        replace_each-IsClean replacements s changed t.2,
      )
    ]

replace_each_changed :
    (replacements : Replacements) (s : Text) → (replace_each replacements s true).1 ≡ true
unfolding replace_each
replace_each_changed [] s = refl
replace_each_changed ((placeholder, actual) ∷ replacements) s = ground (
  arith,
  replace_each_changed replacements s,
  replace_each_changed replacements (replace placeholder actual s),
)

replace_each_same :
    (replacements : Replacements) (s : Text)
    → (replace_each replacements s false).1 ≡ false
    → (replace_each replacements s false).0 ≡ s
unfolding replace_each
replace_each_same [] s e = refl
replace_each_same ((placeholder, actual) ∷ replacements) s e = ground (
  arith,
  replace_each_same replacements s,
  replace_each_changed replacements (replace placeholder actual s),
)

relocate_text_file-replace_each :
    (bytes : Text) (replacements : Replacements)
    → HasPatterns replacements
    → relocate_text_file bytes replacements ≡ (replace_each replacements bytes false).0
unfolding replace_placeholders
relocate_text_file-replace_each bytes replacements h =
    rw (relocate_text_file-replace_placeholders bytes replacements h)
      (ground (arith, replace_each_same replacements bytes))

join-Lacks : (s name : Text) → Lacks b'@' s → Lacks b'@' name → Lacks b'@' (join s name)
unfolding join
join-Lacks [] name h n = n
join-Lacks (b ∷ []) name h n = elim (Bool-cases (b == b'/')) [
  | inl e ↦ rw e (h.0, n)
  | inr e ↦ rw e (h.0, (ground arith, n))
]
join-Lacks (b ∷ c ∷ s) name h n = (h.0, join-Lacks (c ∷ s) name h.1 n)

join-IsTarget : (s name : Text) → IsTarget s → Lacks b'@' name → IsTarget (join s name)
unfolding join
join-IsTarget [] name t n = absurd t
join-IsTarget (b ∷ []) name t n = elim (Bool-cases (b == b'/')) [
  | inl e ↦ rw e (t.0, n)
  | inr e ↦ rw e (t.0, (ground arith, n))
]
join-IsTarget (b ∷ c ∷ s) name t n = (t.0, join-Lacks (c ∷ s) name t.1 n)

cellar_placeholder-IsPlaceholder : IsPlaceholder cellar_placeholder
cellar_placeholder-IsPlaceholder = ground arith

prefix_placeholder-IsPlaceholder : IsPlaceholder prefix_placeholder
prefix_placeholder-IsPlaceholder = ground arith

repository_placeholder-IsPlaceholder : IsPlaceholder repository_placeholder
repository_placeholder-IsPlaceholder = ground arith

replacements_for-IsTable : (prefix : Text) → IsTarget prefix → IsTable (replacements_for prefix)
unfolding replacements_for
replacements_for-IsTable prefix t = (
  cellar_placeholder-IsPlaceholder,
  join-IsTarget prefix (ascii "Cellar") t (ground arith),
  (prefix_placeholder-IsPlaceholder, t, (repository_placeholder-IsPlaceholder, t, tt)),
)

replacements_for-HasPatterns : (prefix : Text) → HasPatterns (replacements_for prefix)
unfolding replacements_for
replacements_for-HasPatterns prefix = (ground arith, (ground arith, (ground arith, tt)))

-- For a prefix that begins with a slash and has no `@`, a file that was rewritten holds none of the
-- three placeholders, whatever it held before.
pub relocate_text_file-IsClean :
    (prefix bytes : Text)
    → IsTarget prefix
    → IsClean (replacements_for prefix) (relocate_text_file bytes (replacements_for prefix))
relocate_text_file-IsClean prefix bytes t =
    rw
      (relocate_text_file-replace_each bytes (replacements_for prefix)
        (replacements_for-HasPatterns prefix))
      (replace_each-IsClean (replacements_for prefix) bytes false
        (replacements_for-IsTable prefix t))

begins-append : (m tail s : Text) → begins m s ≡ false → begins (m ++ tail) s ≡ false
unfolding begins
begins-append [] tail s e = ground arith
begins-append (a ∷ m) tail [] e = refl
begins-append (a ∷ m) tail (b ∷ s) e = ground (arith, begins-append m tail s)

contains_text-append :
    (a : ℕ) (m tail s : Text)
    → contains_text (a ∷ m) s ≡ false
    → contains_text (a ∷ m ++ tail) s ≡ false
unfolding contains_text
contains_text-append a m tail [] e = begins-append (a ∷ m) tail [] e
contains_text-append a m tail (b ∷ s) e =
    ground (arith, begins-append (a ∷ m) tail (b ∷ s), contains_text-append a m tail s)

-- A file without the marker `@@HOMEBREW_` is one that the rewriting does not change.
pub relocate_text_file_unmarked :
    (prefix bytes : Text)
    → has_placeholder bytes ≡ false
    → relocate_text_file bytes (replacements_for prefix) ≡ bytes
unfolding has_placeholder replacements_for replace_each
relocate_text_file_unmarked prefix bytes e =
    relocate_text_file-replace_each bytes (replacements_for prefix)
      (replacements_for-HasPatterns prefix)
    ∙ rw
        (
          contains_text-append b'@' (ascii "@HOMEBREW_") (ascii "CELLAR@@") bytes e,
          contains_text-append b'@' (ascii "@HOMEBREW_") (ascii "PREFIX@@") bytes e,
          contains_text-append b'@' (ascii "@HOMEBREW_") (ascii "REPOSITORY@@") bytes e,
        )
        refl
