-- ===== src/Relocate/Tests.antt =====
-- A small keg, and witnesses.
use brewdock.Base.{
  ◌≡◌, refl, true, ℕ, [], ◌∷◌, ascii, text_eq, Text, lookup, insert, ok, Result, arith,
}
use brewdock.Relocate.Replace.{
  take, drop, begins, contains_text, has_placeholder, is_macho, replace_loop, replace_bytes,
  replace_from, replace, join, replacements_for, rewrite, relocate_text_file, replace_each,
  replace_placeholders,
}
use brewdock.Relocate.Once.{replace_bytes-eq-replace}
use brewdock.Relocate.Clean.{IsClean, relocate_text_file-IsClean}
use brewdock.Relocate.Keg.{
  FileRead, content, Keg, full, has_work, derive, relocate_marked, relocate_file, relocate_path,
  relocate_keg_with_manifest, relocate_keg, relocate_all, relocate_keg-relocate_all,
}

program : Unit {0}
unfolding text_eq lookup insert take drop begins contains_text has_placeholder is_macho replace_loop
    replace_bytes replace_from replace join replacements_for rewrite relocate_text_file replace_each
    replace_placeholders has_work derive relocate_marked relocate_file relocate_path
    relocate_keg_with_manifest relocate_keg relocate_all
program = tt

abbrev script : Text
script = ascii "#!@@HOMEBREW_CELLAR@@/jq/bin"

replace_bytes-eq-replace_example : replace_bytes (ascii "a--b---c") (ascii "--") (ascii "+") ≡ (
  replace (ascii "--") (ascii "+") (ascii "a--b---c"),
  contains_text (ascii "--") (ascii "a--b---c"),
)
replace_bytes-eq-replace_example =
    replace_bytes-eq-replace (ascii "--") (ascii "+") (ascii "a--b---c") (ground arith)

replace_bytes-dashes :
    replace_bytes (ascii "a--b---c") (ascii "--") (ascii "+") ≡ (ascii "a+b+-c", true)
unfolding program
replace_bytes-dashes = refl

relocate_text_file-script :
    relocate_text_file script (replacements_for (ascii "/opt")) ≡ ascii "#!/opt/Cellar/jq/bin"
unfolding program
relocate_text_file-script = refl

relocate_text_file-IsClean_example :
    IsClean
      (replacements_for (ascii "/opt"))
      (relocate_text_file script (replacements_for (ascii "/opt")))
relocate_text_file-IsClean_example = relocate_text_file-IsClean (ascii "/opt") script (ground arith)

-- What the tools leave of a Mach-O file.
abbrev patched : Text → Result ℕ (FileRead ℕ)
patched bytes = ok (content [])

abbrev keg : Keg ℕ
keg =
    (ascii "bin/jq", content script)
    ∷ (ascii "README", content (ascii "plain"))
    ∷ (ascii "lib", content (207 ∷ 250 ∷ 237 ∷ 254 ∷ ascii "@@HOMEBREW_PREFIX@@"))
    ∷ []

derive-keg : derive keg ≡ ok (ascii "bin/jq" ∷ ascii "lib" ∷ [])
unfolding program
derive-keg = refl

relocate_keg-relocate_all_example :
    relocate_keg 0 patched (ascii "/opt") full keg ≡ relocate_all 0 patched (ascii "/opt") full keg
relocate_keg-relocate_all_example =
    relocate_keg-relocate_all 0 patched (ascii "/opt") full keg (ascii "bin/jq" ∷ ascii "lib" ∷ [])
      derive-keg ((ground arith, (ground arith, tt)), ((ground arith, tt), (tt, tt)))
