-- ===== src/Relocate/Replace.antt =====
-- crates/cellar/src/relocate.rs: the replacement of placeholders in a buffer of bytes and in a string
-- (`replace_bytes`, `relocate_text_file`, `replace_placeholders`), and the tests on a file's bytes.
use brewdock.Base.{
  ℕ, zero, suc, ◌+◌, Bool, true, false, ◌||◌, Option, none, some, List, [], ◌∷◌, ◌++◌, Text, ascii,
  text_eq, if◌then◌else◌, ◌==◌, leb,
}
use brewdock.Base.Lists.{length}

abbrev pub prefix_placeholder : Text
prefix_placeholder = ascii "@@HOMEBREW_PREFIX@@"

abbrev pub cellar_placeholder : Text
cellar_placeholder = ascii "@@HOMEBREW_CELLAR@@"

abbrev pub repository_placeholder : Text
repository_placeholder = ascii "@@HOMEBREW_REPOSITORY@@"

abbrev pub marker : Text
marker = ascii "@@HOMEBREW_"

unfoldable pub take : ℕ → Text → Text
take zero s = []
take (suc n) [] = []
take (suc n) (b ∷ s) = b ∷ take n s

unfoldable pub drop : ℕ → Text → Text
drop zero s = s
drop (suc n) [] = []
drop (suc n) (b ∷ s) = drop n s

-- Whether a text stands at the front of another.
unfoldable pub begins : Text → Text → Bool
begins [] s = true
begins (a ∷ from) [] = false
begins (a ∷ from) (b ∷ s) = let rest = begins from s in if a == b then rest else false

-- `str::contains_text`, and `windows(..).any(..)`
unfoldable pub contains_text : Text → Text → Bool
unfolding begins
contains_text from [] = begins from []
contains_text from (b ∷ s) = begins from (b ∷ s) || contains_text from s

unfoldable pub has_placeholder : Text → Bool
unfolding contains_text
has_placeholder bytes = contains_text marker bytes

abbrev pub mh_magic_64 : Text
mh_magic_64 = 207 ∷ 250 ∷ 237 ∷ 254 ∷ []

abbrev pub fat_magic : Text
fat_magic = 202 ∷ 254 ∷ 186 ∷ 190 ∷ []

unfoldable pub is_macho : Text → Bool
unfolding text_eq
is_macho (a ∷ b ∷ c ∷ d ∷ bytes) =
    let magic = a ∷ b ∷ c ∷ d ∷ [] in text_eq magic mh_magic_64 || text_eq magic fat_magic
is_macho bytes = false

-- The loop of `replace_bytes` from position `i` on. Its fuel is one unit for each round.
unfoldable pub replace_loop : ℕ → Text → Text → Text → ℕ → Bool → Text × Bool
unfolding take drop text_eq
replace_loop zero from to bytes i changed = (bytes, changed)
replace_loop (suc fuel) from to bytes i changed =
    let replaced =
      replace_loop fuel from to (take i bytes ++ to ++ drop (i + length from) bytes) (i + length to)
        true in
    let skipped = replace_loop fuel from to bytes (suc i) changed in
    if leb (i + length from) (length bytes)
    then if text_eq (take (length from) (drop i bytes)) from then replaced else skipped
    else (bytes, changed)

-- Each round leaves one of the given bytes behind.
unfoldable pub replace_bytes : Text → Text → Text → Text × Bool
unfolding replace_loop
replace_bytes bytes from to = replace_loop (suc (length bytes)) from to bytes 0 false

-- `str::replace` for a pattern that is not empty: the first number counts the bytes that belong to an occurrence already replaced.
unfoldable pub replace_from : Text → Text → ℕ → Text → Text
unfolding begins
replace_from from to skip [] = []
replace_from from to (suc skip) (b ∷ s) = replace_from from to skip s
replace_from [] to zero (b ∷ s) = b ∷ s
replace_from (a ∷ from) to zero (b ∷ s) =
    let replaced = replace_from (a ∷ from) to (length from) s in
    let kept = replace_from (a ∷ from) to zero s in
    if begins (a ∷ from) (b ∷ s) then to ++ replaced else b ∷ kept

unfoldable pub replace : Text → Text → Text → Text
unfolding replace_from
replace from to s = replace_from from to zero s

abbrev pub Replacements : Type 0
Replacements = List (Text × Text)

-- `Path::join` on the path's text.
unfoldable pub join : Text → Text → Text
join [] name = name
join (b ∷ []) name = if b == b'/' then b ∷ name else b ∷ b'/' ∷ name
join (b ∷ c ∷ s) name = b ∷ join (c ∷ s) name

-- The table of `relocate_keg_with_manifest`.
unfoldable pub replacements_for : Text → Replacements
unfolding join
replacements_for prefix =
    (cellar_placeholder, join prefix (ascii "Cellar"))
    ∷ (prefix_placeholder, prefix)
    ∷ (repository_placeholder, prefix)
    ∷ []

-- The content and the flag behind the loop of `relocate_text_file`.
unfoldable pub rewrite : Replacements → Text × Bool → Text × Bool
unfolding replace_bytes
rewrite [] (content, changed) = (content, changed)
rewrite ((placeholder, actual) ∷ replacements) (content, changed) =
    let (new, replaced) = replace_bytes content placeholder actual in
    rewrite replacements (new, changed || replaced)

-- What the file holds in the end; it is written only if it changed.
unfoldable pub relocate_text_file : Text → Replacements → Text
unfolding rewrite
relocate_text_file bytes replacements =
    let (content, changed) = rewrite replacements (bytes, false) in
    if changed then content else bytes

unfoldable pub replace_each : Replacements → Text → Bool → Text × Bool
unfolding contains_text replace
replace_each [] result changed = (result, changed)
replace_each ((placeholder, actual) ∷ replacements) result changed =
    if contains_text placeholder result
    then replace_each replacements (replace placeholder actual result) true
    else replace_each replacements result changed

unfoldable pub replace_placeholders : Text → Replacements → Option Text
unfolding replace_each
replace_placeholders s replacements =
    let (result, changed) = replace_each replacements s false in
    if changed then some result else none
