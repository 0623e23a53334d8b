-- ===== src/Paths/Tests.antt =====
-- Paths and link targets, and witnesses.
use brewdock.Base.{◌≡◌, refl, ascii, text_eq}
use brewdock.Paths.{
  FilePath, components, join, path_eq, component_eq, common_parts, relative_from_to, normalize_path,
  normalize_from, pop, push,
}
use brewdock.Paths.Relative.{normalize_path-relative_from_to}

program : Unit {0}
unfolding components path_eq component_eq common_parts relative_from_to normalize_path
    normalize_from pop push text_eq
program = tt

abbrev bin : FilePath
unfolding components
bin = components (ascii "/opt/homebrew/bin")

abbrev tool : FilePath
unfolding components
tool = components (ascii "/opt//homebrew/Cellar/./jq/1.7/bin/jq")

relative-tool : relative_from_to bin tool ≡ components (ascii "../Cellar/jq/1.7/bin/jq")
unfolding program
relative-tool = refl

normalize_path-relative_from_to_example :
    normalize_path (join bin (relative_from_to bin tool)) ≡ tool
unfolding components
normalize_path-relative_from_to_example = normalize_path-relative_from_to bin tool tt tt
