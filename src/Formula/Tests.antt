-- ===== src/Formula/Tests.antt =====
-- Cellar types as texts, and a witness.
use brewdock.Base.{◌≡◌, ◌≢◌, refl, true, Text, ascii, text_eq}
use brewdock.Paths.{components, path_eq, component_eq}
use brewdock.Formula.{CellarType, any, path}
use brewdock.Formula.Cellar.{is_compatible, serialize, deserialize, serialize-deserialize}

program : Unit {0}
unfolding components path_eq component_eq is_compatible serialize deserialize text_eq
program = tt

abbrev homebrew : Text
homebrew = ascii "/opt/homebrew/Cellar"

is_compatible-slash :
    is_compatible (path (ascii "/opt/homebrew/Cellar/")) (components homebrew) ≡ true
unfolding program
is_compatible-slash = refl

deserialize-any : deserialize (ascii ":any") ≡ any
unfolding program
deserialize-any = refl

serialize-deserialize_example :
    (serialize (deserialize homebrew) ≡ homebrew)
    × ((c : CellarType)
        → c ≢ path (ascii ":any")
        → c ≢ path (ascii ":any_skip_relocation")
        → deserialize (serialize c) ≡ c)
serialize-deserialize_example = serialize-deserialize homebrew
