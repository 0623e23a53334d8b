-- ===== src/Formula/Cellar.antt =====
-- crates/formula/src/cellar_type.rs: the text form of a cellar type, and the paths that it fits.
use brewdock.Base.{
  ◌≡◌, ◌≢◌, refl, Bool, true, Text, ascii, text_eq, text_eq_iff, if◌then◌else◌, arith,
}
use brewdock.Formula.{CellarType, any, any_skip_relocation, path}
use brewdock.Paths.{FilePath, components, path_eq}

unfoldable pub is_compatible : CellarType → FilePath → Bool
unfolding components path_eq
is_compatible any cellar_path = true
is_compatible any_skip_relocation cellar_path = true
is_compatible (path p) cellar_path = path_eq (components p) cellar_path

-- `Serialize`, and `Display` alike.
unfoldable pub serialize : CellarType → Text
serialize any = ascii ":any"
serialize any_skip_relocation = ascii ":any_skip_relocation"
serialize (path p) = p

unfoldable pub deserialize : Text → CellarType
unfolding text_eq
deserialize s =
    if text_eq s (ascii ":any")
    then any
    else if text_eq s (ascii ":any_skip_relocation")
    then any_skip_relocation
    else path s

-- Reading the text form of a cellar type gives it back, unless it is a path that is spelt like one of
-- the two keywords; and writing what was read gives the text back, whatever it is.
pub serialize-deserialize :
    (s : Text)
    → (serialize (deserialize s) ≡ s)
      × ((c : CellarType)
          → c ≢ path (ascii ":any")
          → c ≢ path (ascii ":any_skip_relocation")
          → deserialize (serialize c) ≡ c)
unfolding serialize deserialize
serialize-deserialize s = (there, λ c. back c)
  where
    there : serialize (deserialize s) ≡ s
    there =
        ground (arith, text_eq_iff s (ascii ":any"), text_eq_iff s (ascii ":any_skip_relocation"))

    back :
        (c : CellarType)
        → c ≢ path (ascii ":any")
        → c ≢ path (ascii ":any_skip_relocation")
        → deserialize (serialize c) ≡ c
    back any h k = refl
    back any_skip_relocation h k = refl
    back (path p) h k =
        ground (arith, text_eq_iff p (ascii ":any"), text_eq_iff p (ascii ":any_skip_relocation"))
