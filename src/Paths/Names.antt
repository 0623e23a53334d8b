-- ===== src/Paths/Names.antt =====
-- Texts that are one plain component of a path (Rust's `Path::components`).
use Prim.Native.Nat.{◌<◌}
use brewdock.Base.{ℕ, ◌≡◌, refl, false, [], ◌∷◌, Text, text_eq, ◌==◌, arith}
use brewdock.Paths.{normal, split_slash, components_of, components}

-- Every byte comes behind the slash, and so behind the dot, in the order of bytes.
abbrev pub IsBehindSlash : Text → Type 0
IsBehindSlash [] = Unit
IsBehindSlash (b ∷ s) = (b'/' < b) × IsBehindSlash s

split_slash-IsBehindSlash : (s : Text) → IsBehindSlash s → split_slash s ≡ s ∷ []
unfolding split_slash
split_slash-IsBehindSlash [] h = refl
split_slash-IsBehindSlash (b ∷ s) h =
    let slash : (b == b'/') ≡ false = ground (arith, h.0) in
    rw (split_slash-IsBehindSlash s h.1, slash) refl

pub components-IsBehindSlash :
    (b : ℕ) (s : Text) → IsBehindSlash (b ∷ s) → components (b ∷ s) ≡ normal (b ∷ s) ∷ []
unfolding components components_of text_eq
components-IsBehindSlash b s h =
    let slash : (b == b'/') ≡ false = ground (arith, h.0) in
    let dot : (b == b'.') ≡ false = ground (arith, h.0) in
    rw (slash, split_slash-IsBehindSlash (b ∷ s) h, dot) refl
