-- ===== src/Bottle.antt =====
-- The crate crates/bottle: digests (error.rs), their check while a bottle is downloaded (verify.rs,
-- download.rs), the places of blobs (store.rs), and the paths of an archive (extract.rs).
--
-- SHA-256 is the package sha2: a hasher is an argument, as its states, its operations and its digest in
-- hexadecimal text.
pub mod Verify
pub mod Blobs
pub mod Archive
mod Tests
use brewdock.Base.{
  ℕ, Bool, true, false, ◌&&◌, ◌||◌, Option, none, some, List, [], ◌∷◌, ◌++◌, Text, text_eq, map,
  leb, ◌==◌, if◌then◌else◌, Result, ok, err, ◌>>=◌,
}
use brewdock.Base.Lists.{length}
use brewdock.Paths.{FilePath, join_text}
use brewdock.Relocate.Replace.{take}
use brewdock.Version.Scan.{is_ascii_digit, to_ascii_lowercase}

pub data BottleError : Type 0 where
  invalid_sha256 : (value : Text) → BottleError
  checksum_mismatch : (expected actual : Text) → BottleError
  download auth io : (message : Text) → BottleError

unfoldable pub is_ascii_hexdigit : ℕ → Bool
is_ascii_hexdigit b = is_ascii_digit b || (leb b'a' b && leb b b'f') || (leb b'A' b && leb b b'F')

unfoldable pub all_hexdigits : Text → Bool
unfolding is_ascii_hexdigit
all_hexdigits [] = true
all_hexdigits (b ∷ s) = is_ascii_hexdigit b && all_hexdigits s

-- A `Sha256Hex` is its text.
unfoldable pub parse : Text → Result BottleError Text
unfolding all_hexdigits
parse value =
    if length value == 64 && all_hexdigits value
    then ok (map to_ascii_lowercase value)
    else err (invalid_sha256 value)

unfoldable pub blob_path : FilePath → Text → Result BottleError FilePath
unfolding parse take join_text
blob_path root sha256 = do
  digest ← parse sha256
  ok (join_text (join_text root (take 2 digest)) digest)

module _ {S : Type 0} (new_hasher : S) (update_hasher : S → Text → S) (hex_digest : S → Text) where
  pub record StreamVerifier : Type 0 where
    pub hasher : S
    pub expected : Text

  unfoldable pub new_verifier : Text → Result BottleError StreamVerifier
  unfolding parse
  new_verifier expected_sha256 = do
    expected ← parse expected_sha256
    ok (record { hasher = new_hasher; expected = expected })

  unfoldable pub update : StreamVerifier → Text → StreamVerifier
  update self chunk = record self { hasher = update_hasher self.hasher chunk }

  unfoldable pub finish : StreamVerifier → Result BottleError Unit
  unfolding parse text_eq
  finish self = do
    actual ← parse (hex_digest self.hasher)
    if text_eq actual self.expected then ok tt else err (checksum_mismatch self.expected actual)

  unfoldable pub verify_sha256 : Text → Text → Result BottleError Unit
  unfolding new_verifier update finish
  verify_sha256 bytes expected_hex = do v ← new_verifier expected_hex; finish (update v bytes)

  -- The loop over the chunks of a response that is delivered in full.
  unfoldable pub receive : StreamVerifier → Text → List Text → StreamVerifier × Text
  unfolding update
  receive verifier body [] = (verifier, body)
  receive verifier body (chunk ∷ chunks) = receive (update verifier chunk) (body ++ chunk) chunks

  unfoldable pub download_verified : Text → List Text → Result BottleError Text
  unfolding new_verifier receive finish
  download_verified expected_sha256 chunks = do
    verifier ← new_verifier expected_sha256
    let (verified, body) = receive verifier [] chunks in do _ ← finish verified; ok body
