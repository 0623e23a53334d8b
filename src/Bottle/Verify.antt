-- ===== src/Bottle/Verify.antt =====
-- The check of a bottle's digest while its chunks arrive (crates/bottle/src/verify.rs, download.rs).
use mathlib.Core.List.{append_assoc, append-nil}
use brewdock.Base.{
  ok_eq, err_ok, ◌≡◌, refl, sym, ap, ◌∙◌, ◌↔◌, List, [], ◌∷◌, ◌++◌, Text, text_eq, text_eq_iff,
  arith, Result, ok, err, ◌>>=◌, ok_of_bind, Result-cases, Bool-cases, inl, inr,
}
use brewdock.Bottle.{
  BottleError, parse, StreamVerifier, new_verifier, update, finish, receive, download_verified,
}

abbrev pub concat : List Text → Text
concat [] = []
concat (chunk ∷ chunks) = chunk ++ concat chunks

module _ {S : Type 0} (new_hasher : S) (update_hasher : S → Text → S) (hex_digest : S → Text)
    (update_nil : (s : S) → update_hasher s [] ≡ s)
    (update_append : (s : S) (a b : Text)
      → update_hasher s (a ++ b) ≡ update_hasher (update_hasher s a) b)
    (hex_digest_lower : (s : S) → parse (hex_digest s) ≡ ok (hex_digest s)) where
  receive-concat :
      (v : StreamVerifier new_hasher update_hasher hex_digest) (body : Text) (chunks : List Text)
      → receive new_hasher update_hasher hex_digest v body chunks
        ≡ (update new_hasher update_hasher hex_digest v (concat chunks), body ++ concat chunks)
  unfolding receive update
  receive-concat v body [] = rw (update_nil v.hasher, append-nil body) refl
  receive-concat v body (chunk ∷ chunks) =
      receive-concat (update new_hasher update_hasher hex_digest v chunk) (body ++ chunk) chunks
      ∙ rw (update_append v.hasher chunk (concat chunks), append_assoc body chunk (concat chunks))
          refl

  finish_iff :
      (v : StreamVerifier new_hasher update_hasher hex_digest)
      → (finish new_hasher update_hasher hex_digest v ≡ ok tt) ↔ (hex_digest v.hasher ≡ v.expected)
  unfolding finish
  finish_iff v =
      rw (hex_digest_lower v.hasher, finish)
        (elim (Bool-cases (text_eq (hex_digest v.hasher) v.expected)) [
          | inl e ↦ rw e (λ _. (text_eq_iff (hex_digest v.hasher) v.expected).0 e, λ _. refl)
          | inr e ↦ rw e (
            λ bad. absurd (ground arith),
            λ same. absurd (ground (arith, (text_eq_iff (hex_digest v.hasher) v.expected).1 same)),
          )
        ])

  abbrev received : Text → List Text → StreamVerifier new_hasher update_hasher hex_digest
  received digest chunks = record {
    hasher = update_hasher new_hasher (concat chunks);
    expected = digest;
  }

  abbrev checked : Text → List Text → Result BottleError Text
  checked digest chunks =
      finish new_hasher update_hasher hex_digest (received digest chunks) >>= λ _.
      ok (concat chunks)

  download_verified-ok :
      (expected digest : Text) (chunks : List Text)
      → parse expected ≡ ok digest
      → download_verified new_hasher update_hasher hex_digest expected chunks
        ≡ checked digest chunks
  unfolding download_verified new_verifier update
  download_verified-ok expected digest chunks p =
      rw (p, new_verifier)
        (ap (λ r. finish new_hasher update_hasher hex_digest r.0 >>= λ _. ok r.1)
          (receive-concat (record { hasher = new_hasher; expected = digest }) [] chunks))

  download_verified-err :
      (expected : Text) (e : BottleError) (chunks : List Text)
      → parse expected ≡ err e
      → download_verified new_hasher update_hasher hex_digest expected chunks ≡ err e
  unfolding download_verified new_verifier
  download_verified-err expected e chunks p = rw (p, new_verifier) refl

  -- For a hasher that may be fed in pieces and whose digest is 64 digits in lower case: a download
  -- gives the received chunks in their order, and it does so exactly if the expected text is a digest,
  -- in upper or lower case, and that of all the bytes together. How they are cut into chunks makes
  -- no difference.
  pub download_verified_iff :
      (expected : Text) (chunks : List Text) (body : Text)
      → (download_verified new_hasher update_hasher hex_digest expected chunks ≡ ok body) ↔ (
          (body ≡ concat chunks)
          × (parse expected ≡ ok (hex_digest (update_hasher new_hasher (concat chunks)))))
  download_verified_iff expected chunks body = elim (Result-cases (parse expected)) [
    | inl (e, p) ↦ (
      λ d. absurd (err_ok (sym (download_verified-err expected e chunks p) ∙ d)),
      λ d. absurd (err_ok (sym p ∙ d.1)),
    )
    | inr (digest, p) ↦ (
      λ d.
          let (done, same, f) =
            ok_of_bind (finish new_hasher update_hasher hex_digest (received digest chunks)) _
              (sym (download_verified-ok expected digest chunks p) ∙ d) in
          (sym (ok_eq same), p ∙ ap ok (sym ((finish_iff (received digest chunks)).0 f))),
      λ d.
          download_verified-ok expected digest chunks p
          ∙ ap (λ r. r >>= λ _. ok (concat chunks))
              ((finish_iff (received digest chunks)).1 (sym (ok_eq (sym p ∙ d.1))))
          ∙ ap ok (sym d.0),
    )
  ]
