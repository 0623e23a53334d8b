-- ===== src/Bottle/Blobs.antt =====
-- Where the blobs lie (crates/bottle/src/store.rs: `blob_path`).
use Prim.Native.Nat.{◌<◌}
use brewdock.Base.{
  ok_eq, ℕ, suc, ◌≡◌, refl, sym, ap, ◌∙◌, ◌↔◌, inl, inr, true, ◌&&◌, some, [], ◌∷◌, ◌++◌, Text, map,
  ◌==◌, arith, ok, ok_of_bind, Bool-cases,
}
use brewdock.Base.Lists.{length}
use brewdock.Paths.{normal, FilePath, join_text, starts_with}
use brewdock.Paths.Names.{IsBehindSlash, components-IsBehindSlash}
use brewdock.PostInstall.{file_name}
use brewdock.Relocate.Replace.{take}
use brewdock.Rollback.Root.{starts_with-append, starts_with-child}
use brewdock.Version.Scan.{to_ascii_lowercase}
use brewdock.Discover.Linked.{IsComponent, join_text-IsComponent, file_name-snoc}
use brewdock.Bottle.{is_ascii_hexdigit, all_hexdigits, parse, blob_path}

to_ascii_lowercase-hexdigit : (b : ℕ) → is_ascii_hexdigit b ≡ true → b'/' < to_ascii_lowercase b
unfolding is_ascii_hexdigit
to_ascii_lowercase-hexdigit b h = ground (arith, h)

map-IsBehindSlash : (s : Text) → all_hexdigits s ≡ true → IsBehindSlash (map to_ascii_lowercase s)
unfolding all_hexdigits
map-IsBehindSlash [] h = tt
map-IsBehindSlash (b ∷ s) h =
    (to_ascii_lowercase-hexdigit b (ground (arith, h)), map-IsBehindSlash s (ground (arith, h)))

length-map_lowercase : (s : Text) → length (map to_ascii_lowercase s) ≡ length s
length-map_lowercase [] = refl
length-map_lowercase (b ∷ s) = ap suc (length-map_lowercase s)

parse-IsBehindSlash :
    (value : Text) {digest : Text}
    → parse value ≡ ok digest
    → (length digest ≡ 64) × IsBehindSlash digest
unfolding parse
parse-IsBehindSlash value {digest} e =
    elim (Bool-cases (length value == 64 && all_hexdigits value)) [
      | inl t ↦
          let same : map to_ascii_lowercase value ≡ digest = ok_eq (rw (t, parse) at e) in
          rw (← same) (
            length-map_lowercase value ∙ ground (arith, t),
            map-IsBehindSlash value (ground (arith, t)),
          )
      | inr t ↦ absurd (ground (arith, rw (t, parse) at e))
    ]

-- Both names of a blob's path are plain components.
digest-IsComponent :
    (digest : Text)
    → length digest ≡ 64
    → IsBehindSlash digest
    → IsComponent (take 2 digest) × IsComponent digest
unfolding take
digest-IsComponent [] n h = absurd (ground (arith, n))
digest-IsComponent (b ∷ []) n h = absurd (ground (arith, n))
digest-IsComponent (b ∷ c ∷ s) n h =
    (components-IsBehindSlash b (c ∷ []) (h.0, (h.1.0, tt)), components-IsBehindSlash b (c ∷ s) h)

blob_path-append :
    (root : FilePath) (sha256 : Text) {p : FilePath}
    → blob_path root sha256 ≡ ok p
    → (digest : Text) × (parse sha256 ≡ ok digest)
      × (p ≡ (root ++ normal (take 2 digest) ∷ []) ++ normal digest ∷ [])
unfolding blob_path
blob_path-append root sha256 e =
    let (digest, e', d) = ok_of_bind (parse sha256) _ e in
    let (n, h) = parse-IsBehindSlash sha256 d in
    let (shard, name) = digest-IsComponent digest n h in
    (
      digest,
      d,
      sym (ok_eq e')
          ∙ join_text-IsComponent (join_text root (take 2 digest)) digest name
          ∙ ap (λ q. q ++ normal digest ∷ []) (join_text-IsComponent root (take 2 digest) shard),
    )

-- The path of a blob lies in the root of the store, and two blobs have the same path exactly when their
-- digests are the same but for the case of letters.
pub blob_path-eq_iff :
    (root : FilePath) (a b : Text) {p q : FilePath}
    → blob_path root a ≡ ok p
    → blob_path root b ≡ ok q
    → (starts_with p root ≡ true) × ((p ≡ q) ↔ (parse a ≡ parse b))
blob_path-eq_iff root a b h k =
    let (d, dp, dq) = blob_path-append root a h in
    let (e, ep, eq) = blob_path-append root b k in
    (
      ap (λ r. starts_with r root) dq
          ∙ starts_with-child (root ++ normal (take 2 d) ∷ []) root (normal d ∷ [])
              (starts_with-append root (normal (take 2 d) ∷ [])),
      (
        λ same.
            let names : some d ≡ some e =
              sym (file_name-snoc (root ++ normal (take 2 d) ∷ []) d)
              ∙ ap file_name (sym dq ∙ same ∙ eq)
              ∙ file_name-snoc (root ++ normal (take 2 e) ∷ []) e in
            let digests : d ≡ e = ground (arith, names) in dp ∙ ap ok digests ∙ sym ep,
        λ same.
            let digests : d ≡ e = ok_eq (sym dp ∙ same ∙ ep) in
            dq ∙ ap (λ x. (root ++ normal (take 2 x) ∷ []) ++ normal x ∷ []) digests ∙ sym eq,
      ),
    )
