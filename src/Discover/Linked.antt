-- ===== src/Discover/Linked.antt =====
-- A keg that the opt directory links to is one that crates/cellar/src/discover.rs finds, whether the
-- link is relative, as `materialize` makes it (crates/cellar/src/materialize.rs), or absolute, as
-- `refresh_opt_link` makes it (crates/core/src/finalize.rs).
use brewdock.Base.{
  ℕ, zero, suc, ◌≡◌, refl, sym, ◌∙◌, ap, subst, Bool, true, false, some, [], ◌∷◌, ◌++◌, Text, ascii,
  arith, ok, ◌⊎◌, inl, inr,
}
use brewdock.Paths.{
  Component, root_dir, cur_dir, parent_dir, normal, FilePath, components, join_text, path_eq,
  parents, relative_from_to,
}
use brewdock.Paths.Relative.{IsNames, IsResolved, component_eq_refl}
use brewdock.Paths.Absolute.{
  relative_from_to-IsNames, normalize_absolute_path-IsResolved,
  normalize_absolute_path-relative_from_to,
}
use brewdock.PostInstall.{file_name, parent}
use brewdock.Discover.{
  LinkRead, links_to, ReceiptRead, receipt, is_absolute, join_relative, from_link, and_normalize,
  normalize_opt_target, read_metadata, check_version, check_target, find_installed_keg,
}

-- The text is one plain component, as a formula's name and a version are.
abbrev pub IsComponent : Text → Type 0
IsComponent name = components name ≡ normal name ∷ []

pub join_text-IsComponent :
    (p : FilePath) (name : Text) → IsComponent name → join_text p name ≡ p ++ normal name ∷ []
unfolding join_text
join_text-IsComponent p name h = rw (h, join_text) refl

parent-snoc :
    (c : Component) (p : FilePath) (s : Text) → parent ((c ∷ p) ++ normal s ∷ []) ≡ some (c ∷ p)
unfolding parent
parent-snoc root_dir [] s = refl
parent-snoc cur_dir [] s = refl
parent-snoc parent_dir [] s = refl
parent-snoc (normal t) [] s = refl
parent-snoc root_dir (d ∷ p) s = rw (parent-snoc d p s) refl
parent-snoc cur_dir (d ∷ p) s = rw (parent-snoc d p s) refl
parent-snoc parent_dir (d ∷ p) s = rw (parent-snoc d p s) refl
parent-snoc (normal t) (d ∷ p) s = rw (parent-snoc d p s) refl

file_name-cons : (c d : Component) (p : FilePath) → file_name (c ∷ d ∷ p) ≡ file_name (d ∷ p)
unfolding file_name
file_name-cons root_dir d p = refl
file_name-cons cur_dir d p = refl
file_name-cons parent_dir d p = refl
file_name-cons (normal s) d p = refl

pub file_name-snoc : (p : FilePath) (s : Text) → file_name (p ++ normal s ∷ []) ≡ some s
unfolding file_name
file_name-snoc [] s = refl
file_name-snoc (c ∷ []) s = file_name-cons c (normal s) []
file_name-snoc (c ∷ d ∷ p) s = file_name-cons c d (p ++ normal s ∷ []) ∙ file_name-snoc (d ∷ p) s

path_eq_refl : (p : FilePath) → path_eq p p ≡ true
unfolding path_eq
path_eq_refl [] = refl
path_eq_refl (c ∷ p) = ground (arith, component_eq_refl c, path_eq_refl p)

IsNames-append : (p q : FilePath) → IsNames p → IsNames q → IsNames (p ++ q)
IsNames-append [] q h k = k
IsNames-append (normal s ∷ p) q h k = IsNames-append p q h k
IsNames-append (root_dir ∷ p) q h k = absurd h
IsNames-append (cur_dir ∷ p) q h k = absurd h
IsNames-append (parent_dir ∷ p) q h k = absurd h

IsResolved-snoc : (p : FilePath) (s : Text) → IsResolved p → IsResolved (p ++ normal s ∷ [])
IsResolved-snoc [] s h = absurd h
IsResolved-snoc (root_dir ∷ p) s h = IsNames-append p (normal s ∷ []) h tt
IsResolved-snoc (cur_dir ∷ p) s h = absurd h
IsResolved-snoc (parent_dir ∷ p) s h = absurd h
IsResolved-snoc (normal t ∷ p) s h = absurd h

-- A way up and names, from a directory that is not empty.
normalize-relative :
    (opt_dir : FilePath) (n : ℕ) (names : FilePath)
    → IsResolved opt_dir
    → IsNames names
    → (is_absolute (parents n ++ names) ≡ false)
      × (join_relative opt_dir (parents n ++ names) ≡ opt_dir ++ (parents n ++ names))
unfolding is_absolute join_relative
normalize-relative [] n names h k = absurd h
normalize-relative (c ∷ p) (suc n) names h k = (refl, refl)
normalize-relative (c ∷ p) zero [] h k = (refl, refl)
normalize-relative (c ∷ p) zero (normal s ∷ names) h k = (refl, refl)
normalize-relative (c ∷ p) zero (root_dir ∷ names) h k = absurd k
normalize-relative (c ∷ p) zero (cur_dir ∷ names) h k = absurd k
normalize-relative (c ∷ p) zero (parent_dir ∷ names) h k = absurd k

parent-opt :
    (opt_dir : FilePath) (s : Text)
    → IsResolved opt_dir
    → parent (opt_dir ++ normal s ∷ []) ≡ some opt_dir
parent-opt [] s h = absurd h
parent-opt (c ∷ p) s h = parent-snoc c p s

normalize_opt_target-linked :
    (opt_dir keg_path : FilePath) (s : Text)
    → IsResolved opt_dir
    → IsResolved keg_path
    → normalize_opt_target (opt_dir ++ normal s ∷ []) (relative_from_to opt_dir keg_path)
      ≡ some keg_path
unfolding normalize_opt_target from_link and_normalize
normalize_opt_target-linked opt_dir keg_path s o k =
    let (n, names, e, h) = relative_from_to-IsNames opt_dir keg_path o k in
    let (relative, joined) = normalize-relative opt_dir n names o h in
    let absolute : is_absolute (relative_from_to opt_dir keg_path) ≡ false =
      ap is_absolute e ∙ relative in
    let below : join_relative opt_dir (relative_from_to opt_dir keg_path)
        ≡ opt_dir ++ relative_from_to opt_dir keg_path =
      ap (join_relative opt_dir) e ∙ joined ∙ ap (λ q. opt_dir ++ q) (sym e) in
    rw (absolute, parent-opt opt_dir s o, below)
      (normalize_absolute_path-relative_from_to opt_dir keg_path o k)

normalize_opt_target-absolute :
    (opt_link keg_path : FilePath)
    → IsResolved keg_path
    → normalize_opt_target opt_link keg_path ≡ some keg_path
unfolding normalize_opt_target and_normalize is_absolute
normalize_opt_target-absolute opt_link (root_dir ∷ names) h =
    normalize_absolute_path-IsResolved (root_dir ∷ names) h
normalize_opt_target-absolute opt_link [] h = absurd h
normalize_opt_target-absolute opt_link (cur_dir ∷ p) h = absurd h
normalize_opt_target-absolute opt_link (parent_dir ∷ p) h = absurd h
normalize_opt_target-absolute opt_link (normal s ∷ p) h = absurd h

-- The two targets that a link to the keg gets.
normalize_opt_target-keg :
    (opt_dir keg_path t : FilePath) (s : Text)
    → IsResolved opt_dir
    → IsResolved keg_path
    → (t ≡ relative_from_to opt_dir keg_path) ⊎ (t ≡ keg_path)
    → normalize_opt_target (opt_dir ++ normal s ∷ []) t ≡ some keg_path
normalize_opt_target-keg opt_dir keg_path t s o k (inl e) =
    rw e (normalize_opt_target-linked opt_dir keg_path s o k)
normalize_opt_target-keg opt_dir keg_path t s o k (inr e) =
    rw e (normalize_opt_target-absolute (opt_dir ++ normal s ∷ []) keg_path k)

module _ {E : Type 0} (read_link : FilePath → LinkRead E) (read_receipt : FilePath → ReceiptRead E)
    (cellar opt_dir : FilePath) where
  find_installed_keg-links_to :
      (name : Text) (t : FilePath)
      → read_link (join_text opt_dir name) ≡ links_to t
      → find_installed_keg read_link read_receipt cellar opt_dir name
        ≡ check_target read_link read_receipt cellar opt_dir name
            (normalize_opt_target (join_text opt_dir name) t)
  unfolding find_installed_keg
  find_installed_keg-links_to name t link = rw (link, find_installed_keg) refl

  check_target-receipt :
      (name version : Text) {on_request : Bool} (keg_path : FilePath)
      → keg_path ≡ join_text (join_text cellar name) version
      → file_name keg_path ≡ some version
      → read_receipt (join_text keg_path (ascii "INSTALL_RECEIPT.json")) ≡ receipt on_request
      → check_target read_link read_receipt cellar opt_dir name (some keg_path)
        ≡ ok (
            some (record { name = name; pkg_version = version; installed_on_request = on_request }))
  unfolding check_target check_version read_metadata
  check_target-receipt name version keg_path k f found =
      rw (f, sym k, path_eq_refl keg_path) (rw (found, read_metadata) refl)

  -- Where the link of a name in the opt directory is to the keg of a version of it in the cellar, as the
  -- relative path from that directory or as the absolute path, both directories being absolute and
  -- without dots, the name and the version plain components, and the keg has a receipt,
  -- find_installed_keg finds that version, requested or not as the receipt says.
  pub find_installed_keg-linked :
      (name version : Text) (t : FilePath) {on_request : Bool}
      → IsResolved cellar
      → IsResolved opt_dir
      → IsComponent name
      → IsComponent version
      → read_link (join_text opt_dir name) ≡ links_to t
      → (t ≡ relative_from_to opt_dir (join_text (join_text cellar name) version))
        ⊎ (t ≡ join_text (join_text cellar name) version)
      → read_receipt
          (join_text (join_text (join_text cellar name) version) (ascii "INSTALL_RECEIPT.json"))
        ≡ receipt on_request
      → find_installed_keg read_link read_receipt cellar opt_dir name
        ≡ ok (
            some (record { name = name; pkg_version = version; installed_on_request = on_request }))
  find_installed_keg-linked name version t c o n v link target found =
      let keg_path : FilePath = join_text (join_text cellar name) version in
      let joined : keg_path ≡ cellar ++ normal name ∷ [] ++ normal version ∷ [] =
        join_text-IsComponent (join_text cellar name) version v
        ∙ ap (λ p. p ++ normal version ∷ []) (join_text-IsComponent cellar name n) in
      let resolved : IsResolved keg_path =
        subst IsResolved (sym joined)
          (IsResolved-snoc (cellar ++ normal name ∷ []) version (IsResolved-snoc cellar name c)) in
      find_installed_keg-links_to name t link
      ∙ ap (check_target read_link read_receipt cellar opt_dir name) (
          ap (λ l. normalize_opt_target l t) (join_text-IsComponent opt_dir name n)
          ∙ normalize_opt_target-keg opt_dir keg_path t name o resolved target)
      ∙ check_target-receipt name version keg_path refl
          (ap file_name joined ∙ file_name-snoc (cellar ++ normal name ∷ []) version) found
