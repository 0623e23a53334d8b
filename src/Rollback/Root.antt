-- ===== src/Rollback/Root.antt =====
-- `rollback_root` of crates/cellar/src/post_install/rollback.rs, and what the saved roots cover.
use brewdock.Base.{
  ◌≡◌, refl, sym, ap, ◌∙◌, inl, inr, true, not, ◌||◌, some, List, [], ◌∷◌, ◌++◌, arith, Bool-cases,
  Option-cases,
}
use mathlib.Core.List.{append_assoc, append-nil}
use brewdock.Base.Lists.{In}
use brewdock.Paths.{Component, FilePath, starts_with, component_eq}
use brewdock.Paths.Relative.{component_eq_refl, eq_of_component_eq}
use brewdock.PostInstall.{PostInstallContext, strip_path}
use brewdock.Rollback.{is_shared_dir, root_below, rollback_root, collapse_nested_roots}
use brewdock.Rollback.Collapse.{collapse_nested_roots_lem}

pub starts_with-append : (p q : FilePath) → starts_with (p ++ q) p ≡ true
unfolding starts_with
starts_with-append [] q = refl
starts_with-append (c ∷ p) q = ground (arith, component_eq_refl c, starts_with-append p q)

starts_with_trans :
    (p q r : FilePath) → starts_with p q ≡ true → starts_with q r ≡ true → starts_with p r ≡ true
unfolding starts_with
starts_with_trans p q [] h k = refl
starts_with_trans p [] (c ∷ r) h k = ground (arith, k)
starts_with_trans [] (b ∷ q) (c ∷ r) h k = ground (arith, h)
starts_with_trans (a ∷ p) (b ∷ q) (c ∷ r) h k =
    let same : a ≡ b = eq_of_component_eq a b (ground (arith, h)) in
    ground (arith, same, h, k, starts_with_trans p q r)

pub starts_with-child : (p q r : FilePath) → starts_with p q ≡ true → starts_with (p ++ r) q ≡ true
starts_with-child p q r h = starts_with_trans (p ++ r) p q (starts_with-append p r) h

pub strip_path_child :
    (p q r : FilePath) {rest : FilePath}
    → strip_path p q ≡ some rest
    → strip_path (p ++ r) q ≡ some (rest ++ r)
unfolding strip_path
strip_path_child p [] r h = ap (λ s. some (s ++ r)) (ground (arith, h))
strip_path_child [] (b ∷ q) r h = ground (arith, h)
strip_path_child (a ∷ p) (b ∷ q) r h = elim (Bool-cases (component_eq a b)) [
  | inl e ↦ rw (strip_path, e) (strip_path_child p q r (rw (strip_path, e) at h))
  | inr e ↦ ground (arith, rw (strip_path, e) at h)
]

pub strip_path-append : (p q r : FilePath) → strip_path p q ≡ some r → p ≡ q ++ r
unfolding strip_path
strip_path-append p [] r h = ground (arith, h)
strip_path-append [] (b ∷ q) r h = ground (arith, h)
strip_path-append (a ∷ p) (b ∷ q) r h = elim (Bool-cases (component_eq a b)) [
  | inl e ↦
      rw (eq_of_component_eq a b e)
        (ap (λ s. b ∷ s) (strip_path-append p q r (rw (strip_path, e) at h)))
  | inr e ↦ ground (arith, rw (strip_path, e) at h)
]

-- A root below a prefix, as the prefix and what follows.
root_below-append :
    (prefix path relative root : FilePath)
    → path ≡ prefix ++ relative
    → root_below prefix path relative ≡ some root
    → (first : Component) × (inside beyond : FilePath) × (root ≡ prefix ++ first ∷ inside)
      × (path ≡ root ++ beyond)
unfolding root_below
root_below-append prefix path [] root e h = ground (arith, h)
root_below-append prefix path (first ∷ []) root e h =
    let same : prefix ++ first ∷ [] ≡ root = ground (arith, h) in
    (first, [], [], sym same, e ∙ same ∙ sym (append-nil root))
root_below-append prefix path (first ∷ second ∷ rest) root e h =
    elim (Bool-cases (is_shared_dir first)) [
      | inl s ↦
          let same : (prefix ++ first ∷ []) ++ second ∷ [] ≡ root =
            ground (arith, rw (root_below, s) at h) in
          (
            first,
            second ∷ [],
            rest,
            sym same ∙ append_assoc prefix (first ∷ []) (second ∷ []),
            e
                ∙ sym (append_assoc prefix (first ∷ second ∷ []) rest)
                ∙ ap (λ p. p ++ rest) (sym (append_assoc prefix (first ∷ []) (second ∷ [])) ∙ same),
          )
      | inr s ↦
          let same : path ≡ root = ground (arith, rw (root_below, s) at h) in
          (first, second ∷ rest, [], sym same ∙ e, same ∙ sym (append-nil root))
    ]

-- The root of a path lies strictly below the prefix, and the path is at or below its root.
rollback_root-append :
    (path root : FilePath) (context : PostInstallContext)
    → rollback_root path context ≡ some root
    → (first : Component) × (inside beyond : FilePath) × (root ≡ context.prefix ++ first ∷ inside)
      × (path ≡ root ++ beyond)
unfolding rollback_root
rollback_root-append path root context h =
    elim (Bool-cases (starts_with path context.keg_path || not (starts_with path context.prefix))) [
      | inl e ↦ absurd (ground (arith, rw (rollback_root, e) at h))
      | inr e ↦ elim (Option-cases (strip_path path context.prefix)) [
        | inl s ↦ absurd (ground (arith, rw (rollback_root, e, s) at h))
        | inr (relative, s) ↦
            root_below-append context.prefix path relative root
              (strip_path-append path context.prefix relative s) (rw (rollback_root, e, s) at h)
      ]
    ]

-- If a path has a rollback root, and that root is among those that are collapsed, then some saved root
-- holds the path. The path's own root is strictly below the prefix.
pub rollback_root-saved :
    (context : PostInstallContext) (roots : List FilePath) (path root : FilePath)
    → rollback_root path context ≡ some root
    → In root roots
    → ((first : Component) × (inside : FilePath) × (root ≡ context.prefix ++ first ∷ inside))
      × ((c : FilePath) × In c (collapse_nested_roots roots) × (starts_with path c ≡ true))
rollback_root-saved context roots path root h i =
    let (first, inside, beyond, e, f) = rollback_root-append path root context h in
    let (c, j, s) = (collapse_nested_roots_lem roots).1 root i in
    (
      (first, inside, e),
      (c, j, starts_with_trans path root c (rw f (starts_with-append root beyond)) s),
    )
