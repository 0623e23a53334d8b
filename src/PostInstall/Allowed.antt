-- ===== src/PostInstall/Allowed.antt =====
-- Where a post-install program may write (crates/cellar/src/post_install/context.rs), and what is saved
-- of it (crates/cellar/src/post_install/rollback.rs).
use brewdock.Base.{
  ◌≡◌, refl, ap, ◌∙◌, ◌⊎◌, inl, inr, true, false, some, [], ◌∷◌, ◌++◌, Text, ok, arith, Bool-cases,
  Option-cases,
}
use mathlib.Core.List.{append_assoc}
use brewdock.Paths.{
  Component, root_dir, cur_dir, parent_dir, normal, FilePath, starts_with, pop, push,
  normalize_absolute_from, not_empty, normalize_absolute_path,
}
use brewdock.PostInstall.{
  PathExpr, PostInstallContext, resolve_path, allowed_prefix_dirs, contains, strip_path,
  begins_allowed, in_allowed_dir, path_is_allowed, admit, resolve_allowed_path,
}
use brewdock.Rollback.{root_below, is_shared_dir, rollback_root}
use brewdock.Rollback.Root.{strip_path-append, strip_path_child, starts_with-append}

-- No component is `.` or `..`.
abbrev pub IsPlain : FilePath → Type 0
IsPlain [] = Unit
IsPlain (root_dir ∷ p) = IsPlain p
IsPlain (normal _ ∷ p) = IsPlain p
IsPlain (_ ∷ p) = ⊥

pop-IsPlain : (p : FilePath) → IsPlain p → IsPlain (pop p).0
unfolding pop
pop-IsPlain [] h = tt
pop-IsPlain (root_dir ∷ []) h = tt
pop-IsPlain (normal s ∷ []) h = tt
pop-IsPlain (cur_dir ∷ []) h = tt
pop-IsPlain (parent_dir ∷ []) h = tt
pop-IsPlain (root_dir ∷ d ∷ p) h = pop-IsPlain (d ∷ p) h
pop-IsPlain (normal s ∷ d ∷ p) h = pop-IsPlain (d ∷ p) h
pop-IsPlain (cur_dir ∷ d ∷ p) h = absurd h
pop-IsPlain (parent_dir ∷ d ∷ p) h = absurd h

snoc-IsPlain : (p : FilePath) (s : Text) → IsPlain p → IsPlain (p ++ normal s ∷ [])
snoc-IsPlain [] s h = tt
snoc-IsPlain (root_dir ∷ p) s h = snoc-IsPlain p s h
snoc-IsPlain (normal t ∷ p) s h = snoc-IsPlain p s h
snoc-IsPlain (cur_dir ∷ p) s h = absurd h
snoc-IsPlain (parent_dir ∷ p) s h = absurd h

normalize_absolute_from-IsPlain :
    (done rest result : FilePath)
    → IsPlain done
    → normalize_absolute_from done rest ≡ some result
    → IsPlain result
unfolding normalize_absolute_from push
normalize_absolute_from-IsPlain done [] result h e =
    let same : done ≡ result = ground (arith, e) in rw (← same) h
normalize_absolute_from-IsPlain done (root_dir ∷ rest) result h e =
    normalize_absolute_from-IsPlain (root_dir ∷ []) rest result tt e
normalize_absolute_from-IsPlain done (normal s ∷ rest) result h e =
    normalize_absolute_from-IsPlain (done ++ normal s ∷ []) rest result (snoc-IsPlain done s h) e
normalize_absolute_from-IsPlain done (cur_dir ∷ rest) result h e =
    normalize_absolute_from-IsPlain done rest result h e
normalize_absolute_from-IsPlain done (parent_dir ∷ rest) result h e =
    elim (Bool-cases (pop done).1) [
      | inl t ↦
          normalize_absolute_from-IsPlain (pop done).0 rest result (pop-IsPlain done h)
            (rw (normalize_absolute_from, t) at e)
      | inr t ↦ absurd (ground (arith, rw (normalize_absolute_from, t) at e))
    ]

normalize_absolute_path-IsPlain :
    (p result : FilePath) → normalize_absolute_path p ≡ some result → IsPlain result
unfolding normalize_absolute_path not_empty
normalize_absolute_path-IsPlain p result e = elim (Option-cases (normalize_absolute_from [] p)) [
  | inl n ↦ absurd (ground (arith, rw (normalize_absolute_path, n) at e))
  | inr ([], n) ↦ absurd (ground (arith, rw (normalize_absolute_path, n) at e))
  | inr (c ∷ q, n) ↦
      let same : c ∷ q ≡ result = ground (arith, rw (normalize_absolute_path, n) at e) in
      rw (← same) (normalize_absolute_from-IsPlain [] p (c ∷ q) tt n)
]

-- A path in an allowed directory of the prefix.
pub record IsWithin (context : PostInstallContext) (p : FilePath) : Type 0 where
  pub dir : Text
  pub rest : FilePath
  pub allowed : contains dir allowed_prefix_dirs ≡ true
  pub path_eq : p ≡ context.prefix ++ normal dir ∷ rest
  pub stripped : strip_path p context.prefix ≡ some (normal dir ∷ rest)

path_is_allowed-cases :
    (context : PostInstallContext) (p : FilePath)
    → path_is_allowed p context ≡ true
    → (starts_with p context.keg_path ≡ true) ⊎ IsWithin context p
unfolding path_is_allowed in_allowed_dir begins_allowed
path_is_allowed-cases context p h = elim (Bool-cases (starts_with p context.keg_path)) [
  | inl k ↦ inl k
  | inr k ↦ elim (Option-cases (strip_path p context.prefix)) [
    | inl s ↦ absurd (ground (arith, rw (path_is_allowed, k, s) at h))
    | inr ([], s) ↦ absurd (ground (arith, rw (path_is_allowed, k, s) at h))
    | inr (root_dir ∷ q, s) ↦ absurd (ground (arith, rw (path_is_allowed, k, s) at h))
    | inr (cur_dir ∷ q, s) ↦ absurd (ground (arith, rw (path_is_allowed, k, s) at h))
    | inr (parent_dir ∷ q, s) ↦ absurd (ground (arith, rw (path_is_allowed, k, s) at h))
    | inr (normal dir ∷ q, s) ↦ inr (record {
      dir = dir;
      rest = q;
      allowed = rw (path_is_allowed, k, s) at h;
      path_eq = strip_path-append p context.prefix (normal dir ∷ q) s;
      stripped = s;
    })
  ]
]

-- A resolved path is plain, and passed the test.
resolve_allowed_path-ok :
    (context : PostInstallContext) (expr : PathExpr) (p : FilePath)
    → resolve_allowed_path context expr ≡ ok p
    → IsPlain p × (path_is_allowed p context ≡ true)
unfolding resolve_allowed_path admit
resolve_allowed_path-ok context expr p e =
    elim (Option-cases (normalize_absolute_path (resolve_path context expr))) [
      | inl n ↦ absurd (ground (arith, rw (resolve_allowed_path, n) at e))
      | inr (q, n) ↦ elim (Bool-cases (path_is_allowed q context)) [
        | inl a ↦
            let same : q ≡ p = ground (arith, rw (resolve_allowed_path, n, a) at e) in
            rw (← same) (normalize_absolute_path-IsPlain (resolve_path context expr) q n, a)
        | inr a ↦ absurd (ground (arith, rw (resolve_allowed_path, n, a) at e))
      ]
    ]

-- A path that a post-install program may use has no `.` and no `..`, and lies in the keg or in one of the
-- allowed directories of the prefix, whatever its segments expand to.
pub resolve_allowed_path-IsWithin :
    (context : PostInstallContext) (expr : PathExpr) {p : FilePath}
    → resolve_allowed_path context expr ≡ ok p
    → IsPlain p × ((starts_with p context.keg_path ≡ true) ⊎ IsWithin context p)
resolve_allowed_path-IsWithin context expr {p} e =
    let (plain, allowed) = resolve_allowed_path-ok context expr p e in
    (plain, path_is_allowed-cases context p allowed)

root_below-some :
    (homebrew path : FilePath) (first : Component) (rest : FilePath)
    → (root : FilePath) × (root_below homebrew path (first ∷ rest) ≡ some root)
unfolding root_below
root_below-some homebrew path first [] = (homebrew ++ first ∷ [], refl)
root_below-some homebrew path first (second ∷ rest) = elim (Bool-cases (is_shared_dir first)) [
  | inl s ↦ ((homebrew ++ first ∷ []) ++ second ∷ [], rw (root_below, s))
  | inr s ↦ (path, rw (root_below, s))
]

-- A path in an allowed directory of the prefix has a rollback root when it is outside of the keg.
pub IsWithin-saved :
    (context : PostInstallContext) (p : FilePath)
    → IsWithin context p
    → starts_with p context.keg_path ≡ false
    → (root : FilePath) × (rollback_root p context ≡ some root)
unfolding rollback_root
IsWithin-saved context p w k =
    let below : starts_with p context.prefix ≡ true =
      ap (λ q. starts_with q context.prefix) w.path_eq
      ∙ starts_with-append context.prefix (normal w.dir ∷ w.rest) in
    let (root, r) = root_below-some context.prefix p (normal w.dir) w.rest in
    (root, rw (rollback_root, k, below, w.stripped) r)

pub IsWithin-child :
    (context : PostInstallContext) (p q : FilePath) → IsWithin context p → IsWithin context (p ++ q)
IsWithin-child context p q w = record {
  dir = w.dir;
  rest = w.rest ++ q;
  allowed = w.allowed;
  path_eq = ap (λ r. r ++ q) w.path_eq ∙ append_assoc context.prefix (normal w.dir ∷ w.rest) q;
  stripped = strip_path_child p context.prefix q w.stripped;
}

-- A path that a post-install program may use outside of the keg has a rollback root.
pub resolve_allowed_path-saved :
    (context : PostInstallContext) (expr : PathExpr) {p : FilePath}
    → resolve_allowed_path context expr ≡ ok p
    → starts_with p context.keg_path ≡ false
    → (root : FilePath) × (rollback_root p context ≡ some root)
resolve_allowed_path-saved context expr {p} e k =
    elim (resolve_allowed_path-IsWithin context expr e).1 [
      | inl inside ↦ absurd (ground (arith, inside, k))
      | inr w ↦ IsWithin-saved context p w k
    ]
