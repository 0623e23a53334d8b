-- ===== src/Paths/Absolute.antt =====
-- `normalize_absolute_path` (crates/cellar/src/fs.rs) of the targets that `relative_from_to`
-- (crates/cellar/src/link.rs) computes.
use mathlib.Core.List.{append_assoc, append-nil}
use brewdock.Base.{ℕ, zero, suc, ◌≡◌, refl, sym, ◌∙◌, ap, some, [], ◌∷◌, ◌++◌, Text}
use brewdock.Base.Lists.{length}
use brewdock.Paths.{
  Component, root_dir, cur_dir, parent_dir, normal, FilePath, normalize_absolute_from,
  normalize_absolute_path, not_empty, parents, relative_from_to,
}
use brewdock.Paths.Relative.{
  IsNames, IsResolved, IsResolved-cons, IsNames-append, pop-snoc, Parting-of, relative_from_to-cons,
  component_eq_refl,
}

normalize_absolute_from-names :
    (p names rest : FilePath)
    → IsNames names
    → normalize_absolute_from p (names ++ rest) ≡ normalize_absolute_from (p ++ names) rest
unfolding normalize_absolute_from
normalize_absolute_from-names p [] rest h = rw append-nil
normalize_absolute_from-names p (normal s ∷ names) rest h =
    normalize_absolute_from-names (p ++ normal s ∷ []) names rest h
    ∙ ap (λ q. normalize_absolute_from q rest) (append_assoc p (normal s ∷ []) names)
normalize_absolute_from-names p (root_dir ∷ names) rest h = absurd h
normalize_absolute_from-names p (cur_dir ∷ names) rest h = absurd h
normalize_absolute_from-names p (parent_dir ∷ names) rest h = absurd h

parents-suc : (n : ℕ) (rest : FilePath) → parents n ++ parent_dir ∷ rest ≡ parents (suc n) ++ rest
parents-suc zero rest = refl
parents-suc (suc n) rest = ap (λ q. parent_dir ∷ q) (parents-suc n rest)

normalize_absolute_from-parent :
    (p rest : FilePath) (s : Text)
    → normalize_absolute_from (p ++ normal s ∷ []) (parent_dir ∷ rest)
      ≡ normalize_absolute_from p rest
unfolding normalize_absolute_from
normalize_absolute_from-parent p rest s = rw (pop-snoc p s)

normalize_absolute_from-parents :
    (p names rest : FilePath)
    → IsNames names
    → normalize_absolute_from (p ++ names) (parents (length names) ++ rest)
      ≡ normalize_absolute_from p rest
normalize_absolute_from-parents p [] rest h = rw append-nil
normalize_absolute_from-parents p (normal s ∷ names) rest h =
    ap (λ q. normalize_absolute_from q (parents (suc (length names)) ++ rest))
      (sym (append_assoc p (normal s ∷ []) names))
    ∙ ap (normalize_absolute_from ((p ++ normal s ∷ []) ++ names))
        (sym (parents-suc (length names) rest))
    ∙ normalize_absolute_from-parents (p ++ normal s ∷ []) names (parent_dir ∷ rest) h
    ∙ normalize_absolute_from-parent p rest s
normalize_absolute_from-parents p (root_dir ∷ names) rest h = absurd h
normalize_absolute_from-parents p (cur_dir ∷ names) rest h = absurd h
normalize_absolute_from-parents p (parent_dir ∷ names) rest h = absurd h

normalize_absolute_from-all :
    (p names : FilePath) → IsNames names → normalize_absolute_from p names ≡ some (p ++ names)
unfolding normalize_absolute_from
normalize_absolute_from-all p names h =
    ap (normalize_absolute_from p) (sym (append-nil names))
    ∙ normalize_absolute_from-names p names [] h

normalize_absolute_from-parting :
    (p shared up down : FilePath)
    → IsNames shared
    → IsNames up
    → IsNames down
    → normalize_absolute_from p ((shared ++ up) ++ (parents (length up) ++ down))
      ≡ some (p ++ (shared ++ down))
normalize_absolute_from-parting p shared up down s u d =
    ap (normalize_absolute_from p) (append_assoc shared up _)
    ∙ normalize_absolute_from-names p shared _ s
    ∙ normalize_absolute_from-names (p ++ shared) up _ u
    ∙ normalize_absolute_from-parents (p ++ shared) up down u
    ∙ normalize_absolute_from-all (p ++ shared) down d
    ∙ ap some (append_assoc p shared down)

-- A relative target is a way up and names.
pub relative_from_to-IsNames :
    (from_dir to_path : FilePath)
    → IsResolved from_dir
    → IsResolved to_path
    → (n : ℕ) × (names : FilePath) × (relative_from_to from_dir to_path ≡ parents n ++ names)
      × IsNames names
relative_from_to-IsNames from_dir to_path f t =
    let (from, p, names) = IsResolved-cons from_dir f in
    let (to, q, names') = IsResolved-cons to_path t in
    let w = Parting-of from to in
    (
      length w.up,
      w.down,
      rw (p, q)
          (relative_from_to-cons root_dir root_dir from to (component_eq_refl root_dir)
            ∙ w.relative_eq),
      (IsNames-append w.shared w.down (rw w.to_eq at names')).1,
    )

normalize_absolute_from-relative :
    (p from to : FilePath)
    → IsNames from
    → IsNames to
    → normalize_absolute_from p (from ++ relative_from_to from to) ≡ some (p ++ to)
normalize_absolute_from-relative p from to f t =
    let w = Parting-of from to in
    let names = IsNames-append w.shared w.up (rw w.from_eq at f) in
    let names' = IsNames-append w.shared w.down (rw w.to_eq at t) in
    ap (λ q. normalize_absolute_from p (q ++ relative_from_to from to)) w.from_eq
    ∙ ap (λ q. normalize_absolute_from p ((w.shared ++ w.up) ++ q)) w.relative_eq
    ∙ normalize_absolute_from-parting p w.shared w.up w.down names.0 names.1 names'.1
    ∙ ap (λ q. some (p ++ q)) (sym w.to_eq)

normalize_absolute_from-root :
    (p : FilePath)
    → normalize_absolute_from [] (root_dir ∷ p) ≡ normalize_absolute_from (root_dir ∷ []) p
unfolding normalize_absolute_from
normalize_absolute_from-root p = refl

normalize_absolute_path-some :
    (p q : FilePath) (c : Component)
    → normalize_absolute_from [] p ≡ some (c ∷ q)
    → normalize_absolute_path p ≡ some (c ∷ q)
unfolding normalize_absolute_path not_empty
normalize_absolute_path-some p q c e = rw (e, normalize_absolute_path) refl

-- An absolute path without dots is not changed.
pub normalize_absolute_path-IsResolved :
    (p : FilePath) → IsResolved p → normalize_absolute_path p ≡ some p
normalize_absolute_path-IsResolved p h =
    let (rest, e, names) = IsResolved-cons p h in
    rw e (
      normalize_absolute_path-some _ _ _ (
        normalize_absolute_from-root rest ∙ normalize_absolute_from-all (root_dir ∷ []) rest names))

-- From the directory of the link, the relative target resolves to the path that it was made for.
pub normalize_absolute_path-relative_from_to :
    (from_dir to_path : FilePath)
    → IsResolved from_dir
    → IsResolved to_path
    → normalize_absolute_path (from_dir ++ relative_from_to from_dir to_path) ≡ some to_path
normalize_absolute_path-relative_from_to from_dir to_path f t =
    let (from, p, names) = IsResolved-cons from_dir f in
    let (to, q, names') = IsResolved-cons to_path t in
    let found : normalize_absolute_from []
          ((root_dir ∷ from) ++ relative_from_to (root_dir ∷ from) (root_dir ∷ to))
        ≡ some (root_dir ∷ to) =
      normalize_absolute_from-root (from ++ relative_from_to (root_dir ∷ from) (root_dir ∷ to))
      ∙ ap (λ r. normalize_absolute_from (root_dir ∷ []) (from ++ r))
          (relative_from_to-cons root_dir root_dir from to (component_eq_refl root_dir))
      ∙ normalize_absolute_from-relative (root_dir ∷ []) from to names names' in
    rw (p, q) (normalize_absolute_path-some _ _ _ found)
