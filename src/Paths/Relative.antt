-- ===== src/Paths/Relative.antt =====
-- The relative targets of crates/cellar/src/link.rs: `normalize_path` finds back what
-- `relative_from_to` was computed for.
use mathlib.Core.Path.{◌≡⟨◌⟩◌, ◌∎}
use mathlib.Core.List.{append_assoc, append-nil}
use brewdock.Base.{
  ℕ, zero, suc, ◌≡◌, refl, sym, ◌∙◌, ap, true, [], ◌∷◌, ◌++◌, Text, text_eq_iff, text_eq_refl,
  arith, Bool-cases, inl, inr,
}
use brewdock.Base.Lists.{length}
use brewdock.Paths.{
  Component, root_dir, cur_dir, parent_dir, normal, FilePath, join, pop, component_eq,
  normalize_from, normalize_path, common_parts, parents, drop_parts, relative_from_to,
}

-- Only names: nothing that is resolved away.
abbrev pub IsNames : FilePath → Type 0
IsNames [] = Unit
IsNames (normal s ∷ p) = IsNames p
IsNames (_ ∷ p) = ⊥

-- An absolute path with nothing to resolve.
abbrev pub IsResolved : FilePath → Type 0
IsResolved (root_dir ∷ p) = IsNames p
IsResolved _ = ⊥

pub component_eq_refl : (c : Component) → component_eq c c ≡ true
unfolding component_eq
component_eq_refl (normal s) = text_eq_refl s
component_eq_refl root_dir = refl
component_eq_refl cur_dir = refl
component_eq_refl parent_dir = refl

pub eq_of_component_eq : (c d : Component) → component_eq c d ≡ true → c ≡ d
unfolding component_eq
eq_of_component_eq (normal s) (normal t) e = ap normal ((text_eq_iff s t).0 e)
eq_of_component_eq (normal s) root_dir e = ground arith
eq_of_component_eq (normal s) cur_dir e = ground arith
eq_of_component_eq (normal s) parent_dir e = ground arith
eq_of_component_eq root_dir d e = ground arith
eq_of_component_eq cur_dir d e = ground arith
eq_of_component_eq parent_dir d e = ground arith

pub pop-snoc : (p : FilePath) (s : Text) → pop (p ++ normal s ∷ []) ≡ (p, true)
unfolding pop
pop-snoc [] s = refl
pop-snoc (root_dir ∷ []) s = refl
pop-snoc (c ∷ []) s = refl
pop-snoc (root_dir ∷ d ∷ p) s = rw (pop-snoc (d ∷ p) s)
pop-snoc (c ∷ d ∷ p) s = rw (pop-snoc (d ∷ p) s)

normalize_from-end : (p : FilePath) → normalize_from p [] ≡ p
unfolding normalize_from
normalize_from-end p = refl

pub normalize_from-names :
    (p names rest : FilePath)
    → IsNames names
    → normalize_from p (names ++ rest) ≡ normalize_from (p ++ names) rest
unfolding normalize_from
normalize_from-names p [] rest h = rw append-nil
normalize_from-names p (normal s ∷ names) rest h =
    normalize_from-names (p ++ normal s ∷ []) names rest h
    ∙ ap (λ q. normalize_from q rest) (append_assoc p (normal s ∷ []) names)
normalize_from-names p (root_dir ∷ names) rest h = absurd h
normalize_from-names p (cur_dir ∷ names) rest h = absurd h
normalize_from-names p (parent_dir ∷ names) rest h = absurd h

parents-suc : (n : ℕ) (rest : FilePath) → parents n ++ parent_dir ∷ rest ≡ parents (suc n) ++ rest
parents-suc zero rest = refl
parents-suc (suc n) rest = ap (λ q. parent_dir ∷ q) (parents-suc n rest)

-- As many steps up as there are names at the end take just those away.
normalize_from-parents :
    (p names rest : FilePath)
    → IsNames names
    → normalize_from (p ++ names) (parents (length names) ++ rest) ≡ normalize_from p rest
normalize_from-parents p [] rest h = rw append-nil
normalize_from-parents p (normal s ∷ names) rest h =
    ap (λ q. normalize_from q (parents (suc (length names)) ++ rest))
      (sym (append_assoc p (normal s ∷ []) names))
    ∙ ap (normalize_from ((p ++ normal s ∷ []) ++ names)) (sym (parents-suc (length names) rest))
    ∙ normalize_from-parents (p ++ normal s ∷ []) names (parent_dir ∷ rest) h
    ∙ unfold normalize_from in ap (λ q. normalize_from q.0 rest) (pop-snoc p s)
normalize_from-parents p (root_dir ∷ names) rest h = absurd h
normalize_from-parents p (cur_dir ∷ names) rest h = absurd h
normalize_from-parents p (parent_dir ∷ names) rest h = absurd h

-- Two paths as their common part and what follows it in each.
pub record Parting (from to : FilePath) : Type 0 where
  pub shared : FilePath
  pub up : FilePath
  pub down : FilePath
  pub from_eq : from ≡ shared ++ up
  pub to_eq : to ≡ shared ++ down
  pub relative_eq : relative_from_to from to ≡ parents (length up) ++ down

Parting-here : (from to : FilePath) → common_parts from to ≡ 0 → Parting from to
unfolding relative_from_to
Parting-here from to e = record {
  shared = [];
  up = from;
  down = to;
  from_eq = refl;
  to_eq = refl;
  relative_eq = rw (e, relative_from_to) (ap (λ n. parents n ++ to) (omega arith));
}

pub relative_from_to-cons :
    (a b : Component) (from to : FilePath)
    → component_eq a b ≡ true
    → relative_from_to (a ∷ from) (b ∷ to) ≡ relative_from_to from to
unfolding relative_from_to
relative_from_to-cons a b from to e =
    rw e (ap (λ n. parents n ++ drop_parts (common_parts from to) to) (omega arith))

pub Parting-of : (from to : FilePath) → Parting from to
Parting-of [] to = Parting-here [] to (unfold common_parts in refl)
Parting-of (a ∷ from) [] = Parting-here (a ∷ from) [] (unfold common_parts in refl)
Parting-of (a ∷ from) (b ∷ to) = elim (Bool-cases (component_eq a b)) [
  | inr e ↦ Parting-here (a ∷ from) (b ∷ to) (unfold common_parts in rw e)
  | inl e ↦
      let rest = Parting-of from to in
      record {
        shared = a ∷ rest.shared;
        up = rest.up;
        down = rest.down;
        from_eq = ap (λ p. a ∷ p) rest.from_eq;
        to_eq = rw (eq_of_component_eq a b e) (ap (λ p. b ∷ p) rest.to_eq);
        relative_eq = relative_from_to-cons a b from to e ∙ rest.relative_eq;
      }
]

pub IsNames-append : (p q : FilePath) → IsNames (p ++ q) → IsNames p × IsNames q
IsNames-append [] q h = (tt, h)
IsNames-append (normal s ∷ p) q h = IsNames-append p q h
IsNames-append (root_dir ∷ p) q h = absurd h
IsNames-append (cur_dir ∷ p) q h = absurd h
IsNames-append (parent_dir ∷ p) q h = absurd h

normalize_from-parting :
    (root shared up down : FilePath)
    → IsNames shared
    → IsNames up
    → IsNames down
    → normalize_from root ((shared ++ up) ++ (parents (length up) ++ down))
      ≡ root ++ (shared ++ down)
normalize_from-parting root shared up down s u d =
    normalize_from root ((shared ++ up) ++ (parents (length up) ++ down))
    ≡⟨ ap (normalize_from root) (append_assoc shared up _) ⟩
      normalize_from root (shared ++ (up ++ (parents (length up) ++ down)))
    ≡⟨ normalize_from-names root shared _ s ⟩
      normalize_from (root ++ shared) (up ++ (parents (length up) ++ down))
    ≡⟨ normalize_from-names (root ++ shared) up _ u ⟩
      normalize_from ((root ++ shared) ++ up) (parents (length up) ++ down)
    ≡⟨ normalize_from-parents (root ++ shared) up down u ⟩ normalize_from (root ++ shared) down
    ≡⟨ ap (normalize_from (root ++ shared)) (sym (append-nil down)) ⟩
      normalize_from (root ++ shared) (down ++ [])
    ≡⟨ normalize_from-names (root ++ shared) down [] d ⟩
      normalize_from ((root ++ shared) ++ down) []
    ≡⟨ normalize_from-end _ ⟩ (root ++ shared) ++ down
    ≡⟨ append_assoc root shared down ⟩ root ++ (shared ++ down) ∎

normalize_from-relative :
    (root from to : FilePath)
    → IsNames from
    → IsNames to
    → normalize_from root (join from (relative_from_to from to)) ≡ root ++ to
normalize_from-relative root from to f t =
    let w = Parting-of from to in
    let names = IsNames-append w.shared w.up (rw w.from_eq at f) in
    let names' = IsNames-append w.shared w.down (rw w.to_eq at t) in
    ap (λ p. normalize_from root (p ++ relative_from_to from to)) w.from_eq
    ∙ ap (λ q. normalize_from root ((w.shared ++ w.up) ++ q)) w.relative_eq
    ∙ normalize_from-parting root w.shared w.up w.down names.0 names.1 names'.1
    ∙ ap (λ p. root ++ p) (sym w.to_eq)

pub IsResolved-cons :
    (p : FilePath) → IsResolved p → (names : FilePath) × (p ≡ root_dir ∷ names) × IsNames names
IsResolved-cons (root_dir ∷ names) h = (names, refl, h)
IsResolved-cons [] h = absurd h
IsResolved-cons (_ ∷ names) h = absurd h

-- A relative link target, resolved from the directory of the link, is the path that it was made
-- for. Both paths are absolute and have no dots.
pub normalize_path-relative_from_to :
    (from_dir to_path : FilePath)
    → IsResolved from_dir
    → IsResolved to_path
    → normalize_path (join from_dir (relative_from_to from_dir to_path)) ≡ to_path
unfolding normalize_path
normalize_path-relative_from_to from_dir to_path f t =
    let (from, p, names) = IsResolved-cons from_dir f in
    let (to, q, names') = IsResolved-cons to_path t in
    rw (p, q)
      (ap (λ r. normalize_from (root_dir ∷ []) (from ++ r))
          (relative_from_to-cons root_dir root_dir from to (component_eq_refl root_dir))
        ∙ normalize_from-relative (root_dir ∷ []) from to names names')
