-- ===== src/Paths.antt =====
-- Paths as Rust's `Path::components` reads them, and the path arithmetic of crates/cellar/src/link.rs
-- and crates/cellar/src/fs.rs.
--
-- A `Path` is the list of its components, by which the standard library compares paths too: doubled
-- and trailing slashes and inner dots are gone. `Component::Prefix` is for Windows only.
pub mod Relative
pub mod Absolute
pub mod Names
mod Tests
use brewdock.Base.{
  ℕ, zero, suc, ◌-◌, Bool, true, false, ◌&&◌, Option, none, some, List, [], ◌∷◌, ◌++◌, Text, ascii,
  text_eq, if◌then◌else◌, ◌==◌,
}
use brewdock.Base.Lists.{length}

pub data Component : Type 0 where
  root_dir cur_dir parent_dir : Component
  normal : Text → Component

abbrev pub FilePath : Type 0
FilePath = List Component

-- The pieces between the slashes of a text.
split_slash : Text → List Text
split_slash [] = [] ∷ []
split_slash (b ∷ s) = elim (split_slash s) [
  | [] ↦ (b ∷ []) ∷ []
  | piece ∷ pieces ↦ if b == b'/' then [] ∷ piece ∷ pieces else (b ∷ piece) ∷ pieces
]

-- Pieces that are empty or `.` are no components.
components_of : List Text → FilePath
unfolding text_eq
components_of [] = []
components_of (piece ∷ pieces) =
    let rest = components_of pieces in
    if text_eq piece []
    then rest
    else if text_eq piece (ascii ".")
    then rest
    else if text_eq piece (ascii "..")
    then parent_dir ∷ rest
    else normal piece ∷ rest

-- `Path::components`: a dot counts only at the start of a relative path.
unfoldable pub components : Text → FilePath
unfolding split_slash components_of
components [] = []
components (b ∷ s) =
    if b == b'/' then root_dir ∷ components_of (split_slash s) else elim (split_slash (b ∷ s)) [
      | [] ↦ []
      | piece ∷ pieces ↦
          if text_eq piece (ascii ".")
          then cur_dir ∷ components_of pieces
          else components_of (piece ∷ pieces)
    ]

unfoldable pub component_eq : Component → Component → Bool
unfolding text_eq
component_eq root_dir root_dir = true
component_eq cur_dir cur_dir = true
component_eq parent_dir parent_dir = true
component_eq (normal s) (normal t) = text_eq s t
component_eq _ _ = false

-- `PartialEq for Path`
unfoldable pub path_eq : FilePath → FilePath → Bool
unfolding component_eq
path_eq [] [] = true
path_eq (a ∷ p) (b ∷ q) = component_eq a b && path_eq p q
path_eq _ _ = false

-- `Path::starts_with`: whether the second path is the first, or an ancestor of it.
unfoldable pub starts_with : FilePath → FilePath → Bool
unfolding component_eq
starts_with p [] = true
starts_with [] (b ∷ q) = false
starts_with (a ∷ p) (b ∷ q) = component_eq a b && starts_with p q

-- `Path::join` with a path that is neither absolute nor begins with a dot.
abbrev pub join : FilePath → FilePath → FilePath
join p q = p ++ q

-- `PathBuf::pop`, which leaves the root and the empty path alone: the path, and whether it changed.
unfoldable pub pop : FilePath → FilePath × Bool
pop [] = ([], false)
pop (root_dir ∷ []) = (root_dir ∷ [], false)
pop (c ∷ []) = ([], true)
pop (c ∷ d ∷ p) = let (q, changed) = pop (d ∷ p) in (c ∷ q, changed)

-- `PathBuf::push` with one component; the root replaces what is there.
unfoldable pub push : FilePath → Component → FilePath
push p root_dir = root_dir ∷ []
push p c = p ++ c ∷ []

-- `normalize_path` of link.rs, from the result so far.
unfoldable pub normalize_from : FilePath → FilePath → FilePath
unfolding pop push
normalize_from result [] = result
normalize_from result (parent_dir ∷ rest) = normalize_from (pop result).0 rest
normalize_from result (cur_dir ∷ rest) = normalize_from result rest
normalize_from result (c ∷ rest) = normalize_from (push result c) rest

unfoldable pub normalize_path : FilePath → FilePath
unfolding normalize_from
normalize_path path = normalize_from [] path

-- The loop of `normalize_absolute_path` of fs.rs.
unfoldable pub normalize_absolute_from : FilePath → FilePath → Option FilePath
unfolding pop push
normalize_absolute_from normalized [] = some normalized
normalize_absolute_from normalized (root_dir ∷ rest) =
    normalize_absolute_from (push normalized root_dir) rest
normalize_absolute_from normalized (normal segment ∷ rest) =
    normalize_absolute_from (push normalized (normal segment)) rest
normalize_absolute_from normalized (cur_dir ∷ rest) = normalize_absolute_from normalized rest
normalize_absolute_from normalized (parent_dir ∷ rest) =
    let next = normalize_absolute_from (pop normalized).0 rest in
    if (pop normalized).1 then next else none

unfoldable pub not_empty : FilePath → Option FilePath
not_empty [] = none
not_empty (c ∷ p) = some (c ∷ p)

unfoldable pub normalize_absolute_path : FilePath → Option FilePath
unfolding normalize_absolute_from not_empty
normalize_absolute_path path = elim (normalize_absolute_from [] path) [
  | none ↦ none
  | some normalized ↦ not_empty normalized
]

-- `relative_from_to` of link.rs. How many components the two paths have in common:
unfoldable pub common_parts : FilePath → FilePath → ℕ
unfolding component_eq
common_parts (a ∷ from) (b ∷ to) =
    let rest = common_parts from to in if component_eq a b then suc rest else 0
common_parts _ _ = 0

abbrev pub parents : ℕ → FilePath
parents zero = []
parents (suc n) = parent_dir ∷ parents n

abbrev pub drop_parts : ℕ → FilePath → FilePath
drop_parts zero p = p
drop_parts (suc n) [] = []
drop_parts (suc n) (c ∷ p) = drop_parts n p

-- Of two absolute paths, as the source asks for: `push` of a root replaces the path that it is pushed
-- to, which the concatenation here does not show.
unfoldable pub relative_from_to : FilePath → FilePath → FilePath
unfolding common_parts
relative_from_to from_dir to_path =
    let common = common_parts from_dir to_path in
    parents (length from_dir - common) ++ drop_parts common to_path

-- `Path::join` with a text, which an absolute path replaces.
unfoldable pub join_text : FilePath → Text → FilePath
unfolding components
join_text p s = elim (components s) [
  | root_dir ∷ q ↦ root_dir ∷ q
  | cur_dir ∷ q ↦ elim p [ [] ↦ cur_dir ∷ q | c ∷ p' ↦ (c ∷ p') ++ q ]
  | q ↦ p ++ q
]
