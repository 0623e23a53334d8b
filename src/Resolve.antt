-- ===== src/Resolve.antt =====
-- crates/formula/src/resolve.rs: the install order, by a depth-first search.
pub mod Graph
mod Invariant
mod Visit
mod Fuel
pub mod Order
mod Tests
use brewdock.Base.{
  ℕ, zero, suc, Bool, Option, none, some, List, [], ◌∷◌, ◌++◌, Text, text_eq, Assoc, lookup, insert,
  Result, ok, err, ◌>>=◌, if◌then◌else◌,
}
use brewdock.Base.Lists.{length}
use brewdock.Formula.{Formula, FormulaError, not_found, cyclic_dependency}

pub data VisitState : Type 0 where
  in_progress done : VisitState

-- The three `&mut` arguments of `visit`.
pub record Search : Type 0 where
  pub state : Assoc VisitState
  pub result : List Text
  pub path : List Text

-- The recursion of `visit` takes fuel; `out_of_fuel` is no outcome of the program.
pub data Stop : Type 0 where
  out_of_fuel : Stop
  error : FormulaError → Stop

-- `path[start..]` from the first place of `name` on, and no name if there is none.
unfoldable pub path_from : Text → List Text → List Text
path_from name [] = []
path_from name (n ∷ path) = if text_eq n name then n ∷ path else path_from name path

-- `Vec::pop`
unfoldable pub pop : List Text → List Text
pop [] = []
pop (x ∷ []) = []
pop (x ∷ y ∷ xs) = x ∷ pop (y ∷ xs)

abbrev pub fresh : Search
fresh = record { state = []; result = []; path = [] }

abbrev pub enter : Text → Search → Search
enter name s = record s { state = insert name in_progress s.state; path = s.path ++ name ∷ [] }

abbrev pub leave : Text → Search → Search
leave name s = record s {
  path = pop s.path;
  state = insert name done s.state;
  result = s.result ++ name ∷ [];
}

-- `for dep in deps { visit(dep)?; }`
unfoldable pub visit_each :
    (Text → Search → Result Stop Search) → List Text → Search → Result Stop Search
visit_each visit [] s = ok s
visit_each visit (dep ∷ deps) s = do s' ← visit dep s; visit_each visit deps s'

module _ (formulae : Assoc Formula) where
  unfoldable pub visit : ℕ → Text → Search → Result Stop Search
  unfolding visit_each
  visit zero name s = err out_of_fuel
  visit (suc fuel) name s = elim (lookup name s.state) [
    | some done ↦ ok s
    | some in_progress ↦ err (error (cyclic_dependency (path_from name s.path ++ name ∷ [])))
    | none ↦ elim (lookup name formulae) [
      | none ↦ err (error (not_found name))
      | some formula ↦ do
        s' ← visit_each (visit fuel) formula.dependencies (enter name s)
        ok (leave name s')
    ]
  ]

  -- Every nested call of `visit` marks one more name of the map (Resolve/Fuel).
  unfoldable pub resolve_install_order : List Text → Result Stop (List Text)
  resolve_install_order requested = do
    s ← visit_each (visit (suc (length formulae))) requested fresh
    ok s.result
