-- ===== src/Resolve/Fuel.antt =====
-- One unit of fuel for each name of the map, and one more, is enough for `visit`.
use brewdock.Base.{
  ℕ, zero, suc, ◌+◌, ◌≤◌, ◌<◌, ◌≡◌, inl, inr, Option, none, some, List, [], ◌∷◌, Text, text_eq,
  text_eq_iff, Assoc, lookup, insert, lookup-insert, Result, ok, err, ◌>>=◌, arith, Option-cases,
  Bool-cases,
}
use brewdock.Base.Lists.{length}
use brewdock.Formula.{Formula}
use brewdock.Resolve.{
  VisitState, in_progress, done, Search, Stop, out_of_fuel, error, enter, leave, visit_each, visit,
}

abbrev is_new : Option VisitState → ℕ
is_new none = 1
is_new (some _) = 0

-- The entries of the map whose names are not marked.
pub unvisited : Assoc Formula → Assoc VisitState → ℕ
unvisited [] state = 0
unvisited ((k, _) ∷ m) state = is_new (lookup k state) + unvisited m state

pub unvisited-le-length :
    (m : Assoc Formula) (state : Assoc VisitState) → unvisited m state ≤ length m
unfolding unvisited
unvisited-le-length [] state = omega arith
unvisited-le-length ((k, f) ∷ m) state = ground (arith, unvisited-le-length m state)

unvisited-insert-le :
    (k : Text) (v : VisitState) (m : Assoc Formula) (state : Assoc VisitState)
    → unvisited m (insert k v state) ≤ unvisited m state
unfolding unvisited
unvisited-insert-le k v [] state = omega arith
unvisited-insert-le k v ((j, f) ∷ m) state =
    ground (arith, lookup-insert k j v state, unvisited-insert-le k v m state)

unvisited-insert-lt :
    (k : Text) (v : VisitState) (m : Assoc Formula) (state : Assoc VisitState) {f : Formula}
    → lookup k m ≡ some f
    → lookup k state ≡ none
    → unvisited m (insert k v state) < unvisited m state
unfolding unvisited lookup
unvisited-insert-lt k v [] state e new = ground arith
unvisited-insert-lt k v ((j, g) ∷ m) state {f} e new = elim (Bool-cases (text_eq j k)) [
  | inl q ↦
      let same : j ≡ k = (text_eq_iff j k).0 q in
      ground (arith, lookup-insert k j v state, text_eq_iff k j, unvisited-insert-le k v m state)
  | inr q ↦
      ground
        (arith, lookup-insert k j v state, unvisited-insert-lt k v m state {f = f} (rw q at e) new)
]

module _ (formulae : Assoc Formula) where
  -- The call has not run out of fuel, and has taken no mark away.
  abbrev pub Halts : ℕ → Result Stop Search → Type 0
  Halts n (ok s) = unvisited formulae s.state ≤ n
  Halts n (err out_of_fuel) = ⊥
  Halts n (err (error e)) = Unit

  Halts-bind :
      (n k : ℕ) (m : Result Stop Search) (f : Search → Result Stop Search)
      → Halts n m
      → ((s : Search) → unvisited formulae s.state ≤ n → Halts k (f s))
      → Halts k (m >>= f)
  Halts-bind n k (ok s) f h g = g s h
  Halts-bind n k (err out_of_fuel) f h g = h
  Halts-bind n k (err (error e)) f h g = tt

  Halts-le : (n k : ℕ) (m : Result Stop Search) → n ≤ k → Halts n m → Halts k m
  Halts-le n k (ok s) h g = omega arith
  Halts-le n k (err out_of_fuel) h g = g
  Halts-le n k (err (error e)) h g = tt

  pub visit_each-Halts :
      (fuel : ℕ) (f : Text → Search → Result Stop Search)
      → ((name : Text) (s : Search)
          → unvisited formulae s.state < fuel
          → Halts (unvisited formulae s.state) (f name s))
      → (names : List Text) (s : Search) → unvisited formulae s.state < fuel
      → Halts (unvisited formulae s.state) (visit_each f names s)
  unfolding visit_each
  visit_each-Halts fuel f hf [] s h = omega arith
  visit_each-Halts fuel f hf (name ∷ names) s h =
      Halts-bind (unvisited formulae s.state) _ (f name s) (visit_each f names) (hf name s h)
        λ s' le.
          Halts-le (unvisited formulae s'.state) _ (visit_each f names s') le
            (visit_each-Halts fuel f hf names s' (omega arith))

  pub visit-Halts :
      (fuel : ℕ) (name : Text) (s : Search)
      → unvisited formulae s.state < fuel
      → Halts (unvisited formulae s.state) (visit formulae fuel name s)
  unfolding visit
  visit-Halts zero name s h = elim h [ ]
  visit-Halts (suc fuel) name s h = elim (Option-cases (lookup name s.state)) [
    | inr (v, e) ↦ marked v e
    | inl new ↦ elim (Option-cases (lookup name formulae)) [
      | inl missing ↦ rw (new, missing, visit) tt
      | inr (formula, found) ↦
          let fewer = unvisited-insert-lt name in_progress formulae s.state found new in
          rw (new, found, visit)
            (Halts-bind (unvisited formulae (enter name s).state) _
              (visit_each (visit formulae fuel) formula.dependencies (enter name s))
              (λ s'. ok (leave name s'))
              (visit_each-Halts fuel (visit formulae fuel) (visit-Halts fuel) formula.dependencies
                (enter name s) (omega arith))
              (λ s' le. omega (arith, unvisited-insert-le name done formulae s'.state)))
    ]
  ]
    where
      marked :
          (v : VisitState)
          → lookup name s.state ≡ some v
          → Halts (unvisited formulae s.state) (visit formulae (suc fuel) name s)
      marked done e = rw (e, visit) (omega arith)
      marked in_progress e = rw (e, visit) tt
