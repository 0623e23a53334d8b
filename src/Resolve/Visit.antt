-- ===== src/Resolve/Visit.antt =====
-- Every call of `visit` (crates/formula/src/resolve.rs) keeps the invariant and reports justified
-- errors, whatever the fuel.
use brewdock.Base.{
  ℕ, zero, suc, ◌≡◌, refl, ◌∙◌, ◌⊎◌, inl, inr, Option, none, some, List, [], ◌∷◌, ◌++◌, Text, Assoc,
  lookup, Result, ok, err, Option-cases,
}
use brewdock.Base.Lists.{In}
use brewdock.Formula.{Formula, FormulaError}
use brewdock.Resolve.{
  VisitState, in_progress, done, Search, Stop, out_of_fuel, error, enter, leave, visit_each, visit,
}
use brewdock.Resolve.Graph.{DependsOn, Needed, step, IsChain, IsChain-snoc}
use brewdock.Resolve.Invariant.{
  Ensures, Ensures-bind, IsJustified, Inv, Visited, enter-Inv, leave-Visited, path_from_lem,
}

pub Ensures-map :
    (P R : Search → Type 0) (Q : FormulaError → Type 0) (m : Result Stop Search)
    → ((s : Search) → P s → R s)
    → Ensures P Q m
    → Ensures R Q m
Ensures-map P R Q (ok s) k h = k s h
Ensures-map P R Q (err out_of_fuel) k h = tt
Ensures-map P R Q (err (error e)) k h = h

state_cases : (o : Option VisitState) → (o ≡ none) ⊎ ((v : VisitState) × (o ≡ some v))
state_cases = Option-cases

module _ (formulae : Assoc Formula) (requested : List Text) where
  abbrev Just : FormulaError → Type 0
  Just = IsJustified formulae requested

  abbrev IsVisit : (Text → Search → Result Stop Search) → Type 0
  IsVisit f =
      (name : Text) (s : Search)
      → Inv formulae requested s
      → IsChain formulae (s.path ++ name ∷ [])
      → Needed formulae requested name
      → Ensures (Visited formulae requested s (name ∷ [])) Just (f name s)

  nothing_Visited : (s : Search) → Inv formulae requested s → Visited formulae requested s [] s
  nothing_Visited s i = record {
    inv = i;
    same_path = refl;
    grows = λ n h. h;
    reached = λ n h. absurd h;
  }

  Visited-cons :
      (name : Text) (names : List Text) (s s' s'' : Search)
      → Visited formulae requested s (name ∷ []) s'
      → Visited formulae requested s' names s''
      → Visited formulae requested s (name ∷ names) s''
  Visited-cons name names s s' s'' v w = record {
    inv = w.inv;
    same_path = w.same_path ∙ v.same_path;
    grows = λ n h. w.grows n (v.grows n h);
    reached = λ n h. elim h [ inl e ↦ w.grows n (v.reached n (inl e)) | inr l ↦ w.reached n l ];
  }

  pub visit_each-Ensures :
      (f : Text → Search → Result Stop Search)
      → IsVisit f
      → (names : List Text) (s : Search) → Inv formulae requested s
      → ((n : Text)
          → In n names
          → IsChain formulae (s.path ++ n ∷ []) × Needed formulae requested n)
      → Ensures (Visited formulae requested s names) Just (visit_each f names s)
  unfolding visit_each
  visit_each-Ensures f hf [] s i pre = nothing_Visited s i
  visit_each-Ensures f hf (name ∷ names) s i pre =
      let (c, need) = pre name (inl refl) in
      Ensures-bind (Visited formulae requested s (name ∷ []))
        (Visited formulae requested s (name ∷ names)) Just (f name s) (visit_each f names)
        (hf name s i c need)
        λ s' v.
          Ensures-map (Visited formulae requested s' names)
            (Visited formulae requested s (name ∷ names)) Just (visit_each f names s')
            (λ s'' w. Visited-cons name names s s' s'' v w)
            (visit_each-Ensures f hf names s' v.inv (λ n h. rw v.same_path (pre n (inr h))))

  done_Visited :
      (name : Text) (s : Search)
      → Inv formulae requested s
      → lookup name s.state ≡ some done
      → Visited formulae requested s (name ∷ []) s
  done_Visited name s i e = record {
    inv = i;
    same_path = refl;
    grows = λ n h. h;
    reached = λ n h. elim h [ inl q ↦ rw q (i.done_in name e) | inr l ↦ absurd l ];
  }

  pub visit-Ensures : (fuel : ℕ) → IsVisit (visit formulae fuel)
  unfolding visit
  visit-Ensures zero name s i c need = tt
  visit-Ensures (suc fuel) name s i c need = elim (Option-cases (lookup name s.state)) [
    | inr (v, e) ↦ marked v e
    | inl new ↦ elim (Option-cases (lookup name formulae)) [
      | inl missing ↦ rw (new, missing, visit) (missing, need)
      | inr (formula, found) ↦
          rw (new, found, visit)
            (Ensures-bind (Visited formulae requested (enter name s) formula.dependencies)
              (Visited formulae requested s (name ∷ [])) Just
              (visit_each (visit formulae fuel) formula.dependencies (enter name s))
              (λ s'. ok (leave name s'))
              (visit_each-Ensures (visit formulae fuel) (visit-Ensures fuel) formula.dependencies
                (enter name s) (enter-Inv formulae requested name s i new)
                (λ n h.
                  let d : DependsOn formulae name n = record {
                    formula = formula;
                    found = found;
                    listed = h;
                  } in
                  (IsChain-snoc formulae s.path c d, step need d)))
              (λ s' v. leave-Visited formulae requested name formula s s' i new found need v))
    ]
  ]
    where
      marked :
          (v : VisitState)
          → lookup name s.state ≡ some v
          → Ensures
              (Visited formulae requested s (name ∷ []))
              Just
              (visit formulae (suc fuel) name s)
      marked done e = rw (e, visit) (done_Visited name s i e)
      marked in_progress e =
          rw (e, visit) (path_from_lem formulae requested name s.path (i.busy_in name e) c)
