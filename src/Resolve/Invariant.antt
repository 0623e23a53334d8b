-- ===== src/Resolve/Invariant.antt =====
-- The invariant of the search in crates/formula/src/resolve.rs, and what one call of `visit` does.
use brewdock.Base.{
  ◌≡◌, refl, sym, ap, ◌∙◌, inl, inr, none, some, List, [], ◌∷◌, ◌++◌, Text, text_eq, text_eq_iff,
  Assoc, lookup, lookup-insert, Result, ok, err, ◌>>=◌, arith, Bool-cases,
}
use brewdock.Base.Lists.{In, In-append_left, In-snoc, In-snoc_cases, IsDistinct, IsDistinct-snoc}
use brewdock.Formula.{Formula, FormulaError, not_found, cyclic_dependency}
use brewdock.Resolve.{
  in_progress, done, Search, Stop, out_of_fuel, error, path_from, pop, enter, leave,
}
use brewdock.Resolve.Graph.{
  DependsOn, Needed, IsChain, IsCycle, IsOrdered, IsChain-tail, IsOrdered-snoc,
}

-- Of a result: what holds of the state that is returned, and of the error that is raised.
abbrev pub Ensures : (Search → Type 0) → (FormulaError → Type 0) → Result Stop Search → Type 0
Ensures P Q (ok s) = P s
Ensures P Q (err out_of_fuel) = Unit
Ensures P Q (err (error e)) = Q e

pub Ensures-bind :
    (P R : Search → Type 0) (Q : FormulaError → Type 0) (m : Result Stop Search)
    (f : Search → Result Stop Search)
    → Ensures P Q m
    → ((s : Search) → P s → Ensures R Q (f s))
    → Ensures R Q (m >>= f)
Ensures-bind P R Q (ok s) f h k = k s h
Ensures-bind P R Q (err out_of_fuel) f h k = tt
Ensures-bind P R Q (err (error e)) f h k = h

pop-snoc : (a : Text) (xs : List Text) → pop (xs ++ a ∷ []) ≡ xs
unfolding pop
pop-snoc a [] = refl
pop-snoc a (x ∷ []) = refl
pop-snoc a (x ∷ y ∷ xs) = ap (λ l. x ∷ l) (pop-snoc a (y ∷ xs))

module _ (formulae : Assoc Formula) (requested : List Text) where
  -- What an error of the search reports.
  abbrev pub IsJustified : FormulaError → Type 0
  IsJustified (cyclic_dependency cycle) = IsCycle formulae cycle
  IsJustified (not_found name) = (lookup name formulae ≡ none) × Needed formulae requested name
  IsJustified _ = ⊥

  pub record Inv (s : Search) : Type 0 where
    pub done_in : (n : Text) → lookup n s.state ≡ some done → In n s.result
    pub in_done : (n : Text) → In n s.result → lookup n s.state ≡ some done
    pub busy_in : (n : Text) → lookup n s.state ≡ some in_progress → In n s.path
    pub in_busy : (n : Text) → In n s.path → lookup n s.state ≡ some in_progress
    pub ordered : IsOrdered formulae [] s.result
    pub distinct : IsDistinct s.result
    pub needed : (n : Text) → In n s.result → Needed formulae requested n

  -- From `s`, all of `names` are now in the result, and nothing is lost.
  pub record Visited (s : Search) (names : List Text) (s' : Search) : Type 0 where
    pub inv : Inv s'
    pub same_path : s'.path ≡ s.path
    pub grows : (n : Text) → In n s.result → In n s'.result
    pub reached : (n : Text) → In n names → In n s'.result

  pub enter-Inv :
      (name : Text) (s : Search) → Inv s → lookup name s.state ≡ none → Inv (enter name s)
  enter-Inv name s i new = record {
    done_in = λ n h. i.done_in n (ground (arith, lookup-insert name n in_progress s.state));
    in_done = λ n h.
        ground (arith, lookup-insert name n in_progress s.state, i.in_done n h, text_eq_iff name n);
    busy_in = λ n h. elim (Bool-cases (text_eq name n)) [
      | inl e ↦ rw (← (text_eq_iff name n).0 e) (In-snoc name s.path)
      | inr e ↦
          In-append_left n s.path (name ∷ [])
            (i.busy_in n (ground (arith, lookup-insert name n in_progress s.state)))
    ];
    in_busy = λ n h. elim (In-snoc_cases n name s.path h) [
      | inl l ↦ ground (arith, lookup-insert name n in_progress s.state, i.in_busy n l)
      | inr e ↦ ground (arith, lookup-insert name n in_progress s.state, text_eq_iff name n)
    ];
    ordered = i.ordered;
    distinct = i.distinct;
    needed = i.needed;
  }

  module _ (name : Text) (formula : Formula) (s s' : Search) (i : Inv s)
      (new : lookup name s.state ≡ none) (found : lookup name formulae ≡ some formula)
      (need : Needed formulae requested name)
      (v : Visited (enter name s) formula.dependencies s') where
    popped : pop s'.path ≡ s.path
    popped = ap pop v.same_path ∙ pop-snoc name s.path

    not_yet : ¬ In name s'.result
    not_yet h =
        ground
          (arith, v.inv.in_done name h, v.inv.in_busy name (rw v.same_path (In-snoc name s.path)))

    deps_done : (b : Text) → DependsOn formulae name b → In b s'.result
    deps_done b d =
        let same : d.formula ≡ formula = ground (arith, d.found) in
        v.reached b (rw same at d.listed)

    leave-Inv : Inv (leave name s')
    leave-Inv = record {
      done_in = λ n h. elim (Bool-cases (text_eq name n)) [
        | inl e ↦ rw (← (text_eq_iff name n).0 e) (In-snoc name s'.result)
        | inr e ↦
            In-append_left n s'.result (name ∷ [])
              (v.inv.done_in n (ground (arith, lookup-insert name n done s'.state)))
      ];
      in_done = λ n h. elim (In-snoc_cases n name s'.result h) [
        | inl l ↦ ground (arith, lookup-insert name n done s'.state, v.inv.in_done n l)
        | inr e ↦ ground (arith, lookup-insert name n done s'.state, text_eq_iff name n)
      ];
      busy_in = λ n h.
          rw popped
            (elim (In-snoc_cases n name s.path (
              rw v.same_path at
                (v.inv.busy_in n (ground (arith, lookup-insert name n done s'.state))))) [
                  | inl l ↦ l
                  | inr e ↦ ground (arith, lookup-insert name n done s'.state, text_eq_iff name n)
                ]);
      in_busy = λ n h.
          let h' : In n s.path = rw popped at h in
          let old = i.in_busy n h' in
          let kept = v.inv.in_busy n (rw v.same_path (In-append_left n s.path (name ∷ []) h')) in
          ground (arith, lookup-insert name n done s'.state, text_eq_iff name n);
      ordered = IsOrdered-snoc formulae [] s'.result v.inv.ordered (λ b d. inr (deps_done b d));
      distinct = IsDistinct-snoc name s'.result v.inv.distinct not_yet;
      needed = λ n h. elim (In-snoc_cases n name s'.result h) [
        | inl l ↦ v.inv.needed n l
        | inr e ↦ rw e need
      ];
    }

    pub leave-Visited : Visited s (name ∷ []) (leave name s')
    leave-Visited = record {
      inv = leave-Inv;
      same_path = popped;
      grows = λ n h. In-append_left n s'.result (name ∷ []) (v.grows n h);
      reached = λ n h. elim h [
        | inl e ↦ rw e (In-snoc name s'.result)
        | inr none_left ↦ absurd none_left
      ];
    }

  -- `path[start..]` begins at the name, which is on the path.
  pub path_from_lem :
      (name : Text) (path : List Text)
      → In name path
      → IsChain formulae (path ++ name ∷ [])
      → IsCycle formulae (path_from name path ++ name ∷ [])
  unfolding path_from
  path_from_lem name [] h c = absurd h
  path_from_lem name (n ∷ path) h c = elim (Bool-cases (text_eq n name)) [
    | inl e ↦ rw e (record {
      name = n;
      middle = path;
      closed = ap (λ x. n ∷ path ++ x ∷ []) (sym ((text_eq_iff n name).0 e));
      chain = c;
    })
    | inr e ↦
        let later : In name path = elim h [
          | inl q ↦ ground (arith, text_eq_iff n name)
          | inr l ↦ l
        ] in
        rw e (path_from_lem name path later (IsChain-tail formulae n (path ++ name ∷ []) c))
  ]
