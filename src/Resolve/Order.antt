-- ===== src/Resolve/Order.antt =====
-- What `resolve_install_order` of crates/formula/src/resolve.rs returns.
use brewdock.Base.{
  ℕ, suc, ◌<◌, ◌≡◌, ◌≢◌, ◌↔◌, refl, inl, inr, some, List, [], ◌∷◌, ◌++◌, Text, Assoc, lookup,
  Result, ok, err, ◌>>=◌, ok_of_bind, arith, subst,
}
use brewdock.Base.Lists.{In, IsDistinct, length}
use brewdock.Formula.{Formula, FormulaError, not_found, cyclic_dependency}
use brewdock.Resolve.{
  Search, Stop, out_of_fuel, error, fresh, visit, visit_each, resolve_install_order,
}
use brewdock.Resolve.Graph.{
  DependsOn, Needed, start, step, IsChain, IsCycle, IsOrdered, IsOrdered-closed,
}
use brewdock.Resolve.Invariant.{Ensures, IsJustified, Inv, Visited}
use brewdock.Resolve.Visit.{visit_each-Ensures, visit-Ensures}
use brewdock.Resolve.Fuel.{unvisited, unvisited-le-length, Halts, visit_each-Halts, visit-Halts}

module _ (formulae : Assoc Formula) (requested : List Text) where
  fresh-Inv : Inv formulae requested fresh
  unfolding lookup
  fresh-Inv = record {
    done_in = λ n h. ground arith;
    in_done = λ n h. absurd h;
    busy_in = λ n h. ground arith;
    in_busy = λ n h. absurd h;
    ordered = tt;
    distinct = tt;
    needed = λ n h. absurd h;
  }

  search : Result Stop Search
  search = visit_each (visit formulae (suc (length formulae))) requested fresh

  search-Ensures :
      Ensures (Visited formulae requested fresh requested) (IsJustified formulae requested) search
  unfolding search
  search-Ensures =
      visit_each-Ensures formulae requested (visit formulae (suc (length formulae)))
        (visit-Ensures formulae requested (suc (length formulae))) requested fresh fresh-Inv
        (λ n h. (tt, start n h))

  search-Halts : Halts formulae (unvisited formulae []) search
  unfolding search
  search-Halts =
      visit_each-Halts formulae (suc (length formulae)) (visit formulae (suc (length formulae)))
        (visit-Halts formulae (suc (length formulae))) requested fresh
        (omega (arith, unvisited-le-length formulae []))

  returned :
      {order : List Text}
      → resolve_install_order formulae requested ≡ ok order
      → (s : Search) × Visited formulae requested fresh requested s × (s.result ≡ order)
  unfolding resolve_install_order
  returned {order} e =
      let (s, last, found) =
        ok_of_bind search (λ (s : Search). ok s.result) {last = order} (unfold search in e) in
      (s, subst (Ensures _ _) found search-Ensures, ground arith)

  -- If an order is returned, everything that a name of it depends on stands before that name, and
  -- no name stands in it twice.
  pub resolve_install_order-IsOrdered :
      {order : List Text}
      → resolve_install_order formulae requested ≡ ok order
      → IsOrdered formulae [] order × IsDistinct order
  resolve_install_order-IsOrdered e =
      let (s, v, same) = returned e in rw (← same) (v.inv.ordered, v.inv.distinct)

  -- If an order is returned, its names are exactly those that the requested names need.
  pub resolve_install_order-mem_iff :
      {order : List Text}
      → resolve_install_order formulae requested ≡ ok order
      → (n : Text) → In n order ↔ Needed formulae requested n
  resolve_install_order-mem_iff {order} e n =
      let (s, v, same) = returned e in (λ h. v.inv.needed n (rw same h), reach n)
    where
      reach : (n : Text) → Needed formulae requested n → In n order
      reach n (start _ h) = let (s, v, same) = returned e in rw (← same) (v.reached n h)
      reach n (step {a} need d) =
          elim (IsOrdered-closed formulae [] order (resolve_install_order-IsOrdered e).0
            (reach a need) d) [ inl none_seen ↦ absurd none_seen | inr h ↦ h ]

  -- The search ends: the fuel of the model is never used up.
  pub resolve_install_order_halts : resolve_install_order formulae requested ≢ err out_of_fuel
  unfolding resolve_install_order
  resolve_install_order_halts e = go search search-Halts (unfold search in e)
    where
      go :
          (m : Result Stop Search)
          → Halts formulae (unvisited formulae []) m
          → (do s ← m; ok s.result) ≡ err out_of_fuel
          → ⊥
      go (ok s) h q = ground arith
      go (err out_of_fuel) h q = h
      go (err (error f)) h q = ground arith

  -- An error is a missing name that the requested names need, or a chain of dependencies that ends
  -- where it began.
  pub resolve_install_order-IsJustified :
      {failure : FormulaError}
      → resolve_install_order formulae requested ≡ err (error failure)
      → IsJustified formulae requested failure
  unfolding resolve_install_order
  resolve_install_order-IsJustified {failure} e = go search search-Ensures (unfold search in e)
    where
      go :
          (m : Result Stop Search)
          → Ensures (Visited formulae requested fresh requested) (IsJustified formulae requested) m
          → (do s ← m; ok s.result) ≡ err (error failure)
          → IsJustified formulae requested failure
      go (ok s) h q = ground arith
      go (err out_of_fuel) h q = ground arith
      go (err (error f)) h q =
          let same : f ≡ failure = ground arith in subst (IsJustified formulae requested) same h

module _ (formulae : Assoc Formula) (rank : Text → ℕ)
    (falls : (a b : Text) → DependsOn formulae a b → rank b < rank a) where
  chain_falls :
      (a b : Text) (middle : List Text) → IsChain formulae (a ∷ middle ++ b ∷ []) → rank b < rank a
  chain_falls a b [] c = falls a b c.0
  chain_falls a b (x ∷ middle) c = omega (arith, falls a x c.0, chain_falls x b middle c.1)

  not-IsCycle : (cycle : List Text) → ¬ IsCycle formulae cycle
  not-IsCycle cycle c = omega (arith, chain_falls c.name c.name c.middle (rw c.closed at c.chain))

  -- If dependencies always lead down in some ranking, and the map has every name that is needed,
  -- then an order is returned.
  pub resolve_install_order_complete :
      (requested : List Text)
      → ((n : Text) → Needed formulae requested n → (f : Formula) × (lookup n formulae ≡ some f))
      → (order : List Text) × (resolve_install_order formulae requested ≡ ok order)
  resolve_install_order_complete requested present =
      go (resolve_install_order formulae requested) refl
    where
      refuted : (failure : FormulaError) → IsJustified formulae requested failure → ⊥
      refuted (cyclic_dependency cycle) j = not-IsCycle cycle j
      refuted (not_found name) j = let (f, found) = present name j.1 in ground (arith, j.0)
      refuted _ j = j

      go :
          (r : Result Stop (List Text))
          → resolve_install_order formulae requested ≡ r
          → (order : List Text) × (resolve_install_order formulae requested ≡ ok order)
      go (ok order) e = (order, e)
      go (err out_of_fuel) e = absurd (resolve_install_order_halts formulae requested e)
      go (err (error failure)) e =
          absurd (refuted failure (resolve_install_order-IsJustified formulae requested e))
