-- ===== src/Resolve/Graph.antt =====
-- What an install order is, in terms of the dependency graph that a map of formulae draws.
use brewdock.Base.{◌≡◌, ◌⊎◌, inl, inr, some, List, [], ◌∷◌, ◌++◌, Text, Assoc, lookup}
use brewdock.Base.Lists.{In}
use brewdock.Formula.{Formula}

module _ (formulae : Assoc Formula) where
  -- The map has `a`, and `b` is among its dependencies.
  pub record DependsOn (a b : Text) : Type 0 where
    pub formula : Formula
    pub found : lookup a formulae ≡ some formula
    pub listed : In b formula.dependencies

  -- What the requested names need, themselves included.
  pub data Needed (requested : List Text) : Text → Type 0 where
    start : (a : Text) → In a requested → Needed requested a
    step : {a b : Text} → Needed requested a → DependsOn a b → Needed requested b

  -- Each name of the list depends on the next.
  abbrev pub IsChain : List Text → Type 0
  IsChain [] = Unit
  IsChain (a ∷ []) = Unit
  IsChain (a ∷ b ∷ rest) = DependsOn a b × IsChain (b ∷ rest)

  -- A way along dependencies that ends where it began.
  pub record IsCycle (cycle : List Text) : Type 0 where
    pub name : Text
    pub middle : List Text
    pub closed : cycle ≡ name ∷ middle ++ name ∷ []
    pub chain : IsChain cycle

  -- Everything that a name of the list depends on is in `seen` or stands before it.
  abbrev pub IsOrdered : List Text → List Text → Type 0
  IsOrdered seen [] = Unit
  IsOrdered seen (a ∷ rest) = ((b : Text) → DependsOn a b → In b seen) × IsOrdered (a ∷ seen) rest

  pub IsChain-snoc :
      (path : List Text) {a b : Text}
      → IsChain (path ++ a ∷ [])
      → DependsOn a b
      → IsChain ((path ++ a ∷ []) ++ b ∷ [])
  IsChain-snoc [] c d = (d, tt)
  IsChain-snoc (x ∷ []) c d = (c.0, (d, tt))
  IsChain-snoc (x ∷ y ∷ path) c d = (c.0, IsChain-snoc (y ∷ path) c.1 d)

  pub IsChain-append_left : (path : List Text) (b : Text) → IsChain (path ++ b ∷ []) → IsChain path
  IsChain-append_left [] b c = tt
  IsChain-append_left (x ∷ []) b c = tt
  IsChain-append_left (x ∷ y ∷ path) b c = (c.0, IsChain-append_left (y ∷ path) b c.1)

  pub IsChain-tail : (a : Text) (path : List Text) → IsChain (a ∷ path) → IsChain path
  IsChain-tail a [] c = tt
  IsChain-tail a (b ∷ path) c = c.1

  pub IsOrdered-snoc :
      (seen order : List Text) {a : Text}
      → IsOrdered seen order
      → ((b : Text) → DependsOn a b → In b seen ⊎ In b order)
      → IsOrdered seen (order ++ a ∷ [])
  IsOrdered-snoc seen [] o deps = ((λ b d. elim (deps b d) [ inl h ↦ h | inr n ↦ absurd n ]), tt)
  IsOrdered-snoc seen (x ∷ order) o deps = (
    o.0,
    IsOrdered-snoc (x ∷ seen) order o.1 (λ b d. elim (deps b d) [
      | inl h ↦ inl (inr h)
      | inr h ↦ elim h [ inl e ↦ inl (inl e) | inr l ↦ inr l ]
    ]),
  )

  -- In an order that starts from nothing, the dependencies of each name are in the order.
  pub IsOrdered-closed :
      (seen order : List Text) {a b : Text}
      → IsOrdered seen order
      → In a order
      → DependsOn a b
      → In b seen ⊎ In b order
  IsOrdered-closed seen [] o h d = absurd h
  IsOrdered-closed seen (x ∷ order) {b} o (inl e) d = inl (o.0 b (rw e at d))
  IsOrdered-closed seen (x ∷ order) o (inr h) d = elim (IsOrdered-closed (x ∷ seen) order o.1 h d) [
    | inl s ↦ elim s [ inl e ↦ inr (inl e) | inr l ↦ inl l ]
    | inr l ↦ inr (inr l)
  ]
