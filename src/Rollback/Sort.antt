-- ===== src/Rollback/Sort.antt =====
-- The order of paths that crates/cellar/src/post_install/rollback.rs sorts by, and the sorted list.
use brewdock.Base.{
  ℕ, Ordering, ◌≡◌, ◌≢◌, ◌↔◌, refl, sym, ◌∙◌, ◌⊎◌, inl, inr, true, List, [], ◌∷◌, lex_cmp,
  lex_cmp_refl, lex_cmp_swap, lex_cmp_trans, eq_of_lex_cmp, reverse, arith,
}
use brewdock.Base.Lists.{In}
use brewdock.Paths.{Component, root_dir, cur_dir, parent_dir, normal, FilePath, starts_with}
use brewdock.Paths.Relative.{component_eq_refl, eq_of_component_eq}
use brewdock.Rollback.{component_key, path_cmp, insert_sorted, sort}

abbrev pub AtMost : FilePath → FilePath → Type 0
AtMost p q = path_cmp p q ≢ Ordering.gt

eq_of_component_key : (a b : Component) → component_key a ≡ component_key b → a ≡ b
eq_of_component_key (normal s) (normal t) e = ground arith
eq_of_component_key (normal s) root_dir e = ground arith
eq_of_component_key (normal s) cur_dir e = ground arith
eq_of_component_key (normal s) parent_dir e = ground arith
eq_of_component_key root_dir b e = ground arith
eq_of_component_key cur_dir b e = ground arith
eq_of_component_key parent_dir b e = ground arith

-- How two paths that are not empty compare.
Ordering-cases : (o : Ordering) → (o ≡ Ordering.lt) ⊎ ((o ≡ Ordering.eq) ⊎ (o ≡ Ordering.gt))
Ordering-cases Ordering.lt = inl refl
Ordering-cases Ordering.eq = inr (inl refl)
Ordering-cases Ordering.gt = inr (inr refl)

path_cmp_swap : (p q : FilePath) → path_cmp q p ≡ reverse (path_cmp p q)
unfolding path_cmp reverse
path_cmp_swap [] [] = refl
path_cmp_swap [] (b ∷ q) = refl
path_cmp_swap (a ∷ p) [] = refl
path_cmp_swap (a ∷ p) (b ∷ q) =
    ground (arith, lex_cmp_swap (component_key a) (component_key b), path_cmp_swap p q)

-- The first parts of two paths in order are in order, and if they are the same, so are the rests.
AtMost-cons :
    (a b : Component) (p q : FilePath)
    → AtMost (a ∷ p) (b ∷ q)
    → (lex_cmp (component_key a) (component_key b) ≡ Ordering.lt) ⊎ ((a ≡ b) × AtMost p q)
unfolding path_cmp
AtMost-cons a b p q h = elim (Ordering-cases (lex_cmp (component_key a) (component_key b))) [
  | inl e ↦ inl e
  | inr (inl e) ↦ inr (eq_of_component_key a b (eq_of_lex_cmp _ _ e), rw (e, path_cmp) at h)
  | inr (inr e) ↦ absurd (rw (e, path_cmp) at h refl)
]

AtMost-ahead :
    (a b : Component) (p q : FilePath)
    → (lex_cmp (component_key a) (component_key b) ≡ Ordering.lt) ⊎ ((a ≡ b) × AtMost p q)
    → AtMost (a ∷ p) (b ∷ q)
unfolding path_cmp
AtMost-ahead a b p q (inl e) h = ground (arith, rw (path_cmp, e) at h)
AtMost-ahead a b p q (inr (e, k)) h = k (rw (e, path_cmp, lex_cmp_refl (component_key b)) at h)

lex_lt_asym : (s t : List ℕ) → lex_cmp s t ≡ Ordering.lt → lex_cmp t s ≢ Ordering.lt
unfolding reverse
lex_lt_asym s t h k = ground (arith, h, k, lex_cmp_swap s t)

lex_lt_trans :
    (s t u : List ℕ)
    → lex_cmp s t ≡ Ordering.lt
    → lex_cmp t u ≡ Ordering.lt
    → lex_cmp s u ≡ Ordering.lt
lex_lt_trans s t u h k = elim (Ordering-cases (lex_cmp s u)) [
  | inl e ↦ e
  | inr (inl e) ↦
      let same : s ≡ u = eq_of_lex_cmp s u e in absurd (lex_lt_asym t u k (rw same at h))
  | inr (inr e) ↦ absurd (lex_cmp_trans s t u (ground (arith, h)) (ground (arith, k)) e)
]

pub path_cmp_trans : (p q r : FilePath) → AtMost p q → AtMost q r → AtMost p r
unfolding path_cmp
path_cmp_trans [] q [] h k = λ e. ground arith
path_cmp_trans [] q (c ∷ r) h k = λ e. ground arith
path_cmp_trans (a ∷ p) [] r h k = absurd (h refl)
path_cmp_trans (a ∷ p) (b ∷ q) [] h k = absurd (k refl)
path_cmp_trans (a ∷ p) (b ∷ q) (c ∷ r) h k = AtMost-ahead a c p r (elim (AtMost-cons a b p q h) [
  | inl e ↦ elim (AtMost-cons b c q r k) [
    | inl f ↦ inl (lex_lt_trans _ (component_key b) _ e f)
    | inr (f, n) ↦ inl (rw (← f) e)
  ]
  | inr (e, m) ↦ elim (AtMost-cons b c q r k) [
    | inl f ↦ inl (rw e f)
    | inr (f, n) ↦ inr (e ∙ f, path_cmp_trans p q r m n)
  ]
])

-- What stands between a path and one below it is below it too.
pub starts_with-between :
    (c p q : FilePath) → AtMost c p → AtMost p q → starts_with q c ≡ true → starts_with p c ≡ true
unfolding starts_with path_cmp
starts_with-between [] p q h k s = refl
starts_with-between (a ∷ c) [] q h k s = absurd (h refl)
starts_with-between (a ∷ c) (b ∷ p) [] h k s = absurd (k refl)
starts_with-between (a ∷ c) (b ∷ p) (d ∷ q) h k s =
    let same : d ≡ a = eq_of_component_eq d a (ground (arith, s)) in
    let below : starts_with q c ≡ true = ground (arith, s) in
    elim (AtMost-cons a b c p h) [
      | inl e ↦ elim (AtMost-cons b d p q k) [
        | inl f ↦ absurd (lex_lt_asym (component_key a) (component_key b) e (rw same at f))
        | inr (f, n) ↦ absurd (ground (arith, rw (f, same, lex_cmp_refl (component_key a)) at e))
      ]
      | inr (e, m) ↦ elim (AtMost-cons b d p q k) [
        | inl f ↦ absurd (ground (arith, rw (← e, same, lex_cmp_refl (component_key a)) at f))
        | inr (f, n) ↦ rw (← e, component_eq_refl a) (starts_with-between c p q m n below)
      ]
    ]

-- A path that lies below another comes after it.
pub AtMost-below : (p q : FilePath) → starts_with q p ≡ true → AtMost p q
unfolding starts_with path_cmp
AtMost-below [] [] s = λ e. ground arith
AtMost-below [] (b ∷ q) s = λ e. ground arith
AtMost-below (a ∷ p) [] s = absurd (ground (arith, s))
AtMost-below (a ∷ p) (b ∷ q) s =
    AtMost-ahead a b p q
      (inr (sym (eq_of_component_eq b a (ground (arith, s))), AtMost-below p q (ground (arith, s))))

AtMost-refl : (p : FilePath) → AtMost p p
unfolding path_cmp
AtMost-refl [] = λ e. ground arith
AtMost-refl (a ∷ p) = AtMost-ahead a a p p (inr (refl, AtMost-refl p))

-- Two paths that come after each other are one.
pub AtMost-antisym : (p q : FilePath) → AtMost p q → AtMost q p → p ≡ q
unfolding path_cmp
AtMost-antisym [] [] h k = refl
AtMost-antisym [] (b ∷ q) h k = absurd (k refl)
AtMost-antisym (a ∷ p) [] h k = absurd (h refl)
AtMost-antisym (a ∷ p) (b ∷ q) h k = elim (AtMost-cons a b p q h) [
  | inl e ↦ elim (AtMost-cons b a q p k) [
    | inl f ↦ absurd (lex_lt_asym (component_key a) (component_key b) e f)
    | inr (f, n) ↦ absurd (ground (arith, rw (f, lex_cmp_refl (component_key a)) at e))
  ]
  | inr (e, m) ↦ elim (AtMost-cons b a q p k) [
    | inl f ↦ absurd (ground (arith, rw (e, lex_cmp_refl (component_key b)) at f))
    | inr (f, n) ↦ rw (e, AtMost-antisym p q m n)
  ]
]

-- Each path comes before all that follow it.
abbrev pub IsSorted : List FilePath → Type 0
IsSorted [] = Unit
IsSorted (p ∷ ps) = ((q : FilePath) → In q ps → AtMost p q) × IsSorted ps

-- The two ways of inserting.
insert_sorted-cases :
    (p q : FilePath) (qs : List FilePath)
    → (AtMost p q × (insert_sorted p (q ∷ qs) ≡ p ∷ q ∷ qs))
      ⊎ (AtMost q p × (insert_sorted p (q ∷ qs) ≡ q ∷ insert_sorted p qs))
unfolding insert_sorted reverse
insert_sorted-cases p q qs = elim (Ordering-cases (path_cmp p q)) [
  | inl e ↦ inl (ground (arith, e), rw (e, insert_sorted))
  | inr (inl e) ↦ inl (ground (arith, e), rw (e, insert_sorted))
  | inr (inr e) ↦ inr (ground (arith, e, path_cmp_swap p q), rw (e, insert_sorted))
]

In-swap :
    (p q r : FilePath) (ps qs : List FilePath)
    → In r ps ↔ In r (p ∷ qs)
    → In r (q ∷ ps) ↔ In r (p ∷ q ∷ qs)
In-swap p q r ps qs (f, g) = (
  λ h. elim h [ inl e ↦ inr (inl e) | inr i ↦ elim (f i) [ inl e ↦ inl e | inr j ↦ inr (inr j) ] ],
  λ h. elim h [
    | inl e ↦ inr (g (inl e))
    | inr i ↦ elim i [ inl e ↦ inl e | inr j ↦ inr (g (inr j)) ]
  ],
)

insert_sorted-In :
    (p : FilePath) (ps : List FilePath) (r : FilePath) → In r (insert_sorted p ps) ↔ In r (p ∷ ps)
unfolding insert_sorted
insert_sorted-In p [] r = (λ h. h, λ h. h)
insert_sorted-In p (q ∷ qs) r = elim (insert_sorted-cases p q qs) [
  | inl (_, e) ↦ rw e (λ h. h, λ h. h)
  | inr (_, e) ↦ rw e (In-swap p q r (insert_sorted p qs) qs (insert_sorted-In p qs r))
]

pub sort-In : (ps : List FilePath) (r : FilePath) → In r (sort ps) ↔ In r ps
unfolding sort
sort-In [] r = (λ h. h, λ h. h)
sort-In (p ∷ ps) r =
    let (f, g) = insert_sorted-In p (sort ps) r in
    let (f', g') = sort-In ps r in
    (
      λ h. elim (f h) [ inl e ↦ inl e | inr i ↦ inr (f' i) ],
      λ h. g (elim h [ inl e ↦ inl e | inr i ↦ inr (g' i) ]),
    )

IsSorted-cons :
    (p q : FilePath) (qs : List FilePath) → AtMost p q → IsSorted (q ∷ qs) → IsSorted (p ∷ q ∷ qs)
IsSorted-cons p q qs h (first, rest) =
    (λ r i. elim i [ inl e ↦ rw e h | inr j ↦ path_cmp_trans p q r h (first r j) ], (first, rest))

insert_sorted-IsSorted :
    (p : FilePath) (ps : List FilePath) → IsSorted ps → IsSorted (insert_sorted p ps)
insert_sorted-IsSorted p [] s = unfold insert_sorted in ((λ q h. absurd h), tt)
insert_sorted-IsSorted p (q ∷ qs) s = elim (insert_sorted-cases p q qs) [
  | inl (h, e) ↦ rw e (IsSorted-cons p q qs h s)
  | inr (h, e) ↦ rw e (
    λ r i. elim ((insert_sorted-In p qs r).0 i) [ inl t ↦ rw t h | inr j ↦ s.0 r j ],
    insert_sorted-IsSorted p qs s.1,
  )
]

pub sort-IsSorted : (ps : List FilePath) → IsSorted (sort ps)
unfolding sort
sort-IsSorted [] = tt
sort-IsSorted (p ∷ ps) = insert_sorted-IsSorted p (sort ps) (sort-IsSorted ps)
