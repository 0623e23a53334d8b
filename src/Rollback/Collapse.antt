-- ===== src/Rollback/Collapse.antt =====
-- What `collapse_nested_roots` of crates/cellar/src/post_install/rollback.rs keeps.
use brewdock.Base.{
  ◌≡◌, refl, ◌⊎◌, inl, inr, true, false, Option, none, some, List, [], ◌∷◌, arith, Bool-cases,
}
use brewdock.Base.Lists.{In}
use brewdock.Paths.{FilePath, starts_with}
use brewdock.Paths.Relative.{component_eq_refl}
use brewdock.Rollback.{is_covered, collapse_from, sort, collapse_nested_roots}
use brewdock.Rollback.Sort.{
  AtMost, starts_with-between, AtMost-below, AtMost-antisym, IsSorted, sort-IsSorted, sort-In,
}

-- No path of the list is below an other, or stands twice.
abbrev pub IsApart : List FilePath → Type 0
IsApart [] = Unit
IsApart (p ∷ ps) =
    ((q : FilePath) → In q ps → (starts_with q p ≡ false) × (starts_with p q ≡ false)) × IsApart ps

starts_with_refl : (p : FilePath) → starts_with p p ≡ true
unfolding starts_with
starts_with_refl [] = refl
starts_with_refl (c ∷ p) = ground (arith, component_eq_refl c, starts_with_refl p)

abbrev IsAfter : Option FilePath → List FilePath → Type 0
IsAfter none ps = Unit
IsAfter (some last) ps = (p : FilePath) → In p ps → AtMost last p

-- What is kept was there.
collapse_from-In :
    (last : Option FilePath) (ps : List FilePath) (r : FilePath)
    → In r (collapse_from last ps)
    → In r ps
unfolding collapse_from
collapse_from-In last [] r h = h
collapse_from-In last (p ∷ ps) r h = elim (Bool-cases (is_covered last p)) [
  | inl c ↦ inr (collapse_from-In last ps r (rw (c, collapse_from) at h))
  | inr c ↦ elim (rw (collapse_from, c) at h) [
    | inl e ↦ inl e
    | inr i ↦ inr (collapse_from-In (some p) ps r i)
  ]
]

-- What was there is below the last root, or below what is kept.
collapse_from-covers :
    (last : Option FilePath) (ps : List FilePath) (r : FilePath)
    → In r ps
    → (is_covered last r ≡ true)
      ⊎ ((c : FilePath) × In c (collapse_from last ps) × (starts_with r c ≡ true))
unfolding collapse_from is_covered
collapse_from-covers last [] r h = absurd h
collapse_from-covers last (p ∷ ps) r (inl e) = elim (Bool-cases (is_covered last p)) [
  | inl c ↦ inl (rw e c)
  | inr c ↦ rw c (inr (p, inl refl, rw e (starts_with_refl p)))
]
collapse_from-covers last (p ∷ ps) r (inr h) = elim (Bool-cases (is_covered last p)) [
  | inl c ↦ rw c (collapse_from-covers last ps r h)
  | inr c ↦ rw c (elim (collapse_from-covers (some p) ps r h) [
    | inl d ↦ inr (p, inl refl, d)
    | inr (d, i, s) ↦ inr (d, inr i, s)
  ])
]

IsApart-cons :
    (p : FilePath) (ps : List FilePath)
    → ((q : FilePath) → In q ps → AtMost p q)
    → ((q : FilePath) → In q (collapse_from (some p) ps) → starts_with q p ≡ false)
    → (q : FilePath) → In q (collapse_from (some p) ps)
    → (starts_with q p ≡ false) × (starts_with p q ≡ false)
IsApart-cons p ps after below q i = (below q i, above)
  where
    above : starts_with p q ≡ false
    above = elim (Bool-cases (starts_with p q)) [
      | inr e ↦ e
      | inl e ↦
          let same : p ≡ q =
            AtMost-antisym p q (after q (collapse_from-In (some p) ps q i)) (AtMost-below q p e) in
          absurd (ground (arith, below q i, rw same at e, starts_with_refl q))
    ]

-- Of a sorted list, what is kept is apart, and apart from the last root. So it is enough to look at
-- that one.
collapse_from-IsApart :
    (last : Option FilePath) (ps : List FilePath)
    → IsAfter last ps
    → IsSorted ps
    → IsApart (collapse_from last ps)
      × ((q : FilePath) → In q (collapse_from last ps) → is_covered last q ≡ false)
unfolding collapse_from is_covered
collapse_from-IsApart last [] a s = (tt, λ q h. absurd h)
collapse_from-IsApart last (p ∷ ps) a (first, s) = elim (Bool-cases (is_covered last p)) [
  | inl c ↦ rw (collapse_from, c) (collapse_from-IsApart last ps (later last a) s)
  | inr c ↦
      let (apart, below) = collapse_from-IsApart (some p) ps first s in
      rw (collapse_from, c)
        (
          (IsApart-cons p ps first (unfold is_covered in below), apart),
          λ q i. elim i [
            | inl e ↦ rw e c
            | inr j ↦ not_covered last a c q (collapse_from-In (some p) ps q j)
          ],
        )
]
  where
    later : (last : Option FilePath) → IsAfter last (p ∷ ps) → IsAfter last ps
    later none a = tt
    later (some l) a = λ q i. a q (inr i)

    not_covered :
        (last : Option FilePath)
        → IsAfter last (p ∷ ps)
        → is_covered last p ≡ false
        → (q : FilePath) → In q ps
        → is_covered last q ≡ false
    not_covered none a c q i = refl
    not_covered (some l) a c q i = elim (Bool-cases (starts_with q l)) [
      | inr e ↦ e
      | inl e ↦ absurd (ground (arith, c, starts_with-between l p q (a p (inl refl)) (first q i) e))
    ]

-- The roots that are kept are roots that were given; each root that was given is one of them or lies
-- below one; and none of them lies below another.
pub collapse_nested_roots_lem :
    (roots : List FilePath)
    → ((r : FilePath) → In r (collapse_nested_roots roots) → In r roots)
      × ((r : FilePath)
          → In r roots
          → (c : FilePath) × In c (collapse_nested_roots roots) × (starts_with r c ≡ true))
      × IsApart (collapse_nested_roots roots)
unfolding collapse_nested_roots
collapse_nested_roots_lem roots = (
  λ r h. (sort-In roots r).0 (collapse_from-In none (sort roots) r h),
  λ r h. elim (collapse_from-covers none (sort roots) r ((sort-In roots r).1 h)) [
    | inl c ↦ absurd (unfold is_covered in ground (arith, c))
    | inr found ↦ found
  ],
  (collapse_from-IsApart none (sort roots) tt (sort-IsSorted roots)).0,
)
