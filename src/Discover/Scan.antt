-- ===== src/Discover/Scan.antt =====
-- The scan of the cellar (crates/cellar/src/discover.rs: `discover_installed_kegs`).
use brewdock.Base.{
  ◌≡◌, ◌≢◌, subst, ◌↔◌, ◌⊎◌, Option, none, some, List, [], ◌∷◌, Text, arith, ok, ok_of_bind,
  lex_cmp, lex_cmp_swap, reverse, Ordering,
}
use brewdock.Base.Lists.{In}
use brewdock.Paths.{FilePath}
use brewdock.Discover.{
  InstalledKeg, LinkRead, ReceiptRead, find_installed_keg, push_found, discover_each, insert_keg,
  sort_kegs, discover_installed_kegs,
}

In-insert_keg :
    (keg other : InstalledKeg) (kegs : List InstalledKeg)
    → In keg (insert_keg other kegs) ↔ In keg (other ∷ kegs)
unfolding insert_keg
In-insert_keg keg other [] = ground arith
In-insert_keg keg other (first ∷ kegs) = ground (arith, In-insert_keg keg other kegs)

In-sort_kegs :
    (keg : InstalledKeg) (kegs : List InstalledKeg) → In keg (sort_kegs kegs) ↔ In keg kegs
unfolding sort_kegs
In-sort_kegs keg [] = ground arith
In-sort_kegs keg (first ∷ kegs) =
    ground (arith, In-insert_keg keg first (sort_kegs kegs), In-sort_kegs keg kegs)

-- No name comes behind a greater one.
abbrev pub IsFirst : InstalledKeg → List InstalledKeg → Type 0
IsFirst keg [] = Unit
IsFirst keg (other ∷ kegs) = lex_cmp keg.name other.name ≢ Ordering.gt

abbrev pub IsSorted : List InstalledKeg → Type 0
IsSorted [] = Unit
IsSorted (keg ∷ kegs) = IsFirst keg kegs × IsSorted kegs

IsFirst-insert_keg :
    (keg other : InstalledKeg) (kegs : List InstalledKeg)
    → IsFirst keg kegs
    → lex_cmp keg.name other.name ≢ Ordering.gt
    → IsFirst keg (insert_keg other kegs)
unfolding insert_keg
IsFirst-insert_keg keg other [] f n = n
IsFirst-insert_keg keg other (first ∷ kegs) f n = ground arith

insert_keg-IsSorted :
    (keg : InstalledKeg) (kegs : List InstalledKeg) → IsSorted kegs → IsSorted (insert_keg keg kegs)
unfolding insert_keg reverse
insert_keg-IsSorted keg [] s = (tt, tt)
insert_keg-IsSorted keg (other ∷ kegs) s = ground (
  arith,
  insert_keg-IsSorted keg kegs s.1,
  lex_cmp_swap keg.name other.name,
  IsFirst-insert_keg other keg kegs s.0,
)

sort_kegs-IsSorted : (kegs : List InstalledKeg) → IsSorted (sort_kegs kegs)
unfolding sort_kegs
sort_kegs-IsSorted [] = tt
sort_kegs-IsSorted (keg ∷ kegs) = insert_keg-IsSorted keg (sort_kegs kegs) (sort_kegs-IsSorted kegs)

module _ {E : Type 0} (read_link : FilePath → LinkRead E) (read_receipt : FilePath → ReceiptRead E)
    (cellar opt_dir : FilePath) where
  -- The keg is what find_installed_keg gives for one of the names.
  abbrev pub IsFound : InstalledKeg → List Text → Type 0
  IsFound keg [] = ⊥
  IsFound keg (name ∷ names) =
      (find_installed_keg read_link read_receipt cellar opt_dir name ≡ ok (some keg))
      ⊎ IsFound keg names

  In-push_found :
      (keg : InstalledKeg) (found : Option InstalledKeg) (kegs : List InstalledKeg)
      → In keg (push_found found kegs) ↔ ((found ≡ some keg) ⊎ In keg kegs)
  unfolding push_found
  In-push_found keg none kegs = ground arith
  In-push_found keg (some other) kegs = ground arith

  In-discover_each :
      (keg : InstalledKeg) (names : List Text) {kegs : List InstalledKeg}
      → discover_each read_link read_receipt cellar opt_dir names ≡ ok kegs
      → In keg kegs ↔ IsFound keg names
  unfolding discover_each
  In-discover_each keg [] {kegs} e = ground arith
  In-discover_each keg (name ∷ names) {kegs} e =
      let (found, e', f) =
        ok_of_bind (find_installed_keg read_link read_receipt cellar opt_dir name) _ e in
      let (rest, e'', r) =
        ok_of_bind (discover_each read_link read_receipt cellar opt_dir names) _ e' in
      ground (arith, e'', f, In-push_found keg found rest, In-discover_each keg names r)

  -- Where the scan of the cellar's directories succeeds, its kegs are sorted by name, and they are
  -- exactly those that find_installed_keg gives for the directories' names.
  pub discover_installed_kegs-IsFound :
      (names : List Text) {kegs : List InstalledKeg}
      → discover_installed_kegs read_link read_receipt cellar opt_dir (some names) ≡ ok kegs
      → IsSorted kegs × ((keg : InstalledKeg) → In keg kegs ↔ IsFound keg names)
  unfolding discover_installed_kegs
  discover_installed_kegs-IsFound names {kegs} e =
      let (found, e', r) =
        ok_of_bind (discover_each read_link read_receipt cellar opt_dir names) _ e in
      let sorted : sort_kegs found ≡ kegs = ground (arith, e') in
      (
        subst IsSorted sorted (sort_kegs-IsSorted found),
        λ keg. ground (arith, sorted, In-sort_kegs keg found, In-discover_each keg names r),
      )
