-- ===== src/Cleanup/Kept.antt =====
-- What `cleanup` keeps (crates/core/src/orchestrate.rs and orchestrate/query.rs).
use brewdock.Base.{
  ◌≡◌, refl, ap, ◌↔◌, ◌⊎◌, inl, inr, true, false, Option, none, some, List, [], ◌∷◌, Text,
  text_eq_iff, arith, Bool-cases, Option-cases,
}
use brewdock.Formula.{Formula}
use brewdock.Formula.Select.{SelectedBottle, select_bottle}
use brewdock.Cleanup.{
  Node, file, directory, Entries, nil, entry, is_kept, keep, remove, remove_dir, clean_top,
  clean_entries, cleanup_directory_tree, Stores, clean_store, cleanup, installed_sha,
  installed_shas,
}

-- The directory holds the node under the name.
abbrev pub Holds : Text → Node → Entries → Type 0
Holds name node nil = ⊥
Holds name node (entry other item rest) = ((other ≡ name) × (item ≡ node)) ⊎ Holds name node rest

-- A directory of the store holds the node under the name.
abbrev pub HoldsBelow : Text → Text → Node → Entries → Type 0
HoldsBelow top name node nil = ⊥
HoldsBelow top name node (entry other (directory entries) rest) =
    ((other ≡ top) × Holds name node entries) ⊎ HoldsBelow top name node rest
HoldsBelow top name node (entry other (file size) rest) = HoldsBelow top name node rest

module _ (keep_shas : List Text) (top name : Text) (node : Node) where
  Holds-clean_entries :
      (entries : Entries)
      → Holds name node (clean_entries keep_shas false entries).left
        ↔ (Holds name node entries × (is_kept keep_shas name ≡ true))
  unfolding clean_entries keep remove
  Holds-clean_entries nil = ground arith
  Holds-clean_entries (entry other item rest) = elim (Bool-cases (is_kept keep_shas other)) [
    | inl k ↦ rw k (ground (arith, Holds-clean_entries rest))
    | inr k ↦ rw k (ground (arith, Holds-clean_entries rest))
  ]

  HoldsBelow-remove_dir :
      (other : Text) (inside rest : Entries)
      → HoldsBelow top name node (remove_dir other inside rest)
        ↔ (((other ≡ top) × Holds name node inside) ⊎ HoldsBelow top name node rest)
  unfolding remove_dir
  HoldsBelow-remove_dir other nil rest = ground arith
  HoldsBelow-remove_dir other (entry sub item others) rest = ground arith

  HoldsBelow-cleanup_directory_tree :
      (root : Entries)
      → HoldsBelow top name node (cleanup_directory_tree keep_shas false root).left
        ↔ (HoldsBelow top name node root × (is_kept keep_shas name ≡ true))
  unfolding cleanup_directory_tree keep remove clean_top
  HoldsBelow-cleanup_directory_tree nil = ground arith
  HoldsBelow-cleanup_directory_tree (entry other (directory entries) rest) = ground (
    arith,
    HoldsBelow-remove_dir other (clean_entries keep_shas false entries).left
        (cleanup_directory_tree keep_shas false rest).left,
    Holds-clean_entries entries,
    HoldsBelow-cleanup_directory_tree rest,
  )
  HoldsBelow-cleanup_directory_tree (entry other (file size) rest) =
      elim (Bool-cases (is_kept keep_shas other)) [
        | inl k ↦ rw k (ground (arith, HoldsBelow-cleanup_directory_tree rest))
        | inr k ↦ rw k (ground (arith, HoldsBelow-cleanup_directory_tree rest))
      ]

-- The digest is that of the bottle which the metadata names for an installed keg.
abbrev pub IsInstalled : Text → (Text → Option Formula) → List Text → Text → Type 0
IsInstalled host_tag load_formula [] sha = ⊥
IsInstalled host_tag load_formula (keg ∷ kegs) sha =
    ((formula : Formula) × (bottle : SelectedBottle) × (load_formula keg ≡ some formula)
      × (select_bottle formula host_tag ≡ some bottle)
      × (bottle.sha256 ≡ sha))
    ⊎ IsInstalled host_tag load_formula kegs sha

module _ (host_tag : Text) (load_formula : Text → Option Formula) where
  installed_sha-some :
      (keg sha : Text)
      → installed_sha host_tag (load_formula keg) ≡ some sha
      → (formula : Formula) × (bottle : SelectedBottle) × (load_formula keg ≡ some formula)
        × (select_bottle formula host_tag ≡ some bottle)
        × (bottle.sha256 ≡ sha)
  unfolding installed_sha
  installed_sha-some keg sha e = elim (Option-cases (load_formula keg)) [
    | inl l ↦ absurd (ground arith)
    | inr (formula, l) ↦ elim (Option-cases (select_bottle formula host_tag)) [
      | inl s ↦ absurd (ground arith)
      | inr (bottle, s) ↦ (formula, bottle, l, s, ground arith)
    ]
  ]

  some-installed_sha :
      (keg sha : Text) (formula : Formula) (bottle : SelectedBottle)
      → load_formula keg ≡ some formula
      → select_bottle formula host_tag ≡ some bottle
      → bottle.sha256 ≡ sha
      → installed_sha host_tag (load_formula keg) ≡ some sha
  unfolding installed_sha
  some-installed_sha keg sha formula bottle l s e = rw l (rw (s, installed_sha) (ap some e))

  is_kept-cons :
      (sha other : Text) (shas : List Text)
      → (is_kept (other ∷ shas) sha ≡ true) ↔ ((other ≡ sha) ⊎ (is_kept shas sha ≡ true))
  unfolding is_kept
  is_kept-cons sha other shas = ground (arith, text_eq_iff other sha)

  none_kept : (sha : Text) → (is_kept [] sha ≡ true) ↔ ⊥
  unfolding is_kept
  none_kept sha = ground arith

  nothing_installed : installed_shas host_tag load_formula [] ≡ []
  unfolding installed_shas
  nothing_installed = refl

  installed_shas-none :
      (keg : Text) (kegs : List Text)
      → installed_sha host_tag (load_formula keg) ≡ none
      → installed_shas host_tag load_formula (keg ∷ kegs)
        ≡ installed_shas host_tag load_formula kegs
  unfolding installed_shas
  installed_shas-none keg kegs n = rw (n, installed_shas) refl

  installed_shas-some :
      (keg sha : Text) (kegs : List Text)
      → installed_sha host_tag (load_formula keg) ≡ some sha
      → installed_shas host_tag load_formula (keg ∷ kegs)
        ≡ sha ∷ installed_shas host_tag load_formula kegs
  unfolding installed_shas
  installed_shas-some keg sha kegs s = rw (s, installed_shas) refl

  IsInstalled-cons :
      (keg sha : Text) (kegs : List Text)
      → IsInstalled host_tag load_formula (keg ∷ kegs) sha ↔ (
          (installed_sha host_tag (load_formula keg) ≡ some sha)
          ⊎ IsInstalled host_tag load_formula kegs sha)
  IsInstalled-cons keg sha kegs = (
    λ installed. elim installed [
      | inl (formula, bottle, l, s, e) ↦ inl (some-installed_sha keg sha formula bottle l s e)
      | inr rest ↦ inr rest
    ],
    λ installed. elim installed [
      | inl e ↦ inl (installed_sha-some keg sha e)
      | inr rest ↦ inr rest
    ],
  )

  pub is_kept-installed_shas :
      (sha : Text) (kegs : List Text)
      → (is_kept (installed_shas host_tag load_formula kegs) sha ≡ true)
        ↔ IsInstalled host_tag load_formula kegs sha
  is_kept-installed_shas sha [] = rw nothing_installed (none_kept sha)
  is_kept-installed_shas sha (keg ∷ kegs) =
      elim (Option-cases (installed_sha host_tag (load_formula keg))) [
        | inl n ↦
            rw (installed_shas-none keg kegs n)
              (ground (arith, IsInstalled-cons keg sha kegs, is_kept-installed_shas sha kegs))
        | inr (other, s) ↦ rw (installed_shas-some keg other kegs s) (
            ground (
              arith,
              IsInstalled-cons keg sha kegs,
              is_kept-installed_shas sha kegs,
              is_kept-cons sha other (installed_shas host_tag load_formula kegs),
            ))
      ]

abbrev pub HoldsStore : Text → Text → Node → Option Entries → Type 0
HoldsStore top name node none = ⊥
HoldsStore top name node (some root) = HoldsBelow top name node root

HoldsStore-clean_store :
    (keep_shas : List Text) (top name : Text) (node : Node) (store : Option Entries)
    → HoldsStore top name node (clean_store keep_shas false store).0
      ↔ (HoldsStore top name node store × (is_kept keep_shas name ≡ true))
unfolding clean_store
HoldsStore-clean_store keep_shas top name node none = ground arith
HoldsStore-clean_store keep_shas top name node (some root) =
    HoldsBelow-cleanup_directory_tree keep_shas top name node root

-- Of the blobs in the shards of the blob store, cleanup keeps exactly those whose name is the digest
-- of the bottle that the stored metadata selects for an installed keg, each with its content.
pub cleanup-blobs :
    (host_tag : Text) (load_formula : Text → Option Formula) (kegs : List Text) (stores : Stores)
    (shard sha : Text) (blob : Node)
    → HoldsStore shard sha blob (cleanup host_tag load_formula kegs false stores).0.blobs
      ↔ (HoldsStore shard sha blob stores.blobs × IsInstalled host_tag load_formula kegs sha)
unfolding cleanup
cleanup-blobs host_tag load_formula kegs stores shard sha blob = ground (
  arith,
  HoldsStore-clean_store (installed_shas host_tag load_formula kegs) shard sha blob stores.blobs,
  is_kept-installed_shas host_tag load_formula sha kegs,
)

-- A store of extracted bottles: directories, each of whose entries has a name (a formula's) that is
-- not the digest of an installed bottle.
abbrev pub HasFormulaNames : Text → (Text → Option Formula) → List Text → Entries → Type 0
HasFormulaNames host_tag load_formula kegs nil = Unit
HasFormulaNames host_tag load_formula kegs (entry name node rest) =
    (¬ IsInstalled host_tag load_formula kegs name)
    × HasFormulaNames host_tag load_formula kegs rest

abbrev pub IsExtracted : Text → (Text → Option Formula) → List Text → Entries → Type 0
IsExtracted host_tag load_formula kegs nil = Unit
IsExtracted host_tag load_formula kegs (entry sha (file size) rest) = ⊥
IsExtracted host_tag load_formula kegs (entry sha (directory entries) rest) =
    HasFormulaNames host_tag load_formula kegs entries × IsExtracted host_tag load_formula kegs rest

module _ (host_tag : Text) (load_formula : Text → Option Formula) (kegs : List Text) where
  clean_entries-nil :
      (entries : Entries)
      → HasFormulaNames host_tag load_formula kegs entries
      → (clean_entries (installed_shas host_tag load_formula kegs) false entries).left ≡ nil
  unfolding clean_entries keep remove
  clean_entries-nil nil h = refl
  clean_entries-nil (entry name node rest) h =
      elim (Bool-cases (is_kept (installed_shas host_tag load_formula kegs) name)) [
        | inl k ↦ absurd (h.0 ((is_kept-installed_shas host_tag load_formula name kegs).0 k))
        | inr k ↦ rw k (clean_entries-nil rest h.1)
      ]

  cleanup_directory_tree-nil :
      (root : Entries)
      → IsExtracted host_tag load_formula kegs root
      → (cleanup_directory_tree (installed_shas host_tag load_formula kegs) false root).left ≡ nil
  unfolding cleanup_directory_tree clean_top remove_dir
  cleanup_directory_tree-nil nil h = refl
  cleanup_directory_tree-nil (entry sha (file size) rest) h = absurd h
  cleanup_directory_tree-nil (entry sha (directory entries) rest) h =
      rw (clean_entries-nil entries h.0) (cleanup_directory_tree-nil rest h.1)

  -- Where every entry of the extracted store is a directory that holds, as an extracted bottle does,
  -- a directory named by a formula and not by an installed digest, cleanup empties the store, the
  -- directories of the installed bottles included.
  pub cleanup-extracted :
      (blobs : Option Entries) (root : Entries)
      → IsExtracted host_tag load_formula kegs root
      → (cleanup host_tag load_formula kegs false
          (record { blobs = blobs; extracted = some root })).0.extracted
        ≡ some nil
  unfolding cleanup clean_store
  cleanup-extracted blobs root h = ap some (cleanup_directory_tree-nil root h)
