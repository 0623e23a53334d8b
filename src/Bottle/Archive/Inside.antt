-- ===== src/Bottle/Archive/Inside.antt =====
-- The paths that the checks of crates/bottle/src/extract.rs accept.
use brewdock.Base.{
  ok_eq, err_ok, ℕ, zero, suc, ◌≡◌, ◌≢◌, refl, sym, ap, subst, ◌∙◌, Bool, true, false, Option, none,
  some, [], ◌∷◌, ◌++◌, Text, arith, Result, ok, err, ok_of_bind, Bool-cases, inl, inr,
  if◌then◌else◌,
}
use brewdock.Base.Lists.{length, length-append}
use brewdock.Discover.{is_absolute, join_relative}
use brewdock.Paths.{Component, root_dir, cur_dir, parent_dir, normal, FilePath, pop, push}
use brewdock.Paths.Relative.{IsNames}
use brewdock.PostInstall.{parent}
use brewdock.Bottle.Archive.{
  escapes_root, ArchiveError, absolute_target, normalize_archive_from, require_name,
  normalize_archive_path, EntryType, symlink, link, other, or_nothing, validate_link,
  validate_target, validate_entry_target, check_entry,
}

-- Read from a directory so many levels below the root, the path never goes above the root and does
-- not end there.
abbrev pub StaysBelow : ℕ → FilePath → Type 0
StaysBelow zero [] = ⊥
StaysBelow (suc depth) [] = Unit
StaysBelow depth (normal s ∷ p) = StaysBelow (suc depth) p
StaysBelow depth (cur_dir ∷ p) = StaysBelow depth p
StaysBelow zero (parent_dir ∷ p) = ⊥
StaysBelow (suc depth) (parent_dir ∷ p) = StaysBelow depth p
StaysBelow depth (root_dir ∷ p) = ⊥

-- What is popped off names.
IsNames-pop : (p : FilePath) → IsNames p → IsNames (pop p).0
unfolding pop
IsNames-pop [] h = tt
IsNames-pop (normal s ∷ []) h = tt
IsNames-pop (normal s ∷ c ∷ p) h = IsNames-pop (c ∷ p) h
IsNames-pop (root_dir ∷ p) h = absurd h
IsNames-pop (cur_dir ∷ p) h = absurd h
IsNames-pop (parent_dir ∷ p) h = absurd h

IsNames-snoc : (p : FilePath) (s : Text) → IsNames p → IsNames (p ++ normal s ∷ [])
IsNames-snoc [] s h = tt
IsNames-snoc (normal t ∷ p) s h = IsNames-snoc p s h
IsNames-snoc (root_dir ∷ p) s h = absurd h
IsNames-snoc (cur_dir ∷ p) s h = absurd h
IsNames-snoc (parent_dir ∷ p) s h = absurd h

pop-length :
    (c : Component) (p : FilePath)
    → IsNames (c ∷ p)
    → ((pop (c ∷ p)).1 ≡ true) × (length (c ∷ p) ≡ suc (length (pop (c ∷ p)).0))
unfolding pop
pop-length (normal s) [] h = (refl, refl)
pop-length (normal s) (d ∷ p) h = let (t, l) = pop-length d p h in (t, ap suc l)
pop-length root_dir p h = absurd h
pop-length cur_dir p h = absurd h
pop-length parent_dir p h = absurd h

length-snoc : (p : FilePath) (c : Component) → length (p ++ c ∷ []) ≡ suc (length p)
length-snoc p c = omega (arith, length-append p (c ∷ []))

-- The step of `..`, by whether there is something to pop.
abbrev step_up : FilePath → FilePath → Bool → Result ArchiveError FilePath
step_up p path popped = if popped then normalize_archive_from (pop p).0 path else err escapes_root

-- What is accepted stays below, and consists of names.
normalize_archive_from_sound :
    (p path : FilePath) {n : FilePath}
    → IsNames p
    → normalize_archive_from p path ≡ ok n
    → n ≢ []
    → IsNames n × StaysBelow (length p) path
unfolding normalize_archive_from push pop
normalize_archive_from_sound [] [] {n} h e some_name = absurd (some_name (sym (ok_eq e)))
normalize_archive_from_sound (c ∷ p) [] {n} h e some_name = (subst IsNames (ok_eq e) h, tt)
normalize_archive_from_sound p (normal s ∷ path) {n} h e some_name =
    let (names, below) =
      normalize_archive_from_sound (p ++ normal s ∷ []) path (IsNames-snoc p s h) e some_name in
    (names, subst (λ depth. StaysBelow depth path) (length-snoc p (normal s)) below)
normalize_archive_from_sound p (cur_dir ∷ path) {n} h e some_name =
    normalize_archive_from_sound p path h e some_name
normalize_archive_from_sound p (root_dir ∷ path) {n} h e some_name = absurd (err_ok e)
normalize_archive_from_sound [] (parent_dir ∷ path) {n} h e some_name = absurd (err_ok e)
normalize_archive_from_sound (c ∷ p) (parent_dir ∷ path) {n} h e some_name =
    let (t, l) = pop-length c p h in
    let up = sym (ap (step_up (c ∷ p) path) t) ∙ e in
    let (names, below) =
      normalize_archive_from_sound (pop (c ∷ p)).0 path (IsNames-pop (c ∷ p) h) up some_name in
    (names, subst (λ depth. StaysBelow depth path) (omega (arith, l)) below)

normalize_archive_from_complete :
    (p path : FilePath)
    → IsNames p
    → StaysBelow (length p) path
    → (n : FilePath) × (normalize_archive_from p path ≡ ok n) × (n ≢ [])
unfolding normalize_archive_from push pop
normalize_archive_from_complete [] [] h below = absurd below
normalize_archive_from_complete (c ∷ p) [] h below = (c ∷ p, refl, ground arith)
normalize_archive_from_complete p (normal s ∷ path) h below =
    normalize_archive_from_complete (p ++ normal s ∷ []) path (IsNames-snoc p s h)
      (subst (λ depth. StaysBelow depth path) (sym (length-snoc p (normal s))) below)
normalize_archive_from_complete p (cur_dir ∷ path) h below =
    normalize_archive_from_complete p path h below
normalize_archive_from_complete p (root_dir ∷ path) h below = absurd below
normalize_archive_from_complete [] (parent_dir ∷ path) h below = absurd below
normalize_archive_from_complete (c ∷ p) (parent_dir ∷ path) h below =
    let (t, l) = pop-length c p h in
    let (n, e, some_name) =
      normalize_archive_from_complete (pop (c ∷ p)).0 path (IsNames-pop (c ∷ p) h)
        (subst (λ depth. StaysBelow depth path) (omega (arith, l)) below) in
    (n, ap (step_up (c ∷ p) path) t ∙ e, some_name)

require_name-ok : (p : FilePath) {n : FilePath} → require_name p ≡ ok n → (p ≡ n) × (n ≢ [])
unfolding require_name
require_name-ok [] e = absurd (err_ok e)
require_name-ok (c ∷ p) e = (ok_eq e, λ none. absurd (ground (arith, ok_eq e, none)))

-- The path is read from the root of the archive.
abbrev pub IsInside : FilePath → FilePath → Type 0
IsInside path p = IsNames p × (p ≢ []) × StaysBelow 0 path

normalize_archive_path-IsInside :
    (path : FilePath) {p : FilePath} → normalize_archive_path path ≡ ok p → IsInside path p
unfolding normalize_archive_path
normalize_archive_path-IsInside path {p} e =
    let (n, e', f) = ok_of_bind (normalize_archive_from [] path) _ e in
    let (same, some_name) = require_name-ok n e' in
    let (names, below) =
      normalize_archive_from_sound [] path tt f (λ none. some_name (sym same ∙ none)) in
    (subst IsNames same names, some_name, below)

-- A symbolic link has a relative target, and a hard link one that is inside of the archive, read from
-- the directory of the entry.
abbrev pub IsSafe : EntryType → FilePath → Option FilePath → Type 0
IsSafe other p link_name = Unit
IsSafe symlink p link_name =
    (target : FilePath) × (link_name ≡ some target) × (is_absolute target ≡ false)
IsSafe link p link_name =
    (target : FilePath) × (inside : FilePath) × (link_name ≡ some target)
    × (is_absolute target ≡ false)
    × IsInside (join_relative (or_nothing (parent p)) target) inside

validate_target-ok :
    (entry_type : EntryType) (p target : FilePath)
    → validate_target entry_type p (some target) ≡ ok tt
    → (is_absolute target ≡ false) × (validate_link entry_type p target ≡ ok tt)
unfolding validate_target
validate_target-ok entry_type p target e = elim (Bool-cases (is_absolute target)) [
  | inl a ↦ absurd (
      err_ok (
        sym (ap (λ b. if b then err absolute_target else validate_link entry_type p target) a) ∙ e))
  | inr r ↦ (
    r,
    sym (ap (λ b. if b then err absolute_target else validate_link entry_type p target) r) ∙ e,
  )
]

validate_entry_target-IsSafe :
    (entry_type : EntryType) (p : FilePath) (link_name : Option FilePath)
    → validate_entry_target entry_type p link_name ≡ ok tt
    → IsSafe entry_type p link_name
unfolding validate_entry_target validate_target validate_link
validate_entry_target-IsSafe other p link_name e = tt
validate_entry_target-IsSafe symlink p none e = absurd (err_ok e)
validate_entry_target-IsSafe symlink p (some target) e =
    (target, refl, (validate_target-ok symlink p target e).0)
validate_entry_target-IsSafe link p none e = absurd (err_ok e)
validate_entry_target-IsSafe link p (some target) e =
    let (relative, checked) = validate_target-ok link p target e in
    let (inside, done, n) =
      ok_of_bind (normalize_archive_path (join_relative (or_nothing (parent p)) target)) _
        checked in
    (
      target,
      inside,
      refl,
      relative,
      normalize_archive_path-IsInside (join_relative (or_nothing (parent p)) target) n,
    )

-- An entry of an archive that passes the checks before it is unpacked has a path that never goes above
-- the root, whose normal form is names only and at least one; if it is a link, its target is relative,
-- and if it is a hard link, its target, read from the entry's directory, stays inside as well.
pub check_entry-IsSafe :
    (entry_type : EntryType) (path : FilePath) (link_name : Option FilePath) {p : FilePath}
    → check_entry entry_type path link_name ≡ ok p
    → IsInside path p × IsSafe entry_type p link_name
unfolding check_entry
check_entry-IsSafe entry_type path link_name {p} e =
    let (entry_path, e', n) = ok_of_bind (normalize_archive_path path) _ e in
    let (checked, e'', v) =
      ok_of_bind (validate_entry_target entry_type entry_path link_name) _ e' in
    (
      subst (IsInside path) (ok_eq e'') (normalize_archive_path-IsInside path n),
      subst (λ q. IsSafe entry_type q link_name) (ok_eq e'')
          (validate_entry_target-IsSafe entry_type entry_path link_name v),
    )
