-- ===== src/Relocate/Keg.antt =====
-- crates/cellar/src/relocate.rs: `RelocationManifest::derive`, `relocate_keg` and
-- `relocate_keg_with_manifest` over the files of a keg.
--
-- A keg is what a read of each of its files gives, by the file's path below the keg. What
-- `relocate_macho` leaves in a file is an argument, since external tools write it. The files are
-- taken one after the other; the program takes them in parallel, and no two of them share a path.
-- Writing a file succeeds.
use brewdock.Base.{
  ◌≡◌, ◌≢◌, refl, sym, ap, subst, ◌∙◌, Bool, false, Option, some, none, List, [], ◌∷◌, ◌++◌, Text,
  text_eq_iff, arith, Bool-cases, Result-cases, inl, inr, if◌then◌else◌, Assoc, lookup, insert,
  Result, ok, err, ◌>>=◌, ok_of_bind,
}
use brewdock.Relocate.Replace.{has_placeholder, is_macho, relocate_text_file, replacements_for}
use brewdock.Relocate.Clean.{relocate_text_file_unmarked}

pub data RelocationScope : Type 0 where
  text_only full : RelocationScope

-- `InvalidInput` is the kind of error that the program passes over.
pub data FileRead (E : Type 0) : Type 0 where
  content : Text → FileRead E
  invalid_input : FileRead E
  failed : E → FileRead E

abbrev pub Keg : Type 0 → Type 0
Keg E = Assoc (FileRead E)

unfoldable pub has_work : {E : Type 0} → FileRead E → Result E Bool
unfolding has_placeholder
has_work (content bytes) = ok (has_placeholder bytes)
has_work invalid_input = ok false
has_work (failed e) = err e

unfoldable pub derive : {E : Type 0} → Keg E → Result E (List Text)
unfolding has_work
derive [] = ok []
derive (file ∷ keg) = do
  listed ← has_work file.1
  rest ← derive keg
  ok (if listed then file.0 ∷ rest else rest)

module _ {E : Type 0} (missing : E) (relocate_macho : Text → Result E (FileRead E)) (prefix : Text)
    (scope : RelocationScope) where
  unfoldable pub relocate_marked : Text → Result E (FileRead E)
  unfolding relocate_text_file replacements_for is_macho
  relocate_marked bytes =
      if is_macho bytes
      then elim scope [ full ↦ relocate_macho bytes | text_only ↦ ok (content bytes) ]
      else ok (content (relocate_text_file bytes (replacements_for prefix)))

  -- The body of the loop over the manifest: what the file holds then.
  unfoldable pub relocate_file : FileRead E → Result E (FileRead E)
  unfolding relocate_marked has_placeholder
  relocate_file (content bytes) =
      if has_placeholder bytes then relocate_marked bytes else ok (content bytes)
  relocate_file invalid_input = ok invalid_input
  relocate_file (failed e) = err e

  unfoldable pub relocate_path : Option (FileRead E) → Result E (FileRead E)
  unfolding relocate_file
  relocate_path none = err missing
  relocate_path (some read) = relocate_file read

  unfoldable pub relocate_keg_with_manifest : Keg E → List Text → Result E (Keg E)
  unfolding relocate_path lookup insert
  relocate_keg_with_manifest keg [] = ok keg
  relocate_keg_with_manifest keg (path ∷ manifest) = do
    read ← relocate_path (lookup path keg)
    relocate_keg_with_manifest (insert path read keg) manifest

  unfoldable pub relocate_keg : Keg E → Result E (Keg E)
  unfolding derive relocate_keg_with_manifest
  relocate_keg keg = do manifest ← derive keg; relocate_keg_with_manifest keg manifest

  -- The plain account of it: every text file is rewritten, marked or not, and every marked Mach-O
  -- file is patched if the scope says so.
  abbrev pub relocate_always : FileRead E → Result E (FileRead E)
  relocate_always (content bytes) =
      if is_macho bytes
      then relocate_file (content bytes)
      else ok (content (relocate_text_file bytes (replacements_for prefix)))
  relocate_always read = relocate_file read

  unfoldable pub relocate_all : Keg E → Result E (Keg E)
  relocate_all [] = ok []
  relocate_all (file ∷ keg) = do
    read ← relocate_always file.1
    rest ← relocate_all keg
    ok ((file.0, read) ∷ rest)

  relocate_always-relocate_file : (read : FileRead E) → relocate_always read ≡ relocate_file read
  unfolding relocate_file relocate_marked
  relocate_always-relocate_file (content bytes) = elim (Bool-cases (has_placeholder bytes)) [
    | inl m ↦ ground arith
    | inr m ↦ ground (arith, relocate_text_file_unmarked prefix bytes m)
  ]
  relocate_always-relocate_file invalid_input = refl
  relocate_always-relocate_file (failed e) = refl

  -- The first entries of a keg do not have the path.
  abbrev pub LacksPath : Text → Keg E → Type 0
  LacksPath path [] = Unit
  LacksPath path (file ∷ keg) = (file.0 ≢ path) × LacksPath path keg

  lookup-append :
      (path : Text) (read : FileRead E) (done keg : Keg E)
      → LacksPath path done
      → lookup path (done ++ (path, read) ∷ keg) ≡ some read
  unfolding lookup
  lookup-append path read [] keg h = ground (arith, text_eq_iff path path)
  lookup-append path read (file ∷ done) keg h =
      ground (arith, text_eq_iff file.0 path, lookup-append path read done keg h.1)

  insert-append :
      (path : Text) (old new : FileRead E) (done keg : Keg E)
      → LacksPath path done
      → insert path new (done ++ (path, old) ∷ keg) ≡ done ++ (path, new) ∷ keg
  unfolding insert
  insert-append path old new [] keg h = ground (arith, text_eq_iff path path)
  insert-append path old new (file ∷ done) keg h =
      ground (arith, text_eq_iff file.0 path, insert-append path old new done keg h.1)

  abbrev pub HasDistinctPaths : Keg E → Type 0
  HasDistinctPaths [] = Unit
  HasDistinctPaths (file ∷ keg) = LacksPath file.0 keg × HasDistinctPaths keg

  abbrev IsApart : Keg E → Keg E → Type 0
  IsApart done [] = Unit
  IsApart done (file ∷ keg) = LacksPath file.0 done × IsApart done keg

  LacksPath-snoc :
      (path other : Text) (read : FileRead E) (done : Keg E)
      → LacksPath path done
      → other ≢ path
      → LacksPath path (done ++ (other, read) ∷ [])
  LacksPath-snoc path other read [] h n = (n, tt)
  LacksPath-snoc path other read (file ∷ done) h n =
      (h.0, LacksPath-snoc path other read done h.1 n)

  IsApart-snoc :
      (path : Text) (read : FileRead E) (done keg : Keg E)
      → IsApart done keg
      → LacksPath path keg
      → IsApart (done ++ (path, read) ∷ []) keg
  IsApart-snoc path read done [] h n = tt
  IsApart-snoc path read done (file ∷ keg) h n = (
    LacksPath-snoc file.0 path read done h.0 (λ e. n.0 (sym e)),
    IsApart-snoc path read done keg h.1 n.1,
  )

  append_assoc :
      (done : Keg E) (file : Text × FileRead E) (keg : Keg E)
      → done ++ file ∷ keg ≡ done ++ file ∷ [] ++ keg
  append_assoc [] file keg = refl
  append_assoc (f ∷ done) file keg = ap (λ w. f ∷ w) (append_assoc done file keg)

  relocate_file_idle :
      (read : FileRead E) → has_work read ≡ ok false → relocate_always read ≡ ok read
  unfolding has_work relocate_file
  relocate_file_idle (content bytes) h =
      relocate_always-relocate_file (content bytes) ∙ ground arith
  relocate_file_idle invalid_input h = refl
  relocate_file_idle (failed e) h = ground arith

  IsApart-nil : (keg : Keg E) → IsApart [] keg
  IsApart-nil [] = tt
  IsApart-nil (file ∷ keg) = (tt, IsApart-nil keg)

  bind-ok : (r : Result E (Keg E)) → (r >>= λ new. ok new) ≡ r
  bind-ok (ok new) = refl
  bind-ok (err e) = refl

  abbrev Relocates : Keg E → Keg E → List Text → Type 0
  Relocates done keg manifest =
      relocate_keg_with_manifest (done ++ keg) manifest
      ≡ (relocate_all keg >>= λ new. ok (done ++ new))

  bind-cons :
      (done : Keg E) (file : Text × FileRead E) (rest : Result E (Keg E))
      → (rest >>= λ new. ok (done ++ file ∷ [] ++ new))
        ≡ (rest >>= (λ new. ok (file ∷ new)) >>= λ new. ok (done ++ new))
  bind-cons done file (ok rest) = ap ok (sym (append_assoc done file rest))
  bind-cons done file (err e) = refl

  -- A file that is done moves over to the front.
  relocate_front :
      (done : Keg E) (file : Text × FileRead E) (keg : Keg E) (manifest : List Text)
      → Relocates (done ++ file ∷ []) keg manifest
      → relocate_keg_with_manifest (done ++ file ∷ keg) manifest
        ≡ (relocate_all keg >>= (λ new. ok (file ∷ new)) >>= λ new. ok (done ++ new))
  relocate_front done file keg manifest rest =
      ap (λ k. relocate_keg_with_manifest k manifest) (append_assoc done file keg)
      ∙ rest
      ∙ bind-cons done file (relocate_all keg)

  relocate_listed :
      (done : Keg E) (path : Text) (read : FileRead E) (keg : Keg E) (manifest : List Text)
      → LacksPath path done
      → ((new : FileRead E) → Relocates (done ++ (path, new) ∷ []) keg manifest)
      → Relocates done ((path, read) ∷ keg) (path ∷ manifest)
  unfolding relocate_keg_with_manifest relocate_all relocate_path
  relocate_listed done path read keg manifest a rest =
      rw (lookup-append path read done keg a, sym (relocate_always-relocate_file read))
        (elim (Result-cases (relocate_always read)) [
          | inl (e, r) ↦ rw r refl
          | inr (new, r) ↦
              rw (r, insert-append path read new done keg a)
                (relocate_front done (path, new) keg manifest (rest new))
        ])

  relocate_unlisted :
      (done : Keg E) (path : Text) (read : FileRead E) (keg : Keg E) (manifest : List Text)
      → has_work read ≡ ok false
      → Relocates (done ++ (path, read) ∷ []) keg manifest
      → Relocates done ((path, read) ∷ keg) manifest
  unfolding relocate_all
  relocate_unlisted done path read keg manifest w rest =
      rw (relocate_file_idle read w) (relocate_front done (path, read) keg manifest rest)

  relocate_keg_with_manifest_lem :
      (done keg : Keg E) (manifest : List Text)
      → derive keg ≡ ok manifest
      → HasDistinctPaths keg
      → IsApart done keg
      → Relocates done keg manifest
  unfolding derive relocate_keg_with_manifest relocate_all
  relocate_keg_with_manifest_lem done [] [] e d a = refl
  relocate_keg_with_manifest_lem done [] (path ∷ manifest) e d a = ground arith
  relocate_keg_with_manifest_lem done ((path, read) ∷ keg) manifest e d a =
      let (listed, e', w) = ok_of_bind (has_work read) _ e in
      let (rest, e'', k) = ok_of_bind (derive keg) _ e' in
      let done' : (new : FileRead E) → Relocates (done ++ (path, new) ∷ []) keg rest = λ new.
        relocate_keg_with_manifest_lem (done ++ (path, new) ∷ []) keg rest k d.1
          (IsApart-snoc path new done keg a.1 d.0) in
      elim (Bool-cases listed) [
        | inl l ↦
            let found : path ∷ rest ≡ manifest = ground (arith, e'') in
            subst (Relocates done ((path, read) ∷ keg)) found
              (relocate_listed done path read keg rest a.0 done')
        | inr l ↦
            let found : rest ≡ manifest = ground (arith, e'') in
            subst (Relocates done ((path, read) ∷ keg)) found
              (relocate_unlisted done path read keg rest (rw (sym l) w) (done' read))
      ]

  -- Where the derivation of the manifest succeeds and no two files have the same path, relocating the
  -- listed files gives what going over every file of the keg gives, in the same order and with the
  -- same first error: a text file is rewritten whether it is marked or not.
  pub relocate_keg-relocate_all :
      (keg : Keg E) (manifest : List Text)
      → derive keg ≡ ok manifest
      → HasDistinctPaths keg
      → relocate_keg keg ≡ relocate_all keg
  unfolding relocate_keg
  relocate_keg-relocate_all keg manifest e d = rw e (
      relocate_keg_with_manifest_lem [] keg manifest e d (IsApart-nil keg)
      ∙ bind-ok (relocate_all keg))
