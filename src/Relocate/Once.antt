-- ===== src/Relocate/Once.antt =====
-- crates/cellar/src/relocate.rs: the loop of `replace_bytes` against `str::replace` and
-- `str::contains_text`.
use brewdock.Base.{
  ℕ, zero, suc, ◌+◌, ◌<◌, ◌≤◌, if◌then◌else◌, ◌≡◌, ◌≢◌, refl, ap, ◌∙◌, Bool, true, false, ◌||◌,
  ◌&&◌, some, none, [], ◌∷◌, ◌++◌, Text, text_eq, arith, leb, Bool-cases, inl, inr,
}
use brewdock.Base.Lists.{length, length-append}
use brewdock.Relocate.Replace.{
  take, drop, begins, contains_text, replace_loop, replace_bytes, replace_from, replace, rewrite,
  replace_each, relocate_text_file, replace_placeholders, Replacements,
}

append_assoc : (s t u : Text) → s ++ t ++ u ≡ s ++ (t ++ u)
append_assoc [] t u = refl
append_assoc (b ∷ s) t u = ap (λ w. b ∷ w) (append_assoc s t u)

append_nil : (s : Text) → s ++ [] ≡ s
append_nil [] = refl
append_nil (b ∷ s) = ap (λ w. b ∷ w) (append_nil s)

take-append : (s t : Text) → take (length s) (s ++ t) ≡ s
unfolding take
take-append [] t = refl
take-append (b ∷ s) t = ap (λ w. b ∷ w) (take-append s t)

suc_add : (m n : ℕ) → suc m + n ≡ suc (m + n)
suc_add m n = omega arith

drop-append : (s t : Text) (n : ℕ) → drop (length s + n) (s ++ t) ≡ drop n t
unfolding drop
drop-append [] t n = ap (λ k. drop k t) (omega arith)
drop-append (b ∷ s) t n = ap (λ k. drop k (b ∷ s ++ t)) (suc_add (length s) n) ∙ drop-append s t n

drop-append_all : (s t : Text) → drop (length s) (s ++ t) ≡ t
unfolding drop
drop-append_all [] t = refl
drop-append_all (b ∷ s) t = drop-append_all s t

begins-text_eq :
    (from s : Text)
    → begins from s ≡ leb (length from) (length s) && text_eq (take (length from) s) from
unfolding begins take text_eq
begins-text_eq [] s = ground arith
begins-text_eq (a ∷ from) [] = ground arith
begins-text_eq (a ∷ from) (b ∷ s) = ground (arith, begins-text_eq from s)

begins_short : (from s : Text) → length s < length from → begins from s ≡ false
begins_short from s h = ground (arith, begins-text_eq from s)

begins-length : (from s : Text) → begins from s ≡ true → length from ≤ length s
begins-length from s h = ground (arith, begins-text_eq from s)

length-drop : (n : ℕ) (s : Text) → n ≤ length s → length (drop n s) + n ≡ length s
unfolding drop
length-drop zero s h = ground arith
length-drop (suc n) [] h = ground arith
length-drop (suc n) (b ∷ s) h = ground (arith, length-drop n s (omega arith))

pub replace_from-drop :
    (from to s : Text) (skip : ℕ) → replace_from from to skip s ≡ replace from to (drop skip s)
unfolding replace_from replace drop
replace_from-drop from to [] zero = refl
replace_from-drop from to [] (suc skip) = refl
replace_from-drop from to (b ∷ s) zero = refl
replace_from-drop from to (b ∷ s) (suc skip) = replace_from-drop from to s skip

-- A text that is shorter than the pattern stays.
replace_short :
    (a : ℕ) (from to s : Text)
    → length s ≤ length from
    → (replace (a ∷ from) to s ≡ s) × (contains_text (a ∷ from) s ≡ false)
unfolding replace replace_from contains_text begins
replace_short a from to [] h = (refl, refl)
replace_short a from to (b ∷ s) h =
    ground (arith, replace_short a from to s (omega arith), begins_short from s (omega arith))

module _ (a : ℕ) (from to : Text) where
  -- A round at an occurrence, and one at another byte.
  replace_match :
      (s : Text)
      → begins (a ∷ from) s ≡ true
      → (replace (a ∷ from) to s ≡ to ++ replace (a ∷ from) to (drop (suc (length from)) s))
        × (contains_text (a ∷ from) s ≡ true)
  unfolding replace replace_from contains_text drop begins
  replace_match [] h = ground arith
  replace_match (b ∷ s) h = ground (arith, replace_from-drop (a ∷ from) to s (length from))

  replace_skip :
      (b : ℕ) (s : Text)
      → begins (a ∷ from) (b ∷ s) ≡ false
      → (replace (a ∷ from) to (b ∷ s) ≡ b ∷ replace (a ∷ from) to s)
        × (contains_text (a ∷ from) (b ∷ s) ≡ contains_text (a ∷ from) s)
  unfolding replace replace_from contains_text
  replace_skip b s h = ground (arith, replace_from-drop (a ∷ from) to s (length from))

  within :
      (done s : Text)
      → leb (length done + suc (length from)) (length (done ++ s))
        ≡ leb (suc (length from)) (length s)
  within done s = ground (arith, length-append done s)

  loop_step :
      (fuel : ℕ) (done s : Text) (changed : Bool)
      → replace_loop (suc fuel) (a ∷ from) to (done ++ s) (length done) changed ≡ (
          if leb (suc (length from)) (length s)
          then (if text_eq (take (suc (length from)) s) (a ∷ from)
              then replace_loop fuel
                  (a ∷ from)
                  to
                  (done ++ to ++ drop (suc (length from)) s)
                  (length (done ++ to))
                  true
              else replace_loop fuel (a ∷ from) to (done ++ s) (suc (length done)) changed)
          else (done ++ s, changed))
  unfolding replace_loop
  loop_step fuel done s changed =
      rw
        (
          within done s,
          take-append done s,
          drop-append_all done s,
          drop-append done s (suc (length from)),
          length-append done to,
        )
        refl

  shorter :
      (b : ℕ) (s : Text)
      → begins (a ∷ from) (b ∷ s) ≡ true
      → (fuel : ℕ) → length (b ∷ s) < suc fuel
      → length (drop (suc (length from)) (b ∷ s)) < fuel
  shorter b s m fuel h =
      omega (arith, length-drop (suc (length from)) (b ∷ s) (begins-length (a ∷ from) (b ∷ s) m))

  abbrev LoopReplaces : ℕ → Text → Text → Bool → Type 0
  LoopReplaces fuel done s changed =
      replace_loop fuel (a ∷ from) to (done ++ s) (length done) changed
      ≡ (done ++ replace (a ∷ from) to s, changed || contains_text (a ∷ from) s)

  replace_loop_match :
      (fuel : ℕ) (done : Text) (b : ℕ) (s : Text) (changed : Bool)
      → length (b ∷ s) < suc fuel
      → begins (a ∷ from) (b ∷ s) ≡ true
      → ((done t : Text) (changed : Bool) → length t < fuel → LoopReplaces fuel done t changed)
      → LoopReplaces (suc fuel) done (b ∷ s) changed
  replace_loop_match fuel done b s changed h m rest = ground (
    arith,
    loop_step fuel done (b ∷ s) changed,
    begins-text_eq (a ∷ from) (b ∷ s),
    replace_match (b ∷ s) m,
    append_assoc done to (replace (a ∷ from) to (drop (suc (length from)) (b ∷ s))),
    rest (done ++ to) (drop (suc (length from)) (b ∷ s)) true (shorter b s m fuel h),
  )

  replace_loop_skip :
      (fuel : ℕ) (done : Text) (b : ℕ) (s : Text) (changed : Bool)
      → begins (a ∷ from) (b ∷ s) ≡ false
      → leb (suc (length from)) (length (b ∷ s)) ≡ true
      → LoopReplaces fuel (done ++ b ∷ []) s changed
      → LoopReplaces (suc fuel) done (b ∷ s) changed
  replace_loop_skip fuel done b s changed m f rest = ground (
    arith,
    loop_step fuel done (b ∷ s) changed,
    begins-text_eq (a ∷ from) (b ∷ s),
    replace_skip b s m,
    append_assoc done (b ∷ []) s,
    length-append done (b ∷ []),
    append_assoc done (b ∷ []) (replace (a ∷ from) to s),
    rest,
  )

  -- The loop leaves what stands before its position, and replaces in the rest.
  replace_loop_lem :
      (fuel : ℕ) (done s : Text) (changed : Bool)
      → length s < fuel
      → replace_loop fuel (a ∷ from) to (done ++ s) (length done) changed
        ≡ (done ++ replace (a ∷ from) to s, changed || contains_text (a ∷ from) s)
  replace_loop_lem zero done s changed h = absurd (omega arith)
  replace_loop_lem (suc fuel) done [] changed h =
      rw (loop_step fuel done [] changed) (ground (arith, replace_short a from to [] (omega arith)))
  replace_loop_lem (suc fuel) done (b ∷ s) changed h =
      let fits : Bool = leb (suc (length from)) (length (b ∷ s)) in
      elim (Bool-cases (fits && begins (a ∷ from) (b ∷ s))) [
        | inl m ↦ replace_loop_match fuel done b s changed h (ground arith) (replace_loop_lem fuel)
        | inr m ↦ elim (Bool-cases fits) [
          | inl f ↦
              replace_loop_skip fuel done b s changed (ground arith) f
                (replace_loop_lem fuel (done ++ b ∷ []) s changed (omega arith))
          | inr f ↦ ground (
            arith,
            loop_step fuel done (b ∷ s) changed,
            replace_short a from to (b ∷ s) (ground arith),
          )
        ]
      ]

pub replace_absent : (from to s : Text) → contains_text from s ≡ false → replace from to s ≡ s
unfolding replace replace_from contains_text
replace_absent from to [] h = refl
replace_absent [] to (b ∷ s) h = refl
replace_absent (a ∷ from) to (b ∷ s) h = ground (arith, replace_absent (a ∷ from) to s)

-- For a pattern that is not empty, the loop of replace_bytes, which splices the buffer in place and
-- moves a position forward, gives what str::replace gives, its flag says whether the pattern occurred,
-- and as many rounds as the buffer has bytes, and one more, are enough for it.
pub replace_bytes-eq-replace :
    (from to bytes : Text)
    → from ≢ []
    → replace_bytes bytes from to ≡ (replace from to bytes, contains_text from bytes)
unfolding replace_bytes
replace_bytes-eq-replace [] to bytes h = absurd (h refl)
replace_bytes-eq-replace (a ∷ from) to bytes h =
    replace_loop_lem a from to (suc (length bytes)) [] bytes false (omega arith)

-- No placeholder is empty.
abbrev pub HasPatterns : Replacements → Type 0
HasPatterns [] = Unit
HasPatterns ((placeholder, actual) ∷ replacements) = (placeholder ≢ []) × HasPatterns replacements

or_true : (b : Bool) → (b || true) ≡ true
or_true true = refl
or_true false = refl

or_false : (b : Bool) → (b || false) ≡ b
or_false true = refl
or_false false = refl

pub rewrite-replace_each :
    (replacements : Replacements) (s : Text) (changed : Bool)
    → HasPatterns replacements
    → rewrite replacements (s, changed) ≡ replace_each replacements s changed
unfolding rewrite replace_each
rewrite-replace_each [] s changed h = refl
rewrite-replace_each ((placeholder, actual) ∷ replacements) s changed h =
    rw (replace_bytes-eq-replace placeholder actual s h.0)
      (elim (Bool-cases (contains_text placeholder s)) [
        | inl e ↦
            rw (e, or_true changed)
              (rewrite-replace_each replacements (replace placeholder actual s) true h.1)
        | inr e ↦
            rw (e, replace_absent placeholder actual s e, or_false changed)
              (rewrite-replace_each replacements s changed h.1)
      ])

-- A file's bytes and a string of a Mach-O file are rewritten alike: for placeholders that are not
-- empty, the loop over a buffer leaves the file with the string that replace_placeholders gives, and
-- with its old bytes where that gives none.
pub relocate_text_file-replace_placeholders :
    (bytes : Text) (replacements : Replacements)
    → HasPatterns replacements
    → relocate_text_file bytes replacements
      ≡ (elim (replace_placeholders bytes replacements) [ none ↦ bytes | some new ↦ new ])
unfolding relocate_text_file replace_placeholders
relocate_text_file-replace_placeholders bytes replacements h =
    rw (rewrite-replace_each replacements bytes false h) (ground arith)
