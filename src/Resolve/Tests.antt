-- ===== src/Resolve/Tests.antt =====
-- The search on small maps, and witnesses.
use brewdock.Base.{
  ◌<◌, ◌≡◌, ◌≢◌, ◌↔◌, refl, inl, inr, some, List, [], ◌∷◌, Text, ascii, text_eq, Assoc, lookup,
  insert, ok, err, arith, sym, text_eq_iff, Bool-cases,
}
use brewdock.Base.Lists.{In, IsDistinct, length}
use brewdock.Formula.{Formula, cyclic_dependency}
use brewdock.Formula.Samples.{sample_formula}
use brewdock.Resolve.{out_of_fuel, error, visit, path_from, pop, resolve_install_order}
use brewdock.Resolve.Graph.{DependsOn, Needed, start, step, IsCycle, IsOrdered}
use brewdock.Resolve.Order.{
  resolve_install_order-IsOrdered, resolve_install_order-mem_iff, resolve_install_order_halts,
  resolve_install_order-IsJustified, resolve_install_order_complete,
}

program : Unit {0}
unfolding resolve_install_order visit path_from pop lookup insert text_eq
program = tt

abbrev a : Text
a = ascii "a"

abbrev b : Text
b = ascii "b"

abbrev c : Text
c = ascii "c"

abbrev diamond : Assoc Formula
diamond =
    (a, sample_formula a (b ∷ c ∷ []))
    ∷ (b, sample_formula b (c ∷ []))
    ∷ (c, sample_formula c [])
    ∷ []

abbrev order : List Text
order = c ∷ b ∷ a ∷ []

resolve-diamond : resolve_install_order diamond (a ∷ a ∷ []) ≡ ok order
unfolding program
resolve-diamond = refl

abbrev ring : Assoc Formula
ring = (a, sample_formula a (b ∷ [])) ∷ (b, sample_formula b (a ∷ [])) ∷ []

resolve-ring :
    resolve_install_order ring (a ∷ []) ≡ err (error (cyclic_dependency (a ∷ b ∷ a ∷ [])))
unfolding program
resolve-ring = refl

resolve_install_order-IsOrdered_example : IsOrdered diamond [] order × IsDistinct order
resolve_install_order-IsOrdered_example =
    resolve_install_order-IsOrdered diamond (a ∷ a ∷ []) resolve-diamond

resolve_install_order-mem_iff_example : In c order ↔ Needed diamond (a ∷ a ∷ []) c
resolve_install_order-mem_iff_example =
    resolve_install_order-mem_iff diamond (a ∷ a ∷ []) resolve-diamond c

resolve_install_order_halts_example : resolve_install_order ring (a ∷ []) ≢ err out_of_fuel
resolve_install_order_halts_example = resolve_install_order_halts ring (a ∷ [])

resolve_install_order-IsJustified_example : IsCycle ring (a ∷ b ∷ a ∷ [])
resolve_install_order-IsJustified_example =
    resolve_install_order-IsJustified ring (a ∷ []) resolve-ring

-- A dependency has the shorter name.
abbrev app : Text
app = ascii "app"

abbrev pair : Assoc Formula
pair = (app, sample_formula app (b ∷ [])) ∷ (b, sample_formula b []) ∷ []

DependsOn-pair : (x y : Text) → DependsOn pair x y → (x ≡ app) × (y ≡ b)
unfolding lookup
DependsOn-pair x y d = elim (Bool-cases (text_eq app x)) [
  | inl p ↦
      let same : d.formula ≡ sample_formula app (b ∷ []) = ground (arith, d.found) in
      elim (rw same at d.listed) [ inl e ↦ (sym ((text_eq_iff app x).0 p), e) | inr n ↦ absurd n ]
  | inr p ↦ elim (Bool-cases (text_eq b x)) [
    | inl q ↦
        let same : d.formula ≡ sample_formula b [] = ground (arith, d.found) in
        absurd (rw same at d.listed)
    | inr q ↦ ground (arith, d.found)
  ]
]

pair_falls : (x y : Text) → DependsOn pair x y → length y < length x
pair_falls x y d = let (p, q) = DependsOn-pair x y d in rw (p, q) (omega arith)

pair_present : (n : Text) → Needed pair (app ∷ []) n → (f : Formula) × (lookup n pair ≡ some f)
unfolding program
pair_present n (start _ h) = elim h [
  | inl e ↦ (sample_formula app (b ∷ []), rw e)
  | inr l ↦ absurd l
]
pair_present n (step {a = x} need d) = (sample_formula b [], rw (DependsOn-pair x n d).1)

resolve_install_order_complete_example :
    (order : List Text) × (resolve_install_order pair (app ∷ []) ≡ ok order)
resolve_install_order_complete_example =
    resolve_install_order_complete pair length pair_falls (app ∷ []) pair_present
