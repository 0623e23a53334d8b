-- ===== src/Plan/Supported.antt =====
-- The graph that an install order is resolved in (crates/core/src/orchestrate/planning.rs:
-- `resolve_supported_install_order`).
use brewdock.Base.{ℕ, ◌≡◌, ap, Option, List, Text, Assoc, Result, ok, err, ok_of_bind, arith}
use brewdock.Formula.{Formula}
use brewdock.Layout.{Layout}
use brewdock.Platform.{HostTag}
use brewdock.Resolve.{resolve_install_order}
use brewdock.Plan.{
  FormulaCache, map_err, build_install_graph, check_cache_supportability,
  resolve_supported_install_order,
}

pub ok_of_map_err :
    {E F A : Type 0} (f : E → F) (r : Result E A) {a : A} → map_err f r ≡ ok a → r ≡ ok a
unfolding map_err
ok_of_map_err f (ok a) e = ap (λ r. elim r [ ok b ↦ ok b | err _ ↦ ok a ]) e
ok_of_map_err f (err x) e = absurd (ground arith)

pub resolve_supported_install_order-graph :
    (layout : Layout) (host_tag : HostTag) (xcode : Option ℕ) (cache : FormulaCache)
    (names : List Text) {order : List Text}
    → resolve_supported_install_order layout host_tag xcode cache names ≡ ok order
    → (graph : Assoc Formula) × (build_install_graph layout host_tag xcode cache ≡ ok graph)
      × (resolve_install_order graph names ≡ ok order)
unfolding resolve_supported_install_order
resolve_supported_install_order-graph layout host_tag xcode cache names e =
    let (checked, e', c) =
      ok_of_bind (check_cache_supportability layout host_tag xcode cache) _ e in
    let (graph, e'', g) = ok_of_bind (build_install_graph layout host_tag xcode cache) _ e' in
    (graph, g, ok_of_map_err _ (resolve_install_order graph names) e'')
