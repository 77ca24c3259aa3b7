-- ===== src/Graph/Resolve/Fitting.antt =====
-- The providers of a resolved requirement (crates/kernox-core/src/graph.rs) fit its cardinality.
use kernox.Prelude.{◌≡◌, sym, subst, ⊎_elim, Bool, [], Memᴰ, ok, not_mem_nil}
use kernox.Collections.BTreeMap
use kernox.Graph.{CompositionSpec, ResolvedGraph, ResolvedRequirement}
use kernox.Graph.Select.{index_providers}
use kernox.Graph.Select.Correct.{Fits, select_providers_cases}
use kernox.Graph.Resolve.{nothing_resolved, resolve}
use kernox.Graph.Resolve.Sorting.{mem-sort_requirements}
use kernox.Graph.Resolve.Stages.{resolve_ok}
use kernox.Graph.Resolve.Loop.{resolve_plugins_ok}

-- In a resolved graph each requirement has as many providers as its own cardinality allows.
pub requirements_fit :
    {V R : Type 0} (matches : R → V → Bool) (spec : CompositionSpec V R) (g : ResolvedGraph V R)
    (q : ResolvedRequirement)
    → resolve matches spec ≡ ok g
    → Memᴰ q g.requirements
    → Fits q.cardinality q.providers
requirements_fit matches spec g q resolved m =
    let (plugins, bindings, s, st) = resolve_ok matches spec g resolved in
    let ran =
      resolve_plugins_ok matches spec.limits.max_edges plugins
        (index_providers [] (BTreeMap.values plugins)) bindings nothing_resolved s
        (BTreeMap.values plugins) st.ran in
    let m' =
      (mem-sort_requirements q s.requirements).0 (subst (Memᴰ q) st.concluded.requirements_eq m) in
    ⊎_elim not_mem_nil
      (λ (c, r, d, a).
        let (fits, _) = select_providers_cases matches c r _ _ plugins q.providers a.selected in
        subst (λ k. Fits k q.providers) (sym a.cardinality_eq) fits)
      ((ran.requirements q).0 m')
