-- ===== src/Graph/Resolve/Total.antt =====
-- `resolve` of crates/kernox-core/src/graph.rs returns, with a graph or with an error.
use kernox.Prelude.{
  Ends, Ends-bind, Ends-if, Ends-guard, ℕ, ◌≡◌, refl, ◌⊎◌, inl, inr, Bool, true, List, [], ◌∷◌, map,
  some, length, ok, err, Option-cases, All-mem,
}
use kernox.Order.Derive.{pair_ord}
use kernox.Collections.BTreeSet
use kernox.Collections.BTreeMap
use kernox.Id.{PluginId, CapabilityId, plugin_id_ord, capability_id_ord}
use kernox.Descriptor.{PluginDescriptor, CapabilityRequirement}
use kernox.Error.{ResolveError, dependency_cycle, unused_binding}
use kernox.Graph.{
  CompositionSpec, ResolvedGraph, ResolvedEdge, edge_ord, absolute_max_plugins,
  absolute_max_capabilities_per_plugin, absolute_max_edges,
}
use kernox.Graph.Checks.{
  Plugins, Bindings, validate_schema_version, check_limit, validate_configured_limits,
  validate_plugin_limit, index_plugins, validate_conflicts, validate_no_self_dependencies,
  validated_bindings,
}
use kernox.Graph.Select.{Providers, index_providers, select_providers}
use kernox.Graph.Topology.{topological_order}
use kernox.Graph.Topology.Total.{topological_order_cases}
use kernox.Graph.Resolve.{
  Resolution, find_unused, add_edges, check_unused, nothing_resolved, admit, conclude,
  resolve_requirement, resolve_requirements, resolve_plugins, resolve,
}
use kernox.Graph.Checks.Total.{
  index_plugins-Ends, check_all_conflicts-Ends, check_all_self_dependencies-Ends, check_limit-Ends,
  Bound, add_bindings-Ends, add_bindings-Bound,
}
use kernox.Graph.Select.Total.{select_providers-Ends}

module _ {V R : Type 0} where
  admit-Ends : (spec : CompositionSpec V R) → Ends (admit spec)
  unfolding admit validate_schema_version validate_configured_limits validate_plugin_limit
      validate_conflicts validate_no_self_dependencies
  admit-Ends spec =
      Ends-bind (validate_schema_version spec.schema_version) _
        (Ends-if _ _ _ (inl (tt, refl)) (inr (_, refl)))
        λ _ _.
          Ends-bind (validate_configured_limits spec.limits) _
            (Ends-bind (check_limit "plugins" spec.limits.max_plugins absolute_max_plugins) _
              (check_limit-Ends "plugins" spec.limits.max_plugins absolute_max_plugins)
              λ _ _.
                Ends-bind
                  (check_limit "capabilities-per-plugin" spec.limits.max_capabilities_per_plugin
                    absolute_max_capabilities_per_plugin)
                  _
                  (check_limit-Ends "capabilities-per-plugin"
                    spec.limits.max_capabilities_per_plugin absolute_max_capabilities_per_plugin)
                  λ _ _. check_limit-Ends "edges" spec.limits.max_edges absolute_max_edges)
            λ _ _.
              Ends-bind (validate_plugin_limit (length spec.plugins) spec.limits.max_plugins) _
                (Ends-if _ _ _ (inl (tt, refl)) (inr (_, refl)))
                λ _ _.
                  Ends-bind (index_plugins spec.limits [] spec.plugins) _
                    (index_plugins-Ends spec.limits [] spec.plugins)
                    λ plugins _.
                      Ends-bind (validate_conflicts plugins) _
                        (check_all_conflicts-Ends plugins (BTreeMap.values plugins))
                        λ _ _.
                          Ends-bind (validate_no_self_dependencies plugins) _
                            (check_all_self_dependencies-Ends (BTreeMap.values plugins))
                            λ _ _. inl (plugins, refl)

  add_edges-Ends :
      (max_edges : ℕ) (consumer : PluginId) (capability : CapabilityId) (edges : List ResolvedEdge)
      (ps : List PluginId)
      → Ends (add_edges {V = V} {R = R} max_edges consumer capability edges ps)
  unfolding add_edges
  add_edges-Ends max_edges consumer capability edges [] = inl (edges, refl)
  add_edges-Ends max_edges consumer capability edges (p ∷ ps) = Ends-guard _ _ _ (
      add_edges-Ends max_edges consumer capability
        (BTreeSet.insert (record { provider = p; consumer = consumer; capability = capability })
          edges)
        ps)

  check_unused-Ends :
      (used : List (PluginId × CapabilityId)) (bindings : Bindings)
      → Ends (check_unused {V = V} {R = R} used bindings)
  unfolding check_unused
  check_unused-Ends used bindings = elim (Option-cases (find_unused used bindings)) [
    | inl all_used ↦ inl (tt, simp (check_unused, all_used))
    | inr (key, unused) ↦ inr (unused_binding key.0 key.1, simp (check_unused, unused))
  ]

module _ {V R : Type 0} (matches : R → V → Bool) where
  module _ (max_edges : ℕ) (plugins : Plugins V R) (providers : Providers V) (bindings : Bindings)
      (bound : Bound plugins bindings) where
    binding_held :
        (key : PluginId × CapabilityId) (p : PluginId)
        → BTreeMap.get key bindings ≡ some p
        → BTreeMap.contains_key p plugins ≡ true
    binding_held key p e =
        All-mem (λ b. BTreeMap.contains_key b.1 plugins ≡ true) bindings bound
          (BTreeMap.mem_of_get key p bindings e)

    resolve_requirement-Ends :
        (consumer : PluginId) (s : Resolution) (r : CapabilityRequirement R)
        → Ends (resolve_requirement matches max_edges plugins providers bindings consumer s r)
    unfolding resolve_requirement
    resolve_requirement-Ends consumer s r =
        let binding = BTreeMap.get (consumer, r.id) bindings in
        let candidates = BTreeMap.get_or r.id [] providers in
        Ends-bind (select_providers matches consumer r binding candidates plugins) _
          (select_providers-Ends matches consumer r binding candidates plugins
            (binding_held (consumer, r.id)))
          λ selected _.
            Ends-bind (add_edges max_edges consumer r.id s.edges selected) _
              (add_edges-Ends max_edges consumer r.id s.edges selected) λ edges _. inl (_, refl)

    resolve_requirements-Ends :
        (consumer : PluginId) (s : Resolution) (rs : List (CapabilityRequirement R))
        → Ends (resolve_requirements matches max_edges plugins providers bindings consumer s rs)
    unfolding resolve_requirements
    resolve_requirements-Ends consumer s [] = inl (s, refl)
    resolve_requirements-Ends consumer s (r ∷ rs) =
        Ends-bind (resolve_requirement matches max_edges plugins providers bindings consumer s r) _
          (resolve_requirement-Ends consumer s r) λ s' _. resolve_requirements-Ends consumer s' rs

    resolve_plugins-Ends :
        (s : Resolution) (ds : List (PluginDescriptor V R))
        → Ends (resolve_plugins matches max_edges plugins providers bindings s ds)
    unfolding resolve_plugins
    resolve_plugins-Ends s [] = inl (s, refl)
    resolve_plugins-Ends s (d ∷ ds) =
        Ends-bind
          (resolve_requirements matches max_edges plugins providers bindings d.id s
            (BTreeMap.values d.requires))
          _ (resolve_requirements-Ends d.id s (BTreeMap.values d.requires))
          λ s' _. resolve_plugins-Ends s' ds

  conclude-Ends : (plugins : Plugins V R) (s : Resolution) → Ends (conclude plugins s)
  unfolding conclude
  conclude-Ends plugins s =
      let edges = map (λ (e : ResolvedEdge). (e.provider, e.consumer)) s.edges in
      Ends-bind
        (topological_order {E = ResolveError V R} dependency_cycle (BTreeMap.keys plugins) edges) _
        (elim (topological_order_cases (BTreeMap.keys plugins) edges {E = ResolveError V R}
          dependency_cycle) [
            | inl (order, is, _) ↦ inl (order, is)
            | inr (cycle, is, _) ↦ inr (dependency_cycle cycle, is)
          ])
        λ order _. inl (_, refl)

  -- Whatever the composition, `resolve` returns a graph or an error: no index is out of range, no key is missing
  -- from a map, and no loop runs out of its fuel.
  pub resolve_ends :
      (spec : CompositionSpec V R)
      → ((g : ResolvedGraph V R) × (resolve matches spec ≡ ok g))
        ⊎ ((e : ResolveError V R) × (resolve matches spec ≡ err e))
  unfolding resolve validated_bindings
  resolve_ends spec = Ends-bind (admit spec) _ (admit-Ends spec) λ plugins _.
      Ends-bind (validated_bindings spec.bindings plugins) _
        (add_bindings-Ends plugins [] spec.bindings)
        λ bindings made.
          let bound = add_bindings-Bound plugins [] bindings spec.bindings tt made in
          let providers = index_providers [] (BTreeMap.values plugins) in
          Ends-bind
            (resolve_plugins matches spec.limits.max_edges plugins providers bindings
              nothing_resolved (BTreeMap.values plugins))
            _
            (resolve_plugins-Ends spec.limits.max_edges plugins providers bindings bound
              nothing_resolved (BTreeMap.values plugins))
            λ s _.
              Ends-bind (check_unused s.used bindings) _ (check_unused-Ends s.used bindings)
                λ _ _. conclude-Ends plugins s
