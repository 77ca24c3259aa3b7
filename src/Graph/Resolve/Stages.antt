-- ===== src/Graph/Resolve/Stages.antt =====
-- A successful resolution, stage by stage.
use kernox.Prelude.{◌≡◌, ap, ◌∙◌, Bool, [], ok, bind_ok, length, map}
use kernox.Order.Derive.{pair_ord}
use kernox.Collections.BTreeMap
use kernox.Id.{plugin_id_ord, capability_id_ord}
use kernox.Error.{ResolveError, dependency_cycle}
use kernox.Graph.{CompositionSpec, ResolvedGraph, edge_ord}
use kernox.Graph.Checks.{
  Plugins, Bindings, validate_schema_version, validate_configured_limits, validate_plugin_limit,
  index_plugins, validate_conflicts, validate_no_self_dependencies, validated_bindings,
}
use kernox.Graph.Checks.Index.{IsIndex}
use kernox.Graph.Select.{index_providers}
use kernox.Graph.Diagnostics.{graph_diagnostics}
use kernox.Graph.Topology.{topological_order}
use kernox.Graph.Resolve.{
  Resolution, sort_requirements, nothing_resolved, resolve_plugins, check_unused, admit, conclude,
  resolve,
}

module _ {V R : Type 0} where
  -- The stages of `admit`.
  pub record Admitted (spec : CompositionSpec V R) (plugins : Plugins V R) : Type 0 where
    pub schema : validate_schema_version {V = V} {R = R} spec.schema_version ≡ ok tt
    pub limits : validate_configured_limits {V = V} {R = R} spec.limits ≡ ok tt
    pub size :
        validate_plugin_limit {V = V} {R = R} (length spec.plugins) spec.limits.max_plugins ≡ ok tt
    pub indexed : index_plugins spec.limits [] spec.plugins ≡ ok plugins
    pub apart : validate_conflicts plugins ≡ ok tt
    pub outward : validate_no_self_dependencies plugins ≡ ok tt

  pub admit_ok :
      (spec : CompositionSpec V R) (plugins : Plugins V R)
      → admit spec ≡ ok plugins
      → Admitted spec plugins
  unfolding admit
  admit_ok spec plugins h =
      let (_, a, h1) = bind_ok (validate_schema_version spec.schema_version) _ h in
      let (_, b, h2) = bind_ok (validate_configured_limits spec.limits) _ h1 in
      let (_, c, h3) =
        bind_ok (validate_plugin_limit (length spec.plugins) spec.limits.max_plugins) _ h2 in
      let (m, d, h4) = bind_ok (index_plugins spec.limits [] spec.plugins) _ h3 in
      let (_, e, h5) = bind_ok (validate_conflicts m) _ h4 in
      let (_, f, h6) = bind_ok (validate_no_self_dependencies m) _ h5 in
      let same_map : m ≡ plugins = cc in
      record {
        schema = a;
        limits = b;
        size = c;
        indexed = rw same_map at d;
        apart = rw same_map at e;
        outward = rw same_map at f;
      }

  pub empty-IsIndex : (spec : CompositionSpec V R) → IsIndex {V = V} {R = R} spec.limits []
  empty-IsIndex spec = record { sorted = tt; keyed = tt }

  -- The parts of `conclude`.
  pub record Concluded (plugins : Plugins V R) (s : Resolution) (g : ResolvedGraph V R)
      : Type 0 where
    pub plugins_eq : g.plugins ≡ plugins
    pub requirements_eq : g.requirements ≡ sort_requirements s.requirements
    pub edges_eq : g.edges ≡ s.edges
    pub diagnostics_eq :
        g.diagnostics ≡ graph_diagnostics plugins (sort_requirements s.requirements) s.edges
    pub ordered :
        topological_order {E = ResolveError V R} dependency_cycle
          (BTreeMap.keys plugins)
          (map (λ e. (e.provider, e.consumer)) s.edges)
        ≡ ok g.startup_order

  conclude_ok :
      (plugins : Plugins V R) (s : Resolution) (g : ResolvedGraph V R)
      → conclude plugins s ≡ ok g
      → Concluded plugins s g
  unfolding conclude
  conclude_ok plugins s g h =
      let (order, ordered, last) =
        bind_ok
          (topological_order {E = ResolveError V R} dependency_cycle (BTreeMap.keys plugins)
            (map (λ e. (e.provider, e.consumer)) s.edges))
          _ h in
      let order_eq : order ≡ g.startup_order = cc in
      record {
        plugins_eq = cc;
        requirements_eq = cc;
        edges_eq = cc;
        diagnostics_eq = cc;
        ordered = ordered ∙ ap ok order_eq;
      }

module _ {V R : Type 0} (matches : R → V → Bool) (spec : CompositionSpec V R) where
  -- The stages of a successful `resolve`.
  pub record Stages (plugins : Plugins V R) (bindings : Bindings) (s : Resolution)
      (g : ResolvedGraph V R) : Type 0 where
    pub admitted : Admitted spec plugins
    pub bound : validated_bindings spec.bindings plugins ≡ ok bindings
    pub ran :
        resolve_plugins matches spec.limits.max_edges plugins
          (index_providers [] (BTreeMap.values plugins))
          bindings
          nothing_resolved
          (BTreeMap.values plugins)
        ≡ ok s
    pub all_used : check_unused {V = V} {R = R} s.used bindings ≡ ok tt
    pub concluded : Concluded plugins s g

  pub resolve_ok :
      (g : ResolvedGraph V R)
      → resolve matches spec ≡ ok g
      → (plugins : Plugins V R) × (bindings : Bindings) × (s : Resolution) × Stages plugins bindings
          s g
  unfolding resolve
  resolve_ok g h =
      let (plugins, a, h1) = bind_ok (admit spec) _ h in
      let (bindings, b, h2) = bind_ok (validated_bindings spec.bindings plugins) _ h1 in
      let (s, c, h3) =
        bind_ok
          (resolve_plugins matches spec.limits.max_edges plugins
            (index_providers [] (BTreeMap.values plugins)) bindings nothing_resolved
            (BTreeMap.values plugins))
          _ h2 in
      let (_, d, h4) = bind_ok (check_unused s.used bindings) _ h3 in
      (
        plugins,
        bindings,
        s,
        record {
          admitted = admit_ok spec plugins a;
          bound = b;
          ran = c;
          all_used = d;
          concluded = conclude_ok plugins s g h4;
        },
      )
