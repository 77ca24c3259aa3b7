-- ===== src/Graph/Resolve.antt =====
-- `resolve` (crates/kernox-core/src/graph.rs): the loop over the plugins' requirements, the unused
-- binding check, and the whole resolution.
pub mod Step
pub mod Loop
pub mod Sorting
pub mod Stages
pub mod Declared
pub mod Sound
pub mod Permuted
pub mod Keys
pub mod Fitting
pub mod Total
use kernox.Prelude.{
  ℕ, Bool, List, [], ◌∷◌, ◌++◌, Option, none, some, map, ltb, if◌then◌else◌, length, Ordering,
  Result, ok, err, ◌>>=◌, ◌>>◌, reject_if,
}
use kernox.Order.{cmp}
use kernox.Order.Derive.{pair_ord}
use kernox.Collections.BTreeSet
use kernox.Collections.BTreeMap
use kernox.Id.{PluginId, CapabilityId, plugin_id_ord, capability_id_ord}
use kernox.Descriptor.{PluginDescriptor, CapabilityRequirement}
use kernox.Error.{ResolveError, edge_limit_exceeded, unused_binding, dependency_cycle}
use kernox.Graph.{
  CompositionSpec, ResolvedRequirement, ResolvedEdge, ResolvedGraph, edge_ord, diagnostic_ord,
}
use kernox.Graph.Checks.{
  Plugins, Bindings, is_some, validate_schema_version, validate_configured_limits,
  validate_plugin_limit, index_plugins, validate_conflicts, validate_no_self_dependencies,
  validated_bindings,
}
use kernox.Graph.Select.{Providers, index_providers, select_providers}
use kernox.Graph.Diagnostics.{graph_diagnostics}
use kernox.Graph.Topology.{topological_order}

-- The variables of the loop over the requirements.
pub record Resolution : Type 0 where
  pub requirements : List ResolvedRequirement
  pub edges : List ResolvedEdge
  pub used : List (PluginId × CapabilityId)

-- the first binding that no requirement used
unfoldable pub find_unused :
    List (PluginId × CapabilityId) → Bindings → Option (PluginId × CapabilityId)
find_unused used [] = none
find_unused used ((key, provider) ∷ bindings) =
    if BTreeSet.contains key used then find_unused used bindings else some key

module _ {V R : Type 0} where
  -- one round of the loop over the selected providers
  unfoldable pub add_edges :
      ℕ
      → PluginId
      → CapabilityId
      → List ResolvedEdge
      → List PluginId
      → Result (ResolveError V R) (List ResolvedEdge)
  add_edges max_edges consumer capability edges [] = ok edges
  add_edges max_edges consumer capability edges (provider ∷ providers) = do
    let edges' =
        BTreeSet.insert
          (record { provider = provider; consumer = consumer; capability = capability }) edges
    reject_if (ltb max_edges (length edges')) (edge_limit_exceeded (length edges') max_edges)
    add_edges max_edges consumer capability edges' providers

  unfoldable pub check_unused :
      List (PluginId × CapabilityId) → Bindings → Result (ResolveError V R) (Unit {0})
  unfolding find_unused
  check_unused used bindings = elim (find_unused used bindings) [
    | none ↦ ok tt
    | some (consumer, capability) ↦ err (unused_binding consumer capability)
  ]

-- `resolved_requirements.sort_unstable_by(…)`, by consumer and then by capability
abbrev pub requirement_key : ResolvedRequirement → PluginId × CapabilityId
requirement_key r = (r.consumer, r.capability)

unfoldable pub insert_requirement :
    ResolvedRequirement → List ResolvedRequirement → List ResolvedRequirement
insert_requirement r [] = r ∷ []
insert_requirement r (s ∷ rs) = elim (cmp (requirement_key r) (requirement_key s)) [
  | Ordering.gt ↦ s ∷ insert_requirement r rs
  | _ ↦ r ∷ s ∷ rs
]

unfoldable pub sort_requirements : List ResolvedRequirement → List ResolvedRequirement
unfolding insert_requirement
sort_requirements [] = []
sort_requirements (r ∷ rs) = insert_requirement r (sort_requirements rs)

abbrev pub nothing_resolved : Resolution
nothing_resolved = record { requirements = []; edges = []; used = [] }

module _ {V R : Type 0} where
  -- the checks, and the map of the plugins
  unfoldable pub admit : CompositionSpec V R → Result (ResolveError V R) (Plugins V R)
  admit spec = do
    validate_schema_version spec.schema_version
    validate_configured_limits spec.limits
    validate_plugin_limit (length spec.plugins) spec.limits.max_plugins
    plugins ← index_plugins spec.limits [] spec.plugins
    validate_conflicts plugins
    validate_no_self_dependencies plugins
    ok plugins

  -- the end of `resolve`: sorting, diagnostics and the start-up order
  unfoldable pub conclude : Plugins V R → Resolution → Result (ResolveError V R) (ResolvedGraph V R)
  conclude plugins s = do
    let requirements = sort_requirements s.requirements
    startup_order ←
        topological_order dependency_cycle (BTreeMap.keys plugins)
          (map (λ e. (e.provider, e.consumer)) s.edges)
    ok (record {
      plugins = plugins;
      requirements = requirements;
      edges = s.edges;
      diagnostics = graph_diagnostics plugins requirements s.edges;
      startup_order = startup_order;
    })

module _ {V R : Type 0} (matches : R → V → Bool) where
  -- one round of the loop over a plugin's requirements
  unfoldable pub resolve_requirement :
      ℕ
      → Plugins V R
      → Providers V
      → Bindings
      → PluginId
      → Resolution
      → CapabilityRequirement R
      → Result (ResolveError V R) Resolution
  resolve_requirement max_edges plugins providers bindings consumer s r = do
    let binding = BTreeMap.get (consumer, r.id) bindings
    selected ←
        select_providers matches consumer r binding (BTreeMap.get_or r.id [] providers) plugins
    edges ← add_edges max_edges consumer r.id s.edges selected
    ok (record {
      requirements =
          s.requirements
          ++ record {
            consumer = consumer;
            capability = r.id;
            cardinality = r.cardinality;
            providers = selected;
          }
            ∷ [];
      edges = edges;
      used = if is_some binding then BTreeSet.insert (consumer, r.id) s.used else s.used;
    })

  unfoldable pub resolve_requirements :
      ℕ
      → Plugins V R
      → Providers V
      → Bindings
      → PluginId
      → Resolution
      → List (CapabilityRequirement R)
      → Result (ResolveError V R) Resolution
  resolve_requirements max_edges plugins providers bindings consumer s [] = ok s
  resolve_requirements max_edges plugins providers bindings consumer s (r ∷ rs) = do
    s' ← resolve_requirement max_edges plugins providers bindings consumer s r
    resolve_requirements max_edges plugins providers bindings consumer s' rs

  unfoldable pub resolve_plugins :
      ℕ
      → Plugins V R
      → Providers V
      → Bindings
      → Resolution
      → List (PluginDescriptor V R)
      → Result (ResolveError V R) Resolution
  resolve_plugins max_edges plugins providers bindings s [] = ok s
  resolve_plugins max_edges plugins providers bindings s (d ∷ ds) = do
    s' ←
        resolve_requirements max_edges plugins providers bindings d.id s
          (BTreeMap.values d.requires)
    resolve_plugins max_edges plugins providers bindings s' ds

  unfoldable pub resolve : CompositionSpec V R → Result (ResolveError V R) (ResolvedGraph V R)
  unfolding admit conclude
  resolve spec = do
    plugins ← admit spec
    let providers = index_providers [] (BTreeMap.values plugins)
    bindings ← validated_bindings spec.bindings plugins
    s ←
        resolve_plugins spec.limits.max_edges plugins providers bindings nothing_resolved
          (BTreeMap.values plugins)
    check_unused s.used bindings
    conclude plugins s
