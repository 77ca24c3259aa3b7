-- ===== src/Samples.antt =====
-- Small compositions, on which the functions are run and the theorems are applied.
pub mod Core
pub mod Topology
pub mod Resolution
pub mod Lifecycle
pub mod Runtime
pub mod Described
pub mod Tasks
pub mod Invocations
pub mod Access
use kernox.Prelude.{ℕ, Bool, ◌&&◌, ◌==◌, leb, List, [], ◌∷◌, none}
use kernox.Id.{PluginId, CapabilityId}
use kernox.Descriptor.{
  PluginDescriptor, CapabilityOffer, CapabilityRequirement, RequirementCardinality, exactly_one,
  zero_or_one, zero_or_more,
}
use kernox.Graph.Checks.{
  validate_schema_version, check_limit, validate_configured_limits, validate_plugin_limit,
  declaration_count, index_plugin, index_plugins, conflict_error, check_conflicts,
  check_all_conflicts, validate_conflicts, check_self_dependencies, check_all_self_dependencies,
  validate_no_self_dependencies, add_binding, add_bindings, validated_bindings,
}
use kernox.Graph.Select.{
  add_candidate, add_offers, index_providers, compatible_candidates, select_bound, absence,
  select_single, select_unbound, select_providers,
}
use kernox.Graph.Resolve.{
  find_unused, add_edges, check_unused, insert_requirement, sort_requirements, admit, conclude,
  resolve_requirement, resolve_requirements, resolve_plugins, resolve,
}
use kernox.Graph.Diagnostics.{
  missing_diagnostics, offer_diagnostics, unselected_diagnostics, graph_diagnostics,
}
use kernox.Graph.Topology.{
  add_edge, add_edges as draw_edges, blank, with_degree_zero, release, release_all, visit, run,
  start, remaining_of, topological_order,
}
use kernox.Graph.Cycle.{
  keep, neighbours_of, finish, descend, follow, advance, walk, begin, search_from, or_first,
  find_cycle,
}
use kernox.Collections.BTreeMap
use kernox.Collections.BTreeSet
use kernox.Descriptor
use kernox.Graph.{
  CompositionSpec, GraphLimits, ResolvedGraph, ResolvedEdge, ResolvedRequirement, default_limits,
  unselected_offer,
}

-- A version is a major and a minor number, and a requirement is `^major.minor` with a major above 0.
abbrev pub Version : Type 0
Version = ℕ × ℕ

abbrev pub caret : Version → Version → Bool
caret (major, minor) (a, b) = (major == a) && leb minor b

abbrev pub plugin : ℕ → PluginId
plugin c = record { text = c ∷ [] }

abbrev pub capability : ℕ → CapabilityId
capability c = record { text = c ∷ [] }

abbrev pub offer_of : ℕ → Version → CapabilityOffer Version
offer_of c v = record { id = capability c; version = v }

abbrev pub requirement_of : ℕ → Version → RequirementCardinality → CapabilityRequirement Version
requirement_of c v k = record { id = capability c; version = v; cardinality = k }

-- Plugin `b` provides the clock `k`, and plugin `a` requires it.
abbrev pub clock : PluginDescriptor Version Version
clock = record {
  id = plugin b'b';
  version = (1, 0);
  source = none;
  provides = (capability b'k', offer_of b'k' (1, 2)) ∷ (capability b'z', offer_of b'z' (1, 0)) ∷ [];
  requires = [];
  conflicts = plugin b'x' ∷ [];
}

abbrev pub orders : PluginDescriptor Version Version
orders = record {
  id = plugin b'a';
  version = (1, 0);
  source = none;
  provides = [];
  requires = (capability b'k', requirement_of b'k' (1, 1) exactly_one) ∷ [];
  conflicts = [];
}

abbrev pub shop : CompositionSpec Version Version
shop = record {
  schema_version = 1;
  limits = default_limits;
  plugins = orders ∷ clock ∷ [];
  bindings = [];
}

abbrev pub clock_for_orders : ResolvedRequirement
clock_for_orders = record {
  consumer = plugin b'a';
  capability = capability b'k';
  cardinality = exactly_one;
  providers = plugin b'b' ∷ [];
}

abbrev clock_edge : ResolvedEdge
clock_edge = record { provider = plugin b'b'; consumer = plugin b'a'; capability = capability b'k' }

abbrev pub shop_graph : ResolvedGraph Version Version
shop_graph = record {
  plugins = (plugin b'a', orders) ∷ (plugin b'b', clock) ∷ [];
  requirements = clock_for_orders ∷ [];
  edges = clock_edge ∷ [];
  diagnostics = unselected_offer (plugin b'b') (capability b'z') ∷ [];
  startup_order = plugin b'b' ∷ plugin b'a' ∷ [];
}

-- What a run of the resolver unfolds.
pub program : Unit {0}
unfolding draw_edges validate_schema_version check_limit validate_configured_limits
    validate_plugin_limit declaration_count index_plugin index_plugins conflict_error
    check_conflicts check_all_conflicts validate_conflicts check_self_dependencies
    check_all_self_dependencies validate_no_self_dependencies add_binding add_bindings
    validated_bindings add_candidate add_offers index_providers compatible_candidates select_bound
    absence select_single select_unbound select_providers find_unused add_edges check_unused
    insert_requirement sort_requirements admit conclude resolve_requirement resolve_requirements
    resolve_plugins resolve missing_diagnostics offer_diagnostics unselected_diagnostics
    graph_diagnostics add_edge blank with_degree_zero release release_all visit run start
    remaining_of topological_order keep neighbours_of finish descend follow advance walk begin
    search_from or_first find_cycle BTreeMap.get BTreeMap.contains_key BTreeMap.insert
    BTreeMap.modify BTreeMap.remove BTreeSet.insert BTreeSet.collect Descriptor.offer
program = tt
