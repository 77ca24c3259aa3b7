-- ===== src/Graph.antt =====
-- The data of the capability graph (crates/kernox-core/src/graph.rs and lib.rs): composition input,
-- resolved graph, diagnostics and report. `V` stands for `semver::Version`, `R` for
-- `semver::VersionReq`. The functions are in the modules below.
pub mod Cycle
pub mod Topology
pub mod Checks
pub mod Select
pub mod Diagnostics
pub mod Resolve
pub mod Report
pub mod Requirement
pub mod Builder
use kernox.Prelude.{ℕ, ◌≡◌, ap, List, [], ◌∷◌}
use kernox.Order.{Ord}
use kernox.Order.Derive.{nat_ord, pair_ord, ord_by}
use kernox.Id.{PluginId, CapabilityId, plugin_id_ord, capability_id_ord}
use kernox.Descriptor.{PluginDescriptor, RequirementCardinality, Binding}

abbrev pub composition_schema_version : ℕ
composition_schema_version = 1

abbrev pub graph_report_schema_version : ℕ
graph_report_schema_version = 1

abbrev pub absolute_max_plugins : ℕ
absolute_max_plugins = 65_536

abbrev pub absolute_max_capabilities_per_plugin : ℕ
absolute_max_capabilities_per_plugin = 4_096

abbrev pub absolute_max_edges : ℕ
absolute_max_edges = 1_048_576

pub record GraphLimits : Type 0 where
  pub max_plugins : ℕ
  pub max_capabilities_per_plugin : ℕ
  pub max_edges : ℕ

abbrev pub default_limits : GraphLimits
default_limits = record {
  max_plugins = 4_096;
  max_capabilities_per_plugin = 512;
  max_edges = 131_072;
}

pub record CompositionSpec (V R : Type 0) : Type 0 where
  pub schema_version : ℕ
  pub limits : GraphLimits
  pub plugins : List (PluginDescriptor V R)
  pub bindings : List Binding

pub record ResolvedRequirement : Type 0 where
  pub consumer : PluginId
  pub capability : CapabilityId
  pub cardinality : RequirementCardinality
  pub providers : List PluginId

pub record ResolvedEdge : Type 0 where
  pub provider : PluginId
  pub consumer : PluginId
  pub capability : CapabilityId

pub data GraphDiagnostic : Type 0 where
  optional_provider_missing : (consumer : PluginId) (capability : CapabilityId) → GraphDiagnostic
  unselected_offer : (provider : PluginId) (capability : CapabilityId) → GraphDiagnostic

pub record PluginSummary (V : Type 0) : Type 0 where
  pub id : PluginId
  pub version : V

pub record GraphReport (V : Type 0) : Type 0 where
  pub schema_version : ℕ
  pub plugins : List (PluginSummary V)
  pub requirements : List ResolvedRequirement
  pub edges : List ResolvedEdge
  pub diagnostics : List GraphDiagnostic
  pub startup_order : List PluginId
  pub teardown_order : List PluginId

pub record ResolvedGraph (V R : Type 0) : Type 0 where
  pub plugins : List (PluginId × PluginDescriptor V R)
  pub requirements : List ResolvedRequirement
  pub edges : List ResolvedEdge
  pub diagnostics : List GraphDiagnostic
  pub startup_order : List PluginId

-- `#[derive(Ord)]` on the edges: provider, consumer, capability
abbrev edge_fields : ResolvedEdge → PluginId × (PluginId × CapabilityId)
edge_fields e = (e.provider, (e.consumer, e.capability))

pub edge_fields-inj : (a b : ResolvedEdge) → edge_fields a ≡ edge_fields b → a ≡ b
edge_fields-inj a b e = ap (λ t. record { provider = t.0; consumer = t.1.0; capability = t.1.1 }) e

instance abbrev pub edge_ord : Ord ResolvedEdge
edge_ord = ord_by edge_fields edge_fields-inj

-- `#[derive(Ord)]` on the diagnostics: the variant, then its fields
abbrev diagnostic_fields : GraphDiagnostic → ℕ × (PluginId × CapabilityId)
diagnostic_fields (optional_provider_missing consumer capability) = (0, (consumer, capability))
diagnostic_fields (unselected_offer provider capability) = (1, (provider, capability))

pub diagnostic_fields-inj :
    (a b : GraphDiagnostic) → diagnostic_fields a ≡ diagnostic_fields b → a ≡ b
diagnostic_fields-inj (optional_provider_missing c k) (optional_provider_missing d l) e = cc
diagnostic_fields-inj (optional_provider_missing c k) (unselected_offer d l) e = cc
diagnostic_fields-inj (unselected_offer c k) (optional_provider_missing d l) e = cc
diagnostic_fields-inj (unselected_offer c k) (unselected_offer d l) e = cc

instance abbrev pub diagnostic_ord : Ord GraphDiagnostic
diagnostic_ord = ord_by diagnostic_fields diagnostic_fields-inj
