-- ===== src/Error.antt =====
-- The failures of graph resolution and of report validation (crates/kernox-core/src/error.rs).
use kernox.Prelude.{ℕ, List, String}
use kernox.Id.{PluginId, CapabilityId}

pub data ResolveError (V R : Type 0) : Type 0 where
  unsupported_schema_version : (actual supported : ℕ) → ResolveError V R
  unsupported_report_schema_version : (actual supported : ℕ) → ResolveError V R
  inconsistent_report_lifecycle : ResolveError V R
  duplicate_report_plugin : (plugin : PluginId) → ResolveError V R
  unknown_report_plugin : (plugin : PluginId) → ResolveError V R
  configured_limit_exceeded : (limit : String) (actual maximum : ℕ) → ResolveError V R
  plugin_limit_exceeded : (actual maximum : ℕ) → ResolveError V R
  capability_limit_exceeded : (plugin : PluginId) (actual maximum : ℕ) → ResolveError V R
  edge_limit_exceeded : (actual maximum : ℕ) → ResolveError V R
  duplicate_plugin : (plugin : PluginId) → ResolveError V R
  plugin_conflict : (plugin conflict : PluginId) → ResolveError V R
  self_dependency : (plugin : PluginId) (capability : CapabilityId) → ResolveError V R
  missing_provider :
      (consumer : PluginId) (capability : CapabilityId) (requirement : R) → ResolveError V R
  incompatible_provider :
      (consumer : PluginId) (capability : CapabilityId) (requirement : R)
      (available : List (PluginId × V))
      → ResolveError V R
  ambiguous_provider :
      (consumer : PluginId) (capability : CapabilityId) (providers : List PluginId)
      → ResolveError V R
  unknown_binding_consumer : (consumer : PluginId) → ResolveError V R
  unknown_binding_provider : (provider : PluginId) → ResolveError V R
  unused_binding : (consumer : PluginId) (capability : CapabilityId) → ResolveError V R
  bound_provider_does_not_offer :
      (consumer : PluginId) (capability : CapabilityId) (provider : PluginId) → ResolveError V R
  incompatible_binding :
      (consumer : PluginId) (capability : CapabilityId) (provider : PluginId) (provided : V)
      (requirement : R)
      → ResolveError V R
  duplicate_binding : (consumer : PluginId) (capability : CapabilityId) → ResolveError V R
  binding_for_multiple : (consumer : PluginId) (capability : CapabilityId) → ResolveError V R
  dependency_cycle : (cycle : List PluginId) → ResolveError V R
