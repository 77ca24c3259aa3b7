-- ===== src/Graph/Checks.antt =====
-- The checks before provider selection (crates/kernox-core/src/graph.rs): schema, limits, the map of
-- the plugins, conflicts, self-dependencies, bindings.
pub mod Index
pub mod Rejected
pub mod Total
use kernox.Prelude.{
  ℕ, ◌+◌, ◌-◌, ◌^◌, min, Ordering, Bool, true, false, List, [], ◌∷◌, Option, none, some, ltb, leb,
  ◌==◌, length, if◌then◌else◌, String, Result, ok, err, ◌>>=◌, ◌>>◌, reject_if, not,
}
use kernox.Order.{cmp}
use kernox.Order.Derive.{pair_ord}
use kernox.Collections.BTreeMap
use kernox.Id.{PluginId, CapabilityId, plugin_id_ord, capability_id_ord}
use kernox.Descriptor
use kernox.Descriptor.{PluginDescriptor, Binding, CapabilityRequirement, CapabilityOffer}
use kernox.Error.{
  ResolveError, unsupported_schema_version, configured_limit_exceeded, plugin_limit_exceeded,
  capability_limit_exceeded, duplicate_plugin, plugin_conflict, self_dependency,
  unknown_binding_consumer, unknown_binding_provider, duplicate_binding,
}
use kernox.Graph.{
  GraphLimits, composition_schema_version, absolute_max_plugins,
  absolute_max_capabilities_per_plugin, absolute_max_edges,
}

-- `usize::saturating_add`
abbrev saturating_add : ℕ → ℕ → ℕ
saturating_add a b = min (a + b) (2 ^ 64 - 1)

abbrev pub is_some {ℓ} : {A : Type ℓ} → Option A → Bool
is_some none = false
is_some (some a) = true

abbrev pub Plugins : Type 0 → Type 0 → Type 0
Plugins V R = List (PluginId × PluginDescriptor V R)

abbrev pub Bindings : Type 0
Bindings = List ((PluginId × CapabilityId) × PluginId)

module _ {V R : Type 0} where
  unfoldable pub validate_schema_version : ℕ → Result (ResolveError V R) (Unit {0})
  validate_schema_version actual =
      if actual == composition_schema_version
      then ok tt
      else err (unsupported_schema_version actual composition_schema_version)

  unfoldable pub check_limit : String → ℕ → ℕ → Result (ResolveError V R) (Unit {0})
  check_limit limit actual maximum =
      reject_if (ltb maximum actual) (configured_limit_exceeded limit actual maximum)

  unfoldable pub validate_configured_limits : GraphLimits → Result (ResolveError V R) (Unit {0})
  unfolding check_limit
  validate_configured_limits limits = do
    check_limit "plugins" limits.max_plugins absolute_max_plugins
    check_limit "capabilities-per-plugin" limits.max_capabilities_per_plugin
        absolute_max_capabilities_per_plugin
    check_limit "edges" limits.max_edges absolute_max_edges

  unfoldable pub validate_plugin_limit : ℕ → ℕ → Result (ResolveError V R) (Unit {0})
  validate_plugin_limit actual maximum =
      if leb actual maximum then ok tt else err (plugin_limit_exceeded actual maximum)

  unfoldable pub declaration_count : PluginDescriptor V R → ℕ
  declaration_count d = saturating_add (length d.provides) (length d.requires)

  -- one round of the loop over the declared plugins
  unfoldable pub index_plugin :
      GraphLimits → Plugins V R → PluginDescriptor V R → Result (ResolveError V R) (Plugins V R)
  unfolding declaration_count
  index_plugin limits plugins descriptor = do
    reject_if (ltb limits.max_capabilities_per_plugin (declaration_count descriptor)) (
        capability_limit_exceeded descriptor.id (declaration_count descriptor)
          limits.max_capabilities_per_plugin)
    reject_if (BTreeMap.contains_key descriptor.id plugins) (duplicate_plugin descriptor.id)
    ok (BTreeMap.insert descriptor.id descriptor plugins)

  unfoldable pub index_plugins :
      GraphLimits
      → Plugins V R
      → List (PluginDescriptor V R)
      → Result (ResolveError V R) (Plugins V R)
  index_plugins limits plugins [] = ok plugins
  index_plugins limits plugins (d ∷ ds) = do
    plugins' ← index_plugin limits plugins d
    index_plugins limits plugins' ds

  -- the two plugins of a conflict, the lesser identity first
  unfoldable pub conflict_error : PluginId → PluginId → ResolveError V R
  conflict_error plugin conflict = elim (cmp plugin conflict) [
    | Ordering.lt ↦ plugin_conflict plugin conflict
    | _ ↦ plugin_conflict conflict plugin
  ]

  unfoldable pub check_conflicts :
      Plugins V R → PluginId → List PluginId → Result (ResolveError V R) (Unit {0})
  check_conflicts plugins plugin [] = ok tt
  check_conflicts plugins plugin (conflict ∷ conflicts) = do
    reject_if (BTreeMap.contains_key conflict plugins) (conflict_error plugin conflict)
    check_conflicts plugins plugin conflicts

  unfoldable pub check_all_conflicts :
      Plugins V R → List (PluginDescriptor V R) → Result (ResolveError V R) (Unit {0})
  check_all_conflicts plugins [] = ok tt
  check_all_conflicts plugins (d ∷ ds) = do
    check_conflicts plugins d.id d.conflicts
    check_all_conflicts plugins ds

  unfoldable pub validate_conflicts : Plugins V R → Result (ResolveError V R) (Unit {0})
  validate_conflicts plugins = check_all_conflicts plugins (BTreeMap.values plugins)

  unfoldable pub check_self_dependencies :
      PluginDescriptor V R → List (CapabilityRequirement R) → Result (ResolveError V R) (Unit {0})
  check_self_dependencies d [] = ok tt
  check_self_dependencies d (r ∷ rs) = do
    reject_if (is_some (Descriptor.offer d r.id)) (self_dependency d.id r.id)
    check_self_dependencies d rs

  unfoldable pub check_all_self_dependencies :
      List (PluginDescriptor V R) → Result (ResolveError V R) (Unit {0})
  check_all_self_dependencies [] = ok tt
  check_all_self_dependencies (d ∷ ds) = do
    check_self_dependencies d (BTreeMap.values d.requires)
    check_all_self_dependencies ds

  unfoldable pub validate_no_self_dependencies : Plugins V R → Result (ResolveError V R) (Unit {0})
  validate_no_self_dependencies plugins = check_all_self_dependencies (BTreeMap.values plugins)

  -- one round of the loop over the declared bindings
  unfoldable pub add_binding : Plugins V R → Bindings → Binding → Result (ResolveError V R) Bindings
  add_binding plugins bindings b = do
    reject_if (not (BTreeMap.contains_key b.consumer plugins)) (unknown_binding_consumer b.consumer)
    reject_if (not (BTreeMap.contains_key b.provider plugins)) (unknown_binding_provider b.provider)
    reject_if (BTreeMap.contains_key (b.consumer, b.capability) bindings)
        (duplicate_binding b.consumer b.capability)
    ok (BTreeMap.insert (b.consumer, b.capability) b.provider bindings)

  unfoldable pub add_bindings :
      Plugins V R → Bindings → List Binding → Result (ResolveError V R) Bindings
  add_bindings plugins bindings [] = ok bindings
  add_bindings plugins bindings (b ∷ bs) = do
    bindings' ← add_binding plugins bindings b
    add_bindings plugins bindings' bs

  unfoldable pub validated_bindings :
      List Binding → Plugins V R → Result (ResolveError V R) Bindings
  validated_bindings declared plugins = add_bindings plugins [] declared
