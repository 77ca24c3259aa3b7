-- ===== src/Runtime/Host.antt =====
-- Host negotiation and `AppBuilder::resolve` (crates/kernox-runtime/src/host.rs and app.rs). `P` stands
-- for a plugin, and `matches` for `VersionReq::matches`.
pub mod Negotiated
pub mod Ready
use kernox.Prelude.{
  ℕ, Bool, true, false, not, List, [], ◌∷◌, ◌++◌, map, Option, none, some, Result, ok, err, fault,
  ◌>>=◌, ◌>>◌, reject_if,
}
use kernox.Collections.BTreeSet
use kernox.Collections.BTreeMap
use kernox.Id.{PluginId, CapabilityId, plugin_id_ord, capability_id_ord}
use kernox.Descriptor.{PluginDescriptor, Binding}
use kernox.Error.{ResolveError}
use kernox.Graph.{
  GraphLimits, CompositionSpec, ResolvedGraph, default_limits, composition_schema_version,
}
use kernox.Graph.Resolve.{resolve}
use kernox.Runtime.Rollback.{ResolvedApp}

pub record HostCapability (V : Type 0) : Type 0 where
  pub id : CapabilityId
  pub version : V

pub record HostRequirement (R : Type 0) : Type 0 where
  pub id : CapabilityId
  pub version : R

pub data HostResolutionError (V R : Type 0) : Type 0 where
  duplicate_capability : (capability : CapabilityId) → HostResolutionError V R
  duplicate_host_requirement :
      (plugin : PluginId) (capability : CapabilityId) → HostResolutionError V R
  missing_host :
      (plugin : PluginId) (capability : CapabilityId) (requirement : R) → HostResolutionError V R
  incompatible_host :
      (plugin : PluginId) (capability : CapabilityId) (requirement : R) (available : List V)
      → HostResolutionError V R

pub data AppResolveError (V R : Type 0) : Type 0 where
  graph_error : ResolveError V R → AppResolveError V R
  host_error : HostResolutionError V R → AppResolveError V R

-- a plugin with its descriptor and its host requirements
pub record Declared (P V R : Type 0) : Type 0 where
  pub descriptor : PluginDescriptor V R
  pub plugin : P
  pub host_requirements : List (HostRequirement R)

pub record AppBuilder (P V R : Type 0) : Type 0 where
  pub plugins : List (Declared P V R)
  pub bindings : List Binding
  pub limits : GraphLimits
  pub host_capabilities : List (HostCapability V)

module _ {P V R : Type 0} where
  abbrev pub new_app : AppBuilder P V R
  new_app = record { plugins = []; bindings = []; limits = default_limits; host_capabilities = [] }

  abbrev pub app_plugin : AppBuilder P V R → Declared P V R → AppBuilder P V R
  app_plugin b p = record b { plugins = b.plugins ++ p ∷ [] }

  abbrev pub app_binding : AppBuilder P V R → Binding → AppBuilder P V R
  app_binding b x = record b { bindings = b.bindings ++ x ∷ [] }

  abbrev pub app_limits : AppBuilder P V R → GraphLimits → AppBuilder P V R
  app_limits b l = record b { limits = l }

  abbrev pub app_host_capability : AppBuilder P V R → HostCapability V → AppBuilder P V R
  app_host_capability b c = record b { host_capabilities = b.host_capabilities ++ c ∷ [] }

module _ {V R : Type 0} where
  -- the loop over the host's capabilities
  unfoldable pub index_supplied :
      List (CapabilityId × V)
      → List (HostCapability V)
      → Result (HostResolutionError V R) (List (CapabilityId × V))
  index_supplied capabilities [] = ok capabilities
  index_supplied capabilities (c ∷ cs) =
      reject_if (BTreeMap.contains_key c.id capabilities) (duplicate_capability c.id)
      >> index_supplied (BTreeMap.insert c.id c.version capabilities) cs

abbrev pub spec_of : {P V R : Type 0} → AppBuilder P V R → CompositionSpec V R
spec_of b = record {
  schema_version = composition_schema_version;
  limits = b.limits;
  plugins = map (λ d. d.descriptor) b.plugins;
  bindings = b.bindings;
}

abbrev pub map_err : {E F B : Type 0} → (E → F) → Result E B → Result F B
map_err f (ok b) = ok b
map_err f (err e) = err (f e)
map_err f fault = fault

-- the plugins collected into a map, where a later one replaces an earlier one
unfoldable pub collect_plugins :
    {P V R : Type 0} → List (PluginId × P) → List (Declared P V R) → List (PluginId × P)
collect_plugins plugins [] = plugins
collect_plugins plugins (d ∷ ds) =
    collect_plugins (BTreeMap.insert d.descriptor.id d.plugin plugins) ds

module _ {V R : Type 0} (matches : R → V → Bool) where
  abbrev pub check_version :
      PluginId → HostRequirement R → Option V → Result (HostResolutionError V R) (Unit {0})
  check_version plugin q none = err (missing_host plugin q.id q.version)
  check_version plugin q (some version) =
      reject_if (not (matches q.version version))
        (incompatible_host plugin q.id q.version (version ∷ []))

  -- the loop over the requirements of one plugin
  unfoldable pub check_requirements :
      List (CapabilityId × V)
      → PluginId
      → List CapabilityId
      → List (HostRequirement R)
      → Result (HostResolutionError V R) (Unit {0})
  check_requirements capabilities plugin seen [] = ok tt
  check_requirements capabilities plugin seen (q ∷ qs) =
      reject_if (BTreeSet.contains q.id seen) (duplicate_host_requirement plugin q.id)
      >> (check_version plugin q (BTreeMap.get q.id capabilities)
          >> check_requirements capabilities plugin (BTreeSet.insert q.id seen) qs)

  -- the loop over the plugins
  unfoldable pub check_declared :
      {P : Type 0}
      → List (CapabilityId × V)
      → List (Declared P V R)
      → Result (HostResolutionError V R) (Unit {0})
  unfolding check_requirements
  check_declared capabilities [] = ok tt
  check_declared capabilities (d ∷ ds) =
      check_requirements capabilities d.descriptor.id [] d.host_requirements
      >> check_declared capabilities ds

  unfoldable pub validate_host_requirements :
      {P : Type 0}
      → List (Declared P V R)
      → List (HostCapability V)
      → Result (HostResolutionError V R) (Unit {0})
  unfolding index_supplied check_declared
  validate_host_requirements declared supplied =
      index_supplied [] supplied >>= λ capabilities. check_declared capabilities declared

  -- `AppBuilder::resolve`
  unfoldable pub resolve_app :
      {P : Type 0} → AppBuilder P V R → Result (AppResolveError V R) (ResolvedApp P V R)
  unfolding resolve validate_host_requirements collect_plugins
  resolve_app b = do
    graph ← map_err graph_error (resolve matches (spec_of b))
    map_err host_error (validate_host_requirements b.plugins b.host_capabilities)
    ok (record { graph = graph; plugins = collect_plugins [] b.plugins })
