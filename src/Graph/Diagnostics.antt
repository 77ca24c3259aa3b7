-- ===== src/Graph/Diagnostics.antt =====
-- `graph_diagnostics` (crates/kernox-core/src/graph.rs): the findings that are not failures.
use kernox.Prelude.{◌&&◌, List, [], ◌∷◌, map, if◌then◌else◌, is_empty}
use kernox.Order.Derive.{pair_ord}
use kernox.Collections.BTreeSet
use kernox.Collections.BTreeMap
use kernox.Id.{PluginId, CapabilityId, plugin_id_ord, capability_id_ord}
use kernox.Descriptor.{PluginDescriptor, CapabilityOffer, permits_zero}
use kernox.Graph.{
  ResolvedRequirement, ResolvedEdge, GraphDiagnostic, optional_provider_missing, unselected_offer,
  edge_ord, diagnostic_ord,
}
use kernox.Graph.Checks.{Plugins}

-- the diagnostics of the requirements without a provider
unfoldable pub missing_diagnostics :
    List GraphDiagnostic → List ResolvedRequirement → List GraphDiagnostic
missing_diagnostics found [] = found
missing_diagnostics found (r ∷ rs) =
    missing_diagnostics
      (if is_empty r.providers && permits_zero r.cardinality
        then BTreeSet.insert (optional_provider_missing r.consumer r.capability) found
        else found)
      rs

-- the diagnostics of one plugin's offers
unfoldable pub offer_diagnostics :
    {V : Type 0}
    → List (PluginId × CapabilityId)
    → PluginId
    → List GraphDiagnostic
    → List (CapabilityOffer V)
    → List GraphDiagnostic
offer_diagnostics selected plugin found [] = found
offer_diagnostics selected plugin found (offer ∷ offers) =
    offer_diagnostics selected plugin
      (if BTreeSet.contains (plugin, offer.id) selected
        then found
        else BTreeSet.insert (unselected_offer plugin offer.id) found)
      offers

unfoldable pub unselected_diagnostics :
    {V R : Type 0}
    → List (PluginId × CapabilityId)
    → List GraphDiagnostic
    → List (PluginDescriptor V R)
    → List GraphDiagnostic
unselected_diagnostics selected found [] = found
unselected_diagnostics selected found (d ∷ ds) =
    unselected_diagnostics selected
      (offer_diagnostics selected d.id found (BTreeMap.values d.provides)) ds

unfoldable pub graph_diagnostics :
    {V R : Type 0}
    → Plugins V R
    → List ResolvedRequirement
    → List ResolvedEdge
    → List GraphDiagnostic
graph_diagnostics plugins requirements edges =
    unselected_diagnostics (map (λ e. (e.provider, e.capability)) edges)
      (missing_diagnostics [] requirements) (BTreeMap.values plugins)
