-- ===== src/Graph/Report/Related.antt =====
-- The plugins that the diagnostics (crates/kernox-core/src/graph.rs) are about.
use kernox.Prelude.{inl, inr, ◌&&◌, List, [], ◌∷◌, is_empty, All, Bool-cases}
use kernox.Order.Derive.{pair_ord}
use kernox.Collections.BTreeSet
use kernox.Collections.BTreeMap
use kernox.Id.{PluginId, CapabilityId, plugin_id_ord, capability_id_ord}
use kernox.Descriptor.{PluginDescriptor, CapabilityOffer, permits_zero}
use kernox.Graph.{
  ResolvedRequirement, GraphDiagnostic, optional_provider_missing, unselected_offer, edge_ord,
  diagnostic_ord,
}
use kernox.Graph.Diagnostics.{missing_diagnostics, offer_diagnostics, unselected_diagnostics}
use kernox.Graph.Report.{diagnostic_plugin}

-- Every diagnostic is about a consumer of a requirement or about a plugin of the map.
module _ (P : PluginId → Type 0) where
  abbrev About : List GraphDiagnostic → Type 0
  About = All (λ d. P (diagnostic_plugin d))

  pub missing-About :
      (found : List GraphDiagnostic) (rs : List ResolvedRequirement)
      → About found
      → All (λ r. P r.consumer) rs
      → About (missing_diagnostics found rs)
  unfolding missing_diagnostics
  missing-About found [] h k = h
  missing-About found (r ∷ rs) h k =
      elim (Bool-cases (is_empty r.providers && permits_zero r.cardinality)) [
        | inl shown ↦
            rw (missing_diagnostics, shown)
              (missing-About
                (BTreeSet.insert (optional_provider_missing r.consumer r.capability) found) rs
                (BTreeSet.All-insert _ _ found k.0 h) k.1)
        | inr hidden ↦ rw (missing_diagnostics, hidden) (missing-About found rs h k.1)
      ]

  offers-About :
      {V : Type 0} (selected : List (PluginId × CapabilityId)) (plugin : PluginId)
      (found : List GraphDiagnostic) (os : List (CapabilityOffer V))
      → About found
      → P plugin
      → About (offer_diagnostics selected plugin found os)
  unfolding offer_diagnostics
  offers-About selected plugin found [] h k = h
  offers-About selected plugin found (o ∷ os) h k =
      elim (Bool-cases (BTreeSet.contains (plugin, o.id) selected)) [
        | inl shown ↦ rw (offer_diagnostics, shown) (offers-About selected plugin found os h k)
        | inr hidden ↦
            rw (offer_diagnostics, hidden)
              (offers-About selected plugin (BTreeSet.insert (unselected_offer plugin o.id) found)
                os (BTreeSet.All-insert _ _ found k h) k)
      ]

  pub unselected-About :
      {V R : Type 0} (selected : List (PluginId × CapabilityId)) (found : List GraphDiagnostic)
      (ds : List (PluginDescriptor V R))
      → About found
      → All (λ d. P d.id) ds
      → About (unselected_diagnostics selected found ds)
  unfolding unselected_diagnostics
  unselected-About selected found [] h k = h
  unselected-About selected found (d ∷ ds) h k =
      unselected-About selected (offer_diagnostics selected d.id found (BTreeMap.values d.provides))
        ds (offers-About selected d.id found (BTreeMap.values d.provides) h k.0) k.1
