-- ===== src/Samples/Core.antt =====
-- Descriptors and checks on sample values.
use kernox.Prelude.{
  refl, [], ◌∷◌, ◌≡◌, ◌≢◌, ◌↔◌, ◌⊎◌, true, false, if◌then◌else◌, Memᴰ, some, ok, err,
}
use kernox.Order.{same}
use kernox.Collections.BTreeMap
use kernox.Id.{
  parsed, plugin_id, validate_identifier, validate_segments, validate_segment, validate_tail,
  ends_with_hyphen, split, is_ascii, PluginId, CapabilityId, plugin_id_ord, capability_id_ord,
}
use kernox.Descriptor
use kernox.Descriptor.{
  PluginDescriptor, CapabilityOffer, provide, conflict_with, require, duplicate_offer,
  duplicate_conflict, self_conflict, new,
}
use kernox.Descriptor.Valid.{IsValid, new-IsValid, provide_lem, conflict_with_lem}
use kernox.Graph.Checks.{validate_conflicts}
use kernox.Graph.Checks.Rejected.{validate_conflicts_iff}
use kernox.Samples.{Version, plugin, capability, offer_of, shop_graph}

abbrev empty : PluginDescriptor Version Version
empty = new (plugin b'p') (1, 0)

provide_lem_example :
    ((BTreeMap.contains_key (capability b'k') empty.provides ≡ true)
      × (provide empty (offer_of b'k' (1, 0)) ≡ err (duplicate_offer empty.id (capability b'k'))))
    ⊎ ((BTreeMap.contains_key (capability b'k') empty.provides ≡ false)
        × ((d' : PluginDescriptor Version Version) × (provide empty (offer_of b'k' (1, 0)) ≡ ok d')
            × IsValid d'
            × ((c : CapabilityId)
                → Descriptor.offer d' c ≡ (
                    if same c (capability b'k')
                    then some (offer_of b'k' (1, 0))
                    else Descriptor.offer empty c))))
provide_lem_example = provide_lem empty (offer_of b'k' (1, 0)) (new-IsValid (plugin b'p') (1, 0))

conflict_with_lem_example :
    ((plugin b'q' ≡ empty.id) × (conflict_with empty (plugin b'q') ≡ err (self_conflict empty.id)))
    ⊎ ((plugin b'q' ≢ empty.id)
        × Memᴰ (plugin b'q') empty.conflicts
        × (conflict_with empty (plugin b'q') ≡ err (duplicate_conflict empty.id (plugin b'q'))))
    ⊎ ((plugin b'q' ≢ empty.id)
        × ((d' : PluginDescriptor Version Version) × (conflict_with empty (plugin b'q') ≡ ok d')
            × IsValid d'
            × ((c : PluginId)
                → Memᴰ c d'.conflicts ↔ ((c ≡ plugin b'q') ⊎ Memᴰ c empty.conflicts))))
conflict_with_lem_example = conflict_with_lem empty (plugin b'q') (new-IsValid (plugin b'p') (1, 0))

validate_conflicts_iff_example : (validate_conflicts shop_graph.plugins ≡ ok tt) ↔ (
    (d : PluginDescriptor Version Version) (c : PluginId)
    → Memᴰ d (BTreeMap.values shop_graph.plugins)
    → Memᴰ c d.conflicts
    → BTreeMap.contains_key c shop_graph.plugins ≡ false)
validate_conflicts_iff_example = validate_conflicts_iff shop_graph.plugins

plugin_p : plugin_id (b'p' ∷ []) ≡ parsed (plugin b'p')
unfolding plugin_id validate_identifier validate_segments validate_segment validate_tail
    ends_with_hyphen split is_ascii
plugin_p = refl
