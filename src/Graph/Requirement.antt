-- ===== src/Graph/Requirement.antt =====
-- `ResolvedGraph::requirement` (crates/kernox-core/src/graph.rs): the lookup of a resolved requirement.
use kernox.Prelude.{◌≡◌, ◌↔◌, ap, map, Memᴰ, Option, some}
use kernox.Order.{cmp}
use kernox.Order.Derive.{pair_ord}
use kernox.Collections.BTreeSet
use kernox.Collections.BinarySearch.{binary_search_by, binary_search_by_iff}
use kernox.Id.{PluginId, CapabilityId, plugin_id_ord, capability_id_ord}
use kernox.Graph.{ResolvedGraph, ResolvedRequirement}
use kernox.Graph.Resolve.{requirement_key}

module _ {V R : Type 0} where
  -- `consumer.cmp(..).then_with(|| capability.cmp(..))` is the order of the pairs.
  unfoldable pub requirement :
      ResolvedGraph V R → PluginId → CapabilityId → Option ResolvedRequirement
  requirement g consumer capability =
      binary_search_by (λ r. cmp (requirement_key r) (consumer, capability)) g.requirements

  -- In a graph whose requirements ascend, the lookup finds exactly the requirement of that plugin and capability.
  pub requirement_iff :
      (g : ResolvedGraph V R) (consumer : PluginId) (capability : CapabilityId)
      (r : ResolvedRequirement)
      → BTreeSet.IsSorted (map requirement_key g.requirements)
      → (requirement g consumer capability ≡ some r)
        ↔ (Memᴰ r g.requirements × (r.consumer ≡ consumer) × (r.capability ≡ capability))
  unfolding requirement
  requirement_iff g consumer capability r h =
      let found = binary_search_by_iff requirement_key (consumer, capability) g.requirements r h in
      (
        λ e. let (m, key) = found.0 e in (m, ap (λ k. k.0) key, ap (λ k. k.1) key),
        λ (m, c, k). found.1 (m, λ i. (c i, k i)),
      )
