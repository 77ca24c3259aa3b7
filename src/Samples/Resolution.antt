-- ===== src/Samples/Resolution.antt =====
-- Resolution of the sample composition, and the theorems about it.
use mathlib.Core.List.{Permᴰ}
use kernox.Prelude.{
  ◌≡◌, refl, ◌↔◌, ◌⊎◌, ◌≤◌, [], ◌∷◌, Memᴰ, some, none, ok, length, true, mem_head, All, err, map,
}
use kernox.Collections.BTreeSet
use kernox.Collections.BTreeMap
use kernox.Id.{PluginId, plugin_id_ord, capability_id_ord}
use kernox.Descriptor.{Binding, exactly_one, is_bindable}
use kernox.Descriptor.Valid.{IsValid}
use kernox.Graph.{default_limits, ResolvedEdge, ResolvedRequirement, ResolvedGraph, edge_ord}
use kernox.Graph.Select.{select_providers}
use kernox.Graph.Select.Correct.{Fits, Offers, Compatible, select_providers_ok}
use kernox.Graph.Topology.Ordered.{Before, NoRepeat}
use kernox.Graph.Resolve.{resolve, requirement_key}
use kernox.Graph.Resolve.Step.{IsEdgeOf}
use kernox.Graph.Resolve.Sound.{
  startup_order_sound, requirements_resolved, edges_exact, plugins_indexed,
}
use kernox.Graph.Resolve.Permuted.{resolve_perm}
use kernox.Graph.Resolve.Total.{resolve_ends}
use kernox.Graph.Resolve.Keys.{requirements_ascend}
use kernox.Graph.Builder
use kernox.Graph.Requirement.{requirement, requirement_iff}
use kernox.Graph.Report.{report, accept}
use kernox.Graph.Report.Accepted.{report_accepted}
use kernox.Order.Derive.{pair_ord}
use kernox.Error.{ResolveError}
use kernox.Samples.{
  Version, clock_for_orders, caret, plugin, capability, clock, orders, shop, shop_graph,
  requirement_of, program,
}

pub resolve-shop : resolve caret shop ≡ ok shop_graph
unfolding program
resolve-shop = refl

startup_order_sound_example :
    ((p : PluginId) → Memᴰ p shop_graph.startup_order ↔ Memᴰ p (BTreeMap.keys shop_graph.plugins))
    × NoRepeat shop_graph.startup_order
    × ((q : ResolvedRequirement) (p : PluginId)
        → Memᴰ q shop_graph.requirements
        → Memᴰ p q.providers
        → Before p q.consumer shop_graph.startup_order)
startup_order_sound_example = startup_order_sound caret shop shop_graph resolve-shop

edges_exact_example :
    ((e : ResolvedEdge)
      → Memᴰ e shop_graph.edges ↔ (
          (q : ResolvedRequirement) × Memᴰ q shop_graph.requirements
          × IsEdgeOf q.consumer q.capability q.providers e))
    × BTreeSet.IsSorted shop_graph.edges
    × (length shop_graph.edges ≤ shop.limits.max_edges)
edges_exact_example = edges_exact caret shop shop_graph resolve-shop

plugins_indexed_example :
    (Memᴰ clock (BTreeMap.values shop_graph.plugins) ↔ Memᴰ clock shop.plugins)
    × (Memᴰ clock shop.plugins → BTreeMap.get clock.id shop_graph.plugins ≡ some clock)
plugins_indexed_example = plugins_indexed caret shop shop_graph resolve-shop clock

pub shop-IsValid : All IsValid shop.plugins
shop-IsValid = (
  record {
    offers_sorted = tt;
    offers_keyed = tt;
    requirements_sorted = (tt, tt);
    requirements_keyed = (refl, tt);
    conflicts_sorted = tt;
    no_self_conflict = refl;
  },
  (
    record {
      offers_sorted = ((refl, tt), (tt, tt));
      offers_keyed = (refl, (refl, tt));
      requirements_sorted = tt;
      requirements_keyed = tt;
      conflicts_sorted = (tt, tt);
      no_self_conflict = refl;
    },
    tt,
  ),
)

requirements_resolved_example :
    (q : ResolvedRequirement) × Memᴰ q shop_graph.requirements
    × (q.consumer ≡ orders.id)
    × (q.capability ≡ capability b'k')
    × Fits exactly_one q.providers
    × ((p : PluginId)
        → Memᴰ p q.providers
        → Offers caret shop_graph.plugins (requirement_of b'k' (1, 1) exactly_one) p)
requirements_resolved_example =
    requirements_resolved caret shop shop_graph resolve-shop shop-IsValid orders
      (requirement_of b'k' (1, 1) exactly_one) (mem_head orders (clock ∷ []))
      (mem_head (requirement_of b'k' (1, 1) exactly_one) [])

resolve_perm_example : resolve caret (record shop { plugins = clock ∷ orders ∷ [] }) ≡ ok shop_graph
resolve_perm_example =
    resolve_perm caret shop (clock ∷ orders ∷ []) shop_graph (Permᴰ.swap refl refl) resolve-shop

selected :
    select_providers caret
      (plugin b'a')
      (requirement_of b'k' (1, 1) exactly_one)
      (some (plugin b'b'))
      []
      shop_graph.plugins
    ≡ ok (plugin b'b' ∷ [])
unfolding program
selected = refl

select_providers_ok_example :
    Fits exactly_one (plugin b'b' ∷ [])
    × (((p : PluginId) × (◌≡◌ (some (plugin b'b')) (some p))
          × (plugin b'b' ∷ [] ≡ p ∷ [])
          × Offers caret shop_graph.plugins (requirement_of b'k' (1, 1) exactly_one) p
          × (is_bindable exactly_one ≡ true))
        ⊎ ((some (plugin b'b') ≡ none) × Compatible caret (1, 1) [] (plugin b'b' ∷ [])))
select_providers_ok_example =
    select_providers_ok caret (plugin b'a') (requirement_of b'k' (1, 1) exactly_one)
      (some (plugin b'b')) [] shop_graph.plugins (plugin b'b' ∷ []) selected

resolve_ends_example :
    ((g : ResolvedGraph Version Version) × (resolve caret shop ≡ ok g))
    ⊎ ((e : ResolveError Version Version) × (resolve caret shop ≡ err e))
resolve_ends_example = resolve_ends caret shop

report_accepted_example : accept {R = Version} (report shop_graph) ≡ ok (report shop_graph)
report_accepted_example = report_accepted caret shop shop_graph resolve-shop

requirements_ascend_example : BTreeSet.IsSorted (map requirement_key shop_graph.requirements)
requirements_ascend_example = requirements_ascend caret shop shop_graph resolve-shop shop-IsValid

requirement_iff_example :
    (requirement shop_graph (plugin b'a') (capability b'k') ≡ some clock_for_orders) ↔ (
      Memᴰ clock_for_orders shop_graph.requirements
      × (clock_for_orders.consumer ≡ plugin b'a')
      × (clock_for_orders.capability ≡ capability b'k'))
requirement_iff_example =
    requirement_iff shop_graph (plugin b'a') (capability b'k') clock_for_orders (tt, tt)

built-shop :
    Builder.with_limits
      (Builder.plugin (Builder.plugin Builder.default_spec orders) clock)
      default_limits
    ≡ shop
unfolding Builder.with_limits Builder.plugin
built-shop = refl

bound_last : (b : Binding) → (Builder.binding shop b).bindings ≡ b ∷ []
unfolding Builder.binding
bound_last b = refl
