-- ===== src/Graph/Resolve/Sound.antt =====
-- What a resolved graph is.
use kernox.Prelude.{
  ◌≤◌, ◌≡◌, refl, sym, ◌∙◌, ◌↔◌, ⊎_elim, Bool, [], Memᴰ, some, ok, arith, length, map, not_mem_nil,
  mem_map, of_mem_map, All-mem, All, mem_singleton, subst,
}
use kernox.Order.Derive.{pair_ord}
use kernox.Collections.BTreeSet
use kernox.Collections.BTreeMap
use kernox.Id.{PluginId, plugin_id_ord, capability_id_ord}
use kernox.Descriptor.Valid.{IsValid}
use kernox.Descriptor.{PluginDescriptor, CapabilityRequirement}
use kernox.Error.{dependency_cycle}
use kernox.Graph.{CompositionSpec, ResolvedGraph, ResolvedRequirement, ResolvedEdge, edge_ord}
use kernox.Graph.Select.{index_providers}
use kernox.Graph.Select.Correct.{Fits, Offers, select_providers_cases}
use kernox.Graph.Topology.Ordered.{Before, NoRepeat}
use kernox.Graph.Topology.Sound.{topological_order_sound}
use kernox.Graph.Resolve.{nothing_resolved, resolve}
use kernox.Graph.Resolve.Step.{IsEdgeOf}
use kernox.Graph.Resolve.Sorting.{mem-sort_requirements}
use kernox.Graph.Resolve.Stages.{resolve_ok}
use kernox.Graph.Resolve.Loop.{resolve_plugins_ok}
use kernox.Graph.Resolve.Declared.{IsIndex-of, value_entry, Offers-of_candidate}

module _ {V R : Type 0} (matches : R → V → Bool) (spec : CompositionSpec V R)
    (g : ResolvedGraph V R) (resolved : resolve matches spec ≡ ok g) where
  -- A key of the graph is the identity of a declared plugin.
  pub key_declared :
      (p : PluginId)
      → Memᴰ p (BTreeMap.keys g.plugins)
      → (d : PluginDescriptor V R) × Memᴰ d spec.plugins × (d.id ≡ p)
  key_declared p m =
      let (plugins, bindings, s, st) = resolve_ok matches spec g resolved in
      let (h, mem) = IsIndex-of spec plugins st.admitted in
      let (e, me, is) =
        of_mem_map (λ (x : PluginId × PluginDescriptor V R). x.0) plugins
          (subst (λ t. Memᴰ p (BTreeMap.keys t)) st.concluded.plugins_eq m) in
      let key =
        All-mem (λ (x : PluginId × PluginDescriptor V R). x.0 ≡ x.1.id) plugins h.keyed me in
      (e.1, (mem e.1).0 (subst (λ k. Memᴰ (k, e.1) plugins) key me), sym key ∙ is)

  -- When resolve returns a graph, its plugins are exactly the declared descriptors, and a lookup
  -- by a declared descriptor's identity finds that descriptor.
  pub plugins_indexed :
      (d : PluginDescriptor V R)
      → (Memᴰ d (BTreeMap.values g.plugins) ↔ Memᴰ d spec.plugins)
        × (Memᴰ d spec.plugins → BTreeMap.get d.id g.plugins ≡ some d)
  plugins_indexed d =
      let (plugins, bindings, s, st) = resolve_ok matches spec g resolved in
      let (h, mem) = IsIndex-of spec plugins st.admitted in
      rw st.concluded.plugins_eq (
        (
          λ m. (mem d).0 (value_entry spec plugins h d m),
          λ m. mem_map (λ (x : PluginId × PluginDescriptor V R). x.1) ((mem d).1 m),
        ),
        λ m. BTreeMap.get_of_mem d.id d plugins h.sorted ((mem d).1 m),
      )

  -- When resolve returns a graph, its edges are exactly those from a provider of a resolved
  -- requirement to its consumer, they stand in order without repetition, and their number is
  -- within the configured limit.
  pub edges_exact :
      ((e : ResolvedEdge)
        → Memᴰ e g.edges ↔ (
            (q : ResolvedRequirement) × Memᴰ q g.requirements
            × IsEdgeOf q.consumer q.capability q.providers e))
      × BTreeSet.IsSorted g.edges
      × (length g.edges ≤ spec.limits.max_edges)
  edges_exact =
      let (plugins, bindings, s, st) = resolve_ok matches spec g resolved in
      let ran =
        resolve_plugins_ok matches spec.limits.max_edges plugins
          (index_providers [] (BTreeMap.values plugins)) bindings nothing_resolved s
          (BTreeMap.values plugins) st.ran in
      let coherent = ran.coherent (λ e. (λ m. not_mem_nil m, λ (q, m, x). not_mem_nil m)) in
      rw (st.concluded.edges_eq, st.concluded.requirements_eq)
        (
          λ e. (
            λ m.
                let (q, mq, x) = (coherent e).0 m in
                (q, (mem-sort_requirements q s.requirements).1 mq, x),
            λ (q, mq, x). (coherent e).1 (q, (mem-sort_requirements q s.requirements).0 mq, x),
          ),
          ran.sorted tt,
          ran.bounded (omega arith),
        )

  -- When resolve returns a graph, its start-up order holds exactly the graph's plugins, each
  -- once, and every provider that was selected for a requirement stands in front of the plugin
  -- that requires it.
  pub startup_order_sound :
      ((p : PluginId) → Memᴰ p g.startup_order ↔ Memᴰ p (BTreeMap.keys g.plugins))
      × NoRepeat g.startup_order
      × ((q : ResolvedRequirement) (p : PluginId)
          → Memᴰ q g.requirements
          → Memᴰ p q.providers
          → Before p q.consumer g.startup_order)
  startup_order_sound =
      let (plugins, bindings, s, st) = resolve_ok matches spec g resolved in
      let (members, once, before) =
        topological_order_sound (BTreeMap.keys plugins)
          (map (λ e. (e.provider, e.consumer)) s.edges) dependency_cycle g.startup_order
          st.concluded.ordered in
      let ran =
        resolve_plugins_ok matches spec.limits.max_edges plugins
          (index_providers [] (BTreeMap.values plugins)) bindings nothing_resolved s
          (BTreeMap.values plugins) st.ran in
      let (h, mem) = IsIndex-of spec plugins st.admitted in
      (
        λ p. rw st.concluded.plugins_eq (members p),
        once,
        λ q p mq mp.
            let edge : ResolvedEdge = record {
              provider = p;
              consumer = q.consumer;
              capability = q.capability;
            } in
            let drawn = (edges_exact.0 edge).1 (q, mq, (mp, refl, refl)) in
            let drawn' = subst (Memᴰ edge) st.concluded.edges_eq drawn in
            let mq' =
              (mem-sort_requirements q s.requirements).0
                (subst (Memᴰ q) st.concluded.requirements_eq mq) in
            before p q.consumer (mem_map (λ (e : ResolvedEdge). (e.provider, e.consumer)) drawn') (
              ⊎_elim not_mem_nil
                (λ (c, r, d, a).
                  let (x, mx, cx, mr) = d in
                  subst (λ k. Memᴰ k (BTreeMap.keys plugins)) (sym (a.consumer_eq ∙ cx))
                    (mem_map (λ (y : PluginId × PluginDescriptor V R). y.0)
                      (value_entry spec plugins h x mx)))
                ((ran.requirements q).0 mq')),
      )

  -- When resolve returns a graph and the declared descriptors are valid, every requirement of
  -- every declared plugin has a resolved requirement with as many providers as its cardinality
  -- allows, and each of them is a plugin of the graph that offers the capability in a version
  -- that the requirement accepts.
  pub requirements_resolved :
      All IsValid spec.plugins
      → (d : PluginDescriptor V R) (r : CapabilityRequirement R) → Memᴰ d spec.plugins
      → Memᴰ r (BTreeMap.values d.requires)
      → (q : ResolvedRequirement) × Memᴰ q g.requirements
        × (q.consumer ≡ d.id)
        × (q.capability ≡ r.id)
        × Fits r.cardinality q.providers
        × ((p : PluginId) → Memᴰ p q.providers → Offers matches g.plugins r p)
  requirements_resolved valid d r md mr =
      let (plugins, bindings, s, st) = resolve_ok matches spec g resolved in
      let ran =
        resolve_plugins_ok matches spec.limits.max_edges plugins
          (index_providers [] (BTreeMap.values plugins)) bindings nothing_resolved s
          (BTreeMap.values plugins) st.ran in
      let (h, mem) = IsIndex-of spec plugins st.admitted in
      let (q, mq, a) =
        ran.answered d.id r
          (d, mem_map (λ (x : PluginId × PluginDescriptor V R). x.1) ((mem d).1 md), refl, mr) in
      let (fits, how) = select_providers_cases matches d.id r _ _ plugins q.providers a.selected in
      (
        q,
        subst (Memᴰ q) (sym st.concluded.requirements_eq)
            ((mem-sort_requirements q s.requirements).1 mq),
        a.consumer_eq,
        a.capability_eq,
        fits,
        λ p mp. rw st.concluded.plugins_eq (
            ⊎_elim
              (λ (b, _, only, offers, _).
                subst (Offers matches plugins r) (sym (mem_singleton (subst (Memᴰ p) only mp)))
                  offers)
              (λ (_, all).
                Offers-of_candidate matches spec plugins h
                  (λ x m. All-mem IsValid spec.plugins valid ((mem x).0 m)) r p
                  (subst (Memᴰ p) all mp))
              how),
      )
