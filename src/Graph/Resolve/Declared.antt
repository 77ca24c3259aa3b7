-- ===== src/Graph/Resolve/Declared.antt =====
-- The plugins of a resolution are the declared descriptors, under their identities.
use kernox.Prelude.{
  ◌≡◌, refl, sym, ap, ◌∙◌, ◌↔◌, inr, ⊎_elim, Bool, true, List, [], Memᴰ, some, not_mem_nil,
  of_mem_map, All-mem, subst,
}
use kernox.Order.Derive.{pair_ord}
use kernox.Collections.BTreeMap
use kernox.Id.{PluginId, CapabilityId, plugin_id_ord, capability_id_ord}
use kernox.Descriptor
use kernox.Descriptor.Valid.{IsValid}
use kernox.Descriptor.{CapabilityOffer, PluginDescriptor, CapabilityRequirement}
use kernox.Graph.{CompositionSpec, edge_ord}
use kernox.Graph.Checks.{Plugins}
use kernox.Graph.Checks.Index.{IsIndex, index_plugins-IsIndex, mem-index_plugins}
use kernox.Graph.Select.Candidates.{candidates, mem-index_providers}
use kernox.Graph.Select.{compatible_candidates, index_providers}
use kernox.Graph.Select.Correct.{Offers, mem-compatible_candidates}
use kernox.Graph.Resolve.Stages.{Admitted, empty-IsIndex}

module _ {V R : Type 0} (spec : CompositionSpec V R) where
  pub IsIndex-of :
      (plugins : Plugins V R)
      → Admitted spec plugins
      → IsIndex spec.limits plugins
        × ((d : PluginDescriptor V R) → Memᴰ (d.id, d) plugins ↔ Memᴰ d spec.plugins)
  IsIndex-of plugins a = (
    index_plugins-IsIndex spec.limits [] plugins spec.plugins (empty-IsIndex spec) a.indexed,
    λ d.
        let mem = mem-index_plugins spec.limits [] plugins spec.plugins a.indexed (d.id, d) in
        (λ m. ⊎_elim not_mem_nil (λ x. x.0) (mem.0 m), λ m. mem.1 (inr (m, refl))),
  )

  pub value_entry :
      (plugins : Plugins V R)
      → IsIndex spec.limits plugins
      → (d : PluginDescriptor V R) → Memᴰ d (BTreeMap.values plugins)
      → Memᴰ (d.id, d) plugins
  value_entry plugins h d m =
      let (e, there, is) = of_mem_map (λ (x : PluginId × PluginDescriptor V R). x.1) plugins m in
      let key =
        All-mem (λ (x : PluginId × PluginDescriptor V R). x.0 ≡ x.1.id) plugins h.keyed there in
      subst (λ x. Memᴰ x plugins) (entry_is e.0 e.1 d key is) there
    where
      entry_is :
          (k : PluginId) (v d : PluginDescriptor V R)
          → k ≡ v.id
          → v ≡ d
          → ◌≡◌ {A = PluginId × PluginDescriptor V R} (k, v) (d.id, d)
      entry_is k v d key is = λ i. ((key ∙ ap (λ (t : PluginDescriptor V R). t.id) is) i, is i)

module _ {V R : Type 0} (matches : R → V → Bool) (spec : CompositionSpec V R) where
  -- A compatible candidate is an offer of a plugin of the map.
  pub Offers-of_candidate :
      (plugins : Plugins V R)
      → IsIndex spec.limits plugins
      → ((d : PluginDescriptor V R) → Memᴰ (d.id, d) plugins → IsValid d)
      → (r : CapabilityRequirement R) (p : PluginId)
      → Memᴰ p (
          compatible_candidates matches r.version
            (candidates (index_providers [] (BTreeMap.values plugins)) r.id))
      → Offers matches plugins r p
  unfolding Descriptor.offer BTreeMap.get
  Offers-of_candidate plugins h valid r p m =
      let (v, mc, fits) = (mem-compatible_candidates matches r.version _ p).0 m in
      ⊎_elim not_mem_nil
        (λ (d, o, md, mo, comes).
          let (at, is, version) = comes in
          let entry = value_entry spec plugins h d md in
          let ok_d = valid d entry in
          let (e, me, oe) =
            of_mem_map (λ (x : CapabilityId × CapabilityOffer V). x.1) d.provides mo in
          let key =
            All-mem (λ (x : CapabilityId × CapabilityOffer V). x.0 ≡ x.1.id) d.provides
              ok_d.offers_keyed me in
          (
            d,
            o,
            subst (λ k. BTreeMap.get k plugins ≡ some d) (sym is)
                (BTreeMap.get_of_mem d.id d plugins h.sorted entry),
            subst (λ k. BTreeMap.get k d.provides ≡ some o) (sym at)
                (BTreeMap.get_of_mem o.id o d.provides ok_d.offers_sorted
                  (offer_entry d.provides e o me key oe)),
            subst (λ x. matches r.version x ≡ true) version fits,
          ))
        ((mem-index_providers [] (BTreeMap.values plugins) r.id
            (record { plugin = p; version = v })).0
          mc)
    where
      offer_entry :
          (m : List (CapabilityId × CapabilityOffer V)) (e : CapabilityId × CapabilityOffer V)
          (o : CapabilityOffer V)
          → Memᴰ e m
          → e.0 ≡ e.1.id
          → e.1 ≡ o
          → Memᴰ (o.id, o) m
      offer_entry m (k, v) o me key is =
          subst (λ x. Memᴰ x m) (λ i. ((key ∙ ap (λ (t : CapabilityOffer V). t.id) is) i, is i)) me
