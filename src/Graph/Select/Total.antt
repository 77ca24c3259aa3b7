-- ===== src/Graph/Select/Total.antt =====
-- The selection of providers (crates/kernox-core/src/graph.rs) returns, when a bound provider is known.
use kernox.Prelude.{
  Ends, Ends-if, Ends-guard, ◌≡◌, refl, sym, subst, inl, inr, Bool, true, not, ◌&&◌, List, [], ◌∷◌,
  Option, none, some, if◌then◌else◌, is_empty, ok, Option-cases,
}
use kernox.Order.Derive.{pair_ord}
use kernox.Collections.BTreeMap
use kernox.Id.{PluginId, plugin_id_ord, capability_id_ord}
use kernox.Descriptor
use kernox.Descriptor.{
  PluginDescriptor, CapabilityRequirement, RequirementCardinality, Binding, exactly_one,
  zero_or_one, zero_or_more, one_or_more, is_bindable, permits_zero,
}
use kernox.Error.{binding_for_multiple, incompatible_binding, bound_provider_does_not_offer}
use kernox.Graph.{edge_ord}
use kernox.Graph.Checks.{is_some, Plugins}
use kernox.Graph.Select.{
  ProviderCandidate, select_bound, absence, select_single, select_unbound, select_providers,
  compatible_candidates,
}

module _ {V R : Type 0} (matches : R → V → Bool) where
  absence-Ends :
      (consumer : PluginId) (r : CapabilityRequirement R) (cs : List (ProviderCandidate V))
      → Ends (absence matches consumer r cs)
  unfolding absence
  absence-Ends consumer r cs = Ends-if _ _ _ (inr (_, refl)) (inr (_, refl))

  select_single-Ends :
      (consumer : PluginId) (r : CapabilityRequirement R) (cs : List (ProviderCandidate V))
      (ps : List PluginId)
      → Ends (select_single matches consumer r cs ps)
  unfolding select_single
  select_single-Ends consumer r cs [] = Ends-if _ _ _ (inl ([], refl)) (absence-Ends consumer r cs)
  select_single-Ends consumer r cs (p ∷ []) = inl (p ∷ [], refl)
  select_single-Ends consumer r cs (p ∷ q ∷ ps) = inr (_, refl)

  select_unbound-Ends :
      (consumer : PluginId) (r : CapabilityRequirement R) (cs : List (ProviderCandidate V))
      (ps : List PluginId)
      → Ends (select_unbound matches consumer r cs ps)
  unfolding select_unbound
  select_unbound-Ends consumer r cs ps =
      elim r.cardinality
        as (λ k. Ends (elim k [
          | exactly_one ↦ select_single matches consumer r cs ps
          | zero_or_one ↦ select_single matches consumer r cs ps
          | zero_or_more ↦ ok ps
          | one_or_more ↦ if is_empty ps then absence matches consumer r cs else ok ps
        ])) [
          | exactly_one ↦ select_single-Ends consumer r cs ps
          | zero_or_one ↦ select_single-Ends consumer r cs ps
          | zero_or_more ↦ inl (ps, refl)
          | one_or_more ↦ Ends-if _ _ _ (absence-Ends consumer r cs) (inl (ps, refl))
        ]

  select_bound-Ends :
      (consumer : PluginId) (r : CapabilityRequirement R) (p : PluginId) (plugins : Plugins V R)
      → BTreeMap.contains_key p plugins ≡ true
      → Ends (select_bound matches consumer r p plugins)
  unfolding select_bound
  select_bound-Ends consumer r p plugins held =
      let (d, found) = BTreeMap.get_of_contains_key p plugins held in
      elim (Option-cases (Descriptor.offer d r.id)) [
        | inl absent ↦
            inr (bound_provider_does_not_offer consumer r.id p, simp (select_bound, found, absent))
        | inr (o, offered) ↦ subst Ends (sym (simp (select_bound, found, offered))) (
            Ends-if (matches r.version o.version) (ok (p ∷ [])) _ (inl (p ∷ [], refl))
              (inr (incompatible_binding consumer r.id p o.version r.version, refl)))
      ]

  pub select_providers-Ends :
      (consumer : PluginId) (r : CapabilityRequirement R) (binding : Option PluginId)
      (cs : List (ProviderCandidate V)) (plugins : Plugins V R)
      → ((p : PluginId) → binding ≡ some p → BTreeMap.contains_key p plugins ≡ true)
      → Ends (select_providers matches consumer r binding cs plugins)
  unfolding select_providers
  select_providers-Ends consumer r none cs plugins h =
      Ends-guard (is_some {A = PluginId} none && not (is_bindable r.cardinality))
        (binding_for_multiple consumer r.id) _
        (select_unbound-Ends consumer r cs (compatible_candidates matches r.version cs))
  select_providers-Ends consumer r (some p) cs plugins h =
      Ends-guard _ _ _ (select_bound-Ends consumer r p plugins (h p refl))
