-- ===== src/Graph/Select.antt =====
-- Provider selection (crates/kernox-core/src/graph.rs). `matches` is `VersionReq::matches` of the
-- semver package.
pub mod Total
pub mod Candidates
pub mod Correct
use kernox.Prelude.{
  Bool, List, [], ◌∷◌, ◌++◌, Option, none, some, if◌then◌else◌, is_empty, map, not, ◌&&◌, Result,
  ok, err, fault, ◌>>◌, reject_if,
}
use kernox.Collections.BTreeMap
use kernox.Id.{PluginId, CapabilityId, plugin_id_ord, capability_id_ord}
use kernox.Descriptor
use kernox.Descriptor.{
  PluginDescriptor, CapabilityRequirement, CapabilityOffer, exactly_one, zero_or_one, zero_or_more,
  one_or_more, is_bindable, permits_zero,
}
use kernox.Error.{
  ResolveError, missing_provider, incompatible_provider, ambiguous_provider,
  bound_provider_does_not_offer, incompatible_binding, binding_for_multiple,
}
use kernox.Graph.Checks.{Plugins, is_some}

pub record ProviderCandidate (V : Type 0) : Type 0 where
  pub plugin : PluginId
  pub version : V

abbrev pub Providers : Type 0 → Type 0
Providers V = List (CapabilityId × List (ProviderCandidate V))

module _ {V : Type 0} where
  -- `providers.entry(offer.id()).or_default().push(candidate)`
  unfoldable pub add_candidate : PluginId → Providers V → CapabilityOffer V → Providers V
  add_candidate plugin providers offer =
      BTreeMap.insert offer.id
        (BTreeMap.get_or offer.id [] providers
          ++ record { plugin = plugin; version = offer.version } ∷ [])
        providers

  unfoldable pub add_offers : PluginId → Providers V → List (CapabilityOffer V) → Providers V
  add_offers plugin providers [] = providers
  add_offers plugin providers (offer ∷ offers) =
      add_offers plugin (add_candidate plugin providers offer) offers

  unfoldable pub index_providers :
      {R : Type 0} → Providers V → List (PluginDescriptor V R) → Providers V
  index_providers providers [] = providers
  index_providers providers (d ∷ ds) =
      index_providers (add_offers d.id providers (BTreeMap.values d.provides)) ds

module _ {V R : Type 0} (matches : R → V → Bool) where
  unfoldable pub compatible_candidates : R → List (ProviderCandidate V) → List PluginId
  compatible_candidates version [] = []
  compatible_candidates version (c ∷ cs) =
      let others = compatible_candidates version cs in
      if matches version c.version then c.plugin ∷ others else others

  -- A binding names the provider.
  unfoldable pub select_bound :
      PluginId
      → CapabilityRequirement R
      → PluginId
      → Plugins V R
      → Result (ResolveError V R) (List PluginId)
  select_bound consumer requirement provider plugins = elim (BTreeMap.get provider plugins) [
    | none ↦ fault
    | some descriptor ↦ elim (Descriptor.offer descriptor requirement.id) [
      | none ↦ err (bound_provider_does_not_offer consumer requirement.id provider)
      | some offer ↦
          if matches requirement.version offer.version
          then ok (provider ∷ [])
          else err (
              incompatible_binding consumer requirement.id provider offer.version
                requirement.version)
    ]
  ]

  -- No candidate offers the capability, or none in a compatible version.
  unfoldable pub absence :
      PluginId
      → CapabilityRequirement R
      → List (ProviderCandidate V)
      → Result (ResolveError V R) (List PluginId)
  absence consumer requirement candidates =
      if is_empty candidates
      then err (missing_provider consumer requirement.id requirement.version)
      else err (
          incompatible_provider consumer requirement.id requirement.version
            (map (λ c. (c.plugin, c.version)) candidates))

  unfoldable pub select_single :
      PluginId
      → CapabilityRequirement R
      → List (ProviderCandidate V)
      → List PluginId
      → Result (ResolveError V R) (List PluginId)
  unfolding absence
  select_single consumer requirement candidates [] =
      if permits_zero requirement.cardinality
      then ok []
      else absence consumer requirement candidates
  select_single consumer requirement candidates (provider ∷ []) = ok (provider ∷ [])
  select_single consumer requirement candidates (p ∷ q ∷ ps) =
      err (ambiguous_provider consumer requirement.id (p ∷ q ∷ ps))

  unfoldable pub select_unbound :
      PluginId
      → CapabilityRequirement R
      → List (ProviderCandidate V)
      → List PluginId
      → Result (ResolveError V R) (List PluginId)
  unfolding select_single
  select_unbound consumer requirement candidates compatible = elim requirement.cardinality [
    | exactly_one ↦ select_single consumer requirement candidates compatible
    | zero_or_one ↦ select_single consumer requirement candidates compatible
    | zero_or_more ↦ ok compatible
    | one_or_more ↦
        if is_empty compatible then absence consumer requirement candidates else ok compatible
  ]

  unfoldable pub select_providers :
      PluginId
      → CapabilityRequirement R
      → Option PluginId
      → List (ProviderCandidate V)
      → Plugins V R
      → Result (ResolveError V R) (List PluginId)
  unfolding select_bound select_unbound compatible_candidates
  select_providers consumer requirement binding candidates plugins = do
    reject_if (is_some binding && not (is_bindable requirement.cardinality))
        (binding_for_multiple consumer requirement.id)
    elim binding [
      | some provider ↦ select_bound consumer requirement provider plugins
      | none ↦
          select_unbound consumer requirement candidates
            (compatible_candidates requirement.version candidates)
    ]
