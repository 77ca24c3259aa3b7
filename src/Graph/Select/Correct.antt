-- ===== src/Graph/Select/Correct.antt =====
-- What a successful selection is.
use kernox.Prelude.{
  ◌≤◌, ◌≡◌, refl, sym, subst, ap, ◌↔◌, ◌⊎◌, inl, inr, ⊎_elim, Bool, true, false, not, ◌&&◌, List,
  [], ◌∷◌, Memᴰ, Option, none, some, ok, arith, Bool-cases, Option-cases, reject_ok, length,
  mem_cons, mem_tail, not_mem_nil,
}
use kernox.Collections.BTreeMap
use kernox.Id.{PluginId, plugin_id_ord, capability_id_ord}
use kernox.Descriptor
use kernox.Descriptor.{
  PluginDescriptor, CapabilityRequirement, CapabilityOffer, RequirementCardinality, exactly_one,
  zero_or_one, zero_or_more, one_or_more, is_bindable, permits_zero,
}
use kernox.Graph.Checks.{Plugins}
use kernox.Graph.Select.{
  ProviderCandidate, compatible_candidates, select_bound, select_unbound, select_providers,
}

-- How many providers a requirement may have.
abbrev pub Fits : RequirementCardinality → List PluginId → Type 0
Fits exactly_one ps = length ps ≡ 1
Fits zero_or_one ps = length ps ≤ 1
Fits zero_or_more ps = Unit
Fits one_or_more ps = 1 ≤ length ps

Fits-one : (c : RequirementCardinality) (p : PluginId) → Fits c (p ∷ [])
Fits-one exactly_one p = refl
Fits-one zero_or_one p = omega arith
Fits-one zero_or_more p = tt
Fits-one one_or_more p = omega arith

module _ {V R : Type 0} (matches : R → V → Bool) where
  -- A plugin of the map offers the capability in a version that the requirement accepts.
  abbrev pub Offers : Plugins V R → CapabilityRequirement R → PluginId → Type 0
  Offers plugins r p =
      (d : PluginDescriptor V R) × (o : CapabilityOffer V) × (BTreeMap.get p plugins ≡ some d)
      × (Descriptor.offer d r.id ≡ some o)
      × (matches r.version o.version ≡ true)

  pub mem-compatible_candidates :
      (version : R) (candidates : List (ProviderCandidate V)) (p : PluginId)
      → Memᴰ p (compatible_candidates matches version candidates) ↔ (
          (v : V) × Memᴰ (record { plugin = p; version = v }) candidates
          × (matches version v ≡ true))
  unfolding compatible_candidates
  mem-compatible_candidates version [] p = (λ m. not_mem_nil m, λ (v, m, e). not_mem_nil m)
  mem-compatible_candidates version (c ∷ cs) p =
      let later = mem-compatible_candidates version cs p in
      elim (Bool-cases (matches version c.version)) [
        | inl fits ↦ rw fits (
          λ m.
              ⊎_elim
                (λ e. (
                  c.version,
                  (mem_cons _ c cs).1
                      (inl (ap (λ (t : PluginId). record { plugin = t; version = c.version }) e)),
                  fits,
                ))
                (λ old. let (v, there, ok_v) = later.0 old in (v, mem_tail c there, ok_v))
                ((mem_cons p c.plugin _).0 m),
          λ (v, m, e).
              ⊎_elim (λ at. (mem_cons p c.plugin _).1 (inl (ap (λ t. t.plugin) at)))
                (λ there. mem_tail c.plugin (later.1 (v, there, e))) ((mem_cons _ c cs).0 m),
        )
        | inr other ↦ rw other (
          λ m. let (v, there, ok_v) = later.0 m in (v, mem_tail c there, ok_v),
          λ (v, m, e).
              ⊎_elim (λ at. cc (ap (λ t. matches version t.version) at))
                (λ there. later.1 (v, there, e)) ((mem_cons _ c cs).0 m),
        )
      ]

  select_bound_ok :
      (consumer : PluginId) (r : CapabilityRequirement R) (provider : PluginId)
      (plugins : Plugins V R) (ps : List PluginId)
      → select_bound matches consumer r provider plugins ≡ ok ps
      → (ps ≡ provider ∷ []) × Offers plugins r provider
  unfolding select_bound
  select_bound_ok consumer r provider plugins ps h =
      elim (Option-cases (BTreeMap.get provider plugins)) [
        | inl none_found ↦ cc (rw (none_found, select_bound) at h)
        | inr (d, found) ↦ elim (Option-cases (Descriptor.offer d r.id)) [
          | inl no_offer ↦ cc (rw (found, no_offer, select_bound) at h)
          | inr (o, offered) ↦ elim (Bool-cases (matches r.version o.version)) [
            | inl fits ↦
                let e : ok (provider ∷ []) ≡ ok ps = rw (found, offered, fits, select_bound) at h in
                (cc, (d, o, found, offered, fits))
            | inr other ↦ cc (rw (found, offered, other, select_bound) at h)
          ]
        ]
      ]

  -- Without a binding the compatible candidates are selected, and their number fits.
  select_unbound_ok :
      (consumer : PluginId) (r : CapabilityRequirement R) (candidates : List (ProviderCandidate V))
      (compatible ps : List PluginId)
      → select_unbound matches consumer r candidates compatible ≡ ok ps
      → (ps ≡ compatible) × Fits r.cardinality ps
  unfolding select_unbound
  select_unbound_ok consumer r [] [] ps h = ground arith
  select_unbound_ok consumer r (c ∷ cs) [] ps h = ground arith
  select_unbound_ok consumer r candidates (p ∷ []) ps h = ground arith
  select_unbound_ok consumer r candidates (p ∷ q ∷ qs) ps h = ground arith

  -- The plugins of the candidates in an accepted version, in the order of the candidates.
  pub data Compatible (version : R) : List (ProviderCandidate V) → List PluginId → Type 0 where
    no_candidates : Compatible version [] []
    accepted :
        (c : ProviderCandidate V) {cs : List (ProviderCandidate V)} {ps : List PluginId}
        → matches version c.version ≡ true
        → Compatible version cs ps
        → Compatible version (c ∷ cs) (c.plugin ∷ ps)
    passed_over :
        (c : ProviderCandidate V) {cs : List (ProviderCandidate V)} {ps : List PluginId}
        → matches version c.version ≡ false
        → Compatible version cs ps
        → Compatible version (c ∷ cs) ps

  compatible_candidates-Compatible :
      (version : R) (candidates : List (ProviderCandidate V))
      → Compatible version candidates (compatible_candidates matches version candidates)
  unfolding compatible_candidates
  compatible_candidates-Compatible version [] = no_candidates
  compatible_candidates-Compatible version (c ∷ cs) =
      let later = compatible_candidates-Compatible version cs in
      elim (Bool-cases (matches version c.version)) [
        | inl fits ↦ rw fits (accepted c fits later)
        | inr other ↦ rw other (passed_over c other later)
      ]

  pub select_providers_cases :
      (consumer : PluginId) (r : CapabilityRequirement R) (binding : Option PluginId)
      (candidates : List (ProviderCandidate V)) (plugins : Plugins V R) (ps : List PluginId)
      → select_providers matches consumer r binding candidates plugins ≡ ok ps
      → Fits r.cardinality ps
        × (((p : PluginId) × (binding ≡ some p)
              × (ps ≡ p ∷ [])
              × Offers plugins r p
              × (is_bindable r.cardinality ≡ true))
            ⊎ ((binding ≡ none) × (ps ≡ compatible_candidates matches r.version candidates)))
  unfolding select_providers
  select_providers_cases consumer r none candidates plugins ps h =
      let (e, fits) = select_unbound_ok consumer r candidates _ ps h in (fits, inr (refl, e))
  select_providers_cases consumer r (some p) candidates plugins ps h =
      let (allowed, rest) = reject_ok (true && not (is_bindable r.cardinality)) _ _ h in
      let (e, offers) = select_bound_ok consumer r p plugins ps rest in
      (rw e (Fits-one r.cardinality p), inl (p, refl, e, offers, ground arith))

  -- When a selection succeeds, the number of providers fits the cardinality; with a binding, the
  -- requirement is bindable and the bound provider alone is selected, which is a known plugin
  -- that offers the capability in an accepted version; without one, exactly the plugins of the candidates
  -- whose version the requirement accepts are selected, in the order of the candidates.
  pub select_providers_ok :
      (consumer : PluginId) (r : CapabilityRequirement R) (binding : Option PluginId)
      (candidates : List (ProviderCandidate V)) (plugins : Plugins V R) (ps : List PluginId)
      → select_providers matches consumer r binding candidates plugins ≡ ok ps
      → Fits r.cardinality ps
        × (((p : PluginId) × (binding ≡ some p)
              × (ps ≡ p ∷ [])
              × Offers plugins r p
              × (is_bindable r.cardinality ≡ true))
            ⊎ ((binding ≡ none) × Compatible r.version candidates ps))
  select_providers_ok consumer r binding candidates plugins ps h =
      let (fits, how) = select_providers_cases consumer r binding candidates plugins ps h in
      (
        fits,
        ⊎_elim inl
            (λ (unbound, e). inr (
              unbound,
              subst (Compatible r.version candidates) (sym e)
                  (compatible_candidates-Compatible r.version candidates),
            ))
            how,
      )
