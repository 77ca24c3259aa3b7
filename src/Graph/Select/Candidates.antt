-- ===== src/Graph/Select/Candidates.antt =====
-- The candidates of a capability are its offers.
use kernox.Prelude.{
  ◌≡◌, ap, ◌↔◌, ◌⊎◌, inl, inr, ⊎_elim, List, [], ◌∷◌, ◌++◌, Memᴰ, Bool-cases, mem_cons, mem_head,
  mem_tail, mem_concat, not_mem_nil,
}
use kernox.Order.{same, same_iff}
use kernox.Collections.BTreeMap
use kernox.Id.{PluginId, CapabilityId, plugin_id_ord, capability_id_ord}
use kernox.Descriptor.{PluginDescriptor, CapabilityOffer}
use kernox.Graph.Select.{ProviderCandidate, Providers, add_candidate, add_offers, index_providers}

module _ {V : Type 0} where
  abbrev pub candidates : Providers V → CapabilityId → List (ProviderCandidate V)
  candidates providers capability = BTreeMap.get_or capability [] providers

  -- The candidate stands for an offer of the capability by the plugin.
  abbrev Comes : PluginId → CapabilityId → ProviderCandidate V → CapabilityOffer V → Type 0
  Comes plugin capability c o = (capability ≡ o.id) × (c.plugin ≡ plugin) × (c.version ≡ o.version)

  candidate_eq :
      (p : PluginId) (o : CapabilityOffer V) (c : ProviderCandidate V)
      → c.plugin ≡ p
      → c.version ≡ o.version
      → c ≡ record { plugin = p; version = o.version }
  candidate_eq p o c e f = λ i. record { plugin = e i; version = f i }

  mem-add_candidate :
      (p : PluginId) (providers : Providers V) (o : CapabilityOffer V) (capability : CapabilityId)
      (c : ProviderCandidate V)
      → Memᴰ c (candidates (add_candidate p providers o) capability)
        ↔ (Memᴰ c (candidates providers capability) ⊎ Comes p capability c o)
  unfolding add_candidate
  mem-add_candidate p providers o capability c = elim (Bool-cases (same capability o.id)) [
    | inl at ↦
        let key = (same_iff capability o.id).0 at in
        rw
          (
            BTreeMap.get-insert capability o.id
                (candidates providers o.id ++ record { plugin = p; version = o.version } ∷ [])
                providers,
            at,
          )
          (
            λ m.
                ⊎_elim (λ old. inl (rw key old))
                  (λ e. inr (key, ap (λ t. t.plugin) e, ap (λ t. t.version) e))
                  ((mem_concat c _ (candidates providers o.id)).0 m),
            λ x.
                (mem_concat c _ (candidates providers o.id)).1 (
                  ⊎_elim (λ old. inl (rw key at old)) (λ (k, e, f). inr (candidate_eq p o c e f))
                    x),
          )
    | inr off ↦
        rw
          (
            BTreeMap.get-insert capability o.id
                (candidates providers o.id ++ record { plugin = p; version = o.version } ∷ [])
                providers,
            off,
          )
          (inl, ⊎_elim (λ m. m) (λ (k, e, f). cc ((same_iff capability o.id).1 k)))
  ]

  mem-add_offers :
      (p : PluginId) (providers : Providers V) (offers : List (CapabilityOffer V))
      (capability : CapabilityId) (c : ProviderCandidate V)
      → Memᴰ c (candidates (add_offers p providers offers) capability) ↔ (
          Memᴰ c (candidates providers capability)
          ⊎ ((o : CapabilityOffer V) × Memᴰ o offers × Comes p capability c o))
  unfolding add_offers
  mem-add_offers p providers [] capability c = (inl, ⊎_elim (λ m. m) (λ (o, m, e). not_mem_nil m))
  mem-add_offers p providers (o ∷ offers) capability c =
      let later = mem-add_offers p (add_candidate p providers o) offers capability c in
      let here = mem-add_candidate p providers o capability c in
      (
        λ m.
            ⊎_elim (λ x. ⊎_elim inl (λ y. inr (o, mem_head o offers, y)) (here.0 x))
              (λ (q, mq, y). inr (q, mem_tail o mq, y)) (later.0 m),
        λ x. later.1 (
            ⊎_elim (λ old. inl (here.1 (inl old)))
              (λ (q, mq, y).
                ⊎_elim (λ e. inl (here.1 (inr (rw e at y)))) (λ mr. inr (q, mr, y))
                  ((mem_cons q o offers).0 mq))
              x),
      )

  pub mem-index_providers :
      {R : Type 0} (providers : Providers V) (ds : List (PluginDescriptor V R))
      (capability : CapabilityId) (c : ProviderCandidate V)
      → Memᴰ c (candidates (index_providers providers ds) capability) ↔ (
          Memᴰ c (candidates providers capability)
          ⊎ ((d : PluginDescriptor V R) × (o : CapabilityOffer V) × Memᴰ d ds
              × Memᴰ o (BTreeMap.values d.provides)
              × Comes d.id capability c o))
  unfolding index_providers
  mem-index_providers providers [] capability c =
      (inl, ⊎_elim (λ m. m) (λ (d, o, m, mo, y). not_mem_nil m))
  mem-index_providers providers (d ∷ ds) capability c =
      let later =
        mem-index_providers (add_offers d.id providers (BTreeMap.values d.provides)) ds capability
          c in
      let here = mem-add_offers d.id providers (BTreeMap.values d.provides) capability c in
      (
        λ m.
            ⊎_elim (λ x. ⊎_elim inl (λ (o, mo, y). inr (d, o, mem_head d ds, mo, y)) (here.0 x))
              (λ (q, o, mq, mo, y). inr (q, o, mem_tail d mq, mo, y)) (later.0 m),
        λ x. later.1 (
            ⊎_elim (λ old. inl (here.1 (inl old)))
              (λ (q, o, mq, mo, y).
                ⊎_elim (λ e. inl (here.1 (inr (o, rw e at mo, rw e at y))))
                  (λ mr. inr (q, o, mr, mo, y)) ((mem_cons q d ds).0 mq))
              x),
      )
