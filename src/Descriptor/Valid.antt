-- ===== src/Descriptor/Valid.antt =====
-- The descriptors that can be built: maps under their own keys, and no conflict with oneself.
use kernox.Prelude.{
  ◌≡◌, refl, sym, ◌∙◌, ◌↔◌, ◌≢◌, ◌⊎◌, inl, inr, some, true, false, List, Memᴰ, ok, err, All,
  Bool-cases, if◌then◌else◌,
}
use kernox.Order.{same, same_iff}
use kernox.Collections.BTreeSet
use kernox.Collections.BTreeMap
use kernox.Id.{PluginId, CapabilityId, plugin_id_ord, capability_id_ord}
use kernox.Descriptor.{
  PluginDescriptor, CapabilityOffer, CapabilityRequirement, new, sourced_from, provide, require,
  conflict_with, PluginSource, offer, self_conflict, duplicate_conflict, duplicate_offer,
  duplicate_requirement,
}

-- An insertion under the value's own key keeps the entries under their keys.
keyed-insert :
    {A : Type 0} (key : A → CapabilityId) (a : A) (m : List (CapabilityId × A))
    → All (λ e. e.0 ≡ key e.1) m
    → All (λ e. e.0 ≡ key e.1) (BTreeMap.insert (key a) a m)
keyed-insert key a m h = BTreeMap.All-insert (λ e. e.0 ≡ key e.1) (key a) a m refl h

no_self :
    (p c : PluginId) (cs : List PluginId)
    → c ≢ p
    → BTreeSet.contains p cs ≡ false
    → BTreeSet.contains p (BTreeSet.insert c cs) ≡ false
no_self p c cs apart h = elim (Bool-cases (same p c)) [
  | inl e ↦ absurd (apart (sym ((same_iff p c).0 e)))
  | inr e ↦ BTreeSet.contains-insert p c cs ∙ rw (e, h)
]

module _ {V R : Type 0} where
  pub record IsValid (d : PluginDescriptor V R) : Type 0 where
    pub offers_sorted : BTreeMap.IsSorted d.provides
    pub offers_keyed : All (λ e. e.0 ≡ e.1.id) d.provides
    pub requirements_sorted : BTreeMap.IsSorted d.requires
    pub requirements_keyed : All (λ e. e.0 ≡ e.1.id) d.requires
    pub conflicts_sorted : BTreeSet.IsSorted d.conflicts
    pub no_self_conflict : BTreeSet.contains d.id d.conflicts ≡ false

  pub new-IsValid : (id : PluginId) (version : V) → IsValid (new {R = R} id version)
  unfolding new
  new-IsValid id version = record {
    offers_sorted = tt;
    offers_keyed = tt;
    requirements_sorted = tt;
    requirements_keyed = tt;
    conflicts_sorted = tt;
    no_self_conflict = refl;
  }

  pub sourced_from-IsValid :
      (d : PluginDescriptor V R) (s : PluginSource) → IsValid d → IsValid (sourced_from d s)
  unfolding sourced_from
  sourced_from-IsValid d s h = record {
    offers_sorted = h.offers_sorted;
    offers_keyed = h.offers_keyed;
    requirements_sorted = h.requirements_sorted;
    requirements_keyed = h.requirements_keyed;
    conflicts_sorted = h.conflicts_sorted;
    no_self_conflict = h.no_self_conflict;
  }

  -- On a valid descriptor, provide fails with the duplicate-offer error exactly when the
  -- capability is already offered, and otherwise returns a valid descriptor whose offers are the
  -- new one and the old ones.
  pub provide_lem :
      (d : PluginDescriptor V R) (o : CapabilityOffer V)
      → IsValid d
      → ((BTreeMap.contains_key o.id d.provides ≡ true)
          × (provide d o ≡ err (duplicate_offer d.id o.id)))
        ⊎ ((BTreeMap.contains_key o.id d.provides ≡ false)
            × ((d' : PluginDescriptor V R) × (provide d o ≡ ok d')
                × IsValid d'
                × ((c : CapabilityId) → offer d' c ≡ (if same c o.id then some o else offer d c))))
  unfolding provide offer
  provide_lem d o h = elim (Bool-cases (BTreeMap.contains_key o.id d.provides)) [
    | inl old ↦ inl (old, rw old)
    | inr new ↦ inr (
      new,
      (
        record d { provides = BTreeMap.insert o.id o d.provides },
        rw new,
        record {
          offers_sorted = BTreeMap.insert-IsSorted o.id o d.provides h.offers_sorted;
          offers_keyed = keyed-insert (λ a. a.id) o d.provides h.offers_keyed;
          requirements_sorted = h.requirements_sorted;
          requirements_keyed = h.requirements_keyed;
          conflicts_sorted = h.conflicts_sorted;
          no_self_conflict = h.no_self_conflict;
        },
        λ c. BTreeMap.get-insert c o.id o d.provides,
      ),
    )
  ]

  -- `require` fails exactly on a repeated capability, and keeps a descriptor valid.
  pub require_lem :
      (d : PluginDescriptor V R) (r : CapabilityRequirement R)
      → IsValid d
      → ((BTreeMap.contains_key r.id d.requires ≡ true)
          × (require d r ≡ err (duplicate_requirement d.id r.id)))
        ⊎ ((BTreeMap.contains_key r.id d.requires ≡ false)
            × ((d' : PluginDescriptor V R) × (require d r ≡ ok d')
                × IsValid d'
                × ((c : CapabilityId)
                    → BTreeMap.get c d'.requires
                      ≡ (if same c r.id then some r else BTreeMap.get c d.requires))))
  unfolding require
  require_lem d r h = elim (Bool-cases (BTreeMap.contains_key r.id d.requires)) [
    | inl old ↦ inl (old, rw old)
    | inr new ↦ inr (
      new,
      (
        record d { requires = BTreeMap.insert r.id r d.requires },
        rw new,
        record {
          offers_sorted = h.offers_sorted;
          offers_keyed = h.offers_keyed;
          requirements_sorted = BTreeMap.insert-IsSorted r.id r d.requires h.requirements_sorted;
          requirements_keyed = keyed-insert (λ a. a.id) r d.requires h.requirements_keyed;
          conflicts_sorted = h.conflicts_sorted;
          no_self_conflict = h.no_self_conflict;
        },
        λ c. BTreeMap.get-insert c r.id r d.requires,
      ),
    )
  ]

  -- On a valid descriptor, conflict_with refuses the plugin's own identity, refuses a conflict
  -- that is already declared, and otherwise returns a valid descriptor with that conflict added.
  pub conflict_with_lem :
      (d : PluginDescriptor V R) (conflict : PluginId)
      → IsValid d
      → ((conflict ≡ d.id) × (conflict_with d conflict ≡ err (self_conflict d.id)))
        ⊎ ((conflict ≢ d.id)
            × Memᴰ conflict d.conflicts
            × (conflict_with d conflict ≡ err (duplicate_conflict d.id conflict)))
        ⊎ ((conflict ≢ d.id)
            × ((d' : PluginDescriptor V R) × (conflict_with d conflict ≡ ok d')
                × IsValid d'
                × ((c : PluginId) → Memᴰ c d'.conflicts ↔ ((c ≡ conflict) ⊎ Memᴰ c d.conflicts))))
  unfolding conflict_with
  conflict_with_lem d conflict h = elim (Bool-cases (same conflict d.id)) [
    | inl self ↦ inl ((same_iff conflict d.id).0 self, rw self)
    | inr other ↦
        let apart : conflict ≢ d.id = λ e. cc ((same_iff conflict d.id).1 e, other) in
        elim (Bool-cases (BTreeSet.contains conflict d.conflicts)) [
          | inl old ↦
              inr (inl (apart, (BTreeSet.contains_iff conflict d.conflicts).0 old, rw (other, old)))
          | inr new ↦ inr (
              inr (
                apart,
                (
                  record d { conflicts = BTreeSet.insert conflict d.conflicts },
                  rw (other, new),
                  record {
                    offers_sorted = h.offers_sorted;
                    offers_keyed = h.offers_keyed;
                    requirements_sorted = h.requirements_sorted;
                    requirements_keyed = h.requirements_keyed;
                    conflicts_sorted =
                        BTreeSet.insert-IsSorted conflict d.conflicts h.conflicts_sorted;
                    no_self_conflict = no_self d.id conflict d.conflicts apart h.no_self_conflict;
                  },
                  λ c. BTreeSet.mem-insert c conflict d.conflicts,
                ),
              ))
        ]
  ]
