-- ===== src/Descriptor/Wire/RoundTrip.antt =====
-- Building a descriptor from its decoded fields (crates/kernox-core/src/descriptor.rs).
use kernox.Prelude.{
  ◌≡◌, refl, sym, subst, ap, ◌∙◌, List, [], ◌∷◌, ◌++◌, map, Option, none, some, All, Result, ok,
  bind_ok, false, inl, inr, ◌↔◌, or_false, arith,
}
use mathlib.Core.List
use kernox.Order.{same, same_iff}
use kernox.Collections.BTreeSet
use kernox.Collections.BTreeMap
use kernox.Id.{PluginId, CapabilityId, plugin_id_ord, capability_id_ord}
use kernox.Descriptor.{
  PluginSource, CapabilityOffer, CapabilityRequirement, PluginDescriptor, DescriptorError, new,
  sourced_from, provide, require, conflict_with,
}
use kernox.Descriptor.Valid.{
  IsValid, new-IsValid, sourced_from-IsValid, provide_lem, require_lem, conflict_with_lem,
}
use kernox.Descriptor.Wire.{
  Fields, to_fields, provide_all, require_all, conflict_with_all, with_source, from_fields,
}

-- The entries of a map that is keyed by its values are those of its values.
entries_of_values :
    {A : Type 0} (key : A → CapabilityId) (m : List (CapabilityId × A))
    → All (λ e. e.0 ≡ key e.1) m
    → map (λ a. (key a, a)) (BTreeMap.values m) ≡ m
entries_of_values key [] h = refl
entries_of_values key ((k, a) ∷ m) h =
    (λ i. (sym h.0 i, a) ∷ map (λ b. (key b, b)) (BTreeMap.values m))
    ∙ ap (λ t. (k, a) ∷ t) (entries_of_values key m h.1)

-- One step of the loops: an entry goes to the end, and the keys that follow stay sorted behind it.
append_entry :
    {A : Type 0} (k : CapabilityId) (a : A) (m : List (CapabilityId × A)) (ks : List CapabilityId)
    → BTreeSet.IsSorted (BTreeMap.keys m ++ k ∷ ks)
    → (BTreeMap.insert k a m ≡ m ++ (k, a) ∷ [])
      × (BTreeMap.contains_key k m ≡ false)
      × BTreeSet.IsSorted (BTreeMap.keys (m ++ (k, a) ∷ []) ++ ks)
append_entry {A} k a m ks h =
    let (last, new_key) =
      BTreeMap.insert_last k a m (BTreeSet.IsSorted-append (BTreeMap.keys m) ks k h) in
    (
      last,
      new_key,
      rw (List.map-append (λ (e : CapabilityId × A). e.0) m ((k, a) ∷ []), List.append_assoc) h,
    )

pub ok_inj : (E : Type 0) {A : Type 0} {a b : A} → ◌≡◌ {A = Result E A} (ok a) (ok b) → a ≡ b
ok_inj E e = cc

module _ {V R : Type 0} where
  provide_all_sorted :
      (d : PluginDescriptor V R) (m : List (CapabilityId × CapabilityOffer V))
      (os : List (CapabilityOffer V))
      → BTreeSet.IsSorted (BTreeMap.keys m ++ map (λ o. o.id) os)
      → provide_all (record d { provides = m }) os
        ≡ ok (record d { provides = m ++ map (λ o. (o.id, o)) os })
  unfolding provide_all provide
  provide_all_sorted d m [] h = ap (λ t. ok (record d { provides = t })) (sym (List.append-nil m))
  provide_all_sorted d m (o ∷ os) h =
      let (last, new_key, sorted) = append_entry o.id o m (map (λ o. o.id) os) h in
      rw (provide_all, new_key, last)
        (provide_all_sorted d (m ++ (o.id, o) ∷ []) os sorted
          ∙ ap (λ t. ok (record d { provides = t })) (List.append_assoc m ((o.id, o) ∷ []) _))

  require_all_sorted :
      (d : PluginDescriptor V R) (m : List (CapabilityId × CapabilityRequirement R))
      (rs : List (CapabilityRequirement R))
      → BTreeSet.IsSorted (BTreeMap.keys m ++ map (λ r. r.id) rs)
      → require_all (record d { requires = m }) rs
        ≡ ok (record d { requires = m ++ map (λ r. (r.id, r)) rs })
  unfolding require_all require
  require_all_sorted d m [] h = ap (λ t. ok (record d { requires = t })) (sym (List.append-nil m))
  require_all_sorted d m (r ∷ rs) h =
      let (last, new_key, sorted) = append_entry r.id r m (map (λ r. r.id) rs) h in
      rw (require_all, new_key, last)
        (require_all_sorted d (m ++ (r.id, r) ∷ []) rs sorted
          ∙ ap (λ t. ok (record d { requires = t })) (List.append_assoc m ((r.id, r) ∷ []) _))

  conflict_with_all_sorted :
      (d : PluginDescriptor V R) (s cs : List PluginId)
      → BTreeSet.IsSorted (s ++ cs)
      → BTreeSet.contains d.id cs ≡ false
      → conflict_with_all (record d { conflicts = s }) cs ≡ ok (record d { conflicts = s ++ cs })
  unfolding conflict_with_all conflict_with
  conflict_with_all_sorted d s [] h k =
      ap (λ t. ok (record d { conflicts = t })) (sym (List.append-nil s))
  conflict_with_all_sorted d s (c ∷ cs) h k =
      let (last, new_key) = BTreeSet.insert_last c s (BTreeSet.IsSorted-append s cs c h) in
      let (other, others) = or_false (same d.id c) (BTreeSet.contains d.id cs) k in
      let apart : same c d.id ≡ false = ground (arith, same_iff d.id c, same_iff c d.id) in
      rw (conflict_with_all, apart, new_key, last)
        (conflict_with_all_sorted d (s ++ c ∷ []) cs (rw List.append_assoc h) others
          ∙ ap (λ t. ok (record d { conflicts = t })) (List.append_assoc s (c ∷ []) cs))

  conflict_with_all-IsValid :
      (d d' : PluginDescriptor V R) (cs : List PluginId)
      → IsValid d
      → conflict_with_all d cs ≡ ok d'
      → IsValid d'
  unfolding conflict_with_all
  conflict_with_all-IsValid d d' [] h e = subst IsValid (cc) h
  conflict_with_all-IsValid d d' (c ∷ cs) h e =
      let (d1, one, rest) = bind_ok (conflict_with d c) _ e in
      elim (conflict_with_lem d c h) [
        | inl (self, refused) ↦ cc
        | inr (inl (apart, old, refused)) ↦ cc
        | inr (inr (apart, (d2, made, valid, members))) ↦
            conflict_with_all-IsValid d1 d' cs
              (subst IsValid (ok_inj DescriptorError (sym made ∙ one)) valid) rest
      ]

  require_all-IsValid :
      (d d' : PluginDescriptor V R) (rs : List (CapabilityRequirement R))
      → IsValid d
      → require_all d rs ≡ ok d'
      → IsValid d'
  unfolding require_all
  require_all-IsValid d d' [] h e = subst IsValid (cc) h
  require_all-IsValid d d' (r ∷ rs) h e =
      let (d1, one, rest) = bind_ok (require d r) _ e in
      elim (require_lem d r h) [
        | inl (old, refused) ↦ cc
        | inr (new_key, (d2, made, valid, found)) ↦
            require_all-IsValid d1 d' rs
              (subst IsValid (ok_inj DescriptorError (sym made ∙ one)) valid) rest
      ]

  provide_all-IsValid :
      (d d' : PluginDescriptor V R) (os : List (CapabilityOffer V))
      → IsValid d
      → provide_all d os ≡ ok d'
      → IsValid d'
  unfolding provide_all
  provide_all-IsValid d d' [] h e = subst IsValid (cc) h
  provide_all-IsValid d d' (o ∷ os) h e =
      let (d1, one, rest) = bind_ok (provide d o) _ e in
      elim (provide_lem d o h) [
        | inl (old, refused) ↦ cc
        | inr (new_key, (d2, made, valid, found)) ↦
            provide_all-IsValid d1 d' os
              (subst IsValid (ok_inj DescriptorError (sym made ∙ one)) valid) rest
      ]

  with_source-IsValid :
      (d : PluginDescriptor V R) (source : Option PluginSource)
      → IsValid d
      → IsValid (with_source d source)
  with_source-IsValid d none h = h
  with_source-IsValid d (some source) h = sourced_from-IsValid d source h

  -- What is decoded is a valid descriptor.
  pub from_fields-IsValid :
      (w : Fields V R) (d : PluginDescriptor V R) → from_fields w ≡ ok d → IsValid d
  unfolding from_fields
  from_fields-IsValid w d e =
      let (d1, first, rest) =
        bind_ok (provide_all (with_source (new w.id w.version) w.source) w.provides) _ e in
      let (d2, second, last) = bind_ok (require_all d1 w.requires) _ rest in
      let empty = with_source-IsValid (new w.id w.version) w.source (new-IsValid w.id w.version) in
      conflict_with_all-IsValid d2 d w.conflicts
        (require_all-IsValid d1 d2 w.requires (provide_all-IsValid _ d1 w.provides empty first)
          second)
        last

  blank : Fields V R → PluginDescriptor V R
  blank w = record {
    id = w.id;
    version = w.version;
    source = w.source;
    provides = [];
    requires = [];
    conflicts = [];
  }

  with_source-new :
      (w : Fields V R) (source : Option PluginSource)
      → with_source (new w.id w.version) source ≡ record (blank w) { source = source }
  unfolding blank new sourced_from
  with_source-new w none = refl
  with_source-new w (some source) = refl

  -- The fields of a valid descriptor build it again.
  pub fields_round_trip :
      (d : PluginDescriptor V R) → (from_fields (to_fields d) ≡ ok d) ↔ IsValid d
  unfolding from_fields to_fields blank
  fields_round_trip d = (
    from_fields-IsValid (to_fields d) d,
    λ h.
        let b = record (blank (to_fields d)) { source = d.source } in
        let d1 = record b { provides = d.provides } in
        let d2 = record d1 { requires = d.requires } in
        let offers = BTreeMap.keys_of_values (λ o. o.id) d.provides h.offers_keyed in
        let requirements = BTreeMap.keys_of_values (λ r. r.id) d.requires h.requirements_keyed in
        let provided : provide_all b (BTreeMap.values d.provides) ≡ ok d1 =
          provide_all_sorted b [] (BTreeMap.values d.provides)
            (subst BTreeSet.IsSorted (sym offers) h.offers_sorted)
          ∙ ap (λ t. ok (record b { provides = t }))
              (entries_of_values (λ o. o.id) d.provides h.offers_keyed) in
        let required : require_all d1 (BTreeMap.values d.requires) ≡ ok d2 =
          require_all_sorted d1 [] (BTreeMap.values d.requires)
            (subst BTreeSet.IsSorted (sym requirements) h.requirements_sorted)
          ∙ ap (λ t. ok (record d1 { requires = t }))
              (entries_of_values (λ r. r.id) d.requires h.requirements_keyed) in
        rw (with_source-new (to_fields d) d.source, provided, required)
          (conflict_with_all_sorted d2 [] d.conflicts h.conflicts_sorted h.no_self_conflict),
  )
