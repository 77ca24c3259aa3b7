-- ===== src/Descriptor/Wire/Constructed.antt =====
-- A descriptor that is built from decoded fields (crates/kernox-core/src/descriptor.rs) holds what they hold.
use kernox.Prelude.{
  ◌≡◌, subst, List, [], ◌∷◌, Option, none, some, All, Result, ok, err, bind_ok, Bool, true, false,
  if◌then◌else◌,
}
use kernox.Order.{same}
use kernox.Collections.BTreeSet
use kernox.Collections.BTreeMap
use kernox.Id.{PluginId, CapabilityId, plugin_id_ord, capability_id_ord}
use kernox.Descriptor.{
  PluginSource, CapabilityOffer, CapabilityRequirement, PluginDescriptor, DescriptorError, new,
  sourced_from, provide, require, conflict_with,
}
use kernox.Descriptor.Wire.RoundTrip.{ok_inj}
use kernox.Descriptor.Wire.{
  Fields, Wire, decode_fields, provide_all, require_all, conflict_with_all, with_source,
  from_fields,
}
use kernox.Descriptor.Wire.Decoded.{
  IsSource, IsPluginId, IsOffer, IsRequirement, IsDecoded, decode_fields-IsDecoded,
}

-- The identifiers and the source of a descriptor are values that their constructors return.
pub record IsConstructed {V R : Type 0} (d : PluginDescriptor V R) : Type 0 where
  pub own_id : IsPluginId d.id
  pub own_source : IsSource d.source
  pub offered : All IsOffer (BTreeMap.values d.provides)
  pub required : All IsRequirement (BTreeMap.values d.requires)
  pub named : All IsPluginId d.conflicts

All-values :
    {K A : Type 0} (P : A → Type 0) (m : List (K × A))
    → All P (BTreeMap.values m)
    → All (λ e. P e.1) m
All-values P [] h = tt
All-values P ((k, a) ∷ m) h = (h.0, All-values P m h.1)

values-All :
    {K A : Type 0} (P : A → Type 0) (m : List (K × A))
    → All (λ e. P e.1) m
    → All P (BTreeMap.values m)
values-All P [] h = tt
values-All P ((k, a) ∷ m) h = (h.0, values-All P m h.1)

-- An insertion adds one value.
values-insert :
    {A : Type 0} (P : A → Type 0) (k : CapabilityId) (a : A) (m : List (CapabilityId × A))
    → P a
    → All P (BTreeMap.values m)
    → All P (BTreeMap.values (BTreeMap.insert k a m))
values-insert P k a m p h =
    values-All P (BTreeMap.insert k a m)
      (BTreeMap.All-insert (λ e. P e.1) k a m p (All-values P m h))

-- Past a test that refuses, the value is the one that is returned.
passed_ok :
    {E A : Type 0} (b : Bool) (e : E) (m : Result E A) {a : A}
    → (if b then err e else m) ≡ ok a
    → m ≡ ok a
passed_ok true e m h = absurd (cc)
passed_ok false e m h = h

module _ {V R : Type 0} where
  provide_all-IsConstructed :
      (d d' : PluginDescriptor V R) (os : List (CapabilityOffer V))
      → IsConstructed d
      → All IsOffer os
      → provide_all d os ≡ ok d'
      → IsConstructed d'
  unfolding provide_all provide
  provide_all-IsConstructed d d' [] h a e = subst IsConstructed {x = d} (cc) h
  provide_all-IsConstructed d d' (o ∷ os) h a e =
      let (d1, one, rest) = bind_ok (provide d o) _ e in
      let made : record d { provides = BTreeMap.insert o.id o d.provides } ≡ d1 =
        ok_inj DescriptorError (passed_ok (BTreeMap.contains_key o.id d.provides) _ _ one) in
      provide_all-IsConstructed d1 d' os
        (subst IsConstructed made (record {
          own_id = h.own_id;
          own_source = h.own_source;
          offered = values-insert IsOffer o.id o d.provides a.0 h.offered;
          required = h.required;
          named = h.named;
        }))
        a.1 rest

  require_all-IsConstructed :
      (d d' : PluginDescriptor V R) (rs : List (CapabilityRequirement R))
      → IsConstructed d
      → All IsRequirement rs
      → require_all d rs ≡ ok d'
      → IsConstructed d'
  unfolding require_all require
  require_all-IsConstructed d d' [] h a e = subst IsConstructed {x = d} (cc) h
  require_all-IsConstructed d d' (r ∷ rs) h a e =
      let (d1, one, rest) = bind_ok (require d r) _ e in
      let made : record d { requires = BTreeMap.insert r.id r d.requires } ≡ d1 =
        ok_inj DescriptorError (passed_ok (BTreeMap.contains_key r.id d.requires) _ _ one) in
      require_all-IsConstructed d1 d' rs
        (subst IsConstructed made (record {
          own_id = h.own_id;
          own_source = h.own_source;
          offered = h.offered;
          required = values-insert IsRequirement r.id r d.requires a.0 h.required;
          named = h.named;
        }))
        a.1 rest

  conflict_with_all-IsConstructed :
      (d d' : PluginDescriptor V R) (cs : List PluginId)
      → IsConstructed d
      → All IsPluginId cs
      → conflict_with_all d cs ≡ ok d'
      → IsConstructed d'
  unfolding conflict_with_all conflict_with
  conflict_with_all-IsConstructed d d' [] h a e = subst IsConstructed {x = d} (cc) h
  conflict_with_all-IsConstructed d d' (c ∷ cs) h a e =
      let (d1, one, rest) = bind_ok (conflict_with d c) _ e in
      let made : record d { conflicts = BTreeSet.insert c d.conflicts } ≡ d1 =
        ok_inj DescriptorError
          (passed_ok (BTreeSet.contains c d.conflicts) _ _ (passed_ok (same c d.id) _ _ one)) in
      conflict_with_all-IsConstructed d1 d' cs
        (subst IsConstructed made (record {
          own_id = h.own_id;
          own_source = h.own_source;
          offered = h.offered;
          required = h.required;
          named = BTreeSet.All-insert IsPluginId c d.conflicts a.0 h.named;
        }))
        a.1 rest

  with_source-IsConstructed :
      (id : PluginId) (version : V) (source : Option PluginSource)
      → IsPluginId id
      → IsSource source
      → IsConstructed (with_source (new {R = R} id version) source)
  unfolding new sourced_from
  with_source-IsConstructed id version none h s = record {
    own_id = h;
    own_source = tt;
    offered = tt;
    required = tt;
    named = tt;
  }
  with_source-IsConstructed id version (some source) h s = record {
    own_id = h;
    own_source = s;
    offered = tt;
    required = tt;
    named = tt;
  }

  from_fields-IsConstructed :
      (w : Fields V R) (d : PluginDescriptor V R)
      → IsDecoded w
      → from_fields w ≡ ok d
      → IsConstructed d
  unfolding from_fields
  from_fields-IsConstructed w d h e =
      let (d1, first, rest) =
        bind_ok (provide_all (with_source (new w.id w.version) w.source) w.provides) _ e in
      let (d2, second, last) = bind_ok (require_all d1 w.requires) _ rest in
      let empty = with_source-IsConstructed w.id w.version w.source h.own_id h.own_source in
      let provided = provide_all-IsConstructed _ d1 w.provides empty h.offered first in
      let required = require_all-IsConstructed d1 d2 w.requires provided h.required second in
      conflict_with_all-IsConstructed d2 d w.conflicts required h.named last

  -- Whatever is decoded has identifiers and a source that passed their constructors.
  pub decoded-IsConstructed :
      (w : Wire V R) (fields : Fields V R) (d : PluginDescriptor V R)
      → decode_fields w ≡ ok fields
      → from_fields fields ≡ ok d
      → IsConstructed d
  decoded-IsConstructed w fields d e built =
      from_fields-IsConstructed fields d (decode_fields-IsDecoded w fields e) built
