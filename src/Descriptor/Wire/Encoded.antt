-- ===== src/Descriptor/Wire/Encoded.antt =====
-- Decoding the serialized form of a descriptor (crates/kernox-core/src/descriptor.rs and id.rs).
use kernox.Prelude.{
  ◌≡◌, refl, ap, List, [], ◌∷◌, map, Option, none, some, All, All-map, Result, ok, bind_ok,
}
use mathlib.Core.Option
use kernox.Collections.BTreeMap
use kernox.Descriptor.{PluginSource, PluginDescriptor}
use kernox.Descriptor.Valid.{IsValid}
use kernox.Descriptor.Wire.{
  Wire, DecodeError, described, decode_source, decode_offer, decode_requirement, decode_conflict,
  decode_list, encode_source, to_fields, from_fields, to_wire, from_wire, decode_fields,
}
use kernox.Descriptor.Wire.Decoded.{IsSource, described_ok}
use kernox.Descriptor.Wire.Constructed.{IsConstructed, decoded-IsConstructed}
use kernox.Descriptor.Wire.RoundTrip.{from_fields-IsValid, fields_round_trip}

decode_list-map :
    {X A : Type 0} (encode : A → X) (decode : X → Result DecodeError A) (xs : List A)
    → All (λ a. decode (encode a) ≡ ok a) xs
    → decode_list decode (map encode xs) ≡ ok xs
unfolding decode_list
decode_list-map encode decode [] h = refl
decode_list-map encode decode (a ∷ xs) h =
    rw (decode_list, h.0, decode_list-map encode decode xs h.1) refl

decode_source-map :
    (s : Option PluginSource) → IsSource s → decode_source (Option.map encode_source s) ≡ ok s
decode_source-map none h = refl
decode_source-map (some s) h = rw h refl

module _ {V R : Type 0} where
  -- Every valid descriptor whose identifiers and source come from their constructors survives its
  -- serialized form, and whatever the serialized form, what is decoded from it is a valid descriptor
  -- whose identifiers and source pass their constructors.
  pub wire_round_trip :
      (d : PluginDescriptor V R) (w : Wire V R)
      → (IsValid d → IsConstructed d → from_wire (to_wire d) ≡ ok d)
        × (from_wire w ≡ ok d → IsValid d × IsConstructed d)
  unfolding from_wire to_wire decode_fields to_fields
  wire_round_trip d w = (
    λ valid made.
        let offers =
          decode_list-map (λ o. record { id = o.id.text; version = o.version }) decode_offer
            (BTreeMap.values d.provides) (All-map _ _ _ (λ o e. rw e refl) made.offered) in
        let requirements =
          decode_list-map
            (λ r. record { id = r.id.text; version = r.version; cardinality = r.cardinality })
            decode_requirement (BTreeMap.values d.requires)
            (All-map _ _ _ (λ r e. rw e refl) made.required) in
        let conflicts =
          decode_list-map (λ c. c.text) decode_conflict d.conflicts
            (All-map _ _ _ (λ c e. rw e refl) made.named) in
        rw
          (made.own_id, decode_source-map d.source made.own_source, offers, requirements, conflicts)
          (ap described ((fields_round_trip d).1 valid)),
    λ e.
        let (fields, first, last) = bind_ok (decode_fields w) _ e in
        let built = described_ok (from_fields fields) d last in
        (from_fields-IsValid fields d built, decoded-IsConstructed w fields d first built),
  )
