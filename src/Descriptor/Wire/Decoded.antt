-- ===== src/Descriptor/Wire/Decoded.antt =====
-- What decoding establishes of the fields of a serialized descriptor (crates/kernox-core/src/descriptor.rs and id.rs).
use kernox.Prelude.{
  ◌≡◌, refl, sym, subst, List, [], ◌∷◌, Option, none, some, All, Result, ok, err, fault, bind_ok,
}
use kernox.Id.{
  PluginId, CapabilityId, Bytes, Parsed, parsed, refused, plugin_id, capability_id, plugin_id_ord,
  capability_id_ord, validate_identifier, Validation, valid, invalid, checked,
}
use kernox.Descriptor.{PluginSource, CapabilityOffer, CapabilityRequirement, DescriptorError}
use kernox.Descriptor.Source.{source_new, source_new_iff}
use kernox.Descriptor.Wire.{
  Fields, Wire, WireSource, WireOffer, WireRequirement, DecodeError, decoded, described,
  decode_source, decode_offer, decode_requirement, decode_conflict, decode_list, decode_fields,
}

-- the source of a descriptor passes its constructor
abbrev pub IsSource : Option PluginSource → Type 0
IsSource none = Unit
IsSource (some s) = source_new s.package_name s.repository ≡ ok s

abbrev pub IsPluginId : PluginId → Type 0
IsPluginId p = plugin_id p.text ≡ parsed p

abbrev pub IsOffer : {V : Type 0} → CapabilityOffer V → Type 0
IsOffer o = capability_id o.id.text ≡ parsed o.id

abbrev pub IsRequirement : {R : Type 0} → CapabilityRequirement R → Type 0
IsRequirement r = capability_id r.id.text ≡ parsed r.id

pub described_ok :
    {A : Type 0} (m : Result DescriptorError A) (a : A) → described m ≡ ok a → m ≡ ok a
described_ok (ok b) a e = cc
described_ok (err x) a e = absurd (cc)
described_ok fault a e = absurd (cc)

decoded_ok : {A : Type 0} (m : Parsed A) (a : A) → decoded m ≡ ok a → m ≡ parsed a
decoded_ok (parsed b) a e = cc
decoded_ok (refused x) a e = absurd (cc)

-- An identifier keeps the text it was parsed from.
checked_parsed :
    {A : Type 0} (v : Validation) (a b : A) → checked v a ≡ parsed b → (v ≡ valid) × (a ≡ b)
checked_parsed valid a b e = (refl, cc)
checked_parsed (invalid x) a b e = absurd (cc)

plugin_id_parsed : (b : Bytes) (p : PluginId) → plugin_id b ≡ parsed p → IsPluginId p
unfolding plugin_id
plugin_id_parsed b p e =
    let (passed, is) = checked_parsed (validate_identifier b) _ p e in
    subst IsPluginId is (rw passed refl)

capability_id_parsed :
    (b : Bytes) (c : CapabilityId) → capability_id b ≡ parsed c → capability_id c.text ≡ parsed c
unfolding capability_id
capability_id_parsed b c e =
    let (passed, is) = checked_parsed (validate_identifier b) _ c e in
    subst (λ c. capability_id c.text ≡ parsed c) is (rw passed refl)

decode_list-All :
    {X A : Type 0} (P : A → Type 0) (decode : X → Result DecodeError A)
    → ((x : X) (a : A) → decode x ≡ ok a → P a)
    → (xs : List X) (as' : List A) → decode_list decode xs ≡ ok as'
    → All P as'
unfolding decode_list
decode_list-All P decode each [] as' e = let nothing : [] ≡ as' = cc in subst (All P) nothing tt
decode_list-All P decode each (x ∷ xs) as' e =
    let (a, one, more) = bind_ok (decode x) _ e in
    let (rest, others, last) = bind_ok (decode_list decode xs) _ more in
    let all : a ∷ rest ≡ as' = cc in
    subst (All P) all (each x a one, decode_list-All P decode each xs rest others)

decode_source-IsSource :
    (w : Option WireSource) (s : Option PluginSource) → decode_source w ≡ ok s → IsSource s
decode_source-IsSource none s e = let absent : none ≡ s = cc in subst IsSource absent tt
decode_source-IsSource (some w) s e =
    let (source, one, last) = bind_ok (described (source_new w.package_name w.repository)) _ e in
    let made = described_ok _ source one in
    let (is, _, _) = (source_new_iff w.package_name w.repository source).0 made in
    let present : some source ≡ s = cc in
    subst IsSource present
      (subst (λ t. source_new t.package_name t.repository ≡ ok source) (sym is) made)

decode_offer-IsOffer :
    {V : Type 0} (w : WireOffer V) (o : CapabilityOffer V) → decode_offer w ≡ ok o → IsOffer o
decode_offer-IsOffer w o e =
    let (id, one, last) = bind_ok (decoded (capability_id w.id)) _ e in
    let made : record { id = id; version = w.version } ≡ o = cc in
    subst IsOffer made (capability_id_parsed w.id id (decoded_ok _ id one))

decode_requirement-IsRequirement :
    {R : Type 0} (w : WireRequirement R) (r : CapabilityRequirement R)
    → decode_requirement w ≡ ok r
    → IsRequirement r
decode_requirement-IsRequirement w r e =
    let (id, one, last) = bind_ok (decoded (capability_id w.id)) _ e in
    let made : record { id = id; version = w.version; cardinality = w.cardinality } ≡ r = cc in
    subst IsRequirement made (capability_id_parsed w.id id (decoded_ok _ id one))

module _ {V R : Type 0} where
  -- what decoding establishes of the fields
  pub record IsDecoded (w : Fields V R) : Type 0 where
    pub own_id : IsPluginId w.id
    pub own_source : IsSource w.source
    pub offered : All IsOffer w.provides
    pub required : All IsRequirement w.requires
    pub named : All IsPluginId w.conflicts

  pub decode_fields-IsDecoded :
      (w : Wire V R) (fields : Fields V R) → decode_fields w ≡ ok fields → IsDecoded fields
  unfolding decode_fields
  decode_fields-IsDecoded w fields e =
      let (id, e1, r1) = bind_ok (decoded (plugin_id w.id)) _ e in
      let (source, e2, r2) = bind_ok (decode_source w.source) _ r1 in
      let (provides, e3, r3) = bind_ok (decode_list decode_offer w.provides) _ r2 in
      let (requires, e4, r4) = bind_ok (decode_list decode_requirement w.requires) _ r3 in
      let (conflicts, e5, r5) = bind_ok (decode_list decode_conflict w.conflicts) _ r4 in
      let made : record {
        id = id;
        version = w.version;
        source = source;
        provides = provides;
        requires = requires;
        conflicts = conflicts;
      }
          ≡ fields =
        cc in
      subst IsDecoded made (record {
        own_id = plugin_id_parsed w.id id (decoded_ok _ id e1);
        own_source = decode_source-IsSource w.source source e2;
        offered = decode_list-All IsOffer decode_offer decode_offer-IsOffer w.provides provides e3;
        required =
            decode_list-All IsRequirement decode_requirement decode_requirement-IsRequirement
              w.requires requires e4;
        named =
            decode_list-All IsPluginId decode_conflict
              (λ b p one. plugin_id_parsed b p (decoded_ok _ p one)) w.conflicts conflicts e5;
      })
