-- ===== src/Descriptor/Wire.antt =====
-- The serialized form of a descriptor (crates/kernox-core/src/descriptor.rs): `Serialize` writes the
-- values of the maps, and `Deserialize` decodes the identifiers and the source by their constructors and
-- builds the descriptor by its own operations. The format itself, JSON, belongs to serde; here the form is the
-- record of its fields, with identifiers and sources as text, and with versions decoded already.
pub mod RoundTrip
pub mod Decoded
pub mod Constructed
pub mod Encoded
use kernox.Prelude.{
  ◌≡◌, refl, sym, subst, ap, ◌∙◌, List, [], ◌∷◌, ◌++◌, map, Option, none, some, All, Result, fault,
  ok, err, ◌>>=◌, bind_ok, false, inl, inr, ◌↔◌, ⊎_elim, or_false, arith,
}
use mathlib.Core.List
use mathlib.Core.Option
use kernox.Order.{same, same_iff}
use kernox.Collections.BTreeSet
use kernox.Collections.BTreeMap
use kernox.Id.{
  Bytes, PluginId, CapabilityId, plugin_id_ord, capability_id_ord, IdentifierError, Parsed, parsed,
  refused, plugin_id, capability_id,
}
use kernox.Text.{Chars}
use kernox.Descriptor.Source.{source_new}
use kernox.Descriptor.{
  RequirementCardinality, PluginSource, CapabilityOffer, CapabilityRequirement, PluginDescriptor,
  DescriptorError, new, sourced_from, provide, require, conflict_with,
}
use kernox.Descriptor.Valid.{
  IsValid, new-IsValid, sourced_from-IsValid, provide_lem, require_lem, conflict_with_lem,
}

-- the fields of the serialized form once they are decoded
pub record Fields (V R : Type 0) : Type 0 where
  pub id : PluginId
  pub version : V
  pub source : Option PluginSource
  pub provides : List (CapabilityOffer V)
  pub requires : List (CapabilityRequirement R)
  pub conflicts : List PluginId

module _ {V R : Type 0} where
  -- `Serialize::serialize`
  pub to_fields : PluginDescriptor V R → Fields V R
  to_fields d = record {
    id = d.id;
    version = d.version;
    source = d.source;
    provides = BTreeMap.values d.provides;
    requires = BTreeMap.values d.requires;
    conflicts = d.conflicts;
  }

  pub provide_all :
      PluginDescriptor V R
      → List (CapabilityOffer V)
      → Result DescriptorError (PluginDescriptor V R)
  provide_all d [] = ok d
  provide_all d (o ∷ os) = do d' ← provide d o; provide_all d' os

  pub require_all :
      PluginDescriptor V R
      → List (CapabilityRequirement R)
      → Result DescriptorError (PluginDescriptor V R)
  require_all d [] = ok d
  require_all d (r ∷ rs) = do d' ← require d r; require_all d' rs

  pub conflict_with_all :
      PluginDescriptor V R → List PluginId → Result DescriptorError (PluginDescriptor V R)
  conflict_with_all d [] = ok d
  conflict_with_all d (c ∷ cs) = do d' ← conflict_with d c; conflict_with_all d' cs

  abbrev pub with_source : PluginDescriptor V R → Option PluginSource → PluginDescriptor V R
  with_source d none = d
  with_source d (some source) = sourced_from d source

  -- `Deserialize::deserialize`, once the fields are decoded
  pub from_fields : Fields V R → Result DescriptorError (PluginDescriptor V R)
  unfolding provide_all require_all conflict_with_all
  from_fields w = do
    d1 ← provide_all (with_source (new w.id w.version) w.source) w.provides
    d2 ← require_all d1 w.requires
    conflict_with_all d2 w.conflicts

pub record WireOffer (V : Type 0) : Type 0 where
  pub id : Bytes
  pub version : V

pub record WireRequirement (R : Type 0) : Type 0 where
  pub id : Bytes
  pub version : R
  pub cardinality : RequirementCardinality

pub record WireSource : Type 0 where
  pub package_name : Chars
  pub repository : Option Chars

pub record Wire (V R : Type 0) : Type 0 where
  pub id : Bytes
  pub version : V
  pub source : Option WireSource
  pub provides : List (WireOffer V)
  pub requires : List (WireRequirement R)
  pub conflicts : List Bytes

-- Why a serialized form is refused; serde keeps the text of these errors.
pub data DecodeError : Type 0 where
  bad_identifier : IdentifierError → DecodeError
  bad_descriptor : DescriptorError → DecodeError

abbrev pub decoded : {A : Type 0} → Parsed A → Result DecodeError A
decoded (parsed a) = ok a
decoded (refused e) = err (bad_identifier e)

abbrev pub described : {A : Type 0} → Result DescriptorError A → Result DecodeError A
described (ok a) = ok a
described (err e) = err (bad_descriptor e)
described fault = fault

-- `PluginSource::deserialize`, of a source that may be absent
abbrev pub decode_source : Option WireSource → Result DecodeError (Option PluginSource)
decode_source none = ok none
decode_source (some w) =
    described (source_new w.package_name w.repository) >>= λ source. ok (some source)

abbrev pub decode_offer : {V : Type 0} → WireOffer V → Result DecodeError (CapabilityOffer V)
decode_offer w = decoded (capability_id w.id) >>= λ id. ok (record { id = id; version = w.version })

abbrev pub decode_requirement :
    {R : Type 0} → WireRequirement R → Result DecodeError (CapabilityRequirement R)
decode_requirement w = decoded (capability_id w.id) >>= λ id.
    ok (record { id = id; version = w.version; cardinality = w.cardinality })

abbrev pub decode_conflict : Bytes → Result DecodeError PluginId
decode_conflict id = decoded (plugin_id id)

-- the elements of a sequence in their order
unfoldable pub decode_list :
    {X A : Type 0} → (X → Result DecodeError A) → List X → Result DecodeError (List A)
decode_list decode [] = ok []
decode_list decode (x ∷ xs) = do a ← decode x; rest ← decode_list decode xs; ok (a ∷ rest)

abbrev pub encode_source : PluginSource → WireSource
encode_source s = record { package_name = s.package_name; repository = s.repository }

module _ {V R : Type 0} where
  pub to_wire : PluginDescriptor V R → Wire V R
  unfolding to_fields
  to_wire d = record {
    id = d.id.text;
    version = d.version;
    source = Option.map encode_source d.source;
    provides = map (λ o. record { id = o.id.text; version = o.version }) (to_fields d).provides;
    requires =
        map (λ r. record { id = r.id.text; version = r.version; cardinality = r.cardinality })
          (to_fields d).requires;
    conflicts = map (λ c. c.text) (to_fields d).conflicts;
  }

  unfoldable pub decode_fields : Wire V R → Result DecodeError (Fields V R)
  unfolding decode_list
  decode_fields w = do
    id ← decoded (plugin_id w.id)
    source ← decode_source w.source
    provides ← decode_list decode_offer w.provides
    requires ← decode_list decode_requirement w.requires
    conflicts ← decode_list decode_conflict w.conflicts
    ok (record {
      id = id;
      version = w.version;
      source = source;
      provides = provides;
      requires = requires;
      conflicts = conflicts;
    })

  -- `Deserialize::deserialize`
  unfoldable pub from_wire : Wire V R → Result DecodeError (PluginDescriptor V R)
  unfolding decode_fields from_fields
  from_wire w = decode_fields w >>= λ fields. described (from_fields fields)
