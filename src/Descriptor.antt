-- ===== src/Descriptor.antt =====
-- Plugin descriptors and bindings (crates/kernox-core/src/descriptor.rs). `V` stands for
-- `semver::Version` and `R` for `semver::VersionReq`.
pub mod Valid
pub mod Source
pub mod Wire
use kernox.Prelude.{
  ℕ, Bool, true, false, List, [], ◌∷◌, Option, none, some, if◌then◌else◌, String, Result, ok, err,
}
use kernox.Order.{Ord, same}
use kernox.Collections.BTreeSet
use kernox.Collections.BTreeMap
use kernox.Text.{Chars}
use kernox.Id.{PluginId, CapabilityId, plugin_id_ord, capability_id_ord}

pub record PluginSource : Type 0 where
  pub package_name : Chars
  pub repository : Option Chars

pub record CapabilityOffer (V : Type 0) : Type 0 where
  pub id : CapabilityId
  pub version : V

pub data RequirementCardinality : Type 0 where
  exactly_one zero_or_one zero_or_more one_or_more : RequirementCardinality

abbrev pub is_bindable : RequirementCardinality → Bool
is_bindable exactly_one = true
is_bindable zero_or_one = true
is_bindable zero_or_more = false
is_bindable one_or_more = false

abbrev pub permits_zero : RequirementCardinality → Bool
permits_zero exactly_one = false
permits_zero zero_or_one = true
permits_zero zero_or_more = true
permits_zero one_or_more = false

pub record CapabilityRequirement (R : Type 0) : Type 0 where
  pub id : CapabilityId
  pub version : R
  pub cardinality : RequirementCardinality

pub record PluginDescriptor (V R : Type 0) : Type 0 where
  pub id : PluginId
  pub version : V
  pub source : Option PluginSource
  pub provides : List (CapabilityId × CapabilityOffer V)
  pub requires : List (CapabilityId × CapabilityRequirement R)
  pub conflicts : List PluginId

pub data DescriptorError : Type 0 where
  duplicate_offer : (plugin : PluginId) (capability : CapabilityId) → DescriptorError
  duplicate_requirement : (plugin : PluginId) (capability : CapabilityId) → DescriptorError
  duplicate_conflict : (plugin conflict : PluginId) → DescriptorError
  self_conflict : (plugin : PluginId) → DescriptorError
  invalid_source : (field reason : String) → DescriptorError

pub record Binding : Type 0 where
  pub consumer : PluginId
  pub capability : CapabilityId
  pub provider : PluginId

module _ {V R : Type 0} where
  unfoldable pub new : PluginId → V → PluginDescriptor V R
  new id version = record {
    id = id;
    version = version;
    source = none;
    provides = [];
    requires = [];
    conflicts = [];
  }

  pub sourced_from : PluginDescriptor V R → PluginSource → PluginDescriptor V R
  sourced_from d source = record d { source = some source }

  -- `BTreeMap::insert` says by its result whether the key was there.
  pub provide :
      PluginDescriptor V R → CapabilityOffer V → Result DescriptorError (PluginDescriptor V R)
  provide d offer =
      if BTreeMap.contains_key offer.id d.provides
      then err (duplicate_offer d.id offer.id)
      else ok (record d { provides = BTreeMap.insert offer.id offer d.provides })

  unfoldable pub require :
      PluginDescriptor V R → CapabilityRequirement R → Result DescriptorError (PluginDescriptor V R)
  require d requirement =
      if BTreeMap.contains_key requirement.id d.requires
      then err (duplicate_requirement d.id requirement.id)
      else ok (record d { requires = BTreeMap.insert requirement.id requirement d.requires })

  pub conflict_with :
      PluginDescriptor V R → PluginId → Result DescriptorError (PluginDescriptor V R)
  conflict_with d conflict =
      if same conflict d.id
      then err (self_conflict d.id)
      else if BTreeSet.contains conflict d.conflicts
      then err (duplicate_conflict d.id conflict)
      else ok (record d { conflicts = BTreeSet.insert conflict d.conflicts })

  -- `descriptor.offer(capability)`
  unfoldable pub offer : PluginDescriptor V R → CapabilityId → Option (CapabilityOffer V)
  offer d capability = BTreeMap.get capability d.provides
