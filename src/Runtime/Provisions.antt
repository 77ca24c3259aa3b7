-- ===== src/Runtime/Provisions.antt =====
-- Typed provisions (crates/kernox-runtime/src/capability.rs): the transaction that a plugin stages, the
-- registry that it is committed to, and the typed lookup. A marker type is given by its constants,
-- its `TypeId` and the `TypeId` of its interface. `V` stands for `semver::Version`, `A` for the shared
-- handles, `parse` for `Version::parse` and `version_eq` for the equality of versions.
pub mod Committed
pub mod RoundTrip
use kernox.Prelude.{
  ℕ, Bool, true, false, not, List, [], ◌∷◌, Option, none, some, ◌==◌, if◌then◌else◌, Result, ok,
  err, fault, ◌>>=◌, ◌>>◌, reject_if, map, head?,
}
use kernox.Order.{same}
use kernox.Order.Derive.{pair_ord}
use kernox.Collections.BTreeMap
use kernox.Id.{
  Bytes, PluginId, CapabilityId, plugin_id_ord, capability_id_ord, IdentifierError, Parsed, parsed,
  refused, capability_id,
}
use kernox.Descriptor
use kernox.Descriptor.{
  PluginDescriptor, CapabilityOffer, RequirementCardinality, exactly_one, zero_or_one, zero_or_more,
  one_or_more,
}
use kernox.Graph.{ResolvedGraph, ResolvedRequirement}

pub record Marker : Type 0 where
  pub id : Bytes
  pub version : Bytes
  pub marker_type : ℕ
  pub marker_name : Bytes
  pub interface_type : ℕ

pub record CapabilityContract (V : Type 0) : Type 0 where
  pub id : CapabilityId
  pub version : V
  pub marker_type : ℕ
  pub marker_name : Bytes

pub data ContractError : Type 0 where
  invalid_identifier : (value : Bytes) (source : IdentifierError) → ContractError
  invalid_version : (value reason : Bytes) → ContractError

pub data ProvisionError (V : Type 0) : Type 0 where
  invalid_contract : ContractError → ProvisionError V
  duplicate : (capability : CapabilityId) → ProvisionError V
  undeclared : (plugin : PluginId) (capability : CapabilityId) → ProvisionError V
  missing : (plugin : PluginId) (capability : CapabilityId) → ProvisionError V
  version_mismatch :
      (plugin : PluginId) (capability : CapabilityId) (declared actual : V) → ProvisionError V

pub data AccessError : Type 0 where
  application_unavailable : AccessError
  access_invalid_contract : ContractError → AccessError
  access_undeclared : (consumer : PluginId) (capability : CapabilityId) → AccessError
  cardinality_mismatch :
      (consumer : PluginId) (capability : CapabilityId) (cardinality : RequirementCardinality)
      → AccessError
  missing_provision : (provider : PluginId) (capability : CapabilityId) → AccessError
  type_mismatch :
      (provider : PluginId) (capability : CapabilityId) (requested actual : Bytes) → AccessError

-- A boxed `Arc<C::Interface>` with the type that a downcast compares.
pub record Boxed (A : Type 0) : Type 0 where
  pub interface_type : ℕ
  pub value : A

-- a staged and a committed provision
pub record Provision (V A : Type 0) : Type 0 where
  pub contract : CapabilityContract V
  pub boxed : Boxed A

abbrev pub ProvisionSet : Type 0 → Type 0 → Type 0
ProvisionSet V A = List (CapabilityId × Provision V A)

abbrev pub Registry : Type 0 → Type 0 → Type 0
Registry V A = List ((PluginId × CapabilityId) × Provision V A)

-- `map_err` on the `?` of a contract
abbrev pub map_err : {E F B : Type 0} → (E → F) → Result E B → Result F B
map_err f (ok b) = ok b
map_err f (err e) = err (f e)
map_err f fault = fault

module _ {V : Type 0} (parse : Bytes → Result Bytes V) where
  abbrev with_version :
      Marker → CapabilityId → Result Bytes V → Result ContractError (CapabilityContract V)
  with_version m id (ok version) = ok (record {
    id = id;
    version = version;
    marker_type = m.marker_type;
    marker_name = m.marker_name;
  })
  with_version m id (err reason) = err (invalid_version m.version reason)
  with_version m id fault = fault

  abbrev with_id : Marker → Parsed CapabilityId → Result ContractError (CapabilityContract V)
  with_id m (parsed id) = with_version m id (parse m.version)
  with_id m (refused source) = err (invalid_identifier m.id source)

  -- `CapabilityContract::of`
  unfoldable pub contract_of : Marker → Result ContractError (CapabilityContract V)
  contract_of m = with_id m (capability_id m.id)

  -- `ProvisionSet::provide`
  unfoldable pub stage :
      {A : Type 0} → Marker → A → ProvisionSet V A → Result (ProvisionError V) (ProvisionSet V A)
  unfolding contract_of
  stage m value staged = do
    contract ← map_err invalid_contract (contract_of m)
    reject_if (BTreeMap.contains_key contract.id staged) (duplicate contract.id)
    ok (
        BTreeMap.insert contract.id
          (record {
            contract = contract;
            boxed = record { interface_type = m.interface_type; value = value };
          })
          staged)

-- `provides().find(|offer| offer.id() == capability)`
unfoldable pub find_offer :
    {V : Type 0} → CapabilityId → List (CapabilityOffer V) → Option (CapabilityOffer V)
find_offer capability [] = none
find_offer capability (o ∷ os) = if same o.id capability then some o else find_offer capability os

module _ {V A : Type 0} where
  -- the loop over the declared offers
  unfoldable pub check_offered :
      PluginId → ProvisionSet V A → List (CapabilityOffer V) → Result (ProvisionError V) (Unit {0})
  check_offered plugin staged [] = ok tt
  check_offered plugin staged (o ∷ os) = do
    reject_if (not (BTreeMap.contains_key o.id staged)) (missing plugin o.id)
    check_offered plugin staged os

  unfoldable pub publish : PluginId → ProvisionSet V A → Registry V A → Registry V A
  publish plugin [] registry = registry
  publish plugin ((capability, provision) ∷ staged) registry =
      publish plugin staged (BTreeMap.insert (plugin, capability) provision registry)

module _ {V A : Type 0} (version_eq : V → V → Bool) where
  abbrev pub check_offer :
      PluginId
      → CapabilityId
      → Provision V A
      → Option (CapabilityOffer V)
      → Result (ProvisionError V) (Unit {0})
  check_offer plugin capability provision none = err (undeclared plugin capability)
  check_offer plugin capability provision (some o) =
      reject_if (not (version_eq o.version provision.contract.version))
        (version_mismatch plugin capability o.version provision.contract.version)

  -- the loop over the staged provisions
  unfoldable pub check_staged :
      PluginId → List (CapabilityOffer V) → ProvisionSet V A → Result (ProvisionError V) (Unit {0})
  check_staged plugin offers [] = ok tt
  check_staged plugin offers ((capability, provision) ∷ staged) = do
    check_offer plugin capability provision (find_offer capability offers)
    check_staged plugin offers staged

  -- `Registry::commit`
  unfoldable pub commit :
      {R : Type 0}
      → PluginId
      → PluginDescriptor V R
      → ProvisionSet V A
      → Registry V A
      → Result (ProvisionError V) (Registry V A)
  unfolding check_staged check_offered publish find_offer
  commit plugin d staged registry = do
    check_staged plugin (BTreeMap.values d.provides) staged
    check_offered plugin staged (BTreeMap.values d.provides)
    ok (publish plugin staged registry)

module _ {V A : Type 0} where
  abbrev pub mismatch : PluginId → CapabilityContract V → Provision V A → AccessError
  mismatch provider contract provision =
      type_mismatch provider contract.id contract.marker_name provision.contract.marker_name

  abbrev pub open_provision :
      Marker → PluginId → CapabilityContract V → Option (Provision V A) → Result AccessError A
  open_provision m provider contract none = err (missing_provision provider contract.id)
  open_provision m provider contract (some p) =
      if not (p.contract.marker_type == contract.marker_type)
      then err (mismatch provider contract p)
      else if p.boxed.interface_type == m.interface_type
      then ok p.boxed.value
      else err (mismatch provider contract p)

  -- `Registry::get::<C>`, where `m` is `C`
  unfoldable pub lookup :
      Marker → Registry V A → PluginId → CapabilityContract V → Result AccessError A
  lookup m registry provider contract =
      open_provision m provider contract (BTreeMap.get (provider, contract.id) registry)

  -- `root_capability`
  unfoldable pub root_capability :
      (Bytes → Result Bytes V) → Marker → Registry V A → PluginId → Result AccessError A
  unfolding contract_of lookup
  root_capability parse m registry provider = do
    contract ← map_err access_invalid_contract (contract_of parse m)
    lookup m registry provider contract
