-- ===== src/Runtime/Access.antt =====
-- The typed access of a plugin that initializes (crates/kernox-runtime/src/capability.rs):
-- `InitializationContext::require`, `optional` and `all`. A `Marker` stands for the type parameter.
pub mod Granted
use kernox.Prelude.{
  ◌≡◌, refl, sym, ap, ◌∙◌, ◌⊎◌, inl, inr, ◌↔◌, ◌≢◌, Bool, true, false, not, List, [], ◌∷◌, map,
  Memᴰ, mem_head, mem_tail, Option, none, some, head?, length, All, Result, ok, err, fault, ◌>>=◌,
  ◌>>◌, reject_if, bind_ok, reject_ok, arith, Bool-cases, Option-cases,
}
use kernox.Order.Derive.{pair_ord}
use kernox.Collections.BTreeSet
use kernox.Id.{Bytes, PluginId, CapabilityId, plugin_id_ord, capability_id_ord}
use kernox.Descriptor.{RequirementCardinality, exactly_one, zero_or_one, zero_or_more, one_or_more}
use kernox.Graph.{ResolvedGraph, ResolvedRequirement}
use kernox.Graph.Requirement
use kernox.Graph.Requirement.{requirement_iff}
use kernox.Graph.Resolve.{requirement_key}
use kernox.Runtime.Provisions.{
  Marker, CapabilityContract, ContractError, AccessError, access_invalid_contract,
  access_undeclared, cardinality_mismatch, map_err, contract_of, lookup,
}
use kernox.Runtime.Rollback.{InitializationContext}

abbrev is_exactly_one : RequirementCardinality → Bool
is_exactly_one exactly_one = true
is_exactly_one _ = false

abbrev is_zero_or_one : RequirementCardinality → Bool
is_zero_or_one zero_or_one = true
is_zero_or_one _ = false

abbrev is_multiple : RequirementCardinality → Bool
is_multiple zero_or_more = true
is_multiple one_or_more = true
is_multiple _ = false

abbrev pub declared :
    PluginId → CapabilityId → Option ResolvedRequirement → Result AccessError ResolvedRequirement
declared consumer capability none = err (access_undeclared consumer capability)
declared consumer capability (some r) = ok r

module _ {V R A : Type 0} where
  -- `self.requirement`
  unfoldable pub requirement :
      InitializationContext V R A → CapabilityId → Result AccessError ResolvedRequirement
  requirement c capability =
      declared c.consumer capability (Requirement.requirement c.graph c.consumer capability)

  -- `self.cardinality_error`
  abbrev pub cardinality_error : InitializationContext V R A → ResolvedRequirement → AccessError
  cardinality_error c r = cardinality_mismatch c.consumer r.capability r.cardinality

  -- `providers[0]`, which panics on an empty list
  abbrev get_first :
      Marker
      → InitializationContext V R A
      → CapabilityContract V
      → List PluginId
      → Result AccessError A
  get_first m c contract [] = fault
  get_first m c contract (p ∷ ps) = lookup m c.registry p contract

  abbrev pub get_option :
      Marker
      → InitializationContext V R A
      → CapabilityContract V
      → List PluginId
      → Result AccessError (Option A)
  get_option m c contract [] = ok none
  get_option m c contract (p ∷ ps) = do a ← lookup m c.registry p contract; ok (some a)

  -- `providers.iter().map(..).collect()`
  pub get_each :
      Marker
      → InitializationContext V R A
      → CapabilityContract V
      → List PluginId
      → Result AccessError (List A)
  get_each m c contract [] = ok []
  get_each m c contract (p ∷ ps) = do
    a ← lookup m c.registry p contract
    rest ← get_each m c contract ps
    ok (a ∷ rest)

  module _ (parse : Bytes → Result Bytes V) where
    unfoldable pub require : Marker → InitializationContext V R A → Result AccessError A
    unfolding requirement
    require m c = do
      contract ← map_err access_invalid_contract (contract_of parse m)
      r ← requirement c contract.id
      reject_if (not (is_exactly_one r.cardinality)) (cardinality_error c r)
      get_first m c contract r.providers

    pub optional : Marker → InitializationContext V R A → Result AccessError (Option A)
    unfolding requirement
    optional m c = do
      contract ← map_err access_invalid_contract (contract_of parse m)
      r ← requirement c contract.id
      reject_if (not (is_zero_or_one r.cardinality)) (cardinality_error c r)
      get_option m c contract r.providers

    pub all : Marker → InitializationContext V R A → Result AccessError (List A)
    unfolding requirement get_each
    all m c = do
      contract ← map_err access_invalid_contract (contract_of parse m)
      r ← requirement c contract.id
      reject_if (not (is_multiple r.cardinality)) (cardinality_error c r)
      get_each m c contract r.providers
