-- ===== src/Samples/Access.antt =====
-- The plugin `a` of the sample composition asks for the clock while it initializes.
use kernox.Prelude.{ℕ, ◌≡◌, ◌⊎◌, refl, [], ◌∷◌, ok, err}
use kernox.Id.{
  capability_id, validate_identifier, validate_segments, validate_segment, validate_tail,
  ends_with_hyphen, split, is_ascii,
}
use kernox.Graph.{ResolvedRequirement}
use kernox.Graph.Requirement
use kernox.Graph.Requirement.{requirement_iff}
use kernox.Collections.BinarySearch.{binary_search_by, narrow}
use kernox.Runtime.Scope.{application}
use kernox.Runtime.Provisions.{CapabilityContract, access_undeclared, contract_of, lookup}
use kernox.Runtime.Rollback.{InitializationContext}
use kernox.Runtime.Access.{require, optional, all, requirement}
use kernox.Runtime.Access.Granted.{IsDeclared, Grants, access_granted}
use kernox.Samples.{Version, caret, plugin, capability, shop, shop_graph, program}
use kernox.Samples.Resolution.{resolve-shop, shop-IsValid}
use kernox.Samples.Runtime.{clock_marker, parse_one, clock_registry}

abbrev context : InitializationContext Version Version ℕ
context = record {
  consumer = plugin b'a';
  graph = shop_graph;
  registry = clock_registry;
  scope = application 1;
}

abbrev clock_contract : CapabilityContract Version
clock_contract = record {
  id = capability b'k';
  version = (1, 2);
  marker_type = b'k';
  marker_name = b'k' ∷ [];
}

contract_of-clock_marker : contract_of parse_one clock_marker ≡ ok clock_contract
unfolding contract_of capability_id validate_identifier validate_segments validate_segment
    validate_tail ends_with_hyphen split is_ascii
contract_of-clock_marker = refl

require-clock : require parse_one clock_marker context ≡ ok b'k'
unfolding program contract_of capability_id validate_identifier validate_segments validate_segment
    validate_tail ends_with_hyphen split is_ascii require requirement Requirement.requirement
    binary_search_by narrow lookup
require-clock = refl

access_granted_example :
    (((r : ResolvedRequirement) → IsDeclared parse_one clock_marker context clock_contract r → ⊥)
      × (require parse_one clock_marker context
          ≡ err (access_undeclared (plugin b'a') (capability b'k')))
      × (optional parse_one clock_marker context
          ≡ err (access_undeclared (plugin b'a') (capability b'k')))
      × (all parse_one clock_marker context
          ≡ err (access_undeclared (plugin b'a') (capability b'k'))))
    ⊎ ((r : ResolvedRequirement) × IsDeclared parse_one clock_marker context clock_contract r
        × Grants parse_one clock_marker context clock_contract r r.cardinality)
access_granted_example =
    access_granted parse_one clock_marker context clock_contract caret shop resolve-shop
      shop-IsValid contract_of-clock_marker
