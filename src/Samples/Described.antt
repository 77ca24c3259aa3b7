-- ===== src/Samples/Described.antt =====
-- Descriptors with sources: encoded, decoded, and attributed.
use kernox.Prelude.{◌≡◌, ◌↔◌, ◌≤◌, refl, [], ◌∷◌, some, none, err, length, ok, ℕ}
use kernox.Collections.BTreeSet
use kernox.Collections.BTreeMap
use kernox.Order.Derive.{nat_ord, list_ord}
use kernox.Descriptor.{PluginDescriptor, PluginSource}
use kernox.Descriptor.Valid.{IsValid}
use kernox.Descriptor.Source.{source_new, source_new_iff, IsBounded, IsBoundedOption}
use kernox.Descriptor.Wire.{Wire, to_wire, from_wire, decode_fields, bad_identifier}
use kernox.Descriptor.Wire.Constructed.{IsConstructed}
use kernox.Descriptor.Wire.Encoded.{wire_round_trip}
use kernox.Id.{
  plugin_id, capability_id, validate_identifier, validate_segments, validate_segment, validate_tail,
  ends_with_hyphen, split, is_ascii, empty,
}
use kernox.Graph.{ResolvedGraph}
use kernox.Attribution.{AttributionReport, verify_graph_attribution, collect_packages}
use kernox.Attribution.Verified.{Attributed, verify_graph_attribution_iff}
use kernox.Samples.{Version, plugin, clock, shop_graph}

abbrev source_of : ℕ → PluginSource
source_of c = record { package_name = c ∷ []; repository = some (b'r' ∷ []) }

source_new_iff_example : (source_new (b'k' ∷ []) (some (b'r' ∷ [])) ≡ ok (source_of b'k')) ↔ (
    (source_of b'k' ≡ record { package_name = b'k' ∷ []; repository = some (b'r' ∷ []) })
    × IsBounded 255 (b'k' ∷ [])
    × IsBoundedOption 2_048 (some (b'r' ∷ [])))
source_new_iff_example = source_new_iff (b'k' ∷ []) (some (b'r' ∷ [])) (source_of b'k')

abbrev blank_wire : Wire Version Version
blank_wire = record {
  id = b'b' ∷ [];
  version = (1, 0);
  source = none;
  provides = [];
  requires = [];
  conflicts = [];
}

wire_round_trip_example :
    (IsValid clock → IsConstructed clock → from_wire (to_wire clock) ≡ ok clock)
    × (from_wire (to_wire clock) ≡ ok clock → IsValid clock × IsConstructed clock)
wire_round_trip_example = wire_round_trip clock (to_wire clock)

clock-IsConstructed : IsConstructed clock
unfolding plugin_id capability_id validate_identifier validate_segments validate_segment
    validate_tail ends_with_hyphen split is_ascii
clock-IsConstructed = record {
  own_id = refl;
  own_source = tt;
  offered = (refl, (refl, tt));
  required = tt;
  named = (refl, tt);
}

refused_wire : from_wire (record blank_wire { id = [] }) ≡ err (bad_identifier empty)
unfolding from_wire decode_fields plugin_id validate_identifier
refused_wire = refl

abbrev attributed_of : ℕ → PluginDescriptor Version Version
attributed_of c = record {
  id = plugin c;
  version = (1, 0);
  source = some (source_of c);
  provides = [];
  requires = [];
  conflicts = [];
}

abbrev three : ResolvedGraph Version Version
three = record shop_graph {
  plugins =
      (plugin b'a', attributed_of b'a')
      ∷ (plugin b'b', attributed_of b'b')
      ∷ (plugin b'c', attributed_of b'c')
      ∷ [];
}

abbrev three_report : AttributionReport
three_report = record {
  plugin_count = 3;
  source_packages = (b'a' ∷ []) ∷ (b'b' ∷ []) ∷ (b'c' ∷ []) ∷ [];
}

verify_three : verify_graph_attribution three ≡ ok three_report
unfolding verify_graph_attribution collect_packages BTreeSet.insert
verify_three = refl

verify_graph_attribution_iff_example : (verify_graph_attribution three ≡ ok three_report) ↔ (
    (3 ≤ three_report.plugin_count)
    × (three_report.plugin_count ≡ length (BTreeMap.values three.plugins))
    × Attributed (BTreeMap.values three.plugins) three_report.source_packages
    × BTreeSet.Distinct three_report.source_packages)
verify_graph_attribution_iff_example = verify_graph_attribution_iff three three_report
