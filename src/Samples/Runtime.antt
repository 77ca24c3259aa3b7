-- ===== src/Samples/Runtime.antt =====
-- Scopes, transactions and host negotiation on sample values.
use kernox.Prelude.{
  Memᴰ, ◌≡◌, refl, ◌↔◌, Bool, true, false, [], ◌∷◌, map, some, ok, err, All, if◌then◌else◌, ◌==◌,
  ◌&&◌, ℕ,
}
use kernox.Order.{same}
use kernox.Order.Derive.{nat_ord, pair_ord}
use kernox.Collections.BTreeMap
use kernox.Collections.BTreeSet
use kernox.Id.{PluginId, CapabilityId, plugin_id_ord, capability_id_ord}
use kernox.Runtime.Scope.{
  Scope, ScopeState, is_open, opened, closed, scope_closing, application, child, begin_close,
  finish_close, begin_children, finish_children, finish_child, retain_others,
}
use kernox.Runtime.Scope.Closing.{
  Reachable, reach_application, reach_child, reach_begin, reach_finish, closing_sound,
}
use kernox.Runtime.Provisions.{
  Registry, ProvisionSet, commit, check_staged, check_offered, publish, find_offer,
}
use kernox.Runtime.Provisions.{Marker, stage, contract_of, root_capability}
use kernox.Runtime.Provisions.RoundTrip.{root_capability-commit}
use kernox.Id.{
  Bytes, capability_id, validate_identifier, validate_segments, validate_segment, validate_tail,
  ends_with_hyphen, split, is_ascii,
}
use kernox.Prelude.{Result}
use kernox.Runtime.Provisions.Committed.{Declares, or_else, commit_sound}
use kernox.Graph.Resolve.{resolve}
use kernox.Runtime.Host.{
  spec_of, validate_host_requirements, resolve_app, index_supplied, check_requirements,
  check_declared, collect_plugins,
}
use kernox.Runtime.Host.Negotiated.{Supplies, validate_host_requirements_iff}
use kernox.Runtime.Host.Ready.{IsHeld, resolve_app_ready}
use kernox.Samples.Lifecycle.{provision_of, threads, declared_shop, shop_builder, ready_shop}
use kernox.Samples.{Version, plugin, caret, clock, shop_graph, program}

-- The application scope opens an invocation and then closes.
abbrev busy : Scope
busy = record {
  namespace = 1;
  state = opened;
  next_id = 2;
  children = 1 ∷ [];
  invocations = (1, opened) ∷ [];
}

busy-Reachable : Reachable busy
unfolding application child BTreeMap.insert
busy-Reachable = reach_child (application 1) busy 1 (reach_application 1) refl

abbrev shut : Scope
shut = finish_close (begin_close busy)

closing_sound_example :
    (is_open shut.state ≡ false
      → (child shut ≡ err scope_closing)
        × ((j : ℕ) (st : ScopeState)
            → BTreeMap.get j shut.invocations ≡ some st
            → is_open st ≡ false))
    × (shut.state ≡ closed
        → (shut.children ≡ [])
          × ((j : ℕ) (st : ScopeState) → BTreeMap.get j shut.invocations ≡ some st → st ≡ closed))
closing_sound_example =
    closing_sound shut (reach_finish (begin_close busy) (reach_begin busy busy-Reachable))

invocation_closed : (shut.state ≡ closed) × (BTreeMap.get 1 shut.invocations ≡ some closed)
unfolding finish_close begin_close finish_children finish_child begin_children retain_others
    BTreeMap.modify BTreeMap.get
invocation_closed = (refl, refl)

abbrev same_version : Version → Version → Bool
same_version (a, b) (c, d) = (a == c) && (b == d)

abbrev clock_provisions : ProvisionSet Version ℕ
clock_provisions = provision_of b'k' (1, 2) ∷ provision_of b'z' (1, 0) ∷ []

abbrev no_provisions : Registry Version ℕ
no_provisions = []

abbrev pub clock_registry : Registry Version ℕ
clock_registry = map (λ e. ((plugin b'b', e.0), e.1)) clock_provisions

commit_sound_example :
    All (Declares same_version (BTreeMap.values clock.provides)) clock_provisions
    × All (λ o. BTreeMap.contains_key o.id clock_provisions ≡ true) (BTreeMap.values clock.provides)
    × ((q : PluginId) (c : CapabilityId)
        → BTreeMap.get (q, c) clock_registry ≡ (
            if same q (plugin b'b')
            then or_else (BTreeMap.get c clock_provisions) (BTreeMap.get (q, c) no_provisions)
            else BTreeMap.get (q, c) no_provisions))
unfolding program commit check_staged check_offered publish find_offer
commit_sound_example =
    commit_sound same_version (plugin b'b') clock clock_provisions no_provisions clock_registry
      ((refl, tt), (tt, tt)) refl

validate_host_requirements_iff_example :
    (validate_host_requirements caret declared_shop (threads ∷ []) ≡ ok tt) ↔ (
      BTreeSet.Distinct (map (λ c. c.id) (threads ∷ []))
      × All
          (λ d.
            BTreeSet.Distinct (map (λ q. q.id) d.host_requirements)
            × All (Supplies caret (threads ∷ [])) d.host_requirements)
          declared_shop)
validate_host_requirements_iff_example =
    validate_host_requirements_iff caret declared_shop (threads ∷ [])

resolve_app_ready_example :
    (validate_host_requirements caret declared_shop (threads ∷ []) ≡ ok tt)
    × (resolve caret (spec_of shop_builder) ≡ ok shop_graph)
    × ((i : PluginId) → Memᴰ i shop_graph.startup_order → IsHeld shop_builder ready_shop i)
unfolding program resolve_app validate_host_requirements index_supplied check_requirements
    check_declared collect_plugins
resolve_app_ready_example = resolve_app_ready caret shop_builder ready_shop refl

abbrev pub clock_marker : Marker
clock_marker = record {
  id = b'k' ∷ [];
  version = b'1' ∷ [];
  marker_type = b'k';
  marker_name = b'k' ∷ [];
  interface_type = b'k';
}

abbrev pub parse_one : Bytes → Result Bytes Version
parse_one text = ok (1, 2)

root_capability-commit_example :
    root_capability parse_one clock_marker clock_registry (plugin b'b') ≡ ok b'k'
unfolding program commit check_staged check_offered publish find_offer stage contract_of
    capability_id validate_identifier validate_segments validate_segment validate_tail
    ends_with_hyphen split is_ascii
root_capability-commit_example =
    root_capability-commit parse_one same_version (plugin b'b') clock clock_marker b'k'
      (provision_of b'z' (1, 0) ∷ []) clock_provisions no_provisions clock_registry (tt, tt) refl
      refl
