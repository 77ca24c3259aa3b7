-- ===== src/Graph/Report.antt =====
-- The inspection report (crates/kernox-core/src/graph.rs): `ResolvedGraph::report` and the checks
-- of `GraphReport::accept` on a report that was decoded.
pub mod Related
pub mod Accepted
use kernox.Prelude.{
  ℕ, Bool, true, false, not, ◌||◌, List, [], ◌∷◌, ◌++◌, map, reverse, Option, none, some, ◌==◌,
  if◌then◌else◌, length, Result, ok, err, ◌>>=◌, ◌>>◌, reject_if,
}
use kernox.Order.{same}
use kernox.Collections.BTreeSet
use kernox.Collections.BTreeMap
use kernox.Id.{PluginId, plugin_id_ord}
use kernox.Error.{
  ResolveError, unsupported_report_schema_version, duplicate_report_plugin, unknown_report_plugin,
  inconsistent_report_lifecycle,
}
use kernox.Graph.{
  ResolvedRequirement, ResolvedEdge, ResolvedGraph, GraphDiagnostic, GraphReport, PluginSummary,
  optional_provider_missing, unselected_offer, graph_report_schema_version,
}

module _ {V R : Type 0} where
  unfoldable pub report : ResolvedGraph V R → GraphReport V
  report g = record {
    schema_version = graph_report_schema_version;
    plugins = map (λ d. record { id = d.id; version = d.version }) (BTreeMap.values g.plugins);
    requirements = g.requirements;
    edges = g.edges;
    diagnostics = g.diagnostics;
    startup_order = g.startup_order;
    teardown_order = reverse g.startup_order;
  }

-- `iterator.find(|plugin| !plugins.contains(plugin))`
pub find_outside : List PluginId → List PluginId → Option PluginId
find_outside plugins [] = none
find_outside plugins (p ∷ ps) =
    if BTreeSet.contains p plugins then find_outside plugins ps else some p

-- `left.zip(right).any(|(actual, expected)| actual != expected)`
pub any_differs : List PluginId → List PluginId → Bool
any_differs [] right = false
any_differs (l ∷ ls) [] = false
any_differs (l ∷ ls) (r ∷ rs) = not (same l r) || any_differs ls rs

abbrev pub requirement_plugins : ResolvedRequirement → List PluginId
requirement_plugins r = r.consumer ∷ r.providers

abbrev pub edge_plugins : ResolvedEdge → List PluginId
edge_plugins e = e.provider ∷ e.consumer ∷ []

abbrev pub diagnostic_plugin : GraphDiagnostic → PluginId
diagnostic_plugin (optional_provider_missing consumer capability) = consumer
diagnostic_plugin (unselected_offer provider capability) = provider

abbrev pub flatten_with : {A : Type 0} → (A → List PluginId) → List A → List PluginId
flatten_with f [] = []
flatten_with f (x ∷ xs) = f x ++ flatten_with f xs

module _ {V : Type 0} where
  pub report_relation_plugins : GraphReport V → List PluginId
  report_relation_plugins r =
      flatten_with requirement_plugins r.requirements
      ++ (flatten_with edge_plugins r.edges ++ map diagnostic_plugin r.diagnostics)

abbrev some_or : Option PluginId → Option PluginId → Option PluginId
some_or (some p) other = some p
some_or none other = other

abbrev is_some : Option PluginId → Bool
is_some none = false
is_some (some p) = true

module _ {V R : Type 0} where
  -- the loop over the summaries: the set of the identities
  pub index_summaries :
      List PluginId → List (PluginSummary V) → Result (ResolveError V R) (List PluginId)
  index_summaries plugins [] = ok plugins
  index_summaries plugins (p ∷ ps) = do
    reject_if (BTreeSet.contains p.id plugins) (duplicate_report_plugin p.id)
    index_summaries (BTreeSet.insert p.id plugins) ps

  pub validate_report_schema : ℕ → Result (ResolveError V R) (Unit {0})
  validate_report_schema actual =
      if actual == graph_report_schema_version
      then ok tt
      else err (unsupported_report_schema_version actual graph_report_schema_version)

  unfoldable startup_error : List PluginId → List PluginId → ResolveError V R
  startup_error plugins startup_order =
      elim (some_or (find_outside plugins startup_order) (find_outside startup_order plugins)) [
        | some plugin ↦ unknown_report_plugin plugin
        | none ↦ inconsistent_report_lifecycle
      ]

  pub check_relations : List PluginId → List PluginId → Result (ResolveError V R) (Unit {0})
  check_relations plugins [] = ok tt
  check_relations plugins (p ∷ ps) = do
    reject_if (not (BTreeSet.contains p plugins)) (unknown_report_plugin p)
    check_relations plugins ps

  pub validate_report : GraphReport V → Result (ResolveError V R) (Unit {0})
  unfolding index_summaries validate_report_schema find_outside any_differs
  validate_report r = do
    validate_report_schema r.schema_version
    plugins ← index_summaries [] r.plugins
    reject_if
        (not (length r.startup_order == length plugins)
          || is_some (find_outside plugins r.startup_order))
        (startup_error plugins r.startup_order)
    reject_if
        (not (length r.teardown_order == length r.startup_order)
          || any_differs r.teardown_order (reverse r.startup_order))
        inconsistent_report_lifecycle
    check_relations plugins (report_relation_plugins r)

  -- `GraphReport::accept`
  pub accept : GraphReport V → Result (ResolveError V R) (GraphReport V)
  accept r = do validate_report r; ok r
