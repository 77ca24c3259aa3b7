-- ===== src/Graph/Report/Accepted.antt =====
-- The report of a resolved graph (crates/kernox-core/src/graph.rs) passes the checks of a decoded report.
use kernox.Prelude.{
  ◌≡◌, refl, sym, subst, ap, ◌∙◌, inl, ⊎_elim, Bool, true, false, List, [], ◌∷◌, ◌++◌, map, reverse,
  Memᴰ, mem_map, mem_append, not_mem_nil, none, length, ok, ◌>>=◌, ==_iff, All, All-of_mem,
  All-append, length-append, arith,
}
use mathlib.Core.List
use kernox.Order.{same_refl}
use kernox.Order.Derive.{pair_ord}
use kernox.Collections.BTreeSet
use kernox.Collections.BTreeMap
use kernox.Id.{PluginId, plugin_id_ord, capability_id_ord}
use kernox.Descriptor.{PluginDescriptor}
use kernox.Error.{dependency_cycle}
use kernox.Graph.{
  CompositionSpec, ResolvedGraph, ResolvedRequirement, PluginSummary, edge_ord, diagnostic_ord,
}
use kernox.Graph.Checks.Index.{IsIndex}
use kernox.Graph.Diagnostics.{missing_diagnostics, graph_diagnostics}
use kernox.Graph.Report.{
  report, find_outside, any_differs, requirement_plugins, edge_plugins, diagnostic_plugin,
  flatten_with, report_relation_plugins, index_summaries, validate_report_schema, check_relations,
  validate_report, accept,
}
use kernox.Graph.Report.Related.{missing-About, unselected-About}
use kernox.Graph.Select.{index_providers}
use kernox.Graph.Topology.Sound.{order_of_ok}
use kernox.Graph.Resolve.{resolve, nothing_resolved}
use kernox.Graph.Resolve.Stages.{resolve_ok}
use kernox.Graph.Resolve.Loop.{resolve_plugins_ok}
use kernox.Graph.Resolve.Sorting.{mem-sort_requirements}
use kernox.Graph.Resolve.Declared.{IsIndex-of, value_entry}
use kernox.Graph.Resolve.Sound.{startup_order_sound, edges_exact}

find_outside-none :
    (plugins ps : List PluginId)
    → All (λ p. BTreeSet.contains p plugins ≡ true) ps
    → find_outside plugins ps ≡ none
unfolding find_outside
find_outside-none plugins [] h = refl
find_outside-none plugins (p ∷ ps) h = rw (find_outside, h.0) (find_outside-none plugins ps h.1)

length-reverse : {A : Type 0} (xs : List A) → length (reverse xs) ≡ length xs
length-reverse [] = refl
length-reverse (x ∷ xs) =
    rw (List.reverse-cons) (length-append (reverse xs) (x ∷ []) ∙ omega (arith, length-reverse xs))

any_differs_same : (ps : List PluginId) → any_differs ps ps ≡ false
unfolding any_differs
any_differs_same [] = refl
any_differs_same (p ∷ ps) = ground (arith, same_refl p, any_differs_same ps)

module _ {V R : Type 0} where
  check_relations_ok :
      (plugins ps : List PluginId)
      → All (λ p. BTreeSet.contains p plugins ≡ true) ps
      → check_relations {V = V} {R = R} plugins ps ≡ ok tt
  unfolding check_relations
  check_relations_ok plugins [] h = refl
  check_relations_ok plugins (p ∷ ps) h =
      rw (check_relations, h.0) (check_relations_ok plugins ps h.1)

  -- The summaries of a map's descriptors, in its order, have distinct identities.
  index_summaries_sorted :
      (plugins : List PluginId) (ps : List (PluginSummary V))
      → BTreeSet.IsSorted (plugins ++ map (λ p. p.id) ps)
      → index_summaries {V = V} {R = R} plugins ps ≡ ok (plugins ++ map (λ p. p.id) ps)
  unfolding index_summaries
  index_summaries_sorted plugins [] h = ap ok (sym (List.append-nil plugins))
  index_summaries_sorted plugins (p ∷ ps) h =
      let (last, fresh) =
        BTreeSet.insert_last p.id plugins (BTreeSet.IsSorted-append plugins _ p.id h) in
      let assoc = List.append_assoc plugins (p.id ∷ []) (map (λ q. q.id) ps) in
      rw (index_summaries, fresh, last)
        (index_summaries_sorted (plugins ++ p.id ∷ []) ps (subst BTreeSet.IsSorted (sym assoc) h)
          ∙ ap ok assoc)

  summary_ids :
      (ds : List (PluginDescriptor V R))
      → map
          (λ (p : PluginSummary V). p.id)
          (map (λ d. record { id = d.id; version = d.version }) ds)
        ≡ map (λ d. d.id) ds
  summary_ids [] = refl
  summary_ids (d ∷ ds) = ap (λ t. d.id ∷ t) (summary_ids ds)

All-flatten_with :
    {A : Type 0} (P : PluginId → Type 0) (f : A → List PluginId) (xs : List A)
    → All (λ x. All P (f x)) xs
    → All P (flatten_with f xs)
All-flatten_with P f [] h = tt
All-flatten_with P f (x ∷ xs) h =
    All-append P (f x) (flatten_with f xs) h.0 (All-flatten_with P f xs h.1)

All-map_of :
    {A B : Type 0} (P : B → Type 0) (f : A → B) (xs : List A)
    → All (λ x. P (f x)) xs
    → All P (map f xs)
All-map_of P f [] h = tt
All-map_of P f (x ∷ xs) h = (h.0, All-map_of P f xs h.1)

module _ {V R : Type 0} (matches : R → V → Bool) (spec : CompositionSpec V R)
    (g : ResolvedGraph V R) (resolved : resolve matches spec ≡ ok g) where
  abbrev Known : PluginId → Type 0
  Known p = BTreeSet.contains p (BTreeMap.keys g.plugins) ≡ true

  Known-of_mem : (p : PluginId) → Memᴰ p (BTreeMap.keys g.plugins) → Known p
  Known-of_mem p m = (BTreeSet.contains_iff p (BTreeMap.keys g.plugins)).1 m

  started-Known : (p : PluginId) → Memᴰ p g.startup_order → Known p
  started-Known p m = Known-of_mem p (((startup_order_sound matches spec g resolved).0 p).0 m)

  providers-Known :
      (q : ResolvedRequirement) (p : PluginId)
      → Memᴰ q g.requirements
      → Memᴰ p q.providers
      → Known p
  providers-Known q p mq mp =
      let (xs, ys, at, before) = (startup_order_sound matches spec g resolved).2 q p mq mp in
      started-Known p (subst (Memᴰ p) (sym at) ((mem_append p xs (q.consumer ∷ ys)).1 (inl before)))

  consumer-Known : (q : ResolvedRequirement) → Memᴰ q g.requirements → Known q.consumer
  consumer-Known q m =
      let (plugins, bindings, s, st) = resolve_ok matches spec g resolved in
      let ran =
        resolve_plugins_ok matches spec.limits.max_edges plugins
          (index_providers [] (BTreeMap.values plugins)) bindings nothing_resolved s
          (BTreeMap.values plugins) st.ran in
      let (h, mem) = IsIndex-of spec plugins st.admitted in
      let m' =
        (mem-sort_requirements q s.requirements).0
          (subst (Memᴰ q) st.concluded.requirements_eq m) in
      ⊎_elim not_mem_nil
        (λ (c, r, d, a).
          let (x, mx, cx, mr) = d in
          Known-of_mem q.consumer (
            subst (λ t. Memᴰ q.consumer (BTreeMap.keys t)) (sym st.concluded.plugins_eq)
              (subst (λ k. Memᴰ k (BTreeMap.keys plugins)) (sym (a.consumer_eq ∙ cx))
                (mem_map (λ (y : PluginId × PluginDescriptor V R). y.0)
                  (value_entry spec plugins h x mx)))))
        ((ran.requirements q).0 m')

  graph-IsIndex : IsIndex spec.limits g.plugins
  graph-IsIndex =
      let (plugins, bindings, s, st) = resolve_ok matches spec g resolved in
      subst (IsIndex spec.limits) (sym st.concluded.plugins_eq)
        (IsIndex-of spec plugins st.admitted).0

  diagnostics_of : g.diagnostics ≡ graph_diagnostics g.plugins g.requirements g.edges
  diagnostics_of =
      let (plugins, bindings, s, st) = resolve_ok matches spec g resolved in
      let c = st.concluded in
      c.diagnostics_eq ∙ λ i.
      graph_diagnostics (sym c.plugins_eq i) (sym c.requirements_eq i) (sym c.edges_eq i)

  values-Known : All (λ (d : PluginDescriptor V R). Known d.id) (BTreeMap.values g.plugins)
  values-Known = All-of_mem _ (BTreeMap.values g.plugins) λ d m. Known-of_mem d.id (
      mem_map (λ (y : PluginId × PluginDescriptor V R). y.0)
        (value_entry spec g.plugins graph-IsIndex d m))

  diagnostics-Known : All (λ d. Known (diagnostic_plugin d)) g.diagnostics
  unfolding graph_diagnostics
  diagnostics-Known = subst (All (λ d. Known (diagnostic_plugin d))) (sym diagnostics_of) (
      unselected-About Known (map (λ e. (e.provider, e.capability)) g.edges)
        (missing_diagnostics [] g.requirements) (BTreeMap.values g.plugins)
        (missing-About Known [] g.requirements tt
          (All-of_mem _ g.requirements λ q m. consumer-Known q m))
        values-Known)

  relations-Known : All Known (report_relation_plugins (report g))
  unfolding report_relation_plugins report
  relations-Known =
      let requirements = All-flatten_with Known requirement_plugins g.requirements (
        All-of_mem _ g.requirements λ q m.
          (consumer-Known q m, All-of_mem Known q.providers λ p mp. providers-Known q p m mp)) in
      let edges = All-flatten_with Known edge_plugins g.edges (
        All-of_mem _ g.edges λ e m.
          let (q, mq, of_q) = ((edges_exact matches spec g resolved).0 e).0 m in
          let (provider, consumer, _) = of_q in
          (
            providers-Known q e.provider mq provider,
            (subst Known (sym consumer) (consumer-Known q mq), tt),
          )) in
      All-append Known (flatten_with requirement_plugins g.requirements) _ requirements (
        All-append Known (flatten_with edge_plugins g.edges) _ edges
          (All-map_of Known diagnostic_plugin g.diagnostics diagnostics-Known))

  startup_length : length g.startup_order ≡ length (BTreeMap.keys g.plugins)
  startup_length =
      let (plugins, bindings, s, st) = resolve_ok matches spec g resolved in
      let (h, _) = IsIndex-of spec plugins st.admitted in
      let (u, _, fits, is) =
        order_of_ok (BTreeMap.keys plugins) (map (λ e. (e.provider, e.consumer)) s.edges)
          dependency_cycle g.startup_order st.concluded.ordered in
      ap length is
      ∙ fits
      ∙ ap length (BTreeSet.collect_sorted (BTreeMap.keys plugins) h.sorted)
      ∙ ap (λ t. length (BTreeMap.keys t)) (sym st.concluded.plugins_eq)

  summaries_accepted :
      index_summaries {V = V} {R = R} [] (report g).plugins ≡ ok (BTreeMap.keys g.plugins)
  unfolding report
  summaries_accepted =
      let ids =
        summary_ids (BTreeMap.values g.plugins)
        ∙ BTreeMap.keys_of_values (λ d. d.id) g.plugins graph-IsIndex.keyed in
      index_summaries_sorted [] (report g).plugins
        (subst BTreeSet.IsSorted (sym ids) graph-IsIndex.sorted)
      ∙ ap ok ids

  -- The report of a resolved graph is accepted, unchanged.
  pub report_accepted : accept {V = V} {R = R} (report g) ≡ ok (report g)
  unfolding accept validate_report validate_report_schema report
  report_accepted =
      let order = g.startup_order in
      let keys = BTreeMap.keys g.plugins in
      let counted = (==_iff (length order) (length keys)).1 startup_length in
      let inside = find_outside-none keys order (All-of_mem Known order started-Known) in
      let turned = (==_iff (length (reverse order)) (length order)).1 (length-reverse order) in
      rw (summaries_accepted, counted, inside, turned, any_differs_same (reverse order))
        (ap (λ m. m >>= λ _. ok (report g)) (check_relations_ok keys _ relations-Known))
