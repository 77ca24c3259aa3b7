-- ===== src/Runtime/Host/Ready.antt =====
-- What `AppBuilder::resolve` of crates/kernox-runtime/src/app.rs hands to the lifecycle.
use kernox.Prelude.{
  some, sym, ◌⊎◌, mem_tail, mem_head, mem_map, All-mem, Bool-cases, ◌≡◌, ◌∙◌, ap, subst, inl, inr,
  Bool, true, List, [], ◌∷◌, Memᴰ, All-of_mem, of_mem_map, Result, ok, err, fault, bind_ok, arith,
  mem_cons, not_mem_nil,
}
use kernox.Order.{same_of_eq, same, same_iff}
use kernox.Collections.BTreeSet
use kernox.Collections.BTreeMap
use kernox.Id.{PluginId, plugin_id_ord}
use kernox.Graph.Resolve.{resolve}
use kernox.Graph.Resolve.Sound.{startup_order_sound, key_declared, plugins_indexed}
use kernox.Runtime.Rollback.{ResolvedApp}
use kernox.Runtime.Rollback.Cleaned.{Present}
use kernox.Runtime.Host.{
  AppBuilder, Declared, graph_error, host_error, map_err, spec_of, collect_plugins, resolve_app,
  validate_host_requirements,
}

map_err_ok : {E F B : Type 0} (f : E → F) (m : Result E B) {b : B} → map_err f m ≡ ok b → m ≡ ok b
map_err_ok f (ok b) e = cc
map_err_ok f (err x) e = cc
map_err_ok f fault e = cc

module _ {P V R : Type 0} where
  collect_plugins_keeps :
      (i : PluginId) (m : List (PluginId × P)) (ds : List (Declared P V R))
      → BTreeMap.contains_key i m ≡ true
      → BTreeMap.contains_key i (collect_plugins m ds) ≡ true
  unfolding collect_plugins
  collect_plugins_keeps i m [] h = h
  collect_plugins_keeps i m (d ∷ ds) h =
      collect_plugins_keeps i (BTreeMap.insert d.descriptor.id d.plugin m) ds
        (ground (arith, BTreeMap.contains_key-insert i d.descriptor.id d.plugin m))

  -- Every plugin of the list is in the map that it is collected into.
  collect_plugins_lem :
      (d : Declared P V R) (m : List (PluginId × P)) (ds : List (Declared P V R))
      → Memᴰ d ds
      → BTreeMap.contains_key d.descriptor.id (collect_plugins m ds) ≡ true
  unfolding collect_plugins
  collect_plugins_lem d m [] h = not_mem_nil h
  collect_plugins_lem d m (x ∷ ds) h = elim ((mem_cons d x ds).0 h) [
    | inl e ↦ collect_plugins_keeps d.descriptor.id _ ds (
        ground (
          arith,
          BTreeMap.contains_key-insert d.descriptor.id x.descriptor.id x.plugin m,
          same_of_eq d.descriptor.id x.descriptor.id
              (ap (λ (t : Declared P V R). t.descriptor.id) e),
        ))
    | inr rest ↦ collect_plugins_lem d (BTreeMap.insert x.descriptor.id x.plugin m) ds rest
  ]

module _ {P V R : Type 0} where
  -- The plugin under an identity is the instance of a declaration of the list, or was there before.
  get-collect_plugins :
      (i : PluginId) (p : P) (m : List (PluginId × P)) (ds : List (Declared P V R))
      → BTreeMap.get i (collect_plugins m ds) ≡ some p
      → ((d : Declared P V R) × Memᴰ d ds × (d.descriptor.id ≡ i) × (d.plugin ≡ p))
        ⊎ (BTreeMap.get i m ≡ some p)
  unfolding collect_plugins
  get-collect_plugins i p m [] h = inr h
  get-collect_plugins i p m (x ∷ ds) h =
      elim (get-collect_plugins i p (BTreeMap.insert x.descriptor.id x.plugin m) ds h) [
        | inl (d, there, at, is) ↦ inl (d, mem_tail x there, at, is)
        | inr before ↦
            let inserted = BTreeMap.get-insert i x.descriptor.id x.plugin m in
            elim (Bool-cases (same i x.descriptor.id)) [
              | inl here ↦
                  let is : some x.plugin ≡ some p = ground (arith, inserted, before, here) in
                  inl (x, mem_head x ds, sym ((same_iff i x.descriptor.id).0 here), cc)
              | inr other ↦ inr (ground (arith, inserted, before, other))
            ]
      ]

  -- The plugin `i` of an application is one that was declared: the application has its instance, and its graph
  -- the descriptor.
  abbrev pub IsHeld : AppBuilder P V R → ResolvedApp P V R → PluginId → Type 0
  IsHeld b app i =
      (d : Declared P V R) × Memᴰ d b.plugins
      × (d.descriptor.id ≡ i)
      × (BTreeMap.get i app.plugins ≡ some d.plugin)
      × (BTreeMap.get i app.graph.plugins ≡ some d.descriptor)

not_found : {P : Type 0} (i : PluginId) (p : P) → BTreeMap.get {V = P} i [] ≡ some p → ⊥
unfolding BTreeMap.get
not_found i p e = cc

module _ {P V R : Type 0} (matches : R → V → Bool) where
  pub resolve_app_cases :
      (b : AppBuilder P V R) (app : ResolvedApp P V R)
      → resolve_app matches b ≡ ok app
      → (validate_host_requirements matches b.plugins b.host_capabilities ≡ ok tt)
        × Present app.graph.plugins app.graph.startup_order
        × Present app.plugins app.graph.startup_order
        × (resolve matches (spec_of b) ≡ ok app.graph)
        × (app.plugins ≡ collect_plugins [] b.plugins)
  unfolding resolve_app BTreeMap.contains_key
  resolve_app_cases b app e =
      let (g, graph, rest) = bind_ok (map_err graph_error (resolve matches (spec_of b))) _ e in
      let (u, host, done) =
        bind_ok
          (map_err host_error (validate_host_requirements matches b.plugins b.host_capabilities)) _
          rest in
      let resolved = map_err_ok graph_error _ graph in
      let is : record { graph = g; plugins = collect_plugins [] b.plugins } ≡ app = cc in
      let (members, once, before) = startup_order_sound matches (spec_of b) g resolved in
      (
        map_err_ok host_error _ host,
        subst (λ (a : ResolvedApp P V R). Present a.graph.plugins a.graph.startup_order) is
            (All-of_mem _ g.startup_order
              λ p m. (BTreeSet.contains_iff p (BTreeMap.keys g.plugins)).1 ((members p).0 m)),
        subst (λ (a : ResolvedApp P V R). Present a.plugins a.graph.startup_order) is
            (All-of_mem _ g.startup_order λ p m.
              let (d, md, at) = key_declared matches (spec_of b) g resolved p ((members p).0 m) in
              let (x, mx, ex) = of_mem_map (λ (t : Declared P V R). t.descriptor) b.plugins md in
              subst (λ i. BTreeMap.contains_key i (collect_plugins [] b.plugins) ≡ true)
                (ap (λ t. t.id) ex ∙ at) (collect_plugins_lem x [] b.plugins mx)),
        subst (λ (a : ResolvedApp P V R). resolve matches (spec_of b) ≡ ok a.graph) is resolved,
        sym (ap (λ (a : ResolvedApp P V R). a.plugins) is),
      )

  -- If the builder resolves to an application, then the host negotiation has passed, its graph is what the
  -- declared descriptors resolve to, and every plugin of the start-up order was declared: the map of
  -- plugins has the instance of its declaration, and the graph its descriptor.
  pub resolve_app_ready :
      (b : AppBuilder P V R) (app : ResolvedApp P V R)
      → resolve_app matches b ≡ ok app
      → (validate_host_requirements matches b.plugins b.host_capabilities ≡ ok tt)
        × (resolve matches (spec_of b) ≡ ok app.graph)
        × ((i : PluginId) → Memᴰ i app.graph.startup_order → IsHeld b app i)
  resolve_app_ready b app e =
      let (host, known, present, resolved, collected) = resolve_app_cases b app e in
      (
        host,
        resolved,
        λ i m.
            let (p, found) =
              BTreeMap.get_of_contains_key i app.plugins
                (All-mem _ app.graph.startup_order present m) in
            elim (get-collect_plugins i p [] b.plugins
              (subst (λ t. BTreeMap.get i t ≡ some p) collected found)) [
                | inl (d, there, at, is) ↦ (
                  d,
                  there,
                  at,
                  found ∙ ap some (sym is),
                  subst (λ k. BTreeMap.get k app.graph.plugins ≡ some d.descriptor) at
                      ((plugins_indexed matches (spec_of b) app.graph resolved d.descriptor).1
                        (mem_map (λ (t : Declared P V R). t.descriptor) there)),
                )
                | inr before ↦ absurd (not_found i p before)
              ],
      )
