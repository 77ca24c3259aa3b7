-- ===== src/Runtime/Lifecycle/Starting.antt =====
-- What `ResolvedApp::start` of crates/kernox-runtime/src/app.rs runs, on success and on each failure.
use kernox.Prelude.{
  ◌≡◌, refl, subst, ◌∙◌, ap, ◌⊎◌, inl, inr, List, [], ◌∷◌, ◌++◌, map, reverse, All-append, none,
  err,
}
use mathlib.Core.List
use kernox.Collections.BTreeMap
use kernox.Id.{PluginId, plugin_id_ord}
use kernox.Runtime.{
  LifecycleFailure, LifecycleObservation, failed, safe_tag, Hook, returned, returned_error,
  panicked, initialize, start, quiesce, stop, dispose, plugin_failure, run_plugin_hook,
  hook_panicked, PluginError,
}
use kernox.Graph.{ResolvedGraph}
use kernox.Runtime.Scope.{application_id}
use kernox.Runtime.Lifecycle.{after_start, start_one, start_all, start_app}
use kernox.Runtime.Rollback.{PluginCode, Run, ResolvedApp, RunningApp, observe, outcome_of}
use kernox.Runtime.Rollback.Cleaned.{
  Call, Saw, Ran, ran_start, told, Observed-refl, Observed-trans, Present, script,
  rollback_start-Closes,
}
use kernox.Runtime.Lifecycle.Initializing.{Advances, Aborts, init_rollback, initialize_all-cases}

-- the calls of a failed start
abbrev start_rollback : PluginId → List PluginId → List PluginId → List Call
start_rollback id started initialized =
    (start, id)
    ∷ (script (quiesce ∷ stop ∷ []) (reverse (started ++ id ∷ []))
        ++ script (dispose ∷ []) (reverse initialized))

module _ {P W V R A : Type 0} (code : PluginCode P W V R A) (graph : ResolvedGraph V R) where
  after_start_error :
      (plugins : List (PluginId × P)) (id : PluginId) (started initialized : List PluginId) (w : W)
      (r : Run W) (e : PluginError)
      → ((o : LifecycleObservation)
          → o.plugin ≡ id
          → o.phase ≡ start
          → application_id r.scope ≡ o.scope
          → o.outcome ≡ failed (safe_tag e.tag)
          → Ran code graph plugins w o r.world)
      → Present plugins (started ++ id ∷ [])
      → Present plugins initialized
      → Aborts code graph plugins
          (record r { world = w })
          (start_rollback id started initialized)
          (after_start code plugins id started initialized
            (observe id start (outcome_of {A = Unit {0}} (err e)) r)
            (err e))
  unfolding plugin_failure
  after_start_error plugins id started initialized w r e ran h k =
      let noted = observe id start (outcome_of {A = Unit {0}} (err e)) r in
      let (fs, r', runs, seen, shut) =
        rollback_start-Closes code graph (LifecycleFailure × Run W) plugins (started ++ id ∷ [])
          initialized noted h k in
      (
        (record { primary = plugin_failure id start e; cleanup_failures = fs }),
        r',
        rw (runs) refl,
        Observed-trans {f = plugin_failure id start e ∷ []}
            (record {
              news = _;
              grown = refl;
              called = refl;
              reported = refl;
              ran = (r.world, ran _ refl refl refl refl, refl);
            })
            seen,
        shut,
      )

  start_one-cases :
      (plugins : List (PluginId × P)) (id : PluginId) (started initialized : List PluginId)
      (r : Run W)
      → Present plugins (started ++ id ∷ [])
      → Present plugins initialized
      → Present plugins (id ∷ [])
      → Advances code graph plugins r
          ((start, id) ∷ [])
          (λ r'. r')
          (start_one code plugins id started initialized r)
        ⊎ Aborts code graph plugins r
            (start_rollback id started initialized)
            (start_one code plugins id started initialized r)
  unfolding start_one
  start_one-cases plugins id started initialized r h k l =
      let (p, found) = BTreeMap.get_of_contains_key id plugins l.0 in
      let hook = code.start p r.scope r.world in
      rw (start_one, found)
        (ended (record r { world = hook.1 }) hook.0
          λ o at phase scope ends. ran_start p r.scope (rw at found) phase scope ends)
    where
      ended :
          (r' : Run W) (hook : Hook (Unit {0}))
          → ((o : LifecycleObservation)
              → o.plugin ≡ id
              → o.phase ≡ start
              → application_id r'.scope ≡ o.scope
              → o.outcome ≡ told hook
              → Ran code graph plugins r.world o r'.world)
          → Advances code graph plugins
              (record r' { world = r.world })
              ((start, id) ∷ [])
              (λ r'. r')
              (after_start code plugins id started initialized
                (observe id start (outcome_of (run_plugin_hook hook)) r')
                (run_plugin_hook hook))
            ⊎ Aborts code graph plugins
                (record r' { world = r.world })
                (start_rollback id started initialized)
                (after_start code plugins id started initialized
                  (observe id start (outcome_of (run_plugin_hook hook)) r')
                  (run_plugin_hook hook))
      ended r' (returned u) ran = inl (
        _,
        refl,
        record {
          news = _;
          grown = refl;
          called = refl;
          reported = refl;
          ran = (r'.world, ran _ refl refl refl refl, refl);
        },
        refl,
      )
      ended r' (returned_error e) ran =
          inr (after_start_error plugins id started initialized r.world r' e ran h k)
      ended r' panicked ran =
          inr (after_start_error plugins id started initialized r.world r' hook_panicked ran h k)

  abbrev AllStarted :
      List (PluginId × P) → List PluginId → List PluginId → List PluginId → Run W → Type 0
  AllStarted plugins ids started initialized r =
      Advances code graph plugins r (map (λ id. (start, id)) ids) (λ r'. r')
        (start_all code plugins ids started initialized r)
      ⊎ ((before : List PluginId) × (id : PluginId) × (after : List PluginId) × (ids
            ≡ before ++ id ∷ after)
          × Aborts code graph plugins r
              (map (λ i. (start, i)) before ++ start_rollback id (started ++ before) initialized)
              (start_all code plugins ids started initialized r))

  start_all-cases :
      (plugins : List (PluginId × P)) (ids started initialized : List PluginId) (r : Run W)
      → Present plugins started
      → Present plugins initialized
      → Present plugins ids
      → AllStarted plugins ids started initialized r
  unfolding start_all
  start_all-cases plugins [] started initialized r h k l = inl (r, refl, Observed-refl r, refl)
  start_all-cases plugins (id ∷ ids) started initialized r h k l =
      let grown = All-append _ started (id ∷ []) h (l.0, tt) in
      elim (start_one-cases plugins id started initialized r grown k (l.0, tt)) [
        | inl (r1, e, seen, kept) ↦
            elim (start_all-cases plugins ids (started ++ id ∷ []) initialized r1 grown k l.1) [
              | inl (r2, f, later, kept') ↦
                  inl (r2, rw (start_all, e, f) refl, Observed-trans seen later, kept' ∙ kept)
              | inr (before, culprit, after, split, (f, r2, g, later, shut)) ↦ inr (
                id ∷ before,
                culprit,
                after,
                ap (λ t. id ∷ t) split,
                (
                  f,
                  r2,
                  rw (start_all, e, g) refl,
                  subst
                      (λ t.
                        Saw code graph plugins r r2
                          ((start, id)
                            ∷ (map (λ i. (start, i)) before
                                ++ start_rollback culprit t initialized))
                          (f.primary ∷ f.cleanup_failures))
                      (List.append_assoc started (id ∷ []) before) (Observed-trans seen later),
                  shut,
                ),
              )
            ]
        | inr (f, r1, e, seen, shut) ↦ inr (
          [],
          id,
          ids,
          refl,
          (f, r1, rw (start_all, e) refl, rw (List.append-nil started) seen, shut),
        )
      ]

module _ {P W V R A : Type 0} (code : PluginCode P W V R A) where
  -- the three ways in which `start` ends
  abbrev pub StartEnds : ResolvedApp P V R → Run W → Type 0
  StartEnds app r =
      ((running : RunningApp P V R A) × Advances code app.graph app.plugins r
          (script (initialize ∷ start ∷ []) app.graph.startup_order) (λ r'. (running, r'))
          (start_app code app r)
        × (running.terminal ≡ none))
      ⊎ ((before : List PluginId) × (id : PluginId) × (after : List PluginId)
          × (app.graph.startup_order ≡ before ++ id ∷ after)
          × (Aborts code app.graph app.plugins r
                (map (λ i. (initialize, i)) before ++ init_rollback code id before)
                (start_app code app r)
              ⊎ Aborts code app.graph app.plugins r
                  (map (λ i. (initialize, i)) app.graph.startup_order
                    ++ (map (λ i. (start, i)) before
                        ++ start_rollback id before app.graph.startup_order))
                  (start_app code app r)))

  pub start_sound :
      (app : ResolvedApp P V R) (r : Run W)
      → Present app.graph.plugins app.graph.startup_order
      → Present app.plugins app.graph.startup_order
      → StartEnds app r
  unfolding start_app
  start_sound app r known h =
      elim (initialize_all-cases code app app.graph.startup_order [] [] r known tt h) [
        | inl (registry, (r1, e, seen, kept)) ↦
            elim (start_all-cases code app.graph app.plugins app.graph.startup_order []
              app.graph.startup_order r1 tt h h) [
                | inl (r2, f, later, kept') ↦ inl (
                  (record {
                    graph = app.graph;
                    plugins = app.plugins;
                    registry = registry;
                    terminal = none;
                  }),
                  (
                    r2,
                    rw (start_app, e, f) refl,
                    rw (List.append-nil) (Observed-trans seen later),
                    kept' ∙ kept,
                  ),
                  refl,
                )
                | inr (before, id, after, split, (f, r2, g, later, shut)) ↦ inr (
                  before,
                  id,
                  after,
                  split,
                  inr (f, r2, rw (start_app, e, g) refl, Observed-trans seen later, shut),
                )
              ]
        | inr (before, id, after, split, (f, r1, e, seen, shut)) ↦
            inr (before, id, after, split, inl (f, r1, rw (start_app, e) refl, seen, shut))
      ]
