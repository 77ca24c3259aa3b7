-- ===== src/Runtime/Lifecycle/Initializing.antt =====
-- The initialization of all plugins (crates/kernox-runtime/src/app.rs): its loop ends, and either every
-- plugin is initialized or those that were are disposed of.
use kernox.Prelude.{
  ◌≡◌, refl, sym, subst, ◌∙◌, ap, ◌⊎◌, inl, inr, List, [], ◌∷◌, ◌++◌, map, reverse, All-append,
  some, Result, ok, err,
}
use mathlib.Core.List
use kernox.Collections.BTreeMap
use kernox.Id.{PluginId, plugin_id_ord}
use kernox.Descriptor.{PluginDescriptor}
use kernox.Runtime.{
  LifecycleFailure, LifecycleObservation, FailureRecord, Hook, returned, returned_error, panicked,
  initialize, dispose, plugin_failure, run_plugin_hook, hook_panicked, failed, succeeded,
}
use kernox.Runtime.Scope.{application_id, closed}
use kernox.Graph.{ResolvedGraph}
use kernox.Runtime.Provisions.{Registry, ProvisionSet}
use kernox.Runtime.Provisions.Committed.{commit-Ends}
use kernox.Runtime.Lifecycle.{after_initialize, initialize_one, initialize_all}
use kernox.Runtime.Rollback.{PluginCode, Run, ResolvedApp, observe, rollback_initialize}
use kernox.Runtime.Rollback.Cleaned.{
  Call, Saw, Ran, ran_initialize, Initialized, Observed-refl, Observed-trans, Present, script,
  rollback_dispose-Closes,
}

module _ {P W V R A : Type 0} (code : PluginCode P W V R A) where
  -- A step that goes on: it called one hook, which did not fail, and kept the scope.
  abbrev pub Advances :
      {X : Type 0}
      → ResolvedGraph V R
      → List (PluginId × P)
      → Run W
      → List Call
      → (Run W → X)
      → Result (LifecycleFailure × Run W) X
      → Type 0
  Advances graph plugins r calls value result =
      (r' : Run W) × (result ≡ ok (value r'))
      × Saw code graph plugins r r' calls []
      × (r'.scope ≡ r.scope)

  -- A step that gives up after the given calls: the failure names exactly the hooks that failed, the
  -- one that began the rollback first, and the scope is closed.
  abbrev pub Aborts :
      {X : Type 0}
      → ResolvedGraph V R
      → List (PluginId × P)
      → Run W
      → List Call
      → Result (LifecycleFailure × Run W) X
      → Type 0
  Aborts graph plugins r calls result =
      (f : LifecycleFailure) × (r' : Run W) × (result ≡ err (f, r'))
      × Saw code graph plugins r r' calls (f.primary ∷ f.cleanup_failures)
      × (r'.scope.state ≡ closed)

  rollback_initialize-Aborts :
      (X : Type 0) (app : ResolvedApp P V R) (id : PluginId) (primary : FailureRecord)
      (done : List PluginId) (w : W) (r : Run W)
      → primary.phase ≡ initialize
      → primary.plugin ≡ id
      → ((o : LifecycleObservation)
          → o.plugin ≡ id
          → o.phase ≡ initialize
          → application_id r.scope ≡ o.scope
          → o.outcome ≡ failed primary.error_tag
          → Ran code app.graph app.plugins w o r.world)
      → Present app.plugins (done ++ id ∷ [])
      → Aborts {X = X} app.graph app.plugins
          (record r { world = w })
          ((initialize, id) ∷ script (dispose ∷ []) (reverse (done ++ id ∷ [])))
          (rollback_initialize code app.plugins id primary.error_tag primary done r)
  unfolding rollback_initialize
  rollback_initialize-Aborts X app id primary done w r phase plugin ran h =
      let noted = observe id initialize (failed primary.error_tag) r in
      let (fs, r', runs, seen, scope) =
        rollback_dispose-Closes code app.graph (LifecycleFailure × Run W) app.plugins
          (done ++ id ∷ []) noted h in
      (
        (record { primary = primary; cleanup_failures = fs }),
        r',
        rw (rollback_initialize, runs) refl,
        Observed-trans {f = primary ∷ []}
            (record {
              news = _;
              grown = refl;
              called = refl;
              reported = rw (phase, plugin) refl;
              ran = (r.world, ran _ refl refl refl refl, refl);
            })
            seen,
        scope,
      )

  -- the calls of a failed initialization
  abbrev pub init_rollback : PluginId → List PluginId → List Call
  init_rollback id done = (initialize, id) ∷ script (dispose ∷ []) (reverse (done ++ id ∷ []))

  after_initialize-cases :
      (app : ResolvedApp P V R) (id : PluginId) (registry : Registry V A) (done : List PluginId)
      (w : W) (r : Run W) (d : PluginDescriptor V R) (hook : Hook (ProvisionSet V A))
      → ((o : LifecycleObservation)
          → o.plugin ≡ id
          → o.phase ≡ initialize
          → application_id r.scope ≡ o.scope
          → Initialized code app.graph app.plugins hook o.outcome
          → Ran code app.graph app.plugins w o r.world)
      → BTreeMap.get id app.graph.plugins ≡ some d
      → Present app.plugins (done ++ id ∷ [])
      → ((registry' : Registry V A) × Advances app.graph app.plugins
            (record r { world = w })
            ((initialize, id) ∷ [])
            (λ r'. (registry', r'))
            (after_initialize code app id registry done r (run_plugin_hook hook)))
        ⊎ Aborts app.graph app.plugins
            (record r { world = w })
            (init_rollback id done)
            (after_initialize code app id registry done r (run_plugin_hook hook))
  unfolding plugin_failure
  after_initialize-cases app id registry done w r d (returned staged) ran found h =
      elim (commit-Ends code.version_eq id d staged registry) [
        | inl (registry', e) ↦ inl (
          registry',
          (
            observe id initialize succeeded r,
            rw (found, e) refl,
            record {
              news = _;
              grown = refl;
              called = refl;
              reported = refl;
              ran = (r.world, ran _ refl refl refl (inl refl), refl);
            },
            refl,
          ),
        )
        | inr (error, e) ↦
            let (f, r', runs, seen, shut) =
              rollback_initialize-Aborts (Registry V A × Run W) app id
                (record {
                  phase = initialize;
                  plugin = id;
                  error_tag = code.tag error;
                  message = code.display error;
                })
                done w r refl refl (λ o a b c t. ran o a b c (inr (error, t))) h in
            inr (f, r', rw (found, e, runs) refl, seen, shut)
      ]
  after_initialize-cases app id registry done w r d (returned_error error) ran found h = inr (
      rollback_initialize-Aborts _ app id (plugin_failure id initialize error) done w r refl refl
        ran h)
  after_initialize-cases app id registry done w r d panicked ran found h = inr (
      rollback_initialize-Aborts _ app id (plugin_failure id initialize hook_panicked) done w r refl
        refl ran h)

  initialize_one-cases :
      (app : ResolvedApp P V R) (id : PluginId) (registry : Registry V A) (done : List PluginId)
      (r : Run W)
      → Present app.graph.plugins (id ∷ [])
      → Present app.plugins (done ++ id ∷ [])
      → Present app.plugins (id ∷ [])
      → ((registry' : Registry V A) × Advances app.graph app.plugins r
            ((initialize, id) ∷ [])
            (λ r'. (registry', r'))
            (initialize_one code app id registry done r))
        ⊎ Aborts app.graph app.plugins r
            (init_rollback id done)
            (initialize_one code app id registry done r)
  unfolding initialize_one
  initialize_one-cases app id registry done r known h k =
      let (p, found) = BTreeMap.get_of_contains_key id app.plugins k.0 in
      let (d, described) = BTreeMap.get_of_contains_key id app.graph.plugins known.0 in
      let hook =
        code.initialize p
          (record { consumer = id; graph = app.graph; registry = registry; scope = r.scope })
          r.world in
      rw (initialize_one, found)
        (after_initialize-cases app id registry done r.world (record r { world = hook.1 }) d hook.0
          (λ o at phase scope ends.
            ran_initialize p
              (record { consumer = id; graph = app.graph; registry = registry; scope = r.scope })
              (rw at found) phase (sym at) refl scope ends)
          described h)

  -- `initialize_all` from a point where some plugins are initialized: it ends, in one of two ways.
  abbrev AllInitialized :
      ResolvedApp P V R → List PluginId → Registry V A → List PluginId → Run W → Type 0
  AllInitialized app ids registry done r =
      ((registry' : Registry V A) × Advances app.graph app.plugins r
          (map (λ id. (initialize, id)) ids) (λ r'. (done ++ ids, (registry', r')))
          (initialize_all code app ids registry done r))
      ⊎ ((before : List PluginId) × (id : PluginId) × (after : List PluginId) × (ids
            ≡ before ++ id ∷ after)
          × Aborts app.graph app.plugins r
              (map (λ i. (initialize, i)) before ++ init_rollback id (done ++ before))
              (initialize_all code app ids registry done r))

  pub initialize_all-cases :
      (app : ResolvedApp P V R) (ids : List PluginId) (registry : Registry V A)
      (done : List PluginId) (r : Run W)
      → Present app.graph.plugins ids
      → Present app.plugins done
      → Present app.plugins ids
      → AllInitialized app ids registry done r
  unfolding initialize_all
  initialize_all-cases app [] registry done r known h k =
      inl (registry, (r, rw (List.append-nil) refl, Observed-refl r, refl))
  initialize_all-cases app (id ∷ ids) registry done r known h k =
      elim (initialize_one-cases app id registry done r (known.0, tt)
        (All-append _ done (id ∷ []) h (k.0, tt)) (k.0, tt)) [
          | inl (registry1, (r1, e, seen, kept)) ↦
              elim (initialize_all-cases app ids registry1 (done ++ id ∷ []) r1 known.1
                (All-append _ done (id ∷ []) h (k.0, tt)) k.1) [
                  | inl (registry2, (r2, f, later, kept')) ↦ inl (
                    registry2,
                    (
                      r2,
                      rw (initialize_all, e, f, List.append_assoc) refl,
                      Observed-trans seen later,
                      kept' ∙ kept,
                    ),
                  )
                  | inr (before, culprit, after, split, (f, r2, g, later, shut)) ↦ inr (
                    id ∷ before,
                    culprit,
                    after,
                    ap (λ t. id ∷ t) split,
                    (
                      f,
                      r2,
                      rw (initialize_all, e, g) refl,
                      subst
                          (λ t.
                            Saw code app.graph app.plugins r r2
                              ((initialize, id)
                                ∷ (map (λ i. (initialize, i)) before ++ init_rollback culprit t))
                              (f.primary ∷ f.cleanup_failures))
                          (List.append_assoc done (id ∷ []) before) (Observed-trans seen later),
                      shut,
                    ),
                  )
                ]
          | inr (f, r1, e, seen, shut) ↦ inr (
            [],
            id,
            ids,
            refl,
            (f, r1, rw (initialize_all, e) refl, rw (List.append-nil done) seen, shut),
          )
        ]
