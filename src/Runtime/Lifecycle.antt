-- ===== src/Runtime/Lifecycle.antt =====
-- The application lifecycle (crates/kernox-runtime/src/app.rs): `ResolvedApp::start`, and
-- `RunningApp::shutdown`.
pub mod Initializing
pub mod Starting
pub mod Shutdown
use kernox.Prelude.{
  ℕ, Bool, true, false, List, [], ◌∷◌, ◌++◌, map, reverse, Option, none, some, if◌then◌else◌,
  Result, ok, err, fault, ◌>>=◌, ◌||◌,
}
use kernox.Collections.BTreeMap
use kernox.Id.{Bytes, PluginId, CapabilityId, plugin_id_ord}
use kernox.Descriptor.{PluginDescriptor}
use kernox.Graph.{ResolvedGraph}
use kernox.Runtime.{
  LifecyclePhase, initialize, start, quiesce, stop, dispose, PluginError, FailureRecord,
  LifecycleFailure, ShutdownReport, LifecycleOutcome, succeeded, failed, LifecycleObservation, Hook,
  panicked, run_plugin_hook, safe_tag, plugin_failure,
}
use kernox.Runtime.Scope.{Scope, application_id, is_closing, begin_close, finish_close}
use kernox.Runtime.Provisions.{
  Registry, ProvisionSet, ProvisionError, AccessError, application_unavailable, Marker, commit,
  root_capability,
}
use kernox.Runtime.Rollback.{
  InitializationContext, PluginCode, Run, ResolvedApp, RunningApp, outcome_of, failures_of, observe,
  close_begun, close_finished, with_plugin, cleanup_hook, settle, run_cleanup_hook, cleanup_plugins,
  cleanup, rollback_dispose, rollback_start, fail, rollback_initialize,
}

module _ {P W V R A : Type 0} (code : PluginCode P W V R A) where
  -- `initialize_one` once the provisions are committed or refused
  abbrev committed :
      List (PluginId × P)
      → PluginId
      → List PluginId
      → Run W
      → Result (ProvisionError V) (Registry V A)
      → Result (LifecycleFailure × Run W) (Registry V A × Run W)
  committed plugins id initialized run (ok registry) =
      ok (registry, observe id initialize succeeded run)
  committed plugins id initialized run (err e) =
      rollback_initialize code plugins id (code.tag e)
        (record {
          phase = initialize;
          plugin = id;
          error_tag = code.tag e;
          message = code.display e;
        })
        initialized run
  committed plugins id initialized run fault = fault

  -- The descriptor of the plugin; the code calls a missing one unreachable.
  abbrev commit_described :
      List (PluginId × P)
      → PluginId
      → Registry V A
      → List PluginId
      → Run W
      → ProvisionSet V A
      → Option (PluginDescriptor V R)
      → Result (LifecycleFailure × Run W) (Registry V A × Run W)
  commit_described plugins id registry initialized run staged none = fault
  commit_described plugins id registry initialized run staged (some d) =
      committed plugins id initialized run (commit code.version_eq id d staged registry)

  -- `initialize_one` once the hook has ended
  abbrev pub after_initialize :
      ResolvedApp P V R
      → PluginId
      → Registry V A
      → List PluginId
      → Run W
      → Result PluginError (ProvisionSet V A)
      → Result (LifecycleFailure × Run W) (Registry V A × Run W)
  after_initialize app id registry initialized run (ok staged) =
      commit_described app.plugins id registry initialized run staged
        (BTreeMap.get id app.graph.plugins)
  after_initialize app id registry initialized run (err e) =
      rollback_initialize code app.plugins id (safe_tag e.tag) (plugin_failure id initialize e)
        initialized run
  after_initialize app id registry initialized run fault = fault

  unfoldable pub initialize_one :
      ResolvedApp P V R
      → PluginId
      → Registry V A
      → List PluginId
      → Run W
      → Result (LifecycleFailure × Run W) (Registry V A × Run W)
  unfolding rollback_initialize
  initialize_one app id registry initialized run = with_plugin id app.plugins λ p.
      let hook =
        code.initialize p
          (record { consumer = id; graph = app.graph; registry = registry; scope = run.scope })
          run.world in
      after_initialize app id registry initialized (record run { world = hook.1 })
        (run_plugin_hook hook.0)

  -- `initialize_all`, from the plugins that are initialized already
  unfoldable pub initialize_all :
      ResolvedApp P V R
      → List PluginId
      → Registry V A
      → List PluginId
      → Run W
      → Result (LifecycleFailure × Run W) (List PluginId × (Registry V A × Run W))
  unfolding initialize_one
  initialize_all app [] registry initialized run = ok (initialized, (registry, run))
  initialize_all app (id ∷ ids) registry initialized run =
      initialize_one app id registry initialized run >>= λ x.
      initialize_all app ids x.0 (initialized ++ id ∷ []) x.1

  -- `start_one` once the hook has ended and was observed
  abbrev pub after_start :
      List (PluginId × P)
      → PluginId
      → (started initialized : List PluginId) → Run W
      → Result PluginError (Unit {0})
      → Result (LifecycleFailure × Run W) (Run W)
  after_start plugins id started initialized run (ok u) = ok run
  after_start plugins id started initialized run (err e) =
      rollback_start code plugins (started ++ id ∷ []) initialized run
      >>= fail (plugin_failure id start e)
  after_start plugins id started initialized run fault = fault

  unfoldable pub start_one :
      List (PluginId × P)
      → PluginId
      → (started initialized : List PluginId) → Run W
      → Result (LifecycleFailure × Run W) (Run W)
  unfolding rollback_start
  start_one plugins id started initialized run = with_plugin id plugins λ p.
      let hook = code.start p run.scope run.world in
      let result = run_plugin_hook hook.0 in
      after_start plugins id started initialized
        (observe id start (outcome_of result) (record run { world = hook.1 })) result

  unfoldable pub start_all :
      List (PluginId × P)
      → List PluginId
      → (started initialized : List PluginId) → Run W
      → Result (LifecycleFailure × Run W) (Run W)
  unfolding start_one
  start_all plugins [] started initialized run = ok run
  start_all plugins (id ∷ ids) started initialized run =
      start_one plugins id started initialized run >>= λ run'.
      start_all plugins ids (started ++ id ∷ []) initialized run'

  -- `ResolvedApp::start`
  unfoldable pub start_app :
      ResolvedApp P V R → Run W → Result (LifecycleFailure × Run W) (RunningApp P V R A × Run W)
  unfolding initialize_all start_all
  start_app app run = initialize_all app app.graph.startup_order [] [] run >>= λ x.
      start_all app.plugins app.graph.startup_order [] x.0 x.1.1 >>= λ run'. ok (
        (record { graph = app.graph; plugins = app.plugins; registry = x.1.0; terminal = none }),
        run',
      )

  -- `RunningApp::shutdown`, whose two loops are those of `cleanup`
  unfoldable pub shutdown :
      {E : Type 0}
      → RunningApp P V R A
      → Run W
      → Result E (ShutdownReport × (RunningApp P V R A × Run W))
  unfolding cleanup
  shutdown app run = elim app.terminal [
    | some report ↦ ok (report, (app, run))
    | none ↦
        cleanup code app.plugins app.graph.startup_order (quiesce ∷ stop ∷ dispose ∷ [])
          (close_begun run)
        >>= λ x. ok (
          (record { failures = x.0 }),
          ((record app { terminal = some (record { failures = x.0 }) }), close_finished x.1),
        )
  ]

abbrev is_some : {A : Type 0} → Option A → Bool
is_some none = false
is_some (some a) = true

-- `RunningApp::capability_from`
pub capability_from :
    {P W V R A : Type 0}
    → (Bytes → Result Bytes V)
    → Marker
    → RunningApp P V R A
    → Run W
    → PluginId
    → Result AccessError A
unfolding root_capability
capability_from parse m app run provider =
    if is_some app.terminal || is_closing run.scope
    then err application_unavailable
    else root_capability parse m app.registry provider
