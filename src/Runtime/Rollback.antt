-- ===== src/Runtime/Rollback.antt =====
-- Plugin hooks and the rollbacks (crates/kernox-runtime/src/app.rs and plugin.rs). The plugins are code
-- outside the repository: `P` stands for a plugin, `W` for everything that hooks can change, and
-- `PluginCode` for what their hooks do.
pub mod Cleaned
use kernox.Prelude.{
  ℕ, Bool, true, false, List, [], ◌∷◌, ◌++◌, map, reverse, Option, none, some, if◌then◌else◌,
  Result, ok, err, fault, ◌>>=◌, ◌||◌,
}
use kernox.Collections.BTreeMap
use kernox.Id.{Bytes, PluginId, CapabilityId, plugin_id_ord}
use kernox.Descriptor.{PluginDescriptor}
use kernox.Graph.{ResolvedGraph}
use kernox.Runtime.{
  LifecyclePhase, initialize, start, quiesce, stop, dispose, PluginError, FailureRecord,
  LifecycleFailure, ShutdownReport, LifecycleOutcome, succeeded, failed, LifecycleObservation, Hook,
  panicked, run_plugin_hook, safe_tag, plugin_failure,
}
use kernox.Runtime.Scope.{Scope, application_id, is_closing, begin_close, finish_close}
use kernox.Runtime.Provisions.{
  Registry, ProvisionSet, ProvisionError, AccessError, application_unavailable, Marker, commit,
  root_capability,
}

-- `InitializationContext`, what a plugin sees while it initializes
pub record InitializationContext (V R A : Type 0) : Type 0 where
  pub consumer : PluginId
  pub graph : ResolvedGraph V R
  pub registry : Registry V A
  pub scope : Scope

-- What the plugins' hooks do, and the functions of other packages that the lifecycle calls.
pub record PluginCode (P W V R A : Type 0) : Type 0 where
  pub initialize : P → InitializationContext V R A → W → Hook (ProvisionSet V A) × W
  pub start : P → Scope → W → Hook (Unit {0}) × W
  pub quiesce : P → Scope → W → Hook (Unit {0}) × W
  pub stop : P → Scope → W → Hook (Unit {0}) × W
  pub dispose : P → Scope → W → Hook (Unit {0}) × W
  pub version_eq : V → V → Bool
  pub tag : ProvisionError V → Bytes
  pub display : ProvisionError V → Bytes

-- What a lifecycle changes: the scope, the world of the hooks, and what the sink was told.
pub record Run (W : Type 0) : Type 0 where
  pub scope : Scope
  pub world : W
  pub observed : List LifecycleObservation

pub record ResolvedApp (P V R : Type 0) : Type 0 where
  pub graph : ResolvedGraph V R
  pub plugins : List (PluginId × P)

pub record RunningApp (P V R A : Type 0) : Type 0 where
  pub graph : ResolvedGraph V R
  pub plugins : List (PluginId × P)
  pub registry : Registry V A
  pub terminal : Option ShutdownReport

abbrev pub outcome_of : {A : Type 0} → Result PluginError A → LifecycleOutcome
outcome_of (ok a) = succeeded
outcome_of (err e) = failed (safe_tag e.tag)
outcome_of fault = succeeded

abbrev pub failures_of :
    {A : Type 0} → PluginId → LifecyclePhase → Result PluginError A → List FailureRecord
failures_of id phase (ok a) = []
failures_of id phase (err e) = plugin_failure id phase e ∷ []
failures_of id phase fault = []

-- `observe_success`, `observe_failure`
abbrev pub observe : {W : Type 0} → PluginId → LifecyclePhase → LifecycleOutcome → Run W → Run W
observe id phase outcome run = record run {
  observed =
      run.observed
      ++ (record {
        plugin = id;
        scope = application_id run.scope;
        phase = phase;
        outcome = outcome;
      })
        ∷ [];
}

abbrev pub close_begun : {W : Type 0} → Run W → Run W
close_begun run = record run { scope = begin_close run.scope }

abbrev pub close_finished : {W : Type 0} → Run W → Run W
close_finished run = record run { scope = finish_close run.scope }

abbrev with_found : {P E X : Type 0} → Option P → (P → Result E X) → Result E X
with_found none body = fault
with_found (some p) body = body p

-- The plugin of an identity; the code calls a missing one unreachable.
abbrev pub with_plugin :
    {P E X : Type 0} → PluginId → List (PluginId × P) → (P → Result E X) → Result E X
with_plugin id plugins body = with_found (BTreeMap.get id plugins) body

abbrev pub fail :
    {W X : Type 0}
    → FailureRecord
    → List FailureRecord × Run W
    → Result (LifecycleFailure × Run W) X
fail primary x = err ((record { primary = primary; cleanup_failures = x.0 }), x.1)

module _ {P W V R A : Type 0} (code : PluginCode P W V R A) where
  -- The closure of a cleanup panics on another phase, inside `run_plugin_hook`.
  abbrev pub cleanup_hook : LifecyclePhase → P → Scope → W → Hook (Unit {0}) × W
  cleanup_hook initialize p scope world = (panicked, world)
  cleanup_hook start p scope world = (panicked, world)
  cleanup_hook quiesce p scope world = code.quiesce p scope world
  cleanup_hook stop p scope world = code.stop p scope world
  cleanup_hook dispose p scope world = code.dispose p scope world

  abbrev pub settle :
      PluginId → LifecyclePhase → Run W → Hook (Unit {0}) × W → List FailureRecord × Run W
  settle id phase run (hook, world) = (
    failures_of id phase (run_plugin_hook hook),
    observe id phase (outcome_of (run_plugin_hook hook)) (record run { world = world }),
  )

  -- `run_cleanup_hook`; a failure is a list of one record
  unfoldable pub run_cleanup_hook :
      P → PluginId → LifecyclePhase → Run W → List FailureRecord × Run W
  run_cleanup_hook p id phase run = settle id phase run (cleanup_hook phase p run.scope run.world)

  -- the loop over the plugins, whose list is in reverse already
  unfoldable pub cleanup_plugins :
      {E : Type 0}
      → List (PluginId × P)
      → LifecyclePhase
      → List PluginId
      → Run W
      → Result E (List FailureRecord × Run W)
  unfolding run_cleanup_hook
  cleanup_plugins plugins phase [] run = ok ([], run)
  cleanup_plugins plugins phase (id ∷ ids) run = with_plugin id plugins λ p.
      let one = run_cleanup_hook p id phase run in
      cleanup_plugins plugins phase ids one.1 >>= λ rest. ok (one.0 ++ rest.0, rest.1)

  -- `cleanup`
  unfoldable pub cleanup :
      {E : Type 0}
      → List (PluginId × P)
      → List PluginId
      → List LifecyclePhase
      → Run W
      → Result E (List FailureRecord × Run W)
  unfolding cleanup_plugins
  cleanup plugins ids [] run = ok ([], run)
  cleanup plugins ids (phase ∷ phases) run =
      cleanup_plugins plugins phase (reverse ids) run >>= λ one.
      cleanup plugins ids phases one.1 >>= λ rest. ok (one.0 ++ rest.0, rest.1)

  unfoldable pub rollback_dispose :
      {E : Type 0}
      → List (PluginId × P)
      → List PluginId
      → Run W
      → Result E (List FailureRecord × Run W)
  unfolding cleanup
  rollback_dispose plugins ids run =
      cleanup plugins ids (dispose ∷ []) (close_begun run) >>= λ x. ok (x.0, close_finished x.1)

  unfoldable pub rollback_start :
      {E : Type 0}
      → List (PluginId × P)
      → (affected initialized : List PluginId) → Run W
      → Result E (List FailureRecord × Run W)
  unfolding cleanup
  rollback_start plugins affected initialized run =
      cleanup plugins affected (quiesce ∷ stop ∷ []) (close_begun run) >>= λ x.
      cleanup plugins initialized (dispose ∷ []) x.1 >>= λ y. ok (x.0 ++ y.0, close_finished y.1)

  unfoldable pub rollback_initialize :
      {X : Type 0}
      → List (PluginId × P)
      → PluginId
      → Bytes
      → FailureRecord
      → List PluginId
      → Run W
      → Result (LifecycleFailure × Run W) X
  unfolding rollback_dispose
  rollback_initialize plugins id error_tag primary initialized run =
      rollback_dispose plugins (initialized ++ id ∷ [])
        (observe id initialize (failed error_tag) run)
      >>= fail primary
