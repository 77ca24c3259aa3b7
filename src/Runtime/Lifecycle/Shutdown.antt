-- ===== src/Runtime/Lifecycle/Shutdown.antt =====
-- What `RunningApp::shutdown` of crates/kernox-runtime/src/app.rs runs and leaves.
use kernox.Prelude.{◌≡◌, refl, [], ◌∷◌, reverse, none, some, Result, ok, err}
use kernox.Id.{Bytes, PluginId}
use kernox.Runtime.{ShutdownReport, quiesce, stop, dispose}
use kernox.Runtime.Scope.{closed, finish_close}
use kernox.Runtime.Provisions.{Marker, application_unavailable}
use kernox.Runtime.Lifecycle.{shutdown, capability_from}
use kernox.Runtime.Rollback.{PluginCode, Run, RunningApp, close_begun, close_finished}
use kernox.Runtime.Rollback.Cleaned.{Saw, Present, script, cleanup-Completes}

module _ {P W V R A : Type 0} (code : PluginCode P W V R A) (E : Type 0) where
  -- how `shutdown` ends
  abbrev pub ShutdownEnds : RunningApp P V R A → Run W → Type 0
  ShutdownEnds app r =
      (report : ShutdownReport) × (app' : RunningApp P V R A) × (r' : Run W) × (shutdown code
          {E = E} app r
        ≡ ok (report, (app', r')))
      × Saw code app.graph app.plugins r r'
          (script (quiesce ∷ stop ∷ dispose ∷ []) (reverse app.graph.startup_order)) report.failures
      × (r'.scope.state ≡ closed)
      × (shutdown code {E = E} app' r' ≡ ok (report, (app', r')))
      × ((parse : Bytes → Result Bytes V) (m : Marker) (provider : PluginId)
          → capability_from parse m app' r' provider ≡ err application_unavailable)

  -- If the application runs and holds the plugins of its start-up order, then shutdown calls the quiesce hook of
  -- every plugin in reverse order, then the stop hooks, then the dispose hooks, each on the plugin's own instance
  -- and in the world that the hook before it left, whatever fails. It tells the sink how each ended, reports
  -- exactly the failures, each with its plugin, phase and tag, and closes the scope; a second shutdown calls
  -- nothing and returns the same report, and no capability is handed out.
  pub shutdown_sound :
      (app : RunningApp P V R A) (r : Run W)
      → app.terminal ≡ none
      → Present app.plugins app.graph.startup_order
      → ShutdownEnds app r
  unfolding shutdown finish_close capability_from
  shutdown_sound app r running h =
      let (fs, r', runs, seen, scope) =
        cleanup-Completes code app.graph E app.plugins app.graph.startup_order
          (quiesce ∷ stop ∷ dispose ∷ []) (close_begun r) (tt, (tt, (tt, tt))) h in
      (
        (record { failures = fs }),
        (record app { terminal = some (record { failures = fs }) }),
        close_finished r',
        rw (shutdown, running, runs) refl,
        seen,
        refl,
        refl,
        λ parse m provider. refl,
      )
