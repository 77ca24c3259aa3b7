-- ===== src/Runtime/WholeRun.antt =====
-- An application from `AppBuilder::resolve` to shutdown (crates/kernox-runtime/src/app.rs).
use kernox.Graph.{ResolvedGraph}
use kernox.Prelude.{◌≡◌, Bool, [], sym, subst, ap, none, ok, bind_ok}
use kernox.Runtime.Rollback.{PluginCode, Run, ResolvedApp, RunningApp}
use kernox.Runtime.Rollback.Cleaned.{Present}
use kernox.Runtime.Lifecycle.{start_app, initialize_all, start_all}
use kernox.Runtime.Lifecycle.Starting.{StartEnds, start_sound}
use kernox.Runtime.Lifecycle.Shutdown.{ShutdownEnds, shutdown_sound}
use kernox.Runtime.Host.{AppBuilder, resolve_app}
use kernox.Runtime.Host.Ready.{resolve_app_cases}

module _ {P W V R A : Type 0} (code : PluginCode P W V R A) where
  -- A started application keeps the graph and the plugins, and has no terminal report.
  start_app_ok :
      (app : ResolvedApp P V R) (r r' : Run W) (running : RunningApp P V R A)
      → start_app code app r ≡ ok (running, r')
      → (app.graph ≡ running.graph) × (app.plugins ≡ running.plugins) × (running.terminal ≡ none)
  unfolding start_app
  start_app_ok app r r' running e =
      let (x, first, rest) =
        bind_ok (initialize_all code app app.graph.startup_order [] [] r) _ e in
      let (y, second, last) =
        bind_ok (start_all code app.plugins app.graph.startup_order [] x.0 x.1.1) _ rest in
      let is : (record {
        graph = app.graph;
        plugins = app.plugins;
        registry = x.1.0;
        terminal = none;
      })
          ≡ running =
        cc in
      (ap (λ t. t.graph) is, ap (λ t. t.plugins) is, sym (ap (λ t. t.terminal) is))

  -- If the builder resolves to an application, then start ends in one of its three ways without a
  -- panic, and if it returned a running application, shutdown runs all its hooks in order, reports the
  -- failures and closes the scope.
  pub resolve_start_shutdown :
      (E : Type 0) (matches : R → V → Bool) (b : AppBuilder P V R) (app : ResolvedApp P V R)
      (r : Run W)
      → resolve_app matches b ≡ ok app
      → StartEnds code app r
        × ((running : RunningApp P V R A) (r' : Run W)
            → start_app code app r ≡ ok (running, r')
            → ShutdownEnds code E running r')
  resolve_start_shutdown E matches b app r e =
      let (_, known, present, _, _) = resolve_app_cases matches b app e in
      (
        start_sound code app r known present,
        λ running r' started.
            let (graph, plugins, terminal) = start_app_ok app r r' running started in
            shutdown_sound code E running r' terminal (
              subst (λ t. Present t running.graph.startup_order) plugins
                (subst (λ (t : ResolvedGraph V R). Present app.plugins t.startup_order) graph
                  present)),
      )
