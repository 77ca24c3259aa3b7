-- ===== src/Samples/Lifecycle.antt =====
-- A run of the sample application: the lifecycle's theorems applied, and a start that fails.
use kernox.Prelude.{
  ◌≡◌, refl, ◌&&◌, ◌==◌, List, [], ◌∷◌, map, none, ℕ, ◌+◌, if◌then◌else◌, Result, ok, err, fault,
}
use kernox.Order.{same}
use kernox.Id.{CapabilityId, plugin_id_ord}
use kernox.Runtime.{
  initialize, start, quiesce, stop, dispose, PluginError, returned, returned_error, panicked,
}
use kernox.Runtime.Scope.{application}
use kernox.Runtime.Provisions.{Provision, commit, check_staged, check_offered, publish, find_offer}
use kernox.Runtime.Lifecycle.{initialize_one, initialize_all, start_one, start_all, start_app}
use kernox.Runtime.Rollback.{
  PluginCode, Run, ResolvedApp, RunningApp, run_cleanup_hook, cleanup_plugins, cleanup,
  rollback_dispose, rollback_start, rollback_initialize,
}
use kernox.Runtime.Rollback.Cleaned.{Call, call_of}
use kernox.Runtime.Lifecycle.Starting.{StartEnds}
use kernox.Runtime.Lifecycle.Shutdown.{ShutdownEnds, shutdown_sound}
use kernox.Graph.{default_limits}
use kernox.Runtime.Host.{
  new_app, app_plugin, app_binding, app_limits, app_host_capability, AppBuilder, Declared,
  HostCapability, HostRequirement, resolve_app, validate_host_requirements, index_supplied,
  check_requirements, check_declared, collect_plugins,
}
use kernox.Runtime.WholeRun.{resolve_start_shutdown}
use kernox.Descriptor.{Binding}
use kernox.Samples.{caret, clock, orders, Version, plugin, capability, shop_graph, program}

abbrev pub provision_of : ℕ → Version → CapabilityId × Provision Version ℕ
provision_of c v = (
  capability c,
  record {
    contract = record { id = capability c; version = v; marker_type = c; marker_name = c ∷ [] };
    boxed = record { interface_type = c; value = c };
  },
)

abbrev starting_error : PluginError
starting_error = record { tag = b'n' ∷ []; message = b'n' ∷ [] }

-- The plugin `b` stages its two offers. A plugin fails to start when its value is 1. The world
-- counts the hooks.
abbrev pub code : PluginCode ℕ ℕ Version Version ℕ
code = record {
  initialize = λ p c w. (
    returned (
        if same c.consumer (plugin b'b')
        then provision_of b'k' (1, 2) ∷ provision_of b'z' (1, 0) ∷ []
        else []),
    w + 1,
  );
  start = λ p s w. (if p == 1 then returned_error starting_error else returned tt, w + 1);
  quiesce = λ p s w. (returned tt, w + 1);
  stop = λ p s w. (panicked, w + 1);
  dispose = λ p s w. (returned tt, w + 1);
  version_eq = λ (a, b) (c, d). (a == c) && (b == d);
  tag = λ e. [];
  display = λ e. [];
}

abbrev pub fresh : Run ℕ
fresh = record { scope = application 1; world = 0; observed = [] }

abbrev shop_app : ℕ → ResolvedApp ℕ Version Version
shop_app p = record { graph = shop_graph; plugins = (plugin b'a', p) ∷ (plugin b'b', 0) ∷ [] }

abbrev pub running_shop : RunningApp ℕ Version Version ℕ
running_shop = record {
  graph = shop_graph;
  plugins = (plugin b'a', 0) ∷ (plugin b'b', 0) ∷ [];
  registry = [];
  terminal = none;
}

shutdown_sound_example : ShutdownEnds code (Unit {0}) running_shop fresh
unfolding program
shutdown_sound_example = shutdown_sound code (Unit {0}) running_shop fresh refl (refl, (refl, tt))

abbrev calls :
    {X : Type 0} → Result (X × Run ℕ) (RunningApp ℕ Version Version ℕ × Run ℕ) → List Call
calls (ok (app, r)) = map call_of r.observed
calls (err (f, r)) = map call_of r.observed
calls fault = []

failed_start :
    calls (start_app code (shop_app 1) fresh)
    ≡ (initialize, plugin b'b')
      ∷ (initialize, plugin b'a')
      ∷ (start, plugin b'b')
      ∷ (start, plugin b'a')
      ∷ (quiesce, plugin b'a')
      ∷ (quiesce, plugin b'b')
      ∷ (stop, plugin b'a')
      ∷ (stop, plugin b'b')
      ∷ (dispose, plugin b'a')
      ∷ (dispose, plugin b'b')
      ∷ []
unfolding program run_cleanup_hook cleanup_plugins cleanup rollback_dispose rollback_start
    rollback_initialize initialize_one initialize_all start_one start_all start_app commit
    check_staged check_offered publish find_offer
failed_start = refl

abbrev pub threads : HostCapability Version
threads = record { id = capability b't'; version = (1, 3) }

abbrev needs_threads : HostRequirement Version
needs_threads = record { id = capability b't'; version = (1, 0) }

abbrev orders_declared : Declared ℕ Version Version
orders_declared = record { descriptor = orders; plugin = 0; host_requirements = needs_threads ∷ [] }

abbrev clock_declared : Declared ℕ Version Version
clock_declared = record { descriptor = clock; plugin = 1; host_requirements = [] }

abbrev pub declared_shop : List (Declared ℕ Version Version)
declared_shop = orders_declared ∷ clock_declared ∷ []

abbrev pub shop_builder : AppBuilder ℕ Version Version
shop_builder = record {
  plugins = declared_shop;
  bindings = [];
  limits = default_limits;
  host_capabilities = threads ∷ [];
}

abbrev pub ready_shop : ResolvedApp ℕ Version Version
ready_shop = record { graph = shop_graph; plugins = (plugin b'a', 0) ∷ (plugin b'b', 1) ∷ [] }

resolve_start_shutdown_example :
    StartEnds code ready_shop fresh
    × ((running : RunningApp ℕ Version Version ℕ) (r' : Run ℕ)
        → start_app code ready_shop fresh ≡ ok (running, r')
        → ShutdownEnds code (Unit {0}) running r')
unfolding program resolve_app validate_host_requirements index_supplied check_requirements
    check_declared collect_plugins
resolve_start_shutdown_example =
    resolve_start_shutdown code (Unit {0}) caret shop_builder ready_shop fresh refl

built-shop_builder :
    app_host_capability
      (app_limits
        (app_plugin (app_plugin new_app (orders_declared)) (clock_declared))
        default_limits)
      threads
    ≡ shop_builder
built-shop_builder = refl

bound_app : (b : Binding) → (app_binding shop_builder b).bindings ≡ b ∷ []
bound_app b = refl
