-- ===== src/Runtime/Rollback/Cleaned.antt =====
-- What the cleanup loops of crates/kernox-runtime/src/app.rs run, observe and report.
use kernox.Prelude.{
  some, ◌⊎◌, subst, ◌≡◌, refl, sym, ◌∙◌, ap, true, List, [], ◌∷◌, ◌++◌, map, reverse, All,
  All-append, Result, ok,
}
use mathlib.Core.List
use kernox.Collections.BTreeMap
use kernox.Id.{Bytes, PluginId, plugin_id_ord}
use kernox.Graph.{ResolvedGraph}
use kernox.Runtime.Provisions.{ProvisionSet, ProvisionError}
use kernox.Runtime.{
  LifecyclePhase, FailureRecord, LifecycleOutcome, succeeded, failed, LifecycleObservation, Hook,
  returned, returned_error, panicked, plugin_failure, safe_tag, hook_panicked, initialize, start,
  quiesce, stop, dispose,
}
use kernox.Runtime.Scope.{Scope, application_id, closed, finish_close}
use kernox.Runtime.Rollback.{
  PluginCode, InitializationContext, Run, settle, cleanup_hook, run_cleanup_hook, cleanup_plugins,
  cleanup, rollback_dispose, rollback_start, close_begun, close_finished,
}

-- a hook of a plugin
abbrev pub Call : Type 0
Call = LifecyclePhase × PluginId

abbrev pub call_of : LifecycleObservation → Call
call_of o = (o.phase, o.plugin)

abbrev failure_call : FailureRecord → Call × Bytes
failure_call f = ((f.phase, f.plugin), f.error_tag)

abbrev if_failed : LifecycleOutcome → Call → List (Call × Bytes)
if_failed succeeded c = []
if_failed (failed error_tag) c = (c, error_tag) ∷ []

-- the hooks that were observed to fail, with the tag of each error
abbrev failed_calls : List LifecycleObservation → List (Call × Bytes)
failed_calls [] = []
failed_calls (o ∷ os) = if_failed o.outcome (call_of o) ++ failed_calls os

-- every phase in turn, each over all plugins of the list
abbrev pub script : List LifecyclePhase → List PluginId → List Call
script [] ids = []
script (phase ∷ phases) ids = map (λ id. (phase, id)) ids ++ script phases ids

abbrev pub Present : {P : Type 0} → List (PluginId × P) → List PluginId → Type 0
Present plugins ids = All (λ id. BTreeMap.contains_key id plugins ≡ true) ids

-- What the sink is told when a hook has ended.
abbrev pub told : {A : Type 0} → Hook A → LifecycleOutcome
told (returned a) = succeeded
told (returned_error e) = failed (safe_tag e.tag)
told panicked = failed (safe_tag hook_panicked.tag)

module _ {P W V R A : Type 0} (code : PluginCode P W V R A) (graph : ResolvedGraph V R)
    (plugins : List (PluginId × P)) where
  -- What is told of an initialization: where the hook returned, its provisions are committed or refused.
  abbrev pub Initialized : Hook (ProvisionSet V A) → LifecycleOutcome → Type 0
  Initialized (returned staged) outcome =
      (outcome ≡ succeeded) ⊎ ((e : ProvisionError V) × (outcome ≡ failed (code.tag e)))
  Initialized (returned_error e) outcome = outcome ≡ failed (safe_tag e.tag)
  Initialized panicked outcome = outcome ≡ failed (safe_tag hook_panicked.tag)

  -- The hook of the observed phase was called on the instance of the observed plugin in the world `w`; it ended as
  -- it was observed, and left this world.
  pub data Ran (w : W) (o : LifecycleObservation) : W → Type 0 where
    ran_initialize :
        (p : P) (c : InitializationContext V R A)
        → BTreeMap.get o.plugin plugins ≡ some p
        → o.phase ≡ initialize
        → c.consumer ≡ o.plugin
        → c.graph ≡ graph
        → application_id c.scope ≡ o.scope
        → Initialized (code.initialize p c w).0 o.outcome
        → Ran w o (code.initialize p c w).1
    ran_start :
        (p : P) (s : Scope)
        → BTreeMap.get o.plugin plugins ≡ some p
        → o.phase ≡ start
        → application_id s ≡ o.scope
        → o.outcome ≡ told (code.start p s w).0
        → Ran w o (code.start p s w).1
    ran_quiesce :
        (p : P) (s : Scope)
        → BTreeMap.get o.plugin plugins ≡ some p
        → o.phase ≡ quiesce
        → application_id s ≡ o.scope
        → o.outcome ≡ told (code.quiesce p s w).0
        → Ran w o (code.quiesce p s w).1
    ran_stop :
        (p : P) (s : Scope)
        → BTreeMap.get o.plugin plugins ≡ some p
        → o.phase ≡ stop
        → application_id s ≡ o.scope
        → o.outcome ≡ told (code.stop p s w).0
        → Ran w o (code.stop p s w).1
    ran_dispose :
        (p : P) (s : Scope)
        → BTreeMap.get o.plugin plugins ≡ some p
        → o.phase ≡ dispose
        → application_id s ≡ o.scope
        → o.outcome ≡ told (code.dispose p s w).0
        → Ran w o (code.dispose p s w).1

  -- The observed hooks ran one after the other, each in the world that the one before it left.
  abbrev pub AllRan : W → List LifecycleObservation → W → Type 0
  AllRan w [] w' = w ≡ w'
  AllRan w (o ∷ os) w' = (w1 : W) × Ran w o w1 × AllRan w1 os w'

  -- The given hooks ran, in this order; the sink was told of them and of nothing else, and of exactly these failures.
  pub record Observed (before : List LifecycleObservation) (w : W)
      (after : List LifecycleObservation) (w' : W) (calls : List Call)
      (failures : List FailureRecord) : Type 0 where
    pub news : List LifecycleObservation
    pub grown : after ≡ before ++ news
    pub called : map call_of news ≡ calls
    pub reported : map failure_call failures ≡ failed_calls news
    pub ran : AllRan w news w'

  abbrev pub Saw : Run W → Run W → List Call → List FailureRecord → Type 0
  Saw r r' calls failures = Observed r.observed r.world r'.observed r'.world calls failures

  AllRan-append :
      (w w1 w2 : W) (os os' : List LifecycleObservation)
      → AllRan w os w1
      → AllRan w1 os' w2
      → AllRan w (os ++ os') w2
  AllRan-append w w1 w2 [] os' e h = subst (λ v. AllRan v os' w2) (sym e) h
  AllRan-append w w1 w2 (o ∷ os) os' (v, one, rest) h =
      (v, one, AllRan-append v w1 w2 os os' rest h)

failed_calls-append :
    (a b : List LifecycleObservation) → failed_calls (a ++ b) ≡ failed_calls a ++ failed_calls b
failed_calls-append [] b = refl
failed_calls-append (o ∷ os) b =
    ap (λ t. if_failed o.outcome (call_of o) ++ t) (failed_calls-append os b)
    ∙ sym (List.append_assoc (if_failed o.outcome (call_of o)) (failed_calls os) (failed_calls b))

pub Observed-refl :
    {P W V R A : Type 0} {code : PluginCode P W V R A} {graph : ResolvedGraph V R}
    {plugins : List (PluginId × P)} (r : Run W)
    → Saw code graph plugins r r [] []
Observed-refl r = record {
  news = [];
  grown = sym (List.append-nil r.observed);
  called = refl;
  reported = refl;
  ran = refl;
}

pub Observed-trans :
    {P W V R A : Type 0} {code : PluginCode P W V R A} {graph : ResolvedGraph V R}
    {plugins : List (PluginId × P)} {a b c : List LifecycleObservation} {u v w : W}
    {k l : List Call} {f g : List FailureRecord}
    → Observed code graph plugins a u b v k f
    → Observed code graph plugins b v c w l g
    → Observed code graph plugins a u c w (k ++ l) (f ++ g)
Observed-trans {code = code} {graph = graph} {plugins = plugins} {a} {b} {c} {u} {v} {w} {k} {l} {f}
      {g} x y =
    record {
      news = x.news ++ y.news;
      grown = rw (y.grown, x.grown, List.append_assoc) refl;
      called = rw (List.map-append, x.called, y.called) refl;
      reported = rw (List.map-append, failed_calls-append, x.reported, y.reported) refl;
      ran = AllRan-append code graph plugins u v w x.news y.news x.ran y.ran;
    }

-- the phases that a cleanup runs
abbrev pub Cleans : LifecyclePhase → Type 0
Cleans initialize = ⊥
Cleans start = ⊥
Cleans quiesce = Unit
Cleans stop = Unit
Cleans dispose = Unit

module _ {P W V R A : Type 0} (code : PluginCode P W V R A) (graph : ResolvedGraph V R)
    (plugins : List (PluginId × P)) where
  -- The cleanup calls the hook of its phase.
  cleanup_hook-Ran :
      (phase : LifecyclePhase) (p : P) (r : Run W) (o : LifecycleObservation)
      → Cleans phase
      → BTreeMap.get o.plugin plugins ≡ some p
      → o.phase ≡ phase
      → application_id r.scope ≡ o.scope
      → o.outcome ≡ told (cleanup_hook code phase p r.scope r.world).0
      → Ran code graph plugins r.world o (cleanup_hook code phase p r.scope r.world).1
  cleanup_hook-Ran initialize p r o h found e s t = absurd h
  cleanup_hook-Ran start p r o h found e s t = absurd h
  cleanup_hook-Ran quiesce p r o h found e s t = ran_quiesce p r.scope found e s t
  cleanup_hook-Ran stop p r o h found e s t = ran_stop p r.scope found e s t
  cleanup_hook-Ran dispose p r o h found e s t = ran_dispose p r.scope found e s t

  settle-Observed :
      (id : PluginId) (phase : LifecyclePhase) (r : Run W) (h : Hook (Unit {0}) × W)
      → ((o : LifecycleObservation)
          → o.plugin ≡ id
          → o.phase ≡ phase
          → application_id r.scope ≡ o.scope
          → o.outcome ≡ told h.0
          → Ran code graph plugins r.world o h.1)
      → Saw code graph plugins r
          (settle code id phase r h).1
          ((phase, id) ∷ [])
          (settle code id phase r h).0
  unfolding plugin_failure
  settle-Observed id phase r (returned u, w) ran = record {
    news = _;
    grown = refl;
    called = refl;
    reported = refl;
    ran = (w, ran _ refl refl refl refl, refl);
  }
  settle-Observed id phase r (returned_error e, w) ran = record {
    news = _;
    grown = refl;
    called = refl;
    reported = refl;
    ran = (w, ran _ refl refl refl refl, refl);
  }
  settle-Observed id phase r (panicked, w) ran = record {
    news = _;
    grown = refl;
    called = refl;
    reported = refl;
    ran = (w, ran _ refl refl refl refl, refl);
  }

reverse-Present :
    {P : Type 0} (plugins : List (PluginId × P)) (ids : List PluginId)
    → Present plugins ids
    → Present plugins (reverse ids)
reverse-Present plugins [] h = tt
reverse-Present plugins (id ∷ ids) h =
    rw (List.reverse-cons)
      (All-append _ (reverse ids) (id ∷ []) (reverse-Present plugins ids h.1) (h.0, tt))

module _ {P W V R A : Type 0} (code : PluginCode P W V R A) (graph : ResolvedGraph V R) where
  -- A computation of the cleanup that ends, with what it ran.
  abbrev Completes :
      {E : Type 0}
      → List (PluginId × P)
      → Run W
      → List Call
      → Result E (List FailureRecord × Run W)
      → Type 0
  Completes {E} plugins r calls result =
      (failures : List FailureRecord) × (r' : Run W) × (result ≡ ok (failures, r'))
      × Saw code graph plugins r r' calls failures
      × (r'.scope ≡ r.scope)

  cleanup_plugins-Completes :
      (E : Type 0) (plugins : List (PluginId × P)) (phase : LifecyclePhase) (ids : List PluginId)
      (r : Run W)
      → Cleans phase
      → Present plugins ids
      → Completes plugins r
          (map (λ id. (phase, id)) ids)
          (cleanup_plugins code {E = E} plugins phase ids r)
  unfolding cleanup_plugins run_cleanup_hook
  cleanup_plugins-Completes E plugins phase [] r k h = ([], r, refl, Observed-refl r, refl)
  cleanup_plugins-Completes E plugins phase (id ∷ ids) r k h =
      let (p, found) = BTreeMap.get_of_contains_key id plugins h.0 in
      let hook = cleanup_hook code phase p r.scope r.world in
      let one = settle code id phase r hook in
      let (fs, r', runs, rest, scope) = cleanup_plugins-Completes E plugins phase ids one.1 k h.1 in
      (
        one.0 ++ fs,
        r',
        rw (cleanup_plugins, found, runs) refl,
        Observed-trans
            (settle-Observed code graph plugins id phase r hook
              λ o at. cleanup_hook-Ran code graph plugins phase p r o k (rw at found))
            rest,
        scope,
      )

  pub cleanup-Completes :
      (E : Type 0) (plugins : List (PluginId × P)) (ids : List PluginId)
      (phases : List LifecyclePhase) (r : Run W)
      → All Cleans phases
      → Present plugins ids
      → Completes plugins r
          (script phases (reverse ids))
          (cleanup code {E = E} plugins ids phases r)
  unfolding cleanup
  cleanup-Completes E plugins ids [] r k h = ([], r, refl, Observed-refl r, refl)
  cleanup-Completes E plugins ids (phase ∷ phases) r k h =
      let (fs, r1, first, one, scope1) =
        cleanup_plugins-Completes E plugins phase (reverse ids) r k.0
          (reverse-Present plugins ids h) in
      let (gs, r2, later, rest, scope2) = cleanup-Completes E plugins ids phases r1 k.1 h in
      (fs ++ gs, r2, rw (cleanup, first, later) refl, Observed-trans one rest, scope2 ∙ scope1)

  -- A rollback that ends, with what it ran, and with the scope closed.
  abbrev Closes :
      {E : Type 0}
      → List (PluginId × P)
      → Run W
      → List Call
      → Result E (List FailureRecord × Run W)
      → Type 0
  Closes {E} plugins r calls result =
      (failures : List FailureRecord) × (r' : Run W) × (result ≡ ok (failures, r'))
      × Saw code graph plugins r r' calls failures
      × (r'.scope.state ≡ closed)

  pub rollback_dispose-Closes :
      (E : Type 0) (plugins : List (PluginId × P)) (ids : List PluginId) (r : Run W)
      → Present plugins ids
      → Closes plugins r
          (script (dispose ∷ []) (reverse ids))
          (rollback_dispose code {E = E} plugins ids r)
  unfolding rollback_dispose finish_close
  rollback_dispose-Closes E plugins ids r h =
      let (fs, r', runs, seen, scope) =
        cleanup-Completes E plugins ids (dispose ∷ []) (close_begun r) (tt, tt) h in
      (fs, close_finished r', rw (rollback_dispose, runs) refl, seen, refl)

  pub rollback_start-Closes :
      (E : Type 0) (plugins : List (PluginId × P)) (affected initialized : List PluginId)
      (r : Run W)
      → Present plugins affected
      → Present plugins initialized
      → Closes plugins r
          (script (quiesce ∷ stop ∷ []) (reverse affected)
            ++ script (dispose ∷ []) (reverse initialized))
          (rollback_start code {E = E} plugins affected initialized r)
  unfolding rollback_start finish_close
  rollback_start-Closes E plugins affected initialized r h k =
      let (fs, r1, first, one, scope1) =
        cleanup-Completes E plugins affected (quiesce ∷ stop ∷ []) (close_begun r) (tt, (tt, tt))
          h in
      let (gs, r2, later, rest, scope2) =
        cleanup-Completes E plugins initialized (dispose ∷ []) r1 (tt, tt) k in
      (
        fs ++ gs,
        close_finished r2,
        rw (rollback_start, first, later) refl,
        Observed-trans one rest,
        refl,
      )
