-- ===== src/Tokio/Plugin.antt =====
-- The hooks of `TokioTaskPlugin` (crates/kernox-host-tokio/src/lib.rs). Whether a runtime and its timer are
-- there are arguments. The descriptor and the host requirements are constants, which are left out here.
use kernox.Prelude.{
  ℕ, ◌≡◌, refl, Bool, true, false, not, ◌==◌, Option, none, some, if◌then◌else◌, Result, ok, err,
  String, [], subst,
}
use kernox.Tokio.{Supervisor, TaskName, closed, new_supervisor, quiesce, spawn}
use kernox.Tokio.Reached.{Steps, here, next, quiesces, claims, Coherent, Steps-Coherent}
use kernox.Tokio.Reached.Later.{closed_for_good, Steps-Later}
use kernox.Tokio.Drain.{DrainError, DrainFails, offline_told, offline, told, reports}
use kernox.Tokio.Drained.{closed_drain_is_final, drain_reported_once, DrainFails-Steps, Steps-trans}

pub data TokioTaskPluginError : Type 0 where
  zero_capacity : TokioTaskPluginError

pub record TokioTaskPlugin : Type 0 where
  pub max_tasks : ℕ
  pub supervisor : Option Supervisor

-- `TokioTaskPlugin::new`
unfoldable pub new : ℕ → Result TokioTaskPluginError TokioTaskPlugin
new max_tasks =
    if max_tasks == 0
    then err zero_capacity
    else ok (record { max_tasks = max_tasks; supervisor = none })

-- `initialize`: the tag of its error, or none
pub initialize : Bool → Bool → TokioTaskPlugin → Option String × TokioTaskPlugin
initialize runtime timer p =
    if not runtime
    then (some "tokio-task.no-runtime", p)
    else if not timer
    then (some "tokio-task.no-timer", p)
    else (none, record p { supervisor = some (new_supervisor p.max_tasks) })

-- the `quiesce` hook, which cannot fail
unfoldable pub quiesce_hook : TokioTaskPlugin → TokioTaskPlugin
quiesce_hook p = elim p.supervisor [
  | none ↦ p
  | some s ↦ record p { supervisor = some (quiesce s) }
]

-- the `stop` hook: the supervisor stays in the plugin
pub data Stops (runtime : Bool) (p : TokioTaskPlugin)
    : Option DrainError → TokioTaskPlugin → Type 0 where
  not_initialized : p.supervisor ≡ none → Stops runtime p none p
  drains :
      {s t : Supervisor} {r : Option DrainError}
      → p.supervisor ≡ some s
      → DrainFails runtime s r t
      → Stops runtime p r (record p { supervisor = some t })

-- the `dispose` hook: it takes the supervisor, which those that hold the capability may keep
pub data Disposes (runtime : Bool) (p : TokioTaskPlugin)
    : Option DrainError → TokioTaskPlugin → Option Supervisor → Type 0 where
  nothing_to_dispose : p.supervisor ≡ none → Disposes runtime p none p none
  disposes :
      {s t u : Supervisor} {r : Option DrainError}
      → p.supervisor ≡ some s
      → Steps (quiesce s) t
      → DrainFails runtime t r u
      → Disposes runtime p r (record p { supervisor = none }) (some u)

some_injective : (a b : Supervisor) → some a ≡ some b → a ≡ b
some_injective a b e = cc

disposed :
    {p p' : TokioTaskPlugin} {r : Option DrainError} {left : Option Supervisor} {runtime : Bool}
    (s : Supervisor)
    → p.supervisor ≡ some s
    → Disposes runtime p r p' left
    → (p'.supervisor ≡ none)
      × (t : Supervisor) × (u : Supervisor) × Steps (quiesce s) t
      × DrainFails runtime t r u
      × (left ≡ some u)
disposed s e (nothing_to_dispose none_there) = absurd (cc)
disposed s e (disposes {s = s'} {t = t} {u = u} there before d) =
    let same_one : s' ≡ s = cc in
    (refl, t, u, subst (λ x. Steps (quiesce x) t) same_one before, d, refl)

final_with_runtime :
    {s t : Supervisor} {r : Option DrainError} (u : Supervisor)
    → Coherent s
    → s.accepting ≡ false
    → DrainFails true s r t
    → Steps t u
    → u.tasks ≡ []
final_with_runtime u h shut (offline_told absent _ _ _ _) after = absurd (cc)
final_with_runtime u h shut (offline absent _ _ _ _) after = absurd (cc)
final_with_runtime {s = s} u h shut (told {t = t} {pending = pending} _ drain between _) after =
    let on = Steps-trans (next between claims) after in
    (closed_drain_is_final s t u pending h shut drain on).1
final_with_runtime {s = s} u h shut (reports {t = t} {pending = pending} _ drain between _ later)
      after =
    let on = Steps-trans (Steps-trans (next between claims) later) after in
    (closed_drain_is_final s t u pending h shut drain on).1

-- Once `dispose` has returned inside a runtime, the plugin has let go of its supervisor, and whoever still
-- holds that supervisor can neither spawn a task with it nor find a registered one, at any later time.
pub disposed_plugin_has_no_tasks :
    (s u v : Supervisor) (p p' : TokioTaskPlugin) (r : Option DrainError)
    → Coherent s
    → p.supervisor ≡ some s
    → Disposes true p r p' (some u)
    → Steps u v
    → (p'.supervisor ≡ none)
      × (v.tasks ≡ [])
      × ((runtime : Bool) (name : TaskName) → spawn runtime name v ≡ err closed)
unfolding quiesce
disposed_plugin_has_no_tasks s u v p p' r h e d after =
    let (gone, t, u', before, fails, left) = disposed s e d in
    let on = subst (λ x. Steps x v) (some_injective u u' left) after in
    let quiesced = Steps-Coherent s (quiesce s) (next here quiesces) h in
    let at_t = Steps-Coherent (quiesce s) t before quiesced in
    let shut = (Steps-Later (quiesce s) t before quiesced).shut refl in
    let all = Steps-trans (DrainFails-Steps fails) on in
    (gone, final_with_runtime v at_t shut fails on, (closed_for_good t v at_t all shut).0)

stopped :
    {p p' : TokioTaskPlugin} {r : Option DrainError} {runtime : Bool} (s t : Supervisor)
    → p.supervisor ≡ some s
    → p'.supervisor ≡ some t
    → Stops runtime p r p'
    → DrainFails runtime s r t
stopped s t e e' (not_initialized none_there) = absurd (cc)
stopped {r = r} {runtime = runtime} s t e e' (drains {s = s'} {t = t'} there d) =
    subst (λ x. DrainFails runtime x r t) (some_injective s' s (cc))
      (subst (λ x. DrainFails runtime s' r x) (some_injective t' t e') d)

-- A drain that `stop` saw is not reported again: after `stop`, whatever it returned, `dispose` returns no error,
-- even when the supervisor has been used in between.
pub stop_then_dispose_reports_once :
    (s t u : Supervisor) (p p' p'' : TokioTaskPlugin) (left : Option Supervisor)
    (runtime runtime' : Bool) (r r' : Option DrainError)
    → Coherent s
    → p.supervisor ≡ some s
    → Stops runtime p r p'
    → p'.supervisor ≡ some t
    → Steps t u
    → Disposes runtime' (record p' { supervisor = some u }) r' p'' left
    → r' ≡ none
stop_then_dispose_reports_once s t u p p' p'' left runtime runtime' r r' h e stop e' between
      dispose =
    let (_, v, w, before, fails, _) = disposed u refl dispose in
    let drain = stopped s t e e' stop in
    drain_reported_once s t v w runtime runtime' r r' h drain
      (Steps-trans (next between quiesces) before) fails
