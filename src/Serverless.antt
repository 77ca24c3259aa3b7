-- ===== src/Serverless.antt =====
-- The serverless host (crates/kernox-host-serverless/src/lib.rs), with `RunningApp::invocation_scope` of
-- crates/kernox-runtime/src/app.rs. Whether a deadline has elapsed is an argument. The host's counter and flag
-- are atomic, so `begin_invocation` is the two parts that other callers can come between. The counter is a
-- `usize`: it stays at or below the configured limit, so its additions do not wrap.
pub mod Reached
pub mod Admission
pub mod Invoked
pub mod Final
use kernox.Prelude.{
  ℕ, ◌+◌, ◌-◌, ◌^◌, Bool, true, false, not, List, [], ◌∷◌, Option, none, some, ltb, ◌==◌,
  if◌then◌else◌, Result, ok, err, ◌>>=◌, ◌>>◌, reject_if, String, fault,
}
use kernox.Runtime.{ShutdownReport}
use kernox.Runtime.Scope.{Scope, ScopeId, ScopeError, application_id, child, drop_invocation}
use kernox.Runtime.Rollback.{PluginCode, Run, RunningApp}
use kernox.Runtime.Lifecycle

pub data ServerlessConfigError : Type 0 where
  zero_capacity : ServerlessConfigError

pub data InvocationAdmissionError : Type 0 where
  closed capacity deadline_exceeded : InvocationAdmissionError

unfoldable pub tag : InvocationAdmissionError → String
tag closed = "serverless.closed"
tag capacity = "serverless.capacity"
tag deadline_exceeded = "serverless.deadline-exceeded"

pub data InvocationError (E : Type 0) : Type 0 where
  admission : InvocationAdmissionError → InvocationError E
  handler : E → InvocationError E

-- the host with its application, whose scope is in `run`
pub record ServerlessHost (P W V R A : Type 0) : Type 0 where
  pub app : RunningApp P V R A
  pub run : Run W
  pub max_concurrent_invocations : ℕ
  pub accepting : Bool
  pub active : ℕ

-- the data of the guard `Invocation`: the number of its scope
pub record Invocation : Type 0 where
  pub scope : ℕ

-- `RunningApp::invocation_scope`
abbrev invocation_scope : {W : Type 0} → Run W → Result ScopeError (ℕ × Scope)
invocation_scope run = child run.scope

abbrev pub handled : {E T : Type 0} → Result E T → Result (InvocationError E) T
handled (ok a) = ok a
handled (err e) = err (handler e)
handled fault = fault

module _ {P W V R A : Type 0} where
  -- `ServerlessHost::new`
  unfoldable pub new :
      RunningApp P V R A → Run W → ℕ → Result ServerlessConfigError (ServerlessHost P W V R A)
  new app run max_concurrent_invocations =
      if max_concurrent_invocations == 0
      then err zero_capacity
      else ok (record {
        app = app;
        run = run;
        max_concurrent_invocations = max_concurrent_invocations;
        accepting = true;
        active = 0;
      })

  abbrev app_scope_id : ServerlessHost P W V R A → ScopeId
  app_scope_id h = application_id h.run.scope

  abbrev pub with_scope : Scope → ServerlessHost P W V R A → ServerlessHost P W V R A
  with_scope scope h = record h { run = record h.run { scope = scope } }

  -- `begin_invocation` up to the update of the counter
  unfoldable pub reserve :
      Bool → ServerlessHost P W V R A → Result InvocationAdmissionError (ServerlessHost P W V R A)
  reserve elapsed h = do
    reject_if (not h.accepting) closed
    reject_if elapsed deadline_exceeded
    reject_if (not (ltb h.active h.max_concurrent_invocations)) capacity
    ok (record h { active = h.active + 1 })

  -- `fetch_sub`, also of the dropped `InvocationCounter`, which wraps round at zero
  abbrev pub release : ServerlessHost P W V R A → ServerlessHost P W V R A
  release h = record h { active = if h.active == 0 then 2 ^ 64 - 1 else h.active - 1 }

  abbrev opened_scope :
      ServerlessHost P W V R A
      → Result ScopeError (ℕ × Scope)
      → Result InvocationAdmissionError Invocation × ServerlessHost P W V R A
  opened_scope h (ok (c, scope)) = (ok (record { scope = c }), with_scope scope h)
  opened_scope h (err e) = (err closed, release h)
  opened_scope h fault = (fault, h)

  -- `begin_invocation` after the update of the counter
  pub enter :
      ServerlessHost P W V R A
      → Result InvocationAdmissionError Invocation × ServerlessHost P W V R A
  enter h =
      if not h.accepting then (err closed, release h) else opened_scope h (invocation_scope h.run)

  abbrev pub entered :
      ServerlessHost P W V R A
      → Result InvocationAdmissionError (ServerlessHost P W V R A)
      → Result InvocationAdmissionError Invocation × ServerlessHost P W V R A
  entered h (ok reserved) = enter reserved
  entered h (err e) = (err e, h)
  entered h fault = (fault, h)

  -- `begin_invocation`, when no other caller comes between its parts
  pub begin_invocation :
      Bool
      → ServerlessHost P W V R A
      → Result InvocationAdmissionError Invocation × ServerlessHost P W V R A
  unfolding reserve enter
  begin_invocation elapsed h = entered h (reserve elapsed h)

  -- The guard's fields are dropped in their order: the scope, then the counter.
  abbrev pub drop_scope : Invocation → ServerlessHost P W V R A → ServerlessHost P W V R A
  drop_scope i h = with_scope (drop_invocation i.scope h.run.scope) h

  pub drop_guard : Invocation → ServerlessHost P W V R A → ServerlessHost P W V R A
  drop_guard i h = release (drop_scope i h)

  abbrev pub run_handler :
      {E T : Type 0}
      → (Invocation → Result E T)
      → Result InvocationAdmissionError Invocation × ServerlessHost P W V R A
      → Result (InvocationError E) T × ServerlessHost P W V R A
  run_handler body (ok i, h) = (handled (body i), drop_guard i h)
  run_handler body (err e, h) = (err (admission e), h)
  run_handler body (fault, h) = (fault, h)

  -- `invoke`, when nothing else happens to the host while the handler runs
  pub invoke :
      {E T : Type 0}
      → Bool
      → (Invocation → Result E T)
      → ServerlessHost P W V R A
      → Result (InvocationError E) T × ServerlessHost P W V R A
  unfolding begin_invocation drop_guard
  invoke elapsed body h = run_handler body (begin_invocation elapsed h)

  -- `shutdown`
  unfoldable pub shutdown :
      {E : Type 0}
      → PluginCode P W V R A
      → ServerlessHost P W V R A
      → Result E (ShutdownReport × ServerlessHost P W V R A)
  shutdown code h = Lifecycle.shutdown code h.app h.run >>= λ x.
      ok (x.0, record h { accepting = false; app = x.1.0; run = x.1.1 })
