-- ===== src/Tokio/Drain.antt =====
-- How the plugin's supervisor is drained (crates/kernox-host-tokio/src/lib.rs): `drain` waits for the
-- tracker, and `drain_failure` makes one report of it. While a drain runs, callers and tasks take steps.
-- `TaskTracker::wait` completes when the tracker is closed and empty.
use kernox.Prelude.{
  ℕ, ◌≡◌, Bool, true, false, not, ◌||◌, List, [], ◌∷◌, Option, none, some, length, take, String,
}
use kernox.Tokio.{
  Supervisor, TaskFailure, PendingTask, pending_tasks, abort_all, has_tracked_tasks,
  claim_drain_report,
}
use kernox.Tokio.Reached.{Steps}

-- What `drain_failure` reports: its tag and what its message is made of
pub data DrainError : Type 0 where
  no_runtime_to_drain : DrainError
  terminated : (failure : TaskFailure) (peers : ℕ) → DrainError
  drain_timeout : (pending : ℕ) (named : List PendingTask) → DrainError

unfoldable pub tag : DrainError → String
tag no_runtime_to_drain = "tokio-task.no-runtime"
tag (terminated failure peers) = failure.error_tag
tag (drain_timeout pending named) = "tokio-task.drain-timeout"

-- the report that `drain_failure` makes once it has claimed it
unfoldable pub drain_outcome : List PendingTask → Option TaskFailure → Option DrainError
drain_outcome pending (some failure) = some (terminated failure (length pending))
drain_outcome [] none = none
drain_outcome (task ∷ pending) none =
    some (drain_timeout (length (task ∷ pending)) (take 16 (task ∷ pending)))

-- `drain`: the tracker is empty, or its wait ends before the timeout, or the timeout passes first
pub data Drains (s : Supervisor) : List PendingTask → Supervisor → Type 0 where
  idle : {t : Supervisor} → Steps s t → t.tracked ≡ [] → Drains s [] t
  waited : {t : Supervisor} → Steps s t → t.tracker_closed ≡ true → t.tracked ≡ [] → Drains s [] t
  expired :
      {t u v : Supervisor}
      → Steps s t
      → Steps t u
      → Steps (abort_all u) v
      → v.tracker_closed ≡ true
      → v.tracked ≡ []
      → Drains s (pending_tasks t) v

-- `drain_failure`, with a runtime or without one
pub data DrainFails (runtime : Bool) (s : Supervisor)
    : Option DrainError → Supervisor → Type 0 where
  offline_told :
      {t u : Supervisor}
      → runtime ≡ false
      → has_tracked_tasks s ≡ true
      → Steps s t
      → Steps (abort_all t) u
      → (claim_drain_report u).0 ≡ false
      → DrainFails runtime s none (claim_drain_report u).1
  offline :
      {t u : Supervisor}
      → runtime ≡ false
      → has_tracked_tasks s ≡ true
      → Steps s t
      → Steps (abort_all t) u
      → (claim_drain_report u).0 ≡ true
      → DrainFails runtime s (some no_runtime_to_drain) (claim_drain_report u).1
  told :
      {t u : Supervisor} {pending : List PendingTask}
      → (runtime || not (has_tracked_tasks s)) ≡ true
      → Drains s pending t
      → Steps t u
      → (claim_drain_report u).0 ≡ false
      → DrainFails runtime s none (claim_drain_report u).1
  reports :
      {t u v : Supervisor} {pending : List PendingTask}
      → (runtime || not (has_tracked_tasks s)) ≡ true
      → Drains s pending t
      → Steps t u
      → (claim_drain_report u).0 ≡ true
      → Steps (claim_drain_report u).1 v
      → DrainFails runtime s (drain_outcome pending v.terminal_failure) v
