-- ===== src/Tokio.antt =====
-- The task supervisor of the Tokio host (crates/kernox-host-tokio/src/lib.rs). Tokio is not in the
-- repository: whether a runtime is active is an argument, a task is the number that it was given, and
-- `tracked` holds the tasks that the `TaskTracker` still counts. `aborts` holds the abort handles that were
-- used, and `cancelled` is the sticky `CancellationToken`.
pub mod Reached
pub mod Drain
pub mod Drained
pub mod Plugin
use kernox.Prelude.{
  ℕ, ◌+◌, ◌-◌, ◌^◌, Bool, true, false, not, ◌||◌, List, [], ◌∷◌, ◌++◌, map, Option, none, some, ltb,
  leb, ◌==◌, length, if◌then◌else◌, is_empty, Result, ok, err, ◌>>=◌, ◌>>◌, reject_if, String,
}
use kernox.Order.Derive.{nat_ord}
use kernox.Collections.BTreeMap
use kernox.Text.{Chars, in_range, is_control, byte_length, any}

abbrev max_task_name_bytes : ℕ
max_task_name_bytes = 128

pub data SpawnError : Type 0 where
  invalid_name closed capacity no_runtime : SpawnError

pub record TaskName : Type 0 where
  pub text : Chars

unfoldable pub is_unsafe_name_char : ℕ → Bool
unfolding is_control
is_unsafe_name_char c =
    is_control c
    || (c == 0x061c
        || (in_range 0x200b 0x200f c
            || (in_range 0x2028 0x202e c
                || (in_range 0x2060 0x2064 c || (in_range 0x2066 0x206f c || c == 0xfeff)))))

-- `TaskName::new`
unfoldable pub task_name : Chars → Result SpawnError TaskName
unfolding is_unsafe_name_char
task_name value =
    if is_empty value
      || (ltb max_task_name_bytes (byte_length value) || any is_unsafe_name_char value)
    then err invalid_name
    else ok (record { text = value })

pub record TaskFailure : Type 0 where
  pub id : ℕ
  pub name : TaskName
  pub error_tag : String

pub record PendingTask : Type 0 where
  pub id : ℕ
  pub name : TaskName

-- `abort` is the handle, which names the task that it aborts
pub record TaskRecord : Type 0 where
  pub name : TaskName
  pub abort : Option ℕ

-- `SupervisorInner` with the `State` behind its lock
pub record Supervisor : Type 0 where
  pub max_tasks : ℕ
  pub cancelled : Bool
  pub tracker_closed : Bool
  pub tracked : List ℕ
  aborts : List ℕ
  pub accepting : Bool
  pub next_id : ℕ
  pub tasks : List (ℕ × TaskRecord)
  pub terminal_failure : Option TaskFailure
  pub drain_reported : Bool

-- `TaskSupervisor::new`
unfoldable pub new_supervisor : ℕ → Supervisor
new_supervisor max_tasks = record {
  max_tasks = max_tasks;
  cancelled = false;
  tracker_closed = false;
  tracked = [];
  aborts = [];
  accepting = true;
  next_id = 1;
  tasks = [];
  terminal_failure = none;
  drain_reported = false;
}

-- the admitted task: its record with its abort handle, and the tracker's count of it
abbrev pub admitted : TaskName → Supervisor → Supervisor
admitted name s = record s {
  next_id = s.next_id + 1;
  tracked = s.tracked ++ s.next_id ∷ [];
  tasks = BTreeMap.insert s.next_id (record { name = name; abort = some s.next_id }) s.tasks;
}

-- `spawn`, under the lock; `next_id` is a 64-bit integer with `checked_add`
unfoldable pub spawn : Bool → TaskName → Supervisor → Result SpawnError (ℕ × Supervisor)
spawn runtime name s = do
  reject_if (not s.accepting) closed
  reject_if (not runtime) no_runtime
  reject_if (leb s.max_tasks (length s.tasks)) capacity
  reject_if (leb (2 ^ 64 - 1) s.next_id) capacity
  ok (s.next_id, admitted name s)

-- `quiesce`, under the lock
unfoldable pub quiesce : Supervisor → Supervisor
quiesce s = record s { accepting = false; tracker_closed = true; cancelled = true }

-- `TaskName("unknown-task")`
abbrev unknown_task : TaskName
unknown_task = record {
  text = b'u' ∷ b'n' ∷ b'k' ∷ b'n' ∷ b'o' ∷ b'w' ∷ b'n' ∷ b'-' ∷ b't' ∷ b'a' ∷ b's' ∷ b'k' ∷ [];
}

abbrev name_or_unknown : Option TaskRecord → TaskName
name_or_unknown none = unknown_task
name_or_unknown (some r) = r.name

abbrev pub first_failure : Option TaskFailure → TaskFailure → TaskFailure
first_failure none failure = failure
first_failure (some first) failure = first

-- `record_panic`, what it does under the lock
unfoldable pub record_panic : ℕ → Supervisor → Supervisor
record_panic id s = record s {
  accepting = false;
  terminal_failure = some (
      first_failure s.terminal_failure (record {
        id = id;
        name = name_or_unknown (BTreeMap.get id s.tasks);
        error_tag = "tokio-task.panicked";
      }));
}

-- `record_panic`, what it does after the lock is released
unfoldable pub signal_panic : Supervisor → Supervisor
signal_panic s = record s { tracker_closed = true; cancelled = true }

-- `cancellation_token` gives the caller a clone of the shared token, which it may cancel at any time.
unfoldable pub cancel : Supervisor → Supervisor
cancel s = record s { cancelled = true }

-- `TaskRegistration` is dropped: the task has ended, panicked or was aborted.
unfoldable pub drop_registration : ℕ → Supervisor → Supervisor
drop_registration id s = record s { tasks = BTreeMap.remove id s.tasks }

unfoldable pub without : ℕ → List ℕ → List ℕ
without id [] = []
without id (j ∷ js) = if j == id then without id js else j ∷ without id js

-- The tracker no longer counts a task, whose registration is gone.
unfoldable pub untrack : ℕ → Supervisor → Supervisor
unfolding without
untrack id s = record s { tracked = without id s.tracked }

abbrev pub pending_task : ℕ × TaskRecord → PendingTask
pending_task (id, r) = record { id = id; name = r.name }

-- `pending_tasks`
pub pending_tasks : Supervisor → List PendingTask
pending_tasks s = map pending_task s.tasks

abbrev handle_of : Option ℕ → List ℕ → List ℕ
handle_of none others = others
handle_of (some handle) others = handle ∷ others

unfoldable handles : List (ℕ × TaskRecord) → List ℕ
handles [] = []
handles ((id, r) ∷ tasks) = handle_of r.abort (handles tasks)

-- `abort_all`
pub abort_all : Supervisor → Supervisor
unfolding handles
abort_all s = record s { aborts = s.aborts ++ handles s.tasks }

-- `has_tracked_tasks`
abbrev pub has_tracked_tasks : Supervisor → Bool
has_tracked_tasks s = not (is_empty s.tracked)

-- `claim_drain_report`
unfoldable pub claim_drain_report : Supervisor → Bool × Supervisor
claim_drain_report s =
    if s.drain_reported then (false, s) else (true, record s { drain_reported = true })
