-- ===== src/Samples/Tasks.antt =====
-- A task supervisor with one task, and the plugin that owns it.
use kernox.Prelude.{
  ℕ, ◌≡◌, ◌≤◌, ◌<◌, refl, Bool, true, [], ◌∷◌, some, none, ok, err, length, Option,
}
use kernox.Order.Derive.{nat_ord}
use kernox.Collections.BTreeMap
use kernox.Text.{any, byte_length, len_utf8}
use kernox.Tokio.Drain
use kernox.Tokio.{
  task_name, is_unsafe_name_char, invalid_name, PendingTask, Supervisor, TaskName, TaskFailure,
  closed, new_supervisor, admitted, spawn, quiesce, record_panic, signal_panic, drop_registration,
  untrack, without, claim_drain_report,
}
use kernox.Tokio.Reached.{
  spawns, quiesces, panics, signals, ends, leaves, Steps, here, next, Coherent, supervisor-Coherent,
  Steps-Coherent,
}
use kernox.Tokio.Reached.Later.{closed_for_good, spawn_ids_increase}
use kernox.Tokio.Drain.{
  DrainError, no_runtime_to_drain, terminated, drain_outcome, Drains, waited, DrainFails, told,
  reports,
}
use kernox.Tokio.Drained.{
  closed_drain_is_final, drain_reported_once, first_panic_is_reported, PanicReported, claimed,
}
use kernox.Tokio.Plugin.{
  quiesce_hook, TokioTaskPlugin, Stops, drains, disposes, disposed_plugin_has_no_tasks,
  stop_then_dispose_reports_once,
}

abbrev mailer : TaskName
mailer = record { text = b'm' ∷ [] }

abbrev started : Supervisor
started = new_supervisor 2

abbrev one_task : Supervisor
one_task = admitted mailer started

spawn-mailer : spawn true mailer started ≡ ok (1, one_task)
unfolding spawn new_supervisor
spawn-mailer = refl

to_one_task : Steps started one_task
to_one_task = next here (spawns true mailer 1 spawn-mailer)

supervisor-Coherent_example : Coherent one_task
supervisor-Coherent_example = supervisor-Coherent 2 one_task to_one_task

abbrev quiet : Supervisor
quiet = quiesce one_task

quiet-Coherent : Coherent quiet
quiet-Coherent =
    Steps-Coherent one_task quiet (next here quiesces) (supervisor-Coherent 2 one_task to_one_task)

abbrev task_ended : Supervisor → Supervisor
task_ended s = untrack 1 (drop_registration 1 s)

to_end : Steps quiet (task_ended quiet)
unfolding quiesce drop_registration new_supervisor BTreeMap.insert BTreeMap.remove
    BTreeMap.contains_key
to_end = next (next here (ends 1)) (leaves 1 refl)

closed_for_good_example :
    ((runtime : Bool) (name : TaskName) → spawn runtime name (task_ended quiet) ≡ err closed)
    × ((id : ℕ)
        → BTreeMap.contains_key id (task_ended quiet).tasks ≡ true
        → BTreeMap.contains_key id quiet.tasks ≡ true)
unfolding quiesce
closed_for_good_example = closed_for_good quiet (task_ended quiet) quiet-Coherent to_end refl

spawn_ids_increase_example : 1 < 2
unfolding spawn new_supervisor BTreeMap.insert
spawn_ids_increase_example =
    spawn_ids_increase started one_task one_task (admitted mailer one_task) true true mailer mailer
      1 2 (supervisor-Coherent 2 started here) spawn-mailer here refl

drain_of_quiet : Drains quiet [] (task_ended quiet)
unfolding quiesce drop_registration untrack without new_supervisor
drain_of_quiet = waited to_end refl refl

closed_drain_is_final_example :
    ((task_ended quiet).tasks ≡ [])
    × ((task_ended quiet).tasks ≡ [])
    × (length {A = PendingTask} [] ≤ quiet.max_tasks)
unfolding quiesce
closed_drain_is_final_example =
    closed_drain_is_final quiet (task_ended quiet) (task_ended quiet) [] quiet-Coherent refl
      drain_of_quiet here

abbrev told_quiet : Supervisor
told_quiet = (claim_drain_report (task_ended quiet)).1

first_drain : DrainFails true quiet (drain_outcome [] told_quiet.terminal_failure) told_quiet
unfolding quiesce drop_registration untrack claim_drain_report new_supervisor
first_drain = reports refl drain_of_quiet here refl here

idle_drain : Drains told_quiet [] told_quiet
unfolding quiesce drop_registration untrack without claim_drain_report new_supervisor
idle_drain = waited here refl refl

second_drain : DrainFails true told_quiet none (claim_drain_report told_quiet).1
unfolding quiesce drop_registration untrack claim_drain_report new_supervisor
second_drain = told refl idle_drain here refl

drain_reported_once_example : ◌≡◌ {A = Option DrainError} none none
drain_reported_once_example =
    drain_reported_once quiet told_quiet told_quiet (claim_drain_report told_quiet).1 true true
      (drain_outcome [] told_quiet.terminal_failure) none quiet-Coherent first_drain here
      second_drain

abbrev mailer_failure : TaskFailure
mailer_failure = record { id = 1; name = mailer; error_tag = "tokio-task.panicked" }

abbrev broken : Supervisor
broken = signal_panic (record_panic 1 one_task)

broken-Coherent : Coherent broken
unfolding record_panic
broken-Coherent =
    Steps-Coherent one_task broken (next (next here (panics 1)) (signals refl))
      supervisor-Coherent_example

to_broken_end : Steps broken (task_ended broken)
unfolding record_panic signal_panic drop_registration new_supervisor BTreeMap.insert BTreeMap.remove
    BTreeMap.contains_key
to_broken_end = next (next here (ends 1)) (leaves 1 refl)

abbrev told_broken : Supervisor
told_broken = (claim_drain_report (task_ended broken)).1

broken_drain : DrainFails true broken (drain_outcome [] told_broken.terminal_failure) told_broken
unfolding record_panic signal_panic drop_registration untrack without claim_drain_report
    new_supervisor
broken_drain = reports refl (waited to_broken_end refl refl) here refl here

first_panic_is_reported_example :
    (told_broken.terminal_failure ≡ some mailer_failure)
    × PanicReported true broken
        (drain_outcome [] told_broken.terminal_failure)
        (claimed broken_drain)
        mailer_failure
unfolding record_panic signal_panic new_supervisor BTreeMap.insert BTreeMap.get
first_panic_is_reported_example =
    first_panic_is_reported broken told_broken true (drain_outcome [] told_broken.terminal_failure)
      mailer_failure broken-Coherent refl broken_drain

abbrev plugin_with : Option Supervisor → TokioTaskPlugin
plugin_with supervisor = record { max_tasks = 2; supervisor = supervisor }

disposed_plugin_has_no_tasks_example :
    (◌≡◌ {A = Option Supervisor} none none)
    × (told_quiet.tasks ≡ [])
    × ((runtime : Bool) (name : TaskName) → spawn runtime name told_quiet ≡ err closed)
disposed_plugin_has_no_tasks_example =
    disposed_plugin_has_no_tasks one_task told_quiet told_quiet (plugin_with (some one_task))
      (plugin_with none) (drain_outcome [] told_quiet.terminal_failure)
      (supervisor-Coherent 2 one_task to_one_task) refl (disposes refl here first_drain) here

stop_quiet :
    Stops true
      (plugin_with (some quiet))
      (drain_outcome [] told_quiet.terminal_failure)
      (plugin_with (some told_quiet))
stop_quiet = drains refl first_drain

last_idle : Drains (quiesce told_quiet) [] (quiesce told_quiet)
unfolding quiesce drop_registration untrack without claim_drain_report new_supervisor
last_idle = waited here refl refl

last_drain : DrainFails true (quiesce told_quiet) none (claim_drain_report (quiesce told_quiet)).1
unfolding quiesce drop_registration untrack claim_drain_report new_supervisor
last_drain = told refl last_idle here refl

stop_then_dispose_reports_once_example : ◌≡◌ {A = Option DrainError} none none
stop_then_dispose_reports_once_example =
    stop_then_dispose_reports_once quiet told_quiet told_quiet (plugin_with (some quiet))
      (plugin_with (some told_quiet)) (plugin_with none)
      (some (claim_drain_report (quiesce told_quiet)).1) true true
      (drain_outcome [] told_quiet.terminal_failure) none quiet-Coherent refl stop_quiet refl here
      (disposes refl here last_drain)

named-mailer : task_name (b'm' ∷ []) ≡ ok mailer
unfolding task_name is_unsafe_name_char any byte_length len_utf8
named-mailer = refl

named-bidi : task_name (b'm' ∷ 0x202e ∷ []) ≡ err invalid_name
unfolding task_name is_unsafe_name_char any byte_length len_utf8
named-bidi = refl

quiesced : quiesce_hook (plugin_with (some one_task)) ≡ plugin_with (some quiet)
unfolding quiesce_hook
quiesced = refl

drain_tag : Drain.tag no_runtime_to_drain ≡ "tokio-task.no-runtime"
unfolding Drain.tag
drain_tag = refl
