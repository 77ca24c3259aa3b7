-- ===== src/Tokio/Reached/Later.antt =====
-- What no later step of a supervisor (crates/kernox-host-tokio/src/lib.rs) takes back.
use kernox.Prelude.{
  ℕ, ◌≤◌, ◌<◌, ◌≡◌, refl, ap, ◌∙◌, inl, inr, Bool, true, false, some, ok, err, arith,
}
use kernox.Order.Derive.{nat_ord}
use kernox.Collections.BTreeMap
use kernox.Collections.BTreeMap.Remove.{contains_key-remove}
use kernox.Tokio.{
  Supervisor, TaskName, TaskFailure, closed, spawn, quiesce, record_panic, signal_panic, cancel,
  drop_registration, untrack, abort_all,
}
use kernox.Tokio.Reached.{
  Step, spawns, quiesces, panics, signals, cancels, ends, leaves, aborts_all, claims, Steps, here,
  next, Coherent, Step-Coherent, Steps-Coherent, spawn_ok, claim_cases,
}

-- `t` is at least as far as `s`.
pub record Later (s t : Supervisor) : Type 0 where
  pub ids : s.next_id ≤ t.next_id
  pub limit : t.max_tasks ≡ s.max_tasks
  pub shut : s.accepting ≡ false → t.accepting ≡ false
  pub cancelled : s.cancelled ≡ true → t.cancelled ≡ true
  pub failure : (f : TaskFailure) → s.terminal_failure ≡ some f → t.terminal_failure ≡ some f
  pub told : s.drain_reported ≡ true → t.drain_reported ≡ true
  pub no_more :
      s.accepting ≡ false
      → (id : ℕ) → BTreeMap.contains_key id t.tasks ≡ true
      → BTreeMap.contains_key id s.tasks ≡ true

Later-refl : (s : Supervisor) → Later s s
Later-refl s = record {
  ids = omega arith;
  limit = refl;
  shut = λ e. e;
  cancelled = λ e. e;
  failure = λ f e. e;
  told = λ e. e;
  no_more = λ e id i. i;
}

Later-trans : (s t u : Supervisor) → Later s t → Later t u → Later s u
Later-trans s t u p q = record {
  ids = ground (arith, p.ids, q.ids);
  limit = q.limit ∙ p.limit;
  shut = λ e. q.shut (p.shut e);
  cancelled = λ e. q.cancelled (p.cancelled e);
  failure = λ f e. q.failure f (p.failure f e);
  told = λ e. q.told (p.told e);
  no_more = λ e id i. p.no_more e id (q.no_more (p.shut e) id i);
}

-- A change that leaves the tasks and the counter alone.
tasks_kept-Later :
    (s t : Supervisor)
    → t.next_id ≡ s.next_id
    → t.max_tasks ≡ s.max_tasks
    → t.tasks ≡ s.tasks
    → (s.accepting ≡ false → t.accepting ≡ false)
    → (s.cancelled ≡ true → t.cancelled ≡ true)
    → ((f : TaskFailure) → s.terminal_failure ≡ some f → t.terminal_failure ≡ some f)
    → (s.drain_reported ≡ true → t.drain_reported ≡ true)
    → Later s t
tasks_kept-Later s t n m ts shut cancelled failure told = record {
  ids = omega arith;
  limit = m;
  shut = shut;
  cancelled = cancelled;
  failure = failure;
  told = told;
  no_more = λ _ id i. rw⁻¹ ts i;
}

Step-Later : (s t : Supervisor) → Step s t → Coherent s → Later s t
unfolding quiesce record_panic signal_panic cancel drop_registration untrack abort_all
Step-Later s t (spawns runtime name id e) h =
    let (admits, _, _, is) = spawn_ok runtime name s t id e in
    rw is (record {
      ids = omega arith;
      limit = refl;
      shut = λ e. absurd (cc);
      cancelled = λ e. e;
      failure = λ f e. e;
      told = λ e. e;
      no_more = λ e. absurd (cc);
    })
Step-Later s _ quiesces h =
    tasks_kept-Later s _ refl refl refl (λ _. refl) (λ _. refl) (λ f e. e) (λ e. e)
Step-Later s _ (panics id) h =
    tasks_kept-Later s _ refl refl refl (λ _. refl) (λ e. e) (λ f e. rw e refl) (λ e. e)
Step-Later s _ (signals shut) h =
    tasks_kept-Later s _ refl refl refl (λ e. e) (λ _. refl) (λ f e. e) (λ e. e)
Step-Later s _ cancels h =
    tasks_kept-Later s _ refl refl refl (λ e. e) (λ _. refl) (λ f e. e) (λ e. e)
Step-Later s _ (ends id) h = record {
  ids = omega arith;
  limit = refl;
  shut = λ e. e;
  cancelled = λ e. e;
  failure = λ f e. e;
  told = λ e. e;
  no_more = λ _ j i. ground (arith, contains_key-remove j id s.tasks h.sorted);
}
Step-Later s _ (leaves id gone) h =
    tasks_kept-Later s _ refl refl refl (λ e. e) (λ e. e) (λ f e. e) (λ e. e)
Step-Later s _ aborts_all h =
    tasks_kept-Later s _ refl refl refl (λ e. e) (λ e. e) (λ f e. e) (λ e. e)
Step-Later s _ claims h = elim (claim_cases s) [
  | inl (_, told) ↦ rw told (Later-refl s)
  | inr (_, claimed) ↦
      rw claimed (tasks_kept-Later s _ refl refl refl (λ e. e) (λ e. e) (λ f e. e) (λ _. refl))
]

-- Every later state is at least as far.
pub Steps-Later : (s t : Supervisor) → Steps s t → Coherent s → Later s t
Steps-Later s _ here h = Later-refl s
Steps-Later s u (next {t = t} before step) h =
    Later-trans s t u (Steps-Later s t before h) (Step-Later t u step (Steps-Coherent s t before h))

-- Once admission is closed, by `quiesce` or by a panic, it stays closed whatever the callers and the tasks do:
-- every later `spawn` is refused with `Closed`, with a runtime or without one, and only tasks that
-- were registered before are registered later.
pub closed_for_good :
    (s t : Supervisor)
    → Coherent s
    → Steps s t
    → s.accepting ≡ false
    → ((runtime : Bool) (name : TaskName) → spawn runtime name t ≡ err closed)
      × ((id : ℕ)
          → BTreeMap.contains_key id t.tasks ≡ true
          → BTreeMap.contains_key id s.tasks ≡ true)
unfolding spawn
closed_for_good s t h steps shut =
    let later = Steps-Later s t steps h in
    (λ runtime name. rw (later.shut shut) refl, later.no_more shut)

-- No identifier is given twice: a later `spawn` gives a greater one.
pub spawn_ids_increase :
    (s t u v : Supervisor) (runtime runtime' : Bool) (name name' : TaskName) (id id' : ℕ)
    → Coherent s
    → spawn runtime name s ≡ ok (id, t)
    → Steps t u
    → spawn runtime' name' u ≡ ok (id', v)
    → id < id'
spawn_ids_increase s t u v runtime runtime' name name' id id' h first steps second =
    let (_, _, at, is) = spawn_ok runtime name s t id first in
    let (_, _, at', _) = spawn_ok runtime' name' u v id' second in
    let later = Steps-Later t u steps (Step-Coherent s t (spawns runtime name id first) h) in
    ground (arith, later.ids, ap (λ r. r.next_id) is)
