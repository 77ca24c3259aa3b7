-- ===== src/Tokio/Reached.antt =====
-- The states that a supervisor reaches (crates/kernox-host-tokio/src/lib.rs), whatever the order of the
-- callers and of the tasks: each step is one section under the lock, or one change of Tokio's objects.
pub mod Later
use kernox.Prelude.{
  ℕ, suc, ◌+◌, ◌≤◌, ◌<◌, ◌-◌, ◌^◌, ◌≡◌, refl, sym, subst, ap, ◌∙◌, ◌⊎◌, inl, inr, Bool, true, false,
  List, [], ◌∷◌, ◌++◌, map, Memᴰ, Option, none, some, length, Result, ok, err, All, All-mem,
  mem_concat, bind_ok, reject_ok, arith, Bool-cases, Option-cases, if◌then◌else◌, leb, ◌==◌, ◌>>◌,
  ◌>>=◌, All-map, length-append, ==_iff, not, ◌&&◌, ◌||◌,
}
use kernox.Order.{Lt, same, same_iff}
use kernox.Order.Derive.{nat_ord}
use kernox.Collections.BTreeSet
use kernox.Collections.BTreeMap
use kernox.Collections.BTreeMap.Remove.{
  All-remove, All-entries-remove, remove-IsSorted, length-remove, contains_key-remove,
}
use kernox.Tokio.{
  Supervisor, TaskName, TaskRecord, TaskFailure, SpawnError, closed, no_runtime, capacity,
  new_supervisor, admitted, spawn, quiesce, record_panic, signal_panic, cancel, drop_registration,
  without, untrack, abort_all, claim_drain_report, first_failure,
}

pub data Step (s : Supervisor) : Supervisor → Type 0 where
  spawns :
      (runtime : Bool) (name : TaskName) (id : ℕ) {t : Supervisor}
      → spawn runtime name s ≡ ok (id, t)
      → Step s t
  quiesces : Step s (quiesce s)
  panics : (id : ℕ) → Step s (record_panic id s)
  signals : s.accepting ≡ false → Step s (signal_panic s)
  cancels : Step s (cancel s)
  ends : (id : ℕ) → Step s (drop_registration id s)
  leaves : (id : ℕ) → BTreeMap.contains_key id s.tasks ≡ false → Step s (untrack id s)
  aborts_all : Step s (abort_all s)
  claims : Step s (claim_drain_report s).1

pub data Steps (s : Supervisor) : Supervisor → Type 0 where
  here : Steps s s
  next : {t u : Supervisor} → Steps s t → Step t u → Steps s u

-- `bounded` and `numbered` bound the live tasks, `counted` and `abortable` tie them to Tokio's objects.
pub record Coherent (s : Supervisor) : Type 0 where
  pub bounded : length s.tasks ≤ s.max_tasks
  pub sorted : BTreeMap.IsSorted s.tasks
  pub numbered : All (λ k. Lt k s.next_id) (BTreeMap.keys s.tasks)
  pub counted :
      (id : ℕ) → BTreeMap.contains_key id s.tasks ≡ true → BTreeSet.contains id s.tracked ≡ true
  abortable : All (λ e. e.1.abort ≡ some e.0) s.tasks
  pub shut : s.tracker_closed ≡ true → s.accepting ≡ false
  pub failed : (f : TaskFailure) → s.terminal_failure ≡ some f → s.accepting ≡ false

new_supervisor-Coherent : (max_tasks : ℕ) → Coherent (new_supervisor max_tasks)
unfolding new_supervisor BTreeMap.contains_key
new_supervisor-Coherent max_tasks = record {
  bounded = omega arith;
  sorted = tt;
  numbered = tt;
  counted = λ id e. absurd (cc);
  abortable = tt;
  shut = λ e. absurd (cc);
  failed = λ f e. absurd (cc);
}

lt_of_Lt : (a b : ℕ) → Lt a b → Lt a (b + 1)
lt_of_Lt a b h = ground arith

Lt_next : (n : ℕ) → Lt n (n + 1)
Lt_next n = ground arith

contains-without :
    (j k : ℕ) (s : List ℕ)
    → BTreeSet.contains j (without k s) ≡ (BTreeSet.contains j s && not (same j k))
unfolding without
contains-without j k [] = refl
contains-without j k (x ∷ xs) =
    ground (arith, contains-without j k xs, same_iff j x, same_iff j k, same_iff x k)

-- The tests that an accepted `spawn` passed, and its result.
pub spawn_ok :
    (runtime : Bool) (name : TaskName) (s t : Supervisor) (id : ℕ)
    → spawn runtime name s ≡ ok (id, t)
    → (s.accepting ≡ true)
      × (length s.tasks < s.max_tasks)
      × (id ≡ s.next_id)
      × (t ≡ admitted name s)
unfolding spawn
spawn_ok runtime name s t id h =
    let (admits, h2) = reject_ok (not s.accepting) closed _ h in
    let (there, h3) = reject_ok (not runtime) no_runtime _ h2 in
    let (room, h4) = reject_ok (leb s.max_tasks (length s.tasks)) capacity _ h3 in
    let (fits, h5) = reject_ok (leb (2 ^ 64 - 1) s.next_id) capacity _ h4 in
    (ground arith, ground arith, cc, cc)

admitted-Coherent :
    (name : TaskName) (s : Supervisor)
    → length s.tasks < s.max_tasks
    → s.accepting ≡ true
    → Coherent s
    → Coherent (admitted name s)
admitted-Coherent name s room admits h =
    let id = s.next_id in
    let entry : TaskRecord = record { name = name; abort = some id } in
    let (last, new) = BTreeMap.insert_last id entry s.tasks h.numbered in
    record {
      bounded = ground (arith, ap length last, length-append s.tasks ((id, entry) ∷ []));
      sorted = BTreeMap.insert-IsSorted id entry s.tasks h.sorted;
      numbered = rw (BTreeMap.keys-insert id entry s.tasks) (
          BTreeSet.All-insert _ id (BTreeMap.keys s.tasks) (Lt_next id)
            (All-map _ _ (BTreeMap.keys s.tasks) (λ k. lt_of_Lt k id) h.numbered));
      counted = λ j e. ground (
        arith,
        BTreeSet.contains-append j s.tracked (id ∷ []),
        BTreeMap.contains_key-insert j id entry s.tasks,
        h.counted j,
      );
      abortable = BTreeMap.All-insert _ id entry s.tasks refl h.abortable;
      shut = λ e. absurd (ground (arith, h.shut e));
      failed = λ f e. absurd (ground (arith, h.failed f e));
    }

drop_registration-Coherent :
    (id : ℕ) (s : Supervisor) → Coherent s → Coherent (drop_registration id s)
unfolding drop_registration
drop_registration-Coherent id s h = record {
  bounded = ground (arith, length-remove id s.tasks, h.bounded);
  sorted = remove-IsSorted id s.tasks h.sorted;
  numbered = All-remove _ id s.tasks h.numbered;
  counted = λ j e. ground (arith, contains_key-remove j id s.tasks h.sorted, h.counted j);
  abortable = All-entries-remove _ id s.tasks h.abortable;
  shut = h.shut;
  failed = h.failed;
}

untrack-Coherent :
    (id : ℕ) (s : Supervisor)
    → BTreeMap.contains_key id s.tasks ≡ false
    → Coherent s
    → Coherent (untrack id s)
unfolding untrack
untrack-Coherent id s gone h = record {
  bounded = h.bounded;
  sorted = h.sorted;
  numbered = h.numbered;
  counted = λ j e. ground (arith, contains-without j id s.tracked, h.counted j, same_iff j id);
  abortable = h.abortable;
  shut = h.shut;
  failed = h.failed;
}

-- A change that leaves the tasks alone and closes admission where it has to.
closing-Coherent :
    (s t : Supervisor)
    → t.max_tasks ≡ s.max_tasks
    → t.next_id ≡ s.next_id
    → t.tasks ≡ s.tasks
    → t.tracked ≡ s.tracked
    → (t.tracker_closed ≡ true → t.accepting ≡ false)
    → ((f : TaskFailure) → t.terminal_failure ≡ some f → t.accepting ≡ false)
    → Coherent s
    → Coherent t
closing-Coherent s t m n ts tr shut failed h = record {
  bounded = rw (m, ts) h.bounded;
  sorted = rw ts h.sorted;
  numbered = rw (n, ts) h.numbered;
  counted = rw (ts, tr) h.counted;
  abortable = rw ts h.abortable;
  shut = shut;
  failed = failed;
}

pub claim_cases :
    (s : Supervisor)
    → ((s.drain_reported ≡ true) × (claim_drain_report s ≡ (false, s)))
      ⊎ ((s.drain_reported ≡ false)
          × (claim_drain_report s ≡ (true, record s { drain_reported = true })))
unfolding claim_drain_report
claim_cases s =
    let run : Bool → Bool × Supervisor =
      λ told. if told then (false, s) else (true, record s { drain_reported = true }) in
    elim (Bool-cases s.drain_reported) [
      | inl told ↦ inl (told, ap run told)
      | inr untold ↦ inr (untold, ap run untold)
    ]

pub Step-Coherent : (s t : Supervisor) → Step s t → Coherent s → Coherent t
unfolding quiesce record_panic signal_panic cancel abort_all claim_drain_report
Step-Coherent s t (spawns runtime name id e) h =
    let (admits, room, _, is) = spawn_ok runtime name s t id e in
    rw is (admitted-Coherent name s room admits h)
Step-Coherent s _ quiesces h = closing-Coherent s _ refl refl refl refl (λ _. refl) (λ _ _. refl) h
Step-Coherent s _ (panics id) h =
    closing-Coherent s _ refl refl refl refl (λ _. refl) (λ _ _. refl) h
Step-Coherent s _ (signals shut) h =
    closing-Coherent s _ refl refl refl refl (λ _. shut) (λ _ _. shut) h
Step-Coherent s _ cancels h = closing-Coherent s _ refl refl refl refl h.shut h.failed h
Step-Coherent s _ (ends id) h = drop_registration-Coherent id s h
Step-Coherent s _ (leaves id gone) h = untrack-Coherent id s gone h
Step-Coherent s _ aborts_all h = closing-Coherent s _ refl refl refl refl h.shut h.failed h
Step-Coherent s _ claims h = elim (claim_cases s) [
  | inl (_, told) ↦ rw told h
  | inr (_, claimed) ↦ rw claimed (closing-Coherent s _ refl refl refl refl h.shut h.failed h)
]

-- Every step keeps a coherent supervisor coherent.
pub Steps-Coherent : (s t : Supervisor) → Steps s t → Coherent s → Coherent t
Steps-Coherent s _ here h = h
Steps-Coherent s t (next {t = u} before step) h =
    Step-Coherent u t step (Steps-Coherent s u before h)

-- Whatever the order of the callers and of the tasks, and whoever cancels the shared token, a supervisor that began
-- with `new` has never more than `max_tasks` registered tasks, their identifiers are distinct and below the
-- next one, the tracker counts each of them, each has an abort handle, and once the tracker is closed or a
-- panic is recorded, admission is closed.
pub supervisor-Coherent :
    (max_tasks : ℕ) (s : Supervisor) → Steps (new_supervisor max_tasks) s → Coherent s
supervisor-Coherent max_tasks s steps =
    Steps-Coherent (new_supervisor max_tasks) s steps (new_supervisor-Coherent max_tasks)
