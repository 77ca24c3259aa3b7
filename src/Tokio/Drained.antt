-- ===== src/Tokio/Drained.antt =====
-- What a drain of the supervisor (crates/kernox-host-tokio/src/lib.rs) leaves and reports.
use kernox.Prelude.{
  ℕ, ◌≤◌, ◌≡◌, refl, ap, ◌⊎◌, inl, inr, Bool, true, false, List, [], ◌∷◌, Option, none, some,
  length, length-map, arith, Bool-cases,
}
use kernox.Order.{same_refl}
use kernox.Order.Derive.{nat_ord}
use kernox.Collections.BTreeSet
use kernox.Collections.BTreeMap
use kernox.Tokio.{
  Supervisor, TaskRecord, TaskFailure, PendingTask, pending_task, pending_tasks, claim_drain_report,
  has_tracked_tasks,
}
use kernox.Tokio.Reached.{
  Steps, here, next, claims, aborts_all, Coherent, Steps-Coherent, claim_cases,
}
use kernox.Tokio.Reached.Later.{Steps-Later}
use kernox.Tokio.Drain.{
  DrainError, no_runtime_to_drain, terminated, drain_outcome, Drains, idle, waited, expired,
  DrainFails, offline_told, offline, told, reports,
}

pub Steps-trans : {s t u : Supervisor} → Steps s t → Steps t u → Steps s u
Steps-trans before here = before
Steps-trans before (next after step) = next (Steps-trans before after) step

Drains-Steps : {s t : Supervisor} {pending : List PendingTask} → Drains s pending t → Steps s t
Drains-Steps (idle steps _) = steps
Drains-Steps (waited steps _ _) = steps
Drains-Steps (expired to_timeout to_abort to_end _ _) =
    Steps-trans (next (Steps-trans to_timeout to_abort) aborts_all) to_end

pub DrainFails-Steps :
    {runtime : Bool} {s t : Supervisor} {r : Option DrainError}
    → DrainFails runtime s r t
    → Steps s t
DrainFails-Steps (offline_told _ _ before after _) =
    next (Steps-trans (next before aborts_all) after) claims
DrainFails-Steps (offline _ _ before after _) =
    next (Steps-trans (next before aborts_all) after) claims
DrainFails-Steps (told _ drain after _) = next (Steps-trans (Drains-Steps drain) after) claims
DrainFails-Steps (reports _ drain after _ later) =
    Steps-trans (next (Steps-trans (Drains-Steps drain) after) claims) later

Drains-tracked :
    {s t : Supervisor} {pending : List PendingTask} → Drains s pending t → t.tracked ≡ []
Drains-tracked (idle _ empty) = empty
Drains-tracked (waited _ _ empty) = empty
Drains-tracked (expired _ _ _ _ empty) = empty

no_entries : (m : List (ℕ × TaskRecord)) → ((id : ℕ) → BTreeMap.contains_key id m ≡ false) → m ≡ []
unfolding BTreeMap.contains_key
no_entries [] h = refl
no_entries ((id, r) ∷ m) h = absurd (ground (arith, h id, same_refl id))

-- What the tracker does not count is not registered.
untracked_tasks : (s : Supervisor) → Coherent s → s.tracked ≡ [] → s.tasks ≡ []
untracked_tasks s h empty = no_entries s.tasks λ id.
    elim (Bool-cases (BTreeMap.contains_key id s.tasks)) [
      | inl there ↦ absurd (ground (arith, h.counted id there, ap (BTreeSet.contains id) empty))
      | inr gone ↦ gone
    ]

pending_bound :
    {s t : Supervisor} {pending : List PendingTask}
    → Coherent s
    → Drains s pending t
    → length pending ≤ s.max_tasks
unfolding pending_tasks
pending_bound h (idle _ _) = omega arith
pending_bound h (waited _ _ _) = omega arith
pending_bound {s = s} h (expired {t = t} to_timeout _ _ _ _) = ground (
  arith,
  (Steps-Coherent s t to_timeout h).bounded,
  (Steps-Later s t to_timeout h).limit,
  length-map pending_task t.tasks,
)

closed_stays_empty :
    (t u : Supervisor) → Coherent t → t.accepting ≡ false → t.tasks ≡ [] → Steps t u → u.tasks ≡ []
unfolding BTreeMap.contains_key
closed_stays_empty t u h shut none_left after = no_entries u.tasks λ id.
    elim (Bool-cases (BTreeMap.contains_key id u.tasks)) [
      | inl there ↦
          let before = (Steps-Later t u after h).no_more shut id there in
          absurd (ground (arith, before, ap (BTreeMap.contains_key id) none_left))
      | inr gone ↦ gone
    ]

-- A drain that begins after admission closed ends with no registered task, none is registered after
-- it whatever callers and tasks do then, and it lists at most `max_tasks` tasks as pending.
pub closed_drain_is_final :
    (s t u : Supervisor) (pending : List PendingTask)
    → Coherent s
    → s.accepting ≡ false
    → Drains s pending t
    → Steps t u
    → (t.tasks ≡ []) × (u.tasks ≡ []) × (length pending ≤ s.max_tasks)
closed_drain_is_final s t u pending h shut drain after =
    let before = Drains-Steps drain in
    let ends = Steps-Coherent s t before h in
    let none_left = untracked_tasks t ends (Drains-tracked drain) in
    let still_shut = (Steps-Later s t before h).shut shut in
    (none_left, closed_stays_empty t u ends still_shut none_left after, pending_bound h drain)

claim_told : (u : Supervisor) → u.drain_reported ≡ true → (claim_drain_report u).0 ≡ false
claim_told u e = elim (claim_cases u) [
  | inl (_, is) ↦ ap (λ r. r.0) is
  | inr (untold, _) ↦ absurd (cc)
]

claim_reported : (u : Supervisor) → (claim_drain_report u).1.drain_reported ≡ true
claim_reported u = elim (claim_cases u) [
  | inl (told_before, is) ↦ rw is told_before
  | inr (_, is) ↦ rw is refl
]

DrainFails-reported :
    {runtime : Bool} {s t : Supervisor} {r : Option DrainError}
    → Coherent s
    → DrainFails runtime s r t
    → t.drain_reported ≡ true
DrainFails-reported h (offline_told {u = u} _ _ _ _ _) = claim_reported u
DrainFails-reported h (offline {u = u} _ _ _ _ _) = claim_reported u
DrainFails-reported h (told {u = u} _ _ _ _) = claim_reported u
DrainFails-reported {s = s} h (reports {u = u} {v = v} _ drain after _ later) =
    let claimed = Steps-Coherent s _ (next (Steps-trans (Drains-Steps drain) after) claims) h in
    (Steps-Later (claim_drain_report u).1 v later claimed).told (claim_reported u)

none_after_report :
    {runtime : Bool} {s t : Supervisor} {r : Option DrainError}
    → Coherent s
    → s.drain_reported ≡ true
    → DrainFails runtime s r t
    → r ≡ none
none_after_report h e (offline_told _ _ _ _ _) = refl
none_after_report h e (told _ _ _ _) = refl
none_after_report {s = s} h e (offline {u = u} _ _ before after claimed) =
    let told = (Steps-Later s u (Steps-trans (next before aborts_all) after) h).told e in
    absurd (ground (arith, claim_told u told, claimed))
none_after_report {s = s} h e (reports {u = u} _ drain after claimed _) =
    let told = (Steps-Later s u (Steps-trans (Drains-Steps drain) after) h).told e in
    absurd (ground (arith, claim_told u told, claimed))

-- A supervisor's drain is reported at most once: whatever happens in between, and with a runtime or without
-- one, a second `drain_failure` on it reports nothing.
pub drain_reported_once :
    (s t u v : Supervisor) (runtime runtime' : Bool) (r r' : Option DrainError)
    → Coherent s
    → DrainFails runtime s r t
    → Steps t u
    → DrainFails runtime' u r' v
    → r' ≡ none
drain_reported_once s t u v runtime runtime' r r' h first between second =
    let at_t = Steps-Coherent s t (DrainFails-Steps first) h in
    let told = (Steps-Later t u between at_t).told (DrainFails-reported h first) in
    none_after_report (Steps-Coherent t u between at_t) told second

claim_refused : (u : Supervisor) → (claim_drain_report u).0 ≡ false → u.drain_reported ≡ true
claim_refused u e = elim (claim_cases u) [
  | inl (told_before, _) ↦ told_before
  | inr (_, is) ↦ absurd (ground (arith, e, ap (λ r. r.0) is))
]

-- whether the report of the drain fell to this call
abbrev pub claimed :
    {runtime : Bool} {s t : Supervisor} {r : Option DrainError} → DrainFails runtime s r t → Bool
claimed (offline_told {u = u} _ _ _ _ _) = (claim_drain_report u).0
claimed (offline {u = u} _ _ _ _ _) = (claim_drain_report u).0
claimed (told {u = u} _ _ _ _) = (claim_drain_report u).0
claimed (reports {u = u} _ _ _ _ _) = (claim_drain_report u).0

-- What a drain returns after a panic with the failure `f`.
abbrev pub PanicReported :
    (runtime : Bool) (s : Supervisor) (r : Option DrainError) (mine : Bool) (f : TaskFailure)
    → Type 0
PanicReported runtime s r mine f =
    ((mine ≡ false) × (r ≡ none) × ((u : Supervisor) × Steps s u × (u.drain_reported ≡ true)))
    ⊎ (((mine ≡ true)
          × (runtime ≡ false)
          × (has_tracked_tasks s ≡ true)
          × (r ≡ some no_runtime_to_drain))
        ⊎ ((mine ≡ true)
            × ((pending : List PendingTask) × (t : Supervisor) × Drains s pending t
                × (r ≡ some (terminated f (length pending))))))

names_failure :
    {runtime : Bool} {s t : Supervisor} {r : Option DrainError} (f : TaskFailure)
    → t.terminal_failure ≡ some f
    → (d : DrainFails runtime s r t) → PanicReported runtime s r (claimed d) f
unfolding drain_outcome
names_failure f e (offline_told {u = u} _ _ before after refused) =
    inl (refused, refl, (u, Steps-trans (next before aborts_all) after, claim_refused u refused))
names_failure f e (told {u = u} _ drain after refused) =
    inl (refused, refl, (u, Steps-trans (Drains-Steps drain) after, claim_refused u refused))
names_failure f e (offline absent tracked _ _ mine) = inr (inl (mine, absent, tracked, refl))
names_failure f e (reports {t = t} {pending = pending} _ drain _ mine _) =
    inr (inr (mine, (pending, t, drain, ap (drain_outcome pending) e)))

-- The first panic is the one that the report names: if a task panicked before the drain, then its failure stays
-- the supervisor's; a drain whose claim of the report is refused returns nothing, and the drain was
-- reported before that claim; a drain whose claim is granted returns that very failure with the number of
-- the pending tasks, or, without a runtime and with tracked tasks, that it has no runtime.
pub first_panic_is_reported :
    (s t : Supervisor) (runtime : Bool) (r : Option DrainError) (f : TaskFailure)
    → Coherent s
    → s.terminal_failure ≡ some f
    → (d : DrainFails runtime s r t)
    → (t.terminal_failure ≡ some f) × PanicReported runtime s r (claimed d) f
first_panic_is_reported s t runtime r f h e d =
    let kept = (Steps-Later s t (DrainFails-Steps d) h).failure f e in
    (kept, names_failure f kept d)
