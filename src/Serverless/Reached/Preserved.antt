-- ===== src/Serverless/Reached/Preserved.antt =====
-- Every step of a serverless host (crates/kernox-host-serverless/src/lib.rs) keeps it coherent.
use kernox.Prelude.{
  ℕ, ◌+◌, ◌^◌, ◌<◌, ◌≡◌, refl, subst, ap, ◌∙◌, inl, inr, Bool, true, false, not, [], ◌∷◌, some,
  length, ltb, ok, arith, All-map, length-append, ◌%◌, All-append, Option-cases, reject_ok,
}
use kernox.Order.{Lt}
use kernox.Order.Derive.{nat_ord}
use kernox.Collections.BTreeSet
use kernox.Runtime.{ShutdownReport, quiesce, stop, dispose}
use kernox.Runtime.Scope.{
  Scope, drop_invocation, begin_close, finish_close, finish_children, begin_child, finish_child,
}
use kernox.Runtime.Rollback.{PluginCode, Run, RunningApp, close_begun, close_finished}
use kernox.Runtime.Rollback.Cleaned.{Present, cleanup-Completes}
use kernox.Runtime.Scope.Children.{length-retain_others, All-retain_others, retain_others-IsSorted}
use kernox.Runtime.Lifecycle
use kernox.Runtime.Scope.Closing.{ScopeState-cases}
use kernox.Serverless.{
  closed, capacity, deadline_exceeded, ServerlessHost, Invocation, reserve, enter, drop_scope,
  shutdown,
}
use kernox.Serverless.Reached.{
  Hosting, Step, reserves, enters, leaves, releases, shuts, Steps, here, next, Coherent,
  enter_cases,
}

below_next : (k n : ℕ) → n + 1 < 2 ^ 64 → Lt k n → Lt k ((n + 1) % 2 ^ 64)
below_next k n fits h = ground arith

next_below : (n : ℕ) → n + 1 < 2 ^ 64 → Lt n ((n + 1) % 2 ^ 64)
next_below n fits = ground arith

begin_close_children : (s : Scope) → (begin_close s).children ≡ s.children
unfolding begin_close
begin_close_children s = elim (ScopeState-cases s.state) [
  | inl e ↦ ground (arith, e)
  | inr (inl e) ↦ ground (arith, e)
  | inr (inr e) ↦ ground (arith, e)
]

finish_close_children : (s : Scope) → s.children ≡ [] → (finish_close s).children ≡ []
unfolding finish_close finish_children
finish_close_children s e = ap (λ cs. (finish_children cs s).children) e ∙ e

closed_children :
    (s t : Scope) → t ≡ begin_close s → s.children ≡ [] → (finish_close t).children ≡ []
closed_children s t e none_left =
    finish_close_children t (ap (λ s. s.children) e ∙ begin_close_children s ∙ none_left)

module _ {P W V R A : Type 0} (code : PluginCode P W V R A) where
  -- The test of the counter that an accepted `reserve` passed, and its result.
  pub reserve_ok :
      (elapsed : Bool) (h h' : ServerlessHost P W V R A)
      → reserve elapsed h ≡ ok h'
      → (h.active < h.max_concurrent_invocations) × (record h { active = h.active + 1 } ≡ h')
  unfolding reserve
  reserve_ok elapsed h h' e =
      let (_, e2) = reject_ok (not h.accepting) closed _ e in
      let (_, e3) = reject_ok elapsed deadline_exceeded _ e2 in
      let (room, e4) = reject_ok (not (ltb h.active h.max_concurrent_invocations)) capacity _ e3 in
      (ground arith, cc)

  reserves-Coherent :
      (w : Hosting code) (elapsed : Bool) (h : ServerlessHost P W V R A)
      → reserve elapsed w.host ≡ ok h
      → Coherent code w
      → Coherent code (record w { host = h; entering = w.entering + 1 })
  reserves-Coherent w elapsed h e c =
      let (room, is) = reserve_ok elapsed w.host h e in
      subst (λ h. Coherent code (record w { host = h; entering = w.entering + 1 })) is
        (record {
          counted = ground (arith, c.counted);
          bounded = ground (arith, c.bounded);
          sorted = c.sorted;
          numbered = c.numbered;
          present = c.present;
          flag = c.flag;
        })

  enters-Coherent :
      (w : Hosting code) (n : ℕ)
      → w.entering ≡ n + 1
      → w.host.run.scope.next_id + 1 < 2 ^ 64
      → Coherent code w
      → Coherent code (record w { host = (enter w.host).1; entering = n })
  enters-Coherent w n e fits c = elim (enter_cases code w.host) [
    | inl (is, _) ↦ rw is (record {
      counted = ground (arith, c.counted);
      bounded = ground (arith, c.bounded);
      sorted = c.sorted;
      numbered = c.numbered;
      present = c.present;
      flag = c.flag;
    })
    | inr (admits, at, is) ↦
        let s = w.host.run.scope in
        let last = BTreeSet.insert_last s.next_id s.children c.numbered in
        rw is (record {
          counted = ground (arith, c.counted, length-append s.children (s.next_id ∷ []));
          bounded = c.bounded;
          sorted = rw⁻¹ last.0 (BTreeSet.insert-IsSorted s.next_id s.children c.sorted);
          numbered =
              All-append _ s.children (s.next_id ∷ [])
                (All-map _ _ s.children (λ k. below_next k s.next_id fits) c.numbered)
                (next_below s.next_id fits, tt);
          present = c.present;
          flag = λ _. at;
        })
  ]

  leaves-Coherent :
      (w : Hosting code) (i : Invocation)
      → BTreeSet.contains i.scope w.host.run.scope.children ≡ true
      → Coherent code w
      → Coherent code (record w { host = drop_scope i w.host; leaving = w.leaving + 1 })
  unfolding drop_invocation begin_child finish_child
  leaves-Coherent w i there c =
      let cs = w.host.run.scope.children in
      record {
        counted = ground (arith, c.counted, length-retain_others i.scope cs c.sorted there);
        bounded = c.bounded;
        sorted = retain_others-IsSorted i.scope cs c.sorted;
        numbered = All-retain_others _ i.scope cs c.numbered;
        present = c.present;
        flag = c.flag;
      }

  -- What a shutdown leaves of the application of a host without invocations.
  shutdown_keeps :
      (app : RunningApp P V R A) (run : Run W)
      → Present app.plugins app.graph.startup_order
      → run.scope.children ≡ []
      → (report : ShutdownReport) × (app' : RunningApp P V R A) × (run' : Run W)
        × (Lifecycle.shutdown code {E = Unit} app run ≡ ok (report, (app', run')))
        × (run'.scope.children ≡ [])
        × (app'.plugins ≡ app.plugins)
        × (app'.graph ≡ app.graph)
  unfolding Lifecycle.shutdown
  shutdown_keeps app run there none_left = elim (Option-cases app.terminal) [
    | inr (report, ended) ↦
        (report, app, run, simp (Lifecycle.shutdown, ended), none_left, refl, refl)
    | inl running ↦
        let (fs, r, cleans, _, scope) =
          cleanup-Completes code app.graph Unit app.plugins app.graph.startup_order
            (quiesce ∷ stop ∷ dispose ∷ []) (close_begun run) (tt, (tt, (tt, tt))) there in
        let report : ShutdownReport = record { failures = fs } in
        (
          report,
          (record app { terminal = some report }),
          close_finished r,
          rw (Lifecycle.shutdown, running, cleans) refl,
          closed_children run.scope r.scope scope none_left,
          refl,
          refl,
        )
  ]

  pub shuts-Coherent :
      (w : Hosting code) (report : ShutdownReport) (h : ServerlessHost P W V R A)
      → w.host.run.scope.children ≡ []
      → shutdown {E = Unit} code w.host ≡ ok (report, h)
      → Coherent code w
      → Coherent code (record w { host = h })
  unfolding shutdown
  shuts-Coherent w report h none_left e c =
      let (_, app', run', runs, none_left', plugins, graph) =
        shutdown_keeps w.host.app w.host.run c.present none_left in
      let ends = rw runs at e in
      let is : record w.host { accepting = false; app = app'; run = run' } ≡ h = cc in
      subst (λ h. Coherent code (record w { host = h })) is
        (record {
          counted = ground (arith, c.counted, ap length none_left, ap length none_left');
          bounded = c.bounded;
          sorted = rw none_left' tt;
          numbered = rw none_left' tt;
          present = rw (plugins, graph) c.present;
          flag = λ e. absurd (cc);
        })

  pub shuts_ends :
      (w : Hosting code) (report : ShutdownReport) (h : ServerlessHost P W V R A)
      → w.host.run.scope.children ≡ []
      → shutdown {E = Unit} code w.host ≡ ok (report, h)
      → Coherent code w
      → (h.accepting ≡ false)
        × (h.run.scope.children ≡ [])
        × (h.max_concurrent_invocations ≡ w.host.max_concurrent_invocations)
  unfolding shutdown
  shuts_ends w report h none_left e c =
      let (_, app', run', runs, none_left', _, _) =
        shutdown_keeps w.host.app w.host.run c.present none_left in
      let ends = rw runs at e in
      let is : record w.host { accepting = false; app = app'; run = run' } ≡ h = cc in
      subst
        (λ h.
          (h.accepting ≡ false)
          × (h.run.scope.children ≡ [])
          × (h.max_concurrent_invocations ≡ w.host.max_concurrent_invocations))
        is (refl, none_left', refl)

  Step-Coherent : (w x : Hosting code) → Step code w x → Coherent code w → Coherent code x
  Step-Coherent w _ (reserves elapsed {h} e) c = reserves-Coherent w elapsed h e c
  Step-Coherent w _ (enters {n} e fits) c = enters-Coherent w n e fits c
  Step-Coherent w _ (leaves i there) c = leaves-Coherent w i there c
  Step-Coherent w _ (releases {n} e) c = record {
    counted = ground (arith, c.counted);
    bounded = ground (arith, c.bounded);
    sorted = c.sorted;
    numbered = c.numbered;
    present = c.present;
    flag = c.flag;
  }
  Step-Coherent w _ (shuts {report} {h} _ _ none_left e) c = shuts-Coherent w report h none_left e c

  pub Steps-Coherent : (w x : Hosting code) → Steps code w x → Coherent code w → Coherent code x
  Steps-Coherent w _ here c = c
  Steps-Coherent w x (next {x = y} before step) c =
      Step-Coherent y x step (Steps-Coherent w y before c)
