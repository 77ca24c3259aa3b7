-- ===== src/Serverless/Reached.antt =====
-- The states that a serverless host (crates/kernox-host-serverless/src/lib.rs) reaches, whatever the order in
-- which its callers take the parts of `begin_invocation` and of a guard's drop. `entering` counts the
-- callers between the two parts of the first, `leaving` those between the two parts of the second.
-- `shutdown` borrows the host exclusively, so it runs when no caller is in between and no guard lives.
pub mod Preserved
pub mod Limit
use kernox.Prelude.{
  ℕ, ◌+◌, ◌^◌, ◌≤◌, ◌<◌, ◌≡◌, refl, subst, ap, ◌∙◌, ◌⊎◌, inl, inr, Bool, true, false, not, [], ◌∷◌,
  some, length, ltb, ◌==◌, ok, err, arith, Bool-cases, All, All-map, length-append, ◌%◌, All-append,
  Option-cases, reject_ok,
}
use kernox.Order.{Lt}
use kernox.Order.Derive.{nat_ord}
use kernox.Collections.BTreeSet
use kernox.Runtime.{ShutdownReport, quiesce, stop, dispose}
use kernox.Runtime.Scope.{
  Scope, is_open, child, with_child, drop_invocation, begin_close, finish_close, finish_children,
  begin_child, finish_child,
}
use kernox.Runtime.Rollback.{PluginCode, Run, RunningApp, close_begun, close_finished}
use kernox.Runtime.Rollback.Cleaned.{Present, cleanup-Completes}
use kernox.Runtime.Scope.Children.{length-retain_others, All-retain_others, retain_others-IsSorted}
use kernox.Runtime.Lifecycle
use kernox.Runtime.Scope.Closing.{ScopeState-cases}
use kernox.Serverless.{
  closed, capacity, deadline_exceeded, ServerlessHost, Invocation, new, reserve, enter, release,
  drop_scope, with_scope, shutdown,
}

module _ {P W V R A : Type 0} (code : PluginCode P W V R A) where
  pub record Hosting : Type 0 where
    pub host : ServerlessHost P W V R A
    pub entering : ℕ
    pub leaving : ℕ

  pub data Step (w : Hosting) : Hosting → Type 0 where
    reserves :
        (elapsed : Bool) {h : ServerlessHost P W V R A}
        → reserve elapsed w.host ≡ ok h
        → Step w (record w { host = h; entering = w.entering + 1 })
    enters :
        {n : ℕ}
        → w.entering ≡ n + 1
        → w.host.run.scope.next_id + 1 < 2 ^ 64
        → Step w (record w { host = (enter w.host).1; entering = n })
    leaves :
        (i : Invocation)
        → BTreeSet.contains i.scope w.host.run.scope.children ≡ true
        → Step w (record w { host = drop_scope i w.host; leaving = w.leaving + 1 })
    releases :
        {n : ℕ} → w.leaving ≡ n + 1 → Step w (record w { host = release w.host; leaving = n })
    shuts :
        {report : ShutdownReport} {h : ServerlessHost P W V R A}
        → w.entering ≡ 0
        → w.leaving ≡ 0
        → w.host.run.scope.children ≡ []
        → shutdown {E = Unit} code w.host ≡ ok (report, h)
        → Step w (record w { host = h })

  pub data Steps (w : Hosting) : Hosting → Type 0 where
    here : Steps w w
    next : {x y : Hosting} → Steps w x → Step x y → Steps w y

  -- the counter against the invocations, and the flag against the application's scope
  pub record Coherent (w : Hosting) : Type 0 where
    pub counted : w.host.active ≡ (w.entering + w.leaving) + length w.host.run.scope.children
    pub bounded : w.host.active ≤ w.host.max_concurrent_invocations
    pub sorted : BTreeSet.IsSorted w.host.run.scope.children
    pub numbered : All (λ c. Lt c w.host.run.scope.next_id) w.host.run.scope.children
    pub present : Present w.host.app.plugins w.host.app.graph.startup_order
    pub flag : w.host.accepting ≡ true → is_open w.host.run.scope.state ≡ true

  abbrev fresh : RunningApp P V R A → Run W → ℕ → ServerlessHost P W V R A
  fresh app run max = record {
    app = app;
    run = run;
    max_concurrent_invocations = max;
    accepting = true;
    active = 0;
  }

  -- A new host over an application whose scope has no child yet.
  pub new-Coherent :
      (app : RunningApp P V R A) (run : Run W) (max : ℕ) (h : ServerlessHost P W V R A)
      → run.scope.children ≡ []
      → is_open run.scope.state ≡ true
      → Present app.plugins app.graph.startup_order
      → new app run max ≡ ok h
      → Coherent (record { host = h; entering = 0; leaving = 0 })
        × (h.max_concurrent_invocations ≡ max)
  unfolding new
  new-Coherent app run max h none_yet at there e = elim (Bool-cases (max == 0)) [
    | inl zero_max ↦ absurd (ground arith)
    | inr some_max ↦
        let made = rw some_max at e in
        let is : fresh app run max ≡ h = cc in
        subst
          (λ h.
            Coherent (record { host = h; entering = 0; leaving = 0 })
            × (h.max_concurrent_invocations ≡ max))
          is
          (
            (record {
              counted = ground (arith, ap length none_yet);
              bounded = omega arith;
              sorted = rw none_yet tt;
              numbered = rw none_yet tt;
              present = there;
              flag = λ _. at;
            }),
            refl,
          )
  ]

  -- How the second part of `begin_invocation` ends.
  pub enter_cases :
      (h : ServerlessHost P W V R A)
      → ((enter h ≡ (err closed, release h))
          × (h.accepting ≡ true → is_open h.run.scope.state ≡ false))
        ⊎ ((h.accepting ≡ true)
            × (is_open h.run.scope.state ≡ true)
            × (enter h ≡ (
              ok (record { scope = h.run.scope.next_id }),
              with_scope (with_child h.run.scope) h,
            )))
  unfolding enter child
  enter_cases h = elim (Bool-cases h.accepting) [
    | inr shut ↦ inl (rw (enter, shut) refl, λ e. absurd (cc))
    | inl admits ↦ elim (Bool-cases (is_open h.run.scope.state)) [
      | inl at ↦ inr (admits, at, rw (enter, admits, child, at) refl)
      | inr off ↦ inl (rw (enter, admits, child, off) refl, λ _. off)
    ]
  ]
