-- ===== src/Serverless/Invoked.antt =====
-- What `invoke` of crates/kernox-host-serverless/src/lib.rs does with a handler and leaves of the host.
use kernox.Prelude.{
  ◌<◌, ◌≡◌, refl, sym, subst, ap, ◌∙◌, ◌⊎◌, inl, inr, Bool, true, false, Result, ok, err, fault,
  arith,
}
use kernox.Order.Derive.{nat_ord}
use kernox.Collections.BTreeSet
use kernox.Runtime.Scope.{drop_invocation, begin_child, finish_child}
use kernox.Runtime.Scope.Children.{retain_last}
use kernox.Runtime.Rollback.{PluginCode}
use kernox.Serverless.{
  Invocation, InvocationAdmissionError, InvocationError, handler, invoke, drop_guard, admission,
  handled, run_handler,
}
use kernox.Serverless.Reached.{Hosting, Coherent}
use kernox.Serverless.Admission.{admitted, Refused, begin_invocation_cases}

module _ {P W V R A : Type 0} (code : PluginCode P W V R A) where
  -- The guard of the invocation that was admitted last gives back its place.
  drop_guard-admitted :
      (w : Hosting code)
      → Coherent code w
      → ((drop_guard (record { scope = w.host.run.scope.next_id }) (admitted code w.host)).active
          ≡ w.host.active)
        × ((drop_guard
              (record { scope = w.host.run.scope.next_id })
              (admitted code w.host)).run.scope.children
            ≡ w.host.run.scope.children)
  unfolding drop_guard drop_invocation begin_child finish_child
  drop_guard-admitted w c =
      let s = w.host.run.scope in
      let last = BTreeSet.insert_last s.next_id s.children c.numbered in
      (ground arith, retain_last s.next_id s.children last.1)

  -- what `invoke` returns when the handler of an admitted invocation has ended
  abbrev pub Passes : {E T : Type 0} → Result E T → Result (InvocationError E) T → Type 0
  Passes (ok a) result = result ≡ ok a
  Passes (err e) result = result ≡ err (handler e)
  Passes fault result = result ≡ fault

  handled-Passes : {E T : Type 0} (m : Result E T) → Passes m (handled m)
  handled-Passes (ok a) = refl
  handled-Passes (err e) = refl
  handled-Passes fault = refl

  -- Whatever the deadline, the load and the handler's result: when the host admits the invocation, `invoke` calls
  -- the handler with its own new scope, and returns the handler's value, its error as `Handler`, or its panic;
  -- otherwise it returns `Closed`, `DeadlineExceeded` or `Capacity`, the first that applies in this order. In
  -- both cases it returns every place that it took: the counter and the registered invocations are as they were.
  pub invoke_lem :
      {E T : Type 0} (w : Hosting code) (elapsed : Bool) (body : Invocation → Result E T)
      → Coherent code w
      → (((w.host.accepting ≡ true)
            × (elapsed ≡ false)
            × (w.host.active < w.host.max_concurrent_invocations)
            × Passes
                (body (record { scope = w.host.run.scope.next_id }))
                (invoke elapsed body w.host).0)
          ⊎ ((e : InvocationAdmissionError) × Refused code elapsed w.host e
              × ((invoke elapsed body w.host).0 ≡ err (admission e))))
        × ((invoke elapsed body w.host).1.active ≡ w.host.active)
        × ((invoke elapsed body w.host).1.run.scope.children ≡ w.host.run.scope.children)
  unfolding invoke
  invoke_lem w elapsed body c = elim (begin_invocation_cases code w elapsed c) [
    | inl (admits, in_time, room, is) ↦
        let runs = ap (run_handler body) is in
        let (places, scopes) = drop_guard-admitted w c in
        let result = body (record { scope = w.host.run.scope.next_id }) in
        (
          inl (
            admits,
            in_time,
            room,
            subst (Passes result) (sym (ap (λ r. r.0) runs)) (handled-Passes result),
          ),
          ap (λ r. r.1.active) runs ∙ places,
          ap (λ r. r.1.run.scope.children) runs ∙ scopes,
        )
    | inr (e, why, is) ↦
        let refuses = ap (run_handler body) is in
        (
          inr (e, why, ap (λ r. r.0) refuses),
          ap (λ r. r.1.active) refuses,
          ap (λ r. r.1.run.scope.children) refuses,
        )
  ]
