-- ===== src/Serverless/Final.antt =====
-- The whole life of a serverless host (crates/kernox-host-serverless/src/lib.rs): its bound, and its end.
use kernox.Prelude.{
  ℕ, ◌+◌, ◌≤◌, ◌≡◌, ap, Bool, true, false, length, ok, err, arith, not, reject_ok, [],
}
use kernox.Order.Derive.{nat_ord}
use kernox.Collections.BTreeSet
use kernox.Runtime.{ShutdownReport}
use kernox.Runtime.Scope.{is_open}
use kernox.Runtime.Rollback.{PluginCode, Run, RunningApp}
use kernox.Runtime.Rollback.Cleaned.{Present}
use kernox.Serverless.{ServerlessHost, closed, new, reserve, begin_invocation, shutdown}
use kernox.Serverless.Reached.{
  Hosting, Step, reserves, enters, leaves, releases, shuts, Steps, here, next, Coherent,
  new-Coherent,
}
use kernox.Serverless.Reached.Preserved.{Steps-Coherent, shuts_ends, shuts-Coherent}
use kernox.Serverless.Reached.Limit.{Steps-limit}

module _ {P W V R A : Type 0} (code : PluginCode P W V R A) where
  -- a host that has been shut down
  record Ended (w : Hosting code) : Type 0 where
    refusing : w.host.accepting ≡ false
    none_entering : w.entering ≡ 0
    none_leaving : w.leaving ≡ 0
    none_left : w.host.run.scope.children ≡ []

  -- Whatever the interleaving of callers, guards and shutdown, a host over a ready application has at every
  -- moment exactly as many places taken as there are callers in `begin_invocation`, registered invocations and
  -- guards in their drop, and the registered invocations never exceed the configured limit.
  pub invocations_bounded :
      (app : RunningApp P V R A) (run : Run W) (max : ℕ) (h : ServerlessHost P W V R A)
      (x : Hosting code)
      → run.scope.children ≡ []
      → is_open run.scope.state ≡ true
      → Present app.plugins app.graph.startup_order
      → new app run max ≡ ok h
      → Steps code (record { host = h; entering = 0; leaving = 0 }) x
      → (x.host.active ≡ (x.entering + x.leaving) + length x.host.run.scope.children)
        × (length x.host.run.scope.children ≤ max)
  invocations_bounded app run max h x none_yet at there e steps =
      let (begins, limit) = new-Coherent code app run max h none_yet at there e in
      let c = Steps-Coherent code _ x steps begins in
      (c.counted, ground (arith, c.counted, c.bounded, Steps-limit code _ x steps begins, limit))

  Step-Ended : (w x : Hosting code) → Step code w x → Coherent code w → Ended w → Ended x
  unfolding reserve
  Step-Ended w _ (reserves elapsed {h} e) c z =
      absurd (ground (arith, reject_ok (not w.host.accepting) closed _ e, z.refusing))
  Step-Ended w _ (enters e _) c z = absurd (ground (arith, z.none_entering))
  Step-Ended w _ (leaves i there) c z =
      absurd (ground (arith, ap (BTreeSet.contains i.scope) z.none_left))
  Step-Ended w _ (releases e) c z = absurd (ground (arith, z.none_leaving))
  Step-Ended w _ (shuts {report} {h} _ _ none_left e) c z =
      let (refuses, none_left', _) = shuts_ends code w report h none_left e c in
      record {
        refusing = refuses;
        none_entering = z.none_entering;
        none_leaving = z.none_leaving;
        none_left = none_left';
      }

  Steps-Ended : (w x : Hosting code) → Steps code w x → Coherent code w → Ended w → Ended x
  Steps-Ended w _ here c z = z
  Steps-Ended w x (next {x = y} before step) c z =
      Step-Ended y x step (Steps-Coherent code w y before c) (Steps-Ended w y before c z)

  refused :
      (h : ServerlessHost P W V R A) (elapsed : Bool)
      → h.accepting ≡ false
      → begin_invocation elapsed h ≡ (err closed, h)
  unfolding begin_invocation reserve
  refused h elapsed e = simp (begin_invocation, reserve, e)

  -- Once `shutdown` has returned, whatever is called later: every invocation is refused with `Closed` and
  -- changes nothing, no invocation is registered and the counter is 0.
  pub shut_host_is_final :
      (w x : Hosting code) (report : ShutdownReport) (h : ServerlessHost P W V R A)
      → Coherent code w
      → w.entering ≡ 0
      → w.leaving ≡ 0
      → w.host.run.scope.children ≡ []
      → shutdown {E = Unit} code w.host ≡ ok (report, h)
      → Steps code (record w { host = h }) x
      → ((elapsed : Bool) → begin_invocation elapsed x.host ≡ (err closed, x.host))
        × (x.host.run.scope.children ≡ [])
        × (x.host.active ≡ 0)
  shut_host_is_final w x report h c none_entering none_leaving none_left e steps =
      let after = shuts-Coherent code w report h none_left e c in
      let (refuses, none_left', _) = shuts_ends code w report h none_left e c in
      let ended = Steps-Ended _ x steps after (record {
        refusing = refuses;
        none_entering = none_entering;
        none_leaving = none_leaving;
        none_left = none_left';
      }) in
      let later = Steps-Coherent code _ x steps after in
      (
        λ elapsed. refused x.host elapsed ended.refusing,
        ended.none_left,
        ground (
          arith,
          later.counted,
          ended.none_entering,
          ended.none_leaving,
          ap length ended.none_left,
        ),
      )
