-- ===== src/Samples/Invocations.antt =====
-- A serverless host over the sample application, with room for one invocation.
use kernox.Prelude.{
  ℕ, ◌+◌, ◌≡◌, ◌≤◌, ◌<◌, ◌⊎◌, refl, Bool, true, false, [], ok, err, length, Result, arith,
}
use kernox.Runtime.{ShutdownReport}
use kernox.Runtime.Scope.{application}
use kernox.Runtime.Rollback.Cleaned.{Present}
use kernox.Id.{plugin_id_ord}
use kernox.Runtime.Lifecycle
use kernox.Runtime.Rollback.{cleanup, cleanup_plugins, run_cleanup_hook}
use kernox.Serverless
use kernox.Serverless.{
  ServerlessHost, Invocation, InvocationAdmissionError, closed, admission, new, reserve, enter,
  begin_invocation, invoke, handled, shutdown,
}
use kernox.Serverless.Reached.{Hosting, reserves, enters, Steps, here, next, Coherent, new-Coherent}
use kernox.Serverless.Admission.{Admits, Refused, begin_invocation_lem}
use kernox.Serverless.Invoked.{invoke_lem}
use kernox.Serverless.Final.{invocations_bounded, shut_host_is_final}
use kernox.Samples.{Version, program}
use kernox.Samples.Lifecycle.{code, fresh, running_shop}

abbrev warm : ServerlessHost ℕ ℕ Version Version ℕ
warm = record {
  app = running_shop;
  run = fresh;
  max_concurrent_invocations = 1;
  accepting = true;
  active = 0;
}

abbrev idle : Hosting code
idle = record { host = warm; entering = 0; leaving = 0 }

warm-Present : Present running_shop.plugins running_shop.graph.startup_order
unfolding program
warm-Present = (refl, (refl, tt))

idle-Coherent : Coherent code idle
unfolding application new
idle-Coherent = (new-Coherent code running_shop fresh 1 warm refl refl warm-Present refl).0

begin_invocation_lem_example :
    ((warm.accepting ≡ true)
      × (false ≡ false)
      × (0 < 1)
      × ((t : ServerlessHost ℕ ℕ Version Version ℕ) × (begin_invocation false warm
            ≡ (ok (record { scope = 1 }), t))
          × Admits code warm t))
    ⊎ ((e : InvocationAdmissionError) × Refused code false warm e
        × (begin_invocation false warm ≡ (err e, warm)))
unfolding application
begin_invocation_lem_example = begin_invocation_lem code idle false idle-Coherent

abbrev answer : Invocation → Result ℕ ℕ
answer i = ok (i.scope + 41)

invoke_lem_example :
    (((warm.accepting ≡ true) × (false ≡ false) × (0 < 1) × ((invoke false answer warm).0 ≡ ok 42))
      ⊎ ((e : InvocationAdmissionError) × Refused code false warm e
          × ((invoke false answer warm).0 ≡ err (admission e))))
    × ((invoke false answer warm).1.active ≡ 0)
    × ((invoke false answer warm).1.run.scope.children ≡ [])
unfolding application
invoke_lem_example = invoke_lem code idle false answer idle-Coherent

abbrev taken : ServerlessHost ℕ ℕ Version Version ℕ
taken = record warm { active = 1 }

abbrev one_entering : Hosting code
one_entering = record { host = taken; entering = 1; leaving = 0 }

to_one_entering : Steps code idle one_entering
unfolding reserve
to_one_entering = next here (reserves false refl)

abbrev one_inside : Hosting code
one_inside = record { host = (enter taken).1; entering = 0; leaving = 0 }

to_one_inside : Steps code idle one_inside
unfolding application
to_one_inside = next to_one_entering (enters refl (omega arith))

invocations_bounded_example :
    (one_inside.host.active ≡ 0 + length one_inside.host.run.scope.children)
    × (length one_inside.host.run.scope.children ≤ 1)
unfolding application new
invocations_bounded_example =
    invocations_bounded code running_shop fresh 1 warm one_inside refl refl warm-Present refl
      to_one_inside

abbrev report_of :
    Result Unit (ShutdownReport × ServerlessHost ℕ ℕ Version Version ℕ) → ShutdownReport
report_of (ok (report, h)) = report
report_of _ = record { failures = [] }

abbrev host_of :
    Result Unit (ShutdownReport × ServerlessHost ℕ ℕ Version Version ℕ)
    → ServerlessHost ℕ ℕ Version Version ℕ
host_of (ok (report, h)) = h
host_of _ = warm

abbrev shut : ServerlessHost ℕ ℕ Version Version ℕ
shut = host_of (shutdown {E = Unit} code warm)

shutdown-warm : shutdown {E = Unit} code warm ≡ ok (report_of (shutdown {E = Unit} code warm), shut)
unfolding shutdown Lifecycle.shutdown cleanup cleanup_plugins run_cleanup_hook program
shutdown-warm = refl

abbrev ended : Hosting code
ended = record { host = shut; entering = 0; leaving = 0 }

shut_host_is_final_example :
    ((elapsed : Bool) → begin_invocation elapsed shut ≡ (err closed, shut))
    × (shut.run.scope.children ≡ [])
    × (shut.active ≡ 0)
unfolding application
shut_host_is_final_example =
    shut_host_is_final code idle ended (report_of (shutdown {E = Unit} code warm)) shut
      idle-Coherent refl refl refl shutdown-warm here

closed_tag : Serverless.tag closed ≡ "serverless.closed"
unfolding Serverless.tag
closed_tag = refl
