-- ===== src/Serverless/Admission.antt =====
-- What the callers of a serverless host (crates/kernox-host-serverless/src/lib.rs) can rely on.
use kernox.Prelude.{
  ℕ, ◌+◌, ◌%◌, ◌^◌, refl, [], ◌∷◌, ◌++◌, some, if◌then◌else◌, ◌≤◌, ◌<◌, ◌≡◌, ap, ◌∙◌, ◌⊎◌, inl, inr,
  Bool, true, false, not, ltb, Result, ok, err, arith, Bool-cases, ◌>>◌, reject_if,
}
use kernox.Order.Derive.{nat_ord}
use kernox.Order.{same}
use kernox.Collections.BTreeMap
use kernox.Runtime.Scope.{with_child, opened}
use kernox.Runtime.Rollback.{PluginCode}
use kernox.Serverless.{
  ServerlessHost, InvocationAdmissionError, closed, capacity, deadline_exceeded, reserve,
  with_scope, begin_invocation, entered,
}
use kernox.Serverless.Reached.{Hosting, Coherent, enter_cases}

module _ {P W V R A : Type 0} (code : PluginCode P W V R A) where
  -- Why an admission is refused, and with which error: the first reason of the three counts.
  abbrev pub Refused : Bool → ServerlessHost P W V R A → InvocationAdmissionError → Type 0
  Refused elapsed h e =
      ((h.accepting ≡ false) × (e ≡ closed))
      ⊎ (((h.accepting ≡ true) × (elapsed ≡ true) × (e ≡ deadline_exceeded))
          ⊎ ((h.accepting ≡ true)
              × (elapsed ≡ false)
              × (h.max_concurrent_invocations ≤ h.active)
              × (e ≡ capacity)))

  -- `t` is `h` with one more place taken and one more registered child, the one with the next number, which is
  -- open.
  pub record Admits (h t : ServerlessHost P W V R A) : Type 0 where
    pub counted : t.active ≡ h.active + 1
    pub registered : t.run.scope.children ≡ h.run.scope.children ++ h.run.scope.next_id ∷ []
    pub open_child :
        (i : ℕ)
        → BTreeMap.get i t.run.scope.invocations ≡ (
            if same i h.run.scope.next_id
            then some opened
            else BTreeMap.get i h.run.scope.invocations)
    pub numbered : t.run.scope.next_id ≡ (h.run.scope.next_id + 1) % 2 ^ 64
    pub same_state : t.run.scope.state ≡ h.run.scope.state
    pub same_app : t.app ≡ h.app
    pub same_world : t.run.world ≡ h.run.world
    pub same_observed : t.run.observed ≡ h.run.observed
    pub same_limit : t.max_concurrent_invocations ≡ h.max_concurrent_invocations
    pub same_flag : t.accepting ≡ h.accepting

  -- the tests of `reserve`
  abbrev tested :
      Bool
      → Bool
      → Bool
      → ServerlessHost P W V R A
      → Result InvocationAdmissionError (ServerlessHost P W V R A)
  tested accepting elapsed room h =
      reject_if (not accepting) closed
      >> (reject_if elapsed deadline_exceeded >> (reject_if (not room) capacity >> ok h))

  reserve_cases :
      (elapsed : Bool) (h : ServerlessHost P W V R A)
      → ((e : InvocationAdmissionError) × (reserve elapsed h ≡ err e) × Refused elapsed h e)
        ⊎ ((h.accepting ≡ true)
            × (elapsed ≡ false)
            × (h.active < h.max_concurrent_invocations)
            × (reserve elapsed h ≡ ok (record h { active = h.active + 1 })))
  unfolding reserve
  reserve_cases elapsed h =
      let next : ServerlessHost P W V R A = record h { active = h.active + 1 } in
      let room = ltb h.active h.max_concurrent_invocations in
      elim (Bool-cases h.accepting) [
        | inr shut ↦ inl (closed, ap (λ b. tested b elapsed room next) shut, inl (shut, refl))
        | inl admits ↦ elim (Bool-cases elapsed) [
          | inl late ↦ inl (
            deadline_exceeded,
            ap (λ b. tested b elapsed room next) admits ∙ ap (λ b. tested true b room next) late,
            inr (inl (admits, late, refl)),
          )
          | inr in_time ↦ elim (Bool-cases room) [
            | inr full ↦ inl (
              capacity,
              ap (λ b. tested b elapsed room next) admits
                  ∙ ap (λ b. tested true b room next) in_time
                  ∙ ap (λ b. tested true false b next) full,
              inr (inr (admits, in_time, ground arith, refl)),
            )
            | inl free ↦ inr (
              admits,
              in_time,
              ground arith,
              ap (λ b. tested b elapsed room next) admits
                  ∙ ap (λ b. tested true b room next) in_time
                  ∙ ap (λ b. tested true false b next) free,
            )
          ]
        ]
      ]

  -- the host with one more invocation
  abbrev pub admitted : ServerlessHost P W V R A → ServerlessHost P W V R A
  admitted h = with_scope (with_child h.run.scope) (record h { active = h.active + 1 })

  pub begin_invocation_cases :
      (w : Hosting code) (elapsed : Bool)
      → Coherent code w
      → ((w.host.accepting ≡ true)
          × (elapsed ≡ false)
          × (w.host.active < w.host.max_concurrent_invocations)
          × (begin_invocation elapsed w.host
              ≡ (ok (record { scope = w.host.run.scope.next_id }), admitted w.host)))
        ⊎ ((e : InvocationAdmissionError) × Refused elapsed w.host e
            × (begin_invocation elapsed w.host ≡ (err e, w.host)))
  unfolding begin_invocation
  begin_invocation_cases w elapsed c = elim (reserve_cases elapsed w.host) [
    | inl (e, refused, why) ↦ inr (e, why, ap (entered w.host) refused)
    | inr (admits, in_time, room, is) ↦
        elim (enter_cases code (record w.host { active = w.host.active + 1 })) [
          | inl (_, ended) ↦ absurd (ground (arith, ended admits, c.flag admits))
          | inr (_, _, made) ↦ inl (admits, in_time, room, ap (entered w.host) is ∙ made)
        ]
  ]

  admitted-Admits : (h : ServerlessHost P W V R A) → Admits h (admitted h)
  admitted-Admits h =
      let n = h.run.scope.next_id in
      record {
        counted = refl;
        registered = refl;
        open_child = λ i. BTreeMap.get-insert i n opened h.run.scope.invocations;
        numbered = refl;
        same_state = refl;
        same_app = refl;
        same_world = refl;
        same_observed = refl;
        same_limit = refl;
        same_flag = refl;
      }

  -- A coherent host that accepts, before the deadline and below its limit, admits an invocation under the
  -- next number: it adds one to the counter, registers that number as a child, which is open, advances the
  -- number of scopes, and changes nothing else of its application. In every other case the call is refused
  -- and the host is as it was: with `Closed` when it does not accept, else with `DeadlineExceeded` when the
  -- deadline has passed, else with `Capacity` when it is at its limit.
  pub begin_invocation_lem :
      (w : Hosting code) (elapsed : Bool)
      → Coherent code w
      → ((w.host.accepting ≡ true)
          × (elapsed ≡ false)
          × (w.host.active < w.host.max_concurrent_invocations)
          × ((t : ServerlessHost P W V R A) × (begin_invocation elapsed w.host
                ≡ (ok (record { scope = w.host.run.scope.next_id }), t))
              × Admits w.host t))
        ⊎ ((e : InvocationAdmissionError) × Refused elapsed w.host e
            × (begin_invocation elapsed w.host ≡ (err e, w.host)))
  begin_invocation_lem w elapsed c = elim (begin_invocation_cases w elapsed c) [
    | inl (admits, in_time, room, is) ↦
        inl (admits, in_time, room, (admitted w.host, is, admitted-Admits w.host))
    | inr refused ↦ inr refused
  ]
