-- ===== src/Serverless/Reached/Limit.antt =====
-- No step of a serverless host (crates/kernox-host-serverless/src/lib.rs) changes its limit.
use kernox.Prelude.{sym, ◌≡◌, refl, ap, ◌∙◌, inl, inr}
use kernox.Order.Derive.{nat_ord}
use kernox.Runtime.Rollback.{PluginCode}
use kernox.Serverless.{ServerlessHost, enter}
use kernox.Serverless.Reached.{
  Hosting, Step, reserves, enters, leaves, releases, shuts, Steps, here, next, Coherent,
  enter_cases,
}
use kernox.Serverless.Reached.Preserved.{reserve_ok, shuts_ends, Steps-Coherent}

module _ {P W V R A : Type 0} (code : PluginCode P W V R A) where
  enter_limit :
      (h : ServerlessHost P W V R A)
      → (enter h).1.max_concurrent_invocations ≡ h.max_concurrent_invocations
  enter_limit h = elim (enter_cases code h) [
    | inl (is, _) ↦ ap (λ r. r.1.max_concurrent_invocations) is
    | inr (_, _, is) ↦ ap (λ r. r.1.max_concurrent_invocations) is
  ]

  -- The limit is never changed.
  Step-limit :
      (w x : Hosting code)
      → Step code w x
      → Coherent code w
      → x.host.max_concurrent_invocations ≡ w.host.max_concurrent_invocations
  Step-limit w _ (reserves elapsed {h} e) c =
      sym (ap (λ h. h.max_concurrent_invocations) (reserve_ok code elapsed w.host h e).1)
  Step-limit w _ (enters _ _) c = enter_limit w.host
  Step-limit w _ (leaves _ _) c = refl
  Step-limit w _ (releases _) c = refl
  Step-limit w _ (shuts {report} {h} _ _ none_left e) c =
      (shuts_ends code w report h none_left e c).2

  pub Steps-limit :
      (w x : Hosting code)
      → Steps code w x
      → Coherent code w
      → x.host.max_concurrent_invocations ≡ w.host.max_concurrent_invocations
  Steps-limit w _ here c = refl
  Steps-limit w x (next {x = y} before step) c =
      Step-limit y x step (Steps-Coherent code w y before c) ∙ Steps-limit w y before c
