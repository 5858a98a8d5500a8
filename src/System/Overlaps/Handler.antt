-- ===== src/System/Overlaps/Handler.antt =====
-- The payment and the storing of an order, as the handler runs them, are steps of an overlapping run.
use mathlib.Core.Path.{subst}
use coffee_shop_api.Prelude.{ℕ, zero, suc, sym, Bool-cases, inl, inr, [], ◌∷◌}
use coffee_shop_api.Breaker.{Admission, enter, on_success, on_failure}
use coffee_shop_api.Breaker.Steps as Blocks
use coffee_shop_api.App.{World, App, Result, ok, err, advance, catch, ◌>>◌}
use coffee_shop_api.Payment.{
  is_retried, again, attempt, max_retries, call, process, admission, enter_call, end_call,
  fail_call, wrap,
}
use coffee_shop_api.Repositories.Orders.{order_repository}
use coffee_shop_api.Services.{payment_service}
use coffee_shop_api.UseCases.CreateOrder.{store, pay_and_store}
use coffee_shop_api.System.{Environment}
use coffee_shop_api.System.Overlaps.{Paid, Service, Step, Reach, after_attempt, with_world}

module _ (env : Environment) where
  one : (s u : Service) → Step env s u → Reach env s u
  one s u step = Reach.next s u Reach.here step

  joined : (s t u : Service) → Reach env s t → Reach env t u → Reach env s u
  joined s t _ r Reach.here = r
  joined s t u r (Reach.next v _ q step) = Reach.next v u (joined s t v r q) step

  module _ (p : Paid) where
    -- an action of the payment runs in steps, and leaves the request paid if it returns
    abbrev Runs : App (Unit {0}) → Type 0
    Runs m = (s : Service) → Reach env s (after_attempt p s (m s.world))

    attempt-Runs : Runs (attempt env.api p.total)
    attempt-Runs s = one s _ (Step.attempted s p)

    again-Runs :
        (delay : ℕ) (rest : App (Unit {0})) (s : Service) (o : Result (Unit {0}) × World)
        → Runs rest
        → Reach env s (after_attempt p s o)
        → Reach env s (after_attempt p s (again is_retried delay rest o))
    again-Runs delay rest s (ok done, w) k h = h
    again-Runs delay rest s (err e, w) k h = elim (Bool-cases (is_retried e)) [
      | inl retried ↦ rw retried (
          joined s (with_world s (advance delay w)) _
            (Reach.next (with_world s w) _ h (Step.elapsed (with_world s w) delay))
            (k (with_world s (advance delay w))))
      | inr final ↦ rw final h
    ]

    retry-Runs : (n : ℕ) → Runs (env.tenacity.retry is_retried (suc n) (attempt env.api p.total))
    retry-Runs zero s =
        subst (λ o. Reach env s (after_attempt p s o))
          (sym (env.tenacity.last is_retried (attempt env.api p.total) s.world)) (attempt-Runs s)
    retry-Runs (suc n) s =
        subst (λ o. Reach env s (after_attempt p s o))
          (sym (env.tenacity.more is_retried n (attempt env.api p.total) s.world))
          (again-Runs (env.tenacity.delay n)
            (env.tenacity.retry is_retried (suc n) (attempt env.api p.total)) s
            (attempt env.api p.total s.world) (retry-Runs n) (attempt-Runs s))

    -- the block after the coroutine, for a success and for a failure
    counted :
        (s : Service) (o : Result (Unit {0}) × World)
        → Reach env s (after_attempt p s o)
        → Reach env s (after_attempt p s ((catch (λ _. o) fail_call >> end_call) s.world))
    unfolding fail_call end_call
    counted s (ok done, w) h =
        Reach.next (record s { world = w; paid = p ∷ s.paid }) _ h
          (Step.breaker (record s { world = w; paid = p ∷ s.paid }) (on_success w.breaker)
            Blocks.Step.succeeds)
    counted s (err e, w) h = Reach.next (with_world s w) _ h (
        Step.breaker (with_world s w) (on_failure w.monotonic w.breaker)
          (Blocks.Step.fails w.monotonic))

    -- the block before the coroutine
    admitted :
        (a : Admission) (s : Service) (coro : App (Unit {0}))
        → Runs (do catch coro fail_call; end_call)
        → Reach env s (
            after_attempt p s (
              ((λ (_ : World). (admission a, s.world)) >> (do catch coro fail_call; end_call))
                s.world))
    unfolding admission
    admitted Admission.admit s coro k = k s
    admitted Admission.reject s coro k = Reach.here
    admitted Admission.crash s coro k = Reach.here

    call-Runs : (coro : App (Unit {0})) → Runs coro → Runs (call coro)
    unfolding call enter_call
    call-Runs coro k s =
        let b = (enter s.world.monotonic s.world.breaker).1 in
        let v = with_world s (record s.world { breaker = b }) in
        joined s v _ (one s v (Step.breaker s b (Blocks.Step.enters s.world.monotonic))) (
          admitted (enter s.world.monotonic s.world.breaker).0 v coro
            (λ u. counted u (coro u.world) (k u)))

    wrapped :
        (s : Service) (o : Result (Unit {0}) × World)
        → Reach env s (after_attempt p s o)
        → Reach env s (after_attempt p s (catch (λ _. o) wrap s.world))
    unfolding wrap
    wrapped s (ok done, w) h = h
    wrapped s (err e, w) h = h

    process-Runs : Runs (process env.api env.tenacity p.total)
    unfolding process
    process-Runs s =
        let coro = env.tenacity.retry is_retried max_retries (attempt env.api p.total) in
        wrapped s (call coro s.world) (call-Runs coro (retry-Runs 2) s)

    -- the order of a request that is paid
    finished :
        (s : Service) (o : Result (Unit {0}) × World)
        → Reach env s (after_attempt p s o)
        → Reach env s (
            with_world s
              (((λ (_ : World). o)
                  >> store env.uuids (order_repository env.engine) p.product_ids p.user_id p.total)
                s.world).1)
    finished s (ok done, w) h =
        Reach.next (record s { world = w; paid = p ∷ s.paid }) _ h
          (Step.stored w [] s.paid p s.lost)
    finished s (err e, w) h = h

  -- The handler's payment and the storing of the order, run to their end from any state of the
  -- service, are a run of its steps: the POSTs of the payment, the blocks of the circuit breaker,
  -- the waiting between the POSTs and the storing. At its end no request is paid and not stored
  -- that was not so before.
  pub pay_and_store-Reach :
      (p : Paid) (s : Service)
      → Reach env s (
          with_world s
            (pay_and_store env.uuids
              (order_repository env.engine)
              (payment_service env.api env.tenacity)
              p.product_ids
              p.user_id
              p.total
              s.world).1)
  unfolding pay_and_store
  pay_and_store-Reach p s =
      finished p s (process env.api env.tenacity p.total s.world) (process-Runs p s)
