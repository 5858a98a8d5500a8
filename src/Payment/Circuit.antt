-- ===== src/Payment/Circuit.antt =====
-- How a payment uses the circuit breaker.
use coffee_shop_api.Prelude.{ℕ, ◌-◌, ◌<◌, ◌≡◌, refl, ap, sym, ◌∙◌, some}
use coffee_shop_api.Decimal.{Decimal}
use coffee_shop_api.Breaker.{CircuitState, CircuitBreaker, Admission, enter, on_success, on_failure}
use coffee_shop_api.Breaker.Trips.{enter-open_circuit}
use coffee_shop_api.App.{World, Error, Failure, Result, ok, err}
use mathlib.Core.Path.{subst}
use coffee_shop_api.Payment.{
  ended, process_from, is_retried, max_retries, attempt, PaymentApi, Tenacity, process, call,
}
use coffee_shop_api.Payment.Charges.{retry-Retried}

module _ (api : PaymentApi) (tenacity : Tenacity) (value : Decimal) where
  process-enter :
      (w : World)
      → process api tenacity value w
        ≡ (let (a, b) = enter w.monotonic w.breaker in process_from api tenacity value a b w)
  unfolding process call process_from
  process-enter w = refl

  process-entered :
      (w : World) (a : Admission) (b : CircuitBreaker)
      → enter w.monotonic w.breaker ≡ (a, b)
      → process api tenacity value w ≡ process_from api tenacity value a b w
  process-entered w a b e =
      process-enter w
      ∙ ap (λ (p : Admission × CircuitBreaker). process_from api tenacity value p.0 p.1 w) e

  -- While the circuit has been open for less than the timeout, a payment fails at once: nothing is
  -- sent and nothing at all changes.
  pub process_open :
      (t : ℕ) (w : World)
      → w.breaker.state ≡ CircuitState.open_circuit
      → w.breaker.opened_at ≡ some t
      → w.monotonic - t < w.breaker.recovery_timeout
      → process api tenacity value w ≡ (err (Error.payment_failed Failure.circuit_is_open), w)
  unfolding process_from
  process_open t w is_open since soon =
      process-entered w Admission.reject w.breaker
        (enter-open_circuit t w.monotonic w.breaker is_open since soon)

  -- what a payment that was let through does to the breaker
  abbrev pub settle : Result (Unit {0}) → ℕ → CircuitBreaker → CircuitBreaker
  settle (ok _) now b = on_success b
  settle (err _) now b = on_failure now b

  ended-settles :
      (b : CircuitBreaker) (v : World) (o : Result (Unit {0}) × World)
      → o.1.breaker ≡ b
      → let (r, w') = ended (λ _. o) v in w'.breaker ≡ settle r w'.monotonic b
  unfolding ended
  ended-settles b v (ok done, u) e = ap on_success e
  ended-settles b v (err x, u) e = ap (on_failure u.monotonic) e

  -- A payment that the breaker lets through ends in `on_success` if it returns, and in `on_failure`
  -- at the time of the failure if it raises.
  pub process_settles :
      (w : World) (b : CircuitBreaker)
      → enter w.monotonic w.breaker ≡ (Admission.admit, b)
      → let (r, w') = process api tenacity value w in w'.breaker ≡ settle r w'.monotonic b
  unfolding process_from ended
  process_settles w b admitted =
      let w1 = record w { breaker = b } in
      let (_, _, _, s) = retry-Retried api value tenacity 2 w1 in
      subst (λ (p : Result (Unit {0}) × World). p.1.breaker ≡ settle p.0 p.1.monotonic b)
        (sym (process-entered w Admission.admit b admitted))
        (ended-settles b w1 (tenacity.retry is_retried max_retries (attempt api value) w1)
          s.breaker)
