-- ===== src/Payment/Outage.antt =====
-- The payment service is down: the breaker stops the traffic to it.
use coffee_shop_api.Prelude.{
  ℕ, zero, suc, ◌+◌, ◌<◌, ◌≡◌, refl, ap, ◌∙◌, inl, inr, List, [], ◌∷◌, length, arith,
}
use coffee_shop_api.Decimal.{Decimal}
use coffee_shop_api.Breaker.{CircuitBreaker, init, Admission, enter, on_failure}
use coffee_shop_api.Breaker.Trips.{counted, opened}
use coffee_shop_api.App.{World, Error, Failure, err, advance}
use coffee_shop_api.Payment.{PaymentApi, Tenacity, process}
use coffee_shop_api.Payment.Charges.{confirmed, confirmed_from, is_ok, process_any-Processed}
use coffee_shop_api.Payment.Circuit.{settle, process_settles, process_open}

-- Payments made one after the other, whatever comes of each.
pub pay_all : PaymentApi → Tenacity → List Decimal → World → World
pay_all api tenacity [] w = w
pay_all api tenacity (v ∷ vs) w = pay_all api tenacity vs (process api tenacity v w).1

enter-counted :
    (threshold timeout count now : ℕ)
    → enter now (counted threshold timeout count)
      ≡ (Admission.admit, counted threshold timeout count)
unfolding enter
enter-counted threshold timeout count now = refl

on_failure-counted_below :
    (threshold timeout count now : ℕ)
    → count + 1 < threshold
    → on_failure now (counted threshold timeout count) ≡ counted threshold timeout (count + 1)
unfolding on_failure
on_failure-counted_below threshold timeout count now h = ground arith

on_failure-counted_last :
    (threshold timeout count now : ℕ)
    → count + 1 ≡ threshold
    → on_failure now (counted threshold timeout count) ≡ opened threshold timeout now
unfolding on_failure
on_failure-counted_last threshold timeout count now h = ground arith

module _ (api : PaymentApi) (tenacity : Tenacity)
    (down : (n : ℕ) → confirmed (api.answer n) ≡ 0) where
  confirmed_from-down : (k n : ℕ) → confirmed_from api k n ≡ 0
  confirmed_from-down k zero = refl
  confirmed_from-down k (suc n) = omega (arith, down k, confirmed_from-down (suc k) n)

  process-down :
      (v : Decimal) (w : World)
      → (f : Failure) × ((process api tenacity v w).0 ≡ err (Error.payment_failed f))
  process-down v w =
      let (k, le, s, ending) = process_any-Processed api v tenacity w in
      elim ending [
        | inl returned ↦
            let one : is_ok (process api tenacity v w).0 ≡ 1 = ap is_ok returned in
            absurd (omega (arith, s.confirms, confirmed_from-down (length w.posts) k, one))
        | inr raised ↦ raised
      ]

  breaker-process :
      (threshold timeout count : ℕ) (v : Decimal) (w : World)
      → w.breaker ≡ counted threshold timeout count
      → let w' = (process api tenacity v w).1 in
        w'.breaker ≡ on_failure w'.monotonic (counted threshold timeout count)
  breaker-process threshold timeout count v w e =
      let b = counted threshold timeout count in
      let w' = (process api tenacity v w).1 in
      process_settles api tenacity v w b
        (ap (enter w.monotonic) e ∙ enter-counted threshold timeout count w.monotonic)
      ∙ ap (λ r. settle api tenacity v r w'.monotonic b) (process-down v w).1

  -- after the payments that are left until the threshold
  opens_after :
      (threshold timeout count : ℕ) (v : Decimal) (vs : List Decimal) (w : World)
      → w.breaker ≡ counted threshold timeout count
      → count + length (v ∷ vs) ≡ threshold
      → let w' = pay_all api tenacity (v ∷ vs) w in
        w'.breaker ≡ opened threshold timeout w'.monotonic
  unfolding pay_all
  opens_after threshold timeout count v [] w e h =
      breaker-process threshold timeout count v w e
      ∙ on_failure-counted_last threshold timeout count _ (omega arith)
  opens_after threshold timeout count v (v' ∷ vs) w e h =
      opens_after threshold timeout (count + 1) v' vs (process api tenacity v w).1
        (breaker-process threshold timeout count v w e
          ∙ on_failure-counted_below threshold timeout count _ (omega arith))
        (omega arith)

  -- Let the payment service confirm no POST, and the breaker be new, with a positive timeout. After
  -- as many payments as its threshold the circuit is open: while its timeout, counted from the last
  -- of them, is not over, a further payment sends nothing and changes nothing.
  pub outage :
      (threshold timeout waited : ℕ) (v : Decimal) (vs : List Decimal) (last : Decimal) (w : World)
      → w.breaker ≡ init threshold timeout
      → length (v ∷ vs) ≡ threshold
      → waited < timeout
      → let w' = advance waited (pay_all api tenacity (v ∷ vs) w) in
        process api tenacity last w' ≡ (err (Error.payment_failed Failure.circuit_is_open), w')
  unfolding advance
  outage threshold timeout waited v vs last w new h soon =
      let u = pay_all api tenacity (v ∷ vs) w in
      let e = opens_after threshold timeout 0 v vs w new (omega arith) in
      process_open api tenacity last u.monotonic (advance waited u) (ap (λ b. b.state) e)
        (ap (λ b. b.opened_at) e)
        (rw (ap (λ (b : CircuitBreaker). b.recovery_timeout) e) (omega arith))
