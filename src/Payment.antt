-- ===== src/Payment.antt =====
-- src/infrastructure/services/payment_service.py and `CircuitBreaker.call`. The payment service
-- (reached by httpx) and tenacity are parameters.
pub mod Charges
pub mod Outage
pub mod Ledger
pub mod Circuit
use coffee_shop_api.Prelude.{
  ℕ, zero, suc, ◌+◌, ◌≤◌, ◌<◌, ◌≡◌, Bool, true, false, ◌&&◌, ◌∷◌, List, length, ltb, leb,
  if◌then◌else◌,
}
use coffee_shop_api.Decimal.{Decimal}
use coffee_shop_api.Breaker.{CircuitBreaker, Admission, enter, on_success, on_failure}
use coffee_shop_api.App.{
  World, App, Error, Failure, Result, ok, err, raise, catch, modify, ◌>>◌, ◌>>=◌, advance,
}

-- What comes back from a POST: httpx raises a RequestError, which leaves open whether the payment
-- service was reached, or there is a response with a status code, whose body is JSON or not.
pub data Answer : Type 0 where
  request_failed : Answer
  response : ℕ → Bool → Answer

-- `response.is_success`
abbrev pub is_success : ℕ → Bool
is_success code = leb 200 code && ltb code 300

-- A response tells the program that the payment was made: a 2xx with a JSON body.
abbrev pub is_confirmation : Answer → Bool
is_confirmation Answer.request_failed = false
is_confirmation (Answer.response code is_json) = is_json && is_success code

-- The answer to the n-th POST, the time until it comes, and whether the service charged the amount.
-- What it confirms it has charged; it may charge without a confirmation, where the answer is lost,
-- is no JSON or is another status.
pub record PaymentApi : Type 0 where
  pub answer : ℕ → Answer
  pub elapsed : ℕ → ℕ
  pub charged : ℕ → Bool
  pub confirmed_charged : (n : ℕ) → is_confirmation (answer n) ≡ true → charged n ≡ true

-- what `_attempt` does with an answer: the body is parsed before the status code is looked at; what
-- it returns is read by nobody and left out
abbrev pub read_answer : Answer → Result (Unit {0})
read_answer Answer.request_failed = err Error.request_error
read_answer (Answer.response code is_json) =
    if is_json
    then if is_success code then ok tt else err Error.non_success
    else err Error.json_error

-- `retry_if_exception_type((httpx.RequestError, _NonSuccessResponse))`
abbrev pub is_retried : Error → Bool
is_retried Error.request_error = true
is_retried Error.non_success = true
is_retried _ = false

abbrev pub max_retries : ℕ
max_retries = 3

-- After an attempt that `is_retried`, tenacity sleeps and tries again, unless it was the last.
abbrev pub again :
    (Error → Bool) → ℕ → App (Unit {0}) → Result (Unit {0}) × World → Result (Unit {0}) × World
again retried delay rest (ok a, w) = (ok a, w)
again retried delay rest (err e, w) = if retried e then rest (advance delay w) else (err e, w)

-- `@retry(retry=…, stop=stop_after_attempt(n), wait=…, reraise=True)` as tenacity documents it:
-- the attempts are made in turn until one is not retried, and the last one's exception is raised.
pub record Tenacity : Type 0 where
  pub retry : (Error → Bool) → ℕ → App (Unit {0}) → App (Unit {0})
  pub delay : ℕ → ℕ
  pub last : (p : Error → Bool) (m : App (Unit {0})) (w : World) → retry p 1 m w ≡ m w
  pub more :
      (p : Error → Bool) (n : ℕ) (m : App (Unit {0})) (w : World)
      → retry p (suc (suc n)) m w ≡ again p (delay n) (retry p (suc n) m) (m w)

-- `CircuitBreaker.call`: the block before the coroutine runs
unfoldable pub admission : Admission → Result (Unit {0})
admission Admission.admit = ok tt
admission Admission.reject = err (Error.payment_failed Failure.circuit_is_open)
admission Admission.crash = err Error.type_error

unfoldable pub enter_call : App (Unit {0})
unfolding admission
enter_call w = let (a, b) = enter w.monotonic w.breaker in (admission a, record w { breaker = b })

unfoldable pub end_call : App (Unit {0})
end_call = modify (λ w. record w { breaker = on_success w.breaker })

unfoldable pub fail_call : Error → App (Unit {0})
fail_call e = do modify (λ w. record w { breaker = on_failure w.monotonic w.breaker }); raise e

unfoldable pub call : App (Unit {0}) → App (Unit {0})
unfolding enter_call end_call fail_call
call coro = do enter_call; catch coro fail_call; end_call

-- `str(exc)`
abbrev failure : Error → Failure
failure Error.request_error = Failure.no_connection
failure Error.json_error = Failure.bad_answer
failure Error.non_success = Failure.bad_status
failure _ = Failure.other_failure

-- the two `except` clauses of `process`: a PaymentFailedError is raised again as it is
abbrev rewrapped : Error → Failure
rewrapped (Error.payment_failed f) = f
rewrapped e = failure e

unfoldable pub wrap : Error → App (Unit {0})
wrap e = raise (Error.payment_failed (rewrapped e))

-- `_attempt`, under its decorator
unfoldable pub attempt : PaymentApi → Decimal → App (Unit {0})
attempt api value w =
    let n = length w.posts in
    (read_answer (api.answer n), advance (api.elapsed n) (record w { posts = value ∷ w.posts }))

module _ (api : PaymentApi) (tenacity : Tenacity) where
  unfoldable pub process : Decimal → App (Unit {0})
  unfolding wrap
  process value = catch (call (tenacity.retry is_retried max_retries (attempt api value))) wrap

-- `process` once the first block under the lock has answered, and its end
ended : App (Unit {0}) → App (Unit {0})
unfolding wrap fail_call end_call
ended coro = catch (do catch coro fail_call; end_call) wrap

process_from : PaymentApi → Tenacity → Decimal → Admission → CircuitBreaker → App (Unit {0})
unfolding wrap admission fail_call end_call
process_from api tenacity value a b =
    catch
      (do
        λ w. (admission a, record w { breaker = b })
        catch (tenacity.retry is_retried max_retries (attempt api value)) fail_call
        end_call)
      wrap
