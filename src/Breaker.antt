-- ===== src/Breaker.antt =====
-- src/infrastructure/services/circuit_breaker.py. `call` takes the lock three times, and each
-- block under the lock is one function here: `enter`, `on_success` and `on_failure`. Payment.antt
-- composes them into `call`; Breaker/Steps interleaves the blocks of concurrent calls. Times are
-- readings of `time.monotonic()`, and durations, in microseconds; the clock never goes back, so no
-- elapsed time is negative.
pub mod Steps
pub mod Trips
use coffee_shop_api.Prelude.{ℕ, ◌+◌, ◌-◌, Option, none, some, leb, if◌then◌else◌}

pub data CircuitState : Type 0 where
  closed open_circuit half_open : CircuitState

pub record CircuitBreaker : Type 0 where
  pub failure_threshold : ℕ
  pub recovery_timeout : ℕ
  pub state : CircuitState
  pub failure_count : ℕ
  pub opened_at : Option ℕ

-- `CircuitBreaker(failure_threshold, recovery_timeout)`
abbrev pub init : ℕ → ℕ → CircuitBreaker
init failure_threshold recovery_timeout = record {
  failure_threshold = failure_threshold;
  recovery_timeout = recovery_timeout;
  state = CircuitState.closed;
  failure_count = 0;
  opened_at = none;
}

-- What the first block does with a call: it goes on, it fails fast, or `now - None` raises a
-- TypeError.
pub data Admission : Type 0 where
  admit reject crash : Admission

enter_open : Option ℕ → ℕ → CircuitBreaker → Admission × CircuitBreaker
enter_open none now b = (Admission.crash, b)
enter_open (some opened_at) now b =
    if leb b.recovery_timeout (now - opened_at)
    then (Admission.admit, record b { state = CircuitState.half_open })
    else (Admission.reject, b)

enter_in : CircuitState → ℕ → CircuitBreaker → Admission × CircuitBreaker
unfolding enter_open
enter_in CircuitState.open_circuit now b = enter_open b.opened_at now b
enter_in _ now b = (Admission.admit, b)

unfoldable pub enter : ℕ → CircuitBreaker → Admission × CircuitBreaker
unfolding enter_in
enter now b = enter_in b.state now b

unfoldable pub on_success : CircuitBreaker → CircuitBreaker
on_success b = record b { state = CircuitState.closed; failure_count = 0; opened_at = none }

fail_in : CircuitState → ℕ → CircuitBreaker → CircuitBreaker
fail_in CircuitState.half_open now b = record b {
  state = CircuitState.open_circuit;
  opened_at = some now;
}
fail_in CircuitState.closed now b =
    let count = b.failure_count + 1 in
    if leb b.failure_threshold count
    then record b { failure_count = count; state = CircuitState.open_circuit; opened_at = some now }
    else record b { failure_count = count }
fail_in CircuitState.open_circuit now b = b

unfoldable pub on_failure : ℕ → CircuitBreaker → CircuitBreaker
unfolding fail_in
on_failure now b = fail_in b.state now b
