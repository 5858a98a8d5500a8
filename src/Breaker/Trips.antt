-- ===== src/Breaker/Trips.antt =====
-- When the breaker opens, for how long it blocks, and how it recovers.
use coffee_shop_api.Prelude.{
  ◌-◌, ℕ, ◌+◌, ◌≤◌, ◌<◌, ◌≡◌, refl, ap, some, ltb, if◌then◌else◌, List, [], ◌∷◌, arith, length,
}
use coffee_shop_api.Breaker.{
  CircuitState, CircuitBreaker, init, Admission, enter, on_success, on_failure,
}

-- Calls that fail one after the other, at the given times.
abbrev pub fail_all : List ℕ → CircuitBreaker → CircuitBreaker
fail_all [] b = b
fail_all (t ∷ ts) b = fail_all ts (on_failure t b)

-- a closed breaker that has seen `count` failures in a row
abbrev pub counted : ℕ → ℕ → ℕ → CircuitBreaker
counted threshold timeout count = record (init threshold timeout) { failure_count = count }

pub fail_all_below :
    (threshold timeout count : ℕ) (ts : List ℕ)
    → count + length ts < threshold
    → fail_all ts (counted threshold timeout count) ≡ counted threshold timeout (count + length ts)
unfolding on_failure
fail_all_below threshold timeout count [] h = ap (counted threshold timeout) (omega arith)
fail_all_below threshold timeout count (t ∷ ts) h =
    ground (arith, fail_all_below threshold timeout (count + 1) ts)

-- A new breaker stays closed, and lets every call through, for fewer failures in a row than its
-- threshold.
stays_closed :
    (threshold timeout now : ℕ) (ts : List ℕ)
    → length ts < threshold
    → let b = fail_all ts (init threshold timeout) in
      (b.state ≡ CircuitState.closed) × (enter now b ≡ (Admission.admit, b))
unfolding enter
stays_closed threshold timeout now ts h =
    rw (fail_all_below threshold timeout 0 ts (omega arith)) (refl, refl)

-- the breaker that the failure at time `t` has opened
abbrev pub opened : ℕ → ℕ → ℕ → CircuitBreaker
opened threshold timeout t = record (init threshold timeout) {
  state = CircuitState.open_circuit;
  failure_count = threshold;
  opened_at = some t;
}

pub opens :
    (threshold timeout t : ℕ) (ts : List ℕ)
    → length ts + 1 ≡ threshold
    → on_failure t (fail_all ts (init threshold timeout)) ≡ opened threshold timeout t
unfolding on_failure
opens threshold timeout t ts h =
    rw (fail_all_below threshold timeout 0 ts (omega arith)) (ground arith)

-- The failure of a new breaker that reaches the threshold, at time `t`, opens the circuit. From
-- then on every call before `t + timeout` is rejected and leaves the breaker as it was, and a call
-- at or after that time is let through as a probe in HALF_OPEN.
pub trips :
    (threshold timeout t now : ℕ) (ts : List ℕ)
    → length ts + 1 ≡ threshold
    → t ≤ now
    → let b = on_failure t (fail_all ts (init threshold timeout)) in
      (b.state ≡ CircuitState.open_circuit)
      × (enter now b ≡ (
          if ltb now (t + timeout)
          then (Admission.reject, b)
          else (Admission.admit, record b { state = CircuitState.half_open })))
unfolding enter
trips threshold timeout t now ts h le = rw (opens threshold timeout t ts h) (refl, ground arith)

-- After a new breaker has opened at time `t` and its timeout is over: a probe that fails at
-- `later` blocks every call for another whole timeout, and one that succeeds leaves the breaker as
-- it was made.
pub probe_ends :
    (threshold timeout t later now : ℕ) (ts : List ℕ)
    → length ts + 1 ≡ threshold
    → t + timeout ≤ later
    → later ≤ now
    → now < later + timeout
    → let probe = (enter later (on_failure t (fail_all ts (init threshold timeout)))).1 in
      (enter now (on_failure later probe) ≡ (Admission.reject, on_failure later probe))
      × (on_success probe ≡ init threshold timeout)
unfolding enter on_failure on_success
probe_ends threshold timeout t later now ts h waited le soon =
    rw (opens threshold timeout t ts h) (ground arith, ground arith)

probing : ℕ → ℕ → ℕ → CircuitBreaker
probing threshold timeout t = record (opened threshold timeout t) { state = CircuitState.half_open }

enter-opened :
    (threshold timeout t later : ℕ)
    → t + timeout ≤ later
    → enter later (opened threshold timeout t) ≡ (Admission.admit, probing threshold timeout t)
unfolding enter probing
enter-opened threshold timeout t later waited = ground arith

-- A call in the open state, before the timeout is over.
pub enter-open_circuit :
    (t now : ℕ) (b : CircuitBreaker)
    → b.state ≡ CircuitState.open_circuit
    → b.opened_at ≡ some t
    → now - t < b.recovery_timeout
    → enter now b ≡ (Admission.reject, b)
unfolding enter
enter-open_circuit t now b is_open since soon = ground arith
