-- ===== src/Breaker/Steps.antt =====
-- The breaker under concurrent calls: any interleaving of the blocks that run under its lock.
use coffee_shop_api.Prelude.{ℕ, ◌<◌, ◌≡◌, ◌≢◌, refl, Option, none, some, arith}
use coffee_shop_api.Breaker.{
  CircuitState, CircuitBreaker, init, Admission, enter, on_success, on_failure,
}

-- One block: a call enters, or one of the calls in flight succeeds or fails. A call that entered
-- in any earlier state may end in this one, so nothing ties an end to its start.
pub data Step (b : CircuitBreaker) : CircuitBreaker → Type 0 where
  enters : (now : ℕ) → Step b (enter now b).1
  succeeds : Step b (on_success b)
  fails : (now : ℕ) → Step b (on_failure now b)

pub data Reach (b : CircuitBreaker) : CircuitBreaker → Type 0 where
  here : Reach b b
  next : {c d : CircuitBreaker} → Reach b c → Step c d → Reach b d

-- What each state says of the count and of the time of opening.
abbrev pub Agrees : CircuitState → ℕ → ℕ → Option ℕ → Type 0
Agrees CircuitState.closed threshold count opened_at = (count < threshold) × (opened_at ≡ none)
Agrees _ threshold count opened_at = (count ≡ threshold) × (t : ℕ) × (opened_at ≡ some t)

pub record IsValid (b : CircuitBreaker) : Type 0 where
  pub positive : 0 < b.failure_threshold
  pub agrees : Agrees b.state b.failure_threshold b.failure_count b.opened_at

init-IsValid : (threshold timeout : ℕ) → 0 < threshold → IsValid (init threshold timeout)
init-IsValid threshold timeout h = record { positive = h; agrees = (h, refl) }

enter-IsValid : (now : ℕ) (b : CircuitBreaker) → IsValid b → IsValid (enter now b).1
unfolding enter
enter-IsValid now b v = ground arith

on_success-IsValid : (b : CircuitBreaker) → IsValid b → IsValid (on_success b)
unfolding on_success
on_success-IsValid b v = record { positive = v.positive; agrees = (v.positive, refl) }

on_failure-IsValid : (now : ℕ) (b : CircuitBreaker) → IsValid b → IsValid (on_failure now b)
unfolding on_failure
on_failure-IsValid now b v = ground arith

Step-IsValid : {b c : CircuitBreaker} → Step b c → IsValid b → IsValid c
Step-IsValid {b} (enters now) v = enter-IsValid now b v
Step-IsValid {b} succeeds v = on_success-IsValid b v
Step-IsValid {b} (fails now) v = on_failure-IsValid now b v

pub Reach-IsValid : {b c : CircuitBreaker} → IsValid b → Reach b c → IsValid c
Reach-IsValid v here = v
Reach-IsValid v (next r st) = Step-IsValid st (Reach-IsValid v r)

pub enter-ne-crash : (now : ℕ) (b : CircuitBreaker) → IsValid b → (enter now b).0 ≢ Admission.crash
unfolding enter
enter-ne-crash now b v = ground arith

-- Whatever blocks of concurrent calls have run since the breaker was made with a positive
-- threshold: the failure count is below the threshold while the circuit is closed and equal to it
-- otherwise, `_opened_at` is None exactly while it is closed, and no call ever computes
-- `time.monotonic() - None`.
pub Reach-init :
    (threshold timeout now : ℕ) {b : CircuitBreaker}
    → 0 < threshold
    → Reach (init threshold timeout) b
    → IsValid b × ((enter now b).0 ≢ Admission.crash)
Reach-init threshold timeout now {b} h r =
    let v = Reach-IsValid (init-IsValid threshold timeout h) r in (v, enter-ne-crash now b v)
