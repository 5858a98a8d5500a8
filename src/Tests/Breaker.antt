-- ===== src/Tests/Breaker.antt =====
-- The breaker with a threshold of 3 and a timeout of 30 seconds.
use coffee_shop_api.Prelude.{◌≡◌, ◌≢◌, refl, [], ◌∷◌, arith}
use coffee_shop_api.Breaker.{
  CircuitState, CircuitBreaker, init, Admission, enter, on_success, on_failure,
}
use coffee_shop_api.Breaker.Steps.{Step, Reach, IsValid, Reach-init}
use coffee_shop_api.Breaker.Trips.{fail_all, trips, probe_ends}

abbrev tripped : CircuitBreaker
tripped = on_failure 300 (fail_all (100 ∷ 200 ∷ []) (init 3 30000000))

interleaved : Reach (init 3 30000000) (on_success (enter 10 (init 3 30000000)).1)
interleaved = Reach.next (Reach.next Reach.here (Step.enters 10)) Step.succeeds

Reach-init_example :
    IsValid (on_success (enter 10 (init 3 30000000)).1)
    × ((enter 20 (on_success (enter 10 (init 3 30000000)).1)).0 ≢ Admission.crash)
Reach-init_example = Reach-init 3 30000000 20 (omega arith) interleaved

trips_example :
    (tripped.state ≡ CircuitState.open_circuit) × (enter 400 tripped ≡ (Admission.reject, tripped))
trips_example = trips 3 30000000 300 400 (100 ∷ 200 ∷ []) refl (omega arith)

probe_ends_example :
    (enter 31000001 (on_failure 31000000 (enter 31000000 tripped).1)
      ≡ (Admission.reject, on_failure 31000000 (enter 31000000 tripped).1))
    × (on_success (enter 31000000 tripped).1 ≡ init 3 30000000)
probe_ends_example =
    probe_ends 3 30000000 300 31000000 31000001 (100 ∷ 200 ∷ []) refl (omega arith) (omega arith)
      (omega arith)
