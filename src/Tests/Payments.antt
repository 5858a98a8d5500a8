-- ===== src/Tests/Payments.antt =====
-- Payments.
use coffee_shop_api.Prelude.{ℕ, ◌+◌, ◌≤◌, ◌⊎◌, ◌≡◌, refl, [], ◌∷◌, arith}
use coffee_shop_api.Prelude.Int.{pos}
use coffee_shop_api.Decimal.Rounding.{cents}
use coffee_shop_api.Breaker.Trips.{opened}
use coffee_shop_api.App.{World, Error, Failure, ok, err, advance}
use coffee_shop_api.Payment.{process, max_retries}
use coffee_shop_api.Payment.Charges.{Sent, charged_from, orphans_from, is_ok, process-Processed}
use coffee_shop_api.Payment.Outage.{pay_all, outage}
use coffee_shop_api.Samples.{flaky_api, down_api, sample_tenacity, shop}

-- the breaker has just opened
abbrev cut_off : World
cut_off = record shop { breaker = opened 2 30000000 4000 }

process-Processed_example :
    let (r, w') = process flaky_api sample_tenacity (cents (pos 680)) shop in
    (k : ℕ) × (k ≤ max_retries)
    × Sent flaky_api (cents (pos 680)) k shop r (record w' { breaker = shop.breaker })
    × (charged_from flaky_api 0 k ≡ is_ok r + orphans_from flaky_api 0 k)
    × ((r ≡ ok tt) ⊎ ((f : Failure) × (r ≡ err (Error.payment_failed f))))
process-Processed_example = process-Processed flaky_api (cents (pos 680)) sample_tenacity shop

outage_example :
    let w =
      advance 1000000
        (pay_all down_api sample_tenacity (cents (pos 680) ∷ cents (pos 250) ∷ []) shop) in
    process down_api sample_tenacity (cents (pos 430)) w
    ≡ (err (Error.payment_failed Failure.circuit_is_open), w)
outage_example =
    outage down_api sample_tenacity (λ n. refl) 2 30000000 1000000 (cents (pos 680))
      (cents (pos 250) ∷ []) (cents (pos 430)) shop refl refl (omega arith)
