-- ===== src/Tests/Races.antt =====
-- Two requests at a time.
use coffee_shop_api.Prelude.{ℕ, ◌≤◌, ◌≡◌, refl, none, some, [], ◌∷◌, ◌++◌, arith}
use coffee_shop_api.Prelude.Int.{pos, scale, ◌+ℤ◌}
use coffee_shop_api.Decimal.Rounding.{cents}
use coffee_shop_api.App.{ok, advance, next_uuid}
use coffee_shop_api.Api.{run, cached_response, save_response}
use coffee_shop_api.Breaker.{enter, on_success}
use coffee_shop_api.Routes.Orders.{create_order_body, place_order}
use coffee_shop_api.Routes.Orders.ExpiredKeys.{Ends}
use coffee_shop_api.Routes.Orders.Races.{rest_of, race}
use coffee_shop_api.Repositories.Idempotency.{get, save, idempotency_repository}
use coffee_shop_api.Repositories.Orders.{create}
use coffee_shop_api.Repositories.Products.{get_by_ids}
use coffee_shop_api.Decimal.{quantize, sum, add, align}
use coffee_shop_api.Payment.{max_retries, process, call, attempt}
use coffee_shop_api.Payment.Charges.{confirmed_from, replicate}
use coffee_shop_api.UseCases.CreateOrder
use coffee_shop_api.UseCases.CreateOrder.{total_price}
use coffee_shop_api.UseCases.CreateOrder.Outcome.{new_order}
use coffee_shop_api.Samples.{
  sample_engine, sample_tenacity, sample_uuids, flaky_api, basket, alice, shop,
}
use coffee_shop_api.Tests.Orders.{post_at, placed, first_post}

-- Alice sends one order twice, and both requests look the key up at once.
race_example :
    let w = (post_at alice basket (some "k1") shop).1 in
    (cached_response (idempotency_repository sample_engine) (some "k1") shop ≡ (ok none, shop))
    × (k : ℕ) × (k ≤ max_retries)
    × Ends sample_engine
        (new_order 1001 (2 ∷ 1 ∷ []) 7 (cents (pos 680)))
        (confirmed_from flaky_api 2 k)
        (replicate k (cents (pos 680)) ++ cents (pos 680) ∷ cents (pos 680) ∷ [])
        w
        (run (rest_of sample_engine sample_uuids flaky_api sample_tenacity alice basket "k1") w)
unfolding create_order_body place_order cached_response get save save_response CreateOrder.execute
    CreateOrder.pay_and_store CreateOrder.store get_by_ids process call attempt enter on_success
    advance create total_price quantize sum add align scale ◌+ℤ◌ next_uuid
race_example =
    race sample_engine sample_uuids flaky_api sample_tenacity alice alice basket basket "k1" 0 shop
      (post_at alice basket (some "k1") shop).1 placed (omega arith) refl first_post
      (refl, (refl, tt)) refl refl
