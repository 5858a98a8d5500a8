-- ===== src/Tests/Overlaps.antt =====
-- Requests that overlap, on the flaky payment service.
use mathlib.Core.List.{Permᴰ}
use coffee_shop_api.Prelude.{◌≡◌, refl, [], ◌∷◌, ◌++◌, map, Distinct, arith}
use coffee_shop_api.Prelude.Int.{pos}
use coffee_shop_api.Decimal.Rounding.{cents}
use coffee_shop_api.Breaker.{init}
use coffee_shop_api.App.{advance}
use coffee_shop_api.Payment.{attempt}
use coffee_shop_api.Payment.Ledger.{taken, orphans}
use coffee_shop_api.Repositories.Orders.{order_repository}
use coffee_shop_api.Services.{payment_service}
use coffee_shop_api.UseCases.CreateOrder.{pay_and_store}
use coffee_shop_api.System.Ledger.{same_order}
use coffee_shop_api.System.Overlaps.{
  Paid, Service, Step, Reach, after_attempt, with_world, totals_of,
}
use coffee_shop_api.System.Overlaps.Accounts.{Reach-charges}
use coffee_shop_api.System.Overlaps.Handler.{pay_and_store-Reach}
use coffee_shop_api.Samples.{flaky_api, sample_uuids, sample_engine, sample_tenacity}
use coffee_shop_api.Tests.System.{service, opened}

abbrev espresso_order : Paid
espresso_order = record { product_ids = 1 ∷ []; user_id = 7; total = cents (pos 250) }

abbrev latte_order : Paid
latte_order = record { product_ids = 2 ∷ []; user_id = 8; total = cents (pos 430) }

abbrev idle : Service
idle = record { world = opened; paid = []; lost = [] }

-- the first POST is lost; then both requests are paid, one stores its order, and the process dies
abbrev first_try : Service
first_try = after_attempt espresso_order idle (attempt flaky_api espresso_order.total opened)

abbrev one_paid : Service
one_paid = after_attempt latte_order first_try (attempt flaky_api latte_order.total first_try.world)

abbrev both_paid : Service
both_paid =
    after_attempt espresso_order one_paid (attempt flaky_api espresso_order.total one_paid.world)

abbrev died : Service
died = record {
  world = record both_paid.world { breaker = init 5 30000000; monotonic = 0 };
  paid = [];
  lost = totals_of both_paid.paid ++ both_paid.lost;
}

died-Reach : Reach service idle died
died-Reach =
    Reach.next both_paid died
      (Reach.next one_paid both_paid
        (Reach.next first_try one_paid
          (Reach.next idle first_try Reach.here (Step.attempted idle espresso_order))
          (Step.attempted first_try latte_order))
        (Step.attempted one_paid espresso_order))
      (Step.died both_paid 5 30000000 0)

two_lost : died.lost ≡ cents (pos 250) ∷ cents (pos 430) ∷ []
unfolding attempt advance
two_lost = refl

Reach-charges_example :
    Permᴰ (taken flaky_api died.world.posts) (
      (map (λ r. r.total_price) died.world.db.orders ++ (totals_of died.paid ++ died.lost))
      ++ orphans flaky_api died.world.posts)
    × Distinct same_order died.world.db.orders
Reach-charges_example =
    Reach-charges service (λ i j e. omega arith) (init 5 30000000) 0 1700000000000000 died
      died-Reach

pay_and_store-Reach_example : Reach service idle (
    with_world idle
      (pay_and_store sample_uuids
        (order_repository sample_engine)
        (payment_service flaky_api sample_tenacity)
        (2 ∷ [])
        8
        (cents (pos 430))
        opened).1)
pay_and_store-Reach_example = pay_and_store-Reach service latte_order idle
