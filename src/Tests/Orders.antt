-- ===== src/Tests/Orders.antt =====
-- Orders.
use mathlib.Core.List.{Permᴰ}
use coffee_shop_api.Prelude.{
  List, ℕ, String, map, ◌+◌, ◌≤◌, ◌≡◌, refl, length, All, Option, some, [], ◌∷◌, ◌++◌, arith,
}
use coffee_shop_api.Prelude.Int.{pos, scale, ◌+ℤ◌}
use coffee_shop_api.Decimal.Rounding.{cents}
use coffee_shop_api.Entities.{OrderStatus, Order, OrderItem, Uuid}
use coffee_shop_api.App.{App, Error, ok, err, advance, next_uuid}
use coffee_shop_api.Api.{Content, Response, respond, run, cached_response, save_response}
use coffee_shop_api.Auth.{TokenData}
use coffee_shop_api.Breaker.{enter, on_success}
use coffee_shop_api.Schemas.{OrderCreate, dump_order, order_response}
use coffee_shop_api.Routes.Orders.{create_order_body, place_order}
use coffee_shop_api.Repositories.Idempotency.{get, save}
use coffee_shop_api.Decimal.{quantize, sum, add, align}
use coffee_shop_api.Payment.{max_retries, process, call, attempt}
use coffee_shop_api.Payment.Charges.{confirmed_from, charged_from, orphans_from, replicate}
use coffee_shop_api.Repositories.Orders.{
  order_repository, create, order_item, parse_status, list_for_user, to_entities, to_entity,
  fetch_product_ids,
}
use coffee_shop_api.Repositories.Orders.Lookup.{readable_entity}
use coffee_shop_api.Repositories.Orders.Details.{get_detail_by_id-create}
use coffee_shop_api.Repositories.Orders.{get_by_id, get_detail_by_id}
use coffee_shop_api.Repositories.Orders.RoundTrip.{get_by_id-create}
use coffee_shop_api.Repositories.Products.{product_repository, get_by_ids}
use coffee_shop_api.Routes.Orders.Replays.{post, replay}
use coffee_shop_api.Routes.Orders.ExpiredKeys.{Ends, expired_key}
use coffee_shop_api.Samples.{
  sample_engine, sample_tenacity, sample_redis, sample_uuids, flaky_api, basket, alice, bob, shop,
  espresso, latte, shop_with_old_key, shop_with_order, waiting_order,
}
use coffee_shop_api.Services.{payment_service, notification_service}
use coffee_shop_api.UseCases.CreateOrder
use coffee_shop_api.UseCases.Queries.{list_orders}
use coffee_shop_api.UseCases.Queries.Ownership.{list_orders-owned}
use coffee_shop_api.UseCases.CreateOrder.{total_price}
use coffee_shop_api.UseCases.CreateOrder.Outcome.{
  new_order, PaidOrder, due, pay_and_store-PaidOrder,
}
use coffee_shop_api.UseCases.CreateOrder.Total.{execute-eq}
use coffee_shop_api.UseCases.UpdateOrderStatus
use coffee_shop_api.UseCases.UpdateOrderStatus.Forward.{Forward, execute-Forward}
use coffee_shop_api.UseCases.UpdateOrderStatus.Transitions.{moved, stored, notified, execute-only}

pay_and_store-PaidOrder_example :
    let o =
      CreateOrder.pay_and_store sample_uuids
        (order_repository sample_engine)
        (payment_service flaky_api sample_tenacity)
        (2 ∷ 1 ∷ [])
        7
        (cents (pos 680))
        shop in
    (k : ℕ) × (k ≤ max_retries)
    × (o.1.posts ≡ replicate k (cents (pos 680)) ++ [])
    × PaidOrder sample_engine
        (new_order 1000 (2 ∷ 1 ∷ []) 7 (cents (pos 680)))
        (confirmed_from flaky_api 0 k)
        shop
        o
    × (charged_from flaky_api 0 k ≡ due o.0 + orphans_from flaky_api 0 k)
pay_and_store-PaidOrder_example =
    pay_and_store-PaidOrder sample_engine sample_uuids flaky_api sample_tenacity (2 ∷ 1 ∷ []) 7
      (cents (pos 680)) shop refl

execute-eq_example :
    CreateOrder.execute sample_uuids
      (order_repository sample_engine)
      (product_repository sample_engine)
      (payment_service flaky_api sample_tenacity)
      (2 ∷ 2 ∷ [])
      7
      shop
    ≡ (err (Error.invalid_product []), shop)
execute-eq_example =
    execute-eq sample_engine sample_uuids (order_repository sample_engine)
      (payment_service flaky_api sample_tenacity) (2 ∷ 2 ∷ []) 7 shop (refl, (refl, tt))

abbrev pub post_at : TokenData → OrderCreate → Option String → App Response
post_at =
    post sample_engine sample_uuids (order_repository sample_engine)
      (product_repository sample_engine) (payment_service flaky_api sample_tenacity)

expired_key_example :
    (k : ℕ) × (k ≤ max_retries)
    × Ends sample_engine
        (new_order 1000 (2 ∷ 1 ∷ []) 7 (cents (pos 680)))
        (confirmed_from flaky_api 0 k)
        (replicate k (cents (pos 680)) ++ [])
        shop_with_old_key
        (run (post_at alice basket (some "k1")) shop_with_old_key)
unfolding get ◌+ℤ◌ quantize scale
expired_key_example =
    expired_key sample_engine sample_uuids flaky_api sample_tenacity alice basket "k1"
      shop_with_old_key (omega arith) refl refl (refl, (refl, tt)) refl refl

execute-only_example :
    UpdateOrderStatus.execute
      (order_repository sample_engine)
      (notification_service sample_redis)
      5
      OrderStatus.preparation
      shop_with_order
    ≡ notified sample_redis OrderStatus.preparation
        (some (
          readable_entity
            (moved OrderStatus.preparation waiting_order)
            []
            OrderStatus.preparation
            7))
        (stored 5 OrderStatus.preparation shop_with_order)
unfolding parse_status
execute-only_example =
    execute-only sample_engine sample_redis 5 OrderStatus.preparation shop_with_order waiting_order
      OrderStatus.waiting 7 refl (record { status_text = refl; user = refl })

abbrev pub placed : Response
placed =
    respond 201
      (Content.json (dump_order (order_response (new_order 1000 (2 ∷ 1 ∷ []) 7 (cents (pos 680))))))

pub first_post :
    post_at alice basket (some "k1") shop ≡ (ok placed, (post_at alice basket (some "k1") shop).1)
unfolding create_order_body place_order cached_response get save save_response CreateOrder.execute
    CreateOrder.pay_and_store CreateOrder.store get_by_ids process call attempt enter on_success
    advance create total_price quantize sum add align scale ◌+ℤ◌ next_uuid
first_post = refl

-- Bob gets Alice's order an hour later.
replay_example :
    post_at bob
      (record { product_ids = 1 ∷ [] })
      (some "k1")
      (advance 3600000000 (post_at alice basket (some "k1") shop).1)
    ≡ (ok placed, advance 3600000000 (post_at alice basket (some "k1") shop).1)
replay_example =
    replay sample_engine sample_uuids (order_repository sample_engine)
      (product_repository sample_engine) (payment_service flaky_api sample_tenacity) alice bob
      basket (record { product_ids = 1 ∷ [] }) "k1" 3600000000 shop
      (post_at alice basket (some "k1") shop).1 placed (omega arith) refl (omega arith) first_post

execute-Forward_example :
    Forward
      (waiting_order ∷ [])
      (UpdateOrderStatus.execute
        (order_repository sample_engine)
        (notification_service sample_redis)
        5
        OrderStatus.preparation
        shop_with_order).1.db.orders
execute-Forward_example =
    execute-Forward sample_engine sample_redis 5 OrderStatus.preparation shop_with_order (refl, tt)

list_orders-owned_example :
    All (λ o. o.user_id ≡ 7) (readable_entity waiting_order [] OrderStatus.waiting 7 ∷ [])
    × (1 ≤ 20)
    × (1 ≡ length (waiting_order ∷ []))
    × (shop_with_order ≡ shop_with_order)
unfolding list_orders list_for_user to_entities to_entity fetch_product_ids parse_status
list_orders-owned_example =
    list_orders-owned sample_engine 7 0 20 1
      (readable_entity waiting_order [] OrderStatus.waiting 7 ∷ []) shop_with_order shop_with_order
      refl

abbrev order : Order
order = new_order 1000 (2 ∷ 1 ∷ 2 ∷ []) 7 (cents (pos 680))

get_by_id-create_example :
    let (o, v) = create sample_engine order shop in
    (o ≡ ok order)
    × (ids : List Uuid) × Permᴰ ids (2 ∷ 1 ∷ 2 ∷ [])
    × (get_by_id sample_engine 1000 v ≡ (
      ok (some (record order { total_price = quantize order.total_price; product_ids = ids })),
      v,
    ))
get_by_id-create_example = get_by_id-create sample_engine order shop refl refl

get_detail_by_id-create_example :
    let (o, v) = create sample_engine order shop in
    (o ≡ ok order)
    × (items : List OrderItem) × Permᴰ items (map order_item (latte ∷ espresso ∷ latte ∷ []))
    × (get_detail_by_id sample_engine 1000 v ≡ (
      ok (
          some (record {
            id = order.id;
            status = order.status;
            total_price = quantize order.total_price;
            created_at = sample_engine.current_timestamp shop.now;
            items = items;
          })),
      v,
    ))
get_detail_by_id-create_example =
    get_detail_by_id-create sample_engine order shop (latte ∷ espresso ∷ latte ∷ []) refl refl refl
      (refl, (refl, (refl, tt)))
