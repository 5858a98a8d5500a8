-- ===== src/Routes/Orders.antt =====
-- src/infrastructure/api/routes/order_routes.py. Each handler starts with its dependencies, which
-- FastAPI resolves first, and with the declared checks of its parameters, which give a 422.
pub mod Replays
pub mod ExpiredKeys
pub mod Races
use coffee_shop_api.Prelude.{
  ℕ, ◌-◌, ◌*◌, String, Bool, true, false, not, ◌&&◌, Option, none, some, List, [], ◌∷◌, map, leb,
  if◌then◌else◌,
}
use coffee_shop_api.Entities.{Uuid, Role, eq_role, OrderStatus, Order, OrderDetail}
use coffee_shop_api.Schemas.{
  Body, OrderCreate, OrderStatusUpdate, is_valid_order, order_response, order_item_response,
  dump_order, dump_order_page, dump_order_detail,
}
use coffee_shop_api.App.{
  World, App, Error, Detail, Result, ok, err, pure, raise, catch, raise_if, Uuids, ◌>>=◌, ◌>>◌,
}
use coffee_shop_api.Auth.{TokenData}
use coffee_shop_api.Api.{
  Content, Response, respond, truthy, cached_response, save_response, require_role,
}
use coffee_shop_api.Repositories.{
  OrderRepository, ProductRepository, IdempotencyRepository, CachedResponse, PaymentService,
  NotificationService,
}
use coffee_shop_api.UseCases.CreateOrder
use coffee_shop_api.UseCases.UpdateOrderStatus
use coffee_shop_api.UseCases.Queries.{list_orders, get_order_detail}

abbrev pub unprocessable : Error
unprocessable = Error.http 422 (Detail.text "Unprocessable Content")

abbrev pub not_found : Error
not_found = Error.http 404 (Detail.text "Order not found")

-- `Query(1, ge=1)` and `Query(20, ge=1, le=100)`
abbrev pub is_valid_page : ℕ → ℕ → Bool
is_valid_page page page_size = leb 1 page && leb 1 page_size && leb page_size 100

-- The two `except` clauses of `create_order`.
abbrev pub create_error : {A : Type 0} → Error → App A
create_error (Error.invalid_product ids) = raise (Error.http 422 (Detail.products_not_found ids))
create_error (Error.payment_failed f) =
    raise (Error.http 502 (Detail.text "Payment could not be processed"))
create_error e = raise e

-- The handler of POST /orders/ once the user is known and the body is valid; slowapi's limiter,
-- which wraps it, has the last word on `within_limit`.
module _ (uuids : Uuids) (order_repo : OrderRepository) (product_repo : ProductRepository)
    (payment_service : PaymentService) (idempotency_repo : IdempotencyRepository) where
  unfoldable pub place_order : TokenData → OrderCreate → Option String → App Response
  place_order current_user body key = do
    order ←
        catch
          (CreateOrder.execute uuids order_repo product_repo payment_service body.product_ids
            current_user.user_id)
          create_error
    save_response idempotency_repo key (dump_order (order_response order))
    pure (respond 201 (Content.json (dump_order (order_response order))))

  unfoldable pub answer_order :
      TokenData → OrderCreate → Option String → Option CachedResponse → App Response
  answer_order current_user body key (some c) = pure (respond c.status_code (Content.json c.body))
  answer_order current_user body key none = place_order current_user body key

  unfoldable pub create_order_body : TokenData → OrderCreate → Option String → App Response
  unfolding answer_order
  create_order_body current_user body key = do
    cached ← cached_response idempotency_repo key
    answer_order current_user body key cached

  -- POST /orders/
  unfoldable pub create_order : App TokenData → Bool → OrderCreate → Option String → App Response
  unfolding create_order_body
  create_order get_current_user within_limit body idempotency_key = do
    current_user ← get_current_user
    raise_if (not (is_valid_order body)) unprocessable
    raise_if (not within_limit) (Error.http 429 (Detail.text "Rate limit exceeded"))
    create_order_body current_user body (truthy idempotency_key)

-- GET /orders/
unfoldable pub list_orders_route : App TokenData → OrderRepository → ℕ → ℕ → App Response
list_orders_route get_current_user repo page page_size = do
  current_user ← get_current_user
  raise_if (not (is_valid_page page page_size)) unprocessable
  (orders, total) ←
      list_orders repo current_user.user_id current_user.role ((page - 1) * page_size) page_size
  pure (
      respond 200 (
        Content.json (
          dump_order_page (record {
            items = map order_response orders;
            total = total;
            page = page;
            page_size = page_size;
          }))))

-- `None if current_user.role == Role.MANAGER else current_user.user_id`
abbrev pub owner_filter : TokenData → Option Uuid
owner_filter current_user =
    if eq_role current_user.role Role.manager then none else some current_user.user_id

unfoldable pub detail_response : Option OrderDetail → App Response
detail_response none = raise not_found
detail_response (some order) = pure (
    respond 200 (
      Content.json (
        dump_order_detail (record {
          id = order.id;
          status = order.status;
          total_price = order.total_price;
          created_at = order.created_at;
          items = map order_item_response order.items;
        }))))

-- GET /orders/{order_id}
unfoldable pub get_order : App TokenData → OrderRepository → Uuid → App Response
unfolding detail_response
get_order get_current_user repo order_id = do
  current_user ← get_current_user
  order ← get_order_detail repo order_id (owner_filter current_user)
  detail_response order

-- `except InvalidStatusTransitionError`
abbrev pub transition_error : {A : Type 0} → Error → App A
transition_error (Error.invalid_status_transition current new) =
    raise (Error.http 422 (Detail.cannot_transition current new))
transition_error e = raise e

unfoldable pub updated_response : Option Order → App Response
updated_response none = raise not_found
updated_response (some order) =
    pure (respond 200 (Content.json (dump_order (order_response order))))

-- PATCH /orders/{order_id}/status
unfoldable pub update_order_status :
    App TokenData → OrderRepository → NotificationService → Uuid → OrderStatusUpdate → App Response
unfolding updated_response
update_order_status get_current_user repo notification_service order_id body = do
  current_user ← get_current_user
  require_role Role.manager current_user
  order ←
      catch (UpdateOrderStatus.execute repo notification_service order_id body.status)
        transition_error
  updated_response order
