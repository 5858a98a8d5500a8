-- ===== src/Repositories/Orders.antt =====
-- src/infrastructure/database/repositories/order_repository.py.
pub mod Inserts
pub mod Lookup
pub mod RoundTrip
pub mod Details
pub mod Reads
use coffee_shop_api.Prelude.{
  ℕ, String, Bool, true, false, ◌&&◌, not, leb, Option, none, some, List, [], ◌∷◌, ◌++◌, map,
  str_eq, ◌==◌, if◌then◌else◌, select, any, take, drop, length,
}
use coffee_shop_api.Decimal.{Decimal, add, quantize}
use coffee_shop_api.Entities.{
  Uuid, OrderStatus, status_value, Order, OrderItem, OrderDetail, Product,
}
use coffee_shop_api.Database.{Database, OrderRow, OrderProductRow, ProductRow}
use coffee_shop_api.Engine.{Engine, fetch_all, fetch_one}
use coffee_shop_api.App.{
  World, App, Error, Result, ok, err, pure, raise, gets, or_raise, modify, raise_if, ◌>>=◌, ◌>>◌,
}
use coffee_shop_api.Repositories.{OrderRepository}

-- `OrderStatus(text)`, which raises a ValueError for any other text
unfoldable pub parse_status : String → Option OrderStatus
parse_status s =
    if str_eq s "WAITING"
    then some OrderStatus.waiting
    else if str_eq s "PREPARATION"
    then some OrderStatus.preparation
    else if str_eq s "READY"
    then some OrderStatus.ready
    else if str_eq s "DELIVERED"
    then some OrderStatus.delivered
    else none

-- `orders_table.c.id == str(order_id)`
abbrev pub has_id : Uuid → OrderRow → Bool
has_id k r = r.id == k

abbrev pub of_order : Uuid → OrderProductRow → Bool
of_order k r = r.order_id == k

abbrev pub owned_by : Uuid → OrderRow → Bool
owned_by u r = elim r.user_id [ none ↦ false | some v ↦ v == u ]

-- `_to_entity`; `UUID(None)` raises a TypeError
unfoldable pub to_entity : OrderRow → List Uuid → App Order
to_entity row product_ids = do
  status ← or_raise (parse_status row.status) Error.value_error
  user_id ← or_raise row.user_id Error.type_error
  pure (record {
    id = row.id;
    status = status;
    total_price = quantize row.total_price;
    user_id = user_id;
    product_ids = product_ids;
  })

-- the row that `create` inserts; `created_at` is the server's default
abbrev pub order_row : Engine → World → Order → OrderRow
order_row engine w order = record {
  id = order.id;
  status = status_value order.status;
  total_price = order.total_price;
  created_at = engine.current_timestamp w.now;
  user_id = some order.user_id;
}

abbrev pub order_product_rows : Order → List OrderProductRow
order_product_rows order =
    map (λ k. record { order_id = order.id; product_id = k }) order.product_ids

-- Both inserts, in one transaction: an order that is there already makes the first one raise.
unfoldable pub create : Engine → Order → App Order
create engine order = do
  orders ← gets (λ w. w.db.orders)
  raise_if (any (has_id order.id) orders) Error.integrity_error
  modify (λ w. record w {
    db = record w.db {
      orders = w.db.orders ++ order_row engine w order ∷ [];
      order_products = w.db.order_products ++ order_product_rows order;
    };
  })
  pure order

unfoldable pub fetch_product_ids : Engine → Uuid → App (List Uuid)
fetch_product_ids engine order_id = do
  rows ← gets (λ w. fetch_all engine (of_order order_id) w.db.order_products)
  pure (map (λ r. r.product_id) rows)

found_order : Engine → Uuid → Option OrderRow → App (Option Order)
found_order engine order_id none = pure none
found_order engine order_id (some row) = do
  product_ids ← fetch_product_ids engine order_id
  order ← to_entity row product_ids
  pure (some order)

unfoldable pub get_by_id : Engine → Uuid → App (Option Order)
unfolding found_order fetch_product_ids to_entity
get_by_id engine order_id = do
  row ← gets (λ w. fetch_one engine (has_id order_id) w.db.orders)
  found_order engine order_id row

-- `order_products JOIN products ON product_id = products.id`
abbrev pub join : List OrderProductRow → List ProductRow → List ProductRow
join [] products = []
join (r ∷ rows) products = select (λ p. p.id == r.product_id) products ++ join rows products

-- one row of `_fetch_order_items`: the price is added up by the query
abbrev pub order_item : ProductRow → OrderItem
order_item row = record {
  id = row.id;
  name = row.name;
  variation = row.variation;
  unit_price = quantize (add row.base_price row.price_change);
}

unfoldable pub fetch_order_items : Engine → Uuid → App (List OrderItem)
fetch_order_items engine order_id = gets (λ w.
    map order_item (
      engine.scan ProductRow (join (select (of_order order_id) w.db.order_products) w.db.products)))

pub found_detail : Engine → Uuid → Option OrderRow → App (Option OrderDetail)
found_detail engine order_id none = pure none
found_detail engine order_id (some row) = do
  items ← fetch_order_items engine order_id
  status ← or_raise (parse_status row.status) Error.value_error
  pure (
      some (record {
        id = row.id;
        status = status;
        total_price = quantize row.total_price;
        created_at = row.created_at;
        items = items;
      }))

unfoldable pub get_detail_by_id : Engine → Uuid → App (Option OrderDetail)
unfolding found_detail fetch_order_items
get_detail_by_id engine order_id = do
  row ← gets (λ w. fetch_one engine (has_id order_id) w.db.orders)
  found_detail engine order_id row

unfoldable pub get_detail_by_id_for_user : Engine → Uuid → Uuid → App (Option OrderDetail)
unfolding found_detail fetch_order_items
get_detail_by_id_for_user engine order_id user_id = do
  row ← gets (λ w. fetch_one engine (λ r. has_id order_id r && owned_by user_id r) w.db.orders)
  found_detail engine order_id row

-- `UPDATE orders SET status = … WHERE id = …`
abbrev pub set_status : Uuid → OrderStatus → OrderRow → OrderRow
set_status k s r = if has_id k r then record r { status = status_value s } else r

unfoldable pub update_status : Engine → Uuid → OrderStatus → App (Option Order)
unfolding get_by_id
update_status engine order_id status = do
  modify
      (λ w. record w { db = record w.db { orders = map (set_status order_id status) w.db.orders } })
  get_by_id engine order_id

-- the loop over the rows of a page
unfoldable pub to_entities : Engine → List OrderRow → App (List Order)
unfolding to_entity fetch_product_ids
to_entities engine [] = pure []
to_entities engine (row ∷ rows) = do
  product_ids ← fetch_product_ids engine row.id
  order ← to_entity row product_ids
  orders ← to_entities engine rows
  pure (order ∷ orders)

-- the integers of 64 bits, which SQLite stores
abbrev pub max_integer : ℕ
max_integer = 9223372036854775807

-- OFFSET and LIMIT as parameters of a query: a larger integer raises an OverflowError
abbrev pub bind_page : ℕ → ℕ → App (Unit {0})
bind_page offset limit =
    raise_if (not (leb offset max_integer && leb limit max_integer)) Error.overflow_error

unfoldable pub list_all : Engine → ℕ → ℕ → App (List Order × ℕ)
unfolding to_entities
list_all engine offset limit = do
  total ← gets (λ w. length w.db.orders)
  bind_page offset limit
  rows ← gets (λ w. take limit (drop offset (engine.scan OrderRow w.db.orders)))
  orders ← to_entities engine rows
  pure (orders, total)

unfoldable pub list_for_user : Engine → Uuid → ℕ → ℕ → App (List Order × ℕ)
unfolding to_entities
list_for_user engine user_id offset limit = do
  total ← gets (λ w. length (select (owned_by user_id) w.db.orders))
  bind_page offset limit
  rows ← gets (λ w. take limit (drop offset (fetch_all engine (owned_by user_id) w.db.orders)))
  orders ← to_entities engine rows
  pure (orders, total)

-- `OrderRepository(database)`
abbrev pub order_repository : Engine → OrderRepository
order_repository engine = record {
  create = create engine;
  get_by_id = get_by_id engine;
  get_detail_by_id = get_detail_by_id engine;
  get_detail_by_id_for_user = get_detail_by_id_for_user engine;
  update_status = update_status engine;
  list_all = list_all engine;
  list_for_user = list_for_user engine;
}
