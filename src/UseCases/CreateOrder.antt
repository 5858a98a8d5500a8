-- ===== src/UseCases/CreateOrder.antt =====
-- src/use_cases/order/create_order.py.
pub mod Selection
pub mod Total
pub mod Outcome
use coffee_shop_api.Prelude.{
  ℕ, Bool, not, List, [], ◌∷◌, map, ◌==◌, if◌then◌else◌, select, any, length,
}
use coffee_shop_api.Decimal.{Decimal, zero_decimal, add, quantize, sum}
use coffee_shop_api.Entities.{Uuid, OrderStatus, Order, Product}
use coffee_shop_api.App.{
  World, App, Error, Result, ok, err, pure, raise, Uuids, next_uuid, ◌>>=◌, ◌>>◌,
}
use coffee_shop_api.Repositories.{OrderRepository, ProductRepository, PaymentService}

-- `pid in found_ids`
abbrev pub is_found : List Product → Uuid → Bool
is_found products k = any (λ p. p.id == k) products

abbrev pub missing_ids : List Product → List Uuid → List Uuid
missing_ids products product_ids = select (λ k. not (is_found products k)) product_ids

abbrev pub price : Product → Decimal
price p = add p.base_price p.price_change

unfoldable pub total_price : List Product → Decimal
total_price products = quantize (sum zero_decimal (map price products))

module _ (uuids : Uuids) where
  -- the order that is stored once the payment has gone through
  unfoldable pub store : OrderRepository → List Uuid → Uuid → Decimal → App Order
  unfolding next_uuid
  store order_repository product_ids user_id total = do
    id ← next_uuid uuids
    order_repository.create (record {
      id = id;
      status = OrderStatus.waiting;
      total_price = total;
      user_id = user_id;
      product_ids = product_ids;
    })

  unfoldable pub pay_and_store :
      OrderRepository → PaymentService → List Uuid → Uuid → Decimal → App Order
  unfolding store
  pay_and_store order_repository payment_service product_ids user_id total = do
    payment_service.process total
    store order_repository product_ids user_id total

  unfoldable pub check_products :
      OrderRepository → PaymentService → List Uuid → Uuid → List Product → App Order
  check_products order_repository payment_service product_ids user_id products =
      if length products == length product_ids
      then pay_and_store order_repository payment_service product_ids user_id (total_price products)
      else raise (Error.invalid_product (missing_ids products product_ids))

  -- `CreateOrder(order_repository, product_repository, payment_service).execute`
  unfoldable pub execute :
      OrderRepository → ProductRepository → PaymentService → List Uuid → Uuid → App Order
  unfolding check_products
  execute order_repository product_repository payment_service product_ids user_id = do
    products ← product_repository.get_by_ids product_ids
    check_products order_repository payment_service product_ids user_id products
