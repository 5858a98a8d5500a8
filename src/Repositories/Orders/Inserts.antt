-- ===== src/Repositories/Orders/Inserts.antt =====
-- What `OrderRepository.create` does.
use coffee_shop_api.Prelude.{◌≡◌, true, false, [], ◌∷◌, ◌++◌, any}
use coffee_shop_api.Entities.{Order}
use coffee_shop_api.Engine.{Engine}
use coffee_shop_api.App.{World, Error, ok, err}
use coffee_shop_api.Repositories.Orders.{has_id, order_row, order_product_rows, create}

abbrev pub inserted : Engine → Order → World → World
inserted engine order w = record w {
  db = record w.db {
    orders = w.db.orders ++ order_row engine w order ∷ [];
    order_products = w.db.order_products ++ order_product_rows order;
  };
}

module _ (engine : Engine) (order : Order) (w : World) where
  pub create-fresh :
      any (has_id order.id) w.db.orders ≡ false
      → create engine order w ≡ (ok order, inserted engine order w)
  unfolding create
  create-fresh h = rw h

  pub create-duplicate :
      any (has_id order.id) w.db.orders ≡ true
      → create engine order w ≡ (err Error.integrity_error, w)
  unfolding create
  create-duplicate h = rw h
