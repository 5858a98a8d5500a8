-- ===== src/Repositories/Orders/Details.antt =====
-- The items of the order that `get_detail_by_id` returns.
use mathlib.Core.List.{Permᴰ}
use mathlib.Core.Path.{subst}
use coffee_shop_api.Prelude.{
  ◌≡◌, refl, ap, ◌∙◌, false, some, List, [], ◌∷◌, ◌++◌, map, select, select_last, any, ◌==◌,
  ==_self, All,
}
use coffee_shop_api.Decimal.{quantize}
use coffee_shop_api.Entities.{Uuid, Order, OrderItem}
use coffee_shop_api.Database.{ProductRow}
use coffee_shop_api.Engine.{Engine, fetch_one, fetch_one-only}
use coffee_shop_api.App.{World, Error, ok, pure, gets, or_raise, ◌>>=◌, bind-ok}
use coffee_shop_api.Repositories.Orders.{
  has_id, of_order, order_row, order_item, join, create, fetch_order_items, found_detail,
  get_detail_by_id,
}
use coffee_shop_api.Repositories.Orders.Inserts.{inserted, create-fresh}
use coffee_shop_api.Repositories.Orders.Lookup.{parse-status_value}
use coffee_shop_api.Repositories.Orders.RoundTrip.{rows_for, perm-map, stored_rows}

-- `row` is in the catalog, and no other product has its id.
abbrev pub IsListed : List ProductRow → ProductRow → Type 0
IsListed products row = select (λ p. p.id == row.id) products ≡ row ∷ []

join-rows_for :
    (k : Uuid) (products rows : List ProductRow)
    → All (IsListed products) rows
    → join (rows_for k (map (λ r. r.id) rows)) products ≡ rows
unfolding rows_for
join-rows_for k products [] listed = refl
join-rows_for k products (row ∷ rows) (h, listed) =
    ap (λ l. l ++ join (rows_for k (map (λ r. r.id) rows)) products) h
    ∙ ap (◌∷◌ row) (join-rows_for k products rows listed)

-- the products of an order, as the query of its detail returns them
abbrev pub items_of : Engine → World → Uuid → List OrderItem
items_of engine w k =
    map order_item
      (engine.scan ProductRow (join (select (of_order k) w.db.order_products) w.db.products))

module _ (engine : Engine) (order : Order) (w : World) (rows : List ProductRow) where
  stored_items :
      any (of_order order.id) w.db.order_products ≡ false
      → order.product_ids ≡ map (λ r. r.id) rows
      → All (IsListed w.db.products) rows
      → Permᴰ (items_of engine (inserted engine order w) order.id) (map order_item rows)
  unfolding rows_for
  stored_items none_yet bought listed =
      let v = inserted engine order w in
      subst (λ l. Permᴰ (items_of engine v order.id) (map order_item l))
        (ap (λ l. join l w.db.products) (stored_rows engine order w none_yet)
          ∙ ap (λ ids. join (rows_for order.id ids) w.db.products) bought
          ∙ join-rows_for order.id w.db.products rows listed)
        (perm-map order_item (
          engine.scan_perm ProductRow
            (join (select (of_order order.id) v.db.order_products) v.db.products)))

  -- Let no row of the two order tables have the id of an order, and let its product ids be those of
  -- a list of products, each in the catalog with an id no other product has. Once the order is
  -- stored, the detail found by its id has its id and status, its total rounded to cents, the time
  -- of the insert, and an item for each product of the list, each as often, in some order.
  pub get_detail_by_id-create :
      any (has_id order.id) w.db.orders ≡ false
      → any (of_order order.id) w.db.order_products ≡ false
      → order.product_ids ≡ map (λ r. r.id) rows
      → All (IsListed w.db.products) rows
      → let (o, v) = create engine order w in
        (o ≡ ok order)
        × (items : List OrderItem) × Permᴰ items (map order_item rows)
        × (get_detail_by_id engine order.id v ≡ (
          ok (
              some (record {
                id = order.id;
                status = order.status;
                total_price = quantize order.total_price;
                created_at = engine.current_timestamp w.now;
                items = items;
              })),
          v,
        ))
  unfolding get_detail_by_id found_detail fetch_order_items
  get_detail_by_id-create new none_yet bought listed =
      let v = inserted engine order w in
      let row = order_row engine w order in
      rw (create-fresh engine order w new) (
        refl,
        items_of engine v order.id,
        stored_items none_yet bought listed,
        bind-ok (gets (λ x. fetch_one engine (has_id order.id) x.db.orders))
              (found_detail engine order.id) v (some row) v
              (ap (λ o. (ok o, v))
                (fetch_one-only engine (has_id order.id) v.db.orders row
                  (select_last (has_id order.id) w.db.orders row new (==_self order.id))))
            ∙ ap
                (λ o.
                  (or_raise o Error.value_error >>= λ status. pure (
                      some (record {
                        id = order.id;
                        status = status;
                        total_price = quantize order.total_price;
                        created_at = engine.current_timestamp w.now;
                        items = items_of engine v order.id;
                      })))
                    v)
                (parse-status_value order.status),
      )
