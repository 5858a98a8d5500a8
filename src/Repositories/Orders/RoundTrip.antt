-- ===== src/Repositories/Orders/RoundTrip.antt =====
-- An order that is stored, and read again.
use mathlib.Core.List.{Permᴰ}
use mathlib.Core.Path.{subst}
use coffee_shop_api.Prelude.{
  ◌≡◌, refl, ap, ◌∙◌, false, some, List, [], ◌∷◌, ◌++◌, map, select, select_last, select-append,
  select-eq-nil, any, ==_self,
}
use coffee_shop_api.Decimal.{quantize}
use coffee_shop_api.Entities.{Uuid, Order}
use coffee_shop_api.Database.{OrderProductRow}
use coffee_shop_api.Engine.{Engine}
use coffee_shop_api.App.{World, ok}
use coffee_shop_api.Repositories.Orders.{
  has_id, of_order, order_row, order_product_rows, create, get_by_id,
}
use coffee_shop_api.Repositories.Orders.Inserts.{inserted, create-fresh}
use coffee_shop_api.Repositories.Orders.Lookup.{parse-status_value, ids_of, get_by_id-only}

pub perm-map {ℓ κ} :
    {A : Type ℓ} {B : Type κ} (f : A → B) {xs ys : List A}
    → Permᴰ xs ys
    → Permᴰ (map f xs) (map f ys)
perm-map f Permᴰ.nil = Permᴰ.nil
perm-map f (Permᴰ.cons p q) = Permᴰ.cons (ap f p) (perm-map f q)
perm-map f (Permᴰ.swap p q) = Permᴰ.swap (ap f p) (ap f q)
perm-map f (Permᴰ.trans p q) = Permᴰ.trans (perm-map f p) (perm-map f q)

unfoldable pub rows_for : Uuid → List Uuid → List OrderProductRow
rows_for k ids = map (λ p. record { order_id = k; product_id = p }) ids

select-rows_for :
    (k : Uuid) (ids : List Uuid) → select (of_order k) (rows_for k ids) ≡ rows_for k ids
unfolding rows_for
select-rows_for k [] = refl
select-rows_for k (p ∷ ids) =
    rw (==_self k) (ap (◌∷◌ (record { order_id = k; product_id = p })) (select-rows_for k ids))

ids-rows_for : (k : Uuid) (ids : List Uuid) → map (λ r. r.product_id) (rows_for k ids) ≡ ids
unfolding rows_for
ids-rows_for k [] = refl
ids-rows_for k (p ∷ ids) = ap (◌∷◌ p) (ids-rows_for k ids)

module _ (engine : Engine) (order : Order) (w : World) where
  pub stored_rows :
      any (of_order order.id) w.db.order_products ≡ false
      → select (of_order order.id) (inserted engine order w).db.order_products
        ≡ order_product_rows order
  unfolding rows_for
  stored_rows none_yet =
      select-append (of_order order.id) w.db.order_products (order_product_rows order)
      ∙ ap (λ l. l ++ select (of_order order.id) (order_product_rows order))
          (select-eq-nil (of_order order.id) w.db.order_products none_yet)
      ∙ select-rows_for order.id order.product_ids

  stored_ids :
      any (of_order order.id) w.db.order_products ≡ false
      → Permᴰ (ids_of engine (inserted engine order w) order.id) order.product_ids
  unfolding rows_for
  stored_ids none_yet =
      let rows = (inserted engine order w).db.order_products in
      subst (λ ids. Permᴰ (ids_of engine (inserted engine order w) order.id) ids)
        (ap (map (λ r. r.product_id)) (stored_rows none_yet)
          ∙ ids-rows_for order.id order.product_ids)
        (perm-map (λ r. r.product_id)
          (engine.scan_perm OrderProductRow (select (of_order order.id) rows)))

  -- An order whose id no row of the two order tables has is stored and found again by its id: with
  -- its id, status, user and total, rounded to cents, and with its products, each as often, in
  -- some order.
  pub get_by_id-create :
      any (has_id order.id) w.db.orders ≡ false
      → any (of_order order.id) w.db.order_products ≡ false
      → let (o, v) = create engine order w in
        (o ≡ ok order)
        × (ids : List Uuid) × Permᴰ ids order.product_ids
        × (get_by_id engine order.id v ≡ (
          ok (some (record order { total_price = quantize order.total_price; product_ids = ids })),
          v,
        ))
  get_by_id-create new none_yet =
      let v = inserted engine order w in
      let row = order_row engine w order in
      rw (create-fresh engine order w new) (
        refl,
        ids_of engine v order.id,
        stored_ids none_yet,
        get_by_id-only engine order.id v row order.status order.user_id
            (select_last (has_id order.id) w.db.orders row new (==_self order.id))
            (record { status_text = parse-status_value order.status; user = refl }),
      )
