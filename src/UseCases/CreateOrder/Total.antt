-- ===== src/UseCases/CreateOrder/Total.antt =====
-- The price of an order, and the use case as a function of the catalogue.
use mathlib.Core.List.{Permᴰ}
use mathlib.Core.Path.{ap₂}
use coffee_shop_api.Prelude.{
  ◌≡◌, refl, ap, ◌∙◌, List, [], ◌∷◌, map, select, if◌then◌else◌, if_apply,
}
use coffee_shop_api.Prelude.Int.{ℤ, ◌+ℤ◌, int_laws}
use coffee_shop_api.Decimal.{zero_decimal, quantize, sum}
use coffee_shop_api.Decimal.Rounding.{cents, add-cents, sum_cents, quantize-sum}
use coffee_shop_api.Entities.{Uuid}
use coffee_shop_api.Database.{ProductRow}
use coffee_shop_api.Engine.{Engine}
use coffee_shop_api.App.{World, Uuids, Error, err}
use coffee_shop_api.Repositories.{OrderRepository, PaymentService}
use coffee_shop_api.Repositories.Products.{is_listed, to_entity, get_by_ids, product_repository}
use coffee_shop_api.UseCases.CreateOrder.{price, total_price, pay_and_store, execute}
use coffee_shop_api.UseCases.CreateOrder.Selection.{
  UniqueIds, is_orderable, absent, found, missing_ids-absent, length-found,
}

-- what a product costs, in cents: its two prices, each rounded to cents as it is read
abbrev pub row_cents : ProductRow → ℤ
row_cents r = (quantize r.base_price).coefficient +ℤ (quantize r.price_change).coefficient

-- The sum of the prices of the listed products.
abbrev pub order_cents : List ProductRow → List Uuid → ℤ
order_cents rows ids = sum_cents (map row_cents (select (is_listed ids) rows))

price-to_entity : (r : ProductRow) → price (to_entity r) ≡ cents (row_cents r)
unfolding to_entity quantize
price-to_entity r =
    add-cents (quantize r.base_price).coefficient (quantize r.price_change).coefficient

map-price :
    (rows : List ProductRow) → map price (map to_entity rows) ≡ map cents (map row_cents rows)
map-price [] = refl
map-price (r ∷ rows) = ap₂ ◌∷◌ (price-to_entity r) (map-price rows)

sum_cents-perm :
    {xs ys : List ProductRow}
    → Permᴰ xs ys
    → sum_cents (map row_cents xs) ≡ sum_cents (map row_cents ys)
sum_cents-perm Permᴰ.nil = refl
sum_cents-perm (Permᴰ.cons p q) = ap₂ (λ x s. row_cents x +ℤ s) p (sum_cents-perm q)
sum_cents-perm (Permᴰ.swap p q) = rw (p, q) (omega int_laws)
sum_cents-perm (Permᴰ.trans p q) = sum_cents-perm p ∙ sum_cents-perm q

total_price-found :
    (engine : Engine) (rows : List ProductRow) (ids : List Uuid)
    → total_price (map to_entity (found engine rows ids)) ≡ cents (order_cents rows ids)
unfolding total_price
total_price-found engine rows ids =
    ap (λ ds. quantize (sum zero_decimal ds)) (map-price (found engine rows ids))
    ∙ quantize-sum (map row_cents (found engine rows ids))
    ∙ ap cents (sum_cents-perm (engine.scan_perm ProductRow (select (is_listed ids) rows)))

-- Over a product table with distinct ids, whatever the order in which the database returns its
-- rows and whatever the other repositories do: an order goes on to the payment exactly if every id
-- is in the catalogue and none is listed twice, and then for the exact sum of the listed products'
-- prices; otherwise InvalidProductError is raised with the ids that are not in the catalogue,
-- before anything has changed.
pub execute-eq :
    (engine : Engine) (uuids : Uuids) (order_repository : OrderRepository)
    (payment_service : PaymentService) (ids : List Uuid) (user_id : Uuid) (w : World)
    → UniqueIds w.db.products
    → execute uuids order_repository (product_repository engine) payment_service ids user_id w ≡ (
        if is_orderable w.db.products ids
        then pay_and_store uuids order_repository payment_service ids user_id
            (cents (order_cents w.db.products ids))
            w
        else (err (Error.invalid_product (absent w.db.products ids)), w))
unfolding execute get_by_ids
execute-eq engine uuids order_repository payment_service ids user_id w u =
    rw
      (
        length-found engine w.db.products ids u,
        missing_ids-absent engine w.db.products ids,
        total_price-found engine w.db.products ids,
      )
      (if_apply (is_orderable w.db.products ids) _ _ w)
