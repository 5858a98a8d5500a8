-- ===== src/Repositories/Orders/Reads.antt =====
-- The lookups of the order repository.
use coffee_shop_api.Prelude.{ℕ, Option, none, some, List, [], ◌∷◌}
use coffee_shop_api.Entities.{Uuid, Order}
use coffee_shop_api.Database.{OrderRow}
use coffee_shop_api.Engine.{Engine}
use coffee_shop_api.App.{World, App, pure, ◌>>=◌}
use coffee_shop_api.App.Keeps.{Keeps, Keeps-bind, Keeps-pure, keeps}
use coffee_shop_api.Repositories.Orders.{
  to_entity, fetch_product_ids, fetch_order_items, found_order, found_detail, get_by_id,
  get_detail_by_id, get_detail_by_id_for_user, to_entities, list_all, list_for_user,
}

module _ (P : World → Type 0) (engine : Engine) where
  to_entity-Keeps : (row : OrderRow) (ids : List Uuid) → Keeps P (to_entity row ids)
  unfolding to_entity
  to_entity-Keeps row ids = search keeps

  fetch_product_ids-Keeps : (k : Uuid) → Keeps P (fetch_product_ids engine k)
  unfolding fetch_product_ids
  fetch_product_ids-Keeps k = search keeps

  found_order-Keeps : (k : Uuid) (o : Option OrderRow) → Keeps P (found_order engine k o)
  unfolding found_order
  found_order-Keeps k none = search keeps
  found_order-Keeps k (some row) = search (keeps, to_entity-Keeps, fetch_product_ids-Keeps)

  pub get_by_id-Keeps : (k : Uuid) → Keeps P (get_by_id engine k)
  unfolding get_by_id
  get_by_id-Keeps k = search (keeps, found_order-Keeps)

  fetch_order_items-Keeps : (k : Uuid) → Keeps P (fetch_order_items engine k)
  unfolding fetch_order_items
  fetch_order_items-Keeps k = search keeps

  found_detail-Keeps : (k : Uuid) (o : Option OrderRow) → Keeps P (found_detail engine k o)
  unfolding found_detail
  found_detail-Keeps k none = search keeps
  found_detail-Keeps k (some row) = search (keeps, fetch_order_items-Keeps)

  pub get_detail_by_id-Keeps : (k : Uuid) → Keeps P (get_detail_by_id engine k)
  unfolding get_detail_by_id
  get_detail_by_id-Keeps k = search (keeps, found_detail-Keeps)

  pub get_detail_by_id_for_user-Keeps :
      (k u : Uuid) → Keeps P (get_detail_by_id_for_user engine k u)
  unfolding get_detail_by_id_for_user
  get_detail_by_id_for_user-Keeps k u = search (keeps, found_detail-Keeps)

  -- one round of the loop
  to_entities-step :
      (row : OrderRow) (rest : App (List Order))
      → Keeps P rest
      → Keeps P (do
        ids ← fetch_product_ids engine row.id
        order ← to_entity row ids
        orders ← rest
        pure (order ∷ orders))
  to_entities-step row rest k =
      Keeps-bind P (fetch_product_ids engine row.id) _ (fetch_product_ids-Keeps row.id) λ ids.
        Keeps-bind P (to_entity row ids) _ (to_entity-Keeps row ids)
          λ order. Keeps-bind P rest _ k λ orders. Keeps-pure P (order ∷ orders)

  to_entities-Keeps : (rows : List OrderRow) → Keeps P (to_entities engine rows)
  unfolding to_entities
  to_entities-Keeps [] = Keeps-pure P []
  to_entities-Keeps (row ∷ rows) =
      to_entities-step row (to_entities engine rows) (to_entities-Keeps rows)

  pub list_all-Keeps : (offset limit : ℕ) → Keeps P (list_all engine offset limit)
  unfolding list_all
  list_all-Keeps offset limit = search (keeps, to_entities-Keeps)

  pub list_for_user-Keeps :
      (u : Uuid) (offset limit : ℕ) → Keeps P (list_for_user engine u offset limit)
  unfolding list_for_user
  list_for_user-Keeps u offset limit = search (keeps, to_entities-Keeps)
