-- ===== src/UseCases/UpdateOrderStatus/Forward.antt =====
-- What an update of an order's status may do to the table of orders.
use mathlib.Core.Path.{subst}
use coffee_shop_api.Prelude.{
  ◌+◌, ◌≡◌, refl, sym, Bool, true, false, inl, inr, Option, some, List, [], ◌∷◌, map, if◌then◌else◌,
  select, All, All-select, Distinct, arith,
}
use coffee_shop_api.Entities.{Uuid, OrderStatus, Order}
use coffee_shop_api.Database.{OrderRow}
use coffee_shop_api.Engine.{Engine}
use coffee_shop_api.App.{World, Result, bind-err}
use coffee_shop_api.Repositories.Orders.{
  has_id, set_status, parse_status, get_by_id, order_repository,
}
use coffee_shop_api.Repositories.Orders.Lookup.{
  IsReadable, same_id, only_one, ids_of, to_entity-cases, get_by_id-err,
}
use coffee_shop_api.Services.{Redis, notification_service}
use coffee_shop_api.UseCases.UpdateOrderStatus.{is_next, update_existing, execute}
use coffee_shop_api.UseCases.UpdateOrderStatus.Transitions.{
  rank, moved, execute-absent, execute-next,
}

-- The rows are the same in the same order, but that a row may have come one status further.
pub data Forward : List OrderRow → List OrderRow → Type 0 where
  done : Forward [] []
  keep : {r : OrderRow} {rs qs : List OrderRow} → Forward rs qs → Forward (r ∷ rs) (r ∷ qs)
  step :
      {r : OrderRow} {rs qs : List OrderRow} (s t : OrderStatus)
      → parse_status r.status ≡ some s
      → rank t ≡ rank s + 1
      → Forward rs qs
      → Forward (r ∷ rs) (moved t r ∷ qs)

Forward-refl : (rows : List OrderRow) → Forward rows rows
Forward-refl [] = Forward.done
Forward-refl (r ∷ rows) = Forward.keep (Forward-refl rows)

is_next-rank : (s t : OrderStatus) → is_next s t ≡ true → rank t ≡ rank s + 1
is_next-rank s t h = ground arith

Forward-if :
    (b : Bool) (r : OrderRow) (rs qs : List OrderRow) (s t : OrderStatus)
    → (b ≡ true → parse_status r.status ≡ some s)
    → rank t ≡ rank s + 1
    → Forward rs qs
    → Forward (r ∷ rs) ((if b then moved t r else r) ∷ qs)
Forward-if true r rs qs s t h e f = Forward.step s t (h refl) e f
Forward-if false r rs qs s t h e f = Forward.keep f

Forward-map :
    (k : Uuid) (s t : OrderStatus) (rows : List OrderRow)
    → All (λ r. has_id k r ≡ true → parse_status r.status ≡ some s) rows
    → rank t ≡ rank s + 1
    → Forward rows (map (set_status k t) rows)
Forward-map k s t [] h e = Forward.done
Forward-map k s t (r ∷ rows) h e =
    Forward-if (has_id k r) r rows (map (set_status k t) rows) s t h.0 e
      (Forward-map k s t rows h.1 e)

module _ (engine : Engine) (redis : Redis) (k : Uuid) (new : OrderStatus) (w : World) where
  abbrev Allowed : Result (Option Order) × World → Type 0
  Allowed o = Forward w.db.orders o.1.db.orders

  Allowed-if :
      (c : Bool) (x y : Result (Option Order) × World)
      → (c ≡ true → Allowed x)
      → Allowed y
      → Allowed (if c then x else y)
  Allowed-if true x y p q = p refl
  Allowed-if false x y p q = q

  moves :
      (row : OrderRow) (s : OrderStatus) (u : Uuid)
      → select (has_id k) w.db.orders ≡ row ∷ []
      → IsReadable row s u
      → Allowed (execute (order_repository engine) (notification_service redis) k new w)
  moves row s u only readable =
      let rows = w.db.orders in
      let known =
        All-select (λ r. parse_status r.status ≡ some s) (has_id k) rows
          (subst (All (λ r. parse_status r.status ≡ some s)) (sym only)
            (readable.status_text, tt)) in
      let forward : is_next s new ≡ true → Forward rows (map (set_status k new) rows) =
        λ next. Forward-map k s new rows known (is_next-rank s new next) in
      subst Allowed (sym (execute-next engine redis k new w row s u only readable)) (
        Allowed-if (is_next s new) _ _
          (λ next. Allowed-if (redis.accepts w.xadds) _ _ (λ _. forward next) (forward next))
          (Forward-refl rows))

  -- Let the ids of the stored orders be distinct. However an update of a status ends, by returning
  -- or by raising, the table has the same rows in the same order, and the status of each row is as
  -- before or one further: from WAITING to PREPARATION, READY and DELIVERED, never back and never
  -- past a status. Nothing else of a row changes.
  pub execute-Forward :
      Distinct same_id w.db.orders
      → Forward w.db.orders
          (execute (order_repository engine) (notification_service redis) k new w).1.db.orders
  unfolding execute
  execute-Forward d = elim (only_one k w.db.orders d) [
    | inl absent ↦
        subst Allowed (sym (execute-absent engine redis k new w absent)) (Forward-refl w.db.orders)
    | inr (row, only) ↦ elim (to_entity-cases row (ids_of engine w k) w) [
      | inl (e, raised) ↦
          subst Allowed
            (sym (
              bind-err (get_by_id engine k)
                (update_existing (order_repository engine) (notification_service redis) k new) w e w
                (get_by_id-err engine k w row e only raised)))
            (Forward-refl w.db.orders)
      | inr (s, u, readable) ↦ moves row s u only readable
    ]
  ]
