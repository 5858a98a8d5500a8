-- ===== src/Repositories/Orders/Lookup.antt =====
-- What the lookups of an order by its id return.
use coffee_shop_api.Prelude.{
  Option-cases, inl, inr, ◌≡◌, refl, ap, ◌∙◌, Bool, ◌⊎◌, none, some, List, [], ◌∷◌, map, arith,
  ◌==◌, select, Distinct, select_one,
}
use coffee_shop_api.Decimal.{quantize}
use coffee_shop_api.Entities.{Uuid, OrderStatus, status_value, Order}
use coffee_shop_api.Database.{OrderRow}
use coffee_shop_api.Engine.{Engine, fetch_all, fetch_one, fetch_one-nil, fetch_one-only}
use coffee_shop_api.App.{World, Error, ok, err, pure, gets, or_raise, ◌>>=◌, bind-ok, bind-err}
use coffee_shop_api.Repositories.Orders.{
  has_id, of_order, parse_status, get_by_id, to_entity, found_order,
}

-- `id` is the primary key of the orders.
abbrev pub same_id : OrderRow → OrderRow → Bool
same_id r s = s.id == r.id

-- A row that `_to_entity` accepts: a status that the program knows, and a user.
pub record IsReadable (row : OrderRow) (status : OrderStatus) (user_id : Uuid) : Type 0 where
  pub status_text : parse_status row.status ≡ some status
  pub user : row.user_id ≡ some user_id

pub parse-status_value : (s : OrderStatus) → parse_status (status_value s) ≡ some s
unfolding parse_status
parse-status_value OrderStatus.waiting = refl
parse-status_value OrderStatus.preparation = refl
parse-status_value OrderStatus.ready = refl
parse-status_value OrderStatus.delivered = refl

-- the products of an order, in the order in which the engine returns them
abbrev pub ids_of : Engine → World → Uuid → List Uuid
ids_of engine w k = map (λ r. r.product_id) (fetch_all engine (of_order k) w.db.order_products)

pub only_one :
    (k : Uuid) (rows : List OrderRow)
    → Distinct same_id rows
    → (select (has_id k) rows ≡ []) ⊎ ((r : OrderRow) × (select (has_id k) rows ≡ r ∷ []))
only_one k rows d = select_one same_id (has_id k) (λ r s p q. ground arith) rows d

-- the order that `_to_entity` makes of such a row
abbrev pub readable_entity : OrderRow → List Uuid → OrderStatus → Uuid → Order
readable_entity row ids status user_id = record {
  id = row.id;
  status = status;
  total_price = quantize row.total_price;
  user_id = user_id;
  product_ids = ids;
}

pub to_entity-readable :
    (row : OrderRow) (ids : List Uuid) (s : OrderStatus) (u : Uuid) (w : World)
    → IsReadable row s u
    → to_entity row ids w ≡ (ok (readable_entity row ids s u), w)
unfolding to_entity
to_entity-readable row ids s u w readable =
    ap
      (λ o.
        (or_raise o Error.value_error >>= λ status.
        or_raise row.user_id Error.type_error >>= λ user_id.
        pure (readable_entity row ids status user_id))
          w)
      readable.status_text
    ∙ ap
        (λ o.
          (or_raise o Error.type_error >>= λ user_id. pure (readable_entity row ids s user_id)) w)
        readable.user

-- any other row makes it raise
pub to_entity-cases :
    (row : OrderRow) (ids : List Uuid) (w : World)
    → ((e : Error) × (to_entity row ids w ≡ (err e, w)))
      ⊎ ((s : OrderStatus) × (u : Uuid) × IsReadable row s u)
unfolding to_entity
to_entity-cases row ids w = elim (Option-cases (parse_status row.status)) [
  | inl unknown ↦ inl (
    Error.value_error,
    bind-err (or_raise (parse_status row.status) Error.value_error)
        (λ s. or_raise row.user_id Error.type_error >>= λ u. pure (readable_entity row ids s u)) w
        Error.value_error w (ap (λ o. or_raise o Error.value_error w) unknown),
  )
  | inr (s, known) ↦ elim (Option-cases row.user_id) [
    | inl missing ↦ inl (
      Error.type_error,
      bind-ok (or_raise (parse_status row.status) Error.value_error)
            (λ s. or_raise row.user_id Error.type_error >>= λ u. pure (readable_entity row ids s u))
            w s w (ap (λ o. or_raise o Error.value_error w) known)
          ∙ bind-err (or_raise row.user_id Error.type_error)
              (λ u. pure (readable_entity row ids s u)) w Error.type_error w
              (ap (λ o. or_raise o Error.type_error w) missing),
    )
    | inr (u, owner) ↦ inr (s, u, record { status_text = known; user = owner })
  ]
]

module _ (engine : Engine) (k : Uuid) (w : World) where
  pub get_by_id-absent : select (has_id k) w.db.orders ≡ [] → get_by_id engine k w ≡ (ok none, w)
  unfolding get_by_id
  get_by_id-absent h = rw (fetch_one-nil engine (has_id k) w.db.orders h)

  pub get_by_id-only :
      (row : OrderRow) (s : OrderStatus) (u : Uuid)
      → select (has_id k) w.db.orders ≡ row ∷ []
      → IsReadable row s u
      → get_by_id engine k w ≡ (ok (some (readable_entity row (ids_of engine w k) s u)), w)
  unfolding get_by_id found_order
  get_by_id-only row s u h readable =
      bind-ok (gets (λ x. fetch_one engine (has_id k) x.db.orders)) (found_order engine k) w
        (some row) w (ap (λ o. (ok o, w)) (fetch_one-only engine (has_id k) w.db.orders row h))
      ∙ bind-ok (to_entity row (ids_of engine w k)) (λ o. pure (some o)) w
          (readable_entity row (ids_of engine w k) s u) w
          (to_entity-readable row (ids_of engine w k) s u w readable)

  pub get_by_id-err :
      (row : OrderRow) (e : Error)
      → select (has_id k) w.db.orders ≡ row ∷ []
      → to_entity row (ids_of engine w k) w ≡ (err e, w)
      → get_by_id engine k w ≡ (err e, w)
  unfolding get_by_id found_order
  get_by_id-err row e h raised =
      bind-ok (gets (λ x. fetch_one engine (has_id k) x.db.orders)) (found_order engine k) w
        (some row) w (ap (λ o. (ok o, w)) (fetch_one-only engine (has_id k) w.db.orders row h))
      ∙ bind-err (to_entity row (ids_of engine w k)) (λ o. pure (some o)) w e w raised
