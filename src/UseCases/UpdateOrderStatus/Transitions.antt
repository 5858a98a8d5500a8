-- ===== src/UseCases/UpdateOrderStatus/Transitions.antt =====
-- What an update of an order's status does on each of its paths.
use coffee_shop_api.Prelude.{
  ℕ, ◌==◌, ◌+◌, ◌≡◌, refl, ap, ◌∙◌, Bool, true, false, none, some, List, [], ◌∷◌, ◌++◌, map, arith,
  if◌then◌else◌, if_apply, select,
}
use coffee_shop_api.Entities.{Uuid, OrderStatus, status_value}
use coffee_shop_api.Database.{OrderRow}
use coffee_shop_api.Engine.{Engine}
use coffee_shop_api.App.{World, Error, Result, ok, err, pure, raise, ◌>>=◌, ◌>>◌, bind-ok}
use coffee_shop_api.Repositories.Orders.{
  has_id, set_status, get_by_id, update_status, order_repository,
}
use coffee_shop_api.Repositories.Orders.Lookup.{
  IsReadable, parse-status_value, readable_entity, ids_of, get_by_id-only, get_by_id-absent,
}
use coffee_shop_api.Services.{Redis, notify, notification_service}
use coffee_shop_api.UseCases.UpdateOrderStatus.{is_next, update_existing, execute}

-- how far an order has come
abbrev pub rank : OrderStatus → ℕ
rank OrderStatus.waiting = 0
rank OrderStatus.preparation = 1
rank OrderStatus.ready = 2
rank OrderStatus.delivered = 3

-- one status further, in the order in which they follow
pub is_next-eq : (s t : OrderStatus) → is_next s t ≡ (rank t == rank s + 1)
is_next-eq OrderStatus.waiting t = ground arith
is_next-eq OrderStatus.preparation t = ground arith
is_next-eq OrderStatus.ready t = ground arith
is_next-eq OrderStatus.delivered t = ground arith

-- the row after the update
abbrev pub moved : OrderStatus → OrderRow → OrderRow
moved new row = record row { status = status_value new }

select-set_status :
    (k : Uuid) (new : OrderStatus) (rows : List OrderRow)
    → select (has_id k) (map (set_status k new) rows) ≡ map (moved new) (select (has_id k) rows)
select-set_status k new [] = refl
select-set_status k new (r ∷ rows) = let ih = select-set_status k new rows in ground arith

-- the state after the UPDATE
abbrev pub stored : Uuid → OrderStatus → World → World
stored k new w = record w { db = record w.db { orders = map (set_status k new) w.db.orders } }

-- the message to the clients, and what becomes of the answer if Redis does not take it
abbrev pub notified : {A : Type 0} → Redis → OrderStatus → A → World → Result A × World
notified redis new a w =
    if redis.accepts w.xadds
    then (ok a, record w { stream = w.stream ++ status_value new ∷ []; xadds = w.xadds + 1 })
    else (err Error.redis_error, record w { xadds = w.xadds + 1 })

then_if :
    {A : Type 0} (c : Bool) (a : A) (x y v : World)
    → ((λ (_ : World). if c then (ok tt, x) else (err Error.redis_error, y)) >> pure a) v
      ≡ (if c then (ok a, x) else (err Error.redis_error, y))
then_if true a x y v = refl
then_if false a x y v = refl

then_notify :
    {A : Type 0} (redis : Redis) (new : OrderStatus) (a : A) (v : World)
    → (notify redis (status_value new) >> pure a) v ≡ notified redis new a v
unfolding notify
then_notify redis new a v =
    then_if (redis.accepts v.xadds) a
      (record v { stream = v.stream ++ status_value new ∷ []; xadds = v.xadds + 1 })
      (record v { xadds = v.xadds + 1 }) v

module _ (engine : Engine) (redis : Redis) (k : Uuid) (new : OrderStatus) (w : World) where
  -- An update of an order that is not there returns nothing and changes nothing.
  pub execute-absent :
      select (has_id k) w.db.orders ≡ []
      → execute (order_repository engine) (notification_service redis) k new w ≡ (ok none, w)
  unfolding execute update_existing
  execute-absent h =
      bind-ok (get_by_id engine k)
        (update_existing (order_repository engine) (notification_service redis) k new) w none w
        (get_by_id-absent engine k w h)

  module _ (row : OrderRow) (s : OrderStatus) (u : Uuid)
      (only : select (has_id k) w.db.orders ≡ row ∷ []) (readable : IsReadable row s u) where
    update_status-only :
        update_status engine k new w
        ≡ (ok (some (readable_entity (moved new row) (ids_of engine w k) new u)), stored k new w)
    unfolding update_status
    update_status-only =
        get_by_id-only engine k (stored k new w) (moved new row) new u
          (select-set_status k new w.db.orders ∙ ap (map (moved new)) only)
          (record { status_text = parse-status_value new; user = readable.user })

    pub execute-next : execute (order_repository engine) (notification_service redis) k new w ≡ (
        if is_next s new
        then notified redis new
            (some (readable_entity (moved new row) (ids_of engine w k) new u))
            (stored k new w)
        else (err (Error.invalid_status_transition s new), w))
    unfolding execute update_existing
    execute-next =
        bind-ok (get_by_id engine k)
          (update_existing (order_repository engine) (notification_service redis) k new) w
          (some (readable_entity row (ids_of engine w k) s u)) w
          (get_by_id-only engine k w row s u only readable)
        ∙ (if_apply (is_next s new)
              (update_status engine k new >>= λ o. notify redis (status_value new) >> pure o)
              (raise (Error.invalid_status_transition s new)) w
            ∙ ap
                (λ o. if is_next s new then o else (err (Error.invalid_status_transition s new), w))
                (bind-ok (update_status engine k new)
                    (λ o. notify redis (status_value new) >> pure o) w
                    (some (readable_entity (moved new row) (ids_of engine w k) new u))
                    (stored k new w) update_status-only
                  ∙ then_notify redis new
                      (some (readable_entity (moved new row) (ids_of engine w k) new u))
                      (stored k new w)))

    -- An order whose id one row has, a readable one, moves one status further, in the order WAITING,
    -- PREPARATION, READY, DELIVERED, and not otherwise: any other update raises and changes
    -- nothing. The status is stored before the message is sent, and it stays stored where Redis
    -- does not take the message, which makes the update raise.
    pub execute-only : execute (order_repository engine) (notification_service redis) k new w ≡ (
        if rank new == rank s + 1
        then notified redis new
            (some (readable_entity (moved new row) (ids_of engine w k) new u))
            (stored k new w)
        else (err (Error.invalid_status_transition s new), w))
    execute-only =
        execute-next
        ∙ ap
            (λ b.
              if b
              then notified redis new
                  (some (readable_entity (moved new row) (ids_of engine w k) new u))
                  (stored k new w)
              else (err (Error.invalid_status_transition s new), w))
            (is_next-eq s new)
