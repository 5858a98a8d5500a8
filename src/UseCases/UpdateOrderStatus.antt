-- ===== src/UseCases/UpdateOrderStatus.antt =====
-- src/use_cases/order/update_order_status.py.
pub mod Transitions
pub mod Forward
pub mod Stream
use coffee_shop_api.Prelude.{Bool, false, Option, none, some, if◌then◌else◌}
use coffee_shop_api.Entities.{Uuid, OrderStatus, eq_status, status_value, Order}
use coffee_shop_api.App.{World, App, Error, Result, ok, err, pure, raise, ◌>>=◌, ◌>>◌}
use coffee_shop_api.Repositories.{OrderRepository, NotificationService}

-- `_TRANSITIONS.get(status)`
abbrev pub transition : OrderStatus → Option OrderStatus
transition OrderStatus.waiting = some OrderStatus.preparation
transition OrderStatus.preparation = some OrderStatus.ready
transition OrderStatus.ready = some OrderStatus.delivered
transition OrderStatus.delivered = none

-- `_TRANSITIONS.get(current) == new`
abbrev pub is_next : OrderStatus → OrderStatus → Bool
is_next current new = elim (transition current) [ none ↦ false | some s ↦ eq_status s new ]

module _ (repository : OrderRepository) (notification_service : NotificationService) where
  unfoldable pub update_existing : Uuid → OrderStatus → Option Order → App (Option Order)
  update_existing order_id new_status none = pure none
  update_existing order_id new_status (some existing) =
      if is_next existing.status new_status
      then (do
        order ← repository.update_status order_id new_status
        notification_service.notify (status_value new_status)
        pure order)
      else raise (Error.invalid_status_transition existing.status new_status)

  -- `UpdateOrderStatus(repository, notification_service).execute`
  unfoldable pub execute : Uuid → OrderStatus → App (Option Order)
  unfolding update_existing
  execute order_id new_status = do
    existing ← repository.get_by_id order_id
    update_existing order_id new_status existing
