-- ===== src/Worker/Loop.antt =====
-- src/infrastructure/tasks/notification_worker.py: the outer loop, which runs until it is cancelled;
-- here it runs for a number of rounds.
use coffee_shop_api.Prelude.{ℕ, zero, suc, ◌+◌, Bool, if◌then◌else◌}
use coffee_shop_api.App.{Error, Result, ok, err}
use coffee_shop_api.Worker.{Outbox, Remote, process_batch}

-- What XGROUP CREATE comes to: a ResponseError with or without BUSYGROUP in its text, or another
-- exception.
pub data GroupReply : Type 0 where
  created : GroupReply
  response_error : Bool → GroupReply
  group_raised : Error → GroupReply

-- the first block of `notification_worker`
abbrev pub create_group : GroupReply → Result (Unit {0})
create_group GroupReply.created = ok tt
create_group (GroupReply.response_error is_busygroup) =
    if is_busygroup then ok tt else err Error.redis_error
create_group (GroupReply.group_raised e) = err e

-- an exception of a batch is logged, and the next round starts after a second
abbrev pub after_batch : {G : Type 0} → Result (Unit {0}) × Outbox G → Outbox G
after_batch (ok _, o) = o
after_batch (err _, o) = record o { slept = o.slept + 1 }

module _ {G : Type 0} (remote : Remote G) where
  -- `while True`
  unfoldable pub worker_rounds : ℕ → Outbox G → Outbox G
  worker_rounds zero o = o
  worker_rounds (suc n) o = worker_rounds n (after_batch (process_batch remote o))

  -- `notification_worker`: the exception that it ends with, or what `n` rounds have done
  unfoldable pub notification_worker : GroupReply → ℕ → Outbox G → Result (Unit {0}) × Outbox G
  unfolding worker_rounds
  notification_worker group n o = elim (create_group group) [
    | ok _ ↦ (ok tt, worker_rounds n o)
    | err e ↦ (err e, o)
  ]
