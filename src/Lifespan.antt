-- ===== src/Lifespan.antt =====
-- src/main.py: the lifespan of the application. The tasks run beside the requests until they are
-- cancelled; what the end of a task says to who awaits it is Python's.
pub mod Shutdown
use coffee_shop_api.Prelude.{ℕ, Bool, true, false}
use coffee_shop_api.App.{World, App, Error, Result, ok, err}
use coffee_shop_api.Seed.{seed_catalog}
use coffee_shop_api.Tasks.{purge_loop}
use coffee_shop_api.Worker.{Outbox, Remote}
use coffee_shop_api.Worker.Loop.{GroupReply, notification_worker}
use coffee_shop_api.Repositories.Idempotency.{idempotency_repository}
use coffee_shop_api.Repositories.RevokedTokens.{revoked_token_repository}
use coffee_shop_api.System.{Environment}

-- the two connections that the lifespan is to close
pub record Connections : Type 0 where
  pub database : Bool
  pub redis : Bool

-- How a task has ended once it was cancelled: a task that was still running raises CancelledError,
-- one that an exception had ended before raises that.
pub data TaskEnd : Type 0 where
  cancelled : TaskEnd
  failed : Error → TaskEnd

abbrev pub task_end : Result (Unit {0}) → TaskEnd
task_end (ok _) = TaskEnd.cancelled
task_end (err e) = TaskEnd.failed e

-- `try: await task` with `except asyncio.CancelledError: pass`
abbrev pub await_task : TaskEnd → Result (Unit {0})
await_task TaskEnd.cancelled = ok tt
await_task (TaskEnd.failed e) = err e

abbrev and_then :
    Result (Unit {0})
    → (Connections → Result (Unit {0}) × Connections)
    → Connections
    → Result (Unit {0}) × Connections
and_then (ok _) rest c = rest c
and_then (err e) rest c = (err e, c)

-- `database.disconnect()` and `redis_client.aclose()`
abbrev close : Connections → Result (Unit {0}) × Connections
close c = (ok tt, record { database = false; redis = false })

-- what follows the `yield`
unfoldable pub shutdown : TaskEnd → TaskEnd → Connections → Result (Unit {0}) × Connections
shutdown purge_task notification_task c =
    and_then (await_task purge_task) (and_then (await_task notification_task) close) c

-- the connections after `database.connect()`; the Redis client connects when it is used
abbrev pub connected : Connections
connected = record { database = true; redis = true }

-- after the seeding: the two tasks, each for a number of rounds, and the end
abbrev pub after_seed :
    {G : Type 0}
    → Environment
    → Remote G
    → GroupReply
    → ℕ
    → ℕ
    → Outbox G
    → Result (Unit {0}) × World
    → Result (Unit {0}) × Connections
after_seed env remote group purges rounds o (err e, w) = (err e, connected)
after_seed env remote group purges rounds o (ok _, w) =
    let (purge, _) =
      purge_loop (idempotency_repository env.engine) (revoked_token_repository env.engine) purges
        w in
    let (worker, _) = notification_worker remote group rounds o in
    shutdown (task_end purge) (task_end worker) connected

-- `lifespan`
unfoldable pub lifespan :
    {G : Type 0}
    → Environment
    → Remote G
    → GroupReply
    → ℕ
    → ℕ
    → Outbox G
    → World
    → Result (Unit {0}) × Connections
lifespan env remote group purges rounds o w =
    after_seed env remote group purges rounds o (seed_catalog env.uuids w)
