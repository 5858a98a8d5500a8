-- ===== src/Services.antt =====
-- src/infrastructure/services/redis_notification_service.py, and the services that
-- src/infrastructure/api/dependencies.py hands to the use cases. Redis is a parameter.
pub mod Background
use coffee_shop_api.Prelude.{ℕ, ◌+◌, String, Bool, [], ◌∷◌, ◌++◌, if◌then◌else◌}
use coffee_shop_api.App.{App, Error, ok, err}
use coffee_shop_api.Payment.{PaymentApi, Tenacity, process}
use coffee_shop_api.Repositories.{PaymentService, NotificationService}

-- Whether the n-th XADD reaches the server; if it does not, the client raises.
pub record Redis : Type 0 where
  pub accepts : ℕ → Bool

-- `RedisNotificationService(redis_client).notify`: one XADD to the stream "notifications"
unfoldable pub notify : Redis → String → App (Unit {0})
notify redis status w =
    if redis.accepts w.xadds
    then (ok tt, record w { stream = w.stream ++ status ∷ []; xadds = w.xadds + 1 })
    else (err Error.redis_error, record w { xadds = w.xadds + 1 })

-- `get_notification_service()`
abbrev pub notification_service : Redis → NotificationService
notification_service redis = record { notify = notify redis }

-- `get_payment_service()`
abbrev pub payment_service : PaymentApi → Tenacity → PaymentService
payment_service api tenacity = record { process = process api tenacity }
