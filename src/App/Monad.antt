-- ===== src/App/Monad.antt =====
-- The process of the service: its state, its exceptions and the actions on them.
use coffee_shop_api.Prelude.{ℕ, Bool, String, Option, none, some, List, if◌then◌else◌}
use coffee_shop_api.Decimal.{Decimal}
use coffee_shop_api.Entities.{Uuid, Datetime, OrderStatus, Role}
use coffee_shop_api.Breaker.{CircuitBreaker}
use coffee_shop_api.Database.{Database}

-- `posts` are the amounts that were sent to the payment service, the first one last; `stream` is
-- the Redis stream, the first message first; `uuids` and `xadds` count calls.
pub record World : Type 0 where
  pub db : Database
  pub breaker : CircuitBreaker
  pub monotonic : ℕ
  pub now : Datetime
  pub posts : List Decimal
  pub stream : List String
  pub uuids : ℕ
  pub xadds : ℕ

-- Why a payment failed: `str(exc)` of the exception that `PaymentFailedError` was made from.
pub data Failure : Type 0 where
  circuit_is_open no_connection bad_answer bad_status other_failure : Failure

-- The `detail` of an HTTPException; three are made from data.
pub data Detail : Type 0 where
  text : String → Detail
  products_not_found : List Uuid → Detail
  cannot_transition : OrderStatus → OrderStatus → Detail
  role_not_allowed : Role → Detail

-- src/core/exceptions.py, and the exceptions of the libraries that can arise.
pub data Error : Type 0 where
  payment_failed : Failure → Error
  invalid_status_transition : OrderStatus → OrderStatus → Error
  invalid_product : List Uuid → Error
  invalid_credentials duplicate_email : Error
  request_error non_success json_error : Error
  integrity_error type_error value_error redis_error overflow_error : Error
  http : ℕ → Detail → Error

pub data Result (A : Type 0) : Type 0 where
  ok : A → Result A
  err : Error → Result A

abbrev pub App : Type 0 → Type 0
App A = World → Result A × World

module _ {A : Type 0} where
  abbrev pub pure : A → App A
  pure a w = (ok a, w)

  abbrev pub raise : Error → App A
  raise e w = (err e, w)

  abbrev pub gets : (World → A) → App A
  gets f w = (ok (f w), w)

  abbrev pub or_raise : Option A → Error → App A
  or_raise none e = raise e
  or_raise (some a) e = pure a

  -- `except`: the handler goes on from the state that the exception left
  abbrev pub catch : App A → (Error → App A) → App A
  catch m f w = let (r, w') = m w in elim r [ ok a ↦ (ok a, w') | err e ↦ f e w' ]

infixl 5 ◌>>=◌ ◌>>◌
abbrev pub ◌>>=◌ : {A B : Type 0} → App A → (A → App B) → App B
◌>>=◌ m f w = let (r, w') = m w in elim r [ ok a ↦ f a w' | err e ↦ (err e, w') ]

abbrev pub ◌>>◌ : {A B : Type 0} → App A → App B → App B
m >> k = m >>= λ _. k

abbrev pub raise_if : Bool → Error → App (Unit {0})
raise_if c e w = (if c then err e else ok tt, w)

abbrev pub modify : (World → World) → App (Unit {0})
modify f w = (ok tt, f w)
