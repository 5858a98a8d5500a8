-- ===== src/Repositories.antt =====
-- src/core/repositories and src/core/services: the interfaces that the use cases are written
-- against. A method is an action on the process.
pub mod Orders
pub mod Products
pub mod Idempotency
pub mod Users
pub mod RevokedTokens
use coffee_shop_api.Prelude.{ℕ, String, Bool, Option, List}
use coffee_shop_api.Decimal.{Decimal}
use coffee_shop_api.Entities.{Uuid, Datetime, OrderStatus, Order, OrderDetail, Product, User}
use coffee_shop_api.Schemas.{Body}
use coffee_shop_api.App.{App}

-- `update_status` is annotated `-> Order`, and returns what `get_by_id` does.
pub record OrderRepository : Type 0 where
  pub create : Order → App Order
  pub get_by_id : Uuid → App (Option Order)
  pub get_detail_by_id : Uuid → App (Option OrderDetail)
  pub get_detail_by_id_for_user : Uuid → Uuid → App (Option OrderDetail)
  pub update_status : Uuid → OrderStatus → App (Option Order)
  -- offset, then limit
  pub list_all : ℕ → ℕ → App (List Order × ℕ)
  pub list_for_user : Uuid → ℕ → ℕ → App (List Order × ℕ)

pub record ProductRepository : Type 0 where
  pub list_all : ℕ → ℕ → App (List Product × ℕ)
  pub get_by_ids : List Uuid → App (List Product)

pub record UserRepository : Type 0 where
  pub create : User → App User
  pub get_by_id : Uuid → App (Option User)
  pub get_by_email : String → App (Option User)
  pub list_all : App (List User)

pub record CachedResponse : Type 0 where
  pub status_code : ℕ
  pub body : Body

pub record IdempotencyRepository : Type 0 where
  pub get : String → App (Option CachedResponse)
  pub save : String → ℕ → Body → App (Unit {0})
  pub delete_expired : App (Unit {0})

pub record RevokedTokenRepository : Type 0 where
  pub revoke : String → Datetime → App (Unit {0})
  pub is_revoked : String → App Bool
  pub delete_expired : App (Unit {0})

-- `process` returns the payment service's answer, which nobody reads.
pub record PaymentService : Type 0 where
  pub process : Decimal → App (Unit {0})

pub record NotificationService : Type 0 where
  pub notify : String → App (Unit {0})
