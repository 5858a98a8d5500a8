-- ===== src/Entities.antt =====
-- src/core/enums and src/core/entities. A UUID is only generated, compared and stored, so it is
-- the 128-bit number that Python's `UUID` holds; a datetime is a number of microseconds.
use coffee_shop_api.Prelude.{ℕ, String, Bool, true, false, List}
use coffee_shop_api.Decimal.{Decimal}

abbrev pub Uuid : Type 0
Uuid = ℕ

abbrev pub Datetime : Type 0
Datetime = ℕ

pub data Role : Type 0 where
  customer manager : Role

pub data OrderStatus : Type 0 where
  waiting preparation ready delivered : OrderStatus

-- `a == b` on the members of the two enums
abbrev pub eq_role : Role → Role → Bool
eq_role Role.customer Role.customer = true
eq_role Role.manager Role.manager = true
eq_role _ _ = false

abbrev pub eq_status : OrderStatus → OrderStatus → Bool
eq_status OrderStatus.waiting OrderStatus.waiting = true
eq_status OrderStatus.preparation OrderStatus.preparation = true
eq_status OrderStatus.ready OrderStatus.ready = true
eq_status OrderStatus.delivered OrderStatus.delivered = true
eq_status _ _ = false

-- `member.value`
abbrev pub role_value : Role → String
role_value Role.customer = "CUSTOMER"
role_value Role.manager = "MANAGER"

abbrev pub status_value : OrderStatus → String
status_value OrderStatus.waiting = "WAITING"
status_value OrderStatus.preparation = "PREPARATION"
status_value OrderStatus.ready = "READY"
status_value OrderStatus.delivered = "DELIVERED"

pub record Product : Type 0 where
  pub id : Uuid
  pub name : String
  pub base_price : Decimal
  pub variation : String
  pub price_change : Decimal

pub record Order : Type 0 where
  pub id : Uuid
  pub status : OrderStatus
  pub total_price : Decimal
  pub user_id : Uuid
  pub product_ids : List Uuid

pub record OrderItem : Type 0 where
  pub id : Uuid
  pub name : String
  pub variation : String
  pub unit_price : Decimal

pub record OrderDetail : Type 0 where
  pub id : Uuid
  pub status : OrderStatus
  pub total_price : Decimal
  pub created_at : Datetime
  pub items : List OrderItem

pub record MenuVariation : Type 0 where
  pub id : Uuid
  pub variation : String
  pub unit_price : Decimal

pub record MenuItem : Type 0 where
  pub name : String
  pub base_price : Decimal
  pub variations : List MenuVariation

pub record User : Type 0 where
  pub id : Uuid
  pub email : String
  pub role : Role
  pub password_hash : String
