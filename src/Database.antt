-- ===== src/Database.antt =====
-- src/infrastructure/database/models: the tables as lists of rows, in the order of insertion. A
-- column that is written as `str(uuid)` holds the UUID, which that text determines; a status and a
-- role are the texts that the program parses back. SQLite is not told to enforce foreign keys, so
-- the only constraints are the primary keys and the unique emails; the inserts check them.
use coffee_shop_api.Prelude.{ℕ, String, Option, List, []}
use coffee_shop_api.Decimal.{Decimal}
use coffee_shop_api.Entities.{Uuid, Datetime}
use coffee_shop_api.Schemas.{Body}

pub record ProductRow : Type 0 where
  pub id : Uuid
  pub name : String
  pub base_price : Decimal
  pub variation : String
  pub price_change : Decimal

-- `user_id` is nullable: orders placed before the column was added have none.
pub record OrderRow : Type 0 where
  pub id : Uuid
  pub status : String
  pub total_price : Decimal
  pub created_at : Datetime
  pub user_id : Option Uuid

pub record OrderProductRow : Type 0 where
  pub order_id : Uuid
  pub product_id : Uuid

pub record UserRow : Type 0 where
  pub id : Uuid
  pub email : String
  pub role : String
  pub password_hash : String

pub record IdempotencyKeyRow : Type 0 where
  pub key : String
  pub status_code : ℕ
  pub response_body : Body
  pub created_at : Datetime

pub record RevokedTokenRow : Type 0 where
  pub jti : String
  pub expires_at : Datetime

pub record Database : Type 0 where
  pub products : List ProductRow
  pub orders : List OrderRow
  pub order_products : List OrderProductRow
  pub users : List UserRow
  pub idempotency_keys : List IdempotencyKeyRow
  pub revoked_tokens : List RevokedTokenRow

-- the database that the migrations create
abbrev pub empty : Database
empty = record {
  products = [];
  orders = [];
  order_products = [];
  users = [];
  idempotency_keys = [];
  revoked_tokens = [];
}
