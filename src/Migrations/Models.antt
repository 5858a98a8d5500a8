-- ===== src/Migrations/Models.antt =====
-- src/infrastructure/database/models: the tables as the models declare them.
use coffee_shop_api.Prelude.{true, [], ◌∷◌}
use coffee_shop_api.Migrations.{ColumnType, Table, column}
use coffee_shop_api.Migrations.Versions.{references, created_at}

abbrev pub products_model : Table
products_model = record {
  columns =
      column "id" ColumnType.string
      ∷ column "name" ColumnType.string
      ∷ column "base_price" ColumnType.numeric
      ∷ column "variation" ColumnType.string
      ∷ column "price_change" ColumnType.numeric
      ∷ [];
  primary_key = "id" ∷ [];
  unique = [];
  foreign_keys = [];
}

abbrev pub orders_model : Table
orders_model = record {
  columns =
      column "id" ColumnType.string
      ∷ column "status" ColumnType.string
      ∷ column "total_price" ColumnType.numeric
      ∷ created_at
      ∷ record (column "user_id" ColumnType.string) { nullable = true }
      ∷ [];
  primary_key = "id" ∷ [];
  unique = [];
  foreign_keys = references "user_id" "users" ∷ [];
}

abbrev pub users_model : Table
users_model = record {
  columns =
      column "id" ColumnType.string
      ∷ column "email" ColumnType.string
      ∷ column "role" ColumnType.string
      ∷ column "password_hash" ColumnType.string
      ∷ [];
  primary_key = "id" ∷ [];
  unique = "email" ∷ [];
  foreign_keys = [];
}

abbrev pub idempotency_keys_model : Table
idempotency_keys_model = record {
  columns =
      column "key" ColumnType.string
      ∷ column "status_code" ColumnType.integer
      ∷ column "response_body" ColumnType.long_text
      ∷ created_at
      ∷ [];
  primary_key = "key" ∷ [];
  unique = [];
  foreign_keys = [];
}

abbrev pub revoked_tokens_model : Table
revoked_tokens_model = record {
  columns = column "jti" ColumnType.string ∷ column "expires_at" ColumnType.date_time ∷ [];
  primary_key = "jti" ∷ [];
  unique = [];
  foreign_keys = [];
}
