-- ===== src/Migrations/Versions.antt =====
-- src/alembic/versions: the nine files, in the order of their `down_revision`.
use coffee_shop_api.Prelude.{String, true, none, some, List, [], ◌∷◌}
use coffee_shop_api.Migrations.{Column, ColumnType, ForeignKey, Table, Operation, Migration, column}

abbrev pub references : String → String → ForeignKey
references c t = record { column = c; table = t; key = "id" }

abbrev pub products_with_floats : Table
products_with_floats = record {
  columns =
      column "id" ColumnType.string
      ∷ column "name" ColumnType.string
      ∷ column "base_price" ColumnType.float
      ∷ column "variation" ColumnType.string
      ∷ column "price_change" ColumnType.float
      ∷ [];
  primary_key = "id" ∷ [];
  unique = [];
  foreign_keys = [];
}

-- the first table of users, and the one that the downgrade of its removal makes
abbrev pub first_users : Table
first_users = record {
  columns = column "id" ColumnType.string ∷ column "role" ColumnType.string ∷ [];
  primary_key = "id" ∷ [];
  unique = [];
  foreign_keys = [];
}

-- `_orders_with_user_id`
abbrev pub orders_with_user_id : Table
orders_with_user_id = record {
  columns =
      column "id" ColumnType.string
      ∷ column "status" ColumnType.string
      ∷ column "total_price" ColumnType.float
      ∷ column "user_id" ColumnType.string
      ∷ [];
  primary_key = "id" ∷ [];
  unique = [];
  foreign_keys = [];
}

abbrev pub first_orders : Table
first_orders = record orders_with_user_id { foreign_keys = references "user_id" "users" ∷ [] }

abbrev pub order_products_table : Table
order_products_table = record {
  columns = column "order_id" ColumnType.string ∷ column "product_id" ColumnType.string ∷ [];
  primary_key = [];
  unique = [];
  foreign_keys = references "order_id" "orders" ∷ references "product_id" "products" ∷ [];
}

abbrev pub initial : Migration
initial = record {
  revision = "52b4cd9af355";
  down_revision = none;
  upgrade =
      Operation.create_table "products" products_with_floats
      ∷ Operation.create_table "users" first_users
      ∷ Operation.create_table "orders" first_orders
      ∷ Operation.create_table "order_products" order_products_table
      ∷ [];
  downgrade =
      Operation.drop_table "order_products"
      ∷ Operation.drop_table "orders"
      ∷ Operation.drop_table "users"
      ∷ Operation.drop_table "products"
      ∷ [];
}

abbrev pub remove_users_table : Migration
remove_users_table = record {
  revision = "66a4beac4f38";
  down_revision = some "52b4cd9af355";
  upgrade =
      Operation.drop_column_of_copy "orders" orders_with_user_id "user_id"
      ∷ Operation.drop_table_if_exists "users"
      ∷ [];
  downgrade =
      Operation.create_table "users" first_users
      ∷ Operation.add_column "orders" (column "user_id" ColumnType.string)
      ∷ Operation.create_foreign_key "orders" (references "user_id" "users")
      ∷ [];
}

abbrev pub created_at : Column
created_at = record (column "created_at" ColumnType.date_time) { has_default = true }

abbrev pub add_created_at_to_orders : Migration
add_created_at_to_orders = record {
  revision = "a1b2c3d4e5f6";
  down_revision = some "66a4beac4f38";
  upgrade = Operation.add_column "orders" created_at ∷ [];
  downgrade = Operation.drop_column "orders" "created_at" ∷ [];
}

abbrev pub add_users_table : Migration
add_users_table = record {
  revision = "b309f8d40e61";
  down_revision = some "a1b2c3d4e5f6";
  upgrade =
      Operation.create_table "users" (record {
        columns =
            column "id" ColumnType.string
            ∷ column "email" ColumnType.string
            ∷ column "role" ColumnType.string
            ∷ [];
        primary_key = "id" ∷ [];
        unique = "email" ∷ [];
        foreign_keys = [];
      })
      ∷ [];
  downgrade = Operation.drop_table "users" ∷ [];
}

abbrev pub add_idempotency_keys_table : Migration
add_idempotency_keys_table = record {
  revision = "b05e4161aaaa";
  down_revision = some "b309f8d40e61";
  upgrade =
      Operation.create_table "idempotency_keys" (record {
        columns =
            column "key" ColumnType.string
            ∷ column "status_code" ColumnType.integer
            ∷ column "response_body" ColumnType.long_text
            ∷ created_at
            ∷ [];
        primary_key = "key" ∷ [];
        unique = [];
        foreign_keys = [];
      })
      ∷ [];
  downgrade = Operation.drop_table "idempotency_keys" ∷ [];
}

abbrev pub add_password_hash_to_users : Migration
add_password_hash_to_users = record {
  revision = "5be22fd743cf";
  down_revision = some "b05e4161aaaa";
  upgrade = Operation.add_column "users" (column "password_hash" ColumnType.string) ∷ [];
  downgrade = Operation.drop_column "users" "password_hash" ∷ [];
}

abbrev pub add_user_id_to_orders : Migration
add_user_id_to_orders = record {
  revision = "c1d2e3f4a5b6";
  down_revision = some "5be22fd743cf";
  upgrade =
      Operation.add_column "orders"
        (record (column "user_id" ColumnType.string) { nullable = true })
      ∷ [];
  downgrade = Operation.drop_column "orders" "user_id" ∷ [];
}

abbrev pub create_revoked_tokens_table : Migration
create_revoked_tokens_table = record {
  revision = "d4e5f6a7b8c9";
  down_revision = some "c1d2e3f4a5b6";
  upgrade =
      Operation.create_table "revoked_tokens" (record {
        columns = column "jti" ColumnType.string ∷ column "expires_at" ColumnType.date_time ∷ [];
        primary_key = "jti" ∷ [];
        unique = [];
        foreign_keys = [];
      })
      ∷ [];
  downgrade = Operation.drop_table "revoked_tokens" ∷ [];
}

abbrev pub float_to_numeric : Migration
float_to_numeric = record {
  revision = "e1f2a3b4c5d6";
  down_revision = some "d4e5f6a7b8c9";
  upgrade =
      Operation.alter_type "products" "base_price" ColumnType.numeric
      ∷ Operation.alter_type "products" "price_change" ColumnType.numeric
      ∷ Operation.alter_type "orders" "total_price" ColumnType.numeric
      ∷ [];
  downgrade =
      Operation.alter_type "orders" "total_price" ColumnType.float
      ∷ Operation.alter_type "products" "price_change" ColumnType.float
      ∷ Operation.alter_type "products" "base_price" ColumnType.float
      ∷ [];
}

-- what `alembic upgrade head` goes through
abbrev pub versions : List Migration
versions =
    initial ∷ remove_users_table ∷ add_created_at_to_orders ∷ add_users_table
    ∷ add_idempotency_keys_table ∷ add_password_hash_to_users ∷ add_user_id_to_orders
    ∷ create_revoked_tokens_table ∷ float_to_numeric ∷ []
