-- ===== src/Tests/Migrations.antt =====
-- The migrations on a schema that is no more than its tables.
use coffee_shop_api.Prelude.{◌≡◌, refl, some, [], All, drop, arith}
use coffee_shop_api.Migrations.{Tables, Alembic, documented, run_all}
use coffee_shop_api.Migrations.Versions.{versions, order_products_table}
use coffee_shop_api.Migrations.Models.{
  products_model, orders_model, users_model, idempotency_keys_model, revoked_tokens_model,
}
use coffee_shop_api.Migrations.Schema.{no_tables, upgrades, upgrade-models}
use coffee_shop_api.Migrations.Downgrades.{upgrades_to, and_back, table_names, downgrade-upgrade}

abbrev tables_only : Alembic
tables_only = record {
  Schema = Tables;
  tables = λ s. s;
  run = documented;
  runs = λ o s after e. (after, e, refl);
}

upgrade-models_example :
    (s' : Tables) × (run_all tables_only (upgrades versions) no_tables ≡ some s')
    × (s' "products" ≡ some products_model)
    × (s' "orders" ≡ some (record orders_model { foreign_keys = [] }))
    × (s' "order_products" ≡ some order_products_table)
    × (s' "users" ≡ some users_model)
    × (s' "idempotency_keys" ≡ some idempotency_keys_model)
    × (s' "revoked_tokens" ≡ some revoked_tokens_model)
upgrade-models_example = upgrade-models tables_only no_tables refl

downgrade-upgrade_example :
    (u v : Tables) × (run_all tables_only (upgrades_to 8) no_tables ≡ some u)
    × (run_all tables_only (and_back (drop 8 versions)) u ≡ some v)
    × All (λ name. v name ≡ u name) table_names
downgrade-upgrade_example = downgrade-upgrade tables_only no_tables refl 8 (omega arith)
