-- ===== src/Migrations/Schema.antt =====
-- The schema that the migrations end in, against src/infrastructure/database/models.
use coffee_shop_api.Prelude.{
  ◌≡◌, refl, sym, ap, ◌∙◌, inl, inr, Option-cases, Option, none, some, List, [], ◌∷◌, ◌++◌,
}
use coffee_shop_api.Migrations.{
  Tables, Operation, Migration, Alembic, documented, and_then, run_all,
}
use coffee_shop_api.Migrations.Versions.{versions, order_products_table}
use coffee_shop_api.Migrations.Models.{
  products_model, orders_model, users_model, idempotency_keys_model, revoked_tokens_model,
}

abbrev pub no_tables : Tables
no_tables name = none

abbrev pub upgrades : List Migration → List Operation
upgrades [] = []
upgrades (m ∷ migrations) = m.upgrade ++ upgrades migrations

unfoldable pub documented_all : List Operation → Tables → Option Tables
unfolding documented
documented_all [] tables = some tables
documented_all (o ∷ operations) tables =
    and_then (documented o tables) (λ after. documented_all operations after)

-- what is documented to come, if anything is
abbrev pub result : Option Tables → Tables
result none = no_tables
result (some tables) = tables

module _ (alembic : Alembic) where
  abbrev Runs : List Operation → alembic.Schema → Tables → Type 0
  Runs operations s after =
      (s' : alembic.Schema) × (run_all alembic operations s ≡ some s') × (alembic.tables s' ≡ after)

  pub run_all-documented :
      (operations : List Operation) (s : alembic.Schema) (after : Tables)
      → documented_all operations (alembic.tables s) ≡ some after
      → Runs operations s after
  unfolding documented_all run_all
  run_all-documented [] s after e = (s, refl, cc)
  run_all-documented (o ∷ operations) s after e =
      elim (Option-cases (documented o (alembic.tables s))) [
        | inl refused ↦ absurd (
            let f : documented_all (o ∷ operations) (alembic.tables s) ≡ none =
              ap (λ x. and_then x (λ t. documented_all operations t)) refused in
            cc)
        | inr (next, is_next) ↦
            let (u, ran, shown) = alembic.runs o s next is_next in
            let f : documented_all (o ∷ operations) (alembic.tables s)
                ≡ documented_all operations (alembic.tables u) =
              ap (λ x. and_then x (λ t. documented_all operations t)) is_next
              ∙ ap (documented_all operations) (sym shown) in
            let (v, rest, end) = run_all-documented operations u after (sym f ∙ e) in
            (v, ap (λ x. and_then x (λ t. run_all alembic operations t)) ran ∙ rest, end)
      ]

  -- Alembic upgrades a database without tables to the head, and the six tables are then what the
  -- models declare, but that orders.user_id, which is a foreign key in the model, is none.
  pub upgrade-models :
      (s : alembic.Schema)
      → alembic.tables s ≡ no_tables
      → (s' : alembic.Schema) × (run_all alembic (upgrades versions) s ≡ some s')
        × (alembic.tables s' "products" ≡ some products_model)
        × (alembic.tables s' "orders" ≡ some (record orders_model { foreign_keys = [] }))
        × (alembic.tables s' "order_products" ≡ some order_products_table)
        × (alembic.tables s' "users" ≡ some users_model)
        × (alembic.tables s' "idempotency_keys" ≡ some idempotency_keys_model)
        × (alembic.tables s' "revoked_tokens" ≡ some revoked_tokens_model)
  unfolding documented_all documented
  upgrade-models s new =
      let (s', ran, shown) =
        run_all-documented (upgrades versions) s
          (result (documented_all (upgrades versions) no_tables)) (rw new refl) in
      (
        s',
        ran,
        ap (λ t. t "products") shown,
        ap (λ t. t "orders") shown,
        ap (λ t. t "order_products") shown,
        ap (λ t. t "users") shown,
        ap (λ t. t "idempotency_keys") shown,
        ap (λ t. t "revoked_tokens") shown,
      )
