-- ===== src/Seed.antt =====
-- src/infrastructure/database/seed.py: the catalog that an empty shop starts with.
pub mod Once
use coffee_shop_api.Prelude.{
  ℕ, zero, suc, String, Bool, List, [], ◌∷◌, ◌++◌, any, length, ◌==◌, if◌then◌else◌,
}
use coffee_shop_api.Prelude.Int.{pos}
use coffee_shop_api.Decimal.{Decimal}
use coffee_shop_api.Decimal.Rounding.{cents}
use coffee_shop_api.Entities.{Uuid}
use coffee_shop_api.Database.{ProductRow}
use coffee_shop_api.App.{
  World, App, Error, pure, gets, modify, raise_if, Uuids, next_uuid, ◌>>=◌, ◌>>◌,
}

-- A dict of `CATALOG`; the columns are `Numeric(10, 2)`, so a price is kept in whole cents.
pub record CatalogItem : Type 0 where
  pub name : String
  pub base_price : Decimal
  pub variation : String
  pub price_change : Decimal

-- prices in cents
abbrev item : String → ℕ → String → ℕ → CatalogItem
item name base_price variation price_change = record {
  name = name;
  base_price = cents (pos base_price);
  variation = variation;
  price_change = cents (pos price_change);
}

abbrev pub catalog : List CatalogItem
catalog =
    item "Latte" 400 "Pumpkin Spice" 50
    ∷ item "Latte" 400 "Vanilla" 30
    ∷ item "Latte" 400 "Hazelnut" 40
    ∷ item "Espresso" 250 "Single Shot" 0
    ∷ item "Espresso" 250 "Double Shot" 100
    ∷ item "Macchiato" 400 "Caramel" 50
    ∷ item "Macchiato" 400 "Vanilla" 30
    ∷ item "Iced Coffee" 350 "Regular" 0
    ∷ item "Iced Coffee" 350 "Sweetened" 30
    ∷ item "Iced Coffee" 350 "Extra Ice" 20
    ∷ item "Donuts" 200 "Glazed" 0
    ∷ item "Donuts" 200 "Jelly" 30
    ∷ item "Donuts" 200 "Boston Cream" 50
    ∷ []

-- `{"id": str(uuid4()), **item}`
abbrev pub product_row : Uuid → CatalogItem → ProductRow
product_row id i = record {
  id = id;
  name = i.name;
  base_price = i.base_price;
  variation = i.variation;
  price_change = i.price_change;
}

-- the list comprehension over the catalog
unfoldable pub draw_rows : Uuids → List CatalogItem → App (List ProductRow)
unfolding next_uuid
draw_rows uuids [] = pure []
draw_rows uuids (i ∷ items) = do
  id ← next_uuid uuids
  rows ← draw_rows uuids items
  pure (product_row id i ∷ rows)

-- `execute_many`: one INSERT for each row; `id` is the primary key
unfoldable pub insert_rows : List ProductRow → App (Unit {0})
insert_rows [] = pure tt
insert_rows (row ∷ rows) = do
  products ← gets (λ w. w.db.products)
  raise_if (any (λ r. r.id == row.id) products) Error.integrity_error
  modify (λ w. record w { db = record w.db { products = w.db.products ++ row ∷ [] } })
  insert_rows rows

unfoldable pub insert_catalog : Uuids → App (Unit {0})
unfolding draw_rows insert_rows
insert_catalog uuids = do rows ← draw_rows uuids catalog; insert_rows rows

-- `if count: return`
unfoldable pub seed_counted : Uuids → ℕ → App (Unit {0})
unfolding insert_catalog
seed_counted uuids zero = insert_catalog uuids
seed_counted uuids (suc n) = pure tt

-- `seed_catalog`
unfoldable pub seed_catalog : Uuids → App (Unit {0})
unfolding seed_counted
seed_catalog uuids = do count ← gets (λ w. length w.db.products); seed_counted uuids count
