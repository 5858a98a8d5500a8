-- ===== src/Repositories/Products.antt =====
-- src/infrastructure/database/repositories/product_repository.py.
pub mod Names
use Prim.Native.Char.{code}
use coffee_shop_api.Prelude.{
  ℕ, String, Bool, true, false, List, [], ◌∷◌, map, ltb, str_eq, if◌then◌else◌, any, elem, take,
  drop, length,
}
use coffee_shop_api.Decimal.{quantize}
use coffee_shop_api.Entities.{Uuid, Product}
use coffee_shop_api.Database.{ProductRow}
use coffee_shop_api.Engine.{Engine, fetch_all}
use coffee_shop_api.App.{App, pure, gets, ◌>>=◌}
use coffee_shop_api.Repositories.{ProductRepository}

-- `_to_entity`
unfoldable pub to_entity : ProductRow → Product
to_entity row = record {
  id = row.id;
  name = row.name;
  base_price = quantize row.base_price;
  variation = row.variation;
  price_change = quantize row.price_change;
}

-- SQLite's order of texts: by their bytes in UTF-8, which is by their characters
unfoldable pub before : String → String → Bool
before String.[] String.[] = false
before String.[] (String.◌∷◌ d t) = true
before (String.◌∷◌ c s) String.[] = false
before (String.◌∷◌ c s) (String.◌∷◌ d t) =
    if ltb (code c) (code d) then true else if ltb (code d) (code c) then false else before s t

unfoldable pub insert_name : String → List String → List String
unfolding before
insert_name s [] = s ∷ []
insert_name s (t ∷ ts) =
    if str_eq s t then t ∷ ts else if before s t then s ∷ t ∷ ts else t ∷ insert_name s ts

-- `SELECT DISTINCT name … ORDER BY name`
unfoldable pub distinct_names : List ProductRow → List String
unfolding insert_name
distinct_names [] = []
distinct_names (r ∷ rows) = insert_name r.name (distinct_names rows)

-- `name IN (…)`, `id IN (…)`
abbrev pub is_named : List String → ProductRow → Bool
is_named names r = any (λ s. str_eq s r.name) names

abbrev pub is_listed : List Uuid → ProductRow → Bool
is_listed ids r = elem r.id ids

-- `if not names: return [], total`, and the SELECT otherwise
unfoldable pub listed_page : Engine → ℕ → List String → App (List Product × ℕ)
unfolding to_entity
listed_page engine total [] = pure ([], total)
listed_page engine total (name ∷ more) = do
  rows ← gets (λ w. fetch_all engine (is_named (name ∷ more)) w.db.products)
  pure (map to_entity rows, total)

-- A page is a page of distinct names: every product of those names is returned.
unfoldable pub list_all : Engine → ℕ → ℕ → App (List Product × ℕ)
unfolding distinct_names listed_page
list_all engine offset limit = do
  total ← gets (λ w. length (distinct_names w.db.products))
  names ← gets (λ w. take limit (drop offset (distinct_names w.db.products)))
  listed_page engine total names

unfoldable pub get_by_ids : Engine → List Uuid → App (List Product)
unfolding to_entity
get_by_ids engine product_ids =
    gets (λ w. map to_entity (fetch_all engine (is_listed product_ids) w.db.products))

-- `ProductRepository(database)`
abbrev pub product_repository : Engine → ProductRepository
product_repository engine = record { list_all = list_all engine; get_by_ids = get_by_ids engine }
