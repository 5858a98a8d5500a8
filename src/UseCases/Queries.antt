-- ===== src/UseCases/Queries.antt =====
-- src/use_cases/order/get_order_detail.py, list_orders.py, and src/use_cases/product/get_menu.py.
pub mod Ownership
pub mod Menu
pub mod Pages
use coffee_shop_api.Prelude.{
  ℕ, Bool, ◌&&◌, Option, none, some, List, [], ◌∷◌, ◌++◌, str_eq, if◌then◌else◌,
}
use coffee_shop_api.Decimal.{add, quantize, eq_decimal}
use coffee_shop_api.Entities.{Uuid, Role, Order, OrderDetail, Product, MenuItem, MenuVariation}
use coffee_shop_api.App.{App, pure, ◌>>=◌}
use coffee_shop_api.Repositories.{OrderRepository, ProductRepository}

-- `GetOrderDetail(repository).execute`
unfoldable pub get_order_detail : OrderRepository → Uuid → Option Uuid → App (Option OrderDetail)
get_order_detail repository order_id none = repository.get_detail_by_id order_id
get_order_detail repository order_id (some user_id) =
    repository.get_detail_by_id_for_user order_id user_id

-- `ListOrders(repository).execute`
unfoldable pub list_orders : OrderRepository → Uuid → Role → ℕ → ℕ → App (List Order × ℕ)
list_orders repository user_id Role.manager offset limit = repository.list_all offset limit
list_orders repository user_id Role.customer offset limit =
    repository.list_for_user user_id offset limit

abbrev pub menu_variation : Product → MenuVariation
menu_variation p = record {
  id = p.id;
  variation = p.variation;
  unit_price = quantize (add p.base_price p.price_change);
}

-- the item's key is the product's: (name, base_price)
abbrev pub same_key : Product → MenuItem → Bool
same_key p item = str_eq item.name p.name && eq_decimal item.base_price p.base_price

-- `grouped[key].append(…)` in a dict that keeps the order of insertion
unfoldable pub append_variation : Product → List MenuItem → List MenuItem
append_variation p [] =
    record { name = p.name; base_price = p.base_price; variations = menu_variation p ∷ [] } ∷ []
append_variation p (item ∷ items) =
    if same_key p item
    then record item { variations = item.variations ++ menu_variation p ∷ [] } ∷ items
    else item ∷ append_variation p items

-- the loop over the products
unfoldable pub group_products : List MenuItem → List Product → List MenuItem
unfolding append_variation
group_products items [] = items
group_products items (p ∷ products) = group_products (append_variation p items) products

-- `GetMenu(repository).execute`
unfoldable pub get_menu : ProductRepository → ℕ → ℕ → App (List MenuItem × ℕ)
unfolding group_products
get_menu repository offset limit = do
  (products, total) ← repository.list_all offset limit
  pure (group_products [] products, total)
