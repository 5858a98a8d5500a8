-- ===== src/System/Reads.antt =====
-- The dependencies of the routes and the handlers that only read: they keep whatever holds.
use coffee_shop_api.Prelude.{ℕ, String, Option, none, some, List, [], ◌∷◌}
use coffee_shop_api.Entities.{Uuid, Role, Order, OrderDetail, User}
use coffee_shop_api.App.{World, App, Error}
use coffee_shop_api.App.Keeps.{Keeps, keeps}
use coffee_shop_api.Auth.{TokenData, UuidText, Jose, decode_access_token}
use coffee_shop_api.Api.{get_current_user, check_token, as_unauthorized, require_role}
use coffee_shop_api.Database.{UserRow}
use coffee_shop_api.Engine.{Engine}
use coffee_shop_api.Repositories.Orders.{order_repository}
use coffee_shop_api.Repositories.Orders.Reads.{
  get_detail_by_id-Keeps, get_detail_by_id_for_user-Keeps, list_all-Keeps, list_for_user-Keeps,
}
use coffee_shop_api.Repositories.Products.{product_repository, list_all, listed_page}
use coffee_shop_api.Repositories.RevokedTokens.{revoked_token_repository, is_revoked}
use coffee_shop_api.Repositories.Users.{user_repository}
use coffee_shop_api.Repositories.Users as Accounts
use coffee_shop_api.UseCases.Queries
use coffee_shop_api.Routes.Orders
use coffee_shop_api.Routes.Users.{get_user, found_response}
use coffee_shop_api.Routes.Menu

-- the dependencies, and the handlers that only read
module _ (P : World → Type 0) (engine : Engine) where
  module _ (texts : UuidText) (jose : Jose) where
    decode-Keeps : (token : String) → Keeps P (decode_access_token texts jose token)
    unfolding decode_access_token
    decode-Keeps token = search keeps depth 20

    unauthorized-Keeps : {A : Type 0} (e : Error) → Keeps P (as_unauthorized {A = A} e)
    unauthorized-Keeps Error.invalid_credentials = search keeps
    unauthorized-Keeps e = search keeps

    check_token-Keeps :
        (token : String) → Keeps P (check_token texts jose (revoked_token_repository engine) token)
    unfolding check_token is_revoked
    check_token-Keeps token = search (keeps, decode-Keeps, unauthorized-Keeps)

    pub get_current_user-Keeps :
        (token : Option String)
        → Keeps P (get_current_user texts jose (revoked_token_repository engine) token)
    unfolding get_current_user
    get_current_user-Keeps none = search keeps
    get_current_user-Keeps (some token) = check_token-Keeps token

  pub require_role-Keeps : (r : Role) (user : TokenData) → Keeps P (require_role r user)
  unfolding require_role
  require_role-Keeps r user = search keeps

  listed_page-Keeps : (total : ℕ) (names : List String) → Keeps P (listed_page engine total names)
  unfolding listed_page
  listed_page-Keeps total [] = search keeps
  listed_page-Keeps total (name ∷ more) = search keeps

  pub menu-Keeps : (page size : ℕ) → Keeps P (Menu.get_menu (product_repository engine) page size)
  unfolding Menu.get_menu Queries.get_menu list_all
  menu-Keeps page size = search (keeps, listed_page-Keeps) depth 12

  found_user-Keeps : (o : Option UserRow) → Keeps P (Accounts.found o)
  unfolding Accounts.found Accounts.to_entity
  found_user-Keeps none = search keeps
  found_user-Keeps (some row) = search keeps

  pub user_by_id-Keeps : (k : Uuid) → Keeps P (Accounts.get_by_id engine k)
  unfolding Accounts.get_by_id
  user_by_id-Keeps k = search (keeps, found_user-Keeps)

  pub user_by_email-Keeps : (email : String) → Keeps P (Accounts.get_by_email engine email)
  unfolding Accounts.get_by_email
  user_by_email-Keeps email = search (keeps, found_user-Keeps)

  pub list_orders-Keeps :
      (k : Uuid) (r : Role) (offset limit : ℕ)
      → Keeps P (Queries.list_orders (order_repository engine) k r offset limit)
  unfolding Queries.list_orders
  list_orders-Keeps k Role.manager offset limit = list_all-Keeps P engine offset limit
  list_orders-Keeps k Role.customer offset limit = list_for_user-Keeps P engine k offset limit

  order_detail-Keeps :
      (k : Uuid) (owner : Option Uuid)
      → Keeps P (Queries.get_order_detail (order_repository engine) k owner)
  unfolding Queries.get_order_detail
  order_detail-Keeps k none = get_detail_by_id-Keeps P engine k
  order_detail-Keeps k (some u) = get_detail_by_id_for_user-Keeps P engine k u

  detail_response-Keeps : (o : Option OrderDetail) → Keeps P (Orders.detail_response o)
  unfolding Orders.detail_response
  detail_response-Keeps none = search keeps
  detail_response-Keeps (some order) = search keeps

  found_response-Keeps : (o : Option User) → Keeps P (found_response o)
  unfolding found_response
  found_response-Keeps none = search keeps
  found_response-Keeps (some user) = search keeps

  pub updated_response-Keeps : (o : Option Order) → Keeps P (Orders.updated_response o)
  unfolding Orders.updated_response
  updated_response-Keeps none = search keeps
  updated_response-Keeps (some order) = search keeps

  -- the handlers that only read, with the dependency that signs the user in
  module _ (texts : UuidText) (jose : Jose) (token : Option String) where
    abbrev user : App TokenData
    user = get_current_user texts jose (revoked_token_repository engine) token

    pub list_orders_route-Keeps :
        (page size : ℕ)
        → Keeps P (Orders.list_orders_route user (order_repository engine) page size)
    unfolding Orders.list_orders_route
    list_orders_route-Keeps page size = search (keeps, get_current_user-Keeps, list_orders-Keeps)

    pub get_order-Keeps : (k : Uuid) → Keeps P (Orders.get_order user (order_repository engine) k)
    unfolding Orders.get_order
    get_order-Keeps k =
        search (keeps, get_current_user-Keeps, order_detail-Keeps, detail_response-Keeps)

    pub get_user-Keeps : (k : Uuid) → Keeps P (get_user user (user_repository engine) k)
    unfolding get_user
    get_user-Keeps k =
        search (keeps, get_current_user-Keeps, user_by_id-Keeps, found_response-Keeps)
