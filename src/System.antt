-- ===== src/System.antt =====
-- src/main.py: the application, its routes and its middleware; slowapi and the CORS middleware are
-- left out, but for the limiter's answer, which comes with a request. A request is served to its
-- end before the next one is.
pub mod Reads
pub mod Ledger
pub mod Runs
pub mod Access
pub mod Lists
pub mod Privacy
pub mod Tokens
pub mod Notices
pub mod Overlaps
use coffee_shop_api.Prelude.{ℕ, String, Bool, Option}
use coffee_shop_api.Entities.{Uuid, OrderStatus}
use coffee_shop_api.Schemas.{OrderCreate, OrderStatusUpdate, UserCreate, SignInRequest}
use coffee_shop_api.App.{World, App, Uuids}
use coffee_shop_api.Engine.{Engine}
use coffee_shop_api.Auth.{UuidText, Jose, Bcrypt, TokenData}
use coffee_shop_api.Api.{Response, run, dispatch}
use coffee_shop_api.Api
use coffee_shop_api.Payment.{PaymentApi, Tenacity}
use coffee_shop_api.Services.{Redis, payment_service, notification_service}
use coffee_shop_api.Repositories.{
  PaymentService, NotificationService, ProductRepository, OrderRepository, UserRepository,
  IdempotencyRepository, RevokedTokenRepository,
}
use coffee_shop_api.Repositories.Orders.{order_repository}
use coffee_shop_api.Repositories.Products.{product_repository}
use coffee_shop_api.Repositories.Users.{user_repository}
use coffee_shop_api.Repositories.Idempotency.{idempotency_repository}
use coffee_shop_api.Repositories.RevokedTokens.{revoked_token_repository}
use coffee_shop_api.Routes.Orders
use coffee_shop_api.Routes.Users.{EmailText}
use coffee_shop_api.Routes.Users
use coffee_shop_api.Routes.Auth
use coffee_shop_api.Routes.Menu

-- All that the service calls and does not hold; `bearer` is HTTPBearer, which takes the token out
-- of the Authorization header.
pub record Environment : Type 1 where
  pub engine : Engine
  pub uuids : Uuids
  pub api : PaymentApi
  pub tenacity : Tenacity
  pub redis : Redis
  pub texts : UuidText
  pub jose : Jose
  pub bcrypt : Bcrypt
  pub emails : EmailText
  pub bearer : Option String → Option String

-- A request to one of the routers' paths, with the parameters that it declares.
pub data Request : Type 0 where
  healthcheck : Request
  get_menu : ℕ → ℕ → Request
  list_orders : ℕ → ℕ → Request
  -- whether the limiter lets it through, the body, and the Idempotency-Key
  create_order : Bool → OrderCreate → Option String → Request
  get_order : Uuid → Request
  update_order_status : Uuid → OrderStatusUpdate → Request
  create_user : UserCreate → Option String → Request
  get_user : Uuid → Request
  sign_in : SignInRequest → Request
  sign_out : Request

module _ (env : Environment) where
  abbrev get_payment_service : PaymentService
  get_payment_service = payment_service env.api env.tenacity

  abbrev get_notification_service : NotificationService
  get_notification_service = notification_service env.redis

  abbrev get_product_repository : ProductRepository
  get_product_repository = product_repository env.engine

  abbrev get_order_repository : OrderRepository
  get_order_repository = order_repository env.engine

  abbrev get_user_repository : UserRepository
  get_user_repository = user_repository env.engine

  abbrev get_idempotency_repository : IdempotencyRepository
  get_idempotency_repository = idempotency_repository env.engine

  abbrev get_revoked_token_repository : RevokedTokenRepository
  get_revoked_token_repository = revoked_token_repository env.engine

  -- `Depends(get_current_user)`
  abbrev pub current_user : Option String → App TokenData
  current_user header =
      Api.get_current_user env.texts env.jose get_revoked_token_repository (env.bearer header)

  -- the routers, each handler with what its dependencies give it
  unfoldable pub route : Option String → Request → App Response
  route header Request.healthcheck = Menu.healthcheck
  route header (Request.get_menu page page_size) =
      Menu.get_menu get_product_repository page page_size
  route header (Request.list_orders page page_size) =
      Orders.list_orders_route (current_user header) get_order_repository page page_size
  route header (Request.create_order within_limit body key) =
      Orders.create_order env.uuids get_order_repository get_product_repository get_payment_service
        get_idempotency_repository (current_user header) within_limit body key
  route header (Request.get_order order_id) =
      Orders.get_order (current_user header) get_order_repository order_id
  route header (Request.update_order_status order_id body) =
      Orders.update_order_status (current_user header) get_order_repository get_notification_service
        order_id body
  route header (Request.create_user body key) =
      Users.create_user env.uuids env.bcrypt get_user_repository get_idempotency_repository
        env.emails body key
  route header (Request.get_user user_id) =
      Users.get_user (current_user header) get_user_repository user_id
  route header (Request.sign_in body) =
      Auth.sign_in env.uuids env.bcrypt env.texts env.jose env.emails get_user_repository body
  route header Request.sign_out = Auth.sign_out (current_user header) get_revoked_token_repository

  -- `app`, from the Authorization header and the request to the response
  unfoldable pub serve : Option String → Request → World → Response × World
  unfolding route
  serve header request = dispatch env.jose header (run (route header request))
