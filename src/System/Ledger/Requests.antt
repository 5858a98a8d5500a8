-- ===== src/System/Ledger/Requests.antt =====
-- Every request keeps the invariant.
use coffee_shop_api.Prelude.{
  ℕ, ◌≡◌, String, Bool, true, false, Bool-cases, inl, inr, Option, none, some,
}
use coffee_shop_api.Entities.{Uuid, OrderStatus, Order, User}
use coffee_shop_api.App.{World, App, Error, Result, ok, err}
use coffee_shop_api.App.Keeps.{Keeps, Keeps-raise, keeps}
use coffee_shop_api.Auth.{create_access_token}
use coffee_shop_api.Api.{Response, run, dispatch, refused}
use coffee_shop_api.Services.{notification_service}
use coffee_shop_api.Repositories.{CachedResponse}
use coffee_shop_api.Repositories.Orders.{order_repository}
use coffee_shop_api.Repositories.Orders.Reads.{get_by_id-Keeps}
use coffee_shop_api.Repositories.Idempotency.{idempotency_repository}
use coffee_shop_api.Repositories.Users.{user_repository}
use coffee_shop_api.UseCases.UpdateOrderStatus
use coffee_shop_api.UseCases.Users as UserCases
use coffee_shop_api.Routes.Orders
use coffee_shop_api.Routes.Users.{create_user, sign_up, answer_user, duplicate_error}
use coffee_shop_api.Routes.Auth.{sign_in, sign_out, credentials_error}
use coffee_shop_api.Routes.Menu
use coffee_shop_api.System.{Environment, Request, route, serve}
use coffee_shop_api.System.Reads.{
  get_current_user-Keeps, require_role-Keeps, menu-Keeps, user_by_email-Keeps,
  updated_response-Keeps, list_orders_route-Keeps, get_order-Keeps, get_user-Keeps,
}
use coffee_shop_api.System.Ledger.{Accounting, Grows, IsSound}
use coffee_shop_api.System.Ledger.Rows.{
  next_uuid-Keeps, hash_password-Keeps, notify-Keeps, update_status-Keeps, create_user-Keeps,
  revoke-Keeps, save_response-Keeps, cached_response-Keeps,
}
use coffee_shop_api.System.Ledger.Orders.{create_order_body-Keeps}

transition_error-Keeps :
    (P : World → Type 0) {A : Type 0} (e : Error) → Keeps P (Orders.transition_error {A = A} e)
transition_error-Keeps P (Error.invalid_status_transition current new) = search keeps
transition_error-Keeps P e = search keeps

duplicate_error-Keeps :
    (P : World → Type 0) {A : Type 0} (e : Error) → Keeps P (duplicate_error {A = A} e)
duplicate_error-Keeps P Error.duplicate_email = search keeps
duplicate_error-Keeps P e = search keeps

credentials_error-Keeps :
    (P : World → Type 0) {A : Type 0} (e : Error) → Keeps P (credentials_error {A = A} e)
credentials_error-Keeps P Error.invalid_credentials = search keeps
credentials_error-Keeps P e = search keeps

checked-Keeps :
    (P : World → Type 0) (b : Bool) (user : Option User) → Keeps P (UserCases.checked b user)
checked-Keeps P b none = search keeps
checked-Keeps P true (some user) = search keeps
checked-Keeps P false (some user) = search keeps

module _ (balance : Accounting) (grows : Grows balance) (env : Environment)
    (fresh : (i j : ℕ) → env.uuids.uuid4 i ≡ env.uuids.uuid4 j → i ≡ j) where
  abbrev Holds : World → Type 0
  Holds = IsSound balance env.api env.uuids

  module _ (k : Uuid) (status : OrderStatus) where
    update_existing-Keeps :
        (o : Option Order)
        → Keeps Holds (
            UpdateOrderStatus.update_existing
              (order_repository env.engine)
              (notification_service env.redis)
              k
              status
              o)
    unfolding UpdateOrderStatus.update_existing
    update_existing-Keeps none = search keeps
    update_existing-Keeps (some order) =
        elim (Bool-cases (UpdateOrderStatus.is_next order.status status)) [
          | inl next ↦ rw next (search (keeps, update_status-Keeps, notify-Keeps))
          | inr other ↦ rw other (Keeps-raise Holds _)
        ]

    execute-Keeps : Keeps Holds (
        UpdateOrderStatus.execute
          (order_repository env.engine)
          (notification_service env.redis)
          k
          status)
    unfolding UpdateOrderStatus.execute
    execute-Keeps = search (keeps, get_by_id-Keeps, update_existing-Keeps)

  create_account-Keeps :
      (email password : String)
      → Keeps Holds
          (UserCases.create_user env.uuids env.bcrypt (user_repository env.engine) email password)
  unfolding UserCases.create_user
  create_account-Keeps email password =
      search (keeps, next_uuid-Keeps, hash_password-Keeps, create_user-Keeps)

  sign_up-Keeps :
      (email password : String) (key : Option String)
      → Keeps Holds (
          sign_up env.uuids env.bcrypt
            (user_repository env.engine)
            (idempotency_repository env.engine)
            email
            password
            key)
  unfolding sign_up
  sign_up-Keeps email password key =
      search (keeps, create_account-Keeps, duplicate_error-Keeps, save_response-Keeps)

  answer_user-Keeps :
      (email password : String) (key : Option String) (cached : Option CachedResponse)
      → Keeps Holds (
          answer_user env.uuids env.bcrypt
            (user_repository env.engine)
            (idempotency_repository env.engine)
            email
            password
            key
            cached)
  unfolding answer_user
  answer_user-Keeps email password key none = sign_up-Keeps email password key
  answer_user-Keeps email password key (some c) = search keeps

  sign_in_user-Keeps :
      (email password : String)
      → Keeps Holds (
          UserCases.sign_in env.uuids env.bcrypt env.texts env.jose
            (user_repository env.engine)
            email
            password)
  unfolding UserCases.sign_in create_access_token
  sign_in_user-Keeps email password =
      search (keeps, user_by_email-Keeps, checked-Keeps, next_uuid-Keeps) depth 10

  route-Keeps :
      (header : Option String) (request : Request) → Keeps Holds (route env header request)
  unfolding route Menu.healthcheck Orders.create_order Orders.update_order_status create_user
      sign_in sign_out
  route-Keeps header Request.healthcheck = search keeps
  route-Keeps header (Request.get_menu page size) = menu-Keeps Holds env.engine page size
  route-Keeps header (Request.list_orders page size) =
      list_orders_route-Keeps Holds env.engine env.texts env.jose (env.bearer header) page size
  route-Keeps header (Request.create_order within body key) =
      search (keeps, get_current_user-Keeps, create_order_body-Keeps)
  route-Keeps header (Request.get_order k) =
      get_order-Keeps Holds env.engine env.texts env.jose (env.bearer header) k
  route-Keeps header (Request.update_order_status k body) = search (
    keeps, get_current_user-Keeps, require_role-Keeps, execute-Keeps, transition_error-Keeps,
    updated_response-Keeps,
  )
  route-Keeps header (Request.create_user body key) =
      search (keeps, cached_response-Keeps, answer_user-Keeps)
  route-Keeps header (Request.get_user k) =
      get_user-Keeps Holds env.engine env.texts env.jose (env.bearer header) k
  route-Keeps header (Request.sign_in body) =
      search (keeps, sign_in_user-Keeps, credentials_error-Keeps)
  route-Keeps header Request.sign_out = search (keeps, get_current_user-Keeps, revoke-Keeps)

  run_result : (o : Result Response × World) (w : World) → Holds o.1 → Holds (run (λ _. o) w).1
  unfolding run
  run_result (ok r, u) w s = s
  run_result (err e, u) w s = s

  run-kept :
      (handler : App Response) (w : World) → Keeps Holds handler → Holds w → Holds (run handler w).1
  unfolding run
  run-kept handler w k s = run_result (handler w) w (k.kept w s)

  dispatch-kept :
      (handler : App Response) (o : Option Response) (w : World)
      → Keeps Holds handler
      → Holds w
      → Holds (elim o as (λ _. Response × World) [ none ↦ run handler w | some r ↦ (r, w) ]).1
  dispatch-kept handler none w k s = run-kept handler w k s
  dispatch-kept handler (some r) w k s = s

  -- a request keeps the invariant
  pub serve-IsSound :
      (header : Option String) (request : Request) (w : World)
      → Holds w
      → Holds (serve env header request w).1
  unfolding serve dispatch
  serve-IsSound header request w s =
      dispatch-kept (route env header request) (refused env.jose w header) w
        (route-Keeps header request) s
