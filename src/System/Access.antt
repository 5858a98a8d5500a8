-- ===== src/System/Access.antt =====
-- Which requests need a user.
use coffee_shop_api.Prelude.{
  ℕ, ◌≡◌, ◌≢◌, refl, sym, ap, ◌∙◌, ◌⊎◌, inl, inr, String, Bool, true, false, Option, none, some,
  arith,
}
use coffee_shop_api.Entities.{Uuid, Role}
use coffee_shop_api.Schemas.{OrderStatusUpdate}
use coffee_shop_api.App.{
  World, App, Error, Detail, Result, ok, err, catch, ◌>>=◌, bind-err, bind-then-err,
}
use coffee_shop_api.Engine.{Engine}
use coffee_shop_api.Auth.{TokenData, UuidText, Jose, decode_access_token}
use coffee_shop_api.Api.{
  Response, run, run-err, error_response, dispatch, refused, check_header, get_current_user,
  check_token, require_role,
}
use coffee_shop_api.Repositories.RevokedTokens.{is_revoked, revoked_token_repository}
use coffee_shop_api.Services.{notification_service}
use coffee_shop_api.Repositories.Orders.{order_repository}
use coffee_shop_api.UseCases.UpdateOrderStatus
use coffee_shop_api.Routes.Orders
use coffee_shop_api.Routes.Users
use coffee_shop_api.Routes.Auth
use coffee_shop_api.Routes.Auth.SignOut.{guard, decode-err}
use coffee_shop_api.System.{Environment, Request, current_user, route, serve}
use coffee_shop_api.System.Reads.{get_current_user-Keeps}

-- the routes with `Depends(get_current_user)`
abbrev pub needs_user : Request → Bool
needs_user (Request.list_orders _ _) = true
needs_user (Request.create_order _ _ _) = true
needs_user (Request.get_order _) = true
needs_user (Request.update_order_status _ _) = true
needs_user (Request.get_user _) = true
needs_user Request.sign_out = true
needs_user _ = false

abbrev Unauthorized : Error → Type 0
Unauthorized e = (d : Detail) × (e ≡ Error.http 401 d)

module _ (engine : Engine) (texts : UuidText) (jose : Jose) where
  guard-err :
      (o : Result TokenData × World) (v u : World) (e : Error)
      → ((x : Error) → o.0 ≡ err x → x ≡ Error.invalid_credentials)
      → guard engine o v ≡ (err e, u)
      → Unauthorized e
  unfolding guard is_revoked
  guard-err (ok td, x) v u e known h = (Detail.text "Token has been revoked.", ground arith)
  guard-err (err x, y) v u e known h =
      let invalid = known x refl in (Detail.text "Invalid or expired token.", ground arith)

  user-err :
      (token : Option String) (w u : World) (e : Error)
      → get_current_user texts jose (revoked_token_repository engine) token w ≡ (err e, u)
      → Unauthorized e
  unfolding get_current_user check_token guard
  user-err none w u e h = (Detail.text "Authentication required.", cc)
  user-err (some token) w u e h =
      let o = decode_access_token texts jose token w in
      guard-err o w u e
        (λ x raised. (decode-err texts jose token w x o.1 (ap (λ r. (r, o.1)) raised)).1) h

refused-status :
    (jose : Jose) (w : World) (header : Option String) (r : Response)
    → refused jose w header ≡ some r
    → r.status_code ≡ 401
unfolding refused check_header
refused-status jose w none r h = absurd (cc)
refused-status jose w (some header) r h = ground arith

module _ (env : Environment) (header : Option String) where
  -- a refusal by the dependency is the end of the request
  route-refused :
      (request : Request) (w : World) (e : Error)
      → needs_user request ≡ true
      → current_user env header w ≡ (err e, w)
      → route env header request w ≡ (err e, w)
  unfolding route Orders.list_orders_route Orders.create_order Orders.get_order
      Orders.update_order_status Users.get_user Auth.sign_out
  route-refused (Request.list_orders page size) w e needs h = search bind-err
  route-refused (Request.create_order within body key) w e needs h = search bind-err
  route-refused (Request.get_order k) w e needs h = search bind-err
  route-refused (Request.update_order_status k body) w e needs h = search bind-err
  route-refused (Request.get_user k) w e needs h = search bind-err
  route-refused Request.sign_out w e needs h = search bind-err
  route-refused Request.healthcheck w e needs h = absurd (cc)
  route-refused (Request.get_menu page size) w e needs h = absurd (cc)
  route-refused (Request.create_user body key) w e needs h = absurd (cc)
  route-refused (Request.sign_in body) w e needs h = absurd (cc)

  -- the middleware either lets a handler answer or answers with a 401 itself
  pub dispatch-either :
      (handler : App Response) (o : Option Response) (w : World) (r : Response)
      → refused env.jose w header ≡ o
      → run handler w ≡ (r, w)
      → (r' : Response) × (dispatch env.jose header (run handler) w ≡ (r', w))
        × ((r' ≡ r) ⊎ (r'.status_code ≡ 401))
  unfolding dispatch
  dispatch-either handler none w r at ran = (
    r,
    ap
          (λ (x : Option Response). elim x as (λ _. Response × World) [
            | none ↦ run handler w
            | some q ↦ (q, w)
          ])
          at
        ∙ ran,
    inl refl,
  )
  dispatch-either handler (some r') w r at ran = (
    r',
    ap
        (λ (x : Option Response). elim x as (λ _. Response × World) [
          | none ↦ run handler w
          | some q ↦ (q, w)
        ])
        at,
    inr (refused-status env.jose w header r' at),
  )

  -- a response with a 401, or another one in its place
  pub serve-error :
      (request : Request) (w : World) (e : Error) (code : ℕ)
      → route env header request w ≡ (err e, w)
      → (error_response e).status_code ≡ code
      → (r : Response) × (serve env header request w ≡ (r, w))
        × ((r.status_code ≡ code) ⊎ (r.status_code ≡ 401))
  unfolding serve
  serve-error request w e code raised is_code =
      let handler = route env header request in
      let (r, served, which) =
        dispatch-either handler (refused env.jose w header) w (error_response e) refl
          (run-err handler e w w raised) in
      (
        r,
        served,
        elim which [
          | inl same ↦ inl (ap (λ (x : Response). x.status_code) same ∙ is_code)
          | inr other ↦ inr other
        ],
      )

  user_unchanged : (w : World) → (current_user env header w).1 ≡ w
  user_unchanged w =
      (get_current_user-Keeps (λ v. v ≡ w) env.engine env.texts env.jose (env.bearer header)).kept w
        refl

  refused_from :
      (request : Request) (w : World) (o : Result TokenData × World)
      → needs_user request ≡ true
      → ((td : TokenData) (u : World) → current_user env header w ≢ (ok td, u))
      → current_user env header w ≡ o
      → (r : Response) × (serve env header request w ≡ (r, w)) × (r.status_code ≡ 401)
  refused_from request w (ok td, u) needs nobody at = absurd (nobody td u at)
  refused_from request w (err e, u) needs nobody at =
      let same : u ≡ w = sym (ap (λ (p : Result TokenData × World). p.1) at) ∙ user_unchanged w in
      let (d, is_401) = user-err env.engine env.texts env.jose (env.bearer header) w u e at in
      let raised : current_user env header w ≡ (err e, w) = at ∙ ap (λ v. (err e, v)) same in
      let (r, served, which) =
        serve-error request w e 401 (route-refused request w e needs raised)
          (ap (λ x. (error_response x).status_code) is_401) in
      (r, served, elim which [ inl status ↦ status | inr status ↦ status ])

  -- A request to a route that needs a user, whose Authorization header names none (no token, a bad
  -- or an expired one, or one that was revoked), is answered with a 401, and nothing changes.
  pub serve-refused :
      (request : Request) (w : World)
      → needs_user request ≡ true
      → ((td : TokenData) (u : World) → current_user env header w ≢ (ok td, u))
      → (r : Response) × (serve env header request w ≡ (r, w)) × (r.status_code ≡ 401)
  serve-refused request w needs nobody =
      refused_from request w (current_user env header w) needs nobody refl

  update-forbidden :
      (k : Uuid) (body : OrderStatusUpdate) (td : TokenData) (w : World) (e : Error)
      → current_user env header w ≡ (ok td, w)
      → require_role Role.manager td w ≡ (err e, w)
      → route env header (Request.update_order_status k body) w ≡ (err e, w)
  unfolding route Orders.update_order_status
  update-forbidden k body td w e signed_in forbidden =
      let rest : App Response = (do
        order ←
            catch
              (UpdateOrderStatus.execute (order_repository env.engine)
                (notification_service env.redis) k body.status)
              Orders.transition_error
        Orders.updated_response order) in
      bind-then-err (current_user env header) (require_role Role.manager) (λ _ _. rest) w td e
        signed_in forbidden

  -- A customer who asks for a new status of an order, of their own or of another user, is answered
  -- with a 403, or with a 401 by the middleware, and nothing changes: no status, no notification.
  pub serve-forbidden :
      (k : Uuid) (body : OrderStatusUpdate) (td : TokenData) (w : World)
      → current_user env header w ≡ (ok td, w)
      → td.role ≡ Role.customer
      → (r : Response) × (serve env header (Request.update_order_status k body) w ≡ (r, w))
        × ((r.status_code ≡ 403) ⊎ (r.status_code ≡ 401))
  unfolding require_role
  serve-forbidden k body td w signed_in customer =
      let e = Error.http 403 (Detail.role_not_allowed td.role) in
      let refused : require_role Role.manager td w ≡ (err e, w) = rw customer refl in
      let raised : route env header (Request.update_order_status k body) w ≡ (err e, w) =
        update-forbidden k body td w e signed_in refused in
      serve-error (Request.update_order_status k body) w e 403 raised refl
