-- ===== src/Routes/Orders/Replays.antt =====
-- POST /orders/ with an Idempotency-Key.
use Prim.Native.String.{count}
use coffee_shop_api.Prelude.{ℕ, ◌+◌, ◌≤◌, ◌≡◌, sym, ◌∙◌, String, false, Option, none, some, any}
use coffee_shop_api.Schemas.{OrderCreate, order_response, dump_order}
use coffee_shop_api.Engine.{Engine}
use coffee_shop_api.App.{World, App, ok, Uuids, advance, ◌>>=◌, catch, bind-ok}
use coffee_shop_api.Auth.{TokenData}
use coffee_shop_api.Api.{Content, Response, respond, cached_response, save_response}
use coffee_shop_api.Repositories.{
  OrderRepository, ProductRepository, CachedResponse, PaymentService,
}
use coffee_shop_api.Repositories.Idempotency.{idempotency_ttl, has_key, get, idempotency_repository}
use coffee_shop_api.Repositories.Idempotency.Expiry.{saved, get-absent}
use coffee_shop_api.Routes.Keys.{answer_with, cached_response-get, answered, found_after}
use coffee_shop_api.Routes.Orders.{create_error, answer_order, place_order, create_order_body}
use coffee_shop_api.UseCases.CreateOrder

module _ (engine : Engine) (uuids : Uuids) (orders : OrderRepository) (products : ProductRepository)
    (payments : PaymentService) where
  abbrev pub post : TokenData → OrderCreate → Option String → App Response
  post = create_order_body uuids orders products payments (idempotency_repository engine)

  -- A response that is found is returned, whoever asks and for whatever basket.
  pub post_hit :
      (user : TokenData) (body : OrderCreate) (key : String) (c : CachedResponse) (w : World)
      → count key ≤ 128
      → get engine key w ≡ (ok (some c), w)
      → post user body (some key) w ≡ (ok (respond c.status_code (Content.json c.body)), w)
  unfolding create_order_body answer_order
  post_hit user body key c w short hit =
      bind-ok (cached_response (idempotency_repository engine) (some key))
        (answer_order uuids orders products payments (idempotency_repository engine) user body
          (some key))
        w (some c) w (cached_response-get engine key w short ∙ hit)

  pub post_miss :
      (user : TokenData) (body : OrderCreate) (key : String) (w : World)
      → count key ≤ 128
      → get engine key w ≡ (ok none, w)
      → post user body (some key) w
        ≡ place_order uuids orders products payments
            (idempotency_repository engine)
            user
            body
            (some key)
            w
  unfolding create_order_body answer_order
  post_miss user body key w short miss =
      bind-ok (cached_response (idempotency_repository engine) (some key))
        (answer_order uuids orders products payments (idempotency_repository engine) user body
          (some key))
        w none w (cached_response-get engine key w short ∙ miss)

  pub post_placed :
      (user : TokenData) (body : OrderCreate) (key : String) (w : World)
      → count key ≤ 128
      → get engine key w ≡ (ok none, w)
      → post user body (some key) w
        ≡ ((catch
                (CreateOrder.execute uuids orders products payments body.product_ids user.user_id)
                create_error)
              >>= answer_with (λ order. dump_order (order_response order)) engine key)
            w
  unfolding place_order save_response
  post_placed user body key w short miss = post_miss user body key w short miss

  -- Let a POST /orders/ with a new Idempotency-Key of at most 128 characters return a response.
  -- Any POST with the same key in the next 24 hours, less a second, whoever sends it and for
  -- whatever basket, returns the same response and changes nothing: no payment, no order. This
  -- holds whatever the repositories of orders and products and the payment service do.
  pub replay :
      (user user' : TokenData) (body body' : OrderCreate) (key : String) (later : ℕ) (w w' : World)
      (r : Response)
      → count key ≤ 128
      → any (has_key key) w.db.idempotency_keys ≡ false
      → later + 1000000 ≤ idempotency_ttl
      → post user body (some key) w ≡ (ok r, w')
      → post user' body' (some key) (advance later w') ≡ (ok r, advance later w')
  replay user user' body body' key later w w' r short new soon first =
      let m =
        catch (CreateOrder.execute uuids orders products payments body.product_ids user.user_id)
          create_error in
      let (u, b, fresh, same_r, same_w) =
        answered engine (λ order. dump_order (order_response order)) key (m w) w w' r
          (sym (post_placed user body key w short (get-absent engine key w new)) ∙ first) in
      rw (same_r, same_w)
        (post_hit user' body' key (record { status_code = 201; body = b })
          (advance later (saved engine key 201 b u)) short
          (found_after engine key b later u soon fresh))
