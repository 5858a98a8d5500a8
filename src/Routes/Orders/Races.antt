-- ===== src/Routes/Orders/Races.antt =====
-- Two POST /orders/ with one Idempotency-Key at the same time. A handler gives way at each await: here
-- both look the key up before either of them goes on.
use Prim.Native.String.{count}
use text.Mathlib.TextPositions.{eq_refl}
use coffee_shop_api.Prelude.{
  ℕ, ◌≤◌, ◌≡◌, ◌∙◌, String, true, false, none, some, [], ◌∷◌, ◌++◌, any, any-append, length, arith,
}
use coffee_shop_api.Decimal.Rounding.{cents}
use coffee_shop_api.Schemas.{Body, OrderCreate, order_response, dump_order}
use coffee_shop_api.Engine.{Engine}
use coffee_shop_api.App.{World, App, ok, Uuids, advance, catch}
use coffee_shop_api.Auth.{TokenData}
use coffee_shop_api.Api.{Response, run, save_response, cached_response}
use coffee_shop_api.Payment.{PaymentApi, Tenacity, max_retries}
use coffee_shop_api.Payment.Charges.{confirmed_from, replicate}
use coffee_shop_api.Repositories.Idempotency.{has_key, key_row, idempotency_repository}
use coffee_shop_api.Repositories.Idempotency.Expiry.{saved, get-absent}
use coffee_shop_api.Repositories.Orders.{has_id, order_repository}
use coffee_shop_api.Repositories.Products.{product_repository}
use coffee_shop_api.Routes.Orders.{place_order, create_error}
use coffee_shop_api.Routes.Keys.{answered, cached_response-get}
use coffee_shop_api.Routes.Orders.ExpiredKeys.{Ends, place_order-taken}
use coffee_shop_api.Services.{payment_service}
use coffee_shop_api.UseCases.CreateOrder
use coffee_shop_api.UseCases.CreateOrder.Selection.{UniqueIds, is_orderable}
use coffee_shop_api.UseCases.CreateOrder.Total.{order_cents}
use coffee_shop_api.UseCases.CreateOrder.Outcome.{new_order}

module _ (engine : Engine) (uuids : Uuids) (api : PaymentApi) (tenacity : Tenacity) where
  -- a request after its lookup of the key
  abbrev pub rest_of : TokenData → OrderCreate → String → App Response
  rest_of user body key =
      place_order uuids (order_repository engine) (product_repository engine)
        (payment_service api tenacity) (idempotency_repository engine) user body (some key)

  any-saved :
      (key : String) (b : Body) (u : World)
      → any (has_key key) (saved engine key 201 b u).db.idempotency_keys ≡ true
  any-saved key b u =
      let last = any-append (has_key key) u.db.idempotency_keys (key_row engine u key 201 b ∷ []) in
      let same = eq_refl key in ground (arith, last, same)

  rest_of-taken :
      (user : TokenData) (body : OrderCreate) (key : String) (w w' : World) (r : Response)
      → rest_of user body key w ≡ (ok r, w')
      → any (has_key key) w'.db.idempotency_keys ≡ true
  unfolding place_order save_response
  rest_of-taken user body key w w' r done =
      let m =
        catch
          (CreateOrder.execute uuids (order_repository engine) (product_repository engine)
            (payment_service api tenacity) body.product_ids user.user_id)
          create_error in
      let (u, b, fresh, same_r, same_w) =
        answered engine (λ order. dump_order (order_response order)) key (m w) w w' r done in
      rw same_w (any-saved key b u)

  -- Two POST /orders/ with one new key, of at most 128 characters, are sent at the same time, and
  -- both look the key up before either goes on: both lookups find nothing. Then the first one goes
  -- on, returns its response and saves it, and the second one goes on later, with a basket that can
  -- be ordered, from products with distinct ids and with a new UUID drawn next. It does not get the
  -- first one's response: it sends its own payment, at most three times, and either that is confirmed
  -- too, a second order is stored and the client gets a 500, or it is not, the client gets a 502 and
  -- nothing is stored.
  pub race :
      (user user' : TokenData) (body body' : OrderCreate) (key : String) (later : ℕ) (w w' : World)
      (r : Response)
      → count key ≤ 128
      → any (has_key key) w.db.idempotency_keys ≡ false
      → rest_of user body key w ≡ (ok r, w')
      → UniqueIds w'.db.products
      → is_orderable w'.db.products body'.product_ids ≡ true
      → any (has_id (uuids.uuid4 w'.uuids)) w'.db.orders ≡ false
      → let v = advance later w' in
        let total = cents (order_cents w'.db.products body'.product_ids) in
        (cached_response (idempotency_repository engine) (some key) w ≡ (ok none, w))
        × (k : ℕ) × (k ≤ max_retries)
        × Ends engine
            (new_order (uuids.uuid4 w'.uuids) body'.product_ids user'.user_id total)
            (confirmed_from api (length w'.posts) k)
            (replicate k total ++ w'.posts)
            v
            (run (rest_of user' body' key) v)
  unfolding advance
  race user user' body body' key later w w' r short new first unique orderable fresh =
      let taken = rest_of-taken user body key w w' r first in
      let (k, le, ends) =
        place_order-taken engine uuids api tenacity user' body' key (advance later w') taken unique
          orderable fresh in
      (cached_response-get engine key w short ∙ get-absent engine key w new, k, le, ends)
