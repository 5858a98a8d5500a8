-- ===== src/Routes/Orders/ExpiredKeys.antt =====
-- POST /orders/ with an Idempotency-Key whose saved response has expired and is not yet purged.
use Prim.Native.String.{count}
use mathlib.Core.Path.{subst}
use coffee_shop_api.Prelude.{
  ℕ, ◌≤◌, ◌≡◌, refl, sym, ap, ◌∙◌, String, true, false, ◌⊎◌, inl, inr, none, some, List, ◌++◌, any,
  length,
}
use coffee_shop_api.Decimal.{Decimal}
use coffee_shop_api.Decimal.Rounding.{cents}
use coffee_shop_api.Entities.{Order}
use coffee_shop_api.Schemas.{OrderCreate, order_response, dump_order}
use coffee_shop_api.Engine.{Engine}
use coffee_shop_api.App.{
  World, App, Error, Detail, Result, ok, err, Uuids, pure, ◌>>=◌, catch, bind-err,
}
use coffee_shop_api.Auth.{TokenData}
use coffee_shop_api.Api.{Content, Response, respond, run, run-err, save_response}
use coffee_shop_api.Payment.{PaymentApi, Tenacity, max_retries}
use coffee_shop_api.Payment.Charges.{confirmed_from, replicate}
use coffee_shop_api.Repositories.Idempotency.{has_key, get, save, idempotency_repository}
use coffee_shop_api.Repositories.Idempotency.Expiry.{save-taken}
use coffee_shop_api.Repositories.Orders.{has_id, order_repository}
use coffee_shop_api.Repositories.Products.{product_repository}
use coffee_shop_api.Routes.Orders.{create_error, place_order}
use coffee_shop_api.Routes.Orders.Replays.{post, post_miss}
use coffee_shop_api.Routes.Keys.{answer_with}
use coffee_shop_api.Services.{payment_service}
use coffee_shop_api.UseCases.CreateOrder
use coffee_shop_api.UseCases.CreateOrder.Selection.{UniqueIds, is_orderable}
use coffee_shop_api.UseCases.CreateOrder.Total.{order_cents, execute-eq}
use coffee_shop_api.UseCases.CreateOrder.Outcome.{
  new_order, Stored, PaidOrder, pay_and_store-Outcome,
}

module _ (engine : Engine) where
  -- How the request ends: the order was paid for and stored and the answer is a 500, or the payment
  -- failed and the answer is a 502.
  abbrev pub Ends : Order → ℕ → List Decimal → World → Response × World → Type 0
  Ends order confirms posts w (r, w') =
      (w'.posts ≡ posts)
      × (((r.status_code ≡ 500) × (confirms ≡ 1) × Stored engine order w w')
          ⊎ ((r.status_code ≡ 502) × (confirms ≡ 0) × (w'.db ≡ w.db)))

  answer : String → Result Order × World → App Response
  answer key o =
      catch (λ _. o) create_error
      >>= answer_with (λ order. dump_order (order_response order)) engine key

  Ends-from :
      (key : String) (order : Order) (n : ℕ) (posts : List Decimal) (w : World)
      (o : Result Order × World)
      → any (has_key key) w.db.idempotency_keys ≡ true
      → o.1.posts ≡ posts
      → PaidOrder engine order n w o
      → Ends order n posts w (run (answer key o) w)
  unfolding answer
  Ends-from key order n posts w (ok x, u) taken sent (one, same, stored) =
      let b = dump_order (order_response x) in
      let still : any (has_key key) u.db.idempotency_keys ≡ true = rw stored.4 taken in
      rw
        (run-err (answer key (ok x, u)) Error.integrity_error w u (
          bind-err (save engine key 201 b) (λ _. pure (respond 201 (Content.json b))) u
            Error.integrity_error u (save-taken engine key 201 b u still)))
        (sent, inl (refl, one, stored))
  Ends-from key order n posts w (err e, u) taken sent (none_confirmed, same, f, failed) =
      let refused : Error → Type 0 = λ e. Ends order n posts w (run (answer key (err e, u)) w) in
      subst refused (sym failed) (
        rw
          (run-err (answer key (err (Error.payment_failed f), u))
            (Error.http 502 (Detail.text "Payment could not be processed")) w u refl)
          (sent, inr (refl, none_confirmed, same)))

  -- the rest of the request after the lookup, where the key is there by the time it is saved
  pub place_order-taken :
      (uuids : Uuids) (api : PaymentApi) (tenacity : Tenacity) (user : TokenData)
      (body : OrderCreate) (key : String) (w : World)
      → any (has_key key) w.db.idempotency_keys ≡ true
      → UniqueIds w.db.products
      → is_orderable w.db.products body.product_ids ≡ true
      → any (has_id (uuids.uuid4 w.uuids)) w.db.orders ≡ false
      → let total = cents (order_cents w.db.products body.product_ids) in
        (k : ℕ) × (k ≤ max_retries)
        × Ends
            (new_order (uuids.uuid4 w.uuids) body.product_ids user.user_id total)
            (confirmed_from api (length w.posts) k)
            (replicate k total ++ w.posts)
            w
            (run
              (place_order uuids
                (order_repository engine)
                (product_repository engine)
                (payment_service api tenacity)
                (idempotency_repository engine)
                user
                body
                (some key))
              w)
  unfolding run answer place_order save_response
  place_order-taken uuids api tenacity user body key w taken unique orderable fresh =
      let total = cents (order_cents w.db.products body.product_ids) in
      let (k, le, sent, paid) =
        pay_and_store-Outcome engine uuids api tenacity body.product_ids user.user_id total w
          fresh in
      let o =
        CreateOrder.pay_and_store uuids (order_repository engine) (payment_service api tenacity)
          body.product_ids user.user_id total w in
      let placed : (CreateOrder.execute uuids (order_repository engine) (product_repository engine)
            (payment_service api tenacity) body.product_ids user.user_id w)
          ≡ o =
        execute-eq engine uuids (order_repository engine) (payment_service api tenacity)
          body.product_ids user.user_id w unique
        ∙ rw orderable in
      let order = new_order (uuids.uuid4 w.uuids) body.product_ids user.user_id total in
      (
        k,
        le,
        subst (Ends order (confirmed_from api (length w.posts) k) (replicate k total ++ w.posts) w)
            (sym (ap (λ (p : Result Order × World). run (answer key p) w) placed))
            (Ends-from key order (confirmed_from api (length w.posts) k)
              (replicate k total ++ w.posts) w o taken sent paid),
      )

  -- Let a saved response have expired, while its row is not yet purged. A POST /orders/ with its
  -- key, of at most 128 characters, for a basket that can be ordered, from products with distinct
  -- ids and with a new UUID drawn next, never succeeds. It sends the total at most three times;
  -- either one of the POSTs is confirmed, the order is stored, and the client gets a 500, since the
  -- primary key of the old row refuses the new response; or none is confirmed, the client gets a
  -- 502, and nothing is stored.
  pub expired_key :
      (uuids : Uuids) (api : PaymentApi) (tenacity : Tenacity) (user : TokenData)
      (body : OrderCreate) (key : String) (w : World)
      → count key ≤ 128
      → any (has_key key) w.db.idempotency_keys ≡ true
      → get engine key w ≡ (ok none, w)
      → UniqueIds w.db.products
      → is_orderable w.db.products body.product_ids ≡ true
      → any (has_id (uuids.uuid4 w.uuids)) w.db.orders ≡ false
      → let total = cents (order_cents w.db.products body.product_ids) in
        (k : ℕ) × (k ≤ max_retries)
        × Ends
            (new_order (uuids.uuid4 w.uuids) body.product_ids user.user_id total)
            (confirmed_from api (length w.posts) k)
            (replicate k total ++ w.posts)
            w
            (run
              (post engine uuids
                (order_repository engine)
                (product_repository engine)
                (payment_service api tenacity)
                user
                body
                (some key))
              w)
  unfolding run
  expired_key uuids api tenacity user body key w short taken expired unique orderable fresh =
      let total = cents (order_cents w.db.products body.product_ids) in
      let order = new_order (uuids.uuid4 w.uuids) body.product_ids user.user_id total in
      let (k, le, ends) =
        place_order-taken uuids api tenacity user body key w taken unique orderable fresh in
      let missed =
        post_miss engine uuids (order_repository engine) (product_repository engine)
          (payment_service api tenacity) user body key w short expired in
      (
        k,
        le,
        subst (Ends order (confirmed_from api (length w.posts) k) (replicate k total ++ w.posts) w)
            (sym (ap (λ (p : Result Response × World). run (λ _. p) w) missed)) ends,
      )
