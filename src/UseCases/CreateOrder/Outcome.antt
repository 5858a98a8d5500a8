-- ===== src/UseCases/CreateOrder/Outcome.antt =====
-- A payment and the order that it is for.
use coffee_shop_api.Prelude.{
  ℕ, ◌+◌, ◌≤◌, ◌≡◌, ap, ◌∙◌, false, inl, inr, List, [], ◌∷◌, ◌++◌, arith, any, length,
}
use coffee_shop_api.Decimal.{Decimal}
use coffee_shop_api.Entities.{Uuid, OrderStatus, Order}
use coffee_shop_api.Database.{Database}
use coffee_shop_api.Engine.{Engine}
use coffee_shop_api.App.{World, Uuids, Error, Failure, Result, ok, err, ◌>>=◌}
use coffee_shop_api.Payment.{PaymentApi, Tenacity, process, max_retries}
use coffee_shop_api.Payment.Charges.{
  replicate, confirmed_from, charged_from, orphans_from, charged_from-eq, process_any-Processed,
  Processed,
}
use coffee_shop_api.Repositories.Orders.{has_id, order_row, order_product_rows, order_repository}
use coffee_shop_api.Repositories.Orders.Inserts.{create-fresh}
use coffee_shop_api.Services.{payment_service}
use coffee_shop_api.UseCases.CreateOrder.{store, pay_and_store}

-- the order that is stored
abbrev pub new_order : Uuid → List Uuid → Uuid → Decimal → Order
new_order id ids user_id total = record {
  id = id;
  status = OrderStatus.waiting;
  total_price = total;
  user_id = user_id;
  product_ids = ids;
}

-- `w'` has the tables of `w`, and the order's rows besides.
abbrev pub Stored : Engine → Order → World → World → Type 0
Stored engine order w w' =
    (w'.db.orders ≡ w.db.orders ++ order_row engine w' order ∷ [])
    × (w'.db.order_products ≡ w.db.order_products ++ order_product_rows order)
    × (w'.db.products ≡ w.db.products)
    × (w'.db.users ≡ w.db.users)
    × (w'.db.idempotency_keys ≡ w.db.idempotency_keys)
    × (w'.db.revoked_tokens ≡ w.db.revoked_tokens)

-- What an attempt to pay for and store an order has done, by how it ended: `confirms` POSTs were
-- confirmed by the payment service.
abbrev pub PaidOrder : Engine → Order → ℕ → World → Result Order × World → Type 0
PaidOrder engine order confirms w (ok o, w') =
    (confirms ≡ 1) × (o ≡ order) × Stored engine order w w'
PaidOrder engine order confirms w (err e, w') =
    (confirms ≡ 0) × (w'.db ≡ w.db) × (f : Failure) × (e ≡ Error.payment_failed f)

-- how many payments belong to an order that was returned
abbrev pub due : Result Order → ℕ
due (ok _) = 1
due (err _) = 0

confirms-due :
    (engine : Engine) (order : Order) (confirms : ℕ) (w : World) (o : Result Order × World)
    → PaidOrder engine order confirms w o
    → confirms ≡ due o.0
confirms-due engine order confirms w (ok r, u) paid = paid.0
confirms-due engine order confirms w (err e, u) paid = paid.0

module _ (engine : Engine) (uuids : Uuids) (api : PaymentApi) (tenacity : Tenacity)
    (ids : List Uuid) (user_id : Uuid) (total : Decimal) where
  abbrev Outcome : World → Result Order × World → Type 0
  Outcome w o =
      (k : ℕ) × (k ≤ max_retries)
      × (o.1.posts ≡ replicate k total ++ w.posts)
      × PaidOrder engine (new_order (uuids.uuid4 w.uuids) ids user_id total)
          (confirmed_from api (length w.posts) k) w o

  store_after :
      (w : World) (p : Result (Unit {0}) × World)
      → any (has_id (uuids.uuid4 w.uuids)) w.db.orders ≡ false
      → Processed api total w p
      → Outcome w
          (((λ (_ : World). p) >>= λ _. store uuids (order_repository engine) ids user_id total) w)
  unfolding store
  store_after w (ok done, u) fresh (k, le, s, ending) =
      let order = new_order (uuids.uuid4 u.uuids) ids user_id total in
      let v = record u { uuids = u.uuids + 1 } in
      let absent : any (has_id (uuids.uuid4 u.uuids)) u.db.orders ≡ false =
        rw (s.uuids, s.db) fresh in
      rw (create-fresh engine order v absent) (
        k,
        le,
        s.posts,
        (
          s.confirms,
          rw s.uuids,
          (
            rw (s.uuids, s.db),
            rw (s.uuids, s.db),
            ap (λ (d : Database). d.products) s.db,
            ap (λ (d : Database). d.users) s.db,
            ap (λ (d : Database). d.idempotency_keys) s.db,
            ap (λ (d : Database). d.revoked_tokens) s.db,
          ),
        ),
      )
  store_after w (err e, u) fresh (k, le, s, ending) = elim ending [
    | inl returned ↦ absurd (cc)
    | inr (f, raised) ↦ (k, le, s.posts, (s.confirms, s.db, f, ground arith))
  ]

  pub pay_and_store-Outcome :
      (w : World)
      → any (has_id (uuids.uuid4 w.uuids)) w.db.orders ≡ false
      → let o =
          pay_and_store uuids
            (order_repository engine)
            (payment_service api tenacity)
            ids
            user_id
            total
            w in
        (k : ℕ) × (k ≤ max_retries)
        × (o.1.posts ≡ replicate k total ++ w.posts)
        × PaidOrder engine
            (new_order (uuids.uuid4 w.uuids) ids user_id total)
            (confirmed_from api (length w.posts) k)
            w
            o
  unfolding pay_and_store
  pay_and_store-Outcome w fresh =
      store_after w (process api tenacity total w) fresh
        (process_any-Processed api total tenacity w)

  -- After the basket has been validated, and if no stored order has the UUID that is drawn next: the
  -- payment is sent at most three times. Either exactly one of the POSTs was confirmed, by a 2xx
  -- with a JSON body, and the order is returned and stored with its products, status WAITING and
  -- the amount that was sent; or none was confirmed, PaymentFailedError is raised and the database
  -- is as it was. The service charged the amount once for an order that is returned, and besides,
  -- in either case, once for each of the POSTs that it charged without confirming it.
  pub pay_and_store-PaidOrder :
      (w : World)
      → any (has_id (uuids.uuid4 w.uuids)) w.db.orders ≡ false
      → let o =
          pay_and_store uuids
            (order_repository engine)
            (payment_service api tenacity)
            ids
            user_id
            total
            w in
        (k : ℕ) × (k ≤ max_retries)
        × (o.1.posts ≡ replicate k total ++ w.posts)
        × PaidOrder engine
            (new_order (uuids.uuid4 w.uuids) ids user_id total)
            (confirmed_from api (length w.posts) k)
            w
            o
        × (charged_from api (length w.posts) k ≡ due o.0 + orphans_from api (length w.posts) k)
  pay_and_store-PaidOrder w fresh =
      let (k, le, posts, paid) = pay_and_store-Outcome w fresh in
      let order = new_order (uuids.uuid4 w.uuids) ids user_id total in
      let one =
        confirms-due engine order (confirmed_from api (length w.posts) k) w
          (pay_and_store uuids (order_repository engine) (payment_service api tenacity) ids user_id
            total w)
          paid in
      (
        k,
        le,
        posts,
        paid,
        charged_from-eq api (length w.posts) k
            ∙ ap (λ m. m + orphans_from api (length w.posts) k) one,
      )
