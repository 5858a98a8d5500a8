-- ===== src/System/Ledger/Orders.antt =====
-- POST /orders/ keeps the invariant.
use mathlib.Core.Path.{subst}
use coffee_shop_api.Prelude.{
  ℕ, ◌+◌, ◌≤◌, ◌≡◌, refl, sym, ap, ◌∙◌, String, false, Bool-cases, inl, inr, Option, none, some,
  List, [], ◌∷◌, ◌++◌, map, append-nil, any, All_last, All-map, Distinct-last, arith, length, ◌==◌,
}
use coffee_shop_api.Decimal.{Decimal}
use coffee_shop_api.Entities.{Uuid, Product}
use coffee_shop_api.Schemas.{OrderCreate}
use coffee_shop_api.Database.{OrderRow}
use coffee_shop_api.Engine.{Engine}
use coffee_shop_api.App.{World, Uuids, Error, Result, ok, err, ◌>>=◌}
use coffee_shop_api.App.Keeps.{Keeps, Keeps-raise, keeps}
use coffee_shop_api.Payment.{PaymentApi, Tenacity, process}
use coffee_shop_api.Payment.Charges.{
  replicate, Processed, process_any-Processed, Sent, is_ok, apart,
}
use coffee_shop_api.Payment.Ledger.{charges, charges-replicate}
use coffee_shop_api.Services.{payment_service}
use coffee_shop_api.Repositories.{CachedResponse}
use coffee_shop_api.Repositories.Orders.{has_id, order_row, order_repository}
use coffee_shop_api.Repositories.Orders.Lookup.{parse-status_value}
use coffee_shop_api.Repositories.Orders.Inserts.{create-fresh}
use coffee_shop_api.Repositories.Products.{product_repository, get_by_ids}
use coffee_shop_api.Repositories.Idempotency.{idempotency_repository}
use coffee_shop_api.Auth.{TokenData}
use coffee_shop_api.UseCases.CreateOrder.{
  store, pay_and_store, check_products, execute, total_price,
}
use coffee_shop_api.UseCases.CreateOrder.Outcome.{new_order}
use coffee_shop_api.Routes.Orders.{place_order, answer_order, create_order_body, create_error}
use coffee_shop_api.System.Ledger.{
  Accounting, Grows, IsSound, with_ledger, Drawn, drawn_before, drawn_later, same_order, CanRead,
}
use coffee_shop_api.System.Ledger.Rows.{save_response-Keeps, cached_response-Keeps}

-- the last order of a list
map_last :
    (f : OrderRow → Decimal) (rows : List OrderRow) (r : OrderRow)
    → map f (rows ++ r ∷ []) ≡ map f rows ++ f r ∷ []
map_last f [] r = refl
map_last f (x ∷ rows) r = ap (◌∷◌ (f x)) (map_last f rows r)

-- storing an order, which may change how the accounts stand
module _ (before after : Accounting) (engine : Engine) (uuids : Uuids) (api : PaymentApi)
    (fresh : (i j : ℕ) → uuids.uuid4 i ≡ uuids.uuid4 j → i ≡ j) (ids : List Uuid) (user_id : Uuid)
    (total : Decimal) where
  pub stored-IsSound :
      (w v : World)
      → IsSound before api uuids w
      → after (charges api v.posts) (map (λ r. r.total_price) w.db.orders ++ total ∷ [])
      → v.db ≡ w.db
      → v.uuids ≡ w.uuids
      → IsSound after api uuids (store uuids (order_repository engine) ids user_id total v).1
  unfolding store
  stored-IsSound w v s ledger db drawn =
      let order = new_order (uuids.uuid4 v.uuids) ids user_id total in
      let later = record v { uuids = v.uuids + 1 } in
      let row = order_row engine later order in
      let absent : any (has_id (uuids.uuid4 v.uuids)) w.db.orders ≡ false =
        rw drawn (drawn_before uuids fresh w.uuids w.db.orders s.drawn) in
      let still_absent : any (has_id (uuids.uuid4 v.uuids)) v.db.orders ≡ false = rw db absent in
      let le : w.uuids ≤ v.uuids + 1 = omega arith in
      rw (create-fresh engine order later still_absent, db)
        (record {
          ledger =
              subst (after (charges api v.posts))
                (sym (map_last (λ r. r.total_price) w.db.orders row)) ledger;
          drawn =
              All_last (Drawn uuids (v.uuids + 1)) w.db.orders row
                (All-map (Drawn uuids w.uuids) (Drawn uuids (v.uuids + 1))
                  (λ r. drawn_later uuids w.uuids (v.uuids + 1) r le) w.db.orders s.drawn)
                (v.uuids, omega arith, refl);
          readable = All_last CanRead w.db.orders row s.readable (
            order.status,
            user_id,
            record { status_text = parse-status_value order.status; user = refl },
          );
          order_ids = Distinct-last same_order w.db.orders row s.order_ids absent;
          emails = s.emails;
          key_ids = s.key_ids;
        })

module _ (balance : Accounting) (grows : Grows balance) (engine : Engine) (uuids : Uuids)
    (api : PaymentApi) (tenacity : Tenacity)
    (fresh : (i j : ℕ) → uuids.uuid4 i ≡ uuids.uuid4 j → i ≡ j) where
  module _ (ids : List Uuid) (user_id : Uuid) (total : Decimal) where
    -- what the payment leaves alone, and the ledger after it
    paid :
        (k n : ℕ) (r : Result (Unit {0})) (w u : World)
        → Sent api total k w r (apart api total w u)
        → is_ok r ≡ n
        → (charges api u.posts ≡ charges api w.posts ++ replicate n total)
          × (u.db ≡ w.db)
          × (u.uuids ≡ w.uuids)
    paid k n r w u sent e = (
      rw (sent.posts, charges-replicate api total k w.posts, sent.confirms, e) refl,
      sent.db,
      sent.uuids,
    )

    store_after-IsSound :
        (w : World) (p : Result (Unit {0}) × World)
        → IsSound balance api uuids w
        → Processed api total w p
        → IsSound balance api uuids
            (((λ (_ : World). p) >>= λ _. store uuids (order_repository engine) ids user_id total)
              w).1
    store_after-IsSound w (ok done, u) s (k, le, sent, ending) =
        let (ledger, db, drawn) = paid k 1 (ok done) w u sent refl in
        let totals = map (λ r. r.total_price) w.db.orders in
        stored-IsSound balance balance engine uuids api fresh ids user_id total w u s
          (subst (λ cs. balance cs (totals ++ total ∷ [])) (sym ledger)
            (grows (charges api w.posts) totals total s.ledger))
          db drawn
    store_after-IsSound w (err e, u) s (k, le, sent, ending) =
        let (ledger, db, drawn) = paid k 0 (err e) w u sent refl in
        rw (db, drawn)
          (with_ledger s balance u.posts (
            subst (λ cs. balance cs (map (λ r. r.total_price) w.db.orders))
              (sym (ledger ∙ append-nil (charges api w.posts))) s.ledger))

    pay_and_store-Keeps : Keeps (IsSound balance api uuids) (
        pay_and_store uuids
          (order_repository engine)
          (payment_service api tenacity)
          ids
          user_id
          total)
    unfolding pay_and_store
    pay_and_store-Keeps = record {
      kept = λ w s.
          store_after-IsSound w (process api tenacity total w) s
            (process_any-Processed api total tenacity w);
    }

  module _ (ids : List Uuid) (user_id : Uuid) where
    check_products-Keeps :
        (products : List Product)
        → Keeps (IsSound balance api uuids) (
            check_products uuids
              (order_repository engine)
              (payment_service api tenacity)
              ids
              user_id
              products)
    unfolding check_products
    check_products-Keeps products = elim (Bool-cases (length products == length ids)) [
      | inl all_found ↦ rw all_found (pay_and_store-Keeps ids user_id (total_price products))
      | inr some_missing ↦ rw some_missing (Keeps-raise (IsSound balance api uuids) _)
    ]

    execute-Keeps : Keeps (IsSound balance api uuids) (
        execute uuids
          (order_repository engine)
          (product_repository engine)
          (payment_service api tenacity)
          ids
          user_id)
    unfolding execute get_by_ids
    execute-Keeps = search (keeps, check_products-Keeps)

  create_error-Keeps :
      {A : Type 0} (e : Error) → Keeps (IsSound balance api uuids) (create_error {A = A} e)
  create_error-Keeps (Error.invalid_product ids) = search keeps
  create_error-Keeps (Error.payment_failed f) = search keeps
  create_error-Keeps e = search keeps

  module _ (user : TokenData) (body : OrderCreate) (key : Option String) where
    place_order-Keeps : Keeps (IsSound balance api uuids) (
        place_order uuids
          (order_repository engine)
          (product_repository engine)
          (payment_service api tenacity)
          (idempotency_repository engine)
          user
          body
          key)
    unfolding place_order
    place_order-Keeps = search (keeps, execute-Keeps, create_error-Keeps, save_response-Keeps)

    answer_order-Keeps :
        (cached : Option CachedResponse)
        → Keeps (IsSound balance api uuids) (
            answer_order uuids
              (order_repository engine)
              (product_repository engine)
              (payment_service api tenacity)
              (idempotency_repository engine)
              user
              body
              key
              cached)
    unfolding answer_order
    answer_order-Keeps none = place_order-Keeps
    answer_order-Keeps (some c) = search keeps

    pub create_order_body-Keeps : Keeps (IsSound balance api uuids) (
        create_order_body uuids
          (order_repository engine)
          (product_repository engine)
          (payment_service api tenacity)
          (idempotency_repository engine)
          user
          body
          key)
    unfolding create_order_body
    create_order_body-Keeps = search (keeps, answer_order-Keeps, cached_response-Keeps)
