-- ===== src/UseCases/Queries/Ownership.antt =====
-- Whose orders a customer sees.
use mathlib.Core.Path.{subst}
use coffee_shop_api.Prelude.{
  ℕ, zero, suc, ◌≤◌, ◌≡◌, sym, ap, ◌∙◌, true, some, List, [], ◌∷◌, select, take, drop, length, All,
  select-All, All-perm, All-take, All-drop, arith,
}
use coffee_shop_api.Entities.{Uuid, Role, Order}
use coffee_shop_api.Database.{OrderRow}
use coffee_shop_api.Engine.{Engine, fetch_all}
use coffee_shop_api.App.{World, Result, ok, pure, ◌>>=◌, bind-inv}
use coffee_shop_api.Repositories.Orders.{
  owned_by, bind_page, to_entity, to_entities, fetch_product_ids, list_for_user, order_repository,
}
use coffee_shop_api.UseCases.Queries.{list_orders}

length-take_le {ℓ} : {A : Type ℓ} (n : ℕ) (xs : List A) → length (take n xs) ≤ n
length-take_le zero xs = omega arith
length-take_le (suc n) [] = omega arith
length-take_le (suc n) (x ∷ xs) = omega (arith, length-take_le n xs)

owned_by-eq : (u : Uuid) (r : OrderRow) → owned_by u r ≡ true → r.user_id ≡ some u
owned_by-eq u r h = ground arith

to_entity-ok :
    (row : OrderRow) (ids : List Uuid) (w w' : World) (o : Order)
    → to_entity row ids w ≡ (ok o, w')
    → (row.user_id ≡ some o.user_id) × (w' ≡ w)
unfolding to_entity
to_entity-ok row ids w w' o h = ground arith

module _ (engine : Engine) (u : Uuid) where
  to_entities-owned :
      (rows : List OrderRow) (orders : List Order) (w w' : World)
      → All (λ r. r.user_id ≡ some u) rows
      → to_entities engine rows w ≡ (ok orders, w')
      → All (λ o. o.user_id ≡ u) orders × (length orders ≡ length rows) × (w' ≡ w)
  unfolding to_entities fetch_product_ids
  to_entities-owned [] orders w w' owned h =
      let none_left : orders ≡ [] = cc in
      (subst (All (λ o. o.user_id ≡ u)) (sym none_left) tt, ap length none_left, cc)
  to_entities-owned (row ∷ rows) orders w w' owned h =
      let (ids, w1, fetched, h1) =
        bind-inv (fetch_product_ids engine row.id)
          (λ ids. to_entity row ids >>= λ order.
            to_entities engine rows >>= λ orders. pure (order ∷ orders))
          w orders w' h in
      let (order, w2, made, h2) =
        bind-inv (to_entity row ids)
          (λ order. to_entities engine rows >>= λ orders. pure (order ∷ orders)) w1 orders w' h1 in
      let (rest, w3, others, last) =
        bind-inv (to_entities engine rows) (λ rest. pure (order ∷ rest)) w2 orders w' h2 in
      let (owner, same2) = to_entity-ok row ids w1 w2 order made in
      let (mine, len, same3) = to_entities-owned rows rest w2 w3 owned.1 others in
      let all : orders ≡ order ∷ rest = cc in
      (
        subst (All (λ o. o.user_id ≡ u)) (sym all) (cc (owner, owned.0), mine),
        ap length all ∙ ap suc len,
        cc,
      )

  -- A customer's page of orders: it has the customer's orders only, at most as many as asked for,
  -- with the number of all of them; and reading it changes nothing.
  pub list_orders-owned :
      (offset limit total : ℕ) (orders : List Order) (w w' : World)
      → list_orders (order_repository engine) u Role.customer offset limit w
        ≡ (ok (orders, total), w')
      → All (λ o. o.user_id ≡ u) orders
        × (length orders ≤ limit)
        × (total ≡ length (select (owned_by u) w.db.orders))
        × (w' ≡ w)
  unfolding list_orders list_for_user
  list_orders-owned offset limit total orders w w' h =
      let page = take limit (drop offset (fetch_all engine (owned_by u) w.db.orders)) in
      let mine : All (λ r. r.user_id ≡ some u) page = All-take _ limit _ (
        All-drop _ offset _ (
          All-perm _ (engine.scan_perm OrderRow (select (owned_by u) w.db.orders))
            (select-All (λ r. r.user_id ≡ some u) (owned_by u) (owned_by-eq u) w.db.orders))) in
      let n = length (select (owned_by u) w.db.orders) in
      let listed : World → Result (List Order × ℕ) × World = λ x.
        (to_entities engine (take limit (drop offset (fetch_all engine (owned_by u) x.db.orders)))
            >>= λ os. pure (os, n))
          x in
      let (done, x, bound, h1) =
        bind-inv (bind_page offset limit) (λ _. listed) w (orders, total) w' h in
      let h2 : listed w ≡ (ok (orders, total), w') =
        subst (λ y. listed y ≡ (ok (orders, total), w'))
          (ap (λ (p : Result (Unit {0}) × World). p.1) (sym bound)) h1 in
      let (os, v, read, last) =
        bind-inv (to_entities engine page) (λ os. pure (os, n)) w (orders, total) w' h2 in
      let (all, len, same) = to_entities-owned page os w v mine read in
      let same_os : os ≡ orders = cc in
      (
        subst (All (λ o. o.user_id ≡ u)) same_os all,
        omega (
          arith,
          ap length same_os,
          len,
          length-take_le limit (drop offset (fetch_all engine (owned_by u) w.db.orders)),
        ),
        cc,
        cc,
      )
