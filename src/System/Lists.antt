-- ===== src/System/Lists.antt =====
-- Listing orders, in the states that the service reaches.
use coffee_shop_api.Prelude.{
  ℕ, ◌-◌, ◌*◌, ◌≤◌, ◌&&◌, leb, arith, ◌≡◌, refl, ap, ◌∙◌, ◌⊎◌, String, true, not, Option, List, [],
  ◌∷◌, map, select, take, drop, length, All, All-selected, All-perm, All-take, All-drop,
}
use coffee_shop_api.Entities.{Uuid, Datetime, Role, Order}
use coffee_shop_api.Breaker.{CircuitBreaker}
use coffee_shop_api.Database.{OrderRow}
use coffee_shop_api.Engine.{Engine}
use coffee_shop_api.App.{
  World, App, Error, ok, pure, raise_if, raise_if-false, ◌>>=◌, ◌>>◌, bind-ok,
}
use coffee_shop_api.Auth.{TokenData}
use coffee_shop_api.Api.{Content, Response, respond, run-ok, refused}
use coffee_shop_api.Schemas.{order_response, dump_order_page}
use coffee_shop_api.Repositories.Orders.{
  max_integer, bind_page, owned_by, to_entity, to_entities, fetch_product_ids, list_all,
  list_for_user, order_repository,
}
use coffee_shop_api.Repositories.Orders.Lookup.{ids_of, readable_entity, to_entity-readable}
use coffee_shop_api.UseCases.Queries.{list_orders}
use coffee_shop_api.Routes.Orders.{is_valid_page, unprocessable, list_orders_route}
use coffee_shop_api.System.{Environment, Request, current_user, route, serve}
use coffee_shop_api.System.Access.{dispatch-either}
use coffee_shop_api.System.Ledger.{CanRead}
use coffee_shop_api.System.Runs.{Reach, start, Reach-SameAmounts}

module _ (engine : Engine) where
  to_entities-readable :
      (rows : List OrderRow) (w : World)
      → All CanRead rows
      → (orders : List Order) × (map (λ o. o.id) orders ≡ map (λ r. r.id) rows)
        × (to_entities engine rows w ≡ (ok orders, w))
  unfolding to_entities fetch_product_ids
  to_entities-readable [] w h = ([], refl, refl)
  to_entities-readable (row ∷ rows) w ((s, u, readable), h) =
      let ids = ids_of engine w row.id in
      let order = readable_entity row ids s u in
      let (rest, same, read) = to_entities-readable rows w h in
      (
        order ∷ rest,
        ap (◌∷◌ row.id) same,
        bind-ok (to_entity row ids) (λ o. to_entities engine rows >>= λ os. pure (o ∷ os)) w order w
              (to_entity-readable row ids s u w readable)
            ∙ bind-ok (to_entities engine rows) (λ os. pure (order ∷ os)) w rest w read,
      )

  abbrev pub page_of : ℕ → ℕ → List OrderRow → List OrderRow
  page_of offset limit rows = take limit (drop offset (engine.scan OrderRow rows))

  page-readable :
      (offset limit : ℕ) (rows : List OrderRow)
      → All CanRead rows
      → All CanRead (page_of offset limit rows)
  page-readable offset limit rows h =
      All-take CanRead limit _
        (All-drop CanRead offset _ (All-perm CanRead (engine.scan_perm OrderRow rows) h))

  -- the rows that a user may see
  abbrev pub visible : Uuid → Role → List OrderRow → List OrderRow
  visible user_id Role.manager rows = rows
  visible user_id Role.customer rows = select (owned_by user_id) rows

  visible-readable :
      (user_id : Uuid) (role : Role) (rows : List OrderRow)
      → All CanRead rows
      → All CanRead (visible user_id role rows)
  visible-readable user_id Role.manager rows h = h
  visible-readable user_id Role.customer rows h = All-selected CanRead (owned_by user_id) rows h

  -- the queries of a list, one after the other
  list_orders-page :
      (user_id : Uuid) (role : Role) (offset limit : ℕ) (w : World)
      → list_orders (order_repository engine) user_id role offset limit w
        ≡ (bind_page offset limit >>= λ _.
              to_entities engine (page_of offset limit (visible user_id role w.db.orders)) >>= λ os.
              pure (os, length (visible user_id role w.db.orders)))
            w
  unfolding list_orders list_all list_for_user
  list_orders-page user_id Role.manager offset limit w = refl
  list_orders-page user_id Role.customer offset limit w = refl

  list_orders-readable :
      (user_id : Uuid) (role : Role) (offset limit : ℕ) (w : World)
      → offset ≤ max_integer
      → limit ≤ max_integer
      → All CanRead w.db.orders
      → let rows = visible user_id role w.db.orders in
        (orders : List Order) × (map (λ o. o.id) orders
          ≡ map (λ r. r.id) (page_of offset limit rows))
        × (list_orders (order_repository engine) user_id role offset limit w
            ≡ (ok (orders, length rows), w))
  list_orders-readable user_id role offset limit w small few h =
      let rows = visible user_id role w.db.orders in
      let (orders, same, read) =
        to_entities-readable (page_of offset limit rows) w
          (page-readable offset limit rows (visible-readable user_id role w.db.orders h)) in
      (
        orders,
        same,
        list_orders-page user_id role offset limit w
            ∙ bind-ok (bind_page offset limit)
                (λ _.
                  to_entities engine (page_of offset limit rows) >>= λ os. pure (os, length rows))
                w tt w
                (raise_if-false (not (leb offset max_integer && leb limit max_integer))
                  Error.overflow_error w (ground arith))
            ∙ bind-ok (to_entities engine (page_of offset limit rows))
                (λ os. pure (os, length rows)) w orders w read,
      )

module _ (env : Environment) (header : Option String)
    (fresh : (i j : ℕ) → env.uuids.uuid4 i ≡ env.uuids.uuid4 j → i ≡ j) where
  abbrev pub answer : ℕ → ℕ → List Order × ℕ → Response
  answer page page_size (orders, total) = respond 200 (
      Content.json (
        dump_order_page (record {
          items = map order_response orders;
          total = total;
          page = page;
          page_size = page_size;
        })))

  route-list_orders :
      (w : World) (page page_size : ℕ) (td : TokenData) (listed : List Order × ℕ)
      → current_user env header w ≡ (ok td, w)
      → is_valid_page page page_size ≡ true
      → list_orders
          (order_repository env.engine)
          td.user_id
          td.role
          ((page - 1) * page_size)
          page_size
          w
        ≡ (ok listed, w)
      → route env header (Request.list_orders page page_size) w
        ≡ (ok (answer page page_size listed), w)
  unfolding route list_orders_route
  route-list_orders w page page_size td listed signed_in valid read =
      let read_page : TokenData → App Response = λ user.
        list_orders (order_repository env.engine) user.user_id user.role ((page - 1) * page_size)
          page_size
        >>= λ p. pure (answer page page_size p) in
      let check = raise_if (not (is_valid_page page page_size)) unprocessable in
      bind-ok (current_user env header) (λ user. check >> read_page user) w td w signed_in
      ∙ bind-ok check (λ _. read_page td) w tt w
          (raise_if-false (not (is_valid_page page page_size)) unprocessable w (ap not valid))
      ∙ bind-ok
          (list_orders (order_repository env.engine) td.user_id td.role ((page - 1) * page_size)
            page_size)
          (λ p. pure (answer page page_size p)) w listed w read

  valid_size : (page page_size : ℕ) → is_valid_page page page_size ≡ true → page_size ≤ max_integer
  valid_size page page_size valid = ground arith

  -- Let the generator of UUIDs not repeat itself. In every state that the service reaches from its
  -- start on the migrated database by serving requests one after the other, purging, seeding,
  -- waiting and starting again: let a signed-in user, customer or manager, ask for a valid page of
  -- orders whose offset is an integer of 64 bits. The answer is a 200 with that page, in the order
  -- of the database, of the orders that the user may see, all of them or their own, and with how
  -- many these are; or it is a 401 by the middleware; and nothing changes.
  pub serve-list_orders :
      (breaker : CircuitBreaker) (monotonic : ℕ) (now : Datetime) (w : World) (page page_size : ℕ)
      (td : TokenData)
      → Reach env (start breaker monotonic now) w
      → current_user env header w ≡ (ok td, w)
      → is_valid_page page page_size ≡ true
      → (page - 1) * page_size ≤ max_integer
      → let rows = visible env.engine td.user_id td.role w.db.orders in
        (orders : List Order) × (map (λ o. o.id) orders
          ≡ map (λ r. r.id) (page_of env.engine ((page - 1) * page_size) page_size rows))
        × ((r : Response) × (serve env header (Request.list_orders page page_size) w ≡ (r, w))
            × ((r ≡ answer page page_size (orders, length rows)) ⊎ (r.status_code ≡ 401)))
  unfolding serve
  serve-list_orders breaker monotonic now w page page_size td reached signed_in valid small =
      let sound = Reach-SameAmounts env fresh breaker monotonic now w reached in
      let (orders, same, read) =
        list_orders-readable env.engine td.user_id td.role ((page - 1) * page_size) page_size w
          small (valid_size page page_size valid) sound.readable in
      let listed : List Order × ℕ =
        (orders, length (visible env.engine td.user_id td.role w.db.orders)) in
      let handler = route env header (Request.list_orders page page_size) in
      let (r, served, which) =
        dispatch-either env header handler (refused env.jose w header) w
          (answer page page_size listed) refl
          (run-ok handler (answer page page_size listed) w w
            (route-list_orders w page page_size td listed signed_in valid read)) in
      (orders, same, (r, served, which))
