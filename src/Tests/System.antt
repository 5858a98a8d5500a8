-- ===== src/Tests/System.antt =====
-- The service as a whole.
use mathlib.Core.List.{Permᴰ}
use coffee_shop_api.Prelude.{
  ◌/◌, ◌≡◌, ◌⊎◌, refl, String, true, ◌&&◌, Option, none, some, List, length, [], ◌∷◌, ◌++◌, map,
  leb, str_eq, if◌then◌else◌, Distinct, arith,
}
use coffee_shop_api.Breaker.{init}
use coffee_shop_api.Entities.{Role, Order, OrderStatus}
use coffee_shop_api.App.{World, ok, advance, next_uuid}
use coffee_shop_api.Auth.{Jose, TokenData, create_access_token, decode_access_token}
use coffee_shop_api.Api.{Response, get_current_user}
use coffee_shop_api.Repositories.Users.{parse_role}
use coffee_shop_api.Repositories.Users.Emails.{same_user}
use coffee_shop_api.Repositories.RevokedTokens.{is_revoked, revoked_token_repository}
use coffee_shop_api.Routes.Users.{EmailText}
use coffee_shop_api.Payment.Ledger.{charges, taken, orphans}
use coffee_shop_api.Seed.{seed_catalog}
use coffee_shop_api.System.{Environment, Request, serve}
use coffee_shop_api.System.Ledger.{same_order, same_key}
use coffee_shop_api.System.Runs.{Step, Reach, start, Reach-ledger}
use coffee_shop_api.System.Access.{serve-refused, serve-forbidden}
use coffee_shop_api.System.Lists.{visible, page_of, answer, serve-list_orders}
use coffee_shop_api.System.Privacy.{serve-hidden}
use coffee_shop_api.System.Tokens.{get_current_user-create_access_token}
use coffee_shop_api.Prelude.Int.{pos, ◌+ℤ◌, scale}
use coffee_shop_api.Decimal.{quantize, sum, add}
use coffee_shop_api.Decimal.Rounding.{cents}
use coffee_shop_api.Breaker.{enter, on_success}
use coffee_shop_api.Payment.{process, attempt, call}
use coffee_shop_api.Repositories.Products.{get_by_ids}
use coffee_shop_api.Repositories.Orders.{create}
use coffee_shop_api.UseCases.CreateOrder
use coffee_shop_api.UseCases.CreateOrder.{total_price, pay_and_store}
use coffee_shop_api.Routes.Orders.{create_order, create_order_body, place_order}
use coffee_shop_api.Api.{dispatch, run, cached_response, save_response}
use coffee_shop_api.Samples.{
  sample_engine, sample_uuids, sample_tenacity, flaky_api, sample_redis, shop, shop_with_order,
  waiting_order,
}
use coffee_shop_api.Tests.Tokens.{one_user}
use coffee_shop_api.Tests.Users.{plain_bcrypt}

-- the one token that jose accepts here, for an hour
abbrev hour_token : Jose
hour_token = record {
  encode = λ claims. "t1";
  decode = λ now token.
      if str_eq token "t1" && leb (now / 1000000) 1700003600
      then some (record {
        sub = some "u7";
        role = some "CUSTOMER";
        exp = some 1700003600;
        jti = some "u7";
      })
      else none;
}

abbrev any_email : EmailText
any_email = record { validate = λ s. some s }

-- HTTPBearer on the one header that is sent here
abbrev bearer_of : Option String → Option String
bearer_of none = none
bearer_of (some header) = if str_eq header "Bearer t1" then some "t1" else none

abbrev pub service : Environment
service = record {
  engine = sample_engine;
  uuids = sample_uuids;
  api = flaky_api;
  tenacity = sample_tenacity;
  redis = sample_redis;
  texts = one_user;
  jose = hour_token;
  bcrypt = plain_bcrypt;
  emails = any_email;
  bearer = bearer_of;
}

-- a start, the seeding, an order and a round of the purge
abbrev pub opened : World
opened = start (init 5 30000000) 0 1700000000000000

abbrev pub seeded : World
seeded = (seed_catalog sample_uuids opened).1

abbrev ordered : World
ordered =
    (serve service (some "Bearer t1")
      (Request.create_order true (record { product_ids = 1000 ∷ [] }) none) seeded).1

ordered-Reach : Reach service opened ordered
ordered-Reach =
    Reach.next seeded ordered (Reach.next opened seeded Reach.here (Step.seeded opened))
      (Step.served seeded (some "Bearer t1") _)

Reach-ledger_example :
    let totals = map (λ r. r.total_price) ordered.db.orders in
    (charges flaky_api ordered.posts ≡ totals)
    × Permᴰ (taken flaky_api ordered.posts) (totals ++ orphans flaky_api ordered.posts)
    × Distinct same_order ordered.db.orders
    × Distinct same_user ordered.db.users
    × Distinct same_key ordered.db.idempotency_keys
Reach-ledger_example =
    Reach-ledger service (λ i j e. omega arith) (init 5 30000000) 0 1700000000000000 ordered
      ordered-Reach

-- the first POST was charged and got no answer, and the second one was confirmed
one_charge :
    (charges flaky_api ordered.posts ≡ cents (pos 450) ∷ [])
    × (map (λ r. r.id) ordered.db.orders ≡ 1013 ∷ [])
unfolding serve dispatch run create_order create_order_body place_order CreateOrder.execute process
    attempt enter on_success get_current_user decode_access_token is_revoked parse_role get_by_ids
    quantize total_price create advance next_uuid seed_catalog cached_response ◌+ℤ◌ scale call
    pay_and_store save_response sum add
one_charge = (refl, refl)

serve-refused_example :
    (r : Response) × (serve service none (Request.get_order 5) shop_with_order
      ≡ (r, shop_with_order))
    × (r.status_code ≡ 401)
unfolding get_current_user
serve-refused_example =
    serve-refused service none (Request.get_order 5) shop_with_order refl (λ td u h. cc)

abbrev customer_seven : TokenData
customer_seven = record {
  user_id = 7;
  role = Role.customer;
  jti = "u7";
  expires_at = 1700003600000000;
}

serve-forbidden_example :
    (r : Response) × (serve service
        (some "Bearer t1")
        (Request.update_order_status 5 (record { status = OrderStatus.preparation }))
        shop_with_order
      ≡ (r, shop_with_order))
    × ((r.status_code ≡ 403) ⊎ (r.status_code ≡ 401))
unfolding get_current_user decode_access_token is_revoked parse_role
serve-forbidden_example =
    serve-forbidden service (some "Bearer t1") 5 (record { status = OrderStatus.preparation })
      customer_seven shop_with_order refl refl

-- the order of another user
abbrev shop_of_eight : World
shop_of_eight = record shop {
  db = record shop.db { orders = record waiting_order { user_id = some 8 } ∷ [] };
}

serve-hidden_example :
    (r : Response) × (serve service (some "Bearer t1") (Request.get_order 5) shop_of_eight
      ≡ (r, shop_of_eight))
    × ((r.status_code ≡ 404) ⊎ (r.status_code ≡ 401))
unfolding get_current_user decode_access_token is_revoked parse_role
serve-hidden_example =
    serve-hidden service (some "Bearer t1") 5 customer_seven shop_of_eight refl refl refl

abbrev signed_in : World
signed_in = advance 60000000 (record shop { uuids = 1 })

get_current_user-create_access_token_example :
    get_current_user one_user hour_token
      (revoked_token_repository sample_engine)
      (some "t1")
      signed_in
    ≡ (ok customer_seven, signed_in)
unfolding create_access_token next_uuid is_revoked advance
get_current_user-create_access_token_example =
    get_current_user-create_access_token sample_engine one_user hour_token sample_uuids 7
      Role.customer shop refl (λ t le. ground arith) (record shop { uuids = 1 }) "t1" 60000000 refl
      (omega arith) refl

serve-list_orders_example :
    let rows = visible sample_engine 7 Role.customer ordered.db.orders in
    (orders : List Order) × (map (λ o. o.id) orders
      ≡ map (λ r. r.id) (page_of sample_engine 0 20 rows))
    × ((r : Response) × (serve service (some "Bearer t1") (Request.list_orders 1 20) ordered
          ≡ (r, ordered))
        × ((r ≡ answer service (some "Bearer t1") (λ i j e. omega arith) 1 20 (orders, length rows))
            ⊎ (r.status_code ≡ 401)))
unfolding serve dispatch run create_order create_order_body place_order CreateOrder.execute process
    attempt enter on_success get_current_user decode_access_token is_revoked parse_role get_by_ids
    quantize total_price create advance next_uuid seed_catalog cached_response ◌+ℤ◌ scale call
    pay_and_store save_response sum add
serve-list_orders_example =
    serve-list_orders service (some "Bearer t1") (λ i j e. omega arith) (init 5 30000000) 0
      1700000000000000 ordered 1 20 customer_seven ordered-Reach refl refl (omega arith)
