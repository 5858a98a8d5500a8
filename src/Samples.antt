-- ===== src/Samples.antt =====
-- A small shop to run the model on: concrete parameters, and a process with two products.
use mathlib.Core.List.Permᴰ
use coffee_shop_api.Prelude.{
  false, ℕ, zero, suc, ◌+◌, ◌*◌, ◌/◌, refl, Bool, true, some, [], ◌∷◌, arith, ◌==◌, if◌then◌else◌,
}
use coffee_shop_api.Prelude.Int.{pos}
use coffee_shop_api.Decimal.Rounding.{cents}
use coffee_shop_api.Entities.{Role, OrderStatus}
use coffee_shop_api.Breaker.{init}
use coffee_shop_api.Schemas.{Body, OrderCreate, dump_order, order_response}
use coffee_shop_api.Database.{ProductRow, OrderRow, IdempotencyKeyRow, empty}
use coffee_shop_api.Engine.{Engine}
use coffee_shop_api.App.{World, App, Error, Uuids}
use coffee_shop_api.Auth.{TokenData}
use coffee_shop_api.Payment.{Answer, PaymentApi, Tenacity, again}
use coffee_shop_api.Services.{Redis}

-- An engine that returns rows in the order of insertion.
abbrev pub sample_engine : Engine
sample_engine = record {
  scan = λ R rows. rows;
  scan_perm = λ R rows. Permᴰ.refl rows;
  current_timestamp = λ now. (now / 1000000) * 1000000;
  timestamp_le = λ now. omega arith;
  timestamp_near = λ now. omega arith;
}

-- The attempts in turn, with a second between them.
abbrev pub retry_in_turn : (Error → Bool) → ℕ → App (Unit {0}) → App (Unit {0})
retry_in_turn p zero m w = m w
retry_in_turn p (suc zero) m w = m w
retry_in_turn p (suc (suc n)) m w = again p 1000000 (retry_in_turn p (suc n) m) (m w)

abbrev pub sample_tenacity : Tenacity
sample_tenacity = record {
  retry = retry_in_turn;
  delay = λ n. 1000000;
  last = λ p m w. refl;
  more = λ p n m w. refl;
}

-- The first POST is charged and gets no answer, and the later ones are confirmed.
abbrev pub flaky_api : PaymentApi
flaky_api = record {
  answer = λ n. if n == 0 then Answer.request_failed else Answer.response 200 true;
  elapsed = λ n. 20000;
  charged = λ n. true;
  confirmed_charged = λ n h. refl;
}

abbrev pub down_api : PaymentApi
down_api = record {
  answer = λ n. Answer.response 503 true;
  elapsed = λ n. 20000;
  charged = λ n. false;
  confirmed_charged = λ n h. h;
}

abbrev pub sample_redis : Redis
sample_redis = record { accepts = λ n. true }

abbrev pub sample_uuids : Uuids
sample_uuids = record { uuid4 = λ n. 1000 + n }

abbrev pub espresso : ProductRow
espresso = record {
  id = 1;
  name = "Espresso";
  base_price = cents (pos 250);
  variation = "Single Shot";
  price_change = cents (pos 0);
}

abbrev pub latte : ProductRow
latte = record {
  id = 2;
  name = "Latte";
  base_price = cents (pos 400);
  variation = "Vanilla";
  price_change = cents (pos 30);
}

abbrev pub shop : World
shop = record {
  db = record empty { products = espresso ∷ latte ∷ [] };
  breaker = init 2 30000000;
  monotonic = 5000;
  now = 1700000000000000;
  posts = [];
  stream = [];
  uuids = 0;
  xadds = 0;
}

abbrev pub basket : OrderCreate
basket = record { product_ids = 2 ∷ 1 ∷ [] }

abbrev pub alice : TokenData
alice = record { user_id = 7; role = Role.customer; jti = "a"; expires_at = 1700000900000000 }

abbrev pub bob : TokenData
bob = record { user_id = 8; role = Role.customer; jti = "b"; expires_at = 1700000900000000 }

abbrev pub order_body : Body
order_body = dump_order (
    order_response (record {
      id = 5;
      status = OrderStatus.waiting;
      total_price = cents (pos 250);
      user_id = 7;
      product_ids = 1 ∷ [];
    }))

-- a key that was saved two days ago
abbrev pub old_key : IdempotencyKeyRow
old_key = record {
  key = "k1";
  status_code = 201;
  response_body = order_body;
  created_at = 1699820000000000;
}

abbrev pub shop_with_old_key : World
shop_with_old_key = record shop { db = record shop.db { idempotency_keys = old_key ∷ [] } }

abbrev pub waiting_order : OrderRow
waiting_order = record {
  id = 5;
  status = "WAITING";
  total_price = cents (pos 250);
  created_at = 1700000000000000;
  user_id = some 7;
}

abbrev pub shop_with_order : World
shop_with_order = record shop { db = record shop.db { orders = waiting_order ∷ [] } }
