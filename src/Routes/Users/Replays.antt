-- ===== src/Routes/Users/Replays.antt =====
-- POST /users/ with an Idempotency-Key.
use Prim.Native.String.{count}
use coffee_shop_api.Prelude.{
  ℕ, ◌+◌, ◌≤◌, ◌≡◌, refl, sym, ◌∙◌, String, false, Option, none, some, ltb, any,
}
use coffee_shop_api.Schemas.{UserCreate, OrderCreate, user_response, dump_user}
use coffee_shop_api.Engine.{Engine}
use coffee_shop_api.App.{World, App, ok, Uuids, advance, ◌>>=◌, catch, bind-ok}
use coffee_shop_api.Auth.{TokenData, Bcrypt}
use coffee_shop_api.Api.{Content, Response, respond, truthy, cached_response, save_response}
use coffee_shop_api.Repositories.{
  OrderRepository, ProductRepository, UserRepository, CachedResponse, PaymentService,
}
use coffee_shop_api.Repositories.Idempotency.{idempotency_ttl, has_key, get, idempotency_repository}
use coffee_shop_api.Repositories.Idempotency.Expiry.{saved, get-absent}
use coffee_shop_api.Routes.Keys.{answer_with, cached_response-get, answered, found_after}
use coffee_shop_api.Routes.Orders.Replays.{post, post_hit}
use coffee_shop_api.Routes.Users.{EmailText, create_user, sign_up, answer_user, duplicate_error}
use coffee_shop_api.UseCases.Users

module _ (engine : Engine) (uuids : Uuids) (bcrypt : Bcrypt) (users : UserRepository)
    (emails : EmailText) where
  -- POST /users/
  abbrev pub post_user : UserCreate → Option String → App Response
  post_user = create_user uuids bcrypt users (idempotency_repository engine) emails

  -- the handler once the body is valid
  abbrev keyed : String → String → String → App Response
  keyed email password key =
      cached_response (idempotency_repository engine) (some key)
      >>= answer_user uuids bcrypt users (idempotency_repository engine) email password (some key)

  post_user-keyed :
      (body : UserCreate) (key email : String) (w : World)
      → truthy (some key) ≡ some key
      → emails.validate body.email ≡ some email
      → ltb (count body.password) 8 ≡ false
      → post_user body (some key) w ≡ keyed email body.password key w
  unfolding create_user
  post_user-keyed body key email w given valid long = rw (given, valid, long) refl

  keyed-hit :
      (email password key : String) (c : CachedResponse) (w : World)
      → count key ≤ 128
      → get engine key w ≡ (ok (some c), w)
      → keyed email password key w ≡ (ok (respond c.status_code (Content.json c.body)), w)
  unfolding answer_user
  keyed-hit email password key c w short hit =
      bind-ok (cached_response (idempotency_repository engine) (some key))
        (answer_user uuids bcrypt users (idempotency_repository engine) email password (some key)) w
        (some c) w (cached_response-get engine key w short ∙ hit)

  keyed-miss :
      (email password key : String) (w : World)
      → count key ≤ 128
      → get engine key w ≡ (ok none, w)
      → keyed email password key w
        ≡ (catch (Users.create_user uuids bcrypt users email password) duplicate_error
              >>= answer_with (λ user. dump_user (user_response user)) engine key)
            w
  unfolding answer_user sign_up save_response
  keyed-miss email password key w short miss =
      bind-ok (cached_response (idempotency_repository engine) (some key))
        (answer_user uuids bcrypt users (idempotency_repository engine) email password (some key)) w
        none w (cached_response-get engine key w short ∙ miss)

  -- Let a POST /users/ with a new Idempotency-Key, neither empty nor of more than 128 characters,
  -- and a valid body return a response. Any POST /users/ with the same key and a valid body in the
  -- next 24 hours, less a second, returns the same response and changes nothing: no second user.
  -- And so does any POST /orders/ with this key, since the keys of both routes are one table: it is
  -- answered with the user, and no order is made. This holds whatever the repositories of users,
  -- orders and products and the payment service do.
  pub replay_user :
      (orders : OrderRepository) (products : ProductRepository) (payments : PaymentService)
      (customer : TokenData) (basket : OrderCreate) (body body' : UserCreate)
      (key email email' : String) (later : ℕ) (w w' : World) (r : Response)
      → truthy (some key) ≡ some key
      → count key ≤ 128
      → emails.validate body.email ≡ some email
      → ltb (count body.password) 8 ≡ false
      → emails.validate body'.email ≡ some email'
      → ltb (count body'.password) 8 ≡ false
      → any (has_key key) w.db.idempotency_keys ≡ false
      → later + 1000000 ≤ idempotency_ttl
      → post_user body (some key) w ≡ (ok r, w')
      → (post_user body' (some key) (advance later w') ≡ (ok r, advance later w'))
        × (post engine uuids orders products payments customer basket (some key) (advance later w')
            ≡ (ok r, advance later w'))
  replay_user orders products payments customer basket body body' key email email' later w w' r
        given short valid long valid' long' new soon first =
      let m = catch (Users.create_user uuids bcrypt users email body.password) duplicate_error in
      let (u, b, fresh, same_r, same_w) =
        answered engine (λ user. dump_user (user_response user)) key (m w) w w' r
          (sym (
              post_user-keyed body key email w given valid long
              ∙ keyed-miss email body.password key w short (get-absent engine key w new))
            ∙ first) in
      let hit = found_after engine key b later u soon fresh in
      let v = advance later (saved engine key 201 b u) in
      let c : CachedResponse = record { status_code = 201; body = b } in
      rw (same_r, same_w)
        (
          post_user-keyed body' key email' v given valid' long'
              ∙ keyed-hit email' body'.password key c v short hit,
          post_hit engine uuids orders products payments customer basket key c v short hit,
        )
