-- ===== src/Tests/Replays.antt =====
-- A key that is used for a user and then for an order.
use coffee_shop_api.Prelude.{◌≡◌, refl, some, arith}
use coffee_shop_api.Schemas.{UserCreate, user_response, dump_user}
use coffee_shop_api.App.{World, ok, advance, next_uuid}
use coffee_shop_api.Api.{Content, Response, respond, cached_response, save_response}
use coffee_shop_api.Auth.{hash_password}
use coffee_shop_api.Repositories.Idempotency.{get, save}
use coffee_shop_api.Repositories.Orders.{order_repository}
use coffee_shop_api.Repositories.Products.{product_repository}
use coffee_shop_api.Repositories.Users.{create, user_repository}
use coffee_shop_api.Routes.Users.{EmailText, create_user, answer_user, sign_up}
use coffee_shop_api.Routes.Users.Replays.{post_user, replay_user}
use coffee_shop_api.Routes.Orders.Replays.{post}
use coffee_shop_api.Services.{payment_service}
use coffee_shop_api.UseCases.Users
use coffee_shop_api.Samples.{
  sample_engine, sample_uuids, sample_tenacity, flaky_api, shop, basket, alice,
}
use coffee_shop_api.Tests.Users.{plain_bcrypt, carol}

abbrev any_text : EmailText
any_text = record { validate = λ s. some s }

abbrev carols_body : UserCreate
carols_body = record { email = "c@shop.org"; password = "password" }

-- the same address again would be a 409
abbrev second_body : UserCreate
second_body = record { email = "c@shop.org"; password = "other password" }

abbrev welcome : Response
welcome = respond 201 (Content.json (dump_user (user_response carol)))

abbrev registered : World
registered =
    (post_user sample_engine sample_uuids plain_bcrypt (user_repository sample_engine) any_text
      carols_body (some "k9") shop).1

replay_user_example :
    (post_user sample_engine sample_uuids plain_bcrypt
        (user_repository sample_engine)
        any_text
        second_body
        (some "k9")
        (advance 60000000 registered)
      ≡ (ok welcome, advance 60000000 registered))
    × (post sample_engine sample_uuids
          (order_repository sample_engine)
          (product_repository sample_engine)
          (payment_service flaky_api sample_tenacity)
          alice
          basket
          (some "k9")
          (advance 60000000 registered)
        ≡ (ok welcome, advance 60000000 registered))
unfolding create_user answer_user sign_up cached_response get save save_response Users.create_user
    next_uuid hash_password create
replay_user_example =
    replay_user sample_engine sample_uuids plain_bcrypt (user_repository sample_engine) any_text
      (order_repository sample_engine) (product_repository sample_engine)
      (payment_service flaky_api sample_tenacity) alice basket carols_body second_body "k9"
      "c@shop.org" "c@shop.org" 60000000 shop registered welcome refl (omega arith) refl refl refl
      refl refl (omega arith) refl
