-- ===== src/Tests/Users.antt =====
-- Users.
use text.Mathlib.TextPositions.{eq_refl}
use coffee_shop_api.Prelude.{◌≡◌, refl, false, any, str_eq}
use coffee_shop_api.Entities.{Role, User}
use coffee_shop_api.App.{next_uuid}
use coffee_shop_api.Auth.{Bcrypt, hash_password, create_access_token}
use coffee_shop_api.Repositories.Users.{clashes, create, user_repository}
use coffee_shop_api.Repositories.Users.Emails.{with_user}
use coffee_shop_api.Samples.{sample_engine, sample_uuids, shop}
use coffee_shop_api.Tests.Tokens.{one_token, one_user}
use coffee_shop_api.UseCases.Users
use coffee_shop_api.UseCases.Users.SignIn.{new_user, drawn, sign_in-create_user}

-- hashes that hide nothing
abbrev pub plain_bcrypt : Bcrypt
plain_bcrypt = record {
  hashpw = λ n plain. plain;
  checkpw = λ plain hashed. str_eq plain hashed;
  check_hash = λ n plain. eq_refl plain;
}

abbrev pub carol : User
carol = new_user sample_engine sample_uuids plain_bcrypt "c@shop.org" "password" shop

sign_in-create_user_example :
    let w =
      with_user carol
        (drawn sample_engine sample_uuids plain_bcrypt "c@shop.org" "password" shop) in
    (any (clashes carol) shop.db.users ≡ false)
    × (carol ≡ carol)
    × (Users.sign_in sample_uuids plain_bcrypt one_user one_token
          (user_repository sample_engine)
          "c@shop.org"
          "password"
          w
        ≡ create_access_token one_user one_token sample_uuids 1000 Role.customer w)
unfolding Users.create_user next_uuid hash_password create
sign_in-create_user_example =
    sign_in-create_user sample_engine sample_uuids plain_bcrypt "c@shop.org" "password" one_user
      one_token carol shop
      (with_user carol (drawn sample_engine sample_uuids plain_bcrypt "c@shop.org" "password" shop))
      refl
