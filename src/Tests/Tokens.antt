-- ===== src/Tests/Tokens.antt =====
-- Signing out.
use coffee_shop_api.Prelude.{
  ◌≡◌, refl, String, true, ◌&&◌, none, some, [], ◌∷◌, leb, str_eq, if◌then◌else◌, arith,
}
use coffee_shop_api.Entities.{Datetime}
use coffee_shop_api.Database.{RevokedTokenRow}
use coffee_shop_api.Tasks.{purge_loop}
use coffee_shop_api.Tasks.Purges.{is_revoked-purge_loop}
use coffee_shop_api.Repositories.Idempotency.{idempotency_repository}
use coffee_shop_api.App.{World, App, Error, Detail, ok, err, advance}
use coffee_shop_api.Api.{Content, respond, get_current_user}
use coffee_shop_api.Auth.{UuidText, Jose, Payload, TokenData, decode_access_token}
use coffee_shop_api.Repositories.RevokedTokens.{revoke, is_revoked, revoked_token_repository}
use coffee_shop_api.Repositories.Users.{parse_role}
use coffee_shop_api.Routes.Auth.{sign_out}
use coffee_shop_api.Routes.Auth.SignOut.{signed_out}
use coffee_shop_api.Samples.{sample_engine, shop}

abbrev pub payload : Payload
payload = record { sub = some "u7"; role = some "CUSTOMER"; exp = some 1700003600; jti = some "j1" }

-- one token, and one user
abbrev pub one_token : Jose
one_token = record {
  encode = λ claims. "t1";
  decode =
      λ now token. if str_eq token "t1" && leb now 1700003600000000 then some payload else none;
}

abbrev pub one_user : UuidText
one_user = record { str = λ k. "u7"; parse = λ s. some 7 }

one_token-stable :
    (t t' : Datetime) (token : String) (p p' : Payload)
    → one_token.decode t token ≡ some p
    → one_token.decode t' token ≡ some p'
    → p ≡ p'
one_token-stable t t' token p p' h h' = ground arith

abbrev with_token : App TokenData
with_token =
    get_current_user one_user one_token (revoked_token_repository sample_engine) (some "t1")

signed_out_example :
    let w = (sign_out with_token (revoked_token_repository sample_engine) shop).1 in
    (d : Detail) × (with_token (advance 60000000 w) ≡ (err (Error.http 401 d), advance 60000000 w))
unfolding sign_out get_current_user decode_access_token is_revoked revoke parse_role
signed_out_example =
    signed_out sample_engine one_user one_token one_token-stable "t1" 60000000 shop
      (sign_out with_token (revoked_token_repository sample_engine) shop).1
      (respond 204 Content.no_content) refl

abbrev revoked_row : RevokedTokenRow
revoked_row = record { jti = "j1"; expires_at = 1700007200000000 }

abbrev after_sign_out : World
after_sign_out = record shop { db = record shop.db { revoked_tokens = revoked_row ∷ [] } }

is_revoked-purge_loop_example :
    let (o, w) =
      purge_loop
        (idempotency_repository sample_engine)
        (revoked_token_repository sample_engine)
        2
        after_sign_out in
    (o ≡ ok tt) × (is_revoked sample_engine "j1" w ≡ (ok true, w))
is_revoked-purge_loop_example =
    is_revoked-purge_loop sample_engine "j1" revoked_row 2 after_sign_out refl (omega arith)
