-- ===== src/Routes/Auth.antt =====
-- src/infrastructure/api/routes/auth_routes.py.
pub mod SignOut
use coffee_shop_api.Prelude.{Option}
use coffee_shop_api.Schemas.{SignInRequest, token_response}
use coffee_shop_api.App.{App, Error, pure, raise, or_raise, catch, Uuids, ◌>>=◌, ◌>>◌}
use coffee_shop_api.Auth.{TokenData, Bcrypt, UuidText, Jose}
use coffee_shop_api.Api.{Content, Response, respond, http_error}
use coffee_shop_api.Repositories.{UserRepository, RevokedTokenRepository}
use coffee_shop_api.Routes.Users.{EmailText}
use coffee_shop_api.UseCases.Users

-- `except InvalidCredentialsError`
abbrev pub credentials_error : {A : Type 0} → Error → App A
credentials_error Error.invalid_credentials = raise (http_error 401 "Invalid email or password")
credentials_error e = raise e

-- POST /auth/sign-in
unfoldable pub sign_in :
    Uuids → Bcrypt → UuidText → Jose → EmailText → UserRepository → SignInRequest → App Response
sign_in uuids bcrypt texts jose emails user_repo body = do
  email ← or_raise (emails.validate body.email) (http_error 422 "Unprocessable Content")
  token ←
      catch (Users.sign_in uuids bcrypt texts jose user_repo email body.password) credentials_error
  pure (respond 200 (Content.access_token (token_response token)))

-- POST /auth/sign-out
unfoldable pub sign_out : App TokenData → RevokedTokenRepository → App Response
sign_out get_current_user revoked_repo = do
  current_user ← get_current_user
  revoked_repo.revoke current_user.jti current_user.expires_at
  pure (respond 204 Content.no_content)
