-- ===== src/Routes/Users.antt =====
-- src/infrastructure/api/routes/user_routes.py.
pub mod Replays
use Prim.Native.String.{count}
use coffee_shop_api.Prelude.{String, Option, none, some, ltb}
use coffee_shop_api.Entities.{Uuid, User}
use coffee_shop_api.Schemas.{UserCreate, user_response, dump_user}
use coffee_shop_api.App.{App, Error, pure, raise, or_raise, catch, raise_if, Uuids, ◌>>=◌, ◌>>◌}
use coffee_shop_api.Auth.{TokenData, Bcrypt}
use coffee_shop_api.Api.{
  Content, Response, respond, http_error, truthy, cached_response, save_response,
}
use coffee_shop_api.Repositories.{UserRepository, IdempotencyRepository, CachedResponse}
use coffee_shop_api.UseCases.Users

-- pydantic's `EmailStr`: the normalised address, or a validation error
pub record EmailText : Type 0 where
  pub validate : String → Option String

-- `except DuplicateEmailError`
abbrev pub duplicate_error : {A : Type 0} → Error → App A
duplicate_error Error.duplicate_email =
    raise (http_error 409 "A user with this email already exists")
duplicate_error e = raise e

abbrev invalid_body : Error
invalid_body = http_error 422 "Unprocessable Content"

module _ (uuids : Uuids) (bcrypt : Bcrypt) (user_repo : UserRepository)
    (idempotency_repo : IdempotencyRepository) where
  unfoldable pub sign_up : String → String → Option String → App Response
  sign_up email password key = do
    user ← catch (Users.create_user uuids bcrypt user_repo email password) duplicate_error
    save_response idempotency_repo key (dump_user (user_response user))
    pure (respond 201 (Content.json (dump_user (user_response user))))

  unfoldable pub answer_user :
      String → String → Option String → Option CachedResponse → App Response
  answer_user email password key (some c) = pure (respond c.status_code (Content.json c.body))
  answer_user email password key none = sign_up email password key

  -- POST /users/
  unfoldable pub create_user : EmailText → UserCreate → Option String → App Response
  unfolding answer_user sign_up
  create_user emails body idempotency_key = do
    email ← or_raise (emails.validate body.email) invalid_body
    raise_if (ltb (count body.password) 8) invalid_body
    cached ← cached_response idempotency_repo (truthy idempotency_key)
    answer_user email body.password (truthy idempotency_key) cached

unfoldable pub found_response : Option User → App Response
found_response none = raise (http_error 404 "User not found")
found_response (some user) = pure (respond 200 (Content.json (dump_user (user_response user))))

-- GET /users/{user_id}: any signed-in user may ask for any user
unfoldable pub get_user : App TokenData → UserRepository → Uuid → App Response
unfolding found_response
get_user get_current_user repo user_id = do
  get_current_user
  user ← Users.get_user repo user_id
  found_response user
