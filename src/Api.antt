-- ===== src/Api.antt =====
-- src/infrastructure/api: what a request brings, what a response holds, the dependencies of the
-- routes and the middleware. FastAPI turns an HTTPException into a response with its status and
-- detail, and any other exception into a 500.
use Prim.Native.String.{len, slice, count}
use text.Mathlib.Text.{starts_with}
use coffee_shop_api.Prelude.{
  ℕ, ◌≡◌, ap, String, Bool, true, false, not, Option, none, some, ltb, str_eq, if◌then◌else◌,
}
use coffee_shop_api.Entities.{Role, eq_role}
use coffee_shop_api.Schemas.{Body, TokenResponse}
use coffee_shop_api.App.{
  World, App, Error, Detail, Result, ok, err, pure, raise, catch, raise_if, ◌>>=◌, ◌>>◌,
}
use coffee_shop_api.Auth.{UuidText, Jose, Payload, TokenData, decode_access_token}
use coffee_shop_api.Repositories.{RevokedTokenRepository, IdempotencyRepository, CachedResponse}
use coffee_shop_api.Repositories.Users.{parse_role}

pub data Content : Type 0 where
  json : Body → Content
  detail : Detail → Content
  access_token : TokenResponse → Content
  healthy no_content internal_error : Content

pub record Response : Type 0 where
  pub status_code : ℕ
  pub content : Content

abbrev pub respond : ℕ → Content → Response
respond status content = record { status_code = status; content = content }

abbrev pub http_error : ℕ → String → Error
http_error status s = Error.http status (Detail.text s)

-- The response to an exception.
abbrev pub error_response : Error → Response
error_response (Error.http status d) = respond status (Content.detail d)
error_response _ = respond 500 Content.internal_error

-- A handler as FastAPI runs it.
unfoldable pub run : App Response → World → Response × World
run handler w =
    let (r, w') = handler w in elim r [ ok a ↦ (a, w') | err e ↦ (error_response e, w') ]

-- `except InvalidCredentialsError`
abbrev pub as_unauthorized : {A : Type 0} → Error → App A
as_unauthorized Error.invalid_credentials = raise (http_error 401 "Invalid or expired token.")
as_unauthorized e = raise e

module _ (texts : UuidText) (jose : Jose) (revoked_repo : RevokedTokenRepository) where
  unfoldable pub check_token : String → App TokenData
  check_token token = do
    token_data ← catch (decode_access_token texts jose token) as_unauthorized
    is_revoked ← revoked_repo.is_revoked token_data.jti
    raise_if is_revoked (http_error 401 "Token has been revoked.")
    pure token_data

  -- `get_current_user`, from the token that HTTPBearer finds in the Authorization header
  unfoldable pub get_current_user : Option String → App TokenData
  unfolding check_token
  get_current_user none = raise (http_error 401 "Authentication required.")
  get_current_user (some token) = check_token token

-- `require_roles(role)`
unfoldable pub require_role : Role → TokenData → App TokenData
require_role role current_user = do
  raise_if (not (eq_role current_user.role role))
      (Error.http 403 (Detail.role_not_allowed current_user.role))
  pure current_user

-- The check that `RoleMiddleware` makes of the header, before any route: `none` lets the request
-- through.
abbrev has_role : Option Payload → Bool
has_role none = false
has_role (some payload) = elim payload.role [
  | none ↦ false
  | some s ↦ elim (parse_role s) [ none ↦ false | some r ↦ true ]
]

unfoldable pub check_header : Jose → World → String → Option Response
check_header jose w header =
    if str_eq header ""
    then none
    else if not (starts_with header "Bearer ")
    then some
        (respond 401 (Content.detail (Detail.text "Authorization header must use Bearer scheme.")))
    else if has_role (jose.decode w.now (slice header 7 (len header)))
    then none
    else some (respond 401 (Content.detail (Detail.text "Invalid or expired token.")))

unfoldable pub refused : Jose → World → Option String → Option Response
unfolding check_header
refused jose w none = none
refused jose w (some header) = check_header jose w header

-- `RoleMiddleware.dispatch`
unfoldable pub dispatch :
    Jose → Option String → (World → Response × World) → World → Response × World
unfolding refused
dispatch jose header call_next w = elim (refused jose w header) [
  | none ↦ call_next w
  | some response ↦ (response, w)
]

-- `if idempotency_key:` takes an empty header for none.
abbrev pub truthy : Option String → Option String
truthy none = none
truthy (some s) = if str_eq s "" then none else some s

abbrev pub key_too_long : Error
key_too_long = http_error 400 "Idempotency-Key must be 128 characters or fewer"

-- The first block of both handlers that take an Idempotency-Key: the response that is cached.
unfoldable pub cached_response : IdempotencyRepository → Option String → App (Option CachedResponse)
cached_response repo none = pure none
cached_response repo (some key) = do raise_if (ltb 128 (count key)) key_too_long; repo.get key

-- The last block: the response is saved under the key.
unfoldable pub save_response : IdempotencyRepository → Option String → Body → App (Unit {0})
save_response repo none body = pure tt
save_response repo (some key) body = repo.save key 201 body

pub run-ok :
    (handler : App Response) (r : Response) (w u : World)
    → handler w ≡ (ok r, u)
    → run handler w ≡ (r, u)
unfolding run
run-ok handler r w u h = ap (λ (p : Result Response × World). run (λ _. p) w) h

pub run-err :
    (handler : App Response) (e : Error) (w u : World)
    → handler w ≡ (err e, u)
    → run handler w ≡ (error_response e, u)
unfolding run
run-err handler e w u h = ap (λ (p : Result Response × World). run (λ _. p) w) h
