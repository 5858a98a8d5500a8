-- ===== src/Auth.antt =====
-- src/infrastructure/auth: tokens and passwords. python-jose and bcrypt are parameters, and so are
-- `str(uuid)` and `UUID(text)`.
use coffee_shop_api.Prelude.{ℕ, ◌+◌, ◌*◌, ◌/◌, ◌≡◌, String, Bool, true, Option, some}
use coffee_shop_api.Entities.{Uuid, Datetime, Role, role_value}
use coffee_shop_api.App.{App, Error, ok, pure, gets, or_raise, Uuids, next_uuid, ◌>>=◌}
use coffee_shop_api.Repositories.Users.{parse_role}

pub record UuidText : Type 0 where
  pub str : Uuid → String
  pub parse : String → Option Uuid

-- The claims that `create_access_token` signs; `exp` is a datetime.
pub record Claims : Type 0 where
  pub sub : String
  pub role : String
  pub exp : Datetime
  pub jti : String

-- A decoded payload: any claim may be missing, and `exp` is in whole seconds.
pub record Payload : Type 0 where
  pub sub : Option String
  pub role : Option String
  pub exp : Option ℕ
  pub jti : Option String

abbrev pub seconds : Datetime → ℕ
seconds t = t / 1000000

abbrev pub payload_of : Claims → Payload
payload_of c = record {
  sub = some c.sub;
  role = some c.role;
  exp = some (seconds c.exp);
  jti = some c.jti;
}

-- `jwt.encode` and `jwt.decode` with the secret and the algorithm of the settings, at a time.
-- `none` is a JWTError: a bad signature, no token, or an `exp` that has passed.
pub record Jose : Type 0 where
  pub encode : Claims → String
  pub decode : Datetime → String → Option Payload

pub record TokenData : Type 0 where
  pub user_id : Uuid
  pub role : Role
  pub jti : String
  pub expires_at : Datetime

-- `bcrypt.hashpw(…, bcrypt.gensalt())` with the salt of the n-th call, and `bcrypt.checkpw`
pub record Bcrypt : Type 0 where
  pub hashpw : ℕ → String → String
  pub checkpw : String → String → Bool
  pub check_hash : (n : ℕ) (plain : String) → checkpw plain (hashpw n plain) ≡ true

-- `DUMMY_HASH`, made when the module is loaded
abbrev pub dummy_hash : Bcrypt → String
dummy_hash bcrypt = bcrypt.hashpw 0 "dummy"

-- `hash_password`; the salts are counted with the UUIDs, the other draws of randomness
unfoldable pub hash_password : Bcrypt → String → App String
hash_password bcrypt plain w =
    (ok (bcrypt.hashpw (w.uuids + 1) plain), record w { uuids = w.uuids + 1 })

abbrev pub verify_password : Bcrypt → String → String → Bool
verify_password bcrypt plain hashed = bcrypt.checkpw plain hashed

-- `settings.jwt_expiration_minutes`, 60 by default
abbrev pub jwt_expiration_minutes : ℕ
jwt_expiration_minutes = 60

module _ (texts : UuidText) (jose : Jose) where
  unfoldable pub create_access_token : Uuids → Uuid → Role → App String
  unfolding next_uuid
  create_access_token uuids user_id role = do
    jti ← next_uuid uuids
    gets (λ w. jose.encode (record {
      sub = texts.str user_id;
      role = role_value role;
      exp = w.now + jwt_expiration_minutes * 60 * 1000000;
      jti = texts.str jti;
    }))

  -- the claims in the order in which `TokenData(…)` reads them; each KeyError and ValueError is
  -- caught with the JWTError
  unfoldable pub decode_access_token : String → App TokenData
  decode_access_token token = do
    decoded ← gets (λ w. jose.decode w.now token)
    payload ← or_raise decoded Error.invalid_credentials
    sub ← or_raise payload.sub Error.invalid_credentials
    user_id ← or_raise (texts.parse sub) Error.invalid_credentials
    role_text ← or_raise payload.role Error.invalid_credentials
    role ← or_raise (parse_role role_text) Error.invalid_credentials
    jti ← or_raise payload.jti Error.invalid_credentials
    exp ← or_raise payload.exp Error.invalid_credentials
    pure (record { user_id = user_id; role = role; jti = jti; expires_at = exp * 1000000 })
