-- ===== src/System/Tokens.antt =====
-- The way of a token, from `create_access_token` to `get_current_user`.
use mathlib.Core.Path.{subst}
use coffee_shop_api.Prelude.{ℕ, ◌+◌, ◌*◌, ◌≤◌, ◌≡◌, refl, ap, ◌∙◌, String, false, some, arith}
use coffee_shop_api.Entities.{Uuid, Datetime, Role, role_value}
use coffee_shop_api.App.{
  World, Uuids, ok, advance, bind-ok, catch-ok, catch, raise_if, pure, next_uuid, ◌>>=◌, ◌>>◌,
}
use coffee_shop_api.Engine.{Engine}
use coffee_shop_api.Auth.{
  UuidText, Claims, Jose, TokenData, payload_of, seconds, jwt_expiration_minutes,
  create_access_token, decode_access_token,
}
use coffee_shop_api.Api.{http_error, get_current_user, check_token, as_unauthorized}
use coffee_shop_api.Repositories.Users.Emails.{parse-role_value}
use coffee_shop_api.Repositories.RevokedTokens.{is_revoked, revoked_token_repository}

-- the claims that are signed at `w`
abbrev pub claims : UuidText → Uuids → Uuid → Role → World → Claims
claims texts uuids user_id role w = record {
  sub = texts.str user_id;
  role = role_value role;
  exp = w.now + jwt_expiration_minutes * 60 * 1000000;
  jti = texts.str (uuids.uuid4 w.uuids);
}

-- what is read from them
abbrev token_data : UuidText → Uuids → Uuid → Role → World → TokenData
token_data texts uuids user_id role w = record {
  user_id = user_id;
  role = role;
  jti = texts.str (uuids.uuid4 w.uuids);
  expires_at = seconds (w.now + jwt_expiration_minutes * 60 * 1000000) * 1000000;
}

module _ (engine : Engine) (texts : UuidText) (jose : Jose) where
  accepted-guard :
      (token : String) (td : TokenData) (v : World)
      → decode_access_token texts jose token v ≡ (ok td, v)
      → is_revoked engine td.jti v ≡ (ok false, v)
      → get_current_user texts jose (revoked_token_repository engine) (some token) v ≡ (ok td, v)
  unfolding get_current_user check_token
  accepted-guard token td v decoded live =
      bind-ok (catch (decode_access_token texts jose token) as_unauthorized)
        (λ user. do
          revoked ← is_revoked engine user.jti
          raise_if revoked (http_error 401 "Token has been revoked.")
          pure user)
        v td v (catch-ok (decode_access_token texts jose token) as_unauthorized v td v decoded)
      ∙ bind-ok (is_revoked engine td.jti)
          (λ revoked. raise_if revoked (http_error 401 "Token has been revoked.") >> pure td) v
          false v live

  module _ (uuids : Uuids) (user_id : Uuid) (role : Role) (w : World)
      (parse-str : texts.parse (texts.str user_id) ≡ some user_id)
      (decode-encode : (t : Datetime)
        → seconds t ≤ seconds (claims texts uuids user_id role w).exp
        → jose.decode t (jose.encode (claims texts uuids user_id role w))
          ≡ some (payload_of (claims texts uuids user_id role w))) where
    decode-claims :
        (v : World)
        → seconds v.now ≤ seconds (w.now + jwt_expiration_minutes * 60 * 1000000)
        → decode_access_token texts jose (jose.encode (claims texts uuids user_id role w)) v
          ≡ (ok (token_data texts uuids user_id role w), v)
    unfolding decode_access_token
    decode-claims v alive = rw (decode-encode v.now alive, parse-str, parse-role_value role) refl

    -- Let `UUID(str(user_id))` be the user's UUID, and let jose decode what it has encoded from the
    -- claims of the token as long as `exp` has not passed. A token that was handed out is accepted
    -- for an hour, unless it was revoked: the request that brings it is that user's, with that role,
    -- the token's own `jti` and the time of expiry cut to seconds, and nothing changes.
    pub get_current_user-create_access_token :
        (u : World) (token : String) (later : ℕ)
        → create_access_token texts jose uuids user_id role w ≡ (ok token, u)
        → later ≤ jwt_expiration_minutes * 60 * 1000000
        → is_revoked engine (texts.str (uuids.uuid4 w.uuids)) (advance later u)
          ≡ (ok false, advance later u)
        → get_current_user texts jose
            (revoked_token_repository engine)
            (some token)
            (advance later u)
          ≡ (
            ok (record {
              user_id = user_id;
              role = role;
              jti = texts.str (uuids.uuid4 w.uuids);
              expires_at = seconds (w.now + jwt_expiration_minutes * 60 * 1000000) * 1000000;
            }),
            advance later u,
          )
    unfolding create_access_token advance next_uuid
    get_current_user-create_access_token u token later made soon live =
        let v = advance later u in
        let td = token_data texts uuids user_id role w in
        let same_token : jose.encode (claims texts uuids user_id role w) ≡ token = cc in
        let made_world : record w { uuids = w.uuids + 1 } ≡ u = cc in
        let same_now : w.now ≡ u.now = ap (λ (x : World). x.now) made_world in
        let alive : seconds v.now ≤ seconds (w.now + jwt_expiration_minutes * 60 * 1000000) =
          omega arith in
        accepted-guard token td v
          (subst (λ x. decode_access_token texts jose x v ≡ (ok td, v)) same_token
            (decode-claims v alive))
          live
