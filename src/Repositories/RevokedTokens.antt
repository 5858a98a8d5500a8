-- ===== src/Repositories/RevokedTokens.antt =====
-- src/infrastructure/database/repositories/revoked_token_repository.py. Dropping the time zone of
-- a datetime in UTC keeps the time.
use coffee_shop_api.Prelude.{
  String, Bool, true, false, not, Option, none, some, [], ◌∷◌, ◌++◌, ltb, str_eq, select, any,
}
use coffee_shop_api.Entities.{Datetime}
use coffee_shop_api.Database.{RevokedTokenRow}
use coffee_shop_api.Engine.{Engine, fetch_one}
use coffee_shop_api.App.{App, Error, gets, modify, raise_if, ◌>>=◌, ◌>>◌}
use coffee_shop_api.Repositories.{RevokedTokenRepository}

abbrev pub has_jti : String → RevokedTokenRow → Bool
has_jti jti r = str_eq r.jti jti

-- `jti` is the primary key
unfoldable pub revoke : String → Datetime → App (Unit {0})
revoke jti expires_at = do
  rows ← gets (λ w. w.db.revoked_tokens)
  raise_if (any (has_jti jti) rows) Error.integrity_error
  modify (λ w. record w {
    db = record w.db {
      revoked_tokens = w.db.revoked_tokens ++ record { jti = jti; expires_at = expires_at } ∷ [];
    };
  })

-- `row is not None`
abbrev is_found : Option RevokedTokenRow → Bool
is_found none = false
is_found (some _) = true

unfoldable pub is_revoked : Engine → String → App Bool
is_revoked engine jti = gets (λ w. is_found (fetch_one engine (has_jti jti) w.db.revoked_tokens))

unfoldable pub delete_expired : App (Unit {0})
delete_expired = modify (λ w. record w {
  db = record w.db {
    revoked_tokens = select (λ r. not (ltb r.expires_at w.now)) w.db.revoked_tokens;
  };
})

-- `RevokedTokenRepository(database)`
abbrev pub revoked_token_repository : Engine → RevokedTokenRepository
revoked_token_repository engine = record {
  revoke = revoke;
  is_revoked = is_revoked engine;
  delete_expired = delete_expired;
}
