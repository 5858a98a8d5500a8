-- ===== src/Repositories/Idempotency.antt =====
-- src/infrastructure/database/repositories/idempotency_repository.py. The driver returns
-- `created_at` as a datetime or as its ISO text; both are the datetime here.
pub mod Expiry
use coffee_shop_api.Prelude.{
  ℕ, ◌+◌, ◌-◌, ◌*◌, String, Bool, true, false, not, Option, none, some, List, [], ◌∷◌, ◌++◌, ltb,
  str_eq, if◌then◌else◌, select, any,
}
use coffee_shop_api.Entities.{Datetime}
use coffee_shop_api.Schemas.{Body}
use coffee_shop_api.Database.{Database, IdempotencyKeyRow}
use coffee_shop_api.Engine.{Engine, fetch_one}
use coffee_shop_api.App.{
  World, App, Error, Result, ok, err, pure, gets, modify, raise_if, ◌>>=◌, ◌>>◌,
}
use coffee_shop_api.Repositories.{IdempotencyRepository, CachedResponse}

-- `timedelta(hours=24)`
abbrev pub idempotency_ttl : ℕ
idempotency_ttl = 24 * 3600 * 1000000

-- `datetime.now(timezone.utc) - IDEMPOTENCY_TTL`; times are counted from long before any row
abbrev pub cutoff : World → Datetime
cutoff w = w.now - idempotency_ttl

abbrev pub has_key : String → IdempotencyKeyRow → Bool
has_key k r = str_eq r.key k

abbrev pub cached : Datetime → Option IdempotencyKeyRow → Option CachedResponse
cached limit none = none
cached limit (some row) =
    if ltb row.created_at limit
    then none
    else some (record { status_code = row.status_code; body = row.response_body })

unfoldable pub get : Engine → String → App (Option CachedResponse)
get engine key = do
  row ← gets (λ w. fetch_one engine (has_key key) w.db.idempotency_keys)
  gets (λ w. cached (cutoff w) row)

abbrev pub key_row : Engine → World → String → ℕ → Body → IdempotencyKeyRow
key_row engine w key status_code body = record {
  key = key;
  status_code = status_code;
  response_body = body;
  created_at = engine.current_timestamp w.now;
}

-- `key` is the primary key
unfoldable pub save : Engine → String → ℕ → Body → App (Unit {0})
save engine key status_code body = do
  rows ← gets (λ w. w.db.idempotency_keys)
  raise_if (any (has_key key) rows) Error.integrity_error
  modify (λ w. record w {
    db = record w.db {
      idempotency_keys = w.db.idempotency_keys ++ key_row engine w key status_code body ∷ [];
    };
  })

unfoldable pub delete_expired : App (Unit {0})
delete_expired = modify (λ w. record w {
  db = record w.db {
    idempotency_keys = select (λ r. not (ltb r.created_at (cutoff w))) w.db.idempotency_keys;
  };
})

-- `IdempotencyRepository(database)`
abbrev pub idempotency_repository : Engine → IdempotencyRepository
idempotency_repository engine = record {
  get = get engine;
  save = save engine;
  delete_expired = delete_expired;
}
