-- ===== src/Settings.antt =====
-- src/infrastructure/settings.py, and what the other modules make of the settings: the breaker of
-- src/infrastructure/services/circuit_breaker.py. How pydantic reads numbers and
-- looks a variable up is a parameter.
use coffee_shop_api.Prelude.{String, Bool, Option, none, some, str_eq}
use coffee_shop_api.Prelude.Int.{ℤ, pos, pos_part}
use coffee_shop_api.Auth.{jwt_expiration_minutes}
use coffee_shop_api.Breaker.{CircuitBreaker, init}

-- the fields in their order; the seconds are counted in microseconds
pub record Settings : Type 0 where
  pub database_url : String
  pub payment_url : String
  pub notification_url : String
  pub redis_url : String
  pub jwt_secret_key : String
  pub jwt_algorithm : String
  pub jwt_expiration_minutes : ℤ
  pub payment_circuit_breaker_threshold : ℤ
  pub payment_circuit_breaker_recovery_seconds : ℤ

-- How pydantic reads an int and a number of seconds; `none` is a ValidationError.
pub record Parsers : Type 0 where
  pub integer : String → Option ℤ
  pub seconds : String → Option ℤ

-- `_DEFAULT_JWT_SECRET`
abbrev pub default_jwt_secret : String
default_jwt_secret = "change-me-in-production"

abbrev pub default_database_url : String
default_database_url = "sqlite+aiosqlite:///./coffee_shop.db"

-- a field of text: the variable, or the default where it is not set
abbrev pub text_field : Option String → String → String
text_field none default = default
text_field (some value) default = value

-- a field that is read
abbrev pub number_field : (String → Option ℤ) → Option String → ℤ → Option ℤ
number_field parse none default = some default
number_field parse (some value) default = parse value

-- `environ` is the look-up of pydantic-settings, which takes a variable whatever the case of its
-- letters.
module _ (parsers : Parsers) (environ : String → Option String) where
  abbrev pub with_numbers : ℤ → ℤ → ℤ → Settings
  with_numbers minutes threshold recovery = record {
    database_url = text_field (environ "COFFEE_SHOP_DATABASE_URL") default_database_url;
    payment_url =
        text_field (environ "COFFEE_SHOP_PAYMENT_URL") "https://challenge.trio.dev/api/v1/payment";
    notification_url =
        text_field (environ "COFFEE_SHOP_NOTIFICATION_URL")
          "https://challenge.trio.dev/api/v1/notification";
    redis_url = text_field (environ "COFFEE_SHOP_REDIS_URL") "redis://localhost:6379";
    jwt_secret_key = text_field (environ "COFFEE_SHOP_JWT_SECRET_KEY") default_jwt_secret;
    jwt_algorithm = text_field (environ "COFFEE_SHOP_JWT_ALGORITHM") "HS256";
    jwt_expiration_minutes = minutes;
    payment_circuit_breaker_threshold = threshold;
    payment_circuit_breaker_recovery_seconds = recovery;
  }

  -- all fields are read before a ValidationError is raised
  abbrev pub validated : Option ℤ → Option ℤ → Option ℤ → Option Settings
  validated (some minutes) (some threshold) (some recovery) =
      some (with_numbers minutes threshold recovery)
  validated _ _ _ = none

  -- `Settings()`, from the environment
  unfoldable pub load : Option Settings
  load =
      validated
        (number_field parsers.integer (environ "COFFEE_SHOP_JWT_EXPIRATION_MINUTES")
          (pos jwt_expiration_minutes))
        (number_field parsers.integer (environ "COFFEE_SHOP_PAYMENT_CIRCUIT_BREAKER_THRESHOLD")
          (pos 5))
        (number_field parsers.seconds
          (environ "COFFEE_SHOP_PAYMENT_CIRCUIT_BREAKER_RECOVERY_SECONDS") (pos 30000000))

-- `warn_default_jwt_secret`: whether it logs the warning
abbrev pub warns : Settings → Bool
warns settings = str_eq settings.jwt_secret_key default_jwt_secret

-- `payment_circuit_breaker`; a count and an elapsed time are never below 0, so a negative bound is
-- as good as 0
abbrev pub payment_circuit_breaker : Settings → CircuitBreaker
payment_circuit_breaker settings =
    init (pos_part settings.payment_circuit_breaker_threshold)
      (pos_part settings.payment_circuit_breaker_recovery_seconds)
