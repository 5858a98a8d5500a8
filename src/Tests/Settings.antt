-- ===== src/Tests/Settings.antt =====
-- The settings of docker-compose.yml, and of no environment at all.
use coffee_shop_api.Prelude.{
  ◌≡◌, refl, String, true, Option, none, some, [], ◌∷◌, str_eq, if◌then◌else◌,
}
use coffee_shop_api.Prelude.Int.{pos}
use coffee_shop_api.Breaker.{init}
use coffee_shop_api.Settings.{Parsers, with_numbers, load, warns, payment_circuit_breaker}
use coffee_shop_api.Migrations.Environment.{run_env, ini_url, databases, run_env-databases}

-- a parser that knows one number
abbrev sixty : Parsers
sixty = record { integer = λ s. if str_eq s "60" then some (pos 60) else none; seconds = λ s. none }

abbrev no_variables : String → Option String
no_variables name = none

abbrev compose : String → Option String
compose name =
    if str_eq name "COFFEE_SHOP_DATABASE_URL"
    then some "sqlite+aiosqlite:////app/db/coffee_shop.db"
    else none

defaults :
    load sixty no_variables ≡ some (with_numbers sixty no_variables (pos 60) (pos 5) (pos 30000000))
unfolding load
defaults = refl

default_secret : warns (with_numbers sixty no_variables (pos 60) (pos 5) (pos 30000000)) ≡ true
default_secret = refl

default_breaker :
    payment_circuit_breaker (with_numbers sixty no_variables (pos 60) (pos 5) (pos 30000000))
    ≡ init 5 30000000
default_breaker = refl

not_a_number :
    load sixty
      (λ name. if str_eq name "COFFEE_SHOP_JWT_EXPIRATION_MINUTES" then some "an hour" else none)
    ≡ none
unfolding load
not_a_number = refl

run_env-databases_example :
    databases (run_env compose ini_url true) ≡ "sqlite:////app/db/coffee_shop.db" ∷ []
unfolding load
run_env-databases_example =
    run_env-databases sixty compose compose
      (with_numbers sixty compose (pos 60) (pos 5) (pos 30000000)) true refl refl
