-- ===== src/Migrations/Environment.antt =====
-- src/alembic/env.py: on which database the migrations are run, as the list of calls that it makes.
use Prim.Native.String.{len, slice, ◌++◌ as ◌<>◌}
use text.Mathlib.Text.{find?}
use coffee_shop_api.Prelude.{
  ℕ, zero, suc, ◌+◌, ◌≡◌, refl, sym, ap, ◌∙◌, String, Bool, true, false, Option, none, some, List,
  [], ◌∷◌, ◌++◌, str_eq, if◌then◌else◌,
}
use coffee_shop_api.Prelude.Int.{ℤ}
use coffee_shop_api.Settings.{Settings, Parsers, text_field, default_database_url, validated, load}

-- `s.replace(t, "")`, from left to right, with at most `n` occurrences
abbrev pub without : ℕ → String → String → String
without zero t s = s
without (suc n) t s = elim (find? s t) [
  | none ↦ s
  | some i ↦ slice s 0 i <> without n t (slice s (i + len t) (len s))
]

-- `env_url.replace("+aiosqlite", "")`; no text has more occurrences than bytes
abbrev pub remove_driver : String → String
remove_driver url = without (len url) "+aiosqlite" url

-- `sqlalchemy.url` of alembic.ini
abbrev pub ini_url : String
ini_url = "sqlite:///./coffee_shop.db"

-- what env.py has Alembic and SQLAlchemy do
pub data Command : Type 0 where
  configure_url connect : String → Command
  configure_connection begin_transaction run_migrations end_transaction close : Command

-- `os.getenv` with the test for a text that is not empty
abbrev url_of : Option String → String → String
url_of none ini = ini
url_of (some env_url) ini = if str_eq env_url "" then ini else remove_driver env_url

module _ (getenv : String → Option String) (ini : String) where
  abbrev migrated : List Command
  migrated = Command.begin_transaction ∷ Command.run_migrations ∷ Command.end_transaction ∷ []

  unfoldable pub run_migrations_offline : List Command
  run_migrations_offline =
      Command.configure_url (url_of (getenv "COFFEE_SHOP_DATABASE_URL") ini) ∷ migrated

  unfoldable pub run_migrations_online : List Command
  run_migrations_online =
      Command.connect (url_of (getenv "COFFEE_SHOP_DATABASE_URL") ini)
      ∷ Command.configure_connection
      ∷ Command.begin_transaction
      ∷ Command.run_migrations
      ∷ Command.end_transaction
      ∷ Command.close
      ∷ []

  -- the module, with `context.is_offline_mode()`
  unfoldable pub run_env : Bool → List Command
  unfolding run_migrations_offline run_migrations_online
  run_env is_offline = if is_offline then run_migrations_offline else run_migrations_online

-- the one database that some commands name
abbrev pub named : Command → List String
named (Command.configure_url url) = url ∷ []
named (Command.connect url) = url ∷ []
named _ = []

abbrev pub databases : List Command → List String
databases [] = []
databases (c ∷ commands) = named c ++ databases commands

module _ (parsers : Parsers) (environ : String → Option String) where
  validated-database_url :
      (minutes threshold recovery : Option ℤ) (settings : Settings)
      → validated parsers environ minutes threshold recovery ≡ some settings
      → settings.database_url ≡ text_field (environ "COFFEE_SHOP_DATABASE_URL") default_database_url
  validated-database_url (some m) (some t) (some r) settings e =
      ap (λ (o : Option Settings). elim o [ none ↦ "" | some s ↦ s.database_url ]) (sym e)
  validated-database_url none t r settings e = absurd (cc (e))
  validated-database_url (some m) none r settings e = absurd (cc (e))
  validated-database_url (some m) (some t) none settings e = absurd (cc (e))

  load-database_url :
      (settings : Settings)
      → load parsers environ ≡ some settings
      → settings.database_url ≡ text_field (environ "COFFEE_SHOP_DATABASE_URL") default_database_url
  unfolding load
  load-database_url settings e = validated-database_url _ _ _ settings e

  default_url :
      (o : Option String)
      → url_of o ini_url ≡ (
          if str_eq (text_field o default_database_url) ""
          then ini_url
          else remove_driver (text_field o default_database_url))
  default_url none = refl
  default_url (some url) = refl

  run_env-url :
      (getenv : String → Option String) (is_offline : Bool)
      → databases (run_env getenv ini_url is_offline)
        ≡ url_of (getenv "COFFEE_SHOP_DATABASE_URL") ini_url ∷ []
  unfolding run_env
  run_env-url getenv true = refl
  run_env-url getenv false = refl

  -- Let the settings of the service be valid, and let `os.getenv` find COFFEE_SHOP_DATABASE_URL as
  -- pydantic-settings does, which also takes other spellings of the name, with small letters. Online
  -- and offline, the migrations then name one database, the one of the service: that is the one
  -- that its URL names without the asynchronous driver, also where the variable is not set, when
  -- both take their own defaults; but if the variable is set and empty, the one of alembic.ini.
  pub run_env-databases :
      (getenv : String → Option String) (settings : Settings) (is_offline : Bool)
      → getenv "COFFEE_SHOP_DATABASE_URL" ≡ environ "COFFEE_SHOP_DATABASE_URL"
      → load parsers environ ≡ some settings
      → databases (run_env getenv ini_url is_offline)
        ≡ (if str_eq settings.database_url "" then ini_url else remove_driver settings.database_url)
          ∷ []
  run_env-databases getenv settings is_offline spelt e =
      run_env-url getenv is_offline
      ∙ ap (λ url. url ∷ [])
          (ap (λ o. url_of o ini_url) spelt
            ∙ default_url (environ "COFFEE_SHOP_DATABASE_URL")
            ∙ ap (λ url. if str_eq url "" then ini_url else remove_driver url)
                (sym (load-database_url settings e)))
