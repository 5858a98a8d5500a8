-- ===== src/App.antt =====
-- What one process of the service works on, and its methods as actions: state and exceptions. The
-- state comes back beside an exception too, since what was written stays written. Logging is left
-- out.
mod Monad
mod Laws
pub mod Keeps
pub use Monad.*
pub use Laws.*
use coffee_shop_api.Prelude.{ℕ, ◌+◌, Bool, String, List, [], if◌then◌else◌}
use coffee_shop_api.Entities.{Uuid, Datetime}
use coffee_shop_api.App.Monad.{World, App, Error, ok, err}

-- `uuid4()`: what the generator gives on its n-th call
pub record Uuids : Type 0 where
  pub uuid4 : ℕ → Uuid

unfoldable pub next_uuid : Uuids → App Uuid
next_uuid source w = (ok (source.uuid4 w.uuids), record w { uuids = w.uuids + 1 })

-- time that an await takes, in microseconds
unfoldable pub advance : ℕ → World → World
advance elapsed w = record w { monotonic = w.monotonic + elapsed; now = w.now + elapsed }
