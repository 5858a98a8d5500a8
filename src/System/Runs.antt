-- ===== src/System/Runs.antt =====
-- What the service does in the course of time, and what holds in every state that it reaches.
use mathlib.Core.Path.{subst}
use mathlib.Core.List.{Permᴰ}
use coffee_shop_api.Prelude.{
  ℕ, zero, suc, ◌≡◌, refl, String, Bool-cases, inl, inr, Option, List, [], ◌∷◌, ◌++◌, ap, map, any,
  ◌==◌, Distinct,
}
use coffee_shop_api.Entities.{Datetime}
use coffee_shop_api.Breaker.{CircuitBreaker, init}
use coffee_shop_api.Database.{ProductRow, empty}
use coffee_shop_api.App.{World, App, advance, next_uuid, pure, ◌>>=◌}
use coffee_shop_api.App.Keeps.{Keeps, Keeps-bind, Keeps-pure, keeps}
use coffee_shop_api.Tasks.{purge_round}
use coffee_shop_api.Seed.{
  CatalogItem, product_row, draw_rows, insert_rows, insert_catalog, seed_counted, seed_catalog,
}
use coffee_shop_api.Repositories.Idempotency.{idempotency_repository}
use coffee_shop_api.Repositories.RevokedTokens.{revoked_token_repository}
use coffee_shop_api.Repositories.Users.Emails.{same_user}
use coffee_shop_api.Payment.Ledger.{charges, taken, orphans, taken-charges}
use coffee_shop_api.System.{Environment, Request, serve}
use coffee_shop_api.System.Ledger.{Accounting, Grows, SameAmounts, IsSound, same_order, same_key}
use coffee_shop_api.System.Ledger.Rows.{next_uuid-Keeps, delete_keys-Keeps, delete_tokens-Keeps}
use coffee_shop_api.System.Ledger.Requests.{serve-IsSound}

-- One step: a request is served, the purge runs once, the catalog is seeded at a start, time passes,
-- or the process ends between two requests and is started again, with a new circuit breaker and a
-- new clock, on the same database.
pub data Step (env : Environment) : World → World → Type 0 where
  served :
      (w : World) (header : Option String) (request : Request)
      → Step env w (serve env header request w).1
  purged :
      (w : World)
      → Step env w
          (purge_round
            (idempotency_repository env.engine)
            (revoked_token_repository env.engine)
            w).1
  seeded : (w : World) → Step env w (seed_catalog env.uuids w).1
  elapsed : (w : World) (t : ℕ) → Step env w (advance t w)
  restarted :
      (w : World) (threshold timeout monotonic : ℕ)
      → Step env w (record w { breaker = init threshold timeout; monotonic = monotonic })

pub data Reach (env : Environment) (w : World) : World → Type 0 where
  here : Reach env w w
  next : (u v : World) → Reach env w u → Step env u v → Reach env w v

-- a process that has just been started on the database that the migrations create
abbrev pub start : CircuitBreaker → ℕ → Datetime → World
start breaker monotonic now = record {
  db = empty;
  breaker = breaker;
  monotonic = monotonic;
  now = now;
  posts = [];
  stream = [];
  uuids = 0;
  xadds = 0;
}

start-IsSound :
    (env : Environment) (breaker : CircuitBreaker) (monotonic : ℕ) (now : Datetime)
    → IsSound SameAmounts env.api env.uuids (start breaker monotonic now)
start-IsSound env breaker monotonic now = record {
  ledger = refl;
  drawn = tt;
  readable = tt;
  order_ids = tt;
  emails = tt;
  key_ids = tt;
}

module _ (balance : Accounting) (grows : Grows balance) (env : Environment)
    (fresh : (i j : ℕ) → env.uuids.uuid4 i ≡ env.uuids.uuid4 j → i ≡ j) where
  abbrev Holds : World → Type 0
  Holds = IsSound balance env.api env.uuids

  -- one round of the comprehension
  draw_step :
      (i : CatalogItem) (rest : App (List ProductRow))
      → Keeps Holds rest
      → Keeps Holds (do id ← next_uuid env.uuids; rows ← rest; pure (product_row id i ∷ rows))
  draw_step i rest k =
      Keeps-bind Holds (next_uuid env.uuids) _ (next_uuid-Keeps balance env.api env.uuids)
        λ id. Keeps-bind Holds rest _ k λ rows. Keeps-pure Holds (product_row id i ∷ rows)

  draw_rows-Keeps : (items : List CatalogItem) → Keeps Holds (draw_rows env.uuids items)
  unfolding draw_rows
  draw_rows-Keeps [] = search keeps
  draw_rows-Keeps (i ∷ items) = draw_step i (draw_rows env.uuids items) (draw_rows-Keeps items)

  insert_rows-Keeps : (rows : List ProductRow) → Keeps Holds (insert_rows rows)
  unfolding insert_rows
  insert_rows-Keeps [] = search keeps
  insert_rows-Keeps (row ∷ rows) = record {
    kept = λ w s. elim (Bool-cases (any (λ r. r.id == row.id) w.db.products)) [
      | inl taken ↦ rw taken s
      | inr free ↦ rw free ((insert_rows-Keeps rows).kept _ s)
    ];
  }

  seed_counted-Keeps : (n : ℕ) → Keeps Holds (seed_counted env.uuids n)
  unfolding seed_counted insert_catalog
  seed_counted-Keeps zero = search (keeps, draw_rows-Keeps, insert_rows-Keeps)
  seed_counted-Keeps (suc n) = search keeps

  pub seed_catalog-Keeps : Keeps Holds (seed_catalog env.uuids)
  unfolding seed_catalog
  seed_catalog-Keeps = search (keeps, seed_counted-Keeps)

  pub purge_round-Keeps :
      Keeps Holds
        (purge_round (idempotency_repository env.engine) (revoked_token_repository env.engine))
  unfolding purge_round
  purge_round-Keeps = search (keeps, delete_keys-Keeps, delete_tokens-Keeps)

  Step-IsSound : (u v : World) → Step env u v → Holds u → Holds v
  unfolding advance
  Step-IsSound u _ (Step.served _ header request) s =
      serve-IsSound balance grows env fresh header request u s
  Step-IsSound u _ (Step.purged _) s = purge_round-Keeps.kept u s
  Step-IsSound u _ (Step.seeded _) s = seed_catalog-Keeps.kept u s
  Step-IsSound u _ (Step.elapsed _ t) s = s
  Step-IsSound u _ (Step.restarted _ threshold timeout monotonic) s = s

  Reach-IsSound : (w v : World) → Reach env w v → Holds w → Holds v
  Reach-IsSound w _ Reach.here s = s
  Reach-IsSound w v (Reach.next u _ r step) s = Step-IsSound u v step (Reach-IsSound w u r s)

module _ (env : Environment)
    (fresh : (i j : ℕ) → env.uuids.uuid4 i ≡ env.uuids.uuid4 j → i ≡ j) where
  pub Reach-SameAmounts :
      (breaker : CircuitBreaker) (monotonic : ℕ) (now : Datetime) (w : World)
      → Reach env (start breaker monotonic now) w
      → IsSound SameAmounts env.api env.uuids w
  Reach-SameAmounts breaker monotonic now w r =
      Reach-IsSound SameAmounts (λ paid totals a e. ap (λ xs. xs ++ a ∷ []) e) env fresh
        (start breaker monotonic now) w r (start-IsSound env breaker monotonic now)

  -- Let the generator of UUIDs not repeat itself. In every state that the service reaches from its
  -- start on the migrated database, by serving requests of any kind one after the other, purging,
  -- seeding, waiting and starting again: the amounts of the POSTs to the payment service that a 2xx
  -- with a JSON body confirmed are the totals of the stored orders, one for one and in their order;
  -- what the service has charged is, in some order, these totals and the amounts of the POSTs that
  -- it charged without such an answer; and the orders' ids, the users' ids and emails and the
  -- idempotency keys are unique.
  pub Reach-ledger :
      (breaker : CircuitBreaker) (monotonic : ℕ) (now : Datetime) (w : World)
      → Reach env (start breaker monotonic now) w
      → let totals = map (λ r. r.total_price) w.db.orders in
        (charges env.api w.posts ≡ totals)
        × Permᴰ (taken env.api w.posts) (totals ++ orphans env.api w.posts)
        × Distinct same_order w.db.orders
        × Distinct same_user w.db.users
        × Distinct same_key w.db.idempotency_keys
  Reach-ledger breaker monotonic now w r =
      let s = Reach-SameAmounts breaker monotonic now w r in
      (
        s.ledger,
        subst (λ l. Permᴰ (taken env.api w.posts) (l ++ orphans env.api w.posts)) s.ledger
            (taken-charges env.api w.posts),
        s.order_ids,
        s.emails,
        s.key_ids,
      )
