-- ===== src/Lifespan/Shutdown.antt =====
-- How the application stops.
use coffee_shop_api.Prelude.{ℕ, zero, suc, ◌≡◌, refl, ap, ◌∙◌, true, false}
use coffee_shop_api.App.{World, App, Error, Result, ok, err, advance, catch, pure, ◌>>◌}
use coffee_shop_api.Repositories.{IdempotencyRepository, RevokedTokenRepository}
use coffee_shop_api.Repositories.Idempotency.{idempotency_repository}
use coffee_shop_api.Repositories.RevokedTokens.{revoked_token_repository}
use coffee_shop_api.Seed.{seed_catalog}
use coffee_shop_api.Tasks.{purge_interval, purge_round, purge_loop}
use coffee_shop_api.Worker.{Outbox, Remote}
use coffee_shop_api.Worker.Loop.{GroupReply, notification_worker}
use coffee_shop_api.System.{Environment}
use coffee_shop_api.Lifespan.{
  Connections, TaskEnd, task_end, shutdown, connected, after_seed, lifespan,
}

module _ (idempotency_repo : IdempotencyRepository)
    (revoked_token_repo : RevokedTokenRepository) where
  logged : (o : Result (Unit {0}) × World) (w : World) → (catch (λ _. o) (λ _. pure tt) w).0 ≡ ok tt
  logged (ok done, u) w = refl
  logged (err e, u) w = refl

  purge_round-ok : (w : World) → (purge_round idempotency_repo revoked_token_repo w).0 ≡ ok tt
  unfolding purge_round
  purge_round-ok w =
      logged ((do idempotency_repo.delete_expired; revoked_token_repo.delete_expired) w) w

  round_then :
      (p : Result (Unit {0}) × World) (rest : App (Unit {0})) (w : World)
      → p.0 ≡ ok tt
      → ((u : World) → (rest u).0 ≡ ok tt)
      → (((λ (_ : World). p) >> rest) w).0 ≡ ok tt
  round_then (ok done, u) rest w h f = f u
  round_then (err e, u) rest w h f = absurd (cc)

  -- the loop outlives whatever its rounds raise
  pub purge_loop-ok :
      (n : ℕ) (w : World) → (purge_loop idempotency_repo revoked_token_repo n w).0 ≡ ok tt
  unfolding purge_loop
  purge_loop-ok zero w = refl
  purge_loop-ok (suc n) w =
      let v = advance purge_interval w in
      round_then (purge_round idempotency_repo revoked_token_repo v)
        (purge_loop idempotency_repo revoked_token_repo n) v (purge_round-ok v) (purge_loop-ok n)

-- How the lifespan ends, by what XGROUP CREATE answered.
abbrev pub ending : GroupReply → Result (Unit {0}) × Connections
ending GroupReply.created = (ok tt, record { database = false; redis = false })
ending (GroupReply.response_error true) = (ok tt, record { database = false; redis = false })
ending (GroupReply.response_error false) = (err Error.redis_error, connected)
ending (GroupReply.group_raised e) = (err e, connected)

module _ {G : Type 0} (remote : Remote G) (rounds : ℕ) (o : Outbox G) where
  shutdown-worker :
      (group : GroupReply)
      → shutdown TaskEnd.cancelled
          (task_end (notification_worker remote group rounds o).0)
          connected
        ≡ ending group
  unfolding shutdown notification_worker
  shutdown-worker GroupReply.created = refl
  shutdown-worker (GroupReply.response_error true) = refl
  shutdown-worker (GroupReply.response_error false) = refl
  shutdown-worker (GroupReply.group_raised e) = refl

module _ {G : Type 0} (env : Environment) (remote : Remote G) (group : GroupReply) where
  -- Let the seeding return. After any number of rounds of the purge and of the worker, whatever
  -- they raised, the application stops by closing both connections if XGROUP CREATE made the
  -- consumer group or was refused since the group was there (BUSYGROUP). Any other ResponseError, or
  -- other exception, of that call is raised at the end of the lifespan instead, and neither
  -- connection is closed.
  pub lifespan-ending :
      (purges rounds : ℕ) (o : Outbox G) (w u : World)
      → seed_catalog env.uuids w ≡ (ok tt, u)
      → lifespan env remote group purges rounds o w ≡ ending group
  unfolding lifespan
  lifespan-ending purges rounds o w u seeded =
      let idempotency = idempotency_repository env.engine in
      let revoked = revoked_token_repository env.engine in
      let worker = task_end (notification_worker remote group rounds o).0 in
      ap (after_seed env remote group purges rounds o) seeded
      ∙ ap (λ r. shutdown (task_end r) worker connected)
          (purge_loop-ok idempotency revoked purges u)
      ∙ shutdown-worker remote rounds o group
