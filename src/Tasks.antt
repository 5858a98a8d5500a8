-- ===== src/Tasks.antt =====
-- src/infrastructure/tasks/purge_expired.py. The loop runs until it is cancelled; here it runs for a
-- number of rounds.
pub mod Purges
use coffee_shop_api.Prelude.{ℕ, zero, suc, ◌*◌}
use coffee_shop_api.App.{App, pure, catch, modify, advance, ◌>>=◌, ◌>>◌}
use coffee_shop_api.Repositories.{IdempotencyRepository, RevokedTokenRepository}

-- `PURGE_INTERVAL_SECONDS`, in microseconds
abbrev pub purge_interval : ℕ
purge_interval = 3600 * 1000000

module _ (idempotency_repo : IdempotencyRepository)
    (revoked_token_repo : RevokedTokenRepository) where
  -- the `try` block; an exception is logged
  unfoldable pub purge_round : App (Unit {0})
  purge_round =
      catch (do idempotency_repo.delete_expired; revoked_token_repo.delete_expired) (λ _. pure tt)

  unfoldable pub purge_loop : ℕ → App (Unit {0})
  unfolding purge_round
  purge_loop zero = pure tt
  purge_loop (suc n) = do modify (advance purge_interval); purge_round; purge_loop n
