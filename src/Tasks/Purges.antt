-- ===== src/Tasks/Purges.antt =====
-- What the purge keeps.
use coffee_shop_api.Prelude.{
  ℕ, zero, suc, ◌+◌, ◌*◌, ◌≤◌, ◌≡◌, refl, ap, ◌∙◌, String, Bool, not, List, [], ◌∷◌, ltb, select,
  select_comm, arith, true,
}
use coffee_shop_api.Database.{RevokedTokenRow}
use coffee_shop_api.Engine.{Engine, fetch_one-only}
use coffee_shop_api.App.{World, Result, ok, advance}
use coffee_shop_api.Repositories.Idempotency.{idempotency_repository}
use coffee_shop_api.Repositories.Idempotency
use coffee_shop_api.Repositories.RevokedTokens.{
  has_jti, is_revoked, delete_expired, revoked_token_repository,
}
use coffee_shop_api.Tasks.{purge_interval, purge_round, purge_loop}

kept_alive :
    (jti : String) (r : RevokedTokenRow) (rows : List RevokedTokenRow) (now : ℕ)
    → select (has_jti jti) rows ≡ r ∷ []
    → now ≤ r.expires_at
    → select (has_jti jti) (select (λ s. not (ltb s.expires_at now)) rows) ≡ r ∷ []
kept_alive jti r rows now only alive =
    let live : RevokedTokenRow → Bool = λ s. not (ltb s.expires_at now) in
    select_comm (has_jti jti) live rows ∙ ap (select live) only ∙ ground arith

module _ (engine : Engine) (jti : String) (r : RevokedTokenRow) where
  abbrev pub purged : ℕ → World → Result (Unit {0}) × World
  purged = purge_loop (idempotency_repository engine) (revoked_token_repository engine)

  purged-keeps :
      (n : ℕ) (w : World)
      → select (has_jti jti) w.db.revoked_tokens ≡ r ∷ []
      → w.now + n * purge_interval ≤ r.expires_at
      → ((purged n w).0 ≡ ok tt) × (select (has_jti jti) (purged n w).1.db.revoked_tokens ≡ r ∷ [])
  unfolding purge_loop purge_round advance delete_expired Idempotency.delete_expired
  purged-keeps zero w only alive = (refl, only)
  purged-keeps (suc n) w only alive =
      purged-keeps n _
        (kept_alive jti r w.db.revoked_tokens (w.now + purge_interval) only (omega arith))
        (omega arith)

  -- A revoked token with one row stays revoked through any number of rounds of the purge that end
  -- no later than it expires, and these rounds do not raise.
  pub is_revoked-purge_loop :
      (n : ℕ) (w : World)
      → select (has_jti jti) w.db.revoked_tokens ≡ r ∷ []
      → w.now + n * purge_interval ≤ r.expires_at
      → let (o, w') =
          purge_loop (idempotency_repository engine) (revoked_token_repository engine) n w in
        (o ≡ ok tt) × (is_revoked engine jti w' ≡ (ok true, w'))
  unfolding is_revoked
  is_revoked-purge_loop n w only alive =
      let (returns, kept) = purged-keeps n w only alive in
      (
        returns,
        rw (fetch_one-only engine (has_jti jti) (purged n w).1.db.revoked_tokens r kept) refl,
      )
