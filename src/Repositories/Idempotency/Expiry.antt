-- ===== src/Repositories/Idempotency/Expiry.antt =====
-- For how long a saved response is found.
use text.Mathlib.TextPositions.{eq_refl}
use coffee_shop_api.Prelude.{
  ℕ, ◌+◌, ◌-◌, ◌≡◌, ap, ◌∙◌, String, Bool, true, false, not, none, some, List, [], ◌∷◌, ◌++◌, ltb,
  arith, if◌then◌else◌, any, select, str_eq, Distinct, select_one, select_comm, inl, inr, eq_iff,
  Bool-cases, ◌⊎◌,
}
use coffee_shop_api.Schemas.{Body}
use coffee_shop_api.Entities.{Datetime}
use coffee_shop_api.Database.{IdempotencyKeyRow}
use coffee_shop_api.Engine.{
  Engine, fetch_one, fetch_one-none, fetch_one-last, fetch_one-nil, fetch_one-only,
}
use coffee_shop_api.App.{World, Error, ok, err, advance}
use coffee_shop_api.Repositories.Idempotency.{
  idempotency_ttl, cutoff, has_key, cached, key_row, get, save, delete_expired,
}

ltb-sub : (a b t : ℕ) → ltb a (b - t) ≡ ltb (a + t) b
ltb-sub a b t = ground arith

module _ (engine : Engine) (key : String) (status_code : ℕ) (body : Body) where
  -- the process after a save
  abbrev pub saved : World → World
  saved w = record w {
    db = record w.db {
      idempotency_keys = w.db.idempotency_keys ++ key_row engine w key status_code body ∷ [];
    };
  }

  pub save-fresh :
      (w : World)
      → any (has_key key) w.db.idempotency_keys ≡ false
      → save engine key status_code body w ≡ (ok tt, saved w)
  unfolding save
  save-fresh w h = rw h

  pub save-taken :
      (w : World)
      → any (has_key key) w.db.idempotency_keys ≡ true
      → save engine key status_code body w ≡ (err Error.integrity_error, w)
  unfolding save
  save-taken w h = rw h

  pub get-saved :
      (elapsed : ℕ) (w : World)
      → any (has_key key) w.db.idempotency_keys ≡ false
      → let v = advance elapsed (saved w) in
        get engine key v ≡ (
          ok (
              if ltb (engine.current_timestamp w.now + idempotency_ttl) (w.now + elapsed)
              then none
              else some (record { status_code = status_code; body = body })),
          v,
        )
  unfolding get advance
  get-saved elapsed w h =
      let row = key_row engine w key status_code body in
      let found : fetch_one engine (has_key key) (saved w).db.idempotency_keys ≡ some row =
        fetch_one-last engine (has_key key) w.db.idempotency_keys row h (eq_refl key) in
      rw found (rw (ltb-sub (engine.current_timestamp w.now) (w.now + elapsed) idempotency_ttl))

  -- A response that is saved under a new key at time `now`, and looked up `elapsed` later, is found
  -- with its status and body until the 24 hours since the stored time, `now` cut to whole
  -- seconds, are over, and is not found afterwards; the lookup changes nothing.
  pub get-save :
      (elapsed : ℕ) (w : World)
      → any (has_key key) w.db.idempotency_keys ≡ false
      → let v = advance elapsed (save engine key status_code body w).1 in
        get engine key v ≡ (
          ok (
              if ltb (engine.current_timestamp w.now + idempotency_ttl) (w.now + elapsed)
              then none
              else some (record { status_code = status_code; body = body })),
          v,
        )
  get-save elapsed w h = rw (save-fresh w h) (get-saved elapsed w h)

pub get-absent :
    (engine : Engine) (key : String) (w : World)
    → any (has_key key) w.db.idempotency_keys ≡ false
    → get engine key w ≡ (ok none, w)
unfolding get
get-absent engine key w h = rw (fetch_one-none engine (has_key key) w.db.idempotency_keys h)

-- `key` is the primary key.
abbrev pub same_key : IdempotencyKeyRow → IdempotencyKeyRow → Bool
same_key r s = str_eq s.key r.key

same_key_of :
    (key : String) (r s : IdempotencyKeyRow)
    → has_key key r ≡ true
    → has_key key s ≡ true
    → same_key r s ≡ true
same_key_of key r s p q = ground (arith, eq_iff r.key key, eq_iff s.key key, eq_iff s.key r.key)

module _ (engine : Engine) (key : String) (limit : Datetime) (rows : List IdempotencyKeyRow) where
  abbrev alive : IdempotencyKeyRow → Bool
  alive r = not (ltb r.created_at limit)

  cached-alive :
      (select (has_key key) rows ≡ [])
        ⊎ ((r : IdempotencyKeyRow) × (select (has_key key) rows ≡ r ∷ []))
      → cached limit (fetch_one engine (has_key key) (select alive rows))
        ≡ cached limit (fetch_one engine (has_key key) rows)
  cached-alive (inl absent) = rw (
    fetch_one-nil engine (has_key key) (select alive rows)
        (select_comm (has_key key) alive rows ∙ ap (select alive) absent),
    fetch_one-nil engine (has_key key) rows absent,
  )
  cached-alive (inr (r, only)) =
      let rest = select_comm (has_key key) alive rows ∙ ap (select alive) only in
      elim (Bool-cases (ltb r.created_at limit)) [
        | inl expired ↦ rw (
          fetch_one-nil engine (has_key key) (select alive rows) (rest ∙ rw expired),
          fetch_one-only engine (has_key key) rows r only,
          expired,
        )
        | inr fresh ↦ rw (
          fetch_one-only engine (has_key key) (select alive rows) r (rest ∙ rw fresh),
          fetch_one-only engine (has_key key) rows r only,
        )
      ]

-- Where the keys are distinct, the purge deletes only what no lookup finds: every key has the same
-- response before and after it.
get-delete_expired :
    (engine : Engine) (key : String) (w : World)
    → Distinct same_key w.db.idempotency_keys
    → (get engine key (delete_expired w).1).0 ≡ (get engine key w).0
unfolding get delete_expired
get-delete_expired engine key w d = ap ok (
    cached-alive engine key (cutoff w) w.db.idempotency_keys
      (select_one same_key (has_key key) (same_key_of key) w.db.idempotency_keys d))
