-- ===== src/System/Ledger/Rows.antt =====
-- What each statement on the tables does to the invariant.
use coffee_shop_api.Prelude.{
  ℕ, ◌+◌, ◌≡◌, refl, Option, none, some, String, Bool-cases, inl, inr, List, [], ◌∷◌, map, any,
  All-update, Distinct-last, Distinct-select, Distinct-update, arith, ap, ◌∙◌,
}
use coffee_shop_api.Entities.{Uuid, OrderStatus, User}
use coffee_shop_api.Schemas.{Body}
use coffee_shop_api.Database.{OrderRow}
use coffee_shop_api.Engine.{Engine}
use coffee_shop_api.App.{Uuids, next_uuid, modify}
use coffee_shop_api.App.Keeps.{Keeps, keeps}
use coffee_shop_api.Auth.{Bcrypt, hash_password}
use coffee_shop_api.Payment.{PaymentApi}
use coffee_shop_api.Api.{save_response, cached_response}
use coffee_shop_api.Services.{Redis, notify}
use coffee_shop_api.Repositories.Orders.{set_status, has_id, update_status}
use coffee_shop_api.Repositories.Orders.Lookup.{parse-status_value}
use coffee_shop_api.Repositories.Orders.Reads.{get_by_id-Keeps}
use coffee_shop_api.Repositories.Idempotency
use coffee_shop_api.Repositories.RevokedTokens
use coffee_shop_api.Repositories.Users
use coffee_shop_api.Repositories.Users.Emails.{same_user, create-eq}
use coffee_shop_api.System.Ledger.{
  IsSound, Accounting, CanRead, Drawn, with_drawn, with_users, with_keys, with_orders, same_order,
  same_key,
}

set_status-total :
    (k : Uuid) (s : OrderStatus) (rows : List OrderRow)
    → map (λ r. r.total_price) (map (set_status k s) rows) ≡ map (λ r. r.total_price) rows
set_status-total k s [] = refl
set_status-total k s (r ∷ rows) = elim (Bool-cases (has_id k r)) [
  | inl hit ↦ rw hit (ap (◌∷◌ r.total_price) (set_status-total k s rows))
  | inr miss ↦ rw miss (ap (◌∷◌ r.total_price) (set_status-total k s rows))
]

set_status-id : (k : Uuid) (s : OrderStatus) (r : OrderRow) → (set_status k s r).id ≡ r.id
set_status-id k s r = ground arith

set_status-CanRead :
    (k : Uuid) (s : OrderStatus) (r : OrderRow) → CanRead r → CanRead (set_status k s r)
set_status-CanRead k s r (s', u, readable) = elim (Bool-cases (has_id k r)) [
  | inl hit ↦ rw hit (s, u, record { status_text = parse-status_value s; user = readable.user })
  | inr miss ↦ rw miss (s', u, readable)
]

set_status-same_order :
    (k : Uuid) (s : OrderStatus) (x y : OrderRow)
    → same_order (set_status k s x) (set_status k s y) ≡ same_order x y
set_status-same_order k s x y = rw (set_status-id k s x, set_status-id k s y) refl

module _ (balance : Accounting) (api : PaymentApi) (source : Uuids) where
  pub next_uuid-Keeps : Keeps (IsSound balance api source) (next_uuid source)
  unfolding next_uuid
  next_uuid-Keeps = record { kept = λ w s. with_drawn s (w.uuids + 1) (omega arith) }

  pub hash_password-Keeps :
      (bcrypt : Bcrypt) (plain : String)
      → Keeps (IsSound balance api source) (hash_password bcrypt plain)
  unfolding hash_password
  hash_password-Keeps bcrypt plain = record {
    kept = λ w s. with_drawn s (w.uuids + 1) (omega arith);
  }

  pub notify-Keeps :
      (redis : Redis) (status : String) → Keeps (IsSound balance api source) (notify redis status)
  unfolding notify
  notify-Keeps redis status = record {
    kept = λ w s. elim (Bool-cases (redis.accepts w.xadds)) [
      | inl sent ↦ rw sent s
      | inr lost ↦ rw lost s
    ];
  }

  set_statuses-Keeps :
      (k : Uuid) (status : OrderStatus)
      → Keeps (IsSound balance api source) (
          modify
            (λ w. record w { db = record w.db { orders = map (set_status k status) w.db.orders } }))
  set_statuses-Keeps k status = record {
    kept = λ w s.
        with_orders s (map (set_status k status) w.db.orders)
          (set_status-total k status w.db.orders)
          (All-update (Drawn source w.uuids) (set_status k status)
            (λ r (i, lt, e). (i, lt, set_status-id k status r ∙ e)) w.db.orders s.drawn)
          (All-update CanRead (set_status k status) (set_status-CanRead k status) w.db.orders
            s.readable)
          (Distinct-update same_order (set_status k status) (set_status-same_order k status)
            w.db.orders s.order_ids);
  }

  pub update_status-Keeps :
      (engine : Engine) (k : Uuid) (status : OrderStatus)
      → Keeps (IsSound balance api source) (update_status engine k status)
  unfolding update_status
  update_status-Keeps engine k status = search (keeps, set_statuses-Keeps, get_by_id-Keeps)

  pub create_user-Keeps : (user : User) → Keeps (IsSound balance api source) (Users.create user)
  create_user-Keeps user = record {
    kept = λ w s. elim (Bool-cases (any (Users.clashes user) w.db.users)) [
      | inl taken ↦ rw (create-eq user w, taken) s
      | inr free ↦
          rw (create-eq user w, free)
            (with_users s _
              (Distinct-last same_user w.db.users (Users.user_row user) s.emails free))
    ];
  }

  pub save-Keeps :
      (engine : Engine) (key : String) (code : ℕ) (body : Body)
      → Keeps (IsSound balance api source) (Idempotency.save engine key code body)
  unfolding Idempotency.save
  save-Keeps engine key code body = record {
    kept = λ w s. elim (Bool-cases (any (Idempotency.has_key key) w.db.idempotency_keys)) [
      | inl taken ↦ rw taken s
      | inr free ↦ rw free (
          with_keys s _ (
            Distinct-last same_key w.db.idempotency_keys
              (Idempotency.key_row engine w key code body) s.key_ids free))
    ];
  }

  pub delete_keys-Keeps : Keeps (IsSound balance api source) Idempotency.delete_expired
  unfolding Idempotency.delete_expired
  delete_keys-Keeps = record {
    kept = λ w s. with_keys s _ (Distinct-select same_key _ w.db.idempotency_keys s.key_ids);
  }

  pub delete_tokens-Keeps : Keeps (IsSound balance api source) RevokedTokens.delete_expired
  unfolding RevokedTokens.delete_expired
  delete_tokens-Keeps = record { kept = λ w s. s }

  pub revoke-Keeps :
      (jti : String) (t : ℕ) → Keeps (IsSound balance api source) (RevokedTokens.revoke jti t)
  unfolding RevokedTokens.revoke
  revoke-Keeps jti t = record {
    kept = λ w s. elim (Bool-cases (any (RevokedTokens.has_jti jti) w.db.revoked_tokens)) [
      | inl taken ↦ rw taken s
      | inr free ↦ rw free s
    ];
  }

  pub save_response-Keeps :
      (engine : Engine) (key : Option String) (body : Body)
      → Keeps
          (IsSound balance api source)
          (save_response (Idempotency.idempotency_repository engine) key body)
  unfolding save_response
  save_response-Keeps engine none body = search keeps
  save_response-Keeps engine (some key) body = save-Keeps engine key 201 body

  pub cached_response-Keeps :
      (engine : Engine) (key : Option String)
      → Keeps
          (IsSound balance api source)
          (cached_response (Idempotency.idempotency_repository engine) key)
  unfolding cached_response Idempotency.get
  cached_response-Keeps engine none = search keeps
  cached_response-Keeps engine (some key) = search keeps
