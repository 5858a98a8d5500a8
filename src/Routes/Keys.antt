-- ===== src/Routes/Keys.antt =====
-- Responses that are kept under an Idempotency-Key, as both POST handlers keep them.
use Prim.Native.String.{count}
use coffee_shop_api.Prelude.{
  ℕ, ◌+◌, ◌≤◌, ◌≡◌, String, false, inl, inr, Bool-cases, some, arith, ltb, any,
}
use coffee_shop_api.Schemas.{Body}
use coffee_shop_api.Engine.{Engine}
use coffee_shop_api.App.{
  World, App, Result, ok, err, advance, pure, ◌>>=◌, ◌>>◌, bind-ok, bind-err, raise_if,
  raise_if-false,
}
use coffee_shop_api.Api.{Content, Response, respond, key_too_long, cached_response}
use coffee_shop_api.Repositories.Idempotency.{
  idempotency_ttl, has_key, get, save, idempotency_repository,
}
use coffee_shop_api.Repositories.Idempotency.Expiry.{saved, save-fresh, save-taken, get-saved}

-- what a handler does with the order or the user that it has made
abbrev pub answer_with : {A : Type 0} → (A → Body) → Engine → String → A → App Response
answer_with dump engine key a = do
  save engine key 201 (dump a)
  pure (respond 201 (Content.json (dump a)))

module _ (engine : Engine) where
  pub cached_response-get :
      (key : String) (w : World)
      → count key ≤ 128
      → cached_response (idempotency_repository engine) (some key) w ≡ get engine key w
  unfolding cached_response
  cached_response-get key w short =
      bind-ok (raise_if (ltb 128 (count key)) key_too_long) (λ _. get engine key) w tt w
        (raise_if-false (ltb 128 (count key)) key_too_long w (ground arith))

  -- an answer was saved on the way
  pub answered :
      {A : Type 0} (dump : A → Body) (key : String) (o : Result A × World) (w w' : World)
      (r : Response)
      → ((λ (_ : World). o) >>= answer_with dump engine key) w ≡ (ok r, w')
      → (u : World) × (b : Body) × (any (has_key key) u.db.idempotency_keys ≡ false)
        × (r ≡ respond 201 (Content.json b))
        × (w' ≡ saved engine key 201 b u)
  answered dump key (err e, u) w w' r h = absurd (cc)
  answered dump key (ok a, u) w w' r h =
      let b = dump a in
      elim (Bool-cases (any (has_key key) u.db.idempotency_keys)) [
        | inl taken ↦ absurd (
            let e =
              bind-err (save engine key 201 b) (λ _. pure (respond 201 (Content.json b))) u _ u
                (save-taken engine key 201 b u taken) in
            cc (e, h))
        | inr fresh ↦
            let e =
              bind-ok (save engine key 201 b) (λ _. pure (respond 201 (Content.json b))) u tt _
                (save-fresh engine key 201 b u fresh) in
            (u, b, fresh, cc (e, h), cc (e, h))
      ]

  pub found_after :
      (key : String) (b : Body) (later : ℕ) (u : World)
      → later + 1000000 ≤ idempotency_ttl
      → any (has_key key) u.db.idempotency_keys ≡ false
      → let v = advance later (saved engine key 201 b u) in
        get engine key v ≡ (ok (some (record { status_code = 201; body = b })), v)
  found_after key b later u soon fresh =
      let e : ltb (engine.current_timestamp u.now + idempotency_ttl) (u.now + later) ≡ false =
        ground (arith, engine.timestamp_near u.now) in
      rw (get-saved engine key 201 b later u fresh) (rw e)
