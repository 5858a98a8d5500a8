-- ===== src/UseCases/UpdateOrderStatus/Stream.antt =====
-- What an update of a status adds to the stream.
use coffee_shop_api.Prelude.{
  ◌+◌, ◌≡◌, ◌≢◌, refl, sym, ap, ◌∙◌, String, Bool, true, false, Option, none, some, List, [], ◌∷◌,
  ◌++◌, map, if◌then◌else◌,
}
use coffee_shop_api.Entities.{Uuid, OrderStatus, status_value, Order}
use coffee_shop_api.Engine.{Engine}
use coffee_shop_api.App.{
  World, App, Error, Result, ok, err, pure, raise, catch, modify, ◌>>=◌, ◌>>◌, bind-inv,
}
use coffee_shop_api.App.Keeps.{Keeps, keeps}
use coffee_shop_api.Services.{Redis, notify, notification_service}
use coffee_shop_api.Repositories.Orders.{set_status, get_by_id, update_status, order_repository}
use coffee_shop_api.Repositories.Orders.Reads.{get_by_id-Keeps}
use coffee_shop_api.UseCases.UpdateOrderStatus.{is_next, update_existing, execute}
use coffee_shop_api.Routes.Orders.{transition_error}

-- an action that leaves the stream alone
abbrev pub Quiet : {A : Type 0} → App A → Type 0
Quiet m = (s : List String) → Keeps (λ u. u.stream ≡ s) m

pub Quiet-stream :
    {A : Type 0} (m : App A) (w v : World) (a : A) → Quiet m → m w ≡ (ok a, v) → v.stream ≡ w.stream
Quiet-stream {A = A} m w v a quiet e =
    ap (λ (p : Result A × World). p.1.stream) (sym e) ∙ (quiet w.stream).kept w refl

-- what an action under a test returns, where the other branch raises
allowed_if :
    {A : Type 0} (b : Bool) (m : App A) (error : Error) (w v : World) (a : A)
    → (if b then m else raise error) w ≡ (ok a, v)
    → m w ≡ (ok a, v)
allowed_if true m error w v a e = e
allowed_if false m error w v a e = absurd (cc (e))

abbrev answered_if : Bool → World → World → Result (Unit {0}) × World
answered_if b x y = if b then (ok tt, x) else (err Error.redis_error, y)

sent_if : (b : Bool) (x y v : World) → answered_if b x y ≡ (ok tt, v) → v ≡ x
sent_if true x y v e = ap (λ (p : Result (Unit {0}) × World). p.1) (sym e)
sent_if false x y v e = absurd (cc (e))

module _ (engine : Engine) (redis : Redis) where
  update_status-Quiet : (k : Uuid) (new : OrderStatus) → Quiet (update_status engine k new)
  unfolding update_status
  update_status-Quiet k new s =
      let write : Keeps (λ u. u.stream ≡ s)
          (modify
            (λ w. record w { db = record w.db { orders = map (set_status k new) w.db.orders } })) =
        record { kept = λ w h. h } in
      search (keeps, write, get_by_id-Keeps)

  notify-stream :
      (status : String) (w v : World)
      → notify redis status w ≡ (ok tt, v)
      → v.stream ≡ w.stream ++ status ∷ []
  unfolding notify
  notify-stream status w v e =
      ap (λ (u : World). u.stream)
        (sent_if (redis.accepts w.xadds)
          (record w { stream = w.stream ++ status ∷ []; xadds = w.xadds + 1 })
          (record w { xadds = w.xadds + 1 }) v e)

  -- the update, the XADD and the answer of an update that is allowed
  allowed-stream :
      (k : Uuid) (new : OrderStatus) (w v : World) (o : Option Order)
      → (update_status engine k new >>= λ x. notify redis (status_value new) >> pure x) w
        ≡ (ok o, v)
      → v.stream ≡ w.stream ++ status_value new ∷ []
  allowed-stream k new w v o e =
      let (x, u, stored, rest) =
        bind-inv (update_status engine k new) (λ x. notify redis (status_value new) >> pure x) w o v
          e in
      let (done, u', sent, last) =
        bind-inv (notify redis (status_value new)) (λ _. pure x) u o v rest in
      ap (λ (p : Result (Option Order) × World). p.1.stream) (sym last)
      ∙ notify-stream (status_value new) u u' sent
      ∙ ap (λ xs. xs ++ status_value new ∷ [])
          (Quiet-stream (update_status engine k new) w u x (update_status-Quiet k new) stored)

  update_existing-stream :
      (existing : Option Order) (k : Uuid) (new : OrderStatus) (w v : World) (order : Order)
      → update_existing (order_repository engine) (notification_service redis) k new existing w
        ≡ (ok (some order), v)
      → v.stream ≡ w.stream ++ status_value new ∷ []
  unfolding update_existing
  update_existing-stream none k new w v order e = absurd (cc (e))
  update_existing-stream (some existing) k new w v order e = allowed-stream k new w v (some order) (
      allowed_if (is_next existing.status new)
        (update_status engine k new >>= λ x. notify redis (status_value new) >> pure x)
        (Error.invalid_status_transition existing.status new) w v (some order) e)

  pub execute-stream :
      (k : Uuid) (new : OrderStatus) (w v : World) (order : Order)
      → execute (order_repository engine) (notification_service redis) k new w
        ≡ (ok (some order), v)
      → v.stream ≡ w.stream ++ status_value new ∷ []
  unfolding execute update_existing
  execute-stream k new w v order e =
      let (existing, u, found, rest) =
        bind-inv (get_by_id engine k)
          (update_existing (order_repository engine) (notification_service redis) k new) w
          (some order) v e in
      update_existing-stream existing k new u v order rest
      ∙ ap (λ xs. xs ++ status_value new ∷ [])
          (Quiet-stream (get_by_id engine k) w u existing (λ s. get_by_id-Keeps _ engine k) found)

-- an exception stays one
raised_again :
    {A : Type 0} (error : Error) (w v : World) (a : A) → transition_error error w ≢ (ok a, v)
raised_again (Error.invalid_status_transition current new) w v a e = absurd (cc (e))
raised_again error w v a e = absurd (cc (e))

pub caught_from :
    {A : Type 0} (p : Result A × World) (w v : World) (a : A)
    → catch (λ _. p) transition_error w ≡ (ok a, v)
    → p ≡ (ok a, v)
caught_from (ok b, u) w v a e = e
caught_from (err error, u) w v a e = absurd (raised_again error u v a e)
