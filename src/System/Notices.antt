-- ===== src/System/Notices.antt =====
-- From the update of an order's status to the notification URL: src/use_cases, the Redis service
-- and the worker one after the other.
use mathlib.Core.Path.{subst}
use mathlib.Core.List.{Memᴰ}
use coffee_shop_api.Prelude.{
  ℕ, ◌≤◌, ◌≡◌, ◌≢◌, refl, sym, ap, ◌∙◌, String, true, Option, none, some, List, [], ◌∷◌, ◌++◌, map,
  All, length,
}
use coffee_shop_api.Entities.{Uuid, Role, status_value, Order}
use coffee_shop_api.Schemas.{OrderStatusUpdate}
use coffee_shop_api.App.{World, Error, Result, ok, catch, ◌>>=◌, ◌>>◌, bind-inv}
use coffee_shop_api.Api.{Response, require_role}
use coffee_shop_api.Services.{notification_service}
use coffee_shop_api.Repositories.Orders.{order_repository}
use coffee_shop_api.UseCases.UpdateOrderStatus.{execute}
use coffee_shop_api.Routes.Orders
use coffee_shop_api.Routes.Orders.{transition_error, updated_response}
use coffee_shop_api.UseCases.UpdateOrderStatus.Stream.{Quiet-stream, execute-stream, caught_from}
use coffee_shop_api.System.{Environment, Request, current_user, route}
use coffee_shop_api.System.Reads.{get_current_user-Keeps, require_role-Keeps}
use coffee_shop_api.Worker.{Message, Reply, Outbox, Remote}
use coffee_shop_api.Worker.Loop.{worker_rounds}
use coffee_shop_api.Worker.Group.{Group, entries, Claims, Reads, Acknowledges, Advances}
use coffee_shop_api.Worker.Group.Done.{Done}
use coffee_shop_api.Worker.Group.Progress.{worker_rounds-Done}

module _ (env : Environment) (header : Option String) (k : Uuid) (body : OrderStatusUpdate) where
  returned_some :
      (o : Option Order) (w v : World) (response : Response)
      → updated_response o w ≡ (ok response, v)
      → (order : Order) × (o ≡ some order) × (v ≡ w)
  unfolding updated_response
  returned_some none w v response e = absurd (cc (e))
  returned_some (some order) w v response e =
      (order, refl, ap (λ (p : Result Response × World). p.1) (sym e))

  -- a PATCH that returns has sent its message
  route-stream :
      (w v : World) (response : Response)
      → route env header (Request.update_order_status k body) w ≡ (ok response, v)
      → v.stream ≡ w.stream ++ status_value body.status ∷ []
  unfolding route Orders.update_order_status
  route-stream w v response e =
      let update =
        execute (order_repository env.engine) (notification_service env.redis) k body.status in
      let rest = catch update transition_error >>= updated_response in
      let (user, u1, signed_in, next) =
        bind-inv (current_user env header) (λ user. require_role Role.manager user >> rest) w
          response v e in
      let (done, u2, allowed, after) =
        bind-inv (require_role Role.manager user) (λ _. rest) u1 response v next in
      let (o, u3, updated, last) =
        bind-inv (catch update transition_error) updated_response u2 response v after in
      let (order, found, same) = returned_some o u3 v response last in
      ap (λ (u : World). u.stream) same
      ∙ execute-stream env.engine env.redis k body.status u2 u3 order
          (caught_from (update u2) u2 u3 (some order) (updated ∙ ap (λ x. (ok x, u3)) found))
      ∙ ap (λ xs. xs ++ status_value body.status ∷ [])
          (Quiet-stream (require_role Role.manager user) u1 u2 done
              (λ s. require_role-Keeps _ env.engine Role.manager user) allowed
            ∙ Quiet-stream (current_user env header) w u1 user
                (λ s. get_current_user-Keeps _ env.engine env.texts env.jose (env.bearer header))
                signed_in)

  module _ {G : Type 0} (group : Group G) (remote : Remote G) (claims : Claims group remote)
      (reads : Reads group remote) (acknowledges : Acknowledges group remote)
      (advances : Advances group remote)
      (reached : (id : String) (g : G) → (remote.xack id g).0 ≡ true)
      (posts_end : (n : ℕ) (e : Error) → remote.reply n ≢ Reply.post_raised e)
      (claims_answer : (g : G) → (remote.xautoclaim g).0 ≢ none)
      (reads_answer : (g : G) → (remote.xreadgroup g).0 ≢ none) where
    -- the last of some messages, by the list of their statuses
    last_message :
        (statuses : List String) (status : String) (ms : List Message)
        → map (λ (m : Message). m.status) ms ≡ statuses ++ status ∷ []
        → (before : List Message) × (m : Message) × (ms ≡ before ++ m ∷ [])
          × (map (λ (m : Message). m.status) before ≡ statuses)
          × (m.status ≡ status)
    last_message [] status [] e = absurd (cc (e))
    last_message (s ∷ statuses) status [] e = absurd (cc (e))
    last_message [] status (m ∷ []) e = ([], m, refl, refl, cc (e))
    last_message [] status (m ∷ n ∷ ms) e = absurd (cc (e))
    last_message (s ∷ statuses) status (m ∷ ms) e =
        let (before, n, all, same, new) = last_message statuses status ms (cc (e)) in
        let head : m.status ≡ s = cc (e) in (m ∷ before, n, ap (◌∷◌ m) all, cc (head, same), new)

    done_last :
        (o : Outbox G) (before : List Message) (m : Message)
        → All (Done o) (before ++ m ∷ [])
        → Memᴰ m o.posts × Memᴰ m.id o.acks
    done_last o [] m h = h.0
    done_last o (x ∷ before) m h = done_last o before m h.1

    -- Let a PATCH /orders/{order_id}/status return from its handler, and let the stream in Redis
    -- hold the messages that were added to it up to then, of which those handed out were POSTed and
    -- acknowledged. Let the commands do to the group what Redis documents and be answered, and let
    -- each POST end in a response or a RequestError. Then the stream's last message is the one that
    -- this PATCH added, with the order's new status, after the messages from before it; and after
    -- as many rounds of the worker as messages wait, or more, a POST of this very message to the
    -- notification URL was tried, and it is acknowledged.
    pub update_order_status-posted :
        (w v : World) (response : Response) (n : ℕ) (o : Outbox G)
        → route env header (Request.update_order_status k body) w ≡ (ok response, v)
        → map (λ (m : Message). m.status) (entries group o.group) ≡ v.stream
        → All (Done o) (group.handed o.group)
        → length (group.waiting o.group) ≤ n
        → let o' = worker_rounds remote n o in
          (before : List Message) × (m : Message) × (entries group o.group ≡ before ++ m ∷ [])
          × (map (λ (x : Message). x.status) before ≡ w.stream)
          × (m.status ≡ status_value body.status)
          × Memᴰ m o'.posts
          × Memᴰ m.id o'.acks
    update_order_status-posted w v response n o e added done le =
        let (before, m, all, same, new) =
          last_message w.stream (status_value body.status) (entries group o.group)
            (added ∙ route-stream w v response e) in
        let (posted, acked) = done_last (worker_rounds remote n o) before m (
          subst (All (Done (worker_rounds remote n o))) all (
            worker_rounds-Done group remote claims reads acknowledges advances reached posts_end
              claims_answer reads_answer n o done le)) in
        (before, m, all, same, new, posted, acked)
