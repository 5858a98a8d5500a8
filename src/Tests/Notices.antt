-- ===== src/Tests/Notices.antt =====
-- From an update of an order to the notification URL.
use mathlib.Core.List.{Memᴰ}
use coffee_shop_api.Prelude.{map, ◌≡◌, refl, some, [], ◌∷◌, ◌++◌, List, arith}
use coffee_shop_api.Entities.{OrderStatus}
use coffee_shop_api.App.{Result, ok, err}
use coffee_shop_api.Auth.{decode_access_token}
use coffee_shop_api.Api.{Response, Content, get_current_user, require_role}
use coffee_shop_api.Repositories.RevokedTokens.{is_revoked}
use coffee_shop_api.Repositories.Users.{parse_role}
use coffee_shop_api.Repositories.Orders.{update_status, get_by_id, parse_status}
use coffee_shop_api.UseCases.UpdateOrderStatus.{update_existing, execute}
use coffee_shop_api.Routes.Orders.{update_order_status, updated_response}
use coffee_shop_api.Services.{notify}
use coffee_shop_api.Worker.{Message}
use coffee_shop_api.Worker.Loop.{worker_rounds}
use coffee_shop_api.Worker.Group.{entries}
use coffee_shop_api.System.{Environment, Request, route}
use coffee_shop_api.System.Notices.{update_order_status-posted}
use coffee_shop_api.Samples.{shop_with_order}
use coffee_shop_api.Tests.System.{service}
use coffee_shop_api.Tests.Group.{
  Lists, lists, in_lists, begin, claims, reads, acknowledges, advances, posts_end, claims_answer,
  reads_answer,
}

-- a manager's token
abbrev manager_service : Environment
manager_service = record service {
  jose = record service.jose {
    decode = λ now token.
        some (record {
          sub = some "u7";
          role = some "MANAGER";
          exp = some 1700003600;
          jti = some "u7";
        });
  };
}

abbrev answer_of : Result Response → Response
answer_of (ok r) = r
answer_of (err e) = record { status_code = 500; content = Content.internal_error }

abbrev request : Request
request = Request.update_order_status 5 (record { status = OrderStatus.preparation })

abbrev preparing : Lists
preparing = record {
  handed = [];
  waiting = record { id = "1-0"; status = "PREPARATION" } ∷ [];
  pending = [];
}

update_order_status-posted_example :
    let o' = worker_rounds in_lists 1 (begin preparing) in
    (before : List Message) × (m : Message) × (entries lists preparing ≡ before ++ m ∷ [])
    × (map (λ (x : Message). x.status) before ≡ [])
    × (m.status ≡ "PREPARATION")
    × Memᴰ m o'.posts
    × Memᴰ m.id o'.acks
unfolding route update_order_status updated_response execute update_existing update_status get_by_id
    notify get_current_user decode_access_token is_revoked parse_role require_role parse_status
update_order_status-posted_example =
    let p = route manager_service (some "Bearer t1") request shop_with_order in
    update_order_status-posted manager_service (some "Bearer t1") 5
      (record { status = OrderStatus.preparation }) lists in_lists claims reads acknowledges
      advances (λ id g. refl) posts_end claims_answer reads_answer shop_with_order p.1
      (answer_of p.0) 1 (begin preparing) refl refl tt (omega arith)
