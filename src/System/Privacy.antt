-- ===== src/System/Privacy.antt =====
-- Whose orders a customer can open.
use coffee_shop_api.Prelude.{
  ◌≡◌, refl, ap, ◌∙◌, ◌⊎◌, String, Bool, false, ◌&&◌, Option, none, some, any,
}
use coffee_shop_api.Entities.{Uuid, Role}
use coffee_shop_api.Database.{OrderRow}
use coffee_shop_api.Engine.{Engine, fetch_one, fetch_one-none}
use coffee_shop_api.App.{World, ok, err, gets, ◌>>=◌, bind-ok}
use coffee_shop_api.Auth.{TokenData}
use coffee_shop_api.Api.{Response}
use coffee_shop_api.Repositories.Orders.{
  has_id, owned_by, found_detail, get_detail_by_id_for_user, order_repository,
}
use coffee_shop_api.UseCases.Queries.{get_order_detail}
use coffee_shop_api.Routes.Orders.{get_order, owner_filter, detail_response, not_found}
use coffee_shop_api.System.{Environment, Request, current_user, route, serve}
use coffee_shop_api.System.Access.{serve-error}

module _ (engine : Engine) (k user_id : Uuid) (w : World) where
  abbrev own : OrderRow → Bool
  own r = has_id k r && owned_by user_id r

  get_detail-none :
      any own w.db.orders ≡ false
      → get_order_detail (order_repository engine) k (some user_id) w ≡ (ok none, w)
  unfolding get_order_detail get_detail_by_id_for_user
  get_detail-none h =
      bind-ok (gets (λ x. fetch_one engine own x.db.orders)) (found_detail engine k) w none w
        (ap (λ (o : Option OrderRow). (ok o, w)) (fetch_one-none engine own w.db.orders h))

module _ (env : Environment) (header : Option String) where
  owner_filter-customer :
      (td : TokenData) → td.role ≡ Role.customer → owner_filter td ≡ some td.user_id
  owner_filter-customer td customer = rw customer refl

  route-hidden :
      (k : Uuid) (td : TokenData) (w : World)
      → current_user env header w ≡ (ok td, w)
      → get_order_detail (order_repository env.engine) k (owner_filter td) w ≡ (ok none, w)
      → route env header (Request.get_order k) w ≡ (err not_found, w)
  unfolding route get_order detail_response
  route-hidden k td w signed_in absent =
      bind-ok (current_user env header)
        (λ user.
          get_order_detail (order_repository env.engine) k (owner_filter user) >>= detail_response)
        w td w signed_in
      ∙ bind-ok (get_order_detail (order_repository env.engine) k (owner_filter td)) detail_response
          w none w absent

  -- A customer who asks for an order by its id, where no order of theirs has that id, is answered
  -- with a 404, or with a 401 by the middleware, and nothing changes: also where the order is there
  -- and is another user's.
  pub serve-hidden :
      (k : Uuid) (td : TokenData) (w : World)
      → current_user env header w ≡ (ok td, w)
      → td.role ≡ Role.customer
      → any (λ r. has_id k r && owned_by td.user_id r) w.db.orders ≡ false
      → (r : Response) × (serve env header (Request.get_order k) w ≡ (r, w))
        × ((r.status_code ≡ 404) ⊎ (r.status_code ≡ 401))
  serve-hidden k td w signed_in customer hidden =
      let absent =
        ap (λ (o : Option Uuid). get_order_detail (order_repository env.engine) k o w)
          (owner_filter-customer td customer)
        ∙ get_detail-none env.engine k td.user_id w hidden in
      serve-error env header (Request.get_order k) w not_found 404
        (route-hidden k td w signed_in absent) refl
