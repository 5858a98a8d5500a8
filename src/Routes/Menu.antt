-- ===== src/Routes/Menu.antt =====
-- src/infrastructure/api/routes/product_routes.py and healthcheck_routes.py.
use coffee_shop_api.Prelude.{ℕ, ◌-◌, ◌*◌, not, map}
use coffee_shop_api.Schemas.{menu_item_response, dump_menu}
use coffee_shop_api.App.{App, pure, raise_if, ◌>>=◌, ◌>>◌}
use coffee_shop_api.Api.{Content, Response, respond, http_error}
use coffee_shop_api.Repositories.{ProductRepository}
use coffee_shop_api.Routes.Orders.{is_valid_page}
use coffee_shop_api.UseCases.Queries

-- GET /menu
unfoldable pub get_menu : ProductRepository → ℕ → ℕ → App Response
get_menu repo page page_size = do
  raise_if (not (is_valid_page page page_size)) (http_error 422 "Unprocessable Content")
  (items, total) ← Queries.get_menu repo ((page - 1) * page_size) page_size
  pure (
      respond 200 (
        Content.json (
          dump_menu (record {
            items = map menu_item_response items;
            total = total;
            page = page;
            page_size = page_size;
          }))))

-- GET /healthcheck
unfoldable pub healthcheck : App Response
healthcheck = pure (respond 200 Content.healthy)
