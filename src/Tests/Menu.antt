-- ===== src/Tests/Menu.antt =====
-- The menu.
use coffee_shop_api.Prelude.{◌≡◌, map, ◌==◌, arith}
use coffee_shop_api.Repositories.Products.{to_entity, distinct_names}
use coffee_shop_api.Samples.{sample_engine, shop}
use coffee_shop_api.UseCases.Queries.{menu_variation}
use coffee_shop_api.UseCases.Queries.Menu.{count_if}
use coffee_shop_api.UseCases.Queries.Pages.{on_pages, get_menu-pages}

-- two pages of one name each
get_menu-pages_example :
    on_pages sample_engine (λ v. v.id == 2) 2 1 0 shop
    ≡ count_if (λ v. v.id == 2) (map (λ r. menu_variation (to_entity r)) shop.db.products)
unfolding distinct_names
get_menu-pages_example = get_menu-pages sample_engine (λ v. v.id == 2) 2 1 shop (omega arith)
