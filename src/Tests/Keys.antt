-- ===== src/Tests/Keys.antt =====
-- Saved responses.
use coffee_shop_api.Prelude.{◌≡◌, refl, some}
use coffee_shop_api.App.{ok, advance}
use coffee_shop_api.Repositories.Idempotency.{get, save}
use coffee_shop_api.Repositories.Idempotency.Expiry.{get-save}
use coffee_shop_api.Samples.{sample_engine, order_body, shop}

get-save_example :
    get sample_engine "k1" (advance 5000000 (save sample_engine "k1" 201 order_body shop).1) ≡ (
      ok (some (record { status_code = 201; body = order_body })),
      advance 5000000 (save sample_engine "k1" 201 order_body shop).1,
    )
get-save_example = get-save sample_engine "k1" 201 order_body 5000000 shop refl
