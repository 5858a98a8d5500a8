-- ===== src/Tests/Money.antt =====
-- Amounts of money.
use coffee_shop_api.Prelude.{◌≡◌, refl}
use coffee_shop_api.Prelude.Int.{pos, negsuc}
use coffee_shop_api.Decimal.{quantize}
use coffee_shop_api.Decimal.Rounding.{cents}

-- Decimal("0.125") goes down to 0.12, and Decimal("-0.375") to -0.38.
down : quantize (record { coefficient = pos 125; places = 3 }) ≡ cents (pos 12)
unfolding quantize
down = refl

up : quantize (record { coefficient = negsuc 374; places = 3 }) ≡ cents (negsuc 37)
unfolding quantize
up = refl
