-- ===== src/Decimal/Rounding.antt =====
-- Amounts of whole cents, on which `quantize` does nothing.
use coffee_shop_api.Prelude.{◌≡◌, refl, ap, ◌∙◌, List, [], ◌∷◌, map}
use coffee_shop_api.Prelude.Int.{ℤ, pos, ◌+ℤ◌, scale, scale_one, +ℤ_assoc, zero-+ℤ, int_laws}
use coffee_shop_api.Decimal.{Decimal, zero_decimal, add, quantize, sum}

-- an amount of whole cents, written with two places
abbrev pub cents : ℤ → Decimal
cents n = record { coefficient = n; places = 2 }

pub quantize-cents : (n : ℤ) → quantize (cents n) ≡ cents n
unfolding quantize
quantize-cents n = ap cents (scale_one n)

pub quantize-quantize : (d : Decimal) → quantize (quantize d) ≡ quantize d
unfolding quantize
quantize-quantize d = quantize-cents (quantize d).coefficient

pub add-cents : (m n : ℤ) → add (cents m) (cents n) ≡ cents (m +ℤ n)
unfolding add
add-cents m n = rw (scale_one m, scale_one n)

-- the sum of some amounts, from the left
abbrev pub sum_cents : List ℤ → ℤ
sum_cents [] = pos 0
sum_cents (n ∷ ns) = n +ℤ sum_cents ns

sum-cents :
    (start : ℤ) (ns : List ℤ) → sum (cents start) (map cents ns) ≡ cents (start +ℤ sum_cents ns)
unfolding sum
sum-cents start [] = ap cents (omega int_laws)
sum-cents start (n ∷ ns) =
    ap (λ d. sum d (map cents ns)) (add-cents start n)
    ∙ sum-cents (start +ℤ n) ns
    ∙ ap cents (+ℤ_assoc start n (sum_cents ns))

add-zero_decimal : (n : ℤ) → add zero_decimal (cents n) ≡ cents n
unfolding add scale
add-zero_decimal n = ap cents (zero-+ℤ (scale 1 n) ∙ scale_one n)

-- The sum of amounts of whole cents, quantized, is their sum in cents: nothing is rounded.
pub quantize-sum : (ns : List ℤ) → quantize (sum zero_decimal (map cents ns)) ≡ cents (sum_cents ns)
unfolding sum quantize scale
quantize-sum [] = refl
quantize-sum (n ∷ ns) =
    ap (λ d. quantize (sum d (map cents ns))) (add-zero_decimal n)
    ∙ ap quantize (sum-cents n ns)
    ∙ quantize-cents (sum_cents (n ∷ ns))
