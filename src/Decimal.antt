-- ===== src/Decimal.antt =====
-- Python's `decimal.Decimal` as the program uses it for money: a coefficient and a number of
-- decimal places, with addition, comparison and `quantize(Decimal("0.01"))`, which rounds half to
-- even. The context's precision of 28 digits is above what `Numeric(10, 2)` columns can reach, so
-- it is left out, as are NaN and the infinities.
pub mod Rounding
use coffee_shop_api.Prelude.{
  ℕ, zero, suc, ◌+◌, ◌-◌, ◌*◌, ◌/◌, ◌%◌, ◌^◌, Bool, List, [], ◌∷◌, max, ltb, leb, ◌==◌,
  if◌then◌else◌,
}
use coffee_shop_api.Prelude.Int.{ℤ, pos, negsuc, ◌+ℤ◌, ◌==ℤ◌, scale}

-- coefficient · 10 ^ (- places)
pub record Decimal : Type 0 where
  pub coefficient : ℤ
  pub places : ℕ

-- `Decimal(0)`
abbrev pub zero_decimal : Decimal
zero_decimal = record { coefficient = pos 0; places = 0 }

-- the coefficient at `p` places, for `p` not below the number's own
unfoldable pub align : ℕ → Decimal → ℤ
align p d = scale (10 ^ (p - d.places)) d.coefficient

unfoldable pub add : Decimal → Decimal → Decimal
unfolding align
add a b =
    let p = max a.places b.places in record { coefficient = align p a +ℤ align p b; places = p }

-- `a == b`, which compares values: Decimal("4.0") == Decimal("4.00")
unfoldable pub eq_decimal : Decimal → Decimal → Bool
unfolding align
eq_decimal a b = let p = max a.places b.places in align p a ==ℤ align p b

-- a magnitude over `unit`, to the nearest integer, ties to the even one
unfoldable pub round_half_even : ℕ → ℕ → ℕ
round_half_even unit n =
    let q = n / unit in
    let r = n % unit in
    if ltb (2 * r) unit
    then q
    else if ltb unit (2 * r)
    then q + 1
    else if (q % 2) == 0
    then q
    else q + 1

abbrev negate : ℕ → ℤ
negate zero = pos 0
negate (suc n) = negsuc n

unfoldable pub round_signed : ℕ → ℤ → ℤ
unfolding round_half_even
round_signed unit (pos n) = pos (round_half_even unit n)
round_signed unit (negsuc n) = negate (round_half_even unit (suc n))

-- `d.quantize(Decimal("0.01"))`
unfoldable pub quantize : Decimal → Decimal
unfolding align round_signed
quantize d = record {
  coefficient =
      if leb d.places 2 then align 2 d else round_signed (10 ^ (d.places - 2)) d.coefficient;
  places = 2;
}

-- `sum(terms, start)`
unfoldable pub sum : Decimal → List Decimal → Decimal
sum start [] = start
sum start (d ∷ ds) = sum (add start d) ds
