-- ===== src/Orders/Money.antt =====
-- Whole-share quantities and exact two-decimal amounts (src/seven_lens/execution/orders.py:
-- OrderQuantity, Price, UsdAmount). A validated amount is kept as what its `cents` property computes
-- from its value, which never changes.
use seven_lens_paper_trading.Prelude.{
  ℕ, zero, suc, ◌*◌, ◌/◌, ◌≤◌, ◌≡◌, refl, ap, Bool, false, not, ◌&&◌, ◌||◌, ltb, ◌==◌,
  if◌then◌else◌, arith,
}
use seven_lens_paper_trading.Prelude.Int.{ℤ, pos, negsuc, ◌+ℤ◌}
use seven_lens_paper_trading.Prelude.Result.{Result, ok, err}
use seven_lens_paper_trading.Orders.Status.{OrderError, invalid_value}

-- A `Decimal`: sign, coefficient and exponent, or a NaN or an infinity.
pub data Decimal : Type 0 where
  finite : Bool → ℕ → ℤ → Decimal
  special : Decimal

-- `is_finite()` and `as_tuple().exponent == -2`
abbrev pub has_two_decimals : Decimal → Bool
has_two_decimals (finite negative coefficient (pos e)) = false
has_two_decimals (finite negative coefficient (negsuc e)) = e == 1
has_two_decimals special = false

-- `scaleb(k)`: the exponent moves
unfoldable pub scaleb : Decimal → ℤ → Decimal
scaleb (finite negative coefficient exponent) k = finite negative coefficient (exponent +ℤ k)
scaleb special k = special

abbrev power_of_ten : ℕ → ℕ
power_of_ten zero = 1
power_of_ten (suc n) = 10 * power_of_ten n

-- the magnitude of `int(value)`, which cuts the decimals off
unfoldable pub whole_part : Decimal → ℕ
whole_part (finite negative coefficient (pos e)) = coefficient * power_of_ten e
whole_part (finite negative coefficient (negsuc e)) = coefficient / power_of_ten (suc e)
whole_part special = 0

abbrev pub price_max_cents : ℕ
price_max_cents = 1000000000

abbrev pub usd_max_cents : ℕ
usd_max_cents = 1000000000000

pub record OrderQuantity : Type 0 where
  pub value : ℕ

-- `OrderQuantity(value)`
unfoldable pub order_quantity : ℤ → Result OrderError OrderQuantity
order_quantity (pos n) = if ltb n 1 then err invalid_value else ok (record { value = n })
order_quantity (negsuc n) = err invalid_value

pub record Price : Type 0 where
  pub cents : ℕ

-- `Price.cents`, of the value
unfoldable pub price_cents : Decimal → ℕ
unfolding scaleb whole_part
price_cents value = whole_part (scaleb value (pos 2))

-- `Price(value)`
unfoldable pub price : Decimal → Result OrderError Price
unfolding price_cents
price (finite negative coefficient exponent) =
    if not (has_two_decimals (finite negative coefficient exponent))
    then err invalid_value
    else if negative || coefficient == 0 || ltb price_max_cents coefficient
    then err invalid_value
    else ok (record { cents = price_cents (finite negative coefficient exponent) })
price special = err invalid_value

-- `Price.from_cents(cents)`
unfoldable pub price_from_cents : ℤ → Result OrderError Price
unfolding price scaleb
price_from_cents (pos n) =
    if ltb n 1 || ltb price_max_cents n
    then err invalid_value
    else price (scaleb (finite false n (pos 0)) (negsuc 1))
price_from_cents (negsuc n) = err invalid_value

pub record UsdAmount : Type 0 where
  pub cents : ℕ

-- `UsdAmount.cents`, of the value
unfoldable pub usd_cents : Decimal → ℕ
unfolding scaleb whole_part
usd_cents value = whole_part (scaleb value (pos 2))

-- `UsdAmount(value)`; the sign of a zero is accepted and lost
unfoldable pub usd_amount : Decimal → Result OrderError UsdAmount
unfolding usd_cents
usd_amount (finite negative coefficient exponent) =
    if not (has_two_decimals (finite negative coefficient exponent))
    then err invalid_value
    else if (negative && not (coefficient == 0)) || (not negative && ltb usd_max_cents coefficient)
    then err invalid_value
    else ok (record { cents = usd_cents (finite negative coefficient exponent) })
usd_amount special = err invalid_value

-- `UsdAmount.from_cents(cents)`
unfoldable pub usd_amount_from_cents : ℤ → Result OrderError UsdAmount
unfolding usd_amount scaleb
usd_amount_from_cents (pos n) =
    if ltb usd_max_cents n
    then err invalid_value
    else usd_amount (scaleb (finite false n (pos 0)) (negsuc 1))
usd_amount_from_cents (negsuc n) = err invalid_value

-- The value that a `Price` holds.
abbrev pub price_value : Price → Decimal
price_value p = finite false p.cents (negsuc 1)

-- What every accepted price satisfies.
pub record IsPrice (p : Price) : Type 0 where
  pub positive : 1 ≤ p.cents
  pub bounded : p.cents ≤ price_max_cents

-- The cents of a value with two decimals are its coefficient.
pub price_cents_two : (negative : Bool) (n : ℕ) → price_cents (finite negative n (negsuc 1)) ≡ n
unfolding price_cents ◌+ℤ◌
price_cents_two negative n = omega arith

hundredths : (n : ℕ) → scaleb (finite false n (pos 0)) (negsuc 1) ≡ finite false n (negsuc 1)
unfolding scaleb ◌+ℤ◌
hundredths n = refl

-- An accepted price is positive, at most ten million, and keeps the very decimal, with its two
-- decimals, that it was built from.
price-exact : (d : Decimal) (p : Price) → price d ≡ ok p → IsPrice p × (price_value p ≡ d)
unfolding price
price-exact (finite negative coefficient (pos e)) p h = cc
price-exact (finite negative coefficient (negsuc zero)) p h = cc
price-exact (finite negative coefficient (negsuc (suc zero))) p h =
    ground (arith, price_cents_two negative coefficient)
price-exact (finite negative coefficient (negsuc (suc (suc e)))) p h = ground arith
price-exact special p h = cc

price_two : (p : Price) → IsPrice p → price (finite false p.cents (negsuc 1)) ≡ ok p
unfolding price
price_two p v = ground (arith, price_cents_two false p.cents)

-- Building a price from the cents of a valid price gives that price again: the cents are scaled by two
-- decimals into its value, and its value back into the cents.
pub price_from_cents-cents : (p : Price) → IsPrice p → price_from_cents (pos p.cents) ≡ ok p
unfolding price_from_cents
price_from_cents-cents p v = ground (arith, ap price (hundredths p.cents), price_two p v)
