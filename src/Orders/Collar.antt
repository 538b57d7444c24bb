-- ===== src/Orders/Collar.antt =====
-- The band that a limit price may lie in (src/seven_lens/execution/orders.py, PriceCollar). A product of a
-- price and `1 ± bps/10000` has at most 18 digits, so the source's `Decimal` product is exact.
use seven_lens_paper_trading.Prelude.{
  ℕ, ◌+◌, ◌-◌, ◌*◌, ◌/◌, ◌≤◌, ◌<◌, ◌≡◌, sym, ap, ◌∙◌, Bool, true, false, ◌&&◌, ◌||◌, ltb, leb,
  if◌then◌else◌, arith,
}
use Prim.Native.Nat.{max}
use native.Mathlib.Nat.{mul-add}
use seven_lens_paper_trading.Prelude.Int.{negsuc}
use seven_lens_paper_trading.Prelude.Result.{Result, ok, err, ◌>>=◌}
use seven_lens_paper_trading.Orders.Status.{OrderError, invalid_value}
use seven_lens_paper_trading.Orders.Money.{
  Price, IsPrice, finite, price, price_max_cents, price_cents_two,
}

abbrev pub collar_offset_bps_min : ℕ
collar_offset_bps_min = 1

abbrev pub collar_offset_bps_max : ℕ
collar_offset_bps_max = 500

pub record PriceCollar : Type 0 where
  pub reference : Price
  pub offset_bps : ℕ

-- `PriceCollar(reference, offset_bps)`
unfoldable pub price_collar : Price → ℕ → Result OrderError PriceCollar
price_collar reference offset_bps =
    if ltb offset_bps collar_offset_bps_min || ltb collar_offset_bps_max offset_bps
    then err invalid_value
    else ok (record { reference = reference; offset_bps = offset_bps })

-- `lower_limit`, rounded down to a cent and at least one cent
unfoldable pub lower_limit : PriceCollar → Result OrderError Price
unfolding price
lower_limit c =
    price (finite false (max (c.reference.cents * (10000 - c.offset_bps) / 10000) 1) (negsuc 1))

-- `upper_limit`, rounded up to a cent: it raises where that passes the greatest price
unfoldable pub upper_limit : PriceCollar → Result OrderError Price
unfolding price
upper_limit c =
    price (finite false ((c.reference.cents * (10000 + c.offset_bps) + 9999) / 10000) (negsuc 1))

-- `contains`: the second comparison is made only if the first holds
unfoldable pub contains : PriceCollar → Price → Result OrderError Bool
unfolding lower_limit upper_limit
contains c p = do
  lower ← lower_limit c
  if leb lower.cents p.cents
      then (do upper ← upper_limit c; ok (leb p.cents upper.cents))
      else ok false

pub record IsCollar (c : PriceCollar) : Type 0 where
  pub priced : IsPrice c.reference
  pub at_least : collar_offset_bps_min ≤ c.offset_bps
  pub at_most : c.offset_bps ≤ collar_offset_bps_max

-- The cents of the two limits.
abbrev pub lower_cents : PriceCollar → ℕ
lower_cents c = max (c.reference.cents * (10000 - c.offset_bps) / 10000) 1

abbrev pub upper_cents : PriceCollar → ℕ
upper_cents c = (c.reference.cents * (10000 + c.offset_bps) + 9999) / 10000

band_of :
    (r b : ℕ)
    → 1 ≤ b
    → b ≤ 500
    → (r * (10000 - b) + r * b ≡ r * 10000)
      × (r * (10000 + b) ≡ r * 10000 + r * b)
      × (r * b ≤ r * 500)
      × (r ≤ r * b)
band_of r b h k =
    let e : 10000 - b + b ≡ 10000 = omega arith in
    (sym (mul-add r (10000 - b) b) ∙ ap (λ (n : ℕ). r * n) e, omega arith, grind arith, grind arith)

band :
    (c : PriceCollar)
    → IsCollar c
    → let r = c.reference.cents in
      let b = c.offset_bps in
      (r * (10000 - b) + r * b ≡ r * 10000)
      × (r * (10000 + b) ≡ r * 10000 + r * b)
      × (r * b ≤ r * 500)
      × (r ≤ r * b)
band c v = band_of c.reference.cents c.offset_bps v.at_least v.at_most

lower_limit_lem :
    (c : PriceCollar) → IsCollar c → lower_limit c ≡ ok (record { cents = lower_cents c })
unfolding lower_limit
lower_limit_lem c v = ground (arith, band c v, price_cents_two false (lower_cents c))

upper_limit_lem :
    (c : PriceCollar)
    → IsCollar c
    → upper_cents c ≤ price_max_cents
    → upper_limit c ≡ ok (record { cents = upper_cents c })
unfolding upper_limit
upper_limit_lem c v h = ground (arith, band c v, price_cents_two false (upper_cents c))

-- For a valid collar whose upper limit is a price, `contains` answers, and it answers yes exactly
-- for the prices between the two rounded limits.
pub contains-exact :
    (c : PriceCollar) (p : Price)
    → IsCollar c
    → upper_cents c ≤ price_max_cents
    → contains c p ≡ ok (leb (lower_cents c) p.cents && leb p.cents (upper_cents c))
unfolding contains
contains-exact c p v h = rw (lower_limit_lem c v, upper_limit_lem c v h) (ground arith)

-- For a valid collar whose upper limit is a price, every valid price that exactly satisfies the
-- collar's percentage is accepted.
pub contains_complete :
    (c : PriceCollar) (p : Price)
    → IsCollar c
    → IsPrice p
    → upper_cents c ≤ price_max_cents
    → c.reference.cents * (10000 - c.offset_bps) ≤ p.cents * 10000
    → p.cents * 10000 ≤ c.reference.cents * (10000 + c.offset_bps)
    → contains c p ≡ ok true
contains_complete c p v vp h low high = rw (contains-exact c p v h) (ground (arith, band c v))

-- For a valid collar, an accepted price is within one cent of the collar's percentage, so never more than five percent
-- and one cent away from the reference.
pub contains_sound :
    (c : PriceCollar) (p : Price)
    → IsCollar c
    → contains c p ≡ ok true
    → (c.reference.cents * (10000 - c.offset_bps) < (p.cents + 1) * 10000)
      × (p.cents * 10000 < c.reference.cents * (10000 + c.offset_bps) + 10000)
      × (c.reference.cents * 19 < (p.cents + 1) * 20)
      × (p.cents * 20 < c.reference.cents * 21 + 20)
unfolding contains lower_limit upper_limit
contains_sound c p v h =
    ground (
      arith,
      band c v,
      price_cents_two false (lower_cents c),
      price_cents_two false (upper_cents c),
    )
