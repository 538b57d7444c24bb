-- ===== src/Examples/OrderRuns.antt =====
-- Instances of the theorems on the order lifecycle, on prices and on collars.
use seven_lens_paper_trading.Prelude.{
  ◌≡◌, ◌≢◌, refl, ◌*◌, ◌+◌, ◌-◌, ◌<◌, leb, ◌&&◌, true, false, arith,
}
use seven_lens_paper_trading.Prelude.Int.{pos, negsuc, ◌+ℤ◌}
use seven_lens_paper_trading.Prelude.Result.{ok}
use seven_lens_paper_trading.Orders.Status.{
  created, risk_approved, outbox_pending, submitting, unknown, filled, cancel_pending, canceled,
  review_required, order_transition_allowed,
}
use seven_lens_paper_trading.Orders.Status.Lifecycle.{History, here, then, no_resubmit}
use seven_lens_paper_trading.Orders.Money.{
  finite, Price, IsPrice, price, price_from_cents, price_from_cents-cents,
}
use seven_lens_paper_trading.Orders.Collar.{
  PriceCollar, IsCollar, contains, lower_cents, upper_cents, contains-exact, contains_complete,
  contains_sound,
}

unknown_to_canceled : History unknown canceled
unfolding order_transition_allowed
unknown_to_canceled = then {t = cancel_pending} refl (then refl here)

no_resubmit_example :
    (canceled ≢ submitting)
    × (canceled ≢ outbox_pending)
    × (canceled ≢ risk_approved)
    × (canceled ≢ created)
unfolding order_transition_allowed
no_resubmit_example = no_resubmit unknown canceled refl unknown_to_canceled

filled_to_review : History filled review_required
unfolding order_transition_allowed
filled_to_review = then refl here

created_to_unknown : History created unknown
unfolding order_transition_allowed
created_to_unknown =
    then {t = risk_approved} refl
      (then {t = outbox_pending} refl (then {t = submitting} refl (then refl here)))

abbrev ten_dollars : Price
ten_dollars = record { cents = 1000 }

ten_dollars-IsPrice : IsPrice ten_dollars
ten_dollars-IsPrice = record { positive = omega arith; bounded = omega arith }

ten_dollars_accepted : price (finite false 1000 (negsuc 1)) ≡ ok ten_dollars
unfolding price ◌+ℤ◌
ten_dollars_accepted = refl

price_from_cents-cents_example : price_from_cents (pos 1000) ≡ ok ten_dollars
price_from_cents-cents_example = price_from_cents-cents ten_dollars ten_dollars-IsPrice

abbrev collar : PriceCollar
collar = record { reference = ten_dollars; offset_bps = 150 }

collar-IsCollar : IsCollar collar
collar-IsCollar = record {
  priced = ten_dollars-IsPrice;
  at_least = omega arith;
  at_most = omega arith;
}

abbrev limit : Price
limit = record { cents = 1010 }

limit-IsPrice : IsPrice limit
limit-IsPrice = record { positive = omega arith; bounded = omega arith }

contains-exact_example :
    contains collar limit ≡ ok (leb (lower_cents collar) 1010 && leb 1010 (upper_cents collar))
contains-exact_example = contains-exact collar limit collar-IsCollar (omega arith)

limit_contained : contains collar limit ≡ ok true
limit_contained =
    contains_complete collar limit collar-IsCollar limit-IsPrice (omega arith) (omega arith)
      (omega arith)

contains_sound_example :
    (1000 * (10000 - 150) < (1010 + 1) * 10000)
    × (1010 * 10000 < 1000 * (10000 + 150) + 10000)
    × (1000 * 19 < (1010 + 1) * 20)
    × (1010 * 20 < 1000 * 21 + 20)
contains_sound_example = contains_sound collar limit collar-IsCollar limit_contained
