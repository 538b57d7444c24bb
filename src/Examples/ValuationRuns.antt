-- ===== src/Examples/ValuationRuns.antt =====
-- An account with six shares at 120 dollars.
use seven_lens_paper_trading.Prelude.{◌≡◌, refl, ltb, if◌then◌else◌, [], ◌∷◌, some, none, arith}
use seven_lens_paper_trading.Prelude.Int.{pos, negsuc, abs, ◌+ℤ◌}
use seven_lens_paper_trading.Prelude.Dict.{Dict, lookup}
use seven_lens_paper_trading.Prelude.Result.{ok, err}
use seven_lens_paper_trading.Orders.Money.{Price}
use seven_lens_paper_trading.Ledger.Lots.{
  max_abs_cents, cash_out_of_range, missing_price, negative_opening_cash, OpenLot,
}
use seven_lens_paper_trading.Ledger.{
  LedgerProjection, account_valuation, account_equity_from_cash_and_positions,
}
use seven_lens_paper_trading.Ledger.Valuation.{
  is_negative, unpriced_refused, account_value, account_valuation-account_value,
  account_valuation-account_equity_from_cash_and_positions,
}

abbrev six_shares : OpenLot
six_shares = record {
  symbol = "AAPL";
  quantity = 6;
  price = record { cents = 10000 };
  opened_at = 1;
}

abbrev held_six : LedgerProjection
held_six = record { cash_delta_cents = negsuc 55999; lots = six_shares ∷ [] }

abbrev prices : Dict Price
prices = ("AAPL", record { cents = 12000 }) ∷ []

priced : lookup "AAPL" prices ≡ some (record { cents = 12000 })
unfolding lookup
priced = refl

cash_in_range : ltb max_abs_cents (abs (pos 100000 +ℤ negsuc 55999)) ≡ ltb max_abs_cents 44000
unfolding ◌+ℤ◌
cash_in_range = refl

account_valuation-account_value_example : account_valuation held_six (pos 100000) prices ≡ (
    if is_negative (pos 100000)
    then err negative_opening_cash
    else if ltb max_abs_cents (abs (account_value held_six (pos 100000) prices))
    then err cash_out_of_range
    else ok (account_value held_six (pos 100000) prices))
account_valuation-account_value_example =
    account_valuation-account_value held_six (pos 100000) prices
      ((record { cents = 12000 }, priced), tt)

account_valuation-account_equity_from_cash_and_positions_example :
    account_valuation held_six (pos 100000) prices
    ≡ account_equity_from_cash_and_positions (pos 100000 +ℤ negsuc 55999) (six_shares ∷ []) prices
unfolding ◌+ℤ◌
account_valuation-account_equity_from_cash_and_positions_example =
    account_valuation-account_equity_from_cash_and_positions held_six 100000 prices (omega arith)

no_price : lookup {V = Price} "AAPL" [] ≡ none
unfolding lookup
no_price = refl

unpriced_refused_example :
    (account_valuation held_six (pos 100000) [] ≡ err missing_price)
    × (account_equity_from_cash_and_positions (pos 44000) (six_shares ∷ []) [] ≡ err missing_price)
unpriced_refused_example =
    unpriced_refused held_six 100000 (pos 44000) [] [] six_shares [] refl no_price (omega arith)
