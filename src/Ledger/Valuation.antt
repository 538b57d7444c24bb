-- ===== src/Ledger/Valuation.antt =====
-- The two valuations of ledger.py.
use seven_lens_paper_trading.Prelude.{
  ℕ, ◌+◌, ◌*◌, ◌≤◌, ◌≡◌, refl, ap, ◌∙◌, ltb, if◌then◌else◌, All, ◌++◌, none, some, List, [], ◌∷◌,
  sum_by, arith, inl, inr, Option-cases, Bool, true, false,
}
use seven_lens_paper_trading.Prelude.Int.{ℤ, pos, negsuc, abs, ◌+ℤ◌}
use seven_lens_paper_trading.Prelude.Dict.{Dict, lookup}
use seven_lens_paper_trading.Prelude.Result.{ok, err}
use seven_lens_paper_trading.Orders.Money.{Price}
use seven_lens_paper_trading.Ledger.Lots.{
  OpenLot, missing_price, negative_opening_cash, cash_out_of_range, max_abs_cents,
}
use seven_lens_paper_trading.Ledger.{
  LedgerProjection, market_value, equity_value, account_valuation,
  account_equity_from_cash_and_positions,
}

-- The two loops over the lots add up the same.
equity_value-market_value :
    (prices : Dict Price) (total : ℕ) (lots : List OpenLot)
    → market_value prices total lots ≡ equity_value prices total lots
unfolding market_value equity_value
equity_value-market_value prices total [] = refl
equity_value-market_value prices total (lot ∷ lots) =
    elim (Option-cases (lookup lot.symbol prices)) [
      | inl missing ↦ rw missing refl
      | inr (price, e) ↦
          rw e (equity_value-market_value prices (total + lot.quantity * price.cents) lots)
    ]

-- For an opening cash that is not negative, the value of an account is its equity from the opening cash
-- with the projected cash added and from the projected lots, error for error, as long as that cash is
-- in range.
pub account_valuation-account_equity_from_cash_and_positions :
    (p : LedgerProjection) (opening : ℕ) (prices : Dict Price)
    → abs (pos opening +ℤ p.cash_delta_cents) ≤ max_abs_cents
    → account_valuation p (pos opening) prices
      ≡ account_equity_from_cash_and_positions (pos opening +ℤ p.cash_delta_cents) p.lots prices
unfolding account_valuation account_equity_from_cash_and_positions
account_valuation-account_equity_from_cash_and_positions p opening prices h =
    ground (arith, equity_value-market_value prices 0 p.lots)

-- The market value of a lot, nothing where its symbol has no price.
abbrev pub lot_value : Dict Price → OpenLot → ℕ
lot_value prices lot = elim (lookup lot.symbol prices) [
  | none ↦ 0
  | some price ↦ lot.quantity * price.cents
]

-- The symbol of the lot has a price.
abbrev pub IsPriced : Dict Price → OpenLot → Type 0
IsPriced prices lot = (price : Price) × (lookup lot.symbol prices ≡ some price)

market_value-sum_by :
    (prices : Dict Price) (total : ℕ) (lots : List OpenLot)
    → All (IsPriced prices) lots
    → market_value prices total lots ≡ ok (total + sum_by (lot_value prices) lots)
unfolding market_value
market_value-sum_by prices total [] v = ap (λ (n : ℕ). ok n) (omega arith)
market_value-sum_by prices total (lot ∷ lots) v =
    let (price, e) = v.0 in
    let rest = market_value-sum_by prices (total + lot.quantity * price.cents) lots v.1 in
    let worth : lot_value prices lot ≡ lot.quantity * price.cents = rw (e, lot_value) refl in
    rw e (rest ∙ ap (λ (n : ℕ). ok n) (omega (arith, worth)))

-- The value of an account: opening cash, projected cash, and every lot at its price.
abbrev pub account_value : LedgerProjection → ℤ → Dict Price → ℤ
account_value p opening prices =
    opening +ℤ p.cash_delta_cents +ℤ pos (sum_by (lot_value prices) p.lots)

abbrev pub is_negative : ℤ → Bool
is_negative (pos n) = false
is_negative (negsuc n) = true

-- Where every lot's symbol has a price, the valuation raises for a negative opening cash; for any other
-- it answers exactly with opening cash, projected cash and every lot at its price, and raises only if
-- that sum is out of range.
pub account_valuation-account_value :
    (p : LedgerProjection) (opening : ℤ) (prices : Dict Price)
    → All (IsPriced prices) p.lots
    → account_valuation p opening prices ≡ (
        if is_negative opening
        then err negative_opening_cash
        else if ltb max_abs_cents (abs (account_value p opening prices))
        then err cash_out_of_range
        else ok (account_value p opening prices))
unfolding account_valuation
account_valuation-account_value p (pos opening) prices v =
    let whole : 0 + sum_by (lot_value prices) p.lots ≡ sum_by (lot_value prices) p.lots =
      omega arith in
    rw (market_value-sum_by prices 0 p.lots v, whole) refl
account_valuation-account_value p (negsuc n) prices v = refl

unpriced-err :
    (prices : Dict Price) (total : ℕ) (before : List OpenLot) (lot : OpenLot) (after : List OpenLot)
    → lookup lot.symbol prices ≡ none
    → market_value prices total (before ++ lot ∷ after) ≡ err missing_price
unfolding market_value
unpriced-err prices total [] lot after h = rw h refl
unpriced-err prices total (b ∷ before) lot after h = elim (Option-cases (lookup b.symbol prices)) [
  | inl missing ↦ rw missing refl
  | inr (price, e) ↦
      rw e (unpriced-err prices (total + b.quantity * price.cents) before lot after h)
]

-- A symbol without a price is never valued at zero: if some lot has none, both valuations raise, the
-- first one for every opening cash that is not negative, and the second one for every cash in range.
pub unpriced_refused :
    (p : LedgerProjection) (opening : ℕ) (cash : ℤ) (prices : Dict Price) (before : List OpenLot)
    (lot : OpenLot) (after : List OpenLot)
    → p.lots ≡ before ++ lot ∷ after
    → lookup lot.symbol prices ≡ none
    → abs cash ≤ max_abs_cents
    → (account_valuation p (pos opening) prices ≡ err missing_price)
      × (account_equity_from_cash_and_positions cash p.lots prices ≡ err missing_price)
unfolding account_valuation account_equity_from_cash_and_positions
unpriced_refused p opening cash prices before lot after split h k =
    let e = ap (λ l. market_value prices 0 l) split ∙ unpriced-err prices 0 before lot after h in
    let same = equity_value-market_value prices 0 p.lots in (rw e refl, ground (arith, e, same))
