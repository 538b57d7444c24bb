-- ===== src/Ledger.antt =====
-- src/seven_lens/execution/ledger.py: cash and FIFO lots, projected from the append-only fills.
-- The children prove what the projection keeps.
pub mod Lots
pub mod Consume
pub mod Accounts
pub mod Totals
pub mod Conservation
pub mod Canonical
pub mod Valuation
use seven_lens_paper_trading.Prelude.{
  ℕ, ◌+◌, ◌-◌, ◌*◌, ◌≡◌, String, Bool, true, false, not, ◌&&◌, ◌||◌, Option, none, some, List, [],
  ◌∷◌, ◌++◌, ltb, leb, ◌==◌, elem, if◌then◌else◌,
}
use seven_lens_paper_trading.Prelude.Int.{ℤ, pos, negsuc, negsuc, abs, ◌+ℤ◌, ◌-ℤ◌}
use seven_lens_paper_trading.Prelude.Text.{str_eq, str_leb}
use seven_lens_paper_trading.Prelude.Dict.{Dict, lookup, insert}
use seven_lens_paper_trading.Prelude.Result.{Result, ok, err, ◌>>=◌, ◌>>◌, raise_if}
use seven_lens_paper_trading.Prelude.Sorting.{sorted}
use seven_lens_paper_trading.Orders.Status.{buy, sell}
use seven_lens_paper_trading.Orders.Money.{Price}
use seven_lens_paper_trading.Orders.Mirror.{BrokerOrder, Fill}
use Lots.{
  OpenLot, LedgerError, duplicate_execution, unknown_order, exceeds_order, cash_out_of_range,
  oversold, missing_price, negative_opening_cash, max_abs_cents, open_lot, sell_lots,
}

-- `sorted(fills, key=lambda item: (item.occurred_at.value, item.execution_id))`
unfoldable pub fill_leb : Fill → Fill → Bool
fill_leb a b =
    ltb a.occurred_at b.occurred_at
    || a.occurred_at == b.occurred_at && str_leb a.execution_id b.execution_id

-- `sorted(lots, key=lambda lot: (lot.symbol.value, lot.opened_at.value))`
unfoldable pub lot_leb : OpenLot → OpenLot → Bool
lot_leb a b =
    if str_eq a.symbol b.symbol then leb a.opened_at b.opened_at else str_leb a.symbol b.symbol

-- The variables of the loop of `project_ledger`.
pub record Replay : Type 0 where
  pub cash_cents : ℤ
  pub lots : List OpenLot
  pub seen_executions : List String
  pub filled_by_order : Dict ℕ

abbrev pub start : Replay
start = record { cash_cents = pos 0; lots = []; seen_executions = []; filled_by_order = [] }

-- `d.get(k, 0)`
abbrev pub count_of : Option ℕ → ℕ
count_of none = 0
count_of (some n) = n

-- a buy debits cash and opens a lot
unfoldable pub apply_buy : BrokerOrder → Fill → Replay → Result LedgerError Replay
unfolding open_lot
apply_buy order fill r = do
  let cash = r.cash_cents -ℤ pos (fill.quantity.value * fill.price.cents)
  raise_if (ltb max_abs_cents (abs cash)) cash_out_of_range
  lot ← open_lot (record {
    symbol = order.symbol;
    quantity = fill.quantity.value;
    price = fill.price;
    opened_at = fill.occurred_at;
  })
  ok (record r { cash_cents = cash; lots = r.lots ++ lot ∷ [] })

-- a sell consumes lots of its symbol and credits cash
unfoldable pub apply_sell : BrokerOrder → Fill → Replay → Result LedgerError Replay
apply_sell order fill r = do
  (remaining, cash, consumed) ←
      sell_lots order.symbol fill.price r.lots fill.quantity.value r.cash_cents
  raise_if (not (remaining == 0)) oversold
  ok (record r { cash_cents = cash; lots = consumed })

-- the body of the loop, for a fill whose order was found
unfoldable pub apply_known : BrokerOrder → Fill → Replay → Result LedgerError Replay
apply_known order fill r = do
  let cumulative = count_of (lookup fill.broker_order_id r.filled_by_order) + fill.quantity.value
  raise_if (ltb order.quantity.value cumulative) exceeds_order
  let r' = record r {
    seen_executions = fill.execution_id ∷ r.seen_executions;
    filled_by_order = insert fill.broker_order_id cumulative r.filled_by_order;
  }
  elim order.side [ buy ↦ apply_buy order fill r' | sell ↦ apply_sell order fill r' ]

-- the body of the loop
unfoldable pub apply_fill : Dict BrokerOrder → Replay → Fill → Result LedgerError Replay
apply_fill orders r fill = do
  raise_if (elem str_eq fill.execution_id r.seen_executions) duplicate_execution
  elim (lookup fill.broker_order_id orders) [
    | none ↦ err unknown_order
    | some order ↦ apply_known order fill r
  ]

unfoldable pub replay : Dict BrokerOrder → Replay → List Fill → Result LedgerError Replay
replay orders r [] = ok r
replay orders r (fill ∷ fills) = do r' ← apply_fill orders r fill; replay orders r' fills

pub record LedgerProjection : Type 0 where
  pub cash_delta_cents : ℤ
  pub lots : List OpenLot

-- `LedgerProjection(cash_delta_cents, lots)`
unfoldable pub ledger_projection : ℤ → List OpenLot → Result LedgerError LedgerProjection
ledger_projection cash lots =
    if ltb max_abs_cents (abs cash)
    then err cash_out_of_range
    else ok (record { cash_delta_cents = cash; lots = lots })

unfoldable pub project_ledger : List Fill → Dict BrokerOrder → Result LedgerError LedgerProjection
unfolding ledger_projection
project_ledger fills orders = do
  r ← replay orders start (sorted fill_leb fills)
  raise_if (ltb max_abs_cents (abs r.cash_cents)) cash_out_of_range
  ledger_projection r.cash_cents (sorted lot_leb r.lots)

-- `LedgerProjection.positions`: the loop that adds up the lots of each symbol
unfoldable pub positions_from : Dict ℕ → List OpenLot → Dict ℕ
positions_from quantities [] = quantities
positions_from quantities (lot ∷ lots) =
    positions_from
      (insert lot.symbol (count_of (lookup lot.symbol quantities) + lot.quantity) quantities) lots

unfoldable pub positions : LedgerProjection → Dict ℕ
unfolding positions_from
positions p = positions_from [] p.lots

-- the loop of `account_valuation`
unfoldable pub market_value : Dict Price → ℕ → List OpenLot → Result LedgerError ℕ
market_value prices total [] = ok total
market_value prices total (lot ∷ lots) = do
  price ← elim (lookup lot.symbol prices) [ none ↦ err missing_price | some p ↦ ok p ]
  market_value prices (total + lot.quantity * price.cents) lots

-- the check of the opening cash
abbrev pub checked_opening_cash : ℤ → Result LedgerError ℤ
checked_opening_cash (pos n) = ok (pos n)
checked_opening_cash (negsuc n) = err negative_opening_cash

unfoldable pub account_valuation : LedgerProjection → ℤ → Dict Price → Result LedgerError ℤ
unfolding market_value
account_valuation projection opening_cash_cents prices = do
  opening ← checked_opening_cash opening_cash_cents
  value ← market_value prices 0 projection.lots
  let total = opening +ℤ projection.cash_delta_cents +ℤ pos value
  if ltb max_abs_cents (abs total) then err cash_out_of_range else ok total

-- the loop of the second valuation
unfoldable pub equity_value : Dict Price → ℕ → List OpenLot → Result LedgerError ℕ
equity_value prices total [] = ok total
equity_value prices total (lot ∷ lots) = do
  price ← elim (lookup lot.symbol prices) [ none ↦ err missing_price | some p ↦ ok p ]
  equity_value prices (total + lot.quantity * price.cents) lots

unfoldable pub account_equity_from_cash_and_positions :
    ℤ → List OpenLot → Dict Price → Result LedgerError ℤ
unfolding equity_value
account_equity_from_cash_and_positions expected_cash_cents lots prices = do
  raise_if (ltb max_abs_cents (abs expected_cash_cents)) cash_out_of_range
  value ← equity_value prices 0 lots
  let total = expected_cash_cents +ℤ pos value
  if ltb max_abs_cents (abs total) then err cash_out_of_range else ok total
