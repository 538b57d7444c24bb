-- ===== src/Examples/LedgerRuns.antt =====
-- Two fills on two orders through ledger.py.
use mathlib.Core.List.{Perm, Nodup, Nodup-cons, not-mem-nil, eq-or-mem_of_mem-cons}
use mathlib.Core.List.Pairwise
use mathlib.Core.Logic.Or
use mathlib.Core.HLevel.{⊥_prop}
use mathlib.Core.List.Perm
use seven_lens_paper_trading.Prelude.Text.{str_leb, eq_iff}
use seven_lens_paper_trading.Prelude.{
  ◌≡◌, refl, ◌+◌, ◌≤◌, ℕ, String, some, List, [], ◌∷◌, sum_by, map, arith,
}
use seven_lens_paper_trading.Prelude.Int.{ℤ, pos, negsuc, abs, ◌+ℤ◌, ◌-ℤ◌}
use seven_lens_paper_trading.Prelude.Dict.{Dict, lookup, insert}
use seven_lens_paper_trading.Prelude.Result.{ok, err}
use seven_lens_paper_trading.Prelude.Sorting.{sorted}
use seven_lens_paper_trading.Orders.Status.{OrderSide, buy, sell}
use seven_lens_paper_trading.Orders.BrokerStatus.{partially_filled}
use seven_lens_paper_trading.Orders.Mirror.{BrokerOrder, Fill}
use seven_lens_paper_trading.Ledger.{
  project_ledger, replay, apply_known, apply_buy, apply_sell, apply_fill, start, fill_leb, Replay,
  LedgerProjection,
}
use seven_lens_paper_trading.Ledger.Lots.{
  OpenLot, oversold, duplicate_execution, max_abs_cents, sell_lots,
}
use seven_lens_paper_trading.Ledger.Consume.{Sold, sell_lots-Sold}
use seven_lens_paper_trading.Ledger.Accounts.{Applied, apply_fill-Applied}
use seven_lens_paper_trading.Ledger.Totals.{held, bought, sold, spent, earned, quantity_for}
use seven_lens_paper_trading.Ledger.Conservation.{
  project_ledger_shares, project_ledger_cash, project_ledger_orders,
}
use seven_lens_paper_trading.Ledger.Canonical.{project_ledger-perm, execution}

abbrev the_order : String → OrderSide → BrokerOrder
the_order id side = record {
  broker_order_id = id;
  client_order_id = id;
  symbol = "AAPL";
  side = side;
  quantity = record { value = 10 };
  filled_quantity = 0;
  limit_price = record { cents = 20000 };
  status = partially_filled;
  submitted_at = 0;
  updated_at = 0;
}

abbrev orders : Dict BrokerOrder
orders = ("b1", the_order "b1" buy) ∷ ("s1", the_order "s1" sell) ∷ []

abbrev bought_ten : Fill
bought_ten = record {
  execution_id = "e1";
  broker_order_id = "b1";
  quantity = record { value = 10 };
  price = record { cents = 10000 };
  occurred_at = 1;
}

abbrev sold_four : Fill
sold_four = record {
  execution_id = "e2";
  broker_order_id = "s1";
  quantity = record { value = 4 };
  price = record { cents = 11000 };
  occurred_at = 2;
}

abbrev six_left : OpenLot
six_left = record { symbol = "AAPL"; quantity = 6; price = record { cents = 10000 }; opened_at = 1 }

abbrev projected : LedgerProjection
projected = record { cash_delta_cents = negsuc 55999; lots = six_left ∷ [] }

abbrev both_fills : List Fill
both_fills = sold_four ∷ bought_ten ∷ []

fills_project : project_ledger both_fills orders ≡ ok projected
unfolding project_ledger replay sorted fill_leb apply_fill lookup apply_known apply_buy ◌-ℤ◌ insert
    apply_sell sell_lots ◌+ℤ◌
fills_project = refl

project_ledger_shares_example :
    held "AAPL" projected.lots + sold orders "AAPL" both_fills ≡ bought orders "AAPL" both_fills
project_ledger_shares_example =
    project_ledger_shares both_fills orders projected fills_project "AAPL"

project_ledger_cash_example :
    (projected.cash_delta_cents +ℤ pos (spent orders both_fills) ≡ pos (earned orders both_fills))
    × (abs projected.cash_delta_cents ≤ max_abs_cents)
project_ledger_cash_example = project_ledger_cash both_fills orders projected fills_project

first_order : lookup "b1" orders ≡ some (the_order "b1" buy)
unfolding lookup
first_order = refl

project_ledger_orders_example : sum_by (quantity_for "b1") both_fills ≤ 10
project_ledger_orders_example =
    project_ledger_orders both_fills orders projected fills_project "b1" (the_order "b1" buy)
      first_order

swapped : Perm both_fills (bought_ten ∷ sold_four ∷ [])
swapped = Perm.swap bought_ten sold_four []

fresh_ids : Nodup (map execution both_fills)
fresh_ids = Nodup-cons.1 (
  λ m. Or.elim ⊥_prop (eq-or-mem_of_mem-cons m) (λ e. cc ((eq_iff "e2" "e1").1 e)) not-mem-nil,
  Nodup-cons.1 (not-mem-nil, Pairwise.nil),
)

project_ledger-perm_example :
    project_ledger both_fills orders ≡ project_ledger (bought_ten ∷ sold_four ∷ []) orders
project_ledger-perm_example =
    project_ledger-perm both_fills (bought_ten ∷ sold_four ∷ []) orders swapped fresh_ids

abbrev ten_lot : OpenLot
ten_lot = record { symbol = "AAPL"; quantity = 10; price = record { cents = 10000 }; opened_at = 1 }

abbrev after_buy : Replay
after_buy = record {
  cash_cents = negsuc 99999;
  lots = ten_lot ∷ [];
  seen_executions = "e1" ∷ [];
  filled_by_order = ("b1", 10) ∷ [];
}

buy_applies : apply_fill orders start bought_ten ≡ ok after_buy
unfolding apply_fill lookup apply_known apply_buy ◌-ℤ◌ insert
buy_applies = refl

apply_fill-Applied_example : (order : BrokerOrder) × Applied orders start bought_ten order after_buy
apply_fill-Applied_example = apply_fill-Applied orders bought_ten start after_buy tt buy_applies

sell_lots-Sold_example :
    (left : ℕ) × (cash : ℤ) × (lots : List OpenLot) × (sell_lots "AAPL"
        (record { cents = 11000 })
        (ten_lot ∷ [])
        4
        (pos 0)
      ≡ ok (left, cash, lots))
    × Sold "AAPL" (record { cents = 11000 }) (ten_lot ∷ []) 4 (pos 0) left cash lots
sell_lots-Sold_example =
    sell_lots-Sold "AAPL" (record { cents = 11000 }) (ten_lot ∷ []) 4 (pos 0) (omega arith, tt)

-- Selling what is not held is refused, and so is the same execution twice.
oversell : project_ledger (sold_four ∷ []) orders ≡ err oversold
unfolding project_ledger replay sorted fill_leb apply_fill lookup apply_known apply_buy ◌-ℤ◌ insert
    apply_sell sell_lots ◌+ℤ◌
oversell = refl

twice : project_ledger (bought_ten ∷ bought_ten ∷ []) orders ≡ err duplicate_execution
unfolding project_ledger replay sorted fill_leb apply_fill lookup apply_known apply_buy ◌-ℤ◌ insert
    apply_sell sell_lots ◌+ℤ◌ str_leb
twice = refl
