-- ===== src/Reconciler/History.antt =====
-- The broker's closed orders of the recent past (reconciliation_service.py, collect: the closed-history
-- pass, and _history_horizon). A day number is turned into the instant at which it starts.
use seven_lens_paper_trading.Prelude.{
  ℕ, ◌-◌, ◌*◌, ◌==◌, ltb, Bool, true, false, not, ◌||◌, ◌&&◌, Option, none, some, List, [], ◌∷◌,
  ◌++◌, length, if◌then◌else◌,
}
use seven_lens_paper_trading.Prelude.Dict.{Dict, lookup, insert}
use seven_lens_paper_trading.Prelude.Result.{Result, ok, err, ◌>>=◌}
use seven_lens_paper_trading.Orders.BrokerStatus.{is_open_status, same_broker_status}
use seven_lens_paper_trading.Orders.Mirror.{BrokerOrder, Fill}
use seven_lens_paper_trading.Reconciliation.{
  ReconciliationResult, status_mismatch, unknown_broker_order,
}
use seven_lens_paper_trading.Store.Monad.{Tables, Exn}
use seven_lens_paper_trading.Store.Repository.{fills_of, mirror_of}
use seven_lens_paper_trading.Reconciler.Answers.{
  Failure, other_failure, Answers, Found, nothing, both, report,
}
use seven_lens_paper_trading.Reconciler.Orders.{missing_fills}

-- `timedelta(days=1)`, in microseconds
abbrev pub day : ℕ
day = 86400000000

-- `_history_horizon`
unfoldable pub history_horizon : Option ReconciliationResult → ℕ → ℕ
history_horizon none trading_date = trading_date * day - day
history_horizon (some latest) trading_date = latest.observed_at - day

-- an order that the open orders have shown as it is, or newer
unfoldable pub superseded : Option BrokerOrder → BrokerOrder → Bool
superseded none o = false
superseded (some shown) o =
    ltb o.updated_at shown.updated_at
    || o.updated_at == shown.updated_at && same_broker_status o.status shown.status

-- a closed order with its mirror
unfoldable pub compare_closed : Tables → BrokerOrder → BrokerOrder → List Fill → Found
compare_closed t o mirror fills = record {
  mismatches =
      report (not (same_broker_status o.status mirror.status)) status_mismatch
        mirror.broker_order_id
      ++ missing_fills (fills_of mirror.broker_order_id t.orders.fills) fills;
  checked_orders = 1;
  checked_fills = length fills;
}

unfoldable pub check_mirrored :
    Answers → Tables → BrokerOrder → Result Exn (Option BrokerOrder) → Result Failure Found
check_mirrored a t o (err e) = err other_failure
check_mirrored a t o (ok none) = ok (record {
  mismatches = report true unknown_broker_order o.broker_order_id;
  checked_orders = 1;
  checked_fills = 0;
})
check_mirrored a t o (ok (some mirror)) = do
  fills ← a.list_fills o.broker_order_id
  ok (compare_closed t o mirror fills)

abbrev pub skipped : Dict BrokerOrder → BrokerOrder → Bool
skipped reported o = superseded (lookup o.broker_order_id reported) o || is_open_status o.status

-- the body of the loop
unfoldable pub check_recent :
    Answers → Tables → Dict BrokerOrder → BrokerOrder → Result Failure Found
check_recent a t reported o =
    let checked =
      check_mirrored a t o
        (mirror_of t.orders.mirrors (lookup o.client_order_id t.orders.mirror_by_client)) in
    if skipped reported o then ok nothing else checked

-- the loop, with the orders that were reported so far
unfoldable pub check_history :
    Answers → Tables → Dict BrokerOrder → List BrokerOrder → Result Failure Found
check_history a t reported [] = ok nothing
check_history a t reported (o ∷ os) = do
  found ← check_recent a t reported o
  rest ←
      check_history a t
        (if skipped reported o then reported else insert o.broker_order_id o reported) os
  ok (both found rest)
