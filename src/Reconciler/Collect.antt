-- ===== src/Reconciler/Collect.antt =====
-- What a reconciliation run finds (reconciliation_service.py: collect, and the handlers of run).
use seven_lens_paper_trading.Prelude.{
  ℕ, String, Bool, true, not, Option, none, some, List, [], ◌++◌,
}
use seven_lens_paper_trading.Prelude.Dict.{Dict}
use seven_lens_paper_trading.Prelude.Result.{Result, ok, err, ◌>>=◌}
use seven_lens_paper_trading.Orders.Mirror.{BrokerOrder}
use seven_lens_paper_trading.Ledger.Lots.{
  LedgerError, duplicate_execution, unknown_order, exceeds_order, cash_out_of_range, oversold,
}
use seven_lens_paper_trading.Ledger.{project_ledger}
use seven_lens_paper_trading.Reconciliation.{
  ReconciliationResult, ReconciliationMismatch, ReconciliationScope, partial, full, create,
  non_paper_account, broker_query_failure, local_ledger_invariant,
}
use seven_lens_paper_trading.Store.Monad.{Tables}
use seven_lens_paper_trading.Control.{latest_run}
use seven_lens_paper_trading.Reconciler.Answers.{
  Failure, broker_transport, other_failure, ledger_invariant, BrokerEnvironment, paper,
  PaperAccount, AccountReconciliationPolicy, Answers, of_ledger, Found, both, report, each,
}
use seven_lens_paper_trading.Reconciler.Orders.{
  all_broker_orders, open_broker_orders, unresolved_mismatches, check_open, check_closed, ids_of,
  client_ids_of, check_reported, by_broker_id,
}
use seven_lens_paper_trading.Reconciler.History.{history_horizon, check_history}
use seven_lens_paper_trading.Reconciler.Account.{position_mismatches, check_account}

abbrev pub is_paper : BrokerEnvironment → Bool
is_paper paper = true

-- what only has mismatches
abbrev pub only : List ReconciliationMismatch → Found
only ms = record { mismatches = ms; checked_orders = 0; checked_fills = 0 }

abbrev pub orders_by_id : Tables → Dict BrokerOrder
orders_by_id t = by_broker_id [] (all_broker_orders t)

-- the passes over the orders, after the account was read
unfoldable pub compare_orders : Answers → Tables → ℕ → Result Failure Found
compare_orders a t trading_date = do
  opened ← each (check_open a t) (open_broker_orders t)
  closed ← each (check_closed a (ids_of (open_broker_orders t))) (all_broker_orders t)
  shown ← a.list_open_orders
  reported ← each (check_reported (client_ids_of (all_broker_orders t))) shown
  recent ← a.list_recent_orders (history_horizon (latest_run t.runs) trading_date)
  history ← check_history a t (by_broker_id [] shown) recent
  ok (both opened (both closed (both reported history)))

-- the passes over the positions and the account
unfoldable pub compare_account : Answers → Tables → PaperAccount → Result Failure Found
compare_account a t account = do
  projection ← of_ledger (project_ledger t.orders.fills (orders_by_id t))
  held ← a.list_positions
  rest ← check_account a a.account_policy (orders_by_id t) t.orders.fills account projection
  ok (only (position_mismatches projection held ++ rest))

-- everything that `collect` finds
unfoldable pub compare_all : Answers → Tables → ℕ → Result Failure Found
compare_all a t trading_date = do
  account ← a.account
  orders ← compare_orders a t trading_date
  accounts ← compare_account a t account
  ok (
      both
        (only (
          report (not (is_paper account.environment)) non_paper_account
            "broker account does not assert PAPER"
          ++ unresolved_mismatches t))
        (both orders accounts))

abbrev pub scope_of : Option AccountReconciliationPolicy → ReconciliationScope
scope_of none = partial
scope_of (some policy) = full

-- `ReconciliationResult.create`, whose exceptions are `ValueError`s
unfoldable pub created :
    ℕ
    → List ReconciliationMismatch
    → ℕ
    → ℕ
    → ℕ
    → ℕ
    → ReconciliationScope
    → Result Failure ReconciliationResult
created trading_date mismatches orders fills at run_id scope =
    elim (create trading_date mismatches orders fills at run_id scope) [
      | ok r ↦ ok r
      | err e ↦ err other_failure
    ]

-- `collect`, with the instant that the clock shows at its end and a fresh run id
unfoldable pub collect : Answers → Tables → ℕ → ℕ → ℕ → Result Failure ReconciliationResult
collect a t trading_date at run_id = do
  found ← compare_all a t trading_date
  created trading_date found.mismatches found.checked_orders found.checked_fills at run_id
      (scope_of a.account_policy)

-- the message of a `LedgerInvariantError`; all are short, so that the bounding leaves them as they are
abbrev pub ledger_message : LedgerError → String
ledger_message duplicate_execution = "duplicate execution id in fill ledger"
ledger_message unknown_order = "fill references an unknown broker order"
ledger_message exceeds_order = "fill quantity exceeds the recorded order quantity"
ledger_message cash_out_of_range = "projected cash delta exceeds the allowed range"
ledger_message oversold = "sell fill exceeds the projected position"
ledger_message e = "ledger invariant failure"

-- The handlers of `run`: a failure that becomes evidence.
unfoldable pub evidence :
    ℕ → ℕ → ℕ → Result Failure ReconciliationResult → Result Failure ReconciliationResult
evidence trading_date at run_id (ok r) = ok r
evidence trading_date at run_id (err broker_transport) =
    created trading_date
      (report true broker_query_failure "broker query failed during reconciliation") 0 0 at run_id
      partial
evidence trading_date at run_id (err (ledger_invariant e)) =
    created trading_date (report true local_ledger_invariant (ledger_message e)) 0 0 at run_id
      partial
evidence trading_date at run_id (err e) = err e
