-- ===== src/Reconciler/Orders.antt =====
-- The comparison of recorded orders with the broker's (reconciliation_service.py, collect: the
-- unresolved intents, the open mirrors, the mirrors that were closed here, the broker's open orders).
use seven_lens_paper_trading.Prelude.{
  ◌==◌, String, Bool, true, false, not, ◌||◌, ◌&&◌, elem, Option, none, some, List, [], ◌∷◌, ◌++◌,
  map, length, if◌then◌else◌,
}
use seven_lens_paper_trading.Prelude.Text.{str_eq, str_leb}
use seven_lens_paper_trading.Prelude.Dict.{Dict, lookup, insert}
use seven_lens_paper_trading.Prelude.Sorting.{sorted}
use seven_lens_paper_trading.Prelude.Result.{Result, ok, ◌>>=◌}
use seven_lens_paper_trading.Orders.Status.{
  OrderStatus, filled, canceled, expired, rejected, unknown, review_required, same_side,
}
use seven_lens_paper_trading.Orders.BrokerStatus.{is_terminal, is_open_status, same_broker_status}
use seven_lens_paper_trading.Orders.Mirror.{BrokerOrder, Fill}
use seven_lens_paper_trading.Orders.Intent.{OrderIntent}
use seven_lens_paper_trading.Reconciliation.{
  ReconciliationMismatch, missing_broker_order, parameter_mismatch, intent_status_mismatch,
  status_mismatch, missing_local_fill, unknown_broker_order,
}
use seven_lens_paper_trading.Store.Monad.{Tables}
use seven_lens_paper_trading.Store.Repository.{intent_leb, with_status, fills_of}
use seven_lens_paper_trading.Reconciler.Answers.{Failure, Answers, Found, nothing, report}

-- `sorted(self._mirrors.items())`, whose keys differ
abbrev pub mirror_leb : String × BrokerOrder → String × BrokerOrder → Bool
mirror_leb a b = str_leb a.0 b.0

abbrev pub second : String × BrokerOrder → BrokerOrder
second p = p.1

-- `list_all_broker_orders`
unfoldable pub all_broker_orders : Tables → List BrokerOrder
all_broker_orders t = map second (sorted mirror_leb t.orders.mirrors)

unfoldable pub not_terminal : List BrokerOrder → List BrokerOrder
not_terminal [] = []
not_terminal (o ∷ os) =
    let rest = not_terminal os in if not (is_terminal o.status) then o ∷ rest else rest

-- `list_open_broker_orders`
unfoldable pub open_broker_orders : Tables → List BrokerOrder
unfolding not_terminal
open_broker_orders t = not_terminal (all_broker_orders t)

abbrev pub of_intent : OrderIntent → ReconciliationMismatch
of_intent i = record { kind = intent_status_mismatch; detail = i.client_order_id }

-- the intents in REVIEW_REQUIRED and in UNKNOWN
unfoldable pub unresolved_mismatches : Tables → List ReconciliationMismatch
unresolved_mismatches t =
    map of_intent (with_status review_required (sorted intent_leb t.orders.intents))
    ++ map of_intent (with_status unknown (sorted intent_leb t.orders.intents))

-- `intent is not None and (…)`
unfoldable pub parameters_differ : Option OrderIntent → BrokerOrder → Bool
parameters_differ none o = false
parameters_differ (some i) o =
    not (str_eq o.symbol i.symbol)
    || not (same_side o.side i.side)
    || not (o.quantity.value == i.quantity.value)
    || not (o.limit_price.cents == i.limit_price.cents)

-- `intent.status in _TERMINAL_INTENT_STATUSES`
abbrev pub is_terminal_intent : OrderStatus → Bool
is_terminal_intent filled = true
is_terminal_intent canceled = true
is_terminal_intent expired = true
is_terminal_intent rejected = true
is_terminal_intent status = false

-- a closed intent whose order the broker holds open
unfoldable pub closed_but_open : Option OrderIntent → BrokerOrder → Bool
closed_but_open none o = false
closed_but_open (some i) o = is_terminal_intent i.status && is_open_status o.status

abbrev pub execution_ids_of : List Fill → List String
execution_ids_of fills = map (λ (f : Fill). f.execution_id) fills

-- the broker's fills that are not recorded
unfoldable pub missing_fills : List Fill → List Fill → List ReconciliationMismatch
missing_fills recorded [] = []
missing_fills recorded (f ∷ fs) =
    report (not (elem str_eq f.execution_id (execution_ids_of recorded))) missing_local_fill
      f.execution_id
    ++ missing_fills recorded fs

-- an open mirror whose order the broker knows
unfoldable pub compare_open : Tables → BrokerOrder → BrokerOrder → List Fill → Found
compare_open t mirror o fills =
    let intent = lookup mirror.client_order_id t.orders.intents in
    record {
      mismatches =
          report (parameters_differ intent o) parameter_mismatch mirror.broker_order_id
          ++ report (closed_but_open intent o) intent_status_mismatch mirror.broker_order_id
          ++ report (not (same_broker_status o.status mirror.status)) status_mismatch
              mirror.broker_order_id
          ++ missing_fills (fills_of mirror.broker_order_id t.orders.fills) fills;
      checked_orders = 1;
      checked_fills = length fills;
    }

unfoldable pub check_answered :
    Answers → Tables → BrokerOrder → Option BrokerOrder → Result Failure Found
check_answered a t mirror none = ok (record {
  mismatches = report true missing_broker_order mirror.broker_order_id;
  checked_orders = 1;
  checked_fills = 0;
})
check_answered a t mirror (some o) = do
  fills ← a.list_fills mirror.broker_order_id
  ok (compare_open t mirror o fills)

-- the body of the loop over the open mirrors
unfoldable pub check_open : Answers → Tables → BrokerOrder → Result Failure Found
check_open a t mirror = do
  answered ← a.get_order mirror.client_order_id
  check_answered a t mirror answered

abbrev pub ids_of : List BrokerOrder → List String
ids_of orders = map (λ (o : BrokerOrder). o.broker_order_id) orders

abbrev pub client_ids_of : List BrokerOrder → List String
client_ids_of orders = map (λ (o : BrokerOrder). o.client_order_id) orders

abbrev pub still_open : BrokerOrder → Option BrokerOrder → Found
still_open mirror none = nothing
still_open mirror (some o) =
    if is_open_status o.status
    then record {
      mismatches = report true status_mismatch mirror.broker_order_id;
      checked_orders = 1;
      checked_fills = 0;
    }
    else nothing

-- the body of the loop over all mirrors: one that was closed here may be open at the broker
unfoldable pub check_closed : Answers → List String → BrokerOrder → Result Failure Found
check_closed a checked mirror =
    let asked =
      (a.get_order mirror.client_order_id >>= λ answered. ok (still_open mirror answered)) in
    if elem str_eq mirror.broker_order_id checked then ok nothing else asked

-- the body of the loop over the broker's open orders
unfoldable pub check_reported : List String → BrokerOrder → Result Failure Found
check_reported known o = ok (record {
  mismatches =
      report (not (elem str_eq o.client_order_id known)) unknown_broker_order o.broker_order_id;
  checked_orders = 1;
  checked_fills = 0;
})

-- `{order.broker_order_id: order for …}`
unfoldable pub by_broker_id : Dict BrokerOrder → List BrokerOrder → Dict BrokerOrder
by_broker_id d [] = d
by_broker_id d (o ∷ os) = by_broker_id (insert o.broker_order_id o d) os
