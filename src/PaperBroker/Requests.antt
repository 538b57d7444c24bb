-- ===== src/PaperBroker/Requests.antt =====
-- The public methods of `FakePaperBroker` (fake_broker.py). An order that an index names and that is
-- not stored is a `KeyError`.
use seven_lens_paper_trading.Prelude.{
  ℕ, leb, String, Bool, true, false, not, elem, Option, none, some, List, [], ◌∷◌, if◌then◌else◌,
}
use seven_lens_paper_trading.Prelude.Text.{str_eq, str_leb}
use seven_lens_paper_trading.Prelude.Sorting.{sorted}
use seven_lens_paper_trading.Prelude.Result.{Result, ok, err}
use seven_lens_paper_trading.Prelude.Dict.{lookup}
use seven_lens_paper_trading.Orders.BrokerStatus.{
  BrokerOrderStatus, pending_cancel, canceled, expired, same_broker_status, is_open_status,
}
use seven_lens_paper_trading.Orders.Mirror.{BrokerOrder, Fill}
use seven_lens_paper_trading.Engine.Port.{
  Port, Reply, EngineError, PaperAsset, us_equity, active, broker_transport, broker_other,
}
use seven_lens_paper_trading.PaperBroker.State.{
  FakeCancelMode, immediate, pending, timeout, FakeFillStep, OrderState, FakePaperBroker, time,
  tick,
}
use seven_lens_paper_trading.PaperBroker.Fills.{transition, apply_fill_step}
use seven_lens_paper_trading.PaperBroker.Submission.{stored_order, submit_order}

abbrev pub known : Result EngineError BrokerOrder → Result EngineError (Option BrokerOrder)
known (ok order) = ok (some order)
known (err e) = err e

-- `get_order`
unfoldable pub get_order : String → Reply FakePaperBroker (Option BrokerOrder)
get_order client_id b =
    if elem str_eq client_id b.hidden_client_ids
    then (ok none, b)
    else elim (lookup client_id b.by_client) [
      | none ↦ (ok none, b)
      | some id ↦ (known (stored_order id b), b)
    ]

unfoldable pub without : String → List String → List String
without id [] = []
without id (x ∷ xs) = let rest = without id xs in if str_eq x id then rest else x ∷ rest

-- `reveal_order`
unfoldable pub reveal_order : String → Reply FakePaperBroker (Unit {0})
reveal_order client_id b =
    (ok tt, record b { hidden_client_ids = without client_id b.hidden_client_ids })

-- `sorted(self._orders.items())`, whose keys differ
abbrev state_leb : String × OrderState → String × OrderState → Bool
state_leb a b = str_leb a.0 b.0

-- the orders that pass a test, by their ids
unfoldable pub orders_where : (BrokerOrder → Bool) → List (String × OrderState) → List BrokerOrder
orders_where keeps [] = []
orders_where keeps (entry ∷ entries) =
    let rest = orders_where keeps entries in
    if keeps entry.1.order then entry.1.order ∷ rest else rest

-- `list_recent_orders`
unfoldable pub list_recent_orders : ℕ → Reply FakePaperBroker (List BrokerOrder)
list_recent_orders since b =
    (ok (orders_where (λ order. leb since order.updated_at) (sorted state_leb b.orders)), b)

-- `list_open_orders`
unfoldable pub list_open_orders : Reply FakePaperBroker (List BrokerOrder)
list_open_orders b =
    (ok (orders_where (λ order. is_open_status order.status) (sorted state_leb b.orders)), b)

-- `get_asset`
unfoldable pub get_asset : String → Reply FakePaperBroker (Option PaperAsset)
get_asset symbol b =
    if elem str_eq symbol b.unknown_assets then (ok none, b) else elim (lookup symbol b.assets) [
      | some asset ↦ (ok (some asset), b)
      | none ↦ (
        ok (
            some (record {
              symbol = symbol;
              asset_class = us_equity;
              status = active;
              tradable = true;
              exchange = "ARCA";
            })),
        b,
      )
    ]

-- `list_fills`
unfoldable pub list_fills : String → Reply FakePaperBroker (List Fill)
list_fills id b = (ok (elim (lookup id b.orders) [ none ↦ [] | some state ↦ state.fills ]), b)

-- a transition that a method ends with
abbrev pub moving : String → OrderState → BrokerOrderStatus → Reply FakePaperBroker Bool
moving id state target b =
    let (r, b') = transition id state target b in (elim r [ ok u ↦ ok true | err e ↦ err e ], b')

abbrev pub cancel_open : FakeCancelMode → String → OrderState → Reply FakePaperBroker Bool
cancel_open timeout id state b = (err broker_transport, b)
cancel_open pending id state b = moving id state pending_cancel b
cancel_open immediate id state b = moving id state canceled b

-- `cancel_order`
unfoldable pub cancel_order : String → Reply FakePaperBroker Bool
cancel_order id b = elim (lookup id b.orders) [
  | none ↦ (ok false, b)
  | some state ↦
      let canceling = cancel_open b.cancel_mode id state b in
      if not (is_open_status state.order.status) then (ok false, b) else canceling
]

-- `resolve_pending_cancel`
unfoldable pub resolve_pending_cancel : String → Reply FakePaperBroker (Unit {0})
resolve_pending_cancel id b = elim (lookup id b.orders) [
  | none ↦ (err broker_other, b)
  | some state ↦
      if not (same_broker_status state.order.status pending_cancel)
      then (err broker_other, b)
      else transition id state canceled b
]

-- `apply_fill`
unfoldable pub apply_fill : String → FakeFillStep → Reply FakePaperBroker Fill
apply_fill id step b = elim (lookup id b.orders) [
  | none ↦ (err broker_other, b)
  | some state ↦
      if not (is_open_status state.order.status)
      then (err broker_other, b)
      else apply_fill_step id state step b
]

-- `expire_order`
unfoldable pub expire_order : String → Reply FakePaperBroker Bool
expire_order id b = elim (lookup id b.orders) [
  | none ↦ (ok false, b)
  | some state ↦
      if not (is_open_status state.order.status) then (ok false, b) else moving id state expired b
]

-- `force_status`
unfoldable pub force_status : String → BrokerOrderStatus → Reply FakePaperBroker (Unit {0})
force_status client_id status b = elim (lookup client_id b.by_client) [
  | none ↦ (err broker_other, b)
  | some id ↦ elim (lookup id b.orders) [
    | none ↦ (err broker_other, b)
    | some state ↦ transition id state status b
  ]
]

-- The broker as the engine's port, with a control repository. The engine is tested with a clock that is
-- the broker's.
abbrev pub fake_port : Port FakePaperBroker
fake_port = record {
  submit_order = submit_order;
  get_order = get_order;
  list_fills = list_fills;
  cancel_order = cancel_order;
  get_asset = get_asset;
  clock = λ b. (time b, tick b);
  has_control_repository = true;
}
