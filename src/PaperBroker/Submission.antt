-- ===== src/PaperBroker/Submission.antt =====
-- The submission of an intent to the paper broker (fake_broker.py: submit_order).
use seven_lens_paper_trading.Prelude.{◌==◌, String, Bool, ◌&&◌, Option, none, some, if◌then◌else◌}
use seven_lens_paper_trading.Prelude.Text.{str_eq}
use seven_lens_paper_trading.Prelude.Result.{Result, ok, err}
use seven_lens_paper_trading.Prelude.Dict.{lookup, insert, remove}
use seven_lens_paper_trading.Orders.Status.{same_side}
use seven_lens_paper_trading.Orders.Mirror.{BrokerOrder}
use seven_lens_paper_trading.Orders.Intent.{OrderIntent}
use seven_lens_paper_trading.Engine.Port.{
  Reply, EngineError, RejectionReason, SubmitResult, submit_accepted, submit_rejected,
  broker_transport, broker_conflict, broker_other,
}
use seven_lens_paper_trading.PaperBroker.State.{
  FakeSubmitOutcome, reject, timeout_before_accept, timeout_after_accept, FakeSubmitPlan,
  SubmitParams, FakePaperBroker,
}
use seven_lens_paper_trading.PaperBroker.Fills.{record_accepted_order}

abbrev pub params_of : OrderIntent → SubmitParams
params_of intent = record {
  symbol = intent.symbol;
  side = intent.side;
  quantity = intent.quantity;
  limit_price = intent.limit_price;
}

-- `previous == params`
unfoldable pub same_params : SubmitParams → SubmitParams → Bool
same_params a b =
    str_eq a.symbol b.symbol
    && same_side a.side b.side
    && a.quantity.value == b.quantity.value
    && a.limit_price.cents == b.limit_price.cents

-- `self._orders[id].order`
unfoldable pub stored_order : String → FakePaperBroker → Result EngineError BrokerOrder
stored_order id b = elim (lookup id b.orders) [
  | none ↦ err broker_other
  | some state ↦ ok state.order
]

abbrev pub accepted_result : Result EngineError BrokerOrder → Result EngineError SubmitResult
accepted_result (ok order) = ok (submit_accepted order)
accepted_result (err e) = err e

-- the answer for an id that was submitted before and was not rejected
unfoldable pub known_order : String → FakePaperBroker → Result EngineError SubmitResult
known_order client_id b = elim (lookup client_id b.by_client) [
  | none ↦ err broker_transport
  | some id ↦ accepted_result (stored_order id b)
]

unfoldable pub answered_before : String → FakePaperBroker → Result EngineError SubmitResult
answered_before client_id b = elim (lookup client_id b.results) [
  | none ↦ known_order client_id b
  | some result ↦ elim result [
    | submit_rejected reason ↦ ok (submit_rejected reason)
    | submit_accepted order ↦ known_order client_id b
  ]
]

abbrev pub with_result : String → SubmitResult → FakePaperBroker → FakePaperBroker
with_result client_id result b = record b { results = insert client_id result b.results }

-- the answer for a new order
abbrev pub answered :
    String
    → Result EngineError BrokerOrder
    → FakePaperBroker
    → Result EngineError SubmitResult × FakePaperBroker
answered client_id (ok order) b =
    (ok (submit_accepted order), with_result client_id (submit_accepted order) b)
answered client_id (err e) b = (err e, b)

-- the end of `submit_order`, after `_record_accepted_order`
abbrev pub acknowledged_as :
    String
    → FakeSubmitOutcome
    → Result EngineError String
    → FakePaperBroker
    → Result EngineError SubmitResult × FakePaperBroker
acknowledged_as client_id outcome (err e) b = (err e, b)
acknowledged_as client_id timeout_after_accept (ok id) b = (err broker_transport, b)
acknowledged_as client_id outcome (ok id) b = answered client_id (stored_order id b) b

unfoldable pub submit_accepting :
    OrderIntent
    → FakeSubmitPlan
    → FakePaperBroker
    → Result EngineError SubmitResult × FakePaperBroker
submit_accepting intent plan b =
    let (r, b') = record_accepted_order intent plan b in
    acknowledged_as intent.client_order_id plan.outcome r b'

-- the end of `submit_order`, for a plan that rejects; without a reason its `assert` raises
abbrev pub rejected_for :
    String
    → Option RejectionReason
    → FakePaperBroker
    → Result EngineError SubmitResult × FakePaperBroker
rejected_for client_id none b = (err broker_other, b)
rejected_for client_id (some reason) b =
    (ok (submit_rejected reason), with_result client_id (submit_rejected reason) b)

-- `self._submit_params[client_id] = params`
abbrev pub with_params : OrderIntent → FakePaperBroker → FakePaperBroker
with_params intent b = record b {
  submit_params = insert intent.client_order_id (params_of intent) b.submit_params;
}

-- the end of `submit_order`, by the outcome of the plan
abbrev pub submit_planned :
    FakeSubmitOutcome
    → OrderIntent
    → FakeSubmitPlan
    → FakePaperBroker
    → Result EngineError SubmitResult × FakePaperBroker
submit_planned timeout_before_accept intent plan b = (err broker_transport, b)
submit_planned reject intent plan b =
    rejected_for intent.client_order_id plan.rejection_reason (with_params intent b)
submit_planned outcome intent plan b = submit_accepting intent plan (with_params intent b)

-- `self._plans.pop(client_id, self._default_plan)`
abbrev pub plan_for : String → FakePaperBroker → FakeSubmitPlan
plan_for client_id b = elim (lookup client_id b.plans) [ none ↦ b.default_plan | some plan ↦ plan ]

-- `submit_order`
unfoldable pub submit_order : OrderIntent → Reply FakePaperBroker SubmitResult
submit_order intent b = elim (lookup intent.client_order_id b.submit_params) [
  | some previous ↦
      if same_params previous (params_of intent)
      then (answered_before intent.client_order_id b, b)
      else (err broker_conflict, b)
  | none ↦
      let plan = plan_for intent.client_order_id b in
      submit_planned plan.outcome intent plan
        (record b { plans = remove intent.client_order_id b.plans })
]
