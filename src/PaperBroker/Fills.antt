-- ===== src/PaperBroker/Fills.antt =====
-- Executions and accepted orders (fake_broker.py: _transition, _apply_fill_step,
-- _record_accepted_order). A state stands in the broker's orders under its order's id, so that a
-- change of it is a change of the entry.
use text.Mathlib.TextLemmas.{append_cancel_left}
use Prim.Native.String.{◌++◌ as ◌+++◌}
use seven_lens_paper_trading.Prelude.{
  ◌++◌, ◌≡◌, ℕ, ◌+◌, ◌==◌, ltb, String, Option, none, some, [], ◌∷◌, if◌then◌else◌,
}
use seven_lens_paper_trading.Prelude.Result.{ok, err}
use seven_lens_paper_trading.Prelude.Decimal.{numeral, numeral_injective}
use seven_lens_paper_trading.Prelude.Dict.{insert}
use seven_lens_paper_trading.Orders.BrokerStatus.{
  BrokerOrderStatus, received, accepted, partially_filled, filled, broker_order_transition_allowed,
}
use seven_lens_paper_trading.Orders.Mirror.{BrokerOrder, Fill}
use seven_lens_paper_trading.Orders.Intent.{OrderIntent}
use seven_lens_paper_trading.Engine.Port.{Reply, broker_other}
use seven_lens_paper_trading.PaperBroker.State.{
  FakeSubmitOutcome, timeout_after_accept, FakeFillStep, FakeSubmitPlan, OrderState,
  FakePaperBroker, time, tick, with_orders,
}

-- the ids of orders and of executions
unfoldable pub order_id : ℕ → String
order_id n = "fake-order-" +++ numeral 6 n

-- Orders of different numbers have different ids.
pub order_id_injective : (m n : ℕ) → order_id m ≡ order_id n → m ≡ n
unfolding order_id
order_id_injective m n h = numeral_injective 6 m n (append_cancel_left "fake-order-" _ _ h)

unfoldable pub execution_id : ℕ → String
execution_id n = "fake-exec-" +++ numeral 6 n

-- `_transition`, of the state under `id`
unfoldable pub transition :
    String → OrderState → BrokerOrderStatus → Reply FakePaperBroker (Unit {0})
transition id state target b =
    if broker_order_transition_allowed state.order.status target
    then (
      ok tt,
      with_orders
          (insert id
            (record state { order = record state.order { status = target; updated_at = time b } })
            b.orders)
          (tick b),
    )
    else (err broker_other, b)

-- the status after an execution up to `new_filled`
abbrev pub after_execution : BrokerOrder → ℕ → BrokerOrderStatus
after_execution order new_filled =
    if new_filled == order.quantity.value then filled else partially_filled

-- `_apply_fill_step`, of the state under `id`: the clock is read for the fill, then for the status
unfoldable pub apply_fill_step : String → OrderState → FakeFillStep → Reply FakePaperBroker Fill
apply_fill_step id state step b =
    let new_filled = state.order.filled_quantity + step.quantity.value in
    let target = after_execution state.order new_filled in
    let b1 = record b { sequence = b.sequence + 1 } in
    let fill : Fill = record {
      execution_id = execution_id b1.sequence;
      broker_order_id = state.order.broker_order_id;
      quantity = step.quantity;
      price = step.price;
      occurred_at = time b1;
    } in
    let b2 = tick b1 in
    if ltb state.order.quantity.value new_filled
    then (err broker_other, b)
    else if broker_order_transition_allowed state.order.status target
    then (
      ok fill,
      with_orders
          (insert id
            (record {
              order = record state.order {
                status = target;
                updated_at = time b2;
                filled_quantity = new_filled;
              };
              fills = state.fills ++ fill ∷ [];
            })
            b.orders)
          (tick b2),
    )
    else (err broker_other, b2)

-- `BrokerOrderStatus.RECEIVED if … else BrokerOrderStatus.ACCEPTED`
abbrev pub initial_status : FakeSubmitOutcome → BrokerOrderStatus
initial_status timeout_after_accept = received
initial_status outcome = accepted

abbrev pub accepted_order : OrderIntent → FakeSubmitOutcome → String → ℕ → BrokerOrder
accepted_order intent outcome id at = record {
  broker_order_id = id;
  client_order_id = intent.client_order_id;
  symbol = intent.symbol;
  side = intent.side;
  quantity = intent.quantity;
  filled_quantity = 0;
  limit_price = intent.limit_price;
  status = initial_status outcome;
  submitted_at = at;
  updated_at = at;
}

abbrev pub new_state : OrderIntent → FakeSubmitOutcome → String → ℕ → OrderState
new_state intent outcome id at = record { order = accepted_order intent outcome id at; fills = [] }

-- the broker with the new order
abbrev pub with_accepted : OrderIntent → FakeSubmitOutcome → FakePaperBroker → FakePaperBroker
with_accepted intent outcome b =
    let id = order_id (b.sequence + 1) in
    record (tick b) {
      sequence = b.sequence + 1;
      orders = insert id (new_state intent outcome id (time b)) b.orders;
      by_client = insert intent.client_order_id id b.by_client;
    }

-- the end of `_record_accepted_order`: the first execution, and the id of the order
abbrev pub first_execution :
    Option FakeFillStep → String → OrderState → Reply FakePaperBroker String
first_execution none id state b = (ok id, b)
first_execution (some step) id state b =
    let (r, b') = apply_fill_step id state step b in
    (elim r [ ok fill ↦ ok id | err e ↦ err e ], b')

-- `_record_accepted_order`, with the id of the order for its state
unfoldable pub record_accepted_order : OrderIntent → FakeSubmitPlan → Reply FakePaperBroker String
record_accepted_order intent plan b =
    let id = order_id (b.sequence + 1) in
    first_execution plan.first_fill id (new_state intent plan.outcome id (time b))
      (with_accepted intent plan.outcome b)
