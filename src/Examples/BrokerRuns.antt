-- ===== src/Examples/BrokerRuns.antt =====
-- The paper broker on one intent: an order, two executions, and a repeated submission.
use seven_lens_paper_trading.Prelude.{ℕ, ◌≡◌, ◌≤◌, ◌+◌, refl, String, some, none, [], ◌∷◌, List}
use seven_lens_paper_trading.Prelude.Result.{ok}
use seven_lens_paper_trading.Prelude.Decimal.{numeral, numeral_onto}
use seven_lens_paper_trading.Prelude.Dict.{lookup, insert, remove}
use seven_lens_paper_trading.Orders.BrokerStatus.{
  broker_order_transition_allowed, broker_order_status_transitions, same_broker_status,
  is_open_status, is_terminal, is_review, accepted, partially_filled,
}
use seven_lens_paper_trading.Orders.Mirror.{BrokerOrder, Fill}
use seven_lens_paper_trading.Engine.Port.{submit_accepted}
use seven_lens_paper_trading.Orders.Status.{same_side}
use seven_lens_paper_trading.PaperBroker.State.{
  acknowledge, FakeFillStep, FakePaperBroker, immediate, OrderState,
}
use seven_lens_paper_trading.PaperBroker.Fills.{
  order_id, execution_id, apply_fill_step, record_accepted_order,
}
use seven_lens_paper_trading.PaperBroker.Submission.{
  same_params, stored_order, submit_accepting, submit_order,
}
use seven_lens_paper_trading.PaperBroker.Requests.{apply_fill}
use seven_lens_paper_trading.PaperBroker.Consistent.{executed}
use seven_lens_paper_trading.PaperBroker.Operations.{
  Operation, submitting, filling, after, after_all, created, one_order, order_executed,
}
use seven_lens_paper_trading.PaperBroker.Repeats.{submit_order_again}
use seven_lens_paper_trading.Examples.UpdateRuns.{intent}

abbrev pub broker : FakePaperBroker
broker = record {
  clock = λ n. 100 + n;
  clock_calls = 0;
  plans = [];
  default_plan = record { outcome = acknowledge; first_fill = none; rejection_reason = none };
  cash = record { cents = 100000000 };
  equity = record { cents = 100000000 };
  buying_power = record { cents = 100000000 };
  account_id = "fake-paper-primary";
  cancel_mode = immediate;
  hidden_client_ids = [];
  assets = [];
  unknown_assets = [];
  orders = [];
  by_client = [];
  submit_params = [];
  results = [];
  sequence = 0;
}

abbrev step : FakeFillStep
step = record { quantity = record { value = 3 }; price = record { cents = 19900 } }

abbrev operations : List Operation
operations =
    submitting intent
    ∷ filling "fake-order-000001" step
    ∷ submitting intent
    ∷ filling "fake-order-000001" step
    ∷ []

abbrev answer : BrokerOrder
answer = record {
  broker_order_id = "fake-order-000001";
  client_order_id = "c1";
  symbol = "AAPL";
  side = intent.side;
  quantity = record { value = 10 };
  filled_quantity = 0;
  limit_price = record { cents = 20000 };
  status = accepted;
  submitted_at = 100;
  updated_at = 100;
}

abbrev execution : String → ℕ → Fill
execution id at = record {
  execution_id = id;
  broker_order_id = "fake-order-000001";
  quantity = record { value = 3 };
  price = record { cents = 19900 };
  occurred_at = at;
}

abbrev filled_twice : OrderState
filled_twice = record {
  order = record answer { status = partially_filled; filled_quantity = 6; updated_at = 104 };
  fills = execution "fake-exec-000002" 101 ∷ execution "fake-exec-000003" 103 ∷ [];
}

stored_twice :
    lookup "fake-order-000001" (after_all operations (created broker)).orders ≡ some filled_twice
unfolding after_all after created submit_order submit_accepting record_accepted_order stored_order
    apply_fill apply_fill_step order_id execution_id numeral numeral_onto lookup insert remove
    broker_order_transition_allowed broker_order_status_transitions same_broker_status
    is_open_status is_terminal is_review same_params same_side
stored_twice = refl

one_order_example : ◌≡◌ {A = String} "fake-order-000001" "fake-order-000001"
one_order_example =
    one_order broker operations "fake-order-000001" "fake-order-000001" filled_twice filled_twice
      stored_twice stored_twice refl

order_executed_example :
    (executed filled_twice.fills ≡ filled_twice.order.filled_quantity)
    × (filled_twice.order.filled_quantity ≤ filled_twice.order.quantity.value)
    × (lookup "c1" (after_all operations (created broker)).by_client ≡ some "fake-order-000001")
order_executed_example =
    order_executed broker operations "fake-order-000001" filled_twice stored_twice

first_answer : (submit_order intent broker).0 ≡ ok (submit_accepted answer)
unfolding submit_order submit_accepting record_accepted_order stored_order order_id numeral
    numeral_onto lookup insert
first_answer = refl

submit_order_again_example :
    submit_order intent (submit_order intent broker).1
    ≡ (ok (submit_accepted answer), (submit_order intent broker).1)
submit_order_again_example = submit_order_again intent broker (submit_accepted answer) first_answer
