-- ===== src/PaperBroker/State.antt =====
-- The state of `FakePaperBroker`. The clock is a function of the number of its past calls.
use seven_lens_paper_trading.Prelude.{ℕ, ◌+◌, String, Option, none, some, List}
use seven_lens_paper_trading.Prelude.Result.{Result, ok, err}
use seven_lens_paper_trading.Prelude.Dict.{Dict}
use seven_lens_paper_trading.Orders.Status.{OrderSide}
use seven_lens_paper_trading.Orders.Money.{OrderQuantity, Price, UsdAmount}
use seven_lens_paper_trading.Orders.Mirror.{BrokerOrder, Fill}
use seven_lens_paper_trading.Engine.Port.{
  RejectionReason, PaperAsset, SubmitResult, EngineError, broker_other,
}

pub data FakeSubmitOutcome : Type 0 where
  acknowledge reject timeout_before_accept timeout_after_accept : FakeSubmitOutcome

pub data FakeCancelMode : Type 0 where
  immediate pending timeout : FakeCancelMode

pub record FakeFillStep : Type 0 where
  pub quantity : OrderQuantity
  pub price : Price

pub record FakeSubmitPlan : Type 0 where
  pub outcome : FakeSubmitOutcome
  pub first_fill : Option FakeFillStep
  pub rejection_reason : Option RejectionReason

-- `FakeSubmitPlan.__post_init__`
unfoldable pub fake_submit_plan :
    FakeSubmitOutcome
    → Option FakeFillStep
    → Option RejectionReason
    → Result EngineError FakeSubmitPlan
fake_submit_plan reject none (some reason) =
    ok (record { outcome = reject; first_fill = none; rejection_reason = some reason })
fake_submit_plan reject first_fill reason = err broker_other
fake_submit_plan outcome first_fill none =
    ok (record { outcome = outcome; first_fill = first_fill; rejection_reason = none })
fake_submit_plan outcome first_fill (some reason) = err broker_other

-- `_OrderState`
pub record OrderState : Type 0 where
  pub order : BrokerOrder
  pub fills : List Fill

pub record SubmitParams : Type 0 where
  pub symbol : String
  pub side : OrderSide
  pub quantity : OrderQuantity
  pub limit_price : Price

-- The three flags of an account mismatch, which no method reads, are left out.
pub record FakePaperBroker : Type 0 where
  pub clock : ℕ → ℕ
  pub clock_calls : ℕ
  pub plans : Dict FakeSubmitPlan
  pub default_plan : FakeSubmitPlan
  pub cash : UsdAmount
  pub equity : UsdAmount
  pub buying_power : UsdAmount
  pub account_id : String
  pub cancel_mode : FakeCancelMode
  pub hidden_client_ids : List String
  pub assets : Dict PaperAsset
  pub unknown_assets : List String
  pub orders : Dict OrderState
  pub by_client : Dict String
  pub submit_params : Dict SubmitParams
  pub results : Dict SubmitResult
  pub sequence : ℕ

-- `self._clock()`
abbrev pub time : FakePaperBroker → ℕ
time b = b.clock b.clock_calls

abbrev pub tick : FakePaperBroker → FakePaperBroker
tick b = record b { clock_calls = b.clock_calls + 1 }

-- `self._orders[id] = state`, or a write to a state that is stored there
abbrev pub with_orders : Dict OrderState → FakePaperBroker → FakePaperBroker
with_orders orders b = record b { orders = orders }
