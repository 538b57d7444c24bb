-- ===== src/Engine/Port.antt =====
-- The broker that the engine calls (src/seven_lens/application/ports/broker.py, PaperBrokerPort), and
-- its clock: operations on a state of any type, any of which may raise.
use seven_lens_paper_trading.Prelude.{ℕ, String, Bool, Option, List}
use seven_lens_paper_trading.Prelude.Result.{Result}
use seven_lens_paper_trading.Orders.Mirror.{BrokerOrder, Fill}
use seven_lens_paper_trading.Orders.Intent.{OrderIntent}

pub data RejectionReason : Type 0 where
  insufficient_cash symbol_not_tradeable outside_trading_window : RejectionReason
  order_parameters_rejected : RejectionReason

pub data AssetClass : Type 0 where
  us_equity us_option crypto future : AssetClass

pub data AssetStatus : Type 0 where
  active inactive : AssetStatus

pub record PaperAsset : Type 0 where
  pub symbol : String
  pub asset_class : AssetClass
  pub status : AssetStatus
  pub tradable : Bool
  pub exchange : String

-- `SubmitAccepted | SubmitRejected`
pub data SubmitResult : Type 0 where
  submit_accepted : BrokerOrder → SubmitResult
  submit_rejected : RejectionReason → SubmitResult

-- The exceptions of the engine, of the calls that it makes, and of the control plane.
pub data EngineError : Type 0 where
  execution_state_error broker_mirror_mismatch execution_paused control_persistence : EngineError
  broker_transport broker_conflict broker_other store_error resume_blocked value_error : EngineError

abbrev pub Reply : Type 0 → Type 0 → Type 0
Reply B A = B → Result EngineError A × B

-- What the engine works with: `PaperBrokerPort`, as far as the engine calls it, `clock`, and whether the
-- unit of work has a control repository. Without one, the engine is built without a control source too.
pub record Port (B : Type 0) : Type 0 where
  pub submit_order : OrderIntent → Reply B SubmitResult
  pub get_order : String → Reply B (Option BrokerOrder)
  pub list_fills : String → Reply B (List Fill)
  pub cancel_order : String → Reply B Bool
  pub get_asset : String → Reply B (Option PaperAsset)
  pub clock : B → ℕ × B
  pub has_control_repository : Bool
