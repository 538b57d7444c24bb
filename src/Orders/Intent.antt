-- ===== src/Orders/Intent.antt =====
-- Order intents (src/seven_lens/execution/orders.py, OrderIntent). Ids and symbols are texts, and
-- a date is its ISO text.
use seven_lens_paper_trading.Prelude.{ℕ, String}
use seven_lens_paper_trading.Prelude.Result.{Result, ok, ◌>>◌}
use seven_lens_paper_trading.Orders.Status.{
  OrderError, OrderSide, OrderIntentType, OrderStatus, assert_order_transition,
}
use seven_lens_paper_trading.Orders.Money.{OrderQuantity, Price}
use seven_lens_paper_trading.Orders.Collar.{PriceCollar}

pub record OrderIntent : Type 0 where
  pub intent_id : String
  pub client_order_id : String
  pub strategy : String
  pub trading_date : String
  pub window : String
  pub target_version : ℕ
  pub symbol : String
  pub side : OrderSide
  pub quantity : OrderQuantity
  pub intent_type : OrderIntentType
  pub limit_price : Price
  pub collar : PriceCollar
  pub earliest_submit_at : ℕ
  pub cancel_at : ℕ
  pub status : OrderStatus
  pub run_id : String
  pub created_at : ℕ

-- `transition_to`; the fields that `replace` checks again are unchanged
unfoldable pub transition_to : OrderIntent → OrderStatus → Result OrderError OrderIntent
transition_to intent target = do
  assert_order_transition intent.status target
  ok (record intent { status = target })
