-- ===== src/Orders/Mirror.antt =====
-- The local mirror of one broker order, and one execution (src/seven_lens/execution/orders.py:
-- BrokerOrder, Fill). An instant is its number of microseconds. Symbols and order ids are texts.
use seven_lens_paper_trading.Prelude.{
  ℕ, suc, String, Bool, true, false, not, ◌&&◌, ◌||◌, ltb, leb, ◌==◌, if◌then◌else◌,
}
use Prim.Native.Char.{code}
use seven_lens_paper_trading.Prelude.Result.{Result, ok, err}
use seven_lens_paper_trading.Orders.Status.{OrderError, OrderSide, invalid_value}
use seven_lens_paper_trading.Orders.BrokerStatus.{BrokerOrderStatus, is_open_status}
use seven_lens_paper_trading.Orders.Money.{OrderQuantity, Price}

-- The code points that `str.strip` removes.
abbrev pub is_space : ℕ → Bool
is_space c =
    leb 9 c && leb c 13
    || leb 28 c && leb c 32
    || c == 133
    || c == 160
    || c == 5760
    || leb 8192 c && leb c 8202
    || c == 8232
    || c == 8233
    || c == 8239
    || c == 8287
    || c == 12288

-- `not value.strip()`
pub is_blank : String → Bool
is_blank String.[] = true
is_blank (String.◌∷◌ c s) = is_space (code c) && is_blank s

-- `"\x00" in value`
pub has_nul : String → Bool
has_nul String.[] = false
has_nul (String.◌∷◌ c s) = code c == 0 || has_nul s

-- `len(value)`
pub text_length : String → ℕ
text_length String.[] = 0
text_length (String.◌∷◌ c s) = suc (text_length s)

unfoldable pub bounded_text : ℕ → String → Bool
unfolding is_blank has_nul text_length
bounded_text maximum s = not (is_blank s) && leb (text_length s) maximum && not (has_nul s)

pub record BrokerOrder : Type 0 where
  pub broker_order_id : String
  pub client_order_id : String
  pub symbol : String
  pub side : OrderSide
  pub quantity : OrderQuantity
  pub filled_quantity : ℕ
  pub limit_price : Price
  pub status : BrokerOrderStatus
  pub submitted_at : ℕ
  pub updated_at : ℕ

-- `BrokerOrder.__post_init__`, which `replace` runs too
unfoldable pub checked_broker_order : BrokerOrder → Result OrderError BrokerOrder
checked_broker_order o =
    if not (bounded_text 100 o.broker_order_id)
    then err invalid_value
    else if ltb o.quantity.value o.filled_quantity
    then err invalid_value
    else ok o

-- `BrokerOrder.is_open`
unfoldable pub is_open : BrokerOrder → Bool
unfolding is_open_status
is_open o = is_open_status o.status

pub record Fill : Type 0 where
  pub execution_id : String
  pub broker_order_id : String
  pub quantity : OrderQuantity
  pub price : Price
  pub occurred_at : ℕ

-- `Fill.__post_init__`
unfoldable pub checked_fill : Fill → Result OrderError Fill
checked_fill f =
    if not (bounded_text 100 f.execution_id) || not (bounded_text 100 f.broker_order_id)
    then err invalid_value
    else ok f
