-- ===== src/Ledger/Accounts.antt =====
-- What one fill does to the ledger's cash and shares, and what a whole replay conserves.
use seven_lens_paper_trading.Prelude.{
  ℕ, ◌+◌, ◌-◌, ◌*◌, ◌≤◌, ◌≡◌, refl, ap, ◌∙◌, String, false, not, inl, inr, some, List, [], ◌∷◌,
  ◌++◌, elem, if◌then◌else◌, arith, All, All-append, length, drop, replicate, Bool-cases,
  Option-cases, ◌⊎◌,
}
use mathlib.Core.Path.{subst}
use mathlib.Core.List.{append-nil}
use seven_lens_paper_trading.Prelude.Int.{ℤ, pos, ◌+ℤ◌, ◌-ℤ◌}
use seven_lens_paper_trading.Prelude.Text.{str_eq, eq_iff}
use seven_lens_paper_trading.Prelude.Dict.{Dict, lookup, insert}
use seven_lens_paper_trading.Prelude.Result.{ok}
use seven_lens_paper_trading.Orders.Status.{OrderSide, buy, sell}
use seven_lens_paper_trading.Orders.Mirror.{BrokerOrder, Fill}
use seven_lens_paper_trading.Ledger.Lots.{OpenLot, sell_lots}
use seven_lens_paper_trading.Ledger.Consume.{
  IsLot, Share, shares, shares-append, Sold, sell_lots-Sold,
}
use seven_lens_paper_trading.Ledger.{
  Replay, count_of, apply_buy, apply_sell, apply_known, apply_fill,
}

-- The shares of a symbol after a fill, as a queue: a buy appends, a sell takes from the front.
unfoldable pub queue_after : String → BrokerOrder → Fill → List Share → List Share
queue_after symbol order fill queue =
    if not (str_eq order.symbol symbol) then queue else elim order.side [
      | buy ↦ queue ++ replicate fill.quantity.value (fill.price, fill.occurred_at)
      | sell ↦ drop fill.quantity.value queue
    ]

-- Cash after a fill.
unfoldable pub cash_after : BrokerOrder → Fill → ℤ → ℤ
cash_after order fill cash = elim order.side [
  | buy ↦ cash -ℤ pos (fill.quantity.value * fill.price.cents)
  | sell ↦ cash +ℤ pos (fill.quantity.value * fill.price.cents)
]

-- What a successful round of the replay has done.
pub record Applied (orders : Dict BrokerOrder) (r : Replay) (fill : Fill) (order : BrokerOrder)
    (r' : Replay) : Type 0 where
  pub fresh : elem str_eq fill.execution_id r.seen_executions ≡ false
  pub known : lookup fill.broker_order_id orders ≡ some order
  pub within :
      count_of (lookup fill.broker_order_id r.filled_by_order) + fill.quantity.value
      ≤ order.quantity.value
  pub covered : order.side ≡ sell → fill.quantity.value ≤ length (shares order.symbol r.lots)
  pub seen : r'.seen_executions ≡ fill.execution_id ∷ r.seen_executions
  pub filled :
      r'.filled_by_order
      ≡ insert fill.broker_order_id
          (count_of (lookup fill.broker_order_id r.filled_by_order) + fill.quantity.value)
          r.filled_by_order
  pub queues :
      (symbol : String)
      → shares symbol r'.lots ≡ queue_after symbol order fill (shares symbol r.lots)
  pub cash : r'.cash_cents ≡ cash_after order fill r.cash_cents
  pub positive : All IsLot r'.lots

-- A successful buy.
module _ (order : BrokerOrder) (fill : Fill) (r r' : Replay) (v : All IsLot r.lots) where
  buy_lem :
      apply_buy order fill r ≡ ok r'
      → (r'.cash_cents ≡ r.cash_cents -ℤ pos (fill.quantity.value * fill.price.cents))
        × (r'.lots
            ≡ r.lots
              ++ record {
                symbol = order.symbol;
                quantity = fill.quantity.value;
                price = fill.price;
                opened_at = fill.occurred_at;
              }
                ∷ [])
        × (1 ≤ fill.quantity.value)
        × (r'.seen_executions ≡ r.seen_executions)
        × (r'.filled_by_order ≡ r.filled_by_order)
  unfolding apply_buy
  buy_lem h = ground arith

  sell_inverse :
      (left : ℕ) (cash' : ℤ) (lots' : List OpenLot)
      → sell_lots order.symbol fill.price r.lots fill.quantity.value r.cash_cents
        ≡ ok (left, cash', lots')
      → apply_sell order fill r ≡ ok r'
      → (left ≡ 0) × (r' ≡ record r { cash_cents = cash'; lots = lots' })
  unfolding apply_sell
  sell_inverse left cash' lots' e h = ground arith

  sell_lem :
      apply_sell order fill r ≡ ok r'
      → Sold order.symbol fill.price r.lots fill.quantity.value r.cash_cents 0 r'.cash_cents r'.lots
        × (r'.seen_executions ≡ r.seen_executions)
        × (r'.filled_by_order ≡ r.filled_by_order)
  sell_lem h =
      let (left, cash', lots', e, s) =
        sell_lots-Sold order.symbol fill.price r.lots fill.quantity.value r.cash_cents v in
      let (none_left, same) = sell_inverse left cash' lots' e h in
      rw same (
        subst
            (λ n.
              Sold order.symbol fill.price r.lots fill.quantity.value r.cash_cents n cash' lots')
            none_left s,
        refl,
        refl,
      )

module _ (order : BrokerOrder) (fill : Fill) (r r' : Replay) (v : All IsLot r.lots) where
  buy_queue :
      order.side ≡ buy
      → apply_buy order fill r ≡ ok r'
      → (symbol : String)
      → shares symbol r'.lots ≡ queue_after symbol order fill (shares symbol r.lots)
  unfolding queue_after shares
  buy_queue side h symbol =
      let (_, lots, _, _, _) = buy_lem order fill r r' v h in
      rw (lots, shares-append)
        (elim (Bool-cases (str_eq order.symbol symbol)) [
          | inl same ↦ rw (same, side, append-nil) refl
          | inr differ ↦ rw (differ, append-nil) refl
        ])

  buy_positive : apply_buy order fill r ≡ ok r' → All IsLot r'.lots
  buy_positive h =
      let (_, lots, whole, _, _) = buy_lem order fill r r' v h in
      rw lots (All-append IsLot r.lots _ v (whole, tt))

  sell_queue :
      order.side ≡ sell
      → apply_sell order fill r ≡ ok r'
      → (symbol : String)
      → shares symbol r'.lots ≡ queue_after symbol order fill (shares symbol r.lots)
  unfolding queue_after
  sell_queue side h symbol =
      let (s, _, _) = sell_lem order fill r r' v h in
      elim (Bool-cases (str_eq order.symbol symbol)) [
        | inl same ↦
            let e = (eq_iff order.symbol symbol).0 same in
            rw (same, side)
              (subst (λ x. shares x r'.lots ≡ drop fill.quantity.value (shares x r.lots)) e s.fifo)
        | inr differ ↦ rw differ (s.others symbol (λ e. cc ((eq_iff order.symbol symbol).1 e)))
      ]

  sell_cash :
      apply_sell order fill r ≡ ok r'
      → r'.cash_cents ≡ r.cash_cents +ℤ pos (fill.quantity.value * fill.price.cents)
  sell_cash h =
      let (s, _, _) = sell_lem order fill r r' v h in
      let e : fill.quantity.value - 0 ≡ fill.quantity.value = omega arith in
      s.credited ∙ ap (λ (n : ℕ). r.cash_cents +ℤ pos (n * fill.price.cents)) e

  sell_covered :
      apply_sell order fill r ≡ ok r' → fill.quantity.value ≤ length (shares order.symbol r.lots)
  sell_covered h = let (s, _, _) = sell_lem order fill r r' v h in omega (arith, s.left_over)

-- The record of executions and of filled quantities, written before the fill is applied.
abbrev recorded : Fill → Replay → Replay
recorded fill r = record r {
  seen_executions = fill.execution_id ∷ r.seen_executions;
  filled_by_order =
      insert fill.broker_order_id
        (count_of (lookup fill.broker_order_id r.filled_by_order) + fill.quantity.value)
        r.filled_by_order;
}

module _ (order : BrokerOrder) (fill : Fill) (r r' : Replay) where
  known_within :
      apply_known order fill r ≡ ok r'
      → count_of (lookup fill.broker_order_id r.filled_by_order) + fill.quantity.value
        ≤ order.quantity.value
  unfolding apply_known
  known_within h = ground arith

  known_buy :
      order.side ≡ buy
      → apply_known order fill r ≡ ok r'
      → apply_buy order fill (recorded fill r) ≡ ok r'
  unfolding apply_known
  known_buy side h = ground arith

  known_sell :
      order.side ≡ sell
      → apply_known order fill r ≡ ok r'
      → apply_sell order fill (recorded fill r) ≡ ok r'
  unfolding apply_known
  known_sell side h = ground arith

OrderSide-cases : (s : OrderSide) → (s ≡ buy) ⊎ (s ≡ sell)
OrderSide-cases buy = inl refl
OrderSide-cases sell = inr refl

known-Applied :
    (orders : Dict BrokerOrder) (order : BrokerOrder) (fill : Fill) (r r' : Replay)
    → All IsLot r.lots
    → elem str_eq fill.execution_id r.seen_executions ≡ false
    → lookup fill.broker_order_id orders ≡ some order
    → apply_known order fill r ≡ ok r'
    → Applied orders r fill order r'
unfolding cash_after
known-Applied orders order fill r r' v fresh known h = elim (OrderSide-cases order.side) [
  | inl side ↦
      let b = known_buy order fill r r' side h in
      let (cash, _, _, seen, filled) = buy_lem order fill (recorded fill r) r' v b in
      record {
        fresh = fresh;
        known = known;
        within = known_within order fill r r' h;
        covered = λ other. cc;
        seen = seen;
        filled = filled;
        queues = buy_queue order fill (recorded fill r) r' v side b;
        cash = rw side cash;
        positive = buy_positive order fill (recorded fill r) r' v b;
      }
  | inr side ↦
      let b = known_sell order fill r r' side h in
      let (s, seen, filled) = sell_lem order fill (recorded fill r) r' v b in
      record {
        fresh = fresh;
        known = known;
        within = known_within order fill r r' h;
        covered = λ _. sell_covered order fill (recorded fill r) r' v b;
        seen = seen;
        filled = filled;
        queues = sell_queue order fill (recorded fill r) r' v side b;
        cash = rw side (sell_cash order fill (recorded fill r) r' v b);
        positive = s.positive;
      }
]

apply_fill_inverse :
    (orders : Dict BrokerOrder) (fill : Fill) (r r' : Replay)
    → apply_fill orders r fill ≡ ok r'
    → (elem str_eq fill.execution_id r.seen_executions ≡ false)
      × (order : BrokerOrder) × (lookup fill.broker_order_id orders ≡ some order)
      × (apply_known order fill r ≡ ok r')
unfolding apply_fill
apply_fill_inverse orders fill r r' h = elim (Option-cases (lookup fill.broker_order_id orders)) [
  | inl missing ↦ ground arith
  | inr (order, e) ↦ (ground arith, order, e, ground arith)
]

-- Over well-formed lots, a fill that the replay accepts is new, belongs to a known order within its quantity, sells no
-- share that is not held, and changes cash and the share queue of every symbol as its order's side
-- says.
pub apply_fill-Applied :
    (orders : Dict BrokerOrder) (fill : Fill) (r r' : Replay)
    → All IsLot r.lots
    → apply_fill orders r fill ≡ ok r'
    → (order : BrokerOrder) × Applied orders r fill order r'
apply_fill-Applied orders fill r r' v h =
    let (fresh, order, known, done) = apply_fill_inverse orders fill r r' h in
    (order, known-Applied orders order fill r r' v fresh known done)
