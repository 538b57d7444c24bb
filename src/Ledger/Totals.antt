-- ===== src/Ledger/Totals.antt =====
-- Shares and cents that fills of known orders move, in total, against the lots that are held.
use seven_lens_paper_trading.Prelude.{
  ℕ, ◌+◌, ◌*◌, ◌≤◌, ◌≡◌, refl, String, true, inl, inr, none, some, List, [], ◌∷◌, sum_by,
  if◌then◌else◌, arith, length, length-replicate, length-append, length-drop, Bool-cases, ◌⊎◌,
}
use seven_lens_paper_trading.Prelude.Int.{ℤ, pos, ◌+ℤ◌, int_laws}
use seven_lens_paper_trading.Prelude.Text.{str_eq}
use seven_lens_paper_trading.Prelude.Dict.{Dict, lookup}
use seven_lens_paper_trading.Orders.Status.{OrderSide, buy, sell}
use seven_lens_paper_trading.Orders.Mirror.{BrokerOrder, Fill}
use seven_lens_paper_trading.Ledger.Lots.{OpenLot}
use seven_lens_paper_trading.Ledger.Consume.{Share, shares}
use seven_lens_paper_trading.Ledger.Accounts.{queue_after, cash_after}

-- A quantity of a fill that depends on its order, and is nothing where the order is not known.
abbrev pub by_order : Dict BrokerOrder → (BrokerOrder → Fill → ℕ) → Fill → ℕ
by_order orders f fill = elim (lookup fill.broker_order_id orders) [
  | none ↦ 0
  | some order ↦ f order fill
]

-- Shares of the symbol bought and sold by a fill.
abbrev pub shares_bought : String → BrokerOrder → Fill → ℕ
shares_bought symbol order fill =
    if str_eq order.symbol symbol
    then elim order.side [ buy ↦ fill.quantity.value | sell ↦ 0 ]
    else 0

abbrev pub shares_sold : String → BrokerOrder → Fill → ℕ
shares_sold symbol order fill =
    if str_eq order.symbol symbol
    then elim order.side [ buy ↦ 0 | sell ↦ fill.quantity.value ]
    else 0

abbrev pub cents_spent : BrokerOrder → Fill → ℕ
cents_spent order fill = elim order.side [ buy ↦ fill.quantity.value * fill.price.cents | sell ↦ 0 ]

abbrev pub cents_earned : BrokerOrder → Fill → ℕ
cents_earned order fill = elim order.side [
  | buy ↦ 0
  | sell ↦ fill.quantity.value * fill.price.cents
]

abbrev pub quantity_for : String → Fill → ℕ
quantity_for k fill = if str_eq fill.broker_order_id k then fill.quantity.value else 0

-- The shares of a symbol held in the lots.
abbrev pub held : String → List OpenLot → ℕ
held symbol lots = sum_by (λ lot. if str_eq lot.symbol symbol then lot.quantity else 0) lots

pub length-shares :
    (symbol : String) (lots : List OpenLot) → length (shares symbol lots) ≡ held symbol lots
unfolding shares
length-shares symbol [] = refl
length-shares symbol (lot ∷ lots) = elim (Bool-cases (str_eq lot.symbol symbol)) [
  | inl same ↦ rw (same, length-append, length-replicate) (omega (arith, length-shares symbol lots))
  | inr differ ↦ rw differ (omega (arith, length-shares symbol lots))
]

pub by_order_known :
    (orders : Dict BrokerOrder) (f : BrokerOrder → Fill → ℕ) (fill : Fill) (order : BrokerOrder)
    → lookup fill.broker_order_id orders ≡ some order
    → by_order orders f fill ≡ f order fill
by_order_known orders f fill order h = ground arith

OrderSide-cases : (s : OrderSide) → (s ≡ buy) ⊎ (s ≡ sell)
OrderSide-cases buy = inl refl
OrderSide-cases sell = inr refl

-- The length of a queue after a fill that its shares cover.
pub length-queue_after :
    (symbol : String) (order : BrokerOrder) (fill : Fill) (queue : List Share)
    → (str_eq order.symbol symbol ≡ true → order.side ≡ sell → fill.quantity.value ≤ length queue)
    → length (queue_after symbol order fill queue) + shares_sold symbol order fill
      ≡ length queue + shares_bought symbol order fill
unfolding queue_after
length-queue_after symbol order fill queue covered =
    elim (Bool-cases (str_eq order.symbol symbol)) [
      | inr differ ↦ rw differ refl
      | inl same ↦ elim (OrderSide-cases order.side) [
        | inl side ↦ rw (same, side, length-append, length-replicate) (omega arith)
        | inr side ↦ rw (same, side, length-drop) (omega (arith, covered same side))
      ]
    ]

pub cash_after_lem :
    (order : BrokerOrder) (fill : Fill) (cash : ℤ)
    → cash_after order fill cash +ℤ pos (cents_spent order fill)
      ≡ cash +ℤ pos (cents_earned order fill)
unfolding cash_after
cash_after_lem order fill cash = elim (OrderSide-cases order.side) [
  | inl side ↦ rw side (omega int_laws)
  | inr side ↦ rw side (omega int_laws)
]

module _ (orders : Dict BrokerOrder) where
  -- The totals of a list of fills.
  unfoldable pub bought : String → List Fill → ℕ
  bought symbol = sum_by (by_order orders (shares_bought symbol))

  unfoldable pub sold : String → List Fill → ℕ
  sold symbol = sum_by (by_order orders (shares_sold symbol))

  unfoldable pub spent : List Fill → ℕ
  spent = sum_by (by_order orders cents_spent)

  unfoldable pub earned : List Fill → ℕ
  earned = sum_by (by_order orders cents_earned)
