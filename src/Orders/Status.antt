-- ===== src/Orders/Status.antt =====
-- The internal lifecycle of an order intent (src/seven_lens/execution/orders.py, first part).
pub mod Lifecycle
use seven_lens_paper_trading.Prelude.{
  ◌≡◌, refl, ◌↔◌, Bool, true, false, List, [], ◌∷◌, elem, if◌then◌else◌, arith,
}
use seven_lens_paper_trading.Prelude.Result.{Result, ok, err}

pub data OrderSide : Type 0 where
  buy sell : OrderSide

pub data OrderIntentType : Type 0 where
  rebalance risk_exit : OrderIntentType

pub data OrderStatus : Type 0 where
  created risk_approved outbox_pending submitting acknowledged partially_filled filled : OrderStatus
  cancel_pending canceled rejected expired unknown review_required : OrderStatus

pub OrderStatus-discrete : Discrete OrderStatus
OrderStatus-discrete = hlevel

pub OrderSide-discrete : Discrete OrderSide
OrderSide-discrete = hlevel

-- `a is b`
unfoldable pub same_status : OrderStatus → OrderStatus → Bool
unfolding OrderStatus-discrete
same_status a b = elim (OrderStatus-discrete a b) [ yes e ↦ true | no ne ↦ false ]

unfoldable pub same_side : OrderSide → OrderSide → Bool
unfolding OrderSide-discrete
same_side a b = elim (OrderSide-discrete a b) [ yes e ↦ true | no ne ↦ false ]

abbrev pub terminal_order_statuses : List OrderStatus
terminal_order_statuses = filled ∷ canceled ∷ rejected ∷ expired ∷ []

unfoldable pub order_status_transitions : OrderStatus → List OrderStatus
order_status_transitions created = risk_approved ∷ rejected ∷ expired ∷ []
order_status_transitions risk_approved = outbox_pending ∷ expired ∷ []
order_status_transitions outbox_pending = submitting ∷ expired ∷ []
order_status_transitions submitting =
    acknowledged ∷ partially_filled ∷ filled ∷ rejected ∷ expired ∷ unknown ∷ cancel_pending
    ∷ canceled ∷ review_required ∷ []
order_status_transitions acknowledged =
    partially_filled ∷ filled ∷ cancel_pending ∷ expired ∷ review_required ∷ []
order_status_transitions partially_filled =
    partially_filled ∷ filled ∷ cancel_pending ∷ expired ∷ review_required ∷ []
order_status_transitions cancel_pending =
    partially_filled ∷ filled ∷ canceled ∷ expired ∷ review_required ∷ []
order_status_transitions unknown =
    acknowledged ∷ partially_filled ∷ filled ∷ cancel_pending ∷ canceled ∷ rejected ∷ expired
    ∷ review_required ∷ []
order_status_transitions filled = review_required ∷ []
order_status_transitions canceled = review_required ∷ []
order_status_transitions rejected = review_required ∷ []
order_status_transitions expired = review_required ∷ []
order_status_transitions review_required = []

unfoldable pub order_transition_allowed : OrderStatus → OrderStatus → Bool
unfolding order_status_transitions same_status
order_transition_allowed current target = elem same_status target (order_status_transitions current)

-- The exceptions of the module.
pub data OrderError : Type 0 where
  invalid_value invalid_order_transition invalid_broker_order_transition : OrderError

unfoldable pub assert_order_transition : OrderStatus → OrderStatus → Result OrderError (Unit {0})
assert_order_transition current target =
    if order_transition_allowed current target then ok tt else err invalid_order_transition

pub same_status_iff : (a b : OrderStatus) → (same_status a b ≡ true) ↔ (a ≡ b)
unfolding same_status
same_status_iff a b =
    elim (OrderStatus-discrete a b)
      as (λ d. ((elim d [ yes e ↦ true | no ne ↦ false ]) ≡ true) ↔ (a ≡ b)) [
        | yes e ↦ ((λ _. e), (λ _. refl))
        | no ne ↦ ((λ h. cc), (λ e. absurd (ne e)))
      ]

pub same_side_iff : (a b : OrderSide) → (same_side a b ≡ true) ↔ (a ≡ b)
unfolding same_side
same_side_iff a b = grind arith
