-- ===== src/Orders/BrokerStatus.antt =====
-- The statuses of a broker-side order and their transitions
-- (src/seven_lens/execution/orders.py, BrokerOrderStatus).
use seven_lens_paper_trading.Prelude.{
  ◌≡◌, refl, ◌↔◌, Bool, true, false, not, ◌&&◌, List, [], ◌∷◌, elem, if◌then◌else◌, arith,
}
use seven_lens_paper_trading.Prelude.Result.{Result, ok, err}
use seven_lens_paper_trading.Orders.Status.{OrderError, invalid_broker_order_transition}

pub data BrokerOrderStatus : Type 0 where
  received accepted accepted_for_bidding partially_filled filled pending_cancel : BrokerOrderStatus
  canceled expired rejected done_for_day replaced pending_replace stopped : BrokerOrderStatus
  suspended calculated : BrokerOrderStatus

pub BrokerOrderStatus-discrete : Discrete BrokerOrderStatus
BrokerOrderStatus-discrete = hlevel

-- `a is b`
unfoldable pub same_broker_status : BrokerOrderStatus → BrokerOrderStatus → Bool
unfolding BrokerOrderStatus-discrete
same_broker_status a b = elim (BrokerOrderStatus-discrete a b) [ yes e ↦ true | no ne ↦ false ]

abbrev pub terminal_broker_order_statuses : List BrokerOrderStatus
terminal_broker_order_statuses = filled ∷ canceled ∷ expired ∷ rejected ∷ []

abbrev pub review_broker_order_statuses : List BrokerOrderStatus
review_broker_order_statuses =
    done_for_day ∷ replaced ∷ pending_replace ∷ stopped ∷ suspended ∷ calculated ∷ []

unfoldable pub broker_order_status_transitions : BrokerOrderStatus → List BrokerOrderStatus
broker_order_status_transitions received =
    accepted ∷ accepted_for_bidding ∷ partially_filled ∷ filled ∷ pending_cancel ∷ canceled
    ∷ expired ∷ rejected ∷ review_broker_order_statuses
broker_order_status_transitions accepted =
    partially_filled ∷ filled ∷ pending_cancel ∷ canceled ∷ expired ∷ rejected
    ∷ review_broker_order_statuses
broker_order_status_transitions accepted_for_bidding =
    partially_filled ∷ filled ∷ pending_cancel ∷ canceled ∷ expired ∷ rejected
    ∷ review_broker_order_statuses
broker_order_status_transitions partially_filled =
    partially_filled ∷ filled ∷ pending_cancel ∷ canceled ∷ expired ∷ rejected
    ∷ review_broker_order_statuses
broker_order_status_transitions pending_cancel =
    pending_cancel ∷ partially_filled ∷ filled ∷ canceled ∷ expired ∷ rejected
    ∷ review_broker_order_statuses
broker_order_status_transitions filled = []
broker_order_status_transitions canceled = []
broker_order_status_transitions expired = []
broker_order_status_transitions rejected = []
broker_order_status_transitions done_for_day = []
broker_order_status_transitions replaced = []
broker_order_status_transitions pending_replace = []
broker_order_status_transitions stopped = []
broker_order_status_transitions suspended = []
broker_order_status_transitions calculated = []

unfoldable pub broker_order_transition_allowed : BrokerOrderStatus → BrokerOrderStatus → Bool
unfolding broker_order_status_transitions same_broker_status
broker_order_transition_allowed current target =
    elem same_broker_status target (broker_order_status_transitions current)

unfoldable pub assert_broker_order_transition :
    BrokerOrderStatus → BrokerOrderStatus → Result OrderError (Unit {0})
assert_broker_order_transition current target =
    if broker_order_transition_allowed current target
    then ok tt
    else err invalid_broker_order_transition

-- `status in TERMINAL_BROKER_ORDER_STATUSES`, `status in REVIEW_BROKER_ORDER_STATUSES`
unfoldable pub is_terminal : BrokerOrderStatus → Bool
unfolding same_broker_status
is_terminal s = elem same_broker_status s terminal_broker_order_statuses

unfoldable pub is_review : BrokerOrderStatus → Bool
unfolding same_broker_status
is_review s = elem same_broker_status s review_broker_order_statuses

-- `BrokerOrder.is_open`, on the status alone.
unfoldable pub is_open_status : BrokerOrderStatus → Bool
unfolding is_terminal is_review
is_open_status s = not (is_terminal s) && not (is_review s)

pub same_broker_status_iff : (a b : BrokerOrderStatus) → (same_broker_status a b ≡ true) ↔ (a ≡ b)
unfolding same_broker_status
same_broker_status_iff a b =
    elim (BrokerOrderStatus-discrete a b)
      as (λ d. ((elim d [ yes e ↦ true | no ne ↦ false ]) ≡ true) ↔ (a ≡ b)) [
        | yes e ↦ ((λ _. e), (λ _. refl))
        | no ne ↦ ((λ h. cc), (λ e. absurd (ne e)))
      ]

can_change-open :
    (s t : BrokerOrderStatus) → broker_order_transition_allowed s t ≡ true → is_open_status s ≡ true
unfolding is_open_status broker_order_transition_allowed
can_change-open s t h = ground arith

-- A broker status can change to some status exactly while the order is open.
open_iff_can_change :
    (s : BrokerOrderStatus)
    → (is_open_status s ≡ true)
      ↔ ((t : BrokerOrderStatus) × (broker_order_transition_allowed s t ≡ true))
unfolding is_open_status broker_order_transition_allowed
open_iff_can_change s = ((λ h. (filled, ground arith)), (λ q. can_change-open s q.0 q.1))

-- An open order can always still be filled in part, filled, canceled or expire.
open_can_execute :
    (s : BrokerOrderStatus)
    → is_open_status s ≡ true
    → (broker_order_transition_allowed s partially_filled ≡ true)
      × (broker_order_transition_allowed s filled ≡ true)
      × (broker_order_transition_allowed s canceled ≡ true)
      × (broker_order_transition_allowed s expired ≡ true)
unfolding is_open_status broker_order_transition_allowed
open_can_execute s h = ground arith
