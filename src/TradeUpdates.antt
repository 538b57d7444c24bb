-- ===== src/TradeUpdates.antt =====
-- src/seven_lens/execution/trade_updates.py: the consumer of broker trade updates. `apply_fill` and
-- `apply_status` are actions of the store's monad, so every call that they make may fail.
pub mod Conflict
pub mod Keeps
pub mod Safety
pub mod Progress
pub mod Intents
pub mod Pauses
pub mod Refusals
use Prim.Native.Nat.{max}
use seven_lens_paper_trading.Prelude.{
  ℕ, ◌+◌, ◌≡◌, refl, String, Bool, true, false, not, ◌&&◌, ◌||◌, Option, none, some, List, [], ◌∷◌,
  ltb, leb, ◌==◌, sum_by, if◌then◌else◌,
}
use seven_lens_paper_trading.Prelude.Text.{str_eq}
use seven_lens_paper_trading.Orders.Status.{
  OrderStatus, acknowledged, partially_filled, filled, cancel_pending, canceled, expired, rejected,
  review_required, same_status, order_transition_allowed,
}
use seven_lens_paper_trading.Orders.BrokerStatus.{
  BrokerOrderStatus, same_broker_status, is_terminal, is_review, broker_order_transition_allowed,
}
use seven_lens_paper_trading.Orders.Mirror.{BrokerOrder, Fill}
use seven_lens_paper_trading.Orders.Intent.{OrderIntent}
use seven_lens_paper_trading.Store.Monad.{
  M, Exn, trade_update_error, other_exception, pure, raise, ◌>>=◌, ◌>>◌, try_catch, commit,
  suppressed_rollback,
}
use seven_lens_paper_trading.Store.Repository.{
  get_intent, transition_status, get_broker_order_by_id, get_broker_order, add_fill,
  get_fill_by_execution_id, list_fills, update_broker_order_status,
}
use Conflict.{conflicting_fill, conflicting_status, persist_conflict_pause}

pub data TradeUpdateOutcome : Type 0 where
  applied duplicate stale unknown_order : TradeUpdateOutcome

pub record OrderStatusUpdate : Type 0 where
  pub client_order_id : String
  pub broker_order_id : String
  pub status : BrokerOrderStatus
  pub filled_quantity : ℕ
  pub observed_at : ℕ

-- `FillUpdate` and `OrderStatusUpdate`
pub data TradeUpdate : Type 0 where
  fill_update : Fill → TradeUpdate
  status_update : OrderStatusUpdate → TradeUpdate

-- `existing != fill`, negated
unfoldable pub same_fill : Fill → Fill → Bool
same_fill a b =
    str_eq a.execution_id b.execution_id
    && str_eq a.broker_order_id b.broker_order_id
    && a.quantity.value == b.quantity.value
    && a.price.cents == b.price.cents
    && a.occurred_at == b.occurred_at

-- The broker status after a fill; `none` is the error that there is no legal transition.
unfoldable pub fill_target : BrokerOrder → ℕ → Option BrokerOrderStatus
fill_target mirror new_filled =
    if is_terminal mirror.status || is_review mirror.status
    then some mirror.status
    else if same_broker_status mirror.status BrokerOrderStatus.pending_cancel
    then some BrokerOrderStatus.pending_cancel
    else let candidate =
        if new_filled == mirror.quantity.value
        then BrokerOrderStatus.filled
        else if ltb 0 new_filled
        then BrokerOrderStatus.partially_filled
        else mirror.status in
      if not (same_broker_status candidate mirror.status)
      then (if not (broker_order_transition_allowed mirror.status candidate)
          then none
          else some candidate)
      else some mirror.status

-- The intent status after a fill that left the mirror in a status.
unfoldable pub intent_after_fill : BrokerOrderStatus → OrderStatus → OrderStatus
intent_after_fill BrokerOrderStatus.filled current = filled
intent_after_fill BrokerOrderStatus.partially_filled current = partially_filled
intent_after_fill BrokerOrderStatus.pending_cancel current = cancel_pending
intent_after_fill _ current = current

-- the part of `_apply_fill` that moves the intent
unfoldable pub advance_intent : String → BrokerOrderStatus → Option OrderIntent → M (Unit {0})
advance_intent client_order_id target none = pure tt
advance_intent client_order_id target (some intent) =
    let intent_target = intent_after_fill target intent.status in
    if same_status intent_target intent.status
    then pure tt
    else if not (order_transition_allowed intent.status intent_target)
    then raise trade_update_error
    else (do transition_status client_order_id intent_target; pure tt)

-- `max(mirror.filled_quantity, total)`
abbrev pub filled_after : BrokerOrder → ℕ → ℕ
filled_after mirror total =
    if ltb total mirror.filled_quantity then mirror.filled_quantity else total

abbrev pub observed_after : BrokerOrder → Fill → Option ℕ
observed_after mirror fill =
    if ltb mirror.updated_at fill.occurred_at then some fill.occurred_at else none

abbrev is_none : Option ℕ → Bool
is_none none = true
is_none (some n) = false

-- the end of the `try` block of `_apply_fill`, for the broker status that it chose
unfoldable pub derive_target :
    BrokerOrder → Fill → ℕ → Option BrokerOrderStatus → M TradeUpdateOutcome
derive_target mirror fill new_filled none = raise trade_update_error
derive_target mirror fill new_filled (some target) =
    if same_broker_status target mirror.status
      && new_filled == mirror.filled_quantity
      && is_none (observed_after mirror fill)
    then pure applied
    else (do
      update_broker_order_status mirror.broker_order_id target new_filled
          (observed_after mirror fill)
      intent ← get_intent mirror.client_order_id
      advance_intent mirror.client_order_id target intent
      commit
      pure applied)

-- the `try` block of `_apply_fill`, from the summed quantity on
unfoldable pub derive_from : BrokerOrder → Fill → ℕ → M TradeUpdateOutcome
derive_from mirror fill total =
    if ltb mirror.quantity.value (filled_after mirror total)
    then raise trade_update_error
    else derive_target mirror fill (filled_after mirror total)
        (fill_target mirror (filled_after mirror total))

-- the `try` block of `_apply_fill`
unfoldable pub derive_fill : BrokerOrder → Fill → M TradeUpdateOutcome
derive_fill mirror fill = do
  fills ← list_fills mirror.broker_order_id
  derive_from mirror fill (sum_by (λ (f : Fill). f.quantity.value) fills)

-- the handlers of both `try` blocks: roll back, pause, and raise
unfoldable pub give_up : String → Conflict.Conflict → Exn → M TradeUpdateOutcome
give_up client_order_id conflict e = do
  suppressed_rollback
  persist_conflict_pause client_order_id conflict
  raise trade_update_error

-- a repeated execution id, with the recorded fill
unfoldable pub repeated_fill : BrokerOrder → Fill → Option Fill → M TradeUpdateOutcome
repeated_fill mirror fill none = give_up mirror.client_order_id conflicting_fill trade_update_error
repeated_fill mirror fill (some existing) =
    if not (same_fill existing fill)
    then give_up mirror.client_order_id conflicting_fill trade_update_error
    else (do commit; pure duplicate)

-- `_apply_fill` for a recorded order
unfoldable pub fill_for : Fill → Option BrokerOrder → M TradeUpdateOutcome
fill_for fill none = pure unknown_order
fill_for fill (some mirror) = do
  inserted ← add_fill fill
  if not inserted
      then (do
        existing ← get_fill_by_execution_id fill.execution_id
        repeated_fill mirror fill existing)
      else (do
        commit
        try_catch (derive_fill mirror fill) (give_up mirror.client_order_id conflicting_fill))

-- `_apply_fill`
unfoldable pub apply_fill : Fill → M TradeUpdateOutcome
apply_fill fill = do mirror ← get_broker_order_by_id fill.broker_order_id; fill_for fill mirror

-- `_INTENT_STATUS_BY_BROKER`
unfoldable pub intent_status_by_broker : BrokerOrderStatus → OrderStatus
intent_status_by_broker BrokerOrderStatus.received = acknowledged
intent_status_by_broker BrokerOrderStatus.accepted = acknowledged
intent_status_by_broker BrokerOrderStatus.accepted_for_bidding = acknowledged
intent_status_by_broker BrokerOrderStatus.partially_filled = partially_filled
intent_status_by_broker BrokerOrderStatus.filled = filled
intent_status_by_broker BrokerOrderStatus.pending_cancel = cancel_pending
intent_status_by_broker BrokerOrderStatus.canceled = canceled
intent_status_by_broker BrokerOrderStatus.expired = expired
intent_status_by_broker BrokerOrderStatus.rejected = rejected
intent_status_by_broker BrokerOrderStatus.done_for_day = review_required
intent_status_by_broker BrokerOrderStatus.replaced = review_required
intent_status_by_broker BrokerOrderStatus.pending_replace = review_required
intent_status_by_broker BrokerOrderStatus.stopped = review_required
intent_status_by_broker BrokerOrderStatus.suspended = review_required
intent_status_by_broker BrokerOrderStatus.calculated = review_required

-- `_transition_intent`
unfoldable pub transition_intent : String → OrderStatus → OrderStatus → M (Unit {0})
transition_intent client_order_id current target =
    if not (order_transition_allowed current target)
    then (if same_status target canceled && order_transition_allowed current cancel_pending
        then (do
          transition_status client_order_id cancel_pending
          transition_status client_order_id target
          pure tt)
        else raise trade_update_error)
    else (do transition_status client_order_id target; pure tt)

-- The intent status that an observation asks for.
unfoldable pub status_target : BrokerOrderStatus → OrderStatus → OrderStatus
status_target status current =
    let target = intent_status_by_broker status in
    if same_status target acknowledged
      && (same_status current partially_filled || same_status current cancel_pending)
    then current
    else target

-- the checks of the `try` block of `_apply_status`: no error is `true`
unfoldable pub status_accepted : OrderStatusUpdate → BrokerOrder → Bool
status_accepted update mirror =
    not (update.observed_at == mirror.updated_at)
    && not (ltb update.filled_quantity mirror.filled_quantity)
    && not (ltb mirror.quantity.value update.filled_quantity)
    && not (
        same_broker_status update.status BrokerOrderStatus.filled
        && not (update.filled_quantity == mirror.quantity.value))
    && (same_broker_status update.status mirror.status
        || broker_order_transition_allowed mirror.status update.status)

-- the `try` block of `_apply_status`
unfoldable pub accept_status : OrderStatusUpdate → OrderIntent → BrokerOrder → M TradeUpdateOutcome
accept_status update intent mirror =
    if not (status_accepted update mirror) then raise trade_update_error else (do
      update_broker_order_status mirror.broker_order_id update.status update.filled_quantity
          (some update.observed_at)
      if same_status (status_target update.status intent.status) intent.status
          then pure tt
          else transition_intent update.client_order_id intent.status
              (status_target update.status intent.status)
      commit
      pure applied)

-- `_apply_status` for a recorded intent and mirror
unfoldable pub status_for :
    OrderStatusUpdate → OrderIntent → Option BrokerOrder → M TradeUpdateOutcome
status_for update intent none = pure unknown_order
status_for update intent (some mirror) =
    if not (str_eq mirror.broker_order_id update.broker_order_id)
    then pure unknown_order
    else if ltb update.observed_at mirror.updated_at
    then pure stale
    else if same_broker_status update.status mirror.status
        && update.filled_quantity == mirror.filled_quantity
    then pure duplicate
    else try_catch (accept_status update intent mirror)
        (give_up update.client_order_id conflicting_status)

unfoldable pub status_of : OrderStatusUpdate → Option OrderIntent → M TradeUpdateOutcome
status_of update none = pure unknown_order
status_of update (some intent) = do
  mirror ← get_broker_order update.client_order_id
  status_for update intent mirror

-- `_apply_status`
unfoldable pub apply_status : OrderStatusUpdate → M TradeUpdateOutcome
apply_status update = do intent ← get_intent update.client_order_id; status_of update intent

-- `TradeUpdateConsumer.apply`
unfoldable pub apply : TradeUpdate → M TradeUpdateOutcome
apply (fill_update fill) = apply_fill fill
apply (status_update update) = apply_status update
