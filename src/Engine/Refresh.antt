-- ===== src/Engine/Refresh.antt =====
-- What the engine does with a broker's order (execution_service.py: _assert_mirror_matches,
-- _refresh_from_broker_order, _record_accepted, apply_fills, request_cancel). The table of intent
-- statuses is the one of trade_updates.py, entry for entry.
use seven_lens_paper_trading.Prelude.{
  String, Bool, true, false, not, ◌&&◌, ◌||◌, ◌==◌, Option, none, some, List, [], ◌∷◌,
  if◌then◌else◌,
}
use seven_lens_paper_trading.Prelude.Text.{str_eq}
use seven_lens_paper_trading.Orders.Status.{
  acknowledged, partially_filled, cancel_pending, same_status, same_side, order_transition_allowed,
}
use seven_lens_paper_trading.Orders.Mirror.{BrokerOrder, Fill}
use seven_lens_paper_trading.Orders.Intent.{OrderIntent}
use seven_lens_paper_trading.Store.Monad.{commit, suppressed_rollback}
use seven_lens_paper_trading.Store.Repository.{
  get_broker_order, get_broker_order_by_id, get_fill_by_execution_id, add_fill, find_fill,
  transition_status, record_broker_order, Recorded, recorded, identity_conflict,
}
use seven_lens_paper_trading.TradeUpdates.{same_fill, status_target}
use seven_lens_paper_trading.Engine.Port.{Port, broker_mirror_mismatch, execution_state_error}
use seven_lens_paper_trading.Engine.Monad.{E, pure, raise, ◌>>=◌, ◌>>◌, stored, asked}
use seven_lens_paper_trading.Engine.Pause.{require_intent, persist_review_and_pause}

-- the parameters that `_assert_mirror_matches` compares
unfoldable pub parameters_match : OrderIntent → BrokerOrder → Bool
parameters_match intent order =
    str_eq order.client_order_id intent.client_order_id
    && str_eq order.symbol intent.symbol
    && same_side order.side intent.side
    && order.quantity.value == intent.quantity.value
    && order.limit_price.cents == intent.limit_price.cents

-- no local mirror binds the intent, or the broker's order, to another one
unfoldable pub binding_matches :
    OrderIntent → BrokerOrder → Option BrokerOrder → Option BrokerOrder → Bool
binding_matches intent order local_mirror local_by_broker_id =
    elim local_mirror [
      | none ↦ true
      | some mirror ↦ str_eq mirror.broker_order_id order.broker_order_id
    ]
    && elim local_by_broker_id [
      | none ↦ true
      | some mirror ↦ str_eq mirror.client_order_id intent.client_order_id
    ]

-- `existing is not None and existing != fill`
unfoldable pub conflicts : Option Fill → Fill → Bool
conflicts none fill = false
conflicts (some existing) fill = not (same_fill existing fill)

-- `existing != fill`
unfoldable pub differs : Option Fill → Fill → Bool
differs none fill = true
differs (some existing) fill = not (same_fill existing fill)

module _ {B : Type 0} (port : Port B) where
  -- a conflict: the marker, the pause, and the exception
  unfoldable pub refuse : {A : Type 0} → OrderIntent → String → E B A
  refuse intent conflict = do
    persist_review_and_pause port intent conflict
    raise broker_mirror_mismatch

  -- `_assert_mirror_matches`
  unfoldable pub assert_mirror_matches : OrderIntent → BrokerOrder → E B (Unit {0})
  assert_mirror_matches intent order = do
    local_mirror ← stored (get_broker_order intent.client_order_id)
    local_by_broker_id ← stored (get_broker_order_by_id order.broker_order_id)
    if parameters_match intent order && binding_matches intent order local_mirror local_by_broker_id
        then pure tt
        else refuse intent "broker mirror mismatch"

  -- the check of one fill against those seen, and the fills seen after it
  unfoldable pub check_fresh_fill : OrderIntent → BrokerOrder → List Fill → Fill → E B (List Fill)
  check_fresh_fill intent order seen fill =
      if not (str_eq fill.broker_order_id order.broker_order_id)
      then refuse intent "conflicting fill"
      else (do
        existing ← stored (get_fill_by_execution_id fill.execution_id)
        if conflicts existing fill then refuse intent "conflicting fill" else pure (fill ∷ seen))

  unfoldable pub check_fill : OrderIntent → BrokerOrder → List Fill → Fill → E B (List Fill)
  check_fill intent order seen fill = elim (find_fill fill.execution_id seen) [
    | some earlier ↦
        if not (same_fill earlier fill) then refuse intent "conflicting fill" else pure seen
    | none ↦ check_fresh_fill intent order seen fill
  ]

  -- the loop over the whole response, before any write
  unfoldable pub check_fills : OrderIntent → BrokerOrder → List Fill → List Fill → E B (Unit {0})
  check_fills intent order seen [] = pure tt
  check_fills intent order seen (fill ∷ fills) = do
    seen' ← check_fill intent order seen fill
    check_fills intent order seen' fills

  -- the loop that records the fills
  unfoldable pub record_fill : OrderIntent → Fill → E B (Unit {0})
  record_fill intent fill = do
    inserted ← stored (add_fill fill)
    if inserted then pure tt else (do
      existing ← stored (get_fill_by_execution_id fill.execution_id)
      if differs existing fill then refuse intent "conflicting fill" else pure tt)

  unfoldable pub record_fills : OrderIntent → List Fill → E B (Unit {0})
  record_fills intent [] = pure tt
  record_fills intent (fill ∷ fills) = do record_fill intent fill; record_fills intent fills

  -- `record_broker_order`, and the handler of `BrokerOrderIdentityConflictError`
  unfoldable pub mirror_recorded : OrderIntent → Recorded → E B (Unit {0})
  mirror_recorded intent (recorded order) = pure tt
  mirror_recorded intent identity_conflict = do
    stored suppressed_rollback
    refuse intent "broker order identity conflict"

  -- the end of `_refresh_from_broker_order`: the status of the intent
  unfoldable pub follow_status : OrderIntent → BrokerOrder → E B OrderIntent
  follow_status intent order =
      let target = status_target order.status intent.status in
      if same_status target intent.status
      then (do stored commit; pure intent)
      else if not (order_transition_allowed intent.status target)
      then raise execution_state_error
      else (do
        refreshed ← stored (transition_status intent.client_order_id target)
        stored commit
        pure refreshed)

  -- `_refresh_from_broker_order`
  unfoldable pub refresh_from_broker_order : OrderIntent → BrokerOrder → E B OrderIntent
  refresh_from_broker_order intent order = do
    fills ← asked (port.list_fills order.broker_order_id)
    check_fills intent order [] fills
    outcome ← stored (record_broker_order order)
    mirror_recorded intent outcome
    record_fills intent fills
    follow_status intent order

  -- `_record_accepted`; also the end of `apply_fills` and of `request_cancel`
  unfoldable pub record_accepted : OrderIntent → BrokerOrder → E B OrderIntent
  record_accepted intent order = do
    assert_mirror_matches intent order
    refresh_from_broker_order intent order

  -- an order that was recorded as accepted, as the broker has it
  unfoldable pub still_known : Option BrokerOrder → E B BrokerOrder
  still_known none = raise broker_mirror_mismatch
  still_known (some order) = pure order

  unfoldable pub require_mirror : Option BrokerOrder → E B BrokerOrder
  require_mirror none = raise execution_state_error
  require_mirror (some mirror) = pure mirror

  -- `apply_fills`
  unfoldable pub apply_fills : String → E B OrderIntent
  apply_fills client_order_id = do
    intent ← require_intent client_order_id
    if not (
          same_status intent.status acknowledged
          || same_status intent.status partially_filled
          || same_status intent.status cancel_pending)
        then pure intent
        else (do
          found ← stored (get_broker_order client_order_id)
          require_mirror found
          answered ← asked (port.get_order client_order_id)
          order ← still_known answered
          record_accepted intent order)

  -- the first part of `request_cancel`: the intent in CANCEL_PENDING
  unfoldable pub begin_cancel : String → OrderIntent → E B OrderIntent
  begin_cancel client_order_id intent =
      if same_status intent.status cancel_pending
      then pure intent
      else if same_status intent.status acknowledged || same_status intent.status partially_filled
      then (do
        pending ← stored (transition_status client_order_id cancel_pending)
        stored commit
        pure pending)
      else raise execution_state_error

  -- `request_cancel`
  unfoldable pub request_cancel : String → E B OrderIntent
  request_cancel client_order_id = do
    intent ← require_intent client_order_id
    pending ← begin_cancel client_order_id intent
    found ← stored (get_broker_order client_order_id)
    mirror ← require_mirror found
    asked (port.cancel_order mirror.broker_order_id)
    answered ← asked (port.get_order client_order_id)
    order ← still_known answered
    record_accepted pending order
