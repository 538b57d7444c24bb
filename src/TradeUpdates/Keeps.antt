-- ===== src/TradeUpdates/Keeps.antt =====
-- Whatever the update and whichever calls fail, the consumer keeps, in the connection's tables and in
-- the committed ones, every property that the repository's five writes keep.
use seven_lens_paper_trading.Prelude.{ℕ, String, Option, none, some}
use seven_lens_paper_trading.Orders.BrokerStatus.{BrokerOrderStatus}
use seven_lens_paper_trading.Orders.Mirror.{BrokerOrder, Fill}
use seven_lens_paper_trading.Orders.Status.{OrderStatus}
use seven_lens_paper_trading.Orders.Intent.{OrderIntent}
use seven_lens_paper_trading.Store.Monad.{Tables, Exn, trade_update_error, other_exception}
use seven_lens_paper_trading.Store.Keeps.{
  Keeps, StepsKeep, Keeps-pure, Keeps-raise, Keeps-if, Keeps-bind, Keeps-try_catch, Keeps-commit,
  Keeps-suppressed_rollback, Keeps-persist_safety_pause, Keeps-get_intent, Keeps-transition_status,
  Keeps-get_broker_order_by_id, Keeps-get_broker_order, Keeps-add_fill, Keeps-get_fill,
  Keeps-list_fills, Keeps-update, Keeps-pause_entries_with, Keeps-control_updated_at,
  Keeps-add_command,
}
use seven_lens_paper_trading.TradeUpdates.Conflict.{
  Conflict, abandon, mark_intent, persist_conflict_marker, marker_failed, pause_durably,
  audit_pause, persist_conflict_pause,
}
use seven_lens_paper_trading.TradeUpdates.{
  TradeUpdate, fill_update, status_update, OrderStatusUpdate, advance_intent, derive_target,
  derive_from, derive_fill, give_up, repeated_fill, fill_for, apply_fill, transition_intent,
  accept_status, status_for, status_of, apply_status, apply,
}

ruleset keeps = (
  Keeps-pure, Keeps-raise, Keeps-if, Keeps-bind, Keeps-try_catch, Keeps-commit,
  Keeps-suppressed_rollback, Keeps-persist_safety_pause, Keeps-get_intent, Keeps-transition_status,
  Keeps-get_broker_order_by_id, Keeps-get_broker_order, Keeps-add_fill, Keeps-get_fill,
  Keeps-list_fills, Keeps-update, Keeps-pause_entries_with, Keeps-control_updated_at,
  Keeps-add_command,
)

module _ {Q : Tables → Type 0} (s : StepsKeep Q) where
  abandon-Keeps : (e : Exn) → Keeps Q (abandon e)
  unfolding abandon
  abandon-Keeps e = search keeps

  mark_intent-Keeps : (id : String) (o : Option OrderIntent) → Keeps Q (mark_intent id o)
  unfolding mark_intent
  mark_intent-Keeps id none = search keeps
  mark_intent-Keeps id (some i) = search (keeps, abandon-Keeps) depth 8

  marker_failed-Keeps : (c : Conflict) (e : Exn) → Keeps Q (marker_failed c e)
  unfolding marker_failed
  marker_failed-Keeps c trade_update_error = search (keeps, s.pausing) depth 8
  marker_failed-Keeps c other_exception = search keeps

  persist_conflict_marker-Keeps : (id : String) → Keeps Q (persist_conflict_marker id)
  unfolding persist_conflict_marker
  persist_conflict_marker-Keeps id = search (keeps, mark_intent-Keeps) depth 8

  pause_durably-Keeps : (c : Conflict) → Keeps Q (pause_durably c)
  unfolding pause_durably
  pause_durably-Keeps c = search (keeps, abandon-Keeps) depth 8

  audit_pause-Keeps : (id : String) (c : Conflict) → Keeps Q (audit_pause id c)
  unfolding audit_pause
  audit_pause-Keeps id c = search (keeps, abandon-Keeps) depth 8

  pub persist_conflict_pause-Keeps :
      (id : String) (c : Conflict) → Keeps Q (persist_conflict_pause id c)
  unfolding persist_conflict_pause
  persist_conflict_pause-Keeps id c =
      search
        (
          keeps, persist_conflict_marker-Keeps, marker_failed-Keeps, pause_durably-Keeps,
          audit_pause-Keeps,
        )
        depth 8

  give_up-Keeps : (id : String) (c : Conflict) (e : Exn) → Keeps Q (give_up id c e)
  unfolding give_up
  give_up-Keeps id c e = search (keeps, persist_conflict_pause-Keeps) depth 8

  advance_intent-Keeps :
      (id : String) (target : BrokerOrderStatus) (o : Option OrderIntent)
      → Keeps Q (advance_intent id target o)
  unfolding advance_intent
  advance_intent-Keeps id target none = search keeps
  advance_intent-Keeps id target (some i) = search keeps depth 8

  derive_target-Keeps :
      (mirror : BrokerOrder) (fill : Fill) (n : ℕ) (target : Option BrokerOrderStatus)
      → Keeps Q (derive_target mirror fill n target)
  unfolding derive_target
  derive_target-Keeps mirror fill n none = search keeps
  derive_target-Keeps mirror fill n (some target) = search (keeps, advance_intent-Keeps) depth 10

  derive_fill-Keeps : (mirror : BrokerOrder) (fill : Fill) → Keeps Q (derive_fill mirror fill)
  unfolding derive_fill derive_from
  derive_fill-Keeps mirror fill = search (keeps, derive_target-Keeps) depth 8

  repeated_fill-Keeps :
      (mirror : BrokerOrder) (fill : Fill) (o : Option Fill) → Keeps Q (repeated_fill mirror fill o)
  unfolding repeated_fill
  repeated_fill-Keeps mirror fill none = search (keeps, give_up-Keeps)
  repeated_fill-Keeps mirror fill (some existing) = search (keeps, give_up-Keeps) depth 8

  fill_for-Keeps : (fill : Fill) (o : Option BrokerOrder) → Keeps Q (fill_for fill o)
  unfolding fill_for
  fill_for-Keeps fill none = search keeps
  fill_for-Keeps fill (some mirror) =
      search (keeps, repeated_fill-Keeps, derive_fill-Keeps, give_up-Keeps) depth 10

  transition_intent-Keeps :
      (id : String) (current target : OrderStatus) → Keeps Q (transition_intent id current target)
  unfolding transition_intent
  transition_intent-Keeps id current target = search keeps depth 10

  accept_status-Keeps :
      (update : OrderStatusUpdate) (intent : OrderIntent) (mirror : BrokerOrder)
      → Keeps Q (accept_status update intent mirror)
  unfolding accept_status
  accept_status-Keeps update intent mirror = search (keeps, transition_intent-Keeps) depth 10

  status_for-Keeps :
      (update : OrderStatusUpdate) (intent : OrderIntent) (o : Option BrokerOrder)
      → Keeps Q (status_for update intent o)
  unfolding status_for
  status_for-Keeps update intent none = search keeps
  status_for-Keeps update intent (some mirror) =
      search (keeps, accept_status-Keeps, give_up-Keeps) depth 10

  status_of-Keeps :
      (update : OrderStatusUpdate) (o : Option OrderIntent) → Keeps Q (status_of update o)
  unfolding status_of
  status_of-Keeps update none = search keeps
  status_of-Keeps update (some intent) = search (keeps, status_for-Keeps) depth 8

  -- Whatever the update and however the calls fail, what the five writes keep is kept.
  pub apply-Keeps : (update : TradeUpdate) → Keeps Q (apply update)
  unfolding apply apply_fill apply_status
  apply-Keeps (fill_update fill) = search (keeps, fill_for-Keeps) depth 8
  apply-Keeps (status_update update) = search (keeps, status_of-Keeps) depth 8
