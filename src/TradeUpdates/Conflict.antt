-- ===== src/TradeUpdates/Conflict.antt =====
-- The durable marks of an unresolved conflict (trade_updates.py: _persist_conflict_marker,
-- _persist_conflict_pause).
use Prim.Native.String.{◌++◌}
use seven_lens_paper_trading.Prelude.{String, ◌||◌, Option, none, some, ℕ, if◌then◌else◌}
use seven_lens_paper_trading.Orders.Status.{unknown, review_required, same_status}
use seven_lens_paper_trading.Orders.Intent.{OrderIntent}
use seven_lens_paper_trading.Store.Monad.{
  M, Exn, trade_update_error, other_exception, pure, raise, ◌>>=◌, ◌>>◌, try_catch, commit,
  suppressed_rollback, persist_safety_pause, CommandRecord, pause_entries,
}
use seven_lens_paper_trading.Store.Repository.{
  get_intent, transition_status, pause_entries_with, control_updated_at, add_command,
}

pub data Conflict : Type 0 where
  conflicting_fill conflicting_status : Conflict

abbrev pub conflict_text : Conflict → String
conflict_text conflicting_fill = "conflicting fill"
conflict_text conflicting_status = "conflicting status"

abbrev pub pause_reason : Conflict → String
pause_reason conflict = "reconciliation required; " ++ conflict_text conflict

-- `with suppress(Exception): rollback()`, then `raise TradeUpdateError`
unfoldable pub abandon : Exn → M (Unit {0})
abandon e = do suppressed_rollback; raise trade_update_error

unfoldable pub mark_intent : String → Option OrderIntent → M (Unit {0})
mark_intent client_order_id none = raise trade_update_error
mark_intent client_order_id (some intent) =
    if same_status intent.status unknown || same_status intent.status review_required
    then pure tt
    else try_catch (do transition_status client_order_id review_required; commit) abandon

-- `_persist_conflict_marker`
unfoldable pub persist_conflict_marker : String → M (Unit {0})
persist_conflict_marker client_order_id = do
  intent ← get_intent client_order_id
  mark_intent client_order_id intent

-- `except TradeUpdateError` around the marker: no other exception is caught here
unfoldable pub marker_failed : Conflict → Exn → M (Unit {0})
marker_failed conflict trade_update_error = do
  try_catch (persist_safety_pause (pause_reason conflict)) (λ e. raise trade_update_error)
  raise trade_update_error
marker_failed conflict other_exception = raise other_exception

-- The audit row, whose id is the same for every retry.
abbrev pub pause_command : String → Conflict → ℕ → CommandRecord
pause_command client_order_id conflict now = record {
  command_id = client_order_id ++ "\u{1f}" ++ conflict_text conflict;
  command = pause_entries;
  reason = "automatic pause on " ++ conflict_text conflict;
  actor = "trade_update_consumer";
  run_id = none;
  requested_at = now;
  applied_at = some now;
}

-- The pause itself, and the audit of it.
unfoldable pub pause_durably : Conflict → M (Unit {0})
pause_durably conflict = try_catch (do pause_entries_with (pause_reason conflict); commit) abandon

unfoldable pub audit_pause : String → Conflict → M (Unit {0})
audit_pause client_order_id conflict = do
  try_catch (do now ← control_updated_at; add_command (pause_command client_order_id conflict now))
      abandon
  try_catch commit abandon

-- `_persist_conflict_pause`
unfoldable pub persist_conflict_pause : String → Conflict → M (Unit {0})
persist_conflict_pause client_order_id conflict = do
  try_catch (persist_conflict_marker client_order_id) (marker_failed conflict)
  pause_durably conflict
  audit_pause client_order_id conflict
