-- ===== src/Engine/Pause.antt =====
-- The durable blocks after an ambiguous outcome or a conflict (execution_service.py:
-- _pause_for_reconciliation_required, _persist_review_and_pause). Without a control repository there is
-- nothing to pause.
use Prim.Native.String.{◌++◌}
use seven_lens_paper_trading.Prelude.{
  ℕ, String, Bool, true, false, not, ◌||◌, Option, none, some, if◌then◌else◌,
}
use seven_lens_paper_trading.Prelude.Result.{Result, ok, err}
use seven_lens_paper_trading.Orders.Status.{
  OrderIntentType, rebalance, risk_exit, review_required, same_status,
}
use seven_lens_paper_trading.Orders.Intent.{OrderIntent}
use seven_lens_paper_trading.Store.Monad.{CommandRecord, pause_entries, commit, suppressed_rollback}
use seven_lens_paper_trading.Store.Repository.{
  get_intent, transition_status, pause_entries_with, add_command,
}
use seven_lens_paper_trading.Engine.Port.{
  Port, EngineError, control_persistence, execution_state_error,
}
use seven_lens_paper_trading.Engine.Monad.{E, pure, raise, ◌>>=◌, ◌>>◌, attempt, stored, now}

abbrev pub is_risk_exit : OrderIntentType → Bool
is_risk_exit risk_exit = true
is_risk_exit rebalance = false

-- `_execution_conflict_command_id`: the namespace and the name that `uuid5` hashes
abbrev pub execution_conflict_command_id : String → String → String
execution_conflict_command_id client_order_id conflict =
    "a4f5d73e-85f1-4dbb-a9c9-3e06f078a10c" ++ client_order_id ++ "\u{1f}" ++ conflict

-- The audit row.
abbrev pub conflict_command : String → String → ℕ → CommandRecord
conflict_command client_order_id conflict at = record {
  command_id = execution_conflict_command_id client_order_id conflict;
  command = pause_entries;
  reason = "automatic pause on " ++ conflict;
  actor = "execution_engine";
  run_id = none;
  requested_at = at;
  applied_at = some at;
}

module _ {B : Type 0} where
  -- `except Exception`: `rollback()` with its exceptions suppressed, then `ControlPersistenceError`
  unfoldable pub give_up_control : {A : Type 0} → E B A
  give_up_control = do stored suppressed_rollback; raise control_persistence

  -- `try: m except Exception: …` with that handler
  unfoldable pub or_give_up : {A : Type 0} → Result EngineError A → E B A
  or_give_up (ok a) = pure a
  or_give_up (err e) = give_up_control

  -- `_require_intent`
  unfoldable pub required : Option OrderIntent → E B OrderIntent
  required none = raise execution_state_error
  required (some intent) = pure intent

  unfoldable pub require_intent : String → E B OrderIntent
  unfolding required
  require_intent client_order_id = do found ← stored (get_intent client_order_id); required found

  module _ (port : Port B) where
    -- `_pause_for_reconciliation_required`
    unfoldable pub pause_for_reconciliation_required : OrderIntent → String → E B (Unit {0})
    pause_for_reconciliation_required intent conflict =
        if is_risk_exit intent.intent_type || not port.has_control_repository then pure tt else (do
          paused ← attempt (do
            stored (pause_entries_with ("reconciliation required; " ++ conflict))
            stored commit)
          or_give_up paused
          audited ← attempt (do
            at ← now port
            stored (add_command (conflict_command intent.client_order_id conflict at)))
          or_give_up audited
          finished ← attempt (stored commit)
          or_give_up finished)

    -- `_persist_review_and_pause`, from the recorded intent on
    unfoldable pub review_and_pause : String → String → Option OrderIntent → E B OrderIntent
    review_and_pause client_order_id conflict none = raise control_persistence
    review_and_pause client_order_id conflict (some current) = do
      marked ←
          (if same_status current.status review_required then pure current else (do
            outcome ← attempt (do
              moved ← stored (transition_status client_order_id review_required)
              stored commit
              pure moved)
            or_give_up outcome))
      pause_for_reconciliation_required marked conflict
      pure marked

    -- `_persist_review_and_pause`
    unfoldable pub persist_review_and_pause : OrderIntent → String → E B OrderIntent
    persist_review_and_pause intent conflict = do
      current ← stored (get_intent intent.client_order_id)
      review_and_pause intent.client_order_id conflict current
