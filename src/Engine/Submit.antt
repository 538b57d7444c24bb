-- ===== src/Engine/Submit.antt =====
-- The submission of intents (execution_service.py: submit_from_outbox, resolve,
-- _complete_submission, _entry_submission_guard, _submit_while_guarded). The guard is that of the
-- control repository (src/seven_lens/infrastructure/postgres.py, submission_guard): it ends by a
-- commit, and by a rollback if anything is raised under it. Without a control repository nothing
-- guards a submission.
use seven_lens_paper_trading.Prelude.{
  String, Bool, true, false, not, ◌&&◌, ◌||◌, leb, Option, none, some, List, [], ◌∷◌, if◌then◌else◌,
}
use seven_lens_paper_trading.Prelude.Result.{Result, ok, err}
use seven_lens_paper_trading.Orders.Status.{
  outbox_pending, submitting, unknown, rejected, review_required, same_status,
}
use seven_lens_paper_trading.Orders.Mirror.{BrokerOrder}
use seven_lens_paper_trading.Orders.Intent.{OrderIntent}
use seven_lens_paper_trading.Store.Monad.{commit, rollback}
use seven_lens_paper_trading.Store.Repository.{
  transition_status, list_by_status, entries_paused_now,
}
use seven_lens_paper_trading.Engine.Port.{
  Port, PaperAsset, AssetStatus, active, inactive, AssetClass, us_equity, SubmitResult,
  submit_accepted, submit_rejected, EngineError, execution_state_error, execution_paused,
  broker_mirror_mismatch, broker_transport, broker_conflict,
}
use seven_lens_paper_trading.Engine.Monad.{
  E, pure, raise, ◌>>=◌, ◌>>◌, attempt, answer, stored, asked, now, submitted,
}
use seven_lens_paper_trading.Engine.Pause.{
  is_risk_exit, require_intent, pause_for_reconciliation_required,
}
use seven_lens_paper_trading.Engine.Refresh.{assert_mirror_matches, record_accepted}

abbrev pub ambiguous_outcome : String
ambiguous_outcome = "ambiguous broker outcome"

abbrev is_active : AssetStatus → Bool
is_active active = true
is_active inactive = false

abbrev is_us_equity : AssetClass → Bool
is_us_equity us_equity = true
is_us_equity _ = false

-- the test of `_assert_asset_tradable`
unfoldable pub asset_tradable : Option PaperAsset → Bool
asset_tradable none = false
asset_tradable (some asset) =
    is_active asset.status && asset.tradable && is_us_equity asset.asset_class

abbrev pub is_empty : List OrderIntent → Bool
is_empty [] = true
is_empty (intent ∷ intents) = false

module _ {B : Type 0} (port : Port B) where
  -- the handlers of `_submit_while_guarded`, and what follows them
  unfoldable pub after_submit : OrderIntent → Result EngineError SubmitResult → E B OrderIntent
  after_submit intent (err broker_transport) = do
    moved ← stored (transition_status intent.client_order_id unknown)
    stored commit
    pause_for_reconciliation_required port intent ambiguous_outcome
    pure moved
  after_submit intent (err broker_conflict) = do
    stored (transition_status intent.client_order_id unknown)
    stored commit
    pause_for_reconciliation_required port intent ambiguous_outcome
    raise broker_mirror_mismatch
  after_submit intent (err e) = raise e
  after_submit intent (ok (submit_rejected reason)) = do
    moved ← stored (transition_status intent.client_order_id rejected)
    stored commit
    pure moved
  after_submit intent (ok (submit_accepted order)) = record_accepted port intent order

  -- `_submit_while_guarded`
  unfoldable pub submit_while_guarded : OrderIntent → E B OrderIntent
  submit_while_guarded intent = do
    outcome ← attempt (submitted port intent)
    after_submit intent outcome

  -- `_has_unresolved_intents`
  unfoldable pub has_unresolved_intents : E B Bool
  has_unresolved_intents = do
    lost ← stored (list_by_status unknown)
    if not (is_empty lost)
        then pure true
        else (do held ← stored (list_by_status review_required); pure (not (is_empty held)))

  -- what stands under `submission_guard`
  unfoldable pub guarded_entry : OrderIntent → Bool → E B OrderIntent
  guarded_entry intent entries_paused = if entries_paused then raise execution_paused else (do
    unresolved ← has_unresolved_intents
    if unresolved then raise execution_paused else submit_while_guarded intent)

  -- the end of `submission_guard`
  unfoldable pub release : {A : Type 0} → Result EngineError A → E B A
  release (ok a) = do stored commit; pure a
  release (err e) = do stored rollback; raise e

  -- `with self._entry_submission_guard(...): return self._submit_while_guarded(...)`
  unfoldable pub enter_guarded : OrderIntent → E B OrderIntent
  enter_guarded intent =
      if is_risk_exit intent.intent_type || not port.has_control_repository
      then submit_while_guarded intent
      else (do
        entries_paused ← stored entries_paused_now
        outcome ← attempt (guarded_entry intent entries_paused)
        release outcome)

  -- `except ExecutionPausedError` of `_complete_submission`
  unfoldable pub after_entry : OrderIntent → Result EngineError OrderIntent → E B OrderIntent
  after_entry intent (err execution_paused) =
      if same_status intent.status submitting
      then (do
        moved ← stored (transition_status intent.client_order_id unknown)
        stored commit
        pause_for_reconciliation_required port moved ambiguous_outcome
        pure moved)
      else pure intent
  after_entry intent outcome = answer outcome

  -- `_complete_submission`
  unfoldable pub complete_submission : OrderIntent → E B OrderIntent
  complete_submission intent = do
    outcome ← attempt (enter_guarded intent)
    after_entry intent outcome

  -- `_assert_asset_tradable`
  unfoldable pub assert_asset_tradable : OrderIntent → E B (Unit {0})
  assert_asset_tradable intent = do
    asset ← asked (port.get_asset intent.symbol)
    if asset_tradable asset then pure tt else raise execution_state_error

  -- `_assert_entries_allowed`; `has_control` says whether the engine was built with a control source,
  -- which is the unit of work's, if it has one
  unfoldable pub assert_entries_allowed : Bool → OrderIntent → E B (Unit {0})
  assert_entries_allowed has_control intent =
      if not (has_control && port.has_control_repository) then pure tt else (do
        entries_paused ← stored entries_paused_now
        if not entries_paused || is_risk_exit intent.intent_type
            then pure tt
            else raise execution_paused)

  -- `submit_from_outbox`, from the recorded intent on
  unfoldable pub reserve : Bool → String → OrderIntent → E B OrderIntent
  reserve has_control client_order_id intent = do
    assert_entries_allowed has_control intent
    assert_asset_tradable intent
    assert_entries_allowed has_control intent
    reserved ← stored (transition_status client_order_id submitting)
    stored commit
    complete_submission reserved

  -- `submit_from_outbox`
  unfoldable pub submit_from_outbox : Bool → String → E B OrderIntent
  submit_from_outbox has_control client_order_id = do
    intent ← require_intent client_order_id
    if not (same_status intent.status outbox_pending)
        then pure intent
        else reserve has_control client_order_id intent

  -- `resolve`, for an order that the broker does not know and whose cancel window has closed
  unfoldable pub close_window : String → OrderIntent → E B OrderIntent
  close_window client_order_id intent = do
    kept ←
        (if same_status intent.status submitting
          then stored (transition_status client_order_id unknown)
          else pure intent)
    stored commit
    pure kept

  -- `resolve`, for an order that the broker does not know
  unfoldable pub resolve_absent : String → OrderIntent → E B OrderIntent
  resolve_absent client_order_id intent = do
    at ← now port
    if leb intent.cancel_at at
        then close_window client_order_id intent
        else complete_submission intent

  unfoldable pub resolve_with : String → OrderIntent → Option BrokerOrder → E B OrderIntent
  resolve_with client_order_id intent none = resolve_absent client_order_id intent
  resolve_with client_order_id intent (some order) = do
    assert_mirror_matches port intent order
    record_accepted port intent order

  -- `resolve`
  unfoldable pub resolve : String → E B OrderIntent
  resolve client_order_id = do
    intent ← require_intent client_order_id
    if not (same_status intent.status submitting || same_status intent.status unknown)
        then pure intent
        else (do
          answered ← asked (port.get_order client_order_id)
          resolve_with client_order_id intent answered)
