-- ===== src/Control.antt =====
-- src/seven_lens/application/control_service.py: the pause and the resumption of new entries; the child
-- Cancel is the cancellation of all live orders. The fresh id of the audit row (uuid4) is an argument.
-- That the loop of resume_entries over the two statuses finds an intent is the engine's
-- has_unresolved_intents. The snapshot of the control state that both return is left out.
use seven_lens_paper_trading.Prelude.{
  ℕ, ◌≡◌, refl, String, Bool, true, false, not, ◌&&◌, ◌||◌, ltb, Option, none, some, List, [], ◌∷◌,
  if◌then◌else◌,
}
use seven_lens_paper_trading.Prelude.Result.{Result, ok, err}
use seven_lens_paper_trading.Orders.Mirror.{bounded_text, is_blank, text_length}
use seven_lens_paper_trading.Reconciliation.{ReconciliationResult, is_resume_safe}
use seven_lens_paper_trading.Store.Monad.{
  ControlCommand, resume_entries, pause_entries, CommandRecord, M, call, commit,
}
use seven_lens_paper_trading.Store.Repository.{pause_entries_with, entries_paused_now, add_command}
use seven_lens_paper_trading.Engine.Port.{Port, resume_blocked, value_error}
use seven_lens_paper_trading.Engine.Monad.{E, raise, ◌>>=◌, ◌>>◌, attempt, stored, now}
use seven_lens_paper_trading.Engine.Submit.{has_unresolved_intents, release}
pub mod Resume
pub mod Cancel
pub mod Canceled
pub mod Outcomes

-- `reconciliations.latest()`, of the runs in the order of their recording
unfoldable pub latest_run : List ReconciliationResult → Option ReconciliationResult
latest_run [] = none
latest_run (run ∷ []) = some run
latest_run (run ∷ next ∷ runs) = latest_run (next ∷ runs)

unfoldable pub latest : M (Option ReconciliationResult)
unfolding latest_run
latest = call (λ t. (ok (latest_run t.runs), t))

-- `latest is not None and latest.is_resume_safe`
unfoldable pub resume_safe : Option ReconciliationResult → Bool
unfolding is_resume_safe
resume_safe none = false
resume_safe (some run) = is_resume_safe run

-- `control.set_entries_paused(False, None)`
unfoldable pub unpause : M (Unit {0})
unpause = call (λ t. (
  ok tt,
  record t { control = record t.control { entries_paused = false; paused_reason = none } },
))

-- The audit row of an applied command.
abbrev pub audit_row : String → ControlCommand → String → String → ℕ → CommandRecord
audit_row id command reason actor at = record {
  command_id = id;
  command = command;
  reason = reason;
  actor = actor;
  run_id = none;
  requested_at = at;
  applied_at = some at;
}

abbrev pub resume_reason : String
resume_reason = "resume after full-scope CLEAN reconciliation"

module _ {B : Type 0} (port : Port B) where
  -- `_record`, with the checks of `ControlCommandRecord`
  unfoldable pub record_command : String → ControlCommand → String → String → E B (Unit {0})
  record_command id command reason actor = do
    at ← now port
    if bounded_text 200 reason && bounded_text 100 actor
        then stored (add_command (audit_row id command reason actor at))
        else raise value_error

  -- `pause_entries`, with the check of `ControlStateSnapshot`
  unfoldable pub pause : String → String → String → E B (Unit {0})
  pause id reason actor =
      if is_blank reason || ltb 200 (text_length reason) then raise value_error else (do
        stored (pause_entries_with reason)
        record_command id ControlCommand.pause_entries reason actor
        stored commit)

  -- the end of `resume_entries`
  unfoldable pub resume_now : String → String → E B (Unit {0})
  resume_now id actor = do
    stored unpause
    record_command id ControlCommand.resume_entries resume_reason actor

  -- what stands under the guard of `resume_entries`, from the latest run on
  unfoldable pub resume_with : String → String → Option ReconciliationResult → E B (Unit {0})
  resume_with id actor run = if not (resume_safe run) then raise resume_blocked else (do
    unresolved ← has_unresolved_intents port
    if unresolved then raise resume_blocked else resume_now id actor)

  unfoldable pub under_guard : String → String → E B (Unit {0})
  under_guard id actor = do run ← stored latest; resume_with id actor run

  -- `resume_entries`
  unfoldable pub resume : String → String → E B (Unit {0})
  resume id actor = do
    stored entries_paused_now
    outcome ← attempt (under_guard id actor)
    release port outcome
