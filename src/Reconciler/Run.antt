-- ===== src/Reconciler/Run.antt =====
-- What a reconciliation run leaves behind (reconciliation_service.py: run): the run, and the pause.
use seven_lens_paper_trading.Prelude.{ℕ, String, Bool, true, false, [], ◌∷◌, ◌++◌, if◌then◌else◌}
use seven_lens_paper_trading.Prelude.Result.{Result, ok, err}
use seven_lens_paper_trading.Reconciliation.{
  ReconciliationResult, ReconciliationStatus, clean, mismatch,
}
use seven_lens_paper_trading.Store.Monad.{
  Tables, ControlCommand, CommandRecord, M, ◌>>=◌, ◌>>◌, pure, other_exception, call, commit,
  rollback, raise,
}
use seven_lens_paper_trading.Store.Repository.{pause_entries_with, add_command}
use seven_lens_paper_trading.Control.{audit_row}
use seven_lens_paper_trading.Reconciler.Answers.{Failure, Answers}
use seven_lens_paper_trading.Reconciler.Collect.{collect, evidence}

abbrev pub is_mismatch : ReconciliationStatus → Bool
is_mismatch clean = false
is_mismatch mismatch = true

-- `begin_reconciliation_snapshot`, and the reads of `collect` that see the snapshot: a unit of work that
-- has written since its last commit or rollback is refused, and the transaction is restarted.
unfoldable pub snapshot : Bool → M Tables
snapshot uncommitted =
    if uncommitted then raise other_exception else (do rollback; call (λ t. (ok t, t)))

-- `reconciliations.add`
unfoldable pub add_run : ReconciliationResult → M (Unit {0})
add_run r = call (λ t. (ok tt, record t { runs = t.runs ++ r ∷ [] }))

abbrev pub of_collect : Result Failure ReconciliationResult → M ReconciliationResult
of_collect (ok r) w = (ok r, w)
of_collect (err e) w = (err other_exception, w)

abbrev pub pause_row : String → ℕ → CommandRecord
pause_row command_id at =
    audit_row command_id ControlCommand.pause_entries "automatic pause on reconciliation mismatch"
      "reconciler" at

-- the pause on a mismatch, with its audit row
unfoldable pub pause_on : ReconciliationStatus → String → ℕ → M (Unit {0})
pause_on status command_id at =
    if is_mismatch status
    then (do pause_entries_with "reconciliation mismatch"; add_command (pause_row command_id at))
    else pure tt

-- `run`, over a unit of work with or without uncommitted writes, with the two instants that the clock shows and the fresh ids of the run and of the audit row
unfoldable pub run : Answers → Bool → ℕ → ℕ → ℕ → ℕ → String → M ReconciliationResult
run a uncommitted trading_date at at' run_id command_id = do
  t ← snapshot uncommitted
  r ← of_collect (evidence trading_date at run_id (collect a t trading_date at run_id))
  add_run r
  pause_on r.status command_id at'
  commit
  pure r
