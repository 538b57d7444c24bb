-- ===== src/Reconciler/Effects.antt =====
-- What a run that returns has committed.
use seven_lens_paper_trading.Prelude.{
  ℕ, ◌≡◌, ◌≤◌, refl, Bool, true, false, String, some, List, [], ◌∷◌, ◌++◌, arith,
}
use seven_lens_paper_trading.Prelude.Result.{ok, err}
use seven_lens_paper_trading.Reconciliation.{
  ReconciliationResult, mismatch, reconciliation_result, create, drafted, partial,
  broker_query_failure, local_ledger_invariant,
}
use seven_lens_paper_trading.Store.Monad.{World, call, commit, rollback, ◌>>=◌}
use seven_lens_paper_trading.Store.Repository.{pause_entries_with, add_command, add_command_step}
use seven_lens_paper_trading.Store.Keeps.{Both}
use seven_lens_paper_trading.TradeUpdates.Safety.{IsPaused}
use seven_lens_paper_trading.Control.{latest_run}
use seven_lens_paper_trading.Control.Outcomes.{IsFresh, logged-some}
use seven_lens_paper_trading.Reconciler.Answers.{
  Answers, Failure, broker_transport, ledger_invariant, other_failure, mark_price_unavailable,
  report,
}
use seven_lens_paper_trading.Reconciler.Collect.{collect, evidence, created, ledger_message}
use seven_lens_paper_trading.Reconciler.Run.{snapshot, add_run, pause_on, pause_row, run}

pub latest_run-append :
    (runs : List ReconciliationResult) (r : ReconciliationResult)
    → latest_run (runs ++ r ∷ []) ≡ some r
unfolding latest_run
latest_run-append [] r = refl
latest_run-append (x ∷ []) r = refl
latest_run-append (x ∷ y ∷ runs) r = latest_run-append (y ∷ runs) r

-- the failures that become evidence
abbrev pub is_evidence : Failure → Bool
is_evidence broker_transport = true
is_evidence (ledger_invariant e) = true
is_evidence e = false

module _ (a : Answers) (uncommitted : Bool) (trading_date at at' run_id : ℕ)
    (command_id : String) where
  -- A run that returns a result has recorded it as the latest run, in the transaction and durably, and if
  -- the result is a mismatch, then entries are paused in both; whichever calls fail.
  pub run-Recorded :
      (r : ReconciliationResult) (w : World)
      → (run a uncommitted trading_date at at' run_id command_id w).0 ≡ ok r
      → Both
          (λ t. latest_run t.runs ≡ some r)
          (run a uncommitted trading_date at at' run_id command_id w).1
        × (r.status ≡ mismatch
            → Both IsPaused (run a uncommitted trading_date at at' run_id command_id w).1)
  unfolding run snapshot rollback add_run pause_on commit call ◌>>=◌ pause_entries_with add_command
      add_command_step
  run-Recorded r w done = (
    record {
      seen = ground (arith, latest_run-append w.durable.runs r);
      saved = ground (arith, latest_run-append w.durable.runs r);
    },
    λ differs. record { seen = ground arith; saved = ground arith },
  )

module _ (a : Answers) (trading_date at at' run_id : ℕ) (command_id : String) where
  -- A run over a unit of work without uncommitted writes whose calls all work, while the broker's
  -- transport or the ledger fails, returns a mismatch and has paused entries durably, when its id is not nil and the id of the audit row is fresh.
  pub run_failure-IsPaused :
      (e : Failure) (w : World)
      → collect a w.durable trading_date at run_id ≡ err e
      → is_evidence e ≡ true
      → w.faults ≡ []
      → 1 ≤ run_id
      → IsFresh command_id w.durable.control.commands
      → ((r : ReconciliationResult) × ((run a false trading_date at at' run_id command_id w).0
            ≡ ok r)
          × (r.status ≡ mismatch))
        × IsPaused (run a false trading_date at at' run_id command_id w).1.durable
  unfolding run snapshot rollback add_run pause_on commit call ◌>>=◌ pause_entries_with add_command
      add_command_step evidence created create reconciliation_result
  run_failure-IsPaused broker_transport w failed evident calm given fresh =
      let row = logged-some (pause_row command_id at') w.durable.control.commands fresh in
      (
        (
          drafted trading_date
              (report true broker_query_failure "broker query failed during reconciliation") 0 0 at
              run_id partial,
          ground (arith, row),
          refl,
        ),
        ground (arith, row),
      )
  run_failure-IsPaused (ledger_invariant e) w failed evident calm given fresh =
      let row = logged-some (pause_row command_id at') w.durable.control.commands fresh in
      (
        (
          drafted trading_date (report true local_ledger_invariant (ledger_message e)) 0 0 at run_id
              partial,
          ground (arith, row),
          refl,
        ),
        ground (arith, row),
      )
  run_failure-IsPaused other_failure w failed evident calm given fresh = cc
  run_failure-IsPaused (mark_price_unavailable m) w failed evident calm given fresh = cc
