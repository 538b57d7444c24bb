-- ===== src/Examples/ReconciliationRuns.antt =====
-- A clean run.
use seven_lens_paper_trading.Prelude.{◌≡◌, refl, []}
use seven_lens_paper_trading.Prelude.Result.{ok}
use seven_lens_paper_trading.Reconciliation.{
  ReconciliationResult, full, drafted, reconciliation_result,
}

abbrev pub clean_run : ReconciliationResult
clean_run = drafted 1 [] 2 3 4 5 full

clean_accepted : reconciliation_result clean_run ≡ ok clean_run
unfolding reconciliation_result
clean_accepted = refl
