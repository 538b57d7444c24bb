-- ===== src/Reconciler/Resumption.antt =====
-- A reconciliation run followed by an attempt to resume entries.
use seven_lens_paper_trading.Prelude.{
  ℕ, ◌≡◌, true, false, String, Bool, some, [], ◌∷◌, ◌++◌, inl, sym, ap, ◌∙◌, arith,
}
use mathlib.Core.Path.{subst}
use seven_lens_paper_trading.Prelude.Result.{ok}
use seven_lens_paper_trading.Orders.Mirror.{bounded_text}
use seven_lens_paper_trading.Reconciliation.{ReconciliationResult, mismatch, is_resume_safe}
use seven_lens_paper_trading.Store.Monad.{Tables, World, call, commit, rollback, ◌>>=◌}
use seven_lens_paper_trading.Store.Keeps.{Both}
use seven_lens_paper_trading.TradeUpdates.Safety.{IsPaused}
use seven_lens_paper_trading.Engine.Port.{Port}
use seven_lens_paper_trading.Engine.Monad.{EngineWorld}
use seven_lens_paper_trading.Control.{latest_run, resume, resume_safe}
use seven_lens_paper_trading.Control.Resume.{resume_refused}
use seven_lens_paper_trading.Control.Outcomes.{lists_unresolved, IsFresh, resume_completes}
use seven_lens_paper_trading.Reconciler.Answers.{Answers}
use seven_lens_paper_trading.Reconciler.Collect.{collect, evidence}
use seven_lens_paper_trading.Reconciler.Run.{snapshot, add_run, pause_on, run}
use seven_lens_paper_trading.Reconciler.Sound.{collect-lists_unresolved}
use seven_lens_paper_trading.Reconciler.Effects.{run-Recorded, latest_run-append}

unsafe :
    (r : ReconciliationResult) (t : Tables)
    → r.status ≡ mismatch
    → latest_run t.runs ≡ some r
    → resume_safe (latest_run t.runs) ≡ false
unfolding resume_safe is_resume_safe
unsafe r t differs e = ground arith

abbrev with_run : ReconciliationResult → Tables → Tables
with_run r t = record t { runs = t.runs ++ r ∷ [] }

-- what a run without a mismatch leaves when all calls work
run_settled :
    (a : Answers) (trading_date at at' run_id : ℕ) (command_id : String) (r : ReconciliationResult)
    (w : World)
    → collect a w.durable trading_date at run_id ≡ ok r
    → is_resume_safe r ≡ true
    → w.faults ≡ []
    → run a false trading_date at at' run_id command_id w ≡ (
      ok r,
      record { working = with_run r w.durable; durable = with_run r w.durable; faults = [] },
    )
unfolding run snapshot rollback add_run pause_on commit call ◌>>=◌ evidence is_resume_safe
run_settled a trading_date at at' run_id command_id r w done safe calm = ground arith

module _ {B : Type 0} (port : Port B) (a : Answers) (trading_date at at' run_id : ℕ)
    (command_id : String) (w : EngineWorld B) where
  abbrev after_run : Bool → EngineWorld B
  after_run uncommitted = record w {
    store = (run a uncommitted trading_date at at' run_id command_id w.store).1;
  }

  -- If a reconciliation run returns a mismatch, then entries are paused after an attempt to resume them
  -- that follows it, in the transaction and durably, whichever calls of both fail.
  pub run-resume_refused :
      (uncommitted : Bool) (r : ReconciliationResult) (id actor : String)
      → (run a uncommitted trading_date at at' run_id command_id w.store).0 ≡ ok r
      → r.status ≡ mismatch
      → Both IsPaused
          (resume port id actor (record w {
            store = (run a uncommitted trading_date at at' run_id command_id w.store).1;
          })).1.store
  run-resume_refused uncommitted r id actor done differs =
      let (kept, paused) =
        run-Recorded a uncommitted trading_date at at' run_id command_id r w.store done in
      resume_refused port id actor (after_run uncommitted) (paused differs) (
        inl (record {
          seen = unsafe r (after_run uncommitted).store.working differs kept.seen;
          saved = unsafe r (after_run uncommitted).store.durable differs kept.saved;
        }))

  -- If `collect` of the committed tables ends with a result that is safe to resume on, the unit of work
  -- has no uncommitted writes and all calls work, then the run returns that result, and a resumption that follows it returns and has unpaused entries durably, when its
  -- actor is bounded text and the id of its audit row is fresh.
  pub run-resume_completes :
      (r : ReconciliationResult) (id actor : String)
      → collect a w.store.durable trading_date at run_id ≡ ok r
      → is_resume_safe r ≡ true
      → w.store.faults ≡ []
      → bounded_text 100 actor ≡ true
      → IsFresh id w.store.durable.control.commands
      → ((run a false trading_date at at' run_id command_id w.store).0 ≡ ok r)
        × (((resume port id actor (record w {
          store = (run a false trading_date at at' run_id command_id w.store).1;
        })).0
              ≡ ok tt)
            × ((resume port id actor (record w {
              store = (run a false trading_date at at' run_id command_id w.store).1;
            })).1.store.durable.control.entries_paused
                ≡ false))
  unfolding resume_safe
  run-resume_completes r id actor done safe calm named fresh =
      let settled = collect-lists_unresolved a w.store.durable trading_date at run_id r done safe in
      let left = run_settled a trading_date at at' run_id command_id r w.store done safe calm in
      let latest = latest_run-append w.store.durable.runs r in
      (
        ap (λ p. p.0) left,
        resume_completes port id actor (after_run false) (ap (λ p. p.1.faults) left)
            (ap (λ p. resume_safe (latest_run p.1.working.runs)) left
              ∙ ap resume_safe latest
              ∙ safe)
            (ap (λ p. lists_unresolved p.1.working) left ∙ settled) named
            (subst (λ p. IsFresh id p.1.working.control.commands) (sym left) fresh),
      )
