-- ===== src/Examples/ControlRuns.antt =====
-- A pause, two attempts to resume and a cancellation.
use seven_lens_paper_trading.Prelude.{◌≡◌, refl, true, false, inl, [], ◌∷◌}
use seven_lens_paper_trading.Prelude.Result.{ok}
use seven_lens_paper_trading.Prelude.Sorting.{sorted, insort}
use seven_lens_paper_trading.Orders.Mirror.{bounded_text}
use seven_lens_paper_trading.Orders.Status.{same_status}
use seven_lens_paper_trading.Reconciliation.{is_resume_safe}
use seven_lens_paper_trading.Store.Monad.{call, commit}
use seven_lens_paper_trading.Store.Keeps.{Both}
use seven_lens_paper_trading.Store.Repository.{
  add_command, add_command_step, logged, pause_entries_with, with_status,
}
use seven_lens_paper_trading.TradeUpdates.Safety.{IsPaused}
use seven_lens_paper_trading.PaperBroker.State.{FakePaperBroker}
use seven_lens_paper_trading.PaperBroker.Requests.{fake_port}
use seven_lens_paper_trading.Engine.Monad.{EngineWorld, ◌>>=◌, stored, now}
use seven_lens_paper_trading.Control.{latest_run, resume_safe, resume, pause, record_command}
use seven_lens_paper_trading.Control.Resume.{resume_refused}
use seven_lens_paper_trading.Control.Outcomes.{pause-IsPaused, resume_completes, lists_unresolved}
use seven_lens_paper_trading.Control.Cancel.{cancel_open_orders}
use seven_lens_paper_trading.Control.Canceled.{cancel_open_orders-IsPaused}
use seven_lens_paper_trading.Examples.BrokerRuns.{broker}
use seven_lens_paper_trading.Examples.UpdateRuns.{tables}
use seven_lens_paper_trading.Examples.ReconciliationRuns.{clean_run}

abbrev quiet : EngineWorld FakePaperBroker
quiet = record {
  store = record { working = tables; durable = tables; faults = [] };
  broker = broker;
  submissions = [];
}

no_safe_run : resume_safe (latest_run []) ≡ false
unfolding resume_safe latest_run
no_safe_run = refl

resume_refused_example : Both IsPaused (resume fake_port "u1" "operator" quiet).1.store
resume_refused_example =
    resume_refused fake_port "u1" "operator" quiet (record { seen = refl; saved = refl })
      (inl (record { seen = no_safe_run; saved = no_safe_run }))

safe_run : resume_safe (latest_run (clean_run ∷ [])) ≡ true
unfolding resume_safe latest_run is_resume_safe
safe_run = refl

nothing_unresolved : lists_unresolved tables ≡ false
unfolding with_status sorted insort same_status
nothing_unresolved = refl

operator_bounded : bounded_text 100 "operator" ≡ true
unfolding bounded_text
operator_bounded = refl

abbrev reconciled : EngineWorld FakePaperBroker
reconciled = record quiet {
  store = record quiet.store { working = record tables { runs = clean_run ∷ [] } };
}

resume_completes_example :
    ((resume fake_port "u1" "operator" reconciled).0 ≡ ok tt)
    × ((resume fake_port "u1" "operator" reconciled).1.store.durable.control.entries_paused ≡ false)
resume_completes_example =
    resume_completes fake_port "u1" "operator" reconciled refl safe_run nothing_unresolved
      operator_bounded tt

pause_returned : (pause fake_port "u2" "drill" "operator" quiet).0 ≡ ok tt
unfolding pause record_command ◌>>=◌ stored now call commit add_command add_command_step logged
    pause_entries_with bounded_text
pause_returned = refl

pause-IsPaused_example : IsPaused (pause fake_port "u2" "drill" "operator" quiet).1.store.durable
pause-IsPaused_example = pause-IsPaused fake_port "u2" "drill" "operator" quiet pause_returned

cancel_open_orders-IsPaused_example :
    Both IsPaused
      (cancel_open_orders fake_port (λ e. "Exception") "u3" "drill" "operator" quiet).1.store
    × ((cancel_open_orders fake_port (λ e. "Exception") "u3" "drill" "operator" quiet).1.submissions
        ≡ [])
cancel_open_orders-IsPaused_example =
    cancel_open_orders-IsPaused fake_port (λ e. "Exception") "u3" "drill" "operator" quiet
      (record { seen = refl; saved = refl })
