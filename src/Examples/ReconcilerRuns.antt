-- ===== src/Examples/ReconcilerRuns.antt =====
-- A reconciliation run that finds nothing, and one that cannot reach the broker.
use seven_lens_paper_trading.Prelude.{
  String, ◌≡◌, refl, true, false, none, some, List, [], ◌∷◌, arith,
}
use seven_lens_paper_trading.Prelude.Int.{pos, ◌+ℤ◌, ◌-ℤ◌}
use seven_lens_paper_trading.Prelude.Dict.{lookup, insert}
use seven_lens_paper_trading.Prelude.Sorting.{sorted, insort}
use seven_lens_paper_trading.Prelude.Text.{str_leb}
use seven_lens_paper_trading.Prelude.Result.{ok, err}
use seven_lens_paper_trading.Orders.Status.{same_status, same_side}
use seven_lens_paper_trading.Orders.BrokerStatus.{
  partially_filled, is_terminal, is_open_status, is_review, same_broker_status,
}
use seven_lens_paper_trading.Orders.Mirror.{BrokerOrder, Fill, bounded_text}
use seven_lens_paper_trading.Ledger.{
  LedgerProjection, positions, project_ledger, replay, apply_known, apply_buy, apply_fill, fill_leb,
  account_equity_from_cash_and_positions, apply_sell, ledger_projection, lot_leb, market_value,
  positions_from,
}
use seven_lens_paper_trading.Ledger.Lots.{open_lot, sell_lot, sell_lots}
use seven_lens_paper_trading.Prelude.Decimal.{numeral, numeral_onto}
use seven_lens_paper_trading.Reconciliation.{
  ReconciliationResult, mismatch, broker_query_failure, partial, create, reconciliation_result,
  is_resume_safe, drafted, full,
}
use seven_lens_paper_trading.Store.Monad.{Tables, World, call, commit, rollback, ◌>>=◌}
use seven_lens_paper_trading.Store.Repository.{
  with_status, fills_of, pause_entries_with, add_command, add_command_step, logged,
}
use seven_lens_paper_trading.Store.Keeps.{Both}
use seven_lens_paper_trading.TradeUpdates.Safety.{IsPaused}
use seven_lens_paper_trading.Control.{latest_run, resume}
use seven_lens_paper_trading.Control.Outcomes.{lists_unresolved}
use seven_lens_paper_trading.Reconciler.Answers.{
  Answers, PaperPosition, of_ledger, report, checked_report, broker_transport, paper, each,
}
use seven_lens_paper_trading.Reconciler.Orders
use seven_lens_paper_trading.Reconciler.History
use seven_lens_paper_trading.Reconciler.Account
use seven_lens_paper_trading.Reconciler.Collect.{
  collect, compare_all, compare_orders, compare_account, created, evidence, orders_by_id,
}
use seven_lens_paper_trading.Reconciler.Run.{run, snapshot, add_run, pause_on}
use seven_lens_paper_trading.Reconciler.Sound.{
  collect-lists_unresolved, collect-IsAnswered, IsAnswered,
}
use seven_lens_paper_trading.Reconciler.Holdings.{collect-positions}
use seven_lens_paper_trading.Reconciler.Balances.{HasBalances, collect-HasBalances}
use seven_lens_paper_trading.Reconciler.Effects.{run-Recorded, run_failure-IsPaused}
use seven_lens_paper_trading.Reconciler.Resumption.{run-resume_refused, run-resume_completes}
use seven_lens_paper_trading.Engine.Monad.{EngineWorld}
use seven_lens_paper_trading.PaperBroker.State.{FakePaperBroker}
use seven_lens_paper_trading.PaperBroker.Requests.{fake_port}
use seven_lens_paper_trading.Examples.BrokerRuns.{broker}
use seven_lens_paper_trading.Examples.UpdateRuns.{tables, mirror}

abbrev part_filled : BrokerOrder
part_filled = record mirror { status = partially_filled; filled_quantity = 4 }

abbrev bought_four : Fill
bought_four = record {
  execution_id = "e1";
  broker_order_id = "b1";
  quantity = record { value = 4 };
  price = record { cents = 10000 };
  occurred_at = 7;
}

abbrev traded : Tables
traded = record tables {
  orders = record tables.orders {
    mirrors = ("b1", part_filled) ∷ [];
    fills = bought_four ∷ [];
    execution_ids = "e1" ∷ [];
  };
}

abbrev answers : Answers
answers = record {
  account = ok (record {
    account_id = "paper";
    environment = paper;
    cash = record { cents = 960000 };
    equity = record { cents = 1040000 };
    buying_power = record { cents = 960000 };
  });
  get_order = λ id. ok (some part_filled);
  list_fills = λ id. ok (bought_four ∷ []);
  list_open_orders = ok (part_filled ∷ []);
  list_recent_orders = λ since. ok (part_filled ∷ []);
  list_positions = ok (
      record { symbol = "AAPL"; quantity = 4; average_entry_price = record { cents = 10000 } }
      ∷ []);
  account_policy =
      some (record {
        expected_account_id = "paper";
        cash_tolerance_cents = 0;
        nav_tolerance_cents = 0;
      });
  baselines = some (λ id. ok (
      some (record {
        opening_cash_cents = pos 1000000;
        cutoff_occurred_at = none;
        cutoff_execution_id = none;
        effective_at = none;
      })));
  price_provider = some (λ symbol. ok (record { cents = 20000 }));
}

abbrev found_clean : ReconciliationResult
found_clean = drafted 1 [] 2 1 9 5 full

collected : collect answers traded 1 9 5 ≡ ok found_clean
unfolding collect compare_all compare_orders compare_account created each Orders.open_broker_orders
    Orders.all_broker_orders sorted is_terminal Orders.check_open Orders.check_answered
    Orders.check_closed Orders.check_reported History.check_history History.check_recent
    History.superseded lookup Orders.by_broker_id insert project_ledger replay latest_run open_lot
    sell_lot sell_lots account_equity_from_cash_and_positions apply_buy apply_fill apply_known
    apply_sell fill_leb ledger_projection lot_leb market_value positions positions_from
    is_open_status is_review same_broker_status same_side same_status numeral numeral_onto ◌+ℤ◌ ◌-ℤ◌
    insort str_leb Account.after_cutoff Account.all_symbols Account.cash_delta Account.check_account
    Account.check_cash Account.check_nav Account.compare_position Account.compare_positions
    Account.distinct Account.held_by_symbol Account.mark_prices Account.nav_report checked_report
    Account.or_unavailable Account.position_mismatches Account.post_fills History.check_mirrored
    History.compare_closed History.history_horizon Orders.closed_but_open Orders.compare_open
    Orders.missing_fills Orders.not_terminal Orders.parameters_differ Orders.unresolved_mismatches
    create reconciliation_result fills_of with_status
collected = refl

found_safe : is_resume_safe found_clean ≡ true
unfolding is_resume_safe
found_safe = refl

collect-lists_unresolved_example : lists_unresolved traded ≡ false
collect-lists_unresolved_example =
    collect-lists_unresolved answers traded 1 9 5 found_clean collected found_safe

mirror_found : lookup "b1" traded.orders.mirrors ≡ some part_filled
unfolding lookup
mirror_found = refl

mirror_live : is_terminal part_filled.status ≡ false
unfolding is_terminal
mirror_live = refl

collect-IsAnswered_example : IsAnswered answers traded part_filled
collect-IsAnswered_example =
    collect-IsAnswered answers traded 1 9 5 found_clean collected found_safe "b1" part_filled
      mirror_found mirror_live

collect-positions_example :
    (projection : LedgerProjection) × ((ps : List PaperPosition) × (of_ledger
          (project_ledger traded.orders.fills (orders_by_id traded))
        ≡ ok projection)
      × (answers.list_positions ≡ ok ps)
      × ((symbol : String)
          → lookup symbol (positions projection) ≡ lookup symbol (Account.held_by_symbol [] ps)))
collect-positions_example = collect-positions answers traded 1 9 5 found_clean collected found_safe

collect-HasBalances_example : HasBalances answers traded
collect-HasBalances_example =
    collect-HasBalances answers traded 1 9 5 found_clean collected found_safe

abbrev unreachable : Answers
unreachable = record answers { account = err broker_transport }

not_collected : collect unreachable traded 1 9 5 ≡ err broker_transport
unfolding collect compare_all
not_collected = refl

-- entries are enabled and nothing fails
abbrev enabled : Tables
enabled = record traded { control = record traded.control { entries_paused = false } }

abbrev calm : World
calm = record { working = enabled; durable = enabled; faults = [] }

abbrev evidence_run : ReconciliationResult
evidence_run =
    drafted 1 (report true broker_query_failure "broker query failed during reconciliation") 0 0 9 5
      partial

run_returned : (run unreachable false 1 9 10 5 "u1" calm).0 ≡ ok evidence_run
unfolding run snapshot rollback add_run pause_on commit call ◌>>=◌ pause_entries_with add_command
    add_command_step logged evidence collect compare_all created create reconciliation_result
run_returned = refl

run-Recorded_example :
    Both (λ t. latest_run t.runs ≡ some evidence_run) (run unreachable false 1 9 10 5 "u1" calm).1
    × (evidence_run.status ≡ mismatch → Both IsPaused (run unreachable false 1 9 10 5 "u1" calm).1)
run-Recorded_example = run-Recorded unreachable false 1 9 10 5 "u1" evidence_run calm run_returned

enabled_not_collected : collect unreachable enabled 1 9 5 ≡ err broker_transport
unfolding collect compare_all
enabled_not_collected = refl

run_failure-IsPaused_example :
    ((r : ReconciliationResult) × ((run unreachable false 1 9 10 5 "u1" calm).0 ≡ ok r)
      × (r.status ≡ mismatch))
    × IsPaused (run unreachable false 1 9 10 5 "u1" calm).1.durable
run_failure-IsPaused_example =
    run_failure-IsPaused unreachable 1 9 10 5 "u1" broker_transport calm enabled_not_collected refl
      refl (omega arith) tt

abbrev quiet : EngineWorld FakePaperBroker
quiet = record { store = calm; broker = broker; submissions = [] }

run-resume_refused_example :
    Both IsPaused
      (resume fake_port "u2" "operator"
        (record quiet { store = (run unreachable false 1 9 10 5 "u1" calm).1 })).1.store
run-resume_refused_example =
    run-resume_refused fake_port unreachable 1 9 10 5 "u1" quiet false evidence_run "u2" "operator"
      run_returned refl

abbrev paused : EngineWorld FakePaperBroker
paused = record quiet { store = record { working = traded; durable = traded; faults = [] } }

operator_bounded : bounded_text 100 "operator" ≡ true
unfolding bounded_text
operator_bounded = refl

run-resume_completes_example :
    ((run answers false 1 9 10 5 "u1" paused.store).0 ≡ ok found_clean)
    × (((resume fake_port "u2" "operator"
            (record paused { store = (run answers false 1 9 10 5 "u1" paused.store).1 })).0
          ≡ ok tt)
        × ((resume fake_port "u2" "operator"
              (record paused { store = (run answers false 1 9 10 5 "u1" paused.store).1 })
                ).1.store.durable.control.entries_paused
            ≡ false))
run-resume_completes_example =
    run-resume_completes fake_port answers 1 9 10 5 "u1" paused found_clean "u2" "operator"
      collected found_safe refl operator_bounded tt
