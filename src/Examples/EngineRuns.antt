-- ===== src/Examples/EngineRuns.antt =====
-- The engine against a small store and a broker that accepts every order.
use seven_lens_paper_trading.Prelude.{◌≡◌, refl, true, false, none, some, [], ◌∷◌, ℕ, ◌+◌, All}
use seven_lens_paper_trading.Prelude.Result.{ok, err}
use seven_lens_paper_trading.Prelude.Dict.{lookup}
use seven_lens_paper_trading.Orders.Status.{outbox_pending, unknown}
use seven_lens_paper_trading.Orders.Intent.{OrderIntent}
use seven_lens_paper_trading.Store.Monad.{Tables, fine, failed, ambiguous}
use seven_lens_paper_trading.Store.Keeps.{Both}
use seven_lens_paper_trading.TradeUpdates.Safety.{IsPaused, Extends}
use seven_lens_paper_trading.TradeUpdates.Progress.{HasMirror}
use seven_lens_paper_trading.TradeUpdates.Intents.{HasIntent}
use seven_lens_paper_trading.Engine.Port.{Port, submit_accepted, broker_transport}
use seven_lens_paper_trading.Engine.Monad.{EngineWorld}
use seven_lens_paper_trading.Engine.Submit.{submit_from_outbox, resolve}
use seven_lens_paper_trading.Engine.Run.{
  run, submitting_from_outbox, applying_fills, requesting_cancel, recovering,
}
use seven_lens_paper_trading.Engine.Safety.{
  run-HasIntent, run-HasMirror, run-Extends, run-IsPaused, IsRiskExit,
}
use seven_lens_paper_trading.Engine.Reservation.{Reserved, submit_from_outbox-Reserved}
use seven_lens_paper_trading.Engine.Unresolved.{resolve_unknown}
use seven_lens_paper_trading.Engine.Retry.{resolve_retries}
use seven_lens_paper_trading.PaperBroker.State.{FakePaperBroker}
use seven_lens_paper_trading.PaperBroker.Requests.{fake_port}
use seven_lens_paper_trading.Examples.BrokerRuns.{broker}
use seven_lens_paper_trading.Examples.UpdateRuns.{
  mirror, intent, old_fill, tables, tables-HasIntent, tables-HasMirror, tables-Extends,
}

-- It knows one order, and its clock counts the reads.
abbrev one_order : Port ℕ
one_order = record {
  submit_order = λ i n. (ok (submit_accepted mirror), n);
  get_order = λ id n. (ok (some mirror), n);
  list_fills = λ id n. (ok [], n);
  cancel_order = λ id n. (err broker_transport, n);
  get_asset = λ symbol n. (ok none, n);
  clock = λ n. (n, n + 1);
  has_control_repository = true;
}

-- It knows no order.
abbrev no_order : Port ℕ
no_order = record one_order { get_order = λ id n. (ok none, n) }

-- The third call fails, and the commit after it is ambiguous.
abbrev start : Tables → EngineWorld ℕ
start t = record {
  store = record { working = t; durable = t; faults = fine ∷ fine ∷ failed ∷ ambiguous ∷ [] };
  broker = 7;
  submissions = [];
}

run-HasIntent_example :
    Both (HasIntent "c1" intent) (run one_order (applying_fills "c1") (start tables)).1.store
run-HasIntent_example =
    run-HasIntent one_order (applying_fills "c1") "c1" intent (start tables)
      (record { seen = tables-HasIntent; saved = tables-HasIntent })

run-HasMirror_example :
    Both (HasMirror "b1" mirror) (run one_order (requesting_cancel "c1") (start tables)).1.store
run-HasMirror_example =
    run-HasMirror one_order (requesting_cancel "c1") "b1" mirror (start tables)
      (record { seen = tables-HasMirror; saved = tables-HasMirror })

run-Extends_example :
    Both (Extends (old_fill ∷ [])) (run one_order recovering (start tables)).1.store
run-Extends_example =
    run-Extends one_order recovering (old_fill ∷ []) (start tables)
      (record { seen = tables-Extends; saved = tables-Extends })

-- The same tables with the intent in the outbox, or with an unknown outcome.
abbrev pending : OrderIntent
pending = record intent { status = outbox_pending }

abbrev lost : OrderIntent
lost = record intent { status = unknown }

abbrev with_intent : OrderIntent → Tables
with_intent i = record tables { orders = record tables.orders { intents = ("c1", i) ∷ [] } }

run-IsPaused_example :
    Both IsPaused
      (run one_order (submitting_from_outbox true "c1") (start (with_intent pending))).1.store
    × All IsRiskExit
        (run one_order
          (submitting_from_outbox true "c1")
          (start (with_intent pending))).1.submissions
run-IsPaused_example =
    run-IsPaused one_order refl (submitting_from_outbox true "c1") (start (with_intent pending))
      (record { seen = refl; saved = refl }) tt

-- The engine over the paper broker of the tests.
abbrev over_fake : EngineWorld FakePaperBroker
over_fake = record {
  store = (start (with_intent pending)).store;
  broker = broker;
  submissions = [];
}

submit_from_outbox-Reserved_example :
    Reserved "c1" [] (submit_from_outbox fake_port true "c1" over_fake).1.submissions
submit_from_outbox-Reserved_example = submit_from_outbox-Reserved "c1" fake_port true over_fake

lost_found : lookup "c1" (with_intent lost).orders.intents ≡ some lost
unfolding lookup
lost_found = refl

resolve_unknown_example : (resolve no_order "c1" (start (with_intent lost))).1.submissions ≡ []
resolve_unknown_example =
    resolve_unknown no_order "c1" lost refl refl refl (start (with_intent lost)) lost_found

-- The engine of most tests: without a control repository.
abbrev uncontrolled : Port ℕ
uncontrolled = record no_order { has_control_repository = false }

abbrev working_calls : EngineWorld ℕ
working_calls = record (start (with_intent lost)) {
  store = record { working = with_intent lost; durable = with_intent lost; faults = [] };
}

resolve_retries_example :
    (resolve uncontrolled "c1" working_calls).1.submissions
    ≡ record { intent = lost; durable = with_intent lost } ∷ []
resolve_retries_example =
    resolve_retries uncontrolled lost "c1" working_calls refl lost_found refl refl refl refl
