-- ===== src/Examples/UpdateRuns.antt =====
-- A fill and a status update against a small store.
use seven_lens_paper_trading.Store.Monad.{
  ◌>>=◌, call, commit, try_catch, suppressed_rollback, rollback,
}
use seven_lens_paper_trading.Store.Repository.{
  get_broker_order_by_id, add_fill, add_fill_step, list_fills, fills_of, get_intent,
  transition_status, transition_step, pause_entries_with, control_updated_at, add_command,
  add_command_step, logged, update_broker_order_status, update_step, refreshed,
}
use seven_lens_paper_trading.TradeUpdates.{
  fill_for, derive_fill, derive_from, give_up, derive_target, fill_target, advance_intent,
  intent_after_fill,
}
use seven_lens_paper_trading.TradeUpdates.Conflict.{
  persist_conflict_marker, mark_intent, abandon, marker_failed, pause_durably, audit_pause,
}
use seven_lens_paper_trading.Orders.Status.{
  order_transition_allowed, same_status, order_status_transitions,
}
use seven_lens_paper_trading.Orders.BrokerStatus.{
  broker_order_transition_allowed, same_broker_status, is_terminal, is_review,
  broker_order_status_transitions,
}
use seven_lens_paper_trading.Prelude.Dict.{insert}
use seven_lens_paper_trading.Prelude.{◌≡◌, refl, true, some, [], ◌∷◌, arith}
use seven_lens_paper_trading.Orders.Status.{buy, acknowledged, rebalance}
use seven_lens_paper_trading.Orders.BrokerStatus.{accepted}
use seven_lens_paper_trading.Orders.Mirror.{BrokerOrder, Fill}
use seven_lens_paper_trading.Orders.Intent.{OrderIntent}
use seven_lens_paper_trading.Prelude.Dict.{lookup}
use seven_lens_paper_trading.Store.Monad.{Tables, World, fine, failed, ambiguous}
use seven_lens_paper_trading.Store.Keeps.{Both}
use seven_lens_paper_trading.TradeUpdates.{fill_update, apply}
use seven_lens_paper_trading.TradeUpdates.Safety.{IsPaused, Extends, apply-IsPaused, apply-Extends}
use seven_lens_paper_trading.TradeUpdates.Progress.{Advanced, same, HasMirror, apply-HasMirror}
use seven_lens_paper_trading.TradeUpdates.Intents.{HasIntent, apply-HasIntent}
use seven_lens_paper_trading.TradeUpdates.Pauses.{calm}
use seven_lens_paper_trading.TradeUpdates.Refusals.{apply_refused}
use seven_lens_paper_trading.TradeUpdates.Conflict.{persist_conflict_pause}
use seven_lens_paper_trading.Prelude.Result.{ok, err}
use seven_lens_paper_trading.Store.Monad.{trade_update_error}
use seven_lens_paper_trading.Orders.Status.Lifecycle.{here}
use seven_lens_paper_trading.TradeUpdates.{applied, apply_fill}

abbrev pub mirror : BrokerOrder
mirror = record {
  broker_order_id = "b1";
  client_order_id = "c1";
  symbol = "AAPL";
  side = buy;
  quantity = record { value = 10 };
  filled_quantity = 0;
  limit_price = record { cents = 20000 };
  status = accepted;
  submitted_at = 5;
  updated_at = 5;
}

abbrev pub intent : OrderIntent
intent = record {
  intent_id = "i1";
  client_order_id = "c1";
  strategy = "s";
  trading_date = "2026-01-05";
  window = "w";
  target_version = 1;
  symbol = "AAPL";
  side = buy;
  quantity = record { value = 10 };
  intent_type = rebalance;
  limit_price = record { cents = 20000 };
  collar = record { reference = record { cents = 20000 }; offset_bps = 100 };
  earliest_submit_at = 1;
  cancel_at = 100;
  status = acknowledged;
  run_id = "r1";
  created_at = 0;
}

abbrev pub old_fill : Fill
old_fill = record {
  execution_id = "e0";
  broker_order_id = "b0";
  quantity = record { value = 1 };
  price = record { cents = 20000 };
  occurred_at = 1;
}

abbrev fill : Fill
fill = record {
  execution_id = "e1";
  broker_order_id = "b1";
  quantity = record { value = 10 };
  price = record { cents = 19900 };
  occurred_at = 7;
}

abbrev pub tables : Tables
tables = record {
  orders = record {
    intents = ("c1", intent) ∷ [];
    mirrors = ("b1", mirror) ∷ [];
    mirror_by_client = ("c1", "b1") ∷ [];
    fills = old_fill ∷ [];
    execution_ids = "e0" ∷ [];
  };
  control = record {
    entries_paused = true;
    paused_reason = some "operator";
    updated_at = 1;
    flatten_generation = 0;
    commands = [];
  };
  runs = [];
}

-- The commit of the derived state is ambiguous, and the rollback after it fails.
abbrev world : World
world = record {
  working = tables;
  durable = tables;
  faults = fine ∷ fine ∷ fine ∷ fine ∷ fine ∷ fine ∷ fine ∷ ambiguous ∷ failed ∷ [];
}

apply-IsPaused_example : Both IsPaused (apply (fill_update fill) world).1
apply-IsPaused_example =
    apply-IsPaused (fill_update fill) world (record { seen = refl; saved = refl })

pub tables-Extends : Extends (old_fill ∷ []) tables
tables-Extends = record { rest = []; begins = refl }

apply-Extends_example : Both (Extends (old_fill ∷ [])) (apply (fill_update fill) world).1
apply-Extends_example =
    apply-Extends (fill_update fill) (old_fill ∷ []) world
      (record { seen = tables-Extends; saved = tables-Extends })

mirror-Advanced : Advanced mirror mirror
mirror-Advanced = record {
  identity = refl;
  history = same;
  filled_grows = omega arith;
  within = omega arith;
  clock_grows = omega arith;
  exactly_filled = λ e. ground arith;
}

pub tables-HasMirror : HasMirror "b1" mirror tables
unfolding lookup
tables-HasMirror = record { mirror = mirror; found = refl; advanced = mirror-Advanced }

apply-HasMirror_example : Both (HasMirror "b1" mirror) (apply (fill_update fill) world).1
apply-HasMirror_example =
    apply-HasMirror (fill_update fill) "b1" mirror world
      (record { seen = tables-HasMirror; saved = tables-HasMirror })

pub tables-HasIntent : HasIntent "c1" intent tables
unfolding lookup
tables-HasIntent = record { intent = intent; found = refl; history = here; identity = refl }

apply-HasIntent_example : Both (HasIntent "c1" intent) (apply (fill_update fill) world).1
apply-HasIntent_example =
    apply-HasIntent (fill_update fill) "c1" intent world
      (record { seen = tables-HasIntent; saved = tables-HasIntent })

-- A fill of more shares than were ordered.
abbrev too_large : Fill
too_large = record fill { quantity = record { value = 11 } }

too_large_refused : (apply (fill_update too_large) (calm tables tables)).0 ≡ err trade_update_error
unfolding apply apply_fill ◌>>=◌ call commit try_catch suppressed_rollback rollback
    get_broker_order_by_id add_fill add_fill_step list_fills fills_of get_intent transition_status
    transition_step pause_entries_with control_updated_at add_command add_command_step logged
    update_broker_order_status update_step refreshed fill_for derive_fill derive_from give_up
    derive_target fill_target advance_intent intent_after_fill persist_conflict_marker mark_intent
    abandon marker_failed pause_durably audit_pause order_transition_allowed same_status
    order_status_transitions broker_order_transition_allowed same_broker_status is_terminal
    is_review broker_order_status_transitions insert lookup persist_conflict_pause
too_large_refused = refl

apply_refused_example : IsPaused (apply (fill_update too_large) (calm tables tables)).1.durable
apply_refused_example = apply_refused (fill_update too_large) tables tables too_large_refused

-- A full fill with working calls is applied.
fill_applied : (apply (fill_update fill) (calm tables tables)).0 ≡ ok applied
unfolding apply apply_fill ◌>>=◌ call commit try_catch suppressed_rollback rollback
    get_broker_order_by_id add_fill add_fill_step list_fills fills_of get_intent transition_status
    transition_step pause_entries_with control_updated_at add_command add_command_step logged
    update_broker_order_status update_step refreshed fill_for derive_fill derive_from give_up
    derive_target fill_target advance_intent intent_after_fill persist_conflict_marker mark_intent
    abandon marker_failed pause_durably audit_pause order_transition_allowed same_status
    order_status_transitions broker_order_transition_allowed same_broker_status is_terminal
    is_review broker_order_status_transitions insert lookup persist_conflict_pause
fill_applied = refl
