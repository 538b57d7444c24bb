-- ===== src/Engine/Steps.antt =====
-- The parts of the engine's methods that submit nothing keep what the unit of work's writes keep,
-- whatever the broker answers and however the calls fail.
use seven_lens_paper_trading.Prelude.{
  String, Bool, Option, none, some, List, [], ◌∷◌, not, if◌then◌else◌,
}
use seven_lens_paper_trading.Store.Monad.{Tables}
use seven_lens_paper_trading.Store.Keeps.{
  StepsKeep, Keeps-commit, Keeps-rollback, Keeps-suppressed_rollback, Keeps-get_intent,
  Keeps-transition_status, Keeps-get_broker_order_by_id, Keeps-get_broker_order, Keeps-add_fill,
  Keeps-get_fill, Keeps-pause_entries_with, Keeps-add_command, Keeps-list_by_status,
  Keeps-record_broker_order, Keeps-entries_paused_now,
}
use seven_lens_paper_trading.Orders.Intent.{OrderIntent}
use seven_lens_paper_trading.Orders.Mirror.{BrokerOrder, Fill}
use seven_lens_paper_trading.TradeUpdates.{same_fill}
use seven_lens_paper_trading.Engine.Keeps.{
  EngineKeeps, EngineKeeps-pure, EngineKeeps-raise, EngineKeeps-if, EngineKeeps-bind,
  EngineKeeps-attempt, EngineKeeps-answer, EngineKeeps-stored, EngineKeeps-asked, EngineKeeps-now,
}
use seven_lens_paper_trading.Engine.Port.{
  Port, EngineError, execution_paused, broker_transport, broker_conflict, SubmitResult,
  submit_rejected, submit_accepted,
}
use seven_lens_paper_trading.Engine.Monad.{Submission, pure}
use seven_lens_paper_trading.Store.Repository.{Recorded, recorded, identity_conflict, find_fill}
use seven_lens_paper_trading.Prelude.Result.{Result, ok, err}
use seven_lens_paper_trading.Engine.Pause.{
  give_up_control, or_give_up, pause_for_reconciliation_required, persist_review_and_pause,
  require_intent, required, review_and_pause,
}
use seven_lens_paper_trading.Engine.Refresh.{
  apply_fills, assert_mirror_matches, begin_cancel, check_fill, check_fills, check_fresh_fill,
  follow_status, mirror_recorded, record_accepted, record_fill, record_fills,
  refresh_from_broker_order, refuse, request_cancel, require_mirror, still_known,
}
use seven_lens_paper_trading.Engine.Submit.{
  close_window, after_entry, after_submit, assert_asset_tradable, assert_entries_allowed,
  has_unresolved_intents, release,
}

pub ruleset engine_keeps = (
  EngineKeeps-pure, EngineKeeps-raise, EngineKeeps-if, EngineKeeps-bind, EngineKeeps-attempt,
  EngineKeeps-answer, EngineKeeps-stored, EngineKeeps-asked, EngineKeeps-now, Keeps-commit,
  Keeps-rollback, Keeps-suppressed_rollback, Keeps-get_intent, Keeps-transition_status,
  Keeps-get_broker_order_by_id, Keeps-get_broker_order, Keeps-add_fill, Keeps-get_fill,
  Keeps-pause_entries_with, Keeps-add_command, Keeps-list_by_status, Keeps-record_broker_order,
  Keeps-entries_paused_now,
)

module _ {B : Type 0} {Q : Tables → Type 0} {R : List Submission → Type 0} (port : Port B)
    (s : StepsKeep Q) where
  give_up_control-EngineKeeps : {A : Type 0} → EngineKeeps {B = B} Q R (give_up_control {A = A})
  unfolding give_up_control
  give_up_control-EngineKeeps = search (engine_keeps) depth 10

  or_give_up-EngineKeeps :
      {A : Type 0} (r : Result EngineError A) → EngineKeeps {B = B} Q R (or_give_up r)
  unfolding or_give_up
  or_give_up-EngineKeeps (ok a) = search (engine_keeps) depth 10
  or_give_up-EngineKeeps (err e) = search (engine_keeps, give_up_control-EngineKeeps) depth 10

  required-EngineKeeps : (o : Option OrderIntent) → EngineKeeps {B = B} Q R (required o)
  unfolding required
  required-EngineKeeps none = search (engine_keeps) depth 10
  required-EngineKeeps (some i) = search (engine_keeps) depth 10

  pub require_intent-EngineKeeps : (id : String) → EngineKeeps {B = B} Q R (require_intent id)
  unfolding require_intent
  require_intent-EngineKeeps id =
      EngineKeeps-bind _ _ (EngineKeeps-stored _ (Keeps-get_intent s id))
        (λ o. required-EngineKeeps o)

  pause_for_reconciliation_required-EngineKeeps :
      (i : OrderIntent) (c : String)
      → EngineKeeps {B = B} Q R (pause_for_reconciliation_required port i c)
  unfolding pause_for_reconciliation_required
  pause_for_reconciliation_required-EngineKeeps i c =
      search (engine_keeps, or_give_up-EngineKeeps) depth 14

  review_and_pause-EngineKeeps :
      (id c : String) (o : Option OrderIntent)
      → EngineKeeps {B = B} Q R (review_and_pause port id c o)
  unfolding review_and_pause
  review_and_pause-EngineKeeps id c none = search (engine_keeps) depth 10
  review_and_pause-EngineKeeps id c (some i) =
      search (engine_keeps, or_give_up-EngineKeeps, pause_for_reconciliation_required-EngineKeeps)
        depth 14

  persist_review_and_pause-EngineKeeps :
      (i : OrderIntent) (c : String) → EngineKeeps {B = B} Q R (persist_review_and_pause port i c)
  unfolding persist_review_and_pause
  persist_review_and_pause-EngineKeeps i c =
      search (engine_keeps, review_and_pause-EngineKeeps) depth 10

  refuse-EngineKeeps :
      {A : Type 0} (i : OrderIntent) (c : String)
      → EngineKeeps {B = B} Q R (refuse port {A = A} i c)
  unfolding refuse
  refuse-EngineKeeps i c = search (engine_keeps, persist_review_and_pause-EngineKeeps) depth 10

  pub assert_mirror_matches-EngineKeeps :
      (i : OrderIntent) (o : BrokerOrder) → EngineKeeps {B = B} Q R (assert_mirror_matches port i o)
  unfolding assert_mirror_matches
  assert_mirror_matches-EngineKeeps i o = search (engine_keeps, refuse-EngineKeeps) depth 10

  check_fresh_fill-EngineKeeps :
      (i : OrderIntent) (o : BrokerOrder) (l : List Fill) (f : Fill)
      → EngineKeeps {B = B} Q R (check_fresh_fill port i o l f)
  unfolding check_fresh_fill
  check_fresh_fill-EngineKeeps i o l f = search (engine_keeps, refuse-EngineKeeps) depth 10

  check_fill-EngineKeeps :
      (i : OrderIntent) (o : BrokerOrder) (l : List Fill) (f : Fill)
      → EngineKeeps {B = B} Q R (check_fill port i o l f)
  unfolding check_fill
  check_fill-EngineKeeps i o l f =
      elim (find_fill f.execution_id l)
        as (λ x. EngineKeeps {B = B} Q R (elim x [
          | some earlier ↦
              if not (same_fill earlier f) then refuse port i "conflicting fill" else pure l
          | none ↦ check_fresh_fill port i o l f
        ])) [
          | none ↦ check_fresh_fill-EngineKeeps i o l f
          | some earlier ↦ search (engine_keeps, refuse-EngineKeeps) depth 10
        ]

  check_fills-EngineKeeps :
      (i : OrderIntent) (o : BrokerOrder) (l fs : List Fill)
      → EngineKeeps {B = B} Q R (check_fills port i o l fs)
  unfolding check_fills
  check_fills-EngineKeeps i o l [] = search (engine_keeps) depth 10
  check_fills-EngineKeeps i o l (f ∷ fs) =
      EngineKeeps-bind _ _ (check_fill-EngineKeeps i o l f)
        (λ l'. check_fills-EngineKeeps i o l' fs)

  record_fill-EngineKeeps :
      (i : OrderIntent) (f : Fill) → EngineKeeps {B = B} Q R (record_fill port i f)
  unfolding record_fill
  record_fill-EngineKeeps i f = search (engine_keeps, refuse-EngineKeeps) depth 10

  record_fills-EngineKeeps :
      (i : OrderIntent) (fs : List Fill) → EngineKeeps {B = B} Q R (record_fills port i fs)
  unfolding record_fills
  record_fills-EngineKeeps i [] = search (engine_keeps) depth 10
  record_fills-EngineKeeps i (f ∷ fs) =
      EngineKeeps-bind _ _ (record_fill-EngineKeeps i f) (λ _. record_fills-EngineKeeps i fs)

  mirror_recorded-EngineKeeps :
      (i : OrderIntent) (r : Recorded) → EngineKeeps {B = B} Q R (mirror_recorded port i r)
  unfolding mirror_recorded
  mirror_recorded-EngineKeeps i (recorded o) = search (engine_keeps) depth 10
  mirror_recorded-EngineKeeps i identity_conflict =
      search (engine_keeps, refuse-EngineKeeps) depth 10

  follow_status-EngineKeeps :
      (i : OrderIntent) (o : BrokerOrder) → EngineKeeps {B = B} Q R (follow_status port i o)
  unfolding follow_status
  follow_status-EngineKeeps i o = search (engine_keeps) depth 10

  refresh_from_broker_order-EngineKeeps :
      (i : OrderIntent) (o : BrokerOrder)
      → EngineKeeps {B = B} Q R (refresh_from_broker_order port i o)
  unfolding refresh_from_broker_order
  refresh_from_broker_order-EngineKeeps i o =
      search
        (
          engine_keeps, check_fills-EngineKeeps, mirror_recorded-EngineKeeps,
          record_fills-EngineKeeps, follow_status-EngineKeeps,
        )
        depth 14

  pub record_accepted-EngineKeeps :
      (i : OrderIntent) (o : BrokerOrder) → EngineKeeps {B = B} Q R (record_accepted port i o)
  unfolding record_accepted
  record_accepted-EngineKeeps i o =
      search
        (engine_keeps, assert_mirror_matches-EngineKeeps, refresh_from_broker_order-EngineKeeps)
        depth 10

  still_known-EngineKeeps : (o : Option BrokerOrder) → EngineKeeps {B = B} Q R (still_known port o)
  unfolding still_known
  still_known-EngineKeeps none = search (engine_keeps) depth 10
  still_known-EngineKeeps (some o) = search (engine_keeps) depth 10

  require_mirror-EngineKeeps :
      (o : Option BrokerOrder) → EngineKeeps {B = B} Q R (require_mirror port o)
  unfolding require_mirror
  require_mirror-EngineKeeps none = search (engine_keeps) depth 10
  require_mirror-EngineKeeps (some o) = search (engine_keeps) depth 10

  pub apply_fills-EngineKeeps : (id : String) → EngineKeeps {B = B} Q R (apply_fills port id)
  unfolding apply_fills
  apply_fills-EngineKeeps id =
      search
        (
          engine_keeps, require_intent-EngineKeeps, require_mirror-EngineKeeps,
          still_known-EngineKeeps, record_accepted-EngineKeeps,
        )
        depth 16

  begin_cancel-EngineKeeps :
      (id : String) (i : OrderIntent) → EngineKeeps {B = B} Q R (begin_cancel port id i)
  unfolding begin_cancel
  begin_cancel-EngineKeeps id i = search (engine_keeps) depth 10

  pub request_cancel-EngineKeeps : (id : String) → EngineKeeps {B = B} Q R (request_cancel port id)
  unfolding request_cancel
  request_cancel-EngineKeeps id =
      search
        (
          engine_keeps, require_intent-EngineKeeps, begin_cancel-EngineKeeps,
          require_mirror-EngineKeeps, still_known-EngineKeeps, record_accepted-EngineKeeps,
        )
        depth 20

  pub after_submit-EngineKeeps :
      (i : OrderIntent) (r : Result EngineError SubmitResult)
      → EngineKeeps {B = B} Q R (after_submit port i r)
  unfolding after_submit
  after_submit-EngineKeeps i (err broker_transport) =
      search (engine_keeps, pause_for_reconciliation_required-EngineKeeps) depth 14
  after_submit-EngineKeeps i (err broker_conflict) =
      search (engine_keeps, pause_for_reconciliation_required-EngineKeeps) depth 14
  after_submit-EngineKeeps i (err e) = search (engine_keeps) depth 10
  after_submit-EngineKeeps i (ok (submit_rejected reason)) = search (engine_keeps) depth 10
  after_submit-EngineKeeps i (ok (submit_accepted order)) =
      search (engine_keeps, record_accepted-EngineKeeps) depth 10

  pub has_unresolved_intents-EngineKeeps : EngineKeeps {B = B} Q R (has_unresolved_intents port)
  unfolding has_unresolved_intents
  has_unresolved_intents-EngineKeeps = search (engine_keeps) depth 10

  pub release-EngineKeeps :
      {A : Type 0} (r : Result EngineError A) → EngineKeeps {B = B} Q R (release port r)
  unfolding release
  release-EngineKeeps (ok a) = search (engine_keeps) depth 10
  release-EngineKeeps (err e) = search (engine_keeps) depth 10

  pub after_entry-EngineKeeps :
      (i : OrderIntent) (r : Result EngineError OrderIntent)
      → EngineKeeps {B = B} Q R (after_entry port i r)
  unfolding after_entry
  after_entry-EngineKeeps i (err execution_paused) =
      search (engine_keeps, pause_for_reconciliation_required-EngineKeeps) depth 14
  after_entry-EngineKeeps i outcome = EngineKeeps-answer outcome

  pub close_window-EngineKeeps :
      (id : String) (i : OrderIntent) → EngineKeeps {B = B} Q R (close_window port id i)
  unfolding close_window
  close_window-EngineKeeps id i = search (engine_keeps) depth 10

  pub assert_asset_tradable-EngineKeeps :
      (i : OrderIntent) → EngineKeeps {B = B} Q R (assert_asset_tradable port i)
  unfolding assert_asset_tradable
  assert_asset_tradable-EngineKeeps i = search (engine_keeps) depth 10

  pub assert_entries_allowed-EngineKeeps :
      (b : Bool) (i : OrderIntent) → EngineKeeps {B = B} Q R (assert_entries_allowed port b i)
  unfolding assert_entries_allowed
  assert_entries_allowed-EngineKeeps b i = search (engine_keeps) depth 10
