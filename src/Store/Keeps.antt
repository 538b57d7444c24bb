-- ===== src/Store/Keeps.antt =====
-- What every action keeps, however its calls fail: one rule for each way to build an action, for a
-- property that the connection's tables and the committed ones both have.
use seven_lens_paper_trading.Prelude.{ℕ, Option, String, Bool, true, false, if◌then◌else◌}
use seven_lens_paper_trading.Prelude.Result.{Result, ok, err}
use seven_lens_paper_trading.Store.Monad.{
  Tables, World, Fault, fine, failed, ambiguous, Exn, M, pure, raise, ◌>>=◌, try_catch, call,
  commit, rollback, suppressed_rollback, persist_safety_pause, first_of_faults, continue, handled,
  called, spend, committed, rolled_back, safety_paused, pause_in, CommandRecord,
}
use seven_lens_paper_trading.Orders.Status.{OrderStatus}
use seven_lens_paper_trading.Orders.BrokerStatus.{BrokerOrderStatus}
use seven_lens_paper_trading.Orders.Mirror.{BrokerOrder, Fill}
use seven_lens_paper_trading.Store.Repository.{
  record_step, list_by_status, record_broker_order, entries_paused_now, Step, transition_step,
  add_fill_step, update_step, add_command_step, get_intent, transition_status,
  get_broker_order_by_id, get_broker_order, add_fill, get_fill_by_execution_id, list_fills,
  update_broker_order_status, pause_entries_with, control_updated_at, add_command,
}

pub record Both (Q : Tables → Type 0) (w : World) : Type 0 where
  pub seen : Q w.working
  pub saved : Q w.durable

pub record Keeps {A : Type 0} (Q : Tables → Type 0) (m : M A) : Type 0 where
  pub at : (w : World) → Both Q w → Both Q (m w).1

module _ {Q : Tables → Type 0} where
  pub Keeps-pure : {A : Type 0} (a : A) → Keeps Q (pure a)
  Keeps-pure a = record { at = λ w h. h }

  pub Keeps-raise : {A : Type 0} (e : Exn) → Keeps Q (raise {A = A} e)
  Keeps-raise e = record { at = λ w h. h }

  pub Keeps-if :
      {A : Type 0} (b : Bool) (m n : M A) → Keeps Q m → Keeps Q n → Keeps Q (if b then m else n)
  Keeps-if true m n h k = h
  Keeps-if false m n h k = k

  continue-Keeps :
      {A B : Type 0} (f : A → M B)
      → ((a : A) → Keeps Q (f a))
      → (p : Result Exn A × World) → Both Q p.1
      → Both Q (continue p.0 f p.1).1
  continue-Keeps f kf (ok a, w) h = (kf a).at w h
  continue-Keeps f kf (err e, w) h = h

  pub Keeps-bind :
      {A B : Type 0} (m : M A) (f : A → M B)
      → Keeps Q m
      → ((a : A) → Keeps Q (f a))
      → Keeps Q (m >>= f)
  unfolding ◌>>=◌
  Keeps-bind m f k kf = record { at = λ w h. continue-Keeps f kf (m w) (k.at w h) }

  handled-Keeps :
      {A : Type 0} (f : Exn → M A)
      → ((e : Exn) → Keeps Q (f e))
      → (p : Result Exn A × World) → Both Q p.1
      → Both Q (handled p.0 f p.1).1
  handled-Keeps f kf (ok a, w) h = h
  handled-Keeps f kf (err e, w) h = (kf e).at w h

  pub Keeps-try_catch :
      {A : Type 0} (m : M A) (f : Exn → M A)
      → Keeps Q m
      → ((e : Exn) → Keeps Q (f e))
      → Keeps Q (try_catch m f)
  unfolding try_catch
  Keeps-try_catch m f k kf = record { at = λ w h. handled-Keeps f kf (m w) (k.at w h) }

  called_keeps :
      {A : Type 0} (f : Step A)
      → ((t : Tables) → Q t → Q (f t).1)
      → (x : Fault) (w : World) → Both Q w
      → Both Q (called x f w).1
  called_keeps f k fine w h = record { seen = k w.working h.seen; saved = h.saved }
  called_keeps f k failed w h = h
  called_keeps f k ambiguous w h = h

  pub Keeps-call : {A : Type 0} (f : Step A) → ((t : Tables) → Q t → Q (f t).1) → Keeps Q (call f)
  unfolding call
  Keeps-call f k = record {
    at = λ w h.
        called_keeps f k (first_of_faults w.faults) (spend w)
          (record { seen = h.seen; saved = h.saved });
  }

  committed_keeps : (x : Fault) (w : World) → Both Q w → Both Q (committed x w).1
  committed_keeps fine w h = record { seen = h.seen; saved = h.seen }
  committed_keeps failed w h = h
  committed_keeps ambiguous w h = record { seen = h.seen; saved = h.seen }

  pub Keeps-commit : Keeps Q commit
  unfolding commit
  Keeps-commit = record {
    at = λ w h.
        committed_keeps (first_of_faults w.faults) (spend w)
          (record { seen = h.seen; saved = h.saved });
  }

  rolled_back_keeps : (x : Fault) (w : World) → Both Q w → Both Q (rolled_back x w).1
  rolled_back_keeps fine w h = record { seen = h.saved; saved = h.saved }
  rolled_back_keeps failed w h = record { seen = h.saved; saved = h.saved }
  rolled_back_keeps ambiguous w h = record { seen = h.saved; saved = h.saved }

  pub Keeps-rollback : Keeps Q rollback
  unfolding rollback
  Keeps-rollback = record {
    at = λ w h.
        rolled_back_keeps (first_of_faults w.faults) (spend w)
          (record { seen = h.seen; saved = h.saved });
  }

  pub Keeps-suppressed_rollback : Keeps Q suppressed_rollback
  unfolding suppressed_rollback
  Keeps-suppressed_rollback = Keeps-try_catch rollback _ Keeps-rollback (λ e. Keeps-pure tt)

  module _ (pausing : (reason : String) (t : Tables) → Q t → Q (pause_in reason t)) where
    safety_paused_keeps :
        (x : Fault) (reason : String) (w : World) → Both Q w → Both Q (safety_paused x reason w).1
    safety_paused_keeps fine reason w h = record {
      seen = pausing reason w.working h.seen;
      saved = pausing reason w.durable h.saved;
    }
    safety_paused_keeps failed reason w h = h
    safety_paused_keeps ambiguous reason w h = record {
      seen = pausing reason w.working h.seen;
      saved = pausing reason w.durable h.saved;
    }

    pub Keeps-persist_safety_pause : (reason : String) → Keeps Q (persist_safety_pause reason)
    unfolding persist_safety_pause
    Keeps-persist_safety_pause reason = record {
      at = λ w h.
          safety_paused_keeps (first_of_faults w.faults) reason (spend w)
            (record { seen = h.seen; saved = h.saved });
    }

-- What the calls that write have to keep.
pub record StepsKeep (Q : Tables → Type 0) : Type 0 where
  pub pausing : (reason : String) (t : Tables) → Q t → Q (pause_in reason t)
  pub moving :
      (id : String) (target : OrderStatus) (t : Tables) → Q t → Q (transition_step id target t).1
  pub adding : (fill : Fill) (t : Tables) → Q t → Q (add_fill_step fill t).1
  pub refreshing :
      (id : String) (status : BrokerOrderStatus) (n : ℕ) (at : Option ℕ) (t : Tables)
      → Q t
      → Q (update_step id status n at t).1
  pub recording : (order : BrokerOrder) (t : Tables) → Q t → Q (record_step order t).1
  pub logging : (c : CommandRecord) (t : Tables) → Q t → Q (add_command_step c t).1

-- The repository's calls keep what their steps keep.
module _ {Q : Tables → Type 0} (s : StepsKeep Q) where
  pub Keeps-get_intent : (id : String) → Keeps Q (get_intent id)
  unfolding get_intent
  Keeps-get_intent id = Keeps-call _ (λ t h. h)

  pub Keeps-transition_status :
      (id : String) (target : OrderStatus) → Keeps Q (transition_status id target)
  unfolding transition_status
  Keeps-transition_status id target = Keeps-call _ (s.moving id target)

  pub Keeps-get_broker_order_by_id : (id : String) → Keeps Q (get_broker_order_by_id id)
  unfolding get_broker_order_by_id
  Keeps-get_broker_order_by_id id = Keeps-call _ (λ t h. h)

  pub Keeps-get_broker_order : (id : String) → Keeps Q (get_broker_order id)
  unfolding get_broker_order
  Keeps-get_broker_order id = Keeps-call _ (λ t h. h)

  pub Keeps-add_fill : (fill : Fill) → Keeps Q (add_fill fill)
  unfolding add_fill
  Keeps-add_fill fill = Keeps-call _ (s.adding fill)

  pub Keeps-get_fill : (id : String) → Keeps Q (get_fill_by_execution_id id)
  unfolding get_fill_by_execution_id
  Keeps-get_fill id = Keeps-call _ (λ t h. h)

  pub Keeps-list_fills : (id : String) → Keeps Q (list_fills id)
  unfolding list_fills
  Keeps-list_fills id = Keeps-call _ (λ t h. h)

  pub Keeps-update :
      (id : String) (status : BrokerOrderStatus) (n : ℕ) (at : Option ℕ)
      → Keeps Q (update_broker_order_status id status n at)
  unfolding update_broker_order_status
  Keeps-update id status n at = Keeps-call _ (s.refreshing id status n at)

  pub Keeps-pause_entries_with : (reason : String) → Keeps Q (pause_entries_with reason)
  unfolding pause_entries_with
  Keeps-pause_entries_with reason = Keeps-call _ (s.pausing reason)

  pub Keeps-control_updated_at : Keeps Q control_updated_at
  unfolding control_updated_at
  Keeps-control_updated_at = Keeps-call _ (λ t h. h)

  pub Keeps-add_command : (c : CommandRecord) → Keeps Q (add_command c)
  unfolding add_command
  Keeps-add_command c = Keeps-call _ (s.logging c)

  pub Keeps-list_by_status : (status : OrderStatus) → Keeps Q (list_by_status status)
  unfolding list_by_status
  Keeps-list_by_status status = Keeps-call _ (λ t h. h)

  pub Keeps-record_broker_order : (order : BrokerOrder) → Keeps Q (record_broker_order order)
  unfolding record_broker_order
  Keeps-record_broker_order order = Keeps-call _ (s.recording order)

  pub Keeps-entries_paused_now : Keeps Q entries_paused_now
  unfolding entries_paused_now
  Keeps-entries_paused_now = Keeps-call _ (λ t h. h)
