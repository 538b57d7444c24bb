-- ===== src/TradeUpdates/Refusals.antt =====
-- When every call works and an update is refused with a TradeUpdateError, entries are paused, durably.
use mathlib.Core.Path.{subst}
use seven_lens_paper_trading.Prelude.{
  ℕ, ◌≡◌, ◌≢◌, refl, ap, String, Bool, true, false, not, ◌&&◌, Option, none, some, arith,
  if◌then◌else◌, ltb, ◌==◌,
}
use seven_lens_paper_trading.Prelude.Result.{Result, ok, err}
use seven_lens_paper_trading.Prelude.Text.{str_eq}
use seven_lens_paper_trading.Prelude.Dict.{lookup}
use seven_lens_paper_trading.Orders.BrokerStatus.{BrokerOrderStatus, same_broker_status}
use seven_lens_paper_trading.Orders.Status.{OrderStatus}
use seven_lens_paper_trading.Orders.Mirror.{BrokerOrder, Fill}
use seven_lens_paper_trading.Orders.Intent.{OrderIntent}
use seven_lens_paper_trading.Store.Monad.{
  Tables, World, Exn, trade_update_error, M, pure, raise, ◌>>=◌, try_catch, call, commit,
  suppressed_rollback, rollback, continue, handled,
}
use seven_lens_paper_trading.Store.Repository.{
  Step, get_intent, transition_status, get_broker_order_by_id, get_broker_order, add_fill,
  add_fill_step, get_fill_by_execution_id, list_fills, update_broker_order_status, find_fill,
}
use seven_lens_paper_trading.TradeUpdates.Conflict.{
  Conflict, conflicting_fill, conflicting_status, persist_conflict_pause,
}
use seven_lens_paper_trading.TradeUpdates.Safety.{IsPaused}
use seven_lens_paper_trading.TradeUpdates.Pauses.{
  calm, IsCalm, Paused, calm_eta, persist_conflict_pause-Paused,
}
use seven_lens_paper_trading.TradeUpdates.{
  TradeUpdate, TradeUpdateOutcome, duplicate, stale, unknown_order, fill_update, status_update,
  OrderStatusUpdate, advance_intent, derive_target, derive_from, derive_fill, give_up,
  repeated_fill, fill_for, apply_fill, same_fill, transition_intent, accept_status, status_for,
  status_of, apply_status, apply,
}

-- An action after which the calls to come still work, if they worked before it.
record Calm {A : Type 0} (m : M A) : Type 0 where
  at : (w : World) → IsCalm w → IsCalm (m w).1

Calm-pure : {A : Type 0} (a : A) → Calm (pure a)
Calm-pure a = record { at = λ w h. h }

Calm-raise : {A : Type 0} (e : Exn) → Calm (raise {A = A} e)
Calm-raise e = record { at = λ w h. h }

Calm-if : {A : Type 0} (b : Bool) (m n : M A) → Calm m → Calm n → Calm (if b then m else n)
Calm-if true m n h k = h
Calm-if false m n h k = k

continue-Calm :
    {A B : Type 0} (f : A → M B)
    → ((a : A) → Calm (f a))
    → (p : Result Exn A × World) → IsCalm p.1
    → IsCalm (continue p.0 f p.1).1
continue-Calm f kf (ok a, w) h = (kf a).at w h
continue-Calm f kf (err e, w) h = h

Calm-bind :
    {A B : Type 0} (m : M A) (f : A → M B) → Calm m → ((a : A) → Calm (f a)) → Calm (m >>= f)
unfolding ◌>>=◌
Calm-bind m f k kf = record { at = λ w h. continue-Calm f kf (m w) (k.at w h) }

Calm-call : {A : Type 0} (f : Step A) → Calm (call f)
unfolding call
Calm-call f = record { at = λ w h. rw h refl }

Calm-commit : Calm commit
unfolding commit
Calm-commit = record { at = λ w h. rw h refl }

ruleset calmly = (Calm-pure, Calm-raise, Calm-if, Calm-bind, Calm-call, Calm-commit)

advance_intent-Calm :
    (id : String) (target : BrokerOrderStatus) (o : Option OrderIntent)
    → Calm (advance_intent id target o)
unfolding advance_intent transition_status
advance_intent-Calm id target none = search calmly
advance_intent-Calm id target (some i) = search calmly depth 8

derive_target-Calm :
    (mirror : BrokerOrder) (fill : Fill) (n : ℕ) (target : Option BrokerOrderStatus)
    → Calm (derive_target mirror fill n target)
unfolding derive_target update_broker_order_status get_intent
derive_target-Calm mirror fill n none = search calmly
derive_target-Calm mirror fill n (some target) = search (calmly, advance_intent-Calm) depth 10

derive_fill-Calm : (mirror : BrokerOrder) (fill : Fill) → Calm (derive_fill mirror fill)
unfolding derive_fill derive_from list_fills
derive_fill-Calm mirror fill = search (calmly, derive_target-Calm) depth 8

transition_intent-Calm :
    (id : String) (current target : OrderStatus) → Calm (transition_intent id current target)
unfolding transition_intent transition_status
transition_intent-Calm id current target = search calmly depth 10

accept_status-Calm :
    (update : OrderStatusUpdate) (intent : OrderIntent) (mirror : BrokerOrder)
    → Calm (accept_status update intent mirror)
unfolding accept_status update_broker_order_status
accept_status-Calm update intent mirror = search (calmly, transition_intent-Calm) depth 10

-- Either the update was not refused with a TradeUpdateError, or entries are durably paused.
record Guarded (p : Result Exn TradeUpdateOutcome × World) : Type 0 where
  guarded : p.0 ≡ err trade_update_error → IsPaused p.1.durable

fine-Guarded : (o : TradeUpdateOutcome) (w : World) → Guarded (ok o, w)
fine-Guarded o w = record { guarded = λ e. cc }

raised_after :
    (p : Result Exn (Unit {0}) × World)
    → Paused p
    → Guarded (continue p.0 (λ _. raise trade_update_error) p.1)
raised_after (ok tt, w) h = record { guarded = λ _. h.durable_pause }
raised_after (err e, w) h = record { guarded = λ _. h.durable_pause }

give_up-Guarded :
    (id : String) (c : Conflict) (e : Exn) (w : World) → IsCalm w → Guarded (give_up id c e w)
unfolding give_up ◌>>=◌ suppressed_rollback rollback try_catch
give_up-Guarded id c e w h =
    subst (λ v. Guarded (give_up id c e v)) (calm_eta w h)
      (raised_after (persist_conflict_pause id c (calm w.durable w.durable))
        (persist_conflict_pause-Paused id c w.durable w.durable))

handled-Guarded :
    (id : String) (c : Conflict) (p : Result Exn TradeUpdateOutcome × World)
    → IsCalm p.1
    → Guarded (handled p.0 (give_up id c) p.1)
handled-Guarded id c (ok o, w) h = fine-Guarded o w
handled-Guarded id c (err e, w) h = give_up-Guarded id c e w h

tried-Guarded :
    (id : String) (c : Conflict) (m : M TradeUpdateOutcome) (w : World)
    → Calm m
    → IsCalm w
    → Guarded (try_catch m (give_up id c) w)
unfolding try_catch
tried-Guarded id c m w k h = handled-Guarded id c (m w) (k.at w h)

-- A call that raises no TradeUpdateError, and after which the calls to come still work.
record Quiet {A : Type 0} (m : M A) : Type 0 where
  calmly : Calm m
  silent : (w : World) → IsCalm w → (m w).0 ≢ err trade_update_error

module _ {A : Type 0} where
  read-Quiet : (f : Tables → A) → Quiet (call (λ t. (ok (f t), t)))
  unfolding call
  read-Quiet f = record { calmly = Calm-call _; silent = λ w h e. ground (arith, e, h) }

commit-Quiet : Quiet commit
unfolding commit
commit-Quiet = record { calmly = Calm-commit; silent = λ w h e. ground (arith, e, h) }

add_fill-Quiet : (fill : Fill) → Quiet (add_fill fill)
unfolding add_fill add_fill_step call
add_fill-Quiet fill = record { calmly = Calm-call _; silent = λ w h e. ground (arith, e, h) }

get_broker_order-Quiet : (id : String) → Quiet (get_broker_order id)
unfolding get_broker_order call
get_broker_order-Quiet id = record { calmly = Calm-call _; silent = λ w h e. ground (arith, e, h) }

module _ {A : Type 0} (f : A → M TradeUpdateOutcome)
    (each : (a : A) (w : World) → IsCalm w → Guarded (f a w)) where
  continue-Guarded :
      (p : Result Exn A × World)
      → IsCalm p.1
      → p.0 ≢ err trade_update_error
      → Guarded (continue p.0 f p.1)
  continue-Guarded (ok a, w) h k = each a w h
  continue-Guarded (err e, w) h k = record {
    guarded =
        λ same. let raised : e ≡ trade_update_error = cc in absurd (k (ap (λ x. err x) raised));
  }

  bind-Guarded : (m : M A) (w : World) → Quiet m → IsCalm w → Guarded ((m >>= f) w)
  unfolding ◌>>=◌
  bind-Guarded m w q h = continue-Guarded (m w) (q.calmly.at w h) (q.silent w h)

pure-Guarded : (o : TradeUpdateOutcome) (w : World) → Guarded (pure o w)
pure-Guarded o w = fine-Guarded o w

if-Guarded :
    (b : Bool) (m n : M TradeUpdateOutcome) (w : World)
    → Guarded (m w)
    → Guarded (n w)
    → Guarded ((if b then m else n) w)
if-Guarded true m n w h k = h
if-Guarded false m n w h k = k

repeated_fill-Guarded :
    (mirror : BrokerOrder) (fill : Fill) (o : Option Fill) (w : World)
    → IsCalm w
    → Guarded (repeated_fill mirror fill o w)
unfolding repeated_fill
repeated_fill-Guarded mirror fill none w h =
    give_up-Guarded mirror.client_order_id conflicting_fill trade_update_error w h
repeated_fill-Guarded mirror fill (some existing) w h =
    if-Guarded (not (same_fill existing fill))
      (give_up mirror.client_order_id conflicting_fill trade_update_error)
      (commit >>= (λ _. pure duplicate)) w
      (give_up-Guarded mirror.client_order_id conflicting_fill trade_update_error w h)
      (bind-Guarded (λ _. pure duplicate) (λ _ v _. fine-Guarded duplicate v) commit w commit-Quiet
        h)

new_fill-Guarded :
    (mirror : BrokerOrder) (fill : Fill) (w : World)
    → IsCalm w
    → Guarded (
        (commit >>= (λ _.
            try_catch (derive_fill mirror fill) (give_up mirror.client_order_id conflicting_fill)))
          w)
new_fill-Guarded mirror fill w h =
    bind-Guarded
      (λ _. try_catch (derive_fill mirror fill) (give_up mirror.client_order_id conflicting_fill))
      (λ _ v k.
        tried-Guarded mirror.client_order_id conflicting_fill (derive_fill mirror fill) v
          (derive_fill-Calm mirror fill) k)
      commit w commit-Quiet h

old_fill-Guarded :
    (mirror : BrokerOrder) (fill : Fill) (w : World)
    → IsCalm w
    → Guarded ((get_fill_by_execution_id fill.execution_id >>= repeated_fill mirror fill) w)
unfolding get_fill_by_execution_id
old_fill-Guarded mirror fill w h =
    bind-Guarded (repeated_fill mirror fill) (repeated_fill-Guarded mirror fill) _ w
      (read-Quiet (λ t. find_fill fill.execution_id t.orders.fills)) h

fill_for-Guarded :
    (fill : Fill) (o : Option BrokerOrder) (w : World) → IsCalm w → Guarded (fill_for fill o w)
unfolding fill_for
fill_for-Guarded fill none w h = fine-Guarded unknown_order w
fill_for-Guarded fill (some mirror) w h =
    bind-Guarded _
      (λ inserted v k.
        if-Guarded (not inserted) _ _ v (old_fill-Guarded mirror fill v k)
          (new_fill-Guarded mirror fill v k))
      (add_fill fill) w (add_fill-Quiet fill) h

status_for-Guarded :
    (update : OrderStatusUpdate) (intent : OrderIntent) (o : Option BrokerOrder) (w : World)
    → IsCalm w
    → Guarded (status_for update intent o w)
unfolding status_for
status_for-Guarded update intent none w h = fine-Guarded unknown_order w
status_for-Guarded update intent (some mirror) w h =
    if-Guarded (not (str_eq mirror.broker_order_id update.broker_order_id)) _ _ w
      (fine-Guarded unknown_order w)
      (if-Guarded (ltb update.observed_at mirror.updated_at) _ _ w (fine-Guarded stale w) (
        if-Guarded
          (same_broker_status update.status mirror.status
            && update.filled_quantity == mirror.filled_quantity)
          _ _ w (fine-Guarded duplicate w)
          (tried-Guarded update.client_order_id conflicting_status
            (accept_status update intent mirror) w (accept_status-Calm update intent mirror) h)))

status_of-Guarded :
    (update : OrderStatusUpdate) (o : Option OrderIntent) (w : World)
    → IsCalm w
    → Guarded (status_of update o w)
unfolding status_of
status_of-Guarded update none w h = fine-Guarded unknown_order w
status_of-Guarded update (some intent) w h =
    bind-Guarded _ (status_for-Guarded update intent) (get_broker_order update.client_order_id) w
      (get_broker_order-Quiet update.client_order_id) h

apply-Guarded : (update : TradeUpdate) (w : World) → IsCalm w → Guarded (apply update w)
unfolding apply apply_fill apply_status get_intent get_broker_order_by_id
apply-Guarded (fill_update fill) w h =
    bind-Guarded _ (fill_for-Guarded fill) _ w
      (read-Quiet (λ t. lookup fill.broker_order_id t.orders.mirrors)) h
apply-Guarded (status_update update) w h =
    bind-Guarded _ (status_of-Guarded update) _ w
      (read-Quiet (λ t. lookup update.client_order_id t.orders.intents)) h

-- When every call works, an update that is refused with a TradeUpdateError leaves entries paused in
-- the committed tables, whichever conflict it was and whatever the tables held before.
pub apply_refused :
    (update : TradeUpdate) (seen saved : Tables)
    → (apply update (calm seen saved)).0 ≡ err trade_update_error
    → IsPaused (apply update (calm seen saved)).1.durable
apply_refused update seen saved h = (apply-Guarded update (calm seen saved) refl).guarded h
