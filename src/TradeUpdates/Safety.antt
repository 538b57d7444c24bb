-- ===== src/TradeUpdates/Safety.antt =====
-- What no trade update can undo, whichever calls fail: the pause, the recorded fills, the progress of
-- mirrors, and the lifecycle of intents.
use seven_lens_paper_trading.Prelude.{
  ℕ, ◌≡◌, refl, ap, ◌∙◌, String, true, inl, inr, Option, List, [], ◌∷◌, ◌++◌, arith, elem,
  Bool-cases,
}
use mathlib.Core.List.{append_assoc}
use seven_lens_paper_trading.Prelude.Text.{str_eq}
use seven_lens_paper_trading.Orders.Status.{OrderStatus}
use seven_lens_paper_trading.Orders.BrokerStatus.{BrokerOrderStatus}
use seven_lens_paper_trading.Orders.Mirror.{BrokerOrder, Fill}
use seven_lens_paper_trading.Store.Monad.{OrderTables, Tables, World, CommandRecord}
use seven_lens_paper_trading.Store.Repository.{
  transition_step, add_fill_step, update_step, add_command_step, record_step,
}
use seven_lens_paper_trading.Store.Keeps.{Both, StepsKeep}
use seven_lens_paper_trading.TradeUpdates.Keeps.{apply-Keeps}
use seven_lens_paper_trading.TradeUpdates.{TradeUpdate, apply}

-- Which tables a step leaves alone.
control-transition_step :
    (id : String) (target : OrderStatus) (t : Tables)
    → (transition_step id target t).1.control ≡ t.control
unfolding transition_step
control-transition_step id target t = ground arith

control-add_fill_step : (f : Fill) (t : Tables) → (add_fill_step f t).1.control ≡ t.control
unfolding add_fill_step
control-add_fill_step f t = ground arith

control-update_step :
    (id : String) (s : BrokerOrderStatus) (n : ℕ) (at : Option ℕ) (t : Tables)
    → (update_step id s n at t).1.control ≡ t.control
unfolding update_step
control-update_step id s n at t = ground arith

control-record_step : (o : BrokerOrder) (t : Tables) → (record_step o t).1.control ≡ t.control
unfolding record_step
control-record_step o t = ground arith

pub orders-add_command_step :
    (c : CommandRecord) (t : Tables) → (add_command_step c t).1.orders ≡ t.orders
unfolding add_command_step
orders-add_command_step c t = ground arith

abbrev pub IsPaused : Tables → Type 0
IsPaused t = t.control.entries_paused ≡ true

IsPaused-add_command_step :
    (c : CommandRecord) (t : Tables) → IsPaused t → IsPaused (add_command_step c t).1
unfolding add_command_step
IsPaused-add_command_step c t h = ground arith

pub IsPaused-steps : StepsKeep IsPaused
IsPaused-steps = record {
  pausing = λ reason t h. refl;
  moving = λ id target t h. rw (control-transition_step id target t) h;
  adding = λ f t h. rw (control-add_fill_step f t) h;
  refreshing = λ id s n at t h. rw (control-update_step id s n at t) h;
  recording = λ o t h. rw (control-record_step o t) h;
  logging = IsPaused-add_command_step;
}

-- No trade update lifts a pause: once entries are paused, in the transaction and durably, they stay
-- paused in both, whatever the update and whichever calls fail.
pub apply-IsPaused :
    (update : TradeUpdate) (w : World) → Both IsPaused w → Both IsPaused (apply update w).1
apply-IsPaused update w h = (apply-Keeps IsPaused-steps update).at w h

-- The recorded fills begin with the given ones.
pub record Extends (l : List Fill) (t : Tables) : Type 0 where
  pub rest : List Fill
  pub begins : t.orders.fills ≡ l ++ rest

fills-transition_step :
    (id : String) (target : OrderStatus) (t : Tables)
    → (transition_step id target t).1.orders.fills ≡ t.orders.fills
unfolding transition_step
fills-transition_step id target t = ground arith

fills-update_step :
    (id : String) (s : BrokerOrderStatus) (n : ℕ) (at : Option ℕ) (t : Tables)
    → (update_step id s n at t).1.orders.fills ≡ t.orders.fills
unfolding update_step
fills-update_step id s n at t = ground arith

fills-record_step :
    (o : BrokerOrder) (t : Tables) → (record_step o t).1.orders.fills ≡ t.orders.fills
unfolding record_step
fills-record_step o t = ground arith

module _ (l : List Fill) where
  Extends-same : {t u : Tables} → u.orders.fills ≡ t.orders.fills → Extends l t → Extends l u
  Extends-same e h = record { rest = h.rest; begins = e ∙ h.begins }

  Extends-add_fill_step : (f : Fill) (t : Tables) → Extends l t → Extends l (add_fill_step f t).1
  unfolding add_fill_step
  Extends-add_fill_step f t h =
      elim (Bool-cases (elem str_eq f.execution_id t.orders.execution_ids)) [
        | inl old ↦ rw old h
        | inr new ↦ rw new (record {
          rest = h.rest ++ f ∷ [];
          begins = ap (λ x. x ++ f ∷ []) h.begins ∙ append_assoc l h.rest (f ∷ []);
        })
      ]

  pub Extends-steps : StepsKeep (Extends l)
  Extends-steps = record {
    pausing = λ reason t h. Extends-same refl h;
    moving = λ id target t h. Extends-same (fills-transition_step id target t) h;
    adding = Extends-add_fill_step;
    refreshing = λ id s n at t h. Extends-same (fills-update_step id s n at t) h;
    recording = λ o t h. Extends-same (fills-record_step o t) h;
    logging =
        λ c t h. Extends-same (ap (λ (o : OrderTables). o.fills) (orders-add_command_step c t)) h;
  }

-- Recorded fills are append-only: whatever the update and whichever calls fail, the fills that were
-- recorded stay recorded, in their order, in the transaction and durably.
pub apply-Extends :
    (update : TradeUpdate) (l : List Fill) (w : World)
    → Both (Extends l) w
    → Both (Extends l) (apply update w).1
apply-Extends update l w h = (apply-Keeps (Extends-steps l) update).at w h
