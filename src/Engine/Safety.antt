-- ===== src/Engine/Safety.antt =====
-- What no method of the engine can undo, and what it does not do while entries are paused.
use seven_lens_paper_trading.Prelude.{
  ◌≡◌, String, Bool, true, false, not, ◌||◌, inl, inr, List, ◌∷◌, All, arith, Bool-cases,
}
use seven_lens_paper_trading.Prelude.Result.{ok}
use seven_lens_paper_trading.Orders.Mirror.{BrokerOrder, Fill}
use seven_lens_paper_trading.Orders.Intent.{OrderIntent}
use seven_lens_paper_trading.Store.Monad.{Tables, call}
use seven_lens_paper_trading.Store.Repository.{entries_paused_now}
use seven_lens_paper_trading.Store.Keeps.{Both, StepsKeep, Keeps-entries_paused_now}
use seven_lens_paper_trading.TradeUpdates.Safety.{IsPaused, IsPaused-steps, Extends, Extends-steps}
use seven_lens_paper_trading.TradeUpdates.Intents.{HasIntent, HasIntent-steps}
use seven_lens_paper_trading.TradeUpdates.Progress.{HasMirror, HasMirror-steps}
use seven_lens_paper_trading.Engine.Port.{Port}
use seven_lens_paper_trading.Engine.Monad.{Submission, EngineWorld, E, stored, submitted}
use seven_lens_paper_trading.Engine.Pause.{is_risk_exit}
use seven_lens_paper_trading.Engine.Submit.{submit_while_guarded, guarded_entry, enter_guarded}
use seven_lens_paper_trading.Engine.Keeps.{
  EngineKeeps-known, Holds, EngineKeeps, EngineKeeps-raise, EngineKeeps-if, EngineKeeps-bind,
  EngineKeeps-attempt, EngineKeeps-stored,
}
use seven_lens_paper_trading.Engine.Steps.{
  after_submit-EngineKeeps, has_unresolved_intents-EngineKeeps, release-EngineKeeps,
}
use seven_lens_paper_trading.Engine.Run.{Method, run, run-EngineKeeps}

module _ {B : Type 0} (port : Port B) where
  module _ {Q : Tables → Type 0} {R : List Submission → Type 0} (s : StepsKeep Q) (i : OrderIntent)
      (grows : (d : Tables) (l : List Submission)
        → R l
        → R (record { intent = i; durable = d } ∷ l)) where
    submitted-EngineKeeps : EngineKeeps {B = B} Q R (submitted port i)
    unfolding submitted
    submitted-EngineKeeps = record {
      at = λ w h. record { tables = h.tables; made = grows w.store.durable w.submissions h.made };
    }

    submit_while_guarded-EngineKeeps : EngineKeeps {B = B} Q R (submit_while_guarded port i)
    unfolding submit_while_guarded
    submit_while_guarded-EngineKeeps =
        EngineKeeps-bind _ _ (EngineKeeps-attempt _ submitted-EngineKeeps)
          (after_submit-EngineKeeps port s i)

    guarded_entry-EngineKeeps : (b : Bool) → EngineKeeps {B = B} Q R (guarded_entry port i b)
    unfolding guarded_entry
    guarded_entry-EngineKeeps b = search (
      EngineKeeps-if,
      EngineKeeps-raise,
      EngineKeeps-bind,
      has_unresolved_intents-EngineKeeps port s,
      submit_while_guarded-EngineKeeps,
    )

    enter_guarded-EngineKeeps : EngineKeeps {B = B} Q R (enter_guarded port i)
    unfolding enter_guarded
    enter_guarded-EngineKeeps = search (
      EngineKeeps-if,
      EngineKeeps-bind,
      EngineKeeps-attempt,
      EngineKeeps-stored,
      Keeps-entries_paused_now s,
      release-EngineKeeps port s,
      submit_while_guarded-EngineKeeps,
      guarded_entry-EngineKeeps,
    )

  -- Whatever the unit of work's writes keep, every method keeps.
  run_keeps :
      {Q : Tables → Type 0} (s : StepsKeep Q) (method : Method)
      → EngineKeeps {B = B} Q (λ _. Unit {0}) (run port method)
  run_keeps s method =
      run-EngineKeeps port s (λ i. enter_guarded-EngineKeeps s i (λ d l h. h)) method

  kept :
      {Q : Tables → Type 0} (s : StepsKeep Q) (method : Method) (w : EngineWorld B)
      → Both Q w.store
      → Both Q (run port method w).1.store
  kept s method w h = ((run_keeps s method).at w (record { tables = h; made = tt })).tables

  -- An order intent that has come from a given one along its lifecycle, in the transaction and
  -- durably, still has after any method of the engine, whatever the broker answers and whichever calls
  -- fail.
  pub run-HasIntent :
      (method : Method) (id : String) (a : OrderIntent) (w : EngineWorld B)
      → Both (HasIntent id a) w.store
      → Both (HasIntent id a) (run port method w).1.store
  run-HasIntent method id a w h = kept (HasIntent-steps id a) method w h

  -- A mirror that has advanced from a given one, in the transaction and durably, still has after any
  -- method of the engine, whatever the broker answers and whichever calls fail.
  pub run-HasMirror :
      (method : Method) (id : String) (a : BrokerOrder) (w : EngineWorld B)
      → Both (HasMirror id a) w.store
      → Both (HasMirror id a) (run port method w).1.store
  run-HasMirror method id a w h = kept (HasMirror-steps id a) method w h

  -- The fills that were recorded, in the transaction and durably, stay recorded in their order after
  -- any method of the engine, whatever the broker answers and whichever calls fail.
  pub run-Extends :
      (method : Method) (l : List Fill) (w : EngineWorld B)
      → Both (Extends l) w.store
      → Both (Extends l) (run port method w).1.store
  run-Extends method l w h = kept (Extends-steps l) method w h

abbrev pub IsRiskExit : Submission → Type 0
IsRiskExit s = is_risk_exit s.intent.intent_type ≡ true

module _ {B : Type 0} (port : Port B) where
  abbrev PausedKeeps : {A : Type 0} → E B A → Type 0
  PausedKeeps m = EngineKeeps IsPaused (All IsRiskExit) m

  abbrev Paused : EngineWorld B → Type 0
  Paused w = Holds IsPaused (All IsRiskExit) w

  reads_pause :
      (w : EngineWorld B)
      → Paused w
      → (b : Bool) → (stored entries_paused_now w).0 ≡ ok b
      → b ≡ true
  unfolding stored entries_paused_now call
  reads_pause w h b e = ground (arith, h.tables.seen)

  blocked : (i : OrderIntent) (b : Bool) → b ≡ true → PausedKeeps (guarded_entry port i b)
  unfolding guarded_entry
  blocked i true e = EngineKeeps-raise _
  blocked i false e = cc

  paused_entry :
      port.has_control_repository ≡ true → (i : OrderIntent) → PausedKeeps (enter_guarded port i)
  unfolding enter_guarded
  paused_entry guarded i = elim (Bool-cases (is_risk_exit i.intent_type)) [
    | inl exit ↦
        rw exit (submit_while_guarded-EngineKeeps port IsPaused-steps i (λ d l h. (exit, h)))
    | inr entry ↦
        let under : (is_risk_exit i.intent_type || not port.has_control_repository) ≡ false =
          ground arith in
        rw under (
          EngineKeeps-known _ (λ b. b ≡ true)
            (λ b e.
              EngineKeeps-bind _ _ (EngineKeeps-attempt _ (blocked i b e))
                (release-EngineKeeps port IsPaused-steps))
            (stored entries_paused_now)
            (EngineKeeps-stored _ (Keeps-entries_paused_now IsPaused-steps)) reads_pause)
  ]

  -- In a unit of work with a control repository, while entries are paused, in the transaction and
  -- durably, and when only risk exits were submitted before, every method of the engine submits nothing
  -- but risk exits, and entries stay paused, whatever the broker answers and whichever calls fail.
  pub run-IsPaused :
      port.has_control_repository ≡ true
      → (method : Method) (w : EngineWorld B) → Both IsPaused w.store
      → All IsRiskExit w.submissions
      → Both IsPaused (run port method w).1.store × All IsRiskExit (run port method w).1.submissions
  run-IsPaused guarded method w h k =
      let after =
        (run-EngineKeeps port IsPaused-steps (paused_entry guarded) method).at w
          (record { tables = h; made = k }) in
      (after.tables, after.made)
