-- ===== src/Control/Canceled.antt =====
-- What a cancellation of all live orders does not do.
use seven_lens_paper_trading.Prelude.{ℕ, ◌≡◌, refl, String, Option, none, some, List, [], ◌∷◌, ◌++◌}
use seven_lens_paper_trading.Prelude.Result.{Result, ok, err}
use seven_lens_paper_trading.Orders.Intent.{OrderIntent}
use seven_lens_paper_trading.Store.Monad.{ControlCommand, Tables}
use seven_lens_paper_trading.Store.Keeps.{Both, StepsKeep}
use seven_lens_paper_trading.TradeUpdates.Safety.{IsPaused, IsPaused-steps}
use seven_lens_paper_trading.Engine.Port.{Port, EngineError}
use seven_lens_paper_trading.Engine.Monad.{Submission, EngineWorld, pure}
use seven_lens_paper_trading.Engine.Keeps.{
  EngineKeeps, EngineKeeps-pure, EngineKeeps-bind, EngineKeeps-attempt,
}
use seven_lens_paper_trading.Engine.Steps.{request_cancel-EngineKeeps, engine_keeps}
use seven_lens_paper_trading.Control.{record_command}
use seven_lens_paper_trading.Control.Cancel.{
  record_failed, cancel_candidates, cancel_rest, finish_cancel, cancel_open_orders,
}

module _ {B : Type 0} (port : Port B) where
  module _ {Q : Tables → Type 0} {R : List Submission → Type 0} (s : StepsKeep Q) where
    record_command-EngineKeeps :
        (id : String) (c : ControlCommand) (reason actor : String)
        → EngineKeeps {B = B} Q R (record_command port id c reason actor)
    unfolding record_command
    record_command-EngineKeeps id c reason actor = search (engine_keeps) depth 12

    record_failed-EngineKeeps :
        (id : String) (c : ControlCommand) (reason actor : String)
        → EngineKeeps {B = B} Q R (record_failed port id c reason actor)
    unfolding record_failed
    record_failed-EngineKeeps id c reason actor = search (engine_keeps) depth 12

    cancel_rest-EngineKeeps :
        (canceled is : List OrderIntent) → EngineKeeps {B = B} Q R (cancel_rest port canceled is)
    unfolding cancel_rest
    cancel_rest-EngineKeeps canceled [] = EngineKeeps-pure _
    cancel_rest-EngineKeeps canceled (i ∷ is) =
        EngineKeeps-bind _ _
          (EngineKeeps-attempt _ (request_cancel-EngineKeeps port s i.client_order_id))
          (next is (λ j. cancel_rest-EngineKeeps (canceled ++ j ∷ []) is))
      where
        next :
            (is : List OrderIntent)
            → ((j : OrderIntent)
                → EngineKeeps {B = B} Q R (cancel_rest port (canceled ++ j ∷ []) is))
            → (outcome : Result EngineError OrderIntent)
            → EngineKeeps {B = B} Q R (elim outcome [
              | ok j ↦ cancel_rest port (canceled ++ j ∷ []) is
              | err e ↦ pure (canceled, some e)
            ])
        next is k (ok j) = k j
        next is k (err e) = EngineKeeps-pure _

    finish_cancel-EngineKeeps :
        (class_name : EngineError → String) (id reason actor : String) (total : ℕ)
        (p : List OrderIntent × Option EngineError)
        → EngineKeeps {B = B} Q R (finish_cancel port class_name id reason actor total p)
    unfolding finish_cancel
    finish_cancel-EngineKeeps class_name id reason actor total (canceled, none) =
        search (engine_keeps, record_command-EngineKeeps) depth 12
    finish_cancel-EngineKeeps class_name id reason actor total (canceled, some e) =
        search (engine_keeps, record_failed-EngineKeeps) depth 12

    cancel_open_orders-EngineKeeps :
        (class_name : EngineError → String) (id reason actor : String)
        → EngineKeeps {B = B} Q R (cancel_open_orders port class_name id reason actor)
    unfolding cancel_open_orders cancel_candidates
    cancel_open_orders-EngineKeeps class_name id reason actor =
        search (engine_keeps, cancel_rest-EngineKeeps, finish_cancel-EngineKeeps) depth 16

  -- A cancellation of all live orders makes no submission, and entries that are paused in the transaction
  -- and durably stay so, whichever calls fail and whatever the broker answers.
  pub cancel_open_orders-IsPaused :
      (class_name : EngineError → String) (id reason actor : String) (w : EngineWorld B)
      → Both IsPaused w.store
      → Both IsPaused (cancel_open_orders port class_name id reason actor w).1.store
        × ((cancel_open_orders port class_name id reason actor w).1.submissions ≡ w.submissions)
  cancel_open_orders-IsPaused class_name id reason actor w paused =
      let after =
        (cancel_open_orders-EngineKeeps {R = λ l. l ≡ w.submissions} IsPaused-steps class_name id
            reason actor).at
          w (record { tables = paused; made = refl }) in
      (after.tables, after.made)
