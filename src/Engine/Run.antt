-- ===== src/Engine/Run.antt =====
-- The public methods of the engine as one type, to speak about any of them.
use seven_lens_paper_trading.Prelude.{String, Bool, List, [], ◌∷◌}
use seven_lens_paper_trading.Orders.Intent.{OrderIntent}
use seven_lens_paper_trading.Store.Monad.{Tables}
use seven_lens_paper_trading.Store.Keeps.{StepsKeep}
use seven_lens_paper_trading.Engine.Port.{Port}
use seven_lens_paper_trading.Engine.Monad.{Submission, E, pure, ◌>>=◌}
use seven_lens_paper_trading.Engine.Refresh.{apply_fills, request_cancel}
use seven_lens_paper_trading.Engine.Submit.{enter_guarded, submit_from_outbox, resolve}
use seven_lens_paper_trading.Engine.Sweep.{expire_overdue, recover}
use seven_lens_paper_trading.Engine.Keeps.{EngineKeeps, EngineKeeps-pure, EngineKeeps-bind}
use seven_lens_paper_trading.Engine.Steps.{apply_fills-EngineKeeps, request_cancel-EngineKeeps}
use seven_lens_paper_trading.Engine.Methods.{
  submit_from_outbox-EngineKeeps, resolve-EngineKeeps, expire_overdue-EngineKeeps,
  recover-EngineKeeps,
}

-- The methods that take a unit of work, with their arguments.
pub data Method : Type 0 where
  submitting_from_outbox : Bool → String → Method
  resolving : String → Method
  applying_fills : String → Method
  requesting_cancel : String → Method
  expiring_overdue recovering : Method

module _ {B : Type 0} (port : Port B) where
  unfoldable pub run : Method → E B (List OrderIntent)
  run (submitting_from_outbox has_control id) = do
    i ← submit_from_outbox port has_control id
    pure (i ∷ [])
  run (resolving id) = do i ← resolve port id; pure (i ∷ [])
  run (applying_fills id) = do i ← apply_fills port id; pure (i ∷ [])
  run (requesting_cancel id) = do i ← request_cancel port id; pure (i ∷ [])
  run expiring_overdue = expire_overdue port
  run recovering = recover port

  module _ {Q : Tables → Type 0} {R : List Submission → Type 0} (s : StepsKeep Q)
      (entry : (i : OrderIntent) → EngineKeeps {B = B} Q R (enter_guarded port i)) where
    one_keeps :
        (m : E B OrderIntent) → EngineKeeps Q R m → EngineKeeps Q R (m >>= (λ i. pure (i ∷ [])))
    one_keeps m k = EngineKeeps-bind m _ k (λ i. EngineKeeps-pure _)

    pub run-EngineKeeps : (method : Method) → EngineKeeps {B = B} Q R (run method)
    unfolding run
    run-EngineKeeps (submitting_from_outbox b id) =
        one_keeps _ (submit_from_outbox-EngineKeeps port s entry b id)
    run-EngineKeeps (resolving id) = one_keeps _ (resolve-EngineKeeps port s entry id)
    run-EngineKeeps (applying_fills id) = one_keeps _ (apply_fills-EngineKeeps port s id)
    run-EngineKeeps (requesting_cancel id) = one_keeps _ (request_cancel-EngineKeeps port s id)
    run-EngineKeeps expiring_overdue = expire_overdue-EngineKeeps port s entry
    run-EngineKeeps recovering = recover-EngineKeeps port s entry
