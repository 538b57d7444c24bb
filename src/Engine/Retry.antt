-- ===== src/Engine/Retry.antt =====
-- Without a control repository, an unknown outcome is settled by one more submission under the same id.
use seven_lens_paper_trading.Prelude.{
  leb, ◌≡◌, ap, ◌∙◌, String, true, false, not, ◌||◌, some, none, [], ◌∷◌, arith,
}
use seven_lens_paper_trading.Prelude.Result.{ok}
use seven_lens_paper_trading.Prelude.Dict.{lookup}
use seven_lens_paper_trading.Orders.Status.{unknown, submitting, same_status, same_status_iff}
use seven_lens_paper_trading.Orders.Intent.{OrderIntent}
use seven_lens_paper_trading.Store.Monad.{call}
use seven_lens_paper_trading.Store.Repository.{get_intent}
use seven_lens_paper_trading.Engine.Port.{Port}
use seven_lens_paper_trading.Engine.Monad.{
  EngineWorld, E, continue, ◌>>=◌, attempt, stored, asked, now, submitted,
}
use seven_lens_paper_trading.Engine.Pause.{is_risk_exit, required, require_intent}
use seven_lens_paper_trading.Engine.Submit.{
  after_submit, submit_while_guarded, enter_guarded, after_entry, complete_submission,
  resolve_absent, resolve_with, resolve,
}
use seven_lens_paper_trading.Engine.Steps.{after_submit-EngineKeeps, after_entry-EngineKeeps}
use seven_lens_paper_trading.Engine.Fires.{Anything-steps, kept-Silent, continue_silent}

-- the submissions of a bind whose first part has returned
bound :
    {B A C : Type 0} (m : E B A) (f : A → E B C) (w w' : EngineWorld B) (a : A)
    → m w ≡ (ok a, w')
    → ((m >>= f) w).1.submissions ≡ (f a w').1.submissions
unfolding ◌>>=◌
bound m f w w' a e = ap (λ p. (continue p.0 f p.1).1.submissions) e

module _ {B : Type 0} (port : Port B) (i : OrderIntent) where
  submits_once :
      (w : EngineWorld B)
      → (submit_while_guarded port i w).1.submissions
        ≡ record { intent = i; durable = w.store.durable } ∷ w.submissions
  unfolding submit_while_guarded ◌>>=◌ attempt submitted
  submits_once w =
      (kept-Silent (after_submit port i (port.submit_order i w.broker).0)
          (λ l. after_submit-EngineKeeps port Anything-steps i _)).silent
        _

  enters_once :
      (w : EngineWorld B)
      → port.has_control_repository ≡ false
      → (enter_guarded port i w).1.submissions
        ≡ record { intent = i; durable = w.store.durable } ∷ w.submissions
  unfolding enter_guarded
  enters_once w free =
      let unguarded : (is_risk_exit i.intent_type || not port.has_control_repository) ≡ true =
        ground (arith, free) in
      rw unguarded (submits_once w)

  completes_once :
      (w : EngineWorld B)
      → port.has_control_repository ≡ false
      → (complete_submission port i w).1.submissions
        ≡ record { intent = i; durable = w.store.durable } ∷ w.submissions
  unfolding complete_submission ◌>>=◌ attempt
  completes_once w free =
      continue_silent (after_entry port i)
        (λ r. kept-Silent _ (λ l. after_entry-EngineKeeps port Anything-steps i r))
        (attempt (enter_guarded port i) w)
      ∙ enters_once w free

  retries :
      (id : String) (w : EngineWorld B)
      → port.has_control_repository ≡ false
      → leb i.cancel_at (port.clock w.broker).0 ≡ false
      → (resolve_with port id i none w).1.submissions
        ≡ record { intent = i; durable = w.store.durable } ∷ w.submissions
  unfolding resolve_with resolve_absent ◌>>=◌ now
  retries id w free early =
      let later = record w { broker = (port.clock w.broker).1 } in
      rw early (completes_once later free)

  asks_again :
      (id : String) (w : EngineWorld B)
      → port.has_control_repository ≡ false
      → (port.get_order id w.broker).0 ≡ ok none
      → leb i.cancel_at (port.clock (port.get_order id w.broker).1).0 ≡ false
      → ((asked (port.get_order id) >>= λ o. resolve_with port id i o) w).1.submissions
        ≡ record { intent = i; durable = w.store.durable } ∷ w.submissions
  unfolding ◌>>=◌ asked
  asks_again id w free absent early =
      let later = record w { broker = (port.get_order id w.broker).1 } in
      rw absent (retries id later free early)

  requires_it :
      (id : String) (w : EngineWorld B)
      → lookup id w.store.working.orders.intents ≡ some i
      → w.store.faults ≡ []
      → require_intent {B = B} id w ≡ (ok i, record w { store = record w.store { faults = [] } })
  unfolding require_intent required get_intent ◌>>=◌ stored call
  requires_it id w found calm = ground arith

  -- Without a control repository, when all calls of the unit of work work, resolving an intent that is
  -- recorded as UNKNOWN and that the broker does not know makes exactly one more submission, of that
  -- intent, if its cancel window is still open.
  pub resolve_retries :
      (id : String) (w : EngineWorld B)
      → port.has_control_repository ≡ false
      → lookup id w.store.working.orders.intents ≡ some i
      → i.status ≡ unknown
      → w.store.faults ≡ []
      → (port.get_order id w.broker).0 ≡ ok none
      → leb i.cancel_at (port.clock (port.get_order id w.broker).1).0 ≡ false
      → (resolve port id w).1.submissions
        ≡ record { intent = i; durable = w.store.durable } ∷ w.submissions
  unfolding resolve
  resolve_retries id w free found lost calm absent early =
      let later = record w { store = record w.store { faults = [] } } in
      let settles : (not (same_status i.status submitting || same_status i.status unknown))
          ≡ false =
        ground (arith, (same_status_iff i.status unknown).1 lost) in
      bound (require_intent id) _ w later i (requires_it id w found calm)
      ∙ rw settles (asks_again id later free absent early)
