-- ===== src/Engine/Sweep.antt =====
-- The sweeps of the engine over all intents (execution_service.py: expire_overdue, recover). Logging is
-- left out.
use seven_lens_paper_trading.Prelude.{ℕ, String, Bool, leb, elem, List, [], ◌∷◌, if◌then◌else◌}
use seven_lens_paper_trading.Prelude.Text.{str_eq}
use seven_lens_paper_trading.Prelude.Dict.{Dict, insert}
use seven_lens_paper_trading.Prelude.Result.{Result, ok, err}
use seven_lens_paper_trading.Orders.Status.{
  OrderStatus, created, risk_approved, outbox_pending, submitting, unknown, acknowledged,
  partially_filled, cancel_pending, expired,
}
use seven_lens_paper_trading.Orders.Intent.{OrderIntent}
use seven_lens_paper_trading.Store.Monad.{commit}
use seven_lens_paper_trading.Store.Repository.{transition_status, list_by_status}
use seven_lens_paper_trading.Engine.Port.{
  Port, EngineError, execution_state_error, broker_mirror_mismatch, broker_transport,
}
use seven_lens_paper_trading.Engine.Monad.{E, pure, raise, ◌>>=◌, ◌>>◌, attempt, stored, now}
use seven_lens_paper_trading.Engine.Refresh.{request_cancel}
use seven_lens_paper_trading.Engine.Submit.{resolve}

-- `d.values()`
abbrev pub values : {V : Type 0} → Dict V → List V
values [] = []
values ((k, v) ∷ d) = v ∷ values d

abbrev pub overdue : ℕ → OrderIntent → Bool
overdue at intent = leb intent.cancel_at at

module _ {B : Type 0} (port : Port B) where
  -- ambiguous intents are resolved
  unfoldable pub resolve_one : ℕ → Dict OrderIntent → OrderIntent → E B (Dict OrderIntent)
  resolve_one at closed intent =
      if overdue at intent
      then (do
        resolved ← resolve port intent.client_order_id
        pure (insert resolved.client_order_id resolved closed))
      else pure closed

  unfoldable pub resolve_each : ℕ → Dict OrderIntent → List OrderIntent → E B (Dict OrderIntent)
  resolve_each at closed [] = pure closed
  resolve_each at closed (intent ∷ intents) = do
    closed' ← resolve_one at closed intent
    resolve_each at closed' intents

  -- intents that never reached the broker expire
  unfoldable pub expire_one : ℕ → Dict OrderIntent → OrderIntent → E B (Dict OrderIntent)
  expire_one at closed intent =
      if overdue at intent
      then (do
        gone ← stored (transition_status intent.client_order_id expired)
        pure (insert gone.client_order_id gone closed))
      else pure closed

  unfoldable pub expire_each : ℕ → Dict OrderIntent → List OrderIntent → E B (Dict OrderIntent)
  expire_each at closed [] = pure closed
  expire_each at closed (intent ∷ intents) = do
    closed' ← expire_one at closed intent
    expire_each at closed' intents

  -- the handlers around `request_cancel`
  unfoldable pub after_cancel :
      Dict OrderIntent → OrderIntent → Result EngineError OrderIntent → E B (Dict OrderIntent)
  after_cancel closed intent (ok result) = pure (insert result.client_order_id result closed)
  after_cancel closed intent (err broker_transport) = pure closed
  after_cancel closed intent (err execution_state_error) = pure closed
  after_cancel closed intent (err broker_mirror_mismatch) = pure closed
  after_cancel closed intent (err e) = raise e

  -- live intents are canceled, each once
  abbrev pub Cancels : Type 0
  Cancels = Dict OrderIntent × List String

  unfoldable pub cancel_one : ℕ → Cancels → OrderIntent → E B Cancels
  cancel_one at (closed, handled) intent =
      if elem str_eq intent.client_order_id handled
      then pure (closed, handled)
      else if overdue at intent
      then (do
        outcome ← attempt (request_cancel port intent.client_order_id)
        closed' ← after_cancel closed intent outcome
        pure (closed', intent.client_order_id ∷ handled))
      else pure (closed, intent.client_order_id ∷ handled)

  unfoldable pub cancel_each : ℕ → Cancels → List OrderIntent → E B Cancels
  cancel_each at state [] = pure state
  cancel_each at state (intent ∷ intents) = do
    state' ← cancel_one at state intent
    cancel_each at state' intents

  -- one round of each of the three loops over statuses
  unfoldable pub resolve_status : ℕ → Dict OrderIntent → OrderStatus → E B (Dict OrderIntent)
  resolve_status at closed status = do
    intents ← stored (list_by_status status)
    resolve_each at closed intents

  unfoldable pub expire_status : ℕ → Dict OrderIntent → OrderStatus → E B (Dict OrderIntent)
  expire_status at closed status = do
    intents ← stored (list_by_status status)
    expire_each at closed intents

  unfoldable pub cancel_status : ℕ → Cancels → OrderStatus → E B Cancels
  cancel_status at state status = do
    intents ← stored (list_by_status status)
    cancel_each at state intents

  -- `if closed_by_id: commit()`
  unfoldable pub finish_sweep : Dict OrderIntent → E B (List OrderIntent)
  finish_sweep [] = pure []
  finish_sweep (entry ∷ closed) = do stored commit; pure (values (entry ∷ closed))

  -- `expire_overdue`
  unfoldable pub expire_overdue : E B (List OrderIntent)
  expire_overdue = do
    at ← now port
    c1 ← resolve_status at [] submitting
    c2 ← resolve_status at c1 unknown
    c3 ← expire_status at c2 created
    c4 ← expire_status at c3 risk_approved
    c5 ← expire_status at c4 outbox_pending
    s1 ← cancel_status at (c5, []) acknowledged
    s2 ← cancel_status at s1 partially_filled
    s3 ← cancel_status at s2 cancel_pending
    finish_sweep s3.0

  -- `recover`
  unfoldable pub by_id : Dict OrderIntent → List OrderIntent → Dict OrderIntent
  by_id d [] = d
  by_id d (intent ∷ intents) = by_id (insert intent.client_order_id intent d) intents

  unfoldable pub recover_each : List OrderIntent → E B (List OrderIntent)
  recover_each [] = pure []
  recover_each (intent ∷ intents) = do
    resolved ← resolve port intent.client_order_id
    rest ← recover_each intents
    pure (resolved ∷ rest)

  unfoldable pub recover : E B (List OrderIntent)
  recover = do
    reserved ← stored (list_by_status submitting)
    lost ← stored (list_by_status unknown)
    recover_each (values (by_id (by_id [] reserved) lost))
