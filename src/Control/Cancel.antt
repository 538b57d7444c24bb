-- ===== src/Control/Cancel.antt =====
-- The cancellation of all live orders (control_service.py, cancel_open_orders). `resume_blocked` is the
-- ControlPlaneError here too, and the class names of the exceptions are an argument.
use Prim.Native.Char.{code}
use Prim.Native.String.{◌++◌ as ◌+++◌}
use seven_lens_paper_trading.Prelude.{
  ℕ, String, ◌&&◌, Option, none, some, List, [], ◌∷◌, ◌++◌, map, length, if◌then◌else◌,
}
use seven_lens_paper_trading.Prelude.Text.{text_take}
use seven_lens_paper_trading.Prelude.Decimal.{numeral}
use seven_lens_paper_trading.Prelude.Result.{ok, err}
use seven_lens_paper_trading.Orders.Status.{acknowledged, partially_filled, cancel_pending}
use seven_lens_paper_trading.Orders.Mirror.{bounded_text, is_space, is_blank}
use seven_lens_paper_trading.Orders.Intent.{OrderIntent}
use seven_lens_paper_trading.Store.Monad.{ControlCommand, CommandRecord, commit}
use seven_lens_paper_trading.Store.Repository.{list_by_status, add_command}
use seven_lens_paper_trading.Engine.Port.{Port, EngineError, resume_blocked, value_error}
use seven_lens_paper_trading.Engine.Monad.{E, pure, raise, ◌>>=◌, ◌>>◌, attempt, stored, now}
use seven_lens_paper_trading.Engine.Refresh.{request_cancel}
use seven_lens_paper_trading.Control.{audit_row, record_command}

-- `value.strip()`, from the front and from the back
unfoldable pub lstrip : String → String
lstrip String.[] = ""
lstrip (String.◌∷◌ c s) = let rest = lstrip s in if is_space (code c) then rest else String.◌∷◌ c s

unfoldable pub rstrip : String → String
rstrip String.[] = ""
rstrip (String.◌∷◌ c s) =
    let rest = rstrip s in if is_space (code c) && is_blank s then "" else String.◌∷◌ c rest

-- `",".join(…)`
abbrev pub joined : List String → String
joined [] = ""
joined (id ∷ []) = id
joined (id ∷ next ∷ ids) = id +++ "," +++ joined (next ∷ ids)

abbrev pub ids_text : List String → String
ids_text [] = ""
ids_text ids = " completed_ids=" +++ joined ids

abbrev pub client_ids : List OrderIntent → List String
client_ids intents = map (λ (i : OrderIntent). i.client_order_id) intents

-- the reason of the audit row of a command that did not finish
unfoldable pub partial_failure :
    (EngineError → String) → ℕ → EngineError → List String → String → String
unfolding lstrip rstrip
partial_failure class_name total e ids reason = text_take 200 (
    "PARTIAL_FAILURE "
    +++ numeral 1 (length ids)
    +++ "/"
    +++ numeral 1 total
    +++ " "
    +++ class_name e
    +++ ids_text ids
    +++ "; "
    +++ rstrip (lstrip reason))

-- the audit row of a command that was not applied
abbrev pub failed_row : String → ControlCommand → String → String → ℕ → CommandRecord
failed_row id command reason actor at = record (audit_row id command reason actor at) {
  applied_at = none;
}

module _ {B : Type 0} (port : Port B) where
  -- `_record` of a command that was not applied
  unfoldable pub record_failed : String → ControlCommand → String → String → E B (Unit {0})
  record_failed id command reason actor = do
    at ← now port
    if bounded_text 200 reason && bounded_text 100 actor
        then stored (add_command (failed_row id command reason actor at))
        else raise value_error

  -- the intents that may have a live order
  unfoldable pub cancel_candidates : E B (List OrderIntent)
  cancel_candidates = do
    live ← stored (list_by_status acknowledged)
    part ← stored (list_by_status partially_filled)
    pending ← stored (list_by_status cancel_pending)
    pure (live ++ (part ++ pending))

  -- The loop, up to the first exception: what was canceled, and that exception.
  unfoldable pub cancel_rest :
      List OrderIntent → List OrderIntent → E B (List OrderIntent × Option EngineError)
  cancel_rest canceled [] = pure (canceled, none)
  cancel_rest canceled (i ∷ is) = attempt (request_cancel port i.client_order_id) >>= λ outcome.
      elim outcome [ ok j ↦ cancel_rest (canceled ++ j ∷ []) is | err e ↦ pure (canceled, some e) ]

  -- what follows the loop
  unfoldable pub finish_cancel :
      (EngineError → String)
      → String
      → String
      → String
      → ℕ
      → List OrderIntent × Option EngineError
      → E B (List OrderIntent)
  finish_cancel class_name id reason actor total (canceled, none) = do
    record_command port id ControlCommand.cancel_open_orders reason actor
    stored commit
    pure canceled
  finish_cancel class_name id reason actor total (canceled, some e) = do
    record_failed id ControlCommand.cancel_open_orders
        (partial_failure class_name total e (client_ids canceled) reason) actor
    stored commit
    raise resume_blocked

  -- `cancel_open_orders`
  unfoldable pub cancel_open_orders :
      (EngineError → String) → String → String → String → E B (List OrderIntent)
  cancel_open_orders class_name id reason actor = do
    candidates ← cancel_candidates
    outcome ← cancel_rest [] candidates
    finish_cancel class_name id reason actor (length candidates) outcome
