-- ===== src/Engine/Methods.antt =====
-- Every method of the engine keeps what the unit of work's writes keep, whatever the broker answers
-- and however the calls fail; `entry` says so of the submission under the guard.
use seven_lens_paper_trading.Prelude.{ℕ, String, Bool, Option, none, some, List, [], ◌∷◌}
use seven_lens_paper_trading.Store.Monad.{Tables}
use seven_lens_paper_trading.Store.Keeps.{StepsKeep}
use seven_lens_paper_trading.Orders.Intent.{OrderIntent}
use seven_lens_paper_trading.Orders.Mirror.{BrokerOrder}
use seven_lens_paper_trading.Orders.Status.{OrderStatus}
use seven_lens_paper_trading.Prelude.Dict.{Dict}
use seven_lens_paper_trading.Engine.Keeps.{EngineKeeps, EngineKeeps-pure, EngineKeeps-bind}
use seven_lens_paper_trading.Engine.Port.{
  Port, EngineError, broker_transport, execution_state_error, broker_mirror_mismatch,
}
use seven_lens_paper_trading.Engine.Monad.{Submission}
use seven_lens_paper_trading.Prelude.Result.{Result, ok, err}
use seven_lens_paper_trading.Engine.Submit.{
  complete_submission, enter_guarded, reserve, resolve, resolve_absent, resolve_with,
  submit_from_outbox,
}
use seven_lens_paper_trading.Engine.Sweep.{
  after_cancel, cancel_each, cancel_one, cancel_status, expire_each, expire_one, expire_overdue,
  expire_status, finish_sweep, recover, recover_each, resolve_each, resolve_one, resolve_status,
}
use seven_lens_paper_trading.Engine.Steps.{
  engine_keeps, after_entry-EngineKeeps, assert_asset_tradable-EngineKeeps,
  assert_entries_allowed-EngineKeeps, assert_mirror_matches-EngineKeeps, close_window-EngineKeeps,
  record_accepted-EngineKeeps, request_cancel-EngineKeeps, require_intent-EngineKeeps,
}

module _ {B : Type 0} {Q : Tables → Type 0} {R : List Submission → Type 0} (port : Port B)
    (s : StepsKeep Q)
    (entry : (i : OrderIntent) → EngineKeeps {B = B} Q R (enter_guarded port i)) where
  complete_submission-EngineKeeps :
      (i : OrderIntent) → EngineKeeps {B = B} Q R (complete_submission port i)
  unfolding complete_submission
  complete_submission-EngineKeeps i =
      search (engine_keeps, entry, after_entry-EngineKeeps port s) depth 10

  reserve-EngineKeeps :
      (b : Bool) (id : String) (i : OrderIntent) → EngineKeeps {B = B} Q R (reserve port b id i)
  unfolding reserve
  reserve-EngineKeeps b id i =
      search
        (
          engine_keeps,
          assert_entries_allowed-EngineKeeps port s,
          assert_asset_tradable-EngineKeeps port s,
          complete_submission-EngineKeeps,
        )
        depth 16

  pub submit_from_outbox-EngineKeeps :
      (b : Bool) (id : String) → EngineKeeps {B = B} Q R (submit_from_outbox port b id)
  unfolding submit_from_outbox
  submit_from_outbox-EngineKeeps b id =
      search (engine_keeps, require_intent-EngineKeeps port s, reserve-EngineKeeps) depth 10

  resolve_absent-EngineKeeps :
      (id : String) (i : OrderIntent) → EngineKeeps {B = B} Q R (resolve_absent port id i)
  unfolding resolve_absent
  resolve_absent-EngineKeeps id i =
      search (engine_keeps, close_window-EngineKeeps port s, complete_submission-EngineKeeps) depth
        10

  resolve_with-EngineKeeps :
      (id : String) (i : OrderIntent) (o : Option BrokerOrder)
      → EngineKeeps {B = B} Q R (resolve_with port id i o)
  unfolding resolve_with
  resolve_with-EngineKeeps id i none = resolve_absent-EngineKeeps id i
  resolve_with-EngineKeeps id i (some o) =
      search
        (engine_keeps, assert_mirror_matches-EngineKeeps port s, record_accepted-EngineKeeps port s)
        depth 10

  pub resolve-EngineKeeps : (id : String) → EngineKeeps {B = B} Q R (resolve port id)
  unfolding resolve
  resolve-EngineKeeps id =
      search (engine_keeps, require_intent-EngineKeeps port s, resolve_with-EngineKeeps) depth 14

  resolve_one-EngineKeeps :
      (n : ℕ) (d : Dict OrderIntent) (i : OrderIntent)
      → EngineKeeps {B = B} Q R (resolve_one port n d i)
  unfolding resolve_one
  resolve_one-EngineKeeps n d i = search (engine_keeps, resolve-EngineKeeps) depth 10

  resolve_each-EngineKeeps :
      (n : ℕ) (d : Dict OrderIntent) (l : List OrderIntent)
      → EngineKeeps {B = B} Q R (resolve_each port n d l)
  unfolding resolve_each
  resolve_each-EngineKeeps n d [] = search (engine_keeps) depth 10
  resolve_each-EngineKeeps n d (i ∷ l) =
      EngineKeeps-bind _ _ (resolve_one-EngineKeeps n d i) (λ x. resolve_each-EngineKeeps n x l)

  expire_one-EngineKeeps :
      (n : ℕ) (d : Dict OrderIntent) (i : OrderIntent)
      → EngineKeeps {B = B} Q R (expire_one port n d i)
  unfolding expire_one
  expire_one-EngineKeeps n d i = search (engine_keeps) depth 10

  expire_each-EngineKeeps :
      (n : ℕ) (d : Dict OrderIntent) (l : List OrderIntent)
      → EngineKeeps {B = B} Q R (expire_each port n d l)
  unfolding expire_each
  expire_each-EngineKeeps n d [] = search (engine_keeps) depth 10
  expire_each-EngineKeeps n d (i ∷ l) =
      EngineKeeps-bind _ _ (expire_one-EngineKeeps n d i) (λ x. expire_each-EngineKeeps n x l)

  after_cancel-EngineKeeps :
      (d : Dict OrderIntent) (i : OrderIntent) (r : Result EngineError OrderIntent)
      → EngineKeeps {B = B} Q R (after_cancel port d i r)
  unfolding after_cancel
  after_cancel-EngineKeeps d i (ok x) = search (engine_keeps) depth 10
  after_cancel-EngineKeeps d i (err broker_transport) = search (engine_keeps) depth 10
  after_cancel-EngineKeeps d i (err execution_state_error) = search (engine_keeps) depth 10
  after_cancel-EngineKeeps d i (err broker_mirror_mismatch) = search (engine_keeps) depth 10
  after_cancel-EngineKeeps d i (err e) = search (engine_keeps) depth 10

  cancel_one-EngineKeeps :
      (n : ℕ) (c : Dict OrderIntent × List String) (i : OrderIntent)
      → EngineKeeps {B = B} Q R (cancel_one port n c i)
  unfolding cancel_one
  cancel_one-EngineKeeps n (d, h) i =
      search (engine_keeps, request_cancel-EngineKeeps port s, after_cancel-EngineKeeps) depth 14

  cancel_each-EngineKeeps :
      (n : ℕ) (c : Dict OrderIntent × List String) (l : List OrderIntent)
      → EngineKeeps {B = B} Q R (cancel_each port n c l)
  unfolding cancel_each
  cancel_each-EngineKeeps n c [] = search (engine_keeps) depth 10
  cancel_each-EngineKeeps n c (i ∷ l) =
      EngineKeeps-bind _ _ (cancel_one-EngineKeeps n c i) (λ x. cancel_each-EngineKeeps n x l)

  resolve_status-EngineKeeps :
      (n : ℕ) (d : Dict OrderIntent) (t : OrderStatus)
      → EngineKeeps {B = B} Q R (resolve_status port n d t)
  unfolding resolve_status
  resolve_status-EngineKeeps n d t = search (engine_keeps, resolve_each-EngineKeeps) depth 10

  expire_status-EngineKeeps :
      (n : ℕ) (d : Dict OrderIntent) (t : OrderStatus)
      → EngineKeeps {B = B} Q R (expire_status port n d t)
  unfolding expire_status
  expire_status-EngineKeeps n d t = search (engine_keeps, expire_each-EngineKeeps) depth 10

  cancel_status-EngineKeeps :
      (n : ℕ) (c : Dict OrderIntent × List String) (t : OrderStatus)
      → EngineKeeps {B = B} Q R (cancel_status port n c t)
  unfolding cancel_status
  cancel_status-EngineKeeps n c t = search (engine_keeps, cancel_each-EngineKeeps) depth 10

  finish_sweep-EngineKeeps : (d : Dict OrderIntent) → EngineKeeps {B = B} Q R (finish_sweep port d)
  unfolding finish_sweep
  finish_sweep-EngineKeeps [] = search (engine_keeps) depth 10
  finish_sweep-EngineKeeps (x ∷ d) = search (engine_keeps) depth 10

  pub expire_overdue-EngineKeeps : EngineKeeps {B = B} Q R (expire_overdue port)
  unfolding expire_overdue
  expire_overdue-EngineKeeps =
      search
        (
          engine_keeps, resolve_status-EngineKeeps, expire_status-EngineKeeps,
          cancel_status-EngineKeeps, finish_sweep-EngineKeeps,
        )
        depth 24

  recover_each-EngineKeeps : (l : List OrderIntent) → EngineKeeps {B = B} Q R (recover_each port l)
  unfolding recover_each
  recover_each-EngineKeeps [] = search (engine_keeps) depth 10
  recover_each-EngineKeeps (i ∷ l) =
      EngineKeeps-bind _ _ (resolve-EngineKeeps i.client_order_id)
        (λ x. EngineKeeps-bind _ _ (recover_each-EngineKeeps l) (λ r. EngineKeeps-pure _))

  pub recover-EngineKeeps : EngineKeeps {B = B} Q R (recover port)
  unfolding recover
  recover-EngineKeeps = search (engine_keeps, recover_each-EngineKeeps) depth 14
