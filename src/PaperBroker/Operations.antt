-- ===== src/PaperBroker/Operations.antt =====
-- Runs of the paper broker's methods from the state that `__init__` leaves.
use seven_lens_paper_trading.Prelude.{◌≤◌, ◌≡◌, sym, ap, ◌∙◌, String, some, List, [], ◌∷◌}
use seven_lens_paper_trading.Prelude.Dict.{lookup}
use seven_lens_paper_trading.Orders.BrokerStatus.{BrokerOrderStatus}
use seven_lens_paper_trading.Orders.Intent.{OrderIntent}
use seven_lens_paper_trading.PaperBroker.State.{FakeFillStep, OrderState, FakePaperBroker}
use seven_lens_paper_trading.PaperBroker.Submission.{submit_order}
use seven_lens_paper_trading.PaperBroker.Requests.{
  reveal_order, cancel_order, resolve_pending_cancel, apply_fill, expire_order, force_status,
}
use seven_lens_paper_trading.PaperBroker.Consistent.{executed}
use seven_lens_paper_trading.PaperBroker.Keeps.{
  IsConsistent, submit_order-IsConsistent, cancel_order-IsConsistent,
  resolve_pending_cancel-IsConsistent, apply_fill-IsConsistent, expire_order-IsConsistent,
  force_status-IsConsistent,
}

-- The methods that change the broker, with their arguments.
pub data Operation : Type 0 where
  submitting : OrderIntent → Operation
  revealing canceling finishing_cancel expiring : String → Operation
  filling : String → FakeFillStep → Operation
  forcing : String → BrokerOrderStatus → Operation

unfoldable pub after : Operation → FakePaperBroker → FakePaperBroker
after (submitting i) b = (submit_order i b).1
after (revealing c) b = (reveal_order c b).1
after (canceling id) b = (cancel_order id b).1
after (finishing_cancel id) b = (resolve_pending_cancel id b).1
after (expiring id) b = (expire_order id b).1
after (filling id step) b = (apply_fill id step b).1
after (forcing c status) b = (force_status c status b).1

after-IsConsistent :
    (o : Operation) (b : FakePaperBroker) → IsConsistent b → IsConsistent (after o b)
unfolding after reveal_order
after-IsConsistent (submitting i) b h = submit_order-IsConsistent i b h
after-IsConsistent (revealing c) b h = h
after-IsConsistent (canceling id) b h = cancel_order-IsConsistent id b h
after-IsConsistent (finishing_cancel id) b h = resolve_pending_cancel-IsConsistent id b h
after-IsConsistent (expiring id) b h = expire_order-IsConsistent id b h
after-IsConsistent (filling id step) b h = apply_fill-IsConsistent id step b h
after-IsConsistent (forcing c status) b h = force_status-IsConsistent c status b h

-- A run of methods, each of which may have raised.
unfoldable pub after_all : List Operation → FakePaperBroker → FakePaperBroker
after_all [] b = b
after_all (o ∷ os) b = after_all os (after o b)

after_all-IsConsistent :
    (os : List Operation) (b : FakePaperBroker) → IsConsistent b → IsConsistent (after_all os b)
unfolding after_all
after_all-IsConsistent [] b h = h
after_all-IsConsistent (o ∷ os) b h =
    after_all-IsConsistent os (after o b) (after-IsConsistent o b h)

-- `__init__`, with the arguments that `b` holds
unfoldable pub created : FakePaperBroker → FakePaperBroker
created b = record b { orders = []; by_client = []; submit_params = []; results = []; sequence = 0 }

created-IsConsistent : (b : FakePaperBroker) → IsConsistent (created b)
unfolding created lookup
created-IsConsistent b = record { entry = λ id state found. cc; held = λ c id found. cc }

-- In every state that the methods reach from a new broker, two stored orders of one client order id
-- are the same order.
pub one_order :
    (b : FakePaperBroker) (os : List Operation) (j k : String) (s t : OrderState)
    → lookup j (after_all os (created b)).orders ≡ some s
    → lookup k (after_all os (created b)).orders ≡ some t
    → s.order.client_order_id ≡ t.order.client_order_id
    → j ≡ k
one_order b os j k s t at_j at_k same =
    let h = after_all-IsConsistent os (created b) (created-IsConsistent b) in
    let ix = (after_all os (created b)).by_client in
    let e : some j ≡ some k =
      sym (h.entry j s at_j).indexed ∙ ap (λ c. lookup c ix) same ∙ (h.entry k t at_k).indexed in
    cc

-- In every state that the methods reach from a new broker, the executions of a stored order add up to
-- its filled quantity, which is at most its quantity, and its client order id is the one that the
-- broker answers for with this order.
pub order_executed :
    (b : FakePaperBroker) (os : List Operation) (id : String) (s : OrderState)
    → lookup id (after_all os (created b)).orders ≡ some s
    → (executed s.fills ≡ s.order.filled_quantity)
      × (s.order.filled_quantity ≤ s.order.quantity.value)
      × (lookup s.order.client_order_id (after_all os (created b)).by_client ≡ some id)
order_executed b os id s found =
    let e = (after_all-IsConsistent os (created b) (created-IsConsistent b)).entry id s found in
    (e.filled_up, e.within, e.indexed)
