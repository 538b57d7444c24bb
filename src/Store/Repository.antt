-- ===== src/Store/Repository.antt =====
-- The repository calls (tests/fakes/orders.py, tests/fakes/control.py), with the guards of the
-- database.
use seven_lens_paper_trading.Prelude.{
  ℕ, ◌+◌, String, Bool, true, false, not, ◌&&◌, Option, none, some, List, [], ◌∷◌, ◌++◌, ltb, ◌==◌,
  elem, if◌then◌else◌,
}
use seven_lens_paper_trading.Prelude.Text.{str_eq, str_leb}
use seven_lens_paper_trading.Prelude.Sorting.{sorted}
use seven_lens_paper_trading.Prelude.Dict.{Dict, lookup, insert}
use seven_lens_paper_trading.Prelude.Result.{Result, ok, err}
use seven_lens_paper_trading.Orders.Status.{
  OrderStatus, same_status, same_side, order_transition_allowed,
}
use seven_lens_paper_trading.Orders.BrokerStatus.{
  BrokerOrderStatus, filled, same_broker_status, broker_order_transition_allowed,
}
use seven_lens_paper_trading.Orders.Mirror.{BrokerOrder, Fill}
use seven_lens_paper_trading.Orders.Intent.{OrderIntent}
use seven_lens_paper_trading.Store.Monad.{
  CommandRecord, ControlCommand, Tables, Exn, other_exception, M, call, paused_with,
}

abbrev pub Step : Type 0 → Type 0
Step A = Tables → Result Exn A × Tables

-- `get`
unfoldable pub get_intent : String → M (Option OrderIntent)
get_intent client_order_id = call (λ t. (ok (lookup client_order_id t.orders.intents), t))

abbrev with_intent : OrderIntent → Tables → Tables
with_intent i t = record t {
  orders = record t.orders { intents = insert i.client_order_id i t.orders.intents };
}

-- `transition_status`
unfoldable pub transition_step : String → OrderStatus → Step OrderIntent
transition_step client_order_id target t = elim (lookup client_order_id t.orders.intents) [
  | none ↦ (err other_exception, t)
  | some current ↦
      if same_status current.status target
      then (ok current, t)
      else if order_transition_allowed current.status target
      then (
        ok (record current { status = target }),
        record t {
          orders = record t.orders {
            intents = insert client_order_id (record current { status = target }) t.orders.intents;
          };
        },
      )
      else (err other_exception, t)
]

unfoldable pub transition_status : String → OrderStatus → M OrderIntent
transition_status client_order_id target = call (transition_step client_order_id target)

-- `get_broker_order_by_id`
unfoldable pub get_broker_order_by_id : String → M (Option BrokerOrder)
get_broker_order_by_id id = call (λ t. (ok (lookup id t.orders.mirrors), t))

abbrev pub mirror_of : Dict BrokerOrder → Option String → Result Exn (Option BrokerOrder)
mirror_of mirrors none = ok none
mirror_of mirrors (some id) = elim (lookup id mirrors) [
  | none ↦ err other_exception
  | some mirror ↦ ok (some mirror)
]

-- `get_broker_order`; a dangling reference is a `KeyError`
unfoldable pub get_broker_order : String → M (Option BrokerOrder)
get_broker_order client_order_id =
    call (λ t. (mirror_of t.orders.mirrors (lookup client_order_id t.orders.mirror_by_client), t))

-- `list_by_status`, in the order of the client order ids
abbrev pub intent_leb : String × OrderIntent → String × OrderIntent → Bool
intent_leb a b = str_leb a.0 b.0

unfoldable pub with_status : OrderStatus → Dict OrderIntent → List OrderIntent
with_status status [] = []
with_status status ((id, intent) ∷ d) =
    let rest = with_status status d in
    if same_status intent.status status then intent ∷ rest else rest

unfoldable pub list_by_status : OrderStatus → M (List OrderIntent)
unfolding with_status
list_by_status status =
    call (λ t. (ok (with_status status (sorted intent_leb t.orders.intents)), t))

-- The result of `record_broker_order`: an identity conflict is an exception of its own.
pub data Recorded : Type 0 where
  recorded : BrokerOrder → Recorded
  identity_conflict : Recorded

-- the identity fields of a mirror
unfoldable pub same_identity : BrokerOrder → BrokerOrder → Bool
same_identity a b =
    str_eq a.client_order_id b.client_order_id
    && str_eq a.symbol b.symbol
    && same_side a.side b.side
    && a.quantity.value == b.quantity.value
    && a.limit_price.cents == b.limit_price.cents
    && a.submitted_at == b.submitted_at

-- The mirror that takes the place of an existing one, or an exception.
unfoldable pub rerecorded : BrokerOrder → BrokerOrder → Option BrokerOrder
rerecorded existing order =
    if not (same_broker_status existing.status order.status)
      && not (broker_order_transition_allowed existing.status order.status)
    then none
    else if ltb order.updated_at existing.updated_at
    then none
    else if ltb order.filled_quantity existing.filled_quantity
    then none
    else if same_broker_status order.status filled
        && not (order.filled_quantity == order.quantity.value)
    then none
    else if ltb existing.quantity.value order.filled_quantity
    then none
    else some (record existing {
      status = order.status;
      filled_quantity = order.filled_quantity;
      updated_at = order.updated_at;
    })

-- `record_broker_order`
unfoldable pub record_step : BrokerOrder → Step Recorded
record_step order t = elim (lookup order.broker_order_id t.orders.mirrors) [
  | some existing ↦
      if not (same_identity existing order)
      then (ok identity_conflict, t)
      else elim (rerecorded existing order) [
        | none ↦ (err other_exception, t)
        | some updated ↦ (
          ok (recorded updated),
          record t {
            orders = record t.orders {
              mirrors = insert order.broker_order_id updated t.orders.mirrors;
            };
          },
        )
      ]
  | none ↦
      if same_broker_status order.status filled
        && not (order.filled_quantity == order.quantity.value)
      then (err other_exception, t)
      else (
        ok (recorded order),
        record t {
          orders = record t.orders {
            mirrors = insert order.broker_order_id order t.orders.mirrors;
            mirror_by_client =
                insert order.client_order_id order.broker_order_id t.orders.mirror_by_client;
          };
        },
      )
]

unfoldable pub record_broker_order : BrokerOrder → M Recorded
record_broker_order order = call (record_step order)

-- `add_fill`
unfoldable pub add_fill_step : Fill → Step Bool
add_fill_step fill t =
    if elem str_eq fill.execution_id t.orders.execution_ids then (ok false, t) else (
      ok true,
      record t {
        orders = record t.orders {
          fills = t.orders.fills ++ fill ∷ [];
          execution_ids = fill.execution_id ∷ t.orders.execution_ids;
        };
      },
    )

unfoldable pub add_fill : Fill → M Bool
add_fill fill = call (add_fill_step fill)

unfoldable pub find_fill : String → List Fill → Option Fill
find_fill id [] = none
find_fill id (f ∷ fs) = if str_eq f.execution_id id then some f else find_fill id fs

-- `get_fill_by_execution_id`
unfoldable pub get_fill_by_execution_id : String → M (Option Fill)
get_fill_by_execution_id id = call (λ t. (ok (find_fill id t.orders.fills), t))

unfoldable pub fills_of : String → List Fill → List Fill
fills_of id [] = []
fills_of id (f ∷ fs) =
    let rest = fills_of id fs in if str_eq f.broker_order_id id then f ∷ rest else rest

-- `list_fills`
unfoldable pub list_fills : String → M (List Fill)
list_fills id = call (λ t. (ok (fills_of id t.orders.fills), t))

-- The new mirror of `update_broker_order_status`, or its exception. With no broker time the record's
-- clock advances by a microsecond.
unfoldable pub refreshed : BrokerOrder → BrokerOrderStatus → ℕ → Option ℕ → Option BrokerOrder
refreshed existing status filled_quantity broker_observed_at =
    if not (same_broker_status existing.status status)
      && not (broker_order_transition_allowed existing.status status)
    then none
    else if ltb filled_quantity existing.filled_quantity
    then none
    else if same_broker_status status filled && not (filled_quantity == existing.quantity.value)
    then none
    else if elim broker_observed_at [ none ↦ false | some at ↦ ltb at existing.updated_at ]
    then none
    else if ltb existing.quantity.value filled_quantity
    then none
    else some (record existing {
      status = status;
      filled_quantity = filled_quantity;
      updated_at = elim broker_observed_at [ none ↦ existing.updated_at + 1 | some at ↦ at ];
    })

-- `update_broker_order_status`
unfoldable pub update_step : String → BrokerOrderStatus → ℕ → Option ℕ → Step BrokerOrder
update_step id status filled_quantity broker_observed_at t = elim (lookup id t.orders.mirrors) [
  | none ↦ (err other_exception, t)
  | some existing ↦ elim (refreshed existing status filled_quantity broker_observed_at) [
    | none ↦ (err other_exception, t)
    | some updated ↦ (
      ok updated,
      record t { orders = record t.orders { mirrors = insert id updated t.orders.mirrors } },
    )
  ]
]

unfoldable pub update_broker_order_status :
    String → BrokerOrderStatus → ℕ → Option ℕ → M BrokerOrder
update_broker_order_status id status filled_quantity broker_observed_at =
    call (update_step id status filled_quantity broker_observed_at)

-- `control.set_entries_paused(True, reason)`
unfoldable pub pause_entries_with : String → M (Unit {0})
pause_entries_with reason = call (λ t. (ok tt, record t { control = paused_with reason t.control }))

-- `control.state().updated_at`
unfoldable pub control_updated_at : M ℕ
control_updated_at = call (λ t. (ok t.control.updated_at, t))

-- `control.state().entries_paused`, and the same under `submission_guard`
unfoldable pub entries_paused_now : M Bool
entries_paused_now = call (λ t. (ok t.control.entries_paused, t))

abbrev same_command : ControlCommand → ControlCommand → Bool
same_command ControlCommand.pause_entries ControlCommand.pause_entries = true
same_command ControlCommand.resume_entries ControlCommand.resume_entries = true
same_command ControlCommand.cancel_open_orders ControlCommand.cancel_open_orders = true
same_command ControlCommand.flatten_paper ControlCommand.flatten_paper = true
same_command _ _ = false

abbrev same_option : Option String → Option String → Bool
same_option none none = true
same_option (some a) (some b) = str_eq a b
same_option _ _ = false

-- The log after `add_command`: an exact replay is a no-op, a conflicting one raises.
unfoldable pub logged : CommandRecord → List CommandRecord → Option (List CommandRecord)
logged c [] = some (c ∷ [])
logged c (x ∷ xs) =
    let rest = logged c xs in
    if not (str_eq x.command_id c.command_id)
    then elim rest [ none ↦ none | some l ↦ some (x ∷ l) ]
    else if same_command x.command c.command
        && str_eq x.reason c.reason
        && str_eq x.actor c.actor
        && same_option x.run_id c.run_id
    then some (x ∷ xs)
    else none

unfoldable pub add_command_step : CommandRecord → Step (Unit {0})
add_command_step c t = elim (logged c t.control.commands) [
  | none ↦ (err other_exception, t)
  | some l ↦ (ok tt, record t { control = record t.control { commands = l } })
]

-- `control.add_command`
unfoldable pub add_command : CommandRecord → M (Unit {0})
add_command c = call (add_command_step c)
