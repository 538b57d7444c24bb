-- ===== src/TradeUpdates/Progress.antt =====
-- The broker mirrors and the order intents only move forward, whichever calls fail.
use mathlib.Core.Path.{subst}
use seven_lens_paper_trading.Prelude.{
  none, not, ◌&&◌, ◌==◌, ℕ, ◌≤◌, ◌≡◌, refl, sym, ap, ◌∙◌, String, true, inl, inr, ◌⊎◌, Option, some,
  arith, Bool-cases, Option-cases,
}
use seven_lens_paper_trading.Prelude.Text.{str_eq, eq_iff}
use seven_lens_paper_trading.Prelude.Dict.{Dict, lookup, insert, lookup-insert}
use seven_lens_paper_trading.Orders.Status.{OrderStatus}
use seven_lens_paper_trading.Orders.BrokerStatus.{
  BrokerOrderStatus, filled, same_broker_status, same_broker_status_iff,
  broker_order_transition_allowed,
}
use seven_lens_paper_trading.Orders.Mirror.{BrokerOrder, Fill}
use seven_lens_paper_trading.Store.Monad.{OrderTables, Tables, World}
use seven_lens_paper_trading.Store.Repository.{
  record_step, rerecorded, same_identity, transition_step, add_fill_step, update_step, refreshed,
}
use seven_lens_paper_trading.Store.Keeps.{Both, StepsKeep}
use seven_lens_paper_trading.TradeUpdates.Keeps.{apply-Keeps}
use seven_lens_paper_trading.TradeUpdates.Safety.{orders-add_command_step}
use seven_lens_paper_trading.TradeUpdates.{TradeUpdate, apply}

-- A history of permitted broker statuses.
pub data BrokerHistory : BrokerOrderStatus → BrokerOrderStatus → Type 0 where
  same : {s : BrokerOrderStatus} → BrokerHistory s s
  next :
      {s t u : BrokerOrderStatus}
      → BrokerHistory s t
      → broker_order_transition_allowed t u ≡ true
      → BrokerHistory s u

-- How a mirror may differ from an earlier one of the same order.
pub record Advanced (a b : BrokerOrder) : Type 0 where
  pub identity :
      record b { status = a.status; filled_quantity = a.filled_quantity; updated_at = a.updated_at }
      ≡ a
  pub history : BrokerHistory a.status b.status
  pub filled_grows : a.filled_quantity ≤ b.filled_quantity
  pub within : b.filled_quantity ≤ b.quantity.value
  pub clock_grows : a.updated_at ≤ b.updated_at
  pub exactly_filled : b.status ≡ filled → b.filled_quantity ≡ b.quantity.value

-- What one write of a mirror may change.
record Renewed (a b : BrokerOrder) : Type 0 where
  identity :
      record b { status = a.status; filled_quantity = a.filled_quantity; updated_at = a.updated_at }
      ≡ a
  move :
      (same_broker_status a.status b.status ≡ true)
      ⊎ (broker_order_transition_allowed a.status b.status ≡ true)
  filled_grows : a.filled_quantity ≤ b.filled_quantity
  within : b.filled_quantity ≤ b.quantity.value
  clock_grows : a.updated_at ≤ b.updated_at
  exactly_filled : same_broker_status b.status filled ≡ true → b.filled_quantity ≡ b.quantity.value

refreshed-Renewed :
    (a b : BrokerOrder) (s : BrokerOrderStatus) (n : ℕ) (at : Option ℕ)
    → refreshed a s n at ≡ some b
    → Renewed a b
unfolding refreshed
refreshed-Renewed a b s n at h = record {
  identity = ground arith;
  move = ground arith;
  filled_grows = ground arith;
  within = ground arith;
  clock_grows = ground arith;
  exactly_filled = ground arith;
}

rerecorded-Renewed :
    (a b o : BrokerOrder) → same_identity a o ≡ true → rerecorded a o ≡ some b → Renewed a b
unfolding rerecorded same_identity
rerecorded-Renewed a b o same_one h = record {
  identity = ground arith;
  move = ground arith;
  filled_grows = ground arith;
  within = ground arith;
  clock_grows = ground arith;
  exactly_filled = ground arith;
}

Renewed-Advanced : (a b c : BrokerOrder) → Renewed b c → Advanced a b → Advanced a c
Renewed-Advanced a b c r v = record {
  identity = cc (r.identity, v.identity);
  history = elim r.move [
    | inl stay ↦
        subst (λ x. BrokerHistory a.status x) ((same_broker_status_iff b.status c.status).0 stay)
          v.history
    | inr go ↦ next v.history go
  ];
  filled_grows = omega (arith, v.filled_grows, r.filled_grows);
  within = r.within;
  clock_grows = omega (arith, v.clock_grows, r.clock_grows);
  exactly_filled = λ e. r.exactly_filled ((same_broker_status_iff c.status filled).1 e);
}

-- The mirror under an id, which has advanced from an earlier one.
pub record HasMirror (id : String) (a : BrokerOrder) (t : Tables) : Type 0 where
  pub mirror : BrokerOrder
  pub found : lookup id t.orders.mirrors ≡ some mirror
  pub advanced : Advanced a mirror

mirrors-transition_step :
    (id : String) (target : OrderStatus) (t : Tables)
    → (transition_step id target t).1.orders.mirrors ≡ t.orders.mirrors
unfolding transition_step
mirrors-transition_step id target t = ground arith

mirrors-add_fill_step :
    (f : Fill) (t : Tables) → (add_fill_step f t).1.orders.mirrors ≡ t.orders.mirrors
unfolding add_fill_step
mirrors-add_fill_step f t = ground arith

module _ (id : String) (a : BrokerOrder) where
  mirror_same :
      {t u : Tables} → u.orders.mirrors ≡ t.orders.mirrors → HasMirror id a t → HasMirror id a u
  mirror_same e h = record {
    mirror = h.mirror;
    found = ap (λ (d : Dict BrokerOrder). lookup id d) e ∙ h.found;
    advanced = h.advanced;
  }

  -- the tables after a refresh of a mirror that is there
  written : String → BrokerOrder → Tables → Tables
  written j c t = record t { orders = record t.orders { mirrors = insert j c t.orders.mirrors } }

  update_cases :
      (j : String) (s : BrokerOrderStatus) (n : ℕ) (at : Option ℕ) (t : Tables)
      → ((update_step j s n at t).1 ≡ t)
        ⊎ ((b : BrokerOrder) × (c : BrokerOrder) × (lookup j t.orders.mirrors ≡ some b)
            × (refreshed b s n at ≡ some c)
            × ((update_step j s n at t).1 ≡ written j c t))
  unfolding update_step written
  update_cases j s n at t = elim (Option-cases (lookup j t.orders.mirrors)) [
    | inl missing ↦ inl (ground arith)
    | inr (b, e) ↦ elim (Option-cases (refreshed b s n at)) [
      | inl refused ↦ inl (ground arith)
      | inr (c, e') ↦ inr (b, c, e, e', ground arith)
    ]
  ]

  written-HasMirror :
      (j : String) (b c : BrokerOrder) (t : Tables)
      → lookup j t.orders.mirrors ≡ some b
      → Renewed b c
      → HasMirror id a t
      → HasMirror id a (written j c t)
  unfolding written
  written-HasMirror j b c t found step h = elim (Bool-cases (str_eq j id)) [
    | inl same_id ↦
        let e = (eq_iff j id).0 same_id in
        let m : some h.mirror ≡ some b =
          sym h.found ∙ ap (λ k. lookup k t.orders.mirrors) (sym e) ∙ found in
        let m' : h.mirror ≡ b = cc in
        record {
          mirror = c;
          found = rw (lookup-insert, same_id) refl;
          advanced = Renewed-Advanced a b c step (subst (λ x. Advanced a x) m' h.advanced);
        }
    | inr differ ↦ record {
      mirror = h.mirror;
      found = rw (lookup-insert, differ) h.found;
      advanced = h.advanced;
    }
  ]

  -- the tables after a record of a mirror that was not there
  bound : BrokerOrder → Tables → Tables
  bound o t = record t {
    orders = record t.orders {
      mirrors = insert o.broker_order_id o t.orders.mirrors;
      mirror_by_client = insert o.client_order_id o.broker_order_id t.orders.mirror_by_client;
    };
  }

  record_cases :
      (o : BrokerOrder) (t : Tables)
      → ((record_step o t).1 ≡ t)
        ⊎ (((b : BrokerOrder) × (c : BrokerOrder) × (lookup o.broker_order_id t.orders.mirrors
                ≡ some b)
              × (same_identity b o ≡ true)
              × (rerecorded b o ≡ some c)
              × ((record_step o t).1 ≡ written o.broker_order_id c t))
            ⊎ ((lookup o.broker_order_id t.orders.mirrors ≡ none)
                × ((record_step o t).1 ≡ bound o t)))
  unfolding record_step written bound
  record_cases o t = elim (Option-cases (lookup o.broker_order_id t.orders.mirrors)) [
    | inl missing ↦
        elim (Bool-cases
          (same_broker_status o.status filled && not (o.filled_quantity == o.quantity.value))) [
            | inl bad ↦ inl (ground arith)
            | inr fits ↦ inr (inr (missing, ground arith))
          ]
    | inr (b, e) ↦ elim (Bool-cases (same_identity b o)) [
      | inr other ↦ inl (ground arith)
      | inl same_one ↦ elim (Option-cases (rerecorded b o)) [
        | inl refused ↦ inl (ground arith)
        | inr (c, e') ↦ inr (inl (b, c, e, same_one, e', ground arith))
      ]
    ]
  ]

  bound-HasMirror :
      (o : BrokerOrder) (t : Tables)
      → lookup o.broker_order_id t.orders.mirrors ≡ none
      → HasMirror id a t
      → HasMirror id a (bound o t)
  unfolding bound
  bound-HasMirror o t missing h = elim (Bool-cases (str_eq o.broker_order_id id)) [
    | inl same_id ↦
        let e = (eq_iff o.broker_order_id id).0 same_id in
        let m : some h.mirror ≡ none =
          sym h.found ∙ ap (λ k. lookup k t.orders.mirrors) (sym e) ∙ missing in
        cc
    | inr differ ↦ record {
      mirror = h.mirror;
      found = rw (lookup-insert, differ) h.found;
      advanced = h.advanced;
    }
  ]

  pub HasMirror-steps : StepsKeep (HasMirror id a)
  HasMirror-steps = record {
    pausing = λ reason t h. mirror_same refl h;
    moving = λ j target t h. mirror_same (mirrors-transition_step j target t) h;
    adding = λ f t h. mirror_same (mirrors-add_fill_step f t) h;
    refreshing = λ j s n at t h. elim (update_cases j s n at t) [
      | inl e ↦ subst (λ x. HasMirror id a x) (sym e) h
      | inr (b, c, found, step, e) ↦
          subst (λ x. HasMirror id a x) (sym e)
            (written-HasMirror j b c t found (refreshed-Renewed b c s n at step) h)
    ];
    recording = λ o t h. elim (record_cases o t) [
      | inl e ↦ subst (λ x. HasMirror id a x) (sym e) h
      | inr other ↦ elim other [
        | inl (b, c, found, same_one, step, e) ↦
            subst (λ x. HasMirror id a x) (sym e)
              (written-HasMirror o.broker_order_id b c t found
                (rerecorded-Renewed b c o same_one step) h)
        | inr (missing, e) ↦ subst (λ x. HasMirror id a x) (sym e) (bound-HasMirror o t missing h)
      ]
    ];
    logging =
        λ c t h. mirror_same (ap (λ (o : OrderTables). o.mirrors) (orders-add_command_step c t)) h;
  }

-- A mirror that has advanced from a given one, in the transaction and durably, still has after any
-- update, whichever calls fail: its identity never changes, its statuses follow the broker's map, its filled quantity and its
-- clock never go back, the quantity is never exceeded, and FILLED means exactly filled.
pub apply-HasMirror :
    (update : TradeUpdate) (id : String) (a : BrokerOrder) (w : World)
    → Both (HasMirror id a) w
    → Both (HasMirror id a) (apply update w).1
apply-HasMirror update id a w h = (apply-Keeps (HasMirror-steps id a) update).at w h
