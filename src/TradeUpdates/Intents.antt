-- ===== src/TradeUpdates/Intents.antt =====
-- Order intents only move along their lifecycle, whichever calls fail.
use mathlib.Core.Path.{subst}
use seven_lens_paper_trading.Prelude.{
  ℕ, ◌≡◌, refl, sym, ap, ◌∙◌, String, true, inl, inr, ◌⊎◌, Option, some, arith, Bool-cases,
  Option-cases,
}
use seven_lens_paper_trading.Prelude.Text.{str_eq, eq_iff}
use seven_lens_paper_trading.Prelude.Dict.{Dict, lookup, insert, lookup-insert}
use seven_lens_paper_trading.Orders.Status.{OrderStatus, same_status, order_transition_allowed}
use seven_lens_paper_trading.Orders.Status.Lifecycle.{History, here, then}
use seven_lens_paper_trading.Orders.BrokerStatus.{BrokerOrderStatus}
use seven_lens_paper_trading.Orders.Mirror.{BrokerOrder, Fill}
use seven_lens_paper_trading.Orders.Intent.{OrderIntent}
use seven_lens_paper_trading.Store.Monad.{OrderTables, Tables, World}
use seven_lens_paper_trading.Store.Repository.{
  record_step, transition_step, add_fill_step, update_step,
}
use seven_lens_paper_trading.Store.Keeps.{Both, StepsKeep}
use seven_lens_paper_trading.TradeUpdates.Keeps.{apply-Keeps}
use seven_lens_paper_trading.TradeUpdates.Safety.{orders-add_command_step}
use seven_lens_paper_trading.TradeUpdates.{TradeUpdate, apply}

History-last :
    {s t u : OrderStatus} → History s t → order_transition_allowed t u ≡ true → History s u
History-last here h = then h here
History-last (then k r) h = then k (History-last r h)

-- The intent under an id, which has come from an earlier one by permitted changes of its status alone.
pub record HasIntent (id : String) (a : OrderIntent) (t : Tables) : Type 0 where
  pub intent : OrderIntent
  pub found : lookup id t.orders.intents ≡ some intent
  pub history : History a.status intent.status
  pub identity : record intent { status = a.status } ≡ a

intents-add_fill_step :
    (f : Fill) (t : Tables) → (add_fill_step f t).1.orders.intents ≡ t.orders.intents
unfolding add_fill_step
intents-add_fill_step f t = ground arith

intents-update_step :
    (id : String) (s : BrokerOrderStatus) (n : ℕ) (at : Option ℕ) (t : Tables)
    → (update_step id s n at t).1.orders.intents ≡ t.orders.intents
unfolding update_step
intents-update_step id s n at t = ground arith

intents-record_step :
    (o : BrokerOrder) (t : Tables) → (record_step o t).1.orders.intents ≡ t.orders.intents
unfolding record_step
intents-record_step o t = ground arith

abbrev moved : String → OrderIntent → Tables → Tables
moved j c t = record t { orders = record t.orders { intents = insert j c t.orders.intents } }

transition_cases :
    (j : String) (target : OrderStatus) (t : Tables)
    → ((transition_step j target t).1 ≡ t)
      ⊎ ((b : OrderIntent) × (lookup j t.orders.intents ≡ some b)
          × (order_transition_allowed b.status target ≡ true)
          × ((transition_step j target t).1 ≡ moved j (record b { status = target }) t))
unfolding transition_step
transition_cases j target t = elim (Option-cases (lookup j t.orders.intents)) [
  | inl missing ↦ inl (ground arith)
  | inr (b, e) ↦ elim (Bool-cases (same_status b.status target)) [
    | inl same ↦ inl (ground arith)
    | inr differ ↦ elim (Bool-cases (order_transition_allowed b.status target)) [
      | inl allowed ↦ inr (b, e, allowed, ground arith)
      | inr refused ↦ inl (ground arith)
    ]
  ]
]

module _ (id : String) (a : OrderIntent) where
  intent_same :
      {t u : Tables} → u.orders.intents ≡ t.orders.intents → HasIntent id a t → HasIntent id a u
  intent_same e h = record {
    intent = h.intent;
    found = ap (λ (d : Dict OrderIntent). lookup id d) e ∙ h.found;
    history = h.history;
    identity = h.identity;
  }

  moved-HasIntent :
      (j : String) (b : OrderIntent) (target : OrderStatus) (t : Tables)
      → lookup j t.orders.intents ≡ some b
      → order_transition_allowed b.status target ≡ true
      → HasIntent id a t
      → HasIntent id a (moved j (record b { status = target }) t)
  moved-HasIntent j b target t found allowed h = elim (Bool-cases (str_eq j id)) [
    | inl same_id ↦
        let e = (eq_iff j id).0 same_id in
        let m : some h.intent ≡ some b =
          sym h.found ∙ ap (λ k. lookup k t.orders.intents) (sym e) ∙ found in
        let m' : h.intent ≡ b = cc in
        record {
          intent = record b { status = target };
          found = rw (lookup-insert, same_id) refl;
          history =
              History-last (subst (λ (x : OrderIntent). History a.status x.status) m' h.history)
                allowed;
          identity = subst (λ (x : OrderIntent). record x { status = a.status } ≡ a) m' h.identity;
        }
    | inr differ ↦ record {
      intent = h.intent;
      found = rw (lookup-insert, differ) h.found;
      history = h.history;
      identity = h.identity;
    }
  ]

  pub HasIntent-steps : StepsKeep (HasIntent id a)
  HasIntent-steps = record {
    pausing = λ reason t h. intent_same refl h;
    moving = λ j target t h. elim (transition_cases j target t) [
      | inl e ↦ subst (λ x. HasIntent id a x) (sym e) h
      | inr (b, found, allowed, e) ↦
          subst (λ x. HasIntent id a x) (sym e) (moved-HasIntent j b target t found allowed h)
    ];
    adding = λ f t h. intent_same (intents-add_fill_step f t) h;
    refreshing = λ j s n at t h. intent_same (intents-update_step j s n at t) h;
    recording = λ o t h. intent_same (intents-record_step o t) h;
    logging =
        λ c t h. intent_same (ap (λ (o : OrderTables). o.intents) (orders-add_command_step c t)) h;
  }

-- An order intent that has come from a given one along its lifecycle, in the transaction and durably,
-- still has after any update, whichever calls fail: its status changes by permitted transitions alone and nothing else of it
-- changes.
pub apply-HasIntent :
    (update : TradeUpdate) (id : String) (a : OrderIntent) (w : World)
    → Both (HasIntent id a) w
    → Both (HasIntent id a) (apply update w).1
apply-HasIntent update id a w h = (apply-Keeps (HasIntent-steps id a) update).at w h
