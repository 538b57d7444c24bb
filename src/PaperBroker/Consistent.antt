-- ===== src/PaperBroker/Consistent.antt =====
-- What the paper broker's tables say together: one order for each client order id, and an order is
-- filled by its executions.
use mathlib.Core.Path.{subst}
use seven_lens_paper_trading.Prelude.{
  ℕ, ◌+◌, ◌≤◌, ◌≡◌, ◌≢◌, refl, sym, ap, ◌∙◌, String, inl, inr, none, some, List, sum_by, arith,
  Bool-cases,
}
use seven_lens_paper_trading.Prelude.Text.{str_eq, eq_iff}
use seven_lens_paper_trading.Prelude.Dict.{
  Dict, lookup, insert, lookup-insert, lookup-insert_self, lookup-insert_ne, insert_cases,
}
use seven_lens_paper_trading.Orders.Mirror.{BrokerOrder, Fill}
use seven_lens_paper_trading.PaperBroker.State.{OrderState, SubmitParams}
use seven_lens_paper_trading.PaperBroker.Fills.{order_id, order_id_injective}

abbrev pub order_params : BrokerOrder → SubmitParams
order_params o = record {
  symbol = o.symbol;
  side = o.side;
  quantity = o.quantity;
  limit_price = o.limit_price;
}

-- the shares of the executions
abbrev pub executed : List Fill → ℕ
executed fills = sum_by (λ (f : Fill). f.quantity.value) fills

-- One stored order, in the tables of a broker.
pub record Entry (sequence : ℕ) (by_client : Dict String) (params : Dict SubmitParams) (id : String)
    (state : OrderState) : Type 0 where
  pub number : ℕ
  pub numbered : id ≡ order_id number
  pub given : number ≤ sequence
  pub own : state.order.broker_order_id ≡ id
  pub sent : lookup state.order.client_order_id params ≡ some (order_params state.order)
  pub indexed : lookup state.order.client_order_id by_client ≡ some id
  pub filled_up : executed state.fills ≡ state.order.filled_quantity
  pub within : state.order.filled_quantity ≤ state.order.quantity.value

-- The order that a client order id stands for.
pub record Holder (orders : Dict OrderState) (c id : String) : Type 0 where
  pub state : OrderState
  pub found : lookup id orders ≡ some state
  pub named : state.order.client_order_id ≡ c

pub record Consistent (sequence : ℕ) (orders : Dict OrderState) (by_client : Dict String)
    (params : Dict SubmitParams) : Type 0 where
  pub entry :
      (id : String) (state : OrderState)
      → lookup id orders ≡ some state
      → Entry sequence by_client params id state
  pub held : (c id : String) → lookup c by_client ≡ some id → Holder orders c id

-- How a state may change: its status, its clock and its executions.
pub record SameOrder (old new : OrderState) : Type 0 where
  pub own : new.order.broker_order_id ≡ old.order.broker_order_id
  pub client : new.order.client_order_id ≡ old.order.client_order_id
  pub params : order_params new.order ≡ order_params old.order
  pub filled_up : executed new.fills ≡ new.order.filled_quantity
  pub within : new.order.filled_quantity ≤ new.order.quantity.value

module _ {s : ℕ} {ix : Dict String} {ps : Dict SubmitParams} where
  Entry-later :
      {id : String} {state : OrderState} (s' : ℕ)
      → s ≤ s'
      → Entry s ix ps id state
      → Entry s' ix ps id state
  Entry-later s' le e = record {
    number = e.number;
    numbered = e.numbered;
    given = omega (arith, e.given);
    own = e.own;
    sent = e.sent;
    indexed = e.indexed;
    filled_up = e.filled_up;
    within = e.within;
  }

  changed-Entry :
      (id : String) (old new : OrderState)
      → SameOrder old new
      → Entry s ix ps id old
      → Entry s ix ps id new
  changed-Entry id old new same e = record {
    number = e.number;
    numbered = e.numbered;
    given = e.given;
    own = same.own ∙ e.own;
    sent = cc (e.sent, same.client, same.params);
    indexed = cc (e.indexed, same.client);
    filled_up = same.filled_up;
    within = same.within;
  }

module _ {s : ℕ} {orders : Dict OrderState} {ix : Dict String} {ps : Dict SubmitParams} where
  pub Consistent-later : (s' : ℕ) → s ≤ s' → Consistent s orders ix ps → Consistent s' orders ix ps
  Consistent-later s' le h = record {
    entry = λ id state found. Entry-later s' le (h.entry id state found);
    held = h.held;
  }

  pub changed-Consistent :
      (id : String) (old new : OrderState)
      → lookup id orders ≡ some old
      → SameOrder old new
      → Consistent s orders ix ps
      → Consistent s (insert id new orders) ix ps
  changed-Consistent id old new found same_order h = record {
    entry = λ j state seen. elim (insert_cases id j new state orders seen) [
      | inl (same, e) ↦
          subst (λ x. Entry s ix ps x state) same
            (subst (λ x. Entry s ix ps id x) e
              (changed-Entry id old new same_order (h.entry id old found)))
      | inr (differ, seen') ↦ h.entry j state seen'
    ];
    held = λ c j seen.
        let holder = h.held c j seen in
        elim (Bool-cases (str_eq id j)) [
          | inl same ↦
              let same_id = (eq_iff id j).0 same in
              let e : some holder.state ≡ some old =
                sym holder.found ∙ ap (λ x. lookup x orders) (sym same_id) ∙ found in
              let m : holder.state ≡ old = cc in
              record {
                state = new;
                found = rw (lookup-insert, same) refl;
                named =
                    same_order.client
                    ∙ ap (λ (x : OrderState). x.order.client_order_id) (sym m)
                    ∙ holder.named;
              }
          | inr differ ↦ record {
            state = holder.state;
            found = rw (lookup-insert, differ) holder.found;
            named = holder.named;
          }
        ];
  }

  -- The parameters of an id that was not sent before.
  pub refused-Consistent :
      (c : String) (p : SubmitParams)
      → lookup c ps ≡ none
      → Consistent s orders ix ps
      → Consistent s orders ix (insert c p ps)
  refused-Consistent c p fresh h = record {
    entry = λ id state found.
        let e = h.entry id state found in
        record {
          number = e.number;
          numbered = e.numbered;
          given = e.given;
          own = e.own;
          sent = ground (
            arith,
            lookup-insert c state.order.client_order_id p ps,
            eq_iff c state.order.client_order_id,
            e.sent,
          );
          indexed = e.indexed;
          filled_up = e.filled_up;
          within = e.within;
        };
    held = h.held;
  }

  -- A new order, under the next number and a client order id that was not sent before.
  pub accepted-Consistent :
      (state : OrderState)
      → lookup state.order.client_order_id ps ≡ none
      → state.order.broker_order_id ≡ order_id (s + 1)
      → executed state.fills ≡ state.order.filled_quantity
      → state.order.filled_quantity ≤ state.order.quantity.value
      → Consistent s orders ix ps
      → Consistent
          (s + 1)
          (insert (order_id (s + 1)) state orders)
          (insert state.order.client_order_id (order_id (s + 1)) ix)
          (insert state.order.client_order_id (order_params state.order) ps)
  accepted-Consistent state fresh own filled_up within h = record {
    entry = λ j other seen. elim (insert_cases (order_id (s + 1)) j state other orders seen) [
      | inl (same, e) ↦
          let ix' = insert state.order.client_order_id (order_id (s + 1)) ix in
          let ps' = insert state.order.client_order_id (order_params state.order) ps in
          subst (λ x. Entry (s + 1) ix' ps' x other) same
            (subst (λ x. Entry (s + 1) ix' ps' (order_id (s + 1)) x) e
              (record {
                number = s + 1;
                numbered = refl;
                given = omega arith;
                own = own;
                sent = lookup-insert_self _ _ ps;
                indexed = lookup-insert_self _ _ ix;
                filled_up = filled_up;
                within = within;
              }))
      | inr (differ, seen') ↦
          let e = h.entry j other seen' in
          let other_client : state.order.client_order_id ≢ other.order.client_order_id =
            λ same. ground (arith, e.sent) in
          record {
            number = e.number;
            numbered = e.numbered;
            given = omega (arith, e.given);
            own = e.own;
            sent = lookup-insert_ne _ _ _ ps other_client ∙ e.sent;
            indexed = lookup-insert_ne _ _ _ ix other_client ∙ e.indexed;
            filled_up = e.filled_up;
            within = e.within;
          }
    ];
    held = λ c j seen.
        elim (insert_cases state.order.client_order_id c (order_id (s + 1)) j ix seen) [
          | inl (same, e) ↦ record {
            state = state;
            found =
                ap (λ x. lookup x (insert (order_id (s + 1)) state orders)) (sym e)
                ∙ lookup-insert_self _ _ orders;
            named = same;
          }
          | inr (differ, seen') ↦
              let holder = h.held c j seen' in
              let e = h.entry j holder.state holder.found in
              let other_id : order_id (s + 1) ≢ j = λ same.
                omega (arith, e.given, order_id_injective (s + 1) e.number (same ∙ e.numbered)) in
              record {
                state = holder.state;
                found = lookup-insert_ne _ _ _ orders other_id ∙ holder.found;
                named = holder.named;
              }
        ];
  }
