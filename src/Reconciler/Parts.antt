-- ===== src/Reconciler/Parts.antt =====
-- A run that is safe to resume on has made every comparison, and none of them found anything.
use seven_lens_paper_trading.Prelude.{
  ℕ, ◌≡◌, refl, true, not, some, List, [], ◌∷◌, ◌++◌, arith, sym, ap, ◌∙◌,
}
use seven_lens_paper_trading.Prelude.Result.{ok, >>=-eq-ok}
use seven_lens_paper_trading.Orders.Mirror.{BrokerOrder}
use seven_lens_paper_trading.Ledger.{LedgerProjection, project_ledger}
use seven_lens_paper_trading.Reconciliation.{
  ReconciliationResult, ReconciliationMismatch, create, non_paper_account, reconciliation_result,
  is_resume_safe,
}
use seven_lens_paper_trading.Store.Monad.{Tables}
use seven_lens_paper_trading.Control.{latest_run}
use seven_lens_paper_trading.Reconciler.Answers.{
  BrokerEnvironment, paper, report, PaperAccount, PaperPosition, AccountReconciliationPolicy,
  Answers, of_ledger, Found, both, each,
}
use seven_lens_paper_trading.Reconciler.Orders.{
  all_broker_orders, open_broker_orders, unresolved_mismatches, check_open, check_closed, ids_of,
  client_ids_of, check_reported, by_broker_id,
}
use seven_lens_paper_trading.Reconciler.History.{history_horizon, check_history}
use seven_lens_paper_trading.Reconciler.Account.{position_mismatches, check_account}
use seven_lens_paper_trading.Reconciler.Collect.{
  is_paper, orders_by_id, compare_orders, compare_account, compare_all, scope_of, created, collect,
}
use seven_lens_paper_trading.Reconciler.Nothing.{append_nil, mismatches_of, FoundNothing}

-- The comparisons of the recorded and of the reported orders.
pub record OrdersAgree (a : Answers) (t : Tables) (trading_date : ℕ) : Type 0 where
  pub opened : FoundNothing (each (check_open a t) (open_broker_orders t))
  pub closed :
      FoundNothing (each (check_closed a (ids_of (open_broker_orders t))) (all_broker_orders t))
  pub shown : List BrokerOrder
  pub shown_answer : a.list_open_orders ≡ ok shown
  pub reported : FoundNothing (each (check_reported (client_ids_of (all_broker_orders t))) shown)
  pub recent : List BrokerOrder
  pub recent_answer :
      a.list_recent_orders (history_horizon (latest_run t.runs) trading_date) ≡ ok recent
  pub history : FoundNothing (check_history a t (by_broker_id [] shown) recent)

-- The comparisons of the positions and of the account.
pub record AccountAgrees (a : Answers) (t : Tables) (account : PaperAccount) : Type 0 where
  pub projection : LedgerProjection
  pub projected : of_ledger (project_ledger t.orders.fills (orders_by_id t)) ≡ ok projection
  pub held : List PaperPosition
  pub held_answer : a.list_positions ≡ ok held
  pub positions_agree : position_mismatches projection held ≡ []
  pub account_agrees :
      check_account a a.account_policy (orders_by_id t) t.orders.fills account projection ≡ ok []

pub record EverythingAgrees (a : Answers) (t : Tables) (trading_date : ℕ) : Type 0 where
  pub account : PaperAccount
  pub account_answer : a.account ≡ ok account
  pub settled : unresolved_mismatches t ≡ []
  pub orders : OrdersAgree a t trading_date
  pub accounts : AccountAgrees a t account
  pub policy : AccountReconciliationPolicy
  pub has_policy : a.account_policy ≡ some policy

emptied :
    (e : BrokerEnvironment) (ms ns : List ReconciliationMismatch)
    → ((report (not (is_paper e)) non_paper_account "broker account does not assert PAPER" ++ ms)
        ++ ns)
      ≡ []
    → ms ++ ns ≡ []
emptied paper ms ns h = h

module _ (a : Answers) (t : Tables) (trading_date : ℕ) where
  orders_agree :
      (found : Found)
      → compare_orders a t trading_date ≡ ok found
      → found.mismatches ≡ []
      → OrdersAgree a t trading_date
  unfolding compare_orders
  orders_agree found done none_found =
      let (opened, e1, d1) = >>=-eq-ok (each (check_open a t) (open_broker_orders t)) _ done in
      let (closed, e2, d2) =
        >>=-eq-ok (each (check_closed a (ids_of (open_broker_orders t))) (all_broker_orders t)) _
          d1 in
      let (shown, e3, d3) = >>=-eq-ok a.list_open_orders _ d2 in
      let (reported, e4, d4) =
        >>=-eq-ok (each (check_reported (client_ids_of (all_broker_orders t))) shown) _ d3 in
      let (recent, e5, d5) =
        >>=-eq-ok (a.list_recent_orders (history_horizon (latest_run t.runs) trading_date)) _ d4 in
      let (history, e6, d6) = >>=-eq-ok (check_history a t (by_broker_id [] shown) recent) _ d5 in
      let (n1, r1) =
        append_nil opened.mismatches (both closed (both reported history)).mismatches
          (ap mismatches_of d6 ∙ none_found) in
      let (n2, r2) = append_nil closed.mismatches (both reported history).mismatches r1 in
      let (n3, n4) = append_nil reported.mismatches history.mismatches r2 in
      record {
        opened = record { found = opened; returned = e1; empty = n1 };
        closed = record { found = closed; returned = e2; empty = n2 };
        shown = shown;
        shown_answer = e3;
        reported = record { found = reported; returned = e4; empty = n3 };
        recent = recent;
        recent_answer = e5;
        history = record { found = history; returned = e6; empty = n4 };
      }

  account_agrees :
      (account : PaperAccount) (found : Found)
      → compare_account a t account ≡ ok found
      → found.mismatches ≡ []
      → AccountAgrees a t account
  unfolding compare_account
  account_agrees account found done none_found =
      let (projection, e1, d1) =
        >>=-eq-ok (of_ledger (project_ledger t.orders.fills (orders_by_id t))) _ done in
      let (held, e2, d2) = >>=-eq-ok a.list_positions _ d1 in
      let (rest, e3, d3) =
        >>=-eq-ok
          (check_account a a.account_policy (orders_by_id t) t.orders.fills account projection) _
          d2 in
      let (n1, n2) =
        append_nil (position_mismatches projection held) rest (ap mismatches_of d3 ∙ none_found) in
      record {
        projection = projection;
        projected = e1;
        held = held;
        held_answer = e2;
        positions_agree = n1;
        account_agrees = rw (sym n2) e3;
      }

  safe_create :
      (ms : List ReconciliationMismatch) (orders fills at run_id : ℕ) (r : ReconciliationResult)
      → created trading_date ms orders fills at run_id (scope_of a.account_policy) ≡ ok r
      → is_resume_safe r ≡ true
      → (ms ≡ []) × ((policy : AccountReconciliationPolicy) × (a.account_policy ≡ some policy))
  unfolding created create reconciliation_result is_resume_safe
  safe_create [] orders fills at run_id r done safe = (refl, ground arith)
  safe_create (m ∷ ms) orders fills at run_id r done safe = ground arith

  pub everything_agrees :
      (at run_id : ℕ) (r : ReconciliationResult)
      → collect a t trading_date at run_id ≡ ok r
      → is_resume_safe r ≡ true
      → EverythingAgrees a t trading_date
  unfolding collect compare_all
  everything_agrees at run_id r done safe =
      let (found, e, d) = >>=-eq-ok (compare_all a t trading_date) _ done in
      let (empty, has) =
        safe_create found.mismatches found.checked_orders found.checked_fills at run_id r d safe in
      let (account, e1, d1) = >>=-eq-ok a.account _ e in
      let (orders, e2, d2) = >>=-eq-ok (compare_orders a t trading_date) _ d1 in
      let (accounts, e3, d3) = >>=-eq-ok (compare_account a t account) _ d2 in
      let (n1, r1) = append_nil (unresolved_mismatches t) (both orders accounts).mismatches (
        emptied account.environment (unresolved_mismatches t) (both orders accounts).mismatches
          (ap mismatches_of d3 ∙ empty)) in
      let (n2, n3) = append_nil orders.mismatches accounts.mismatches r1 in
      record {
        account = account;
        account_answer = e1;
        settled = n1;
        orders = orders_agree orders e2 n2;
        accounts = account_agrees account accounts e3 n3;
        policy = has.0;
        has_policy = has.1;
      }
