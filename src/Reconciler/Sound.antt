-- ===== src/Reconciler/Sound.antt =====
-- What a run that is safe to resume on shows of the recorded orders.
use seven_lens_paper_trading.Prelude.{
  ℕ, All, All-weaken, All-map, ◌≡◌, refl, Bool, true, false, not, if◌then◌else◌, ◌||◌, String, elem,
  Option, none, some, List, [], ◌∷◌, map, ap, ◌∙◌,
}
use seven_lens_paper_trading.Prelude.Dict.{lookup}
use seven_lens_paper_trading.Prelude.Text.{str_eq}
use seven_lens_paper_trading.Prelude.Sorting.{sorted-All}
use seven_lens_paper_trading.Prelude.Result.{ok, >>=-eq-ok}
use seven_lens_paper_trading.Orders.BrokerStatus.{
  BrokerOrderStatus, BrokerOrderStatus-discrete, is_terminal, same_broker_status,
}
use seven_lens_paper_trading.Orders.Mirror.{BrokerOrder, Fill}
use seven_lens_paper_trading.Orders.Intent.{OrderIntent}
use seven_lens_paper_trading.Reconciliation.{
  missing_local_fill, parameter_mismatch, intent_status_mismatch, status_mismatch,
  ReconciliationResult, is_resume_safe,
}
use seven_lens_paper_trading.Store.Monad.{Tables}
use seven_lens_paper_trading.Store.Repository.{fills_of}
use seven_lens_paper_trading.Engine.Submit.{is_empty}
use seven_lens_paper_trading.Control.Outcomes.{lists_unresolved}
use seven_lens_paper_trading.Reconciler.Answers.{Answers}
use seven_lens_paper_trading.Reconciler.Orders.{
  mirror_leb, second, all_broker_orders, open_broker_orders, not_terminal, unresolved_mismatches,
  of_intent, check_open, check_answered, compare_open, missing_fills, execution_ids_of,
  parameters_differ, closed_but_open,
}
use seven_lens_paper_trading.Reconciler.Collect.{collect}
use seven_lens_paper_trading.Reconciler.Nothing.{
  append_nil, report_nil, not-false, mismatches_of, FoundNothing, each_nothing, All-lookup,
}
use seven_lens_paper_trading.Reconciler.Parts.{everything_agrees}

-- The broker knows the order of a mirror: with the parameters of its intent, with the status of the
-- mirror, not open if the intent is closed, and with recorded fills only.
pub record IsAnswered (a : Answers) (t : Tables) (mirror : BrokerOrder) : Type 0 where
  pub order : BrokerOrder
  pub order_answer : a.get_order mirror.client_order_id ≡ ok (some order)
  pub same_parameters :
      parameters_differ (lookup mirror.client_order_id t.orders.intents) order ≡ false
  pub not_closed : closed_but_open (lookup mirror.client_order_id t.orders.intents) order ≡ false
  pub same_status : order.status ≡ mirror.status
  pub fills : List Fill
  pub fills_answer : a.list_fills mirror.broker_order_id ≡ ok fills
  pub all_recorded :
      All
        (λ (f : Fill).
          elem str_eq f.execution_id
            (execution_ids_of (fills_of mirror.broker_order_id t.orders.fills))
          ≡ true)
        fills

same_eq : (s s' : BrokerOrderStatus) → same_broker_status s s' ≡ true → s ≡ s'
unfolding same_broker_status
same_eq s s' h = go (BrokerOrderStatus-discrete s s') h
  where
    go : (d : Dec (s ≡ s')) → elim d [ yes e ↦ true | no ne ↦ false ] ≡ true → s ≡ s'
    go (yes e) h = e
    go (no ne) h = cc

all_recorded :
    (recorded fills : List Fill)
    → missing_fills recorded fills ≡ []
    → All (λ (f : Fill). elem str_eq f.execution_id (execution_ids_of recorded) ≡ true) fills
unfolding missing_fills
all_recorded recorded [] e = tt
all_recorded recorded (f ∷ fs) e =
    let (here, there) = append_nil _ (missing_fills recorded fs) e in
    (
      not-false _ (report_nil _ missing_local_fill f.execution_id here),
      all_recorded recorded fs there,
    )

module _ (a : Answers) (t : Tables) (mirror : BrokerOrder) where
  compared :
      (order : BrokerOrder) (fills : List Fill)
      → a.get_order mirror.client_order_id ≡ ok (some order)
      → a.list_fills mirror.broker_order_id ≡ ok fills
      → (compare_open t mirror order fills).mismatches ≡ []
      → IsAnswered a t mirror
  unfolding compare_open
  compared order fills e e' empty =
      let (heads, n4) =
        append_nil _ (missing_fills (fills_of mirror.broker_order_id t.orders.fills) fills) empty in
      let (pair, n3) = append_nil _ _ heads in
      let (n1, n2) = append_nil _ _ pair in
      record {
        order = order;
        order_answer = e;
        same_parameters = report_nil _ parameter_mismatch mirror.broker_order_id n1;
        not_closed = report_nil _ intent_status_mismatch mirror.broker_order_id n2;
        same_status =
            same_eq _ _ (not-false _ (report_nil _ status_mismatch mirror.broker_order_id n3));
        fills = fills;
        fills_answer = e';
        all_recorded = all_recorded _ fills n4;
      }

  check_answered-IsAnswered :
      (o : Option BrokerOrder)
      → a.get_order mirror.client_order_id ≡ ok o
      → FoundNothing (check_answered a t mirror o)
      → IsAnswered a t mirror
  unfolding check_answered
  check_answered-IsAnswered none e n = let lost = ap mismatches_of n.returned ∙ n.empty in cc
  check_answered-IsAnswered (some order) e n =
      let (fills, e', last) = >>=-eq-ok (a.list_fills mirror.broker_order_id) _ n.returned in
      compared order fills e e' (ap mismatches_of last ∙ n.empty)

  check_open_lem : FoundNothing (check_open a t mirror) → IsAnswered a t mirror
  unfolding check_open
  check_open_lem n =
      let (o, e, last) = >>=-eq-ok (a.get_order mirror.client_order_id) _ n.returned in
      check_answered-IsAnswered o e (record { found = n.found; returned = last; empty = n.empty })

working :
    (P : BrokerOrder → Type 0) (os : List BrokerOrder)
    → All P (not_terminal os)
    → All (λ o. is_terminal o.status ≡ false → P o) os
unfolding not_terminal
working P [] h = tt
working P (o ∷ os) h = split (is_terminal o.status) (working P os) h
  where
    split :
        (b : Bool)
        → (All P (not_terminal os) → All (λ o. is_terminal o.status ≡ false → P o) os)
        → All P (if not b then o ∷ not_terminal os else not_terminal os)
        → (b ≡ false → P o) × All (λ o. is_terminal o.status ≡ false → P o) os
    split true rest h = ((λ e. cc), rest h)
    split false rest h = ((λ e. h.0), rest h.1)

omitted :
    (xs ys : List OrderIntent)
    → map of_intent xs ≡ []
    → map of_intent ys ≡ []
    → not (is_empty ys) || not (is_empty xs) ≡ false
omitted [] [] e e' = refl
omitted (x ∷ xs) ys e e' = cc
omitted [] (y ∷ ys) e e' = cc

module _ (a : Answers) (t : Tables) (trading_date at run_id : ℕ) (r : ReconciliationResult)
    (done : collect a t trading_date at run_id ≡ ok r) (safe : is_resume_safe r ≡ true) where
  -- If a run of `collect` is safe to resume on, then no intent of the tables that it read is UNKNOWN or
  -- REVIEW_REQUIRED.
  pub collect-lists_unresolved : lists_unresolved t ≡ false
  unfolding unresolved_mismatches
  collect-lists_unresolved =
      let (held, lost) =
        append_nil _ _ (everything_agrees a t trading_date at run_id r done safe).settled in
      omitted _ _ held lost

  -- If a run of `collect` is safe to resume on, then the broker knows the order of every recorded mirror
  -- that is not terminal: with the status of the mirror and the parameters of its intent, not open when
  -- the intent is closed, and every fill that the broker has of it is recorded.
  pub collect-IsAnswered :
      (id : String) (mirror : BrokerOrder)
      → lookup id t.orders.mirrors ≡ some mirror
      → is_terminal mirror.status ≡ false
      → IsAnswered a t mirror
  unfolding open_broker_orders all_broker_orders
  collect-IsAnswered id mirror found live =
      All-lookup (λ o. is_terminal o.status ≡ false → IsAnswered a t o) id mirror t.orders.mirrors
        (sorted-All _ mirror_leb _ (
          All-map _ second _ (
            working (IsAnswered a t) _ (
              All-weaken (check_open_lem a t) _ (
                each_nothing (check_open a t) _
                  (everything_agrees a t trading_date at run_id r done safe).orders.opened)))))
        found live
