-- ===== src/PaperBroker/Repeats.antt =====
-- A submission that was answered is answered the same way again.
use mathlib.Core.Path.{subst}
use seven_lens_paper_trading.Prelude.{
  ◌+◌, ◌≡◌, refl, sym, ap, ◌∙◌, String, true, inl, inr, Option, none, some, arith, Option-cases,
}
use seven_lens_paper_trading.Prelude.Text.{eq_refl}
use seven_lens_paper_trading.Prelude.Result.{Result, ok, err}
use seven_lens_paper_trading.Prelude.Dict.{lookup, remove, lookup-insert_self}
use seven_lens_paper_trading.Orders.Status.{same_side_iff}
use seven_lens_paper_trading.Orders.Mirror.{BrokerOrder}
use seven_lens_paper_trading.Orders.Intent.{OrderIntent}
use seven_lens_paper_trading.Engine.Port.{
  EngineError, RejectionReason, SubmitResult, submit_accepted, submit_rejected,
}
use seven_lens_paper_trading.PaperBroker.State.{
  FakeSubmitOutcome, acknowledge, reject, timeout_before_accept, timeout_after_accept, FakeFillStep,
  FakeSubmitPlan, OrderState, SubmitParams, FakePaperBroker, time,
}
use seven_lens_paper_trading.PaperBroker.Fills.{
  order_id, apply_fill_step, first_execution, new_state, with_accepted, record_accepted_order,
}
use seven_lens_paper_trading.PaperBroker.Submission.{
  params_of, same_params, stored_order, known_order, answered_before, answered, acknowledged_as,
  submit_accepting, rejected_for, with_params, submit_planned, plan_for, submit_order,
}

same_params_refl : (p : SubmitParams) → same_params p p ≡ true
unfolding same_params
same_params_refl p = ground (arith, eq_refl p.symbol, same_side_iff p.side p.side)

-- What a broker knows of an intent that it has answered with `r`.
record Answered (i : OrderIntent) (r : SubmitResult) (b : FakePaperBroker) : Type 0 where
  sent : lookup i.client_order_id b.submit_params ≡ some (params_of i)
  answer : answered_before i.client_order_id b ≡ ok r

Answered-submit_order :
    (i : OrderIntent) (r : SubmitResult) (b : FakePaperBroker)
    → Answered i r b
    → submit_order i b ≡ (ok r, b)
unfolding submit_order
Answered-submit_order i r b h =
    rw (submit_order, h.sent, same_params_refl (params_of i))
      (ap (λ (x : Result EngineError SubmitResult). (x, b)) h.answer)

by_client-apply_fill_step :
    (id : String) (state : OrderState) (step : FakeFillStep) (b : FakePaperBroker)
    → ((apply_fill_step id state step b).1.by_client ≡ b.by_client)
      × ((apply_fill_step id state step b).1.submit_params ≡ b.submit_params)
unfolding apply_fill_step
by_client-apply_fill_step id state step b = (ground arith, ground arith)

by_client-first_execution :
    (fill : Option FakeFillStep) (id : String) (state : OrderState) (b : FakePaperBroker)
    → ((first_execution fill id state b).1.by_client ≡ b.by_client)
      × ((first_execution fill id state b).1.submit_params ≡ b.submit_params)
by_client-first_execution none id state b = (refl, refl)
by_client-first_execution (some step) id state b = by_client-apply_fill_step id state step b

first_execution_id :
    (fill : Option FakeFillStep) (id j : String) (state : OrderState) (b : FakePaperBroker)
    → (first_execution fill id state b).0 ≡ ok j
    → id ≡ j
unfolding apply_fill_step
first_execution_id none id j state b h = cc
first_execution_id (some step) id j state b h = ground arith

answered-Answered :
    (i : OrderIntent) (id : String) (o : Result EngineError BrokerOrder) (r : SubmitResult)
    (b : FakePaperBroker)
    → stored_order id b ≡ o
    → lookup i.client_order_id b.by_client ≡ some id
    → lookup i.client_order_id b.submit_params ≡ some (params_of i)
    → (answered i.client_order_id o b).0 ≡ ok r
    → Answered i r (answered i.client_order_id o b).1
unfolding answered_before known_order stored_order
answered-Answered i id (err e) r b stored indexed sent h = cc
answered-Answered i id (ok o) r b stored indexed sent h = record {
  sent = sent;
  answer = ground (arith, lookup-insert_self i.client_order_id (submit_accepted o) b.results);
}

acknowledged_as-Answered :
    (i : OrderIntent) (outcome : FakeSubmitOutcome) (id : String) (q : Result EngineError String)
    (r : SubmitResult) (b : FakePaperBroker)
    → ((j : String) → q ≡ ok j → id ≡ j)
    → lookup i.client_order_id b.by_client ≡ some id
    → lookup i.client_order_id b.submit_params ≡ some (params_of i)
    → (acknowledged_as i.client_order_id outcome q b).0 ≡ ok r
    → Answered i r (acknowledged_as i.client_order_id outcome q b).1
acknowledged_as-Answered i outcome id (err e) r b same indexed sent h = cc
acknowledged_as-Answered i timeout_after_accept id (ok j) r b same indexed sent h = cc
acknowledged_as-Answered i acknowledge id (ok j) r b same indexed sent h =
    answered-Answered i j (stored_order j b) r b refl (indexed ∙ ap some (same j refl)) sent h
acknowledged_as-Answered i reject id (ok j) r b same indexed sent h =
    answered-Answered i j (stored_order j b) r b refl (indexed ∙ ap some (same j refl)) sent h
acknowledged_as-Answered i timeout_before_accept id (ok j) r b same indexed sent h =
    answered-Answered i j (stored_order j b) r b refl (indexed ∙ ap some (same j refl)) sent h

submit_accepting-Answered :
    (i : OrderIntent) (plan : FakeSubmitPlan) (b : FakePaperBroker) (r : SubmitResult)
    → (submit_accepting i plan (with_params i b)).0 ≡ ok r
    → Answered i r (submit_accepting i plan (with_params i b)).1
unfolding submit_accepting record_accepted_order
submit_accepting-Answered i plan b r h =
    let id = order_id (b.sequence + 1) in
    let state = new_state i plan.outcome id (time b) in
    let b' = with_accepted i plan.outcome (with_params i b) in
    let same = by_client-first_execution plan.first_fill id state b' in
    acknowledged_as-Answered i plan.outcome id (first_execution plan.first_fill id state b').0 r
      (first_execution plan.first_fill id state b').1
      (λ j e. first_execution_id plan.first_fill id j state b' e)
      (ap (λ d. lookup i.client_order_id d) same.0 ∙ lookup-insert_self _ _ b.by_client)
      (ap (λ d. lookup i.client_order_id d) same.1 ∙ lookup-insert_self _ _ b.submit_params) h

rejected_for-Answered :
    (i : OrderIntent) (reason : Option RejectionReason) (b : FakePaperBroker) (r : SubmitResult)
    → lookup i.client_order_id b.submit_params ≡ some (params_of i)
    → (rejected_for i.client_order_id reason b).0 ≡ ok r
    → Answered i r (rejected_for i.client_order_id reason b).1
unfolding answered_before
rejected_for-Answered i none b r sent h = cc
rejected_for-Answered i (some reason) b r sent h = record {
  sent = sent;
  answer = ground (arith, lookup-insert_self i.client_order_id (submit_rejected reason) b.results);
}

submit_planned-Answered :
    (outcome : FakeSubmitOutcome) (i : OrderIntent) (plan : FakeSubmitPlan) (b : FakePaperBroker)
    (r : SubmitResult)
    → (submit_planned outcome i plan b).0 ≡ ok r
    → Answered i r (submit_planned outcome i plan b).1
submit_planned-Answered timeout_before_accept i plan b r h = cc
submit_planned-Answered reject i plan b r h =
    rejected_for-Answered i plan.rejection_reason (with_params i b) r
      (lookup-insert_self _ _ b.submit_params) h
submit_planned-Answered acknowledge i plan b r h = submit_accepting-Answered i plan b r h
submit_planned-Answered timeout_after_accept i plan b r h = submit_accepting-Answered i plan b r h

known_unchanged :
    (i : OrderIntent) (p : SubmitParams) (b : FakePaperBroker)
    → lookup i.client_order_id b.submit_params ≡ some p
    → (submit_order i b).1 ≡ b
unfolding submit_order
known_unchanged i p b e = ground arith

fresh-Answered :
    (i : OrderIntent) (b : FakePaperBroker) (r : SubmitResult)
    → lookup i.client_order_id b.submit_params ≡ none
    → (submit_order i b).0 ≡ ok r
    → Answered i r (submit_order i b).1
unfolding submit_order
fresh-Answered i b r fresh h =
    let plan = plan_for i.client_order_id b in
    let b' = record b { plans = remove i.client_order_id b.plans } in
    let e : submit_order i b ≡ submit_planned plan.outcome i plan b' =
      rw (submit_order, fresh) refl in
    subst (λ x. Answered i r x.1) (sym e)
      (submit_planned-Answered plan.outcome i plan b' r (sym (ap (λ x. x.0) e) ∙ h))

-- An intent whose submission the broker accepted or rejected is answered the same way when it is
-- submitted again, and the second submission changes nothing.
pub submit_order_again :
    (i : OrderIntent) (b : FakePaperBroker) (r : SubmitResult)
    → (submit_order i b).0 ≡ ok r
    → submit_order i (submit_order i b).1 ≡ (ok r, (submit_order i b).1)
submit_order_again i b r h = elim (Option-cases (lookup i.client_order_id b.submit_params)) [
  | inl fresh ↦ Answered-submit_order i r _ (fresh-Answered i b r fresh h)
  | inr (p, e) ↦
      let same = known_unchanged i p b e in
      ap (submit_order i) same
      ∙ ap (λ (x : Result EngineError SubmitResult). (x, (submit_order i b).1)) h
]
