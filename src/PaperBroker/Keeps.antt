-- ===== src/PaperBroker/Keeps.antt =====
-- Every method of the paper broker keeps its tables consistent.
use seven_lens_paper_trading.Prelude.{
  ◌+◌, ltb, ◌≡◌, refl, ap, ◌∙◌, String, Bool, not, inl, inr, Option, none, some, List, [], ◌∷◌,
  ◌++◌, sum_by-append, arith, Bool-cases, Option-cases, if◌then◌else◌,
}
use seven_lens_paper_trading.Prelude.Result.{Result, ok, err}
use seven_lens_paper_trading.Prelude.Dict.{lookup, remove, lookup-insert_self}
use seven_lens_paper_trading.Orders.BrokerStatus.{
  BrokerOrderStatus, broker_order_transition_allowed, is_open_status, canceled, expired,
  pending_cancel, same_broker_status,
}
use seven_lens_paper_trading.Orders.Mirror.{BrokerOrder, Fill}
use seven_lens_paper_trading.Orders.Intent.{OrderIntent}
use seven_lens_paper_trading.Engine.Port.{EngineError, RejectionReason}
use seven_lens_paper_trading.PaperBroker.State.{
  FakeSubmitOutcome, acknowledge, reject, timeout_before_accept, timeout_after_accept,
  FakeCancelMode, immediate, pending, timeout, FakeFillStep, FakeSubmitPlan, OrderState,
  FakePaperBroker, time,
}
use seven_lens_paper_trading.PaperBroker.Fills.{
  order_id, transition, apply_fill_step, after_execution, first_execution, new_state, with_accepted,
  record_accepted_order,
}
use seven_lens_paper_trading.PaperBroker.Submission.{
  stored_order, answered, acknowledged_as, submit_accepting, rejected_for, with_params,
  submit_planned, submit_order, same_params, params_of, plan_for,
}
use seven_lens_paper_trading.PaperBroker.Requests.{
  cancel_open, moving, cancel_order, resolve_pending_cancel, apply_fill, expire_order, force_status,
}
use seven_lens_paper_trading.PaperBroker.Consistent.{
  Consistent, executed, Consistent-later, changed-Consistent, refused-Consistent,
  accepted-Consistent,
}

abbrev pub IsConsistent : FakePaperBroker → Type 0
IsConsistent b = Consistent b.sequence b.orders b.by_client b.submit_params

transition-IsConsistent :
    (id : String) (state : OrderState) (target : BrokerOrderStatus) (b : FakePaperBroker)
    → lookup id b.orders ≡ some state
    → IsConsistent b
    → IsConsistent (transition id state target b).1
unfolding transition
transition-IsConsistent id state target b found h =
    elim (Bool-cases (broker_order_transition_allowed state.order.status target)) [
      | inl allowed ↦
          let e = h.entry id state found in
          rw allowed (
            changed-Consistent id state _ found
              (record {
                own = refl;
                client = refl;
                params = refl;
                filled_up = e.filled_up;
                within = e.within;
              })
              h)
      | inr refused ↦ rw refused h
    ]

executed-append :
    (fills : List Fill) (f : Fill) → executed (fills ++ f ∷ []) ≡ executed fills + f.quantity.value
executed-append fills f =
    omega (arith, sum_by-append (λ (f : Fill). f.quantity.value) fills (f ∷ []))

apply_fill_step-IsConsistent :
    (id : String) (state : OrderState) (step : FakeFillStep) (b : FakePaperBroker)
    → lookup id b.orders ≡ some state
    → IsConsistent b
    → IsConsistent (apply_fill_step id state step b).1
unfolding apply_fill_step
apply_fill_step-IsConsistent id state step b found h =
    elim (Bool-cases
      (ltb state.order.quantity.value (state.order.filled_quantity + step.quantity.value))) [
        | inl over ↦ rw over h
        | inr fits ↦
            let later = Consistent-later (b.sequence + 1) (omega arith) h in
            let e = h.entry id state found in
            elim (Bool-cases (
              broker_order_transition_allowed state.order.status (
                after_execution state.order (state.order.filled_quantity + step.quantity.value)))) [
                  | inl allowed ↦
                      rw (fits, allowed)
                        (changed-Consistent id state _ found
                          (record {
                            own = refl;
                            client = refl;
                            params = refl;
                            filled_up =
                                executed-append state.fills _
                                ∙ ap (λ n. n + step.quantity.value) e.filled_up;
                            within = ground arith;
                          })
                          later)
                  | inr refused ↦ rw (fits, refused) later
                ]
      ]

first_execution-IsConsistent :
    (fill : Option FakeFillStep) (id : String) (state : OrderState) (b : FakePaperBroker)
    → lookup id b.orders ≡ some state
    → IsConsistent b
    → IsConsistent (first_execution fill id state b).1
first_execution-IsConsistent none id state b found h = h
first_execution-IsConsistent (some step) id state b found h =
    apply_fill_step-IsConsistent id state step b found h

answered-IsConsistent :
    (c : String) (r : Result EngineError BrokerOrder) (b : FakePaperBroker)
    → IsConsistent b
    → IsConsistent (answered c r b).1
answered-IsConsistent c (ok order) b h = h
answered-IsConsistent c (err e) b h = h

acknowledged_as-IsConsistent :
    (c : String) (outcome : FakeSubmitOutcome) (r : Result EngineError String) (b : FakePaperBroker)
    → IsConsistent b
    → IsConsistent (acknowledged_as c outcome r b).1
acknowledged_as-IsConsistent c outcome (err e) b h = h
acknowledged_as-IsConsistent c timeout_after_accept (ok id) b h = h
acknowledged_as-IsConsistent c acknowledge (ok id) b h =
    answered-IsConsistent c (stored_order id b) b h
acknowledged_as-IsConsistent c reject (ok id) b h = answered-IsConsistent c (stored_order id b) b h
acknowledged_as-IsConsistent c timeout_before_accept (ok id) b h =
    answered-IsConsistent c (stored_order id b) b h

submit_accepting-IsConsistent :
    (i : OrderIntent) (plan : FakeSubmitPlan) (b : FakePaperBroker)
    → lookup i.client_order_id b.submit_params ≡ none
    → IsConsistent b
    → IsConsistent (submit_accepting i plan (with_params i b)).1
unfolding submit_accepting record_accepted_order
submit_accepting-IsConsistent i plan b fresh h =
    let id = order_id (b.sequence + 1) in
    let state = new_state i plan.outcome id (time b) in
    let b' = with_accepted i plan.outcome (with_params i b) in
    acknowledged_as-IsConsistent i.client_order_id plan.outcome
      (first_execution plan.first_fill id state b').0
      (first_execution plan.first_fill id state b').1
      (first_execution-IsConsistent plan.first_fill id state b' (lookup-insert_self _ _ b.orders)
        (accepted-Consistent state fresh refl refl (omega arith) h))

rejected_for-IsConsistent :
    (c : String) (reason : Option RejectionReason) (b : FakePaperBroker)
    → IsConsistent b
    → IsConsistent (rejected_for c reason b).1
rejected_for-IsConsistent c none b h = h
rejected_for-IsConsistent c (some reason) b h = h

submit_planned-IsConsistent :
    (outcome : FakeSubmitOutcome) (i : OrderIntent) (plan : FakeSubmitPlan) (b : FakePaperBroker)
    → lookup i.client_order_id b.submit_params ≡ none
    → IsConsistent b
    → IsConsistent (submit_planned outcome i plan b).1
submit_planned-IsConsistent timeout_before_accept i plan b fresh h = h
submit_planned-IsConsistent reject i plan b fresh h =
    rejected_for-IsConsistent i.client_order_id plan.rejection_reason (with_params i b)
      (refused-Consistent _ _ fresh h)
submit_planned-IsConsistent acknowledge i plan b fresh h =
    submit_accepting-IsConsistent i plan b fresh h
submit_planned-IsConsistent timeout_after_accept i plan b fresh h =
    submit_accepting-IsConsistent i plan b fresh h

pub submit_order-IsConsistent :
    (i : OrderIntent) (b : FakePaperBroker) → IsConsistent b → IsConsistent (submit_order i b).1
unfolding submit_order
submit_order-IsConsistent i b h = elim (Option-cases (lookup i.client_order_id b.submit_params)) [
  | inl fresh ↦
      let plan = plan_for i.client_order_id b in
      rw (submit_order, fresh)
        (submit_planned-IsConsistent plan.outcome i plan
          (record b { plans = remove i.client_order_id b.plans }) fresh h)
  | inr (previous, e) ↦ elim (Bool-cases (same_params previous (params_of i))) [
    | inl same ↦ rw (submit_order, e, same) h
    | inr differ ↦ rw (submit_order, e, differ) h
  ]
]

cancel_open-IsConsistent :
    (mode : FakeCancelMode) (id : String) (state : OrderState) (b : FakePaperBroker)
    → lookup id b.orders ≡ some state
    → IsConsistent b
    → IsConsistent (cancel_open mode id state b).1
cancel_open-IsConsistent immediate id state b found h =
    transition-IsConsistent id state canceled b found h
cancel_open-IsConsistent pending id state b found h =
    transition-IsConsistent id state pending_cancel b found h
cancel_open-IsConsistent timeout id state b found h = h

-- What is done to an order that must be stored, and open or in some status.
module _ {A : Type 0} (id : String) (b : FakePaperBroker) (h : IsConsistent b)
    (absent refused : Result EngineError A) (test : OrderState → Bool)
    (f : OrderState → Result EngineError A × FakePaperBroker)
    (kf : (state : OrderState) → lookup id b.orders ≡ some state → IsConsistent (f state).1) where
  abbrev guarded : Result EngineError A × FakePaperBroker
  guarded = elim (lookup id b.orders) [
    | none ↦ (absent, b)
    | some state ↦ if not (test state) then (refused, b) else f state
  ]

  guarded-IsConsistent : IsConsistent guarded.1
  guarded-IsConsistent = elim (Option-cases (lookup id b.orders)) [
    | inl missing ↦ rw (guarded, missing) h
    | inr (state, found) ↦ elim (Bool-cases (test state)) [
      | inl passes ↦ rw (guarded, found, passes) (kf state found)
      | inr fails ↦ rw (guarded, found, fails) h
    ]
  ]

pub cancel_order-IsConsistent :
    (id : String) (b : FakePaperBroker) → IsConsistent b → IsConsistent (cancel_order id b).1
unfolding cancel_order
cancel_order-IsConsistent id b h =
    guarded-IsConsistent id b h _ _ (λ state. is_open_status state.order.status)
      (λ state. cancel_open b.cancel_mode id state b)
      (λ state found. cancel_open-IsConsistent b.cancel_mode id state b found h)

pub resolve_pending_cancel-IsConsistent :
    (id : String) (b : FakePaperBroker)
    → IsConsistent b
    → IsConsistent (resolve_pending_cancel id b).1
unfolding resolve_pending_cancel
resolve_pending_cancel-IsConsistent id b h =
    guarded-IsConsistent id b h _ _ (λ state. same_broker_status state.order.status pending_cancel)
      (λ state. transition id state canceled b)
      (λ state found. transition-IsConsistent id state canceled b found h)

pub apply_fill-IsConsistent :
    (id : String) (step : FakeFillStep) (b : FakePaperBroker)
    → IsConsistent b
    → IsConsistent (apply_fill id step b).1
unfolding apply_fill
apply_fill-IsConsistent id step b h =
    guarded-IsConsistent id b h _ _ (λ state. is_open_status state.order.status)
      (λ state. apply_fill_step id state step b)
      (λ state found. apply_fill_step-IsConsistent id state step b found h)

pub expire_order-IsConsistent :
    (id : String) (b : FakePaperBroker) → IsConsistent b → IsConsistent (expire_order id b).1
unfolding expire_order
expire_order-IsConsistent id b h =
    guarded-IsConsistent id b h _ _ (λ state. is_open_status state.order.status)
      (λ state. moving id state expired b)
      (λ state found. transition-IsConsistent id state expired b found h)

pub force_status-IsConsistent :
    (c : String) (status : BrokerOrderStatus) (b : FakePaperBroker)
    → IsConsistent b
    → IsConsistent (force_status c status b).1
unfolding force_status
force_status-IsConsistent c status b h = elim (Option-cases (lookup c b.by_client)) [
  | inl missing ↦ rw (force_status, missing) h
  | inr (id, e) ↦
      let holder = h.held c id e in
      rw (force_status, e, holder.found)
        (transition-IsConsistent id holder.state status b holder.found h)
]
