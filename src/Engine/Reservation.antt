-- ===== src/Engine/Reservation.antt =====
-- Every submission is reserved first: the intent is durably SUBMITTING when the broker is called.
use seven_lens_paper_trading.Prelude.{
  ◌≡◌, refl, ap, ◌∙◌, String, Bool, true, false, not, inl, inr, some, List, ◌∷◌, arith,
  if◌then◌else◌,
}
use seven_lens_paper_trading.Prelude.Result.{Result, ok, err}
use seven_lens_paper_trading.Prelude.Dict.{lookup, lookup-insert}
use seven_lens_paper_trading.Prelude.Text.{eq_refl}
use seven_lens_paper_trading.Orders.Status.{
  outbox_pending, submitting, same_status, same_status_iff,
}
use seven_lens_paper_trading.Orders.Intent.{OrderIntent}
use seven_lens_paper_trading.Store.Monad.{Tables, World, call, commit}
use seven_lens_paper_trading.Store.Repository.{transition_status, transition_step}
use seven_lens_paper_trading.Engine.Port.{Port, EngineError}
use seven_lens_paper_trading.Engine.Monad.{
  Submission, EngineWorld, E, continue, pure, ◌>>=◌, ◌>>◌, stored,
}
use seven_lens_paper_trading.Engine.Submit.{complete_submission, reserve, submit_from_outbox}
use seven_lens_paper_trading.Engine.Steps.{
  assert_asset_tradable-EngineKeeps, assert_entries_allowed-EngineKeeps, require_intent-EngineKeeps,
}
use seven_lens_paper_trading.Prelude.{Option-cases, Bool-cases}
use seven_lens_paper_trading.Orders.Status.{order_transition_allowed}
use mathlib.Core.Path.{◌≡◌, subst}
use seven_lens_paper_trading.Engine.Fires.{
  Silent, Anything-steps, kept-Silent, complete_submission-Fires,
}
use seven_lens_paper_trading.Store.Monad.{
  Tables, World, Exn, Fault, first_of_faults, spend, fine, failed, ambiguous, called, committed,
}
use seven_lens_paper_trading.Engine.Monad.{of_store}

-- No submission, or one of an intent that the committed tables hold under `id`, SUBMITTING.
pub data Reserved (id : String) (before after : List Submission) : Type 0 where
  not_submitted : after ≡ before → Reserved id before after
  submitted_once :
      (i : OrderIntent) (d : Tables)
      → after ≡ record { intent = i; durable = d } ∷ before
      → lookup id d.orders.intents ≡ some i
      → i.status ≡ submitting
      → Reserved id before after

record Reserves {B A : Type 0} (id : String) (m : E B A) : Type 0 where
  reserves : (w : EngineWorld B) → Reserved id w.submissions (m w).1.submissions

moved_lem :
    (id : String) (t : Tables) (i : OrderIntent)
    → (transition_step id submitting t).0 ≡ ok i
    → (lookup id (transition_step id submitting t).1.orders.intents ≡ some i)
      × (i.status ≡ submitting)
unfolding transition_step
moved_lem id t i h = elim (Option-cases (lookup id t.orders.intents)) [
  | inl missing ↦ ground arith
  | inr (c, e) ↦ elim (Bool-cases (same_status c.status submitting)) [
    | inl same ↦ ground (arith, same_status_iff c.status submitting)
    | inr differ ↦ elim (Bool-cases (order_transition_allowed c.status submitting)) [
      | inl allowed ↦ ground (
        arith,
        eq_refl id,
        lookup-insert id id (record c { status = submitting }) t.orders.intents,
      )
      | inr refused ↦ ground arith
    ]
  ]
]

called_ok :
    {A : Type 0} (k : Fault) (f : Tables → Result Exn A × Tables) (w : World) (a : A)
    → (called k f w).0 ≡ ok a
    → ((f w.working).0 ≡ ok a) × ((called k f w).1.working ≡ (f w.working).1)
called_ok fine f w a h = (h, refl)
called_ok failed f w a h = cc
called_ok ambiguous f w a h = cc

committed_ok :
    (k : Fault) (w : World) (a : Unit {0})
    → (committed k w).0 ≡ ok a
    → (committed k w).1.durable ≡ w.working
committed_ok fine w a h = refl
committed_ok failed w a h = cc
committed_ok ambiguous w a h = cc

of_store_ok : {A : Type 0} (r : Result Exn A) (a : A) → of_store r ≡ ok a → r ≡ ok a
of_store_ok (ok b) a h = cc
of_store_ok (err e) a h = cc

module _ {B : Type 0} (id : String) where
  Silent-Reserves : {A : Type 0} (m : E B A) → Silent m → Reserves id m
  Silent-Reserves m s = record { reserves = λ w. not_submitted (s.silent w) }

  module _ {A C : Type 0} (f : A → E B C) (kf : (a : A) → Reserves id (f a)) where
    continue-Reserved :
        (l : List Submission) (p : Result EngineError A × EngineWorld B)
        → p.1.submissions ≡ l
        → Reserved id l (continue p.0 f p.1).1.submissions
    continue-Reserved l (ok a, w) h =
        subst (λ x. Reserved id x (f a w).1.submissions) h ((kf a).reserves w)
    continue-Reserved l (err e, w) h = not_submitted h

    Reserves-bind : (m : E B A) → Silent m → Reserves id (m >>= f)
    unfolding ◌>>=◌
    Reserves-bind m s = record {
      reserves = λ w. continue-Reserved w.submissions (m w) (s.silent w);
    }

  Reserves-if :
      {A : Type 0} (b : Bool) (m n : E B A)
      → Reserves id m
      → Reserves id n
      → Reserves id (if b then m else n)
  Reserves-if true m n h k = h
  Reserves-if false m n h k = k

  module _ {A C : Type 0} (f : A → E B C) where
    continue_known :
        (l : List Submission) (p : Result EngineError A × EngineWorld B)
        → p.1.submissions ≡ l
        → ((a : A) → p.0 ≡ ok a → Reserved id p.1.submissions (f a p.1).1.submissions)
        → Reserved id l (continue p.0 f p.1).1.submissions
    continue_known l (ok a, w) h k = subst (λ x. Reserved id x (f a w).1.submissions) h (k a refl)
    continue_known l (err e, w) h k = not_submitted h

  moved_stored :
      (w : EngineWorld B) (i : OrderIntent)
      → (stored (transition_status id submitting) w).0 ≡ ok i
      → (lookup id (stored (transition_status id submitting) w).1.store.working.orders.intents
          ≡ some i)
        × (i.status ≡ submitting)
  unfolding stored transition_status call
  moved_stored w i h =
      let c =
        called_ok (first_of_faults w.store.faults) (transition_step id submitting) (spend w.store) i
          (of_store_ok _ i h) in
      let m = moved_lem id w.store.working i c.0 in
      (ap (λ (t : Tables). lookup id t.orders.intents) c.1 ∙ m.0, m.1)

  committed_stored :
      (w : EngineWorld B) (a : Unit {0})
      → (stored commit w).0 ≡ ok a
      → (stored commit w).1.store.durable ≡ w.store.working
  unfolding stored commit
  committed_stored w a h =
      committed_ok (first_of_faults w.store.faults) (spend w.store) a (of_store_ok _ a h)

  module _ (port : Port B) where
    commit-Reserved :
        (i : OrderIntent) (w : EngineWorld B)
        → lookup id w.store.working.orders.intents ≡ some i
        → i.status ≡ submitting
        → Reserved id w.submissions ((stored commit >> complete_submission port i) w).1.submissions
    unfolding ◌>>=◌ stored
    commit-Reserved i w found status =
        continue_known (λ _. complete_submission port i) w.submissions (stored commit w) refl
          (λ a e. elim ((complete_submission-Fires port i).fires (stored commit w).1) [
            | inl none_made ↦ not_submitted none_made
            | inr made ↦
                submitted_once i (stored commit w).1.store.durable made
                  (ap (λ (t : Tables). lookup id t.orders.intents) (committed_stored w a e) ∙ found)
                  status
          ])

    transition_status-Reserves : Reserves id (
        stored (transition_status id submitting) >>= λ i.
        stored commit >> complete_submission port i)
    unfolding ◌>>=◌ stored
    transition_status-Reserves = record {
      reserves = λ w.
          continue_known (λ i. stored commit >> complete_submission port i) w.submissions
            (stored (transition_status id submitting) w) refl
            (λ i e.
              let m = moved_stored w i e in
              commit-Reserved i (stored (transition_status id submitting) w).1 m.0 m.1);
    }

    reserve-Reserves : (b : Bool) (i : OrderIntent) → Reserves id (reserve port b id i)
    unfolding reserve
    reserve-Reserves b i =
        let allowed =
          kept-Silent _ (λ l. assert_entries_allowed-EngineKeeps port Anything-steps b i) in
        let tradable =
          kept-Silent _ (λ l. assert_asset_tradable-EngineKeeps port Anything-steps i) in
        Reserves-bind _
          (λ _.
            Reserves-bind _ (λ _. Reserves-bind _ (λ _. transition_status-Reserves) _ allowed) _
              tradable)
          _ allowed

    -- Sending an intent from the outbox makes at most one submission, and then of an intent that the
    -- committed tables hold under this id as SUBMITTING, whatever the broker answers and whichever
    -- calls fail.
    pub submit_from_outbox-Reserved :
        (has_control : Bool) (w : EngineWorld B)
        → Reserved id w.submissions (submit_from_outbox port has_control id w).1.submissions
    unfolding submit_from_outbox
    submit_from_outbox-Reserved has_control w =
        (Reserves-bind _
            (λ i.
              Reserves-if (not (same_status i.status outbox_pending)) (pure i) _
                (Silent-Reserves _ (record { silent = λ w. refl }))
                (reserve-Reserves has_control i))
            _ (kept-Silent _ (λ l. require_intent-EngineKeeps port Anything-steps id))).reserves
          w
