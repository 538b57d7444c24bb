-- ===== src/Orders/Status/Lifecycle.antt =====
-- What the closed lifecycle map rules out, over every sequence of permitted changes.
use mathlib.Core.Path.{subst}
use seven_lens_paper_trading.Prelude.{
  ℕ, ◌<◌, ◌≡◌, ◌≢◌, refl, ◌⊎◌, inl, inr, Bool, true, false, elem, arith,
}
use seven_lens_paper_trading.Orders.Status.{
  OrderStatus, created, risk_approved, outbox_pending, submitting, acknowledged, partially_filled,
  filled, cancel_pending, canceled, rejected, expired, unknown, review_required,
  terminal_order_statuses, same_status, order_transition_allowed,
}

-- A history of permitted changes.
pub data History : OrderStatus → OrderStatus → Type 0 where
  here : {s : OrderStatus} → History s s
  then : {s t u : OrderStatus} → order_transition_allowed s t ≡ true → History t u → History s u

-- How far an intent has come on its way to the broker; 3 is "may have reached it".
abbrev pub stage : OrderStatus → ℕ
stage created = 0
stage risk_approved = 1
stage outbox_pending = 2
stage _ = 3

-- An intent that may have reached the broker, and is not waiting to be sent.
abbrev past_submitting : OrderStatus → Bool
past_submitting created = false
past_submitting risk_approved = false
past_submitting outbox_pending = false
past_submitting submitting = false
past_submitting _ = true

past_submitting-step :
    (s t : OrderStatus)
    → past_submitting s ≡ true ⊎ (s ≡ submitting)
    → order_transition_allowed s t ≡ true
    → past_submitting t ≡ true
unfolding order_transition_allowed
past_submitting-step s t p h = ground arith

past_submitting-History :
    {s t : OrderStatus} → History s t → past_submitting s ≡ true → past_submitting t ≡ true
past_submitting-History here p = p
past_submitting-History (then {s = s} {t = t} h r) p =
    past_submitting-History r (past_submitting-step s t (inl p) h)

-- Once an intent has left SUBMITTING, no sequence of permitted changes brings it back there, nor to
-- any state before it: there is no path of a blind second submission.
pub no_resubmit :
    (s t : OrderStatus)
    → order_transition_allowed submitting s ≡ true
    → History s t
    → (t ≢ submitting) × (t ≢ outbox_pending) × (t ≢ risk_approved) × (t ≢ created)
no_resubmit s t h r =
    ground (arith, past_submitting-History r (past_submitting-step submitting s (inr refl) h))

unfoldable pub is_terminal : OrderStatus → Bool
unfolding same_status
is_terminal s = elem same_status s terminal_order_statuses

abbrev Settled : OrderStatus → OrderStatus → Type 0
Settled s t = (t ≡ s) ⊎ (t ≡ review_required)

Settled-step :
    (s t u : OrderStatus)
    → is_terminal s ≡ true
    → Settled s t
    → order_transition_allowed t u ≡ true
    → Settled s u
unfolding is_terminal order_transition_allowed
Settled-step s t u p q h = ground arith

Settled-History :
    (s : OrderStatus) {t u : OrderStatus}
    → is_terminal s ≡ true
    → Settled s t
    → History t u
    → Settled s u
Settled-History s p q here = q
Settled-History s p q (then {s = r} {t = t} h rest) =
    Settled-History s p (Settled-step s r t p q h) rest

-- From a terminal status, every sequence of permitted changes stays there or ends in
-- REVIEW_REQUIRED.
terminal_settled :
    (s t : OrderStatus) → is_terminal s ≡ true → History s t → (t ≡ s) ⊎ (t ≡ review_required)
terminal_settled s t p r = Settled-History s p (inl refl) r

-- The statuses that only an order sent to the broker can have.
unfoldable pub is_sent : OrderStatus → Bool
is_sent acknowledged = true
is_sent partially_filled = true
is_sent filled = true
is_sent cancel_pending = true
is_sent canceled = true
is_sent unknown = true
is_sent _ = false

dead_end : OrderStatus → Bool
dead_end rejected = true
dead_end expired = true
dead_end review_required = true
dead_end _ = false

dead_end-step :
    (s t : OrderStatus)
    → dead_end s ≡ true
    → order_transition_allowed s t ≡ true
    → dead_end t ≡ true
unfolding dead_end order_transition_allowed
dead_end-step s t p h = ground arith

dead_end-History : {s t : OrderStatus} → History s t → dead_end s ≡ true → dead_end t ≡ true
dead_end-History here p = p
dead_end-History (then {s = s} {t = t} h r) p = dead_end-History r (dead_end-step s t p h)

dead_end-not-sent : (t : OrderStatus) → dead_end t ≡ true → is_sent t ≡ true → ⊥
unfolding dead_end is_sent
dead_end-not-sent t p q = ground arith

unsent-step :
    (s t : OrderStatus)
    → stage s < 3
    → order_transition_allowed s t ≡ true
    → (stage t < 3) ⊎ (t ≡ submitting) ⊎ (dead_end t ≡ true)
unfolding dead_end order_transition_allowed
unsent-step s t p h = ground arith

unsent-not-sent : (t : OrderStatus) → stage t < 3 → is_sent t ≡ true → ⊥
unfolding is_sent
unsent-not-sent t p q = ground arith

through_submitting :
    {s t : OrderStatus}
    → History s t
    → stage s < 3
    → is_sent t ≡ true
    → History s submitting × History submitting t
through_submitting (here {s = s}) p q = absurd (unsent-not-sent s p q)
through_submitting (then {s = s} {t = t} {u = u} h r) p q = elim (unsent-step s t p h) [
  | inl near ↦ let (before, after) = through_submitting r near q in (then h before, after)
  | inr other ↦ elim other [
    | inl now ↦ (
      then (subst (λ x. order_transition_allowed s x ≡ true) now h) here,
      subst (λ x. History x u) now r,
    )
    | inr gone ↦ absurd (dead_end-not-sent u (dead_end-History r gone) q)
  ]
]

from_created :
    (t : OrderStatus)
    → order_transition_allowed created t ≡ true
    → (t ≡ risk_approved) ⊎ (dead_end t ≡ true)
unfolding dead_end order_transition_allowed
from_created t h = ground arith

submitting-not-dead : dead_end submitting ≡ true → ⊥
unfolding dead_end
submitting-not-dead p = cc

approved_first :
    {s : OrderStatus} → History s submitting → s ≡ created → History risk_approved submitting
approved_first (here) e = cc
approved_first (then {t = t} h r) e =
    elim (from_created t (subst (λ x. order_transition_allowed x t ≡ true) e h)) [
      | inl p ↦ subst (λ x. History x submitting) p r
      | inr d ↦ absurd (submitting-not-dead (dead_end-History r d))
    ]

-- An intent that the broker has acknowledged, filled, canceled or left unknown passed through
-- RISK_APPROVED and after that through SUBMITTING: no status of a sent order is reached around the
-- approval or around the submission.
sent_was_submitted :
    (t : OrderStatus)
    → History created t
    → is_sent t ≡ true
    → History created risk_approved × History risk_approved submitting × History submitting t
unfolding order_transition_allowed
sent_was_submitted t r q =
    let (before, after) = through_submitting r (omega arith) q in
    (then refl here, approved_first before refl, after)
