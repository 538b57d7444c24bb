-- ===== src/Engine/Unresolved.antt =====
-- Under the guard, an entry whose outcome is unknown is not submitted again: it is itself an unresolved
-- intent.
use seven_lens_paper_trading.Prelude.{
  ℕ, leb, sum_by, ◌≡◌, ◌≤◌, refl, sym, ◌∙◌, String, Bool, true, false, not, ◌||◌, Option, none,
  some, [], ◌∷◌, arith, if◌then◌else◌,
}
use seven_lens_paper_trading.Prelude.Result.{Result, ok, err}
use seven_lens_paper_trading.Prelude.Dict.{Dict, lookup}
use mathlib.Core.Path.{subst}
use seven_lens_paper_trading.Prelude.Sorting.{sorted, sum_by-sorted}
use seven_lens_paper_trading.Orders.Status.{
  OrderStatus, unknown, submitting, same_status, same_status_iff,
}
use seven_lens_paper_trading.Orders.Mirror.{BrokerOrder}
use seven_lens_paper_trading.Orders.Intent.{OrderIntent}
use seven_lens_paper_trading.Store.Monad.{Tables, call}
use seven_lens_paper_trading.Store.Repository.{
  intent_leb, with_status, list_by_status, get_intent, entries_paused_now,
}
use seven_lens_paper_trading.Engine.Port.{Port, Reply, EngineError, execution_paused}
use seven_lens_paper_trading.Engine.Monad.{
  EngineWorld, E, continue, pure, raise, ◌>>=◌, attempt, stored, asked, now,
}
use seven_lens_paper_trading.Engine.Pause.{is_risk_exit, required, require_intent}
use seven_lens_paper_trading.Engine.Submit.{
  is_empty, submit_while_guarded, has_unresolved_intents, guarded_entry, enter_guarded,
  complete_submission, resolve_absent, resolve_with, resolve,
}
use seven_lens_paper_trading.Engine.Steps.{
  close_window-EngineKeeps, release-EngineKeeps, after_entry-EngineKeeps,
  assert_mirror_matches-EngineKeeps, record_accepted-EngineKeeps,
}
use seven_lens_paper_trading.Engine.Fires.{
  Silent, Anything-steps, kept-Silent, Reads, Silent-raise, continue_silent, pause_read-Reads,
  unresolved-Reads, Silent-bind,
}

-- 1 for an intent in this status
abbrev marks : OrderStatus → String × OrderIntent → ℕ
marks status p = if same_status p.1.status status then 1 else 0

module _ (status : OrderStatus) where
  listed_count :
      (d : Dict OrderIntent) → 1 ≤ sum_by (marks status) d → is_empty (with_status status d) ≡ false
  unfolding with_status
  listed_count [] h = ground arith
  listed_count (p ∷ d) h = ground (arith, listed_count d)

  found_count :
      (id : String) (i : OrderIntent) (d : Dict OrderIntent)
      → lookup id d ≡ some i
      → same_status i.status status ≡ true
      → 1 ≤ sum_by (marks status) d
  unfolding lookup
  found_count id i [] h e = ground arith
  found_count id i ((k, j) ∷ d) h e = ground (arith, found_count id i d)

  pub listed :
      (id : String) (i : OrderIntent) (d : Dict OrderIntent)
      → lookup id d ≡ some i
      → i.status ≡ status
      → is_empty (with_status status (sorted intent_leb d)) ≡ false
  listed id i d h e =
      listed_count _
        (rw (sum_by-sorted) (found_count id i d h ((same_status_iff i.status status).1 e)))

-- No submission is made from tables that satisfy `P`.
record Still {B A : Type 0} (P : Tables → Type 0) (m : E B A) : Type 0 where
  still : (w : EngineWorld B) → P w.store.working → (m w).1.submissions ≡ w.submissions

module _ {B : Type 0} {P : Tables → Type 0} where
  Silent-Still : {A : Type 0} (m : E B A) → Silent m → Still P m
  Silent-Still m s = record { still = λ w h. s.silent w }

  Still-if :
      {A : Type 0} (b : Bool) (m n : E B A) → Still P m → Still P n → Still P (if b then m else n)
  Still-if true m n h k = h
  Still-if false m n h k = k

  Still-attempt : {A : Type 0} (m : E B A) → Still P m → Still P (attempt m)
  unfolding attempt
  Still-attempt m h = record { still = h.still }

  module _ {A C : Type 0} (f : A → E B C) where
    Still-then : (m : E B A) → Still P m → ((a : A) → Silent (f a)) → Still P (m >>= f)
    unfolding ◌>>=◌
    Still-then m h kf = record { still = λ w p. continue_silent f kf (m w) ∙ h.still w p }

    module _ (K : A → Type 0) (kf : (a : A) → K a → Still P (f a)) where
      continue_still :
          (p : Result EngineError A × EngineWorld B)
          → P p.1.store.working
          → ((a : A) → p.0 ≡ ok a → K a)
          → (continue p.0 f p.1).1.submissions ≡ p.1.submissions
      continue_still (ok a, w) h k = (kf a (k a refl)).still w h
      continue_still (err e, w) h k = refl

      Reads-Still :
          (m : E B A)
          → Reads m
          → ((w : EngineWorld B) → P w.store.working → (a : A) → (m w).0 ≡ ok a → K a)
          → Still P (m >>= f)
      unfolding ◌>>=◌
      Reads-Still m r known = record {
        still =
            λ w h. continue_still (m w) (subst P (sym (r.seen_same w)) h) (known w h) ∙ r.quiet w;
      }

module _ {B : Type 0} where
  now-Reads : (port : Port B) → Reads (now port)
  unfolding now
  now-Reads port = record { quiet = λ w. refl; seen_same = λ w. refl; saved_same = λ w. refl }

  asked-Reads : {A : Type 0} (f : Reply B A) → Reads (asked f)
  unfolding asked
  asked-Reads f = record { quiet = λ w. refl; seen_same = λ w. refl; saved_same = λ w. refl }

  require_intent-Reads : (id : String) → Reads {B = B} (require_intent id)
  unfolding require_intent required ◌>>=◌ stored get_intent call
  require_intent-Reads id = record {
    quiet = λ w. ground arith;
    seen_same = λ w. ground arith;
    saved_same = λ w. ground arith;
  }

module _ {B : Type 0} (port : Port B) (id : String) (i : OrderIntent) (lost : i.status ≡ unknown)
    (entry : is_risk_exit i.intent_type ≡ false)
    (guarded : port.has_control_repository ≡ true) where
  abbrev Stored : Tables → Type 0
  Stored t = lookup id t.orders.intents ≡ some i

  sees_itself :
      (w : EngineWorld B)
      → Stored w.store.working
      → (b : Bool) → (has_unresolved_intents port w).0 ≡ ok b
      → b ≡ true
  unfolding has_unresolved_intents ◌>>=◌ stored list_by_status call
  sees_itself w h b e = ground (arith, listed unknown id i w.store.working.orders.intents h lost)

  unless_unresolved :
      (b : Bool)
      → b ≡ true
      → Still Stored (if b then raise execution_paused else submit_while_guarded port i)
  unless_unresolved true e = Silent-Still _ (Silent-raise _)
  unless_unresolved false e = cc

  guarded_entry-Still : (b : Bool) → Still Stored (guarded_entry port i b)
  unfolding guarded_entry
  guarded_entry-Still b = Still-if b _ _ (Silent-Still _ (Silent-raise _)) (
      Reads-Still _ (λ u. u ≡ true) unless_unresolved (has_unresolved_intents port)
        (unresolved-Reads port i) sees_itself)

  complete_submission-Still : Still Stored (complete_submission port i)
  unfolding complete_submission enter_guarded
  complete_submission-Still =
      let under : (is_risk_exit i.intent_type || not port.has_control_repository) ≡ false =
        ground (arith, entry, guarded) in
      rw under (
        Still-then _ _
          (Still-attempt _ (
            Reads-Still _ (λ b. Unit {0})
              (λ b e.
                Still-then _ _ (Still-attempt _ (guarded_entry-Still b))
                  (λ r. kept-Silent _ (λ l. release-EngineKeeps port Anything-steps r)))
              (stored entries_paused_now) (pause_read-Reads port i) (λ w h b e. tt)))
          (λ r. kept-Silent _ (λ l. after_entry-EngineKeeps port Anything-steps i r)))

  resolve_with-Still : (o : Option BrokerOrder) → Still Stored (resolve_with port id i o)
  unfolding resolve_with resolve_absent
  resolve_with-Still none =
      Reads-Still _ (λ at. Unit {0})
        (λ at e.
          Still-if (leb i.cancel_at at) _ _
            (Silent-Still _
              (kept-Silent _ (λ l. close_window-EngineKeeps port Anything-steps id i)))
            complete_submission-Still)
        (now port) (now-Reads port) (λ w h a e. tt)
  resolve_with-Still (some o) = Silent-Still _ (
      Silent-bind _ (λ _. kept-Silent _ (λ l. record_accepted-EngineKeeps port Anything-steps i o))
        _ (kept-Silent _ (λ l. assert_mirror_matches-EngineKeeps port Anything-steps i o)))

  requires :
      (w : EngineWorld B)
      → Stored w.store.working
      → (j : OrderIntent) → (require_intent {B = B} id w).0 ≡ ok j
      → j ≡ i
  unfolding require_intent required ◌>>=◌ stored get_intent call
  requires w h j e = ground arith

  asks :
      (j : OrderIntent)
      → j ≡ i
      → Still Stored (asked (port.get_order id) >>= λ o. resolve_with port id j o)
  asks j e = rw e (
      Reads-Still _ (λ o. Unit {0}) (λ o e. resolve_with-Still o) _
        (asked-Reads (port.get_order id)) (λ w h a e. tt))

  -- In a unit of work with a control repository, resolving an intent that is recorded as UNKNOWN and is
  -- not a risk exit makes no submission, whatever the broker answers (also that it does not know the
  -- order), at any time and whichever calls fail.
  pub resolve_unknown :
      (w : EngineWorld B)
      → lookup id w.store.working.orders.intents ≡ some i
      → (resolve port id w).1.submissions ≡ w.submissions
  unfolding resolve
  resolve_unknown w h =
      (Reads-Still _ (λ j. j ≡ i)
          (λ j e.
            Still-if (not (same_status j.status submitting || same_status j.status unknown))
              (pure j) _ (Silent-Still _ (record { silent = λ w. refl })) (asks j e))
          (require_intent id) (require_intent-Reads id) requires).still
        w h
