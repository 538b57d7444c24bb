-- ===== src/TradeUpdates/Pauses.antt =====
-- When every call works, a refused update always leaves the durable pause.
use mathlib.Core.Path.{subst}
use seven_lens_paper_trading.Prelude.{
  ◌≡◌, ◌≢◌, refl, String, Bool, true, false, ◌||◌, ◌⊎◌, inl, inr, Option, none, some, [],
  Option-cases, if◌then◌else◌,
}
use seven_lens_paper_trading.Prelude.Result.{Result, ok, err}
use seven_lens_paper_trading.Prelude.Dict.{lookup}
use seven_lens_paper_trading.Orders.Status.{review_required, unknown, same_status}
use seven_lens_paper_trading.Orders.Intent.{OrderIntent}
use seven_lens_paper_trading.Store.Monad.{
  Tables, World, Exn, trade_update_error, other_exception, M, pure, ◌>>=◌, try_catch, call, commit,
  suppressed_rollback, persist_safety_pause, continue, handled,
}
use seven_lens_paper_trading.Store.Repository.{
  Step, get_intent, transition_step, transition_status, pause_entries_with, control_updated_at,
  add_command, add_command_step, logged,
}
use seven_lens_paper_trading.TradeUpdates.Conflict.{
  Conflict, abandon, mark_intent, persist_conflict_marker, marker_failed, pause_durably,
  audit_pause, persist_conflict_pause, pause_command,
}
use seven_lens_paper_trading.TradeUpdates.Safety.{IsPaused}

-- A world in which every call works.
abbrev pub calm : Tables → Tables → World
calm seen saved = record { working = seen; durable = saved; faults = [] }

abbrev pub IsCalm : World → Type 0
IsCalm w = w.faults ≡ []

-- What a call to the pause leaves: it is durable, and the calls to come still work.
pub record Paused {A : Type 0} (p : Result Exn A × World) : Type 0 where
  pub still_calm : IsCalm p.1
  pub durable_pause : IsPaused p.1.durable

audit_pause-Paused :
    (id : String) (c : Conflict) (seen saved : Tables)
    → IsPaused seen
    → IsPaused saved
    → Paused (audit_pause id c (calm seen saved))
unfolding audit_pause abandon ◌>>=◌ try_catch call commit suppressed_rollback control_updated_at
    add_command add_command_step logged
audit_pause-Paused id c seen saved h k =
    elim (Option-cases
      (logged (pause_command id c seen.control.updated_at) seen.control.commands)) [
        | inl refused ↦ rw refused (record { still_calm = refl; durable_pause = k })
        | inr (l, e) ↦ rw e (record { still_calm = refl; durable_pause = h })
      ]

pause_audit-Paused :
    (id : String) (c : Conflict) (seen saved : Tables)
    → Paused ((pause_durably c >>= (λ _. audit_pause id c)) (calm seen saved))
unfolding pause_durably ◌>>=◌ try_catch call commit pause_entries_with
pause_audit-Paused id c seen saved = audit_pause-Paused id c _ _ refl refl

Pair-cases :
    {A : Type 0} (p : Result Exn A × Tables)
    → ((a : A) × (t : Tables) × (p ≡ (ok a, t))) ⊎ ((e : Exn) × (t : Tables) × (p ≡ (err e, t)))
Pair-cases (ok a, t) = inl (a, t, refl)
Pair-cases (err e, t) = inr (e, t, refl)

abbrev IsExpected : Result Exn (Unit {0}) → Type 0
IsExpected r = r ≢ err other_exception

-- No exception, or a TradeUpdateError, and the calls to come still work.
record Marked (p : Result Exn (Unit {0}) × World) : Type 0 where
  still_calm : IsCalm p.1
  expected : IsExpected p.0

not_other : IsExpected (err trade_update_error)
not_other e = cc

not_err : IsExpected (ok tt)
not_err e = cc

step-Marked :
    {A : Type 0} (f : Step A) (seen saved : Tables)
    → Marked (try_catch (call f >>= (λ _. commit)) abandon (calm seen saved))
unfolding abandon ◌>>=◌ try_catch call commit suppressed_rollback
step-Marked f seen saved = elim (Pair-cases (f seen)) [
  | inl (a, t, e) ↦ rw e (record { still_calm = refl; expected = not_err })
  | inr (x, t, e) ↦ rw e (record { still_calm = refl; expected = not_other })
]

if-Marked :
    (b : Bool) (m n : M (Unit {0})) (w : World)
    → Marked (m w)
    → Marked (n w)
    → Marked ((if b then m else n) w)
if-Marked true m n w h k = h
if-Marked false m n w h k = k

mark_intent-Marked :
    (id : String) (o : Option OrderIntent) (seen saved : Tables)
    → Marked (mark_intent id o (calm seen saved))
unfolding mark_intent transition_status
mark_intent-Marked id none seen saved = record { still_calm = refl; expected = not_other }
mark_intent-Marked id (some intent) seen saved =
    if-Marked (same_status intent.status unknown || same_status intent.status review_required)
      (pure tt) (try_catch (call (transition_step id review_required) >>= (λ _. commit)) abandon)
      (calm seen saved) (record { still_calm = refl; expected = not_err })
      (step-Marked (transition_step id review_required) seen saved)

marker-Marked :
    (id : String) (seen saved : Tables) → Marked (persist_conflict_marker id (calm seen saved))
unfolding persist_conflict_marker ◌>>=◌ call get_intent
marker-Marked id seen saved = mark_intent-Marked id (lookup id seen.orders.intents) seen saved

abbrev rest_of_pause :
    String → Conflict → Result Exn (Unit {0}) × World → Result Exn (Unit {0}) × World
rest_of_pause id c p =
    let (r, w) = handled p.0 (marker_failed c) p.1 in
    continue r (λ _. pause_durably c >>= (λ _. audit_pause id c)) w

pause_at_calm :
    (id : String) (c : Conflict) (r : Result Exn (Unit {0})) (seen saved : Tables)
    → IsExpected r
    → Paused (rest_of_pause id c (r, calm seen saved))
unfolding marker_failed ◌>>=◌ try_catch persist_safety_pause
pause_at_calm id c (ok tt) seen saved h = pause_audit-Paused id c seen saved
pause_at_calm id c (err trade_update_error) seen saved h = record {
  still_calm = refl;
  durable_pause = refl;
}
pause_at_calm id c (err other_exception) seen saved h = absurd (h refl)

pub calm_eta : (w : World) → IsCalm w → calm w.working w.durable ≡ w
calm_eta w h = cc

pause_after :
    (id : String) (c : Conflict) (p : Result Exn (Unit {0}) × World)
    → Marked p
    → Paused (rest_of_pause id c p)
pause_after id c (r, w) h =
    subst (λ v. Paused (rest_of_pause id c (r, v))) (calm_eta w h.still_calm)
      (pause_at_calm id c r w.working w.durable h.expected)

pub persist_conflict_pause-Paused :
    (id : String) (c : Conflict) (seen saved : Tables)
    → Paused (persist_conflict_pause id c (calm seen saved))
unfolding persist_conflict_pause ◌>>=◌ try_catch
persist_conflict_pause-Paused id c seen saved =
    pause_after id c (persist_conflict_marker id (calm seen saved)) (marker-Marked id seen saved)
