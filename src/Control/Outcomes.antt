-- ===== src/Control/Outcomes.antt =====
-- What a pause and a resumption that succeed have committed.
use seven_lens_paper_trading.Prelude.{
  All, ◌++◌, ◌∷◌, ◌≡◌, refl, String, Bool, true, false, some, List, [], arith, not, ◌||◌,
}
use seven_lens_paper_trading.Prelude.Result.{ok}
use seven_lens_paper_trading.Prelude.Text.{str_eq}
use seven_lens_paper_trading.Prelude.Sorting.{sorted}
use seven_lens_paper_trading.Orders.Mirror.{bounded_text}
use seven_lens_paper_trading.Orders.Status.{unknown, review_required}
use seven_lens_paper_trading.Store.Monad.{Tables, ControlCommand, CommandRecord, call, commit}
use seven_lens_paper_trading.Store.Repository.{
  intent_leb, with_status, list_by_status, entries_paused_now, add_command, add_command_step,
  logged, pause_entries_with,
}
use seven_lens_paper_trading.TradeUpdates.Safety.{IsPaused}
use seven_lens_paper_trading.Engine.Port.{Port}
use seven_lens_paper_trading.Engine.Monad.{EngineWorld, ◌>>=◌, stored, attempt, now}
use seven_lens_paper_trading.Engine.Submit.{is_empty, has_unresolved_intents, release}
use seven_lens_paper_trading.Control.{
  audit_row, record_command, pause, latest_run, latest, resume_safe, resume_with, under_guard,
  resume, resume_now, resume_reason, unpause,
}

module _ {B : Type 0} (port : Port B) where
  -- A pause that returns has paused entries durably, whichever calls fail.
  pub pause-IsPaused :
      (id reason actor : String) (w : EngineWorld B)
      → (pause port id reason actor w).0 ≡ ok tt
      → IsPaused (pause port id reason actor w).1.store.durable
  unfolding pause record_command ◌>>=◌ stored now call commit add_command add_command_step
      pause_entries_with
  pause-IsPaused id reason actor w h = ground arith

-- No row of the log has this id, as for a fresh `uuid4`.
abbrev pub IsFresh : String → List CommandRecord → Type 0
IsFresh id commands = All (λ (c : CommandRecord). str_eq c.command_id id ≡ false) commands

pub logged-some :
    (c : CommandRecord) (commands : List CommandRecord)
    → IsFresh c.command_id commands
    → logged c commands ≡ some (commands ++ c ∷ [])
unfolding logged
logged-some c [] h = refl
logged-some c (x ∷ xs) h = rw (h.0, logged-some c xs h.1) refl

reason_bounded : bounded_text 200 resume_reason ≡ true
unfolding bounded_text
reason_bounded = refl

-- Some intent is listed under one of the two statuses that block a resumption.
abbrev pub lists_unresolved : Tables → Bool
lists_unresolved t =
    not (is_empty (with_status unknown (sorted intent_leb t.orders.intents)))
    || not (is_empty (with_status review_required (sorted intent_leb t.orders.intents)))

module _ {B : Type 0} (port : Port B) where
  -- A resumption whose calls all work returns and has unpaused entries durably, when the latest recorded
  -- run is safe to resume on, no intent is UNKNOWN or REVIEW_REQUIRED, the actor is bounded text and the
  -- id of the audit row is fresh.
  pub resume_completes :
      (id actor : String) (w : EngineWorld B)
      → w.store.faults ≡ []
      → resume_safe (latest_run w.store.working.runs) ≡ true
      → lists_unresolved w.store.working ≡ false
      → bounded_text 100 actor ≡ true
      → IsFresh id w.store.working.control.commands
      → ((resume port id actor w).0 ≡ ok tt)
        × ((resume port id actor w).1.store.durable.control.entries_paused ≡ false)
  unfolding resume under_guard resume_with resume_now record_command has_unresolved_intents release
      ◌>>=◌ stored attempt now call commit latest unpause add_command add_command_step
      list_by_status entries_paused_now
  resume_completes id actor w calm safe settled named fresh =
      let row =
        audit_row id ControlCommand.resume_entries resume_reason actor (port.clock w.broker).0 in
      let l = logged-some row w.store.working.control.commands fresh in
      (ground (arith, l, reason_bounded), ground (arith, l, reason_bounded))
