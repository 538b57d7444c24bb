-- ===== src/Control/Resume.antt =====
-- When entries cannot be resumed, and that a pause is committed.
use seven_lens_paper_trading.Prelude.{
  ◌≡◌, ◌⊎◌, inl, inr, String, Bool, true, false, Option, some, List, arith,
}
use seven_lens_paper_trading.Prelude.Result.{Result, ok, err}
use seven_lens_paper_trading.Prelude.Dict.{lookup}
use seven_lens_paper_trading.Prelude.Sorting.{sorted}
use seven_lens_paper_trading.Orders.Status.{OrderStatus, unknown, review_required}
use seven_lens_paper_trading.Orders.Intent.{OrderIntent}
use seven_lens_paper_trading.Reconciliation.{ReconciliationResult}
use seven_lens_paper_trading.Store.Monad.{Tables, World, call}
use seven_lens_paper_trading.Store.Repository.{
  intent_leb, with_status, list_by_status, entries_paused_now,
}
use seven_lens_paper_trading.Store.Keeps.{Both, Keeps, Keeps-call, Keeps-commit, Keeps-rollback}
use seven_lens_paper_trading.TradeUpdates.Safety.{IsPaused}
use seven_lens_paper_trading.Engine.Port.{Port, EngineError}
use seven_lens_paper_trading.Engine.Monad.{Submission, EngineWorld, E, ◌>>=◌, stored}
use seven_lens_paper_trading.Engine.Submit.{is_empty, has_unresolved_intents, release}
use seven_lens_paper_trading.Engine.Keeps.{
  Holds, EngineKeeps, EngineKeeps-pure, EngineKeeps-raise, EngineKeeps-if, EngineKeeps-bind,
  EngineKeeps-attempt, EngineKeeps-stored, EngineKeeps-known,
}
use seven_lens_paper_trading.Engine.Unresolved.{listed}
use seven_lens_paper_trading.Control.{
  latest_run, latest, resume_safe, resume_with, under_guard, resume,
}

-- Some recorded intent is UNKNOWN or REVIEW_REQUIRED.
pub record HasUnresolved (t : Tables) : Type 0 where
  pub id : String
  pub intent : OrderIntent
  pub found : lookup id t.orders.intents ≡ some intent
  pub open_status : (intent.status ≡ unknown) ⊎ (intent.status ≡ review_required)

-- A status under which `t` lists some intent.
abbrev Lists : OrderStatus → Tables → Type 0
Lists status t = is_empty (with_status status (sorted intent_leb t.orders.intents)) ≡ false

HasUnresolved-Lists : (t : Tables) → HasUnresolved t → Lists unknown t ⊎ Lists review_required t
HasUnresolved-Lists t h = elim h.open_status [
  | inl e ↦ inl (listed unknown h.id h.intent t.orders.intents h.found e)
  | inr e ↦ inr (listed review_required h.id h.intent t.orders.intents h.found e)
]

abbrev Anything : List Submission → Type 0
Anything l = Unit {0}

abbrev KeepsTables : {B A : Type 0} → (Tables → Type 0) → E B A → Type 0
KeepsTables Q m = EngineKeeps Q Anything m

module _ {B : Type 0} (port : Port B) {Q : Tables → Type 0} where
  read-Keeps : (status : OrderStatus) → Keeps Q (list_by_status status)
  unfolding list_by_status
  read-Keeps status = Keeps-call _ (λ t h. h)

  paused-Keeps : Keeps Q entries_paused_now
  unfolding entries_paused_now
  paused-Keeps = Keeps-call _ (λ t h. h)

  latest-Keeps : Keeps Q latest
  unfolding latest
  latest-Keeps = Keeps-call _ (λ t h. h)

  has_unresolved_intents-Keeps : KeepsTables Q (has_unresolved_intents port)
  unfolding has_unresolved_intents
  has_unresolved_intents-Keeps =
      search (EngineKeeps-bind, EngineKeeps-if, EngineKeeps-pure, EngineKeeps-stored, read-Keeps)

  release-Keeps : {A : Type 0} (r : Result EngineError A) → KeepsTables Q (release port r)
  unfolding release
  release-Keeps (ok a) =
      search (EngineKeeps-bind, EngineKeeps-pure, EngineKeeps-stored, Keeps-commit)
  release-Keeps (err e) =
      search (EngineKeeps-bind, EngineKeeps-raise, EngineKeeps-stored, Keeps-rollback)

  unsafe-Keeps :
      (id actor : String) (run : Option ReconciliationResult)
      → resume_safe run ≡ false
      → KeepsTables Q (resume_with port id actor run)
  unfolding resume_with
  unsafe-Keeps id actor run e = rw e (EngineKeeps-raise _)

  -- a resumption whose part under the guard keeps something for the runs that can be read
  resume-Keeps :
      (id actor : String) (P : Option ReconciliationResult → Type 0)
      → ((w : EngineWorld B)
          → Holds Q Anything w
          → (run : Option ReconciliationResult) → (stored latest w).0 ≡ ok run
          → P run)
      → ((run : Option ReconciliationResult)
          → P run
          → KeepsTables Q (resume_with port id actor run))
      → KeepsTables Q (resume port id actor)
  unfolding resume under_guard
  resume-Keeps id actor P known k = EngineKeeps-bind _ _ (EngineKeeps-stored _ paused-Keeps) (λ p.
      EngineKeeps-bind _ _
        (EngineKeeps-attempt _
          (EngineKeeps-known _ P k (stored latest) (EngineKeeps-stored _ latest-Keeps) known))
        release-Keeps)

-- The latest recorded run is not one to resume on, or there is none.
abbrev pub IsUnsafe : Tables → Type 0
IsUnsafe t = resume_safe (latest_run t.runs) ≡ false

paired : {P Q : Tables → Type 0} {w : World} → Both P w → Both Q w → Both (λ t. P t × Q t) w
paired p q = record { seen = (p.seen, q.seen); saved = (p.saved, q.saved) }

abbrev Blocked : Tables → Type 0
Blocked t = IsPaused t × HasUnresolved t

module _ {B : Type 0} (port : Port B) where
  sees_unresolved :
      (w : EngineWorld B)
      → Holds Blocked Anything w
      → (b : Bool) → (has_unresolved_intents port w).0 ≡ ok b
      → b ≡ true
  unfolding has_unresolved_intents ◌>>=◌ stored list_by_status call
  sees_unresolved w h b e = elim (HasUnresolved-Lists w.store.working h.tables.seen.1) [
    | inl lost ↦ ground (arith, lost)
    | inr held ↦ ground (arith, held)
  ]

  unresolved-Keeps :
      (id actor : String) (run : Option ReconciliationResult)
      → KeepsTables Blocked (resume_with port id actor run)
  unfolding resume_with
  unresolved-Keeps id actor run = EngineKeeps-if _ _ _ (EngineKeeps-raise _) (
      EngineKeeps-known _ (λ b. b ≡ true) (λ b e. rw e (EngineKeeps-raise _))
        (has_unresolved_intents port) (has_unresolved_intents-Keeps port) sees_unresolved)

  reads_unsafe :
      (w : EngineWorld B)
      → Holds (λ t. IsPaused t × IsUnsafe t) Anything w
      → (run : Option ReconciliationResult) → (stored latest w).0 ≡ ok run
      → resume_safe run ≡ false
  unfolding stored latest call
  reads_unsafe w h run e = ground (arith, h.tables.seen.1)

  -- Entries that are paused, in the transaction and durably, stay so after an attempt to resume them,
  -- whichever calls fail, if in both the latest recorded run is not safe to resume on (or there is
  -- none), or if in both an intent that is UNKNOWN or REVIEW_REQUIRED is recorded.
  pub resume_refused :
      (id actor : String) (w : EngineWorld B)
      → Both IsPaused w.store
      → Both IsUnsafe w.store ⊎ Both HasUnresolved w.store
      → Both IsPaused (resume port id actor w).1.store
  resume_refused id actor w paused (inl unsafe) =
      let after =
        ((resume-Keeps port id actor (λ run. resume_safe run ≡ false) reads_unsafe
            (unsafe-Keeps port id actor)).at
          w (record { tables = paired paused unsafe; made = tt })).tables in
      record { seen = after.seen.0; saved = after.saved.0 }
  resume_refused id actor w paused (inr unresolved) =
      let after =
        ((resume-Keeps port id actor (λ run. Unit {0}) (λ w h run e. tt)
            (λ run e. unresolved-Keeps id actor run)).at
          w (record { tables = paired paused unresolved; made = tt })).tables in
      record { seen = after.seen.0; saved = after.saved.0 }
