-- ===== src/Engine/Fires.antt =====
-- Which actions of the engine submit, and how often.
use seven_lens_paper_trading.Prelude.{
  ◌≡◌, refl, ◌∙◌, Bool, true, false, inl, inr, ◌⊎◌, List, ◌∷◌, arith, if◌then◌else◌,
}
use seven_lens_paper_trading.Prelude.Result.{Result, ok, err}
use seven_lens_paper_trading.Orders.Status.{OrderStatus}
use seven_lens_paper_trading.Orders.Intent.{OrderIntent}
use seven_lens_paper_trading.Store.Monad.{Tables, call}
use seven_lens_paper_trading.Store.Repository.{list_by_status, entries_paused_now}
use seven_lens_paper_trading.Store.Keeps.{StepsKeep}
use seven_lens_paper_trading.Engine.Port.{Port, EngineError}
use seven_lens_paper_trading.Engine.Monad.{
  Submission, EngineWorld, E, continue, raise, ◌>>=◌, attempt, stored, submitted,
}
use seven_lens_paper_trading.Engine.Submit.{
  submit_while_guarded, has_unresolved_intents, guarded_entry, enter_guarded, complete_submission,
}
use seven_lens_paper_trading.Engine.Keeps.{EngineKeeps}
use seven_lens_paper_trading.Engine.Steps.{
  after_submit-EngineKeeps, release-EngineKeeps, after_entry-EngineKeeps,
}

-- No submission is made.
pub record Silent {B A : Type 0} (m : E B A) : Type 0 where
  pub silent : (w : EngineWorld B) → (m w).1.submissions ≡ w.submissions

abbrev pub Anything : Tables → Type 0
Anything t = Unit {0}

pub Anything-steps : StepsKeep Anything
Anything-steps = record {
  pausing = λ r t h. tt;
  moving = λ i t u h. tt;
  adding = λ f t h. tt;
  refreshing = λ i s n a t h. tt;
  recording = λ o t h. tt;
  logging = λ c t h. tt;
}

pub kept-Silent :
    {B A : Type 0} (m : E B A)
    → ((l : List Submission) → EngineKeeps Anything (λ l'. l' ≡ l) m)
    → Silent m
kept-Silent m k = record {
  silent = λ w.
      ((k w.submissions).at w
        (record { tables = record { seen = tt; saved = tt }; made = refl })).made;
}

-- Nothing is written and no submission is made.
pub record Reads {B A : Type 0} (m : E B A) : Type 0 where
  pub quiet : (w : EngineWorld B) → (m w).1.submissions ≡ w.submissions
  pub seen_same : (w : EngineWorld B) → (m w).1.store.working ≡ w.store.working
  pub saved_same : (w : EngineWorld B) → (m w).1.store.durable ≡ w.store.durable

-- At most one submission is made, of `i`, with the committed tables of the beginning.
pub record Fires {B A : Type 0} (i : OrderIntent) (m : E B A) : Type 0 where
  pub fires :
      (w : EngineWorld B)
      → ((m w).1.submissions ≡ w.submissions)
        ⊎ ((m w).1.submissions ≡ record { intent = i; durable = w.store.durable } ∷ w.submissions)

module _ {B : Type 0} where
  pub read-Reads :
      {A : Type 0} (f : Tables → Result _ A) → Reads {B = B} (stored (call (λ t. (f t, t))))
  unfolding stored call
  read-Reads f = record {
    quiet = λ w. refl;
    seen_same = λ w. ground arith;
    saved_same = λ w. ground arith;
  }

  Silent-Fires : {A : Type 0} {i : OrderIntent} (m : E B A) → Silent m → Fires i m
  Silent-Fires m s = record { fires = λ w. inl (s.silent w) }

  Fires-if :
      {A : Type 0} {i : OrderIntent} (b : Bool) (m n : E B A)
      → Fires i m
      → Fires i n
      → Fires i (if b then m else n)
  Fires-if true m n h k = h
  Fires-if false m n h k = k

  Fires-attempt : {A : Type 0} {i : OrderIntent} (m : E B A) → Fires i m → Fires i (attempt m)
  unfolding attempt
  Fires-attempt m h = record { fires = h.fires }

  pub Silent-raise : {A : Type 0} (e : EngineError) → Silent {B = B} (raise {A = A} e)
  Silent-raise e = record { silent = λ w. refl }

  module _ {A C : Type 0} (f : A → E B C) (kf : (a : A) → Silent (f a)) where
    pub continue_silent :
        (p : Result EngineError A × EngineWorld B)
        → (continue p.0 f p.1).1.submissions ≡ p.1.submissions
    continue_silent (ok a, w) = (kf a).silent w
    continue_silent (err e, w) = refl

    pub Silent-bind : (m : E B A) → Silent m → Silent (m >>= f)
    unfolding ◌>>=◌
    Silent-bind m h = record { silent = λ w. continue_silent (m w) ∙ h.silent w }

  module _ {A C : Type 0} {i : OrderIntent} (f : A → E B C) where
    continue_read :
        ((a : A) → Fires i (f a))
        → (l : List Submission) (d : Tables) (p : Result EngineError A × EngineWorld B)
        → p.1.submissions ≡ l
        → p.1.store.durable ≡ d
        → ((continue p.0 f p.1).1.submissions ≡ l)
          ⊎ ((continue p.0 f p.1).1.submissions ≡ record { intent = i; durable = d } ∷ l)
    continue_read kf l d (ok a, w) h k = elim ((kf a).fires w) [
      | inl e ↦ inl (e ∙ h)
      | inr e ↦ inr (cc)
    ]
    continue_read kf l d (err e, w) h k = inl h

    Reads-Fires : (m : E B A) → Reads m → ((a : A) → Fires i (f a)) → Fires i (m >>= f)
    unfolding ◌>>=◌
    Reads-Fires m r kf = record {
      fires =
          λ w. continue_read kf w.submissions w.store.durable (m w) (r.quiet w) (r.saved_same w);
    }

    Fires-then : (m : E B A) → Fires i m → ((a : A) → Silent (f a)) → Fires i (m >>= f)
    unfolding ◌>>=◌
    Fires-then m h kf = record {
      fires = λ w. elim (h.fires w) [
        | inl e ↦ inl (continue_silent f kf (m w) ∙ e)
        | inr e ↦ inr (continue_silent f kf (m w) ∙ e)
      ];
    }

  module _ (port : Port B) (i : OrderIntent) where
    submitted-Fires : Fires i (submitted port i)
    unfolding submitted
    submitted-Fires = record { fires = λ w. inr refl }

    submit_while_guarded-Fires : Fires i (submit_while_guarded port i)
    unfolding submit_while_guarded
    submit_while_guarded-Fires =
        Fires-then _ _ (Fires-attempt _ submitted-Fires)
          (λ r. kept-Silent _ (λ l. after_submit-EngineKeeps port Anything-steps i r))

    pub pause_read-Reads : Reads {B = B} (stored entries_paused_now)
    unfolding entries_paused_now
    pause_read-Reads = read-Reads _

    list_read-Reads : (status : OrderStatus) → Reads {B = B} (stored (list_by_status status))
    unfolding list_by_status
    list_read-Reads status = read-Reads _

    pub unresolved-Reads : Reads (has_unresolved_intents port)
    unfolding has_unresolved_intents ◌>>=◌ stored list_by_status call
    unresolved-Reads = record {
      quiet = λ w. ground arith;
      seen_same = λ w. ground arith;
      saved_same = λ w. ground arith;
    }

    guarded_entry-Fires : (b : Bool) → Fires i (guarded_entry port i b)
    unfolding guarded_entry
    guarded_entry-Fires b = Fires-if b _ _ (Silent-Fires _ (Silent-raise _)) (
        Reads-Fires _ _ unresolved-Reads
          (λ u. Fires-if u _ _ (Silent-Fires _ (Silent-raise _)) submit_while_guarded-Fires))

    enter_guarded-Fires : Fires i (enter_guarded port i)
    unfolding enter_guarded
    enter_guarded-Fires = Fires-if _ _ _ submit_while_guarded-Fires (
        Reads-Fires _ _ pause_read-Reads (λ b.
          Fires-then _ _ (Fires-attempt _ (guarded_entry-Fires b))
            (λ r. kept-Silent _ (λ l. release-EngineKeeps port Anything-steps r))))

    pub complete_submission-Fires : Fires i (complete_submission port i)
    unfolding complete_submission
    complete_submission-Fires =
        Fires-then _ _ (Fires-attempt _ enter_guarded-Fires)
          (λ r. kept-Silent _ (λ l. after_entry-EngineKeeps port Anything-steps i r))
