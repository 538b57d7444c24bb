-- ===== src/Engine/Keeps.antt =====
-- What the engine's methods keep, whatever the broker answers and however the store's calls fail: one
-- rule for each way to build an action.
use seven_lens_paper_trading.Prelude.{◌≡◌, refl, Bool, true, false, List, if◌then◌else◌}
use seven_lens_paper_trading.Prelude.Result.{Result, ok, err}
use seven_lens_paper_trading.Store.Monad.{Tables, M}
use seven_lens_paper_trading.Store.Keeps.{Both, Keeps}
use seven_lens_paper_trading.Engine.Port.{Port, Reply, EngineError}
use seven_lens_paper_trading.Engine.Monad.{
  Submission, EngineWorld, E, continue, pure, raise, ◌>>=◌, attempt, answer, stored, asked, now,
}

-- The tables, seen and committed, satisfy `Q`, and the submissions so far `R`.
pub record Holds {B : Type 0} (Q : Tables → Type 0) (R : List Submission → Type 0)
    (w : EngineWorld B) : Type 0 where
  pub tables : Both Q w.store
  pub made : R w.submissions

pub record EngineKeeps {B A : Type 0} (Q : Tables → Type 0) (R : List Submission → Type 0)
    (m : E B A) : Type 0 where
  pub at : (w : EngineWorld B) → Holds Q R w → Holds Q R (m w).1

module _ {B : Type 0} {Q : Tables → Type 0} {R : List Submission → Type 0} where
  pub EngineKeeps-pure : {A : Type 0} (a : A) → EngineKeeps {B = B} Q R (pure a)
  EngineKeeps-pure a = record { at = λ w h. h }

  pub EngineKeeps-raise : {A : Type 0} (e : EngineError) → EngineKeeps {B = B} Q R (raise {A = A} e)
  EngineKeeps-raise e = record { at = λ w h. h }

  pub EngineKeeps-if :
      {A : Type 0} (b : Bool) (m n : E B A)
      → EngineKeeps Q R m
      → EngineKeeps Q R n
      → EngineKeeps Q R (if b then m else n)
  EngineKeeps-if true m n h k = h
  EngineKeeps-if false m n h k = k

  continue-EngineKeeps :
      {A C : Type 0} (f : A → E B C)
      → ((a : A) → EngineKeeps Q R (f a))
      → (p : Result EngineError A × EngineWorld B) → Holds Q R p.1
      → Holds Q R (continue p.0 f p.1).1
  continue-EngineKeeps f kf (ok a, w) h = (kf a).at w h
  continue-EngineKeeps f kf (err e, w) h = h

  pub EngineKeeps-bind :
      {A C : Type 0} (m : E B A) (f : A → E B C)
      → EngineKeeps Q R m
      → ((a : A) → EngineKeeps Q R (f a))
      → EngineKeeps Q R (m >>= f)
  unfolding ◌>>=◌
  EngineKeeps-bind m f k kf = record { at = λ w h. continue-EngineKeeps f kf (m w) (k.at w h) }

  pub EngineKeeps-attempt :
      {A : Type 0} (m : E B A) → EngineKeeps Q R m → EngineKeeps Q R (attempt m)
  unfolding attempt
  EngineKeeps-attempt m k = record { at = k.at }

  pub EngineKeeps-answer :
      {A : Type 0} (r : Result EngineError A) → EngineKeeps {B = B} Q R (answer r)
  EngineKeeps-answer (ok a) = record { at = λ w h. h }
  EngineKeeps-answer (err e) = record { at = λ w h. h }

  pub EngineKeeps-stored : {A : Type 0} (m : M A) → Keeps Q m → EngineKeeps {B = B} Q R (stored m)
  unfolding stored
  EngineKeeps-stored m k = record {
    at = λ w h. record { tables = k.at w.store h.tables; made = h.made };
  }

  pub EngineKeeps-asked : {A : Type 0} (f : Reply B A) → EngineKeeps {B = B} Q R (asked f)
  unfolding asked
  EngineKeeps-asked f = record { at = λ w h. record { tables = h.tables; made = h.made } }

  pub EngineKeeps-now : (port : Port B) → EngineKeeps Q R (now port)
  unfolding now
  EngineKeeps-now port = record { at = λ w h. record { tables = h.tables; made = h.made } }

  -- What follows has to be known only for the answers that `m` can give.
  module _ {A C : Type 0} (f : A → E B C) (P : A → Type 0)
      (kf : (a : A) → P a → EngineKeeps Q R (f a)) where
    continue_known :
        (p : Result EngineError A × EngineWorld B)
        → Holds Q R p.1
        → ((a : A) → p.0 ≡ ok a → P a)
        → Holds Q R (continue p.0 f p.1).1
    continue_known (ok a, w) h k = (kf a (k a refl)).at w h
    continue_known (err e, w) h k = h

    pub EngineKeeps-known :
        (m : E B A)
        → EngineKeeps Q R m
        → ((w : EngineWorld B) → Holds Q R w → (a : A) → (m w).0 ≡ ok a → P a)
        → EngineKeeps Q R (m >>= f)
    unfolding ◌>>=◌
    EngineKeeps-known m k known = record { at = λ w h. continue_known (m w) (k.at w h) (known w h) }
