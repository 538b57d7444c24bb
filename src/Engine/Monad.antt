-- ===== src/Engine/Monad.antt =====
-- The actions of the engine: on the store, on the broker, and on a record of the submissions, which
-- the program does not keep and which the theorems speak about.
use seven_lens_paper_trading.Prelude.{ℕ, List, ◌∷◌}
use seven_lens_paper_trading.Prelude.Result.{Result, ok, err}
use seven_lens_paper_trading.Orders.Intent.{OrderIntent}
use seven_lens_paper_trading.Store.Monad.{Tables, World, Exn, M}
use seven_lens_paper_trading.Engine.Port.{Port, Reply, SubmitResult, EngineError, store_error}

-- One call of `submit_order`, with what was committed when it was made.
pub record Submission : Type 0 where
  pub intent : OrderIntent
  pub durable : Tables

pub record EngineWorld (B : Type 0) : Type 0 where
  pub store : World
  pub broker : B
  pub submissions : List Submission

abbrev pub E : Type 0 → Type 0 → Type 0
E B A = EngineWorld B → Result EngineError A × EngineWorld B

abbrev pub of_store : {A : Type 0} → Result Exn A → Result EngineError A
of_store (ok a) = ok a
of_store (err e) = err store_error

module _ {B : Type 0} where
  abbrev pub continue : {A C : Type 0} → Result EngineError A → (A → E B C) → E B C
  continue (ok a) f w = f a w
  continue (err e) f w = (err e, w)

  abbrev pub pure : {A : Type 0} → A → E B A
  pure a w = (ok a, w)

  abbrev pub raise : {A : Type 0} → EngineError → E B A
  raise e w = (err e, w)

  infixl 5 ◌>>=◌ ◌>>◌
  unfoldable pub ◌>>=◌ : {A C : Type 0} → E B A → (A → E B C) → E B C
  ◌>>=◌ m f w = let (r, w') = m w in continue r f w'

  abbrev pub ◌>>◌ : {A C : Type 0} → E B A → E B C → E B C
  m >> k = m >>= λ _. k

  -- `try`, up to the handlers: what `m` returned or raised
  unfoldable pub attempt : {A : Type 0} → E B A → E B (Result EngineError A)
  attempt m w = let (r, w') = m w in (ok r, w')

  abbrev pub answer : {A : Type 0} → Result EngineError A → E B A
  answer (ok a) = pure a
  answer (err e) = raise e

  -- a call of the unit of work
  unfoldable pub stored : {A : Type 0} → M A → E B A
  stored m w = let (r, s) = m w.store in (of_store r, record w { store = s })

  -- a call of the broker other than `submit_order`
  unfoldable pub asked : {A : Type 0} → Reply B A → E B A
  asked f w = let (r, b) = f w.broker in (r, record w { broker = b })

  -- `clock()`
  unfoldable pub now : Port B → E B ℕ
  now port w = let (t, b) = port.clock w.broker in (ok t, record w { broker = b })

  -- `submit_order(intent)`
  unfoldable pub submitted : Port B → OrderIntent → E B SubmitResult
  submitted port intent w =
      let (r, b) = port.submit_order intent w.broker in
      (
        r,
        record w {
          broker = b;
          submissions = record { intent = intent; durable = w.store.durable } ∷ w.submissions;
        },
      )
