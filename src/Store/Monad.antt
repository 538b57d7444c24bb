-- ===== src/Store/Monad.antt =====
-- The tables, the transaction around them, and the monad of calls that may raise.
use seven_lens_paper_trading.Prelude.{ℕ, String, Bool, true, Option, some, List, [], ◌∷◌}
use seven_lens_paper_trading.Prelude.Dict.{Dict}
use seven_lens_paper_trading.Prelude.Result.{Result, ok, err}
use seven_lens_paper_trading.Orders.Mirror.{BrokerOrder, Fill}
use seven_lens_paper_trading.Orders.Intent.{OrderIntent}
use seven_lens_paper_trading.Reconciliation.{ReconciliationResult}

-- `FakeOrderRepository`
pub record OrderTables : Type 0 where
  pub intents : Dict OrderIntent
  pub mirrors : Dict BrokerOrder
  pub mirror_by_client : Dict String
  pub fills : List Fill
  pub execution_ids : List String

pub data ControlCommand : Type 0 where
  pause_entries resume_entries cancel_open_orders flatten_paper : ControlCommand

-- `ControlCommandRecord`; the id is the name that `uuid5` hashes
pub record CommandRecord : Type 0 where
  pub command_id : String
  pub command : ControlCommand
  pub reason : String
  pub actor : String
  pub run_id : Option String
  pub requested_at : ℕ
  pub applied_at : Option ℕ

-- `FakeControlRepository`, with the fields of `ControlStateSnapshot`
pub record ControlTables : Type 0 where
  pub entries_paused : Bool
  pub paused_reason : Option String
  pub updated_at : ℕ
  pub flatten_generation : ℕ
  pub commands : List CommandRecord

-- The runs are those of `FakeReconciliationRepository`, in the order of their recording.
pub record Tables : Type 0 where
  pub orders : OrderTables
  pub control : ControlTables
  pub runs : List ReconciliationResult

-- How a call ends: as it should, with an exception, or with an exception after it took effect (an
-- ambiguous commit).
pub data Fault : Type 0 where
  fine failed ambiguous : Fault

-- What the connection sees, what is committed, and the faults of the calls to come.
pub record World : Type 0 where
  pub working : Tables
  pub durable : Tables
  pub faults : List Fault

-- `TradeUpdateError`, and every other exception.
pub data Exn : Type 0 where
  trade_update_error other_exception : Exn

abbrev pub M : Type 0 → Type 0
M A = World → Result Exn A × World

abbrev pub continue : {A B : Type 0} → Result Exn A → (A → M B) → M B
continue (ok a) f w = f a w
continue (err e) f w = (err e, w)

module _ {A : Type 0} where
  abbrev pub pure : A → M A
  pure a w = (ok a, w)

  abbrev pub raise : Exn → M A
  raise e w = (err e, w)

infixl 5 ◌>>=◌ ◌>>◌
unfoldable pub ◌>>=◌ : {A B : Type 0} → M A → (A → M B) → M B
◌>>=◌ m f w = let (r, w') = m w in continue r f w'

abbrev pub ◌>>◌ : {A B : Type 0} → M A → M B → M B
m >> k = m >>= λ _. k

abbrev pub handled : {A : Type 0} → Result Exn A → (Exn → M A) → M A
handled (ok a) h w = (ok a, w)
handled (err e) h w = h e w

-- `try: m` with the handlers `h`
unfoldable pub try_catch : {A : Type 0} → M A → (Exn → M A) → M A
try_catch m h w = let (r, w') = m w in handled r h w'

abbrev pub rest_of : List Fault → List Fault
rest_of [] = []
rest_of (f ∷ fs) = fs

abbrev pub first_of_faults : List Fault → Fault
first_of_faults [] = fine
first_of_faults (f ∷ fs) = f

-- The world after the fault of one call has been used up.
abbrev pub spend : World → World
spend w = record w { faults = rest_of w.faults }

-- A call other than a commit: with a fault it raises and does nothing.
abbrev pub called : {A : Type 0} → Fault → (Tables → Result Exn A × Tables) → M A
called fine f w = let (r, t) = f w.working in (r, record w { working = t })
called failed f w = (err other_exception, w)
called ambiguous f w = (err other_exception, w)

unfoldable pub call : {A : Type 0} → (Tables → Result Exn A × Tables) → M A
call f w = called (first_of_faults w.faults) f (spend w)

abbrev pub committed : Fault → M (Unit {0})
committed fine w = (ok tt, record w { durable = w.working })
committed failed w = (err other_exception, w)
committed ambiguous w = (err other_exception, record w { durable = w.working })

-- `commit()`
unfoldable pub commit : M (Unit {0})
commit w = committed (first_of_faults w.faults) (spend w)

abbrev pub rolled_back : Fault → M (Unit {0})
rolled_back fine w = (ok tt, record w { working = w.durable })
rolled_back failed w = (err other_exception, record w { working = w.durable })
rolled_back ambiguous w = (err other_exception, record w { working = w.durable })

-- `rollback()`: what was not committed is gone, also if the call itself raises
unfoldable pub rollback : M (Unit {0})
rollback w = rolled_back (first_of_faults w.faults) (spend w)

-- `with contextlib.suppress(Exception): unit_of_work.rollback()`
unfoldable pub suppressed_rollback : M (Unit {0})
unfolding rollback try_catch
suppressed_rollback = try_catch rollback (λ e. pure tt)

abbrev pub paused_with : String → ControlTables → ControlTables
paused_with reason c = record c { entries_paused = true; paused_reason = some reason }

abbrev pub pause_in : String → Tables → Tables
pause_in reason t = record t { control = paused_with reason t.control }

abbrev paused_both : String → World → World
paused_both reason w = record w {
  durable = pause_in reason w.durable;
  working = pause_in reason w.working;
}

abbrev pub safety_paused : Fault → String → M (Unit {0})
safety_paused fine reason w = (ok tt, paused_both reason w)
safety_paused failed reason w = (err other_exception, w)
safety_paused ambiguous reason w = (err other_exception, paused_both reason w)

-- `persist_safety_pause(reason)`: another connection writes and commits the pause
unfoldable pub persist_safety_pause : String → M (Unit {0})
persist_safety_pause reason w = safety_paused (first_of_faults w.faults) reason (spend w)
