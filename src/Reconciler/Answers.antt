-- ===== src/Reconciler/Answers.antt =====
-- What one reconciliation run reads: the broker's answers, the policy and the baselines of the account,
-- and the mark prices. Within one run a query that is asked again is answered as before.
use seven_lens_paper_trading.Prelude.{
  ℕ, ◌+◌, ltb, ◌||◌, String, Bool, true, false, Option, List, [], ◌∷◌, ◌++◌, if◌then◌else◌,
}
use seven_lens_paper_trading.Prelude.Int.{ℤ}
use seven_lens_paper_trading.Prelude.Result.{Result, ok, err, ◌>>=◌}
use seven_lens_paper_trading.Orders.Money.{Price, UsdAmount}
use seven_lens_paper_trading.Orders.Mirror.{BrokerOrder, Fill, is_blank, text_length}
use seven_lens_paper_trading.Ledger.Lots.{
  LedgerError, invalid_lot, missing_price, negative_opening_cash,
}
use seven_lens_paper_trading.Reconciliation.{
  MismatchKind, ReconciliationMismatch, reconciliation_mismatch,
}

-- The exceptions: of the broker's transport, of the ledger, of a mark price with its message, and all
-- others.
pub data Failure : Type 0 where
  broker_transport other_failure : Failure
  ledger_invariant : LedgerError → Failure
  mark_price_unavailable : String → Failure

-- `BrokerEnvironment`
pub data BrokerEnvironment : Type 0 where
  paper : BrokerEnvironment

pub record PaperAccount : Type 0 where
  pub account_id : String
  pub environment : BrokerEnvironment
  pub cash : UsdAmount
  pub equity : UsdAmount
  pub buying_power : UsdAmount

pub record PaperPosition : Type 0 where
  pub symbol : String
  pub quantity : ℕ
  pub average_entry_price : Price

pub record AccountReconciliationPolicy : Type 0 where
  pub expected_account_id : String
  pub cash_tolerance_cents : ℕ
  pub nav_tolerance_cents : ℕ

-- `AccountReconciliationPolicy.__init__`
unfoldable pub account_reconciliation_policy :
    AccountReconciliationPolicy → Result Failure AccountReconciliationPolicy
account_reconciliation_policy p =
    if is_blank p.expected_account_id || ltb 100 (text_length p.expected_account_id)
    then err other_failure
    else ok p

-- The attributes of a baseline that `collect` reads; one that is absent is `None`.
pub record Baseline : Type 0 where
  pub opening_cash_cents : ℤ
  pub cutoff_occurred_at : Option ℕ
  pub cutoff_execution_id : Option String
  pub effective_at : Option ℕ

-- The broker's queries. `baselines` is absent when the unit of work has no `account_baselines`.
pub record Answers : Type 0 where
  pub account : Result Failure PaperAccount
  pub get_order : String → Result Failure (Option BrokerOrder)
  pub list_fills : String → Result Failure (List Fill)
  pub list_open_orders : Result Failure (List BrokerOrder)
  pub list_recent_orders : ℕ → Result Failure (List BrokerOrder)
  pub list_positions : Result Failure (List PaperPosition)
  pub account_policy : Option AccountReconciliationPolicy
  pub baselines : Option (String → Result Failure (Option Baseline))
  pub price_provider : Option (String → Result Failure Price)

-- The ledger's `LedgerInvariantError`s and `ValueError`s.
abbrev pub ledger_failure : LedgerError → Failure
ledger_failure invalid_lot = other_failure
ledger_failure missing_price = other_failure
ledger_failure negative_opening_cash = other_failure
ledger_failure e = ledger_invariant e

abbrev pub of_ledger : {A : Type 0} → Result LedgerError A → Result Failure A
of_ledger (ok a) = ok a
of_ledger (err e) = err (ledger_failure e)

-- What a pass has found and how many orders and fills it has checked.
pub record Found : Type 0 where
  pub mismatches : List ReconciliationMismatch
  pub checked_orders : ℕ
  pub checked_fills : ℕ

abbrev pub nothing : Found
nothing = record { mismatches = []; checked_orders = 0; checked_fills = 0 }

abbrev pub both : Found → Found → Found
both a b = record {
  mismatches = a.mismatches ++ b.mismatches;
  checked_orders = a.checked_orders + b.checked_orders;
  checked_fills = a.checked_fills + b.checked_fills;
}

-- One mismatch, if the test says so. Its detail is an id of a validated object, a number or a short
-- constant, which `ReconciliationMismatch` accepts.
abbrev pub report : Bool → MismatchKind → String → List ReconciliationMismatch
report true kind detail = record { kind = kind; detail = detail } ∷ []
report false kind detail = []

-- `ReconciliationMismatch` with a detail that it may refuse, by a `ValueError`
unfoldable pub checked_report :
    Bool → MismatchKind → String → Result Failure (List ReconciliationMismatch)
unfolding reconciliation_mismatch
checked_report false kind detail = ok []
checked_report true kind detail =
    elim (reconciliation_mismatch (record { kind = kind; detail = detail })) [
      | ok m ↦ ok (m ∷ [])
      | err e ↦ err other_failure
    ]

-- a loop over what a pass compares
unfoldable pub each : {A : Type 0} → (A → Result Failure Found) → List A → Result Failure Found
each f [] = ok nothing
each f (x ∷ xs) = do found ← f x; rest ← each f xs; ok (both found rest)
