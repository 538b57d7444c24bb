-- ===== src/Reconciliation.antt =====
-- src/seven_lens/execution/reconciliation.py: the result of one reconciliation run.
use seven_lens_paper_trading.Prelude.{
  ℕ, ◌≤◌, ◌≡◌, refl, ◌↔◌, String, Bool, true, false, not, ◌&&◌, ◌||◌, List, [], ◌∷◌, length, ltb,
  ◌==◌, arith, if◌then◌else◌,
}
use seven_lens_paper_trading.Prelude.Result.{Result, ok, err}
use seven_lens_paper_trading.Orders.Mirror.{has_nul, text_length}

pub data ReconciliationStatus : Type 0 where
  clean mismatch : ReconciliationStatus

pub data ReconciliationScope : Type 0 where
  partial full : ReconciliationScope

pub data MismatchKind : Type 0 where
  non_paper_account unknown_broker_order missing_broker_order parameter_mismatch : MismatchKind
  status_mismatch intent_status_mismatch broker_query_failure missing_local_fill : MismatchKind
  position_quantity_mismatch position_symbol_mismatch local_ledger_invariant : MismatchKind
  account_id_mismatch cash_mismatch nav_mismatch buying_power_mismatch : MismatchKind
  account_reconciliation_unavailable : MismatchKind

-- The `ValueError`s of the module.
pub data ReconciliationError : Type 0 where
  unbounded_detail nil_run_id too_many_mismatches negative_count wrong_status : ReconciliationError

pub record ReconciliationMismatch : Type 0 where
  pub kind : MismatchKind
  pub detail : String

abbrev pub max_mismatches : ℕ
max_mismatches = 10000

abbrev pub max_detail_length : ℕ
max_detail_length = 200

-- `ReconciliationMismatch(kind, detail)`
unfoldable pub reconciliation_mismatch :
    ReconciliationMismatch → Result ReconciliationError ReconciliationMismatch
reconciliation_mismatch m =
    if text_length m.detail == 0 || ltb max_detail_length (text_length m.detail) || has_nul m.detail
    then err unbounded_detail
    else ok m

-- Run ids are numbers: the nil UUID is 0. Dates and instants are numbers.
pub record ReconciliationResult : Type 0 where
  pub run_id : ℕ
  pub trading_date : ℕ
  pub status : ReconciliationStatus
  pub mismatches : List ReconciliationMismatch
  pub checked_orders : ℕ
  pub checked_fills : ℕ
  pub observed_at : ℕ
  pub scope : ReconciliationScope

abbrev is_clean : ReconciliationStatus → Bool
is_clean clean = true
is_clean mismatch = false

abbrev is_full : ReconciliationScope → Bool
is_full full = true
is_full partial = false

-- `bool(mismatches)`
abbrev any_mismatch : List ReconciliationMismatch → Bool
any_mismatch [] = false
any_mismatch (m ∷ ms) = true

abbrev same_bool : Bool → Bool → Bool
same_bool true b = b
same_bool false b = not b

-- `ReconciliationResult.__post_init__`
unfoldable pub reconciliation_result :
    ReconciliationResult → Result ReconciliationError ReconciliationResult
reconciliation_result r =
    if r.run_id == 0
    then err nil_run_id
    else if ltb max_mismatches (length r.mismatches)
    then err too_many_mismatches
    else if same_bool (is_clean r.status) (any_mismatch r.mismatches)
    then err wrong_status
    else ok r

-- `is_resume_safe`
unfoldable pub is_resume_safe : ReconciliationResult → Bool
is_resume_safe r = is_clean r.status && is_full r.scope

-- What `create` hands to the constructor; `run_id` is the given one, or the fresh one of `uuid4`.
abbrev pub drafted :
    ℕ → List ReconciliationMismatch → ℕ → ℕ → ℕ → ℕ → ReconciliationScope → ReconciliationResult
drafted trading_date mismatches checked_orders checked_fills observed_at run_id scope = record {
  run_id = run_id;
  trading_date = trading_date;
  status = if not (any_mismatch mismatches) then clean else mismatch;
  mismatches = mismatches;
  checked_orders = checked_orders;
  checked_fills = checked_fills;
  observed_at = observed_at;
  scope = scope;
}

-- `create`
unfoldable pub create :
    ℕ
    → List ReconciliationMismatch
    → ℕ
    → ℕ
    → ℕ
    → ℕ
    → ReconciliationScope
    → Result ReconciliationError ReconciliationResult
unfolding reconciliation_result
create trading_date mismatches checked_orders checked_fills observed_at run_id scope =
    reconciliation_result
      (drafted trading_date mismatches checked_orders checked_fills observed_at run_id scope)

-- Every accepted result that is safe to resume on has a full scope and no mismatch at all, and every
-- accepted full-scope result without a mismatch is safe to resume on.
resume_safe_iff :
    (r r' : ReconciliationResult)
    → reconciliation_result r ≡ ok r'
    → (is_resume_safe r' ≡ true) ↔ ((r'.mismatches ≡ []) × (r'.scope ≡ full))
unfolding reconciliation_result is_resume_safe
resume_safe_iff r r' h = ground arith

-- `create` answers for every non-nil run id and at most ten thousand mismatches, keeps the mismatches,
-- and is safe to resume on exactly for a full scope without a mismatch.
create-is_resume_safe :
    (trading_date : ℕ) (mismatches : List ReconciliationMismatch)
    (checked_orders checked_fills observed_at run_id : ℕ) (scope : ReconciliationScope)
    → 1 ≤ run_id
    → length mismatches ≤ max_mismatches
    → (r : ReconciliationResult) × (create trading_date mismatches checked_orders checked_fills
          observed_at run_id scope
        ≡ ok r)
      × (r.mismatches ≡ mismatches)
      × ((is_resume_safe r ≡ true) ↔ ((mismatches ≡ []) × (scope ≡ full)))
unfolding create is_resume_safe
create-is_resume_safe date [] orders fills at run_id scope h k =
    (drafted date [] orders fills at run_id scope, ground arith, refl, ground arith)
create-is_resume_safe date (m ∷ ms) orders fills at run_id scope h k =
    (drafted date (m ∷ ms) orders fills at run_id scope, ground arith, refl, ground arith)
