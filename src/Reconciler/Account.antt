-- ===== src/Reconciler/Account.antt =====
-- Positions, cash and net asset value (reconciliation_service.py, collect: from the projection on).
use Prim.Native.String.{◌++◌ as ◌+++◌}
use seven_lens_paper_trading.Prelude.{
  ℕ, suc, ◌*◌, ◌==◌, ltb, leb, String, Bool, true, false, not, ◌||◌, ◌&&◌, elem, Option, none, some,
  List, [], ◌∷◌, ◌++◌, if◌then◌else◌,
}
use seven_lens_paper_trading.Prelude.Int.{ℤ, pos, negsuc, abs, ◌+ℤ◌, ◌-ℤ◌}
use seven_lens_paper_trading.Prelude.Text.{str_eq, str_leb, text_take}
use seven_lens_paper_trading.Prelude.Decimal.{numeral}
use seven_lens_paper_trading.Prelude.Dict.{Dict, lookup, insert}
use seven_lens_paper_trading.Prelude.Sorting.{sorted}
use seven_lens_paper_trading.Prelude.Result.{Result, ok, err, ◌>>=◌}
use seven_lens_paper_trading.Orders.Status.{buy, sell}
use seven_lens_paper_trading.Orders.Money.{Price}
use seven_lens_paper_trading.Orders.Mirror.{BrokerOrder, Fill, is_blank}
use seven_lens_paper_trading.Ledger.Lots.{
  LedgerError, unknown_order, cash_out_of_range, max_abs_cents,
}
use seven_lens_paper_trading.Ledger.{
  LedgerProjection, positions, account_equity_from_cash_and_positions,
}
use seven_lens_paper_trading.Reconciliation.{
  ReconciliationMismatch, position_symbol_mismatch, position_quantity_mismatch, account_id_mismatch,
  buying_power_mismatch, account_reconciliation_unavailable, cash_mismatch, nav_mismatch,
}
use seven_lens_paper_trading.Reconciler.Answers.{
  Failure, other_failure, ledger_invariant, mark_price_unavailable, PaperAccount, PaperPosition,
  AccountReconciliationPolicy, Baseline, Answers, report, checked_report,
}

-- `{position.symbol: position.quantity for …}`
unfoldable pub held_by_symbol : Dict ℕ → List PaperPosition → Dict ℕ
held_by_symbol d [] = d
held_by_symbol d (p ∷ ps) = held_by_symbol (insert p.symbol p.quantity d) ps

abbrev pub keys : {V : Type 0} → Dict V → List String
keys [] = []
keys ((k, v) ∷ d) = k ∷ keys d

-- `set(…)`
unfoldable pub distinct : List String → List String
distinct [] = []
distinct (k ∷ ks) = let rest = distinct ks in if elem str_eq k rest then rest else k ∷ rest

-- The body of the loop over the symbols. One that neither side has is not among them.
unfoldable pub compare_position : String → Option ℕ → Option ℕ → List ReconciliationMismatch
compare_position symbol none none = []
compare_position symbol (some p) none = report true position_symbol_mismatch symbol
compare_position symbol none (some b) = report true position_symbol_mismatch symbol
compare_position symbol (some p) (some b) = report (not (p == b)) position_quantity_mismatch symbol

unfoldable pub compare_positions : Dict ℕ → Dict ℕ → List String → List ReconciliationMismatch
compare_positions projected held [] = []
compare_positions projected held (s ∷ symbols) =
    compare_position s (lookup s projected) (lookup s held)
    ++ compare_positions projected held symbols

-- `sorted(set(projected) | set(broker_positions))`
unfoldable pub all_symbols : Dict ℕ → Dict ℕ → List String
all_symbols projected held = sorted str_leb (distinct (keys projected ++ keys held))

unfoldable pub position_mismatches :
    LedgerProjection → List PaperPosition → List ReconciliationMismatch
position_mismatches projection ps =
    let projected = positions projection in
    let held = held_by_symbol [] ps in compare_positions projected held (all_symbols projected held)

-- `str(n)`
abbrev pub show_int : ℤ → String
show_int (pos n) = numeral 1 n
show_int (negsuc n) = "-" +++ numeral 1 (suc n)

abbrev pub expected_got : ℤ → ℤ → String
expected_got expected got = "expected " +++ show_int expected +++ " got " +++ show_int got

-- whether a fill is after the cutoff of the baseline
unfoldable pub after_cutoff : Baseline → Fill → Bool
after_cutoff b f = elim b.cutoff_occurred_at [
  | some at ↦ elim b.cutoff_execution_id [
    | some id ↦ ltb at f.occurred_at || f.occurred_at == at && not (str_leb f.execution_id id)
    | none ↦ ltb at f.occurred_at
  ]
  | none ↦ elim b.effective_at [ some at ↦ leb at f.occurred_at | none ↦ true ]
]

unfoldable pub post_fills : Baseline → List Fill → List Fill
post_fills b [] = []
post_fills b (f ∷ fs) = let rest = post_fills b fs in if after_cutoff b f then f ∷ rest else rest

-- what one fill debits or credits
abbrev pub with_fill : ℤ → BrokerOrder → Fill → ℤ
with_fill cash o f = elim o.side [
  | buy ↦ cash -ℤ pos (f.quantity.value * f.price.cents)
  | sell ↦ cash +ℤ pos (f.quantity.value * f.price.cents)
]

abbrev pub in_range : ℤ → Result Failure ℤ
in_range cash =
    if ltb max_abs_cents (abs cash) then err (ledger_invariant cash_out_of_range) else ok cash

-- the loop that adds up the cash of the fills
unfoldable pub cash_delta : Dict BrokerOrder → ℤ → List Fill → Result Failure ℤ
cash_delta orders cash [] = ok cash
cash_delta orders cash (f ∷ fs) = do
  o ← elim (lookup f.broker_order_id orders) [
    | none ↦ err (ledger_invariant unknown_order)
    | some o ↦ ok o
  ]
  cash' ← in_range (with_fill cash o f)
  cash_delta orders cash' fs

-- a difference beyond a tolerance
abbrev pub differs_by : ℕ → ℤ → ℤ → Bool
differs_by tolerance a b = ltb tolerance (abs (a -ℤ b))

-- the marks of the open positions
unfoldable pub mark_prices :
    (String → Result Failure Price) → Dict Price → List String → Result Failure (Dict Price)
mark_prices current_price d [] = ok d
mark_prices current_price d (s ∷ symbols) = do
  price ← current_price s
  mark_prices current_price (insert s price d) symbols

-- `except MarkPriceUnavailableError`
abbrev pub price_detail : String → String
price_detail message = if is_blank message then "mark price unavailable" else text_take 200 message

unfoldable pub or_unavailable :
    Result Failure (List ReconciliationMismatch) → Result Failure (List ReconciliationMismatch)
or_unavailable (ok ms) = ok ms
or_unavailable (err (mark_price_unavailable message)) =
    checked_report true account_reconciliation_unavailable (price_detail message)
or_unavailable (err e) = err e

abbrev pub of_valuation : {A : Type 0} → Result LedgerError A → Result Failure A
of_valuation (ok a) = ok a
of_valuation (err e) = err other_failure

unfoldable pub nav_report : ℕ → ℤ → PaperAccount → List ReconciliationMismatch
nav_report tolerance nav account =
    report (differs_by tolerance (pos account.equity.cents) nav) nav_mismatch
      (expected_got nav (pos account.equity.cents))

abbrev pub has_positions : Dict ℕ → Bool
has_positions [] = false
has_positions (p ∷ ps) = true

-- the comparison of the net asset value
unfoldable pub check_nav :
    Option (String → Result Failure Price)
    → ℕ
    → ℤ
    → PaperAccount
    → LedgerProjection
    → Result Failure (List ReconciliationMismatch)
check_nav none tolerance cash account projection = ok (
    if has_positions (positions projection)
    then report true account_reconciliation_unavailable "missing mark price provider"
    else nav_report tolerance cash account)
check_nav (some current_price) tolerance cash account projection = or_unavailable (do
  prices ← mark_prices current_price [] (keys (positions projection))
  nav ← of_valuation (account_equity_from_cash_and_positions cash projection.lots prices)
  ok (nav_report tolerance nav account))

abbrev pub checked_opening : ℤ → Result Failure ℤ
checked_opening (pos n) = ok (pos n)
checked_opening (negsuc n) = err other_failure

-- cash and net asset value, from a baseline
unfoldable pub check_cash :
    Answers
    → AccountReconciliationPolicy
    → Dict BrokerOrder
    → List Fill
    → PaperAccount
    → LedgerProjection
    → Option Baseline
    → Result Failure (List ReconciliationMismatch)
check_cash a policy orders fills account projection none =
    ok (report true account_reconciliation_unavailable "missing opening cash baseline")
check_cash a policy orders fills account projection (some baseline) = do
  opening ← checked_opening baseline.opening_cash_cents
  delta ← cash_delta orders (pos 0) (post_fills baseline fills)
  let expected = opening +ℤ delta
  nav ← check_nav a.price_provider policy.nav_tolerance_cents expected account projection
  ok (
      report (differs_by policy.cash_tolerance_cents (pos account.cash.cents) expected)
        cash_mismatch (expected_got expected (pos account.cash.cents))
      ++ nav)

abbrev pub baseline_of : Answers → String → Result Failure (Option Baseline)
baseline_of a id = elim a.baselines [ none ↦ ok none | some get_baseline ↦ get_baseline id ]

-- the account, when there is a policy for it
unfoldable pub check_account :
    Answers
    → Option AccountReconciliationPolicy
    → Dict BrokerOrder
    → List Fill
    → PaperAccount
    → LedgerProjection
    → Result Failure (List ReconciliationMismatch)
check_account a none orders fills account projection = ok []
check_account a (some policy) orders fills account projection = do
  other ←
      checked_report (not (str_eq account.account_id policy.expected_account_id))
        account_id_mismatch (text_take 100 account.account_id)
  baseline ← baseline_of a account.account_id
  rest ← check_cash a policy orders fills account projection baseline
  ok (
      other
      ++ report (ltb account.buying_power.cents 0) buying_power_mismatch
          (numeral 1 account.buying_power.cents)
      ++ rest)
