-- ===== src/Reconciler/Balances.antt =====
-- What a run that is safe to resume on shows of the broker's account.
use seven_lens_paper_trading.Prelude.{
  ℕ, ◌≤◌, ◌≡◌, refl, sym, ap, ◌∙◌, arith, true, false, not, if◌then◌else◌, String, Option, none,
  some, List, [], ◌∷◌,
}
use mathlib.Core.Path.{subst}
use seven_lens_paper_trading.Prelude.Int.{ℤ, pos, negsuc, abs, ◌+ℤ◌, ◌-ℤ◌}
use seven_lens_paper_trading.Prelude.Dict.{Dict}
use seven_lens_paper_trading.Prelude.Text.{str_eq, eq_iff, text_take}
use seven_lens_paper_trading.Prelude.Result.{Result, ok, err, >>=-eq-ok}
use seven_lens_paper_trading.Orders.Money.{Price}
use seven_lens_paper_trading.Ledger.Lots.{LedgerError}
use seven_lens_paper_trading.Ledger.{
  LedgerProjection, positions, project_ledger, account_equity_from_cash_and_positions,
}
use seven_lens_paper_trading.Reconciliation.{
  account_reconciliation_unavailable, ReconciliationResult, ReconciliationMismatch, is_resume_safe,
  account_id_mismatch, cash_mismatch, nav_mismatch,
}
use seven_lens_paper_trading.Store.Monad.{Tables}
use seven_lens_paper_trading.Reconciler.Answers.{
  broker_transport, other_failure, ledger_invariant, mark_price_unavailable, Failure, PaperAccount,
  AccountReconciliationPolicy, Baseline, Answers, of_ledger, report, checked_report,
}
use seven_lens_paper_trading.Reconciler.Account.{
  baseline_of, post_fills, cash_delta, check_account, check_cash, check_nav, differs_by,
  checked_opening, nav_report, mark_prices, of_valuation, or_unavailable, has_positions,
  price_detail, keys,
}
use seven_lens_paper_trading.Reconciler.Collect.{collect, orders_by_id}
use seven_lens_paper_trading.Ledger.Totals.{spent, earned}
use seven_lens_paper_trading.Reconciler.Cash.{cash_delta-spent}
use seven_lens_paper_trading.Reconciler.Nothing.{
  append_nil, report_nil, checked_report_nil, not-false,
}
use seven_lens_paper_trading.Reconciler.Parts.{everything_agrees}

abbrev IsNear : ℕ → ℤ → ℤ → Type 0
IsNear tolerance a b = abs (a -ℤ b) ≤ tolerance

-- The equity agrees: with the cash if nothing is held and no price can be asked, and otherwise with the
-- cash and the marked positions.
pub data HasEquity (prices : Option (String → Result Failure Price)) (tolerance : ℕ) (cash : ℤ)
    (equity : ℤ) (projection : LedgerProjection) : Type 0 where
  unpriced :
      prices ≡ none
      → positions projection ≡ []
      → IsNear tolerance equity cash
      → HasEquity prices tolerance cash equity projection
  marked :
      (current_price : String → Result Failure Price) (marks : Dict Price) (nav : ℤ)
      → prices ≡ some current_price
      → mark_prices current_price [] (keys (positions projection)) ≡ ok marks
      → account_equity_from_cash_and_positions cash projection.lots marks ≡ ok nav
      → IsNear tolerance equity nav
      → HasEquity prices tolerance cash equity projection

-- The broker's account is the expected one; its cash is near the opening cash of its baseline with the
-- fills since then, and its equity is near what that cash and the positions are worth.
pub record HasBalances (a : Answers) (t : Tables) : Type 0 where
  pub policy : AccountReconciliationPolicy
  pub has_policy : a.account_policy ≡ some policy
  pub account : PaperAccount
  pub account_answer : a.account ≡ ok account
  pub expected_account : account.account_id ≡ policy.expected_account_id
  pub baseline : Baseline
  pub baseline_answer : baseline_of a account.account_id ≡ ok (some baseline)
  pub delta : ℤ
  pub delta_sum :
      delta +ℤ pos (spent (orders_by_id t) (post_fills baseline t.orders.fills))
      ≡ pos (earned (orders_by_id t) (post_fills baseline t.orders.fills))
  pub cash_near :
      IsNear policy.cash_tolerance_cents
        (pos account.cash.cents)
        (baseline.opening_cash_cents +ℤ delta)
  pub projection : LedgerProjection
  pub projected : of_ledger (project_ledger t.orders.fills (orders_by_id t)) ≡ ok projection
  pub equity_near :
      HasEquity a.price_provider policy.nav_tolerance_cents
        (baseline.opening_cash_cents +ℤ delta)
        (pos account.equity.cents)
        projection

near : (tolerance : ℕ) (a b : ℤ) → differs_by tolerance a b ≡ false → IsNear tolerance a b
near tolerance a b e = ground (arith, e)

abbrev value_of : {A : Type 0} → A → Result Failure A → A
value_of d (ok x) = x
value_of d (err e) = d

opening_same : (n m : ℤ) → checked_opening n ≡ ok m → m ≡ n
opening_same (pos n) m e = sym (ap (value_of m) e)
opening_same (negsuc n) m e = cc

module _ (tolerance : ℕ) (cash : ℤ) (account : PaperAccount) (projection : LedgerProjection) where
  nav_report-IsNear :
      (nav : ℤ)
      → nav_report tolerance nav account ≡ []
      → IsNear tolerance (pos account.equity.cents) nav
  unfolding nav_report
  nav_report-IsNear nav e =
      near tolerance (pos account.equity.cents) nav (report_nil _ nav_mismatch _ e)

  abbrev listed : Result Failure (List ReconciliationMismatch) → List ReconciliationMismatch
  listed = value_of []

  unlisted :
      (ps : Dict ℕ)
      → positions projection ≡ ps
      → (if has_positions ps
          then report true account_reconciliation_unavailable "missing mark price provider"
          else nav_report tolerance cash account)
        ≡ []
      → HasEquity none tolerance cash (pos account.equity.cents) projection
  unlisted [] e e' = unpriced refl e (nav_report-IsNear cash e')
  unlisted (p ∷ ps) e e' = cc

  available :
      (r : Result Failure (List ReconciliationMismatch)) → or_unavailable r ≡ ok [] → r ≡ ok []
  unfolding or_unavailable
  available (ok ms) e = e
  available (err broker_transport) e = cc
  available (err other_failure) e = cc
  available (err (ledger_invariant l)) e = cc
  available (err (mark_price_unavailable m)) e =
      let lost = checked_report_nil true account_reconciliation_unavailable (price_detail m) e in cc

  valued : {A : Type 0} (r : Result LedgerError A) (x : A) → of_valuation r ≡ ok x → r ≡ ok x
  valued (ok y) x e = ap ok (ap (value_of x) e)
  valued (err e') x e = cc

  has_equity :
      (prices : Option (String → Result Failure Price))
      → check_nav prices tolerance cash account projection ≡ ok []
      → HasEquity prices tolerance cash (pos account.equity.cents) projection
  unfolding check_nav
  has_equity none e = unlisted (positions projection) refl (ap listed e)
  has_equity (some current_price) e =
      let (marks, e1, d1) =
        >>=-eq-ok (mark_prices current_price [] (keys (positions projection))) _ (available _ e) in
      let (nav, e2, d2) =
        >>=-eq-ok (of_valuation (account_equity_from_cash_and_positions cash projection.lots marks))
          _ d1 in
      marked current_price marks nav refl e1 (valued _ nav e2)
        (nav_report-IsNear nav (ap listed d2))

module _ (a : Answers) (t : Tables) (account : PaperAccount) (projection : LedgerProjection) where
  balanced :
      (policy : AccountReconciliationPolicy) (baseline : Option Baseline)
      → a.account_policy ≡ some policy
      → a.account ≡ ok account
      → of_ledger (project_ledger t.orders.fills (orders_by_id t)) ≡ ok projection
      → baseline_of a account.account_id ≡ ok baseline
      → str_eq account.account_id policy.expected_account_id ≡ true
      → check_cash a policy (orders_by_id t) t.orders.fills account projection baseline ≡ ok []
      → HasBalances a t
  unfolding check_cash
  balanced policy none has asked e1 e2 same e = let lost = ap (value_of []) e in cc
  balanced policy (some baseline) has asked e1 e2 same e =
      let (opening, o, d) = >>=-eq-ok (checked_opening baseline.opening_cash_cents) _ e in
      let (delta, sum, d') =
        >>=-eq-ok (cash_delta (orders_by_id t) (pos 0) (post_fills baseline t.orders.fills)) _ d in
      let (navs, nav, d'') =
        >>=-eq-ok
          (check_nav a.price_provider policy.nav_tolerance_cents (opening +ℤ delta) account
            projection)
          _ d' in
      let (cash, none_left) = append_nil _ navs (ap (value_of []) d'') in
      let same_opening = ap (λ n. n +ℤ delta) (opening_same _ opening o) in
      record {
        policy = policy;
        has_policy = has;
        account = account;
        account_answer = asked;
        expected_account = (eq_iff _ _).0 same;
        baseline = baseline;
        baseline_answer = e2;
        delta = delta;
        delta_sum =
            cash_delta-spent (orders_by_id t) delta (post_fills baseline t.orders.fills) sum;
        cash_near =
            subst (IsNear policy.cash_tolerance_cents (pos account.cash.cents)) same_opening
              (near _ _ _ (report_nil _ cash_mismatch _ cash));
        projection = projection;
        projected = e1;
        equity_near =
            subst
              (λ n.
                HasEquity a.price_provider policy.nav_tolerance_cents n (pos account.equity.cents)
                  projection)
              same_opening (has_equity _ _ _ _ a.price_provider (nav ∙ ap ok none_left));
      }

  checked :
      (policy : AccountReconciliationPolicy)
      → a.account_policy ≡ some policy
      → a.account ≡ ok account
      → of_ledger (project_ledger t.orders.fills (orders_by_id t)) ≡ ok projection
      → check_account a (some policy) (orders_by_id t) t.orders.fills account projection ≡ ok []
      → HasBalances a t
  unfolding check_account
  checked policy has asked e1 e =
      let (others, e0, d0) =
        >>=-eq-ok
          (checked_report (not (str_eq account.account_id policy.expected_account_id))
            account_id_mismatch (text_take 100 account.account_id))
          _ e in
      let (baseline, e2, d) = >>=-eq-ok (baseline_of a account.account_id) _ d0 in
      let (rest, e3, d') =
        >>=-eq-ok (check_cash a policy (orders_by_id t) t.orders.fills account projection baseline)
          _ d in
      let (heads, none_left) = append_nil _ rest (ap (value_of []) d') in
      let (other, power) = append_nil _ _ heads in
      balanced policy baseline has asked e1 e2
        (not-false _ (checked_report_nil _ account_id_mismatch _ (e0 ∙ ap ok other)))
        (e3 ∙ ap ok none_left)

-- If a run of `collect` is safe to resume on, then there is a policy, the account is the one that it
-- expects and has a baseline; the broker's cash is within the tolerance of the opening cash and what the
-- fills after the baseline debit and credit; and the broker's equity is within the tolerance of that cash
-- and the marked positions, or of that cash alone if nothing is held and there is no price provider.
pub collect-HasBalances :
    (a : Answers) (t : Tables) (trading_date at run_id : ℕ) (r : ReconciliationResult)
    → collect a t trading_date at run_id ≡ ok r
    → is_resume_safe r ≡ true
    → HasBalances a t
collect-HasBalances a t trading_date at run_id r done safe =
    let all = everything_agrees a t trading_date at run_id r done safe in
    checked a t all.account all.accounts.projection all.policy all.has_policy all.account_answer
      all.accounts.projected
      (subst
        (λ p.
          check_account a p (orders_by_id t) t.orders.fills all.account all.accounts.projection
          ≡ ok [])
        all.has_policy all.accounts.account_agrees)
