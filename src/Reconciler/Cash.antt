-- ===== src/Reconciler/Cash.antt =====
-- The cash that the fills after a baseline debit and credit.
use seven_lens_paper_trading.Prelude.{
  ◌≡◌, sym, ap, ◌∙◌, Bool, true, false, ltb, Option, none, some, List, [], ◌∷◌, arith,
  if◌then◌else◌,
}
use seven_lens_paper_trading.Prelude.Int.{ℤ, pos, abs, ◌+ℤ◌, balance_trans, zero_+ℤ}
use seven_lens_paper_trading.Prelude.Dict.{Dict, lookup}
use seven_lens_paper_trading.Prelude.Result.{ok, err, >>=-eq-ok}
use seven_lens_paper_trading.Orders.Mirror.{BrokerOrder, Fill}
use seven_lens_paper_trading.Ledger.Lots.{max_abs_cents, unknown_order, cash_out_of_range}
use seven_lens_paper_trading.Ledger.Accounts.{cash_after}
use seven_lens_paper_trading.Ledger.Totals.{
  by_order_known, cents_spent, cents_earned, cash_after_lem, spent, earned,
}
use seven_lens_paper_trading.Reconciler.Answers.{ledger_invariant}
use seven_lens_paper_trading.Reconciler.Account.{with_fill, in_range, cash_delta}

in_range_same : (n m : ℤ) → in_range n ≡ ok m → m ≡ n
in_range_same n m e = split (ltb max_abs_cents (abs n)) e
  where
    split :
        (b : Bool) → (if b then err (ledger_invariant cash_out_of_range) else ok n) ≡ ok m → m ≡ n
    split true e = cc
    split false e = ground arith

with_fill_lem :
    (cash : ℤ) (o : BrokerOrder) (f : Fill)
    → with_fill cash o f +ℤ pos (cents_spent o f) ≡ cash +ℤ pos (cents_earned o f)
unfolding cash_after
with_fill_lem cash o f = cash_after_lem o f cash

order_found :
    (r : Option BrokerOrder) (o : BrokerOrder)
    → elim r [ none ↦ err (ledger_invariant unknown_order) | some o ↦ ok o ] ≡ ok o
    → r ≡ some o
order_found none o e = cc
order_found (some o') o e = ground arith

module _ (orders : Dict BrokerOrder) where
  kept :
      (cash d : ℤ) (fills : List Fill)
      → cash_delta orders cash fills ≡ ok d
      → d +ℤ pos (spent orders fills) ≡ cash +ℤ pos (earned orders fills)
  unfolding cash_delta spent earned
  kept cash d [] e = ground arith
  kept cash d (f ∷ fs) e =
      let (o, e1, d1) =
        >>=-eq-ok
          (elim (lookup f.broker_order_id orders) [
            | none ↦ err (ledger_invariant unknown_order)
            | some o ↦ ok o
          ])
          _ e in
      let (cash', e2, d2) = >>=-eq-ok (in_range (with_fill cash o f)) _ d1 in
      let known = order_found (lookup f.broker_order_id orders) o e1 in
      let step =
        ap (λ n. cash' +ℤ pos n) (by_order_known orders cents_spent f o known)
        ∙ ap (λ n. n +ℤ pos (cents_spent o f)) (in_range_same (with_fill cash o f) cash' e2)
        ∙ with_fill_lem cash o f
        ∙ sym (ap (λ n. cash +ℤ pos n) (by_order_known orders cents_earned f o known)) in
      balance_trans cash cash' d _ _ _ _ step (kept cash' d fs d2)

  -- The sum of the cash of the fills and what the buys among them cost add up to what the sells brought in.
  pub cash_delta-spent :
      (d : ℤ) (fills : List Fill)
      → cash_delta orders (pos 0) fills ≡ ok d
      → d +ℤ pos (spent orders fills) ≡ pos (earned orders fills)
  cash_delta-spent d fills e = kept (pos 0) d fills e ∙ zero_+ℤ _
