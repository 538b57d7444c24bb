-- ===== src/Ledger/Conservation.antt =====
-- What a whole projection conserves: shares, cash, and the quantity of every order.
use mathlib.Core.Path.{subst}
use seven_lens_paper_trading.Prelude.{
  ◌+◌, ◌≤◌, ◌≡◌, sym, ap, ◌∙◌, String, inl, inr, Option, none, some, List, [], ◌∷◌, sum_by, arith,
  All, length, Bool-cases,
}
use seven_lens_paper_trading.Prelude.Int.{pos, abs, ◌+ℤ◌, balance_trans, zero_+ℤ}
use seven_lens_paper_trading.Prelude.Text.{str_eq, eq_iff}
use seven_lens_paper_trading.Prelude.Dict.{Dict, lookup, lookup-insert}
use seven_lens_paper_trading.Prelude.Result.{ok, >>=-eq-ok}
use seven_lens_paper_trading.Prelude.Sorting.{sorted, sum_by-sorted}
use seven_lens_paper_trading.Orders.Mirror.{BrokerOrder, Fill}
use seven_lens_paper_trading.Ledger.Lots.{max_abs_cents}
use seven_lens_paper_trading.Ledger.Consume.{IsLot, shares}
use seven_lens_paper_trading.Ledger.Accounts.{Applied, apply_fill-Applied}
use seven_lens_paper_trading.Ledger.{
  Replay, LedgerProjection, start, count_of, fill_leb, lot_leb, apply_fill, replay, project_ledger,
}
use seven_lens_paper_trading.Ledger.Totals.{
  by_order, shares_bought, shares_sold, cents_spent, cents_earned, quantity_for, held,
  length-shares, by_order_known, length-queue_after, cash_after_lem, bought, sold, spent, earned,
}

module _ (orders : Dict BrokerOrder) where
  -- What a replay has done to the state that it began with.
  pub record Replayed (r : Replay) (fills : List Fill) (r' : Replay) : Type 0 where
    pub kept_shares :
        (symbol : String)
        → held symbol r'.lots + sold orders symbol fills
          ≡ held symbol r.lots + bought orders symbol fills
    pub kept_cash :
        r'.cash_cents +ℤ pos (spent orders fills) ≡ r.cash_cents +ℤ pos (earned orders fills)
    pub counted :
        (k : String)
        → count_of (lookup k r'.filled_by_order)
          ≡ count_of (lookup k r.filled_by_order) + sum_by (quantity_for k) fills
    pub positive : All IsLot r'.lots

  module _ {r r' : Replay} {fill : Fill} {order : BrokerOrder}
      (a : Applied orders r fill order r') where
    applied_shares :
        (symbol : String)
        → held symbol r'.lots + by_order orders (shares_sold symbol) fill
          ≡ held symbol r.lots + by_order orders (shares_bought symbol) fill
    applied_shares symbol =
        rw
          (
            by_order_known orders (shares_sold symbol) fill order a.known,
            by_order_known orders (shares_bought symbol) fill order a.known,
            ← length-shares symbol r'.lots,
            ← length-shares symbol r.lots,
            a.queues symbol,
          )
          (length-queue_after symbol order fill (shares symbol r.lots) (λ same side.
            let e = (eq_iff order.symbol symbol).0 same in
            subst (λ x. fill.quantity.value ≤ length (shares x r.lots)) e (a.covered side)))

    applied_cash :
        r'.cash_cents +ℤ pos (by_order orders cents_spent fill)
        ≡ r.cash_cents +ℤ pos (by_order orders cents_earned fill)
    applied_cash =
        rw
          (
            by_order_known orders cents_spent fill order a.known,
            by_order_known orders cents_earned fill order a.known,
            a.cash,
          )
          (cash_after_lem order fill r.cash_cents)

    applied_counted :
        (k : String)
        → count_of (lookup k r'.filled_by_order)
          ≡ count_of (lookup k r.filled_by_order) + quantity_for k fill
    applied_counted k = ground (
      arith,
      a.filled,
      lookup-insert fill.broker_order_id k
          (count_of (lookup fill.broker_order_id r.filled_by_order) + fill.quantity.value)
          r.filled_by_order,
      eq_iff fill.broker_order_id k,
    )

  -- Whatever the fills, a replay that succeeds conserves shares and cash and counts every order.
  pub replay-Replayed :
      (fills : List Fill) (r r' : Replay)
      → All IsLot r.lots
      → replay orders r fills ≡ ok r'
      → Replayed r fills r'
  unfolding replay bought sold spent earned
  replay-Replayed [] r r' v h = record {
    kept_shares = λ symbol. cc;
    kept_cash = cc;
    counted = λ k. ground arith;
    positive = ground arith;
  }
  replay-Replayed (fill ∷ fills) r r' v h =
      let (mid, step, rest) = >>=-eq-ok (apply_fill orders r fill) (λ x. replay orders x fills) h in
      let (order, a) = apply_fill-Applied orders fill r mid v step in
      let all = replay-Replayed fills mid r' a.positive rest in
      record {
        kept_shares = λ symbol. omega (arith, applied_shares a symbol, all.kept_shares symbol);
        kept_cash = balance_trans _ _ _ _ _ _ _ (applied_cash a) all.kept_cash;
        counted = λ k. omega (arith, applied_counted a k, all.counted k);
        positive = all.positive;
      }

  -- No order has counted more than its quantity.
  IsWithin : Replay → Type 0
  IsWithin r =
      (k : String) (order : BrokerOrder)
      → lookup k orders ≡ some order
      → count_of (lookup k r.filled_by_order) ≤ order.quantity.value

  Applied-IsWithin :
      {r r' : Replay} {fill : Fill} {order : BrokerOrder}
      → Applied orders r fill order r'
      → IsWithin r
      → IsWithin r'
  unfolding IsWithin
  Applied-IsWithin {r} {r'} {fill} {order} a w k other known =
      elim (Bool-cases (str_eq fill.broker_order_id k)) [
        | inl same ↦
            let e = (eq_iff fill.broker_order_id k).0 same in
            let e' : some order ≡ some other = sym a.known ∙ ap (λ x. lookup x orders) e ∙ known in
            rw (a.filled, lookup-insert, same)
              (subst
                (λ (o : Option BrokerOrder).
                  count_of (lookup fill.broker_order_id r.filled_by_order) + fill.quantity.value
                  ≤ elim o [ none ↦ 0 | some x ↦ x.quantity.value ])
                e' a.within)
        | inr differ ↦ rw (a.filled, lookup-insert, differ) (w k other known)
      ]

  replay-IsWithin :
      (fills : List Fill) (r r' : Replay)
      → All IsLot r.lots
      → IsWithin r
      → replay orders r fills ≡ ok r'
      → IsWithin r'
  unfolding replay
  replay-IsWithin [] r r' v w h = subst IsWithin (ground arith) w
  replay-IsWithin (fill ∷ fills) r r' v w h =
      let (mid, step, rest) = >>=-eq-ok (apply_fill orders r fill) (λ x. replay orders x fills) h in
      let (order, a) = apply_fill-Applied orders fill r mid v step in
      replay-IsWithin fills mid r' a.positive (Applied-IsWithin a w) rest

  start-IsWithin : IsWithin start
  unfolding IsWithin lookup
  start-IsWithin k order known = omega arith

  project_inverse :
      (fills : List Fill) (p : LedgerProjection)
      → project_ledger fills orders ≡ ok p
      → (r : Replay) × (replay orders start (sorted fill_leb fills) ≡ ok r)
        × (abs r.cash_cents ≤ max_abs_cents)
        × (p ≡ record { cash_delta_cents = r.cash_cents; lots = sorted lot_leb r.lots })
  unfolding project_ledger
  project_inverse fills p h =
      let (r, e, rest) = >>=-eq-ok (replay orders start (sorted fill_leb fills)) _ h in
      (r, e, ground arith, ground arith)

module _ (fills : List Fill) (orders : Dict BrokerOrder) (p : LedgerProjection)
    (accepted : project_ledger fills orders ≡ ok p) where
  -- In an accepted projection, for every symbol, the shares in the projected lots and the shares sold
  -- by the fills add up to the shares bought by them: no share is lost, made up or sold short.
  pub project_ledger_shares :
      (symbol : String) → held symbol p.lots + sold orders symbol fills ≡ bought orders symbol fills
  unfolding sold bought
  project_ledger_shares symbol =
      let (r, e, bounded, same) = project_inverse orders fills p accepted in
      let all = replay-Replayed orders (sorted fill_leb fills) start r tt e in
      rw (same, sum_by-sorted lot_leb _ r.lots)
        (omega (
          arith,
          all.kept_shares symbol,
          sum_by-sorted fill_leb (by_order orders (shares_sold symbol)) fills,
          sum_by-sorted fill_leb (by_order orders (shares_bought symbol)) fills,
        ))

  -- In an accepted projection, the projected cash and what the buys cost add up to what the sells
  -- brought in, and that cash is in range.
  pub project_ledger_cash :
      (p.cash_delta_cents +ℤ pos (spent orders fills) ≡ pos (earned orders fills))
      × (abs p.cash_delta_cents ≤ max_abs_cents)
  unfolding spent earned
  project_ledger_cash =
      let (r, e, bounded, same) = project_inverse orders fills p accepted in
      let all = replay-Replayed orders (sorted fill_leb fills) start r tt e in
      rw same (
        rw
              (
                sum_by-sorted fill_leb (by_order orders cents_spent) fills,
                sum_by-sorted fill_leb (by_order orders cents_earned) fills,
              )
              at all.kept_cash
            ∙ zero_+ℤ (pos (earned orders fills)),
        bounded,
      )

  -- When the projection is accepted, the fills of a known order add up to at most its quantity.
  pub project_ledger_orders :
      (k : String) (order : BrokerOrder)
      → lookup k orders ≡ some order
      → sum_by (quantity_for k) fills ≤ order.quantity.value
  unfolding IsWithin
  project_ledger_orders k order known =
      let (r, e, bounded, same) = project_inverse orders fills p accepted in
      let all = replay-Replayed orders (sorted fill_leb fills) start r tt e in
      let w = replay-IsWithin orders (sorted fill_leb fills) start r tt (start-IsWithin orders) e in
      omega (arith, all.counted k, w k order known, sum_by-sorted fill_leb (quantity_for k) fills)
