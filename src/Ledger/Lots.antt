-- ===== src/Ledger/Lots.antt =====
-- The open lots of ledger.py and the inner loop of a sell.
use seven_lens_paper_trading.Prelude.{
  ℕ, ◌-◌, ◌*◌, String, not, ◌||◌, List, [], ◌∷◌, ◌++◌, ltb, leb, ◌==◌, if◌then◌else◌,
}
use seven_lens_paper_trading.Prelude.Int.{ℤ, pos, ◌+ℤ◌}
use seven_lens_paper_trading.Prelude.Text.{str_eq}
use seven_lens_paper_trading.Prelude.Result.{Result, ok, err, ◌>>=◌}
use seven_lens_paper_trading.Orders.Money.{Price}

abbrev pub max_abs_cents : ℕ
max_abs_cents = 1000000000000

-- `LedgerInvariantError` by its message, and the `ValueError`s of the module.
pub data LedgerError : Type 0 where
  duplicate_execution unknown_order exceeds_order cash_out_of_range oversold : LedgerError
  invalid_lot missing_price negative_opening_cash : LedgerError

pub record OpenLot : Type 0 where
  pub symbol : String
  pub quantity : ℕ
  pub price : Price
  pub opened_at : ℕ

-- `OpenLot(...)`, which `replace` runs too
unfoldable pub open_lot : OpenLot → Result LedgerError OpenLot
open_lot lot = if ltb lot.quantity 1 then err invalid_lot else ok lot

-- What one round of the loop over the lots keeps of its lot, and the new `remaining` and cash.
unfoldable pub sell_lot :
    String → Price → OpenLot → ℕ → ℤ → Result LedgerError (List OpenLot × ℕ × ℤ)
unfolding open_lot
sell_lot symbol price lot remaining cash =
    if remaining == 0 || not (str_eq lot.symbol symbol)
    then ok (lot ∷ [], remaining, cash)
    else if leb lot.quantity remaining
    then ok ([], remaining - lot.quantity, cash +ℤ pos (lot.quantity * price.cents))
    else (open_lot (record lot { quantity = lot.quantity - remaining }) >>= λ rest.
        ok (rest ∷ [], 0, cash +ℤ pos (remaining * price.cents)))

-- `for lot in lots`
unfoldable pub sell_lots :
    String → Price → List OpenLot → ℕ → ℤ → Result LedgerError (ℕ × ℤ × List OpenLot)
unfolding sell_lot
sell_lots symbol price [] remaining cash = ok (remaining, cash, [])
sell_lots symbol price (lot ∷ lots) remaining cash = do
  (kept, remaining', cash') ← sell_lot symbol price lot remaining cash
  (remaining'', cash'', consumed) ← sell_lots symbol price lots remaining' cash'
  ok (remaining'', cash'', kept ++ consumed)
