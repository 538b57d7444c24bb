-- ===== src/Ledger/Canonical.antt =====
-- The projection does not depend on the order in which the fills are read.
use text.Mathlib.TextEquality.{IsScalar-prop}
use mathlib.Core.List.{Perm, Nodup}
use seven_lens_paper_trading.Prelude.{◌≡◌, refl, String, true, false, List, map, arith}
use seven_lens_paper_trading.Prelude.Text.{str_leb_total, str_leb_trans, str_leb_antisymm}
use seven_lens_paper_trading.Prelude.Dict.{Dict}
use seven_lens_paper_trading.Prelude.Sorting.Canonical.{sorted-canonical}
use seven_lens_paper_trading.Orders.Mirror.{BrokerOrder, Fill}
use seven_lens_paper_trading.Ledger.{fill_leb, project_ledger}

abbrev pub execution : Fill → String
execution f = f.execution_id

fill_leb_total : (a b : Fill) → fill_leb a b ≡ false → fill_leb b a ≡ true
unfolding fill_leb
fill_leb_total a b h = ground (arith, str_leb_total a.execution_id b.execution_id)

fill_leb_trans : (a b c : Fill) → fill_leb a b ≡ true → fill_leb b c ≡ true → fill_leb a c ≡ true
unfolding fill_leb
fill_leb_trans a b c h k =
    ground (arith, str_leb_trans a.execution_id b.execution_id c.execution_id)

fill_leb_antisymm :
    (a b : Fill) → fill_leb a b ≡ true → fill_leb b a ≡ true → a.execution_id ≡ b.execution_id
unfolding fill_leb
fill_leb_antisymm a b h k = ground (arith, str_leb_antisymm a.execution_id b.execution_id)

Fill-set : IsSet Fill
Fill-set = hlevel IsScalar-prop

-- Whatever the order in which the caller or the database hands over the same fills, with distinct
-- execution ids, the projection is the same: the same cash and lots, or the same error.
pub project_ledger-perm :
    (fills fills' : List Fill) (orders : Dict BrokerOrder)
    → Perm fills fills'
    → Nodup (map execution fills)
    → project_ledger fills orders ≡ project_ledger fills' orders
unfolding project_ledger
project_ledger-perm fills fills' orders p d =
    rw
      (sorted-canonical fill_leb execution fill_leb_total fill_leb_trans fill_leb_antisymm Fill-set
        p d)
      refl
