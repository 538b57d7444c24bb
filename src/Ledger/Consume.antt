-- ===== src/Ledger/Consume.antt =====
-- A sell takes shares from its symbol's lots in the order in which they were opened: the loop over
-- the lots refines a queue of single shares.
use mathlib.Core.List.{append_assoc, append-nil}
use native.Mathlib.Decide.{dec_lt}
use native.Mathlib.Nat.{zero-mul, add-mul}
use seven_lens_paper_trading.Prelude.{
  ℕ, ◌+◌, ◌-◌, ◌*◌, ◌≤◌, ◌<◌, ◌≡◌, ◌≢◌, refl, sym, ap, ◌∙◌, String, true, false, inl, inr, List, [],
  ◌∷◌, ◌++◌, ◌==◌, if◌then◌else◌, arith, All, All-append, length, drop, replicate, length-replicate,
  length-append, drop-append, drop-replicate, drop-nil, Bool-cases, ◌⊎◌, ==_iff,
}
use seven_lens_paper_trading.Prelude.Int.{ℤ, pos, ◌+ℤ◌, +ℤ-zero, +ℤ-pos}
use seven_lens_paper_trading.Prelude.Text.{str_eq, eq_iff}
use seven_lens_paper_trading.Prelude.Result.{ok}
use seven_lens_paper_trading.Orders.Money.{Price}
use seven_lens_paper_trading.Ledger.Lots.{OpenLot, sell_lot, sell_lots}

abbrev pub IsLot : OpenLot → Type 0
IsLot lot = 1 ≤ lot.quantity

-- One share: the price and the instant at which it was bought.
abbrev pub Share : Type 0
Share = Price × ℕ

abbrev pub lot_shares : String → OpenLot → List Share
lot_shares symbol lot =
    if str_eq lot.symbol symbol then replicate lot.quantity (lot.price, lot.opened_at) else []

-- The shares of one symbol, in the order in which a sell takes them.
unfoldable pub shares : String → List OpenLot → List Share
shares symbol [] = []
shares symbol (lot ∷ lots) = lot_shares symbol lot ++ shares symbol lots

pub shares-append :
    (symbol : String) (xs ys : List OpenLot)
    → shares symbol (xs ++ ys) ≡ shares symbol xs ++ shares symbol ys
unfolding shares
shares-append symbol [] ys = refl
shares-append symbol (x ∷ xs) ys =
    ap (λ l. lot_shares symbol x ++ l) (shares-append symbol xs ys)
    ∙ sym (append_assoc (lot_shares symbol x) (shares symbol xs) (shares symbol ys))

-- What a sell of `remaining` shares at `price` has done to the lots and the cash.
pub record Sold (symbol : String) (price : Price) (lots : List OpenLot) (remaining : ℕ) (cash : ℤ)
    (left : ℕ) (cash' : ℤ) (lots' : List OpenLot) : Type 0 where
  pub left_over : left ≡ remaining - length (shares symbol lots)
  pub fifo : shares symbol lots' ≡ drop remaining (shares symbol lots)
  pub others : (other : String) → symbol ≢ other → shares other lots' ≡ shares other lots
  pub credited : cash' ≡ cash +ℤ pos ((remaining - left) * price.cents)
  pub positive : All IsLot lots'

module _ (symbol : String) (price : Price) where
  -- What one round has done.
  record Round (lot : OpenLot) (remaining : ℕ) (cash : ℤ) (kept : List OpenLot) (left : ℕ)
      (cash' : ℤ) : Type 0 where
    left_over : left ≡ remaining - length (lot_shares symbol lot)
    fifo : shares symbol kept ≡ drop remaining (lot_shares symbol lot)
    others : (other : String) → symbol ≢ other → shares other kept ≡ lot_shares other lot
    credited : cash' ≡ cash +ℤ pos ((remaining - left) * price.cents)
    positive : All IsLot kept

  module _ (lot : OpenLot) (remaining : ℕ) (cash : ℤ) (v : IsLot lot) where
    none_left :
        (remaining ≡ 0) ⊎ (str_eq lot.symbol symbol ≡ false)
        → drop remaining (lot_shares symbol lot) ≡ lot_shares symbol lot
    none_left (inl e) = rw e
    none_left (inr e) = rw e (drop-nil remaining)

    no_length :
        (remaining ≡ 0) ⊎ (str_eq lot.symbol symbol ≡ false)
        → remaining ≡ remaining - length (lot_shares symbol lot)
    no_length (inl e) = omega arith
    no_length (inr e) = rw e (omega arith)

    lot_kept :
        (remaining ≡ 0) ⊎ (str_eq lot.symbol symbol ≡ false)
        → Round lot remaining cash (lot ∷ []) remaining cash
    unfolding shares
    lot_kept h = record {
      left_over = no_length h;
      fifo = append-nil (lot_shares symbol lot) ∙ sym (none_left h);
      others = λ other ne. append-nil (lot_shares other lot);
      credited =
          let e : 0 ≡ remaining - remaining = omega arith in
          sym (+ℤ-zero cash)
          ∙ ap (λ (n : ℕ). cash +ℤ pos n) (sym (zero-mul price.cents))
          ∙ ap (λ (n : ℕ). cash +ℤ pos (n * price.cents)) e;
      positive = (v, tt);
    }

    not_other :
        (other : String)
        → str_eq lot.symbol symbol ≡ true
        → symbol ≢ other
        → str_eq lot.symbol other ≡ false
    not_other other same ne = ground (arith, eq_iff lot.symbol symbol, eq_iff lot.symbol other)

    lot_taken :
        str_eq lot.symbol symbol ≡ true
        → lot.quantity ≤ remaining
        → Round lot remaining cash []
            (remaining - lot.quantity)
            (cash +ℤ pos (lot.quantity * price.cents))
    unfolding shares
    lot_taken same h = record {
      left_over = rw (same, length-replicate) refl;
      fifo =
          rw (same, drop-replicate)
            (let e : 0 ≡ lot.quantity - remaining = omega arith in
              ap (λ (n : ℕ). replicate {A = Share} n (lot.price, lot.opened_at)) e);
      others = λ other ne. rw (not_other other same ne) refl;
      credited =
          let e : lot.quantity ≡ remaining - (remaining - lot.quantity) = omega arith in
          ap (λ (n : ℕ). cash +ℤ pos (n * price.cents)) e;
      positive = tt;
    }

    lot_cut :
        str_eq lot.symbol symbol ≡ true
        → remaining < lot.quantity
        → Round lot remaining cash
            (record lot { quantity = lot.quantity - remaining } ∷ [])
            0
            (cash +ℤ pos (remaining * price.cents))
    unfolding shares
    lot_cut same h = record {
      left_over = rw (same, length-replicate) (omega arith);
      fifo = rw (same, drop-replicate, append-nil) refl;
      others = λ other ne. rw (not_other other same ne) refl;
      credited =
          let e : remaining ≡ remaining - 0 = omega arith in
          ap (λ (n : ℕ). cash +ℤ pos (n * price.cents)) e;
      positive = (omega arith, tt);
    }

    sell_lot-Round :
        (kept : List OpenLot) × (left : ℕ) × (cash' : ℤ) × (sell_lot symbol price lot remaining cash
          ≡ ok (kept, left, cash'))
        × Round lot remaining cash kept left cash'
    unfolding sell_lot
    sell_lot-Round = elim (Bool-cases (str_eq lot.symbol symbol)) [
      | inr other ↦ (lot ∷ [], remaining, cash, ground arith, lot_kept (inr other))
      | inl same ↦ elim (dec_lt remaining lot.quantity) [
        | yes short ↦ elim (Bool-cases (remaining == 0)) [
          | inl spent ↦ (
            lot ∷ [],
            remaining,
            cash,
            ground arith,
            lot_kept (inl ((==_iff remaining 0).0 spent)),
          )
          | inr more ↦ (
            record lot { quantity = lot.quantity - remaining } ∷ [],
            0,
            cash +ℤ pos (remaining * price.cents),
            ground arith,
            lot_cut same short,
          )
        ]
        | no enough ↦ (
          [],
          remaining - lot.quantity,
          cash +ℤ pos (lot.quantity * price.cents),
          ground arith,
          lot_taken same (omega arith),
        )
      ]
    ]

  module _ {lot : OpenLot} {lots : List OpenLot} {remaining left left' : ℕ} {cash cash' cash'' : ℤ}
      {kept lots' : List OpenLot} where
    Round-Sold :
        Round lot remaining cash kept left cash'
        → Sold symbol price lots left cash' left' cash'' lots'
        → Sold symbol price (lot ∷ lots) remaining cash left' cash'' (kept ++ lots')
    unfolding shares
    Round-Sold r s = record {
      left_over = rw length-append (omega (arith, r.left_over, s.left_over));
      fifo = shares-append symbol kept lots' ∙ simp (r.fifo, s.fifo, r.left_over, drop-append);
      others =
          λ other ne. shares-append other kept lots' ∙ simp (r.others other ne, s.others other ne);
      credited =
          let e : remaining - left + (left - left') ≡ remaining - left' =
            omega (arith, r.left_over, s.left_over) in
          s.credited
          ∙ ap (λ c. c +ℤ pos ((left - left') * price.cents)) r.credited
          ∙ +ℤ-pos cash ((remaining - left) * price.cents) ((left - left') * price.cents)
          ∙ ap (λ (n : ℕ). cash +ℤ pos n)
              (sym (add-mul (remaining - left) (left - left') price.cents))
          ∙ ap (λ (n : ℕ). cash +ℤ pos (n * price.cents)) e;
      positive = All-append IsLot kept lots' r.positive s.positive;
    }

  nothing_Sold : (remaining : ℕ) (cash : ℤ) → Sold symbol price [] remaining cash remaining cash []
  unfolding shares
  nothing_Sold remaining cash = record {
    left_over = omega arith;
    fifo = sym (drop-nil remaining);
    others = λ other ne. refl;
    credited =
        let e : 0 ≡ remaining - remaining = omega arith in
        sym (+ℤ-zero cash)
        ∙ ap (λ (n : ℕ). cash +ℤ pos n) (sym (zero-mul price.cents))
        ∙ ap (λ (n : ℕ). cash +ℤ pos (n * price.cents)) e;
    positive = tt;
  }

  -- Over well-formed lots the loop never raises. It takes the oldest shares of its symbol, as many
  -- as there are of those it was asked for, leaves every other symbol's shares as they were, and
  -- credits the price of what it took.
  pub sell_lots-Sold :
      (lots : List OpenLot) (remaining : ℕ) (cash : ℤ)
      → All IsLot lots
      → (left : ℕ) × (cash' : ℤ) × (lots' : List OpenLot) × (sell_lots symbol price lots remaining
            cash
          ≡ ok (left, cash', lots'))
        × Sold symbol price lots remaining cash left cash' lots'
  unfolding sell_lots
  sell_lots-Sold [] remaining cash v = (remaining, cash, [], refl, nothing_Sold remaining cash)
  sell_lots-Sold (lot ∷ lots) remaining cash v =
      let (kept, left, cash', e, r) = sell_lot-Round lot remaining cash v.0 in
      let (left', cash'', lots', e', s) = sell_lots-Sold lots left cash' v.1 in
      (left', cash'', kept ++ lots', rw (e, e'), Round-Sold r s)
