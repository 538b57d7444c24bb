-- ===== src/Reconciler/Holdings.antt =====
-- What a run that is safe to resume on shows of the positions.
use mathlib.Core.Path.{subst}
use seven_lens_paper_trading.Prelude.{
  ℕ, All, All-append_left, All-append_right, Bool-cases, inl, inr, ◌⊎◌, ◌≡◌, refl, sym, ap, ◌∙◌,
  ◌==◌, Bool, true, false, not, if◌then◌else◌, String, elem, Option, none, some, List, [], ◌∷◌,
  ◌++◌, arith,
}
use seven_lens_paper_trading.Prelude.Dict.{Dict, lookup}
use seven_lens_paper_trading.Prelude.Text.{str_eq, str_leb, eq_iff}
use seven_lens_paper_trading.Prelude.Sorting.{sorted-All}
use seven_lens_paper_trading.Prelude.Result.{ok}
use seven_lens_paper_trading.Ledger.{LedgerProjection, positions, project_ledger}
use seven_lens_paper_trading.Reconciliation.{
  position_quantity_mismatch, ReconciliationResult, is_resume_safe,
}
use seven_lens_paper_trading.Store.Monad.{Tables}
use seven_lens_paper_trading.Reconciler.Answers.{PaperPosition, Answers, of_ledger}
use seven_lens_paper_trading.Reconciler.Account.{
  held_by_symbol, keys, distinct, compare_position, compare_positions, all_symbols,
  position_mismatches,
}
use seven_lens_paper_trading.Reconciler.Collect.{collect, orders_by_id}
use seven_lens_paper_trading.Reconciler.Nothing.{append_nil, report_nil}
use seven_lens_paper_trading.Reconciler.Parts.{everything_agrees}

module _ (projected held : Dict ℕ) where
  abbrev Same : String → Type 0
  Same s = lookup s projected ≡ lookup s held

  same_position : (s : String) (p b : Option ℕ) → compare_position s p b ≡ [] → p ≡ b
  unfolding compare_position
  same_position s none none e = refl
  same_position s (some p) none e = cc
  same_position s none (some b) e = cc
  same_position s (some p) (some b) e =
      ap some (ground (arith, report_nil (not (p == b)) position_quantity_mismatch s e))

  compare_positions-Same :
      (symbols : List String) → compare_positions projected held symbols ≡ [] → All Same symbols
  unfolding compare_positions
  compare_positions-Same [] e = tt
  compare_positions-Same (s ∷ symbols) e =
      let (here, there) = append_nil _ (compare_positions projected held symbols) e in
      (same_position s _ _ here, compare_positions-Same symbols there)

elem-All :
    (P : String → Type 0) (k : String) (ks : List String) → elem str_eq k ks ≡ true → All P ks → P k
elem-All P k [] e h = cc
elem-All P k (j ∷ ks) e h = elim (Bool-cases (str_eq k j)) [
  | inl same ↦ subst P (sym ((eq_iff k j).0 same)) h.0
  | inr other ↦ elem-All P k ks (ground arith) h.1
]

-- a property of every text that is listed once holds of those that are listed again
distinct-All : (P : String → Type 0) (ks : List String) → All P (distinct ks) → All P ks
unfolding distinct
distinct-All P [] h = tt
distinct-All P (k ∷ ks) h = split (elem str_eq k (distinct ks)) refl (distinct-All P ks) h
  where
    split :
        (b : Bool)
        → elem str_eq k (distinct ks) ≡ b
        → (All P (distinct ks) → All P ks)
        → All P (if b then distinct ks else k ∷ distinct ks)
        → P k × All P ks
    split true e rest h = (elem-All P k (distinct ks) e h, rest h)
    split false e rest h = (h.0, rest h.1)

keys-lookup :
    {V : Type 0} (k : String) (d : Dict V) → (lookup k d ≡ none) ⊎ (elem str_eq k (keys d) ≡ true)
unfolding lookup
keys-lookup k [] = inl refl
keys-lookup k ((j, v) ∷ d) = elim (Bool-cases (str_eq j k)) [
  | inl same ↦ inr (ground (arith, eq_iff j k, eq_iff k j))
  | inr other ↦ elim (keys-lookup k d) [ inl e ↦ inl (ground arith) | inr e ↦ inr (ground arith) ]
]

module _ (projected held : Dict ℕ)
    (same : All (Same projected held) (all_symbols projected held)) where
  listed-Same : All (Same projected held) (keys projected ++ keys held)
  unfolding all_symbols
  listed-Same =
      distinct-All (Same projected held) _ (sorted-All (Same projected held) str_leb _ same)

  everywhere-Same : (s : String) → Same projected held s
  everywhere-Same s = elim (keys-lookup s projected) [
    | inl e ↦ elim (keys-lookup s held) [
      | inl e' ↦ e ∙ sym e'
      | inr k ↦
          elem-All (Same projected held) s (keys held) k
            (All-append_right _ (keys projected) (keys held) listed-Same)
    ]
    | inr k ↦
        elem-All (Same projected held) s (keys projected) k
          (All-append_left _ (keys projected) (keys held) listed-Same)
  ]

module _ (a : Answers) (t : Tables) (trading_date at run_id : ℕ) (r : ReconciliationResult)
    (done : collect a t trading_date at run_id ≡ ok r) (safe : is_resume_safe r ≡ true) where
  -- If a run of `collect` is safe to resume on, then the ledger could be projected and the broker has
  -- answered its positions, and for every symbol the projection and the broker hold the same quantity,
  -- or neither has a position in it.
  pub collect-positions :
      (projection : LedgerProjection) × ((ps : List PaperPosition) × (of_ledger
            (project_ledger t.orders.fills (orders_by_id t))
          ≡ ok projection)
        × (a.list_positions ≡ ok ps)
        × ((symbol : String)
            → lookup symbol (positions projection) ≡ lookup symbol (held_by_symbol [] ps)))
  unfolding position_mismatches
  collect-positions =
      let agree = (everything_agrees a t trading_date at run_id r done safe).accounts in
      (
        agree.projection,
        (
          agree.held,
          agree.projected,
          agree.held_answer,
          everywhere-Same (positions agree.projection) (held_by_symbol [] agree.held)
              (compare_positions-Same _ _ _ agree.positions_agree),
        ),
      )
