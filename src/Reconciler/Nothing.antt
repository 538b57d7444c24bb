-- ===== src/Reconciler/Nothing.antt =====
-- What it says of a pass over the recorded and the reported objects that it found nothing.
use seven_lens_paper_trading.Prelude.{
  All, some, ◌≡◌, refl, Bool, true, false, not, String, List, [], ◌∷◌, ◌++◌, arith, Bool-cases, inl,
  inr,
}
use mathlib.Core.Path.{subst}
use seven_lens_paper_trading.Prelude.Dict.{Dict, lookup}
use seven_lens_paper_trading.Prelude.Text.{str_eq}
use seven_lens_paper_trading.Prelude.Result.{Result, err, ok, >>=-eq-ok}
use seven_lens_paper_trading.Reconciliation.{MismatchKind, ReconciliationMismatch}
use seven_lens_paper_trading.Reconciler.Answers.{Failure, Found, report, checked_report, each}

pub append_nil {ℓ} : {A : Type ℓ} (xs ys : List A) → xs ++ ys ≡ [] → (xs ≡ []) × (ys ≡ [])
append_nil [] ys e = (refl, e)
append_nil (x ∷ xs) ys e = cc

pub report_nil :
    (b : Bool) (kind : MismatchKind) (detail : String) → report b kind detail ≡ [] → b ≡ false
report_nil false kind detail e = refl
report_nil true kind detail e = cc

abbrev pub mismatches_of : Result Failure Found → List ReconciliationMismatch
mismatches_of (ok found) = found.mismatches
mismatches_of (err e) = []

pub checked_report_nil :
    (b : Bool) (kind : MismatchKind) (detail : String)
    → checked_report b kind detail ≡ ok []
    → b ≡ false
unfolding checked_report
checked_report_nil false kind detail e = refl
checked_report_nil true kind detail e = ground arith

pub not-false : (b : Bool) → not b ≡ false → b ≡ true
not-false true e = refl
not-false false e = cc

-- The pass returned and found nothing.
pub record FoundNothing (r : Result Failure Found) : Type 0 where
  pub found : Found
  pub returned : r ≡ ok found
  pub empty : found.mismatches ≡ []

pub each_nothing :
    {A : Type 0} (f : A → Result Failure Found) (xs : List A)
    → FoundNothing (each f xs)
    → All (λ x. FoundNothing (f x)) xs
unfolding each
each_nothing f [] n = tt
each_nothing f (x ∷ xs) n =
    let (first, e, after) = >>=-eq-ok (f x) _ n.returned in
    let (rest, e', last) = >>=-eq-ok (each f xs) _ after in
    let (a, b) = append_nil first.mismatches rest.mismatches (ground arith) in
    (
      record { found = first; returned = e; empty = a },
      each_nothing f xs (record { found = rest; returned = e'; empty = b }),
    )

pub All-lookup :
    {V : Type 0} (P : V → Type 0) (k : String) (v : V) (d : Dict V)
    → All (λ (p : String × V). P p.1) d
    → lookup k d ≡ some v
    → P v
unfolding lookup
All-lookup P k v [] h e = cc
All-lookup P k v ((j, w) ∷ d) h e = elim (Bool-cases (str_eq j k)) [
  | inl same ↦ subst P (ground arith) h.0
  | inr other ↦ All-lookup P k v d h.1 (ground arith)
]
