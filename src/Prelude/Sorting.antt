-- ===== src/Prelude/Sorting.antt =====
-- Python's stable `sorted(items, key=…)`, over the order `leq` that the keys give.
pub mod Canonical
use mathlib.Core.Path.{◌≡◌, refl, ap, sym, ◌∙◌, subst}
use mathlib.Core.Logic.{◌⊎◌, inl, inr}
use mathlib.Core.Bool.{Bool, true, false}
use mathlib.Core.List.{List, [], ◌∷◌, Perm, Permᴰ}
use mathlib.Core.Logic.{∥∥₁_elim}
use native.Mathlib.Nat.{ℕ_set}
use Prim.Native.Nat.{ℕ, ◌+◌}
use mathlib.Core.List.Perm
use native.Mathlib.Omega.{arith}
use seven_lens_paper_trading.Prelude.Tests.{if◌then◌else◌, Bool-cases}
use seven_lens_paper_trading.Prelude.Lists.{All, sum_by}

module _ {ℓ} {A : Type ℓ} (leq : A → A → Bool) where
  -- `x` stood before all of the list, so it goes before its equals
  unfoldable pub insort : A → List A → List A
  insort x [] = x ∷ []
  insort x (y ∷ ys) = if leq x y then x ∷ y ∷ ys else y ∷ insort x ys

  unfoldable pub sorted : List A → List A
  unfolding insort
  sorted [] = []
  sorted (x ∷ xs) = insort x (sorted xs)

  pub insort-perm : (x : A) (l : List A) → Perm (insort x l) (x ∷ l)
  unfolding insort
  insort-perm x [] = Perm.rfl
  insort-perm x (y ∷ ys) = elim (Bool-cases (leq x y)) [
    | inl p ↦ rw p Perm.rfl
    | inr p ↦ rw p (Perm.trans (Perm.cons y (insort-perm x ys)) (Perm.swap x y ys))
  ]

  pub sorted-perm : (l : List A) → Perm (sorted l) l
  unfolding sorted
  sorted-perm [] = Perm.nil
  sorted-perm (x ∷ xs) = Perm.trans (insort-perm x (sorted xs)) (Perm.cons x (sorted-perm xs))

  -- Each item is at most its successor.
  abbrev pub IsOrdered : List A → Type 0
  IsOrdered [] = Unit
  IsOrdered (x ∷ []) = Unit
  IsOrdered (x ∷ y ∷ ys) = (leq x y ≡ true) × IsOrdered (y ∷ ys)

-- A total over the items does not depend on their order.
sum_by-Permᴰ {ℓ} :
    {A : Type ℓ} (f : A → ℕ) {xs ys : List A} → Permᴰ xs ys → sum_by f xs ≡ sum_by f ys
sum_by-Permᴰ f Permᴰ.nil = refl
sum_by-Permᴰ f (Permᴰ.cons e p) = cc (ap f e, sum_by-Permᴰ f p)
sum_by-Permᴰ f (Permᴰ.swap {a = a} {b = b} {a' = a'} {b' = b'} e e') =
    omega (arith, ap f e, ap f e')
sum_by-Permᴰ f (Permᴰ.trans p q) = sum_by-Permᴰ f p ∙ sum_by-Permᴰ f q

pub sum_by-perm {ℓ} :
    {A : Type ℓ} (f : A → ℕ) {xs ys : List A} → Perm xs ys → sum_by f xs ≡ sum_by f ys
sum_by-perm f {xs} {ys} p = ∥∥₁_elim p (ℕ_set _ _) (λ q. sum_by-Permᴰ f q)

pub sum_by-sorted {ℓ} :
    {A : Type ℓ} (leq : A → A → Bool) (f : A → ℕ) (xs : List A)
    → sum_by f (sorted leq xs) ≡ sum_by f xs
sum_by-sorted leq f xs = sum_by-perm f (sorted-perm leq xs)

module _ {ℓ κ} {A : Type ℓ} (P : A → Type κ) (leq : A → A → Bool) where
  All-insort : (x : A) (l : List A) → P x → All P l → All P (insort leq x l)
  unfolding insort
  All-insort x [] p h = (p, tt)
  All-insort x (y ∷ ys) p h = elim (Bool-cases (leq x y)) [
    | inl e ↦ rw e (p, h)
    | inr e ↦ rw e (h.0, All-insort x ys p h.1)
  ]

  pub All-sorted : (l : List A) → All P l → All P (sorted leq l)
  unfolding sorted
  All-sorted [] h = h
  All-sorted (x ∷ xs) h = All-insort x (sorted leq xs) h.0 (All-sorted xs h.1)

  insort-All : (x : A) (l : List A) → All P (insort leq x l) → P x × All P l
  unfolding insort
  insort-All x [] h = h
  insort-All x (y ∷ ys) h = split (leq x y) (insort-All x ys) h
    where
      split :
          (b : Bool)
          → (All P (insort leq x ys) → P x × All P ys)
          → All P (if b then x ∷ y ∷ ys else y ∷ insort leq x ys)
          → P x × All P (y ∷ ys)
      split true rest h = h
      split false rest h = ((rest h.1).0, (h.0, (rest h.1).1))

  -- what holds of all sorted items holds of all items
  pub sorted-All : (l : List A) → All P (sorted leq l) → All P l
  unfolding sorted
  sorted-All [] h = h
  sorted-All (x ∷ xs) h =
      let first = insort-All x (sorted leq xs) h in (first.0, sorted-All xs first.1)
