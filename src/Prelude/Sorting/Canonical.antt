-- ===== src/Prelude/Sorting/Canonical.antt =====
-- Sorting by a total order gives one result for all arrangements of items with distinct keys.
use mathlib.Core.Path.{◌≡◌, refl, ap, ap₂, subst, ◌∙◌}
use mathlib.Core.Logic.{◌≢◌, ∥∥₁_elim}
use mathlib.Core.Bool.{Bool, true, false}
use mathlib.Core.List.{List, [], ◌∷◌, map, Perm, Permᴰ, Mem, Nodup, Nodup-cons, mem-cons_self}
use mathlib.Core.List.Perm
use native.Mathlib.Omega.{arith}
use seven_lens_paper_trading.Prelude.Sorting.{insort, sorted}

module _ {ℓ κ} {A : Type ℓ} {K : Type κ} (leq : A → A → Bool) (key : A → K)
    (total : (a b : A) → leq a b ≡ false → leq b a ≡ true)
    (trans : (a b c : A) → leq a b ≡ true → leq b c ≡ true → leq a c ≡ true)
    (antisymm : (a b : A) → leq a b ≡ true → leq b a ≡ true → key a ≡ key b) where
  insort_comm :
      (a b : A) (l : List A)
      → key a ≢ key b
      → insort leq a (insort leq b l) ≡ insort leq b (insort leq a l)
  unfolding insort
  insort_comm a b [] ne = ground (arith, total a b, antisymm a b)
  insort_comm a b (y ∷ ys) ne = ground (
    arith,
    total a b,
    total b a,
    antisymm a b,
    trans a b y,
    trans b a y,
    total a y,
    total b y,
    trans a y b,
    trans b y a,
    insort_comm a b ys ne,
  )

  sorted-Permᴰ : {xs ys : List A} → Permᴰ xs ys → Nodup (map key xs) → sorted leq xs ≡ sorted leq ys
  unfolding sorted
  sorted-Permᴰ Permᴰ.nil d = refl
  sorted-Permᴰ (Permᴰ.cons e p) d = ap₂ (insort leq) e (sorted-Permᴰ p (Nodup-cons.0 d).1)
  sorted-Permᴰ (Permᴰ.swap {a = a} {b = b} {l = l} e e') d =
      insort_comm a b (sorted leq l)
        (λ same. (Nodup-cons.0 d).0 (subst (λ k. Mem (key a) (k ∷ map key l)) same mem-cons_self))
      ∙ ap₂ (insort leq) e' (ap (λ x. insort leq x (sorted leq l)) e)
  sorted-Permᴰ (Permᴰ.trans p q) d =
      sorted-Permᴰ p d ∙ sorted-Permᴰ q (Perm.nodup (Perm.map key ∣ p ∣₁) d)

  -- Two arrangements of items with distinct keys are sorted alike.
  pub sorted-canonical :
      IsSet A → {xs ys : List A} → Perm xs ys → Nodup (map key xs) → sorted leq xs ≡ sorted leq ys
  sorted-canonical is_set {xs} {ys} p d =
      let lists : IsSet (List A) = hlevel is_set in ∥∥₁_elim p (lists _ _) (λ q. sorted-Permᴰ q d)
