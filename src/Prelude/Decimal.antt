-- ===== src/Prelude/Decimal.antt =====
-- Python's `f"{n:0{width}d}"` of a natural number: its decimal digits, filled with zeros on the left.
use Prim.Native.Nat.{ℕ, zero, suc, ◌+◌, ◌-◌, ◌*◌, ◌/◌, ◌%◌, ◌≤◌, ◌<◌}
use Prim.Native.Char.{Char, code}
use Prim.Native.String.{String}
use mathlib.Core.Path.{◌≡◌, refl, sym, ap, ◌∙◌}
use mathlib.Core.Bool.{◌&&◌}
use mathlib.Core.Logic.{inl, inr}
use native.Mathlib.Omega.{arith}
use seven_lens_paper_trading.Prelude.Tests.{◌==◌, Bool-cases, if◌then◌else◌}

abbrev nth : ℕ → String → Char
nth n String.[] = "0"
nth zero (String.◌∷◌ c s) = c
nth (suc n) (String.◌∷◌ c s) = nth n s

abbrev digit : ℕ → Char
digit n = nth n "0123456789"

-- The digits of `n`, at least `width` of them, before `rest`.
unfoldable pub numeral_onto : ℕ → ℕ → ℕ → String → String
numeral_onto zero width n rest = rest
numeral_onto (suc fuel) width n rest =
    let longer = numeral_onto fuel (width - 1) (n / 10) (String.◌∷◌ (digit (n % 10)) rest) in
    if width == 0 && n == 0 then rest else longer

-- One round for each digit, so that `n + width` rounds are enough.
unfoldable pub numeral : ℕ → ℕ → String
numeral width n = numeral_onto (n + width) width n ""

-- The number that digits say, read after `n`.
abbrev read_onto : ℕ → String → ℕ
read_onto n String.[] = n
read_onto n (String.◌∷◌ c s) = read_onto (n * 10 + (code c - 48)) s

read-digit : (d : ℕ) → d < 10 → code (digit d) - 48 ≡ d
read-digit zero h = refl
read-digit (suc zero) h = refl
read-digit (suc (suc zero)) h = refl
read-digit (suc (suc (suc zero))) h = refl
read-digit (suc (suc (suc (suc zero)))) h = refl
read-digit (suc (suc (suc (suc (suc zero))))) h = refl
read-digit (suc (suc (suc (suc (suc (suc zero)))))) h = refl
read-digit (suc (suc (suc (suc (suc (suc (suc zero))))))) h = refl
read-digit (suc (suc (suc (suc (suc (suc (suc (suc zero)))))))) h = refl
read-digit (suc (suc (suc (suc (suc (suc (suc (suc (suc zero))))))))) h = refl
read-digit (suc (suc (suc (suc (suc (suc (suc (suc (suc (suc d)))))))))) h = omega arith

read-numeral_onto :
    (fuel width n : ℕ) (rest : String)
    → n + width ≤ fuel
    → read_onto 0 (numeral_onto fuel width n rest) ≡ read_onto n rest
unfolding numeral_onto
read-numeral_onto zero width n rest h = let e : 0 ≡ n = omega arith in ap (λ k. read_onto k rest) e
read-numeral_onto (suc fuel) width n rest h = elim (Bool-cases (width == 0 && n == 0)) [
  | inl stop ↦ let e : 0 ≡ n = ground arith in rw stop (ap (λ k. read_onto k rest) e)
  | inr more ↦
      let lower : n / 10 + (width - 1) ≤ fuel = ground arith in
      let small : n % 10 < 10 = omega arith in
      let whole : n / 10 * 10 + (code (digit (n % 10)) - 48) ≡ n =
        omega (arith, read-digit (n % 10) small) in
      rw more (
        read-numeral_onto fuel (width - 1) (n / 10) (String.◌∷◌ (digit (n % 10)) rest) lower
        ∙ ap (λ k. read_onto k rest) whole)
]

-- Different numbers have different numerals.
pub numeral_injective : (width m n : ℕ) → numeral width m ≡ numeral width n → m ≡ n
unfolding numeral
numeral_injective width m n h =
    sym (read-numeral_onto (m + width) width m "" (omega arith))
    ∙ ap (read_onto 0) h
    ∙ read-numeral_onto (n + width) width n "" (omega arith)
