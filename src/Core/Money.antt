-- ===== src/Core/Money.antt =====
-- Amounts in minor units of a currency (app/core/money.py). A Decimal is its coefficient and the
-- number of its decimal places, in Python's default context of 28 digits: `quantize` raises where its
-- result has more. The coefficient of a Decimal given to `from_decimal` has at most 28 digits. What
-- raises ValueError, KeyError or InvalidOperation in the source is none.
use ufirst_backend.Base.{
  ltb, true, ℕ, ◌+◌, ◌*◌, ◌/◌, ◌^◌, ◌≡◌, String, Option, none, some, List, [], ◌∷◌, Bool, false,
  ◌||◌, arith, refl, sym, ap, subst, inl, inr, Bool-cases, Option-cases, ◌∙◌, ◌-◌, str_eq,
  if◌then◌else◌,
}
use ufirst_backend.Base.Int.{ℤ, pos, negsuc, sub_ℕ, ◌+ℤ◌, ◌-ℤ◌}

abbrev among : String → List String → Bool
among s [] = false
among s (t ∷ ts) = str_eq s t || among s ts

abbrev currencies : List String
currencies = "GBP" ∷ "EUR" ∷ "USD" ∷ "NGN" ∷ "GHS" ∷ "KES" ∷ "ZAR" ∷ "CAD" ∷ []

-- `_MINOR_UNITS`: eight currencies, each with two decimal places.
unfoldable pub minor_units : String → Option ℕ
minor_units currency = if among currency currencies then some 2 else none

pub record Money : Type 0 where
  pub amount : ℤ
  pub currency : String

pub record Decimal : Type 0 where
  pub coefficient : ℤ
  pub places : ℕ

-- `Money(amount, currency)` with the check of `__post_init__`.
unfoldable pub make : ℤ → String → Option Money
make amount currency = elim (minor_units currency) [
  | none ↦ none
  | some exponent ↦ some (record { amount = amount; currency = currency })
]

-- `__add__` and `__sub__`, with `_assert_same_currency`.
unfoldable pub add : Money → Money → Option Money
unfolding make
add a b = if str_eq a.currency b.currency then make (a.amount +ℤ b.amount) a.currency else none

unfoldable pub sub : Money → Money → Option Money
unfolding make
sub a b = if str_eq a.currency b.currency then make (a.amount -ℤ b.amount) a.currency else none

-- The quotient rounded to the nearest, and of two the one away from zero (ROUND_HALF_UP).
unfoldable pub round_half_up : ℤ → ℕ → ℤ
round_half_up (pos n) d = pos ((2 * n + d) / (2 * d))
round_half_up (negsuc n) d = sub_ℕ 0 ((2 * (n + 1) + d) / (2 * d))

abbrev shifted : ℤ → ℕ → ℤ
shifted (pos n) factor = pos (n * factor)
shifted (negsuc n) factor = sub_ℕ 0 ((n + 1) * factor)

-- At most 28 digits.
unfoldable pub fits : ℤ → Bool
fits (pos n) = ltb n (10 ^ 28)
fits (negsuc n) = ltb (n + 1) (10 ^ 28)

-- The result of `quantize`.
abbrev quantized : {A : Type 0} → (ℤ → Option A) → ℤ → Option A
quantized f result = if fits result then f result else none

-- `as_decimal`: the quotient by 10 ^ exponent, quantized to that many places.
unfoldable pub as_decimal : Money → Option Decimal
unfolding round_half_up fits
as_decimal m = elim (minor_units m.currency) [
  | none ↦ none
  | some exponent ↦
      quantized (λ coefficient. some (record { coefficient = coefficient; places = exponent }))
        (round_half_up (shifted m.amount (10 ^ exponent)) (10 ^ exponent))
]

-- `from_decimal`
unfoldable pub from_decimal : Decimal → String → Option Money
unfolding make round_half_up fits
from_decimal value currency = elim (minor_units currency) [
  | none ↦ none
  | some exponent ↦
      quantized (λ amount. make amount currency)
        (round_half_up (shifted value.coefficient (10 ^ exponent)) (10 ^ value.places))
]

minus_suc : (n : ℕ) → sub_ℕ 0 (n + 1) ≡ negsuc n
minus_suc n = ground arith

-- A whole number of hundredths of a hundred is not rounded.
round-shifted : (a : ℤ) → round_half_up (shifted a 100) 100 ≡ a
unfolding round_half_up
round-shifted (pos n) = let exact : (2 * (n * 100) + 100) / 200 ≡ n = omega arith in ap pos exact
round-shifted (negsuc n) =
    let minus : sub_ℕ 0 ((n + 1) * 100) ≡ negsuc ((n + 1) * 100 - 1) = ground arith in
    let exact : (2 * ((n + 1) * 100 - 1 + 1) + 100) / 200 ≡ n + 1 = omega arith in
    ap (λ x. round_half_up x 100) minus ∙ ap (sub_ℕ 0) exact ∙ minus_suc n

minor_units_lem : (currency : String) (e : ℕ) → minor_units currency ≡ some e → e ≡ 2
unfolding minor_units
minor_units_lem currency e h = elim (Bool-cases (among currency currencies)) [
  | inl known ↦ cc (subst (λ b. (if b then some 2 else none) ≡ some e) known h)
  | inr unknown ↦ cc (subst (λ b. (if b then some 2 else none) ≡ some e) unknown h)
]

decimal-money :
    (amount : ℤ) (currency : String)
    → minor_units currency ≡ some 2
    → fits amount ≡ true
    → from_decimal (record { coefficient = amount; places = 2 }) currency
      ≡ some (record { amount = amount; currency = currency })
unfolding from_decimal make
decimal-money amount currency h short =
    let made : make amount currency ≡ some (record { amount = amount; currency = currency }) =
      rw (make, h) refl in
    rw (from_decimal, h)
      (ap (quantized (λ a. make a currency)) (round-shifted amount) ∙ rw short made)

as_decimal-some :
    (amount : ℤ) (currency : String)
    → minor_units currency ≡ some 2
    → fits amount ≡ true
    → as_decimal (record { amount = amount; currency = currency })
      ≡ some (record { coefficient = amount; places = 2 })
unfolding as_decimal
as_decimal-some amount currency h short =
    rw (as_decimal, h)
      (ap (quantized (λ c. some (record { coefficient = c; places = 2 }))) (round-shifted amount)
        ∙ rw short refl)

-- An amount of at most 28 digits that can be made, whatever its sign, has a decimal form, and comes back from it.
pub from_decimal-as_decimal :
    (amount : ℤ) (currency : String) (m : Money)
    → make amount currency ≡ some m
    → fits amount ≡ true
    → (d : Decimal) × (as_decimal m ≡ some d) × (from_decimal d m.currency ≡ some m)
unfolding make as_decimal
from_decimal-as_decimal amount currency m made short = elim (Option-cases (minor_units currency)) [
  | inl unknown ↦ cc (made, unsupported unknown)
  | inr (e, known) ↦
      let two : minor_units currency ≡ some 2 =
        known ∙ ap some (minor_units_lem currency e known) in
      let this : some (record { amount = amount; currency = currency }) ≡ some m =
        sym (supported two) ∙ made in
      comes_back two (cc this)
]
  where
    unsupported : minor_units currency ≡ none → make amount currency ≡ none
    unsupported h = rw (make, h) refl

    supported :
        minor_units currency ≡ some 2
        → make amount currency ≡ some (record { amount = amount; currency = currency })
    supported h = rw (make, h) refl

    comes_back :
        minor_units currency ≡ some 2
        → record { amount = amount; currency = currency } ≡ m
        → (d : Decimal) × (as_decimal m ≡ some d) × (from_decimal d m.currency ≡ some m)
    comes_back h same =
        subst (λ x. (d : Decimal) × (as_decimal x ≡ some d) × (from_decimal d x.currency ≡ some x))
          same
          (
            record { coefficient = amount; places = 2 },
            as_decimal-some amount currency h short,
            decimal-money amount currency h short,
          )
