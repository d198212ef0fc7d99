-- ===== src/Wallet/Rates.antt =====
-- The rates of app/modules/wallet/openbanking/payments.py, in millionths, and the conversion of an
-- amount. Python's `upper` is a parameter.
use ufirst_backend.Base.{
  ℕ, ◌+◌, ◌*◌, ◌/◌, ◌%◌, String, Option, none, some, Bool, ◌&&◌, ◌||◌, ◌==◌, ltb, str_eq,
  if◌then◌else◌,
}
use ufirst_backend.Base.Int.{ℤ, pos, negsuc, sub_ℕ}

abbrev is_pair : (a b source dest : String) → Bool
is_pair a b source dest = str_eq source a && str_eq dest b

-- `_FX_RATES`
unfoldable pub fx_rates : (source dest : String) → Option ℕ
fx_rates source dest =
    if is_pair "GBP" "NGN" source dest
    then some 1_950_000_000
    else if is_pair "GBP" "GHS" source dest
    then some 17_500_000
    else if is_pair "GBP" "EUR" source dest
    then some 1_170_000
    else if is_pair "GBP" "USD" source dest
    then some 1_270_000
    else if is_pair "EUR" "NGN" source dest
    then some 1_680_000_000
    else if is_pair "EUR" "USD" source dest
    then some 1_090_000
    else if is_pair "USD" "NGN" source dest
    then some 1_560_000_000
    else none

-- `quantize`: the nearest integer, and of two the even one.
unfoldable pub round_half_even : (n d : ℕ) → ℕ
round_half_even n d =
    let q = n / d in
    let twice = 2 * (n % d) in if ltb d twice || (twice == d && q % 2 == 1) then q + 1 else q

abbrev inverse_or_one : Option ℕ → ℕ
inverse_or_one none = 1_000_000
inverse_or_one (some rate) = round_half_even 1_000_000_000_000 rate

abbrev rate_or_inverse : Option ℕ → Option ℕ → ℕ
rate_or_inverse (some rate) reverse = rate
rate_or_inverse none reverse = inverse_or_one reverse

-- `int(source_amount * fx_rate)` cuts towards zero.
abbrev pub converted : ℤ → ℕ → ℤ
converted (pos n) rate = pos (n * rate / 1_000_000)
converted (negsuc n) rate = sub_ℕ 0 ((n + 1) * rate / 1_000_000)

module _ (upper : String → String) where
  unfoldable pub get_fx_rate : (source dest : String) → ℕ
  unfolding fx_rates round_half_even
  get_fx_rate source dest =
      if str_eq (upper source) (upper dest)
      then 1_000_000
      else rate_or_inverse (fx_rates (upper source) (upper dest))
          (fx_rates (upper dest) (upper source))
