-- ===== src/Money/Decimals.antt =====
-- The decimals of Python's `decimal` module, and their exact comparison with whole numbers.
use asoud_backend_full.Prelude.{ℕ, suc, ◌*◌, ◌%◌, ◌^◌, Bool, true, false, not, ◌&&◌, ltb, ◌==◌}
use asoud_backend_full.Prelude.Int.{ℤ, pos, negsuc}

-- `finite negative coefficient exponent` is (-1)^negative * coefficient * 10^exponent.
pub data Decimal : Type 0 where
  nan infinity : Decimal
  finite : Bool → ℕ → ℤ → Decimal

-- The absolute value is `numerator / denominator`.
abbrev pub numerator : ℕ → ℤ → ℕ
numerator c (pos e) = c * 10 ^ e
numerator c (negsuc k) = c

abbrev pub denominator : ℤ → ℕ
denominator (pos e) = 1
denominator (negsuc k) = 10 ^ suc k

-- `amount < n` and `n < amount`, for a whole number n
abbrev pub is_below : Bool → ℕ → ℤ → ℕ → Bool
is_below true c e n = not (c == 0 && n == 0)
is_below false c e n = ltb (numerator c e) (n * denominator e)

abbrev pub is_above : Bool → ℕ → ℤ → ℕ → Bool
is_above true c e n = false
is_above false c e n = ltb (n * denominator e) (numerator c e)

-- `amount == amount.to_integral_value()`
abbrev pub is_integral : ℕ → ℤ → Bool
is_integral c e = numerator c e % denominator e == 0

-- whole toman, as a decimal
abbrev pub whole : ℕ → Decimal
whole n = finite false n (pos 0)
