-- ===== src/Money/Quantum.antt =====
-- `quantize(Decimal('0.001'), rounding=ROUND_HALF_UP)`: `_quantize` of apps/cart/services.py and
-- `_money` of apps/affiliate/services.py, on amounts that are not negative. The amount is a
-- fraction `num / den` of a thousandth, the result a number of thousandths.
use native.Mathlib.Nat.{div-add-mod, mod-lt, mul-le-mul_left, mul-le-mul_right}
use asoud_backend_full.Prelude.{
  ℕ, suc, ◌+◌, ◌*◌, ◌/◌, ◌%◌, ◌≤◌, ◌<◌, ◌≡◌, arith, leb, if◌then◌else◌, Bool-cases, inl, inr,
}

-- The remainder decides: half of the divisor or more goes up.
unfoldable pub half_up : ℕ → ℕ → ℕ
half_up num den = if leb den (2 * (num % den)) then num / den + 1 else num / den

-- A percentage of an amount in thousandths, as `amount * percentage / Decimal('100')`, rounded.
unfoldable pub percent_of : ℕ → ℕ → ℕ
unfolding half_up
percent_of amount percentage = half_up (amount * percentage) 100

-- The rounded value is within half a unit, and a tie goes up.
pub half_up_bounds :
    (num den : ℕ)
    → 0 < den
    → (2 * num < 2 * (half_up num den * den) + den) × (2 * (half_up num den * den) ≤ 2 * num + den)
unfolding half_up
half_up_bounds num den h = grind (arith, div-add-mod num den, mod-lt num h)

pub half_up-one : (n : ℕ) → half_up n 1 ≡ n
unfolding half_up
half_up-one n = ground arith

-- A discount of at most 100 percent never raises a price.
pub percent_of-le : (amount p : ℕ) → p ≤ 100 → percent_of amount p ≤ amount
unfolding percent_of
percent_of-le amount p h = ground (arith, mul-le-mul_left amount h)

-- A rounded quotient is at most a whole bound of the quotient.
pub half_up-le : (num den n : ℕ) → 0 < den → num ≤ n * den → half_up num den ≤ n
half_up-le num den n h le = elim (Bool-cases (leb (half_up num den) n)) [
  | inl within ↦ ground arith
  | inr beyond ↦
      let more : suc n ≤ half_up num den = ground arith in
      absurd (omega (arith, mul-le-mul_right den more, (half_up_bounds num den h).1))
]
