-- ===== src/Money/Normalize.antt =====
-- apps/core/money.py: whole toman between a minimum and 18 digits.
use asoud_backend_full.Money.Decimals.{
  Decimal, nan, infinity, finite, numerator, denominator, is_below, is_above, is_integral,
}
use asoud_backend_full.Prelude.{
  ℕ, zero, suc, ◌*◌, ◌/◌, ◌%◌, ◌^◌, ◌≤◌, ◌<◌, ◌≡◌, refl, ◌↔◌, Bool, true, false, not, ◌||◌, Option,
  none, some, arith, if◌then◌else◌,
}
use native.Mathlib.Nat.{
  div-add-mod, le_of_mul-le-mul_right, mul-le-mul_right, mul-mod_left, mul-div_cancel, zero-mod,
  pow-suc,
}
use asoud_backend_full.Prelude.Int.{ℤ, pos, negsuc}

-- `MAX_MONEY`
abbrev pub max_money : ℕ
max_money = 999999999999999999

-- `MIN_MONEY`, or zero where zero is allowed
abbrev pub minimum : Bool → ℕ
minimum allow_zero = if allow_zero then 0 else 1

normalize_finite : Bool → Bool → ℕ → ℤ → Option ℕ
normalize_finite allow_zero negative c e =
    if is_below negative c e (minimum allow_zero)
      || (is_above negative c e max_money || not (is_integral c e))
    then none
    else some (numerator c e / denominator e)

-- The argument is what `Decimal(str(value))` gave.
unfoldable pub normalize_money : Bool → Option Decimal → Option ℕ
unfolding normalize_finite
normalize_money allow_zero none = none
normalize_money allow_zero (some nan) = none
normalize_money allow_zero (some infinity) = none
normalize_money allow_zero (some (finite negative c e)) = normalize_finite allow_zero negative c e

-- A normalized amount has the value of the decimal and lies within the bounds.
abbrev pub Normalizes : Bool → Option Decimal → ℕ → Type 0
Normalizes allow_zero none n = ⊥
Normalizes allow_zero (some nan) n = ⊥
Normalizes allow_zero (some infinity) n = ⊥
Normalizes allow_zero (some (finite negative c e)) n =
    (n * denominator e ≡ numerator c e)
    × (negative ≡ true → c ≡ 0)
    × (minimum allow_zero ≤ n)
    × (n ≤ max_money)

-- Exact division keeps the bounds.
exact_division :
    (lo hi num d n : ℕ)
    → 0 < d
    → num % d ≡ 0
    → lo * d ≤ num
    → num ≤ hi * d
    → num / d ≡ n
    → (n * d ≡ num) × (lo ≤ n) × (n ≤ hi)
exact_division lo hi num d n pd integral low high e =
    let p : n * d ≡ num = grind (arith, div-add-mod num d) in
    (
      p,
      le_of_mul-le-mul_right {k = d} (omega arith) pd,
      le_of_mul-le-mul_right {k = d} (omega arith) pd,
    )

pub ten_pow_pos : (k : ℕ) → 0 < 10 ^ k
ten_pow_pos zero = omega arith
ten_pow_pos (suc k) = rw pow-suc (omega (arith, ten_pow_pos k))

denominator_pos : (e : ℤ) → 0 < denominator e
denominator_pos (pos e) = omega arith
denominator_pos (negsuc k) = ten_pow_pos (suc k)

-- What passes the tests of `normalize_finite` on a number that is not negative.
positive_tests :
    (allow_zero : Bool) (c : ℕ) (e : ℤ) (n : ℕ)
    → normalize_finite allow_zero false c e ≡ some n
    → (numerator c e % denominator e ≡ 0)
      × (minimum allow_zero * denominator e ≤ numerator c e)
      × (numerator c e ≤ max_money * denominator e)
      × (numerator c e / denominator e ≡ n)
unfolding normalize_finite
positive_tests z c e n h = ground arith

zero_over : (e : ℤ) → numerator 0 e / denominator e ≡ 0
zero_over (pos e) = grind arith
zero_over (negsuc k) = grind (arith, ten_pow_pos (suc k))

zero_numerator : (e : ℤ) → numerator 0 e ≡ 0
zero_numerator (pos e) = grind arith
zero_numerator (negsuc k) = refl

finite-Normalizes :
    (allow_zero negative : Bool) (c : ℕ) (e : ℤ) (n : ℕ)
    → normalize_finite allow_zero negative c e ≡ some n
    → Normalizes allow_zero (some (finite negative c e)) n
unfolding normalize_finite
finite-Normalizes true true zero e n h =
    let q : n ≡ 0 = ground (arith, zero_over e) in
    rw q (omega (arith, zero_numerator e), (λ _. refl), omega arith, omega arith)
finite-Normalizes true true (suc c) e n h = ground arith
finite-Normalizes false true c e n h = ground arith
finite-Normalizes z false c e n h =
    let t = positive_tests z c e n h in
    let (p, low, high) =
      exact_division (minimum z) max_money (numerator c e) (denominator e) n (denominator_pos e) t.0
        t.1 t.2 t.3 in
    (p, (λ q. cc), low, high)

product_tests :
    (lo n d : ℕ)
    → 0 < d
    → lo ≤ n
    → n ≤ max_money
    → (lo * d ≤ n * d) × (n * d ≤ max_money * d) × (n * d % d ≡ 0) × (n * d / d ≡ n)
product_tests lo n d pd low high =
    (mul-le-mul_right d low, mul-le-mul_right d high, mul-mod_left n d, mul-div_cancel n pd)

nil_value : (n : ℕ) (e : ℤ) → n * denominator e ≡ numerator 0 e → n ≡ 0
nil_value zero e p = refl
nil_value (suc n) e p = absurd (
    omega (
      arith,
      zero_numerator e,
      denominator_pos e,
      mul-le-mul_right {m = 1} {n = suc n} (denominator e) (omega arith),
    ))

normalize_finite-of-Normalizes :
    (allow_zero negative : Bool) (c : ℕ) (e : ℤ) (n : ℕ)
    → Normalizes allow_zero (some (finite negative c e)) n
    → normalize_finite allow_zero negative c e ≡ some n
unfolding normalize_finite
normalize_finite-of-Normalizes true true zero e n (p, nz, low, high) =
    let q : n ≡ 0 = nil_value n e p in
    ground (arith, zero_over e, zero_numerator e, zero-mod (denominator e))
normalize_finite-of-Normalizes false true zero e n (p, nz, low, high) =
    absurd (omega (arith, nil_value n e p))
normalize_finite-of-Normalizes z true (suc c) e n (p, nz, low, high) =
    absurd (omega (arith, nz refl))
normalize_finite-of-Normalizes z false c e n (p, nz, low, high) =
    let t = product_tests (minimum z) n (denominator e) (denominator_pos e) low high in
    rw (← p) (ground arith)

-- An amount is normalized to n exactly when it is a finite decimal of the value n, not negative,
-- within the minimum and 18 digits.
pub normalize_money_iff :
    (allow_zero : Bool) (d : Option Decimal) (n : ℕ)
    → (normalize_money allow_zero d ≡ some n) ↔ Normalizes allow_zero d n
unfolding normalize_money
normalize_money_iff z none n = ((λ h. cc), (λ h. absurd h))
normalize_money_iff z (some nan) n = ((λ h. cc), (λ h. absurd h))
normalize_money_iff z (some infinity) n = ((λ h. cc), (λ h. absurd h))
normalize_money_iff z (some (finite s c e)) n =
    (finite-Normalizes z s c e n, normalize_finite-of-Normalizes z s c e n)
