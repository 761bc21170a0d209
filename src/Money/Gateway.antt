-- ===== src/Money/Gateway.antt =====
-- apps/payment/core.py: `validate_payment_amount`, the bounds of an amount sent to the gateway.
use native.Mathlib.Nat.{pow-suc}
use asoud_backend_full.Money.Decimals.{
  Decimal, nan, infinity, finite, numerator, denominator, is_above,
}
use asoud_backend_full.Prelude.{
  ℕ, zero, suc, ◌+◌, ◌-◌, ◌*◌, ◌/◌, ◌%◌, ◌^◌, ◌≤◌, ◌<◌, max, ◌≡◌, refl, Bool, true, false, ◌||◌,
  ◌&&◌, Option, none, some, arith, ltb, ◌==◌, if◌then◌else◌, Bool-cases, ==_iff, ◌↔◌, inl, inr,
}
use asoud_backend_full.Prelude.Int.{ℤ, pos, negsuc}

pub data AmountError : Type 0 where
  not_a_number not_finite not_positive exceeds_maximum too_many_decimals : AmountError

-- The decimal digits to drop until the coefficient has at most 28, the precision of Python's
-- default context. Each round divides by ten, so the coefficient itself is fuel enough.
excess_digits : ℕ → ℕ → ℕ
excess_digits zero c = 0
excess_digits (suc fuel) c =
    let rest = excess_digits fuel (c / 10) in if ltb c (10 ^ 28) then 0 else rest + 1

-- A coefficient divided by 10 ^ k, half to even.
half_even : ℕ → ℕ → ℕ
half_even c k =
    let q = c / 10 ^ k in
    let r = c % 10 ^ k in
    if ltb (2 * r) (10 ^ k) || (2 * r == 10 ^ k && q % 2 == 0) then q else q + 1

-- The decimal places that `normalize` leaves of `places`: it strips the zeros at the end of the
-- coefficient. Stripping further, past the point, gives an exponent that is not negative.
places_left : ℕ → ℕ → ℕ
places_left zero c = 0
places_left (suc places) c =
    let rest = places_left places (c / 10) in if c % 10 == 0 then rest else suc places

-- The decimal places that Python's default context can represent: its smallest exponent is -999999,
-- for a coefficient of 28 digits. What lies below is rounded away, also to zero.
abbrev pub max_places : ℕ
max_places = 1000026

-- `-amount.normalize().as_tuple().exponent`, or zero where the exponent is not negative;
-- a coefficient that is rounded to zero has the exponent 0.
unfoldable pub normalized_places : ℕ → ℤ → ℕ
unfolding excess_digits half_even places_left
normalized_places c (pos e) = 0
normalized_places c (negsuc k) =
    let dropped = max (excess_digits c c) (suc k - max_places) in
    let kept = if dropped == 0 then c else half_even c dropped in
    if kept == 0 then 0 else places_left (suc k - dropped) kept

-- The default of `max_amount`.
abbrev pub max_gateway_amount : ℕ
max_gateway_amount = 1000000000

check_finite : Bool → ℕ → ℤ → Option AmountError
check_finite negative c e =
    if negative || c == 0
    then some AmountError.not_positive
    else if is_above negative c e max_gateway_amount
    then some AmountError.exceeds_maximum
    else if ltb 2 (normalized_places c e)
    then some AmountError.too_many_decimals
    else none

-- `none` where the amount is valid. The argument is what `Decimal(str(amount))` gave.
unfoldable pub validate_payment_amount : Option Decimal → Option AmountError
unfolding check_finite
validate_payment_amount none = some AmountError.not_a_number
validate_payment_amount (some nan) = some AmountError.not_finite
validate_payment_amount (some infinity) = some AmountError.not_finite
validate_payment_amount (some (finite negative c e)) = check_finite negative c e

times_pow-suc : (q k : ℕ) → q * 10 ^ suc k ≡ 10 * (q * 10 ^ k)
times_pow-suc q k = rw pow-suc (omega arith)

-- One zero at the end of the coefficient is one decimal place less.
one_place_less : (k c q : ℕ) → c % 10 ≡ 0 → c / 10 * 100 ≡ q * 10 ^ k → c * 100 ≡ q * 10 ^ suc k
one_place_less k c q z h = omega (arith, times_pow-suc q k)

trailing_zero :
    (k c q : ℕ)
    → c * 100 ≡ q * 10 ^ suc (suc (suc k))
    → (c % 10 ≡ 0) × (c / 10 * 100 ≡ q * 10 ^ suc (suc k))
trailing_zero k c q h =
    let a = times_pow-suc q (suc (suc k)) in
    let b = times_pow-suc q (suc k) in let d = times_pow-suc q k in (omega arith, omega arith)

places_left-two : (places c : ℕ) → places_left places c ≤ 2 → (q : ℕ) × (c * 100 ≡ q * 10 ^ places)
unfolding places_left
places_left-two zero c h = (c * 100, omega arith)
places_left-two (suc zero) c h = (c * 10, omega arith)
places_left-two (suc (suc zero)) c h = (c, omega arith)
places_left-two (suc (suc (suc k))) c h = elim (Bool-cases (c % 10 == 0)) [
  | inl e ↦
      let (q, p) = places_left-two (suc (suc k)) (c / 10) (rw e at h) in
      (q, one_place_less (suc (suc k)) c q ((==_iff _ _).0 e) p)
  | inr e ↦ absurd (let h' = rw e at h in omega arith)
]

two-places_left : (places c q : ℕ) → c * 100 ≡ q * 10 ^ places → places_left places c ≤ 2
unfolding places_left
two-places_left zero c q h = omega arith
two-places_left (suc zero) c q h = ground arith
two-places_left (suc (suc zero)) c q h = ground arith
two-places_left (suc (suc (suc k))) c q h =
    let (z, p) = trailing_zero k c q h in
    rw ((==_iff (c % 10) 0).1 z) (two-places_left (suc (suc k)) (c / 10) q p)

-- The value of a finite decimal that the gateway takes: positive, at most the maximum, and a whole
-- number of hundredths.
abbrev pub IsGatewayAmount : Bool → ℕ → ℤ → Type 0
IsGatewayAmount negative c e =
    (negative ≡ false)
    × (1 ≤ c)
    × (numerator c e ≤ max_gateway_amount * denominator e)
    × ((q : ℕ) × (numerator c e * 100 ≡ q * denominator e))

-- The decimal places that a number is written with.
abbrev pub places : ℤ → ℕ
places (pos e) = 0
places (negsuc k) = suc k

within_precision : (c : ℕ) → c < 10 ^ 28 → excess_digits c c ≡ 0
unfolding excess_digits
within_precision zero h = refl
within_precision (suc c) h = ground arith

no_places : (k : ℕ) → k - 0 ≡ k
no_places k = omega arith

normalized_places-two :
    (c : ℕ) (e : ℤ)
    → 1 ≤ c
    → c < 10 ^ 28
    → places e ≤ max_places
    → (normalized_places c e ≤ 2) ↔ ((q : ℕ) × (numerator c e * 100 ≡ q * denominator e))
unfolding normalized_places
normalized_places-two c (pos e) some_digit h few =
    ((λ _. (c * 10 ^ e * 100, omega arith)), (λ _. omega arith))
normalized_places-two c (negsuc k) some_digit h few =
    let not_zero : (c == 0) ≡ false = ground arith in
    let none_below : suc k - max_places ≡ 0 = omega arith in
    rw (within_precision c h, none_below, not_zero, no_places (suc k))
      (places_left-two (suc k) c, (λ m. two-places_left (suc k) c m.0 m.1))

-- An amount of at most 28 digits and at most 1000026 decimal places is valid exactly when it is a
-- positive number of hundredths that is not above the maximum.
pub validate_payment_amount_iff :
    (negative : Bool) (c : ℕ) (e : ℤ)
    → c < 10 ^ 28
    → places e ≤ max_places
    → (validate_payment_amount (some (finite negative c e)) ≡ none) ↔ IsGatewayAmount negative c e
unfolding validate_payment_amount
validate_payment_amount_iff true c e h few = ((λ v. cc), (λ v. cc (v.0)))
validate_payment_amount_iff false c e h few = elim (Bool-cases (c == 0)) [
  | inl zero_digits ↦
      ((λ v. absurd (cc (rw zero_digits at v))), (λ v. absurd (let p = v.1 in ground arith)))
  | inr some_digits ↦
      let two = normalized_places-two c e (ground arith) h few in
      (
        (λ v. (refl, ground arith, ground arith, two.0 (ground arith))),
        (λ v. let hundredths = two.1 v.3 in ground arith),
      )
]
