-- ===== src/Money/Tests.antt =====
-- Inputs of the money checks that can be followed in the source.
use asoud_backend_full.Money.Decimals.{finite, whole}
use asoud_backend_full.Money.Normalize.{normalize_money, normalize_money_iff, Normalizes}
use asoud_backend_full.Money.Gateway.{
  AmountError, validate_payment_amount, normalized_places, validate_payment_amount_iff,
  IsGatewayAmount,
}
use asoud_backend_full.Money.Quantum.{half_up, percent_of}
use asoud_backend_full.Prelude.{◌≡◌, refl, ◌↔◌, true, false, some, none, arith}
use asoud_backend_full.Prelude.Int.{negsuc}

-- '25.00' is 25, '25.50' is refused, and so is 0 unless zero is allowed.
normalize_tests :
    (normalize_money false (some (finite false 2500 (negsuc 1))) ≡ some 25)
    × (normalize_money false (some (finite false 2550 (negsuc 1))) ≡ none)
    × (normalize_money false (some (whole 0)) ≡ none)
    × (normalize_money true (some (whole 0)) ≡ some 0)
unfolding normalize_money
normalize_tests = (refl, refl, refl, refl)

validate_tests :
    (validate_payment_amount (some (finite false 1250 (negsuc 2))) ≡ none)
    × (validate_payment_amount (some (finite false 1255 (negsuc 2)))
        ≡ some AmountError.too_many_decimals)
    × (validate_payment_amount (some (whole 1000000001)) ≡ some AmountError.exceeds_maximum)
unfolding validate_payment_amount normalized_places
validate_tests = (refl, refl, refl)

-- 1.00000000000000000000000000001 has 29 places; `normalize` rounds it to 28 digits, and it passes.
long_fraction_passes :
    validate_payment_amount (some (finite false 100000000000000000000000000001 (negsuc 28))) ≡ none
unfolding validate_payment_amount normalized_places
long_fraction_passes = refl

-- 10 ^ -1000030 is below what the context can represent: `normalize` makes it 0, with no places.
-- 15 * 10 ^ -1000027 is rounded to the last place that there is.
underflow_has_no_places :
    (normalized_places 1 (negsuc 1000029) ≡ 0) × (normalized_places 15 (negsuc 1000026) ≡ 1000026)
unfolding normalized_places
underflow_has_no_places = (refl, refl)

rounding_tests : (half_up 2500 1000 ≡ 3) × (percent_of 1005 50 ≡ 503)
unfolding half_up percent_of
rounding_tests = (refl, refl)

normalize_money_iff_example :
    (normalize_money false (some (whole 7)) ≡ some 7) ↔ Normalizes false (some (whole 7)) 7
normalize_money_iff_example = normalize_money_iff false (some (whole 7)) 7

validate_payment_amount_iff_example :
    (validate_payment_amount (some (finite false 1250 (negsuc 2))) ≡ none)
    ↔ IsGatewayAmount false 1250 (negsuc 2)
validate_payment_amount_iff_example =
    validate_payment_amount_iff false 1250 (negsuc 2) (omega arith) (omega arith)
