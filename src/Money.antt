-- ===== src/Money.antt =====
-- The money policy: apps/core/money.py (`normalize_money`), the quantization of
-- apps/cart/services.py and apps/affiliate/services.py (`_quantize`, `_money`), and the check of
-- gateway amounts in apps/payment/core.py (`validate_payment_amount`).
--
-- A Python `Decimal` is a sign, a coefficient and an exponent. What `Decimal(str(value))` makes of
-- a value is an argument, `none` where it raises. Stored prices have three decimal places and are
-- counted in thousandths; wallet amounts have none and are counted in toman.
mod Decimals
pub mod Normalize
pub mod Gateway
pub mod Quantum
mod Tests
pub use Decimals.*
