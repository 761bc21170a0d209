-- ===== src/Payment.antt =====
-- Payments at the gateway: apps/payment/models.py and `PaymentCore.verify`, `_release_order` and
-- `PostPaymentCore` of apps/payment/core.py.
pub mod Rows
pub mod Processing
pub mod Verify
pub mod Wallets
pub mod Sessions
pub mod Pay
pub mod Reconcile
