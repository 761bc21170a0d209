-- ===== src/Payment/Pay/Tests.antt =====
-- User 5 pays for the publication of store 3, 6 toman, at the gateway.
use asoud_backend_full.Payment.Rows.{
  Payment, pending, failed, market_target, Zarinpal, current_version, Store,
}
use asoud_backend_full.Payment.Sessions.{
  Call, stopped, resumed, opened, needs_reconciliation, session_not_created,
}
use asoud_backend_full.Payment.Pay.{open_session, attach_answer, pay}
use asoud_backend_full.Payment.Pay.Grows.{sessions}
use asoud_backend_full.Payment.Pay.Single.{open_session-single}
use asoud_backend_full.Payment.Pay.Attach.{IsAttached, IsClosed, attach_answer_outcome}
use asoud_backend_full.Cart.Rows.{draft}
use asoud_backend_full.Cart.Sample.{env, shop}
use asoud_backend_full.Money.{Decimal, whole, finite, numerator, denominator}
use asoud_backend_full.Prelude.{
  Option, ◌≢◌, ℕ, ◌/◌, ◌≤◌, ◌≡◌, refl, ◌⊎◌, true, false, none, some, [], ◌∷◌, arith,
}
use asoud_backend_full.Exec.{ok}
use asoud_backend_full.Table.{lookup, update}

abbrev rounded : Decimal → ℕ
rounded (finite negative c e) = numerator c e / denominator e
rounded _ = 0

abbrev call : Call
call = record {
  configured = true;
  env = env;
  now = 1000;
  market_fee = λ _. 6000;
  tariff = none;
  column = rounded;
  payment_id = 70;
  gateway_id = 71;
  requested = whole 6;
}

abbrev store : Store
store = record {
  bank = record { users = 5 ∷ 6 ∷ []; wallets = []; transactions = [] };
  shop = record shop {
    markets = (3, record { user = 5; status = draft; is_paid = false }) ∷ shop.markets;
  };
  diary = record {
    services = [];
    specialists = [];
    schedules = [];
    day_offs = [];
    time_offs = [];
    reservations = [];
  };
  cards = [];
  commissions = [];
  payments = [];
  gateways = [];
  notices = [];
}

abbrev payment : Payment
payment = record {
  user = 5;
  amount = 6;
  target_content_type = some market_target;
  target_id = 3;
  status = pending;
  created_at = 1000;
}

abbrev session : Zarinpal
session = record {
  payment = 70;
  authority = 0;
  transaction_id = 0;
  verification_data = current_version;
}

opens_session : (open_session call 5 market_target 3 store).0 ≡ ok (opened 70 71)
unfolding open_session asoud_backend_full.Wallet.lock_user lookup
    asoud_backend_full.Money.Gateway.validate_payment_amount
    asoud_backend_full.Money.Gateway.normalized_places
opens_session = refl

opens_payment : (open_session call 5 market_target 3 store).1.payments ≡ (70, payment) ∷ []
unfolding open_session asoud_backend_full.Wallet.lock_user lookup
    asoud_backend_full.Money.Gateway.validate_payment_amount
    asoud_backend_full.Money.Gateway.normalized_places asoud_backend_full.Table.append
opens_payment = refl

abbrev waiting : Store
waiting = record store { payments = (70, payment) ∷ []; gateways = (71, session) ∷ [] }

waits : (open_session call 5 market_target 3 waiting).0 ≡ ok (stopped needs_reconciliation)
unfolding open_session asoud_backend_full.Wallet.lock_user lookup
    asoud_backend_full.Payment.Processing.same_model
waits = refl

open_session-single_example :
    sessions 5 market_target 3 (open_session call 5 market_target 3 waiting).1.payments ≤ 1
unfolding sessions asoud_backend_full.Payment.Processing.same_model
open_session-single_example =
    open_session-single call 5 5 market_target 3 market_target 3 waiting refl (omega arith)

abbrev attached : Store
attached = record waiting { gateways = (71, record session { authority = 88 }) ∷ [] }

attaches : attach_answer 70 71 (some 88) waiting ≡ (ok (resumed 71), attached)
unfolding attach_answer lookup asoud_backend_full.Payment.Verify.save_gateway update
attaches = refl

resumes : (open_session call 5 market_target 3 attached).0 ≡ ok (resumed 71)
unfolding open_session asoud_backend_full.Wallet.lock_user lookup
    asoud_backend_full.Payment.Processing.same_model asoud_backend_full.Payment.Verify.is_current
resumes = refl

abbrev given : Option ℕ
given = some 88

attach_answer_outcome_example :
    (((given ≡ none) ⊎ (given ≡ some 0))
      × (resumed 71 ≡ stopped session_not_created)
      × IsClosed 70 attached)
    ⊎ ((authority : ℕ) × (given ≡ some authority)
        × (authority ≢ 0)
        × IsAttached 70 71 authority (resumed 71) waiting attached)
attach_answer_outcome_example =
    attach_answer_outcome 70 71 given waiting attached (resumed 71) attaches

-- A request that fails closes the payment.
fails_payment :
    (pay call none (λ s. s) 5 market_target 3 store).1.payments
    ≡ (70, record payment { status = failed }) ∷ []
unfolding pay asoud_backend_full.Wallet.lock_user lookup
    asoud_backend_full.Money.Gateway.validate_payment_amount
    asoud_backend_full.Money.Gateway.normalized_places asoud_backend_full.Table.append
    asoud_backend_full.Payment.Verify.save_payment
    asoud_backend_full.Payment.Processing.release_order update
fails_payment = refl
