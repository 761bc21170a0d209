-- ===== src/Payment/Sessions.antt =====
-- Opening a session at the gateway: `PaymentCore.pay` of apps/payment/core.py. The request to the
-- gateway goes out between two transactions, so `pay` is `open_session`, what other transactions do
-- meanwhile, and `attach_answer`.
use asoud_backend_full.Payment.Rows.{
  Payment, pending, TargetModel, order_target, current_version, Zarinpal, Store, in_shop,
}
use asoud_backend_full.Payment.Processing.{same_model, is_pending}
use asoud_backend_full.Payment.Verify.{is_current}
use asoud_backend_full.Payment.Wallets.{is_payable, thousandths, try_reserve}
use asoud_backend_full.Cart.Rows.{Env, Order, processing}
use asoud_backend_full.Cart.Pricing.{total_price, save_order}
use asoud_backend_full.Money.{Decimal, finite, numerator, denominator}
use asoud_backend_full.Money.Gateway.{AmountError, validate_payment_amount}
use asoud_backend_full.Prelude.{
  ℕ, ◌*◌, Bool, true, false, not, ◌&&◌, ◌||◌, Option, none, some, [], ◌∷◌, ◌==◌, if◌then◌else◌,
}
use asoud_backend_full.Exec.{Exec, ok, CartCode, pure, modify, ◌>>=◌, ◌>>◌}
use asoud_backend_full.Table.{Table, lookup, append}

-- The messages of the refusals.
pub data Refused : Type 0 where
  invalid_target gateway_not_configured payable_order_missing needs_reconciliation : Refused
  order_not_payable amount_changed hold_missing card_missing card_is_active fee_missing : Refused
  store_missing wallet_missing session_not_created session_not_pending authority_conflict : Refused
  amount_refused : AmountError → Refused
  cart_refused : CartCode → Refused

-- A refusal, a session that was there, or a new payment with its session.
pub data Opening : Type 0 where
  stopped : Refused → Opening
  resumed : ℕ → Opening
  opened : ℕ → ℕ → Opening

pub record Tariff : Type 0 where
  pub amount : ℕ
  pub duration_days : ℕ

-- What the call takes from outside: the settings, the time, the fees of the categories and the
-- tariff in thousandths of a toman, what the amount column makes of an amount, the identifiers of
-- the new rows, and the amount that the client saw.
pub record Call : Type 0 where
  pub configured : Bool
  pub env : Env
  pub now : ℕ
  pub market_fee : ℕ → ℕ
  pub tariff : Option Tariff
  pub column : Decimal → ℕ
  pub payment_id : ℕ
  pub gateway_id : ℕ
  pub requested : Decimal

-- `amount != Decimal(str(requested_amount))`, of two numbers that are not negative
unfoldable pub is_changed : Decimal → Decimal → Bool
is_changed (finite false c e) (finite false d f) =
    not (numerator c e * denominator f == numerator d f * denominator e)
is_changed (finite false c e) (finite true d f) = not (c == 0 && d == 0)
is_changed _ _ = true

-- `Payment.objects.filter(user=…, target_content_type=…, target_id=…, status=PENDING)`
unfoldable pub is_session_of : ℕ → TargetModel → ℕ → Payment → Bool
is_session_of user model id p =
    p.user == user
    && (same_model p.target_content_type (some model) && (p.target_id == id && is_pending p.status))

unfoldable pub pending_payment : ℕ → TargetModel → ℕ → Table Payment → Option ℕ
unfolding is_session_of
pending_payment user model id [] = none
pending_payment user model id ((k, p) ∷ rows) =
    let rest = pending_payment user model id rows in
    if is_session_of user model id p then some k else rest

-- `Zarinpal.objects.filter(payment=…).first()`
unfoldable pub gateway_of : ℕ → Table Zarinpal → Option (ℕ × Zarinpal)
gateway_of payment [] = none
gateway_of payment ((k, z) ∷ rows) =
    let rest = gateway_of payment rows in if z.payment == payment then some (k, z) else rest

-- What is answered for a session that is pending; orders and stores want the current version.
unfoldable pub resume : Bool → Option (ℕ × Zarinpal) → Opening
resume versioned none = stopped needs_reconciliation
resume versioned (some (id, z)) =
    if not (z.authority == 0) && (not versioned || is_current z.verification_data)
    then resumed id
    else stopped needs_reconciliation

-- The end of the first transaction: the payment and its session, with no authority yet.
unfoldable pub create_session : Call → ℕ → TargetModel → ℕ → Decimal → Exec Store Opening
create_session c user model id amount =
    modify (λ (s : Store). record s {
      payments =
          append c.payment_id
            (record {
              user = user;
              amount = c.column amount;
              target_content_type = some model;
              target_id = id;
              status = pending;
              created_at = c.now;
            })
            s.payments;
      gateways =
          append c.gateway_id
            (record {
              payment = c.payment_id;
              authority = 0;
              transaction_id = 0;
              verification_data = current_version;
            })
            s.gateways;
    })
    >> pure (opened c.payment_id c.gateway_id)

-- `target.status = Order.PROCESSING` of the order that the reservation has changed
unfoldable pub freeze_order : ℕ → Exec Store (Unit {0})
freeze_order id s = elim (lookup id s.shop.orders) [
  | none ↦ (ok tt, s)
  | some order ↦ in_shop (save_order id (record order { status = processing })) s
]

unfoldable pub reserve_then_open : Call → ℕ → ℕ → Decimal → Option CartCode → Exec Store Opening
unfolding freeze_order create_session
reserve_then_open c user id amount (some code) = pure (stopped (cart_refused code))
reserve_then_open c user id amount none =
    freeze_order id >> create_session c user order_target id amount

unfoldable pub is_empty_order : Order → Bool
is_empty_order order = elim order.items [ [] ↦ true | _ ∷ _ ↦ false ]

-- The amount of an order: the bounds first, then whether the client saw it.
unfoldable pub check_order_amount : Decimal → Decimal → Option Refused
unfolding is_changed
check_order_amount amount requested = elim (validate_payment_amount (some amount)) [
  | some e ↦ some (amount_refused e)
  | none ↦ if is_changed amount requested then some amount_changed else none
]

-- The other way round, for appointments and cards.
unfoldable pub check_fee : Decimal → Decimal → Option Refused
unfolding is_changed
check_fee amount requested =
    if is_changed amount requested
    then some amount_changed
    else (elim (validate_payment_amount (some amount)) [
      | some e ↦ some (amount_refused e)
      | none ↦ none
    ])

unfoldable pub open_priced_order : Call → ℕ → ℕ → Decimal → Option Refused → Exec Store Opening
unfolding reserve_then_open
open_priced_order c user id amount (some why) = pure (stopped why)
open_priced_order c user id amount none =
    try_reserve c.env id >>= reserve_then_open c user id amount

unfoldable pub open_new_order : Call → ℕ → ℕ → Order → Exec Store Opening
unfolding is_empty_order check_order_amount open_priced_order
open_new_order c user id order s =
    let amount = thousandths (total_price s.shop order) in
    if not (is_payable order.status) || is_empty_order order
    then (ok (stopped order_not_payable), s)
    else open_priced_order c user id amount (check_order_amount amount c.requested) s

-- A target that may be paid: a pending session is taken up, and else one is opened.
unfoldable pub open_target : Bool → ℕ → TargetModel → ℕ → Exec Store Opening → Exec Store Opening
unfolding pending_payment gateway_of resume
open_target versioned user model id fresh s = elim (pending_payment user model id s.payments) [
  | some payment ↦ (ok (resume versioned (gateway_of payment s.gateways)), s)
  | none ↦ fresh s
]
