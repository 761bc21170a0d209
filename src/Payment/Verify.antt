-- ===== src/Payment/Verify.antt =====
-- `PaymentCore.verify` of apps/payment/core.py. What the gateway answers is an argument.
pub mod Frames
pub mod Settled
pub mod Replay
pub mod Rollback
mod Tests
use asoud_backend_full.Payment.Rows.{
  Payment, PaymentStatus, complete, failed, canceled, Metadata, current_version, other_data,
  Zarinpal, Store,
}
use asoud_backend_full.Payment.Processing.{payment_process, release_order, is_pending}
use asoud_backend_full.Money.{Decimal, nan, infinity, finite, numerator, denominator}
use asoud_backend_full.Prelude.{
  ℕ, ◌+◌, ◌*◌, Bool, true, false, not, ◌&&◌, ◌||◌, Option, none, some, List, [], ◌∷◌, ◌==◌,
  if◌then◌else◌,
}
use asoud_backend_full.Prelude.Int.{ℤ, pos, negsuc}
use asoud_backend_full.Exec.{
  Exec, Fault, integrity, does_not_exist, value_error, constraint_error, Result, ok, err, Model,
  zarinpal_model, payment_model, order_model, wallet_model, market_model, reservation_model, pure,
  or_raise, gets, modify, atomic, ◌>>=◌, ◌>>◌,
}
use asoud_backend_full.Table.{Table, lookup, update}

-- `gateway_data.get('amount')`, as `Decimal(str(…))` reads it.
pub data VerifiedAmount : Type 0 where
  absent invalid : VerifiedAmount
  read : Decimal → VerifiedAmount

-- The answer to the verification request: no answer or no JSON, no code in it, or the code with
-- the reference.
pub data Answer : Type 0 where
  unreachable unreadable : Answer
  answered : ℤ → Option ℕ → VerifiedAmount → Answer

-- The messages of the refusals.
pub data Decline : Type 0 where
  no_verification_data no_payment_found no_longer_pending legacy_session canceled_at_gateway :
      Decline
  not_configured unable_to_verify response_requires_reconciliation verification_failed : Decline
  reference_requires_reconciliation amount_mismatch amount_requires_reconciliation : Decline
  processing_failed : Fault → Decline

pub data Outcome : Type 0 where
  successful already_processed : Outcome
  declined : Decline → Outcome

-- `request.GET.get('Status')`
pub data GatewayStatus : Type 0 where
  no_status status_ok other_status : GatewayStatus

-- `Zarinpal.objects.get(authority=…)`, which is unique
unfoldable pub find_authority : ℕ → Table Zarinpal → Option (ℕ × Zarinpal)
find_authority authority [] = none
find_authority authority ((id, z) ∷ rows) =
    if z.authority == authority then some (id, z) else find_authority authority rows

unfoldable pub save_payment : ℕ → Payment → Exec Store (Unit {0})
save_payment id p = modify (λ (s : Store). record s { payments = update id p s.payments })

-- Two texts that a constraint keeps apart: 0 is the empty text, which any row may have.
unfoldable pub is_same_text : ℕ → ℕ → Bool
is_same_text a b = not (a == 0) && a == b

-- Another row has the authority or the transaction id of the row: the two unique constraints.
unfoldable pub is_gateway_taken : ℕ → Zarinpal → Table Zarinpal → Bool
unfolding is_same_text
is_gateway_taken id z [] = false
is_gateway_taken id z ((j, w) ∷ rows) =
    (not (j == id)
      && (is_same_text z.authority w.authority || is_same_text z.transaction_id w.transaction_id))
    || is_gateway_taken id z rows

-- `IntegrityError` where a unique constraint does not hold
unfoldable pub save_gateway : ℕ → Zarinpal → Exec Store (Unit {0})
unfolding is_gateway_taken
save_gateway id z s =
    if is_gateway_taken id z s.gateways
    then (err constraint_error, s)
    else (ok tt, record s { gateways = update id z s.gateways })

-- The payment ends unpaid and gives back what it held.
unfoldable pub close_payment : ℕ → Payment → PaymentStatus → Decline → Exec Store Outcome
unfolding save_payment
close_payment id p status reason = do
  save_payment id (record p { status = status })
  release_order id (record p { status = status })
  pure (declined reason)

-- 101: the gateway had verified the payment before.
abbrev pub is_verified_code : ℤ → Bool
is_verified_code (pos n) = n == 100 || n == 101
is_verified_code (negsuc n) = false

pub is_complete : PaymentStatus → Bool
is_complete status = elim status [ complete ↦ true | _ ↦ false ]

unfoldable pub is_current : Metadata → Bool
is_current current_version = true
is_current other_data = false

-- `Decimal(str(verified_amount)) != Decimal(str(payment.amount))`
pub differs : Decimal → ℕ → Bool
differs (finite true c e) n = not (c == 0 && n == 0)
differs (finite false c e) n = not (numerator c e == n * denominator e)
differs _ n = true

unfoldable pub check_amount : VerifiedAmount → ℕ → Option Decline
unfolding differs
check_amount absent amount = none
check_amount invalid amount = some amount_requires_reconciliation
check_amount (read d) amount = if differs d amount then some amount_mismatch else none

-- The payment is processed and both rows are closed.
unfoldable pub settle_payment : ℕ → ℕ → Zarinpal → Payment → ℕ → Exec Store Outcome
unfolding save_payment save_gateway
settle_payment now id z p reference = do
  payment_process now p
  save_gateway id (record z { transaction_id = reference; verification_data = other_data })
  save_payment z.payment (record p { status = complete })
  pure successful

unfoldable pub settle_checked : ℕ → ℕ → Zarinpal → Payment → ℕ → Option Decline → Exec Store Outcome
unfolding settle_payment
settle_checked now id z p reference none = settle_payment now id z p reference
settle_checked now id z p reference (some reason) = pure (declined reason)

unfoldable pub settle_reference :
    ℕ → ℕ → Zarinpal → Payment → Option ℕ → VerifiedAmount → Exec Store Outcome
unfolding settle_checked check_amount
settle_reference now id z p none amount = pure (declined reference_requires_reconciliation)
settle_reference now id z p (some reference) amount =
    settle_checked now id z p reference (check_amount amount p.amount)

unfoldable pub take_answer : ℕ → ℕ → Zarinpal → Payment → Answer → Exec Store Outcome
unfolding settle_reference close_payment
take_answer now id z p unreachable = pure (declined unable_to_verify)
take_answer now id z p unreadable = pure (declined response_requires_reconciliation)
take_answer now id z p (answered code reference amount) =
    if not (is_verified_code code)
    then close_payment z.payment p failed verification_failed
    else settle_reference now id z p reference amount

unfoldable pub verify_pending :
    ℕ → Bool → Bool → Answer → ℕ → Zarinpal → Payment → Exec Store Outcome
unfolding take_answer close_payment is_current
verify_pending now configured accepted answer id z p =
    if not (is_current z.verification_data)
    then pure (declined legacy_session)
    else if not accepted
    then close_payment z.payment p canceled canceled_at_gateway
    else if not configured
    then pure (declined not_configured)
    else take_answer now id z p answer

unfoldable pub verify_locked :
    ℕ → Bool → Bool → Answer → ℕ → Zarinpal → Payment → Exec Store Outcome
unfolding verify_pending is_complete
verify_locked now configured accepted answer id z p =
    if not (z.transaction_id == 0) && is_complete p.status
    then pure already_processed
    else if not (is_pending p.status)
    then pure (declined no_longer_pending)
    else verify_pending now configured accepted answer id z p

pub verify_block : ℕ → Bool → Bool → Answer → ℕ → Exec Store Outcome
unfolding find_authority verify_locked
verify_block now configured accepted answer authority = do
  found ← gets (λ s. find_authority authority s.gateways)
  row ← or_raise found (does_not_exist zarinpal_model)
  payment ← gets (λ s. lookup row.1.payment s.payments)
  p ← or_raise payment (does_not_exist payment_model)
  verify_locked now configured accepted answer row.0 row.1 p

-- The `except` clauses of `verify`; other exceptions pass.
abbrev pub caught_by_verify : Result Outcome → Result Outcome
caught_by_verify (err (does_not_exist zarinpal_model)) = ok (declined no_payment_found)
caught_by_verify (err (does_not_exist order_model)) =
    ok (declined (processing_failed (does_not_exist order_model)))
caught_by_verify (err (does_not_exist wallet_model)) =
    ok (declined (processing_failed (does_not_exist wallet_model)))
caught_by_verify (err (does_not_exist market_model)) =
    ok (declined (processing_failed (does_not_exist market_model)))
caught_by_verify (err (does_not_exist reservation_model)) =
    ok (declined (processing_failed (does_not_exist reservation_model)))
caught_by_verify (err (integrity code)) = ok (declined (processing_failed (integrity code)))
caught_by_verify (err value_error) = ok (declined (processing_failed value_error))
caught_by_verify r = r

-- `verify` of a request that has both parameters.
pub verify_request : ℕ → Bool → Bool → Answer → ℕ → Exec Store Outcome
unfolding verify_block
verify_request now configured accepted answer authority s =
    let run = atomic (verify_block now configured accepted answer authority) s in
    (caught_by_verify run.0, run.1)

unfoldable pub verify : ℕ → Bool → GatewayStatus → Answer → ℕ → Exec Store Outcome
unfolding verify_request
verify now configured no_status answer authority = pure (declined no_verification_data)
verify now configured status answer authority =
    if authority == 0
    then pure (declined no_verification_data)
    else verify_request now configured (elim status [ status_ok ↦ true | _ ↦ false ]) answer
        authority
