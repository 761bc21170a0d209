-- ===== src/Payment/Pay.antt =====
-- `PaymentCore.pay` of apps/payment/core.py for each kind of target, and what it does with the
-- answer of the gateway.
pub mod Grows
mod Opens
pub mod Single
pub mod Attach
mod Tests
use asoud_backend_full.Payment.Rows.{
  Payment, PaymentStatus, pending, failed, TargetModel, wallet_target, order_target, market_target,
  card_target, reservation_target, other_target, Zarinpal, BusinessCard, Store,
}
use asoud_backend_full.Payment.Processing.{is_pending, owns_card, release_order}
use asoud_backend_full.Payment.Verify.{save_payment, save_gateway}
use asoud_backend_full.Payment.Wallets.{is_payable, thousandths, lock_payer}
use asoud_backend_full.Payment.Sessions.{
  Refused, invalid_target, gateway_not_configured, payable_order_missing, hold_missing,
  card_missing, card_is_active, fee_missing, store_missing, wallet_missing, session_not_created,
  session_not_pending, authority_conflict, Opening, stopped, resumed, opened, Tariff, Call,
  create_session, check_order_amount, check_fee, open_new_order, open_target,
}
use asoud_backend_full.Cart.Rows.{
  Order, OrderStatus, processing, Status, draft, not_published, needs_editing, Market,
}
use asoud_backend_full.Cart.Snapshot.{is_online}
use asoud_backend_full.Reserve.Rows.{Reservation}
use asoud_backend_full.Reserve.Slots.{is_held}
use asoud_backend_full.Money.{Decimal, whole}
use asoud_backend_full.Prelude.{
  ℕ, Bool, true, false, not, ◌&&◌, ◌||◌, Option, none, some, ltb, ◌==◌, if◌then◌else◌,
}
use asoud_backend_full.Exec.{
  Exec, ok, does_not_exist, payment_model, zarinpal_model, pure, or_raise, gets, modify, atomic,
  ◌>>=◌, ◌>>◌,
}
use asoud_backend_full.Table.{lookup, update}

-- `status__in=(Order.PENDING, Order.VERIFIED, Order.PROCESSING)`
unfoldable pub is_open_status : OrderStatus → Bool
is_open_status status = is_payable status || (elim status [ processing ↦ true | _ ↦ false ])

unfoldable pub open_order : Call → ℕ → ℕ → Exec Store Opening
unfolding is_open_status open_new_order open_target
open_order c user id s = elim (lookup id s.shop.orders) [
  | none ↦ (ok (stopped payable_order_missing), s)
  | some order ↦
      if order.user == user
        && (is_open_status order.status && (is_online order && not order.is_paid))
      then open_target true user order_target id (open_new_order c user id order) s
      else (ok (stopped payable_order_missing), s)
]

-- The end of a branch whose amount is checked.
unfoldable pub open_checked :
    Call → ℕ → TargetModel → ℕ → Decimal → Option Refused → Exec Store Opening
unfolding create_session
open_checked c user model id amount (some why) = pure (stopped why)
open_checked c user model id amount none = create_session c user model id amount

-- `hold_expires_at__gt=timezone.now()`
unfoldable pub is_later : ℕ → Option ℕ → Bool
is_later now none = false
is_later now (some time) = ltb now time

unfoldable pub open_reservation : Call → ℕ → ℕ → Exec Store Opening
unfolding is_later open_target check_fee open_checked
open_reservation c user id s = elim (lookup id s.diary.reservations) [
  | none ↦ (ok (stopped hold_missing), s)
  | some r ↦
      let amount = whole r.amount_due in
      if r.user == user && (is_held r.status && (not r.is_paid && is_later c.now r.hold_expires_at))
      then open_target false user reservation_target id
          (open_checked c user reservation_target id amount (check_fee amount c.requested)) s
      else (ok (stopped hold_missing), s)
]

-- `target.is_paid and (end is None or end > now)`
unfoldable pub is_subscribed : ℕ → BusinessCard → Bool
is_subscribed now card =
    card.is_paid && (elim card.subscription_end_date [ none ↦ true | some end ↦ ltb now end ])

-- The days of the tariff are saved before the payment.
unfoldable pub save_days : ℕ → BusinessCard → Tariff → Exec Store (Unit {0})
save_days id card tariff = modify (λ (s : Store). record s {
  cards = update id (record card { subscription_days = tariff.duration_days }) s.cards;
})

unfoldable pub open_with_tariff :
    Call → ℕ → ℕ → BusinessCard → Tariff → Option Refused → Exec Store Opening
unfolding save_days create_session
open_with_tariff c user id card tariff (some why) = pure (stopped why)
open_with_tariff c user id card tariff none =
    save_days id card tariff >> create_session c user card_target id (thousandths tariff.amount)

unfoldable pub open_new_card : Call → ℕ → ℕ → BusinessCard → Option Tariff → Exec Store Opening
unfolding check_fee open_with_tariff
open_new_card c user id card none = pure (stopped fee_missing)
open_new_card c user id card (some tariff) =
    open_with_tariff c user id card tariff (check_fee (thousandths tariff.amount) c.requested)

unfoldable pub open_card : Call → ℕ → ℕ → Exec Store Opening
unfolding is_subscribed open_target open_new_card
open_card c user id s = elim (lookup id s.cards) [
  | none ↦ (ok (stopped card_missing), s)
  | some card ↦
      if not (owns_card s user card)
      then (ok (stopped card_missing), s)
      else if is_subscribed c.now card
      then (ok (stopped card_is_active), s)
      else open_target false user card_target id (open_new_card c user id card c.tariff) s
]

unfoldable pub is_unpublished : Status → Bool
is_unpublished status = elim status [
  | draft ↦ true
  | not_published ↦ true
  | needs_editing ↦ true
  | _ ↦ false
]

unfoldable pub open_market : Call → ℕ → ℕ → Exec Store Opening
unfolding is_unpublished open_target check_order_amount open_checked
open_market c user id s = elim (lookup id s.shop.markets) [
  | none ↦ (ok (stopped store_missing), s)
  | some market ↦
      let amount = thousandths (c.market_fee id) in
      if market.user == user && (is_unpublished market.status && not market.is_paid)
      then open_target true user market_target id
          (open_checked c user market_target id amount (check_order_amount amount c.requested)) s
      else (ok (stopped store_missing), s)
]

unfoldable pub open_wallet : Call → ℕ → ℕ → Exec Store Opening
unfolding create_session
open_wallet c user id s = elim (lookup id s.bank.wallets) [
  | none ↦ (ok (stopped wallet_missing), s)
  | some wallet ↦
      if wallet.user == user
      then create_session c user wallet_target id c.requested s
      else (ok (stopped wallet_missing), s)
]

unfoldable pub open_model : Call → ℕ → TargetModel → ℕ → Exec Store Opening
unfolding open_order open_reservation open_card open_market open_wallet
open_model c user order_target id = open_order c user id
open_model c user reservation_target id = open_reservation c user id
open_model c user card_target id = open_card c user id
open_model c user market_target id = open_market c user id
open_model c user wallet_target id = open_wallet c user id
open_model c user other_target id = pure (stopped invalid_target)

-- `isinstance(target, (Wallet, Order, Market, Reservation, BusinessCardProfile))`
unfoldable pub is_payable_model : TargetModel → Bool
is_payable_model model = elim model [ other_target ↦ false | _ ↦ true ]

-- The first transaction of `pay`.
unfoldable pub open_session : Call → ℕ → TargetModel → ℕ → Exec Store Opening
unfolding is_payable_model open_model
open_session c user model id s =
    if not (is_payable_model model)
    then (ok (stopped invalid_target), s)
    else if not c.configured
    then (ok (stopped gateway_not_configured), s)
    else atomic (lock_payer user >> open_model c user model id) s

unfoldable pub close_pending : ℕ → Payment → Exec Store (Unit {0})
close_pending payment p s =
    if is_pending p.status
    then (save_payment payment (record p { status = failed })
          >> release_order payment (record p { status = failed }))
        s
    else (ok tt, s)

-- A request that failed closes the payment, if nothing else did.
unfoldable pub fail_session : ℕ → Exec Store Opening
unfolding close_pending
fail_session payment = do
  found ← gets (λ s. lookup payment s.payments)
  p ← or_raise found (does_not_exist payment_model)
  close_pending payment p
  pure (stopped session_not_created)

unfoldable pub keep_authority : ℕ → Zarinpal → ℕ → Payment → Exec Store Opening
keep_authority id z authority p =
    if not (is_pending p.status)
    then pure (stopped session_not_pending)
    else if not (z.authority == 0) && not (z.authority == authority)
    then pure (stopped authority_conflict)
    else (save_gateway id (record z { authority = authority }) >> pure (resumed id))

unfoldable pub save_authority : ℕ → ℕ → ℕ → Exec Store Opening
unfolding keep_authority
save_authority payment id authority = do
  row ← gets (λ s. lookup id s.gateways)
  z ← or_raise row (does_not_exist zarinpal_model)
  found ← gets (λ s. lookup payment s.payments)
  p ← or_raise found (does_not_exist payment_model)
  keep_authority id z authority p

-- What `pay` does with the gateway's authority: none where the request failed, was not answered
-- in the agreed form or gave an empty authority.
unfoldable pub attach_answer : ℕ → ℕ → Option ℕ → Exec Store Opening
unfolding fail_session save_authority
attach_answer payment id none = atomic (fail_session payment)
attach_answer payment id (some authority) =
    if authority == 0
    then atomic (fail_session payment)
    else atomic (save_authority payment id authority)

unfoldable pub after_opening : Option ℕ → (Store → Store) → Opening → Exec Store Opening
unfolding attach_answer
after_opening answer meanwhile (opened payment id) s = attach_answer payment id answer (meanwhile s)
after_opening answer meanwhile opening s = (ok opening, s)

-- `pay`, with the gateway's answer and what other transactions do while it is awaited.
unfoldable pub pay : Call → Option ℕ → (Store → Store) → ℕ → TargetModel → ℕ → Exec Store Opening
unfolding open_session after_opening
pay c answer meanwhile user model id =
    open_session c user model id >>= after_opening answer meanwhile
