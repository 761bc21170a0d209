-- ===== src/Payment/Processing.antt =====
-- What a verified payment does to its target, and what a failed one releases: `PostPaymentCore`
-- and `PaymentCore._release_order` of apps/payment/core.py.
use asoud_backend_full.Payment.Rows.{
  TargetModel, wallet_target, order_target, market_target, card_target, reservation_target,
  other_target, Payment, PaymentStatus, pending, BusinessCard, Event, requested, Store, in_bank,
  in_shop, in_commissions,
}
use asoud_backend_full.Wallet.{Reply, done, refused, increase_balance}
use asoud_backend_full.Cart.Rows.{Order, OrderStatus, processing, completed}
use asoud_backend_full.Cart.Pricing.{save_order}
use asoud_backend_full.Cart.Inventory.{release_order_inventory, confirm_order_inventory}
use asoud_backend_full.Reserve.Rows.{
  Service, Reservation, ReservationStatus, expired, pending_confirmation,
}
use asoud_backend_full.Reserve.Slots.{is_held}
use asoud_backend_full.Affiliate.{accrue_order_commissions}
use asoud_backend_full.Prelude.{
  ℕ, ◌+◌, ◌*◌, max, Bool, true, false, not, ◌&&◌, Option, none, some, ◌∷◌, ◌==◌, any, if◌then◌else◌,
}
use asoud_backend_full.Exec.{
  Exec, ok, does_not_exist, value_error, attribute_error, order_model, market_model, card_model,
  reservation_model, pure, raise, raise_if, or_raise, gets, modify, ◌>>=◌, ◌>>◌,
}
use asoud_backend_full.Table.{lookup, update}
use asoud_backend_full.Money.{whole}

abbrev is_processing : OrderStatus → Bool
is_processing status = elim status [ processing ↦ true | _ ↦ false ]

-- `Order.objects.select_for_update().get(id=…, user=…, status=PROCESSING, is_paid=False)`
unfoldable pub processing_order : ℕ → ℕ → Store → Option Order
processing_order user id s = elim (lookup id s.shop.orders) [
  | none ↦ none
  | some order ↦
      if order.user == user && (is_processing order.status && not order.is_paid)
      then some order
      else none
]

-- `PostPaymentCore.complete_order`
unfoldable pub complete_order : ℕ → ℕ → ℕ → Exec Store (Unit {0})
unfolding processing_order
complete_order user id paid_amount = do
  raise_if (paid_amount == 0) value_error
  found ← gets (processing_order user id)
  or_raise found (does_not_exist order_model)
  order ← in_shop (confirm_order_inventory id)
  in_shop (save_order id (record order { status = completed; is_paid = true }))
  shop ← gets (λ s. s.shop)
  in_commissions (accrue_order_commissions shop id order)

-- A wallet that refuses the charge raises `ValueError`.
or_refused : {A : Type 0} → Reply A → Exec Store (Unit {0})
or_refused (done a) = pure tt
or_refused (refused r) = raise value_error

unfoldable pub charge_wallet : ℕ → ℕ → ℕ → Exec Store (Unit {0})
unfolding or_refused
charge_wallet user id amount =
    in_bank (increase_balance user (some id) (some (whole amount))) >>= or_refused

unfoldable pub pay_market : ℕ → ℕ → Exec Store (Unit {0})
pay_market user id = do
  found ← gets (λ s. lookup id s.shop.markets)
  market ← or_raise found (does_not_exist market_model)
  raise_if (not (market.user == user)) (does_not_exist market_model)
  modify (λ (s : Store). record s {
    shop = record (s.shop) {
      markets = update id (record market { is_paid = true }) s.shop.markets;
    };
  })

-- `card.market.user == user`
pub owns_card : Store → ℕ → BusinessCard → Bool
owns_card s user card = elim (lookup card.market s.shop.markets) [
  | none ↦ false
  | some market ↦ market.user == user
]

-- `max(started_at, card.subscription_end_date or started_at)`
extension_start : ℕ → Option ℕ → ℕ
extension_start now none = now
extension_start now (some end) = max now end

unfoldable pub pay_card : ℕ → ℕ → ℕ → Exec Store (Unit {0})
unfolding owns_card extension_start
pay_card now user id = do
  found ← gets (λ s. lookup id s.cards)
  card ← or_raise found (does_not_exist card_model)
  owned ← gets (λ s. owns_card s user card)
  raise_if (not owned) (does_not_exist card_model)
  modify (λ (s : Store). record s {
    cards =
        update id
          (record card {
            is_paid = true;
            subscription_start_date = some now;
            subscription_end_date =
                some
                  (extension_start now card.subscription_end_date + card.subscription_days * 86400);
          })
          s.cards;
  })

save_reservation : ℕ → Reservation → Exec Store (Unit {0})
save_reservation id r = modify (λ (s : Store). record s {
  diary = record (s.diary) { reservations = update id r s.diary.reservations };
})

pub service_of : Store → Reservation → Option Service
service_of s r = elim r.service [ none ↦ none | some id ↦ lookup id s.diary.services ]

-- The reservation with its payment, as the service's owner wants to confirm it or not.
paid_reservation : ℕ → Bool → Reservation → Reservation
paid_reservation now requires_owner_confirmation r =
    if requires_owner_confirmation
    then record r {
      is_paid = true;
      status = pending_confirmation;
      confirmed_at = none;
      hold_expires_at = none;
    }
    else record r {
      is_paid = true;
      status = ReservationStatus.confirmed;
      confirmed_at = some now;
      hold_expires_at = none;
    }

unfoldable pub pay_reservation : ℕ → ℕ → ℕ → Exec Store (Unit {0})
unfolding save_reservation service_of paid_reservation
pay_reservation now user id = do
  found ← gets (λ s. lookup id s.diary.reservations)
  r ← or_raise found (does_not_exist reservation_model)
  raise_if (not (r.user == user && (is_held r.status && not r.is_paid)))
      (does_not_exist reservation_model)
  booked ← gets (λ s. service_of s r)
  service ← or_raise booked attribute_error
  save_reservation id (paid_reservation now service.requires_owner_confirmation r)
  modify (λ (s : Store). record s {
    notices =
        (id, if service.requires_owner_confirmation then requested else Event.confirmed)
        ∷ s.notices;
  })

-- `PostPaymentCore(payment.user).payment_process(payment)`
unfoldable pub process_target : ℕ → Payment → Option TargetModel → Exec Store (Unit {0})
process_target now p none = raise attribute_error
process_target now p (some wallet_target) = charge_wallet p.user p.target_id p.amount
process_target now p (some order_target) = complete_order p.user p.target_id p.amount
process_target now p (some market_target) = pay_market p.user p.target_id
process_target now p (some card_target) = pay_card now p.user p.target_id
process_target now p (some reservation_target) = pay_reservation now p.user p.target_id
process_target now p (some other_target) = raise value_error

unfoldable pub payment_process : ℕ → Payment → Exec Store (Unit {0})
unfolding process_target
payment_process now p = process_target now p p.target_content_type

abbrev pub is_pending : PaymentStatus → Bool
is_pending status = elim status [ pending ↦ true | _ ↦ false ]

unfoldable pub same_model : Option TargetModel → Option TargetModel → Bool
same_model (some wallet_target) (some wallet_target) = true
same_model (some order_target) (some order_target) = true
same_model (some market_target) (some market_target) = true
same_model (some card_target) (some card_target) = true
same_model (some reservation_target) (some reservation_target) = true
same_model (some other_target) (some other_target) = true
same_model _ _ = false

-- Another payment of the target that is pending.
pub is_other_pending : ℕ → Payment → ℕ × Payment → Bool
is_other_pending id p (other_id, other) =
    not (other_id == id)
    && (same_model other.target_content_type p.target_content_type
        && (other.target_id == p.target_id && is_pending other.status))

-- The holds of the reservation expire; a missing one is left alone.
unfoldable pub release_hold : ℕ → ℕ → Exec Store (Unit {0})
unfolding save_reservation
release_hold user id s = elim (lookup id s.diary.reservations) [
  | none ↦ (ok tt, s)
  | some r ↦
      if r.user == user && (is_held r.status && not r.is_paid)
      then save_reservation id (record r { status = expired }) s
      else (ok tt, s)
]

unfoldable pub fail_order : ℕ → ℕ → Exec Store (Unit {0})
unfolding processing_order
fail_order user id s = elim (processing_order user id s) [
  | none ↦ (ok tt, s)
  | some _ ↦
      (in_shop (release_order_inventory true id) >>= λ order.
      in_shop (save_order id (record order { status = OrderStatus.failed })))
        s
]

-- `PaymentCore._release_order`
unfoldable pub release_target : ℕ → Payment → Option TargetModel → Exec Store (Unit {0})
unfolding is_other_pending same_model
release_target id p (some reservation_target) = release_hold p.user p.target_id
release_target id p (some order_target) = do
  others ← gets (λ s. any (is_other_pending id p) s.payments)
  if others then pure tt else fail_order p.user p.target_id
release_target id p _ = pure tt

unfoldable pub release_order : ℕ → Payment → Exec Store (Unit {0})
unfolding release_target
release_order id p = release_target id p p.target_content_type
