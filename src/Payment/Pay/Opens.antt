-- ===== src/Payment/Pay/Opens.antt =====
-- A session is opened for a target that has none.
use asoud_backend_full.Payment.Rows.{
  Payment, TargetModel, wallet_target, order_target, market_target, card_target, reservation_target,
  Store,
}
use asoud_backend_full.Payment.Processing.{owns_card}
use asoud_backend_full.Payment.Wallets.{thousandths}
use asoud_backend_full.Payment.Sessions.{
  Opening, Call, pending_payment, check_order_amount, check_fee, open_new_order, open_target,
}
use asoud_backend_full.Payment.Pay.{
  is_open_status, open_order, open_checked, is_later, open_reservation, is_subscribed,
  open_new_card, open_card, is_unpublished, open_market, open_wallet,
}
use asoud_backend_full.Cart.Snapshot.{is_online}
use asoud_backend_full.Reserve.Rows.{Reservation}
use asoud_backend_full.Reserve.Slots.{is_held}
use asoud_backend_full.Money.{Decimal, whole}
use asoud_backend_full.Prelude.{
  ℕ, ◌≡◌, refl, ◌⊎◌, inl, inr, Bool, true, false, not, ◌&&◌, ◌==◌, Bool-cases, Option-cases,
}
use asoud_backend_full.Exec.{Exec}
use asoud_backend_full.Table.{Table, lookup}
use asoud_backend_full.Payment.Pay.Grows.{
  sessions, pending_payment-none, Grows, create_session-Grows, open_new_order-Grows,
  open_checked-Grows, open_new_card-Grows,
}

module _ (c : Call) (user : ℕ) where
  -- A target whose pending payment is looked for: it came in where there was none.
  abbrev pub OpensOne : TargetModel → ℕ → Table Payment → Table Payment → Type 0
  OpensOne model id rows others =
      (others ≡ rows) ⊎ ((sessions user model id rows ≡ 0) × Grows user model id rows others)

  open_target-OpensOne :
      (versioned : Bool) (model : TargetModel) (id : ℕ) (fresh : Exec Store Opening) (s : Store)
      → Grows user model id s.payments (fresh s).1.payments
      → OpensOne model id s.payments (open_target versioned user model id fresh s).1.payments
  unfolding open_target
  open_target-OpensOne versioned model id fresh s grows =
      elim (Option-cases (pending_payment user model id s.payments)) [
        | inl e ↦ rw (e, open_target) (inr (pending_payment-none user model id s.payments e, grows))
        | inr (payment, e) ↦ rw (e, open_target) (inl refl)
      ]

  pub open_order-OpensOne :
      (id : ℕ) (s : Store) → OpensOne order_target id s.payments (open_order c user id s).1.payments
  unfolding open_order
  open_order-OpensOne id s = elim (Option-cases (lookup id s.shop.orders)) [
    | inl e ↦ rw (e, open_order) (inl refl)
    | inr (order, e) ↦
        elim (Bool-cases (
          order.user == user
          && (is_open_status order.status && (is_online order && not order.is_paid)))) [
            | inl holds ↦
                rw (e, holds, open_order)
                  (open_target-OpensOne true order_target id (open_new_order c user id order) s
                    (open_new_order-Grows c user id order s))
            | inr fails ↦ rw (e, fails, open_order) (inl refl)
          ]
  ]

  abbrev amount : Reservation → Decimal
  amount r = whole r.amount_due

  pub open_reservation-OpensOne :
      (id : ℕ) (s : Store)
      → OpensOne reservation_target id s.payments (open_reservation c user id s).1.payments
  unfolding open_reservation
  open_reservation-OpensOne id s = elim (Option-cases (lookup id s.diary.reservations)) [
    | inl e ↦ rw (e, open_reservation) (inl refl)
    | inr (r, e) ↦
        elim (Bool-cases (
          r.user == user
          && (is_held r.status && (not r.is_paid && is_later c.now r.hold_expires_at)))) [
            | inl holds ↦
                rw (e, holds, open_reservation)
                  (open_target-OpensOne false reservation_target id
                    (open_checked c user reservation_target id (amount r)
                      (check_fee (amount r) c.requested))
                    s
                    (open_checked-Grows c user reservation_target id (amount r)
                      (check_fee (amount r) c.requested) s))
            | inr fails ↦ rw (e, fails, open_reservation) (inl refl)
          ]
  ]

  pub open_card-OpensOne :
      (id : ℕ) (s : Store) → OpensOne card_target id s.payments (open_card c user id s).1.payments
  unfolding open_card
  open_card-OpensOne id s = elim (Option-cases (lookup id s.cards)) [
    | inl e ↦ rw (e, open_card) (inl refl)
    | inr (card, e) ↦ elim (Bool-cases (not (owns_card s user card))) [
      | inl foreign ↦ rw (e, foreign, open_card) (inl refl)
      | inr owned ↦ elim (Bool-cases (is_subscribed c.now card)) [
        | inl holds ↦ rw (e, owned, holds, open_card) (inl refl)
        | inr fails ↦
            rw (e, owned, fails, open_card)
              (open_target-OpensOne false card_target id (open_new_card c user id card c.tariff) s
                (open_new_card-Grows c user id card c.tariff s))
      ]
    ]
  ]

  pub open_market-OpensOne :
      (id : ℕ) (s : Store)
      → OpensOne market_target id s.payments (open_market c user id s).1.payments
  unfolding open_market
  open_market-OpensOne id s = elim (Option-cases (lookup id s.shop.markets)) [
    | inl e ↦ rw (e, open_market) (inl refl)
    | inr (market, e) ↦
        let fee = thousandths (c.market_fee id) in
        elim (Bool-cases
          (market.user == user && (is_unpublished market.status && not market.is_paid))) [
            | inl holds ↦
                rw (e, holds, open_market)
                  (open_target-OpensOne true market_target id
                    (open_checked c user market_target id fee (check_order_amount fee c.requested))
                    s
                    (open_checked-Grows c user market_target id fee
                      (check_order_amount fee c.requested) s))
            | inr fails ↦ rw (e, fails, open_market) (inl refl)
          ]
  ]

  pub open_wallet-Grows :
      (id : ℕ) (s : Store)
      → Grows user wallet_target id s.payments (open_wallet c user id s).1.payments
  unfolding open_wallet
  open_wallet-Grows id s = elim (Option-cases (lookup id s.bank.wallets)) [
    | inl e ↦ rw (e, open_wallet) (inl refl)
    | inr (wallet, e) ↦ elim (Bool-cases (wallet.user == user)) [
      | inl ours ↦
          rw (e, ours, open_wallet) (create_session-Grows c user wallet_target id c.requested s)
      | inr other ↦ rw (e, other, open_wallet) (inl refl)
    ]
  ]
