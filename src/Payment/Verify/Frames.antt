-- ===== src/Payment/Verify/Frames.antt =====
-- Processing a target leaves the payments and the gateway sessions alone.
use asoud_backend_full.Payment.Rows.{
  TargetModel, wallet_target, order_target, market_target, card_target, reservation_target,
  other_target, Payment, Store,
}
use asoud_backend_full.Payment.Processing.{
  process_target, complete_order, charge_wallet, pay_market, pay_card, pay_reservation,
  processing_order, owns_card, service_of,
}
use asoud_backend_full.Wallet.{Reply-cases, increase_balance}
use asoud_backend_full.Cart.Pricing.{save_order}
use asoud_backend_full.Cart.Inventory.{confirm_order_inventory}
use asoud_backend_full.Money.{whole}
use asoud_backend_full.Prelude.{
  ℕ, ◌≡◌, refl, Option, none, some, arith, ◌==◌, inl, inr, Bool-cases, Option-cases,
}
use asoud_backend_full.Exec.{ended}
use asoud_backend_full.Table.{lookup}

-- The payments and the gateway sessions are the same.
abbrev pub SameSessions : Store → Store → Type 0
SameSessions s t = (s.payments ≡ t.payments) × (s.gateways ≡ t.gateways)

charge_wallet-same :
    (user id amount : ℕ) (s : Store) → SameSessions s (charge_wallet user id amount s).1
unfolding charge_wallet
charge_wallet-same user id amount s =
    elim (Reply-cases (increase_balance user (some id) (some (whole amount)) s.bank).0) [
      | inl (r, e) ↦ rw e (refl, refl)
      | inr (a, e) ↦ rw e (refl, refl)
    ]

complete_order-same :
    (user id amount : ℕ) (s : Store) → SameSessions s (complete_order user id amount s).1
unfolding complete_order save_order
complete_order-same user id amount s = elim (Bool-cases (amount == 0)) [
  | inl e ↦ ground arith
  | inr e ↦ elim (Option-cases (processing_order user id s)) [
    | inl none_found ↦ ground arith
    | inr (order, found) ↦ elim (ended (confirm_order_inventory id s.shop)) [
      | inl (e, raised) ↦ ground arith
      | inr (after, confirmed) ↦ ground arith
    ]
  ]
]

pay_market-same : (user id : ℕ) (s : Store) → SameSessions s (pay_market user id s).1
unfolding pay_market
pay_market-same user id s = elim (Option-cases (lookup id s.shop.markets)) [
  | inl missing ↦ ground arith
  | inr (market, found) ↦ elim (Bool-cases (market.user == user)) [
    | inl e ↦ ground arith
    | inr e ↦ ground arith
  ]
]

pay_card-same : (now user id : ℕ) (s : Store) → SameSessions s (pay_card now user id s).1
unfolding pay_card
pay_card-same now user id s = elim (Option-cases (lookup id s.cards)) [
  | inl missing ↦ ground arith
  | inr (card, found) ↦ elim (Bool-cases (owns_card s user card)) [
    | inl e ↦ ground arith
    | inr e ↦ ground arith
  ]
]

pay_reservation-same :
    (now user id : ℕ) (s : Store) → SameSessions s (pay_reservation now user id s).1
unfolding pay_reservation
pay_reservation-same now user id s = elim (Option-cases (lookup id s.diary.reservations)) [
  | inl missing ↦ ground arith
  | inr (r, found) ↦ elim (Option-cases (service_of s r)) [
    | inl missing ↦ ground arith
    | inr (service, booked) ↦ ground arith
  ]
]

-- Processing a target touches neither.
pub process_target-same :
    (now : ℕ) (p : Payment) (m : Option TargetModel) (s : Store)
    → SameSessions s (process_target now p m s).1
unfolding process_target
process_target-same now p none s = (refl, refl)
process_target-same now p (some other_target) s = (refl, refl)
process_target-same now p (some wallet_target) s = charge_wallet-same p.user p.target_id p.amount s
process_target-same now p (some order_target) s = complete_order-same p.user p.target_id p.amount s
process_target-same now p (some market_target) s = pay_market-same p.user p.target_id s
process_target-same now p (some card_target) s = pay_card-same now p.user p.target_id s
process_target-same now p (some reservation_target) s =
    pay_reservation-same now p.user p.target_id s
