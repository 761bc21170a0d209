-- ===== src/Payment/Pay/Grows.antt =====
-- What a new session adds to the payments.
use asoud_backend_full.Payment.Rows.{
  Payment, TargetModel, order_target, card_target, BusinessCard, Store,
}
use asoud_backend_full.Payment.Wallets.{thousandths, try_reserve, is_payable}
use asoud_backend_full.Payment.Sessions.{
  Refused, Tariff, Call, is_session_of, pending_payment, create_session, freeze_order,
  reserve_then_open, open_priced_order, is_empty_order, open_new_order,
}
use asoud_backend_full.Payment.Pay.{open_checked, save_days, open_with_tariff, open_new_card}
use asoud_backend_full.Cart.Rows.{Order}
use asoud_backend_full.Cart.Pricing.{total_price, save_order}
use asoud_backend_full.Money.{Decimal}
use asoud_backend_full.Prelude.{
  ℕ, ◌+◌, ◌≡◌, refl, ◌⊎◌, inl, inr, not, ◌||◌, Option, none, some, [], ◌∷◌, arith, if◌then◌else◌,
  Bool-cases, Option-cases,
}
use asoud_backend_full.Exec.{pair_eq, ok, err, CartCode, ended, bind-ok, bind-err}
use asoud_backend_full.Table.{Table, lookup, append}

-- How many payments of the user for the target are pending.
unfoldable pub sessions : ℕ → TargetModel → ℕ → Table Payment → ℕ
unfolding is_session_of
sessions user model id [] = 0
sessions user model id ((_, p) ∷ rows) =
    (if is_session_of user model id p then 1 else 0) + sessions user model id rows

pub sessions-append :
    (user : ℕ) (model : TargetModel) (id k : ℕ) (p : Payment) (rows : Table Payment)
    → sessions user model id (append k p rows)
      ≡ sessions user model id rows + (if is_session_of user model id p then 1 else 0)
unfolding sessions append
sessions-append user model id k p [] = omega arith
sessions-append user model id k p ((_, q) ∷ rows) =
    omega (arith, sessions-append user model id k p rows)

pub pending_payment-none :
    (user : ℕ) (model : TargetModel) (id : ℕ) (rows : Table Payment)
    → pending_payment user model id rows ≡ none
    → sessions user model id rows ≡ 0
unfolding pending_payment sessions
pending_payment-none user model id [] h = refl
pending_payment-none user model id ((k, p) ∷ rows) h =
    elim (Bool-cases (is_session_of user model id p)) [
      | inl e ↦ absurd (cc (rw e at h))
      | inr e ↦ rw e (omega (arith, pending_payment-none user model id rows (rw e at h)))
    ]

-- The payments are as they were, or one of the user for the target came in.
abbrev pub Grows : ℕ → TargetModel → ℕ → Table Payment → Table Payment → Type 0
Grows user model id rows others =
    (others ≡ rows)
    ⊎ ((k : ℕ) × (p : Payment) × (others ≡ append k p rows)
        × (p.user ≡ user)
        × (p.target_content_type ≡ some model)
        × (p.target_id ≡ id))

module _ (c : Call) (user : ℕ) where
  Grows-same :
      {model : TargetModel} {id : ℕ} {rows others after : Table Payment}
      → rows ≡ others
      → Grows user model id rows after
      → Grows user model id others after
  Grows-same h g = rw h at g

  pub create_session-Grows :
      (model : TargetModel) (id : ℕ) (amount : Decimal) (s : Store)
      → Grows user model id s.payments (create_session c user model id amount s).1.payments
  unfolding create_session
  create_session-Grows model id amount s = inr (_, _, refl, refl, refl, refl)

  freeze_order_ends :
      (id : ℕ) (s : Store)
      → ((freeze_order id s).0 ≡ ok tt) × ((freeze_order id s).1.payments ≡ s.payments)
  unfolding freeze_order save_order
  freeze_order_ends id s = elim (Option-cases (lookup id s.shop.orders)) [
    | inl e ↦ rw (e, freeze_order) (refl, refl)
    | inr (order, e) ↦ rw (e, freeze_order) (refl, refl)
  ]

  reserve_then_open-Grows :
      (id : ℕ) (amount : Decimal) (code : Option CartCode) (s : Store)
      → Grows user order_target id s.payments (reserve_then_open c user id amount code s).1.payments
  unfolding reserve_then_open
  reserve_then_open-Grows id amount (some code) s = inl refl
  reserve_then_open-Grows id amount none s =
      let (froze, same) = freeze_order_ends id s in
      let t = (freeze_order id s).1 in
      rw
        (bind-ok (freeze_order id) (λ _. create_session c user order_target id amount) s t tt
          (pair_eq (freeze_order id s) (ok tt) t froze refl))
        (Grows-same same (create_session-Grows order_target id amount t))

  try_reserve-same : (id : ℕ) (s : Store) → (try_reserve c.env id s).1.payments ≡ s.payments
  unfolding try_reserve
  try_reserve-same id s = refl

  open_priced_order-Grows :
      (id : ℕ) (amount : Decimal) (why : Option Refused) (s : Store)
      → Grows user order_target id s.payments (open_priced_order c user id amount why s).1.payments
  unfolding open_priced_order
  open_priced_order-Grows id amount (some why) s = inl refl
  open_priced_order-Grows id amount none s =
      let m = try_reserve c.env id in
      let f = reserve_then_open c user id amount in
      elim (ended (m s)) [
        | inl (e, raised) ↦
            rw (bind-err m f s (m s).1 e (pair_eq (m s) (err e) (m s).1 raised refl))
              (inl (try_reserve-same id s))
        | inr (code, passed) ↦
            rw (bind-ok m f s (m s).1 code passed)
              (Grows-same (try_reserve-same id s) (reserve_then_open-Grows id amount code (m s).1))
      ]

  pub open_new_order-Grows :
      (id : ℕ) (order : Order) (s : Store)
      → Grows user order_target id s.payments (open_new_order c user id order s).1.payments
  unfolding open_new_order
  open_new_order-Grows id order s =
      elim (Bool-cases (not (is_payable order.status) || is_empty_order order)) [
        | inl e ↦ rw e (inl refl)
        | inr e ↦ rw e (open_priced_order-Grows id (thousandths (total_price s.shop order)) _ s)
      ]

  pub open_checked-Grows :
      (model : TargetModel) (id : ℕ) (amount : Decimal) (why : Option Refused) (s : Store)
      → Grows user model id s.payments (open_checked c user model id amount why s).1.payments
  unfolding open_checked
  open_checked-Grows model id amount (some why) s = inl refl
  open_checked-Grows model id amount none s = create_session-Grows model id amount s

  open_with_tariff-Grows :
      (id : ℕ) (card : BusinessCard) (tariff : Tariff) (why : Option Refused) (s : Store)
      → Grows user card_target id s.payments
          (open_with_tariff c user id card tariff why s).1.payments
  unfolding open_with_tariff save_days create_session
  open_with_tariff-Grows id card tariff (some why) s = inl refl
  open_with_tariff-Grows id card tariff none s = inr (_, _, refl, refl, refl, refl)

  pub open_new_card-Grows :
      (id : ℕ) (card : BusinessCard) (tariff : Option Tariff) (s : Store)
      → Grows user card_target id s.payments (open_new_card c user id card tariff s).1.payments
  unfolding open_new_card
  open_new_card-Grows id card none s = inl refl
  open_new_card-Grows id card (some tariff) s = open_with_tariff-Grows id card tariff _ s
