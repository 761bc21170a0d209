-- ===== src/Appointments.antt =====
-- Cancelling an appointment and its refund: `refund_paid_reservation` of apps/reserve/lifecycle.py
-- and `ReservationCancelView` of apps/reserve/views/user/reservation.py. The texts of the reasons
-- are left out.
pub mod Refunds
mod Tests
use asoud_backend_full.Payment.Rows.{Store, Event}
use asoud_backend_full.Reserve.Rows.{
  Service, Reservation, ReservationStatus, held, pending_confirmation, confirmed,
}
use asoud_backend_full.Wallet.{
  Bank, Wallet, Transaction, Action, appointment_refund, lock_user, save_balance,
  record_transaction,
}
use asoud_backend_full.Prelude.{
  ℕ, ◌+◌, ◌*◌, Bool, true, false, not, ◌&&◌, ◌||◌, Option, none, some, is_some, [], ◌∷◌, ltb, leb,
  ◌==◌, if◌then◌else◌,
}
use asoud_backend_full.Exec.{
  Exec, ok, does_not_exist, wallet_model, pure, or_raise, gets, modify, atomic, ◌>>=◌, ◌>>◌,
}
use asoud_backend_full.Table.{Table, lookup, update, append}

-- `Wallet.objects.filter(user_id=…)`: a user has one wallet at most.
unfoldable pub wallet_of : ℕ → Table Wallet → Option ℕ
wallet_of user [] = none
wallet_of user ((id, w) ∷ rows) =
    let rest = wallet_of user rows in if w.user == user then some id else rest

-- `Wallet.objects.get_or_create(user_id=…)`, with the identifier of a new one
unfoldable pub get_or_create_wallet : ℕ → ℕ → Exec Bank ℕ
unfolding wallet_of
get_or_create_wallet user new b = elim (wallet_of user b.wallets) [
  | some id ↦ (ok id, b)
  | none ↦
      (ok new, record b { wallets = append new (record { user = user; balance = 0 }) b.wallets })
]

-- The money of a refund goes to the wallet, and to the ledger.
unfoldable pub pay_back : ℕ → ℕ → ℕ → ℕ → Exec Bank (Unit {0})
unfolding save_balance record_transaction
pay_back reservation user id amount = do
  found ← gets (λ b. lookup id b.wallets)
  wallet ← or_raise found (does_not_exist wallet_model)
  save_balance id wallet (wallet.balance + amount)
  record_transaction (record {
    user = user;
    from_wallet = id;
    to_wallet = some id;
    action = appointment_refund reservation;
    amount = amount;
  })

unfoldable pub refund_wallet : ℕ → ℕ → ℕ → ℕ → Exec Bank (Unit {0})
unfolding lock_user get_or_create_wallet pay_back
refund_wallet reservation user new amount = do
  lock_user user
  id ← get_or_create_wallet user new
  pay_back reservation user id amount

-- A step on the wallets that may raise.
abbrev pub in_bank_run : {A : Type 0} → Exec Bank A → Exec Store A
in_bank_run m s = let run = m s.bank in (run.0, record s { bank = run.1 })

unfoldable pub save_reservation_row : ℕ → Reservation → Exec Store (Unit {0})
save_reservation_row id r = modify (λ (s : Store). record s {
  diary = record (s.diary) { reservations = update id r s.diary.reservations };
})

-- `not reservation.is_paid or reservation.amount_due <= 0 or reservation.refunded_at`
unfoldable pub owes_nothing : Reservation → Bool
owes_nothing r = not r.is_paid || (r.amount_due == 0 || is_some r.refunded_at)

-- What a refund takes from outside: the time and the identifier of a new wallet.
pub record RefundCall : Type 0 where
  pub now : ℕ
  pub new_wallet : ℕ

unfoldable pub refund_paid_reservation : RefundCall → ℕ → Reservation → Exec Store (Unit {0})
unfolding refund_wallet save_reservation_row owes_nothing
refund_paid_reservation c id r s =
    if owes_nothing r
    then (ok tt, s)
    else (in_bank_run (refund_wallet id r.user c.new_wallet r.amount_due)
          >> save_reservation_row id
              (record r { refund_amount = r.amount_due; refunded_at = some c.now }))
        s

-- `status__in=(HELD, PENDING_CONFIRMATION, CONFIRMED)`
unfoldable pub is_cancellable : ReservationStatus → Bool
is_cancellable status = elim status [
  | held ↦ true
  | pending_confirmation ↦ true
  | confirmed ↦ true
  | _ ↦ false
]

-- The appointment is too near; a hold can be cancelled at any time.
unfoldable pub is_window_closed : ℕ → Store → Reservation → Bool
is_window_closed now s r = elim r.scheduled_start [
  | none ↦ false
  | some start ↦ elim r.service [
    | none ↦ false
    | some service_id ↦ elim (lookup service_id s.diary.services) [
      | none ↦ false
      | some service ↦
          not (elim r.status [ held ↦ true | _ ↦ false ])
          && leb start (now + service.cancellation_hours * 3600)
    ]
  ]
]

-- `notify_after_commit(reservation, 'cancelled')`
unfoldable pub notify_cancelled : ℕ → Exec Store (Unit {0})
notify_cancelled id =
    modify (λ (s : Store). record s { notices = (id, Event.cancelled) ∷ s.notices })

pub data Cancelling : Type 0 where
  cancelled_now window_closed not_found : Cancelling

unfoldable pub cancel_saved : RefundCall → ℕ → Reservation → Exec Store Cancelling
unfolding save_reservation_row refund_paid_reservation notify_cancelled
cancel_saved c id row = do
  save_reservation_row id row
  refund_paid_reservation c id row
  notify_cancelled id
  pure cancelled_now

unfoldable pub cancel_row : RefundCall → ℕ → Reservation → Exec Store Cancelling
unfolding cancel_saved
cancel_row c id r =
    cancel_saved c id (record r { status = ReservationStatus.cancelled; cancelled_at = some c.now })

unfoldable pub cancel_found : RefundCall → ℕ → ℕ → Option Reservation → Exec Store Cancelling
unfolding is_cancellable is_window_closed cancel_row
cancel_found c user id none s = (ok not_found, s)
cancel_found c user id (some r) s =
    if not (r.user == user && is_cancellable r.status)
    then (ok not_found, s)
    else if is_window_closed c.now s r
    then (ok window_closed, s)
    else cancel_row c id r s

-- `ReservationCancelView.post`
unfoldable pub cancel_reservation : RefundCall → ℕ → ℕ → Exec Store Cancelling
unfolding cancel_found
cancel_reservation c user id =
    atomic (λ s. cancel_found c user id (lookup id s.diary.reservations) s)
