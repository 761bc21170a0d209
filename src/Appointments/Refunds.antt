-- ===== src/Appointments/Refunds.antt =====
-- A cancelled appointment is refunded once, and in full.
use asoud_backend_full.Payment.Rows.{Store, Event}
use asoud_backend_full.Reserve.Rows.{Reservation, ReservationStatus}
use asoud_backend_full.Wallet.{Bank, Wallet, lock_user, save_balance, record_transaction}
use asoud_backend_full.Wallet.Transfer.{holdings}
use asoud_backend_full.Money.Normalize.{max_money}
use asoud_backend_full.Appointments.{
  wallet_of, get_or_create_wallet, pay_back, refund_wallet, in_bank_run, save_reservation_row,
  owes_nothing, RefundCall, refund_paid_reservation, is_cancellable, is_window_closed,
  notify_cancelled, Cancelling, cancelled_now, not_found, cancel_saved, cancel_row, cancel_found,
  cancel_reservation,
}
use asoud_backend_full.Prelude.{
  ℕ, ◌+◌, ◌≡◌, refl, ap, ◌∙◌, true, not, ◌&&◌, some, ◌∷◌, arith, ltb, elem, ◌==◌, inl, inr,
  Bool-cases, Option-cases, if◌then◌else◌,
}
use asoud_backend_full.Exec.{Result, ok, pair_eq, bind-eq-ok, atomic-eq-ok, pure, ◌>>=◌, ◌>>◌}
use asoud_backend_full.Table.{
  lookup, update, append, total-update, total-append, lookup-update_self,
}

get_or_create_wallet-holdings :
    (user new id : ℕ) (b b' : Bank)
    → get_or_create_wallet user new b ≡ (ok id, b')
    → holdings b' ≡ holdings b
unfolding get_or_create_wallet
get_or_create_wallet-holdings user new id b b' h = elim (Option-cases (wallet_of user b.wallets)) [
  | inl e ↦
      let w : Wallet = record { user = user; balance = 0 } in
      let grown = total-append (λ (x : Wallet). x.balance) new w b.wallets in
      let wallets : append new w b.wallets ≡ b'.wallets = cc (rw (e, get_or_create_wallet) at h) in
      omega (arith, rw wallets at grown)
  | inr (found, e) ↦ let same : b ≡ b' = cc (rw (e, get_or_create_wallet) at h) in rw same refl
]

pay_back-holdings :
    (reservation user id amount : ℕ) (b b' : Bank)
    → pay_back reservation user id amount b ≡ (ok tt, b')
    → holdings b' ≡ holdings b + amount
unfolding pay_back save_balance record_transaction
pay_back-holdings reservation user id amount b b' h = elim (Option-cases (lookup id b.wallets)) [
  | inl e ↦ absurd (cc (rw e at h))
  | inr (w, e) ↦ elim (Bool-cases (ltb max_money (w.balance + amount))) [
    | inl over ↦ absurd (cc (rw (e, over) at h))
    | inr fits ↦
        let x : Wallet = record w { balance = w.balance + amount } in
        let grown = total-update (λ (y : Wallet). y.balance) id x b.wallets w e in
        let wallets : update id x b.wallets ≡ b'.wallets = cc (rw (e, fits) at h) in
        omega (arith, rw wallets at grown)
  ]
]

lock_user-same : (user : ℕ) (b v : Bank) → lock_user user b ≡ (ok tt, v) → v ≡ b
unfolding lock_user
lock_user-same user b v h = elim (Bool-cases (not (elem user b.users))) [
  | inl gone ↦ absurd (cc (rw (gone, lock_user) at h))
  | inr there ↦ cc (rw (there, lock_user) at h)
]

refund_wallet-holdings :
    (reservation user new amount : ℕ) (b b' : Bank)
    → refund_wallet reservation user new amount b ≡ (ok tt, b')
    → holdings b' ≡ holdings b + amount
unfolding refund_wallet
refund_wallet-holdings reservation user new amount b b' h =
    let (_, v, locked, rest) =
      bind-eq-ok (lock_user user)
        (λ _. get_or_create_wallet user new >>= λ (id : ℕ). pay_back reservation user id amount) b
        tt b' h in
    let (id, u, found, paid) =
      bind-eq-ok (get_or_create_wallet user new) (λ (id : ℕ). pay_back reservation user id amount) v
        tt b' rest in
    let start = ap (λ (x : Bank). holdings x) (lock_user-same user b v locked) in
    let same = get_or_create_wallet-holdings user new id v u found in
    omega (arith, start, same, pay_back-holdings reservation user id amount u b' paid)

-- What the customer gets back.
abbrev pub refund_due : Reservation → ℕ
refund_due r = if owes_nothing r then 0 else r.amount_due

refunded_owes_nothing :
    (r : Reservation) (time : ℕ) → r.refunded_at ≡ some time → owes_nothing r ≡ true
unfolding owes_nothing
refunded_owes_nothing r time h = ground (arith, h)

-- The appointment after a refund owes nothing, and only its refund was written.
abbrev IsRefunded : RefundCall → ℕ → Reservation → Store → Store → Type 0
IsRefunded c id r s t =
    (holdings t.bank ≡ holdings s.bank + refund_due r)
    × ((row : Reservation) × (lookup id t.diary.reservations ≡ some row)
        × (row.status ≡ r.status)
        × (owes_nothing row ≡ true))

refund_paid_reservation-IsRefunded :
    (c : RefundCall) (id : ℕ) (r : Reservation) (s t : Store)
    → lookup id s.diary.reservations ≡ some r
    → refund_paid_reservation c id r s ≡ (ok tt, t)
    → IsRefunded c id r s t
unfolding refund_paid_reservation save_reservation_row
refund_paid_reservation-IsRefunded c id r s t found h = elim (Bool-cases (owes_nothing r)) [
  | inl none_due ↦
      let same : s ≡ t = cc (rw none_due at h) in
      let bank = ap (λ (v : Store). holdings v.bank) same in
      let rows = ap (λ (v : Store). v.diary.reservations) same in
      (rw none_due (omega (arith, bank)), (r, rw rows at found, refl, none_due))
  | inr due ↦
      let row : Reservation = record r { refund_amount = r.amount_due; refunded_at = some c.now } in
      let m = in_bank_run (refund_wallet id r.user c.new_wallet r.amount_due) in
      let (_, u, paid, saved) =
        bind-eq-ok m (λ _. save_reservation_row id row) s tt t (rw due at h) in
      let run = refund_wallet id r.user c.new_wallet r.amount_due s.bank in
      let ends : record s { bank = run.1 } ≡ u = ap (λ (x : Result (Unit {0}) × Store). x.1) paid in
      let grown =
        refund_wallet-holdings id r.user c.new_wallet r.amount_due s.bank run.1
          (pair_eq run (ok tt) run.1 (ap (λ (x : Result (Unit {0}) × Store). x.0) paid) refl) in
      let stored : record u {
        diary = record (u.diary) { reservations = update id row u.diary.reservations };
      }
          ≡ t =
        ap (λ (x : Result (Unit {0}) × Store). x.1) saved in
      let bank : run.1 ≡ t.bank =
        ap (λ (v : Store). v.bank) ends ∙ ap (λ (v : Store). v.bank) stored in
      let rows : update id row s.diary.reservations ≡ t.diary.reservations =
        ap (λ (v : Store). update id row v.diary.reservations) ends
        ∙ ap (λ (v : Store). v.diary.reservations) stored in
      (
        rw due (omega (arith, rw bank at grown)),
        (
          row,
          rw rows at (lookup-update_self id row s.diary.reservations r found),
          refl,
          refunded_owes_nothing row c.now refl,
        ),
      )
]

cancel_saved-IsRefunded :
    (c : RefundCall) (id : ℕ) (r old : Reservation) (s t : Store) (out : Cancelling)
    → lookup id s.diary.reservations ≡ some old
    → cancel_saved c id r s ≡ (ok out, t)
    → IsRefunded c id r s t
unfolding cancel_saved save_reservation_row notify_cancelled
cancel_saved-IsRefunded c id r old s t out found h =
    let u : Store = record s {
      diary = record (s.diary) { reservations = update id r s.diary.reservations };
    } in
    let (_, v, refunded, rest) =
      bind-eq-ok (refund_paid_reservation c id r) (λ _. notify_cancelled id >> pure cancelled_now) u
        out t h in
    let ends : record v { notices = (id, Event.cancelled) ∷ v.notices } ≡ t =
      ap (λ (x : Result Cancelling × Store). x.1) rest in
    let (money, (row, there, status, settled)) =
      refund_paid_reservation-IsRefunded c id r u v
        (lookup-update_self id r s.diary.reservations old found) refunded in
    let bank = ap (λ (x : Store). holdings x.bank) ends in
    let rows = ap (λ (x : Store). x.diary.reservations) ends in
    (omega (arith, money, bank), (row, rw rows at there, status, settled))

cancel_row-IsRefunded :
    (c : RefundCall) (id : ℕ) (r : Reservation) (s t : Store) (out : Cancelling)
    → lookup id s.diary.reservations ≡ some r
    → cancel_row c id r s ≡ (ok out, t)
    → (holdings t.bank ≡ holdings s.bank + refund_due r)
      × ((row : Reservation) × (lookup id t.diary.reservations ≡ some row)
          × (row.status ≡ ReservationStatus.cancelled))
unfolding cancel_row owes_nothing
cancel_row-IsRefunded c id r s t out found h =
    let row : Reservation = record r {
      status = ReservationStatus.cancelled;
      cancelled_at = some c.now;
    } in
    let (money, (saved, there, status, _)) = cancel_saved-IsRefunded c id row r s t out found h in
    (money, (saved, there, status))

cancel_found_cancels :
    (c : RefundCall) (user id : ℕ) (r : Reservation) (s t : Store)
    → cancel_found c user id (some r) s ≡ (ok cancelled_now, t)
    → cancel_row c id r s ≡ (ok cancelled_now, t)
unfolding cancel_found
cancel_found_cancels c user id r s t h =
    elim (Bool-cases (not (r.user == user && is_cancellable r.status))) [
      | inl foreign ↦ absurd (cc (rw foreign at h))
      | inr ours ↦ elim (Bool-cases (is_window_closed c.now s r)) [
        | inl closed ↦ absurd (cc (rw (ours, closed) at h))
        | inr still ↦ rw (ours, still) at h
      ]
    ]

not_cancellable :
    (c : RefundCall) (user id : ℕ) (r : Reservation) (t : Store)
    → r.status ≡ ReservationStatus.cancelled
    → cancel_found c user id (some r) t ≡ (ok not_found, t)
unfolding cancel_found is_cancellable
not_cancellable c user id r t h = elim (Bool-cases (r.user == user)) [
  | inl ours ↦ rw (ours, h) refl
  | inr foreign ↦ rw foreign refl
]

-- A cancellation that succeeds pays into the wallets exactly what the appointment owes, its amount
-- where it is paid and not refunded yet, and nothing else; and every further cancellation of the
-- appointment, by any user and at any time, finds nothing to cancel and changes nothing.
pub cancel_refunds_once :
    (c c' : RefundCall) (user user' id : ℕ) (r : Reservation) (s t : Store)
    → lookup id s.diary.reservations ≡ some r
    → cancel_reservation c user id s ≡ (ok cancelled_now, t)
    → (holdings t.bank ≡ holdings s.bank + refund_due r)
      × (cancel_reservation c' user' id t ≡ (ok not_found, t))
unfolding cancel_reservation
cancel_refunds_once c c' user user' id r s t found h =
    let block =
      atomic-eq-ok (λ (v : Store). cancel_found c user id (lookup id v.diary.reservations) v) s
        cancelled_now t h in
    let run = cancel_found_cancels c user id r s t (rw found at block) in
    let (money, (row, there, status)) = cancel_row-IsRefunded c id r s t cancelled_now found run in
    (money, rw (there, not_cancellable c' user' id row t status) refl)
