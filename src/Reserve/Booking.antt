-- ===== src/Reserve/Booking.antt =====
-- Booking an appointment: `appointment_amount` and `hold_reservation` of
-- apps/reserve/services.py. The identifier of a new row is an argument.
pub mod Capacity
pub mod Load
mod Tests
use asoud_backend_full.Reserve.Rows.{
  PaymentMode, free, fixed, deposit_percent, full, Service, Specialist, Reservation,
  ReservationStatus, held, pending_confirmation, confirmed, Diary, Clock,
}
use asoud_backend_full.Reserve.Slots.{Slot, available_slots}
use asoud_backend_full.Cart.Rows.{Product}
use asoud_backend_full.Prelude.{
  ℕ, ◌+◌, ◌*◌, Bool, true, false, not, ◌&&◌, Option, none, some, List, [], ◌∷◌, ltb, ◌==◌, same_key,
  if◌then◌else◌,
}
use asoud_backend_full.Exec.{
  Exec, Fault, Result, ok, err, does_not_exist, value_error, Model, specialist_model, service_model,
  pure, raise_if, or_raise, gets, modify, atomic, ◌>>=◌, ◌>>◌,
}
use asoud_backend_full.Table.{Table, lookup}

-- `service.product.main_price if service.product_id else 0`
unfoldable pub service_price : Table Product → Service → ℕ
service_price products service = elim service.product [
  | none ↦ 0
  | some p ↦ elim (lookup p products) [ none ↦ 0 | some product ↦ product.main_price ]
]

-- In hundred-thousandths of a toman.
unfoldable pub appointment_amount : Table Product → Service → ℕ
unfolding service_price
appointment_amount products service = elim service.payment_mode [
  | fixed ↦ service.fixed_fee * 100000
  | deposit_percent ↦ service_price products service * service.deposit_percentage
  | full ↦ service_price products service * 100
  | free ↦ 0
]

-- `Specialist.objects.select_for_update().get(id=…, is_active=True, market=…)`
unfoldable pub lock_specialist : ℕ → ℕ → Exec Diary Specialist
lock_specialist id market = do
  row ← gets (λ d. lookup id d.specialists)
  specialist ← or_raise row (does_not_exist specialist_model)
  raise_if (not (specialist.is_active && same_key specialist.market (some market)))
      (does_not_exist specialist_model)
  pure specialist

-- `Service.objects.select_for_update().get(id=…, is_active=True)`
unfoldable pub lock_service : ℕ → Exec Diary Service
lock_service id = do
  row ← gets (λ d. lookup id d.services)
  service ← or_raise row (does_not_exist service_model)
  raise_if (not service.is_active) (does_not_exist service_model)
  pure service

-- The first slot with the start that is available.
unfoldable pub find_slot : ℕ → List Slot → Option Slot
find_slot start [] = none
find_slot start (slot ∷ slots) =
    if slot.start == start && slot.available then some slot else find_slot start slots

-- `HOLD_MINUTES`, in seconds
abbrev pub hold_seconds : ℕ
hold_seconds = 600

-- The row that `hold_reservation` creates, as it is stored: the money columns have whole toman, and
-- what they make of an amount is an argument.
unfoldable pub new_reservation :
    (ℕ → ℕ) → Table Product → ℕ → ℕ → ℕ → Service → ℕ → Slot → Reservation
unfolding appointment_amount service_price
new_reservation column products now user service_id service specialist_id slot =
    let amount = appointment_amount products service in
    let status =
      if ltb 0 amount
      then held
      else if service.requires_owner_confirmation
      then pending_confirmation
      else confirmed in
    record {
      user = user;
      service = some service_id;
      specialist = specialist_id;
      is_paid = not (ltb 0 amount);
      scheduled_start = some slot.start;
      scheduled_end = some slot.end;
      status = status;
      hold_expires_at = if ltb 0 amount then some (now + hold_seconds) else none;
      confirmed_at = elim status [ confirmed ↦ some now | _ ↦ none ];
      price_snapshot = column (service_price products service * 100);
      payment_mode_snapshot = service.payment_mode;
      amount_due = column amount;
      cancelled_at = none;
      refund_amount = 0;
      refunded_at = none;
    }

-- `next((item for item in available_slots(...) if ...), None)`
unfoldable pub take_slot : Clock → ℕ → ℕ → Service → ℕ → Specialist → ℕ → Exec Diary Slot
unfolding find_slot
take_slot clock now service_id service specialist_id specialist start d =
    let run =
      available_slots clock now service_id service specialist_id specialist (clock.local_date start)
        none d in
    or_raise (find_slot start run.0) value_error run.1

-- `market` is the market of the caller's service row.
pub hold_locked :
    Clock → (ℕ → ℕ) → Table Product → ℕ → ℕ → ℕ → ℕ → ℕ → ℕ → ℕ → Exec Diary Reservation
unfolding lock_specialist lock_service take_slot new_reservation
hold_locked clock column products now id user service_id market specialist_id start = do
  specialist ← lock_specialist specialist_id market
  service ← lock_service service_id
  slot ← take_slot clock now service_id service specialist_id specialist start
  modify (λ (d : Diary). record d {
    reservations =
        (id, new_reservation column products now user service_id service specialist_id slot)
        ∷ d.reservations;
  })
  pure (new_reservation column products now user service_id service specialist_id slot)

unfoldable pub hold_reservation :
    Clock → (ℕ → ℕ) → Table Product → ℕ → ℕ → ℕ → ℕ → ℕ → ℕ → ℕ → Exec Diary Reservation
unfolding hold_locked
hold_reservation clock column products now id user service_id market specialist_id start =
    atomic (hold_locked clock column products now id user service_id market specialist_id start)
