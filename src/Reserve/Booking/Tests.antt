-- ===== src/Reserve/Booking/Tests.antt =====
-- A small diary: service 1 of market 1, 30 minutes for one customer at a time, and its slots.
use asoud_backend_full.Reserve.Rows.{Service, full, Schedule, Diary, Clock}
use asoud_backend_full.Reserve.Slots.{
  slots_of, slot_at, slots_from, occupied, available_slots, is_listed, is_time_off,
}
use asoud_backend_full.Reserve.Slots.Grid.{day_slots, slots_of-day_slots}
use asoud_backend_full.Reserve.Booking.{hold_reservation}
use asoud_backend_full.Reserve.Booking.Load.{load}
use asoud_backend_full.Reserve.Booking.Capacity.{hold_reservation-keeps_capacity}
use asoud_backend_full.Cart.Sample.{product}
use asoud_backend_full.Prelude.{
  ℕ, ◌/◌, ◌+◌, ◌*◌, ◌≤◌, ◌≡◌, refl, true, false, none, some, [], ◌∷◌, arith, map,
}
use asoud_backend_full.Exec.{err, value_error}
use asoud_backend_full.Table.{lookup}

abbrev clock : Clock
clock = record {
  at = λ day t. day * 86400 + t;
  local_date = λ t. 3;
  local_time = λ t. t;
  weekday = λ d. 5;
}

abbrev service : Service
service = record {
  market = 1;
  product = some 7;
  duration_minutes = 30;
  buffer_minutes = 15;
  capacity = 1;
  payment_mode = full;
  fixed_fee = 0;
  deposit_percentage = 0;
  requires_owner_confirmation = false;
  max_advance_days = 90;
  cancellation_hours = 24;
  is_active = true;
}

abbrev hours : Schedule
hours = record { market = 1; day_of_week = 0; start_time = 3600; end_time = 9000 }

abbrev diary : Diary
diary = record {
  services = (1, service) ∷ [];
  specialists = (2, record { market = some 1; is_active = true; services = 1 ∷ [] }) ∷ [];
  schedules = hours ∷ [];
  day_offs = [];
  time_offs = [];
  reservations = [];
}

abbrev offset : Clock
offset = record clock { at = λ day t. t }

abbrev to_toman : ℕ → ℕ
to_toman amount = amount / 100000

-- Two appointments fit: at 3600 and at 6300 seconds.
slots_sample :
    map (λ s. s.start) (slots_of offset diary 0 service 2 3 none (hours ∷ [])) ≡ 3600 ∷ 6300 ∷ []
unfolding slots_of slots_from is_listed is_time_off slot_at
slots_sample = refl

slots_of-day_slots_example :
    slots_of offset diary 0 service 2 3 none (hours ∷ [])
    ≡ day_slots offset diary 0 service 2 3 none (hours ∷ [])
slots_of-day_slots_example =
    slots_of-day_slots offset diary 0 service 2 3 none (omega arith) (hours ∷ [])

fits_one : (s : Service) → lookup 1 diary.services ≡ some s → s.capacity ≤ 1
unfolding lookup
fits_one s h = ground arith

hold_reservation-keeps_capacity_example :
    load 2 3700
      (hold_reservation offset to_toman ((7, product) ∷ []) 0 50 9 1 1 2 3600 diary).1.reservations
    ≤ 1
hold_reservation-keeps_capacity_example =
    hold_reservation-keeps_capacity 2 3700 offset to_toman ((7, product) ∷ []) 0 50 9 1 1 2 3600 1
      diary (omega arith) fits_one

-- The first customer gets the appointment, the second does not.
held_sample :
    load 2 3700
      (hold_reservation offset to_toman ((7, product) ∷ []) 0 50 9 1 1 2 3600 diary).1.reservations
    ≡ 1
unfolding hold_reservation lookup available_slots is_listed is_time_off slot_at occupied
held_sample = refl

refused_sample :
    (hold_reservation offset to_toman
      ((7, product) ∷ [])
      0
      51
      8
      1
      1
      2
      3600
      (hold_reservation offset to_toman ((7, product) ∷ []) 0 50 9 1 1 2 3600 diary).1).0
    ≡ err value_error
unfolding hold_reservation lookup available_slots is_listed is_time_off slot_at occupied
refused_sample = refl
