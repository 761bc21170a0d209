-- ===== src/Reserve/Slots.antt =====
-- The free slots of a specialist on a day: `market_weekday`, `expire_stale_holds`, `_is_time_off`
-- and `available_slots` of apps/reserve/services.py. The `while` loop runs on fuel, one more than
-- the seconds of the interval.
pub mod Grid
use asoud_backend_full.Reserve.Rows.{
  Service, Specialist, Schedule, DayOff, TimeOff, Reservation, ReservationStatus, held,
  pending_confirmation, confirmed, expired, Diary, Clock,
}
use asoud_backend_full.Prelude.{
  ℕ, zero, suc, ◌+◌, ◌-◌, ◌*◌, ◌%◌, Bool, true, false, not, ◌&&◌, ◌||◌, Option, none, some, List,
  [], ◌∷◌, ◌++◌, ltb, leb, ◌==◌, any, keep, length, elem, same_key, if◌then◌else◌,
}
use asoud_backend_full.Table.{Table}

-- Monday is 0 in Python, Saturday in the program.
unfoldable pub market_weekday : Clock → ℕ → ℕ
market_weekday clock day = (clock.weekday day + 2) % 7

abbrev pub is_held : ReservationStatus → Bool
is_held status = elim status [ held ↦ true | _ ↦ false ]

-- `status in ACTIVE_RESERVATION_STATUSES`
abbrev pub is_active : ReservationStatus → Bool
is_active status = elim status [
  | held ↦ true
  | pending_confirmation ↦ true
  | confirmed ↦ true
  | _ ↦ false
]

-- `field <= now`, which is not so of a null field
abbrev pub until : Option ℕ → ℕ → Bool
until none now = false
until (some t) now = leb t now

unfoldable pub expire_row : ℕ → Reservation → Reservation
expire_row now r =
    if is_held r.status && (until r.hold_expires_at now && not r.is_paid)
    then record r { status = expired }
    else r

unfoldable pub expire_rows : ℕ → Table Reservation → Table Reservation
unfolding expire_row
expire_rows now [] = []
expire_rows now ((id, r) ∷ rows) = (id, expire_row now r) ∷ expire_rows now rows

unfoldable pub expire_stale_holds : ℕ → Diary → Diary
unfolding expire_rows
expire_stale_holds now d = record d { reservations = expire_rows now d.reservations }

-- The body of the loop of `_is_time_off`.
covers_time : ℕ → ℕ → Option ℕ → Option ℕ → Bool
covers_time start_time end_time (some start) (some end) = ltb start end_time && ltb start_time end
covers_time start_time end_time _ _ = true

unfoldable pub is_time_off : Diary → ℕ → ℕ → ℕ → ℕ → Bool
unfolding covers_time
is_time_off d specialist day start_time end_time =
    any
      (λ (t : TimeOff).
        t.specialist == specialist
        && (t.date == day && covers_time start_time end_time t.start t.end))
      d.time_offs

-- The two tests on a reservation's times; a null field passes no test.
abbrev pub starts_before : Option ℕ → ℕ → Bool
starts_before none t = false
starts_before (some start) t = ltb start t

abbrev pub ends_after : Option ℕ → ℕ → Bool
ends_after none t = false
ends_after (some end) t = ltb t end

-- A row of `occupied`.
abbrev pub is_occupied : ℕ → ℕ → ℕ → Option ℕ → ℕ × Reservation → Bool
is_occupied specialist start end exclude (id, r) =
    not (same_key (some id) exclude)
    && (r.specialist == specialist
        && (starts_before r.scheduled_start end
            && (ends_after r.scheduled_end start && is_active r.status)))

-- `occupied.count()`
unfoldable pub occupied : Table Reservation → ℕ → ℕ → ℕ → Option ℕ → ℕ
occupied rows specialist start end exclude =
    length (keep (is_occupied specialist start end exclude) rows)

pub record Slot : Type 0 where
  pub start : ℕ
  pub end : ℕ
  pub capacity : ℕ
  pub remaining : ℕ
  pub available : Bool

-- The slot that begins at `cursor`.
unfoldable pub slot_at : Diary → Service → ℕ → Option ℕ → ℕ → Slot
slot_at d service specialist exclude cursor =
    let end = cursor + service.duration_minutes * 60 in
    let used = occupied d.reservations specialist cursor end exclude in
    record {
      start = cursor;
      end = end;
      capacity = service.capacity;
      remaining = service.capacity - used;
      available = ltb used service.capacity;
    }

-- The condition under which the loop lists the slot that begins at `cursor`.
unfoldable pub is_listed : Clock → Diary → ℕ → Service → ℕ → ℕ → ℕ → Bool
is_listed clock d now service specialist day cursor =
    ltb now cursor
    && not (
        is_time_off d specialist day (clock.local_time cursor)
          (clock.local_time (cursor + service.duration_minutes * 60)))

-- `timedelta(minutes=service.duration_minutes + service.buffer_minutes)`
abbrev pub step : Service → ℕ
step service = (service.duration_minutes + service.buffer_minutes) * 60

-- The `while` loop.
unfoldable pub slots_from : ℕ → Clock → Diary → ℕ → Service → ℕ → ℕ → Option ℕ → ℕ → ℕ → List Slot
slots_from zero clock d now service specialist day exclude end cursor = []
slots_from (suc fuel) clock d now service specialist day exclude end cursor =
    let rest =
      slots_from fuel clock d now service specialist day exclude end (cursor + step service) in
    if leb (cursor + service.duration_minutes * 60) end
    then if is_listed clock d now service specialist day cursor
      then slot_at d service specialist exclude cursor ∷ rest
      else rest
    else []

-- The `for` loop over the schedules of the day.
unfoldable pub slots_of : Clock → Diary → ℕ → Service → ℕ → ℕ → Option ℕ → List Schedule → List Slot
unfolding slots_from
slots_of clock d now service specialist day exclude [] = []
slots_of clock d now service specialist day exclude (schedule ∷ schedules) =
    let start = clock.at day schedule.start_time in
    let end = clock.at day schedule.end_time in
    slots_from (suc (end - start)) clock d now service specialist day exclude end start
    ++ slots_of clock d now service specialist day exclude schedules

abbrev pub opens_on : Clock → ℕ → ℕ → Schedule → Bool
opens_on clock market day schedule =
    schedule.market == market && schedule.day_of_week == market_weekday clock day

-- The early returns of `available_slots`.
unfoldable pub is_bookable : Clock → Diary → ℕ → ℕ → Service → Specialist → ℕ → Bool
is_bookable clock d now service_id service specialist day =
    (service.is_active
      && (specialist.is_active
          && (same_key specialist.market (some service.market)
              && (elem service_id specialist.services
                  && not (
                      any (λ (o : DayOff). o.market == service.market && o.date == day)
                        d.day_offs)))))
    && (leb (clock.local_date now) day && leb day (clock.local_date now + service.max_advance_days))

-- `available_slots` after `expire_stale_holds`
unfoldable pub open_slots :
    Clock → Diary → ℕ → ℕ → Service → ℕ → Specialist → ℕ → Option ℕ → List Slot
unfolding slots_of is_bookable market_weekday
open_slots clock d now service_id service specialist_id specialist day exclude =
    if is_bookable clock d now service_id service specialist day
    then slots_of clock d now service specialist_id day exclude
        (keep (opens_on clock service.market day) d.schedules)
    else []

unfoldable pub available_slots :
    Clock → ℕ → ℕ → Service → ℕ → Specialist → ℕ → Option ℕ → Diary → List Slot × Diary
unfolding open_slots expire_stale_holds
available_slots clock now service_id service specialist_id specialist day exclude d =
    let d' = expire_stale_holds now d in
    (open_slots clock d' now service_id service specialist_id specialist day exclude, d')
