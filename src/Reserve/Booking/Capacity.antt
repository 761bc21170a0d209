-- ===== src/Reserve/Booking/Capacity.antt =====
-- A booking never overfills a specialist.
use asoud_backend_full.Reserve.Rows.{Service, Specialist, Schedule, Reservation, Diary, Clock}
use asoud_backend_full.Reserve.Slots.{
  Slot, slot_at, is_listed, step, slots_from, slots_of, open_slots, available_slots, is_bookable,
  expire_rows, expire_stale_holds, occupied,
}
use asoud_backend_full.Reserve.Booking.{
  find_slot, take_slot, lock_specialist, lock_service, new_reservation, hold_locked,
  hold_reservation,
}
use asoud_backend_full.Cart.Rows.{Product}
use asoud_backend_full.Prelude.{
  ℕ, zero, suc, ◌+◌, ◌-◌, ◌*◌, ◌≤◌, ◌<◌, ◌≡◌, refl, true, ◌&&◌, none, some, List, [], ◌∷◌, ◌++◌,
  arith, ltb, leb, ◌==◌, All, inl, inr, Bool-cases, Option-cases,
}
use asoud_backend_full.Exec.{ok, atomic-err, atomic-eq-ok, ended}
use asoud_backend_full.Table.{Table, lookup}
use asoud_backend_full.Reserve.Booking.Load.{covers, load, load-expire_rows, load-occupied}

-- A slot tells how full it is.
abbrev IsCounted : Diary → Service → ℕ → Slot → Type 0
IsCounted d service specialist slot =
    slot.available
    ≡ ltb (occupied d.reservations specialist slot.start slot.end none) service.capacity

All-append : {A : Type 0} (P : A → Type 0) (xs ys : List A) → All P xs → All P ys → All P (xs ++ ys)
All-append P [] ys hx hy = hy
All-append P (x ∷ xs) ys hx hy = (hx.0, All-append P xs ys hx.1 hy)

module _ (clock : Clock) (d : Diary) (now : ℕ) (service : Service) (specialist day : ℕ) where
  slots_from-IsCounted :
      (fuel end cursor : ℕ)
      → All
          (IsCounted d service specialist)
          (slots_from fuel clock d now service specialist day none end cursor)
  unfolding slots_from slot_at
  slots_from-IsCounted zero end cursor = tt
  slots_from-IsCounted (suc fuel) end cursor =
      let more = slots_from-IsCounted fuel end (cursor + step service) in
      elim (Bool-cases (leb (cursor + service.duration_minutes * 60) end)) [
        | inl fits ↦ elim (Bool-cases (is_listed clock d now service specialist day cursor)) [
          | inl listed ↦ rw (fits, listed) (refl, more)
          | inr hidden ↦ rw (fits, hidden) more
        ]
        | inr over ↦ rw over tt
      ]

  slots_of-IsCounted :
      (schedules : List Schedule)
      → All
          (IsCounted d service specialist)
          (slots_of clock d now service specialist day none schedules)
  unfolding slots_of
  slots_of-IsCounted [] = tt
  slots_of-IsCounted (schedule ∷ schedules) =
      All-append (IsCounted d service specialist) _ _
        (slots_from-IsCounted
          (suc (clock.at day schedule.end_time - clock.at day schedule.start_time))
          (clock.at day schedule.end_time) (clock.at day schedule.start_time))
        (slots_of-IsCounted schedules)

  open_slots-IsCounted :
      (service_id : ℕ) (row : Specialist)
      → All
          (IsCounted d service specialist)
          (open_slots clock d now service_id service specialist row day none)
  unfolding open_slots
  open_slots-IsCounted service_id row =
      elim (Bool-cases (is_bookable clock d now service_id service row day)) [
        | inl e ↦ rw e (slots_of-IsCounted _)
        | inr e ↦ rw e tt
      ]

find_slot-All :
    (P : Slot → Type 0) (start : ℕ) (slots : List Slot) (slot : Slot)
    → All P slots
    → find_slot start slots ≡ some slot
    → P slot × (slot.available ≡ true) × (slot.start ≡ start)
unfolding find_slot
find_slot-All P start [] slot all h = absurd (cc)
find_slot-All P start (x ∷ xs) slot all h = elim (Bool-cases (x.start == start && x.available)) [
  | inl e ↦ let same : x ≡ slot = ground arith in rw (← same) (all.0, ground arith, ground arith)
  | inr e ↦ find_slot-All P start xs slot all.1 (rw e at h)
]

-- What a hold that succeeds has checked and done.
record IsHeld (clock : Clock) (column : ℕ → ℕ) (products : Table Product)
    (now id user service_id specialist_id start : ℕ) (d t : Diary) : Type 0 where
  service : Service
  slot : Slot
  found : lookup service_id d.services ≡ some service
  has_room :
      occupied (expire_rows now d.reservations) specialist_id slot.start slot.end none
      < service.capacity
  added : t.reservations ≡ (
      (id, new_reservation column products now user service_id service specialist_id slot)
      ∷ expire_rows now d.reservations)

take_slot-eq-ok :
    (clock : Clock) (now service_id specialist_id start : ℕ) (service : Service) (row : Specialist)
    (d : Diary) (slot : Slot) (t : Diary)
    → take_slot clock now service_id service specialist_id row start d ≡ (ok slot, t)
    → (t ≡ expire_stale_holds now d)
      × (occupied (expire_rows now d.reservations) specialist_id slot.start slot.end none
          < service.capacity)
unfolding take_slot available_slots expire_stale_holds
take_slot-eq-ok clock now service_id specialist_id start service row d slot t h =
    let e = expire_stale_holds now d in
    let day = clock.local_date start in
    let slots = open_slots clock e now service_id service specialist_id row day none in
    elim (Option-cases (find_slot start slots)) [
      | inl none_free ↦ absurd (ground arith)
      | inr (found, f) ↦
          let (counted, free, _) =
            find_slot-All (IsCounted e service specialist_id) start slots found
              (open_slots-IsCounted clock e now service specialist_id day service_id row) f in
          let same : found ≡ slot = ground arith in (ground arith, rw (← same) (ground arith))
    ]

hold_locked-IsHeld :
    (clock : Clock) (column : ℕ → ℕ) (products : Table Product)
    (now id user service_id market specialist_id start : ℕ) (d t : Diary) (r : Reservation)
    → hold_locked clock column products now id user service_id market specialist_id start d
      ≡ (ok r, t)
    → IsHeld clock column products now id user service_id specialist_id start d t
unfolding hold_locked lock_specialist lock_service expire_stale_holds
hold_locked-IsHeld clock column products now id user service_id market specialist_id start d t r h =
    elim (Option-cases (lookup specialist_id d.specialists)) [
      | inl missing ↦ absurd (ground arith)
      | inr (row, hr) ↦ elim (Option-cases (lookup service_id d.services)) [
        | inl missing ↦ absurd (ground arith)
        | inr (service, hs) ↦
            elim (ended (take_slot clock now service_id service specialist_id row start d)) [
              | inl (e, refused) ↦ absurd (ground arith)
              | inr (slot, taken) ↦
                  let (same, room) =
                    take_slot-eq-ok clock now service_id specialist_id start service row d slot _
                      taken in
                  let end : t.reservations ≡ (
                      (
                        id,
                        new_reservation column products now user service_id service specialist_id
                            slot,
                      )
                      ∷ (take_slot clock now service_id service specialist_id row start
                          d).1.reservations) =
                    ground arith in
                  record {
                    service = service;
                    slot = slot;
                    found = hs;
                    has_room = room;
                    added = rw same at end;
                  }
            ]
      ]
    ]

new_reservation-covers :
    (specialist instant : ℕ) (column : ℕ → ℕ) (products : Table Product)
    (now id user service_id specialist_id : ℕ) (service : Service) (slot : Slot)
    → covers specialist instant
        (id, new_reservation column products now user service_id service specialist_id slot)
      ≡ true
    → (specialist ≡ specialist_id) × (slot.start ≤ instant) × (instant < slot.end)
unfolding new_reservation
new_reservation-covers specialist instant column products now id user service_id specialist_id
      service slot c =
    (ground arith, ground arith, ground arith)

hold-load :
    (specialist instant : ℕ) (clock : Clock) (column : ℕ → ℕ) (products : Table Product)
    (now id user service_id specialist_id start bound : ℕ) (d t : Diary)
    → load specialist instant d.reservations ≤ bound
    → ((service : Service) → lookup service_id d.services ≡ some service → service.capacity ≤ bound)
    → IsHeld clock column products now id user service_id specialist_id start d t
    → load specialist instant t.reservations ≤ bound
hold-load specialist instant clock column products now id user service_id specialist_id start bound
      d t before fits k =
    let rows = expire_rows now d.reservations in
    let fewer = load-expire_rows specialist instant now d.reservations in
    let new = new_reservation column products now user service_id k.service specialist_id k.slot in
    rw k.added (elim (Bool-cases (covers specialist instant (id, new))) [
      | inr c ↦ rw c (omega (arith, fewer, before))
      | inl c ↦
          let (same, low, high) =
            new_reservation-covers specialist instant column products now id user service_id
              specialist_id k.service k.slot c in
          let busy : load specialist instant rows
              ≤ occupied rows specialist_id k.slot.start k.slot.end none =
            rw same (load-occupied specialist_id instant k.slot.start k.slot.end rows low high) in
          rw c (omega (arith, busy, k.has_room, fits k.service k.found))
    ])

-- If at an instant a specialist's active reservations are within a bound, and the booked service's
-- capacity is too, then they still are after a booking, whether it succeeds or not, of whatever
-- specialist and time.
pub hold_reservation-keeps_capacity :
    (specialist instant : ℕ) (clock : Clock) (column : ℕ → ℕ) (products : Table Product)
    (now id user service_id market specialist_id start bound : ℕ) (d : Diary)
    → load specialist instant d.reservations ≤ bound
    → ((service : Service) → lookup service_id d.services ≡ some service → service.capacity ≤ bound)
    → load specialist instant
        (hold_reservation clock column products now id user service_id market specialist_id start
          d).1.reservations
      ≤ bound
unfolding hold_reservation
hold_reservation-keeps_capacity specialist instant clock column products now id user service_id
      market specialist_id start bound d before fits =
    let run = hold_locked clock column products now id user service_id market specialist_id start in
    elim (ended (
      hold_reservation clock column products now id user service_id market specialist_id start d)) [
        | inl (e, failed) ↦ rw (atomic-err run d failed) before
        | inr (r, done) ↦
            hold-load specialist instant clock column products now id user service_id specialist_id
              start bound d _ before fits
              (hold_locked-IsHeld clock column products now id user service_id market specialist_id
                start d _ r (atomic-eq-ok run d r _ done))
      ]
