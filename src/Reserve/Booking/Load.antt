-- ===== src/Reserve/Booking/Load.antt =====
-- How many customers a specialist has at an instant.
use asoud_backend_full.Reserve.Rows.{Reservation}
use asoud_backend_full.Reserve.Slots.{
  is_active, is_held, until, expire_row, expire_rows, occupied, is_occupied, starts_before,
  ends_after,
}
use asoud_backend_full.Prelude.{
  ℕ, suc, ◌≤◌, ◌<◌, ◌≡◌, Bool, true, not, ◌&&◌, Option, none, some, [], ◌∷◌, arith, ◌==◌, keep,
  length, inl, inr, Bool-cases,
}
use asoud_backend_full.Table.{Table}

-- An active reservation of the specialist that lasts at the instant.
abbrev pub covers : ℕ → ℕ → ℕ × Reservation → Bool
covers specialist instant (id, r) =
    r.specialist == specialist
    && (starts_before r.scheduled_start (suc instant)
        && (ends_after r.scheduled_end instant && is_active r.status))

-- How many customers the specialist has at the instant.
abbrev pub load : ℕ → ℕ → Table Reservation → ℕ
load specialist instant rows = length (keep (covers specialist instant) rows)

-- An expired hold covers nothing.
expire_row-covers :
    (specialist instant now id : ℕ) (r : Reservation)
    → covers specialist instant (id, expire_row now r) ≡ true
    → covers specialist instant (id, r) ≡ true
unfolding expire_row
expire_row-covers specialist instant now id r h =
    elim (Bool-cases (is_held r.status && (until r.hold_expires_at now && not r.is_paid))) [
      | inl e ↦ absurd (ground (arith, rw e at h))
      | inr e ↦ rw e at h
    ]

pub load-expire_rows :
    (specialist instant now : ℕ) (rows : Table Reservation)
    → load specialist instant (expire_rows now rows) ≤ load specialist instant rows
unfolding expire_rows
load-expire_rows specialist instant now [] = omega arith
load-expire_rows specialist instant now ((id, r) ∷ rows) =
    let more = load-expire_rows specialist instant now rows in
    let same = expire_row-covers specialist instant now id r in
    elim (Bool-cases (covers specialist instant (id, expire_row now r))) [
      | inl e ↦ rw (e, same e) (omega (arith, more))
      | inr e ↦ elim (Bool-cases (covers specialist instant (id, r))) [
        | inl c ↦ rw (e, c) (omega (arith, more))
        | inr c ↦ rw (e, c) more
      ]
    ]

starts_before-le :
    (o : Option ℕ) (instant end : ℕ)
    → instant < end
    → starts_before o (suc instant) ≡ true
    → starts_before o end ≡ true
starts_before-le none instant end h e = absurd (cc)
starts_before-le (some t) instant end h e = ground arith

ends_after-le :
    (o : Option ℕ) (instant start : ℕ)
    → start ≤ instant
    → ends_after o instant ≡ true
    → ends_after o start ≡ true
ends_after-le none instant start h e = absurd (cc)
ends_after-le (some t) instant start h e = ground arith

covers-is_occupied :
    (specialist instant start end id : ℕ) (r : Reservation)
    → start ≤ instant
    → instant < end
    → covers specialist instant (id, r) ≡ true
    → is_occupied specialist start end none (id, r) ≡ true
covers-is_occupied specialist instant start end id r low high c =
    let b = starts_before-le r.scheduled_start instant end high in
    let a = ends_after-le r.scheduled_end instant start low in ground arith

-- Whoever covers an instant of a slot occupies the slot.
pub load-occupied :
    (specialist instant start end : ℕ) (rows : Table Reservation)
    → start ≤ instant
    → instant < end
    → load specialist instant rows ≤ occupied rows specialist start end none
unfolding occupied
load-occupied specialist instant start end [] low high = omega arith
load-occupied specialist instant start end ((id, r) ∷ rows) low high =
    let more = load-occupied specialist instant start end rows low high in
    elim (Bool-cases (covers specialist instant (id, r))) [
      | inl c ↦
          rw (c, covers-is_occupied specialist instant start end id r low high c)
            (omega (arith, more))
      | inr c ↦ elim (Bool-cases (is_occupied specialist start end none (id, r))) [
        | inl o ↦ rw (c, o) (omega (arith, more))
        | inr o ↦ rw (c, o) more
      ]
    ]
