-- ===== src/Reserve/Slots/Grid.antt =====
-- The loop of `available_slots` against a description that names every slot of the day.
use asoud_backend_full.Reserve.Rows.{Service, Schedule, Diary, Clock}
use asoud_backend_full.Reserve.Slots.{Slot, slot_at, is_listed, step, slots_from, slots_of}
use asoud_backend_full.Prelude.{
  ℕ, zero, suc, ◌+◌, ◌-◌, ◌*◌, ◌/◌, ◌≤◌, ◌<◌, ◌≡◌, refl, ◌∙◌, Option, List, [], ◌∷◌, ◌++◌, map,
  arith, leb, leb→le, keep, inl, inr, Bool-cases,
}
use native.Mathlib.Nat.{div-eq_of_lt, div-eq-sub-div}

-- The first `n` points of a grid.
abbrev grid : ℕ → ℕ → ℕ → List ℕ
grid zero width start = []
grid (suc n) width start = start ∷ grid n width (start + width)

-- How many appointments of `duration` seconds, begun every `width` seconds, end by `end`.
abbrev places : ℕ → ℕ → ℕ → ℕ → ℕ
places duration width end start = (end + width - (start + duration)) / width

no_place :
    (duration width end start : ℕ)
    → 1 ≤ width
    → end < start + duration
    → places duration width end start ≡ 0
no_place duration width end start w h =
    div-eq_of_lt {n = end + width - (start + duration)} {m = width} (omega arith)

one_place :
    (duration width end start : ℕ)
    → 1 ≤ width
    → start + duration ≤ end
    → places duration width end start ≡ suc (places duration width end (start + width))
one_place duration width end start w h =
    let shift : end + width - (start + duration) - width
        ≡ end + width - (start + width + duration) =
      omega arith in
    div-eq-sub-div {m = width} {n = end + width - (start + duration)} (omega arith) (omega arith)
    ∙ (rw shift (omega arith))

-- The slots of one interval: of the grid of starts, those that are listed.
abbrev interval_slots : Clock → Diary → ℕ → Service → ℕ → ℕ → Option ℕ → ℕ → ℕ → List Slot
interval_slots clock d now service specialist day exclude end start =
    map (slot_at d service specialist exclude) (
      keep (is_listed clock d now service specialist day) (
        grid (places (service.duration_minutes * 60) (step service) end start) (step service)
          start))

-- The slots of a day: those of each opening interval, in their order.
abbrev pub day_slots : Clock → Diary → ℕ → Service → ℕ → ℕ → Option ℕ → List Schedule → List Slot
day_slots clock d now service specialist day exclude [] = []
day_slots clock d now service specialist day exclude (schedule ∷ schedules) =
    interval_slots clock d now service specialist day exclude (clock.at day schedule.end_time)
      (clock.at day schedule.start_time)
    ++ day_slots clock d now service specialist day exclude schedules

module _ (clock : Clock) (d : Diary) (now : ℕ) (service : Service) (specialist day : ℕ)
    (exclude : Option ℕ) (positive : 1 ≤ service.duration_minutes) where
  slots_from-interval_slots :
      (fuel end cursor : ℕ)
      → end < cursor + fuel
      → slots_from fuel clock d now service specialist day exclude end cursor
        ≡ interval_slots clock d now service specialist day exclude end cursor
  unfolding slots_from
  slots_from-interval_slots zero end cursor h =
      rw
        (no_place (service.duration_minutes * 60) (step service) end cursor (omega arith)
          (omega arith))
        refl
  slots_from-interval_slots (suc fuel) end cursor h =
      let more = slots_from-interval_slots fuel end (cursor + step service) (omega arith) in
      elim (Bool-cases (leb (cursor + service.duration_minutes * 60) end)) [
        | inl fits ↦
            rw
              (
                one_place (service.duration_minutes * 60) (step service) end cursor (omega arith)
                    (leb→le _ _ fits),
                fits,
                more,
              )
              (elim (Bool-cases (is_listed clock d now service specialist day cursor)) [
                | inl listed ↦ rw listed refl
                | inr hidden ↦ rw hidden refl
              ])
        | inr over ↦
            rw
              (
                no_place (service.duration_minutes * 60) (step service) end cursor (omega arith)
                    (ground arith),
                over,
              )
              refl
      ]

  -- If an appointment takes time, the loops end with every slot of the day: in each opening
  -- interval, from its start and then at each step of the duration and the buffer, the slots that
  -- end within the interval, lie ahead and meet no time off of the specialist.
  pub slots_of-day_slots :
      (schedules : List Schedule)
      → slots_of clock d now service specialist day exclude schedules
        ≡ day_slots clock d now service specialist day exclude schedules
  unfolding slots_of
  slots_of-day_slots [] = refl
  slots_of-day_slots (schedule ∷ schedules) =
      rw
        (
          slots_from-interval_slots
              (suc (clock.at day schedule.end_time - clock.at day schedule.start_time))
              (clock.at day schedule.end_time) (clock.at day schedule.start_time) (omega arith),
          slots_of-day_slots schedules,
        )
        refl
