-- ===== src/Reserve/Rows.antt =====
-- The rows of apps/reserve/models.py and the opening hours of apps/market/models.py, with the
-- fields that the booking services read and write, and what they take from libraries.
use asoud_backend_full.Prelude.{ℕ, Bool, Option, List}
use asoud_backend_full.Table.{Table}

-- `Service.payment_mode`
pub data PaymentMode : Type 0 where
  free fixed deposit_percent full : PaymentMode

-- `fixed_fee` is in whole toman, and so are the money columns of a reservation.
pub record Service : Type 0 where
  pub market : ℕ
  pub product : Option ℕ
  pub duration_minutes : ℕ
  pub buffer_minutes : ℕ
  pub capacity : ℕ
  pub payment_mode : PaymentMode
  pub fixed_fee : ℕ
  pub deposit_percentage : ℕ
  pub requires_owner_confirmation : Bool
  pub max_advance_days : ℕ
  pub cancellation_hours : ℕ
  pub is_active : Bool

pub record Specialist : Type 0 where
  pub market : Option ℕ
  pub is_active : Bool
  pub services : List ℕ

pub record Schedule : Type 0 where
  pub market : ℕ
  pub day_of_week : ℕ
  pub start_time : ℕ
  pub end_time : ℕ

pub record DayOff : Type 0 where
  pub market : ℕ
  pub date : ℕ

pub record TimeOff : Type 0 where
  pub specialist : ℕ
  pub date : ℕ
  pub start : Option ℕ
  pub end : Option ℕ

pub data ReservationStatus : Type 0 where
  held pending_confirmation confirmed completed cancelled no_show expired : ReservationStatus

-- Amounts are hundred-thousandths of a toman, so that a percentage of a price is exact.
pub record Reservation : Type 0 where
  pub user : ℕ
  pub service : Option ℕ
  pub specialist : ℕ
  pub is_paid : Bool
  pub scheduled_start : Option ℕ
  pub scheduled_end : Option ℕ
  pub status : ReservationStatus
  pub hold_expires_at : Option ℕ
  pub confirmed_at : Option ℕ
  pub price_snapshot : ℕ
  pub payment_mode_snapshot : PaymentMode
  pub amount_due : ℕ
  pub cancelled_at : Option ℕ
  pub refund_amount : ℕ
  pub refunded_at : Option ℕ

-- `schedules` is ordered by the start time.
pub record Diary : Type 0 where
  pub services : Table Service
  pub specialists : Table Specialist
  pub schedules : List Schedule
  pub day_offs : List DayOff
  pub time_offs : List TimeOff
  pub reservations : Table Reservation

-- The time zone: `make_aware(combine(day, time))`, the date and the time of day of
-- `timezone.localtime`, and `date.weekday()`. Days are ordinals, times are seconds.
pub record Clock : Type 0 where
  pub at : ℕ → ℕ → ℕ
  pub local_date : ℕ → ℕ
  pub local_time : ℕ → ℕ
  pub weekday : ℕ → ℕ
