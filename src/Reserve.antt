-- ===== src/Reserve.antt =====
-- Appointments: apps/reserve/models.py, apps/reserve/services.py and apps/reserve/lifecycle.py.
pub mod Rows
pub mod Slots
pub mod Booking
