-- ===== src/Appointments/Tests.antt =====
-- User 5 has paid 20 toman for an appointment, and cancels it.
use asoud_backend_full.Prelude.{◌+◌, ◌≡◌, refl, true, none, some, [], ◌∷◌}
use asoud_backend_full.Exec.{ok}
use asoud_backend_full.Table.{lookup, update}
use asoud_backend_full.Payment.Rows.{Store}
use asoud_backend_full.Reserve.Rows.{Reservation, confirmed, full}
use asoud_backend_full.Wallet.{appointment_refund}
use asoud_backend_full.Wallet.Transfer.{holdings}
use asoud_backend_full.Cart.Sample.{shop}
use asoud_backend_full.Appointments.{RefundCall, cancel_reservation, cancelled_now, not_found}
use asoud_backend_full.Appointments.Refunds.{refund_due, cancel_refunds_once}

abbrev appointment : Reservation
appointment = record {
  user = 5;
  service = none;
  specialist = 2;
  is_paid = true;
  scheduled_start = some 90000;
  scheduled_end = some 91800;
  status = confirmed;
  hold_expires_at = none;
  confirmed_at = some 10;
  price_snapshot = 20;
  payment_mode_snapshot = full;
  amount_due = 20;
  cancelled_at = none;
  refund_amount = 0;
  refunded_at = none;
}

abbrev store : Store
store = record {
  bank = record { users = 5 ∷ []; wallets = []; transactions = [] };
  shop = shop;
  diary = record {
    services = [];
    specialists = [];
    schedules = [];
    day_offs = [];
    time_offs = [];
    reservations = (30, appointment) ∷ [];
  };
  cards = [];
  commissions = [];
  payments = [];
  gateways = [];
  notices = [];
}

abbrev call : RefundCall
call = record { now = 100; new_wallet = 11 }

abbrev after : Store
after = (cancel_reservation call 5 30 store).1

cancels : cancel_reservation call 5 30 store ≡ (ok cancelled_now, after)
unfolding cancel_reservation lookup asoud_backend_full.Table.append
cancels = refl

ledger_after :
    after.bank.transactions
    ≡ record {
      user = 5;
      from_wallet = 11;
      to_wallet = some 11;
      action = appointment_refund 30;
      amount = 20;
    }
      ∷ []
unfolding cancel_reservation lookup asoud_backend_full.Table.append
ledger_after = refl

stored : lookup 30 store.diary.reservations ≡ some appointment
unfolding lookup
stored = refl

cancel_refunds_once_example :
    (holdings after.bank ≡ holdings store.bank + refund_due appointment)
    × (cancel_reservation call 6 30 after ≡ (ok not_found, after))
cancel_refunds_once_example =
    cancel_refunds_once call call 5 6 30 appointment store after stored cancels
