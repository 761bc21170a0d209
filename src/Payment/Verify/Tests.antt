-- ===== src/Payment/Verify/Tests.antt =====
-- A charge of a wallet by 100 toman, verified once and called back a second time.
use asoud_backend_full.Payment.Rows.{
  Payment, pending, complete, canceled, wallet_target, Zarinpal, current_version, other_data, Store,
}
use asoud_backend_full.Payment.Processing.{payment_process, charge_wallet, release_order}
use asoud_backend_full.Payment.Verify.{
  verify, Answer, answered, unreachable, absent, successful, declined, canceled_at_gateway,
  processing_failed, status_ok, other_status, find_authority,
}
use asoud_backend_full.Payment.Verify.Replay.{verify_once}
use asoud_backend_full.Payment.Verify.Rollback.{failed_processing_changes_nothing}
use asoud_backend_full.Wallet.{Bank, charge, increase_balance}
use asoud_backend_full.Cart.Sample.{shop}
use asoud_backend_full.Reserve.Rows.{Diary}
use asoud_backend_full.Prelude.{◌≡◌, refl, true, some, [], ◌∷◌}
use asoud_backend_full.Prelude.Int.{pos}
use asoud_backend_full.Exec.{err, constraint_error, value_error, ok}
use asoud_backend_full.Table.{lookup, update}
use asoud_backend_full.Money.Normalize.{normalize_money}

abbrev bank : Bank
bank = record {
  users = 1 ∷ [];
  wallets = (10, record { user = 1; balance = 30 }) ∷ [];
  transactions = [];
}

abbrev charged : Bank
charged = record {
  users = 1 ∷ [];
  wallets = (10, record { user = 1; balance = 130 }) ∷ [];
  transactions =
      record { user = 1; from_wallet = 10; to_wallet = some 10; action = charge; amount = 100 }
      ∷ [];
}

abbrev payment : Payment
payment = record {
  user = 1;
  amount = 100;
  target_content_type = some wallet_target;
  target_id = 10;
  status = pending;
  created_at = 0;
}

abbrev session : Zarinpal
session = record {
  payment = 60;
  authority = 77;
  transaction_id = 0;
  verification_data = current_version;
}

abbrev diary : Diary
diary = record {
  services = [];
  specialists = [];
  schedules = [];
  day_offs = [];
  time_offs = [];
  reservations = [];
}

abbrev store : Store
store = record {
  bank = bank;
  shop = shop;
  diary = diary;
  cards = [];
  commissions = [];
  payments = (60, payment) ∷ [];
  gateways = (61, session) ∷ [];
  notices = [];
}

abbrev settled : Store
settled = record store {
  bank = charged;
  payments = (60, record payment { status = complete }) ∷ [];
  gateways = (61, record session { transaction_id = 5; verification_data = other_data }) ∷ [];
}

abbrev verified : Answer
verified = answered (pos 100) (some 5) absent

verify_sample : verify 0 true status_ok verified 77 store ≡ (ok successful, settled)
unfolding verify find_authority lookup payment_process charge_wallet increase_balance
    normalize_money update
verify_sample = refl

-- Another session has the reference already: the row cannot be saved.
repeated_reference_raises :
    (verify 0 true status_ok verified 77 (record store {
      gateways = (61, session) ∷ (63, record session { authority = 9; transaction_id = 5 }) ∷ [];
    })).0
    ≡ err constraint_error
unfolding verify find_authority lookup payment_process charge_wallet increase_balance
    normalize_money update
repeated_reference_raises = refl

cancel_sample : verify 0 true other_status unreachable 77 store ≡ (
  ok (declined canceled_at_gateway),
  record store { payments = (60, record payment { status = canceled }) ∷ [] },
)
unfolding verify find_authority lookup release_order update
cancel_sample = refl

verify_once_example : (verify 9 true other_status unreachable 77 settled).1 ≡ settled
verify_once_example =
    verify_once 0 9 true true status_ok other_status verified unreachable 77 store settled
      verify_sample

-- The wallet of the payment is gone: the charge is refused, and nothing happens.
abbrev orphan : Store
orphan = record store { bank = record { users = 1 ∷ []; wallets = []; transactions = [] } }

orphan_sample :
    (verify 0 true status_ok verified 77 orphan).0 ≡ ok (declined (processing_failed value_error))
unfolding verify find_authority lookup payment_process charge_wallet increase_balance
    normalize_money update
orphan_sample = refl

failed_processing_changes_nothing_example : (verify 0 true status_ok verified 77 orphan).1 ≡ orphan
failed_processing_changes_nothing_example =
    failed_processing_changes_nothing value_error 0 true status_ok verified 77 orphan orphan_sample
