-- ===== src/Payment/Reconcile/Tests.antt =====
-- Two stale sessions: the gateway knows of the one, and the other has no authority.
use asoud_backend_full.Payment.Rows.{
  Payment, pending, wallet_target, Zarinpal, current_version, Store,
}
use asoud_backend_full.Payment.Verify.{Answer, answered, absent}
use asoud_backend_full.Payment.Reconcile.{Tally, stale_sessions, reconcile}
use asoud_backend_full.Payment.Reconcile.Counts.{
  Ending, completes, releases, stays, asks, Reconciled, reconcile_counts,
}
use asoud_backend_full.Cart.Sample.{shop}
use asoud_backend_full.Prelude.{List, sum_of, ◌≤◌, ◌≡◌, refl, true, some, [], ◌∷◌, length}
use asoud_backend_full.Prelude.Int.{pos}
use asoud_backend_full.Exec.{ok, pair_eq}

abbrev payment : Payment
payment = record {
  user = 1;
  amount = 100;
  target_content_type = some wallet_target;
  target_id = 10;
  status = pending;
  created_at = 50;
}

abbrev session : Zarinpal
session = record {
  payment = 60;
  authority = 77;
  transaction_id = 0;
  verification_data = current_version;
}

abbrev store : Store
store = record {
  bank = record {
    users = 1 ∷ [];
    wallets = (10, record { user = 1; balance = 30 }) ∷ [];
    transactions = [];
  };
  shop = shop;
  diary = record {
    services = [];
    specialists = [];
    schedules = [];
    day_offs = [];
    time_offs = [];
    reservations = [];
  };
  cards = [];
  commissions = [];
  payments =
      (60, payment)
      ∷ (62, record payment { created_at = 40 })
      ∷ (64, record payment { created_at = 300 })
      ∷ [];
  gateways = (61, session) ∷ (63, record session { payment = 62; authority = 0 }) ∷ [];
  notices = [];
}

stale_first : stale_sessions 200 9 store.payments ≡ 62 ∷ 60 ∷ []
unfolding stale_sessions
stale_first = refl

abbrev refusing : Answer
refusing = answered (pos 54) (some 5) absent

abbrev tally : Tally
tally = record { checked = 1; completed = 0; released = 1; ambiguous = 1 }

abbrev after : Store
after = (reconcile 900 true (λ _. refusing) 200 9 store).1

reconciled : (reconcile 900 true (λ _. refusing) 200 9 store).0 ≡ ok tally
unfolding reconcile asoud_backend_full.Table.lookup asoud_backend_full.Payment.Verify.verify
    asoud_backend_full.Payment.Processing.release_order asoud_backend_full.Table.update
reconciled = refl

reconcile_counts_example :
    (length (stale_sessions 200 9 store.payments) ≤ 9)
    × ((es : List Ending) × Reconciled 900 true
          (λ _. refusing)
          (stale_sessions 200 9 store.payments)
          es
          store
          after
        × (tally.completed ≡ sum_of completes es)
        × (tally.released ≡ sum_of releases es)
        × (tally.ambiguous ≡ sum_of stays es)
        × (tally.checked ≡ sum_of asks es))
reconcile_counts_example =
    reconcile_counts 900 true (λ _. refusing) 200 9 store after tally
      (pair_eq (reconcile 900 true (λ _. refusing) 200 9 store) (ok tally) after reconciled refl)
