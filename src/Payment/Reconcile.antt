-- ===== src/Payment/Reconcile.antt =====
-- `reconcile_stale_payment_sessions` of apps/payment/core.py. The gateway's answer for each
-- authority is an argument.
pub mod Counts
mod Tests
use asoud_backend_full.Payment.Rows.{
  Payment, PaymentStatus, pending, complete, failed, canceled, Zarinpal, Store,
}
use asoud_backend_full.Payment.Processing.{is_pending}
use asoud_backend_full.Payment.Verify.{Answer, status_ok, verify}
use asoud_backend_full.Payment.Sessions.{gateway_of}
use asoud_backend_full.Prelude.{
  ℕ, ◌+◌, Bool, ◌&&◌, Option, none, some, List, [], ◌∷◌, leb, ltb, ◌==◌, take, if◌then◌else◌,
}
use asoud_backend_full.Exec.{
  Exec, ok, does_not_exist, payment_model, pure, or_raise, gets, ◌>>=◌, ◌>>◌,
}
use asoud_backend_full.Table.{Table, lookup, keys}

-- The `result` that counts the sessions.
pub record Tally : Type 0 where
  pub checked : ℕ
  pub completed : ℕ
  pub released : ℕ
  pub ambiguous : ℕ

unfoldable pub is_stale : ℕ → Payment → Bool
is_stale cutoff p = is_pending p.status && ltb p.created_at cutoff

-- `order_by('created_at')`
unfoldable pub insert_by_time : ℕ → Payment → Table Payment → Table Payment
insert_by_time id p [] = (id, p) ∷ []
insert_by_time id p ((k, q) ∷ rows) =
    if leb p.created_at q.created_at
    then (id, p) ∷ (k, q) ∷ rows
    else (k, q) ∷ insert_by_time id p rows

unfoldable pub sort_by_time : Table Payment → Table Payment
unfolding insert_by_time
sort_by_time [] = []
sort_by_time ((id, p) ∷ rows) = insert_by_time id p (sort_by_time rows)

unfoldable pub stale_payments : ℕ → Table Payment → Table Payment
unfolding is_stale
stale_payments cutoff [] = []
stale_payments cutoff ((id, p) ∷ rows) =
    let rest = stale_payments cutoff rows in if is_stale cutoff p then (id, p) ∷ rest else rest

-- `session_ids`
unfoldable pub stale_sessions : ℕ → ℕ → Table Payment → List ℕ
unfolding sort_by_time stale_payments
stale_sessions cutoff limit payments =
    take limit (keys (sort_by_time (stale_payments cutoff payments)))

unfoldable pub tally_status : PaymentStatus → Tally → Tally
tally_status complete t = record t { checked = t.checked + 1; completed = t.completed + 1 }
tally_status failed t = record t { checked = t.checked + 1; released = t.released + 1 }
tally_status canceled t = record t { checked = t.checked + 1; released = t.released + 1 }
tally_status pending t = record t { checked = t.checked + 1; ambiguous = t.ambiguous + 1 }

unfoldable pub ambiguous_session : Tally → Tally
ambiguous_session t = record t { ambiguous = t.ambiguous + 1 }

-- `payment.refresh_from_db()` and what its status counts as.
unfoldable pub tally_payment : ℕ → Tally → Exec Store Tally
unfolding tally_status
tally_payment id t = do
  found ← gets (λ s. lookup id s.payments)
  p ← or_raise found (does_not_exist payment_model)
  pure (tally_status p.status t)

-- A session without an authority is left alone.
unfoldable pub check_session :
    ℕ → Bool → (ℕ → Answer) → ℕ → Tally → Option (ℕ × Zarinpal) → Exec Store Tally
unfolding tally_payment ambiguous_session
check_session now configured answers id t none s = (ok (ambiguous_session t), s)
check_session now configured answers id t (some (_, z)) s =
    if z.authority == 0
    then (ok (ambiguous_session t), s)
    else (verify now configured status_ok (answers z.authority) z.authority >> tally_payment id t) s

unfoldable pub reconcile_session : ℕ → Bool → (ℕ → Answer) → ℕ → Tally → Exec Store Tally
unfolding gateway_of check_session
reconcile_session now configured answers id t = do
  found ← gets (λ s. lookup id s.payments)
  or_raise found (does_not_exist payment_model)
  gateway ← gets (λ s. gateway_of id s.gateways)
  check_session now configured answers id t gateway

unfoldable pub reconcile_sessions : ℕ → Bool → (ℕ → Answer) → List ℕ → Tally → Exec Store Tally
unfolding reconcile_session
reconcile_sessions now configured answers [] t = pure t
reconcile_sessions now configured answers (id ∷ ids) t =
    reconcile_session now configured answers id t >>= reconcile_sessions now configured answers ids

unfoldable pub reconcile : ℕ → Bool → (ℕ → Answer) → ℕ → ℕ → Exec Store Tally
unfolding stale_sessions reconcile_sessions
reconcile now configured answers cutoff limit s =
    reconcile_sessions now configured answers (stale_sessions cutoff limit s.payments)
      (record { checked = 0; completed = 0; released = 0; ambiguous = 0 }) s
