-- ===== src/Payment/Verify/Settled.antt =====
-- A verification that succeeds leaves the session found and its payment complete.
use asoud_backend_full.Payment.Rows.{
  Payment, PaymentStatus, complete, failed, canceled, Zarinpal, other_data, Store,
}
use asoud_backend_full.Payment.Processing.{
  payment_process, process_target, is_pending, release_order,
}
use asoud_backend_full.Payment.Verify.{
  Answer, answered, unreachable, unreadable, successful, VerifiedAmount, Decline,
  verification_failed, canceled_at_gateway, is_verified_code, is_complete, is_current,
  find_authority, save_payment, save_gateway, close_payment, check_amount, settle_payment,
  settle_checked, settle_reference, take_answer, verify_pending, verify_locked,
}
use asoud_backend_full.Prelude.{
  ℕ, ◌≡◌, ◌≢◌, refl, sym, ap, Bool, not, ◌&&◌, Option, none, some, [], ◌∷◌, arith, ◌==◌, ==_iff,
  inl, inr, Bool-cases, Option-cases,
}
use asoud_backend_full.Exec.{ok, ended}
use asoud_backend_full.Table.{Table, lookup, update, lookup-update_self}
use asoud_backend_full.Payment.Verify.Frames.{process_target-same}

find_authority-update :
    (authority id : ℕ) (z w : Zarinpal) (rows : Table Zarinpal)
    → w.authority ≡ authority
    → find_authority authority rows ≡ some (id, z)
    → find_authority authority (update id w rows) ≡ some (id, w)
unfolding find_authority update
find_authority-update authority id z w [] same h = absurd (cc)
find_authority-update authority id z w ((j, x) ∷ rows) same h =
    let ours = (==_iff w.authority authority).1 same in
    elim (Bool-cases (x.authority == authority)) [
      | inl e ↦ let here : j ≡ id = ground arith in rw ((==_iff id j).1 (sym here), ours, here) refl
      | inr e ↦ elim (Bool-cases (id == j)) [
        | inl found ↦ rw (found, ours) (ap (λ (k : ℕ). some (k, w)) (sym ((==_iff id j).0 found)))
        | inr other ↦ rw (other, e) (find_authority-update authority id z w rows same (rw e at h))
      ]
    ]

find_authority-authority :
    (authority id : ℕ) (z : Zarinpal) (rows : Table Zarinpal)
    → find_authority authority rows ≡ some (id, z)
    → z.authority ≡ authority
unfolding find_authority
find_authority-authority authority id z [] h = absurd (cc)
find_authority-authority authority id z ((j, x) ∷ rows) h =
    ground (arith, find_authority-authority authority id z rows)

-- What the tables hold once a payment is settled.
pub record IsSettled (authority : ℕ) (t : Store) : Type 0 where
  pub id : ℕ
  pub session : Zarinpal
  pub payment : Payment
  pub session_found : find_authority authority t.gateways ≡ some (id, session)
  pub payment_found : lookup session.payment t.payments ≡ some payment
  pub is_complete : payment.status ≡ complete

pub settle_payment-IsSettled :
    (now authority id : ℕ) (z : Zarinpal) (p : Payment) (reference : ℕ) (s t : Store)
    → find_authority authority s.gateways ≡ some (id, z)
    → lookup z.payment s.payments ≡ some p
    → settle_payment now id z p reference s ≡ (ok successful, t)
    → IsSettled authority t
unfolding settle_payment payment_process save_payment save_gateway
settle_payment-IsSettled now authority id z p reference s t hz hp h =
    let same = process_target-same now p p.target_content_type s in
    elim (ended (process_target now p p.target_content_type s)) [
      | inl (e, raised) ↦ absurd (ground arith)
      | inr (_, passed) ↦
          let u = (process_target now p p.target_content_type s).1 in
          let w = record z { transaction_id = reference; verification_data = other_data } in
          let q = record p { status = complete } in
          let gateways : t.gateways ≡ update id w u.gateways = ground arith in
          let payments : t.payments ≡ update z.payment q u.payments = ground arith in
          record {
            id = id;
            session = w;
            payment = q;
            session_found = rw gateways (
                find_authority-update authority id z w u.gateways
                  (find_authority-authority authority id z s.gateways hz) (rw same.1 at hz));
            payment_found =
                rw payments (lookup-update_self z.payment q u.payments p (rw same.0 at hp));
            is_complete = refl;
          }
    ]

-- Closing a payment is no success.
close_payment_fails :
    (id : ℕ) (p : Payment) (status : PaymentStatus) (reason : Decline) (s t : Store)
    → close_payment id p status reason s ≢ (ok successful, t)
unfolding close_payment save_payment
close_payment_fails id p status reason s t h =
    elim (ended (
      release_order id (record p { status = status })
        (record s { payments = update id (record p { status = status }) s.payments }))) [
          | inl (e, raised) ↦ ground arith
          | inr (_, released) ↦ ground arith
        ]

module _ (now authority id : ℕ) (z : Zarinpal) (p : Payment) (s t : Store)
    (hz : find_authority authority s.gateways ≡ some (id, z))
    (hp : lookup z.payment s.payments ≡ some p) where
  settle_reference-IsSettled :
      (reference : Option ℕ) (amount : VerifiedAmount)
      → settle_reference now id z p reference amount s ≡ (ok successful, t)
      → IsSettled authority t
  unfolding settle_reference settle_checked
  settle_reference-IsSettled none amount h = absurd (cc)
  settle_reference-IsSettled (some reference) amount h =
      elim (Option-cases (check_amount amount p.amount)) [
        | inl fits ↦
            settle_payment-IsSettled now authority id z p reference s t hz hp (rw fits at h)
        | inr (reason, e) ↦ absurd (ground (arith, rw e at h))
      ]

  take_answer-IsSettled :
      (answer : Answer)
      → take_answer now id z p answer s ≡ (ok successful, t)
      → IsSettled authority t
  unfolding take_answer
  take_answer-IsSettled unreachable h = absurd (cc)
  take_answer-IsSettled unreadable h = absurd (cc)
  take_answer-IsSettled (answered code reference amount) h =
      elim (Bool-cases (is_verified_code code)) [
        | inl e ↦ settle_reference-IsSettled reference amount (rw e at h)
        | inr e ↦
            absurd (close_payment_fails z.payment p failed verification_failed s t (rw e at h))
      ]

  -- Of all answers only a settled one makes `verify` successful.
  pub verify_locked-IsSettled :
      (configured accepted : Bool) (answer : Answer)
      → verify_locked now configured accepted answer id z p s ≡ (ok successful, t)
      → IsSettled authority t
  unfolding verify_locked verify_pending
  verify_locked-IsSettled configured accepted answer h =
      elim (Bool-cases (not (z.transaction_id == 0) && is_complete p.status)) [
        | inl e ↦ absurd (ground (arith, rw e at h))
        | inr e1 ↦ elim (Bool-cases (is_pending p.status)) [
          | inr e ↦ absurd (ground (arith, rw (e1, e) at h))
          | inl e2 ↦ elim (Bool-cases (is_current z.verification_data)) [
            | inr e ↦ absurd (ground (arith, rw (e1, e2, e) at h))
            | inl e3 ↦ elim (Bool-cases accepted) [
              | inr e ↦ absurd (
                  close_payment_fails z.payment p canceled canceled_at_gateway s t
                    (rw (e1, e2, e3, e) at h))
              | inl e4 ↦ elim (Bool-cases configured) [
                | inr e ↦ absurd (ground (arith, rw (e1, e2, e3, e4, e) at h))
                | inl e5 ↦ take_answer-IsSettled answer (rw (e1, e2, e3, e4, e5) at h)
              ]
            ]
          ]
        ]
      ]
