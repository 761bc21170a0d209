-- ===== src/Payment/Verify/Rollback.antt =====
-- A payment whose target cannot be processed leaves no trace.
use asoud_backend_full.Payment.Rows.{Payment, PaymentStatus, failed, canceled, Zarinpal, Store}
use asoud_backend_full.Payment.Processing.{payment_process, is_pending, release_order}
use asoud_backend_full.Payment.Verify.{
  Answer, answered, unreachable, unreadable, Outcome, declined, Decline, processing_failed,
  verification_failed, canceled_at_gateway, GatewayStatus, no_status, status_ok, other_status,
  VerifiedAmount, absent, invalid, read, find_authority, save_payment, save_gateway, close_payment,
  check_amount, differs, settle_payment, settle_checked, settle_reference, take_answer,
  verify_pending, verify_locked, verify_block, verify_request, verify, is_verified_code,
  is_complete, is_current,
}
use asoud_backend_full.Prelude.{
  ℕ, ◌≡◌, ◌≢◌, refl, ap, ◌∙◌, Bool, true, false, not, ◌&&◌, Option, none, some, arith, ◌==◌, inl,
  inr, Bool-cases, Option-cases,
}
use asoud_backend_full.Exec.{Fault, Result, ok, atomic, atomic-err, atomic-eq-ok, ended}
use asoud_backend_full.Table.{lookup, update}

module _ (e : Fault) where
  -- The block itself never reports a failure of the processing.
  abbrev pub IsReported : Result Outcome × Store → Type 0
  IsReported run = run.0 ≡ ok (declined (processing_failed e))

  close_payment_reports :
      (id : ℕ) (p : Payment) (status : PaymentStatus) (reason : Decline) (s : Store)
      → reason ≢ processing_failed e
      → ¬ IsReported (close_payment id p status reason s)
  unfolding close_payment save_payment
  close_payment_reports id p status reason s other h =
      elim (ended (
        release_order id (record p { status = status })
          (record s { payments = update id (record p { status = status }) s.payments }))) [
            | inl (f, raised) ↦ ground arith
            | inr (_, released) ↦ other (ground arith)
          ]

  settle_payment_reports :
      (now id : ℕ) (z : Zarinpal) (p : Payment) (reference : ℕ) (s : Store)
      → ¬ IsReported (settle_payment now id z p reference s)
  unfolding settle_payment save_payment save_gateway
  settle_payment_reports now id z p reference s h = elim (ended (payment_process now p s)) [
    | inl (f, raised) ↦ ground arith
    | inr (_, passed) ↦ ground arith
  ]

  check_amount_reports :
      (amount : VerifiedAmount) (n : ℕ) → check_amount amount n ≢ some (processing_failed e)
  unfolding check_amount
  check_amount_reports absent n h = cc
  check_amount_reports invalid n h = cc
  check_amount_reports (read d) n h = elim (Bool-cases (differs d n)) [
    | inl b ↦ cc (rw b at h)
    | inr b ↦ cc (rw b at h)
  ]

  settle_reference_reports :
      (now id : ℕ) (z : Zarinpal) (p : Payment) (reference : Option ℕ) (amount : VerifiedAmount)
      (s : Store)
      → ¬ IsReported (settle_reference now id z p reference amount s)
  unfolding settle_reference settle_checked
  settle_reference_reports now id z p none amount s h = cc
  settle_reference_reports now id z p (some reference) amount s h =
      elim (Option-cases (check_amount amount p.amount)) [
        | inl fits ↦ settle_payment_reports now id z p reference s (rw fits at h)
        | inr (reason, b) ↦
            let same : reason ≡ processing_failed e = ground (arith, rw b at h) in
            check_amount_reports amount p.amount (rw same at b)
      ]

  take_answer_reports :
      (now id : ℕ) (z : Zarinpal) (p : Payment) (answer : Answer) (s : Store)
      → ¬ IsReported (take_answer now id z p answer s)
  unfolding take_answer
  take_answer_reports now id z p unreachable s h = cc
  take_answer_reports now id z p unreadable s h = cc
  take_answer_reports now id z p (answered code reference amount) s h =
      elim (Bool-cases (is_verified_code code)) [
        | inl b ↦ settle_reference_reports now id z p reference amount s (rw b at h)
        | inr b ↦
            close_payment_reports z.payment p failed verification_failed s (λ q. cc) (rw b at h)
      ]

  verify_locked_reports :
      (now : ℕ) (configured accepted : Bool) (answer : Answer) (id : ℕ) (z : Zarinpal) (p : Payment)
      (s : Store)
      → ¬ IsReported (verify_locked now configured accepted answer id z p s)
  unfolding verify_locked verify_pending
  verify_locked_reports now configured accepted answer id z p s h =
      elim (Bool-cases (not (z.transaction_id == 0) && is_complete p.status)) [
        | inl b ↦ cc (rw b at h)
        | inr e1 ↦ elim (Bool-cases (is_pending p.status)) [
          | inr b ↦ cc (rw (e1, b) at h)
          | inl e2 ↦ elim (Bool-cases (is_current z.verification_data)) [
            | inr b ↦ cc (rw (e1, e2, b) at h)
            | inl e3 ↦ elim (Bool-cases accepted) [
              | inr b ↦
                  close_payment_reports z.payment p canceled canceled_at_gateway s (λ q. cc)
                    (rw (e1, e2, e3, b) at h)
              | inl e4 ↦ elim (Bool-cases configured) [
                | inr b ↦ cc (rw (e1, e2, e3, e4, b) at h)
                | inl e5 ↦ take_answer_reports now id z p answer s (rw (e1, e2, e3, e4, e5) at h)
              ]
            ]
          ]
        ]
      ]

  verify_block_reports :
      (now : ℕ) (configured accepted : Bool) (answer : Answer) (authority : ℕ) (s : Store)
      → ¬ IsReported (verify_block now configured accepted answer authority s)
  unfolding verify_block
  verify_block_reports now configured accepted answer authority s h =
      elim (Option-cases (find_authority authority s.gateways)) [
        | inl missing ↦ cc (rw missing at h)
        | inr ((id, z), hz) ↦ elim (Option-cases (lookup z.payment s.payments)) [
          | inl missing ↦ cc (rw (hz, missing) at h)
          | inr (p, hp) ↦
              verify_locked_reports now configured accepted answer id z p s (rw (hz, hp) at h)
        ]
      ]

  verify_request_reports :
      (now : ℕ) (configured accepted : Bool) (answer : Answer) (authority : ℕ) (s : Store)
      → IsReported (verify_request now configured accepted answer authority s)
      → (verify_request now configured accepted answer authority s).1 ≡ s
  unfolding verify_request
  verify_request_reports now configured accepted answer authority s h =
      let block = verify_block now configured accepted answer authority in
      elim (ended (atomic block s)) [
        | inl (f, raised) ↦ atomic-err block s raised
        | inr (o, returned) ↦
            let zero : (atomic block s).0 ≡ ok o =
              ap (λ (r : Result Outcome × Store). r.0) returned in
            let same : ok o ≡ ok (declined (processing_failed e)) = rw zero at h in
            let first : (block s).0 ≡ ok o =
              ap (λ (r : Result Outcome × Store). r.0)
                (atomic-eq-ok block s o (atomic block s).1 returned) in
            absurd (verify_block_reports now configured accepted answer authority s (first ∙ same))
      ]

-- If the target of a payment that the gateway has verified cannot be processed and `verify`
-- answers so, everything is as before: the payment stays pending, for a later attempt.
pub failed_processing_changes_nothing :
    (e : Fault) (now : ℕ) (configured : Bool) (status : GatewayStatus) (answer : Answer)
    (authority : ℕ) (s : Store)
    → IsReported e (verify now configured status answer authority s)
    → (verify now configured status answer authority s).1 ≡ s
unfolding verify
failed_processing_changes_nothing e now configured no_status answer authority s h = refl
failed_processing_changes_nothing e now configured status_ok answer authority s h =
    elim (Bool-cases (authority == 0)) [
      | inl b ↦ rw b refl
      | inr b ↦ rw b (verify_request_reports e now configured true answer authority s (rw b at h))
    ]
failed_processing_changes_nothing e now configured other_status answer authority s h =
    elim (Bool-cases (authority == 0)) [
      | inl b ↦ rw b refl
      | inr b ↦ rw b (verify_request_reports e now configured false answer authority s (rw b at h))
    ]
