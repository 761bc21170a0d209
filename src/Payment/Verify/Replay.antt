-- ===== src/Payment/Verify/Replay.antt =====
-- A payment is processed once, however often the gateway calls back.
use asoud_backend_full.Payment.Rows.{Store}
use asoud_backend_full.Payment.Verify.{
  Answer, Outcome, successful, GatewayStatus, no_status, status_ok, other_status, is_complete,
  find_authority, verify_locked, verify_block, verify_request, verify, caught_by_verify,
}
use asoud_backend_full.Prelude.{
  ℕ, ◌≡◌, refl, ap, Bool, true, false, not, ◌&&◌, arith, ◌==◌, inl, inr, Bool-cases, Option-cases,
}
use asoud_backend_full.Exec.{
  constraint_error, membership, pair_eq, integrity, does_not_exist, value_error, type_error,
  attribute_error, data_error, Result, ok, err, Model, user_model, wallet_model, order_model,
  product_model, affiliate_model, discount_model, market_model, card_model, reservation_model,
  specialist_model, service_model, payment_model, zarinpal_model, shipping_model, atomic,
  atomic-eq-ok,
}
use asoud_backend_full.Table.{lookup}
use asoud_backend_full.Payment.Verify.Settled.{IsSettled, verify_locked-IsSettled}

verify_block-IsSettled :
    (now : ℕ) (configured accepted : Bool) (answer : Answer) (authority : ℕ) (s t : Store)
    → verify_block now configured accepted answer authority s ≡ (ok successful, t)
    → IsSettled authority t
unfolding verify_block
verify_block-IsSettled now configured accepted answer authority s t h =
    elim (Option-cases (find_authority authority s.gateways)) [
      | inl missing ↦ absurd (ground (arith, rw missing at h))
      | inr ((id, z), hz) ↦ elim (Option-cases (lookup z.payment s.payments)) [
        | inl missing ↦ absurd (ground (arith, rw (hz, missing) at h))
        | inr (p, hp) ↦
            verify_locked-IsSettled now authority id z p s t hz hp configured accepted answer
              (rw (hz, hp) at h)
      ]
    ]

-- A settled payment is left alone.
settled_stays :
    (now : ℕ) (configured accepted : Bool) (answer : Answer) (authority : ℕ) (t : Store)
    → IsSettled authority t
    → (verify_request now configured accepted answer authority t).1 ≡ t
unfolding verify_request verify_block verify_locked
settled_stays now configured accepted answer authority t k =
    rw (k.session_found, k.payment_found)
      (elim (Bool-cases (not (k.session.transaction_id == 0) && is_complete k.payment.status)) [
        | inl e ↦ rw e refl
        | inr e ↦ rw (e, k.is_complete) refl
      ])

missing-caught :
    (m : Model)
    → caught_by_verify (err (does_not_exist m)) ≡ ok successful
    → err (does_not_exist m) ≡ ok successful
missing-caught user_model h = cc
missing-caught wallet_model h = cc
missing-caught order_model h = cc
missing-caught product_model h = cc
missing-caught affiliate_model h = cc
missing-caught discount_model h = cc
missing-caught market_model h = cc
missing-caught card_model h = cc
missing-caught reservation_model h = cc
missing-caught specialist_model h = cc
missing-caught service_model h = cc
missing-caught payment_model h = cc
missing-caught zarinpal_model h = cc
missing-caught shipping_model h = cc

caught-successful : (r : Result Outcome) → caught_by_verify r ≡ ok successful → r ≡ ok successful
caught-successful (ok o) h = h
caught-successful (err (does_not_exist m)) h = missing-caught m h
caught-successful (err (integrity code)) h = cc
caught-successful (err value_error) h = cc
caught-successful (err type_error) h = cc
caught-successful (err attribute_error) h = cc
caught-successful (err data_error) h = cc
caught-successful (err constraint_error) h = cc
caught-successful (err (membership code)) h = cc

verify_request-IsSettled :
    (now : ℕ) (configured accepted : Bool) (answer : Answer) (authority : ℕ) (s t : Store)
    → verify_request now configured accepted answer authority s ≡ (ok successful, t)
    → IsSettled authority t
unfolding verify_request
verify_request-IsSettled now configured accepted answer authority s t h =
    let block = verify_block now configured accepted answer authority in
    let passed : (atomic block s).0 ≡ ok successful =
      caught-successful (atomic block s).0 (ap (λ (r : Result Outcome × Store). r.0) h) in
    let run : atomic block s ≡ (ok successful, t) =
      pair_eq (atomic block s) (ok successful) t passed
        (ap (λ (r : Result Outcome × Store). r.1) h) in
    verify_block-IsSettled now configured accepted answer authority s t
      (atomic-eq-ok block s successful t run)

verify-IsSettled :
    (now : ℕ) (configured : Bool) (status : GatewayStatus) (answer : Answer) (authority : ℕ)
    (s t : Store)
    → verify now configured status answer authority s ≡ (ok successful, t)
    → IsSettled authority t
unfolding verify
verify-IsSettled now configured no_status answer authority s t h = absurd (cc)
verify-IsSettled now configured status_ok answer authority s t h =
    elim (Bool-cases (authority == 0)) [
      | inl e ↦ absurd (ground (arith, rw e at h))
      | inr e ↦ verify_request-IsSettled now configured true answer authority s t (rw e at h)
    ]
verify-IsSettled now configured other_status answer authority s t h =
    elim (Bool-cases (authority == 0)) [
      | inl e ↦ absurd (ground (arith, rw e at h))
      | inr e ↦ verify_request-IsSettled now configured false answer authority s t (rw e at h)
    ]

verify_settled :
    (now : ℕ) (configured : Bool) (status : GatewayStatus) (answer : Answer) (authority : ℕ)
    (t : Store)
    → IsSettled authority t
    → (verify now configured status answer authority t).1 ≡ t
unfolding verify
verify_settled now configured no_status answer authority t k = refl
verify_settled now configured status_ok answer authority t k = elim (Bool-cases (authority == 0)) [
  | inl e ↦ rw e refl
  | inr e ↦ rw e (settled_stays now configured true answer authority t k)
]
verify_settled now configured other_status answer authority t k =
    elim (Bool-cases (authority == 0)) [
      | inl e ↦ rw e refl
      | inr e ↦ rw e (settled_stays now configured false answer authority t k)
    ]

-- A payment is processed once: after a verification that succeeded, whatever the gateway and the
-- callback say, verifying the session again changes nothing at all.
pub verify_once :
    (now later : ℕ) (configured configured' : Bool) (status status' : GatewayStatus)
    (answer answer' : Answer) (authority : ℕ) (s t : Store)
    → verify now configured status answer authority s ≡ (ok successful, t)
    → (verify later configured' status' answer' authority t).1 ≡ t
verify_once now later configured configured' status status' answer answer' authority s t h =
    verify_settled later configured' status' answer' authority t
      (verify-IsSettled now configured status answer authority s t h)
