-- ===== src/Payment/Pay/Attach.antt =====
-- What `pay` leaves once the gateway has answered, or has not.
use asoud_backend_full.Payment.Rows.{
  Payment, failed, TargetModel, wallet_target, order_target, market_target, card_target,
  reservation_target, other_target, Zarinpal, Store, in_shop,
}
use asoud_backend_full.Payment.Processing.{
  is_pending, processing_order, release_hold, fail_order, release_target, release_order,
  is_other_pending,
}
use asoud_backend_full.Payment.Verify.{save_payment, save_gateway, is_gateway_taken}
use asoud_backend_full.Payment.Verify.Frames.{SameSessions}
use asoud_backend_full.Payment.Sessions.{
  Opening, stopped, resumed, session_not_created, session_not_pending, authority_conflict,
}
use asoud_backend_full.Payment.Pay.{
  close_pending, fail_session, keep_authority, save_authority, attach_answer,
}
use asoud_backend_full.Cart.Rows.{OrderStatus}
use asoud_backend_full.Cart.Inventory.{release_order_inventory}
use asoud_backend_full.Cart.Pricing.{save_order}
use asoud_backend_full.Reserve.Slots.{is_held}
use asoud_backend_full.Prelude.{
  ℕ, ◌≡◌, ◌≢◌, refl, ap, ◌∙◌, ◌⊎◌, inl, inr, true, false, not, ◌&&◌, Option, none, some, ◌==◌,
  ==_iff, arith, any, Bool-cases, Option-cases,
}
use asoud_backend_full.Exec.{ok, bind-eq-ok, bind-keeps, atomic-eq-ok}
use asoud_backend_full.Table.{lookup, update, lookup-update_self}

SameSessions-trans : (s t u : Store) → SameSessions s t → SameSessions t u → SameSessions s u
SameSessions-trans s t u h k = (h.0 ∙ k.0, h.1 ∙ k.1)

release_hold-same : (user id : ℕ) (s : Store) → SameSessions s (release_hold user id s).1
unfolding release_hold
release_hold-same user id s = elim (Option-cases (lookup id s.diary.reservations)) [
  | inl e ↦ rw (e, release_hold) (refl, refl)
  | inr (r, e) ↦ elim (Bool-cases (r.user == user && (is_held r.status && not r.is_paid))) [
    | inl holds ↦ rw (e, holds, release_hold) (refl, refl)
    | inr fails ↦ rw (e, fails, release_hold) (refl, refl)
  ]
]

fail_order-same : (user id : ℕ) (s : Store) → SameSessions s (fail_order user id s).1
unfolding fail_order save_order
fail_order-same user id s = elim (Option-cases (processing_order user id s)) [
  | inl e ↦ rw (e, fail_order) (refl, refl)
  | inr (order, e) ↦
      rw (e, fail_order)
        (bind-keeps SameSessions SameSessions-trans (in_shop (release_order_inventory true id))
          (λ row. in_shop (save_order id (record row { status = OrderStatus.failed })))
          (λ s. (refl, refl)) (λ row s. (refl, refl)) s)
]

release_target-same :
    (id : ℕ) (p : Payment) (model : Option TargetModel) (s : Store)
    → SameSessions s (release_target id p model s).1
unfolding release_target
release_target-same id p none s = (refl, refl)
release_target-same id p (some wallet_target) s = (refl, refl)
release_target-same id p (some market_target) s = (refl, refl)
release_target-same id p (some card_target) s = (refl, refl)
release_target-same id p (some other_target) s = (refl, refl)
release_target-same id p (some reservation_target) s = release_hold-same p.user p.target_id s
release_target-same id p (some order_target) s =
    elim (Bool-cases (any (is_other_pending id p) s.payments)) [
      | inl others ↦ rw others (refl, refl)
      | inr alone ↦ rw alone (fail_order-same p.user p.target_id s)
    ]

release_order-same : (id : ℕ) (p : Payment) (s : Store) → SameSessions s (release_order id p s).1
unfolding release_order
release_order-same id p s = release_target-same id p p.target_content_type s

-- The payment is there, and is not pending.
abbrev pub IsClosed : ℕ → Store → Type 0
IsClosed id t = (p : Payment) × (lookup id t.payments ≡ some p) × (is_pending p.status ≡ false)

close_pending-IsClosed :
    (id : ℕ) (p : Payment) (s t : Store)
    → lookup id s.payments ≡ some p
    → close_pending id p s ≡ (ok tt, t)
    → IsClosed id t
unfolding close_pending save_payment
close_pending-IsClosed id p s t found h = elim (Bool-cases (is_pending p.status)) [
  | inl open_payment ↦
      let q : Payment = record p { status = failed } in
      let u : Store = record s { payments = update id q s.payments } in
      let run : release_order id q u ≡ (ok tt, t) = rw open_payment at h in
      let ends : (release_order id q u).1 ≡ t = cc in
      let same : update id q s.payments ≡ t.payments =
        (release_order-same id q u).0 ∙ ap (λ (v : Store). v.payments) ends in
      (q, rw same at (lookup-update_self id q s.payments p found), refl)
  | inr closed ↦ let here : s ≡ t = cc (rw closed at h) in (p, rw⁻¹ here found, closed)
]

-- How the second transaction of `pay` can end that finds the payment and its session. It stops
-- where the payment was closed meanwhile, or where the session has another authority, with all rows
-- as they were; else the session has the authority now, and nothing else is changed.
abbrev pub Attached : ℕ → ℕ → Payment → Zarinpal → Opening → Store → Store → Type 0
Attached id authority p z out s t =
    ((is_pending p.status ≡ false) × (out ≡ stopped session_not_pending) × (t ≡ s))
    ⊎ ((is_pending p.status ≡ true)
        × (z.authority ≢ 0)
        × (z.authority ≢ authority)
        × (out ≡ stopped authority_conflict)
        × (t ≡ s))
    ⊎ ((is_pending p.status ≡ true)
        × ((z.authority ≡ 0) ⊎ (z.authority ≡ authority))
        × (out ≡ resumed id)
        × (t ≡ record s { gateways = update id (record z { authority = authority }) s.gateways }))

fail_session_closes :
    (payment : ℕ) (s t : Store) (out : Opening)
    → fail_session payment s ≡ (ok out, t)
    → (out ≡ stopped session_not_created) × IsClosed payment t
unfolding fail_session
fail_session_closes payment s t out h = elim (Option-cases (lookup payment s.payments)) [
  | inl e ↦ absurd (cc (rw (e) at h))
  | inr (p, e) ↦
      let run = rw e at h in
      let (_, u, closed, ends) =
        bind-eq-ok (close_pending payment p)
          (λ _. λ (v : Store). (ok (stopped session_not_created), v)) s out t run in
      let here : u ≡ t = cc in (cc, rw here at (close_pending-IsClosed payment p s u e closed))
]

is_empty_or_same : (a b : ℕ) → (not (a == 0) && not (a == b)) ≡ false → (a ≡ 0) ⊎ (a ≡ b)
is_empty_or_same a b h = elim (Bool-cases (a == 0)) [
  | inl e ↦ inl ((==_iff a 0).0 e)
  | inr e ↦ elim (Bool-cases (a == b)) [
    | inl same ↦ inr ((==_iff a b).0 same)
    | inr other ↦ absurd (cc (rw (e, other) at h))
  ]
]

save_gateway-eq-ok :
    (id : ℕ) (z : Zarinpal) (s t : Store)
    → save_gateway id z s ≡ (ok tt, t)
    → t ≡ record s { gateways = update id z s.gateways }
unfolding save_gateway
save_gateway-eq-ok id z s t h = elim (Bool-cases (is_gateway_taken id z s.gateways)) [
  | inl taken ↦ absurd (cc (rw taken at h))
  | inr unique ↦ cc (rw unique at h)
]

keep_authority-Attached :
    (id authority : ℕ) (z : Zarinpal) (p : Payment) (s t : Store) (out : Opening)
    → keep_authority id z authority p s ≡ (ok out, t)
    → Attached id authority p z out s t
unfolding keep_authority
keep_authority-Attached id authority z p s t out h = elim (Bool-cases (is_pending p.status)) [
  | inr closed ↦ let run = rw closed at h in inl (closed, cc, cc)
  | inl live ↦ elim (Bool-cases (not (z.authority == 0) && not (z.authority == authority))) [
    | inl conflict ↦
        let run = rw (live, conflict) at h in
        inr (inl (live, (λ e. ground arith), (λ e. ground arith), cc, cc))
    | inr agrees ↦
        let w : Zarinpal = record z { authority = authority } in
        let (_, u, saved, ends) =
          bind-eq-ok (save_gateway id w) (λ _. λ (v : Store). (ok (resumed id), v)) s out t
            (rw (live, agrees) at h) in
        let same : u ≡ t = cc in
        inr (
          inr (
            live,
            is_empty_or_same z.authority authority agrees,
            cc,
            rw same at (save_gateway-eq-ok id w s u saved),
          ))
  ]
]

-- The payment and the session are there, and the transaction ended as they have it.
abbrev pub IsAttached : ℕ → ℕ → ℕ → Opening → Store → Store → Type 0
IsAttached payment id authority out s t =
    (p : Payment) × (z : Zarinpal) × (lookup payment s.payments ≡ some p)
    × (lookup id s.gateways ≡ some z)
    × Attached id authority p z out s t

save_authority-IsAttached :
    (payment id authority : ℕ) (s t : Store) (out : Opening)
    → save_authority payment id authority s ≡ (ok out, t)
    → IsAttached payment id authority out s t
unfolding save_authority
save_authority-IsAttached payment id authority s t out h =
    elim (Option-cases (lookup id s.gateways)) [
      | inl e ↦ absurd (cc (rw e at h))
      | inr (z, row) ↦ elim (Option-cases (lookup payment s.payments)) [
        | inl e ↦ absurd (cc (rw (row, e) at h))
        | inr (p, found) ↦ (
          p,
          z,
          found,
          row,
          keep_authority-Attached id authority z p s t out (rw (row, found) at h),
        )
      ]
    ]

-- How the second transaction of `pay` ends where it returns. Where the gateway gave no authority,
-- or an empty one, the payment is closed and no session is answered. Else it answers with the
-- session, and stores the authority in it and nothing else, if the payment is still pending and the
-- session has no other authority; and if the payment was closed meanwhile, or the session has
-- another authority, it answers so, and nothing is changed.
pub attach_answer_outcome :
    (payment id : ℕ) (answer : Option ℕ) (s t : Store) (out : Opening)
    → attach_answer payment id answer s ≡ (ok out, t)
    → (((answer ≡ none) ⊎ (answer ≡ some 0))
        × (out ≡ stopped session_not_created)
        × IsClosed payment t)
      ⊎ ((authority : ℕ) × (answer ≡ some authority)
          × (authority ≢ 0)
          × IsAttached payment id authority out s t)
unfolding attach_answer
attach_answer_outcome payment id none s t out h =
    let ends =
      fail_session_closes payment s t out (atomic-eq-ok (fail_session payment) s out t h) in
    inl (inl refl, ends.0, ends.1)
attach_answer_outcome payment id (some authority) s t out h = elim (Bool-cases (authority == 0)) [
  | inl empty ↦
      let run = atomic-eq-ok (fail_session payment) s out t (rw empty at h) in
      let ends = fail_session_closes payment s t out run in
      inl (inr (ap some ((==_iff authority 0).0 empty)), ends.0, ends.1)
  | inr given ↦
      let run = atomic-eq-ok (save_authority payment id authority) s out t (rw given at h) in
      inr (
        authority,
        refl,
        (λ e. ground arith),
        save_authority-IsAttached payment id authority s t out run,
      )
]
