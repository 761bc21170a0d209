-- ===== src/Payment/Reconcile/Counts.antt =====
-- Every stale session is reconciled in turn, and counted by what became of its payment.
use asoud_backend_full.Payment.Rows.{
  Payment, PaymentStatus, pending, complete, failed, canceled, Zarinpal, Store,
}
use asoud_backend_full.Payment.Verify.{Answer, Outcome, status_ok, verify}
use asoud_backend_full.Payment.Sessions.{gateway_of}
use asoud_backend_full.Payment.Reconcile.{
  Tally, stale_sessions, tally_status, ambiguous_session, tally_payment, check_session,
  reconcile_session, reconcile_sessions, reconcile,
}
use asoud_backend_full.Prelude.{
  ℕ, zero, suc, ◌+◌, ◌≤◌, ◌≡◌, ◌≢◌, ◌⊎◌, sum_of, ==_iff, Bool, none, some, List, [], ◌∷◌, arith,
  ◌==◌, length, take, inl, inr, Bool-cases, Option-cases,
}
use asoud_backend_full.Exec.{ok, bind-eq-ok, ◌>>◌}
use asoud_backend_full.Table.{lookup}

-- What became of a session: the status of its payment after the gateway was asked, or nothing.
pub data Ending : Type 0 where
  ended_as : PaymentStatus → Ending
  left_alone : Ending

abbrev pub completes : Ending → ℕ
completes e = elim e [ ended_as complete ↦ 1 | _ ↦ 0 ]

abbrev pub releases : Ending → ℕ
releases e = elim e [ ended_as failed ↦ 1 | ended_as canceled ↦ 1 | _ ↦ 0 ]

abbrev pub stays : Ending → ℕ
stays e = elim e [ ended_as pending ↦ 1 | left_alone ↦ 1 | _ ↦ 0 ]

abbrev pub asks : Ending → ℕ
asks e = elim e [ ended_as _ ↦ 1 | left_alone ↦ 0 ]

-- The session of the payment is missing, or the gateway never gave it an authority.
abbrev pub IsUnknown : ℕ → Store → Type 0
IsUnknown id s =
    (gateway_of id s.gateways ≡ none)
    ⊎ ((k : ℕ) × (z : Zarinpal) × (gateway_of id s.gateways ≡ some (k, z)) × (z.authority ≡ 0))

-- The sessions, what became of each, and the store before and after them.
pub data Reconciled (now : ℕ) (configured : Bool) (answers : ℕ → Answer)
    : List ℕ → List Ending → Store → Store → Type 0 where
  none_left : {s : Store} → Reconciled now configured answers [] [] s s
  unknown :
      {id : ℕ} {ids : List ℕ} {es : List Ending} {s t : Store}
      → IsUnknown id s
      → Reconciled now configured answers ids es s t
      → Reconciled now configured answers (id ∷ ids) (left_alone ∷ es) s t
  asked :
      {id k : ℕ} {z : Zarinpal} {p : Payment} {o : Outcome} {ids : List ℕ} {es : List Ending}
      {s u t : Store}
      → gateway_of id s.gateways ≡ some (k, z)
      → z.authority ≢ 0
      → verify now configured status_ok (answers z.authority) z.authority s ≡ (ok o, u)
      → lookup id u.payments ≡ some p
      → Reconciled now configured answers ids es u t
      → Reconciled now configured answers (id ∷ ids) (ended_as p.status ∷ es) s t

-- The second tally has the endings on top of the first one.
abbrev pub Tallies : Tally → Tally → List Ending → Type 0
Tallies t u es =
    (u.completed ≡ t.completed + sum_of completes es)
    × (u.released ≡ t.released + sum_of releases es)
    × (u.ambiguous ≡ t.ambiguous + sum_of stays es)
    × (u.checked ≡ t.checked + sum_of asks es)

tally_status-Tallies :
    (status : PaymentStatus) (t : Tally) → Tallies t (tally_status status t) (ended_as status ∷ [])
unfolding tally_status
tally_status-Tallies complete t = (omega arith, omega arith, omega arith, omega arith)
tally_status-Tallies failed t = (omega arith, omega arith, omega arith, omega arith)
tally_status-Tallies canceled t = (omega arith, omega arith, omega arith, omega arith)
tally_status-Tallies pending t = (omega arith, omega arith, omega arith, omega arith)

ambiguous_session-Tallies : (t : Tally) → Tallies t (ambiguous_session t) (left_alone ∷ [])
unfolding ambiguous_session
ambiguous_session-Tallies t = (omega arith, omega arith, omega arith, omega arith)

Tallies-cons :
    (t u v : Tally) (e : Ending) (es : List Ending)
    → Tallies t u (e ∷ [])
    → Tallies u v es
    → Tallies t v (e ∷ es)
Tallies-cons t u v e es (a, b, c, d) (a', b', c', d') =
    (omega arith, omega arith, omega arith, omega arith)

tally_payment-eq-ok :
    (id : ℕ) (t u : Tally) (s s' : Store)
    → tally_payment id t s ≡ (ok u, s')
    → (p : Payment) × (lookup id s.payments ≡ some p) × (tally_status p.status t ≡ u) × (s' ≡ s)
unfolding tally_payment
tally_payment-eq-ok id t u s s' h = elim (Option-cases (lookup id s.payments)) [
  | inl e ↦ absurd (cc (rw e at h))
  | inr (p, e) ↦ let run = rw e at h in (p, e, cc, cc)
]

module _ (now : ℕ) (configured : Bool) (answers : ℕ → Answer) where
  -- What one session does: its ending is counted, and it can be put before any others.
  abbrev IsOneEnding : ℕ → Tally → Tally → Store → Store → Type 0
  IsOneEnding id t u s s' =
      (e : Ending) × Tallies t u (e ∷ [])
      × ((ids : List ℕ) (es : List Ending) (w : Store)
          → Reconciled now configured answers ids es s' w
          → Reconciled now configured answers (id ∷ ids) (e ∷ es) s w)

  left_alone-IsOneEnding :
      (id : ℕ) (t u : Tally) (s s' : Store)
      → IsUnknown id s
      → ambiguous_session t ≡ u
      → s' ≡ s
      → IsOneEnding id t u s s'
  left_alone-IsOneEnding id t u s s' h counts same = (
    left_alone,
    rw counts at (ambiguous_session-Tallies t),
    (λ ids es w rest. unknown h (rw same at rest)),
  )

  asked-IsOneEnding :
      (id k : ℕ) (z : Zarinpal) (t u : Tally) (s s' : Store)
      → gateway_of id s.gateways ≡ some (k, z)
      → z.authority ≢ 0
      → (verify now configured status_ok (answers z.authority) z.authority >> tally_payment id t) s
        ≡ (ok u, s')
      → IsOneEnding id t u s s'
  asked-IsOneEnding id k z t u s s' there given h =
      let (o, v, asks_gateway, run) =
        bind-eq-ok (verify now configured status_ok (answers z.authority) z.authority)
          (λ _. tally_payment id t) s u s' h in
      let (p, found, counts, same) = tally_payment-eq-ok id t u v s' run in
      (
        ended_as p.status,
        rw counts at (tally_status-Tallies p.status t),
        (λ ids es w rest. asked there given asks_gateway found (rw same at rest)),
      )

  check_session-IsOneEnding :
      (id : ℕ) (t u : Tally) (s s' : Store)
      → check_session now configured answers id t (gateway_of id s.gateways) s ≡ (ok u, s')
      → IsOneEnding id t u s s'
  unfolding check_session
  check_session-IsOneEnding id t u s s' h = elim (Option-cases (gateway_of id s.gateways)) [
    | inl e ↦
        let run = rw e at h in
        let counts : ambiguous_session t ≡ u = cc in
        let same : s' ≡ s = cc in left_alone-IsOneEnding id t u s s' (inl e) counts same
    | inr ((k, z), e) ↦ elim (Bool-cases (z.authority == 0)) [
      | inl empty ↦
          let run = rw (e, empty) at h in
          let counts : ambiguous_session t ≡ u = cc in
          let same : s' ≡ s = cc in
          left_alone-IsOneEnding id t u s s' (inr (k, z, e, (==_iff z.authority 0).0 empty)) counts
            same
      | inr given ↦ asked-IsOneEnding id k z t u s s' e (λ p. ground arith) (rw (e, given) at h)
    ]
  ]

  reconcile_session-IsOneEnding :
      (id : ℕ) (t u : Tally) (s s' : Store)
      → reconcile_session now configured answers id t s ≡ (ok u, s')
      → IsOneEnding id t u s s'
  unfolding reconcile_session
  reconcile_session-IsOneEnding id t u s s' h = elim (Option-cases (lookup id s.payments)) [
    | inl e ↦ absurd (cc (rw e at h))
    | inr (p, e) ↦ check_session-IsOneEnding id t u s s' (rw e at h)
  ]

  -- The endings of the sessions, in their order, with the tally of them.
  abbrev pub AllEnded : List ℕ → Tally → Tally → Store → Store → Type 0
  AllEnded ids t u s s' =
      (es : List Ending) × Reconciled now configured answers ids es s s' × Tallies t u es

  reconcile_sessions-AllEnded :
      (ids : List ℕ) (t u : Tally) (s s' : Store)
      → reconcile_sessions now configured answers ids t s ≡ (ok u, s')
      → AllEnded ids t u s s'
  unfolding reconcile_sessions
  reconcile_sessions-AllEnded [] t u s s' h =
      let same : t ≡ u = cc in
      let here : s ≡ s' = cc in
      ([], rw here none_left, (rw same (omega arith, omega arith, omega arith, omega arith)))
  reconcile_sessions-AllEnded (id ∷ ids) t u s s' h =
      let (v, w, one, rest) =
        bind-eq-ok (reconcile_session now configured answers id t)
          (reconcile_sessions now configured answers ids) s u s' h in
      let (e, first, before) = reconcile_session-IsOneEnding id t v s w one in
      let (es, run, more) = reconcile_sessions-AllEnded ids v u w s' rest in
      (e ∷ es, before ids es s' run, Tallies-cons t v u e es first more)

length-take_le : {A : Type 0} (n : ℕ) (xs : List A) → length (take n xs) ≤ n
length-take_le zero xs = omega arith
length-take_le (suc n) [] = omega arith
length-take_le (suc n) (x ∷ xs) = omega (arith, length-take_le n xs)

-- A reconciliation that returns has gone once through the sessions that were stale when it began, in
-- their order and at most as many as the limit. A session that is missing or has no authority is
-- left alone; for every other one the gateway is asked by `verify`. The tally has the number of
-- payments that are complete after that, of those that failed or were canceled, of the sessions that
-- stay pending or were left alone, and of those whose gateway was asked.
pub reconcile_counts :
    (now : ℕ) (configured : Bool) (answers : ℕ → Answer) (cutoff limit : ℕ) (s s' : Store)
    (t : Tally)
    → reconcile now configured answers cutoff limit s ≡ (ok t, s')
    → (length (stale_sessions cutoff limit s.payments) ≤ limit)
      × ((es : List Ending) × Reconciled now configured answers
            (stale_sessions cutoff limit s.payments)
            es
            s
            s'
          × (t.completed ≡ sum_of completes es)
          × (t.released ≡ sum_of releases es)
          × (t.ambiguous ≡ sum_of stays es)
          × (t.checked ≡ sum_of asks es))
unfolding reconcile stale_sessions
reconcile_counts now configured answers cutoff limit s s' t h =
    let ids = stale_sessions cutoff limit s.payments in
    let nothing : Tally = record { checked = 0; completed = 0; released = 0; ambiguous = 0 } in
    let (es, run, (a, b, c, d)) =
      reconcile_sessions-AllEnded now configured answers ids nothing t s s' h in
    (
      length-take_le limit _,
      (es, run, omega (arith, a), omega (arith, b), omega (arith, c), omega (arith, d)),
    )
