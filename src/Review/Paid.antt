-- ===== src/Review/Paid.antt =====
-- A store is published for a payment.
use asoud_backend_full.Cart.Rows.{Market, not_published, published, needs_editing, is_published}
use asoud_backend_full.Payment.Rows.{Payment, complete, market_target}
use asoud_backend_full.Payment.Processing.{same_model}
use asoud_backend_full.Referral.{ReferralLevel, Referral}
use asoud_backend_full.Review.{
  ReviewAction, approve, reject, request_changes, other_action, Desk, is_publication_payment,
  later_payment, latest_payment, publication_payment, accrue_approved, approve_with, set_status,
  review_queued, is_queued, review_market, review_market_publication,
}
use asoud_backend_full.Prelude.{
  ℕ, ◌≡◌, refl, sym, ap, true, false, not, Option, none, some, List, [], ◌∷◌, arith, ltb, inl, inr,
  Bool-cases, Option-cases,
}
use asoud_backend_full.Table.{Table, lookup, lookup-update_self}

-- The completed payment of a user for a store.
abbrev pub IsPaidBy : ℕ → ℕ → Payment → Type 0
IsPaidBy user id p =
    (p.status ≡ complete)
    × (p.user ≡ user)
    × (p.target_id ≡ id)
    × (same_model p.target_content_type (some market_target) ≡ true)

is_publication_payment-true :
    (user id : ℕ) (p : Payment)
    → is_publication_payment user id p ≡ true
    → (p.status ≡ complete) × (p.user ≡ user) × (p.target_id ≡ id)
unfolding is_publication_payment
is_publication_payment-true user id p h = ground arith

later_payment-true :
    (user id : ℕ) (row found : ℕ × Payment) (rest : Option (ℕ × Payment))
    → is_publication_payment user id row.1 ≡ true
    → ((best : ℕ × Payment) → rest ≡ some best → is_publication_payment user id best.1 ≡ true)
    → later_payment row rest ≡ found
    → is_publication_payment user id found.1 ≡ true
unfolding later_payment
later_payment-true user id row found none ours theirs h = rw h at ours
later_payment-true user id row found (some best) ours theirs h =
    elim (Bool-cases (ltb row.1.created_at best.1.created_at)) [
      | inl e ↦ let same : best ≡ found = rw e at h in rw same at (theirs best refl)
      | inr e ↦ let same : row ≡ found = rw e at h in rw same at ours
    ]

latest_payment-true :
    (user id : ℕ) (rows : Table Payment) (found : ℕ × Payment)
    → latest_payment user id rows ≡ some found
    → is_publication_payment user id found.1 ≡ true
unfolding latest_payment
latest_payment-true user id [] found h = absurd (cc)
latest_payment-true user id ((k, p) ∷ rows) found h =
    elim (Bool-cases (is_publication_payment user id p)) [
      | inl e ↦
          later_payment-true user id (k, p) found (latest_payment user id rows) e
            (latest_payment-true user id rows) (cc (rw e at h))
      | inr e ↦ latest_payment-true user id rows found (rw e at h)
    ]

publication_payment-IsPaidBy :
    (user id : ℕ) (rows : Table Payment) (row : ℕ × Payment)
    → publication_payment user id rows ≡ some row
    → IsPaidBy user id row.1
unfolding publication_payment
publication_payment-IsPaidBy user id rows row h =
    elim (Option-cases (latest_payment user id rows)) [
      | inl e ↦ absurd (cc (rw (e, publication_payment) at h))
      | inr (found, e) ↦
          elim (Bool-cases (same_model found.1.target_content_type (some market_target))) [
            | inl store ↦
                let same : found ≡ row = cc (rw (e, store, publication_payment) at h) in
                let (status, user_same, target) =
                  is_publication_payment-true user id found.1
                    (latest_payment-true user id rows found e) in
                let paid : IsPaidBy user id found.1 = (status, user_same, target, store) in
                rw same at paid
            | inr other ↦ absurd (cc (rw (e, other, publication_payment) at h))
          ]
    ]

module _ (levels : List ReferralLevel) (referrals : List Referral) (id : ℕ) where
  -- A queued store after an approval.
  queued_published :
      (m m' : Market) (s : Desk)
      → lookup id s.markets ≡ some m
      → lookup id
          (approve_with levels referrals id
            (record m { status = published; is_paid = true })
            (publication_payment m.user id s.payments)
            s).1.markets
        ≡ some m'
      → is_published m.status ≡ false
      → is_published m'.status ≡ true
      → (m'.is_paid ≡ true)
        × ((row : ℕ × Payment) × (publication_payment m.user id s.payments ≡ some row)
            × IsPaidBy m.user id row.1)
  unfolding approve_with accrue_approved
  queued_published m m' s found after is_in is_out =
      elim (Option-cases (publication_payment m.user id s.payments)) [
        | inl unpaid ↦ let same : m ≡ m' = cc (rw unpaid at after) in absurd (cc (rw same at is_in))
        | inr (row, paid) ↦
            let new : Market = record m { status = published; is_paid = true } in
            let there = lookup-update_self id new s.markets m found in
            let same : new ≡ m' = cc (rw paid at after) in
            (
              ap (λ (x : Market). x.is_paid) (sym same),
              (row, paid, publication_payment-IsPaidBy m.user id s.payments row paid),
            )
      ]

  review_queued_published :
      (m m' : Market) (action : ReviewAction) (s : Desk)
      → lookup id s.markets ≡ some m
      → lookup id (review_queued levels referrals id m action s).1.markets ≡ some m'
      → is_published m.status ≡ false
      → is_published m'.status ≡ true
      → (m'.is_paid ≡ true)
        × ((row : ℕ × Payment) × (publication_payment m.user id s.payments ≡ some row)
            × IsPaidBy m.user id row.1)
  unfolding review_queued set_status
  review_queued_published m m' approve s found after is_in is_out =
      queued_published m m' s found after is_in is_out
  review_queued_published m m' other_action s found after is_in is_out =
      queued_published m m' s found after is_in is_out
  review_queued_published m m' reject s found after is_in is_out =
      let new : Market = record m { status = not_published } in
      let same : new ≡ m' = cc (lookup-update_self id new s.markets m found, after) in
      absurd (cc (rw (sym same) at is_out))
  review_queued_published m m' request_changes s found after is_in is_out =
      let new : Market = record m { status = needs_editing } in
      let same : new ≡ m' = cc (lookup-update_self id new s.markets m found, after) in
      absurd (cc (rw (sym same) at is_out))

  -- A store that a review publishes, whatever the action, was paid for: it is marked as paid, and
  -- the review found a completed payment of its owner whose target is that store.
  pub published-IsPaidBy :
      (action : ReviewAction) (s : Desk) (m m' : Market)
      → lookup id s.markets ≡ some m
      → is_published m.status ≡ false
      → lookup id (review_market_publication levels referrals id action s).1.markets ≡ some m'
      → is_published m'.status ≡ true
      → (m'.is_paid ≡ true)
        × ((row : ℕ × Payment) × (publication_payment m.user id s.payments ≡ some row)
            × IsPaidBy m.user id row.1)
  unfolding review_market_publication review_market
  published-IsPaidBy action s m m' found is_in after is_out =
      let run = rw (found, review_market_publication, is_in, review_market) at after in
      elim (Bool-cases (not (is_queued m.status))) [
        | inl idle ↦ let same : m ≡ m' = cc (rw idle at run) in absurd (cc (rw same at is_in))
        | inr queued ↦ review_queued_published m m' action s found (rw queued at run) is_in is_out
      ]
