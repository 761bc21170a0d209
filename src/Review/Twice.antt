-- ===== src/Review/Twice.antt =====
-- An approval that is repeated changes nothing.
use asoud_backend_full.Cart.Rows.{Market, published, is_published}
use asoud_backend_full.Payment.Rows.{Payment}
use asoud_backend_full.Referral.{ReferralLevel, Referral, ReferralCommission}
use asoud_backend_full.Referral.Ledger.{accrue_twice}
use asoud_backend_full.Review.{
  approve, Desk, reviewed, publication_payment, publication_of, accrue_approved, approve_with,
  review_queued, is_approve, is_queued, review_market, review_market_publication,
}
use asoud_backend_full.Prelude.{
  ℕ, ◌≡◌, refl, true, not, none, some, List, inl, inr, Bool-cases, Option-cases,
}
use asoud_backend_full.Table.{lookup, lookup-update_self, update-update}

module _ (levels : List ReferralLevel) (referrals : List Referral) (id : ℕ) where
  approve_published :
      (m : Market) (row : ℕ × Payment) (s : Desk)
      → lookup id s.markets ≡ some m
      → is_published m.status ≡ true
      → publication_payment m.user id s.payments ≡ some row
      → review_market_publication levels referrals id approve s
        ≡ accrue_approved levels referrals id m row s
  unfolding review_market_publication review_market is_approve approve_with
  approve_published m row s found is_out paid =
      rw (found, review_market_publication, is_out, review_market, paid) refl

  accrue_approved_again :
      (m : Market) (row : ℕ × Payment) (s : Desk)
      → let t = (accrue_approved levels referrals id m row s).1 in
        (accrue_approved levels referrals id m row t).1 ≡ t
  unfolding accrue_approved
  accrue_approved_again m row s =
      rw
        (
          update-update id m m s.markets,
          accrue_twice (publication_of levels referrals id m row) s.ledger,
        )
        refl

  -- An approval of a store that is published, repeated.
  approve_again :
      (m old : Market) (row : ℕ × Payment) (s : Desk)
      → lookup id s.markets ≡ some old
      → is_published m.status ≡ true
      → publication_payment m.user id s.payments ≡ some row
      → let t = (accrue_approved levels referrals id m row s).1 in
        (review_market_publication levels referrals id approve t).1 ≡ t
  unfolding accrue_approved
  approve_again m old row s found is_out paid =
      let t = (accrue_approved levels referrals id m row s).1 in
      rw (approve_published m row t (lookup-update_self id m s.markets old found) is_out paid)
        (accrue_approved_again m row s)

  refuses_unpaid :
      (s : Desk) (cs : List ReferralCommission) (old : Market)
      → lookup id s.markets ≡ some old
      → publication_payment old.user id s.payments ≡ none
      → ¬ ((review_market_publication levels referrals id approve s).0 ≡ reviewed cs)
  unfolding review_market_publication review_market review_queued is_approve approve_with
  refuses_unpaid s cs old e unpaid h = elim (Bool-cases (is_published old.status)) [
    | inl is_out ↦ cc (rw (e, review_market_publication, is_out, review_market, unpaid) at h)
    | inr is_in ↦ elim (Bool-cases (not (is_queued old.status))) [
      | inl idle ↦ cc (rw (e, review_market_publication, is_in, idle, review_market) at h)
      | inr queued ↦
          cc (rw (e, review_market_publication, is_in, queued, review_market, unpaid) at h)
    ]
  ]

  -- An approval that is answered with commissions found the payment of a store that it publishes.
  approve_reviewed :
      (s : Desk) (cs : List ReferralCommission)
      → (review_market_publication levels referrals id approve s).0 ≡ reviewed cs
      → (old : Market) × (m : Market) × (row : ℕ × Payment) × (lookup id s.markets ≡ some old)
        × (review_market_publication levels referrals id approve s
            ≡ accrue_approved levels referrals id m row s)
        × (is_published m.status ≡ true)
        × (publication_payment m.user id s.payments ≡ some row)
  unfolding review_market_publication review_market review_queued is_approve approve_with
  approve_reviewed s cs h = elim (Option-cases (lookup id s.markets)) [
    | inl e ↦ absurd (cc (rw (e, review_market_publication) at h))
    | inr (old, e) ↦ elim (Option-cases (publication_payment old.user id s.payments)) [
      | inl unpaid ↦ absurd (refuses_unpaid s cs old e unpaid h)
      | inr (row, paid) ↦ elim (Bool-cases (is_published old.status)) [
        | inl is_out ↦ (old, old, row, e, approve_published old row s e is_out paid, is_out, paid)
        | inr is_in ↦ elim (Bool-cases (not (is_queued old.status))) [
          | inl idle ↦
              absurd (cc (rw (e, review_market_publication, is_in, idle, review_market) at h))
          | inr queued ↦
              let m : Market = record old { status = published; is_paid = true } in
              (
                old,
                m,
                row,
                e,
                rw (e, review_market_publication, is_in, queued, review_market, paid) refl,
                refl,
                paid,
              )
        ]
      ]
    ]
  ]

  -- An approval that is answered with commissions, repeated, leaves the stores, the payments and
  -- the ledger as the first one did.
  pub approve_twice :
      (s : Desk) (cs : List ReferralCommission)
      → (review_market_publication levels referrals id approve s).0 ≡ reviewed cs
      → let t = (review_market_publication levels referrals id approve s).1 in
        (review_market_publication levels referrals id approve t).1 ≡ t
  approve_twice s cs h =
      let (old, m, row, found, run, is_out, paid) = approve_reviewed s cs h in
      rw run (approve_again m old row s found is_out paid)
