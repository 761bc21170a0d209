-- ===== src/Review/Tests.antt =====
-- Store 4 of user 3 is in the queue, and its publication is paid for.
use asoud_backend_full.Prelude.{ℕ, ◌≡◌, refl, true, false, some, none, [], ◌∷◌}
use asoud_backend_full.Table.{lookup}
use asoud_backend_full.Cart.Rows.{Market, queue, published}
use asoud_backend_full.Payment.Rows.{Payment, complete, failed, market_target}
use asoud_backend_full.Referral.{ReferralCommission}
use asoud_backend_full.Review.{
  approve, Desk, reviewed, payment_required, publication_payment, review_market_publication,
}
use asoud_backend_full.Review.Twice.{approve_twice}
use asoud_backend_full.Review.Paid.{IsPaidBy, published-IsPaidBy}

abbrev store : Market
store = record { user = 3; status = queue; is_paid = false }

abbrev payment : Payment
payment = record {
  user = 3;
  amount = 1000;
  target_content_type = some market_target;
  target_id = 4;
  status = complete;
  created_at = 20;
}

abbrev desk : Desk
desk = record {
  markets = (4, store) ∷ [];
  payments = (90, payment) ∷ (91, record payment { status = failed; created_at = 30 }) ∷ [];
  ledger = [];
}

-- User 3 was referred by user 2, who has five percent of the first level.
abbrev commission : ReferralCommission
commission = record {
  payment = 90;
  market = 4;
  source_user = 3;
  beneficiary = 2;
  level = 1;
  base_amount = 1000;
  percentage = 500;
  amount = 5000;
}

approves :
    (review_market_publication
      (record { level = 1; percentage = 500; is_active = true } ∷ [])
      (record { referred_user = 3; referred_by = some 2; market = none; invite_link = none } ∷ [])
      4
      approve
      desk).0
    ≡ reviewed (commission ∷ [])
unfolding review_market_publication lookup asoud_backend_full.Payment.Processing.same_model
    asoud_backend_full.Referral.accrue_store_publication_commissions
    asoud_backend_full.Money.Quantum.half_up
approves = refl

wants_payment :
    (review_market_publication [] [] 4 approve (record desk { payments = [] })).0 ≡ payment_required
unfolding review_market_publication lookup
wants_payment = refl

approves_plain : (review_market_publication [] [] 4 approve desk).0 ≡ reviewed []
unfolding review_market_publication lookup asoud_backend_full.Payment.Processing.same_model
    asoud_backend_full.Referral.accrue_store_publication_commissions
approves_plain = refl

approve_twice_example :
    let t = (review_market_publication [] [] 4 approve desk).1 in
    (review_market_publication [] [] 4 approve t).1 ≡ t
approve_twice_example = approve_twice [] [] 4 desk [] approves_plain

abbrev out : Market
out = record { user = 3; status = published; is_paid = true }

published_out : lookup 4 (review_market_publication [] [] 4 approve desk).1.markets ≡ some out
unfolding lookup review_market_publication asoud_backend_full.Payment.Processing.same_model
    asoud_backend_full.Table.update
published_out = refl

found_store : lookup 4 desk.markets ≡ some store
unfolding lookup
found_store = refl

published-IsPaidBy_example :
    (out.is_paid ≡ true)
    × ((row : ℕ × Payment) × (publication_payment 3 4 desk.payments ≡ some row)
        × IsPaidBy 3 4 row.1)
published-IsPaidBy_example =
    published-IsPaidBy [] [] 4 approve desk store out found_store refl published_out refl
