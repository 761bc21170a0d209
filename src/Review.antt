-- ===== src/Review.antt =====
-- The review of a store's publication: `review_market_publication` of apps/market/services.py. The
-- texts of the reasons are left out. The levels and the referrals are arguments.
pub mod Paid
pub mod Twice
mod Tests
use asoud_backend_full.Cart.Rows.{
  Market, Status, queue, not_published, published, needs_editing, is_published,
}
use asoud_backend_full.Payment.Rows.{Payment, PaymentStatus, complete, TargetModel, market_target}
use asoud_backend_full.Payment.Processing.{same_model}
use asoud_backend_full.Referral.{
  ReferralLevel, Referral, ReferralCommission, Publication, accrue_store_publication_commissions,
}
use asoud_backend_full.Prelude.{
  ℕ, Bool, true, false, not, ◌&&◌, Option, none, some, List, [], ◌∷◌, ltb, ◌==◌, if◌then◌else◌,
}
use asoud_backend_full.Table.{Table, lookup, update}

pub data ReviewAction : Type 0 where
  approve reject request_changes other_action : ReviewAction

-- What the review reads and writes.
pub record Desk : Type 0 where
  pub markets : Table Market
  pub payments : Table Payment
  pub ledger : List ReferralCommission

-- The commissions, or a validation error; `store_missing` is `Market.DoesNotExist`.
pub data Review : Type 0 where
  reviewed : List ReferralCommission → Review
  payment_required not_queued store_missing : Review

unfoldable pub is_publication_payment : ℕ → ℕ → Payment → Bool
is_publication_payment user id p =
    (elim p.status [ complete ↦ true | _ ↦ false ]) && (p.user == user && p.target_id == id)

-- `order_by('-created_at').first()`
unfoldable pub later_payment : ℕ × Payment → Option (ℕ × Payment) → ℕ × Payment
later_payment row none = row
later_payment row (some best) = if ltb row.1.created_at best.1.created_at then best else row

unfoldable pub latest_payment : ℕ → ℕ → Table Payment → Option (ℕ × Payment)
unfolding is_publication_payment later_payment
latest_payment user id [] = none
latest_payment user id ((k, p) ∷ rows) =
    let rest = latest_payment user id rows in
    if is_publication_payment user id p then some (later_payment (k, p) rest) else rest

-- The payment, where its target is a store.
unfoldable pub publication_payment : ℕ → ℕ → Table Payment → Option (ℕ × Payment)
unfolding latest_payment
publication_payment user id payments = elim (latest_payment user id payments) [
  | none ↦ none
  | some row ↦ if same_model row.1.target_content_type (some market_target) then some row else none
]

unfoldable pub publication_of :
    List ReferralLevel → List Referral → ℕ → Market → ℕ × Payment → Publication
publication_of levels referrals id market row = record {
  payment = row.0;
  market = id;
  source_user = market.user;
  paid = row.1.amount;
  levels = levels;
  referrals = referrals;
}

-- An approval with a store as it is saved, once the payment is found.
unfoldable pub accrue_approved :
    List ReferralLevel → List Referral → ℕ → Market → ℕ × Payment → Desk → Review × Desk
unfolding publication_of
accrue_approved levels referrals id market row s =
    let run =
      accrue_store_publication_commissions (publication_of levels referrals id market row)
        s.ledger in
    (reviewed run.0, record s { markets = update id market s.markets; ledger = run.1 })

unfoldable pub approve_with :
    List ReferralLevel → List Referral → ℕ → Market → Option (ℕ × Payment) → Desk → Review × Desk
unfolding accrue_approved
approve_with levels referrals id market none s = (payment_required, s)
approve_with levels referrals id market (some row) s =
    accrue_approved levels referrals id market row s

-- `market.save(update_fields=['status', …])`
unfoldable pub set_status : ℕ → Market → Status → Desk → Review × Desk
set_status id market status s =
    (reviewed [], record s { markets = update id (record market { status = status }) s.markets })

unfoldable pub review_queued :
    List ReferralLevel → List Referral → ℕ → Market → ReviewAction → Desk → Review × Desk
unfolding set_status publication_payment approve_with
review_queued levels referrals id market reject s = set_status id market not_published s
review_queued levels referrals id market request_changes s = set_status id market needs_editing s
review_queued levels referrals id market action s =
    approve_with levels referrals id (record market { status = published; is_paid = true })
      (publication_payment market.user id s.payments) s

unfoldable pub is_approve : ReviewAction → Bool
is_approve action = elim action [ approve ↦ true | _ ↦ false ]

unfoldable pub is_queued : Status → Bool
is_queued status = elim status [ queue ↦ true | _ ↦ false ]

unfoldable pub review_market :
    List ReferralLevel → List Referral → ℕ → Market → ReviewAction → Desk → Review × Desk
unfolding is_approve is_queued publication_payment approve_with review_queued
review_market levels referrals id market action s =
    if is_published market.status && is_approve action
    then approve_with levels referrals id market (publication_payment market.user id s.payments) s
    else if not (is_queued market.status)
    then (not_queued, s)
    else review_queued levels referrals id market action s

unfoldable pub review_market_publication :
    List ReferralLevel → List Referral → ℕ → ReviewAction → Desk → Review × Desk
unfolding review_market
review_market_publication levels referrals id action s = elim (lookup id s.markets) [
  | none ↦ (store_missing, s)
  | some market ↦ review_market levels referrals id market action s
]
