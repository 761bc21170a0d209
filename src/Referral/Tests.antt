-- ===== src/Referral/Tests.antt =====
-- User 3 was referred by 2, and 2 by 1, who was referred by 3: the referrals go round.
use asoud_backend_full.Prelude.{
  ℕ, ◌+◌, ◌≤◌, ◌&&◌, ◌≡◌, refl, true, false, none, some, [], ◌∷◌, length, ◌==◌, if◌then◌else◌,
}
use asoud_backend_full.Cart.Rows.{published}
use asoud_backend_full.Referral.{
  Referral, MarketInviteLink, Network, Publication, ReferralCommission, get_valid_invite,
  accept_store_invite, referral_of, accrue_store_publication_commissions,
}
use asoud_backend_full.Referral.Ledger.{accrue_twice, accrue_at_most_seven}
use asoud_backend_full.Referral.Attribution.{
  access_of, attributes, referral_by, accept_store_invite_outcome,
}

abbrev referred : ℕ → ℕ → Referral
referred user by = record {
  referred_user = user;
  referred_by = some by;
  market = none;
  invite_link = none;
}

-- Five percent for the first level, and half a percent for the fifth.
abbrev publication : Publication
publication = record {
  payment = 90;
  market = 4;
  source_user = 3;
  paid = 1001;
  levels =
      record { level = 1; percentage = 500; is_active = true }
      ∷ record { level = 2; percentage = 100; is_active = false }
      ∷ record { level = 5; percentage = 50; is_active = true }
      ∷ [];
  referrals = referred 3 2 ∷ referred 2 1 ∷ referred 1 3 ∷ [];
}

abbrev commission : ℕ → ℕ → ℕ → ℕ → ReferralCommission
commission level beneficiary percentage amount = record {
  payment = 90;
  market = 4;
  source_user = 3;
  beneficiary = beneficiary;
  level = level;
  base_amount = 1001;
  percentage = percentage;
  amount = amount;
}

two_paid :
    (accrue_store_publication_commissions publication []).0
    ≡ commission 1 2 500 5005 ∷ commission 5 1 50 501 ∷ []
unfolding accrue_store_publication_commissions asoud_backend_full.Money.Quantum.half_up
two_paid = refl

accrue_twice_example :
    let once = (accrue_store_publication_commissions publication []).1 in
    (accrue_store_publication_commissions publication once).1 ≡ once
accrue_twice_example = accrue_twice publication []

accrue_at_most_seven_example :
    let run = accrue_store_publication_commissions publication [] in
    (length run.0 ≤ 7) × (length run.1 ≤ length {A = ReferralCommission} [] + length run.0)
accrue_at_most_seven_example = accrue_at_most_seven publication []

abbrev invite : MarketInviteLink
invite = record {
  market = 4;
  created_by = 2;
  is_active = true;
  expires_at = some 500;
  use_count = 0;
}

abbrev network : Network
network = record {
  markets = (4, record { user = 2; status = published; is_paid = true }) ∷ [];
  invites = (77, invite) ∷ [];
  accesses = [];
  referrals = [];
}

valid_until :
    (get_valid_invite 499 77 network ≡ some invite) × (get_valid_invite 500 77 network ≡ none)
unfolding get_valid_invite asoud_backend_full.Table.lookup
valid_until = (refl, refl)

-- The second link finds the referral of the first.
first_link_stays :
    referral_of 8
      (accept_store_invite 20 8 78
        (record invite { created_by = 5 })
        true
        (accept_store_invite 10 8 77 invite true network)).referrals
    ≡ some (referral_by 8 77 invite)
unfolding referral_of accept_store_invite
first_link_stays = refl

accept_store_invite_outcome_example :
    let after = accept_store_invite 10 8 77 invite true network in
    (access_of 8 4 after.accesses ≡ (
      if 8 == 8 && 4 == 4
      then some (record {
        user = 8;
        market = 4;
        invite_link = some 77;
        verified_at = 10;
        is_active = true;
      })
      else access_of 8 4 network.accesses))
    × (referral_of 8 after.referrals ≡ (
        if 8 == 8 && attributes 8 invite true network
        then some (referral_by 8 77 invite)
        else referral_of 8 network.referrals))
accept_store_invite_outcome_example = accept_store_invite_outcome 10 8 77 invite true network 8 4
