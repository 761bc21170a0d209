-- ===== src/Referral.antt =====
-- Invitations to stores and the commissions of the inviters: apps/referral/services.py on the rows
-- of apps/referral/models.py. Times are seconds, percentages are hundredths of a percent, amounts
-- of commissions are hundredths of a toman and payments whole toman.
pub mod Ledger
pub mod Attribution
mod Tests
use asoud_backend_full.Prelude.{
  ℕ, ◌+◌, ◌*◌, Bool, true, false, not, ◌&&◌, Option, none, some, List, [], ◌∷◌, ltb, ◌==◌,
  if◌then◌else◌,
}
use asoud_backend_full.Table.{Table, lookup, update}
use asoud_backend_full.Cart.Rows.{Market, is_published}
use asoud_backend_full.Money.Quantum.{half_up}

pub record Referral : Type 0 where
  pub referred_user : ℕ
  pub referred_by : Option ℕ
  pub market : Option ℕ
  pub invite_link : Option ℕ

pub record MarketInviteLink : Type 0 where
  pub market : ℕ
  pub created_by : ℕ
  pub is_active : Bool
  pub expires_at : Option ℕ
  pub use_count : ℕ

pub record StoreAccess : Type 0 where
  pub user : ℕ
  pub market : ℕ
  pub invite_link : Option ℕ
  pub verified_at : ℕ
  pub is_active : Bool

pub record ReferralLevel : Type 0 where
  pub level : ℕ
  pub percentage : ℕ
  pub is_active : Bool

pub record ReferralCommission : Type 0 where
  pub payment : ℕ
  pub market : ℕ
  pub source_user : ℕ
  pub beneficiary : ℕ
  pub level : ℕ
  pub base_amount : ℕ
  pub percentage : ℕ
  pub amount : ℕ

-- The links are keyed by their tokens.
pub record Network : Type 0 where
  pub markets : Table Market
  pub invites : Table MarketInviteLink
  pub accesses : List StoreAccess
  pub referrals : List Referral

-- `invite.expires_at and invite.expires_at <= timezone.now()`
unfoldable pub is_expired : ℕ → MarketInviteLink → Bool
is_expired now invite = elim invite.expires_at [ none ↦ false | some time ↦ not (ltb now time) ]

unfoldable pub is_open_store : Network → MarketInviteLink → Bool
is_open_store n invite = elim (lookup invite.market n.markets) [
  | none ↦ false
  | some market ↦ is_published market.status
]

unfoldable pub get_valid_invite : ℕ → ℕ → Network → Option MarketInviteLink
unfolding is_expired is_open_store
get_valid_invite now token n = elim (lookup token n.invites) [
  | none ↦ none
  | some invite ↦
      if invite.is_active && (not (is_expired now invite) && is_open_store n invite)
      then some invite
      else none
]

-- `StoreAccess.objects.update_or_create(user=…, market=…)`
unfoldable pub update_or_create_access : StoreAccess → List StoreAccess → List StoreAccess
update_or_create_access access [] = access ∷ []
update_or_create_access access (a ∷ rows) =
    if a.user == access.user && a.market == access.market
    then access ∷ rows
    else a ∷ update_or_create_access access rows

-- The referral of a user, who has one at most.
unfoldable pub referral_of : ℕ → List Referral → Option Referral
referral_of user [] = none
referral_of user (r ∷ rows) = if r.referred_user == user then some r else referral_of user rows

-- `update(use_count=F('use_count') + 1)`
unfoldable pub count_use : ℕ → Table MarketInviteLink → Table MarketInviteLink
count_use token invites = elim (lookup token invites) [
  | none ↦ invites
  | some invite ↦ update token (record invite { use_count = invite.use_count + 1 }) invites
]

unfoldable pub attribute : ℕ → ℕ → MarketInviteLink → Network → Network
unfolding referral_of count_use
attribute user token invite n = elim (referral_of user n.referrals) [
  | some _ ↦ n
  | none ↦ record n {
    invites = count_use token n.invites;
    referrals =
        record {
          referred_user = user;
          referred_by = some invite.created_by;
          market = some invite.market;
          invite_link = some token;
        }
        ∷ n.referrals;
  }
]

unfoldable pub grant_access : ℕ → ℕ → ℕ → MarketInviteLink → Network → Network
unfolding update_or_create_access
grant_access now user token invite n = record n {
  accesses =
      update_or_create_access
        (record {
          user = user;
          market = invite.market;
          invite_link = some token;
          verified_at = now;
          is_active = true;
        })
        n.accesses;
}

unfoldable pub accept_store_invite : ℕ → ℕ → ℕ → MarketInviteLink → Bool → Network → Network
unfolding grant_access attribute
accept_store_invite now user token invite allow n =
    let granted = grant_access now user token invite n in
    if allow && not (invite.created_by == user)
    then attribute user token invite granted
    else granted

-- Who referred the user, if that user is still there.
unfoldable pub upline : List Referral → ℕ → Option ℕ
unfolding referral_of
upline referrals user = elim (referral_of user referrals) [ none ↦ none | some r ↦ r.referred_by ]

-- `levels.get(level_number)`, from the active levels; a later row of a level replaces an earlier.
unfoldable pub level_percentage : ℕ → List ReferralLevel → Option ℕ
level_percentage n [] = none
level_percentage n (l ∷ ls) = elim (level_percentage n ls) [
  | some percentage ↦ some percentage
  | none ↦ if l.is_active && l.level == n then some l.percentage else none
]

-- `filter(payment=…, beneficiary=…, level=…)`
unfoldable pub find_commission : ℕ → ℕ → ℕ → List ReferralCommission → Option ReferralCommission
find_commission payment beneficiary level [] = none
find_commission payment beneficiary level (c ∷ rows) =
    if c.payment == payment && (c.beneficiary == beneficiary && c.level == level)
    then some c
    else find_commission payment beneficiary level rows

unfoldable pub get_or_create_commission :
    ReferralCommission → List ReferralCommission → ReferralCommission × List ReferralCommission
unfolding find_commission
get_or_create_commission c rows = elim (find_commission c.payment c.beneficiary c.level rows) [
  | some old ↦ (old, rows)
  | none ↦ (c, c ∷ rows)
]

-- A payment of a store's publication, and what the loop reads.
pub record Publication : Type 0 where
  pub payment : ℕ
  pub market : ℕ
  pub source_user : ℕ
  pub paid : ℕ
  pub levels : List ReferralLevel
  pub referrals : List Referral

unfoldable pub commission_of : Publication → ℕ → ℕ → ℕ → ReferralCommission
commission_of p level beneficiary percentage = record {
  payment = p.payment;
  market = p.market;
  source_user = p.source_user;
  beneficiary = beneficiary;
  level = level;
  base_amount = p.paid;
  percentage = percentage;
  amount = half_up (p.paid * percentage) 100;
}

-- The loop over the level numbers, from a user upwards: the commissions and the ledger.
unfoldable pub climb :
    Publication
    → List ℕ
    → ℕ
    → List ReferralCommission
    → List ReferralCommission × List ReferralCommission
unfolding upline level_percentage get_or_create_commission commission_of
climb p [] user rows = ([], rows)
climb p (level ∷ levels) user rows = elim (upline p.referrals user) [
  | none ↦ ([], rows)
  | some beneficiary ↦ elim (level_percentage level p.levels) [
    | none ↦ climb p levels beneficiary rows
    | some percentage ↦
        let (c, rows') =
          get_or_create_commission (commission_of p level beneficiary percentage) rows in
        let (cs, rows'') = climb p levels beneficiary rows' in (c ∷ cs, rows'')
  ]
]

-- `range(1, 8)`
abbrev pub level_numbers : List ℕ
level_numbers = 1 ∷ 2 ∷ 3 ∷ 4 ∷ 5 ∷ 6 ∷ 7 ∷ []

unfoldable pub accrue_store_publication_commissions :
    Publication → List ReferralCommission → List ReferralCommission × List ReferralCommission
unfolding climb
accrue_store_publication_commissions p rows = climb p level_numbers p.source_user rows
