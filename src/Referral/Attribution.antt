-- ===== src/Referral/Attribution.antt =====
-- What accepting an invitation changes: one access, and at most the first referral of the user.
use asoud_backend_full.Prelude.{
  ℕ, ◌≡◌, refl, Bool, true, false, not, ◌&&◌, Option, none, some, List, [], ◌∷◌, arith, ◌==◌,
  if◌then◌else◌, inl, inr, Bool-cases, Option-cases,
}
use asoud_backend_full.Referral.{
  Referral, MarketInviteLink, StoreAccess, Network, update_or_create_access, referral_of, attribute,
  grant_access, accept_store_invite,
}

-- The access of a user to a market.
unfoldable pub access_of : ℕ → ℕ → List StoreAccess → Option StoreAccess
access_of user market [] = none
access_of user market (a ∷ rows) =
    if a.user == user && a.market == market then some a else access_of user market rows

and_equal : (a b c d : ℕ) → (a == b && c == d) ≡ true → (a ≡ b) × (c ≡ d)
and_equal a b c d h = ground arith

access_of-update_or_create :
    (access : StoreAccess) (user market : ℕ) (rows : List StoreAccess)
    → access_of user market (update_or_create_access access rows) ≡ (
        if access.user == user && access.market == market
        then some access
        else access_of user market rows)
unfolding access_of update_or_create_access
access_of-update_or_create access user market [] = refl
access_of-update_or_create access user market (a ∷ rows) =
    elim (Bool-cases (a.user == access.user && a.market == access.market)) [
      | inl same ↦
          let (u, m) = and_equal a.user access.user a.market access.market same in
          elim (Bool-cases (access.user == user && access.market == market)) [
            | inl here ↦ rw (same, here) refl
            | inr other ↦ rw (same, u, m, other) refl
          ]
      | inr apart ↦
          let rest = access_of-update_or_create access user market rows in
          elim (Bool-cases (a.user == user && a.market == market)) [
            | inl here ↦
                let other : (access.user == user && access.market == market) ≡ false =
                  ground arith in
                rw (apart, here, other) refl
            | inr there ↦ rw (apart, there) rest
          ]
    ]

-- Whether an acceptance makes a referral.
abbrev pub attributes : ℕ → MarketInviteLink → Bool → Network → Bool
attributes user invite allow n =
    allow
    && (not (invite.created_by == user)
        && (elim (referral_of user n.referrals) [ none ↦ true | some _ ↦ false ]))

abbrev pub referral_by : ℕ → ℕ → MarketInviteLink → Referral
referral_by user token invite = record {
  referred_user = user;
  referred_by = some invite.created_by;
  market = some invite.market;
  invite_link = some token;
}

module _ (now user token : ℕ) (invite : MarketInviteLink) (allow : Bool) (n : Network) where
  accept-accesses :
      (accept_store_invite now user token invite allow n).accesses
      ≡ (grant_access now user token invite n).accesses
  unfolding accept_store_invite attribute grant_access
  accept-accesses = elim (Bool-cases (allow && not (invite.created_by == user))) [
    | inl may ↦ elim (Option-cases (referral_of user n.referrals)) [
      | inl e ↦ rw (may, e, attribute) refl
      | inr (r, e) ↦ rw (may, e, attribute) refl
    ]
    | inr may_not ↦ rw may_not refl
  ]

  accept-referrals : (accept_store_invite now user token invite allow n).referrals ≡ (
      if attributes user invite allow n
      then referral_by user token invite ∷ n.referrals
      else n.referrals)
  unfolding accept_store_invite attribute grant_access
  accept-referrals = elim (Bool-cases allow) [
    | inl may ↦ elim (Bool-cases (invite.created_by == user)) [
      | inl own ↦ rw (may, own) refl
      | inr other ↦ elim (Option-cases (referral_of user n.referrals)) [
        | inl e ↦ rw (may, other, e, attribute) refl
        | inr (r, e) ↦ rw (may, other, e, attribute) refl
      ]
    ]
    | inr may_not ↦ rw may_not refl
  ]

  -- Accepting an invitation gives the user, and nobody else, an active access to the store of the
  -- link, and leaves all other accesses as they were. It makes a referral of the user by the
  -- link's creator only where that is allowed, the user is not the creator and has no referral
  -- yet; all other referrals, also the user's earlier one, stay as they were.
  pub accept_store_invite_outcome :
      (other market : ℕ)
      → let after = accept_store_invite now user token invite allow n in
        (access_of other market after.accesses ≡ (
          if user == other && invite.market == market
          then some (record {
            user = user;
            market = invite.market;
            invite_link = some token;
            verified_at = now;
            is_active = true;
          })
          else access_of other market n.accesses))
        × (referral_of other after.referrals ≡ (
            if user == other && attributes user invite allow n
            then some (referral_by user token invite)
            else referral_of other n.referrals))
  unfolding grant_access referral_of
  accept_store_invite_outcome other market = (
    rw accept-accesses (access_of-update_or_create _ other market n.accesses),
    rw accept-referrals (elim (Bool-cases (attributes user invite allow n)) [
      | inl makes ↦ elim (Bool-cases (user == other)) [
        | inl same ↦ rw (makes, same) refl
        | inr apart ↦ rw (makes, apart) refl
      ]
      | inr makes_none ↦ elim (Bool-cases (user == other)) [
        | inl same ↦ rw (makes_none, same) refl
        | inr apart ↦ rw (makes_none, apart) refl
      ]
    ]),
  )
