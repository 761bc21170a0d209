-- ===== src/Referral/Ledger.antt =====
-- The ledger of the commissions on a publication.
use asoud_backend_full.Prelude.{
  ℕ, ◌+◌, ◌≤◌, ◌≡◌, refl, true, ◌&&◌, none, some, List, [], ◌∷◌, arith, ◌==◌, length, inl, inr,
  Bool-cases, Option-cases,
}
use asoud_backend_full.Referral.{
  ReferralCommission, find_commission, get_or_create_commission, Publication, commission_of, upline,
  level_percentage, climb, level_numbers, accrue_store_publication_commissions,
}

-- The commission of a beneficiary at a level is in the ledger.
abbrev IsRecorded : ℕ → ℕ → ℕ → List ReferralCommission → Type 0
IsRecorded payment beneficiary level rows =
    (c : ReferralCommission) × (find_commission payment beneficiary level rows ≡ some c)

same_key : (a b c : ℕ) → (a == a && (b == b && c == c)) ≡ true
same_key a b c = ground arith

get_or_create-records :
    (c : ReferralCommission) (rows : List ReferralCommission)
    → IsRecorded c.payment c.beneficiary c.level (get_or_create_commission c rows).1
unfolding get_or_create_commission find_commission
get_or_create-records c rows =
    elim (Option-cases (find_commission c.payment c.beneficiary c.level rows)) [
      | inl e ↦
          rw (e, get_or_create_commission) (c, rw (same_key c.payment c.beneficiary c.level) refl)
      | inr (old, e) ↦ rw (e, get_or_create_commission) (old, e)
    ]

get_or_create-keeps :
    (c : ReferralCommission) (payment beneficiary level : ℕ) (rows : List ReferralCommission)
    → IsRecorded payment beneficiary level rows
    → IsRecorded payment beneficiary level (get_or_create_commission c rows).1
unfolding get_or_create_commission find_commission
get_or_create-keeps c payment beneficiary level rows (old, h) =
    elim (Option-cases (find_commission c.payment c.beneficiary c.level rows)) [
      | inl e ↦
          elim (Bool-cases
            (c.payment == payment && (c.beneficiary == beneficiary && c.level == level))) [
              | inl same ↦ rw (e, get_or_create_commission) (c, rw same refl)
              | inr other ↦ rw (e, get_or_create_commission) (old, rw other h)
            ]
      | inr (found, e) ↦ rw (e, get_or_create_commission) (old, h)
    ]

get_or_create-found :
    (c old : ReferralCommission) (rows : List ReferralCommission)
    → find_commission c.payment c.beneficiary c.level rows ≡ some old
    → get_or_create_commission c rows ≡ (old, rows)
unfolding get_or_create_commission
get_or_create-found c old rows h = rw (h, get_or_create_commission) refl

get_or_create-length :
    (c : ReferralCommission) (rows : List ReferralCommission)
    → length (get_or_create_commission c rows).1 ≤ length rows + 1
unfolding get_or_create_commission
get_or_create-length c rows =
    elim (Option-cases (find_commission c.payment c.beneficiary c.level rows)) [
      | inl e ↦ rw (e, get_or_create_commission) (omega arith)
      | inr (old, e) ↦ rw (e, get_or_create_commission) (omega arith)
    ]

module _ (p : Publication) where
  -- One level of the climb.
  climb_stops :
      (level : ℕ) (levels : List ℕ) (user : ℕ) (rows : List ReferralCommission)
      → upline p.referrals user ≡ none
      → climb p (level ∷ levels) user rows ≡ ([], rows)
  unfolding climb
  climb_stops level levels user rows e = rw (e, climb) refl

  climb_skips :
      (level : ℕ) (levels : List ℕ) (user beneficiary : ℕ) (rows : List ReferralCommission)
      → upline p.referrals user ≡ some beneficiary
      → level_percentage level p.levels ≡ none
      → climb p (level ∷ levels) user rows ≡ climb p levels beneficiary rows
  unfolding climb
  climb_skips level levels user beneficiary rows e h = rw (e, h, climb) refl

  climb_pays :
      (level : ℕ) (levels : List ℕ) (user beneficiary percentage : ℕ)
      (rows : List ReferralCommission)
      → upline p.referrals user ≡ some beneficiary
      → level_percentage level p.levels ≡ some percentage
      → let made = get_or_create_commission (commission_of p level beneficiary percentage) rows in
        climb p (level ∷ levels) user rows
        ≡ (made.0 ∷ (climb p levels beneficiary made.1).0, (climb p levels beneficiary made.1).1)
  unfolding climb
  climb_pays level levels user beneficiary percentage rows e h = rw (e, h, climb) refl

  climb-keeps :
      (levels : List ℕ) (user : ℕ) (rows : List ReferralCommission) (payment beneficiary level : ℕ)
      → IsRecorded payment beneficiary level rows
      → IsRecorded payment beneficiary level (climb p levels user rows).1
  unfolding climb
  climb-keeps [] user rows payment beneficiary level h = h
  climb-keeps (n ∷ ns) user rows payment beneficiary level h =
      elim (Option-cases (upline p.referrals user)) [
        | inl e ↦ rw (climb_stops n ns user rows e) h
        | inr (b, e) ↦ elim (Option-cases (level_percentage n p.levels)) [
          | inl none_set ↦
              rw (climb_skips n ns user b rows e none_set)
                (climb-keeps ns b rows payment beneficiary level h)
          | inr (percentage, set) ↦
              let c = commission_of p n b percentage in
              rw (climb_pays n ns user b percentage rows e set) (
                climb-keeps ns b (get_or_create_commission c rows).1 payment beneficiary level
                  (get_or_create-keeps c payment beneficiary level rows h))
        ]
      ]

  -- A ledger that has all that a climb records is left as it is by the same climb.
  climb_again :
      (levels : List ℕ) (user : ℕ) (rows done : List ReferralCommission)
      → ((payment beneficiary level : ℕ)
          → IsRecorded payment beneficiary level (climb p levels user rows).1
          → IsRecorded payment beneficiary level done)
      → (climb p levels user done).1 ≡ done
  unfolding climb
  climb_again [] user rows done all = refl
  climb_again (n ∷ ns) user rows done all = elim (Option-cases (upline p.referrals user)) [
    | inl e ↦ rw (climb_stops n ns user done e) refl
    | inr (b, e) ↦ elim (Option-cases (level_percentage n p.levels)) [
      | inl none_set ↦
          rw (climb_skips n ns user b done e none_set)
            (climb_again ns b rows done (rw (climb_skips n ns user b rows e none_set) at all))
      | inr (percentage, set) ↦
          let c = commission_of p n b percentage in
          let made = (get_or_create_commission c rows).1 in
          let paid = rw (climb_pays n ns user b percentage rows e set) at all in
          let (old, there) = paid c.payment c.beneficiary c.level (
            climb-keeps ns b made c.payment c.beneficiary c.level (get_or_create-records c rows)) in
          let found : get_or_create_commission c done ≡ (old, done) =
            get_or_create-found c old done there in
          rw (climb_pays n ns user b percentage done e set, found) (climb_again ns b made done paid)
    ]
  ]

  climb-length :
      (levels : List ℕ) (user : ℕ) (rows : List ReferralCommission)
      → (length (climb p levels user rows).0 ≤ length levels)
        × (length (climb p levels user rows).1 ≤ length rows + length (climb p levels user rows).0)
  unfolding climb
  climb-length [] user rows = (omega arith, omega arith)
  climb-length (n ∷ ns) user rows = elim (Option-cases (upline p.referrals user)) [
    | inl e ↦ rw (climb_stops n ns user rows e) (omega arith, omega arith)
    | inr (b, e) ↦ elim (Option-cases (level_percentage n p.levels)) [
      | inl none_set ↦
          let rest = climb-length ns b rows in
          rw (climb_skips n ns user b rows e none_set) (omega (arith, rest.0), rest.1)
      | inr (percentage, set) ↦
          let c = commission_of p n b percentage in
          let rest = climb-length ns b (get_or_create_commission c rows).1 in
          let grown = get_or_create-length c rows in
          rw (climb_pays n ns user b percentage rows e set)
            (omega (arith, rest.0), omega (arith, rest.1, grown))
    ]
  ]

-- Accruing the commissions of a publication's payment again, with the same levels and referrals,
-- leaves the ledger as the first accrual did.
pub accrue_twice :
    (p : Publication) (rows : List ReferralCommission)
    → let once = (accrue_store_publication_commissions p rows).1 in
      (accrue_store_publication_commissions p once).1 ≡ once
unfolding accrue_store_publication_commissions
accrue_twice p rows =
    climb_again p level_numbers p.source_user rows (climb p level_numbers p.source_user rows).1
      (λ payment beneficiary level h. h)

-- An accrual ends after seven levels at most, whatever the referrals, also where they go round:
-- it answers with at most seven commissions, and adds no more rows than it answers with.
pub accrue_at_most_seven :
    (p : Publication) (rows : List ReferralCommission)
    → let run = accrue_store_publication_commissions p rows in
      (length run.0 ≤ 7) × (length run.1 ≤ length rows + length run.0)
unfolding accrue_store_publication_commissions
accrue_at_most_seven p rows = climb-length p level_numbers p.source_user rows
