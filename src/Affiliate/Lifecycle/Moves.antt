-- ===== src/Affiliate/Lifecycle/Moves.antt =====
-- How the statuses of commissions move.
use asoud_backend_full.Affiliate.{Commission, CommissionStatus, held, available, paid, reversed}
use asoud_backend_full.Affiliate.Lifecycle.{
  is_withheld, update_where, is_scheduled, schedule_row, schedule_order_commissions,
  is_marketer_due, is_seller_due, release_marketer, release_seller, release_marketers,
  release_due_commissions, is_reversible, reverse_row, reverse_order_commissions,
}
use asoud_backend_full.Prelude.{
  ℕ, ◌+◌, ◌*◌, ◌≡◌, ◌≢◌, refl, Bool, true, Option, List, [], ◌∷◌, arith, inl, inr, Bool-cases,
}

-- The marketer's status stays, matures, or is reversed unless it was paid out.
pub data Moves : CommissionStatus → CommissionStatus → Type 0 where
  stays : (a : CommissionStatus) → Moves a a
  matures : Moves held available
  reverses : (a : CommissionStatus) → a ≢ paid → Moves a reversed

-- The sale behind a row: all but its statuses and dates.
abbrev pub SameSale : Commission → Commission → Type 0
SameSale row row' =
    record row' {
      status = row.status;
      available_at = row.available_at;
      seller_status = row.seller_status;
      seller_available_at = row.seller_available_at;
    }
    ≡ row

abbrev pub IsStep : Commission → Commission → Type 0
IsStep row row' = SameSale row row' × Moves row.status row'.status

-- The same rows in the same order, each a step further.
abbrev pub Follows : List Commission → List Commission → Type 0
Follows [] [] = Unit
Follows (row ∷ rows) (row' ∷ rows') = IsStep row row' × Follows rows rows'
Follows _ _ = ⊥

update_where-Follows :
    (test : Commission → Bool) (change : Commission → Commission)
    → ((row : Commission) → test row ≡ true → IsStep row (change row))
    → (rows : List Commission) → Follows rows (update_where test change rows)
unfolding update_where
update_where-Follows test change step [] = tt
update_where-Follows test change step (row ∷ rows) =
    let rest = update_where-Follows test change step rows in
    elim (Bool-cases (test row)) [
      | inl e ↦ rw e (step row e, rest)
      | inr e ↦ rw e ((refl, stays row.status), rest)
    ]

withheld_matures : (a : CommissionStatus) → is_withheld a ≡ true → Moves a available
withheld_matures held h = matures
withheld_matures available h = absurd (cc)
withheld_matures paid h = absurd (cc)
withheld_matures reversed h = absurd (cc)

-- Scheduling, releasing (the marketers' rows, then the sellers') and reversing keep every row with
-- its sale and its amounts, and move the marketer's status only from held to available, or to
-- reversed unless it was paid.
pub commissions_follow :
    (now hold_days order : ℕ) (marketer : Option ℕ) (rows : List Commission)
    → Follows rows (schedule_order_commissions now hold_days order rows)
      × Follows rows (release_marketers now marketer rows)
      × Follows (release_marketers now marketer rows) (release_due_commissions now marketer rows).1
      × Follows rows (reverse_order_commissions order rows).1
unfolding schedule_order_commissions release_due_commissions reverse_order_commissions
    release_marketers
commissions_follow now hold_days order marketer rows = (
  update_where-Follows (is_scheduled order) (schedule_row (now + hold_days * 86400))
      (λ row h. (refl, stays row.status)) rows,
  update_where-Follows (is_marketer_due now marketer) release_marketer
      (λ row h. (refl, withheld_matures row.status (ground arith))) rows,
  update_where-Follows (is_seller_due now marketer) release_seller
      (λ row h. (refl, stays row.status)) (release_marketers now marketer rows),
  update_where-Follows (is_reversible order) reverse_row
      (λ row h. (refl, reverses row.status (λ p. ground arith))) rows,
)
