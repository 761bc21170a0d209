-- ===== src/Affiliate/Lifecycle.antt =====
-- What becomes of commissions: `schedule_order_commissions`, `release_due_commissions` and
-- `reverse_order_commissions` of apps/affiliate/services.py. `update` answers with the number of
-- rows that it found.
pub mod Moves
mod Tests
use asoud_backend_full.Affiliate.{Commission, CommissionStatus, held, available, paid, reversed}
use asoud_backend_full.Prelude.{
  ℕ, ◌+◌, ◌*◌, Bool, true, false, not, ◌&&◌, Option, none, some, List, [], ◌∷◌, leb, ◌==◌, keep,
  length, if◌then◌else◌,
}

abbrev pub is_withheld : CommissionStatus → Bool
is_withheld status = elim status [ held ↦ true | _ ↦ false ]

abbrev pub is_paid : CommissionStatus → Bool
is_paid status = elim status [ paid ↦ true | _ ↦ false ]

-- `available_at is not null and available_at <= now`
abbrev pub is_due : ℕ → Option ℕ → Bool
is_due now none = false
is_due now (some at) = leb at now

-- `queryset.filter(test).update(change)`
unfoldable pub update_where :
    (Commission → Bool) → (Commission → Commission) → List Commission → List Commission
update_where test change [] = []
update_where test change (row ∷ rows) =
    (if test row then change row else row) ∷ update_where test change rows

-- `marketer is None or row's user == marketer`
abbrev pub is_of : Option ℕ → ℕ → Bool
is_of none user = true
is_of (some wanted) user = user == wanted

abbrev pub is_scheduled : ℕ → Commission → Bool
is_scheduled order row = row.order == order && is_withheld row.status

-- `hold_days` is `max(0, AFFILIATE_RETURN_HOLD_DAYS)`.
abbrev pub schedule_row : ℕ → Commission → Commission
schedule_row at row = record row { available_at = some at; seller_available_at = some at }

unfoldable pub schedule_order_commissions : ℕ → ℕ → ℕ → List Commission → List Commission
schedule_order_commissions now hold_days order =
    update_where (is_scheduled order) (schedule_row (now + hold_days * 86400))

abbrev pub is_marketer_due : ℕ → Option ℕ → Commission → Bool
is_marketer_due now marketer row =
    is_withheld row.status && (is_due now row.available_at && is_of marketer row.marketer)

abbrev pub is_seller_due : ℕ → Option ℕ → Commission → Bool
is_seller_due now marketer row =
    is_withheld row.seller_status
    && (is_due now row.seller_available_at && is_of marketer row.seller)

abbrev pub release_marketer : Commission → Commission
release_marketer row = record row { status = available }

abbrev pub release_seller : Commission → Commission
release_seller row = record row { seller_status = available }

-- The first of the two updates.
unfoldable pub release_marketers : ℕ → Option ℕ → List Commission → List Commission
release_marketers now marketer = update_where (is_marketer_due now marketer) release_marketer

unfoldable pub release_due_commissions : ℕ → Option ℕ → List Commission → ℕ × List Commission
release_due_commissions now marketer rows = (
  length (keep (is_marketer_due now marketer) rows),
  update_where (is_seller_due now marketer) release_seller (release_marketers now marketer rows),
)

abbrev pub is_reversible : ℕ → Commission → Bool
is_reversible order row = row.order == order && not (is_paid row.status)

abbrev pub reverse_row : Commission → Commission
reverse_row row = record row { status = reversed; seller_status = reversed }

-- The reason is a text for the reader only.
unfoldable pub reverse_order_commissions : ℕ → List Commission → ℕ × List Commission
reverse_order_commissions order rows =
    (length (keep (is_reversible order) rows), update_where (is_reversible order) reverse_row rows)
