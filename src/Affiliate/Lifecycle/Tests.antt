-- ===== src/Affiliate/Lifecycle/Tests.antt =====
-- A commission whose seller was already paid out.
use asoud_backend_full.Affiliate.{Commission, available, paid, reversed}
use asoud_backend_full.Affiliate.Lifecycle.{
  schedule_order_commissions, release_marketers, release_due_commissions, reverse_order_commissions,
  update_where,
}
use asoud_backend_full.Affiliate.Lifecycle.Moves.{Follows, commissions_follow}
use asoud_backend_full.Prelude.{◌≡◌, refl, none, some, [], ◌∷◌}
use asoud_backend_full.Prelude.Int.{pos}

abbrev row : Commission
row = record {
  order = 40;
  order_item = 1;
  affiliate_product = 70;
  seller = 9;
  marketer = 8;
  quantity = 2;
  customer_total = 6000;
  seller_total = 5000;
  gross_commission = 1000;
  platform_fee = 100;
  marketer_total = pos 900;
  status = available;
  available_at = some 5;
  seller_status = paid;
  seller_available_at = some 5;
}

-- A reversal forgets that the seller was paid.
paid_seller_is_reversed :
    reverse_order_commissions 40 (row ∷ [])
    ≡ (1, record row { status = reversed; seller_status = reversed } ∷ [])
unfolding reverse_order_commissions update_where
paid_seller_is_reversed = refl

commissions_follow_example :
    Follows (row ∷ []) (schedule_order_commissions 9 7 40 (row ∷ []))
    × Follows (row ∷ []) (release_marketers 9 none (row ∷ []))
    × Follows (release_marketers 9 none (row ∷ [])) (release_due_commissions 9 none (row ∷ [])).1
    × Follows (row ∷ []) (reverse_order_commissions 40 (row ∷ [])).1
commissions_follow_example = commissions_follow 9 7 40 none (row ∷ [])
