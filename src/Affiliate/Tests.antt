-- ===== src/Affiliate/Tests.antt =====
-- An affiliate of market 2 sells two of product 7 at 3 toman, of which the seller gets 2.5.
use asoud_backend_full.Affiliate.{
  Commission, held, commission_row, commission_for, accrue_item, accrue_order_commissions,
  get_or_create,
}
use asoud_backend_full.Affiliate.Accrual.{accrue_idempotent}
use asoud_backend_full.Affiliate.Shares.{commission_shares_price}
use asoud_backend_full.Cart.Rows.{AffiliateProduct, Order, OrderItem, Shop, published}
use asoud_backend_full.Cart.Sample.{env, market, product, item, order, shop}
use asoud_backend_full.Cart.Pricing.{Offer, affiliate_item, automatic_wins}
use asoud_backend_full.Cart.Snapshot.{settle}
use asoud_backend_full.Prelude.{ℕ, ◌+◌, ◌≡◌, refl, arith, none, some, [], ◌∷◌}
use asoud_backend_full.Prelude.Int.{pos}
use asoud_backend_full.Exec.{ok, for_each}
use asoud_backend_full.Table.{lookup}
use asoud_backend_full.Money.Quantum.{half_up}

abbrev affiliate : AffiliateProduct
affiliate = record { market = 2; product = 7; status = published; stock = 1; price = 3000 }

abbrev no_discount : Offer
no_discount = record { code_percentage = 0; automatic = none }

abbrev ordered : OrderItem
ordered = record item { product = none; affiliate = some 70 }

abbrev sold : OrderItem
sold = record ordered {
  unit_price = some 3000;
  source_market = some 1;
  affiliate_market = some 2;
  seller_settlement_unit_snapshot = some 2500;
  affiliate_gross_unit_snapshot = some 500;
  affiliate_platform_fee_unit_snapshot = some 50;
}

abbrev fair : Shop
fair = record shop {
  markets = (1, market) ∷ (2, record market { user = 8 }) ∷ [];
  affiliates = (70, affiliate) ∷ [];
}

abbrev earned : Commission
earned = record {
  order = 40;
  order_item = 1;
  affiliate_product = 70;
  seller = 9;
  marketer = 8;
  quantity = 2;
  customer_total = 6000;
  seller_total = 5000;
  gross_commission = 1000;
  platform_fee = 100;
  marketer_total = pos 900;
  status = held;
  available_at = none;
  seller_status = held;
  seller_available_at = none;
}

settle_sample : settle env 3000 no_discount affiliate product (some 2500) ordered ≡ ok sold
unfolding settle affiliate_item automatic_wins half_up
settle_sample = refl

commission_sample : commission_for fair 40 sold 70 2500 ≡ ok earned
unfolding commission_for commission_row lookup half_up
commission_sample = refl

commission_shares_price_example :
    (m : ℕ) × (earned.marketer_total ≡ pos m)
    × (earned.customer_total ≡ earned.seller_total + earned.platform_fee + m)
commission_shares_price_example =
    commission_shares_price env 3000 no_discount affiliate product (some 2500) ordered sold fair 40
      70 2500 earned (omega arith) settle_sample refl commission_sample

abbrev paid_order : Order
paid_order = record order { items = sold ∷ [] }

accrue_sample : accrue_order_commissions fair 40 paid_order [] ≡ (ok tt, earned ∷ [])
unfolding accrue_order_commissions for_each accrue_item get_or_create lookup half_up commission_row
accrue_sample = refl

accrue_idempotent_example :
    accrue_order_commissions fair 40 paid_order (earned ∷ []) ≡ (ok tt, earned ∷ [])
accrue_idempotent_example = accrue_idempotent fair 40 paid_order [] (earned ∷ []) accrue_sample
