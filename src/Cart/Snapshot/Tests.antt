-- ===== src/Cart/Snapshot/Tests.antt =====
-- Checkout of the sample order, and the price theorems at it.
use asoud_backend_full.Cart.Rows.{Order, OrderItem, AffiliateProduct, published}
use asoud_backend_full.Cart.Sample.{env, order, item, shop, product}
use asoud_backend_full.Cart.Pricing.{
  Offer, automatic_wins, uses_code, affiliate_item, base_price, own_item, offer,
}
use asoud_backend_full.Cart.Catalog.{inventory_target, validate_items, requires_store_shipping}
use asoud_backend_full.Cart.Discounts.{code_applies_to_item, automatic_discount}
use asoud_backend_full.Cart.Snapshot.{Line, price_item, snapshot_order, settle}
use asoud_backend_full.Cart.Snapshot.Prices.{
  IsBestPrice, price_item-IsBestPrice, settle_splits_price,
}
use asoud_backend_full.Cart.Snapshot.Totals.{IsBalanced, snapshot_order-IsBalanced}
use asoud_backend_full.Prelude.{ℕ, ◌+◌, ◌≤◌, ◌≡◌, refl, arith, false, some, none, [], ◌∷◌}
use asoud_backend_full.Exec.{ok, err, integrity, discount_not_found}
use asoud_backend_full.Table.{lookup, update}
use asoud_backend_full.Money.Quantum.{half_up}

abbrev checked_out : Order
checked_out = record order {
  subtotal_amount = some 6000;
  payable_amount = some 6000;
  items = record item { unit_price = some 3000; source_market = some 1 } ∷ [];
}

snapshot_sample :
    snapshot_order env 40 none none shop
    ≡ (ok checked_out, record shop { orders = (40, checked_out) ∷ [] })
unfolding lookup update half_up validate_items snapshot_order requires_store_shipping base_price
    own_item offer code_applies_to_item automatic_discount uses_code
snapshot_sample = refl

-- A code of blanks is no discount's.
blank_code_refused :
    (snapshot_order env 40 (some 0) none shop).0 ≡ err (integrity discount_not_found)
unfolding lookup validate_items snapshot_order
blank_code_refused = refl

snapshot_order-IsBalanced_example :
    (lookup 40 ((40, checked_out) ∷ []) ≡ some checked_out) × IsBalanced checked_out
snapshot_order-IsBalanced_example =
    snapshot_order-IsBalanced env 40 none none shop
      (record shop { orders = (40, checked_out) ∷ [] }) checked_out snapshot_sample

abbrev tie : Offer
tie = record { code_percentage = 20; automatic = none }

abbrev line : Line
line = record {
  item = record item { unit_price = some 3000; source_market = some 1 };
  base = 3000;
  with_code = false;
}

line_sample : price_item env shop none 1 order item ≡ ok line
unfolding price_item base_price own_item offer lookup half_up uses_code automatic_discount
    code_applies_to_item inventory_target
line_sample = refl

price_item-IsBestPrice_example : IsBestPrice shop item (offer env shop none 1 order item) line
price_item-IsBestPrice_example = price_item-IsBestPrice env shop none 1 order item line line_sample

abbrev affiliate : AffiliateProduct
affiliate = record { market = 2; product = 7; status = published; stock = 1; price = 3000 }

abbrev settled : OrderItem
settled = record item {
  unit_price = some 3000;
  source_market = some 1;
  affiliate_market = some 2;
  seller_settlement_unit_snapshot = some 2500;
  affiliate_gross_unit_snapshot = some 500;
  affiliate_platform_fee_unit_snapshot = some 50;
}

settle_sample : settle env 3000 tie affiliate product (some 2500) item ≡ ok settled
unfolding settle affiliate_item automatic_wins half_up
settle_sample = refl

settle_splits_price_example :
    (settlement : ℕ) × (gross : ℕ) × (fee : ℕ) × (settled.seller_settlement_unit_snapshot
      ≡ some settlement)
    × (settled.affiliate_gross_unit_snapshot ≡ some gross)
    × (settled.affiliate_platform_fee_unit_snapshot ≡ some fee)
    × (settled.unit_price ≡ some (settlement + gross))
    × (fee ≤ gross)
settle_splits_price_example =
    settle_splits_price env 3000 tie affiliate product (some 2500) item settled (omega arith)
      settle_sample
