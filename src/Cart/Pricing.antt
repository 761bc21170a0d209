-- ===== src/Cart/Pricing.antt =====
-- The price of an item, before and after discounts: the body of the loop of `snapshot_order` and
-- `clear_order_snapshot` of apps/cart/services.py, and `Order.total_price` and
-- `OrderItem.total_price` of apps/cart/models.py.
use asoud_backend_full.Cart.Rows.{
  Discount, ProductDiscount, Product, AffiliateProduct, Order, OrderItem, Shop, Env,
}
use asoud_backend_full.Cart.Catalog.{canonical_id}
use asoud_backend_full.Cart.Discounts.{code_applies_to_item, automatic_discount}
use asoud_backend_full.Prelude.{
  ℕ, ◌-◌, ◌*◌, ◌^◌, Bool, not, ◌&&◌, Option, none, some, List, [], ◌∷◌, ltb, sum_of, if◌then◌else◌,
}
use asoud_backend_full.Exec.{Exec, does_not_exist, order_model, or_raise, modify, atomic, ◌>>=◌}
use asoud_backend_full.Table.{lookup, update}
use asoud_backend_full.Money.Quantum.{half_up}

-- `OrderItem.total_price`: the snapshot price, or the live one.
unfoldable pub item_total : Shop → OrderItem → ℕ
item_total s item = elim item.unit_price [
  | some price ↦ price * item.quantity
  | none ↦ elim item.product [
    | some p ↦ elim (lookup p s.products) [
      | none ↦ 0
      | some product ↦ product.main_price * item.quantity
    ]
    | none ↦ elim item.affiliate [
      | some a ↦ elim (lookup a s.affiliates) [
        | none ↦ 0
        | some affiliate ↦ affiliate.price * item.quantity
      ]
      | none ↦ 0
    ]
  ]
]

-- `Order.total_price`
unfoldable pub total_price : Shop → Order → ℕ
unfolding item_total
total_price s order = elim order.payable_amount [
  | some amount ↦ amount
  | none ↦ sum_of (item_total s) order.items
]

-- `_lock_order`
unfoldable pub lock_order : ℕ → Exec Shop Order
lock_order id s = or_raise (lookup id s.orders) (does_not_exist order_model) s

-- `order.save(...)`, and the saves of its items
unfoldable pub save_order : ℕ → Order → Exec Shop (Unit {0})
save_order id order s = modify (λ (t : Shop). record t { orders = update id order t.orders }) s

cleared_item : OrderItem → OrderItem
cleared_item item = record item {
  unit_price = none;
  product_discount = none;
  product_discount_percentage_snapshot = 0;
}

clear_items : List OrderItem → List OrderItem
unfolding cleared_item
clear_items [] = []
clear_items (item ∷ items) = cleared_item item ∷ clear_items items

unfoldable pub clear_order_snapshot : ℕ → Exec Shop (Unit {0})
unfolding lock_order save_order clear_items
clear_order_snapshot id = atomic (do
  order ← lock_order id
  save_order id (record order {
    discount = none;
    discount_code_snapshot = 0;
    discount_percentage_snapshot = 0;
    subtotal_amount = none;
    discount_amount = 0;
    shipping_method = none;
    shipping_method_name_snapshot = 0;
    shipping_amount = 0;
    payable_amount = none;
    items = clear_items order.items;
  }))

-- The price before discounts: `target.main_price` or `target.price`.
unfoldable pub base_price : Shop → OrderItem → Option ℕ
base_price s item = elim item.product [
  | some p ↦ elim (lookup p s.products) [ none ↦ none | some product ↦ some product.main_price ]
  | none ↦ elim item.affiliate [
    | none ↦ none
    | some a ↦ elim (lookup a s.affiliates) [ none ↦ none | some affiliate ↦ some affiliate.price ]
  ]
]

-- What is decided for an item: the percentage of the code, and the automatic discount.
pub record Offer : Type 0 where
  pub code_percentage : ℕ
  pub automatic : Option (ℕ × ProductDiscount)

unfoldable pub automatic_percentage : Offer → ℕ
automatic_percentage o = elim o.automatic [ none ↦ 0 | some row ↦ row.1.percentage ]

-- Discounts never stack; on a tie the code is preferred.
unfoldable pub automatic_wins : Offer → Bool
unfolding automatic_percentage
automatic_wins o = ltb o.code_percentage (automatic_percentage o)

unfoldable pub applied_percentage : Offer → ℕ
unfolding automatic_wins
applied_percentage o = if automatic_wins o then automatic_percentage o else o.code_percentage

unfoldable pub uses_code : Offer → Bool
unfolding automatic_wins
uses_code o = ltb 0 o.code_percentage && not (automatic_wins o)

abbrev pub percentage_of : Option Discount → ℕ
percentage_of none = 0
percentage_of (some d) = d.percentage

unfoldable pub offer : Env → Shop → Option Discount → ℕ → Order → OrderItem → Offer
offer env s discount market order item = record {
  code_percentage =
      if code_applies_to_item s discount item market then percentage_of discount else 0;
  automatic = automatic_discount env s order (canonical_id s item);
}

unfoldable pub discounted_price : ℕ → Offer → ℕ
unfolding applied_percentage
discounted_price base o = half_up (base * (100 - applied_percentage o)) 100

-- The fields that `snapshot_order` sets on every item.
priced : ℕ → Offer → OrderItem → OrderItem
unfolding discounted_price
priced unit o item = record item {
  unit_price = some unit;
  product_discount =
      if automatic_wins o then elim o.automatic [ none ↦ none | some row ↦ some row.0 ] else none;
  product_discount_percentage_snapshot = if automatic_wins o then automatic_percentage o else 0;
}

-- An item sold by its own store.
unfoldable pub own_item : ℕ → Offer → Product → OrderItem → OrderItem
unfolding priced
own_item unit o product item = record (priced unit o item) {
  source_market = some product.market;
  affiliate_market = none;
  seller_settlement_unit_snapshot = none;
  affiliate_gross_unit_snapshot = none;
  affiliate_platform_fee_unit_snapshot = none;
}

-- `_quantize(gross * fee_percent / Decimal('100'))`. The product is exact in Python too as long as it
-- has at most 28 digits, the precision of decimals there.
unfoldable pub platform_fee : Env → ℕ → ℕ
platform_fee env gross = half_up (gross * env.fee_coefficient) (100 * 10 ^ env.fee_scale)

-- An item sold by an affiliate at `unit`, of which the seller is settled `settlement`.
unfoldable pub affiliate_item :
    Env → ℕ → Offer → AffiliateProduct → Product → ℕ → OrderItem → OrderItem
unfolding priced platform_fee
affiliate_item env unit o affiliate source settlement item = record (priced unit o item) {
  source_market = some source.market;
  affiliate_market = some affiliate.market;
  seller_settlement_unit_snapshot = some settlement;
  affiliate_gross_unit_snapshot = some (half_up (unit - settlement) 1);
  affiliate_platform_fee_unit_snapshot = some (platform_fee env (half_up (unit - settlement) 1));
}
