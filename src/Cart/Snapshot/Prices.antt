-- ===== src/Cart/Snapshot/Prices.antt =====
-- The price of one item: which discount applies, and how an affiliate's price is split.
use asoud_backend_full.Cart.Rows.{Discount, Product, AffiliateProduct, Order, OrderItem, Shop, Env}
use asoud_backend_full.Cart.Catalog.{inventory_target}
use asoud_backend_full.Cart.Pricing.{
  Offer, offer, base_price, automatic_percentage, automatic_wins, applied_percentage, uses_code,
  discounted_price, own_item, affiliate_item, platform_fee,
}
use asoud_backend_full.Cart.Snapshot.{
  Line, id_of, settle, price_line, price_item, affiliate_of, line_base, line_total,
}
use asoud_backend_full.Prelude.{
  ℕ, ◌+◌, ◌-◌, ◌*◌, ◌^◌, ◌≤◌, ◌≡◌, refl, sym, max, Option, none, some, arith, ltb, leb, ◌&&◌, ap,
  ◌∙◌, if◌then◌else◌, inl, inr, Option-cases,
}
use asoud_backend_full.Exec.{ok}
use asoud_backend_full.Money.Normalize.{ten_pow_pos}
use asoud_backend_full.Money.Quantum.{half_up, percent_of, percent_of-le, half_up-one, half_up-le}
use native.Mathlib.Nat.{mul-le-mul_right, mul-le-mul_left}

discounted_price-le : (base : ℕ) (o : Offer) → discounted_price base o ≤ base
unfolding discounted_price percent_of applied_percentage
discounted_price-le base o = percent_of-le base (100 - applied_percentage o) (omega arith)

settle-unit :
    (env : Env) (unit : ℕ) (o : Offer) (a : AffiliateProduct) (p : Product) (price : Option ℕ)
    (item item' : OrderItem)
    → settle env unit o a p price item ≡ ok item'
    → item'.unit_price ≡ some unit
unfolding settle affiliate_item
settle-unit env unit o a p none item item' h = absurd (cc)
settle-unit env unit o a p (some price) item item' h = ground arith

price_line-unit :
    (env : Env) (o : Offer) (base : ℕ) (p : Option Product) (a : Option AffiliateProduct)
    (item item' : OrderItem)
    → price_line env o base p a item ≡ ok item'
    → item'.unit_price ≡ some (discounted_price base o)
unfolding price_line own_item
price_line-unit env o base none a item item' h = absurd (cc)
price_line-unit env o base (some p) none item item' h = ground arith
price_line-unit env o base (some p) (some a) item item' h =
    settle-unit env (discounted_price base o) o a p p.marketer_price item item' h

-- What checkout makes of an item of the shop whose offer is `o`.
pub record IsBestPrice (s : Shop) (item : OrderItem) (o : Offer) (line : Line) : Type 0 where
  pub base_lem : base_price s item ≡ some line.base
  pub quantity_lem : line.item.quantity ≡ item.quantity
  pub unit_price_lem :
      line.item.unit_price
      ≡ some (half_up (line.base * (100 - max o.code_percentage (automatic_percentage o))) 100)
  pub with_code_lem :
      line.with_code ≡ (ltb 0 o.code_percentage && leb (automatic_percentage o) o.code_percentage)
  pub product_discount_lem :
      line.item.product_discount
      ≡ (if ltb o.code_percentage (automatic_percentage o) then id_of o.automatic else none)

settle-product_discount :
    (env : Env) (unit : ℕ) (o : Offer) (a : AffiliateProduct) (p : Product) (price : Option ℕ)
    (item item' : OrderItem)
    → settle env unit o a p price item ≡ ok item'
    → item'.product_discount
      ≡ (if ltb o.code_percentage (automatic_percentage o) then id_of o.automatic else none)
unfolding settle affiliate_item automatic_wins
settle-product_discount env unit o a p none item item' h = absurd (cc)
settle-product_discount env unit o a p (some price) item item' h = elim (Option-cases o.automatic) [
  | inl e ↦ ground arith
  | inr (row, e) ↦ ground arith
]

price_line-product_discount :
    (env : Env) (o : Offer) (base : ℕ) (p : Option Product) (a : Option AffiliateProduct)
    (item item' : OrderItem)
    → price_line env o base p a item ≡ ok item'
    → item'.product_discount
      ≡ (if ltb o.code_percentage (automatic_percentage o) then id_of o.automatic else none)
unfolding price_line own_item automatic_wins
price_line-product_discount env o base none a item item' h = absurd (cc)
price_line-product_discount env o base (some p) none item item' h =
    elim (Option-cases o.automatic) [ inl e ↦ ground arith | inr (row, e) ↦ ground arith ]
price_line-product_discount env o base (some p) (some a) item item' h =
    settle-product_discount env (discounted_price base o) o a p p.marketer_price item item' h

settle-quantity :
    (env : Env) (unit : ℕ) (o : Offer) (a : AffiliateProduct) (p : Product) (price : Option ℕ)
    (item item' : OrderItem)
    → settle env unit o a p price item ≡ ok item'
    → item'.quantity ≡ item.quantity
unfolding settle affiliate_item
settle-quantity env unit o a p none item item' h = absurd (cc)
settle-quantity env unit o a p (some price) item item' h = ground arith

price_line-quantity :
    (env : Env) (o : Offer) (base : ℕ) (p : Option Product) (a : Option AffiliateProduct)
    (item item' : OrderItem)
    → price_line env o base p a item ≡ ok item'
    → item'.quantity ≡ item.quantity
unfolding price_line own_item
price_line-quantity env o base none a item item' h = absurd (cc)
price_line-quantity env o base (some p) none item item' h = ground arith
price_line-quantity env o base (some p) (some a) item item' h =
    settle-quantity env (discounted_price base o) o a p p.marketer_price item item' h

discounted_price-max :
    (base : ℕ) (o : Offer)
    → discounted_price base o
      ≡ half_up (base * (100 - max o.code_percentage (automatic_percentage o))) 100
unfolding discounted_price applied_percentage automatic_wins
discounted_price-max base o =
    let m : (if ltb o.code_percentage (automatic_percentage o)
          then automatic_percentage o
          else o.code_percentage)
        ≡ max o.code_percentage (automatic_percentage o) =
      ground arith in
    rw m refl

uses_code-best :
    (o : Offer)
    → uses_code o ≡ (ltb 0 o.code_percentage && leb (automatic_percentage o) o.code_percentage)
unfolding uses_code automatic_wins
uses_code-best o = ground arith

-- Discounts never stack: an item that checkout prices keeps its quantity, and its unit costs the
-- base price that the shop has for the item, less the larger of the percentage of the code and that
-- of the automatic discount, rounded half up. The code counts as used only if it is
-- at least as good, and the automatic discount is held only if it is strictly better.
pub price_item-IsBestPrice :
    (env : Env) (s : Shop) (d : Option Discount) (market : ℕ) (order : Order) (item : OrderItem)
    (line : Line)
    → price_item env s d market order item ≡ ok line
    → IsBestPrice s item (offer env s d market order item) line
unfolding price_item
price_item-IsBestPrice env s d market order item line h = elim (Option-cases (base_price s item)) [
  | inl e ↦ absurd (ground arith)
  | inr (base, e) ↦
      let o = offer env s d market order item in
      let p = inventory_target s item in
      let a = affiliate_of s item in
      let u = price_line-unit env o base p a item line.item (ground arith) in
      let b : line.base ≡ base = ground arith in
      let c : line.with_code ≡ uses_code o = ground arith in
      record {
        base_lem = e ∙ ap some (sym b);
        quantity_lem = price_line-quantity env o base p a item line.item (ground arith);
        unit_price_lem = u ∙ ap some (rw b (discounted_price-max base o));
        with_code_lem = c ∙ uses_code-best o;
        product_discount_lem =
            price_line-product_discount env o base p a item line.item (ground arith);
      }
]

-- A line is charged at most its base price.
pub price_item-le :
    (env : Env) (s : Shop) (d : Option Discount) (market : ℕ) (order : Order) (item : OrderItem)
    (line : Line)
    → price_item env s d market order item ≡ ok line
    → line_total line ≤ line_base line
unfolding price_item
price_item-le env s d market order item line h = elim (Option-cases (base_price s item)) [
  | inl e ↦ absurd (ground arith)
  | inr (base, e) ↦
      let o = offer env s d market order item in
      let u =
        price_line-unit env o base (inventory_target s item) (affiliate_of s item) item line.item
          (ground arith) in
      let b : line.base ≡ base = ground arith in
      rw (u, b) (mul-le-mul_right line.item.quantity (discounted_price-le base o))
]

-- The fee is part of the commission.
platform_fee-le :
    (env : Env) (gross : ℕ)
    → env.fee_coefficient ≤ 100 * 10 ^ env.fee_scale
    → platform_fee env gross ≤ gross
unfolding platform_fee
platform_fee-le env gross h =
    half_up-le (gross * env.fee_coefficient) (100 * 10 ^ env.fee_scale) gross
      (omega (arith, ten_pow_pos env.fee_scale)) (mul-le-mul_left gross h)

-- If the platform's fee is at most 100 percent, the price of an affiliate's item is the seller's
-- settlement and the gross commission, and the fee comes out of the commission.
pub settle_splits_price :
    (env : Env) (unit : ℕ) (o : Offer) (a : AffiliateProduct) (p : Product) (price : Option ℕ)
    (item item' : OrderItem)
    → env.fee_coefficient ≤ 100 * 10 ^ env.fee_scale
    → settle env unit o a p price item ≡ ok item'
    → (settlement : ℕ) × (gross : ℕ) × (fee : ℕ) × (item'.seller_settlement_unit_snapshot
        ≡ some settlement)
      × (item'.affiliate_gross_unit_snapshot ≡ some gross)
      × (item'.affiliate_platform_fee_unit_snapshot ≡ some fee)
      × (item'.unit_price ≡ some (settlement + gross))
      × (fee ≤ gross)
unfolding settle affiliate_item
settle_splits_price env unit o a p none item item' hf h = absurd (cc)
settle_splits_price env unit o a p (some price) item item' hf h =
    let settlement = half_up price 1 in
    let gross = half_up (unit - settlement) 1 in
    let g = half_up-one (unit - settlement) in
    (
      settlement,
      gross,
      platform_fee env gross,
      ground arith,
      ground arith,
      ground arith,
      ground (arith, g),
      platform_fee-le env gross hf,
    )
