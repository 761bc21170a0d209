-- ===== src/Cart/Snapshot.antt =====
-- `snapshot_order` of apps/cart/services.py: the prices and totals that checkout fixes.
pub mod Prices
pub mod Totals
pub mod Lines
mod Tests
use asoud_backend_full.Cart.Rows.{
  Discount, ProductDiscount, Product, AffiliateProduct, ShippingMethod, OrderType, online_order,
  Order, OrderItem, Shop, Env,
}
use asoud_backend_full.Cart.Catalog.{
  canonical_id, inventory_target, requires_store_shipping, validate_items,
}
use asoud_backend_full.Cart.Discounts.{validate_discount}
use asoud_backend_full.Cart.Pricing.{
  Offer, offer, uses_code, base_price, discounted_price, own_item, affiliate_item, lock_order,
  save_order, percentage_of,
}
use asoud_backend_full.Prelude.{
  ℕ, ◌+◌, ◌-◌, ◌*◌, ◌%◌, Bool, true, false, not, ◌&&◌, ◌||◌, Option, none, some, List, [], ◌∷◌, ltb,
  ◌==◌, any, sum_of, if◌then◌else◌,
}
use asoud_backend_full.Exec.{
  Exec, Fault, Result, ok, err, integrity, attribute_error, discount_not_found,
  shipping_method_required, shipping_method_invalid, shipping_not_required,
  affiliate_discount_invalid, invalid_total, invalid_gateway_total, pure, raise, raise_if, or_raise,
  gets, atomic, ◌and_then◌, unless_fault, ◌>>=◌, ◌>>◌,
}
use asoud_backend_full.Table.{Table, lookup}
use asoud_backend_full.Money.Quantum.{half_up}

-- The item of an affiliate, unless the discount goes below the seller's settlement.
unfoldable pub settle :
    Env → ℕ → Offer → AffiliateProduct → Product → Option ℕ → OrderItem → Result OrderItem
settle env unit o affiliate source none item = err attribute_error
settle env unit o affiliate source (some price) item =
    let settlement = half_up price 1 in
    if ltb unit settlement
    then err (integrity affiliate_discount_invalid)
    else ok (affiliate_item env unit o affiliate source settlement item)

-- One round of the loop, on the base price, the source product and the affiliate product if any.
pub price_line :
    Env → Offer → ℕ → Option Product → Option AffiliateProduct → OrderItem → Result OrderItem
unfolding settle
price_line env o base none affiliate item = err attribute_error
price_line env o base (some source) none item =
    ok (own_item (discounted_price base o) o source item)
price_line env o base (some source) (some affiliate) item =
    settle env (discounted_price base o) o affiliate source source.marketer_price item

-- The affiliate product of an item that is not sold by its own store.
pub affiliate_of : Shop → OrderItem → Option AffiliateProduct
affiliate_of s item = elim item.affiliate [ none ↦ none | some a ↦ lookup a s.affiliates ]

pub record Line : Type 0 where
  pub item : OrderItem
  pub base : ℕ
  pub with_code : Bool

pub price_item : Env → Shop → Option Discount → ℕ → Order → OrderItem → Result Line
unfolding price_line affiliate_of
price_item env s discount market order item = elim (base_price s item) [
  | none ↦ err attribute_error
  | some base ↦
      let o = offer env s discount market order item in
      elim (price_line env o base (inventory_target s item) (affiliate_of s item) item) [
        | err e ↦ err e
        | ok item' ↦ ok (record { item = item'; base = base; with_code = uses_code o })
      ]
]

-- The loop: the items with their prices, or the first exception.
pub price_items : Env → Shop → Option Discount → ℕ → Order → List OrderItem → Result (List Line)
unfolding price_item
price_items env s discount market order [] = ok []
price_items env s discount market order (item ∷ items) =
    elim (price_item env s discount market order item) [
      | err e ↦ err e
      | ok line ↦ elim (price_items env s discount market order items) [
        | err e ↦ err e
        | ok lines ↦ ok (line ∷ lines)
      ]
    ]

-- `Decimal(base_price) * item.quantity` and `item.unit_price * item.quantity`
abbrev pub line_base : Line → ℕ
line_base l = l.base * l.item.quantity

abbrev pub line_total : Line → ℕ
line_total l = elim l.item.unit_price [ none ↦ 0 | some price ↦ price * l.item.quantity ]

-- `Discount.objects.get(code__iexact=discount_code.strip())`; codes are compared as numbers that
-- stand for the stripped text without regard to case.
pub find_code : ℕ → Table Discount → Option (ℕ × Discount)
find_code code [] = none
find_code code (row ∷ rows) = if row.1.code == code then some row else find_code code rows

abbrev pub or_fault : Option Fault → Exec Shop (Unit {0})
or_fault none s = (ok tt, s)
or_fault (some e) s = (err e, s)

abbrev pub lift : {A : Type 0} → Result A → Exec Shop A
lift r s = (r, s)

-- The discount of the code, checked; `none` where no code is given. A code of blanks is given, and
-- its stripped text is the empty one, 0.
pub resolve_discount :
    Env → Shop → Option ℕ → ℕ → Order → List OrderItem → ℕ → Result (Option (ℕ × Discount))
unfolding find_code
resolve_discount env s code order_id order items market = elim code [
  | none ↦ ok none
  | some text ↦ elim (find_code text s.discounts) [
    | none ↦ err (integrity discount_not_found)
    | some (id, d) ↦
        unless_fault (validate_discount env s id d order_id order items market false) (some (id, d))
  ]
]

-- `MarketShippingMethod.objects.get(id=…, market_id=…, is_active=True)`
active_method : Shop → ℕ → ℕ → Option ShippingMethod
active_method s id market = elim (lookup id s.shipping_methods) [
  | none ↦ none
  | some m ↦ if m.market == market && m.is_active then some m else none
]

pub resolve_shipping : Shop → Bool → Option ℕ → ℕ → Result (Option (ℕ × ShippingMethod))
unfolding active_method
resolve_shipping s true none market = err (integrity shipping_method_required)
resolve_shipping s true (some id) market = elim (active_method s id market) [
  | none ↦ err (integrity shipping_method_invalid)
  | some m ↦ ok (some (id, m))
]
resolve_shipping s false none market = ok none
resolve_shipping s false (some id) market = err (integrity shipping_not_required)

-- The discount that is kept: only if its code lowered the price of some item.
pub kept_discount : Option (ℕ × Discount) → List Line → Option (ℕ × Discount)
kept_discount discount lines = if any (λ (l : Line). l.with_code) lines then discount else none

abbrev pub row_of {ℓ} : {A : Type ℓ} → Option (ℕ × A) → Option A
row_of none = none
row_of (some r) = some r.1

abbrev pub id_of {ℓ} : {A : Type ℓ} → Option (ℕ × A) → Option ℕ
id_of none = none
id_of (some r) = some r.0

abbrev pub line_items : List Line → List OrderItem
line_items [] = []
line_items (l ∷ ls) = l.item ∷ line_items ls

-- The totals of the order; each is rounded to thousandths.
pub totalled : Order → Option (ℕ × Discount) → Option (ℕ × ShippingMethod) → List Line → Order
unfolding kept_discount
totalled order discount shipping lines =
    let subtotal = half_up (sum_of line_base lines) 1 in
    let payable = half_up (sum_of line_total lines) 1 in
    let kept = kept_discount discount lines in
    let price = half_up (elim shipping [ none ↦ 0 | some m ↦ m.1.price ]) 1 in
    record order {
      discount = id_of kept;
      discount_code_snapshot = elim kept [ none ↦ 0 | some d ↦ d.1.code ];
      discount_percentage_snapshot = percentage_of (row_of kept);
      subtotal_amount = some subtotal;
      discount_amount = half_up (subtotal - payable) 1;
      shipping_method = id_of shipping;
      shipping_method_name_snapshot = elim shipping [ none ↦ 0 | some m ↦ m.1.name ];
      shipping_amount = price;
      payable_amount = some (half_up (payable + price) 1);
      items = line_items lines;
    }

unfoldable pub is_online : Order → Bool
is_online order = elim order.type [ online_order ↦ true | _ ↦ false ]

abbrev pub payable_of : Order → ℕ
payable_of order = elim order.payable_amount [ none ↦ 0 | some amount ↦ amount ]

-- The gateway takes whole toman only.
pub check_total : Order → Option Fault
unfolding is_online
check_total order =
    if payable_of order == 0
    then some (integrity invalid_total)
    else if is_online order && not (payable_of order % 1000 == 0)
    then some (integrity invalid_gateway_total)
    else none

-- What `snapshot_order` writes, from the validated order.
pub priced_order : Env → Shop → ℕ → Order → Option ℕ → Option ℕ → ℕ → Result Order
unfolding resolve_discount resolve_shipping price_items totalled check_total
priced_order env s id order code method market =
    resolve_discount env s code id order order.items market and_then λ discount.
    resolve_shipping s (any (requires_store_shipping s) order.items) method market
    and_then λ shipping.
        price_items env s (row_of discount) market order order.items and_then λ lines.
        let order' = totalled order discount shipping lines in
        unless_fault (check_total order') order'

-- The order is validated, then priced.
pub snapshot_of : Env → Shop → ℕ → Order → Option ℕ → Option ℕ → Result Order
unfolding priced_order
snapshot_of env s id order code method =
    validate_items s order.items and_then λ market. priced_order env s id order code method market

unfoldable pub snapshot_order : Env → ℕ → Option ℕ → Option ℕ → Exec Shop Order
unfolding lock_order save_order snapshot_of
snapshot_order env id code method = atomic (do
  order ← lock_order id
  s ← gets (λ s. s)
  order' ← lift (snapshot_of env s id order code method)
  save_order id order'
  pure order')
