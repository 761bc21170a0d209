-- ===== src/Cart/Catalog.antt =====
-- What an order may hold: `_target_market_id`, `_inventory_target`, `validate_catalog_target`,
-- `_item_requires_store_shipping` and `_validate_items` of apps/cart/services.py.
-- A missing row where the code takes one for granted is an `AttributeError`; the foreign keys rule
-- it out in the database.
use asoud_backend_full.Cart.Rows.{
  good, person, customer, store_shipping, Product, AffiliateProduct, OrderItem, Shop, is_published,
}
use asoud_backend_full.Prelude.{
  ℕ, Bool, true, false, not, ◌&&◌, ◌||◌, Option, none, some, List, [], ◌∷◌, ltb, is_some, same_key,
  any, sum_of, if◌then◌else◌,
}
use asoud_backend_full.Exec.{
  Fault, integrity, attribute_error, unavailable_item, affiliate_price_invalid, empty_order,
  invalid_item, mixed_market_order, invalid_quantity, insufficient_stock, Result, ok, err,
}
use asoud_backend_full.Table.{lookup}

-- Checks are functions into `Option Fault`: `none` lets the code go on.
infixr 20 ◌then_check◌
abbrev pub ◌then_check◌ : Option Fault → Option Fault → Option Fault
none then_check next = next
some e then_check next = some e

abbrev pub fault_if : Bool → Fault → Option Fault
fault_if true e = some e
fault_if false e = none

-- `for x in xs: check(x)`
pub check_each {ℓ} : {A : Type ℓ} → (A → Option Fault) → List A → Option Fault
check_each check [] = none
check_each check (x ∷ xs) = check x then_check check_each check xs

-- `item.product_id or item.affiliate.product_id`
unfoldable pub canonical_id : Shop → OrderItem → Option ℕ
canonical_id s item = elim item.product [
  | some p ↦ some p
  | none ↦ elim item.affiliate [
    | none ↦ none
    | some a ↦ elim (lookup a s.affiliates) [
      | none ↦ none
      | some affiliate ↦ some affiliate.product
    ]
  ]
]

-- `_inventory_target`: the source seller owns the stock, for an affiliate's sale too.
unfoldable pub inventory_target : Shop → OrderItem → Option Product
unfolding canonical_id
inventory_target s item = elim (canonical_id s item) [ none ↦ none | some p ↦ lookup p s.products ]

-- `(item.product_id is None) == (item.affiliate_id is None)`
abbrev pub has_no_single_target : OrderItem → Bool
has_no_single_target item =
    if is_some item.product then is_some item.affiliate else not (is_some item.affiliate)

-- `_target_market_id`
unfoldable pub target_market_id : Shop → OrderItem → Option ℕ
unfolding inventory_target
target_market_id s item =
    if has_no_single_target item
    then none
    else elim (inventory_target s item) [ none ↦ none | some product ↦ some product.market ]

market_is_published : Shop → ℕ → Bool
market_is_published s m = elim (lookup m s.markets) [
  | none ↦ false
  | some market ↦ is_published market.status
]

below : Option ℕ → ℕ → Bool
below none price = true
below (some least) price = ltb price least

above : Option ℕ → ℕ → Bool
above none price = true
above (some most) price = ltb most price

-- The first test of `validate_catalog_target`, on the status of a target and its market.
unfoldable pub validate_product : Shop → Product → Option Fault
unfolding market_is_published
validate_product s product =
    fault_if (not (is_published product.status) || not (market_is_published s product.market))
      (integrity unavailable_item)

-- `validate_catalog_target` of an affiliate product and its source.
unfoldable pub validate_affiliate : Shop → AffiliateProduct → Product → Option Fault
unfolding market_is_published below above
validate_affiliate s affiliate source =
    fault_if (not (is_published affiliate.status) || not (market_is_published s affiliate.market))
      (integrity unavailable_item)
    then_check fault_if
        (not (is_published source.status)
          || (not source.is_marketer || not (market_is_published s source.market)))
        (integrity unavailable_item)
    then_check fault_if
        (not (is_some source.marketer_price)
          || (not (is_some source.maximum_sell_price)
              || (below source.marketer_price affiliate.price
                  || above source.maximum_sell_price affiliate.price)))
        (integrity affiliate_price_invalid)

-- `validate_catalog_target(item.product or item.affiliate)`
unfoldable pub validate_target : Shop → OrderItem → Option Fault
unfolding inventory_target validate_product validate_affiliate
validate_target s item = elim (inventory_target s item) [
  | none ↦ some attribute_error
  | some source ↦ elim item.product [
    | some p ↦ validate_product s source
    | none ↦ elim item.affiliate [
      | none ↦ some attribute_error
      | some a ↦ elim (lookup a s.affiliates) [
        | none ↦ some attribute_error
        | some affiliate ↦ validate_affiliate s affiliate source
      ]
    ]
  ]
]

is_good : Product → Bool
is_good p = elim p.type [ good ↦ true | _ ↦ false ]

is_in_person : Product → Bool
is_in_person p = elim p.sell_type [ person ↦ true | _ ↦ false ]

uses_store_shipping : Product → Bool
uses_store_shipping p = elim p.ship_cost_pay_type [
  | store_shipping ↦ true
  | customer ↦ true
  | _ ↦ false
]

-- `_item_requires_store_shipping`
unfoldable pub requires_store_shipping : Shop → OrderItem → Bool
unfolding inventory_target is_good is_in_person uses_store_shipping
requires_store_shipping s item = elim (inventory_target s item) [
  | none ↦ false
  | some target ↦ is_good target && (not (is_in_person target) && uses_store_shipping target)
]

-- `product_quantities[canonical_id]`: the quantity of one product over all items.
abbrev pub quantity_for : Shop → Option ℕ → OrderItem → ℕ
quantity_for s key item = if same_key (canonical_id s item) key then item.quantity else 0

abbrev pub required : Shop → Option ℕ → List OrderItem → ℕ
required s key items = sum_of (quantity_for s key) items

-- the first loop of `_validate_items`
unfoldable pub validate_item : Shop → OrderItem → Option Fault
unfolding validate_target
validate_item s item =
    fault_if (has_no_single_target item) (integrity invalid_item)
    then_check fault_if (ltb item.quantity 1) (integrity invalid_quantity)
    then_check validate_target s item

-- the second loop
unfoldable pub validate_stock : Shop → List OrderItem → OrderItem → Option Fault
unfolding inventory_target
validate_stock s items item = elim (inventory_target s item) [
  | none ↦ some attribute_error
  | some target ↦
      fault_if (ltb target.stock (required s (canonical_id s item) items))
        (integrity insufficient_stock)
]

abbrev pub not_in_market : Shop → Option ℕ → OrderItem → Bool
not_in_market s m item = not (same_key (target_market_id s item) m)

-- `_validate_items`, whose result is the market of the order.
unfoldable pub validate_items : Shop → List OrderItem → Result ℕ
unfolding target_market_id validate_item validate_stock check_each
validate_items s [] = err (integrity empty_order)
validate_items s (first ∷ rest) =
    let items = first ∷ rest in
    let faults =
      fault_if (any (λ item. not (is_some (target_market_id s item))) items)
        (integrity invalid_item)
      then_check fault_if (any (not_in_market s (target_market_id s first)) items)
          (integrity mixed_market_order)
      then_check check_each (validate_item s) items
      then_check check_each (validate_stock s items) items in
    elim faults [
      | some e ↦ err e
      | none ↦ elim (target_market_id s first) [ none ↦ err attribute_error | some m ↦ ok m ]
    ]
