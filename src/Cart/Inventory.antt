-- ===== src/Cart/Inventory.antt =====
-- Reserving, releasing and confirming the stock and the discounts of an order:
-- `reserve_order_inventory`, `release_order_inventory` and `confirm_order_inventory` of
-- apps/cart/services.py. Each is one database transaction.
pub mod Stock
pub mod Frames
pub mod Conservation
pub mod Units
pub mod Lifecycle
mod Tests
use asoud_backend_full.Cart.Rows.{
  Discount, ProductDiscount, Product, Order, OrderItem, OrderStatus, pending, verified,
  InventoryStatus, unreserved, reserved, confirmed, released, Shop, Env, is_group,
}
use asoud_backend_full.Cart.Catalog.{canonical_id, validate_items}
use asoud_backend_full.Cart.Discounts.{validate_discount, validate_automatic_discount}
use asoud_backend_full.Cart.Pricing.{item_total, lock_order, save_order}
use asoud_backend_full.Cart.Snapshot.{snapshot_order, or_fault, lift}
use asoud_backend_full.Prelude.{
  ℕ, ◌+◌, ◌-◌, Bool, true, false, not, ◌&&◌, ◌||◌, Option, none, some, List, [], ◌∷◌, ltb, ◌==◌,
  any, same_key, sum_of, if◌then◌else◌,
}
use asoud_backend_full.Exec.{
  Exec, Fault, Result, ok, err, integrity, attribute_error, data_error, does_not_exist,
  discount_model, inventory_state, invalid_status, order_changed, discount_state,
  product_discount_state, pure, raise, raise_if, or_raise, gets, modify, atomic, for_each, ◌>>=◌,
  ◌>>◌,
}
use asoud_backend_full.Table.{Table, lookup, update}
use asoud_backend_full.Money.Quantum.{half_up}

-- The product that an item draws on, with its id.
source_of : Shop → OrderItem → Option (ℕ × Product)
source_of s item = elim (canonical_id s item) [
  | none ↦ none
  | some p ↦ elim (lookup p s.products) [ none ↦ none | some product ↦ some (p, product) ]
]

set_stock : ℕ → Product → ℕ → Shop → Shop
set_stock p product stock s = record s {
  products = update p (record product { stock = stock }) s.products;
}

-- `target.stock -= item.quantity; target.save()`. The column takes no negative number.
unfoldable pub take_stock : OrderItem → Exec Shop (Unit {0})
unfolding source_of set_stock
take_stock item s = elim (source_of s item) [
  | none ↦ (err attribute_error, s)
  | some (p, product) ↦
      if ltb product.stock item.quantity
      then (err data_error, s)
      else (ok tt, set_stock p product (product.stock - item.quantity) s)
]

-- `target.stock += item.quantity; target.save()`
unfoldable pub return_stock : OrderItem → Exec Shop (Unit {0})
unfolding source_of set_stock
return_stock item s = elim (source_of s item) [
  | none ↦ (err attribute_error, s)
  | some (p, product) ↦ (ok tt, set_stock p product (product.stock + item.quantity) s)
]

save_discount : ℕ → Discount → Exec Shop (Unit {0})
save_discount id d s = modify (λ (t : Shop). record t { discounts = update id d t.discounts }) s

save_product_discount : ℕ → ProductDiscount → Exec Shop (Unit {0})
save_product_discount id d s =
    modify (λ (t : Shop). record t { product_discounts = update id d t.product_discounts }) s

-- `Discount.objects.select_for_update().get(id=order.discount_id)`
get_discount : ℕ → Exec Shop Discount
get_discount id s = or_raise (lookup id s.discounts) (does_not_exist discount_model) s

-- The `if order.discount_id` part of reserving.
unfoldable pub reserve_discount : Env → ℕ → Order → ℕ → Option ℕ → Exec Shop (Unit {0})
unfolding save_discount get_discount
reserve_discount env order_id order market none = pure tt
reserve_discount env order_id order market (some id) = do
  d ← get_discount id
  s ← gets (λ s. s)
  or_fault (validate_discount env s id d order_id order order.items market true)
  save_discount id (record d { reserved = d.reserved + 1 })

-- … of releasing
unfoldable pub release_discount : Option ℕ → Exec Shop (Unit {0})
unfolding save_discount get_discount
release_discount none = pure tt
release_discount (some id) = do
  d ← get_discount id
  raise_if (ltb d.reserved 1) (integrity discount_state)
  save_discount id (record d { reserved = d.reserved - 1 })

-- … and of confirming
unfoldable pub confirm_discount : Option ℕ → Exec Shop (Unit {0})
unfolding save_discount get_discount
confirm_discount none = pure tt
confirm_discount (some id) = do
  d ← get_discount id
  raise_if (ltb d.reserved 1) (integrity discount_state)
  save_discount id (record d { reserved = d.reserved - 1; consumed = d.consumed + 1 })

-- `ProductDiscount.objects.filter(id__in=product_discount_ids).order_by('id')`
abbrev uses_row : List OrderItem → ℕ × ProductDiscount → Bool
uses_row items row = any (λ (i : OrderItem). same_key i.product_discount (some row.0)) items

rows_used : List OrderItem → Table ProductDiscount → Table ProductDiscount
rows_used items [] = []
rows_used items (row ∷ rows) =
    if uses_row items row then row ∷ rows_used items rows else rows_used items rows

-- The bodies of the three loops over these rows.
unfoldable pub reserve_product_discount :
    Env → ℕ → Order → ℕ × ProductDiscount → Exec Shop (Unit {0})
unfolding save_product_discount
reserve_product_discount env order_id order (id, d) = do
  s ← gets (λ s. s)
  or_fault (validate_automatic_discount env s order_id order id d)
  if is_group d then save_product_discount id (record d { reserved = d.reserved + 1 }) else pure tt

unfoldable pub release_product_discount : ℕ × ProductDiscount → Exec Shop (Unit {0})
unfolding save_product_discount
release_product_discount (id, d) =
    if is_group d
    then (raise_if (ltb d.reserved 1) (integrity product_discount_state)
        >> save_product_discount id (record d { reserved = d.reserved - 1 }))
    else pure tt

unfoldable pub confirm_product_discount : ℕ → ℕ × ProductDiscount → Exec Shop (Unit {0})
unfolding save_product_discount
confirm_product_discount user (id, d) =
    if is_group d
    then (raise_if (ltb d.reserved 1) (integrity product_discount_state)
        >> save_product_discount id (record d {
          reserved = d.reserved - 1;
          consumed = d.consumed + 1;
          users = user ∷ d.users;
        }))
    else pure tt

unfoldable pub for_product_discounts :
    List OrderItem → (ℕ × ProductDiscount → Exec Shop (Unit {0})) → Exec Shop (Unit {0})
unfolding rows_used
for_product_discounts items body s = for_each body (rows_used items s.product_discounts) s

-- The order is still what checkout priced.
snapshot_holds : Shop → Order → ℕ → Bool
snapshot_holds s order amount =
    half_up (half_up (sum_of (item_total s) order.items) 1 + order.shipping_amount) 1 == amount

-- `discount_code_snapshot` as an argument: the empty text is no code.
unfoldable pub kept_code : Order → Option ℕ
kept_code order =
    if order.discount_code_snapshot == 0 then none else some order.discount_code_snapshot

-- Reserving prices an order that has no snapshot, and otherwise compares it.
unfoldable pub settle_snapshot : Env → ℕ → Order → Option ℕ → Exec Shop Order
unfolding snapshot_holds kept_code
settle_snapshot env id order none s =
    snapshot_order env id (kept_code order) order.shipping_method s
settle_snapshot env id order (some amount) s =
    if snapshot_holds s order amount then (ok order, s) else (err (integrity order_changed), s)

abbrev pub is_reservable : OrderStatus → Bool
is_reservable status = elim status [ pending ↦ true | verified ↦ true | _ ↦ false ]

-- What reserving does once the order's state allows it.
unfoldable pub reserve_unreserved : Env → ℕ → Order → Exec Shop Order
unfolding settle_snapshot reserve_discount for_product_discounts save_order
reserve_unreserved env id order = do
  raise_if (not (is_reservable order.status)) (integrity invalid_status)
  s ← gets (λ s. s)
  market ← lift (validate_items s order.items)
  order' ← settle_snapshot env id order order.payable_amount
  reserve_discount env id order' market order'.discount
  for_product_discounts order'.items (reserve_product_discount env id order')
  for_each take_stock order'.items
  save_order id (record order' { inventory_status = reserved })
  pure (record order' { inventory_status = reserved })

unfoldable pub reserve_by_status : Env → ℕ → Order → InventoryStatus → Exec Shop Order
unfolding reserve_unreserved
reserve_by_status env id order reserved = pure order
reserve_by_status env id order unreserved = reserve_unreserved env id order
reserve_by_status env id order _ = raise (integrity inventory_state)

pub reserve_locked : Env → ℕ → Exec Shop Order
unfolding lock_order reserve_by_status
reserve_locked env id = do
  order ← lock_order id
  reserve_by_status env id order order.inventory_status

unfoldable pub reserve_order_inventory : Env → ℕ → Exec Shop Order
unfolding reserve_locked
reserve_order_inventory env id = atomic (reserve_locked env id)

unfoldable pub release_reserved : Bool → ℕ → Order → Exec Shop Order
unfolding release_discount for_product_discounts save_order
release_reserved terminal id order = do
  for_each return_stock order.items
  release_discount order.discount
  for_product_discounts order.items release_product_discount
  save_order id (record order { inventory_status = if terminal then released else unreserved })
  pure (record order { inventory_status = if terminal then released else unreserved })

unfoldable pub release_by_status : Bool → ℕ → Order → InventoryStatus → Exec Shop Order
unfolding release_reserved
release_by_status terminal id order reserved = release_reserved terminal id order
release_by_status terminal id order _ = pure order

pub release_locked : Bool → ℕ → Exec Shop Order
unfolding lock_order release_by_status
release_locked terminal id = do
  order ← lock_order id
  release_by_status terminal id order order.inventory_status

unfoldable pub release_order_inventory : Bool → ℕ → Exec Shop Order
unfolding release_locked
release_order_inventory terminal id = atomic (release_locked terminal id)

unfoldable pub confirm_reserved : ℕ → Order → Exec Shop Order
unfolding confirm_discount for_product_discounts save_order
confirm_reserved id order = do
  confirm_discount order.discount
  for_product_discounts order.items (confirm_product_discount order.user)
  save_order id (record order { inventory_status = confirmed })
  pure (record order { inventory_status = confirmed })

unfoldable pub confirm_by_status : ℕ → Order → InventoryStatus → Exec Shop Order
unfolding confirm_reserved
confirm_by_status id order confirmed = pure order
confirm_by_status id order reserved = confirm_reserved id order
confirm_by_status id order _ = raise (integrity inventory_state)

pub confirm_locked : ℕ → Exec Shop Order
unfolding lock_order confirm_by_status
confirm_locked id = do order ← lock_order id; confirm_by_status id order order.inventory_status

unfoldable pub confirm_order_inventory : ℕ → Exec Shop Order
unfolding confirm_locked
confirm_order_inventory id = atomic (confirm_locked id)
