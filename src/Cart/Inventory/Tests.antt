-- ===== src/Cart/Inventory/Tests.antt =====
-- The inventory of the sample shop, and the inventory theorems at it.
use asoud_backend_full.Cart.Rows.{Order, reserved, confirmed, Shop}
use asoud_backend_full.Cart.Sample.{env, order, item, shop, product}
use asoud_backend_full.Cart.Catalog.{canonical_id, validate_items, requires_store_shipping}
use asoud_backend_full.Cart.Discounts.{code_applies_to_item, automatic_discount}
use asoud_backend_full.Cart.Snapshot.{snapshot_order}
use asoud_backend_full.Cart.Pricing.{base_price, own_item, offer, uses_code}
use asoud_backend_full.Cart.Inventory.{
  reserve_order_inventory, release_order_inventory, confirm_order_inventory, take_stock,
  return_stock,
}
use asoud_backend_full.Cart.Inventory.Stock.{stock_of}
use asoud_backend_full.Cart.Inventory.Units.{units}
use asoud_backend_full.Cart.Inventory.Conservation.{inventory_conserves_units}
use asoud_backend_full.Cart.Inventory.Lifecycle.{IsStored, reserve_idempotent, confirmed_is_final}
use asoud_backend_full.Prelude.{◌≡◌, refl, true, some, [], ◌∷◌}
use asoud_backend_full.Exec.{ok, err, integrity, inventory_state, for_each}
use asoud_backend_full.Table.{lookup, update}
use asoud_backend_full.Money.Quantum.{half_up}

abbrev billed : Order
billed = record order {
  subtotal_amount = some 6000;
  payable_amount = some 6000;
  items = record item { unit_price = some 3000; source_market = some 1 } ∷ [];
}

abbrev reserved_order : Order
reserved_order = record billed { inventory_status = reserved }

abbrev reserved_shop : Shop
reserved_shop = record shop {
  products = (7, record product { stock = 3 }) ∷ [];
  orders = (40, reserved_order) ∷ [];
}

abbrev confirmed_order : Order
confirmed_order = record billed { inventory_status = confirmed }

abbrev confirmed_shop : Shop
confirmed_shop = record reserved_shop { orders = (40, confirmed_order) ∷ [] }

reserve_sample : reserve_order_inventory env 40 shop ≡ (ok reserved_order, reserved_shop)
unfolding reserve_order_inventory for_each lookup update half_up validate_items snapshot_order
    requires_store_shipping base_price own_item offer code_applies_to_item automatic_discount
    uses_code take_stock
reserve_sample = refl

confirm_sample : confirm_order_inventory 40 reserved_shop ≡ (ok confirmed_order, confirmed_shop)
unfolding confirm_order_inventory for_each lookup update
confirm_sample = refl

release_restores_stock : stock_of 7 (release_order_inventory true 40 reserved_shop).1 ≡ 5
unfolding release_order_inventory return_stock for_each lookup update canonical_id
release_restores_stock = refl

inventory_conserves_units_example :
    (units 7 (reserve_order_inventory env 40 shop).1 ≡ units 7 shop)
    × (units 7 (release_order_inventory true 40 shop).1 ≡ units 7 shop)
    × (units 7 (confirm_order_inventory 40 shop).1 ≡ units 7 shop)
inventory_conserves_units_example = inventory_conserves_units 7 40 true env shop

reserve_idempotent_example :
    IsStored 40 reserved_order reserved reserved_shop
    × (reserve_order_inventory env 40 reserved_shop ≡ (ok reserved_order, reserved_shop))
reserve_idempotent_example =
    reserve_idempotent env env 40 shop reserved_shop reserved_order reserve_sample

confirmed_is_final_example :
    IsStored 40 confirmed_order confirmed confirmed_shop
    × (confirm_order_inventory 40 confirmed_shop ≡ (ok confirmed_order, confirmed_shop))
    × (release_order_inventory true 40 confirmed_shop ≡ (ok confirmed_order, confirmed_shop))
    × (reserve_order_inventory env 40 confirmed_shop
        ≡ (err (integrity inventory_state), confirmed_shop))
confirmed_is_final_example =
    confirmed_is_final env true 40 reserved_shop confirmed_shop confirmed_order confirm_sample
