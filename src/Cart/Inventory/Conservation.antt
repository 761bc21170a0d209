-- ===== src/Cart/Inventory/Conservation.antt =====
-- No unit of stock is lost or made up.
use asoud_backend_full.Cart.Rows.{
  Order, InventoryStatus, unreserved, reserved, confirmed, Shop, Env,
}
use asoud_backend_full.Cart.Catalog.{required, validate_items}
use asoud_backend_full.Cart.Snapshot.{lift}
use asoud_backend_full.Cart.Snapshot.Lines.{IsPriced, IsPriced-required, snapshot_order-eq-ok}
use asoud_backend_full.Cart.Inventory.{
  kept_code, take_stock, reserve_discount, reserve_product_discount, for_product_discounts,
  settle_snapshot, reserve_unreserved, reserve_by_status, reserve_order_inventory,
  release_by_status, release_order_inventory, confirm_by_status, confirm_order_inventory,
  reserve_locked, release_locked, confirm_locked,
}
use asoud_backend_full.Cart.Inventory.Stock.{stock_in, take_all, required-affiliates}
use asoud_backend_full.Cart.Inventory.Frames.{reserve_discount-SameGoods, reserve_rows-SameGoods}
use asoud_backend_full.Prelude.{
  ℕ, ◌≡◌, refl, ap, ◌∙◌, Bool, Option, none, some, arith, inl, inr, Option-cases,
}
use asoud_backend_full.Exec.{ok, for_each, ended, atomic-err}
use asoud_backend_full.Table.{lookup, update, lookup-update_self}
use asoud_backend_full.Cart.Inventory.Units.{
  held_by, held, units, units-save, release_reserved-units, confirm_reserved-units,
}

-- A settled order sells what it sold, and no stock has moved.
pub record IsSettled (p id : ℕ) (s u : Shop) (order order' : Order) : Type 0 where
  pub products_kept : u.products ≡ s.products
  pub affiliates_kept : u.affiliates ≡ s.affiliates
  pub order_found : lookup id u.orders ≡ some order'
  pub nothing_held : held p u ≡ held p s
  pub same_sale : required s (some p) order'.items ≡ required s (some p) order.items
  pub still_unreserved : order'.inventory_status ≡ unreserved

pub settle_snapshot-IsSettled :
    (p : ℕ) (env : Env) (id : ℕ) (order order' : Order) (payable : Option ℕ) (s u : Shop)
    → lookup id s.orders ≡ some order
    → order.inventory_status ≡ unreserved
    → settle_snapshot env id order payable s ≡ (ok order', u)
    → IsSettled p id s u order order'
unfolding settle_snapshot
settle_snapshot-IsSettled p env id order order' (some amount) s u found st h = ground arith
settle_snapshot-IsSettled p env id order order' none s u found st h =
    let (order0, found0, priced, e) =
      snapshot_order-eq-ok env id (kept_code order) order.shipping_method s u order' h in
    let same : order0 ≡ order = cc in
    let priced' : IsPriced env s order order' = rw same at priced in
    let kept = IsPriced-required (some p) priced' in
    let nothing : held_by s p order ≡ 0 = ground arith in
    let nothing' : held_by s p order' ≡ 0 = ground arith in
    let n = units-save p id s s order order' found refl refl in
    rw e (record {
      products_kept = refl;
      affiliates_kept = refl;
      order_found = lookup-update_self id order' s.orders order found;
      nothing_held = omega arith;
      same_sale = kept.0;
      still_unreserved = kept.1 ∙ st;
    })

reserve_unreserved-units :
    (p : ℕ) (env : Env) (id : ℕ) (order result : Order) (s t : Shop)
    → lookup id s.orders ≡ some order
    → order.inventory_status ≡ unreserved
    → reserve_unreserved env id order s ≡ (ok result, t)
    → units p t ≡ units p s
unfolding reserve_unreserved
reserve_unreserved-units p env id order result s t found st h =
    elim (ended (settle_snapshot env id order order.payable_amount s)) [
      | inl (x, e) ↦ absurd (ground arith)
      | inr (order', e) ↦ elim (ended (lift (validate_items s order.items) s)) [
        | inl (x, f) ↦ absurd (ground arith)
        | inr (market, f) ↦
            let u = (settle_snapshot env id order order.payable_amount s).1 in
            let s1 = (reserve_discount env id order' market order'.discount u).1 in
            let s2 =
              (for_product_discounts order'.items (reserve_product_discount env id order') s1).1 in
            let s3 = (for_each take_stock order'.items s2).1 in
            let i =
              settle_snapshot-IsSettled p env id order order' order.payable_amount s u found st e in
            let b = reserve_discount-SameGoods env id order' market order'.discount u in
            let c = reserve_rows-SameGoods order'.items s1 env id order' in
            let a = take_all p order'.items s2 s3 (ground arith) in
            let order2 = record order' { inventory_status = reserved } in
            let w : t ≡ record s3 { orders = update id order2 s3.orders } = ground arith in
            let aff = a.0.affiliates_kept ∙ c.affiliates_kept ∙ b.affiliates_kept in
            let none_before : held_by u p order' ≡ 0 = ground arith in
            rw w (
              omega (
                arith,
                units-save p id u s3 order' order2 i.order_found aff
                    (a.0.orders_kept ∙ c.orders_kept ∙ b.orders_kept),
                none_before,
                i.nothing_held,
                a.1,
                required-affiliates u s2 (some p) order'.items
                    (c.affiliates_kept ∙ b.affiliates_kept),
                ap (stock_in p) (c.products_kept ∙ b.products_kept ∙ i.products_kept),
              ))
      ]
    ]

-- The same, by the state of the order's inventory.
module _ (p id : ℕ) (s t : Shop) (order result : Order)
    (found : lookup id s.orders ≡ some order) where
  reserve_by_status-units :
      (env : Env) (status : InventoryStatus)
      → order.inventory_status ≡ status
      → reserve_by_status env id order status s ≡ (ok result, t)
      → units p t ≡ units p s
  unfolding reserve_by_status
  reserve_by_status-units env unreserved e h =
      reserve_unreserved-units p env id order result s t found e h
  reserve_by_status-units env reserved e h = ground arith
  reserve_by_status-units env _ e h = absurd (cc)

  release_by_status-units :
      (terminal : Bool) (status : InventoryStatus)
      → order.inventory_status ≡ status
      → release_by_status terminal id order status s ≡ (ok result, t)
      → units p t ≡ units p s
  unfolding release_by_status
  release_by_status-units terminal reserved e h =
      release_reserved-units p terminal id order result s t found e h
  release_by_status-units terminal _ e h = ground arith

  confirm_by_status-units :
      (status : InventoryStatus)
      → order.inventory_status ≡ status
      → confirm_by_status id order status s ≡ (ok result, t)
      → units p t ≡ units p s
  unfolding confirm_by_status
  confirm_by_status-units confirmed e h = ground arith
  confirm_by_status-units reserved e h = confirm_reserved-units p id order result s t found e h
  confirm_by_status-units _ e h = absurd (cc)

module _ (p id : ℕ) (s : Shop) where
  reserve-units : (env : Env) → units p (reserve_order_inventory env id s).1 ≡ units p s
  unfolding reserve_order_inventory
  reserve-units env = elim (ended (reserve_order_inventory env id s)) [
    | inl (e, h) ↦ ap (units p) (atomic-err (reserve_locked env id) s h)
    | inr (result, h) ↦ elim (Option-cases (lookup id s.orders)) [
      | inl missing ↦ absurd (ground arith)
      | inr (order, found) ↦
          reserve_by_status-units p id s (reserve_order_inventory env id s).1 order result found env
            order.inventory_status refl (ground arith)
    ]
  ]

  release-units : (terminal : Bool) → units p (release_order_inventory terminal id s).1 ≡ units p s
  unfolding release_order_inventory
  release-units terminal = elim (ended (release_order_inventory terminal id s)) [
    | inl (e, h) ↦ ap (units p) (atomic-err (release_locked terminal id) s h)
    | inr (result, h) ↦ elim (Option-cases (lookup id s.orders)) [
      | inl missing ↦ absurd (ground arith)
      | inr (order, found) ↦
          release_by_status-units p id s (release_order_inventory terminal id s).1 order result
            found terminal order.inventory_status refl (ground arith)
    ]
  ]

  confirm-units : units p (confirm_order_inventory id s).1 ≡ units p s
  unfolding confirm_order_inventory
  confirm-units = elim (ended (confirm_order_inventory id s)) [
    | inl (e, h) ↦ ap (units p) (atomic-err (confirm_locked id) s h)
    | inr (result, h) ↦ elim (Option-cases (lookup id s.orders)) [
      | inl missing ↦ absurd (ground arith)
      | inr (order, found) ↦
          confirm_by_status-units p id s (confirm_order_inventory id s).1 order result found
            order.inventory_status refl (ground arith)
    ]
  ]

-- Whatever the outcome of reserving, releasing or confirming an order, of each product the stock
-- and what reserved and confirmed orders hold of it have the same sum as before.
pub inventory_conserves_units :
    (p id : ℕ) (terminal : Bool) (env : Env) (s : Shop)
    → (units p (reserve_order_inventory env id s).1 ≡ units p s)
      × (units p (release_order_inventory terminal id s).1 ≡ units p s)
      × (units p (confirm_order_inventory id s).1 ≡ units p s)
inventory_conserves_units p id terminal env s =
    (reserve-units p id s env, release-units p id s terminal, confirm-units p id s)
