-- ===== src/Cart/Inventory/Lifecycle.antt =====
-- The states of an order's inventory: where each operation leads, and that it may be repeated.
use asoud_backend_full.Cart.Rows.{
  Order, InventoryStatus, unreserved, reserved, confirmed, released, Shop, Env,
}
use asoud_backend_full.Cart.Catalog.{validate_items}
use asoud_backend_full.Cart.Snapshot.{lift}
use asoud_backend_full.Cart.Inventory.{
  take_stock, return_stock, reserve_discount, release_discount, confirm_discount,
  reserve_product_discount, release_product_discount, confirm_product_discount,
  for_product_discounts, settle_snapshot, reserve_unreserved, reserve_by_status,
  reserve_order_inventory, release_reserved, release_order_inventory, confirm_reserved,
  confirm_by_status, confirm_order_inventory,
}
use asoud_backend_full.Cart.Inventory.Stock.{take_all, return_all}
use asoud_backend_full.Cart.Inventory.Frames.{
  reserve_discount-SameGoods, release_discount-SameGoods, confirm_discount-SameGoods,
  reserve_rows-SameGoods, release_rows-SameGoods, confirm_rows-SameGoods,
}
use asoud_backend_full.Cart.Inventory.Conservation.{settle_snapshot-IsSettled}
use asoud_backend_full.Prelude.{
  ℕ, ◌≡◌, refl, ap, ◌∙◌, Bool, some, arith, if◌then◌else◌, inl, inr, Option-cases,
}
use asoud_backend_full.Exec.{ok, err, integrity, inventory_state, for_each, ended}
use asoud_backend_full.Table.{lookup, update, lookup-update_self}

-- The stored order is the one that the operation answered with.
abbrev pub IsStored : ℕ → Order → InventoryStatus → Shop → Type 0
IsStored id result status t =
    (lookup id t.orders ≡ some result) × (result.inventory_status ≡ status)

release_reserved-IsStored :
    (terminal : Bool) (id : ℕ) (order result : Order) (s t : Shop)
    → lookup id s.orders ≡ some order
    → release_reserved terminal id order s ≡ (ok result, t)
    → IsStored id result (if terminal then released else unreserved) t
unfolding release_reserved
release_reserved-IsStored terminal id order result s t found h =
    let order' = record order { inventory_status = if terminal then released else unreserved } in
    let s1 = (for_each return_stock order.items s).1 in
    let s2 = (release_discount order.discount s1).1 in
    let s3 = (for_product_discounts order.items release_product_discount s2).1 in
    let a = return_all 0 order.items s s1 (ground arith) in
    let b = release_discount-SameGoods order.discount s1 in
    let c = release_rows-SameGoods order.items s2 in
    let e : t ≡ record s3 { orders = update id order' s3.orders } = ground arith in
    let same : order' ≡ result = ground arith in
    let f = ap (lookup id) (c.orders_kept ∙ b.orders_kept ∙ a.0.orders_kept) ∙ found in
    rw (e, ← same) (lookup-update_self id order' s3.orders order f, refl)

confirm_reserved-IsStored :
    (id : ℕ) (order result : Order) (s t : Shop)
    → lookup id s.orders ≡ some order
    → confirm_reserved id order s ≡ (ok result, t)
    → IsStored id result confirmed t
unfolding confirm_reserved
confirm_reserved-IsStored id order result s t found h =
    let order' = record order { inventory_status = confirmed } in
    let s1 = (confirm_discount order.discount s).1 in
    let s2 = (for_product_discounts order.items (confirm_product_discount order.user) s1).1 in
    let b = confirm_discount-SameGoods order.discount s in
    let c = confirm_rows-SameGoods order.items s1 order.user in
    let e : t ≡ record s2 { orders = update id order' s2.orders } = ground arith in
    let same : order' ≡ result = ground arith in
    let f = ap (lookup id) (c.orders_kept ∙ b.orders_kept) ∙ found in
    rw (e, ← same) (lookup-update_self id order' s2.orders order f, refl)

reserve_unreserved-IsStored :
    (env : Env) (id : ℕ) (order result : Order) (s t : Shop)
    → lookup id s.orders ≡ some order
    → order.inventory_status ≡ unreserved
    → reserve_unreserved env id order s ≡ (ok result, t)
    → IsStored id result reserved t
unfolding reserve_unreserved
reserve_unreserved-IsStored env id order result s t found st h =
    elim (ended (settle_snapshot env id order order.payable_amount s)) [
      | inl (x, e) ↦ absurd (ground arith)
      | inr (order', e) ↦ elim (ended (lift (validate_items s order.items) s)) [
        | inl (x, f) ↦ absurd (ground arith)
        | inr (market, f) ↦
            let u = (settle_snapshot env id order order.payable_amount s).1 in
            let s1 = (reserve_discount env id order' market order'.discount u).1 in
            let s2 =
              (for_product_discounts order'.items (reserve_product_discount env id order') s1).1 in
            let s3 = (for_each take_stock order'.items s2).1 in
            let i =
              settle_snapshot-IsSettled 0 env id order order' order.payable_amount s u found st e in
            let b = reserve_discount-SameGoods env id order' market order'.discount u in
            let c = reserve_rows-SameGoods order'.items s1 env id order' in
            let a = take_all 0 order'.items s2 s3 (ground arith) in
            let order2 = record order' { inventory_status = reserved } in
            let w : t ≡ record s3 { orders = update id order2 s3.orders } = ground arith in
            let same : order2 ≡ result = ground arith in
            let g =
              ap (lookup id) (a.0.orders_kept ∙ c.orders_kept ∙ b.orders_kept) ∙ i.order_found in
            rw (w, ← same) (lookup-update_self id order2 s3.orders order' g, refl)
      ]
    ]

module _ (id : ℕ) (s t : Shop) (order result : Order)
    (found : lookup id s.orders ≡ some order) where
  reserve_by_status-IsStored :
      (env : Env) (status : InventoryStatus)
      → order.inventory_status ≡ status
      → reserve_by_status env id order status s ≡ (ok result, t)
      → IsStored id result reserved t
  unfolding reserve_by_status
  reserve_by_status-IsStored env unreserved e h =
      reserve_unreserved-IsStored env id order result s t found e h
  reserve_by_status-IsStored env reserved e h = ground arith
  reserve_by_status-IsStored env _ e h = absurd (cc)

  confirm_by_status-IsStored :
      (status : InventoryStatus)
      → order.inventory_status ≡ status
      → confirm_by_status id order status s ≡ (ok result, t)
      → IsStored id result confirmed t
  unfolding confirm_by_status
  confirm_by_status-IsStored confirmed e h = ground arith
  confirm_by_status-IsStored reserved e h = confirm_reserved-IsStored id order result s t found h
  confirm_by_status-IsStored _ e h = absurd (cc)

-- What each operation does to an order stored in a given state.
module _ (id : ℕ) (t : Shop) (order : Order) where
  reserve_stored :
      (env : Env) → IsStored id order reserved t → reserve_order_inventory env id t ≡ (ok order, t)
  unfolding reserve_order_inventory
  reserve_stored env k = ground arith

  confirm_stored : IsStored id order confirmed t → confirm_order_inventory id t ≡ (ok order, t)
  unfolding confirm_order_inventory
  confirm_stored k = ground arith

  release_stored :
      (terminal : Bool)
      → IsStored id order confirmed t
      → release_order_inventory terminal id t ≡ (ok order, t)
  unfolding release_order_inventory
  release_stored terminal k = ground arith

  reserve_confirmed :
      (env : Env)
      → IsStored id order confirmed t
      → reserve_order_inventory env id t ≡ (err (integrity inventory_state), t)
  unfolding reserve_order_inventory
  reserve_confirmed env k = ground arith

-- A reservation that succeeds leaves the order stored as reserved, and reserving it once more, at
-- any time, changes nothing and succeeds with the same order.
pub reserve_idempotent :
    (env later : Env) (id : ℕ) (s t : Shop) (result : Order)
    → reserve_order_inventory env id s ≡ (ok result, t)
    → IsStored id result reserved t × (reserve_order_inventory later id t ≡ (ok result, t))
unfolding reserve_order_inventory
reserve_idempotent env later id s t result h = elim (Option-cases (lookup id s.orders)) [
  | inl missing ↦ absurd (ground arith)
  | inr (order, found) ↦
      let k =
        reserve_by_status-IsStored id s t order result found env order.inventory_status refl
          (ground arith) in
      (k, reserve_stored id t result later k)
]

-- A confirmation that succeeds leaves the order stored as confirmed; confirming it once more
-- changes nothing and succeeds, releasing it changes nothing, and reserving it is refused.
pub confirmed_is_final :
    (env : Env) (terminal : Bool) (id : ℕ) (s t : Shop) (result : Order)
    → confirm_order_inventory id s ≡ (ok result, t)
    → IsStored id result confirmed t
      × (confirm_order_inventory id t ≡ (ok result, t))
      × (release_order_inventory terminal id t ≡ (ok result, t))
      × (reserve_order_inventory env id t ≡ (err (integrity inventory_state), t))
unfolding confirm_order_inventory
confirmed_is_final env terminal id s t result h = elim (Option-cases (lookup id s.orders)) [
  | inl missing ↦ absurd (ground arith)
  | inr (order, found) ↦
      let k =
        confirm_by_status-IsStored id s t order result found order.inventory_status refl
          (ground arith) in
      (
        k,
        confirm_stored id t result k,
        release_stored id t result terminal k,
        reserve_confirmed id t result env k,
      )
]
