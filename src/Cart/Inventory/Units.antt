-- ===== src/Cart/Inventory/Units.antt =====
-- The units of a product, in stock and held by orders, through a release and a confirmation.
use asoud_backend_full.Cart.Rows.{Order, unreserved, reserved, confirmed, released, Shop}
use asoud_backend_full.Cart.Catalog.{required}
use asoud_backend_full.Cart.Inventory.{
  return_stock, release_discount, confirm_discount, release_product_discount,
  confirm_product_discount, for_product_discounts, release_reserved, confirm_reserved,
}
use asoud_backend_full.Cart.Inventory.Stock.{stock_of, stock_in, return_all, required-affiliates}
use asoud_backend_full.Cart.Inventory.Frames.{
  release_discount-SameGoods, confirm_discount-SameGoods, release_rows-SameGoods,
  confirm_rows-SameGoods,
}
use asoud_backend_full.Prelude.{
  ℕ, ◌+◌, ◌≡◌, refl, ap, ◌∙◌, Bool, some, [], ◌∷◌, arith, if◌then◌else◌,
}
use asoud_backend_full.Exec.{ok, for_each}
use asoud_backend_full.Table.{Table, lookup, update, total, total-update}

-- What an order holds of a product: what its items require, from its reservation on.
abbrev pub held_by : Shop → ℕ → Order → ℕ
held_by s p order = elim order.inventory_status [
  | reserved ↦ required s (some p) order.items
  | confirmed ↦ required s (some p) order.items
  | _ ↦ 0
]

abbrev pub held : ℕ → Shop → ℕ
held p s = total (held_by s p) s.orders

-- The units of a product on the shelf and in the orders that hold it.
abbrev pub units : ℕ → Shop → ℕ
units p s = stock_of p s + held p s

pub held-affiliates :
    (p : ℕ) (s t : Shop) (orders : Table Order)
    → t.affiliates ≡ s.affiliates
    → total (held_by t p) orders ≡ total (held_by s p) orders
unfolding total
held-affiliates p s t [] h = refl
held-affiliates p s t ((id, order) ∷ orders) h =
    ground (arith, required-affiliates s t (some p) order.items h, held-affiliates p s t orders h)

-- Saving an order, in a shop `u` with the orders of `s`, changes what is held by that order's part.
pub units-save :
    (p id : ℕ) (s u : Shop) (order order' : Order)
    → lookup id s.orders ≡ some order
    → u.affiliates ≡ s.affiliates
    → u.orders ≡ s.orders
    → units p (record u { orders = update id order' u.orders }) + held_by s p order
      ≡ stock_of p u + held p s + held_by s p order'
units-save p id s u order order' found affiliates orders =
    let v = record u { orders = update id order' u.orders } in
    omega (
      arith,
      held-affiliates p s v v.orders affiliates,
      ap (λ (os : Table Order). total (held_by s p) (update id order' os)) orders,
      total-update (held_by s p) id order' s.orders order found,
    )

pub held_by-reserved :
    (s : Shop) (p : ℕ) (order : Order)
    → order.inventory_status ≡ reserved
    → held_by s p order ≡ required s (some p) order.items
held_by-reserved s p order h = ground arith

pub release_reserved-units :
    (p : ℕ) (terminal : Bool) (id : ℕ) (order result : Order) (s t : Shop)
    → lookup id s.orders ≡ some order
    → order.inventory_status ≡ reserved
    → release_reserved terminal id order s ≡ (ok result, t)
    → units p t ≡ units p s
unfolding release_reserved
release_reserved-units p terminal id order result s t found st h =
    let order' = record order { inventory_status = if terminal then released else unreserved } in
    let s1 = (for_each return_stock order.items s).1 in
    let s2 = (release_discount order.discount s1).1 in
    let s3 = (for_product_discounts order.items release_product_discount s2).1 in
    let a = return_all p order.items s s1 (ground arith) in
    let b = release_discount-SameGoods order.discount s1 in
    let c = release_rows-SameGoods order.items s2 in
    let e : t ≡ record s3 { orders = update id order' s3.orders } = ground arith in
    let d : held_by s p order' ≡ 0 = ground arith in
    rw e (
      omega (
        arith,
        units-save p id s s3 order order' found
            (c.affiliates_kept ∙ b.affiliates_kept ∙ a.0.affiliates_kept)
            (c.orders_kept ∙ b.orders_kept ∙ a.0.orders_kept),
        held_by-reserved s p order st,
        ap (stock_in p) (c.products_kept ∙ b.products_kept),
        a.1,
        d,
      ))

pub confirm_reserved-units :
    (p id : ℕ) (order result : Order) (s t : Shop)
    → lookup id s.orders ≡ some order
    → order.inventory_status ≡ reserved
    → confirm_reserved id order s ≡ (ok result, t)
    → units p t ≡ units p s
unfolding confirm_reserved
confirm_reserved-units p id order result s t found st h =
    let order' = record order { inventory_status = confirmed } in
    let s1 = (confirm_discount order.discount s).1 in
    let s2 = (for_product_discounts order.items (confirm_product_discount order.user) s1).1 in
    let b = confirm_discount-SameGoods order.discount s in
    let c = confirm_rows-SameGoods order.items s1 order.user in
    let e : t ≡ record s2 { orders = update id order' s2.orders } = ground arith in
    rw e (
      omega (
        arith,
        units-save p id s s2 order order' found (c.affiliates_kept ∙ b.affiliates_kept)
            (c.orders_kept ∙ b.orders_kept),
        held_by-reserved s p order st,
        ap (stock_in p) (c.products_kept ∙ b.products_kept),
      ))
