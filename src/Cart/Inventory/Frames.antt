-- ===== src/Cart/Inventory/Frames.antt =====
-- What the steps on discounts leave alone: stock, orders and affiliate products.
use asoud_backend_full.Cart.Rows.{ProductDiscount, Order, OrderItem, Shop, Env}
use asoud_backend_full.Cart.Inventory.{
  reserve_discount, release_discount, confirm_discount, reserve_product_discount,
  release_product_discount, confirm_product_discount, for_product_discounts, rows_used,
}
use asoud_backend_full.Prelude.{
  ℕ, ◌≡◌, ◌∙◌, Option, none, some, List, arith, inl, inr, Option-cases,
}
use asoud_backend_full.Exec.{for_each-keeps}
use asoud_backend_full.Table.{lookup}

pub record SameGoods (s t : Shop) : Type 0 where
  pub products_kept : t.products ≡ s.products
  pub affiliates_kept : t.affiliates ≡ s.affiliates
  pub orders_kept : t.orders ≡ s.orders

pub SameGoods-refl : (s : Shop) → SameGoods s s
SameGoods-refl s = ground arith

pub SameGoods-trans : (s t u : Shop) → SameGoods s t → SameGoods t u → SameGoods s u
SameGoods-trans s t u a b = record {
  products_kept = b.products_kept ∙ a.products_kept;
  affiliates_kept = b.affiliates_kept ∙ a.affiliates_kept;
  orders_kept = b.orders_kept ∙ a.orders_kept;
}

pub reserve_discount-SameGoods :
    (env : Env) (id : ℕ) (order : Order) (market : ℕ) (d : Option ℕ) (s : Shop)
    → SameGoods s (reserve_discount env id order market d s).1
unfolding reserve_discount
reserve_discount-SameGoods env id order market none s = SameGoods-refl s
reserve_discount-SameGoods env id order market (some d) s =
    elim (Option-cases (lookup d s.discounts)) [
      | inl e ↦ ground arith
      | inr (row, e) ↦ ground arith
    ]

pub release_discount-SameGoods : (d : Option ℕ) (s : Shop) → SameGoods s (release_discount d s).1
unfolding release_discount
release_discount-SameGoods none s = SameGoods-refl s
release_discount-SameGoods (some d) s = elim (Option-cases (lookup d s.discounts)) [
  | inl e ↦ ground arith
  | inr (row, e) ↦ ground arith
]

pub confirm_discount-SameGoods : (d : Option ℕ) (s : Shop) → SameGoods s (confirm_discount d s).1
unfolding confirm_discount
confirm_discount-SameGoods none s = SameGoods-refl s
confirm_discount-SameGoods (some d) s = elim (Option-cases (lookup d s.discounts)) [
  | inl e ↦ ground arith
  | inr (row, e) ↦ ground arith
]

reserve_row-SameGoods :
    (env : Env) (id : ℕ) (order : Order) (row : ℕ × ProductDiscount) (s : Shop)
    → SameGoods s (reserve_product_discount env id order row s).1
unfolding reserve_product_discount
reserve_row-SameGoods env id order (k, d) s = ground arith

release_row-SameGoods :
    (row : ℕ × ProductDiscount) (s : Shop) → SameGoods s (release_product_discount row s).1
unfolding release_product_discount
release_row-SameGoods (k, d) s = ground arith

confirm_row-SameGoods :
    (user : ℕ) (row : ℕ × ProductDiscount) (s : Shop)
    → SameGoods s (confirm_product_discount user row s).1
unfolding confirm_product_discount
confirm_row-SameGoods user (k, d) s = ground arith

module _ (items : List OrderItem) (s : Shop) where
  pub reserve_rows-SameGoods :
      (env : Env) (id : ℕ) (order : Order)
      → SameGoods s (for_product_discounts items (reserve_product_discount env id order) s).1
  unfolding for_product_discounts
  reserve_rows-SameGoods env id order =
      for_each-keeps SameGoods SameGoods-refl SameGoods-trans
        (reserve_product_discount env id order) (reserve_row-SameGoods env id order)
        (rows_used items s.product_discounts) s

  pub release_rows-SameGoods :
      SameGoods s (for_product_discounts items release_product_discount s).1
  unfolding for_product_discounts
  release_rows-SameGoods =
      for_each-keeps SameGoods SameGoods-refl SameGoods-trans release_product_discount
        release_row-SameGoods (rows_used items s.product_discounts) s

  pub confirm_rows-SameGoods :
      (user : ℕ) → SameGoods s (for_product_discounts items (confirm_product_discount user) s).1
  unfolding for_product_discounts
  confirm_rows-SameGoods user =
      for_each-keeps SameGoods SameGoods-refl SameGoods-trans (confirm_product_discount user)
        (confirm_row-SameGoods user) (rows_used items s.product_discounts) s
