-- ===== src/Cart/Inventory/Stock.antt =====
-- The loops over the items of an order that take stock and give it back.
use asoud_backend_full.Cart.Rows.{Product, OrderItem, Shop}
use asoud_backend_full.Cart.Catalog.{canonical_id, quantity_for, required}
use asoud_backend_full.Cart.Inventory.{take_stock, return_stock}
use asoud_backend_full.Prelude.{
  ℕ, ◌+◌, ◌-◌, ◌≡◌, refl, ◌∙◌, Option, none, some, List, [], ◌∷◌, arith, ◌==◌, if◌then◌else◌, inl,
  inr, Option-cases,
}
use asoud_backend_full.Exec.{ok, for_each, bind-eq-ok}
use asoud_backend_full.Table.{Table, lookup, update, lookup-update}

-- The stock of a product; none where there is no such row.
abbrev pub stock_in : ℕ → Table Product → ℕ
stock_in p products = elim (lookup p products) [ none ↦ 0 | some product ↦ product.stock ]

abbrev pub stock_of : ℕ → Shop → ℕ
stock_of p s = stock_in p s.products

-- Two shops with the same affiliate products read the items of an order alike.
pub canonical_id-affiliates :
    (s t : Shop) (item : OrderItem)
    → t.affiliates ≡ s.affiliates
    → canonical_id t item ≡ canonical_id s item
unfolding canonical_id
canonical_id-affiliates s t item h = rw h refl

pub required-affiliates :
    (s t : Shop) (key : Option ℕ) (items : List OrderItem)
    → t.affiliates ≡ s.affiliates
    → required t key items ≡ required s key items
required-affiliates s t key [] h = refl
required-affiliates s t key (item ∷ items) h =
    rw (canonical_id-affiliates s t item h, required-affiliates s t key items h)

-- What taking or returning stock leaves alone.
pub record OnlyStock (s t : Shop) : Type 0 where
  pub affiliates_kept : t.affiliates ≡ s.affiliates
  pub orders_kept : t.orders ≡ s.orders
  pub discounts_kept : t.discounts ≡ s.discounts
  pub product_discounts_kept : t.product_discounts ≡ s.product_discounts

stock_in-update :
    (p q n : ℕ) (product : Product) (products : Table Product)
    → lookup q products ≡ some product
    → stock_in p (update q (record product { stock = n }) products)
      ≡ (if p == q then n else stock_in p products)
stock_in-update p q n product products h =
    ground (arith, lookup-update p q (record product { stock = n }) products product h)

-- One item.
take_stock-eq-ok :
    (p : ℕ) (item : OrderItem) (s t : Shop)
    → take_stock item s ≡ (ok tt, t)
    → OnlyStock s t × (stock_of p t + quantity_for s (some p) item ≡ stock_of p s)
unfolding take_stock
take_stock-eq-ok p item s t h = elim (Option-cases (canonical_id s item)) [
  | inl missing ↦ absurd (ground arith)
  | inr (q, e) ↦ elim (Option-cases (lookup q s.products)) [
    | inl missing ↦ absurd (ground arith)
    | inr (product, f) ↦ (
      ground arith,
      ground (arith, stock_in-update p q (product.stock - item.quantity) product s.products f),
    )
  ]
]

return_stock-eq-ok :
    (p : ℕ) (item : OrderItem) (s t : Shop)
    → return_stock item s ≡ (ok tt, t)
    → OnlyStock s t × (stock_of p t ≡ stock_of p s + quantity_for s (some p) item)
unfolding return_stock
return_stock-eq-ok p item s t h = elim (Option-cases (canonical_id s item)) [
  | inl missing ↦ absurd (ground arith)
  | inr (q, e) ↦ elim (Option-cases (lookup q s.products)) [
    | inl missing ↦ absurd (ground arith)
    | inr (product, f) ↦ (
      ground arith,
      ground (arith, stock_in-update p q (product.stock + item.quantity) product s.products f),
    )
  ]
]

OnlyStock-trans : {s t u : Shop} → OnlyStock s t → OnlyStock t u → OnlyStock s u
OnlyStock-trans a b = record {
  affiliates_kept = b.affiliates_kept ∙ a.affiliates_kept;
  orders_kept = b.orders_kept ∙ a.orders_kept;
  discounts_kept = b.discounts_kept ∙ a.discounts_kept;
  product_discounts_kept = b.product_discounts_kept ∙ a.product_discounts_kept;
}

-- Taking stock for a list of items takes what the list requires of each product.
pub take_all :
    (p : ℕ) (items : List OrderItem) (s t : Shop)
    → for_each take_stock items s ≡ (ok tt, t)
    → OnlyStock s t × (stock_of p t + required s (some p) items ≡ stock_of p s)
unfolding for_each
take_all p [] s t h = ground arith
take_all p (item ∷ items) s t h =
    let (a, u, first, rest) =
      bind-eq-ok (take_stock item) (λ _. for_each take_stock items) s tt t h in
    let one = take_stock-eq-ok p item s u first in
    let more = take_all p items u t rest in
    (
      OnlyStock-trans one.0 more.0,
      omega (arith, required-affiliates s u (some p) items one.0.affiliates_kept, one.1, more.1),
    )

-- Returning it gives the same back.
pub return_all :
    (p : ℕ) (items : List OrderItem) (s t : Shop)
    → for_each return_stock items s ≡ (ok tt, t)
    → OnlyStock s t × (stock_of p t ≡ stock_of p s + required s (some p) items)
unfolding for_each
return_all p [] s t h = ground arith
return_all p (item ∷ items) s t h =
    let (a, u, first, rest) =
      bind-eq-ok (return_stock item) (λ _. for_each return_stock items) s tt t h in
    let one = return_stock-eq-ok p item s u first in
    let more = return_all p items u t rest in
    (
      OnlyStock-trans one.0 more.0,
      omega (arith, required-affiliates s u (some p) items one.0.affiliates_kept, one.1, more.1),
    )
