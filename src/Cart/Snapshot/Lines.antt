-- ===== src/Cart/Snapshot/Lines.antt =====
-- Pricing an order keeps what it sells: the products and quantities of its items.
use asoud_backend_full.Cart.Rows.{
  Discount, Product, AffiliateProduct, ShippingMethod, Order, OrderItem, Shop, Env,
}
use asoud_backend_full.Cart.Catalog.{
  canonical_id, inventory_target, quantity_for, required, requires_store_shipping, validate_items,
}
use asoud_backend_full.Cart.Pricing.{
  Offer, offer, base_price, discounted_price, own_item, affiliate_item,
}
use asoud_backend_full.Cart.Snapshot.{
  Line, settle, price_line, affiliate_of, price_item, price_items, line_items, resolve_discount,
  resolve_shipping, totalled, check_total, priced_order, snapshot_of, snapshot_order, row_of,
}
use asoud_backend_full.Prelude.{
  ℕ, ◌≡◌, refl, ◌∙◌, ap, sym, Option, none, some, List, [], ◌∷◌, arith, any, inl, inr, Option-cases,
}
use asoud_backend_full.Exec.{Result, ok, err, and_then-eq-ok, unless_fault-eq-ok}
use asoud_backend_full.Table.{lookup, update}

-- The two items sell the same.
pub record SameSale (a b : OrderItem) : Type 0 where
  pub same_product : b.product ≡ a.product
  pub same_affiliate : b.affiliate ≡ a.affiliate
  pub same_quantity : b.quantity ≡ a.quantity

settle-SameSale :
    (env : Env) (unit : ℕ) (o : Offer) (a : AffiliateProduct) (p : Product) (price : Option ℕ)
    (item item' : OrderItem)
    → settle env unit o a p price item ≡ ok item'
    → SameSale item item'
unfolding settle affiliate_item
settle-SameSale env unit o a p none item item' h = absurd (cc)
settle-SameSale env unit o a p (some price) item item' h = ground arith

price_line-SameSale :
    (env : Env) (o : Offer) (base : ℕ) (p : Option Product) (a : Option AffiliateProduct)
    (item item' : OrderItem)
    → price_line env o base p a item ≡ ok item'
    → SameSale item item'
unfolding price_line own_item
price_line-SameSale env o base none a item item' h = absurd (cc)
price_line-SameSale env o base (some p) none item item' h = ground arith
price_line-SameSale env o base (some p) (some a) item item' h =
    settle-SameSale env (discounted_price base o) o a p p.marketer_price item item' h

price_item-SameSale :
    (env : Env) (s : Shop) (d : Option Discount) (market : ℕ) (order : Order) (item : OrderItem)
    (line : Line)
    → price_item env s d market order item ≡ ok line
    → SameSale item line.item
unfolding price_item
price_item-SameSale env s d market order item line h = elim (Option-cases (base_price s item)) [
  | inl e ↦ absurd (ground arith)
  | inr (base, e) ↦
      price_line-SameSale env (offer env s d market order item) base (inventory_target s item)
        (affiliate_of s item) item line.item (ground arith)
]

quantity_for-SameSale :
    (s : Shop) (key : Option ℕ) (a b : OrderItem)
    → SameSale a b
    → quantity_for s key b ≡ quantity_for s key a
unfolding canonical_id
quantity_for-SameSale s key a b h = ground arith

-- The first price and the rest of a list that was priced.
pub priced_cons :
    (env : Env) (s : Shop) (d : Option Discount) (market : ℕ) (order : Order) (item : OrderItem)
    (items : List OrderItem) (lines : List Line)
    → price_items env s d market order (item ∷ items) ≡ ok lines
    → (line : Line) × (rest : List Line) × (lines ≡ line ∷ rest)
      × (price_item env s d market order item ≡ ok line)
      × (price_items env s d market order items ≡ ok rest)
unfolding price_items
priced_cons env s d market order item items lines h =
    go (price_item env s d market order item) (price_items env s d market order items) refl refl
  where
    go :
        (a : Result Line) (b : Result (List Line))
        → price_item env s d market order item ≡ a
        → price_items env s d market order items ≡ b
        → (line : Line) × (rest : List Line) × (lines ≡ line ∷ rest)
          × (price_item env s d market order item ≡ ok line)
          × (price_items env s d market order items ≡ ok rest)
    go (ok line) (ok rest) e f = (line, rest, ground arith, e, f)
    go (ok line) (err x) e f = absurd (ground arith)
    go (err x) b e f = absurd (ground arith)

pub price_items-required :
    (env : Env) (s : Shop) (d : Option Discount) (market : ℕ) (order : Order) (key : Option ℕ)
    (items : List OrderItem) (lines : List Line)
    → price_items env s d market order items ≡ ok lines
    → required s key (line_items lines) ≡ required s key items
unfolding price_items
price_items-required env s d market order key [] lines h = ground arith
price_items-required env s d market order key (item ∷ items) lines h =
    let (line, rest, e, first, more) = priced_cons env s d market order item items lines h in
    rw (
      e,
      quantity_for-SameSale s key item line.item
          (price_item-SameSale env s d market order item line first),
      price_items-required env s d market order key items rest more,
    )

-- What a snapshot that was taken consists of.
pub record IsPriced (env : Env) (s : Shop) (order order' : Order) : Type 0 where
  pub market : ℕ
  pub discount : Option (ℕ × Discount)
  pub shipping : Option (ℕ × ShippingMethod)
  pub lines : List Line
  pub items_valid : validate_items s order.items ≡ ok market
  pub lines_priced : price_items env s (row_of discount) market order order.items ≡ ok lines
  pub is_totalled : totalled order discount shipping lines ≡ order'
  pub total_passes : check_total (totalled order discount shipping lines) ≡ none

pub snapshot_of-IsPriced :
    (env : Env) (s : Shop) (id : ℕ) (order : Order) (code method : Option ℕ) (order' : Order)
    → snapshot_of env s id order code method ≡ ok order'
    → IsPriced env s order order'
unfolding snapshot_of priced_order
snapshot_of-IsPriced env s id order code method order' h =
    let (market, v, h1) = and_then-eq-ok (validate_items s order.items) _ order' h in
    let (discount, d, h2) =
      and_then-eq-ok (resolve_discount env s code id order order.items market) _ order' h1 in
    let (shipping, m, h3) =
      and_then-eq-ok
        (resolve_shipping s (any (requires_store_shipping s) order.items) method market) _ order'
        h2 in
    let (lines, l, h4) =
      and_then-eq-ok (price_items env s (row_of discount) market order order.items) _ order' h3 in
    let (passes, e) =
      unless_fault-eq-ok (check_total (totalled order discount shipping lines))
        (totalled order discount shipping lines) order' h4 in
    record {
      market = market;
      discount = discount;
      shipping = shipping;
      lines = lines;
      items_valid = v;
      lines_priced = l;
      is_totalled = e;
      total_passes = passes;
    }

-- A snapshot that was taken saves the priced order and touches no other row.
pub snapshot_order-eq-ok :
    (env : Env) (id : ℕ) (code method : Option ℕ) (s t : Shop) (order' : Order)
    → snapshot_order env id code method s ≡ (ok order', t)
    → (order : Order) × (lookup id s.orders ≡ some order)
      × IsPriced env s order order'
      × (t ≡ record s { orders = update id order' s.orders })
unfolding snapshot_order
snapshot_order-eq-ok env id code method s t order' h = elim (Option-cases (lookup id s.orders)) [
  | inl e ↦ absurd (ground arith)
  | inr (order, e) ↦ (
    order,
    e,
    snapshot_of-IsPriced env s id order code method order' (ground arith),
    ground arith,
  )
]

-- Pricing keeps the sale, the owner and the state of an order.
pub IsPriced-required :
    {env : Env} {s : Shop} {order order' : Order} (key : Option ℕ)
    → IsPriced env s order order'
    → (required s key order'.items ≡ required s key order.items)
      × (order'.inventory_status ≡ order.inventory_status)
      × (order'.user ≡ order.user)
unfolding totalled
IsPriced-required {env} {s} {order} {order'} key p =
    let n =
      price_items-required env s (row_of p.discount) p.market order key order.items p.lines
        p.lines_priced in
    let e = p.is_totalled in
    (
      ap (λ (o : Order). required s key o.items) (sym e) ∙ n,
      ap (λ (o : Order). o.inventory_status) (sym e),
      ap (λ (o : Order). o.user) (sym e),
    )
