-- ===== src/Cart/Discounts.antt =====
-- The discounts of an order: `_discount_applies`, `_validate_discount`,
-- `_code_discount_applies_to_item`, `_automatic_discounts` and `_validate_automatic_discount` of
-- apps/cart/services.py.
use asoud_backend_full.Cart.Rows.{
  Discount, market_content, product_content, other_content, ProductDiscount, Order, OrderItem,
  reserved, confirmed, Shop, Env, is_group, is_empty,
}
use asoud_backend_full.Cart.Catalog.{canonical_id, fault_if, ◌then_check◌}
use asoud_backend_full.Prelude.{
  ℕ, ◌+◌, Bool, true, false, not, ◌&&◌, ◌||◌, Option, none, some, List, [], ◌∷◌, ltb, leb, ◌==◌,
  same_key, any, elem, if◌then◌else◌,
}
use asoud_backend_full.Exec.{
  Fault, integrity, discount_inactive, discount_expired, discount_limit_reached,
  discount_not_eligible, discount_not_applicable, discount_already_used, product_discount_inactive,
  product_discount_already_used, product_discount_already_reserved, product_discount_limit_reached,
}
use asoud_backend_full.Table.{Table}

-- `item.product_id == id or (item.affiliate_id and item.affiliate.product_id == id)`
concerns : Shop → ℕ → OrderItem → Bool
concerns s id item = same_key (canonical_id s item) (some id)

-- `_discount_applies`
unfoldable pub discount_applies : Shop → Discount → List OrderItem → ℕ → Bool
unfolding concerns
discount_applies s d items market = elim d.content_type [
  | market_content ↦ d.object_id == market
  | product_content ↦ any (concerns s d.object_id) items
  | other_content ↦ false
]

-- `discount.expiry and discount.expiry < now`, or `<= now` for an automatic discount
has_expired : Option ℕ → ℕ → Bool
has_expired none now = false
has_expired (some expiry) now = ltb expiry now

has_ended : Option ℕ → ℕ → Bool
has_ended none now = false
has_ended (some expiry) now = leb expiry now

-- The uses that count against the limit: those paid for, and the open reservations if asked for.
abbrev pub uses : Bool → Discount → ℕ
uses include_reservations d = d.consumed + (if include_reservations then d.reserved else 0)

-- A limit of zero is no limit.
abbrev pub limit_reached : Bool → Discount → Bool
limit_reached include_reservations d =
    not (d.limitation == 0) && leb d.limitation (uses include_reservations d)

abbrev pub not_eligible : Env → Order → Discount → Bool
not_eligible env order d =
    not (is_empty d.users)
    && not (elem (env.id_text order.user) d.users || elem (env.mobile_number order.user) d.users)

abbrev pub uses_discount : ℕ → ℕ → Order → ℕ × Order → Bool
uses_discount order_id discount_id order (id, other) =
    not (id == order_id)
    && (other.user == order.user
        && (same_key other.discount (some discount_id)
            && (other.is_paid
                || elim other.inventory_status [ reserved ↦ true | confirmed ↦ true | _ ↦ false ])))

-- `_validate_discount`
unfoldable pub validate_discount :
    Env → Shop → ℕ → Discount → ℕ → Order → List OrderItem → ℕ → Bool → Option Fault
unfolding discount_applies has_expired
validate_discount env s discount_id d order_id order items market include_reservations =
    fault_if (not d.is_active) (integrity discount_inactive)
    then_check fault_if (has_expired d.expiry env.now) (integrity discount_expired)
    then_check fault_if (limit_reached include_reservations d) (integrity discount_limit_reached)
    then_check fault_if (not_eligible env order d) (integrity discount_not_eligible)
    then_check fault_if (not (discount_applies s d items market))
        (integrity discount_not_applicable)
    then_check fault_if (any (uses_discount order_id discount_id order) s.orders)
        (integrity discount_already_used)

-- `_code_discount_applies_to_item`
unfoldable pub code_applies_to_item : Shop → Option Discount → OrderItem → ℕ → Bool
unfolding concerns
code_applies_to_item s none item market = false
code_applies_to_item s (some d) item market = elim d.content_type [
  | market_content ↦ d.object_id == market
  | product_content ↦ concerns s d.object_id item
  | other_content ↦ false
]

-- `order_by('-percentage', '-created_at')` among the discounts of one product: whether the first
-- row comes before the second.
precedes : ProductDiscount → ProductDiscount → Bool
precedes a b =
    ltb b.percentage a.percentage || (a.percentage == b.percentage && ltb b.created_at a.created_at)

-- The group capacity of `_automatic_discounts` and `_validate_automatic_discount`.
abbrev pub is_full : ProductDiscount → Bool
is_full d = leb d.limitation (d.consumed + d.reserved)

-- A row that the loop of `_automatic_discounts` does not skip.
unfoldable pub is_usable : Env → Order → ProductDiscount → Bool
unfolding has_ended
is_usable env order d =
    d.is_active
    && (not (has_ended d.expiry env.now)
        && not (is_group d && (is_full d || elem order.user d.users)))

-- The first usable row for a product: of the rows so far and the next one, the one that precedes.
prefer : Option (ℕ × ProductDiscount) → ℕ × ProductDiscount → Option (ℕ × ProductDiscount)
prefer none row = some row
prefer (some best) row = if precedes row.1 best.1 then some row else some best

first_usable :
    Env
    → Order
    → ℕ
    → Option (ℕ × ProductDiscount)
    → Table ProductDiscount
    → Option (ℕ × ProductDiscount)
first_usable env order product best [] = best
first_usable env order product best (row ∷ rows) =
    first_usable env order product
      (if row.1.product == product && is_usable env order row.1 then prefer best row else best) rows

-- `_automatic_discounts(items, order).get(product_id)`
unfoldable pub automatic_discount : Env → Shop → Order → Option ℕ → Option (ℕ × ProductDiscount)
unfolding first_usable prefer precedes is_usable
automatic_discount env s order none = none
automatic_discount env s order (some product) =
    first_usable env order product none s.product_discounts

reserves_discount : ℕ → ℕ → Order → ℕ × Order → Bool
reserves_discount order_id discount_id order (id, other) =
    not (id == order_id)
    && (other.user == order.user
        && (elim other.inventory_status [ reserved ↦ true | _ ↦ false ]
            && any (λ item. same_key item.product_discount (some discount_id)) other.items))

-- `_validate_automatic_discount`
unfoldable pub validate_automatic_discount :
    Env → Shop → ℕ → Order → ℕ → ProductDiscount → Option Fault
unfolding has_ended reserves_discount
validate_automatic_discount env s order_id order discount_id d =
    fault_if (not d.is_active || has_ended d.expiry env.now) (integrity product_discount_inactive)
    then_check fault_if (is_group d && elem order.user d.users)
        (integrity product_discount_already_used)
    then_check fault_if (is_group d && any (reserves_discount order_id discount_id order) s.orders)
        (integrity product_discount_already_reserved)
    then_check fault_if (is_group d && is_full d) (integrity product_discount_limit_reached)
