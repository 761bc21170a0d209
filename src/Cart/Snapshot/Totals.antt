-- ===== src/Cart/Snapshot/Totals.antt =====
-- The totals of an order add up.
use asoud_backend_full.Cart.Rows.{
  Discount, ShippingMethod, online_order, Order, OrderItem, Shop, Env,
}
use asoud_backend_full.Cart.Snapshot.{
  Line, price_items, line_items, line_base, line_total, totalled, check_total, snapshot_order,
  row_of, payable_of,
}
use asoud_backend_full.Cart.Snapshot.Lines.{priced_cons, snapshot_order-eq-ok}
use asoud_backend_full.Cart.Snapshot.Prices.{price_item-le}
use asoud_backend_full.Prelude.{
  ℕ, ◌+◌, ◌*◌, ◌%◌, ◌≤◌, ◌<◌, ◌≡◌, refl, ap, Option, none, some, List, [], ◌∷◌, arith, sum_of,
}
use asoud_backend_full.Exec.{ok}
use asoud_backend_full.Table.{lookup, lookup-update_self}
use asoud_backend_full.Money.Quantum.{half_up-one}

-- What an item costs at its snapshot price.
abbrev pub charge_of : OrderItem → ℕ
charge_of item = elim item.unit_price [ none ↦ 0 | some price ↦ price * item.quantity ]

charges-line_items :
    (lines : List Line) → sum_of charge_of (line_items lines) ≡ sum_of line_total lines
charges-line_items [] = refl
charges-line_items (l ∷ ls) = rw (charges-line_items ls)

lines-le :
    (env : Env) (s : Shop) (d : Option Discount) (market : ℕ) (order : Order)
    (items : List OrderItem) (lines : List Line)
    → price_items env s d market order items ≡ ok lines
    → sum_of line_total lines ≤ sum_of line_base lines
unfolding price_items
lines-le env s d market order [] lines h = ground arith
lines-le env s d market order (item ∷ items) lines h =
    let (line, rest, e, first, more) = priced_cons env s d market order item items lines h in
    rw e (
      omega (
        arith,
        price_item-le env s d market order item line first,
        lines-le env s d market order items rest more,
      ))

-- The totals that checkout stores: subtotal, discount, shipping and payable amount.
pub record IsBalanced (order : Order) : Type 0 where
  pub payable_lem :
      order.payable_amount ≡ some (sum_of charge_of order.items + order.shipping_amount)
  pub subtotal_lem :
      order.subtotal_amount ≡ some (sum_of charge_of order.items + order.discount_amount)
  pub payable_pos : 0 < payable_of order
  pub payable_whole : order.type ≡ online_order → payable_of order % 1000 ≡ 0

check_total-eq-none :
    (order : Order)
    → check_total order ≡ none
    → (0 < payable_of order) × (order.type ≡ online_order → payable_of order % 1000 ≡ 0)
unfolding check_total
check_total-eq-none order h = (ground arith, (λ t. ground arith))

totalled-IsBalanced :
    (order : Order) (d : Option (ℕ × Discount)) (m : Option (ℕ × ShippingMethod))
    (lines : List Line)
    → sum_of line_total lines ≤ sum_of line_base lines
    → check_total (totalled order d m lines) ≡ none
    → IsBalanced (totalled order d m lines)
totalled-IsBalanced order d m lines le h =
    let passes = check_total-eq-none (totalled order d m lines) h in
    unfold totalled in
    record {
      payable_lem = simp (half_up-one, charges-line_items lines);
      subtotal_lem = simp (half_up-one, charges-line_items lines) (ap some (omega arith));
      payable_pos = passes.0;
      payable_whole = passes.1;
    }

-- A checkout that succeeds answers with the order as it is now stored, and its totals add up: what
-- the items cost at their prices and the shipping are the payable amount, the same costs with the
-- discount are the subtotal, and the payable amount is positive and for an online order a whole
-- number of toman.
pub snapshot_order-IsBalanced :
    (env : Env) (id : ℕ) (code method : Option ℕ) (s t : Shop) (order : Order)
    → snapshot_order env id code method s ≡ (ok order, t)
    → (lookup id t.orders ≡ some order) × IsBalanced order
snapshot_order-IsBalanced env id code method s t order h =
    let (before, found, p, saved) = snapshot_order-eq-ok env id code method s t order h in
    let balanced =
      totalled-IsBalanced before p.discount p.shipping p.lines
        (lines-le env s (row_of p.discount) p.market before before.items p.lines p.lines_priced)
        p.total_passes in
    (rw saved (lookup-update_self id order s.orders before found), rw p.is_totalled at balanced)
