-- ===== src/Affiliate.antt =====
-- The affiliates' commissions on paid orders: apps/affiliate/services.py and `AffiliateCommission`
-- of apps/affiliate/models.py. The state is the list of all commissions, the newest first; amounts
-- are thousandths of a toman.
pub mod Accrual
pub mod Shares
pub mod Lifecycle
mod Tests
use asoud_backend_full.Cart.Rows.{Market, Product, AffiliateProduct, Order, OrderItem, Shop}
use asoud_backend_full.Prelude.{
  ℕ, ◌+◌, ◌*◌, Bool, true, false, not, ◌&&◌, Option, none, some, List, [], ◌∷◌, leb, ◌==◌, any,
  if◌then◌else◌,
}
use asoud_backend_full.Prelude.Int.{ℤ, sub_ℕ}
use asoud_backend_full.Exec.{
  Exec, Fault, Result, ok, err, type_error, attribute_error, for_each, atomic, ◌and_then◌,
}
use asoud_backend_full.Table.{Table, lookup}
use asoud_backend_full.Money.Quantum.{half_up}

pub data CommissionStatus : Type 0 where
  held available paid reversed : CommissionStatus

pub record Commission : Type 0 where
  pub order : ℕ
  pub order_item : ℕ
  pub affiliate_product : ℕ
  pub seller : ℕ
  pub marketer : ℕ
  pub quantity : ℕ
  pub customer_total : ℕ
  pub seller_total : ℕ
  pub gross_commission : ℕ
  pub platform_fee : ℕ
  pub marketer_total : ℤ
  pub status : CommissionStatus
  pub available_at : Option ℕ
  pub seller_status : CommissionStatus
  pub seller_available_at : Option ℕ

-- A nullable amount in arithmetic.
abbrev pub amount_of : Option ℕ → Result ℕ
amount_of none = err type_error
amount_of (some a) = ok a

-- A related row that must be there.
abbrev pub related : {A : Type 0} → ℕ → Table A → Result A
related id rows = elim (lookup id rows) [ none ↦ err attribute_error | some a ↦ ok a ]

-- `(fee or Decimal('0'))`
abbrev pub or_zero : Option ℕ → ℕ
or_zero none = 0
or_zero (some a) = a

-- The new row of an item.
unfoldable pub commission_row : ℕ → OrderItem → ℕ → ℕ → ℕ → ℕ → ℕ → ℕ → Commission
commission_row order_id item affiliate_id seller marketer settlement gross_unit unit =
    let gross = half_up (gross_unit * item.quantity) 1 in
    let fee = half_up (or_zero item.affiliate_platform_fee_unit_snapshot * item.quantity) 1 in
    record {
      order = order_id;
      order_item = item.id;
      affiliate_product = affiliate_id;
      seller = seller;
      marketer = marketer;
      quantity = item.quantity;
      customer_total = half_up (unit * item.quantity) 1;
      seller_total = half_up (settlement * item.quantity) 1;
      gross_commission = gross;
      platform_fee = fee;
      marketer_total = sub_ℕ gross fee;
      status = held;
      available_at = none;
      seller_status = held;
      seller_available_at = none;
    }

-- The row of an affiliate's item that has a settlement.
unfoldable pub commission_for : Shop → ℕ → OrderItem → ℕ → ℕ → Result Commission
commission_for s order_id item affiliate_id settlement =
    amount_of item.affiliate_gross_unit_snapshot and_then λ gross_unit.
    related affiliate_id s.affiliates and_then λ affiliate.
    related affiliate.product s.products and_then λ source.
    related source.market s.markets and_then λ seller.
    related affiliate.market s.markets and_then λ marketer.
    amount_of item.unit_price and_then λ unit.
    ok (
      commission_row order_id item affiliate_id seller.user marketer.user settlement gross_unit
        unit)

-- `AffiliateCommission.objects.get_or_create(order_item=item, defaults=row)`
abbrev pub is_for : ℕ → Commission → Bool
is_for item row = row.order_item == item

unfoldable pub get_or_create : Commission → List Commission → List Commission
get_or_create row rows = if any (is_for row.order_item) rows then rows else row ∷ rows

abbrev pub book : Result Commission → Exec (List Commission) (Unit {0})
book (err e) rows = (err e, rows)
book (ok row) rows = (ok tt, get_or_create row rows)

-- The loop's body on an item with an affiliate and a settlement; others are passed over.
pub accrue_sale : Shop → ℕ → OrderItem → Option ℕ → Option ℕ → Exec (List Commission) (Unit {0})
unfolding commission_for
accrue_sale s order_id item (some affiliate) (some settlement) rows =
    book (commission_for s order_id item affiliate settlement) rows
accrue_sale s order_id item _ _ rows = (ok tt, rows)

unfoldable pub accrue_item : Shop → ℕ → OrderItem → Exec (List Commission) (Unit {0})
unfolding accrue_sale
accrue_item s order_id item =
    accrue_sale s order_id item item.affiliate item.seller_settlement_unit_snapshot

unfoldable pub accrue_order_commissions : Shop → ℕ → Order → Exec (List Commission) (Unit {0})
unfolding accrue_item
accrue_order_commissions s order_id order = atomic (for_each (accrue_item s order_id) order.items)
