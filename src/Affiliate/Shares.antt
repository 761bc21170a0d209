-- ===== src/Affiliate/Shares.antt =====
-- A commission shares out the whole price.
use asoud_backend_full.Affiliate.{
  Commission, commission_row, commission_for, amount_of, related, or_zero,
}
use asoud_backend_full.Cart.Rows.{OrderItem, Shop, Env, Product, AffiliateProduct}
use asoud_backend_full.Cart.Pricing.{Offer}
use asoud_backend_full.Cart.Snapshot.{settle}
use asoud_backend_full.Cart.Snapshot.Prices.{settle_splits_price}
use asoud_backend_full.Prelude.{ℕ, ◌+◌, ◌-◌, ◌*◌, ◌^◌, ◌≤◌, ◌≡◌, ◌∙◌, Option, none, some, arith}
use asoud_backend_full.Prelude.Int.{pos, sub_ℕ}
use asoud_backend_full.Exec.{ok, and_then-eq-ok}
use asoud_backend_full.Money.Quantum.{half_up-one}
use native.Mathlib.Nat.{mul-le-mul_right}

amount_of-eq-ok : (o : Option ℕ) (a : ℕ) → amount_of o ≡ ok a → o ≡ some a
amount_of-eq-ok none a h = absurd (cc)
amount_of-eq-ok (some b) a h = ground arith

-- The amounts of a row, each rounded where nothing is left to round.
record HasAmounts (item : OrderItem) (settlement gross unit : ℕ) (row : Commission) : Type 0 where
  customer_lem : row.customer_total ≡ unit * item.quantity
  seller_lem : row.seller_total ≡ settlement * item.quantity
  fee_lem : row.platform_fee ≡ or_zero item.affiliate_platform_fee_unit_snapshot * item.quantity
  marketer_lem :
      row.marketer_total
      ≡ sub_ℕ
          (gross * item.quantity)
          (or_zero item.affiliate_platform_fee_unit_snapshot * item.quantity)

commission_row-amounts :
    (order_id : ℕ) (item : OrderItem) (affiliate_id seller marketer settlement gross unit : ℕ)
    (row : Commission)
    → commission_row order_id item affiliate_id seller marketer settlement gross unit ≡ row
    → HasAmounts item settlement gross unit row
unfolding commission_row
commission_row-amounts order_id item affiliate_id seller marketer settlement gross unit row e =
    rw (← e) (record {
      customer_lem = half_up-one (unit * item.quantity);
      seller_lem = half_up-one (settlement * item.quantity);
      fee_lem = half_up-one (or_zero item.affiliate_platform_fee_unit_snapshot * item.quantity);
      marketer_lem = simp half_up-one;
    })

-- The amounts of a commission, from the unit prices of its item.
record IsComputed (item : OrderItem) (settlement : ℕ) (row : Commission) : Type 0 where
  gross : ℕ
  unit : ℕ
  gross_lem : item.affiliate_gross_unit_snapshot ≡ some gross
  unit_lem : item.unit_price ≡ some unit
  amounts : HasAmounts item settlement gross unit row

commission_for-IsComputed :
    (s : Shop) (order_id : ℕ) (item : OrderItem) (affiliate_id settlement : ℕ) (row : Commission)
    → commission_for s order_id item affiliate_id settlement ≡ ok row
    → IsComputed item settlement row
unfolding commission_for
commission_for-IsComputed s order_id item affiliate_id settlement row h =
    let (gross, g, h1) = and_then-eq-ok (amount_of item.affiliate_gross_unit_snapshot) _ row h in
    let (affiliate, a, h2) = and_then-eq-ok (related affiliate_id s.affiliates) _ row h1 in
    let (source, p, h3) = and_then-eq-ok (related affiliate.product s.products) _ row h2 in
    let (seller, m, h4) = and_then-eq-ok (related source.market s.markets) _ row h3 in
    let (marketer, n, h5) = and_then-eq-ok (related affiliate.market s.markets) _ row h4 in
    let (unit, u, h6) = and_then-eq-ok (amount_of item.unit_price) _ row h5 in
    let e : commission_row order_id item affiliate_id seller.user marketer.user settlement gross
          unit
        ≡ row =
      ground arith in
    record {
      gross = gross;
      unit = unit;
      gross_lem = amount_of-eq-ok item.affiliate_gross_unit_snapshot gross g;
      unit_lem = amount_of-eq-ok item.unit_price unit u;
      amounts =
          commission_row-amounts order_id item affiliate_id seller.user marketer.user settlement
            gross unit row e;
    }

shares :
    (item : OrderItem) (settlement gross unit : ℕ) (row : Commission) (given total fee : ℕ)
    → item.affiliate_gross_unit_snapshot ≡ some gross
    → item.unit_price ≡ some unit
    → HasAmounts item settlement gross unit row
    → item.seller_settlement_unit_snapshot ≡ some settlement
    → item.seller_settlement_unit_snapshot ≡ some given
    → item.affiliate_gross_unit_snapshot ≡ some total
    → item.affiliate_platform_fee_unit_snapshot ≡ some fee
    → item.unit_price ≡ some (given + total)
    → fee ≤ total
    → (m : ℕ) × (row.marketer_total ≡ pos m)
      × (row.customer_total ≡ row.seller_total + row.platform_fee + m)
shares item settlement gross unit row given total fee eg eu k es es' eg' ef eu' low =
    let same_gross : gross ≡ total = ground arith in
    let same_settlement : settlement ≡ given = ground arith in
    let same_unit : unit ≡ given + total = ground arith in
    let fee_of : or_zero item.affiliate_platform_fee_unit_snapshot ≡ fee = ground arith in
    let part : fee * item.quantity ≤ total * item.quantity = mul-le-mul_right item.quantity low in
    let fee_total : row.platform_fee ≡ fee * item.quantity = rw fee_of at k.fee_lem in
    let customer : row.customer_total ≡ (given + total) * item.quantity =
      rw same_unit at k.customer_lem in
    let seller : row.seller_total ≡ given * item.quantity = rw same_settlement at k.seller_lem in
    (
      total * item.quantity - fee * item.quantity,
      k.marketer_lem ∙ (rw (fee_of, same_gross) (ground (arith, part))),
      rw (fee_total, customer, seller) (omega (arith, part)),
    )

-- If the platform's fee is at most 100 percent, the commission on an item that checkout priced for
-- an affiliate shares out exactly what the customer pays: to the seller, the platform and the
-- marketer, whose part is not negative.
pub commission_shares_price :
    (env : Env) (unit : ℕ) (o : Offer) (a : AffiliateProduct) (p : Product) (price : Option ℕ)
    (before item : OrderItem) (s : Shop) (order_id affiliate_id settlement : ℕ) (row : Commission)
    → env.fee_coefficient ≤ 100 * 10 ^ env.fee_scale
    → settle env unit o a p price before ≡ ok item
    → item.seller_settlement_unit_snapshot ≡ some settlement
    → commission_for s order_id item affiliate_id settlement ≡ ok row
    → (m : ℕ) × (row.marketer_total ≡ pos m)
      × (row.customer_total ≡ row.seller_total + row.platform_fee + m)
commission_shares_price env unit o a p price before item s order_id affiliate_id settlement row hf
      hs hp h =
    let (given, gross, fee, e1, e2, e3, e4, low) =
      settle_splits_price env unit o a p price before item hf hs in
    let k = commission_for-IsComputed s order_id item affiliate_id settlement row h in
    shares item settlement k.gross k.unit row given gross fee k.gross_lem k.unit_lem k.amounts hp e1
      e2 e3 e4 low
