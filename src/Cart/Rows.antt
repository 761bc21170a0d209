-- ===== src/Cart/Rows.antt =====
-- The rows that an order touches, with the fields that the services read and write.
-- Prices are thousandths of a toman (`decimal_places=3`), times are seconds, texts that are only
-- compared are numbers (0 is the empty text), and an order holds its items in the order of their
-- ids. The percentages are within 100, as the validators of the models demand.
use asoud_backend_full.Prelude.{ℕ, Bool, true, false, Option, List, [], ◌∷◌}
use asoud_backend_full.Table.{Table}

-- The statuses that products, affiliate products and markets share.
pub data Status : Type 0 where
  draft queue not_published published needs_editing inactive : Status

pub record Market : Type 0 where
  pub user : ℕ
  pub status : Status
  pub is_paid : Bool

pub data ProductType : Type 0 where
  good service : ProductType

pub data SellType : Type 0 where
  online person both : SellType

pub data ShipCost : Type 0 where
  market_pays customer free no_shipping store_shipping : ShipCost

pub record Product : Type 0 where
  pub market : ℕ
  pub status : Status
  pub type : ProductType
  pub sell_type : SellType
  pub ship_cost_pay_type : ShipCost
  pub stock : ℕ
  pub main_price : ℕ
  pub is_marketer : Bool
  pub marketer_price : Option ℕ
  pub maximum_sell_price : Option ℕ

pub record AffiliateProduct : Type 0 where
  pub market : ℕ
  pub product : ℕ
  pub status : Status
  pub stock : ℕ
  pub price : ℕ

-- `discount.content_type.model`
pub data ContentModel : Type 0 where
  market_content product_content other_content : ContentModel

pub record Discount : Type 0 where
  pub content_type : ContentModel
  pub object_id : ℕ
  pub users : List ℕ
  pub code : ℕ
  pub percentage : ℕ
  pub expiry : Option ℕ
  pub limitation : ℕ
  pub consumed : ℕ
  pub reserved : ℕ
  pub is_active : Bool

pub data DiscountType : Type 0 where
  percent timed group : DiscountType

pub record ProductDiscount : Type 0 where
  pub product : ℕ
  pub users : List ℕ
  pub percentage : ℕ
  pub created_at : ℕ
  pub discount_type : DiscountType
  pub expiry : Option ℕ
  pub limitation : ℕ
  pub consumed : ℕ
  pub reserved : ℕ
  pub is_active : Bool

pub record ShippingMethod : Type 0 where
  pub market : ℕ
  pub name : ℕ
  pub price : ℕ
  pub is_active : Bool

pub data OrderType : Type 0 where
  cash online_order : OrderType

pub data OrderStatus : Type 0 where
  draft pending processing verified rejected completed failed : OrderStatus

pub data InventoryStatus : Type 0 where
  unreserved reserved confirmed released : InventoryStatus

pub data FulfillmentStatus : Type 0 where
  unfulfilled preparing shipped delivered returned : FulfillmentStatus

pub record OrderItem : Type 0 where
  pub id : ℕ
  pub product : Option ℕ
  pub affiliate : Option ℕ
  pub quantity : ℕ
  pub unit_price : Option ℕ
  pub product_discount : Option ℕ
  pub product_discount_percentage_snapshot : ℕ
  pub source_market : Option ℕ
  pub affiliate_market : Option ℕ
  pub seller_settlement_unit_snapshot : Option ℕ
  pub affiliate_gross_unit_snapshot : Option ℕ
  pub affiliate_platform_fee_unit_snapshot : Option ℕ

pub record Order : Type 0 where
  pub user : ℕ
  pub type : OrderType
  pub status : OrderStatus
  pub is_paid : Bool
  pub discount : Option ℕ
  pub discount_code_snapshot : ℕ
  pub discount_percentage_snapshot : ℕ
  pub subtotal_amount : Option ℕ
  pub discount_amount : ℕ
  pub shipping_method : Option ℕ
  pub shipping_method_name_snapshot : ℕ
  pub shipping_amount : ℕ
  pub payable_amount : Option ℕ
  pub inventory_status : InventoryStatus
  pub fulfillment_status : FulfillmentStatus
  pub delivered_at : Option ℕ
  pub items : List OrderItem

pub record Shop : Type 0 where
  pub markets : Table Market
  pub products : Table Product
  pub affiliates : Table AffiliateProduct
  pub discounts : Table Discount
  pub product_discounts : Table ProductDiscount
  pub shipping_methods : Table ShippingMethod
  pub orders : Table Order

-- What a request reads besides the rows: the clock, the platform's fee of
-- `fee_coefficient / 10 ^ fee_scale` percent, and the two texts that name a user in the list of a
-- discount's users.
pub record Env : Type 0 where
  pub now : ℕ
  pub fee_coefficient : ℕ
  pub fee_scale : ℕ
  pub id_text : ℕ → ℕ
  pub mobile_number : ℕ → ℕ

abbrev pub is_published : Status → Bool
is_published published = true
is_published _ = false

abbrev pub is_group : ProductDiscount → Bool
is_group d = elim d.discount_type [ group ↦ true | _ ↦ false ]

-- `bool(xs)`, for the emptiness test of a list
abbrev pub is_empty {ℓ} : {A : Type ℓ} → List A → Bool
is_empty [] = true
is_empty (_ ∷ _) = false
