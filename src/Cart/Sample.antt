-- ===== src/Cart/Sample.antt =====
-- A small shop for the tests: market 1 sells product 7, and order 40 of user 5 asks for two of it.
use asoud_backend_full.Cart.Rows.{
  Market, Product, published, good, person, free, OrderItem, Order, online_order, pending,
  unreserved, unfulfilled, Shop, Env,
}
use asoud_backend_full.Prelude.{true, false, none, some, [], ◌∷◌}

abbrev pub env : Env
env = record {
  now = 1000;
  fee_coefficient = 10;
  fee_scale = 0;
  id_text = λ u. u;
  mobile_number = λ u. u;
}

abbrev pub market : Market
market = record { user = 9; status = published; is_paid = true }

abbrev pub product : Product
product = record {
  market = 1;
  status = published;
  type = good;
  sell_type = person;
  ship_cost_pay_type = free;
  stock = 5;
  main_price = 3000;
  is_marketer = false;
  marketer_price = none;
  maximum_sell_price = none;
}

abbrev pub item : OrderItem
item = record {
  id = 1;
  product = some 7;
  affiliate = none;
  quantity = 2;
  unit_price = none;
  product_discount = none;
  product_discount_percentage_snapshot = 0;
  source_market = none;
  affiliate_market = none;
  seller_settlement_unit_snapshot = none;
  affiliate_gross_unit_snapshot = none;
  affiliate_platform_fee_unit_snapshot = none;
}

abbrev pub order : Order
order = record {
  user = 5;
  type = online_order;
  status = pending;
  is_paid = false;
  discount = none;
  discount_code_snapshot = 0;
  discount_percentage_snapshot = 0;
  subtotal_amount = none;
  discount_amount = 0;
  shipping_method = none;
  shipping_method_name_snapshot = 0;
  shipping_amount = 0;
  payable_amount = none;
  inventory_status = unreserved;
  fulfillment_status = unfulfilled;
  delivered_at = none;
  items = item ∷ [];
}

abbrev pub shop : Shop
shop = record {
  markets = (1, market) ∷ [];
  products = (7, product) ∷ [];
  affiliates = [];
  discounts = [];
  product_discounts = [];
  shipping_methods = [];
  orders = (40, order) ∷ [];
}
