-- ===== src/Payment/Wallets/Tests.antt =====
-- User 5 pays order 40 of the sample shop, 6 toman, from a wallet.
use asoud_backend_full.Payment.Rows.{Store}
use asoud_backend_full.Payment.Wallets.{paid, pay_order}
use asoud_backend_full.Payment.Wallets.Once.{pay_order_once}
use asoud_backend_full.Cart.Sample.{env, shop}
use asoud_backend_full.Wallet.{lock_user, decrease_balance}
use asoud_backend_full.Table.{lookup, update}
use asoud_backend_full.Cart.Snapshot.{is_online, snapshot_order}
use asoud_backend_full.Money.Gateway.{validate_payment_amount, normalized_places}
use asoud_backend_full.Cart.Pricing.{
  total_price, base_price, own_item, offer, uses_code, item_total,
}
use asoud_backend_full.Cart.Inventory.{take_stock, reserve_order_inventory, confirm_order_inventory}
use asoud_backend_full.Cart.Catalog.{
  validate_items, requires_store_shipping, canonical_id, inventory_target,
}
use asoud_backend_full.Money.Quantum.{half_up}
use asoud_backend_full.Cart.Discounts.{code_applies_to_item, automatic_discount}
use asoud_backend_full.Affiliate.{accrue_item, accrue_order_commissions}
use asoud_backend_full.Money.Normalize.{normalize_money}
use asoud_backend_full.Money.{whole}
use asoud_backend_full.Prelude.{◌≡◌, ◌≢◌, refl, some, [], ◌∷◌}
use asoud_backend_full.Exec.{ok, pair_eq, for_each}

abbrev store : Store
store = record {
  bank = record {
    users = 5 ∷ 6 ∷ [];
    wallets = (10, record { user = 5; balance = 30 }) ∷ [];
    transactions = [];
  };
  shop = shop;
  diary = record {
    services = [];
    specialists = [];
    schedules = [];
    day_offs = [];
    time_offs = [];
    reservations = [];
  };
  cards = [];
  commissions = [];
  payments = [];
  gateways = [];
  notices = [];
}

abbrev after : Store
after = (pay_order env 5 40 (some 10) (some (whole 6)) store).1

pay_sample : (pay_order env 5 40 (some 10) (some (whole 6)) store).0 ≡ ok paid
unfolding pay_order lock_user lookup is_online validate_payment_amount total_price normalized_places
    reserve_order_inventory validate_items snapshot_order requires_store_shipping base_price half_up
    own_item offer code_applies_to_item automatic_discount uses_code accrue_item
    accrue_order_commissions canonical_id inventory_target confirm_order_inventory item_total
    for_each normalize_money update decrease_balance take_stock
pay_sample = refl

pay_order_once_example :
    ((pay_order env 6 40 (some 10) (some (whole 6)) after).1 ≡ after)
    × ((pay_order env 6 40 (some 10) (some (whole 6)) after).0 ≢ ok paid)
pay_order_once_example =
    pay_order_once env env 5 6 40 (some 10) (some 10) (some (whole 6)) (some (whole 6)) store after
      (pair_eq (pay_order env 5 40 (some 10) (some (whole 6)) store) (ok paid) after pay_sample
        refl)
