-- ===== src/Payment/Wallets.antt =====
-- Paying from a wallet: `PostPaymentCore.wallet_process` of apps/payment/core.py.
pub mod Once
mod Tests
use asoud_backend_full.Payment.Rows.{Store, in_bank, in_shop, in_commissions}
use asoud_backend_full.Wallet.{Reply, done, refused, Refusal, lock_user, decrease_balance, transfer}
use asoud_backend_full.Cart.Rows.{
  Order, OrderStatus, pending, verified, completed, OrderType, online_order, Shop,
}
use asoud_backend_full.Cart.Pricing.{total_price, save_order}
use asoud_backend_full.Cart.Inventory.{
  reserve_order_inventory, release_order_inventory, confirm_order_inventory,
}
use asoud_backend_full.Cart.Snapshot.{is_online}
use asoud_backend_full.Cart.Rows.{Env}
use asoud_backend_full.Affiliate.{accrue_order_commissions}
use asoud_backend_full.Money.{Decimal, nan, infinity, finite, numerator, denominator}
use asoud_backend_full.Money.Gateway.{AmountError, validate_payment_amount}
use asoud_backend_full.Prelude.{
  ℕ, ◌*◌, Bool, true, false, not, ◌&&◌, ◌||◌, Option, none, some, List, [], ◌∷◌, ◌==◌,
  if◌then◌else◌,
}
use asoud_backend_full.Prelude.Int.{ℤ, negsuc}
use asoud_backend_full.Exec.{
  Exec, Fault, integrity, CartCode, does_not_exist, value_error, type_error, Result, ok, err, Model,
  order_model, pure, raise, or_raise, gets, atomic, ◌>>=◌, ◌>>◌,
}
use asoud_backend_full.Table.{lookup}

-- The messages of the refusals.
pub data Cause : Type 0 where
  unsupported_target order_not_found amount_does_not_match : Cause
  order_amount_invalid requested_amount_invalid : AmountError → Cause
  not_reserved : CartCode → Cause
  wallet_refused : Refusal → Cause
  processing_failed : Fault → Cause

pub data WalletOutcome : Type 0 where
  paid : WalletOutcome
  transferred : Reply (ℕ × ℕ) → WalletOutcome
  not_paid : Cause → WalletOutcome

-- The `target` of the request.
pub data Target : Type 0 where
  to_wallet to_order to_other : Target

abbrev pub is_payable : OrderStatus → Bool
is_payable status = elim status [ pending ↦ true | verified ↦ true | _ ↦ false ]

-- `Order.objects.get(id=…, user=…, status__in=…, type=ONLINE, is_paid=False)`
unfoldable pub payable_order : ℕ → ℕ → Store → Option Order
payable_order user id s = elim (lookup id s.shop.orders) [
  | none ↦ none
  | some order ↦
      if order.user == user && (is_payable order.status && (is_online order && not order.is_paid))
      then some order
      else none
]

-- An amount in thousandths, as a decimal.
abbrev pub thousandths : ℕ → Decimal
thousandths n = finite false n (negsuc 2)

-- `requested_amount == expected_amount`
equals : Decimal → ℕ → Bool
equals (finite true c e) n = c == 0 && n == 0
equals (finite false c e) n = numerator c e * 1000 == n * denominator e
equals _ n = false

-- The two amounts of the request, checked.
unfoldable pub check_amounts : ℕ → Decimal → Option Cause
unfolding equals
check_amounts expected requested = elim (validate_payment_amount (some (thousandths expected))) [
  | some e ↦ some (order_amount_invalid e)
  | none ↦ elim (validate_payment_amount (some requested)) [
    | some e ↦ some (requested_amount_invalid e)
    | none ↦
        if expected == 0 || not (equals requested expected)
        then some amount_does_not_match
        else none
  ]
]

-- `try: reserve_order_inventory(order) except CartIntegrityError`: only that one is caught.
abbrev pub reserved_or_code : Result Order → Result (Option CartCode)
reserved_or_code (ok order) = ok none
reserved_or_code (err (integrity code)) = ok (some code)
reserved_or_code (err e) = err e

unfoldable pub try_reserve : Env → ℕ → Exec Store (Option CartCode)
try_reserve env id s =
    let run = in_shop (reserve_order_inventory env id) s in (reserved_or_code run.0, run.1)

-- The money is there: the order is confirmed and completed.
unfoldable pub complete_paid : ℕ → Exec Store WalletOutcome
complete_paid id = do
  order ← in_shop (confirm_order_inventory id)
  in_shop (save_order id (record order { status = completed; is_paid = true }))
  shop ← gets (λ s. s.shop)
  in_commissions (accrue_order_commissions shop id order)
  pure paid

-- A wallet that refuses gives the reservation back.
unfoldable pub after_wallet : ℕ → Reply ℕ → Exec Store WalletOutcome
unfolding complete_paid
after_wallet id (done balance) = complete_paid id
after_wallet id (refused why) =
    in_shop (release_order_inventory false id) >> pure (not_paid (wallet_refused why))

unfoldable pub after_reserve : ℕ → ℕ → Option ℕ → ℕ → Option CartCode → Exec Store WalletOutcome
unfolding after_wallet
after_reserve user id wallet expected (some code) = pure (not_paid (not_reserved code))
after_reserve user id wallet expected none =
    in_bank (decrease_balance user wallet (some (thousandths expected))) >>= after_wallet id

unfoldable pub pay_checked : Env → ℕ → ℕ → Option ℕ → ℕ → Option Cause → Exec Store WalletOutcome
unfolding try_reserve after_reserve
pay_checked env user id wallet expected (some cause) = pure (not_paid cause)
pay_checked env user id wallet expected none =
    try_reserve env id >>= after_reserve user id wallet expected

-- `User.objects.select_for_update().get(id=self.user.id)`
abbrev pub lock_payer : ℕ → Exec Store (Unit {0})
lock_payer user s = let run = lock_user user s.bank in (run.0, s)

-- What follows the query for the order; `amount` is `none` where `Decimal(str(amount))` raises,
-- which is answered like `ValueError`.
unfoldable pub pay_found :
    Env → ℕ → ℕ → Option ℕ → Option Decimal → Option Order → Exec Store WalletOutcome
unfolding check_amounts pay_checked
pay_found env user id wallet amount none s = (err (does_not_exist order_model), s)
pay_found env user id wallet none (some order) s = (err value_error, s)
pay_found env user id wallet (some requested) (some order) s =
    pay_checked env user id wallet (total_price s.shop order)
      (check_amounts (total_price s.shop order) requested) s

unfoldable pub pay_payable : Env → ℕ → ℕ → Option ℕ → Option Decimal → Exec Store WalletOutcome
unfolding payable_order pay_found
pay_payable env user id wallet amount s =
    pay_found env user id wallet amount (payable_order user id s) s

pub pay_order_block : Env → ℕ → ℕ → Option ℕ → Option Decimal → Exec Store WalletOutcome
unfolding pay_payable
pay_order_block env user id wallet amount = lock_payer user >> pay_payable env user id wallet amount

-- The `except` clauses; other exceptions pass.
abbrev pub caught_by_wallet : Result WalletOutcome → Result WalletOutcome
caught_by_wallet (err (does_not_exist order_model)) = ok (not_paid order_not_found)
caught_by_wallet (err (integrity code)) = ok (not_paid (processing_failed (integrity code)))
caught_by_wallet (err value_error) = ok (not_paid (processing_failed value_error))
caught_by_wallet (err type_error) = ok (not_paid (processing_failed type_error))
caught_by_wallet r = r

pub pay_order : Env → ℕ → ℕ → Option ℕ → Option Decimal → Exec Store WalletOutcome
unfolding pay_order_block
pay_order env user id wallet amount s =
    let run = atomic (pay_order_block env user id wallet amount) s in
    (caught_by_wallet run.0, run.1)

unfoldable pub wallet_process :
    Env → ℕ → Target → ℕ → Option ℕ → Option Decimal → Exec Store WalletOutcome
unfolding pay_order
wallet_process env user to_wallet id wallet amount =
    in_bank (transfer user wallet (some id) amount) >>= λ reply. pure (transferred reply)
wallet_process env user to_order id wallet amount = pay_order env user id wallet amount
wallet_process env user to_other id wallet amount = pure (not_paid unsupported_target)
