-- ===== src/Payment/Wallets/Once.antt =====
-- An order is paid from a wallet once.
use asoud_backend_full.Payment.Rows.{Store}
use asoud_backend_full.Payment.Wallets.{
  Cause, WalletOutcome, paid, payable_order, check_amounts, try_reserve, thousandths, complete_paid,
  after_wallet, after_reserve, pay_checked, pay_found, pay_payable, lock_payer, pay_order_block,
  caught_by_wallet, pay_order,
}
use asoud_backend_full.Wallet.{Reply-cases, lock_user, decrease_balance}
use asoud_backend_full.Cart.Rows.{Env, Order, completed}
use asoud_backend_full.Cart.Pricing.{save_order, total_price}
use asoud_backend_full.Cart.Inventory.{confirm_order_inventory, release_order_inventory}
use asoud_backend_full.Cart.Inventory.Lifecycle.{confirmed_is_final}
use asoud_backend_full.Affiliate.{accrue_order_commissions}
use asoud_backend_full.Money.{Decimal}
use asoud_backend_full.Prelude.{
  ℕ, ◌≡◌, ◌≢◌, refl, ap, ◌∙◌, ◌⊎◌, true, false, Option, none, some, arith, elem, inl, inr,
  Bool-cases,
}
use asoud_backend_full.Exec.{
  constraint_error, membership, integrity, does_not_exist, value_error, type_error, attribute_error,
  data_error, CartCode, Result, ok, err, Model, user_model, wallet_model, order_model,
  product_model, affiliate_model, discount_model, market_model, card_model, reservation_model,
  specialist_model, service_model, payment_model, zarinpal_model, shipping_model, atomic, ended,
  atomic-eq-ok, bind-eq-ok, bind-ok, bind-err, pair_eq,
}
use asoud_backend_full.Table.{lookup, update, lookup-update_self}

-- The order is stored as paid.
record IsPaidFor (id : ℕ) (t : Store) : Type 0 where
  order : Order
  found : lookup id t.shop.orders ≡ some order
  is_paid : order.is_paid ≡ true

complete_paid-IsPaidFor :
    (env : Env) (id : ℕ) (s t : Store) → complete_paid id s ≡ (ok paid, t) → IsPaidFor id t
unfolding complete_paid save_order
complete_paid-IsPaidFor env id s t h = elim (ended (confirm_order_inventory id s.shop)) [
  | inl (e, raised) ↦ absurd (ground arith)
  | inr (order, done) ↦
      let u = (confirm_order_inventory id s.shop).1 in
      let stored = (confirmed_is_final env true id s.shop u order done).0.0 in
      let closed = record order { status = completed; is_paid = true } in
      let shop = record u { orders = update id closed u.orders } in
      elim (ended (accrue_order_commissions shop id order s.commissions)) [
        | inl (e, raised) ↦ absurd (ground arith)
        | inr (_, accrued) ↦
            let same : t.shop ≡ shop = ground arith in
            record {
              order = closed;
              found = rw same (lookup-update_self id closed u.orders order stored);
              is_paid = refl;
            }
      ]
]

after_reserve-IsPaidFor :
    (env : Env) (user id : ℕ) (wallet : Option ℕ) (expected : ℕ) (code : Option CartCode)
    (s t : Store)
    → after_reserve user id wallet expected code s ≡ (ok paid, t)
    → IsPaidFor id t
unfolding after_reserve after_wallet
after_reserve-IsPaidFor env user id wallet expected (some code) s t h = absurd (cc)
after_reserve-IsPaidFor env user id wallet expected none s t h =
    let run = decrease_balance user wallet (some (thousandths expected)) s.bank in
    let after = record s { bank = run.1 } in
    elim (Reply-cases run.0) [
      | inl (why, e) ↦ elim (ended (release_order_inventory false id s.shop)) [
        | inl (f, raised) ↦ absurd (ground (arith, rw e at h))
        | inr (order, released) ↦ absurd (ground (arith, rw e at h))
      ]
      | inr (balance, e) ↦ complete_paid-IsPaidFor env id after t (rw e at h)
    ]

pay_checked-IsPaidFor :
    (env : Env) (user id : ℕ) (wallet : Option ℕ) (expected : ℕ) (cause : Option Cause)
    (s t : Store)
    → pay_checked env user id wallet expected cause s ≡ (ok paid, t)
    → IsPaidFor id t
unfolding pay_checked
pay_checked-IsPaidFor env user id wallet expected (some cause) s t h = absurd (cc)
pay_checked-IsPaidFor env user id wallet expected none s t h =
    let (code, u, tried, rest) =
      bind-eq-ok (try_reserve env id) (after_reserve user id wallet expected) s paid t h in
    after_reserve-IsPaidFor env user id wallet expected code u t rest

pay_found-IsPaidFor :
    (env : Env) (user id : ℕ) (wallet : Option ℕ) (amount : Option Decimal) (found : Option Order)
    (s t : Store)
    → pay_found env user id wallet amount found s ≡ (ok paid, t)
    → IsPaidFor id t
unfolding pay_found
pay_found-IsPaidFor env user id wallet amount none s t h = absurd (cc)
pay_found-IsPaidFor env user id wallet none (some order) s t h = absurd (cc)
pay_found-IsPaidFor env user id wallet (some requested) (some order) s t h =
    pay_checked-IsPaidFor env user id wallet (total_price s.shop order)
      (check_amounts (total_price s.shop order) requested) s t h

pay_order_block-IsPaidFor :
    (env : Env) (user id : ℕ) (wallet : Option ℕ) (amount : Option Decimal) (s t : Store)
    → pay_order_block env user id wallet amount s ≡ (ok paid, t)
    → IsPaidFor id t
unfolding pay_order_block pay_payable
pay_order_block-IsPaidFor env user id wallet amount s t h =
    let (_, u, locked, rest) =
      bind-eq-ok (lock_payer user) (λ _. pay_payable env user id wallet amount) s paid t h in
    pay_found-IsPaidFor env user id wallet amount (payable_order user id u) u t rest

caught-paid : (r : Result WalletOutcome) → caught_by_wallet r ≡ ok paid → r ≡ ok paid
caught-paid (ok o) h = h
caught-paid (err (does_not_exist user_model)) h = cc
caught-paid (err (does_not_exist wallet_model)) h = cc
caught-paid (err (does_not_exist order_model)) h = cc
caught-paid (err (does_not_exist product_model)) h = cc
caught-paid (err (does_not_exist affiliate_model)) h = cc
caught-paid (err (does_not_exist discount_model)) h = cc
caught-paid (err (does_not_exist market_model)) h = cc
caught-paid (err (does_not_exist card_model)) h = cc
caught-paid (err (does_not_exist reservation_model)) h = cc
caught-paid (err (does_not_exist specialist_model)) h = cc
caught-paid (err (does_not_exist service_model)) h = cc
caught-paid (err (does_not_exist payment_model)) h = cc
caught-paid (err (does_not_exist zarinpal_model)) h = cc
caught-paid (err (does_not_exist shipping_model)) h = cc
caught-paid (err (integrity code)) h = cc
caught-paid (err value_error) h = cc
caught-paid (err type_error) h = cc
caught-paid (err attribute_error) h = cc
caught-paid (err data_error) h = cc
caught-paid (err constraint_error) h = cc
caught-paid (err (membership code)) h = cc

pay_order-IsPaidFor :
    (env : Env) (user id : ℕ) (wallet : Option ℕ) (amount : Option Decimal) (s t : Store)
    → pay_order env user id wallet amount s ≡ (ok paid, t)
    → IsPaidFor id t
unfolding pay_order
pay_order-IsPaidFor env user id wallet amount s t h =
    let block = pay_order_block env user id wallet amount in
    let passed : (atomic block s).0 ≡ ok paid =
      caught-paid (atomic block s).0 (ap (λ (r : Result WalletOutcome × Store). r.0) h) in
    let run : atomic block s ≡ (ok paid, t) =
      pair_eq (atomic block s) (ok paid) t passed
        (ap (λ (r : Result WalletOutcome × Store). r.1) h) in
    pay_order_block-IsPaidFor env user id wallet amount s t (atomic-eq-ok block s paid t run)

-- A paid order is payable by no one.
paid_order_refused : (user id : ℕ) (t : Store) → IsPaidFor id t → payable_order user id t ≡ none
unfolding payable_order
paid_order_refused user id t k = ground (arith, k.found, k.is_paid)

attempt_refused :
    (env : Env) (user id : ℕ) (wallet : Option ℕ) (amount : Option Decimal) (t : Store)
    → payable_order user id t ≡ none
    → pay_payable env user id wallet amount t ≡ (err (does_not_exist order_model), t)
unfolding pay_payable pay_found
attempt_refused env user id wallet amount t gone = rw gone refl

lock_payer-cases :
    (user : ℕ) (t : Store)
    → (lock_payer user t ≡ (ok tt, t)) ⊎ (lock_payer user t ≡ (err (does_not_exist user_model), t))
unfolding lock_user
lock_payer-cases user t = elim (Bool-cases (elem user t.bank.users)) [
  | inl known ↦ inl (ground arith)
  | inr unknown ↦ inr (ground arith)
]

unpaid_by :
    (env : Env) (user id : ℕ) (wallet : Option ℕ) (amount : Option Decimal) (t : Store) (m : Model)
    → pay_order_block env user id wallet amount t ≡ (err (does_not_exist m), t)
    → ((pay_order env user id wallet amount t).1 ≡ t)
      × ((pay_order env user id wallet amount t).0 ≢ ok paid)
unfolding pay_order
unpaid_by env user id wallet amount t m h =
    rw h (refl, (λ p. absurd (cc (caught-paid (err (does_not_exist m)) p))))

-- Once an order is paid from a wallet, no further attempt by anyone pays for it or changes
-- anything.
pub pay_order_once :
    (env later : Env) (user other id : ℕ) (wallet wallet' : Option ℕ)
    (amount amount' : Option Decimal) (s t : Store)
    → pay_order env user id wallet amount s ≡ (ok paid, t)
    → ((pay_order later other id wallet' amount' t).1 ≡ t)
      × ((pay_order later other id wallet' amount' t).0 ≢ ok paid)
unfolding pay_order_block
pay_order_once env later user other id wallet wallet' amount amount' s t h =
    let gone =
      paid_order_refused other id t (pay_order-IsPaidFor env user id wallet amount s t h) in
    let refused = attempt_refused later other id wallet' amount' t gone in
    let attempt = pay_payable later other id wallet' amount' in
    elim (lock_payer-cases other t) [
      | inl known ↦
          unpaid_by later other id wallet' amount' t order_model
            (bind-ok (lock_payer other) (λ _. attempt) t t tt known ∙ refused)
      | inr unknown ↦
          unpaid_by later other id wallet' amount' t user_model
            (bind-err (lock_payer other) (λ _. attempt) t t (does_not_exist user_model) unknown)
    ]
