-- ===== src/Wallet.antt =====
-- Wallets and their ledger: apps/wallet/models.py and `WalletCore` of apps/wallet/core.py.
-- Balances are whole toman of at most 18 digits (`DecimalField(max_digits=18, decimal_places=0)`
-- with a check that they are not negative): a write of a larger number raises `data_error`.
-- What `Decimal(str(amount))` and `UUID(str(pk))` made of the caller's values are arguments.
-- Row locks order concurrent transactions; one call is one step here.
pub mod Ledger
pub mod Transfer
pub mod Covered
pub mod Outcomes
mod Tests
use asoud_backend_full.Prelude.{
  ℕ, ◌≡◌, refl, ◌⊎◌, inl, inr, ◌+◌, ◌-◌, Bool, true, false, not, Option, none, some, List, [], ◌∷◌,
  ltb, ◌==◌, elem, if◌then◌else◌,
}
use asoud_backend_full.Exec.{
  Exec, Result, ok, err, Fault, does_not_exist, data_error, Model, user_model, wallet_model, pure,
  raise, raise_if, or_raise, gets, modify, atomic, ◌>>=◌, ◌>>◌,
}
use asoud_backend_full.Table.{Table, lookup, update}
use asoud_backend_full.Money.{Decimal}
use asoud_backend_full.Money.Normalize.{normalize_money, max_money}

pub record Wallet : Type 0 where
  pub user : ℕ
  pub balance : ℕ

-- The strings of `Transaction.action`; a refund carries the reservation's id.
pub data Action : Type 0 where
  charge spend exchange : Action
  appointment_refund : ℕ → Action

pub record Transaction : Type 0 where
  pub user : ℕ
  pub from_wallet : ℕ
  pub to_wallet : Option ℕ
  pub action : Action
  pub amount : ℕ

-- `transactions` has the newest row first, the ordering of the model.
pub record Bank : Type 0 where
  pub users : List ℕ
  pub wallets : Table Wallet
  pub transactions : List Transaction

pub data Refusal : Type 0 where
  invalid_amount same_wallet wallet_not_found insufficient_balance : Refusal
  not_the_owner operation_failed : Refusal

-- `(True, value)` and `(False, message)`
pub data Reply (A : Type 0) : Type 0 where
  done : A → Reply A
  refused : Refusal → Reply A

-- How an operation answered.
pub Reply-cases :
    {A : Type 0} (r : Reply A) → ((why : Refusal) × (r ≡ refused why)) ⊎ ((a : A) × (r ≡ done a))
Reply-cases (done a) = inr (a, refl)
Reply-cases (refused why) = inl (why, refl)

-- `User.objects.select_for_update().get(id=user.id)`
unfoldable pub lock_user : ℕ → Exec Bank (Unit {0})
lock_user user b = raise_if (not (elem user b.users)) (does_not_exist user_model) b

-- `Wallet.objects.select_for_update().get(id=wallet_id, user=user)`
unfoldable pub own_wallet : ℕ → ℕ → Exec Bank Wallet
own_wallet user id = do
  w ← gets (λ b. lookup id b.wallets)
  wallet ← or_raise w (does_not_exist wallet_model)
  raise_if (not (wallet.user == user)) (does_not_exist wallet_model)
  pure wallet

-- `wallet.save(update_fields=['balance', ...])`
unfoldable pub save_balance : ℕ → Wallet → ℕ → Exec Bank (Unit {0})
save_balance id wallet balance = do
  raise_if (ltb max_money balance) data_error
  modify (λ b. record b { wallets = update id (record wallet { balance = balance }) b.wallets })

-- `Transaction.objects.create(...)`
unfoldable pub record_transaction : Transaction → Exec Bank (Unit {0})
record_transaction row = modify (λ b. record b { transactions = row ∷ b.transactions })

abbrev reply_of : {A : Type 0} → Result (Reply A) → Reply A
reply_of (ok r) = r
reply_of (err (does_not_exist wallet_model)) = refused wallet_not_found
reply_of (err e) = refused operation_failed

-- The `except` clauses of the operations on one wallet.
abbrev pub caught : {A : Type 0} → Result (Reply A) × Bank → Reply A × Bank
caught run = (reply_of run.0, run.1)

pub increase_block : ℕ → ℕ → ℕ → Exec Bank (Reply ℕ)
unfolding lock_user own_wallet save_balance record_transaction
increase_block user id amount = do
  lock_user user
  wallet ← own_wallet user id
  save_balance id wallet (wallet.balance + amount)
  record_transaction (record {
    user = user;
    from_wallet = id;
    to_wallet = some id;
    action = charge;
    amount = amount;
  })
  pure (done (wallet.balance + amount))

-- `_normalize_amount` and `_normalize_uuid` gave `none` where they refused the value.
pub increase_balance_normalized : ℕ → Option ℕ → Option ℕ → Bank → Reply ℕ × Bank
unfolding increase_block
increase_balance_normalized user (some id) (some amount) b =
    caught (atomic (increase_block user id amount) b)
increase_balance_normalized user _ _ b = (refused invalid_amount, b)

unfoldable pub increase_balance : ℕ → Option ℕ → Option Decimal → Bank → Reply ℕ × Bank
unfolding increase_balance_normalized
increase_balance user pk value = increase_balance_normalized user pk (normalize_money false value)

pub decrease_block : ℕ → ℕ → ℕ → Exec Bank (Reply ℕ)
unfolding lock_user own_wallet save_balance record_transaction
decrease_block user id amount = do
  lock_user user
  wallet ← own_wallet user id
  if ltb wallet.balance amount then pure (refused insufficient_balance) else (do
    save_balance id wallet (wallet.balance - amount)
    record_transaction (record {
      user = user;
      from_wallet = id;
      to_wallet = some id;
      action = spend;
      amount = amount;
    })
    pure (done (wallet.balance - amount)))

-- `_normalize_amount` and `_normalize_uuid` gave `none` where they refused the value.
pub decrease_balance_normalized : ℕ → Option ℕ → Option ℕ → Bank → Reply ℕ × Bank
unfolding decrease_block
decrease_balance_normalized user (some id) (some amount) b =
    caught (atomic (decrease_block user id amount) b)
decrease_balance_normalized user _ _ b = (refused invalid_amount, b)

unfoldable pub decrease_balance : ℕ → Option ℕ → Option Decimal → Bank → Reply ℕ × Bank
unfolding decrease_balance_normalized
decrease_balance user pk value = decrease_balance_normalized user pk (normalize_money false value)

-- `len(wallets_by_id) != 2`: a wallet is missing.
pub transfer_between : ℕ → ℕ → ℕ → ℕ → Option Wallet → Option Wallet → Exec Bank (Reply (ℕ × ℕ))
unfolding save_balance record_transaction
transfer_between user from to amount (some source) (some target) =
    if not (source.user == user)
    then pure (refused not_the_owner)
    else if ltb source.balance amount
    then pure (refused insufficient_balance)
    else (do
      save_balance from source (source.balance - amount)
      save_balance to target (target.balance + amount)
      record_transaction (record {
        user = user;
        from_wallet = from;
        to_wallet = some to;
        action = exchange;
        amount = amount;
      })
      pure (done (source.balance - amount, target.balance + amount)))
transfer_between user from to amount _ _ = pure (refused wallet_not_found)

pub transfer_block : ℕ → ℕ → ℕ → ℕ → Exec Bank (Reply (ℕ × ℕ))
unfolding lock_user transfer_between
transfer_block user from to amount = do
  lock_user user
  source ← gets (λ b. lookup from b.wallets)
  target ← gets (λ b. lookup to b.wallets)
  transfer_between user from to amount source target

any_reply : {A : Type 0} → Result (Reply A) → Reply A
any_reply (ok r) = r
any_reply (err e) = refused operation_failed

-- An exception is answered by the `except Exception` of `transaction`.
pub transfer_normalized : ℕ → Option ℕ → Option ℕ → Option ℕ → Bank → Reply (ℕ × ℕ) × Bank
unfolding transfer_block any_reply
transfer_normalized user (some from) (some to) (some amount) b =
    if from == to
    then (refused same_wallet, b)
    else (let run = atomic (transfer_block user from to amount) b in (any_reply run.0, run.1))
transfer_normalized user _ _ _ b = (refused invalid_amount, b)

-- `WalletCore.transaction`
unfoldable pub transfer : ℕ → Option ℕ → Option ℕ → Option Decimal → Bank → Reply (ℕ × ℕ) × Bank
unfolding transfer_normalized
transfer user from_pk to_pk value =
    transfer_normalized user from_pk to_pk (normalize_money false value)
