-- ===== src/Wallet/Outcomes.antt =====
-- What each outcome of a wallet operation means.
use asoud_backend_full.Wallet.{
  Wallet, Bank, spend, Reply, done, refused, Refusal, insufficient_balance, increase_balance,
  decrease_balance, transfer, increase_block, decrease_block, transfer_block, transfer_between,
  increase_balance_normalized, decrease_balance_normalized, transfer_normalized, caught, any_reply,
}
use asoud_backend_full.Prelude.{
  ℕ, ◌-◌, ◌≤◌, ◌≡◌, refl, true, false, Option, some, ◌∷◌, arith, ltb, elem, if◌then◌else◌, inl, inr,
  ◌⊎◌, Option-cases,
}
use asoud_backend_full.Exec.{atomic}
use asoud_backend_full.Table.{lookup, update}
use asoud_backend_full.Wallet.Covered.{IsCovered, transfer_normalized-IsCovered}
use asoud_backend_full.Money.{Decimal}
use asoud_backend_full.Money.Normalize.{normalize_money, max_money}

-- Nothing is written before a block answers with a refusal.
increase_block_refuses :
    (user id amount : ℕ) (b : Bank) (r : Refusal)
    → (caught (atomic (increase_block user id amount) b)).0 ≡ refused r
    → (atomic (increase_block user id amount) b).1 ≡ b
unfolding increase_block
increase_block_refuses user id amount b r h = elim (Option-cases (lookup id b.wallets)) [
  | inl missing ↦ ground arith
  | inr (wallet, found) ↦ ground arith
]

decrease_block_refuses :
    (user id amount : ℕ) (b : Bank) (r : Refusal)
    → (caught (atomic (decrease_block user id amount) b)).0 ≡ refused r
    → (atomic (decrease_block user id amount) b).1 ≡ b
unfolding decrease_block
decrease_block_refuses user id amount b r h = elim (Option-cases (lookup id b.wallets)) [
  | inl missing ↦ ground arith
  | inr (wallet, found) ↦ ground arith
]

transfer_block_refuses :
    (user from to amount : ℕ) (b : Bank) (r : Refusal)
    → any_reply (atomic (transfer_block user from to amount) b).0 ≡ refused r
    → (atomic (transfer_block user from to amount) b).1 ≡ b
unfolding transfer_block transfer_between any_reply
transfer_block_refuses user from to amount b r h = elim (Option-cases (lookup from b.wallets)) [
  | inl missing ↦ ground arith
  | inr (source, hs) ↦ elim (Option-cases (lookup to b.wallets)) [
    | inl missing ↦ ground arith
    | inr (target, ht) ↦ ground arith
  ]
]

module _ (user : ℕ) (b : Bank) (r : Refusal) where
  increase_normalized_refuses :
      (pk amount : Option ℕ)
      → (increase_balance_normalized user pk amount b).0 ≡ refused r
      → (increase_balance_normalized user pk amount b).1 ≡ b
  unfolding increase_balance_normalized
  increase_normalized_refuses (some id) (some amount) h =
      increase_block_refuses user id amount b r h
  increase_normalized_refuses _ _ h = refl

  decrease_normalized_refuses :
      (pk amount : Option ℕ)
      → (decrease_balance_normalized user pk amount b).0 ≡ refused r
      → (decrease_balance_normalized user pk amount b).1 ≡ b
  unfolding decrease_balance_normalized
  decrease_normalized_refuses (some id) (some amount) h =
      decrease_block_refuses user id amount b r h
  decrease_normalized_refuses _ _ h = refl

  transfer_normalized_refuses :
      (from to amount : Option ℕ)
      → (transfer_normalized user from to amount b).0 ≡ refused r
      → (transfer_normalized user from to amount b).1 ≡ b
  unfolding transfer_normalized
  transfer_normalized_refuses (some from) (some to) (some amount) h =
      let t = transfer_block_refuses user from to amount b r in ground arith
  transfer_normalized_refuses _ _ _ h = refl

-- The operation succeeds, or wallets and ledger are as they were.
abbrev pub IsAllOrNothing : {A : Type 0} → Bank → Reply A × Bank → Type 0
IsAllOrNothing {A} b run = ((result : A) × (run.0 ≡ done result)) ⊎ (run.1 ≡ b)

all_or_nothing :
    {A : Type 0} (b : Bank) (run : Reply A × Bank)
    → ((r : Refusal) → run.0 ≡ refused r → run.1 ≡ b)
    → IsAllOrNothing b run
all_or_nothing b (done result, t) h = inl (result, refl)
all_or_nothing b (refused r, t) h = inr (h r refl)

-- A charge, a spending and a transfer each either succeed, or leave every wallet and the ledger as
-- they were: also when an exception stops a transfer between its two writes.
pub operations-IsAllOrNothing :
    (user : ℕ) (pk to : Option ℕ) (value : Option Decimal) (b : Bank)
    → IsAllOrNothing b (increase_balance user pk value b)
      × IsAllOrNothing b (decrease_balance user pk value b)
      × IsAllOrNothing b (transfer user pk to value b)
unfolding increase_balance decrease_balance transfer
operations-IsAllOrNothing user pk to value b =
    let amount = normalize_money false value in
    (
      all_or_nothing b _ (λ r h. increase_normalized_refuses user b r pk amount h),
      all_or_nothing b _ (λ r h. decrease_normalized_refuses user b r pk amount h),
      all_or_nothing b _ (λ r h. transfer_normalized_refuses user b r pk to amount h),
    )

-- A user spends from their own wallet: the amount leaves it and is booked if the wallet holds it,
-- and otherwise the call is refused and nothing changes.
pub decrease_balance_outcome :
    (user id amount : ℕ) (value : Option Decimal) (b : Bank) (wallet : Wallet)
    → normalize_money false value ≡ some amount
    → elem user b.users ≡ true
    → lookup id b.wallets ≡ some wallet
    → wallet.user ≡ user
    → wallet.balance ≤ max_money
    → decrease_balance user (some id) value b ≡ (
        if ltb wallet.balance amount then (refused insufficient_balance, b) else (
          done (wallet.balance - amount),
          record b {
            wallets = update id (record wallet { balance = wallet.balance - amount }) b.wallets;
            transactions =
                record {
                  user = user;
                  from_wallet = id;
                  to_wallet = some id;
                  action = spend;
                  amount = amount;
                }
                ∷ b.transactions;
          },
        ))
unfolding decrease_balance decrease_balance_normalized decrease_block
decrease_balance_outcome user id amount value b wallet hv hu hw own range =
    rw (hv, decrease_balance_normalized) (ground arith)

-- A transfer that succeeds moves money out of a wallet that the caller owns and that held the
-- amount, to another wallet: afterwards these two wallets hold the balances that it answers with,
-- every other wallet is as it was, and the ledger has one more row, the transfer.
pub transfer-IsCovered :
    (user from to amount : ℕ) (value : Option Decimal) (b t : Bank) (result : ℕ × ℕ)
    → normalize_money false value ≡ some amount
    → transfer user (some from) (some to) value b ≡ (done result, t)
    → IsCovered user from to amount result b t
unfolding transfer
transfer-IsCovered user from to amount value b t result hv h =
    transfer_normalized-IsCovered user from to amount b t result (rw hv at h)
