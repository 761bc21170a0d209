-- ===== src/Wallet/Ledger.antt =====
-- Every change of a balance is on the ledger.
use asoud_backend_full.Wallet.{
  Wallet, charge, spend, appointment_refund, Transaction, Bank, increase_balance, decrease_balance,
  transfer, increase_block, decrease_block, transfer_block, transfer_between,
  increase_balance_normalized, decrease_balance_normalized, transfer_normalized,
}
use asoud_backend_full.Prelude.{
  ℕ, ◌+◌, ◌-◌, ◌≡◌, ◌≢◌, refl, false, Option, none, some, arith, ◌==◌, same_key, sum_of, inl, inr,
  Bool-cases, Option-cases, if◌then◌else◌,
}
use asoud_backend_full.Exec.{atomic}
use asoud_backend_full.Table.{lookup, update, lookup-update}
use asoud_backend_full.Money.{Decimal}
use asoud_backend_full.Money.Normalize.{normalize_money}

-- What a ledger row adds to and takes from a wallet.
abbrev pub credit : ℕ → Transaction → ℕ
credit w row = elim row.action [
  | spend ↦ 0
  | _ ↦ if same_key (some w) row.to_wallet then row.amount else 0
]

abbrev pub debit : ℕ → Transaction → ℕ
debit w row = elim row.action [
  | charge ↦ 0
  | appointment_refund _ ↦ 0
  | _ ↦ if w == row.from_wallet then row.amount else 0
]

abbrev pub balance_of : ℕ → Bank → ℕ
balance_of w b = elim (lookup w b.wallets) [ none ↦ 0 | some wallet ↦ wallet.balance ]

abbrev pub credits : ℕ → Bank → ℕ
credits w b = sum_of (credit w) b.transactions

abbrev pub debits : ℕ → Bank → ℕ
debits w b = sum_of (debit w) b.transactions

-- The balance moves by what the new rows credit less what they debit.
abbrev pub IsRecorded : ℕ → Bank → Bank → Type 0
IsRecorded w b b' =
    balance_of w b' + debits w b' + credits w b ≡ balance_of w b + debits w b + credits w b'

increase_block-IsRecorded :
    (w user id amount : ℕ) (b : Bank) → IsRecorded w b (atomic (increase_block user id amount) b).1
unfolding increase_block
increase_block-IsRecorded w user id amount b = elim (Option-cases (lookup id b.wallets)) [
  | inl missing ↦ ground arith
  | inr (wallet, found) ↦ ground (
    arith,
    lookup-update w id (record wallet { balance = wallet.balance + amount }) b.wallets wallet found,
  )
]

decrease_block-IsRecorded :
    (w user id amount : ℕ) (b : Bank) → IsRecorded w b (atomic (decrease_block user id amount) b).1
unfolding decrease_block
decrease_block-IsRecorded w user id amount b = elim (Option-cases (lookup id b.wallets)) [
  | inl missing ↦ ground arith
  | inr (wallet, found) ↦ ground (
    arith,
    lookup-update w id (record wallet { balance = wallet.balance - amount }) b.wallets wallet found,
  )
]

transfer_between-IsRecorded :
    (w user from to amount : ℕ) (source target : Wallet) (b : Bank)
    → from ≢ to
    → lookup from b.wallets ≡ some source
    → lookup to b.wallets ≡ some target
    → IsRecorded w b (atomic (transfer_between user from to amount (some source) (some target)) b).1
unfolding transfer_between
transfer_between-IsRecorded w user from to amount source target b ne hs ht =
    let paid = record source { balance = source.balance - amount } in
    let credited = record target { balance = target.balance + amount } in
    let t = update from paid b.wallets in
    ground (
      arith,
      lookup-update w from paid b.wallets source hs,
      lookup-update to from paid b.wallets source hs,
      lookup-update w to credited t target,
    )

transfer_block-IsRecorded :
    (w user from to amount : ℕ) (b : Bank)
    → from ≢ to
    → IsRecorded w b (atomic (transfer_block user from to amount) b).1
unfolding transfer_block transfer_between
transfer_block-IsRecorded w user from to amount b ne = elim (Option-cases (lookup from b.wallets)) [
  | inl missing ↦ ground arith
  | inr (source, hs) ↦ elim (Option-cases (lookup to b.wallets)) [
    | inl missing ↦ ground arith
    | inr (target, ht) ↦
        ground (arith, transfer_between-IsRecorded w user from to amount source target b ne hs ht)
  ]
]

module _ (w user : ℕ) (b : Bank) where
  increase_normalized-IsRecorded :
      (pk amount : Option ℕ) → IsRecorded w b (increase_balance_normalized user pk amount b).1
  unfolding increase_balance_normalized
  increase_normalized-IsRecorded (some id) (some amount) =
      increase_block-IsRecorded w user id amount b
  increase_normalized-IsRecorded _ _ = refl

  decrease_normalized-IsRecorded :
      (pk amount : Option ℕ) → IsRecorded w b (decrease_balance_normalized user pk amount b).1
  unfolding decrease_balance_normalized
  decrease_normalized-IsRecorded (some id) (some amount) =
      decrease_block-IsRecorded w user id amount b
  decrease_normalized-IsRecorded _ _ = refl

  transfer_normalized-IsRecorded :
      (from to amount : Option ℕ) → IsRecorded w b (transfer_normalized user from to amount b).1
  unfolding transfer_normalized
  transfer_normalized-IsRecorded (some from) (some to) (some amount) =
      elim (Bool-cases (from == to)) [
        | inl same ↦ rw same refl
        | inr differ ↦
            rw differ (transfer_block-IsRecorded w user from to amount b (λ p. ground arith))
      ]
  transfer_normalized-IsRecorded _ _ _ = refl

-- Whatever the outcome of a charge, a spending or a transfer, the balance of every wallet changes
-- by exactly what the rows that the operation adds to the ledger credit to it less what they debit.
pub operations-IsRecorded :
    (w user : ℕ) (pk to : Option ℕ) (value : Option Decimal) (b : Bank)
    → IsRecorded w b (increase_balance user pk value b).1
      × IsRecorded w b (decrease_balance user pk value b).1
      × IsRecorded w b (transfer user pk to value b).1
unfolding increase_balance decrease_balance transfer
operations-IsRecorded w user pk to value b = (
  increase_normalized-IsRecorded w user b pk (normalize_money false value),
  decrease_normalized-IsRecorded w user b pk (normalize_money false value),
  transfer_normalized-IsRecorded w user b pk to (normalize_money false value),
)
