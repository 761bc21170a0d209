-- ===== src/Wallet/Transfer.antt =====
-- A transfer moves money and makes none.
use asoud_backend_full.Wallet.{
  Wallet, Bank, transfer, transfer_block, transfer_between, transfer_normalized,
}
use asoud_backend_full.Prelude.{
  ℕ, ◌+◌, ◌-◌, ◌≡◌, ◌≢◌, refl, false, Option, some, arith, ◌==◌, inl, inr, Bool-cases, Option-cases,
}
use asoud_backend_full.Exec.{atomic}
use asoud_backend_full.Table.{lookup, update, lookup-update, total, total-update}
use asoud_backend_full.Money.{Decimal}
use asoud_backend_full.Money.Normalize.{normalize_money}

-- The money in all wallets.
abbrev pub holdings : Bank → ℕ
holdings b = total (λ w. w.balance) b.wallets

holdings-transfer_between :
    (user from to amount : ℕ) (source target : Wallet) (b : Bank)
    → from ≢ to
    → lookup from b.wallets ≡ some source
    → lookup to b.wallets ≡ some target
    → holdings (atomic (transfer_between user from to amount (some source) (some target)) b).1
      ≡ holdings b
unfolding transfer_between
holdings-transfer_between user from to amount source target b ne hs ht =
    let paid = record source { balance = source.balance - amount } in
    let credited = record target { balance = target.balance + amount } in
    let t = update from paid b.wallets in
    ground (
      arith,
      lookup-update to from paid b.wallets source hs,
      total-update (λ (w : Wallet). w.balance) from paid b.wallets source hs,
      total-update (λ (w : Wallet). w.balance) to credited t target,
    )

holdings-transfer_block :
    (user from to amount : ℕ) (b : Bank)
    → from ≢ to
    → holdings (atomic (transfer_block user from to amount) b).1 ≡ holdings b
unfolding transfer_block transfer_between
holdings-transfer_block user from to amount b ne = elim (Option-cases (lookup from b.wallets)) [
  | inl missing ↦ ground arith
  | inr (source, hs) ↦ elim (Option-cases (lookup to b.wallets)) [
    | inl missing ↦ ground arith
    | inr (target, ht) ↦
        ground (arith, holdings-transfer_between user from to amount source target b ne hs ht)
  ]
]

holdings-transfer_normalized :
    (user : ℕ) (from to amount : Option ℕ) (b : Bank)
    → holdings (transfer_normalized user from to amount b).1 ≡ holdings b
unfolding transfer_normalized
holdings-transfer_normalized user (some from) (some to) (some amount) b =
    elim (Bool-cases (from == to)) [
      | inl same ↦ rw same refl
      | inr differ ↦ rw differ (holdings-transfer_block user from to amount b (λ p. ground arith))
    ]
holdings-transfer_normalized user _ _ _ b = refl

-- A transfer, whatever its outcome and also of a wallet to itself, leaves the sum of all balances
-- as it was.
pub holdings-transfer :
    (user : ℕ) (from to : Option ℕ) (value : Option Decimal) (b : Bank)
    → holdings (transfer user from to value b).1 ≡ holdings b
unfolding transfer
holdings-transfer user from to value b =
    holdings-transfer_normalized user from to (normalize_money false value) b
