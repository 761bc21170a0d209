-- ===== src/Wallet/Tests.antt =====
-- A small bank, and the wallet theorems at it.
use asoud_backend_full.Wallet.Covered.{IsCovered}
use asoud_backend_full.Exec.{pair_eq}
use asoud_backend_full.Wallet.{
  Wallet, Bank, done, refused, insufficient_balance, increase_balance, decrease_balance, transfer,
}
use asoud_backend_full.Wallet.Ledger.{IsRecorded, operations-IsRecorded}
use asoud_backend_full.Wallet.Transfer.{holdings, holdings-transfer}
use asoud_backend_full.Wallet.Outcomes.{
  operations-IsAllOrNothing, IsAllOrNothing, decrease_balance_outcome, transfer-IsCovered,
}
use asoud_backend_full.Prelude.{ℕ, ◌≤◌, ◌≡◌, refl, false, some, [], ◌∷◌, arith}
use asoud_backend_full.Table.{lookup, update}
use asoud_backend_full.Money.{whole}
use asoud_backend_full.Money.Normalize.{normalize_money, normalize_money_iff, max_money}

abbrev alice : Wallet
alice = record { user = 1; balance = 500 }

abbrev bank : Bank
bank = record {
  users = 1 ∷ 2 ∷ [];
  wallets = (10, alice) ∷ (20, record { user = 2; balance = 30 }) ∷ [];
  transactions = [];
}

alice_found : lookup 10 bank.wallets ≡ some alice
unfolding lookup
alice_found = refl

transfer_replies :
    ((transfer 1 (some 10) (some 20) (some (whole 200)) bank).0 ≡ done (300, 230))
    × ((transfer 1 (some 10) (some 20) (some (whole 600)) bank).0 ≡ refused insufficient_balance)
unfolding transfer normalize_money lookup update
transfer_replies = (refl, refl)

operations-IsRecorded_example :
    IsRecorded 10 bank (increase_balance 1 (some 10) (some (whole 200)) bank).1
    × IsRecorded 10 bank (decrease_balance 1 (some 10) (some (whole 200)) bank).1
    × IsRecorded 10 bank (transfer 1 (some 10) (some 20) (some (whole 200)) bank).1
operations-IsRecorded_example =
    operations-IsRecorded 10 1 (some 10) (some 20) (some (whole 200)) bank

holdings-transfer_example :
    holdings (transfer 1 (some 10) (some 20) (some (whole 200)) bank).1 ≡ holdings bank
holdings-transfer_example = holdings-transfer 1 (some 10) (some 20) (some (whole 200)) bank

money : (n : ℕ) → 1 ≤ n → n ≤ max_money → normalize_money false (some (whole n)) ≡ some n
money n low high =
    (normalize_money_iff false (some (whole n)) n).1 (omega arith, (λ h. cc), low, high)

operations-IsAllOrNothing_example :
    IsAllOrNothing bank (increase_balance 1 (some 10) (some (whole 600)) bank)
    × IsAllOrNothing bank (decrease_balance 1 (some 10) (some (whole 600)) bank)
    × IsAllOrNothing bank (transfer 1 (some 10) (some 20) (some (whole 600)) bank)
operations-IsAllOrNothing_example =
    operations-IsAllOrNothing 1 (some 10) (some 20) (some (whole 600)) bank

decrease_balance_outcome_example :
    decrease_balance 1 (some 10) (some (whole 600)) bank ≡ (refused insufficient_balance, bank)
decrease_balance_outcome_example =
    decrease_balance_outcome 1 10 600 (some (whole 600)) bank alice
      (money 600 (omega arith) (omega arith)) refl alice_found refl (omega arith)

abbrev moved : Bank
moved = (transfer 1 (some 10) (some 20) (some (whole 200)) bank).1

transfer_moves : transfer 1 (some 10) (some 20) (some (whole 200)) bank ≡ (done (300, 230), moved)
transfer_moves =
    pair_eq (transfer 1 (some 10) (some 20) (some (whole 200)) bank) (done (300, 230)) moved
      transfer_replies.0 refl

transfer-IsCovered_example : IsCovered 1 10 20 200 (300, 230) bank moved
transfer-IsCovered_example =
    transfer-IsCovered 1 10 20 200 (some (whole 200)) bank moved (300, 230)
      (money 200 (omega arith) (omega arith)) transfer_moves
