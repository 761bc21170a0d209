-- ===== src/Payment/Rows.antt =====
-- All rows that a payment touches, in one state, with the steps of the other services on it.
-- A payment's account is taken not to be deleted and its amount, which `pay` always sets, to be
-- there. Texts are numbers, 0 the empty one.
use asoud_backend_full.Wallet.{Bank}
use asoud_backend_full.Cart.Rows.{Shop}
use asoud_backend_full.Reserve.Rows.{Diary}
use asoud_backend_full.Affiliate.{Commission}
use asoud_backend_full.Prelude.{ℕ, Bool, Option, List}
use asoud_backend_full.Exec.{Exec, ok}
use asoud_backend_full.Table.{Table}

-- `payment.target_content_type.model_class()`
pub data TargetModel : Type 0 where
  wallet_target order_target market_target card_target reservation_target other_target : TargetModel

pub data PaymentStatus : Type 0 where
  pending complete failed canceled : PaymentStatus

pub record Payment : Type 0 where
  pub user : ℕ
  pub amount : ℕ
  pub target_content_type : Option TargetModel
  pub target_id : ℕ
  pub status : PaymentStatus
  pub created_at : ℕ

-- `Zarinpal.verification_data`: what `pay` writes, or anything else.
pub data Metadata : Type 0 where
  current_version other_data : Metadata

pub record Zarinpal : Type 0 where
  pub payment : ℕ
  pub authority : ℕ
  pub transaction_id : ℕ
  pub verification_data : Metadata

pub record BusinessCard : Type 0 where
  pub market : ℕ
  pub is_paid : Bool
  pub subscription_start_date : Option ℕ
  pub subscription_end_date : Option ℕ
  pub subscription_days : ℕ

-- The texts that `notify_after_commit` sends once the transaction is committed.
pub data Event : Type 0 where
  requested confirmed cancelled : Event

pub record Store : Type 0 where
  pub bank : Bank
  pub shop : Shop
  pub diary : Diary
  pub cards : Table BusinessCard
  pub commissions : List Commission
  pub payments : Table Payment
  pub gateways : Table Zarinpal
  pub notices : List (ℕ × Event)

abbrev pub in_bank : {A : Type 0} → (Bank → A × Bank) → Exec Store A
in_bank m s = let run = m s.bank in (ok run.0, record s { bank = run.1 })

abbrev pub in_shop : {A : Type 0} → Exec Shop A → Exec Store A
in_shop m s = let run = m s.shop in (run.0, record s { shop = run.1 })

abbrev pub in_commissions : {A : Type 0} → Exec (List Commission) A → Exec Store A
in_commissions m s = let run = m s.commissions in (run.0, record s { commissions = run.1 })
