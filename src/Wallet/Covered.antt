-- ===== src/Wallet/Covered.antt =====
-- What a completed transfer of apps/wallet/core.py leaves in the two wallets and the ledger.
use asoud_backend_full.Wallet.{
  Wallet, Bank, exchange, Reply, done, transfer_block, transfer_between, transfer_normalized,
  any_reply,
}
use asoud_backend_full.Prelude.{
  ℕ, ◌+◌, ◌-◌, ◌≤◌, ◌≡◌, ◌≢◌, refl, sym, ap, ◌∙◌, some, ◌∷◌, arith, ◌==◌, inl, inr, Bool-cases,
  Option-cases,
}
use asoud_backend_full.Exec.{Result, ok, err, atomic, atomic-eq-ok}
use asoud_backend_full.Table.{lookup, update, lookup-update_self, lookup-update_ne}

-- What a completed transfer says of the bank before it and of the bank after it.
pub record IsCovered (user from to amount : ℕ) (result : ℕ × ℕ) (b t : Bank) : Type 0 where
  pub source : Wallet
  pub target : Wallet
  pub from_found : lookup from b.wallets ≡ some source
  pub to_found : lookup to b.wallets ≡ some target
  pub differ : from ≢ to
  pub owned : source.user ≡ user
  pub covered : amount ≤ source.balance
  pub left : result.0 + amount ≡ source.balance
  pub added : result.1 ≡ target.balance + amount
  pub from_saved : lookup from t.wallets ≡ some (record source { balance = result.0 })
  pub to_saved : lookup to t.wallets ≡ some (record target { balance = result.1 })
  pub others_same : (id : ℕ) → id ≢ from → id ≢ to → lookup id t.wallets ≡ lookup id b.wallets
  pub booked :
      t.transactions
      ≡ record {
        user = user;
        from_wallet = from;
        to_wallet = some to;
        action = exchange;
        amount = amount;
      }
        ∷ b.transactions

transfer_between-done :
    (user from to amount : ℕ) (source target : Wallet) (b t : Bank) (result : ℕ × ℕ)
    → transfer_between user from to amount (some source) (some target) b ≡ (ok (done result), t)
    → (source.user ≡ user)
      × (amount ≤ source.balance)
      × (result ≡ (source.balance - amount, target.balance + amount))
      × (t ≡ record b {
        wallets =
            update to
              (record target { balance = target.balance + amount })
              (update from (record source { balance = source.balance - amount }) b.wallets);
        transactions =
            record {
              user = user;
              from_wallet = from;
              to_wallet = some to;
              action = exchange;
              amount = amount;
            }
            ∷ b.transactions;
      })
unfolding transfer_between
transfer_between-done user from to amount source target b t result h =
    (ground arith, ground arith, ground arith, ground arith)

transfer_block-done :
    (user from to amount : ℕ) (b t : Bank) (result : ℕ × ℕ)
    → transfer_block user from to amount b ≡ (ok (done result), t)
    → (source : Wallet) × (target : Wallet) × (lookup from b.wallets ≡ some source)
      × (lookup to b.wallets ≡ some target)
      × (transfer_between user from to amount (some source) (some target) b ≡ (ok (done result), t))
unfolding transfer_block
transfer_block-done user from to amount b t result h = elim (Option-cases (lookup from b.wallets)) [
  | inl missing ↦ absurd (ground arith)
  | inr (source, hs) ↦ elim (Option-cases (lookup to b.wallets)) [
    | inl missing ↦ absurd (ground arith)
    | inr (target, ht) ↦ (source, target, hs, ht, ground arith)
  ]
]

transfer_block-IsCovered :
    (user from to amount : ℕ) (b t : Bank) (result : ℕ × ℕ)
    → from ≢ to
    → transfer_block user from to amount b ≡ (ok (done result), t)
    → IsCovered user from to amount result b t
transfer_block-IsCovered user from to amount b t result ne h =
    let (source, target, hs, ht, run) = transfer_block-done user from to amount b t result h in
    let (owned, covered, balances, after) =
      transfer_between-done user from to amount source target b t result run in
    let first : result.0 ≡ source.balance - amount = ap (λ (r : ℕ × ℕ). r.0) balances in
    let second : result.1 ≡ target.balance + amount = ap (λ (r : ℕ × ℕ). r.1) balances in
    let less : Wallet = record source { balance = source.balance - amount } in
    let more : Wallet = record target { balance = target.balance + amount } in
    let left = update from less b.wallets in
    record {
      source = source;
      target = target;
      from_found = hs;
      to_found = ht;
      differ = ne;
      owned = owned;
      covered = covered;
      left = omega (arith, first);
      added = second;
      from_saved =
          rw (after, first)
            (lookup-update_ne from to more left ne
              ∙ lookup-update_self from less b.wallets source hs);
      to_saved =
          rw (after, second)
            (lookup-update_self to more left target
              (lookup-update_ne to from less b.wallets (λ p. ne (sym p)) ∙ ht));
      others_same = λ id a c.
          rw after (lookup-update_ne id to more left c ∙ lookup-update_ne id from less b.wallets a);
      booked = rw after refl;
    }

any_reply-done :
    {A : Type 0} (b : Bank) (run : Result (Reply A) × Bank) (result : A) (t : Bank)
    → any_reply run.0 ≡ done result
    → run.1 ≡ t
    → run ≡ (ok (done result), t)
unfolding any_reply
any_reply-done b (ok r, u) result t h k = cc
any_reply-done b (err e, u) result t h k = absurd (cc)

pub transfer_normalized-IsCovered :
    (user from to amount : ℕ) (b t : Bank) (result : ℕ × ℕ)
    → transfer_normalized user (some from) (some to) (some amount) b ≡ (done result, t)
    → IsCovered user from to amount result b t
unfolding transfer_normalized
transfer_normalized-IsCovered user from to amount b t result h = elim (Bool-cases (from == to)) [
  | inl same ↦ absurd (cc (rw same at h))
  | inr differ ↦
      let block = transfer_block user from to amount in
      let ends = rw differ at h in
      let run =
        any_reply-done b (atomic block b) result t (ap (λ (r : Reply (ℕ × ℕ) × Bank). r.0) ends)
          (ap (λ (r : Reply (ℕ × ℕ) × Bank). r.1) ends) in
      transfer_block-IsCovered user from to amount b t result (λ p. ground arith)
        (atomic-eq-ok block b (done result) t run)
]
