-- ===== src/Payment/Pay/Single.antt =====
-- A target has one pending payment of a user at most.
use asoud_backend_full.Payment.Rows.{
  Payment, TargetModel, wallet_target, order_target, market_target, card_target, reservation_target,
  other_target, Store,
}
use asoud_backend_full.Payment.Processing.{same_model}
use asoud_backend_full.Payment.Wallets.{lock_payer}
use asoud_backend_full.Payment.Sessions.{Call, is_session_of}
use asoud_backend_full.Payment.Pay.{open_model, is_payable_model, open_session}
use asoud_backend_full.Prelude.{
  ℕ, ◌≤◌, ◌≡◌, ◌≢◌, refl, sym, ◌∙◌, ◌⊎◌, inl, inr, Bool, true, false, not, ◌&&◌, some, arith, ◌==◌,
  ==_iff, Bool-cases,
}
use asoud_backend_full.Exec.{ended, bind-eq-ok, atomic, atomic-err, atomic-eq-ok, ◌>>◌}
use asoud_backend_full.Table.{Table}
use asoud_backend_full.Payment.Pay.Grows.{sessions, sessions-append, Grows}
use asoud_backend_full.Payment.Pay.Opens.{
  OpensOne, open_order-OpensOne, open_reservation-OpensOne, open_card-OpensOne,
  open_market-OpensOne, open_wallet-Grows,
}

and-true : (a b : Bool) → (a && b) ≡ true → (a ≡ true) × (b ≡ true)
and-true true b h = (refl, h)
and-true false b h = absurd (cc)

same_model-eq : (m n : TargetModel) → same_model (some m) (some n) ≡ true → m ≡ n
unfolding same_model
same_model-eq m n h = ground arith

abbrev pub is_wallet : TargetModel → Bool
is_wallet model = elim model [ wallet_target ↦ true | _ ↦ false ]

same_session :
    (user user' id id' : ℕ) (model model' : TargetModel) (p : Payment)
    → p.user ≡ user
    → p.target_content_type ≡ some model
    → p.target_id ≡ id
    → is_session_of user' model' id' p ≡ true
    → (user ≡ user') × (model ≡ model') × (id ≡ id')
unfolding is_session_of
same_session user user' id id' model model' p ours kind target h =
    let (mine, h1) = and-true (p.user == user') _ h in
    let (same, h2) = and-true (same_model p.target_content_type (some model')) _ h1 in
    let (found, _) = and-true (p.target_id == id') _ h2 in
    (
      sym ours ∙ (==_iff p.user user').0 mine,
      same_model-eq model model' (rw kind at same),
      sym target ∙ (==_iff p.target_id id').0 found,
    )

module _ (user : ℕ) (model : TargetModel) (id : ℕ) (rows others : Table Payment) (user' : ℕ)
    (model' : TargetModel) (id' : ℕ) (most : sessions user' model' id' rows ≤ 1) where
  -- A payment of another target, or of one that has none, leaves one at most.
  Grows-single :
      (sessions user model id rows ≡ 0) ⊎ (model ≢ model')
      → Grows user model id rows others
      → sessions user' model' id' others ≤ 1
  Grows-single free (inl same) = rw same most
  Grows-single free (inr (k, p, grown, ours, kind, target)) =
      let count = sessions-append user' model' id' k p rows in
      elim (Bool-cases (is_session_of user' model' id' p)) [
        | inl counted ↦
            let (u, m, i) =
              same_session user user' id id' model model' p ours kind target counted in
            elim free [
              | inl zero_yet ↦
                  rw grown (omega (arith, rw counted at count, rw (u, m, i) at zero_yet))
              | inr apart ↦ absurd (apart m)
            ]
        | inr other ↦ rw grown (omega (arith, rw other at count))
      ]

module _ (c : Call) (user : ℕ) (user' : ℕ) (model' : TargetModel) (id' : ℕ) where
  OpensOne-single :
      (model : TargetModel) (id : ℕ) (rows others : Table Payment)
      → sessions user' model' id' rows ≤ 1
      → OpensOne c user model id rows others
      → sessions user' model' id' others ≤ 1
  OpensOne-single model id rows others most (inl same) = rw same most
  OpensOne-single model id rows others most (inr (free, grows)) =
      Grows-single user model id rows others user' model' id' most (inl free) grows

  open_model-single :
      (model : TargetModel) (id : ℕ) (s : Store)
      → is_wallet model' ≡ false
      → sessions user' model' id' s.payments ≤ 1
      → sessions user' model' id' (open_model c user model id s).1.payments ≤ 1
  unfolding open_model
  open_model-single order_target id s plain most =
      OpensOne-single order_target id s.payments _ most (open_order-OpensOne c user id s)
  open_model-single reservation_target id s plain most =
      OpensOne-single reservation_target id s.payments _ most
        (open_reservation-OpensOne c user id s)
  open_model-single card_target id s plain most =
      OpensOne-single card_target id s.payments _ most (open_card-OpensOne c user id s)
  open_model-single market_target id s plain most =
      OpensOne-single market_target id s.payments _ most (open_market-OpensOne c user id s)
  open_model-single wallet_target id s plain most =
      Grows-single user wallet_target id s.payments _ user' model' id' most
        (inr (λ (same : wallet_target ≡ model'). absurd (cc (rw (sym same) at plain))))
        (open_wallet-Grows c user id s)
  open_model-single other_target id s plain most = most

  open_atomic-single :
      (model : TargetModel) (id : ℕ) (s : Store)
      → is_wallet model' ≡ false
      → sessions user' model' id' s.payments ≤ 1
      → sessions user' model' id'
          (atomic (lock_payer user >> open_model c user model id) s).1.payments
        ≤ 1
  open_atomic-single model id s plain most =
      let block = lock_payer user >> open_model c user model id in
      elim (ended (atomic block s)) [
        | inl (e, raised) ↦ rw (atomic-err block s raised) most
        | inr (a, done) ↦
            let t = (atomic block s).1 in
            let (_, u, locked, run) =
              bind-eq-ok (lock_payer user) (λ _. open_model c user model id) s a t
                (atomic-eq-ok block s a t done) in
            let here : u ≡ s = cc in
            let after : t ≡ (open_model c user model id s).1 = cc in
            rw after (open_model-single model id s plain most)
      ]

  -- Where a user has one pending payment at most for a target that is not a wallet, there is one
  -- at most after any user's call of `pay` has opened a session for any target, or has not.
  pub open_session-single :
      (model : TargetModel) (id : ℕ) (s : Store)
      → is_wallet model' ≡ false
      → sessions user' model' id' s.payments ≤ 1
      → sessions user' model' id' (open_session c user model id s).1.payments ≤ 1
  unfolding open_session
  open_session-single model id s plain most = elim (Bool-cases (not (is_payable_model model))) [
    | inl other ↦ rw (other, open_session) most
    | inr payable ↦ elim (Bool-cases (not c.configured)) [
      | inl off ↦ rw (payable, off, open_session) most
      | inr on ↦ rw (payable, on, open_session) (open_atomic-single model id s plain most)
    ]
  ]
