-- ===== src/Login/Issued.antt =====
-- What a request for a code leaves: the code that was sent is the one that is accepted.
use asoud_backend_full.Login.{
  Key, code_key, attempts_key, invite_key, consumed_key, issuing_key, OtpCache, Checks,
  is_four_digits, consume_code, check_code, verify_code, pin_text, CodeCall, CodeAnswer,
  request_in_progress, code_created, drawn_pin, store_code, store_invite, is_stored, deliver_code,
  issue_code,
}
use asoud_backend_full.Prelude.{
  ℕ, ◌+◌, ◌/◌, ◌%◌, ◌<◌, ◌≡◌, ◌≢◌, refl, ap, ◌∙◌, true, none, some, List, arith, inl, inr,
  Bool-cases, Option-cases, ==_iff,
}

is_four_digits-pin_text :
    (c : Checks) (n : ℕ)
    → ((d : ℕ) → d < 10 → c.is_digit (48 + d) ≡ true)
    → n < 10000
    → is_four_digits c (pin_text n) ≡ true
unfolding is_four_digits pin_text asoud_backend_full.Login.all_digits
is_four_digits-pin_text c n digit h =
    rw
      (
        digit (n / 1000) (omega arith),
        digit ((n / 100) % 10) (omega arith),
        digit ((n / 10) % 10) (omega arith),
        digit (n % 10) (omega arith),
      )
      refl

module _ (C : OtpCache) (mobile : ℕ) where
  store_invite-other :
      (call : CodeCall) (k : Key) (s : C.Store)
      → k ≢ invite_key mobile
      → C.get k (store_invite C call mobile s) ≡ C.get k s
  unfolding store_invite
  store_invite-other call k s h = elim (Option-cases call.invite) [
    | inl e ↦ rw (e, store_invite) (C.get-delete_other k (invite_key mobile) s h)
    | inr (token, e) ↦ rw (e, store_invite) (C.get-set_other k (invite_key mobile) token s h)
  ]

  is_stored-some :
      (call : CodeCall) (s : C.Store)
      → is_stored C call mobile s ≡ true
      → C.get (code_key mobile) s ≡ some (call.make_password (drawn_pin call))
  unfolding is_stored
  is_stored-some call s h = elim (Option-cases (C.get (code_key mobile) s)) [
    | inl e ↦ absurd (cc (rw (e, is_stored) at h))
    | inr (found, e) ↦
        let same =
          (==_iff found (call.make_password (drawn_pin call))).0 (rw (e, is_stored) at h) in
        e ∙ ap some same
  ]

  store_code-other :
      (call : CodeCall) (k : Key) (s : C.Store)
      → k ≢ attempts_key mobile
      → k ≢ code_key mobile
      → C.get k (store_code C call mobile s) ≡ C.get k s
  unfolding store_code
  store_code-other call k s ka kc =
      let hash = call.make_password (drawn_pin call) in
      C.get-delete_other k (attempts_key mobile) (C.set (code_key mobile) hash s) ka
      ∙ C.get-set_other k (code_key mobile) hash s kc

  deliver_code-created :
      (call : CodeCall) (s t : C.Store)
      → deliver_code C call mobile s ≡ (code_created, t)
      → (is_stored C call mobile s ≡ true) × (store_invite C call mobile s ≡ t)
  unfolding deliver_code
  deliver_code-created call s t h = elim (Bool-cases (is_stored C call mobile s)) [
    | inl there ↦ elim (Bool-cases call.delivered) [
      | inl sent ↦ (there, cc (rw (there, sent) at h))
      | inr lost ↦ absurd (cc (rw (there, lost) at h))
    ]
    | inr missing ↦ absurd (cc (rw missing at h))
  ]

  issue_code-created :
      (call : CodeCall) (s t : C.Store)
      → issue_code C call mobile s ≡ (code_created, t)
      → deliver_code C call mobile (store_code C call mobile (C.add (issuing_key mobile) 1 s).1)
        ≡ (code_created, t)
  unfolding issue_code
  issue_code-created call s t h = elim (Bool-cases (C.add (issuing_key mobile) 1 s).0) [
    | inl held ↦ rw held at h
    | inr taken ↦ absurd (cc (rw taken at h))
  ]

  consume_code-fresh :
      (c : Checks) (otp_hash : ℕ) (s : C.Store)
      → C.get (consumed_key (c.digest otp_hash)) s ≡ none
      → (consume_code C c mobile otp_hash s).0 ≡ true
  unfolding consume_code
  consume_code-fresh c otp_hash s h =
      let answer = C.add_answer (consumed_key (c.digest otp_hash)) 1 s in
      rw (answer, h, consume_code) refl

  verify_code-fresh :
      (c : Checks) (pin : List ℕ) (otp_hash : ℕ) (s : C.Store)
      → is_four_digits c pin ≡ true
      → c.check_password pin otp_hash ≡ true
      → C.get (code_key mobile) s ≡ some otp_hash
      → C.get (consumed_key (c.digest otp_hash)) s ≡ none
      → (verify_code C c mobile pin s).0 ≡ true
  unfolding verify_code check_code
  verify_code-fresh c pin otp_hash s four right code fresh =
      rw (four, code, right) (consume_code-fresh c otp_hash s fresh)

-- A code that was created for a number is accepted from that number, by the next request that
-- brings the pin that was sent, where the number drawn is below 9000, the hash of the new code is
-- not marked as consumed, the hash of a password is one that the password passes, and the ten
-- characters from 48 on are digits.
pub created_code_admits :
    (C : OtpCache) (c : Checks) (call : CodeCall) (mobile : ℕ) (s t : C.Store)
    → ((d : ℕ) → d < 10 → c.is_digit (48 + d) ≡ true)
    → ((pin : List ℕ) → c.check_password pin (call.make_password pin) ≡ true)
    → call.drawn < 9000
    → C.get (consumed_key (c.digest (call.make_password (drawn_pin call)))) s ≡ none
    → issue_code C call mobile s ≡ (code_created, t)
    → (verify_code C c mobile (drawn_pin call) t).0 ≡ true
created_code_admits C c call mobile s t digit passes below fresh h =
    let hash = call.make_password (drawn_pin call) in
    let k = consumed_key (c.digest hash) in
    let locked = (C.add (issuing_key mobile) 1 s).1 in
    let written = store_code C call mobile locked in
    let run = issue_code-created C mobile call s t h in
    let (there, last) = deliver_code-created C mobile call written t run in
    let code =
      store_invite-other C mobile call (code_key mobile) written (λ e. cc)
      ∙ is_stored-some C mobile call written there in
    let mark =
      store_invite-other C mobile call k written (λ e. cc)
      ∙ store_code-other C mobile call k locked (λ e. cc) (λ e. cc)
      ∙ C.get-add_other k (issuing_key mobile) 1 s (λ e. cc)
      ∙ fresh in
    verify_code-fresh C mobile c (drawn_pin call) hash t
      (is_four_digits-pin_text c (call.drawn + 1000) digit (omega arith)) (passes (drawn_pin call))
      (rw last at code) (rw last at mark)
