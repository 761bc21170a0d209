-- ===== src/Login/Codes.antt =====
-- A one-time code lets one request in, and dies after the failures that are allowed.
use asoud_backend_full.Login.{
  Key, code_key, attempts_key, invite_key, consumed_key, OtpCache, Checks, is_four_digits,
  count_attempt, fail_attempt, consume_code, check_code, verify_code, otp_max_attempts,
}
use asoud_backend_full.Prelude.{
  ℕ, ◌+◌, ◌≤◌, ◌<◌, ◌≡◌, ◌≢◌, refl, ◌∙◌, true, false, none, some, is_some, List, [], ◌∷◌, arith,
  leb, inl, inr, Bool-cases, Option-cases, if◌then◌else◌, length,
}

-- The failed attempts that the cache has on record.
unfoldable pub recorded : (C : OtpCache) → ℕ → C.Store → ℕ
recorded C mobile s = elim (C.get (attempts_key mobile) s) [ none ↦ 0 | some n ↦ n ]

module _ (C : OtpCache) (mobile : ℕ) where
  recorded-some :
      (s : C.Store) (n : ℕ) → C.get (attempts_key mobile) s ≡ some n → recorded C mobile s ≡ n
  unfolding recorded
  recorded-some s n h = rw (h, recorded) refl

  add-recorded :
      (s : C.Store)
      → C.get (attempts_key mobile) (C.add (attempts_key mobile) 0 s).1 ≡ some (recorded C mobile s)
  unfolding recorded
  add-recorded s = elim (Option-cases (C.get (attempts_key mobile) s)) [
    | inl e ↦ rw (e, recorded) (C.get-add_new (attempts_key mobile) 0 s e)
    | inr (n, e) ↦ rw (e, recorded) (C.get-add_old (attempts_key mobile) 0 n s e)
  ]

  count_attempt-recorded :
      (s : C.Store)
      → ((count_attempt C mobile s).0 ≡ recorded C mobile s + 1)
        × ((C.get (attempts_key mobile) (count_attempt C mobile s).1
              ≡ some (recorded C mobile s + 1))
            × (C.get (code_key mobile) (count_attempt C mobile s).1 ≡ C.get (code_key mobile) s))
  unfolding count_attempt
  count_attempt-recorded s =
      let added = (C.add (attempts_key mobile) 0 s).1 in
      let there = add-recorded s in
      let answer = C.incr_answer (attempts_key mobile) (recorded C mobile s) added there in
      let apart : code_key mobile ≢ attempts_key mobile = λ e. cc in
      (
        rw (answer, count_attempt) refl,
        (
          rw (answer, count_attempt)
              (C.get-incr (attempts_key mobile) (recorded C mobile s) added there),
          rw (answer, count_attempt)
              (C.get-incr_other (code_key mobile) (attempts_key mobile) added apart
                ∙ C.get-add_other (code_key mobile) (attempts_key mobile) 0 s apart),
        ),
      )

  fail_attempt-recorded :
      (s : C.Store)
      → (recorded C mobile (fail_attempt C mobile s) ≡ recorded C mobile s + 1)
        × (C.get (code_key mobile) (fail_attempt C mobile s) ≡ (
            if leb otp_max_attempts (recorded C mobile s + 1)
            then none
            else C.get (code_key mobile) s))
  unfolding fail_attempt recorded
  fail_attempt-recorded s =
      let (counted, (attempts, code)) = count_attempt-recorded s in
      let t = (count_attempt C mobile s).1 in
      let apart : attempts_key mobile ≢ code_key mobile = λ e. cc in
      elim (Bool-cases (leb otp_max_attempts (recorded C mobile s + 1))) [
        | inl e ↦ (
          rw (counted, e)
              (recorded-some (C.delete (code_key mobile) t) (recorded C mobile s + 1)
                (C.get-delete_other (attempts_key mobile) (code_key mobile) t apart ∙ attempts)),
          rw (counted, e) (C.get-delete (code_key mobile) t),
        )
        | inr e ↦ (
          rw (counted, e) (recorded-some t (recorded C mobile s + 1) attempts),
          rw (counted, e) code,
        )
      ]

  fail_attempt-none :
      (s : C.Store)
      → C.get (code_key mobile) s ≡ none
      → C.get (code_key mobile) (fail_attempt C mobile s) ≡ none
  fail_attempt-none s h =
      let (_, code) = fail_attempt-recorded s in
      elim (Bool-cases (leb otp_max_attempts (recorded C mobile s + 1))) [
        | inl e ↦ rw e at code
        | inr e ↦ rw (e, h) at code
      ]

  -- What `delete_many` leaves.
  abbrev forgotten : C.Store → C.Store
  forgotten s =
      C.delete (invite_key mobile) (C.delete (attempts_key mobile) (C.delete (code_key mobile) s))

  forgotten-IsGone :
      (k : Key) (s : C.Store)
      → k ≢ invite_key mobile
      → k ≢ attempts_key mobile
      → k ≢ code_key mobile
      → (C.get k (forgotten s) ≡ C.get k s) × (C.get (code_key mobile) (forgotten s) ≡ none)
  forgotten-IsGone k s ki ka kc =
      let first = C.delete (code_key mobile) s in
      let second = C.delete (attempts_key mobile) first in
      (
        C.get-delete_other k (invite_key mobile) second ki
            ∙ C.get-delete_other k (attempts_key mobile) first ka
            ∙ C.get-delete_other k (code_key mobile) s kc,
        C.get-delete_other (code_key mobile) (invite_key mobile) second (λ e. cc)
            ∙ C.get-delete_other (code_key mobile) (attempts_key mobile) first (λ e. cc)
            ∙ C.get-delete (code_key mobile) s,
      )

  module _ (c : Checks) where
    -- Where there is no code, nothing is accepted and none appears.
    verify_code-none :
        (pin : List ℕ) (s : C.Store)
        → C.get (code_key mobile) s ≡ none
        → ((verify_code C c mobile pin s).0 ≡ false)
          × (C.get (code_key mobile) (verify_code C c mobile pin s).1 ≡ none)
    unfolding verify_code check_code
    verify_code-none pin s h = elim (Bool-cases (is_four_digits c pin)) [
      | inl e ↦ rw (e, h) (refl, fail_attempt-none s h)
      | inr e ↦ rw e (refl, h)
    ]

    -- Every one of the pins is four digits and is not the one of the hash.
    unfoldable pub AllWrong : ℕ → List (List ℕ) → Type 0
    AllWrong otp_hash [] = Unit {0}
    AllWrong otp_hash (pin ∷ pins) =
        (is_four_digits c pin ≡ true)
        × ((c.check_password pin otp_hash ≡ false) × AllWrong otp_hash pins)

    -- The cache after one request for each of the pins.
    unfoldable pub guess_all : List (List ℕ) → C.Store → C.Store
    guess_all [] s = s
    guess_all (pin ∷ pins) s = guess_all pins (verify_code C c mobile pin s).1

    guess_all-none :
        (pins : List (List ℕ)) (s : C.Store)
        → C.get (code_key mobile) s ≡ none
        → C.get (code_key mobile) (guess_all pins s) ≡ none
    unfolding guess_all
    guess_all-none [] s h = h
    guess_all-none (pin ∷ pins) s h =
        guess_all-none pins (verify_code C c mobile pin s).1 (verify_code-none pin s h).1

    verify_code-wrong :
        (pin : List ℕ) (otp_hash : ℕ) (s : C.Store)
        → is_four_digits c pin ≡ true
        → c.check_password pin otp_hash ≡ false
        → C.get (code_key mobile) s ≡ some otp_hash
        → verify_code C c mobile pin s ≡ (false, fail_attempt C mobile s)
    unfolding verify_code check_code
    verify_code-wrong pin otp_hash s four wrong h = rw (four, h, wrong) refl

    guess_all-gone :
        (pins : List (List ℕ)) (otp_hash : ℕ) (s : C.Store)
        → C.get (code_key mobile) s ≡ some otp_hash
        → AllWrong otp_hash pins
        → recorded C mobile s < otp_max_attempts
        → otp_max_attempts ≤ recorded C mobile s + length pins
        → C.get (code_key mobile) (guess_all pins s) ≡ none
    unfolding guess_all AllWrong
    guess_all-gone [] otp_hash s h wrong below enough = absurd (omega arith)
    guess_all-gone (pin ∷ pins) otp_hash s h (four, (wrong, rest)) below enough =
        let (counted, code) = fail_attempt-recorded s in
        let step = verify_code-wrong pin otp_hash s four wrong h in
        elim (Bool-cases (leb otp_max_attempts (recorded C mobile s + 1))) [
          | inl e ↦ rw step (guess_all-none pins (fail_attempt C mobile s) (rw e at code))
          | inr e ↦ rw step (
              guess_all-gone pins otp_hash (fail_attempt C mobile s) (rw (e, h) at code) rest
                (rw counted (ground arith)) (rw counted (omega arith)))
        ]

    consume_code-IsConsumed :
        (otp_hash : ℕ) (s t : C.Store)
        → consume_code C c mobile otp_hash s ≡ (true, t)
        → (is_some (C.get (consumed_key (c.digest otp_hash)) t) ≡ true)
          × (C.get (code_key mobile) t ≡ none)
    unfolding consume_code
    consume_code-IsConsumed otp_hash s t h =
        let k = consumed_key (c.digest otp_hash) in
        let answer = C.add_answer k 1 s in
        elim (Option-cases (C.get k s)) [
          | inl e ↦
              let added = (C.add k 1 s).1 in
              let left : forgotten added ≡ t = cc (rw (answer, e, consume_code) at h) in
              let (kept, gone) = forgotten-IsGone k added (λ e. cc) (λ e. cc) (λ e. cc) in
              let there : C.get k (forgotten added) ≡ some 1 = kept ∙ C.get-add_new k 1 s e in
              let seen : is_some (C.get k (forgotten added)) ≡ true = rw there refl in
              (rw left at seen, rw left at gone)
          | inr (n, e) ↦ absurd (cc (rw (answer, e, consume_code) at h))
        ]

    consumed_code-false :
        (otp_hash : ℕ) (s : C.Store)
        → is_some (C.get (consumed_key (c.digest otp_hash)) s) ≡ true
        → (consume_code C c mobile otp_hash s).0 ≡ false
    unfolding consume_code
    consumed_code-false otp_hash s h =
        let answer = C.add_answer (consumed_key (c.digest otp_hash)) 1 s in
        rw (answer, h, consume_code) refl

    verify_code-true :
        (pin : List ℕ) (otp_hash : ℕ) (s t : C.Store)
        → C.get (code_key mobile) s ≡ some otp_hash
        → verify_code C c mobile pin s ≡ (true, t)
        → consume_code C c mobile otp_hash s ≡ (true, t)
    unfolding verify_code check_code
    verify_code-true pin otp_hash s t h run = elim (Bool-cases (is_four_digits c pin)) [
      | inl e ↦ elim (Bool-cases (c.check_password pin otp_hash)) [
        | inl right ↦ rw (e, h, right) at run
        | inr wrong ↦ absurd (cc (rw (e, h, wrong) at run))
      ]
      | inr e ↦ absurd (cc (rw e at run))
    ]

    check_code-consumed :
        (pin : List ℕ) (otp_hash : ℕ) (s : C.Store)
        → is_some (C.get (consumed_key (c.digest otp_hash)) s) ≡ true
        → (check_code C c mobile pin (some otp_hash) s).0 ≡ false
    unfolding check_code
    check_code-consumed pin otp_hash s h = elim (Bool-cases (c.check_password pin otp_hash)) [
      | inl right ↦ rw right (consumed_code-false otp_hash s h)
      | inr wrong ↦ rw wrong refl
    ]

-- A code that has let a request in is spent. Whatever pin comes next for the number is refused, and
-- so is every request, from any number, that had read the same hash from the cache before that and
-- is decided at a moment when the mark of the spent hash is in the cache.
pub code_admits_once :
    (C : OtpCache) (c : Checks) (mobile other otp_hash : ℕ) (pin pin' : List ℕ) (s t u : C.Store)
    → C.get (code_key mobile) s ≡ some otp_hash
    → verify_code C c mobile pin s ≡ (true, t)
    → C.get (consumed_key (c.digest otp_hash)) u ≡ C.get (consumed_key (c.digest otp_hash)) t
    → ((verify_code C c mobile pin' t).0 ≡ false)
      × ((check_code C c other pin' (some otp_hash) u).0 ≡ false)
code_admits_once C c mobile other otp_hash pin pin' s t u h run later =
    let consumed = verify_code-true C mobile c pin otp_hash s t h run in
    let (marked, gone) = consume_code-IsConsumed C mobile c otp_hash s t consumed in
    let (refused, _) = verify_code-none C mobile c pin' t gone in
    (refused, check_code-consumed C other c pin' otp_hash u (rw later marked))

-- Where fewer than five failures are on record for a number, wrong pins of four digits, enough of
-- them to make five, end the code: it is gone from the cache, and whatever pin comes next, the right
-- one included, is refused.
pub failures_end_the_code :
    (C : OtpCache) (c : Checks) (mobile otp_hash : ℕ) (pins : List (List ℕ)) (pin : List ℕ)
    (s : C.Store)
    → C.get (code_key mobile) s ≡ some otp_hash
    → AllWrong C mobile c otp_hash pins
    → recorded C mobile s < otp_max_attempts
    → otp_max_attempts ≤ recorded C mobile s + length pins
    → (C.get (code_key mobile) (guess_all C mobile c pins s) ≡ none)
      × ((verify_code C c mobile pin (guess_all C mobile c pins s)).0 ≡ false)
failures_end_the_code C c mobile otp_hash pins pin s h wrong below enough =
    let gone = guess_all-gone C mobile c pins otp_hash s h wrong below enough in
    let (refused, _) = verify_code-none C mobile c pin (guess_all C mobile c pins s) gone in
    (gone, refused)
