-- ===== src/Login/Tests.antt =====
-- A cache that is a function of the keys, and the login of the number 7, whose code is 1234.
use asoud_backend_full.Prelude.{
  ℕ, ◌+◌, ◌≡◌, ◌≢◌, refl, ap, Bool, true, false, not, ◌&&◌, Option, none, some, is_some, List, [],
  ◌∷◌, ◌<◌, arith, leb, ◌==◌, if◌then◌else◌, inl, inr, Option-cases, Bool-cases, ==_iff,
}
use asoud_backend_full.Login.{
  Key, code_key, attempts_key, invite_key, consumed_key, issuing_key, OtpCache, Checks, Account,
  LoginRequest, logged_in, pin_not_valid, verify_code, check_code, verify_pin, is_four_digits,
  CodeCall, code_created, request_in_progress, drawn_pin, issue_code,
}
use asoud_backend_full.Login.Issued.{created_code_admits}
use asoud_backend_full.Login.Codes.{
  code_admits_once, failures_end_the_code, recorded, guess_all, AllWrong,
}

abbrev is_key : Key → Key → Bool
is_key (code_key m) (code_key n) = m == n
is_key (attempts_key m) (attempts_key n) = m == n
is_key (invite_key m) (invite_key n) = m == n
is_key (consumed_key m) (consumed_key n) = m == n
is_key (issuing_key m) (issuing_key n) = m == n
is_key _ _ = false

is_key_self : (k : Key) → is_key k k ≡ true
is_key_self (code_key m) = (==_iff m m).1 refl
is_key_self (attempts_key m) = (==_iff m m).1 refl
is_key_self (invite_key m) = (==_iff m m).1 refl
is_key_self (consumed_key m) = (==_iff m m).1 refl
is_key_self (issuing_key m) = (==_iff m m).1 refl

is_key_eq : (j k : Key) → is_key j k ≡ true → j ≡ k
is_key_eq (code_key m) (code_key n) h = ap code_key ((==_iff m n).0 h)
is_key_eq (code_key m) (attempts_key n) h = absurd (cc)
is_key_eq (code_key m) (invite_key n) h = absurd (cc)
is_key_eq (code_key m) (consumed_key n) h = absurd (cc)
is_key_eq (attempts_key m) (code_key n) h = absurd (cc)
is_key_eq (attempts_key m) (attempts_key n) h = ap attempts_key ((==_iff m n).0 h)
is_key_eq (attempts_key m) (invite_key n) h = absurd (cc)
is_key_eq (attempts_key m) (consumed_key n) h = absurd (cc)
is_key_eq (invite_key m) (code_key n) h = absurd (cc)
is_key_eq (invite_key m) (attempts_key n) h = absurd (cc)
is_key_eq (invite_key m) (invite_key n) h = ap invite_key ((==_iff m n).0 h)
is_key_eq (invite_key m) (consumed_key n) h = absurd (cc)
is_key_eq (consumed_key m) (code_key n) h = absurd (cc)
is_key_eq (consumed_key m) (attempts_key n) h = absurd (cc)
is_key_eq (consumed_key m) (invite_key n) h = absurd (cc)
is_key_eq (consumed_key m) (consumed_key n) h = ap consumed_key ((==_iff m n).0 h)
is_key_eq (code_key m) (issuing_key n) h = absurd (cc)
is_key_eq (issuing_key m) (code_key n) h = absurd (cc)
is_key_eq (attempts_key m) (issuing_key n) h = absurd (cc)
is_key_eq (issuing_key m) (attempts_key n) h = absurd (cc)
is_key_eq (invite_key m) (issuing_key n) h = absurd (cc)
is_key_eq (issuing_key m) (invite_key n) h = absurd (cc)
is_key_eq (consumed_key m) (issuing_key n) h = absurd (cc)
is_key_eq (issuing_key m) (consumed_key n) h = absurd (cc)
is_key_eq (issuing_key m) (issuing_key n) h = ap issuing_key ((==_iff m n).0 h)

is_key_ne : (j k : Key) → j ≢ k → is_key j k ≡ false
is_key_ne j k h = elim (Bool-cases (is_key j k)) [
  | inl e ↦ absurd (h (is_key_eq j k e))
  | inr e ↦ e
]

abbrev Entries : Type 0
Entries = Key → Option ℕ

abbrev written : Key → Option ℕ → Entries → Entries
written k v s j = if is_key j k then v else s j

abbrev added : Key → ℕ → Entries → Bool × Entries
added k v s = (not (is_some (s k)), elim (s k) [ none ↦ written k (some v) s | some _ ↦ s ])

abbrev increased : Key → Entries → Option ℕ × Entries
increased k s = (
  elim (s k) [ none ↦ none | some n ↦ some (n + 1) ],
  elim (s k) [ none ↦ s | some n ↦ written k (some (n + 1)) s ],
)

written_self : (k : Key) (v : Option ℕ) (s : Entries) → written k v s k ≡ v
written_self k v s = rw (is_key_self k) refl

written_other : (j k : Key) (v : Option ℕ) (s : Entries) → j ≢ k → written k v s j ≡ s j
written_other j k v s h = rw (is_key_ne j k h) refl

added_new : (k : Key) (v : ℕ) (s : Entries) → s k ≡ none → (added k v s).1 k ≡ some v
added_new k v s e = rw (e, is_key_self k) refl

added_old : (k : Key) (v w : ℕ) (s : Entries) → s k ≡ some w → (added k v s).1 k ≡ some w
added_old k v w s e = rw (e, e) refl

added_other : (j k : Key) (v : ℕ) (s : Entries) → j ≢ k → (added k v s).1 j ≡ s j
added_other j k v s h = elim (Option-cases (s k)) [
  | inl e ↦ rw (e, is_key_ne j k h) refl
  | inr (w, e) ↦ rw e refl
]

increased_answer : (k : Key) (v : ℕ) (s : Entries) → s k ≡ some v → (increased k s).0 ≡ some (v + 1)
increased_answer k v s e = rw e refl

increased_self : (k : Key) (v : ℕ) (s : Entries) → s k ≡ some v → (increased k s).1 k ≡ some (v + 1)
increased_self k v s e = rw (e, is_key_self k) refl

increased_other : (j k : Key) (s : Entries) → j ≢ k → (increased k s).1 j ≡ s j
increased_other j k s h = elim (Option-cases (s k)) [
  | inl e ↦ rw e refl
  | inr (w, e) ↦ rw (e, is_key_ne j k h) refl
]

abbrev local_cache : OtpCache
local_cache = record {
  Store = Entries;
  get = λ k s. s k;
  add = added;
  incr = increased;
  set = λ k v s. written k (some v) s;
  delete = λ k s. written k none s;
  add_answer = λ k v s. refl;
  get-add_new = added_new;
  get-add_old = added_old;
  get-add_other = added_other;
  incr_answer = increased_answer;
  get-incr = increased_self;
  get-incr_other = increased_other;
  get-set = λ k v s. written_self k (some v) s;
  get-set_other = λ j k v s h. written_other j k (some v) s h;
  get-delete = λ k s. written_self k none s;
  get-delete_other = λ j k s h. written_other j k none s h;
}

-- Pins of character codes; the hash of 1234 is 99.
abbrev is_1234 : List ℕ → Bool
is_1234 (u ∷ v ∷ x ∷ y ∷ []) = u == 49 && (v == 50 && (x == 51 && y == 52))
is_1234 _ = false

abbrev checks : Checks
checks = record {
  check_password = λ pin otp_hash. is_1234 pin && otp_hash == 99;
  digest = λ otp_hash. otp_hash + 1;
  is_digit = λ x. leb 48 x && leb x 57;
}

abbrev right : List ℕ
right = 49 ∷ 50 ∷ 51 ∷ 52 ∷ []

abbrev wrong : List ℕ
wrong = 49 ∷ 49 ∷ 49 ∷ 49 ∷ []

abbrev issued : Entries
issued = written (code_key 7) (some 99) (λ _. none)

abbrev after : Entries
after = (verify_code local_cache checks 7 right issued).1

admitted : verify_code local_cache checks 7 right issued ≡ (true, after)
unfolding verify_code
admitted = refl

code_admits_once_example :
    ((verify_code local_cache checks 7 right after).0 ≡ false)
    × ((check_code local_cache checks 8 right (some 99) after).0 ≡ false)
code_admits_once_example =
    code_admits_once local_cache checks 7 8 99 right right issued after after refl admitted refl

abbrev five_wrong : List (List ℕ)
five_wrong = wrong ∷ wrong ∷ wrong ∷ wrong ∷ wrong ∷ []

failures_end_the_code_example :
    (guess_all local_cache 7 checks five_wrong issued (code_key 7) ≡ none)
    × ((verify_code local_cache checks 7 right (guess_all local_cache 7 checks five_wrong issued)).0
        ≡ false)
unfolding AllWrong is_four_digits recorded
failures_end_the_code_example =
    failures_end_the_code local_cache checks 7 99 five_wrong right issued refl
      (refl, (refl, (refl, (refl, (refl, (refl, (refl, (refl, (refl, (refl, tt))))))))))
      (omega arith) (omega arith)

abbrev accounts : List (ℕ × Account)
accounts = (7, record { is_active = true; token = some 1 }) ∷ []

abbrev request : List ℕ → LoginRequest
request pin = record { mobile_number = some 7; pin = pin; cache_available = true; new_token = 2 }

logs_in : (verify_pin local_cache checks (request right) (issued, accounts)).0 ≡ logged_in 2
unfolding verify_pin asoud_backend_full.Table.lookup
logs_in = refl

new_token_kept :
    (verify_pin local_cache checks (request right) (issued, accounts)).1.1
    ≡ (7, record { is_active = true; token = some 2 }) ∷ []
unfolding verify_pin asoud_backend_full.Table.lookup asoud_backend_full.Table.update
new_token_kept = refl

wrong_pin_refused :
    (verify_pin local_cache checks (request wrong) (issued, accounts)).0 ≡ pin_not_valid
unfolding verify_pin
wrong_pin_refused = refl

abbrev code_call : CodeCall
code_call = record {
  drawn = 234;
  make_password = λ pin. if is_1234 pin then 99 else 98;
  delivered = true;
  invite = some 3;
}

abbrev any_checks : Checks
any_checks = record checks {
  check_password = λ pin otp_hash. (if is_1234 pin then 99 else 98) == otp_hash;
}

abbrev after_issue : Entries
after_issue = (issue_code local_cache code_call 7 (λ _. none)).1

created : issue_code local_cache code_call 7 (λ _. none) ≡ (code_created, after_issue)
unfolding issue_code
created = refl

second_request_waits : (issue_code local_cache code_call 7 after_issue).0 ≡ request_in_progress
unfolding issue_code
second_request_waits = refl

digits_are_digits : (d : ℕ) → d < 10 → any_checks.is_digit (48 + d) ≡ true
digits_are_digits d h = ground arith

created_code_admits_example :
    (verify_code local_cache any_checks 7 (drawn_pin code_call) after_issue).0 ≡ true
created_code_admits_example =
    created_code_admits local_cache any_checks code_call 7 (λ _. none) after_issue digits_are_digits
      (λ pin. (==_iff (if is_1234 pin then 99 else 98) (if is_1234 pin then 99 else 98)).1 refl)
      (omega arith) refl created
