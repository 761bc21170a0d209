-- ===== src/Login.antt =====
-- Login by a one-time code: `PinCreateAPIView` and `PinVerifyAPIView` of
-- apps/users/views/user_views.py, the latter up to the user's new token. The cache is a parameter,
-- the interface `OtpCache`, whose laws are those of entries that do not expire meanwhile. The user
-- that a request for a code creates, the acceptance of an invitation and the analytics after the
-- token are left out.
pub mod Codes
pub mod Issued
mod Tests
use asoud_backend_full.Prelude.{
  ℕ, ◌+◌, ◌/◌, ◌%◌, ◌≡◌, ◌≢◌, Bool, true, false, not, ◌&&◌, ◌||◌, Option, none, some, is_some, List,
  [], ◌∷◌, leb, ◌==◌, if◌then◌else◌,
}
use asoud_backend_full.Table.{Table, lookup, update}

-- `_otp_cache_key` and the keys that are made from it
pub data Key : Type 0 where
  code_key attempts_key invite_key consumed_key issuing_key : ℕ → Key

-- The commands of the cache, as its documentation has them.
pub record OtpCache : Type 1 where
  pub Store : Type 0
  pub get : Key → Store → Option ℕ
  pub add : Key → ℕ → Store → Bool × Store
  pub incr : Key → Store → Option ℕ × Store
  pub set : Key → ℕ → Store → Store
  pub delete : Key → Store → Store
  pub add_answer : (k : Key) (v : ℕ) (s : Store) → (add k v s).0 ≡ not (is_some (get k s))
  pub get-add_new : (k : Key) (v : ℕ) (s : Store) → get k s ≡ none → get k (add k v s).1 ≡ some v
  pub get-add_old :
      (k : Key) (v w : ℕ) (s : Store) → get k s ≡ some w → get k (add k v s).1 ≡ some w
  pub get-add_other : (j k : Key) (v : ℕ) (s : Store) → j ≢ k → get j (add k v s).1 ≡ get j s
  pub incr_answer : (k : Key) (v : ℕ) (s : Store) → get k s ≡ some v → (incr k s).0 ≡ some (v + 1)
  pub get-incr :
      (k : Key) (v : ℕ) (s : Store) → get k s ≡ some v → get k (incr k s).1 ≡ some (v + 1)
  pub get-incr_other : (j k : Key) (s : Store) → j ≢ k → get j (incr k s).1 ≡ get j s
  pub get-set : (k : Key) (v : ℕ) (s : Store) → get k (set k v s) ≡ some v
  pub get-set_other : (j k : Key) (v : ℕ) (s : Store) → j ≢ k → get j (set k v s) ≡ get j s
  pub get-delete : (k : Key) (s : Store) → get k (delete k s) ≡ none
  pub get-delete_other : (j k : Key) (s : Store) → j ≢ k → get j (delete k s) ≡ get j s

-- `OTP_MAX_ATTEMPTS`
abbrev pub otp_max_attempts : ℕ
otp_max_attempts = 5

-- `check_password`, the digest of a hash and `str.isdigit` for one character
pub record Checks : Type 0 where
  pub check_password : List ℕ → ℕ → Bool
  pub digest : ℕ → ℕ
  pub is_digit : ℕ → Bool

unfoldable pub all_digits : Checks → List ℕ → Bool
all_digits c [] = true
all_digits c (x ∷ xs) = c.is_digit x && all_digits c xs

-- `len(pin) != 4 or not pin.isdigit()` is what this refuses.
unfoldable pub is_four_digits : Checks → List ℕ → Bool
unfolding all_digits
is_four_digits c (u ∷ v ∷ x ∷ y ∷ []) = all_digits c (u ∷ v ∷ x ∷ y ∷ [])
is_four_digits c _ = false

-- The attempt is counted; an entry that has gone meanwhile starts again.
unfoldable pub count_attempt : (C : OtpCache) → ℕ → C.Store → ℕ × C.Store
count_attempt C mobile s =
    let run = C.incr (attempts_key mobile) (C.add (attempts_key mobile) 0 s).1 in
    elim run.0 [
      | some attempts ↦ (attempts, run.1)
      | none ↦ (1, C.set (attempts_key mobile) 1 run.1)
    ]

unfoldable pub fail_attempt : (C : OtpCache) → ℕ → C.Store → C.Store
unfolding count_attempt
fail_attempt C mobile s =
    let counted = count_attempt C mobile s in
    if leb otp_max_attempts counted.0 then C.delete (code_key mobile) counted.1 else counted.1

-- The code is marked as consumed, and forgotten.
unfoldable pub consume_code : (C : OtpCache) → Checks → ℕ → ℕ → C.Store → Bool × C.Store
consume_code C c mobile otp_hash s =
    let added = C.add (consumed_key (c.digest otp_hash)) 1 s in
    if added.0
    then (
      true,
      C.delete (invite_key mobile)
          (C.delete (attempts_key mobile) (C.delete (code_key mobile) added.1)),
    )
    else (false, added.1)

unfoldable pub check_code :
    (C : OtpCache) → Checks → ℕ → List ℕ → Option ℕ → C.Store → Bool × C.Store
unfolding fail_attempt consume_code
check_code C c mobile pin none s = (false, fail_attempt C mobile s)
check_code C c mobile pin (some otp_hash) s =
    if c.check_password pin otp_hash
    then consume_code C c mobile otp_hash s
    else (false, fail_attempt C mobile s)

-- The part of `post` that decides on the code.
unfoldable pub verify_code : (C : OtpCache) → Checks → ℕ → List ℕ → C.Store → Bool × C.Store
unfolding is_four_digits check_code
verify_code C c mobile pin s =
    if not (is_four_digits c pin)
    then (false, s)
    else check_code C c mobile pin (C.get (code_key mobile) s) s

-- A row of the users, with the key of the user's token.
pub record Account : Type 0 where
  pub is_active : Bool
  pub token : Option ℕ

pub data LoginAnswer : Type 0 where
  mobile_required pin_required storage_unavailable pin_not_valid : LoginAnswer
  logged_in : ℕ → LoginAnswer

-- What a request brings, whether the cache answers, and the key of a new token.
pub record LoginRequest : Type 0 where
  pub mobile_number : Option ℕ
  pub pin : List ℕ
  pub cache_available : Bool
  pub new_token : ℕ

-- The transaction: the old token is deleted and a new one created.
unfoldable pub renew_token : ℕ → ℕ → Table Account → LoginAnswer × Table Account
renew_token mobile new accounts = elim (lookup mobile accounts) [
  | none ↦ (pin_not_valid, accounts)
  | some account ↦
      if not account.is_active
      then (pin_not_valid, accounts)
      else (logged_in new, update mobile (record account { token = some new }) accounts)
]

unfoldable pub verify_pin :
    (C : OtpCache)
    → Checks
    → LoginRequest
    → C.Store × Table Account
    → LoginAnswer × (C.Store × Table Account)
unfolding verify_code renew_token
verify_pin C c request (s, accounts) = elim request.mobile_number [
  | none ↦ (mobile_required, (s, accounts))
  | some mobile ↦ elim request.pin [
    | [] ↦ (pin_required, (s, accounts))
    | x ∷ xs ↦
        let verified = verify_code C c mobile (x ∷ xs) s in
        let renewed = renew_token mobile request.new_token accounts in
        if not request.cache_available
        then (storage_unavailable, (s, accounts))
        else if verified.0
        then (renewed.0, (verified.1, renewed.1))
        else (pin_not_valid, (verified.1, accounts))
  ]
]

-- `f"{number:04d}"` for a number of four digits, as character codes
unfoldable pub pin_text : ℕ → List ℕ
pin_text number =
    (48 + number / 1000)
    ∷ ((48 + (number / 100) % 10) ∷ ((48 + (number / 10) % 10) ∷ ((48 + number % 10) ∷ [])))

-- The number that was drawn, the hash of a password with its salt, the answer of the sms provider,
-- and the token of the invitation, where a valid one came with the request.
pub record CodeCall : Type 0 where
  pub drawn : ℕ
  pub make_password : List ℕ → ℕ
  pub delivered : Bool
  pub invite : Option ℕ

pub data CodeAnswer : Type 0 where
  request_in_progress delivery_unavailable storage_failed code_created : CodeAnswer

abbrev pub drawn_pin : CodeCall → List ℕ
drawn_pin call = pin_text (call.drawn + 1000)

-- The hash is stored, and the failures of an earlier code are forgotten.
unfoldable pub store_code : (C : OtpCache) → CodeCall → ℕ → C.Store → C.Store
unfolding pin_text
store_code C call mobile s =
    C.delete (attempts_key mobile) (C.set (code_key mobile) (call.make_password (drawn_pin call)) s)

unfoldable pub store_invite : (C : OtpCache) → CodeCall → ℕ → C.Store → C.Store
store_invite C call mobile s = elim call.invite [
  | some token ↦ C.set (invite_key mobile) token s
  | none ↦ C.delete (invite_key mobile) s
]

-- `cache.get(otp_key) != otp_hash`
unfoldable pub is_stored : (C : OtpCache) → CodeCall → ℕ → C.Store → Bool
unfolding pin_text
is_stored C call mobile s = elim (C.get (code_key mobile) s) [
  | none ↦ false
  | some found ↦ found == call.make_password (drawn_pin call)
]

unfoldable pub deliver_code : (C : OtpCache) → CodeCall → ℕ → C.Store → CodeAnswer × C.Store
unfolding store_invite is_stored
deliver_code C call mobile s =
    if not (is_stored C call mobile s)
    then (storage_failed, C.delete (code_key mobile) s)
    else if call.delivered
    then (code_created, store_invite C call mobile s)
    else (delivery_unavailable, C.delete (code_key mobile) s)

-- What a request for a code does to the cache.
unfoldable pub issue_code : (C : OtpCache) → CodeCall → ℕ → C.Store → CodeAnswer × C.Store
unfolding store_code deliver_code
issue_code C call mobile s =
    let lock = C.add (issuing_key mobile) 1 s in
    if lock.0
    then deliver_code C call mobile (store_code C call mobile lock.1)
    else (request_in_progress, lock.1)
