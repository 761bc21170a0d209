-- ===== src/RateLimit.antt =====
-- Throttling in apps/core/rate_limit.py. The server that keeps the counters is a parameter: what
-- its commands do is the interface `CounterStore`. Times are milliseconds, and the time to live is
-- in seconds, as the commands give them.
pub mod Bound
pub mod Decisions
mod Tests
use asoud_backend_full.Prelude.{
  ℕ, ◌+◌, ◌*◌, ◌≤◌, ◌<◌, max, ◌≡◌, ◌≢◌, Bool, true, false, ◌||◌, Option, none, some, List, [], ◌∷◌,
  ltb, leb, ◌==◌, if◌then◌else◌,
}

-- The commands that the script calls, at a time and for a key. `get` is `GET` with 0 for a missing
-- key, `ttl` is `TTL` with 0 for the negative answers, and `deadline` is when the key expires.
pub record CounterStore : Type 1 where
  pub Store : Type 0
  pub get : ℕ → ℕ → Store → ℕ
  pub ttl : ℕ → ℕ → Store → ℕ
  pub incr : ℕ → ℕ → Store → Store
  pub expire : ℕ → ℕ → ℕ → Store → Store
  pub deadline : ℕ → Store → ℕ
  pub get-incr : (now k : ℕ) (s : Store) → get now k (incr now k s) ≡ get now k s + 1
  pub get-incr_other : (now j k : ℕ) (s : Store) → j ≢ k → get now j (incr now k s) ≡ get now j s
  pub get-expire :
      (now j k window : ℕ) (s : Store)
      → 0 < window
      → get now j (expire now k window s) ≡ get now j s
  pub deadline-incr :
      (now j k : ℕ) (s : Store) → 0 < get now j s → deadline j (incr now k s) ≡ deadline j s
  pub deadline-expire :
      (now k window : ℕ) (s : Store)
      → 0 < get now k s
      → deadline k (expire now k window s) ≡ now + 1000 * window
  pub deadline-expire_other :
      (now j k window : ℕ) (s : Store) → j ≢ k → deadline j (expire now k window s) ≡ deadline j s
  pub get_later :
      (now later k : ℕ) (s : Store)
      → now ≤ later
      → later < deadline k s
      → get later k s ≡ get now k s
  pub get_later_none :
      (now later k : ℕ) (s : Store) → now ≤ later → get now k s ≡ 0 → get later k s ≡ 0

-- An entry of `limits`.
pub record Limit : Type 0 where
  pub key : ℕ
  pub limit : ℕ
  pub window : ℕ

-- A rate that the settings give to a kind of identity, parsed.
pub record ConfiguredRate : Type 0 where
  pub kind : ℕ
  pub rate_limit : ℕ
  pub rate_window : ℕ

-- `_limits`, from the identities of the request and the digest that names a key
unfoldable pub limits : (ℕ → Option ℕ) → (ℕ → ℕ → ℕ) → List ConfiguredRate → List Limit
limits identity digest [] = []
limits identity digest (rate ∷ rates) =
    let rest = limits identity digest rates in
    elim (identity rate.kind) [
      | none ↦ rest
      | some value ↦
          (record {
            key = digest rate.kind value;
            limit = rate.rate_limit;
            window = rate.rate_window;
          }
            ∷ rest)
    ]

-- The first loop of the script: the seconds to wait, when a limit is reached.
unfoldable pub first_reached : (R : CounterStore) → ℕ → List Limit → R.Store → Option ℕ
first_reached R now [] s = none
first_reached R now (l ∷ ls) s =
    let rest = first_reached R now ls s in
    if leb l.limit (R.get now l.key s)
    then some (if ltb (R.ttl now l.key s) 1 then l.window else R.ttl now l.key s)
    else rest

-- The second loop of the script, for one key.
unfoldable pub count_request : (R : CounterStore) → ℕ → Limit → R.Store → R.Store
count_request R now l s =
    let counted = R.incr now l.key s in
    if R.get now l.key counted == 1 || ltb (R.ttl now l.key counted) 1
    then R.expire now l.key l.window counted
    else counted

unfoldable pub count_all : (R : CounterStore) → ℕ → List Limit → R.Store → R.Store
unfolding count_request
count_all R now [] s = s
count_all R now (l ∷ ls) s = count_all R now ls (count_request R now l s)

-- `_check_limits`: the answer of the script, with the seconds to wait when it refuses.
unfoldable pub check_limits : (R : CounterStore) → ℕ → List Limit → R.Store → Option ℕ × R.Store
unfolding first_reached count_all
check_limits R now ls s = elim (first_reached R now ls s) [
  | none ↦ (none, count_all R now ls s)
  | some retry_after ↦ (some retry_after, s)
]

-- What `allow_request` tells the framework.
pub data Decision : Type 0 where
  allowed : Decision
  refused : ℕ → Decision
  unavailable : Decision

-- `ASOUD_RATE_LIMIT_ENABLED` and whether the scope is one of `ASOUD_RATE_LIMIT_FAIL_CLOSED_SCOPES`.
pub record Throttle : Type 0 where
  pub enabled : Bool
  pub fail_closed : Bool

-- What is known of the script's call: it raised, or it answered.
unfoldable pub decide : Throttle → Option (Option ℕ) → Decision
decide t none = if t.fail_closed then unavailable else allowed
decide t (some none) = allowed
decide t (some (some retry_after)) = refused (max 1 retry_after)

-- `allow_request`, where the server is reached or not.
unfoldable pub allow_request :
    (R : CounterStore) → Throttle → Bool → ℕ → List Limit → R.Store → Decision × R.Store
unfolding check_limits decide
allow_request R t reached now [] s = (allowed, s)
allow_request R t reached now (l ∷ ls) s =
    let (answer, s') = check_limits R now (l ∷ ls) s in
    if t.enabled
    then (if reached then (decide t (some answer), s') else (decide t none, s))
    else (allowed, s)
