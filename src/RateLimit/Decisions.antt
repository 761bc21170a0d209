-- ===== src/RateLimit/Decisions.antt =====
-- What a request is told, and what it leaves in the counters.
use asoud_backend_full.Prelude.{
  ℕ, ◌+◌, ◌≤◌, ◌<◌, ◌≡◌, ◌≢◌, refl, true, none, some, List, [], ◌∷◌, ◌⊎◌, All, ◌==◌, if◌then◌else◌,
}
use asoud_backend_full.RateLimit.{
  CounterStore, Limit, first_reached, count_all, check_limits, Throttle,
}

module _ (R : CounterStore) where
  -- Every limit leaves room for the request.
  abbrev pub IsBelow : ℕ → R.Store → List Limit → Type 0
  IsBelow now s = All (λ l. R.get now l.key s < l.limit)

  -- Some limit leaves no room.
  abbrev pub IsReached : ℕ → R.Store → List Limit → Type 0
  IsReached now s [] = ⊥
  IsReached now s (l ∷ ls) = (l.limit ≤ R.get now l.key s) ⊎ IsReached now s ls

  pub check_limits-none :
      (now : ℕ) (ls : List Limit) (s : R.Store)
      → first_reached R now ls s ≡ none
      → check_limits R now ls s ≡ (none, count_all R now ls s)
  unfolding check_limits
  check_limits-none now ls s h = rw (h, check_limits) refl

  pub check_limits-some :
      (now wait : ℕ) (ls : List Limit) (s : R.Store)
      → first_reached R now ls s ≡ some wait
      → check_limits R now ls s ≡ (some wait, s)
  unfolding check_limits
  check_limits-some now wait ls s h = rw (h, check_limits) refl

  -- How many of the limits have the key.
  unfoldable pub hits : ℕ → List Limit → ℕ
  hits k [] = 0
  hits k (l ∷ ls) = (if k == l.key then 1 else 0) + hits k ls

  -- The counters went up by the number of limits that have their key.
  abbrev pub IsCounted : ℕ → List Limit → R.Store → R.Store → Type 0
  IsCounted now ls s u = (k : ℕ) → R.get now k u ≡ R.get now k s + hits k ls

  -- The windows are not empty.
  abbrev pub HasWindows : List Limit → Type 0
  HasWindows = All (λ (l : Limit). 0 < l.window)

  -- A request that throttling applies to.
  abbrev pub IsThrottled : Throttle → List Limit → Type 0
  IsThrottled t ls = (t.enabled ≡ true) × (ls ≢ [])
