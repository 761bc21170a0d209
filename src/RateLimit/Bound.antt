-- ===== src/RateLimit/Bound.antt =====
-- How many requests get through, and what a refusal leaves behind.
use asoud_backend_full.Prelude.{
  ℕ, ◌+◌, ◌*◌, ◌≤◌, ◌<◌, ◌≡◌, ◌≢◌, refl, sym, ◌∙◌, Bool, true, false, ◌||◌, ◌&&◌, Option, none,
  some, List, [], ◌∷◌, arith, ltb, leb, ◌==◌, ==_iff, elem, if◌then◌else◌, ◌⊎◌, inl, inr,
  Bool-cases, Option-cases,
}
use asoud_backend_full.RateLimit.Decisions.{check_limits-none, check_limits-some}
use asoud_backend_full.RateLimit.{
  CounterStore, Limit, first_reached, count_request, count_all, check_limits,
}

-- The limit of a key, which the settings fix.
abbrev entry : (ℕ → ℕ) → (ℕ → ℕ) → ℕ → Limit
entry limit_of window_of k = record { key = k; limit = limit_of k; window = window_of k }

abbrev entries : (ℕ → ℕ) → (ℕ → ℕ) → List ℕ → List Limit
entries limit_of window_of [] = []
entries limit_of window_of (k ∷ ks) = entry limit_of window_of k ∷ entries limit_of window_of ks

abbrev is_none : Option ℕ → Bool
is_none none = true
is_none (some _) = false

module _ (R : CounterStore) (limit_of window_of : ℕ → ℕ) (k : ℕ) where
  -- Requests, each with its time and keys: how many of those that name the key get through.
  unfoldable pub served : List (ℕ × List ℕ) → R.Store → ℕ
  unfolding check_limits
  served [] s = 0
  served ((now, keys) ∷ requests) s =
      let (answer, s') = check_limits R now (entries limit_of window_of keys) s in
      (if is_none answer && elem k keys then 1 else 0) + served requests s'

-- The times of requests are in order, from a time on, and before another.
abbrev IsBurst : ℕ → ℕ → List (ℕ × List ℕ) → Type 0
IsBurst now over [] = Unit
IsBurst now over ((t, _) ∷ requests) = (now ≤ t) × (t < over) × IsBurst t over requests

module _ (R : CounterStore) (limit_of window_of : ℕ → ℕ) (k start : ℕ)
    (positive : (j : ℕ) → 0 < window_of j) where
  -- The counter has counted so many, and stays until the window is over.
  abbrev Counted : ℕ → ℕ → R.Store → Type 0
  Counted c now s =
      (c ≤ R.get now k s) × ((R.get now k s ≡ 0) ⊎ (start + 1000 * window_of k ≤ R.deadline k s))

  Counted-later :
      (c now later : ℕ) (s : R.Store)
      → now ≤ later
      → later < start + 1000 * window_of k
      → Counted c now s
      → Counted c later s
  Counted-later c now later s order within (least, kept) = elim kept [
    | inl zero_now ↦
        let gone = R.get_later_none now later k s order zero_now in (omega (arith, gone), inl gone)
    | inr lives ↦
        let same = R.get_later now later k s order (omega arith) in (omega (arith, same), inr lives)
  ]

  abbrev one_if : Bool → ℕ
  one_if test = if test then 1 else 0

  Counted-self :
      (c now : ℕ) (s : R.Store)
      → start ≤ now
      → Counted c now s
      → Counted (c + 1) now (count_request R now (entry limit_of window_of k) s)
  unfolding count_request
  Counted-self c now s after (least, kept) =
      let t = R.incr now k s in
      let more = R.get-incr now k s in
      let held = R.get-expire now k k (window_of k) t (positive k) in
      let renewed = R.deadline-expire now k (window_of k) t (omega (arith, more)) in
      elim (Bool-cases (R.get now k t == 1 || ltb (R.ttl now k t) 1)) [
        | inl e ↦ rw e (omega (arith, more, held), inr (omega (arith, renewed)))
        | inr e ↦ elim kept [
          | inl zero_now ↦ absurd (ground (arith, more))
          | inr lives ↦ elim (Bool-cases (ltb 0 (R.get now k s))) [
            | inl some_now ↦
                let same = R.deadline-incr now k k s (ground arith) in
                rw e (omega (arith, more), inr (omega (arith, same)))
            | inr none_now ↦ absurd (ground (arith, more))
          ]
        ]
      ]

  -- The counter, where it is there, keeps its deadline when another counts.
  kept_other :
      (now j : ℕ) (s t u : R.Store)
      → R.get now k u ≡ R.get now k s
      → R.deadline k u ≡ R.deadline k t
      → (0 < R.get now k s → R.deadline k t ≡ R.deadline k s)
      → (R.get now k s ≡ 0) ⊎ (start + 1000 * window_of k ≤ R.deadline k s)
      → (R.get now k u ≡ 0) ⊎ (start + 1000 * window_of k ≤ R.deadline k u)
  kept_other now j s t u same fixed still kept = elim (Bool-cases (ltb 0 (R.get now k s))) [
    | inl some_now ↦ elim kept [
      | inl zero_now ↦ inl (same ∙ zero_now)
      | inr lives ↦ let equal = still (ground arith) in inr (omega (arith, fixed, equal))
    ]
    | inr none_now ↦ inl (ground (arith, same))
  ]

  Counted-other :
      (c now j : ℕ) (s : R.Store)
      → k ≢ j
      → Counted c now s
      → Counted c now (count_request R now (entry limit_of window_of j) s)
  unfolding count_request
  Counted-other c now j s other (least, kept) =
      let t = R.incr now j s in
      let same = R.get-incr_other now k j s other in
      let held = R.get-expire now k j (window_of j) t (positive j) in
      let fixed = R.deadline-expire_other now k j (window_of j) t other in
      elim (Bool-cases (R.get now j t == 1 || ltb (R.ttl now j t) 1)) [
        | inl e ↦ rw e (
          omega (arith, same, held),
          kept_other now j s t (R.expire now j (window_of j) t) (held ∙ same) fixed
              (R.deadline-incr now k j s) kept,
        )
        | inr e ↦
            rw e (
              omega (arith, same),
              kept_other now j s t t same refl (R.deadline-incr now k j s) kept,
            )
      ]

  count_all-Counted :
      (c now : ℕ) (keys : List ℕ) (s : R.Store)
      → start ≤ now
      → Counted c now s
      → Counted (c + one_if (elem k keys)) now (count_all R now (entries limit_of window_of keys) s)
  unfolding count_all
  count_all-Counted c now [] s after counted = (omega (arith, counted.0), counted.1)
  count_all-Counted c now (j ∷ keys) s after counted = elim (Bool-cases (k == j)) [
    | inl e ↦
        let here : Counted (c + 1) now (count_request R now (entry limit_of window_of j) s) =
          rw (sym ((==_iff k j).0 e)) (Counted-self c now s after counted) in
        let rest = count_all-Counted (c + 1) now keys _ after here in
        rw e (omega (arith, rest.0), rest.1)
    | inr e ↦
        let here = Counted-other c now j s (ground arith) counted in
        rw e (count_all-Counted c now keys _ after here)
  ]

  -- A request whose keys hold the counter gets through below its limit only.
  first_reached-none :
      (now : ℕ) (keys : List ℕ) (s : R.Store)
      → first_reached R now (entries limit_of window_of keys) s ≡ none
      → elem k keys ≡ true
      → R.get now k s < limit_of k
  unfolding first_reached
  first_reached-none now [] s h named = absurd (cc)
  first_reached-none now (j ∷ keys) s h named =
      elim (Bool-cases (leb (limit_of j) (R.get now j s))) [
        | inl e ↦ absurd (cc (rw e at h))
        | inr e ↦ elim (Bool-cases (k == j)) [
          | inl same ↦ rw ((==_iff k j).0 same) (ground arith)
          | inr other ↦ first_reached-none now keys s (rw e at h) (rw other at named)
        ]
      ]

  served_bound :
      (c now : ℕ) (requests : List (ℕ × List ℕ)) (s : R.Store)
      → start ≤ now
      → IsBurst now (start + 1000 * window_of k) requests
      → Counted c now s
      → c ≤ limit_of k
      → c + served R limit_of window_of k requests s ≤ limit_of k
  unfolding served
  served_bound c now [] s after burst counted most = omega arith
  served_bound c now ((t, keys) ∷ requests) s after (order, within, burst) counted most =
      let counted_now = Counted-later c now t s order within counted in
      elim (Option-cases (first_reached R t (entries limit_of window_of keys) s)) [
        | inl through ↦
            let passed = check_limits-none R t (entries limit_of window_of keys) s through in
            let now_counted = count_all-Counted c t keys s (omega arith) counted_now in
            elim (Bool-cases (elem k keys)) [
              | inl named ↦
                  let below = first_reached-none t keys s through named in
                  let rest =
                    served_bound (c + 1) t requests _ (omega arith) burst (rw named at now_counted)
                      (omega (arith, below, counted_now.0)) in
                  rw (passed, named) (omega (arith, rest))
              | inr unnamed ↦
                  let rest =
                    served_bound (c + 0) t requests _ (omega arith) burst
                      (rw unnamed at now_counted) (omega arith) in
                  rw (passed, unnamed) (omega (arith, rest))
            ]
        | inr (wait, reached) ↦
            let rest = served_bound c t requests s (omega arith) burst counted_now most in
            rw (check_limits-some R t wait (entries limit_of window_of keys) s reached)
              (omega (arith, rest))
      ]

-- Where each key has a fixed limit and window, the window being positive, and a counter is not
-- there at a time: of all requests in order of time from then on until its window is over, those
-- that name its key and that the script lets through are at most its limit. The other keys of the
-- requests are arbitrary, and so are requests that do not name it.
pub served_within_limit :
    (R : CounterStore) (limit_of window_of : ℕ → ℕ) (k start : ℕ)
    → ((j : ℕ) → 0 < window_of j)
    → (requests : List (ℕ × List ℕ)) (s : R.Store) → R.get start k s ≡ 0
    → IsBurst start (start + 1000 * window_of k) requests
    → served R limit_of window_of k requests s ≤ limit_of k
served_within_limit R limit_of window_of k start positive requests s fresh burst = omega (
  arith,
  served_bound R limit_of window_of k start positive 0 start requests s (omega arith) burst
      (omega arith, inl fresh) (omega arith),
)
