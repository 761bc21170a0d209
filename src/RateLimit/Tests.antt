-- ===== src/RateLimit/Tests.antt =====
-- A store of counters in memory, and bursts of requests on it.
use asoud_backend_full.Prelude.{
  ℕ, ◌+◌, ◌*◌, ◌≤◌, ◌<◌, ◌/◌, ◌-◌, ◌≡◌, ◌≢◌, refl, sym, ap, ◌∙◌, Bool, true, false, ◌||◌, [], ◌∷◌,
  List, arith, ltb, ◌==◌, if◌then◌else◌, inl, inr, Bool-cases, ==_iff,
}
use asoud_backend_full.RateLimit.{
  CounterStore, Limit, count_all, Throttle, allowed, refused, unavailable, allow_request,
}
use asoud_backend_full.RateLimit.Bound.{served, served_within_limit}

-- A count and when it expires, with 0 for never.
record Counter : Type 0 where
  count : ℕ
  over : ℕ

abbrev Memory : Type 0
Memory = ℕ → Counter

abbrev set : ℕ → Counter → Memory → Memory
set k c s j = if j == k then c else s j

abbrev is_live : ℕ → Counter → Bool
is_live now c = c.over == 0 || ltb now c.over

abbrev live_count : ℕ → Counter → ℕ
live_count now c = if is_live now c then c.count else 0

abbrev counted_up : ℕ → Counter → Counter
counted_up now c =
    if is_live now c then record c { count = c.count + 1 } else record { count = 1; over = 0 }

abbrev renewed : ℕ → ℕ → Counter → Counter
renewed now window c =
    if ltb 0 (live_count now c) then record c { over = now + 1000 * window } else c

live_count-counted_up :
    (now : ℕ) (c : Counter) → live_count now (counted_up now c) ≡ live_count now c + 1
live_count-counted_up now c = ground arith

live_count-renewed :
    (now window : ℕ) (c : Counter)
    → 0 < window
    → live_count now (renewed now window c) ≡ live_count now c
live_count-renewed now window c h = ground arith

deadline-counted_up :
    (now : ℕ) (c : Counter) → 0 < live_count now c → (counted_up now c).over ≡ c.over
deadline-counted_up now c h = ground arith

deadline-renewed :
    (now window : ℕ) (c : Counter)
    → 0 < live_count now c
    → (renewed now window c).over ≡ now + 1000 * window
deadline-renewed now window c h = ground arith

live_count_later :
    (now later : ℕ) (c : Counter)
    → now ≤ later
    → later < c.over
    → live_count later c ≡ live_count now c
live_count_later now later c order h = ground arith

live_count_later_none :
    (now later : ℕ) (c : Counter) → now ≤ later → live_count now c ≡ 0 → live_count later c ≡ 0
live_count_later_none now later c order h = ground arith

set_self : (k : ℕ) (c : Counter) (s : Memory) → set k c s k ≡ c
set_self k c s = rw ((==_iff k k).1 refl) refl

set_other : (j k : ℕ) (c : Counter) (s : Memory) → j ≢ k → set k c s j ≡ s j
set_other j k c s h = elim (Bool-cases (j == k)) [
  | inl e ↦ absurd (h ((==_iff j k).0 e))
  | inr e ↦ rw e refl
]

-- What a change of one counter keeps, it keeps of every counter.
set-keeps :
    (f : Counter → ℕ) (j k : ℕ) (c : Counter) (s : Memory)
    → f c ≡ f (s k)
    → f (set k c s j) ≡ f (s j)
set-keeps f j k c s h = elim (Bool-cases (j == k)) [
  | inl e ↦ rw (e, (==_iff j k).0 e) h
  | inr e ↦ rw e refl
]

abbrev memory : CounterStore
memory = record {
  Store = Memory;
  get = λ now k s. live_count now (s k);
  ttl = λ now k s. if is_live now (s k) then ((s k).over - now + 500) / 1000 else 0;
  incr = λ now k s. set k (counted_up now (s k)) s;
  expire = λ now k window s. set k (renewed now window (s k)) s;
  deadline = λ k s. (s k).over;
  get-incr = λ now k s. rw (set_self k (counted_up now (s k)) s) (live_count-counted_up now (s k));
  get-incr_other = λ now j k s ne. rw (set_other j k (counted_up now (s k)) s ne) refl;
  get-expire = λ now j k window s h.
      set-keeps (live_count now) j k (renewed now window (s k)) s
        (live_count-renewed now window (s k) h);
  deadline-incr = λ now j k s h. elim (Bool-cases (j == k)) [
    | inl e ↦
        let same = (==_iff j k).0 e in
        rw e (deadline-counted_up now (s k) (rw same at h) ∙ ap (λ (i : ℕ). (s i).over) (sym same))
    | inr e ↦ rw e refl
  ];
  deadline-expire = λ now k window s h.
      rw (set_self k (renewed now window (s k)) s) (deadline-renewed now window (s k) h);
  deadline-expire_other =
      λ now j k window s ne. rw (set_other j k (renewed now window (s k)) s ne) refl;
  get_later = λ now later k s order h. live_count_later now later (s k) order h;
  get_later_none = λ now later k s order h. live_count_later_none now later (s k) order h;
}

abbrev unused : Memory
unused _ = record { count = 0; over = 0 }

-- Two requests a minute, by the address 7; requests of another address come between.
abbrev burst : List (ℕ × List ℕ)
burst = (5000, 7 ∷ []) ∷ (6000, 8 ∷ 7 ∷ []) ∷ (7000, 8 ∷ []) ∷ (9000, 7 ∷ []) ∷ (64000, 7 ∷ []) ∷ []

two_served : served memory (λ _. 2) (λ _. 60) 7 burst unused ≡ 2
unfolding served
two_served = refl

served_within_limit_example : served memory (λ _. 2) (λ _. 60) 7 burst unused ≤ 2
served_within_limit_example =
    served_within_limit memory (λ _. 2) (λ _. 60) 7 5000 (λ _. omega arith) burst unused refl
      (
        omega arith,
        omega arith,
        (
          omega arith,
          omega arith,
          (omega arith, omega arith, (omega arith, omega arith, (omega arith, omega arith, tt))),
        ),
      )

abbrev hourly : Limit
hourly = record { key = 3; limit = 1; window = 3600 }

abbrev on : Throttle
on = record { enabled = true; fail_closed = true }

-- The second request within the hour waits for the rest of it.
second_waits :
    (allow_request memory on true 1000 (hourly ∷ []) (count_all memory 0 (hourly ∷ []) unused)).0
    ≡ refused 3599
unfolding allow_request
second_waits = refl

closed_when_down : (allow_request memory on false 0 (hourly ∷ []) unused).0 ≡ unavailable
unfolding allow_request
closed_when_down = refl

-- A request is let through uncounted where throttling is off.
off_passes :
    allow_request memory
      (record on { enabled = false })
      true
      1000
      (hourly ∷ [])
      (count_all memory 0 (hourly ∷ []) unused)
    ≡ (allowed, count_all memory 0 (hourly ∷ []) unused)
unfolding allow_request
off_passes = refl
