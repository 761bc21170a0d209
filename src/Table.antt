-- ===== src/Table.antt =====
-- Database tables keyed by identifier, in the order of the keys, as the queries read them.
use asoud_backend_full.Prelude.{
  ℕ, ◌+◌, ◌≡◌, refl, ◌≢◌, Option, none, some, List, [], ◌∷◌, arith, ◌==◌, if◌then◌else◌, inl, inr,
  Bool-cases, ==_iff,
}

abbrev pub Table {ℓ} : Type ℓ → Type ℓ
Table V = List (ℕ × V)

module _ {ℓ} {V : Type ℓ} where
  -- `.get(id=k)`, with `none` for `DoesNotExist`
  unfoldable pub lookup : ℕ → Table V → Option V
  lookup k [] = none
  lookup k ((j, v) ∷ t) = if k == j then some v else lookup k t

  -- `row.save()` of a row that is in the table; a missing row changes nothing
  unfoldable pub update : ℕ → V → Table V → Table V
  update k v [] = []
  update k v ((j, w) ∷ t) = if k == j then (j, v) ∷ t else (j, w) ∷ update k v t

  pub lookup-update_self :
      (k : ℕ) (v : V) (t : Table V) (w : V) → lookup k t ≡ some w → lookup k (update k v t) ≡ some v
  unfolding lookup update
  lookup-update_self k v [] w h = cc
  lookup-update_self k v ((j, x) ∷ t) w h = ground (arith, lookup-update_self k v t w)

  pub lookup-update_ne :
      (j k : ℕ) (v : V) (t : Table V) → j ≢ k → lookup j (update k v t) ≡ lookup j t
  unfolding lookup update
  lookup-update_ne j k v [] h = refl
  lookup-update_ne j k v ((i, w) ∷ t) h = ground (arith, lookup-update_ne j k v t h)

  -- A saved row is read back, and every other row is as it was.
  pub lookup-update :
      (j k : ℕ) (v : V) (t : Table V) (w : V)
      → lookup k t ≡ some w
      → lookup j (update k v t) ≡ (if j == k then some v else lookup j t)
  lookup-update j k v t w h = elim (Bool-cases (j == k)) [
    | inl e ↦ rw (e, (==_iff j k).0 e) (lookup-update_self k v t w h)
    | inr e ↦ rw e (lookup-update_ne j k v t (ground arith))
  ]

  pub update-lookup_self : (k : ℕ) (t : Table V) (v : V) → lookup k t ≡ some v → update k v t ≡ t
  unfolding lookup update
  update-lookup_self k [] v h = refl
  update-lookup_self k ((j, w) ∷ t) v h = ground (arith, update-lookup_self k t v)

  pub update-update : (k : ℕ) (v w : V) (t : Table V) → update k v (update k w t) ≡ update k v t
  unfolding update
  update-update k v w [] = refl
  update-update k v w ((j, x) ∷ t) = ground (arith, update-update k v w t)

  -- `sum(f(row) for row in table)`
  unfoldable pub total : (V → ℕ) → Table V → ℕ
  total f [] = 0
  total f ((_, v) ∷ t) = f v + total f t

  pub total-update :
      (f : V → ℕ) (k : ℕ) (v : V) (t : Table V) (w : V)
      → lookup k t ≡ some w
      → total f (update k v t) + f w ≡ total f t + f v
  unfolding lookup update total
  total-update f k v [] w h = cc
  total-update f k v ((j, x) ∷ t) w h = elim (Bool-cases (k == j)) [
    | inl e ↦ let p : x ≡ w = ground arith in rw (e, p) (omega arith)
    | inr e ↦ rw e (omega (arith, total-update f k v t w (rw e at h)))
  ]

  -- The keys, in the order of the table; an update does not touch them.
  abbrev pub keys : Table V → List ℕ
  keys [] = []
  keys ((j, _) ∷ t) = j ∷ keys t

  pub keys-update : (k : ℕ) (v : V) (t : Table V) → keys (update k v t) ≡ keys t
  unfolding update
  keys-update k v [] = refl
  keys-update k v ((j, w) ∷ t) = ground (arith, keys-update k v t)

  -- `row.delete()` of the row with the key
  unfoldable pub remove : ℕ → Table V → Table V
  remove k [] = []
  remove k ((j, v) ∷ t) = if k == j then t else (j, v) ∷ remove k t

  -- `objects.create(...)`: the new row comes last.
  unfoldable pub append : ℕ → V → Table V → Table V
  append k v [] = (k, v) ∷ []
  append k v ((j, w) ∷ t) = (j, w) ∷ append k v t

  pub total-remove :
      (f : V → ℕ) (k : ℕ) (t : Table V) (w : V)
      → lookup k t ≡ some w
      → total f (remove k t) + f w ≡ total f t
  unfolding lookup remove total
  total-remove f k [] w h = cc
  total-remove f k ((j, x) ∷ t) w h = elim (Bool-cases (k == j)) [
    | inl e ↦ let p : x ≡ w = ground arith in rw (e, p) (omega arith)
    | inr e ↦ rw e (omega (arith, total-remove f k t w (rw e at h)))
  ]

  pub total-append :
      (f : V → ℕ) (k : ℕ) (v : V) (t : Table V) → total f (append k v t) ≡ total f t + f v
  unfolding append total
  total-append f k v [] = omega arith
  total-append f k v ((j, w) ∷ t) = omega (arith, total-append f k v t)
