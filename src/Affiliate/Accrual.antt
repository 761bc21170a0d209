-- ===== src/Affiliate/Accrual.antt =====
-- Accruing commissions twice is accruing them once, and a commission shares out the whole price.
use asoud_backend_full.Affiliate.{
  Commission, commission_for, is_for, get_or_create, book, accrue_sale, accrue_item,
  accrue_order_commissions,
}
use asoud_backend_full.Cart.Rows.{Order, OrderItem, Shop}
use asoud_backend_full.Prelude.{
  ℕ, ◌≡◌, refl, ◌∙◌, true, Option, none, some, List, [], ◌∷◌, arith, any, ==_iff, inl, inr,
  Bool-cases,
}
use asoud_backend_full.Exec.{Result, ok, err, for_each, bind-eq-ok, bind-ok, atomic-eq-ok}

-- An item whose commission is on the books, or that earns none.
abbrev IsBooked : Shop → ℕ → OrderItem → List Commission → Type 0
IsBooked s order_id item rows = accrue_item s order_id item rows ≡ (ok tt, rows)

any-get_or_create :
    (item : ℕ) (row : Commission) (rows : List Commission)
    → any (is_for item) rows ≡ true
    → any (is_for item) (get_or_create row rows) ≡ true
unfolding get_or_create
any-get_or_create item row rows h = elim (Bool-cases (any (is_for row.order_item) rows)) [
  | inl e ↦ rw e h
  | inr e ↦ rw (e, h) (ground arith)
]

get_or_create_self :
    (row : Commission) (rows : List Commission)
    → any (is_for row.order_item) (get_or_create row rows) ≡ true
unfolding get_or_create
get_or_create_self row rows = elim (Bool-cases (any (is_for row.order_item) rows)) [
  | inl e ↦ rw (e, e) refl
  | inr e ↦ rw e (ground (arith, (==_iff row.order_item row.order_item).1 refl))
]

get_or_create-present :
    (row : Commission) (rows : List Commission)
    → any (is_for row.order_item) rows ≡ true
    → get_or_create row rows ≡ rows
unfolding get_or_create
get_or_create-present row rows h = rw h refl

-- The books after one item.
book_twice :
    (r : Result Commission) (rows t : List Commission)
    → book r rows ≡ (ok tt, t)
    → book r t ≡ (ok tt, t)
book_twice (err e) rows t h = absurd (cc)
book_twice (ok row) rows t h =
    let e : get_or_create row rows ≡ t = ground arith in
    rw (get_or_create-present row t (rw (← e) (get_or_create_self row rows))) refl

book_other :
    (r other : Result Commission) (rows t : List Commission)
    → book r rows ≡ (ok tt, rows)
    → book other rows ≡ (ok tt, t)
    → book r t ≡ (ok tt, t)
book_other (err e) other rows t h k = absurd (cc)
book_other (ok row) (err e) rows t h k = absurd (cc)
book_other (ok row) (ok new) rows t h k =
    let same : get_or_create row rows ≡ rows = ground arith in
    let after : get_or_create new rows ≡ t = ground arith in
    let there : any (is_for row.order_item) rows ≡ true =
      rw same at (get_or_create_self row rows) in
    let still : any (is_for row.order_item) t ≡ true =
      rw after at (any-get_or_create row.order_item new rows there) in
    rw (get_or_create-present row t still) refl

module _ (s : Shop) (order_id : ℕ) where
  accrue_sale_twice :
      (item : OrderItem) (a p : Option ℕ) (rows t : List Commission)
      → accrue_sale s order_id item a p rows ≡ (ok tt, t)
      → accrue_sale s order_id item a p t ≡ (ok tt, t)
  unfolding accrue_sale
  accrue_sale_twice item (some a) (some p) rows t h =
      book_twice (commission_for s order_id item a p) rows t h
  accrue_sale_twice item none p rows t h = refl
  accrue_sale_twice item (some a) none rows t h = refl

  accrue_sale_other :
      (item other : OrderItem) (a p b q : Option ℕ) (rows t : List Commission)
      → accrue_sale s order_id item a p rows ≡ (ok tt, rows)
      → accrue_sale s order_id other b q rows ≡ (ok tt, t)
      → accrue_sale s order_id item a p t ≡ (ok tt, t)
  unfolding accrue_sale
  accrue_sale_other item other (some a) (some p) (some b) (some q) rows t h k =
      book_other (commission_for s order_id item a p) (commission_for s order_id other b q) rows t h
        k
  accrue_sale_other item other (some a) (some p) none q rows t h k =
      let same : rows ≡ t = ground arith in rw same at h
  accrue_sale_other item other (some a) (some p) (some b) none rows t h k =
      let same : rows ≡ t = ground arith in rw same at h
  accrue_sale_other item other none p b q rows t h k = refl
  accrue_sale_other item other (some a) none b q rows t h k = refl

  -- What is booked stays booked while the loop goes on.
  items-IsBooked :
      (item : OrderItem) (items : List OrderItem) (rows t : List Commission)
      → IsBooked s order_id item rows
      → for_each (accrue_item s order_id) items rows ≡ (ok tt, t)
      → IsBooked s order_id item t
  unfolding for_each accrue_item
  items-IsBooked item [] rows t k h = let same : rows ≡ t = ground arith in rw same at k
  items-IsBooked item (x ∷ xs) rows t k h =
      let (_, u, first, rest) =
        bind-eq-ok (accrue_item s order_id x) (λ _. for_each (accrue_item s order_id) xs) rows tt t
          h in
      items-IsBooked item xs u t
        (accrue_sale_other item x item.affiliate item.seller_settlement_unit_snapshot x.affiliate
          x.seller_settlement_unit_snapshot rows u k first)
        rest

  both_pass :
      (x : OrderItem) (xs : List OrderItem) (t : List Commission)
      → IsBooked s order_id x t
      → for_each (accrue_item s order_id) xs t ≡ (ok tt, t)
      → for_each (accrue_item s order_id) (x ∷ xs) t ≡ (ok tt, t)
  unfolding for_each
  both_pass x xs t h k =
      bind-ok (accrue_item s order_id x) (λ _. for_each (accrue_item s order_id) xs) t t tt h ∙ k

  for_each_twice :
      (items : List OrderItem) (rows t : List Commission)
      → for_each (accrue_item s order_id) items rows ≡ (ok tt, t)
      → for_each (accrue_item s order_id) items t ≡ (ok tt, t)
  unfolding for_each accrue_item
  for_each_twice [] rows t h = refl
  for_each_twice (x ∷ xs) rows t h =
      let (_, u, first, rest) =
        bind-eq-ok (accrue_item s order_id x) (λ _. for_each (accrue_item s order_id) xs) rows tt t
          h in
      let booked =
        items-IsBooked x xs u t
          (accrue_sale_twice x x.affiliate x.seller_settlement_unit_snapshot rows u first) rest in
      let more = for_each_twice xs u t rest in both_pass x xs t booked more

-- Accruing the commissions of an order once more, after it succeeded, succeeds and adds nothing.
pub accrue_idempotent :
    (s : Shop) (order_id : ℕ) (order : Order) (rows t : List Commission)
    → accrue_order_commissions s order_id order rows ≡ (ok tt, t)
    → accrue_order_commissions s order_id order t ≡ (ok tt, t)
unfolding accrue_order_commissions
accrue_idempotent s order_id order rows t h =
    let again =
      for_each_twice s order_id order.items rows t
        (atomic-eq-ok (for_each (accrue_item s order_id) order.items) rows tt t h) in
    rw again refl
