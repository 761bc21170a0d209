-- ===== src/Exec.antt =====
-- Python code that reads and writes database rows and may raise: a state monad with exceptions.
-- `atomic` is `transaction.atomic()`: an exception that leaves the block restores the rows.
use asoud_backend_full.Prelude.{
  ◌≡◌, refl, ap, ◌⊎◌, inl, inr, Bool, true, false, Option, none, some, List, [], ◌∷◌,
}

-- The models whose `DoesNotExist` the code raises or catches.
pub data Model : Type 0 where
  user_model wallet_model order_model product_model affiliate_model discount_model : Model
  market_model card_model reservation_model specialist_model service_model payment_model : Model
  zarinpal_model shipping_model : Model

-- The codes of `CartIntegrityError`.
pub data CartCode : Type 0 where
  unavailable_item affiliate_price_invalid empty_order invalid_item mixed_market_order : CartCode
  invalid_quantity insufficient_stock discount_inactive discount_expired : CartCode
  discount_limit_reached discount_not_eligible discount_not_applicable : CartCode
  discount_already_used product_discount_inactive product_discount_already_used : CartCode
  product_discount_already_reserved product_discount_limit_reached discount_not_found : CartCode
  shipping_method_required shipping_method_invalid shipping_not_required : CartCode
  affiliate_discount_invalid invalid_total invalid_gateway_total inventory_state : CartCode
  invalid_status order_changed discount_state product_discount_state : CartCode

-- The codes of `ChatMembershipError`.
pub data MembershipCode : Type 0 where
  membership_system_managed room_not_active not_a_participant invalid_role : MembershipCode
  permission_denied participant_already_member participant_limit_reached : MembershipCode
  ownership_transfer_required invalid_transfer_target invalid_participant_limit : MembershipCode

-- The exceptions that the modelled code raises. `integrity` is `CartIntegrityError`, a subclass
-- of `ValueError`; `type_error` is arithmetic on `None`; `attribute_error` is the use of a missing object; `data_error` is a number
-- that does not fit its database column; `constraint_error` is `IntegrityError`.
pub data Fault : Type 0 where
  integrity : CartCode → Fault
  does_not_exist : Model → Fault
  membership : MembershipCode → Fault
  value_error type_error attribute_error data_error constraint_error : Fault

pub data Result (A : Type 0) : Type 0 where
  ok : A → Result A
  err : Fault → Result A

-- A chain of checks that read the rows and write none.
infixl 5 ◌and_then◌
abbrev pub ◌and_then◌ : {A B : Type 0} → Result A → (A → Result B) → Result B
ok a and_then f = f a
err e and_then f = err e

-- `if fault: raise fault`
abbrev pub unless_fault : {A : Type 0} → Option Fault → A → Result A
unless_fault none a = ok a
unless_fault (some e) a = err e

abbrev pub Exec : Type 0 → Type 0 → Type 0
Exec S A = S → Result A × S

infixl 5 ◌>>=◌ ◌>>◌
abbrev pub ◌>>=◌ : {S A B : Type 0} → Exec S A → (A → Exec S B) → Exec S B
◌>>=◌ m f s = let (r, s') = m s in elim r [ ok a ↦ f a s' | err e ↦ (err e, s') ]

abbrev pub ◌>>◌ : {S A B : Type 0} → Exec S A → Exec S B → Exec S B
◌>>◌ m k = m >>= λ _. k

abbrev pub pure : {S A : Type 0} → A → Exec S A
pure a s = (ok a, s)

abbrev pub raise : {S A : Type 0} → Fault → Exec S A
raise e s = (err e, s)

-- `if test: raise e`
abbrev pub raise_if : {S : Type 0} → Bool → Fault → Exec S (Unit {0})
raise_if true e s = (err e, s)
raise_if false e s = (ok tt, s)

-- A value that may be missing.
abbrev pub or_raise : {S A : Type 0} → Option A → Fault → Exec S A
or_raise none e s = (err e, s)
or_raise (some a) e s = (ok a, s)

abbrev pub gets : {S A : Type 0} → (S → A) → Exec S A
gets f s = (ok (f s), s)

abbrev pub modify : {S : Type 0} → (S → S) → Exec S (Unit {0})
modify f s = (ok tt, f s)

-- Where a block began is what an exception that leaves it restores.
abbrev pub rolled_back : {S A : Type 0} → S → Result A × S → Result A × S
rolled_back s (ok a, s') = (ok a, s')
rolled_back s (err e, s') = (err e, s)

abbrev pub atomic : {S A : Type 0} → Exec S A → Exec S A
atomic m s = rolled_back s (m s)

-- `for x in xs: body(x)`
unfoldable pub for_each : {S A : Type 0} → (A → Exec S (Unit {0})) → List A → Exec S (Unit {0})
for_each body [] = pure tt
for_each body (x ∷ xs) = body x >> for_each body xs

rolled_back-err :
    {S A : Type 0} (s : S) (r : Result A × S) (e : Fault)
    → (rolled_back s r).0 ≡ err e
    → (rolled_back s r).1 ≡ s
rolled_back-err s (ok a, s') e h = cc
rolled_back-err s (err e', s') e h = refl

rolled_back-eq-ok :
    {S A : Type 0} (s : S) (r : Result A × S) (a : A) (s' : S)
    → rolled_back s r ≡ (ok a, s')
    → r ≡ (ok a, s')
rolled_back-eq-ok s (ok b, t) a s' h = h
rolled_back-eq-ok s (err e, t) a s' h = cc

-- What is known of both parts of a run.
pub pair_eq : {A B : Type 0} (r : A × B) (a : A) (b : B) → r.0 ≡ a → r.1 ≡ b → r ≡ (a, b)
pair_eq (x, y) a b h k = rw (h, k) refl

-- A transaction that raises leaves every row as it was.
pub atomic-err :
    {S A : Type 0} (m : Exec S A) (s : S) {e : Fault} → (atomic m s).0 ≡ err e → (atomic m s).1 ≡ s
atomic-err m s {e} h = rolled_back-err s (m s) e h

-- A chain that returned: its first part did, and the rest did from its value.
pub and_then-eq-ok :
    {A B : Type 0} (r : Result A) (f : A → Result B) (b : B)
    → (r and_then f) ≡ ok b
    → (a : A) × (r ≡ ok a) × (f a ≡ ok b)
and_then-eq-ok (ok a) f b h = (a, refl, h)
and_then-eq-ok (err e) f b h = absurd (cc)

pub unless_fault-eq-ok :
    {A : Type 0} (f : Option Fault) (a b : A) → unless_fault f a ≡ ok b → (f ≡ none) × (a ≡ b)
unless_fault-eq-ok none a b h = (refl, cc)
unless_fault-eq-ok (some e) a b h = absurd (cc)

-- How a block ended.
pub ended :
    {S A : Type 0} (run : Result A × S)
    → ((e : Fault) × (run.0 ≡ err e)) ⊎ ((a : A) × (run ≡ (ok a, run.1)))
ended (ok a, s) = inr (a, refl)
ended (err e, s) = inl (e, refl)

-- What follows a step that ended as `run`.
abbrev continue_from : {S A B : Type 0} → (A → Exec S B) → Result A × S → Result B × S
continue_from f run = elim run.0 [ ok a ↦ f a run.1 | err e ↦ (err e, run.1) ]

continue_from-eq-ok :
    {S A B : Type 0} (f : A → Exec S B) (run : Result A × S) (b : B) (s' : S)
    → continue_from f run ≡ (ok b, s')
    → (a : A) × (t : S) × (run ≡ (ok a, t)) × (f a t ≡ (ok b, s'))
continue_from-eq-ok f (ok a, t) b s' h = (a, t, refl, h)
continue_from-eq-ok f (err e, t) b s' h = absurd (cc)

-- A block of two steps that returned: the first returned, and the second from where it left off.
pub bind-eq-ok :
    {S A B : Type 0} (m : Exec S A) (f : A → Exec S B) (s : S) (b : B) (s' : S)
    → (m >>= f) s ≡ (ok b, s')
    → (a : A) × (t : S) × (m s ≡ (ok a, t)) × (f a t ≡ (ok b, s'))
bind-eq-ok m f s b s' h = continue_from-eq-ok f (m s) b s' h

-- A block whose first step returned goes on from there.
pub bind-ok :
    {S A B : Type 0} (m : Exec S A) (f : A → Exec S B) (s t : S) (a : A)
    → m s ≡ (ok a, t)
    → (m >>= f) s ≡ f a t
bind-ok m f s t a h = ap (continue_from f) h

-- A block whose first step raised ends there.
pub bind-err :
    {S A B : Type 0} (m : Exec S A) (f : A → Exec S B) (s t : S) (e : Fault)
    → m s ≡ (err e, t)
    → (m >>= f) s ≡ (err e, t)
bind-err m f s t e h = ap (continue_from f) h

pub atomic-eq-ok :
    {S A : Type 0} (m : Exec S A) (s : S) (a : A) (s' : S)
    → atomic m s ≡ (ok a, s')
    → m s ≡ (ok a, s')
atomic-eq-ok m s a s' h = rolled_back-eq-ok s (m s) a s' h

-- A relation that every step keeps is kept by a sequence of steps, and by a loop.
continue_from-keeps :
    {S A B : Type 0} (R : S → S → Type 0)
    → ((s t u : S) → R s t → R t u → R s u)
    → (f : A → Exec S B) → ((a : A) (s : S) → R s (f a s).1)
    → (s : S) (run : Result A × S) → R s run.1
    → R s (continue_from f run).1
continue_from-keeps R trans f step s (ok a, t) h = trans s t (f a t).1 h (step a t)
continue_from-keeps R trans f step s (err e, t) h = h

pub bind-keeps :
    {S A B : Type 0} (R : S → S → Type 0)
    → ((s t u : S) → R s t → R t u → R s u)
    → (m : Exec S A) (f : A → Exec S B) → ((s : S) → R s (m s).1)
    → ((a : A) (s : S) → R s (f a s).1)
    → (s : S) → R s ((m >>= f) s).1
bind-keeps R trans m f first step s = continue_from-keeps R trans f step s (m s) (first s)

pub for_each-keeps :
    {S A : Type 0} (R : S → S → Type 0)
    → ((s : S) → R s s)
    → ((s t u : S) → R s t → R t u → R s u)
    → (body : A → Exec S (Unit {0})) → ((a : A) (s : S) → R s (body a s).1)
    → (xs : List A) (s : S) → R s (for_each body xs s).1
unfolding for_each
for_each-keeps R same trans body step [] s = same s
for_each-keeps R same trans body step (x ∷ xs) s =
    bind-keeps R trans (body x) (λ _. for_each body xs) (step x)
      (λ _. for_each-keeps R same trans body step xs) s
