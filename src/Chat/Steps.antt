-- ===== src/Chat/Steps.antt =====
-- Sequences of steps whose parts a proof takes off one by one: the bind of `Exec`, which here stands
-- for itself until it is unfolded.
use asoud_backend_full.Exec.{Exec, ok, Fault, raise_if, or_raise, gets, modify, ◌>>=◌ as bind}
use asoud_backend_full.Prelude.{◌≡◌, refl, Bool, true, false, Option, none, some}

infixl 5 ◌>>=◌ ◌>>◌
unfoldable pub ◌>>=◌ : {S A B : Type 0} → Exec S A → (A → Exec S B) → Exec S B
m >>= f = bind m f

unfoldable pub ◌>>◌ : {S A B : Type 0} → Exec S A → Exec S B → Exec S B
m >> k = bind m (λ _. k)

module _ {S B : Type 0} {s s' : S} {b : B} where
  -- A guard that let the block go on.
  pub raise_if-eq-ok :
      (test : Bool) (e : Fault) (k : Exec S B)
      → (raise_if test e >> k) s ≡ (ok b, s')
      → (test ≡ false) × (k s ≡ (ok b, s'))
  unfolding ◌>>◌
  raise_if-eq-ok true e k h = absurd (cc)
  raise_if-eq-ok false e k h = (refl, h)

  -- A value of the state.
  pub gets-eq-ok :
      {A : Type 0} (g : S → A) (f : A → Exec S B)
      → (gets g >>= f) s ≡ (ok b, s')
      → f (g s) s ≡ (ok b, s')
  unfolding ◌>>=◌
  gets-eq-ok g f h = h

  -- A first step that changes the state.
  pub modify-eq-ok :
      (g : S → S) (k : Exec S B) → (modify g >> k) s ≡ (ok b, s') → k (g s) ≡ (ok b, s')
  unfolding ◌>>◌
  modify-eq-ok g k h = h

or_raise-run-eq-ok :
    {S A B : Type 0} (o : Option A) (e : Fault) (f : A → Exec S B) (s : S) (b : B) (s' : S)
    → bind (or_raise o e) f s ≡ (ok b, s')
    → (a : A) × (o ≡ some a) × (f a s ≡ (ok b, s'))
or_raise-run-eq-ok none e f s b s' h = absurd (cc)
or_raise-run-eq-ok (some a) e f s b s' h = (a, refl, h)

-- A row that may be missing.
pub read-eq-ok :
    {S A B : Type 0} {s s' : S} {b : B} (g : S → Option A) (e : Fault) (f : A → Exec S B)
    → ((λ (t : S). or_raise (g t) e t) >>= f) s ≡ (ok b, s')
    → (a : A) × (g s ≡ some a) × (f a s ≡ (ok b, s'))
unfolding ◌>>=◌
read-eq-ok {s = s} {s' = s'} {b = b} g e f h = or_raise-run-eq-ok (g s) e f s b s' h
