-- ===== src/Person/Results.antt =====
-- What holds of whatever a call of the person service returns.
use agience_origin.Base.{◌≡◌, refl, subst, Bool, true, false, if◌then◌else◌}
use agience_origin.Person.Store.{Error, Result, ok, raise, ◌>>=◌}

abbrev ReturnedBy : {A : Type 0} → (A → Type 0) → Result A → Type 0
ReturnedBy P (ok a) = P a
ReturnedBy P (raise e) = Unit {0}

pub record Returns {A : Type 0} (P : A → Type 0) (r : Result A) : Type 0 where
  returned : ReturnedBy P r

pub ok-Returns : {A : Type 0} (P : A → Type 0) (a : A) → P a → Returns P (ok a)
ok-Returns P a h = record { returned = h }

pub raise-Returns : {A : Type 0} (P : A → Type 0) (e : Error) → Returns P (raise e)
raise-Returns P e = record { returned = tt }

pub if-Returns :
    {A : Type 0} (P : A → Type 0) (b : Bool) {m n : Result A}
    → (b ≡ true → Returns P m)
    → (b ≡ false → Returns P n)
    → Returns P (if b then m else n)
if-Returns P true k l = k refl
if-Returns P false k l = l refl

pub bind-Returns :
    {A B : Type 0} (P : A → Type 0) (Q : B → Type 0) (m : Result A) (f : A → Result B)
    → Returns P m
    → ((a : A) → P a → Returns Q (f a))
    → Returns Q (m >>= f)
bind-Returns P Q (ok a) f h g = g a h.returned
bind-Returns P Q (raise e) f h g = raise-Returns Q e

pub Returns-of_eq :
    {A : Type 0} (P : A → Type 0) (r : Result A) → ((a : A) → r ≡ ok a → P a) → Returns P r
Returns-of_eq P (ok a) h = ok-Returns P a (h a refl)
Returns-of_eq P (raise e) h = raise-Returns P e

pub Returns_ok : {A : Type 0} (P : A → Type 0) (r : Result A) (a : A) → Returns P r → r ≡ ok a → P a
Returns_ok P (ok b) a h e = let same : b ≡ a = cc in subst P same h.returned
Returns_ok P (raise x) a h e = absurd (cc)
