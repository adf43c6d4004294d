-- ===== src/Base/Throws.antt =====
-- A call that may throw.
use mathlib.Core.Bool.{Bool, true, false}
use mathlib.Core.Path.{◌≡◌, ap, subst}

pub data Result (E : Type 0) (A : Type 0) : Type 0 where
  ok : A → Result E A
  err : E → Result E A

infixl 5 ◌>>=◌ ◌>>◌
abbrev pub ◌>>=◌ : {E A B : Type 0} → Result E A → (A → Result E B) → Result E B
ok a >>= f = f a
err e >>= f = err e

abbrev pub ◌>>◌ : {E B : Type 0} → Result E (Unit {0}) → Result E B → Result E B
m >> k = m >>= λ _. k

-- `if (bad) throw e;`
abbrev pub throw_if : {E : Type 0} → Bool → E → Result E (Unit {0})
throw_if true e = err e
throw_if false e = ok tt

abbrev pub value_of : {E A : Type 0} → A → Result E A → A
value_of d (ok a) = a
value_of d (err e) = d

pub ok_injective : {E A : Type 0} {a b : A} → ◌≡◌ {A = Result E A} (ok a) (ok b) → a ≡ b
ok_injective {a} q = ap (value_of a) q

-- What a call returns, if it returns, has the property.
abbrev pub OnOk : {E A : Type 0} → (A → Type 0) → Result E A → Type 0
OnOk P (ok a) = P a
OnOk P (err e) = Unit

pub OnOk-bind :
    {E A B : Type 0} (P : A → Type 0) (Q : B → Type 0) (m : Result E A) (k : A → Result E B)
    → OnOk P m
    → ((a : A) → P a → OnOk Q (k a))
    → OnOk Q (m >>= k)
OnOk-bind P Q (ok a) k h step = step a h
OnOk-bind P Q (err e) k h step = tt

pub OnOk-ok : {E A : Type 0} (P : A → Type 0) (m : Result E A) {a : A} → OnOk P m → m ≡ ok a → P a
OnOk-ok P m h e = subst (OnOk P) e h

pub OnOk-both :
    {E A : Type 0} (P Q R : A → Type 0) (m : Result E A)
    → OnOk P m
    → OnOk Q m
    → ((a : A) → P a → Q a → R a)
    → OnOk R m
OnOk-both P Q R (ok a) p q f = f a p q
OnOk-both P Q R (err e) p q f = tt

-- A call that does not throw, and whose result has the property.
abbrev pub Returns : {E A : Type 0} → (A → Type 0) → Result E A → Type 0
Returns P (ok a) = P a
Returns P (err e) = ⊥
