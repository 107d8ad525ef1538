-- ===== src/Prover/Outcome.antt =====
-- What a Rust call gives: a value, an error, or a panic that unwinds.
use go_zkvm.Base.{◌≡◌, refl, ap, String}
use mathlib.Core.Path.{subst}

pub data Outcome (E : Type 0) (A : Type 0) : Type 0 where
  ok : A → Outcome E A
  err : E → Outcome E A
  unwound : String → Outcome E A

module _ {E : Type 0} where
  infixl 5 ◌>>=◌
  -- The operator `?`.
  abbrev pub ◌>>=◌ : {A B : Type 0} → Outcome E A → (A → Outcome E B) → Outcome E B
  ◌>>=◌ (ok a) f = f a
  ◌>>=◌ (err e) f = err e
  ◌>>=◌ (unwound message) f = unwound message

  infixl 5 ◌>>◌
  abbrev pub ◌>>◌ : {B : Type 0} → Outcome E (Unit {0}) → Outcome E B → Outcome E B
  ◌>>◌ (ok a) b = b
  ◌>>◌ (err e) b = err e
  ◌>>◌ (unwound message) b = unwound message

abbrev pub map_err : {E E' A : Type 0} → (E → E') → Outcome E A → Outcome E' A
map_err f (ok a) = ok a
map_err f (err e) = err (f e)
map_err f (unwound message) = unwound message

-- The value of a computation, turned into a response.
abbrev pub sent : {E A B : Type 0} → Outcome E A → (A → B) → Outcome E B
sent o f = o >>= (λ a. ok (f a))

-- Every value that the call can give.
abbrev pub Values : {E A : Type 0} → (A → Type 0) → Outcome E A → Type 0
Values P (ok a) = P a
Values P (err e) = Unit {0}
Values P (unwound message) = Unit {0}

pub Values-bind :
    {E A B : Type 0} (P : B → Type 0) (o : Outcome E A) (f : A → Outcome E B)
    → ((a : A) → Values P (f a))
    → Values P (o >>= f)
Values-bind P (ok a) f h = h a
Values-bind P (err e) f h = tt
Values-bind P (unwound m) f h = tt

pub Values-then :
    {E B : Type 0} (P : B → Type 0) (o : Outcome E (Unit {0})) (b : Outcome E B)
    → Values P b
    → Values P (o >> b)
Values-then P (ok a) b h = h
Values-then P (err e) b h = tt
Values-then P (unwound m) b h = tt

pub Values-map_err :
    {E E' A : Type 0} (P : A → Type 0) (f : E → E') (o : Outcome E A)
    → Values P o
    → Values P (map_err f o)
Values-map_err P f (ok a) h = h
Values-map_err P f (err e) h = tt
Values-map_err P f (unwound m) h = tt

pub Values-ok :
    {E A : Type 0} (P : A → Type 0) (o : Outcome E A) (a : A) → Values P o → o ≡ ok a → P a
Values-ok P o a h e = subst (Values P) e h

-- A chain that gave a value went through.
pub bind_ok :
    {E A B : Type 0} (o : Outcome E A) (f : A → Outcome E B) (b : B)
    → (o >>= f) ≡ ok b
    → (a : A) × (o ≡ ok a) × (f a ≡ ok b)
bind_ok (ok a) f b e = (a, refl, e)
bind_ok (err x) f b e = absurd (cc e)
bind_ok (unwound m) f b e = absurd (cc e)

pub then_ok :
    {E B : Type 0} (o : Outcome E (Unit {0})) (k : Outcome E B) (b : B)
    → (o >> k) ≡ ok b
    → (o ≡ ok tt) × (k ≡ ok b)
then_ok (ok u) k b e = (refl, e)
then_ok (err x) k b e = absurd (cc e)
then_ok (unwound m) k b e = absurd (cc e)

pub map_err_ok :
    {E E' A : Type 0} (f : E → E') (o : Outcome E A) (a : A) → map_err f o ≡ ok a → o ≡ ok a
map_err_ok f (ok x) a e = ap ok (cc e)
map_err_ok f (err x) a e = absurd (cc e)
map_err_ok f (unwound m) a e = absurd (cc e)

pub ok_inj : {E A : Type 0} (a b : A) → Path (Outcome E A) (ok a) (ok b) → a ≡ b
ok_inj a b e = cc e
