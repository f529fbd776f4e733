-- ===== src/Prelude/Result.antt =====
-- Calls that return a value or raise. A call that raises leaves the transaction to be rolled back,
-- so an error carries no tables.
use mathlib.Core.Path.{◌≡◌, refl}
use mathlib.Core.Bool.{Bool, true, false, not}
use mathlib.Core.Option.{Option, none, some}

pub data Result {ℓ} (E : Type 0) (A : Type ℓ) : Type ℓ where
  err : E → Result E A
  ok : A → Result E A

module _ {ℓ κ} {E : Type 0} {A : Type ℓ} {B : Type κ} where
  infixl 5 ◌>>=◌
  abbrev pub ◌>>=◌ : Result E A → (A → Result E B) → Result E B
  err raised >>= rest = err raised
  ok x >>= rest = rest x

  -- Inversion of a chain of calls that did not raise.
  pub bind-ok :
      {b : B} (call : Result E A) (rest : A → Result E B)
      → (call >>= rest) ≡ ok b
      → (x : A) × (call ≡ ok x) × (rest x ≡ ok b)
  bind-ok (err raised) rest done = absurd (cc)
  bind-ok (ok x) rest done = (x, refl, done)

infixl 5 ◌>>◌
abbrev pub ◌>>◌ {ℓ} : {E : Type 0} {A : Type ℓ} → Result E (Unit {0}) → Result E A → Result E A
first >> second = first >>= λ _. second

module _ {E : Type 0} where
  -- `if condition: raise error`
  abbrev pub raise_if : Bool → E → Result E (Unit {0})
  raise_if true e = err e
  raise_if false e = ok tt

  abbrev pub or_raise {ℓ} : {A : Type ℓ} → Option A → E → Result E A
  or_raise none e = err e
  or_raise (some a) e = ok a

  pub raise_if-ok : (b : Bool) (e : E) {u : Unit {0}} → raise_if b e ≡ ok u → b ≡ false
  raise_if-ok true e h = cc
  raise_if-ok false e h = refl

  -- `if not condition: raise error`
  pub require-ok : (b : Bool) (e : E) {u : Unit {0}} → raise_if (not b) e ≡ ok u → b ≡ true
  require-ok true e h = refl
  require-ok false e h = cc

  pub or_raise-ok {ℓ} :
      {A : Type ℓ} (o : Option A) (e : E) {a : A} → or_raise o e ≡ ok a → o ≡ some a
  or_raise-ok none e h = cc
  or_raise-ok (some a) e h = cc

pub ok-inj {ℓ} : {E : Type 0} {A : Type ℓ} {x y : A} → Path (Result E A) (ok x) (ok y) → x ≡ y
ok-inj h = cc
