-- ===== src/Base/Outcome.antt =====
-- A call that returns or throws: the error is a value of a type of the component's own.
use mathlib.Core.Path.{◌≡◌, refl}
use mathlib.Core.Logic.{◌⊎◌, inl, inr}
use mathlib.Core.Bool.{Bool, true, false}

pub data Result {ℓ} (E : Type 0) (A : Type ℓ) : Type ℓ where
  ok : A → Result E A
  err : E → Result E A

module _ {E : Type 0} where
  infixl 5 ◌>>=◌ ◌>>◌
  -- What follows a call that returned.
  abbrev pub ◌>>=◌ {ℓ κ} : {A : Type ℓ} → {B : Type κ} → Result E A → (A → Result E B) → Result E B
  call >>= next = elim call [ err thrown ↦ err thrown | ok returned ↦ next returned ]

  abbrev pub ◌>>◌ {κ} : {B : Type κ} → Result E (Unit {0}) → Result E B → Result E B
  test >> next = elim test [ err thrown ↦ err thrown | ok _ ↦ next ]

  -- `if (!condition) throw e`
  abbrev pub require : Bool → E → Result E (Unit {0})
  require true e = ok tt
  require false e = err e

  -- `try { m } catch { throw e }`
  abbrev pub or_throw {ℓ} : {A : Type ℓ} → Result E A → E → Result E A
  or_throw (ok a) e = ok a
  or_throw (err _) e = err e

  pub >>=-eq-ok {ℓ κ} :
      {A : Type ℓ} {B : Type κ} (call : Result E A) (next : A → Result E B) {end : B}
      → (call >>= next) ≡ ok end
      → (returned : A) × (call ≡ ok returned) × (next returned ≡ ok end)
  >>=-eq-ok (err thrown) next ended = cc
  >>=-eq-ok (ok returned) next ended = (returned, refl, ended)

  -- Inversion of a test that was passed.
  pub require-eq-ok {ℓ} :
      {B : Type ℓ} (test : Bool) (e : E) (m : Result E B) {b : B}
      → (require test e >> m) ≡ ok b
      → (test ≡ true) × (m ≡ ok b)
  require-eq-ok true e m h = (refl, h)
  require-eq-ok false e m h = cc

  pub ok_injective {ℓ} : {A : Type ℓ} (a b : A) → ◌≡◌ {A = Result E A} (ok a) (ok b) → a ≡ b
  ok_injective a b h = cc

  pub Result-cases {ℓ} :
      {A : Type ℓ} (m : Result E A) → ((a : A) × (m ≡ ok a)) ⊎ ((e : E) × (m ≡ err e))
  Result-cases (ok a) = inl (a, refl)
  Result-cases (err e) = inr (e, refl)
