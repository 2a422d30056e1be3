-- ===== src/Common/Method.antt =====
-- A method with a `&mut self` receiver that returns a `Result`: what was written before an error
-- stays written, so the state comes back beside the error too.
use mathlib.Core.Path.{◌≡◌, refl, subst}
use mathlib.Core.Bool.{Bool, true, false}
use nexum_core.Common.Outcome.{Result, ok, err}

abbrev pub Method {ℓ} : Type ℓ → Type ℓ → Type ℓ → Type ℓ
Method S E A = S → Result E A × S

module _ {ℓ} {S E A : Type ℓ} where
  abbrev pub pure : A → Method S E A
  pure a s = (ok a, s)

  abbrev pub raise : E → Method S E A
  raise e s = (err e, s)

  abbrev pub lift : Result E A → Method S E A
  lift r s = (r, s)

module _ {ℓ} {S E : Type ℓ} where
  -- the receiver as it stands
  abbrev pub this : Method S E S
  this s = (ok s, s)

  abbrev pub put : S → Method S E Unit
  put s' s = (ok tt, s')

  -- `if !b { return Err(e) }`
  abbrev pub require : Bool → E → Method S E Unit
  require true e s = (ok tt, s)
  require false e s = (err e, s)

module _ {ℓ} {S E A B : Type ℓ} where
  abbrev pub continue : Result E A → (A → Method S E B) → Method S E B
  continue (ok a) f s = f a s
  continue (err e) f s = (err e, s)

  infixl 5 ◌>>=◌ ◌>>◌
  abbrev pub ◌>>=◌ : Method S E A → (A → Method S E B) → Method S E B
  ◌>>=◌ m f s = let (r, s') = m s in continue r f s'

  abbrev pub ◌>>◌ : Method S E A → Method S E B → Method S E B
  m >> n = m >>= λ _. n

-- What a chain that succeeds has done.
module _ {ℓ} {S E A B : Type ℓ} where
  pub lift-eq-ok :
      (r : Result E A) (f : A → Method S E B) (s s' : S) {b : B}
      → (lift r >>= f) s ≡ (ok b, s')
      → (a : A) × (r ≡ ok a) × (f a s ≡ (ok b, s'))
  lift-eq-ok (ok a) f s s' h = (a, refl, h)
  lift-eq-ok (err e) f s s' h = cc

  continue-eq-ok :
      (r : Result E A) (f : A → Method S E B) (s s' : S) {b : B}
      → continue r f s ≡ (ok b, s')
      → (a : A) × (r ≡ ok a) × (f a s ≡ (ok b, s'))
  continue-eq-ok (ok a) f s s' h = (a, refl, h)
  continue-eq-ok (err e) f s s' h = cc

  pub bind-eq-ok :
      (m : Method S E A) (f : A → Method S E B) (s s' : S) {b : B}
      → (m >>= f) s ≡ (ok b, s')
      → (a : A) × ((m s).0 ≡ ok a) × (f a (m s).1 ≡ (ok b, s'))
  bind-eq-ok m f s s' h = continue-eq-ok (m s).0 f (m s).1 s' h

  -- … where a step only reads
  pub read-eq-ok :
      (m : Method S E A) (f : A → Method S E B) (s s' : S) (a : A) {b : B}
      → m s ≡ (ok a, s)
      → (m >>= f) s ≡ (ok b, s')
      → f a s ≡ (ok b, s')
  read-eq-ok m f s s' a {b} e h = subst (λ r. continue r.0 f r.1 ≡ (ok b, s')) e h

module _ {ℓ} {S E B : Type ℓ} where
  pub require-eq-ok :
      (t : Bool) (e : E) (m : Method S E B) (s s' : S) {b : B}
      → (require t e >> m) s ≡ (ok b, s')
      → (t ≡ true) × (m s ≡ (ok b, s'))
  require-eq-ok true e m s s' h = (refl, h)
  require-eq-ok false e m s s' h = cc
