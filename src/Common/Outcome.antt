-- ===== src/Common/Outcome.antt =====
-- Rust's `Result<A, E>` and the `?` operator as bind.
use mathlib.Core.Path.{◌≡◌, refl, ap}
use mathlib.Core.Logic.{◌⊎◌, inl, inr}
use mathlib.Core.Bool.{Bool, true, false}
use mathlib.Core.Option.{Option, none, some}

pub data Result {ℓ κ} (E : Type ℓ) (A : Type κ) : Type (ℓ ⊔ κ) where
  ok : A → Result E A
  err : E → Result E A

module _ {ℓ} {E : Type ℓ} where
  infixl 5 ◌>>=◌ ◌>>◌
  abbrev pub ◌>>=◌ {κ μ} : {A : Type κ} {B : Type μ} → Result E A → (A → Result E B) → Result E B
  outcome >>= next = elim outcome [ ok value ↦ next value | err failure ↦ err failure ]

  abbrev pub ◌>>◌ {κ} : {B : Type κ} → Result E (Unit {0}) → Result E B → Result E B
  first >> second = elim first [ ok _ ↦ second | err failure ↦ err failure ]

  -- `if !b { return Err(e) }`
  abbrev pub ensure : Bool → E → Result E (Unit {0})
  ensure true e = ok tt
  ensure false e = err e

  -- `ok_or`
  abbrev pub ok_or {κ} : {A : Type κ} → Option A → E → Result E A
  ok_or none e = err e
  ok_or (some a) e = ok a

  abbrev pub map_err {κ μ} : {D : Type κ} {A : Type μ} → (D → E) → Result D A → Result E A
  map_err f (ok a) = ok a
  map_err f (err d) = err (f d)

abbrev pub is_ok {ℓ κ} : {E : Type ℓ} {A : Type κ} → Result E A → Bool
is_ok (ok _) = true
is_ok (err _) = false

pub Result-cases {ℓ κ} :
    {E : Type ℓ} {A : Type κ} (r : Result E A) → ((a : A) × (r ≡ ok a)) ⊎ ((e : E) × (r ≡ err e))
Result-cases (ok a) = inl (a, refl)
Result-cases (err e) = inr (e, refl)

-- What a chain that succeeds has computed.
module _ {ℓ κ μ} {E : Type ℓ} {A : Type κ} {B : Type μ} where
  pub >>=-eq-ok :
      (outcome : Result E A) (next : A → Result E B) {result : B}
      → outcome >>= next ≡ ok result
      → (value : A) × (outcome ≡ ok value) × (next value ≡ ok result)
  >>=-eq-ok (err failure) next h = cc
  >>=-eq-ok (ok value) next h = (value, refl, h)

module _ {ℓ κ} {E : Type ℓ} {B : Type κ} where
  pub ensure-eq-ok :
      (b : Bool) (e : E) (m : Result E B) {v : B}
      → (ensure b e >> m) ≡ ok v
      → (b ≡ true) × (m ≡ ok v)
  ensure-eq-ok true e m h = (refl, h)
  ensure-eq-ok false e m h = cc

  pub >>-eq-ok :
      (n : Result E (Unit {0})) (m : Result E B) {v : B}
      → (n >> m) ≡ ok v
      → (n ≡ ok tt) × (m ≡ ok v)
  >>-eq-ok (ok u) m h = (refl, h)
  >>-eq-ok (err e) m h = cc

  pub ok_inj : {a b : B} → ◌≡◌ {A = Result E B} (ok a) (ok b) → a ≡ b
  ok_inj h = cc

  pub ok_or-eq-ok : (o : Option B) (e : E) (b : B) → ok_or o e ≡ ok b → o ≡ some b
  ok_or-eq-ok none e b h = cc
  ok_or-eq-ok (some a) e b h = ap some (ok_inj h)

pub map_err-ok {ℓ κ μ} :
    {D : Type ℓ} {E : Type κ} {A : Type μ} (f : D → E) (r : Result D A) (a : A)
    → map_err f r ≡ ok a
    → r ≡ ok a
map_err-ok f (ok b) a h = ap ok (ok_inj h)
map_err-ok f (err d) a h = cc
