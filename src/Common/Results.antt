-- ===== src/Common/Results.antt =====
-- Rust's `Result`, its `?` operator and the conversions from `Option`.
use mathlib.Core.Path.{◌≡◌, refl}
use mathlib.Core.Logic.{◌⊎◌, inl, inr, ite}
use mathlib.Core.Option.{Option, none, some}

pub data Result {ℓ} (A E : Type ℓ) : Type ℓ where
  ok : A → Result A E
  err : E → Result A E

-- `m?` followed by the rest of the function.
infixl 5 ◌>>=◌
abbrev pub ◌>>=◌ {ℓ} : {A B E : Type ℓ} → Result A E → (A → Result B E) → Result B E
err failed >>= rest = err failed
ok a >>= rest = rest a

module _ {ℓ} {A E : Type ℓ} where
  abbrev pub ok_or : Option A → E → Result A E
  ok_or none e = err e
  ok_or (some a) e = ok a

  abbrev pub map_err : {F : Type ℓ} → Result A E → (E → F) → Result A F
  map_err (ok a) f = ok a
  map_err (err e) f = err (f e)

  pub Result-cases : (r : Result A E) → ((a : A) × (r ≡ ok a)) ⊎ ((e : E) × (r ≡ err e))
  Result-cases (ok a) = inl (a, refl)
  Result-cases (err e) = inr (e, refl)

  -- A chain that succeeds: its first part gave a value, and the rest succeeded on it.
  pub >>=-eq-ok :
      {B : Type ℓ} (first : Result A E) (rest : A → Result B E) {result : B}
      → first >>= rest ≡ ok result
      → (value : A) × (first ≡ ok value) × (rest value ≡ ok result)
  >>=-eq-ok (err failed) rest h = cc
  >>=-eq-ok (ok value) rest h = (value, refl, h)

  pub ok_or-eq-ok : (o : Option A) (e : E) {a : A} → ok_or o e ≡ ok a → o ≡ some a
  ok_or-eq-ok none e h = cc
  ok_or-eq-ok (some b) e h = cc

  pub map_err-eq-ok :
      {F : Type ℓ} (r : Result A E) (f : E → F) {a : A} → map_err r f ≡ ok a → r ≡ ok a
  map_err-eq-ok (ok b) f h = cc
  map_err-eq-ok (err e) f h = cc

  pub ok-injective : {a b : A} → ◌≡◌ {A = Result A E} (ok a) (ok b) → a ≡ b
  ok-injective h = cc

-- Where a chain of tests yields a value, this test has yielded it or the rest of the chain does.
pub ite-eq-some {ℓ} :
    {P A : Type ℓ} {a b : A} {rest : Option A} (d : Dec P)
    → ite d (some a) rest ≡ some b
    → (P × (a ≡ b)) ⊎ (rest ≡ some b)
ite-eq-some (yes e) h = inl (e, cc)
ite-eq-some (no n) h = inr h
