-- ===== src/Risk/Names.antt =====
-- The numbers and names by which a band travels.
use ai_auth.Common.{◌≡◌, ◌≢◌, ◌↔◌, inl, inr, refl, ap, ◌∙◌, ℕ, ℕ_discrete, some, arith, ite-eq-some}
use ai_auth.Risk.Band.{
  Band, unspecified, low, medium, high, as_i32, from_i32, as_str_name, from_str_name,
}
use ai_auth.Text.{Str, str, Str-discrete}

from_i32-as_i32 : (b : Band) → from_i32 (as_i32 b) ≡ b
unfolding from_i32 as_i32
from_i32-as_i32 b = ground arith

from_i32-eq : (n : ℕ) (b : Band) → b ≢ unspecified → from_i32 n ≡ b → n ≡ as_i32 b
unfolding from_i32 as_i32
from_i32-eq n b stated e = ground arith

-- A stated band is read from its own number and from no other.
pub from_i32_iff : (n : ℕ) (b : Band) → b ≢ unspecified → (from_i32 n ≡ b) ↔ (n ≡ as_i32 b)
from_i32_iff n b stated = (from_i32-eq n b stated, λ e. ap from_i32 e ∙ from_i32-as_i32 b)

from_str_name-as_str_name : (b : Band) → from_str_name (as_str_name b) ≡ some b
unfolding from_str_name as_str_name str Str-discrete ℕ_discrete
from_str_name-as_str_name unspecified = refl
from_str_name-as_str_name low = refl
from_str_name-as_str_name medium = refl
from_str_name-as_str_name high = refl

met : {value : Str} {a b : Band} → (value ≡ as_str_name a) × (a ≡ b) → value ≡ as_str_name b
met (e, f) = e ∙ ap as_str_name f

from_str_name-eq-some :
    (value : Str) (b : Band) → from_str_name value ≡ some b → value ≡ as_str_name b
unfolding from_str_name as_str_name
from_str_name-eq-some value b h =
    elim (ite-eq-some (Str-discrete value (str "BAND_UNSPECIFIED")) h) [
      | inl a ↦ met {a = unspecified} a
      | inr h1 ↦ elim (ite-eq-some (Str-discrete value (str "BAND_LOW")) h1) [
        | inl a ↦ met {a = low} a
        | inr h2 ↦ elim (ite-eq-some (Str-discrete value (str "BAND_MEDIUM")) h2) [
          | inl a ↦ met {a = medium} a
          | inr h3 ↦ elim (ite-eq-some (Str-discrete value (str "BAND_HIGH")) h3) [
            | inl a ↦ met {a = high} a
            | inr h4 ↦ absurd (cc)
          ]
        ]
      ]
    ]

-- A text names a band exactly when it is that band's name.
pub from_str_name_iff :
    (value : Str) (b : Band) → (from_str_name value ≡ some b) ↔ (value ≡ as_str_name b)
from_str_name_iff value b =
    (from_str_name-eq-some value b, λ e. ap from_str_name e ∙ from_str_name-as_str_name b)
