-- ===== src/Proto/Names.antt =====
-- The numbers and names by which a purpose travels.
use ai_auth.Common.{◌≡◌, ◌≢◌, ◌↔◌, inl, inr, ite-eq-some, ap, ◌∙◌, ℕ, some}
use ai_auth.Proto.Purpose.{
  Purpose, unspecified, passkey_login, row_encrypt, row_decrypt, blind_index, as_i32, from_i32,
  as_str_name, from_str_name, from_i32-as_i32, from_i32-eq_iff, from_str_name-as_str_name,
}
use ai_auth.Text.{Str, str, Str-discrete}

-- A stated purpose is read from its own number and from no other.
pub from_i32_iff : (n : ℕ) (p : Purpose) → p ≢ unspecified → (from_i32 n ≡ p) ↔ (n ≡ as_i32 p)
from_i32_iff n p stated = (from_i32-eq_iff n p stated, λ e. ap from_i32 e ∙ from_i32-as_i32 p)

met : {value : Str} {q p : Purpose} → (value ≡ as_str_name q) × (q ≡ p) → value ≡ as_str_name p
met (e, f) = e ∙ ap as_str_name f

from_str_name-eq-some :
    (value : Str) (p : Purpose) → from_str_name value ≡ some p → value ≡ as_str_name p
unfolding from_str_name as_str_name
from_str_name-eq-some value p h =
    elim (ite-eq-some (Str-discrete value (str "PURPOSE_UNSPECIFIED")) h) [
      | inl a ↦ met {q = unspecified} a
      | inr h₁ ↦ elim (ite-eq-some (Str-discrete value (str "PURPOSE_PASSKEY_LOGIN")) h₁) [
        | inl a ↦ met {q = passkey_login} a
        | inr h₂ ↦ elim (ite-eq-some (Str-discrete value (str "PURPOSE_ROW_ENCRYPT")) h₂) [
          | inl a ↦ met {q = row_encrypt} a
          | inr h₃ ↦ elim (ite-eq-some (Str-discrete value (str "PURPOSE_ROW_DECRYPT")) h₃) [
            | inl a ↦ met {q = row_decrypt} a
            | inr h₄ ↦ elim (ite-eq-some (Str-discrete value (str "PURPOSE_BLIND_INDEX")) h₄) [
              | inl a ↦ met {q = blind_index} a
              | inr h₅ ↦ absurd (cc)
            ]
          ]
        ]
      ]
    ]

-- A text names a purpose exactly when it is that purpose's name.
pub from_str_name_iff :
    (value : Str) (p : Purpose) → (from_str_name value ≡ some p) ↔ (value ≡ as_str_name p)
from_str_name_iff value p =
    (from_str_name-eq-some value p, λ e. ap from_str_name e ∙ from_str_name-as_str_name p)
