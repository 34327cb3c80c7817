-- ===== src/Proto/Purpose.antt =====
-- The enum `Purpose` of aiauth.crypto.v1.rs: its numbers on the wire and its names.
use ai_auth.Common.{ℕ, ◌≡◌, refl, Option, none, some, ◌==◌, if◌then◌else◌, ite, arith, ℕ_discrete}
use ai_auth.Text.{Str, str, Str-discrete}

pub data Purpose : Type 0 where
  unspecified passkey_login row_encrypt row_decrypt blind_index : Purpose

unfoldable pub Purpose-discrete : Discrete Purpose
Purpose-discrete = hlevel

-- `purpose as i32`
unfoldable pub as_i32 : Purpose → ℕ
as_i32 unspecified = 0
as_i32 passkey_login = 1
as_i32 row_encrypt = 2
as_i32 row_decrypt = 3
as_i32 blind_index = 4

-- The accessor of an enumeration field: a number of no variant reads as the default, number 0.
unfoldable pub from_i32 : ℕ → Purpose
from_i32 n =
    if n == 1
    then passkey_login
    else if n == 2
    then row_encrypt
    else if n == 3
    then row_decrypt
    else if n == 4
    then blind_index
    else unspecified

unfoldable pub as_str_name : Purpose → Str
as_str_name unspecified = str "PURPOSE_UNSPECIFIED"
as_str_name passkey_login = str "PURPOSE_PASSKEY_LOGIN"
as_str_name row_encrypt = str "PURPOSE_ROW_ENCRYPT"
as_str_name row_decrypt = str "PURPOSE_ROW_DECRYPT"
as_str_name blind_index = str "PURPOSE_BLIND_INDEX"

unfoldable pub from_str_name : Str → Option Purpose
from_str_name value = ite (Str-discrete value (str "PURPOSE_UNSPECIFIED")) (some unspecified) (
    ite (Str-discrete value (str "PURPOSE_PASSKEY_LOGIN")) (some passkey_login) (
      ite (Str-discrete value (str "PURPOSE_ROW_ENCRYPT")) (some row_encrypt) (
        ite (Str-discrete value (str "PURPOSE_ROW_DECRYPT")) (some row_decrypt)
          (ite (Str-discrete value (str "PURPOSE_BLIND_INDEX")) (some blind_index) none))))

-- `{:?}`, the derived name of the variant.
unfoldable pub debug : Purpose → Str
debug unspecified = str "Unspecified"
debug passkey_login = str "PasskeyLogin"
debug row_encrypt = str "RowEncrypt"
debug row_decrypt = str "RowDecrypt"
debug blind_index = str "BlindIndex"

pub from_i32-as_i32 : (p : Purpose) → from_i32 (as_i32 p) ≡ p
unfolding from_i32 as_i32
from_i32-as_i32 p = ground arith

pub from_i32-eq_iff : (n : ℕ) (p : Purpose) → ¬ (p ≡ unspecified) → from_i32 n ≡ p → n ≡ as_i32 p
unfolding from_i32 as_i32
from_i32-eq_iff n p h e = ground arith

pub from_str_name-as_str_name : (p : Purpose) → from_str_name (as_str_name p) ≡ some p
unfolding from_str_name as_str_name Str-discrete str ℕ_discrete
from_str_name-as_str_name unspecified = refl
from_str_name-as_str_name passkey_login = refl
from_str_name-as_str_name row_encrypt = refl
from_str_name-as_str_name row_decrypt = refl
from_str_name-as_str_name blind_index = refl
