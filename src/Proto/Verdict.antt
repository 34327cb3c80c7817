-- ===== src/Proto/Verdict.antt =====
-- The enum `Verdict` of aiauth.crypto.v1.rs: its numbers on the wire and its names.
use ai_auth.Common.{ℕ, ◌≡◌, refl, Option, none, some, ite, ℕ_discrete}
use ai_auth.Text.{Str, str, Str-discrete}

pub data Verdict : Type 0 where
  unspecified verified rejected : Verdict

-- `verdict as i32`
unfoldable pub as_i32 : Verdict → ℕ
as_i32 unspecified = 0
as_i32 verified = 1
as_i32 rejected = 2

unfoldable pub as_str_name : Verdict → Str
as_str_name unspecified = str "VERDICT_UNSPECIFIED"
as_str_name verified = str "VERDICT_VERIFIED"
as_str_name rejected = str "VERDICT_REJECTED"

unfoldable pub from_str_name : Str → Option Verdict
from_str_name value = ite (Str-discrete value (str "VERDICT_UNSPECIFIED")) (some unspecified) (
    ite (Str-discrete value (str "VERDICT_VERIFIED")) (some verified)
      (ite (Str-discrete value (str "VERDICT_REJECTED")) (some rejected) none))

from_str_name-as_str_name : (v : Verdict) → from_str_name (as_str_name v) ≡ some v
unfolding from_str_name as_str_name Str-discrete str ℕ_discrete
from_str_name-as_str_name unspecified = refl
from_str_name-as_str_name verified = refl
from_str_name-as_str_name rejected = refl
