-- ===== src/Risk/Band.antt =====
-- The enum `Band` of aiauth.risk.v1.rs: its numbers on the wire and its names.
use ai_auth.Common.{ℕ, Option, none, some, ◌==◌, if◌then◌else◌, ite}
use ai_auth.Text.{Str, str, Str-discrete}

pub data Band : Type 0 where
  unspecified low medium high : Band

-- `band as i32`
unfoldable pub as_i32 : Band → ℕ
as_i32 unspecified = 0
as_i32 low = 1
as_i32 medium = 2
as_i32 high = 3

-- The accessor of the enumeration field: a number of no variant reads as the default, number 0.
unfoldable pub from_i32 : ℕ → Band
from_i32 n = if n == 1 then low else if n == 2 then medium else if n == 3 then high else unspecified

unfoldable pub as_str_name : Band → Str
as_str_name unspecified = str "BAND_UNSPECIFIED"
as_str_name low = str "BAND_LOW"
as_str_name medium = str "BAND_MEDIUM"
as_str_name high = str "BAND_HIGH"

unfoldable pub from_str_name : Str → Option Band
from_str_name value = ite (Str-discrete value (str "BAND_UNSPECIFIED")) (some unspecified) (
    ite (Str-discrete value (str "BAND_LOW")) (some low) (
      ite (Str-discrete value (str "BAND_MEDIUM")) (some medium)
        (ite (Str-discrete value (str "BAND_HIGH")) (some high) none)))
