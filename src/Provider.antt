-- ===== src/Provider.antt =====
-- crypto/src/provider.rs: the boundary behind which every primitive stands.
use ai_auth.Common.{Bool, Option, ◌++◌, Result}
use ai_auth.Text.{Str, Bytes, str, Str-discrete}

pub record KeyHandle : Type 0 where
  pub id : Str

unfoldable pub KeyHandle-discrete : Discrete KeyHandle
KeyHandle-discrete = hlevel Str-discrete

-- `{:?}` of a handle.
unfoldable pub debug : KeyHandle → Str
debug h = str "KeyHandle(" ++ h.id ++ str ")"

pub record ProviderAttestation : Type 0 where
  pub name : Str
  pub version : Str
  pub fips : Bool
  pub certificate : Option Str

pub data ProviderError : Type 0 where
  unknown_key : KeyHandle → ProviderError
  backend : Str → ProviderError
  decrypt : ProviderError

-- `Display` of an error.
unfoldable pub display : ProviderError → Str
display (unknown_key h) = str "unknown key handle " ++ debug h
display (backend msg) = str "crypto backend error: " ++ msg
display decrypt = str "decryption failed"

abbrev pub WrappedDek : Type 0
WrappedDek = Bytes

-- The trait. `State` is what a provider keeps and draws on between calls, such as a generator of
-- random bytes; every method returns it anew.
pub record CryptoProvider : Type 1 where
  pub State : Type 0
  pub generate_wrapped_dek : KeyHandle → Str → State → Result WrappedDek ProviderError × State
  pub encrypt_field : KeyHandle → Str → Bytes → Bytes → State → Result Bytes ProviderError × State
  pub decrypt_field : KeyHandle → Str → Bytes → Bytes → State → Result Bytes ProviderError × State
  pub blind_index : KeyHandle → Str → Bytes → State → Result Bytes ProviderError × State
  pub attestation : ProviderAttestation
