-- ===== src/Webauthn.antt =====
-- crypto/src/webauthn.rs: verification of one assertion. `Libraries` is what the verifier calls in
-- other crates: the JSON parser, base64, SHA-256 and ECDSA over P-256.
pub mod Accepted
pub mod Replay
pub mod Honest
use ai_auth.Common.{
  ℕ, ◌<◌, ◌++◌, Bool, true, false, not, ◌&&◌, List, [], ◌∷◌, Option, none, some, Result, ok, err,
  ◌>>=◌, ok_or, map_err, length, ltb, leb, ◌==◌, take, get_or, if◌then◌else◌, ite, bit_and,
  ℕ_discrete,
}
use ai_auth.Text.{Str, Bytes, str, Str-discrete, as_bytes}
use ai_auth.Words.{u32_from_be_bytes}

pub data Rejection : Type 0 where
  malformed_client_data wrong_type challenge_mismatch origin_mismatch rp_id_mismatch : Rejection
  user_not_present sign_count_regression malformed_authenticator_data : Rejection
  unsupported_key bad_signature : Rejection

-- `Rejection::code`
unfoldable pub code : Rejection → Str
code malformed_client_data = str "malformed_client_data"
code wrong_type = str "wrong_type"
code challenge_mismatch = str "challenge_mismatch"
code origin_mismatch = str "origin_mismatch"
code rp_id_mismatch = str "rp_id_mismatch"
code user_not_present = str "user_not_present"
code sign_count_regression = str "sign_count_regression"
code malformed_authenticator_data = str "malformed_authenticator_data"
code unsupported_key = str "unsupported_key"
code bad_signature = str "bad_signature"

pub record Verified : Type 0 where
  pub new_sign_count : ℕ

pub record Expectations : Type 0 where
  pub rp_id : Str
  pub origin : Str
  pub challenge : Bytes
  pub stored_sign_count : ℕ

abbrev pub flag_up : ℕ
flag_up = 0x01

abbrev pub auth_data_min : ℕ
auth_data_min = 37

pub record Libraries : Type 1 where
  -- serde_json
  pub Value : Type 0
  pub json_from_slice : Bytes → Option Value
  pub get : Value → Str → Option Value
  pub as_str : Value → Option Str
  -- base64, URL_SAFE_NO_PAD
  pub base64_decode : Str → Option Bytes
  -- sha2
  pub sha256 : Bytes → Bytes
  -- p256::ecdsa
  pub VerifyingKey : Type 0
  pub Signature : Type 0
  pub key_from_sec1_bytes : Bytes → Option VerifyingKey
  pub signature_from_der : Bytes → Option Signature
  pub signature_from_slice : Bytes → Option Signature
  pub verify : VerifyingKey → Bytes → Signature → Bool

-- The byte at an index below the length; the source has checked the length.
abbrev pub byte_at : Bytes → ℕ → ℕ
byte_at bytes i = get_or bytes i 0

abbrev pub or_else {ℓ} : {A : Type ℓ} → Option A → Option A → Option A
or_else (some a) o = some a
or_else none o = o

abbrev pub guard : Bool → Rejection → Result (Unit {0}) Rejection
guard b e = if b then ok tt else err e

infixl 5 ◌>>◌
abbrev ◌>>◌ : {B : Type 0} → Result (Unit {0}) Rejection → Result B Rejection → Result B Rejection
m >> k = m >>= λ _. k

unfoldable pub sign_count_of : Bytes → ℕ
sign_count_of data_ =
    u32_from_be_bytes (byte_at data_ 33) (byte_at data_ 34) (byte_at data_ 35) (byte_at data_ 36)

module _ (L : Libraries) where
  -- `client.get(key).and_then(|v| v.as_str())`
  unfoldable pub text_field : L.Value → Str → Option Str
  text_field client key = elim (L.get client key) [ none ↦ none | some v ↦ L.as_str v ]

  -- `field != Some(want)`, negated.
  unfoldable pub is_text : Option Str → Str → Bool
  is_text none want = false
  is_text (some s) want = ite (Str-discrete s want) true false

  -- Steps 1 to 3: the client data.
  unfoldable pub check_client_data : Expectations → Bytes → Result (Unit {0}) Rejection
  check_client_data exp client_data_json = do
    client ← ok_or (L.json_from_slice client_data_json) malformed_client_data
    guard (is_text (text_field client (str "type")) (str "webauthn.get")) wrong_type
    encoded ← ok_or (text_field client (str "challenge")) malformed_client_data
    got_challenge ← ok_or (L.base64_decode encoded) malformed_client_data
    guard (ite (Str-discrete got_challenge exp.challenge) true false) challenge_mismatch
    guard (is_text (text_field client (str "origin")) exp.origin) origin_mismatch

  -- Steps 4 to 6: the authenticator data, down to its sign count.
  unfoldable pub check_authenticator_data : Expectations → Bytes → Result ℕ Rejection
  check_authenticator_data exp authenticator_data = do
    guard (leb auth_data_min (length authenticator_data)) malformed_authenticator_data
    guard
        (ite (Str-discrete (take 32 authenticator_data) (L.sha256 (as_bytes exp.rp_id))) true false)
        rp_id_mismatch
    guard (not (bit_and (byte_at authenticator_data 32) flag_up == 0)) user_not_present
    let sign_count = sign_count_of authenticator_data
    guard (not (not (sign_count == 0) && leb sign_count exp.stored_sign_count))
        sign_count_regression
    ok sign_count

  -- Step 7: the signature over authenticatorData || SHA-256(clientDataJSON).
  unfoldable pub check_signature : Bytes → Bytes → Bytes → Bytes → Result (Unit {0}) Rejection
  check_signature public_key_sec1 authenticator_data client_data_json signature = do
    key ← ok_or (L.key_from_sec1_bytes public_key_sec1) unsupported_key
    sig ←
        ok_or (or_else (L.signature_from_der signature) (L.signature_from_slice signature))
          bad_signature
    guard (L.verify key (authenticator_data ++ L.sha256 client_data_json) sig) bad_signature

  unfoldable pub verify : Expectations → Bytes → Bytes → Bytes → Bytes → Result Verified Rejection
  verify exp public_key_sec1 authenticator_data client_data_json signature = do
    check_client_data exp client_data_json
    sign_count ← check_authenticator_data exp authenticator_data
    check_signature public_key_sec1 authenticator_data client_data_json signature
    ok (record { new_sign_count = sign_count })
