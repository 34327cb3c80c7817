-- ===== src/Software.antt =====
-- crypto/src/providers/software.rs: envelope encryption and blind indexes over primitives that the
-- repository takes from other crates. `Primitives` is those: the generator, AES-256-GCM and HMAC.
pub mod Assumptions
pub mod Frame
pub mod Sealed
pub mod Envelope
pub mod BlindIndex
use ai_auth.Common.{
  ℕ, Bool, false, ◌++◌, List, [], ◌∷◌, Option, none, some, Result, ok, err, ◌>>=◌, ok_or, map_err,
  length, leb, take, drop, if◌then◌else◌,
}
use ai_auth.HashMap.{lookup, insert}
use ai_auth.Provider.{
  KeyHandle, KeyHandle-discrete, ProviderError, unknown_key, backend, decrypt, ProviderAttestation,
  WrappedDek, CryptoProvider,
}
use ai_auth.Text.{Str, Bytes, str, as_bytes, len}
use ai_auth.Words.{u64_to_be_bytes}

-- The errors of other crates are texts, as `to_string` gives them.
pub record Primitives : Type 1 where
  pub Rng : Type 0
  pub fill_bytes : ℕ → Rng → Bytes × Rng
  pub Cipher : Type 0
  pub cipher_from_slice : Bytes → Result Cipher Str
  -- cipher, nonce, associated data, message
  pub cipher_encrypt : Cipher → Bytes → Bytes → Bytes → Result Bytes Str
  pub cipher_decrypt : Cipher → Bytes → Bytes → Bytes → Option Bytes
  pub Mac : Type 0
  pub mac_from_slice : Bytes → Result Mac Str
  pub mac_update : Mac → Bytes → Mac
  pub mac_finalize : Mac → Bytes
  -- CARGO_PKG_VERSION of the build
  pub package_version : Str

unfoldable pub domain_blind_index : Bytes
domain_blind_index = as_bytes (str "aiauth/blind-index/v1")

unfoldable pub domain_dek_wrap : Bytes
domain_dek_wrap = as_bytes (str "aiauth/dek-wrap/v1")

unfoldable pub domain_field : Bytes
domain_field = as_bytes (str "aiauth/field/v1")

abbrev pub nonce_len : ℕ
nonce_len = 12

abbrev pub dek_len : ℕ
dek_len = 32

unfoldable pub aad : Bytes → Str → Bytes
aad domain tenant_id = domain ++ u64_to_be_bytes (len tenant_id) ++ as_bytes tenant_id

pub record SoftwareProvider : Type 0 where
  pub keys : List (KeyHandle × Bytes)

unfoldable pub new : SoftwareProvider
new = record { keys = [] }

unfoldable pub with_key : SoftwareProvider → KeyHandle → Bytes → SoftwareProvider
with_key p handle material = record p { keys = insert KeyHandle-discrete handle material p.keys }

unfoldable pub kek : SoftwareProvider → KeyHandle → Result Bytes ProviderError
kek p handle = ok_or (lookup KeyHandle-discrete handle p.keys) (unknown_key handle)

-- What the HMAC of a blind index is fed, in the order of the updates.
unfoldable pub index_parts : Str → Bytes → List Bytes
index_parts tenant_id input =
    domain_blind_index
    ∷ u64_to_be_bytes (len tenant_id)
    ∷ as_bytes tenant_id
    ∷ u64_to_be_bytes (length input)
    ∷ input
    ∷ []

module _ (P : Primitives) where
  open P use {Rng, Mac}

  unfoldable pub aead_seal : Bytes → Bytes → Bytes → Rng → Result Bytes ProviderError × Rng
  aead_seal key ad plaintext rng = elim (P.cipher_from_slice key) [
    | err e ↦ (err (backend e), rng)
    | ok cipher ↦
        let (nonce, rng') = P.fill_bytes nonce_len rng in
        (
          do ct ← map_err (P.cipher_encrypt cipher nonce ad plaintext) backend; ok (nonce ++ ct),
          rng',
        )
  ]

  unfoldable pub aead_open : Bytes → Bytes → Bytes → Result Bytes ProviderError
  aead_open key ad sealed = if leb (length sealed) nonce_len then err decrypt else (do
    cipher ← map_err (P.cipher_from_slice key) backend
    ok_or (P.cipher_decrypt cipher (take nonce_len sealed) ad (drop nonce_len sealed)) decrypt)

  unfoldable pub unwrap_dek :
      SoftwareProvider → KeyHandle → Str → Bytes → Result Bytes ProviderError
  unwrap_dek p handle tenant_id wrapped = do
    k ← kek p handle
    aead_open k (aad domain_dek_wrap tenant_id) wrapped

  unfoldable pub generate_wrapped_dek :
      SoftwareProvider → KeyHandle → Str → Rng → Result WrappedDek ProviderError × Rng
  generate_wrapped_dek p handle tenant_id rng = elim (kek p handle) [
    | err e ↦ (err e, rng)
    | ok k ↦
        let (dek, rng') = P.fill_bytes dek_len rng in
        aead_seal k (aad domain_dek_wrap tenant_id) dek rng'
  ]

  unfoldable pub encrypt_field :
      SoftwareProvider → KeyHandle → Str → Bytes → Bytes → Rng → Result Bytes ProviderError × Rng
  encrypt_field p handle tenant_id wrapped_dek plaintext rng =
      elim (unwrap_dek p handle tenant_id wrapped_dek) [
        | err e ↦ (err e, rng)
        | ok dek ↦ aead_seal dek (aad domain_field tenant_id) plaintext rng
      ]

  unfoldable pub decrypt_field :
      SoftwareProvider → KeyHandle → Str → Bytes → Bytes → Result Bytes ProviderError
  decrypt_field p handle tenant_id wrapped_dek ciphertext = do
    dek ← unwrap_dek p handle tenant_id wrapped_dek
    aead_open dek (aad domain_field tenant_id) ciphertext

  unfoldable pub updates : Mac → List Bytes → Mac
  updates mac [] = mac
  updates mac (part ∷ parts) = updates (P.mac_update mac part) parts

  unfoldable pub blind_index :
      SoftwareProvider → KeyHandle → Str → Bytes → Result Bytes ProviderError
  blind_index p handle tenant_id input = do
    material ← ok_or (lookup KeyHandle-discrete handle p.keys) (unknown_key handle)
    mac ← map_err (P.mac_from_slice material) backend
    ok (P.mac_finalize (updates mac (index_parts tenant_id input)))

  unfoldable pub attestation : ProviderAttestation
  attestation = record {
    name = str "RustCrypto (hmac, sha2)";
    version = P.package_version;
    fips = false;
    certificate = none;
  }

  -- `impl CryptoProvider for SoftwareProvider`: the state is the generator's.
  abbrev pub software : SoftwareProvider → CryptoProvider
  software p = record {
    State = Rng;
    generate_wrapped_dek = generate_wrapped_dek p;
    encrypt_field = encrypt_field p;
    decrypt_field = λ handle tenant_id wrapped_dek ciphertext rng.
        (decrypt_field p handle tenant_id wrapped_dek ciphertext, rng);
    blind_index = λ handle tenant_id input rng. (blind_index p handle tenant_id input, rng);
    attestation = attestation;
  }
