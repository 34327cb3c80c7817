-- ===== src/Software/Assumptions.antt =====
-- What the software provider relies on of the crates that it calls.
use ai_auth.Common.{ℕ, ◌+◌, ◌≤◌, ◌^◌, ◌≡◌, ◌≢◌, ◌++◌, some, ok, length}
use ai_auth.Software.{Primitives}
use ai_auth.Text.{Bytes}

-- `rand` and `aes-gcm`: a generator fills what it is asked to fill; a 256-bit key is accepted; a
-- message and associated data of at most 2^36 bytes are encrypted, with 16 bytes of tag at least; and
-- decryption gives the message back under the same associated data.
pub record IsAead (P : Primitives) : Type 0 where
  pub fills : (n : ℕ) (rng : P.Rng) → length (P.fill_bytes n rng).0 ≡ n
  pub accepts : (key : Bytes) → length key ≡ 32 → (c : P.Cipher) × (P.cipher_from_slice key ≡ ok c)
  pub encrypts :
      (c : P.Cipher) (nonce ad msg : Bytes)
      → length ad ≤ 2 ^ 36
      → length msg ≤ 2 ^ 36
      → (ct : Bytes) × (P.cipher_encrypt c nonce ad msg ≡ ok ct)
  pub tags :
      (c : P.Cipher) (nonce ad msg ct : Bytes)
      → P.cipher_encrypt c nonce ad msg ≡ ok ct
      → length msg + 16 ≤ length ct
  pub opens :
      (c : P.Cipher) (nonce ad msg ct : Bytes)
      → P.cipher_encrypt c nonce ad msg ≡ ok ct
      → P.cipher_decrypt c nonce ad ct ≡ some msg

-- `hmac`: feeding two parts is feeding their concatenation.
pub record IsStreaming (P : Primitives) : Type 0 where
  pub update_append :
      (mac : P.Mac) (a b : Bytes) → P.mac_update (P.mac_update mac a) b ≡ P.mac_update mac (a ++ b)

-- `left` and `right` are two messages with one tag under one key.
pub record Collision (P : Primitives) (left right : Bytes) : Type 0 where
  pub mac : P.Mac
  pub differ : left ≢ right
  pub agree : P.mac_finalize (P.mac_update mac left) ≡ P.mac_finalize (P.mac_update mac right)

-- `sealed` was made with the associated data `ad` and opens under `other`: a break of the cipher's
-- authenticity.
pub record Forgery (P : Primitives) (ad other sealed : Bytes) : Type 0 where
  pub cipher : P.Cipher
  pub nonce : Bytes
  pub msg : Bytes
  pub opened : Bytes
  pub ct : Bytes
  pub joined : sealed ≡ nonce ++ ct
  pub differ : other ≢ ad
  pub made : P.cipher_encrypt cipher nonce ad msg ≡ ok ct
  pub passed : P.cipher_decrypt cipher nonce other ct ≡ some opened
