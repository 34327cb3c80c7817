-- ===== src/Proto.antt =====
-- The messages of crypto/src/gen/aiauth/crypto/v1/aiauth.crypto.v1.rs. An enum field travels as an
-- i32, which is its 32-bit pattern here (a negative one is 2^31 or more); a `bytes` field is a list
-- of bytes and a `string` field a text. `Status` is tonic's error reply: the constructor that the
-- source calls, with its message. The enums stand in Proto/Purpose and Proto/Verdict.
pub mod Purpose
pub mod Verdict
pub mod Names
use ai_auth.Common.{ℕ, Option}
use ai_auth.Text.{Str, Bytes}

pub data Status : Type 0 where
  invalid_argument : Str → Status
  permission_denied : Str → Status
  resource_exhausted : Str → Status
  internal : Str → Status
  unknown : Str → Status

pub record RequestContext : Type 0 where
  pub tenant_id : Str
  pub subject_id : Str
  pub purpose : ℕ
  pub request_id : Str

pub record StoredCredential : Type 0 where
  pub cose_public_key : Bytes
  pub sign_count : ℕ

pub record Assertion : Type 0 where
  pub authenticator_data : Bytes
  pub client_data_json : Bytes
  pub signature : Bytes

pub record VerifyAssertionRequest : Type 0 where
  pub context : Option RequestContext
  pub rp_id : Str
  pub expected_origin : Str
  pub expected_challenge : Bytes
  pub credential : Option StoredCredential
  pub assertion : Option Assertion

pub record VerifyAssertionResponse : Type 0 where
  pub verdict : ℕ
  pub reason : Str
  pub new_sign_count : ℕ

pub record EncryptFieldRequest : Type 0 where
  pub context : Option RequestContext
  pub plaintext : Bytes
  pub wrapped_dek : Bytes

pub record EncryptFieldResponse : Type 0 where
  pub ciphertext : Bytes
  pub wrapped_dek : Bytes

pub record DecryptFieldRequest : Type 0 where
  pub context : Option RequestContext
  pub ciphertext : Bytes
  pub wrapped_dek : Bytes

pub record DecryptFieldResponse : Type 0 where
  pub plaintext : Bytes

pub record BlindIndexRequest : Type 0 where
  pub context : Option RequestContext
  pub input : Bytes

pub record BlindIndexResponse : Type 0 where
  pub index : Bytes
