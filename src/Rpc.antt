-- ===== src/Rpc.antt =====
-- crypto/src/gen/aiauth/crypto/v1/aiauth.crypto.v1.tonic.rs: what its client and its server share.
pub mod Server
pub mod Client
pub mod Routes
pub mod Remote
pub mod Served
pub mod History
use ai_auth.Proto.{
  VerifyAssertionRequest, VerifyAssertionResponse, EncryptFieldRequest, EncryptFieldResponse,
  DecryptFieldRequest, DecryptFieldResponse, BlindIndexRequest, BlindIndexResponse,
}
use ai_auth.Text.{Str, str}
use ai_auth.Wire.{Wire}

-- The methods of the service, and the prost messages of each.
pub data Method : Type 0 where
  verifying encrypting decrypting indexing : Method

abbrev pub Message : Method → Type 0
Message verifying = VerifyAssertionRequest
Message encrypting = EncryptFieldRequest
Message decrypting = DecryptFieldRequest
Message indexing = BlindIndexRequest

abbrev pub Reply : Method → Type 0
Reply verifying = VerifyAssertionResponse
Reply encrypting = EncryptFieldResponse
Reply decrypting = DecryptFieldResponse
Reply indexing = BlindIndexResponse

-- The wire of this service.
abbrev pub Tonic : Type 1
Tonic = Wire Message Reply

unfoldable pub service_name : Str
service_name = str "aiauth.crypto.v1.CryptoService"
