-- ===== src/Service/Serve.antt =====
-- The trait `CryptoService` as the Guard implements it: one handler for each of its four requests.
use ai_auth.Common.{ℕ, Bool, true, false, Option}
use ai_auth.Proto.{
  RequestContext, VerifyAssertionRequest, VerifyAssertionResponse, EncryptFieldRequest,
  EncryptFieldResponse, DecryptFieldRequest, DecryptFieldResponse, BlindIndexRequest,
  BlindIndexResponse,
}
use ai_auth.Proto.Purpose.{Purpose}
use ai_auth.Service.Guard.{Guard, Handler}
use ai_auth.Service.Handlers.{verify_assertion, encrypt_field, decrypt_field, blind_index}
use ai_auth.Text.{Str, str}

pub data Request : Type 0 where
  verifies : VerifyAssertionRequest → Request
  encrypts : EncryptFieldRequest → Request
  decrypts : DecryptFieldRequest → Request
  indexes : BlindIndexRequest → Request

abbrev pub Response : Request → Type 0
Response (verifies m) = VerifyAssertionResponse
Response (encrypts m) = EncryptFieldResponse
Response (decrypts m) = DecryptFieldResponse
Response (indexes m) = BlindIndexResponse

abbrev pub context : Request → Option RequestContext
context (verifies m) = m.context
context (encrypts m) = m.context
context (decrypts m) = m.context
context (indexes m) = m.context

-- The name under which a request is audited and rated, the purpose that it must state, and whether
-- it must name a subject.
abbrev pub operation : Request → Str
operation (verifies m) = str "verify_assertion"
operation (encrypts m) = str "encrypt_field"
operation (decrypts m) = str "decrypt_field"
operation (indexes m) = str "blind_index"

abbrev pub purpose : Request → Purpose
purpose (verifies m) = Purpose.passkey_login
purpose (encrypts m) = Purpose.row_encrypt
purpose (decrypts m) = Purpose.row_decrypt
purpose (indexes m) = Purpose.blind_index

abbrev pub subject_required : Request → Bool
subject_required (verifies m) = false
subject_required (encrypts m) = true
subject_required (decrypts m) = true
subject_required (indexes m) = false

unfoldable pub serve : (g : Guard) → ℕ → (q : Request) → Handler g (Response q)
serve g now (verifies m) = verify_assertion g now m
serve g now (encrypts m) = encrypt_field g now m
serve g now (decrypts m) = decrypt_field g now m
serve g now (indexes m) = blind_index g now m
