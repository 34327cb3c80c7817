-- ===== src/Rpc/Server.antt =====
-- crypto/src/gen/aiauth/crypto/v1/aiauth.crypto.v1.tonic.rs: the trait and the generated server.
use ai_auth.Common.{ℕ, Option, none, some, ok, err, ite}
use ai_auth.Proto.{
  VerifyAssertionRequest, VerifyAssertionResponse, EncryptFieldRequest, EncryptFieldResponse,
  DecryptFieldRequest, DecryptFieldResponse, BlindIndexRequest, BlindIndexResponse,
}
use ai_auth.Rpc.{Method, verifying, encrypting, decrypting, indexing, Message, Reply, Tonic}
use ai_auth.Wire.{Answered, answered, cut_off}
use ai_auth.Service.Guard.{Outcome, returned, panicked}
use ai_auth.Text.{Str, str, Str-discrete}

-- The trait, over the state that its methods share.
pub record CryptoService (S : Type 0) : Type 0 where
  pub verify_assertion : VerifyAssertionRequest → S → Outcome VerifyAssertionResponse × S
  pub encrypt_field : EncryptFieldRequest → S → Outcome EncryptFieldResponse × S
  pub decrypt_field : DecryptFieldRequest → S → Outcome DecryptFieldResponse × S
  pub blind_index : BlindIndexRequest → S → Outcome BlindIndexResponse × S

-- The arms of `match req.uri().path()`.
unfoldable pub route : Str → Option Method
route p =
    ite (Str-discrete p (str "/aiauth.crypto.v1.CryptoService/VerifyAssertion")) (some verifying) (
      ite (Str-discrete p (str "/aiauth.crypto.v1.CryptoService/EncryptField")) (some encrypting) (
        ite (Str-discrete p (str "/aiauth.crypto.v1.CryptoService/DecryptField")) (some decrypting)
          (ite (Str-discrete p (str "/aiauth.crypto.v1.CryptoService/BlindIndex")) (some indexing)
            none)))

module _ (T : Tonic) where
  pub record CryptoServiceServer (S : Type 0) : Type 0 where
    pub inner : CryptoService S
    pub accept_compression_encodings : T.EnabledCompressionEncodings
    pub send_compression_encodings : T.EnabledCompressionEncodings
    pub max_decoding_message_size : Option ℕ
    pub max_encoding_message_size : Option ℕ

  -- The arm of an unknown path: grpc-status 12 with tonic's content type.
  unfoldable pub unimplemented : T.HttpResponse
  unimplemented =
      T.insert (T.insert T.empty_response (str "grpc-status") (str "12")) (str "content-type")
        (str "application/grpc")

  module _ {S : Type 0} where
    unfoldable pub from_arc : CryptoService S → CryptoServiceServer S
    from_arc inner = record {
      inner = inner;
      accept_compression_encodings = T.no_encodings;
      send_compression_encodings = T.no_encodings;
      max_decoding_message_size = none;
      max_encoding_message_size = none;
    }

    unfoldable pub new_server : CryptoService S → CryptoServiceServer S
    new_server inner = from_arc inner

    unfoldable pub accept_compressed :
        CryptoServiceServer S → T.CompressionEncoding → CryptoServiceServer S
    accept_compressed s encoding = record s {
      accept_compression_encodings = T.enable s.accept_compression_encodings encoding;
    }

    unfoldable pub send_compressed :
        CryptoServiceServer S → T.CompressionEncoding → CryptoServiceServer S
    send_compressed s encoding = record s {
      send_compression_encodings = T.enable s.send_compression_encodings encoding;
    }

    unfoldable pub max_decoding_message_size : CryptoServiceServer S → ℕ → CryptoServiceServer S
    max_decoding_message_size s limit = record s { max_decoding_message_size = some limit }

    unfoldable pub max_encoding_message_size : CryptoServiceServer S → ℕ → CryptoServiceServer S
    max_encoding_message_size s limit = record s { max_encoding_message_size = some limit }

    -- `grpc.unary(method, req)`, with the server's configuration.
    unfoldable pub unary :
        (m : Method)
        → CryptoServiceServer S
        → (Message m → S → Outcome (Reply m) × S)
        → T.Body
        → S
        → Answered T.HttpResponse × S
    unary m server method body s =
        elim (T.read m server.accept_compression_encodings server.max_decoding_message_size body) [
          | err response ↦ (answered response, s)
          | ok q ↦
              let (outcome, s') = method q s in
              elim outcome [
                | panicked ↦ (cut_off, s')
                | returned r ↦ (
                  answered (
                      T.write m server.send_compression_encodings server.max_encoding_message_size
                        r),
                  s',
                )
              ]
        ]

    -- The four arms of a known path, each with its `…Svc` as the method.
    unfoldable pub verify_assertion_arm :
        CryptoServiceServer S → T.Body → S → Answered T.HttpResponse × S
    verify_assertion_arm server = unary verifying server server.inner.verify_assertion

    unfoldable pub encrypt_field_arm :
        CryptoServiceServer S → T.Body → S → Answered T.HttpResponse × S
    encrypt_field_arm server = unary encrypting server server.inner.encrypt_field

    unfoldable pub decrypt_field_arm :
        CryptoServiceServer S → T.Body → S → Answered T.HttpResponse × S
    decrypt_field_arm server = unary decrypting server server.inner.decrypt_field

    unfoldable pub blind_index_arm :
        CryptoServiceServer S → T.Body → S → Answered T.HttpResponse × S
    blind_index_arm server = unary indexing server server.inner.blind_index

    -- `Service::call`
    unfoldable pub call : CryptoServiceServer S → Str → T.Body → S → Answered T.HttpResponse × S
    call server p body s = elim (route p) [
      | none ↦ (answered unimplemented, s)
      | some verifying ↦ verify_assertion_arm server body s
      | some encrypting ↦ encrypt_field_arm server body s
      | some decrypting ↦ decrypt_field_arm server body s
      | some indexing ↦ blind_index_arm server body s
    ]

    unfoldable pub with_interceptor :
        CryptoService S → T.Interceptor → Str → T.Body → S → Answered T.HttpResponse × S
    with_interceptor inner interceptor = T.intercepted (call (new_server inner)) interceptor

    -- `Clone`: the copy shares the implementation behind its `Arc`.
    unfoldable pub clone : CryptoServiceServer S → CryptoServiceServer S
    clone s = record {
      inner = s.inner;
      accept_compression_encodings = s.accept_compression_encodings;
      send_compression_encodings = s.send_compression_encodings;
      max_decoding_message_size = s.max_decoding_message_size;
      max_encoding_message_size = s.max_encoding_message_size;
    }
