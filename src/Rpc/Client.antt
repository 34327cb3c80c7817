-- ===== src/Rpc/Client.antt =====
-- crypto/src/gen/aiauth/crypto/v1/aiauth.crypto.v1.tonic.rs: the generated client.
use ai_auth.Common.{ℕ, ◌++◌, Result, ok, err, ◌>>=◌}
use ai_auth.Proto.{
  Status, unknown, VerifyAssertionRequest, VerifyAssertionResponse, EncryptFieldRequest,
  EncryptFieldResponse, DecryptFieldRequest, DecryptFieldResponse, BlindIndexRequest,
  BlindIndexResponse,
}
use ai_auth.Rpc.{Method, verifying, encrypting, decrypting, indexing, Message, Reply, Tonic}
use ai_auth.Wire.{GrpcService, answered, cut_off}
use ai_auth.Text.{Str, str}

module _ (T : Tonic) where
  pub record CryptoServiceClient (S : Type 0) : Type 0 where
    pub grpc : T.Grpc
    pub channel : GrpcService T.Body T.HttpResponse S

  module _ {S : Type 0} where
    unfoldable pub new_client : GrpcService T.Body T.HttpResponse S → CryptoServiceClient S
    new_client inner = record { grpc = T.new_grpc; channel = inner }

    -- `dial` is `Endpoint::connect`.
    unfoldable pub connect :
        (T.Endpoint → Result (GrpcService T.Body T.HttpResponse S) T.TransportError)
        → T.Destination
        → Result (CryptoServiceClient S) T.TransportError
    connect dial dst = T.new_endpoint dst >>= λ e. dial e >>= λ conn. ok (new_client conn)

    unfoldable pub with_origin : GrpcService T.Body T.HttpResponse S → T.Uri → CryptoServiceClient S
    with_origin inner origin = record { grpc = T.with_origin origin; channel = inner }

    unfoldable pub with_interceptor :
        GrpcService T.Body T.HttpResponse S → T.Interceptor → CryptoServiceClient S
    with_interceptor inner interceptor =
        new_client
          (record { ready = inner.ready; transport = T.intercepted inner.transport interceptor })

    unfoldable pub send_compressed :
        CryptoServiceClient S → T.CompressionEncoding → CryptoServiceClient S
    send_compressed c encoding = record c { grpc = T.send_compressed c.grpc encoding }

    unfoldable pub accept_compressed :
        CryptoServiceClient S → T.CompressionEncoding → CryptoServiceClient S
    accept_compressed c encoding = record c { grpc = T.accept_compressed c.grpc encoding }

    unfoldable pub max_decoding_message_size : CryptoServiceClient S → ℕ → CryptoServiceClient S
    max_decoding_message_size c limit = record c { grpc = T.max_decoding_message_size c.grpc limit }

    unfoldable pub max_encoding_message_size : CryptoServiceClient S → ℕ → CryptoServiceClient S
    max_encoding_message_size c limit = record c { grpc = T.max_encoding_message_size c.grpc limit }

    -- `ready`, then `unary` under a path and a `GrpcMethod`, as each method does.
    unfoldable pub unary :
        (m : Method)
        → CryptoServiceClient S
        → Str
        → Str × Str
        → Message m
        → S
        → Result (Reply m) Status × S
    unary m c path names q s = elim (c.channel.ready s) [
      | err e ↦ (err (unknown (str "Service was not ready: " ++ e)), s)
      | ok _ ↦ elim (T.send m c.grpc names q) [
        | err e ↦ (err e, s)
        | ok body ↦
            let (got, s') = c.channel.transport path body s in
            elim got [
              | cut_off ↦ (err T.broken, s')
              | answered response ↦ (T.receive m c.grpc response, s')
            ]
      ]
    ]

    unfoldable pub verify_assertion :
        CryptoServiceClient S
        → VerifyAssertionRequest
        → S
        → Result VerifyAssertionResponse Status × S
    verify_assertion c =
        unary verifying c (str "/aiauth.crypto.v1.CryptoService/VerifyAssertion")
          (str "aiauth.crypto.v1.CryptoService", str "VerifyAssertion")

    unfoldable pub encrypt_field :
        CryptoServiceClient S → EncryptFieldRequest → S → Result EncryptFieldResponse Status × S
    encrypt_field c =
        unary encrypting c (str "/aiauth.crypto.v1.CryptoService/EncryptField")
          (str "aiauth.crypto.v1.CryptoService", str "EncryptField")

    unfoldable pub decrypt_field :
        CryptoServiceClient S → DecryptFieldRequest → S → Result DecryptFieldResponse Status × S
    decrypt_field c =
        unary decrypting c (str "/aiauth.crypto.v1.CryptoService/DecryptField")
          (str "aiauth.crypto.v1.CryptoService", str "DecryptField")

    unfoldable pub blind_index :
        CryptoServiceClient S → BlindIndexRequest → S → Result BlindIndexResponse Status × S
    blind_index c =
        unary indexing c (str "/aiauth.crypto.v1.CryptoService/BlindIndex")
          (str "aiauth.crypto.v1.CryptoService", str "BlindIndex")
