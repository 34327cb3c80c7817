-- ===== src/Risk/Client.antt =====
-- crypto/src/gen/aiauth/risk/v1/aiauth.risk.v1.tonic.rs: the generated client.
use ai_auth.Common.{ℕ, ◌++◌, Result, ok, err, ◌>>=◌}
use ai_auth.Proto.{Status, unknown}
use ai_auth.Risk.{scoring, ScoreRequest, ScoreResponse, Tonic}
use ai_auth.Text.{str}
use ai_auth.Wire.{GrpcService, answered, cut_off}

module _ {f64 : Type 0} (T : Tonic f64) where
  pub record RiskServiceClient (S : Type 0) : Type 0 where
    pub grpc : T.Grpc
    pub channel : GrpcService T.Body T.HttpResponse S

  module _ {S : Type 0} where
    unfoldable pub new_client : GrpcService T.Body T.HttpResponse S → RiskServiceClient S
    new_client inner = record { grpc = T.new_grpc; channel = inner }

    -- `dial` is `Endpoint::connect`.
    unfoldable pub connect :
        (T.Endpoint → Result (GrpcService T.Body T.HttpResponse S) T.TransportError)
        → T.Destination
        → Result (RiskServiceClient S) T.TransportError
    connect dial dst = T.new_endpoint dst >>= λ e. dial e >>= λ conn. ok (new_client conn)

    unfoldable pub with_origin : GrpcService T.Body T.HttpResponse S → T.Uri → RiskServiceClient S
    with_origin inner origin = record { grpc = T.with_origin origin; channel = inner }

    unfoldable pub with_interceptor :
        GrpcService T.Body T.HttpResponse S → T.Interceptor → RiskServiceClient S
    with_interceptor inner interceptor =
        new_client
          (record { ready = inner.ready; transport = T.intercepted inner.transport interceptor })

    unfoldable pub send_compressed :
        RiskServiceClient S → T.CompressionEncoding → RiskServiceClient S
    send_compressed c encoding = record c { grpc = T.send_compressed c.grpc encoding }

    unfoldable pub accept_compressed :
        RiskServiceClient S → T.CompressionEncoding → RiskServiceClient S
    accept_compressed c encoding = record c { grpc = T.accept_compressed c.grpc encoding }

    unfoldable pub max_decoding_message_size : RiskServiceClient S → ℕ → RiskServiceClient S
    max_decoding_message_size c limit = record c { grpc = T.max_decoding_message_size c.grpc limit }

    unfoldable pub max_encoding_message_size : RiskServiceClient S → ℕ → RiskServiceClient S
    max_encoding_message_size c limit = record c { grpc = T.max_encoding_message_size c.grpc limit }

    unfoldable pub score :
        RiskServiceClient S → ScoreRequest → S → Result (ScoreResponse f64) Status × S
    score c request s = elim (c.channel.ready s) [
      | err e ↦ (err (unknown (str "Service was not ready: " ++ e)), s)
      | ok _ ↦
          elim (T.send scoring c.grpc (str "aiauth.risk.v1.RiskService", str "Score") request) [
            | err e ↦ (err e, s)
            | ok body ↦
                let (got, s') =
                  c.channel.transport (str "/aiauth.risk.v1.RiskService/Score") body s in
                elim got [
                  | cut_off ↦ (err T.broken, s')
                  | answered response ↦ (T.receive scoring c.grpc response, s')
                ]
          ]
    ]
