-- ===== src/Risk/Server.antt =====
-- crypto/src/gen/aiauth/risk/v1/aiauth.risk.v1.tonic.rs: the trait and the generated server.
use ai_auth.Common.{ℕ, Option, none, some, ok, err, ite}
use ai_auth.Risk.{Method, scoring, ScoreRequest, ScoreResponse, Tonic}
use ai_auth.Service.Guard.{Outcome, returned, panicked}
use ai_auth.Text.{Str, str, Str-discrete}
use ai_auth.Wire.{Answered, answered, cut_off}

-- The trait, over the state that its method keeps.
pub record RiskService (f64 : Type 0) (S : Type 0) : Type 0 where
  pub score : ScoreRequest → S → Outcome (ScoreResponse f64) × S

-- The arms of `match req.uri().path()`.
unfoldable pub route : Str → Option Method
route p = ite (Str-discrete p (str "/aiauth.risk.v1.RiskService/Score")) (some scoring) none

module _ {f64 : Type 0} (T : Tonic f64) where
  pub record RiskServiceServer (S : Type 0) : Type 0 where
    pub inner : RiskService f64 S
    pub accept_compression_encodings : T.EnabledCompressionEncodings
    pub send_compression_encodings : T.EnabledCompressionEncodings
    pub max_decoding_message_size : Option ℕ
    pub max_encoding_message_size : Option ℕ

  -- The arm of an unknown path: grpc-status 12 with tonic's content type.
  unfoldable pub unimplemented : T.HttpResponse
  unimplemented =
      T.insert (T.insert T.empty_response (str "grpc-status") (str "12")) (str "content-type")
        (str "application/grpc")

  module _ {S : Type 0} where
    unfoldable pub from_arc : RiskService f64 S → RiskServiceServer S
    from_arc inner = record {
      inner = inner;
      accept_compression_encodings = T.no_encodings;
      send_compression_encodings = T.no_encodings;
      max_decoding_message_size = none;
      max_encoding_message_size = none;
    }

    unfoldable pub new_server : RiskService f64 S → RiskServiceServer S
    new_server inner = from_arc inner

    unfoldable pub accept_compressed :
        RiskServiceServer S → T.CompressionEncoding → RiskServiceServer S
    accept_compressed s encoding = record s {
      accept_compression_encodings = T.enable s.accept_compression_encodings encoding;
    }

    unfoldable pub send_compressed :
        RiskServiceServer S → T.CompressionEncoding → RiskServiceServer S
    send_compressed s encoding = record s {
      send_compression_encodings = T.enable s.send_compression_encodings encoding;
    }

    unfoldable pub max_decoding_message_size : RiskServiceServer S → ℕ → RiskServiceServer S
    max_decoding_message_size s limit = record s { max_decoding_message_size = some limit }

    unfoldable pub max_encoding_message_size : RiskServiceServer S → ℕ → RiskServiceServer S
    max_encoding_message_size s limit = record s { max_encoding_message_size = some limit }

    -- The arm of the known path: `grpc.unary(ScoreSvc(inner), req)`, with the configuration.
    unfoldable pub score_arm : RiskServiceServer S → T.Body → S → Answered T.HttpResponse × S
    score_arm server body s =
        elim (T.read scoring server.accept_compression_encodings server.max_decoding_message_size
          body) [
            | err response ↦ (answered response, s)
            | ok q ↦
                let (outcome, s') = server.inner.score q s in
                elim outcome [
                  | panicked ↦ (cut_off, s')
                  | returned r ↦ (
                    answered (
                        T.write scoring server.send_compression_encodings
                          server.max_encoding_message_size r),
                    s',
                  )
                ]
          ]

    -- `Service::call`
    unfoldable pub call : RiskServiceServer S → Str → T.Body → S → Answered T.HttpResponse × S
    call server p body s = elim (route p) [
      | none ↦ (answered unimplemented, s)
      | some scoring ↦ score_arm server body s
    ]

    unfoldable pub with_interceptor :
        RiskService f64 S → T.Interceptor → Str → T.Body → S → Answered T.HttpResponse × S
    with_interceptor inner interceptor = T.intercepted (call (new_server inner)) interceptor

    -- `Clone`: the copy shares the implementation behind its `Arc`.
    unfoldable pub clone : RiskServiceServer S → RiskServiceServer S
    clone s = record {
      inner = s.inner;
      accept_compression_encodings = s.accept_compression_encodings;
      send_compression_encodings = s.send_compression_encodings;
      max_decoding_message_size = s.max_decoding_message_size;
      max_encoding_message_size = s.max_encoding_message_size;
    }
