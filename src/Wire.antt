-- ===== src/Wire.antt =====
-- What the two files of crypto/src/gen that end in .tonic.rs call in the tonic, http and prost
-- crates, for a service with these methods and the prost messages of each.
use ai_auth.Common.{ℕ, Option, Result}
use ai_auth.Proto.{Status}
use ai_auth.Text.{Str}

-- What a peer of the connection sees of a call.
pub data Answered (A : Type 0) : Type 0 where
  answered : A → Answered A
  cut_off : Answered A

-- A transport: whether it is ready, with the text of its error, and what a request for a path
-- answers.
pub record GrpcService (Body HttpResponse S : Type 0) : Type 0 where
  pub ready : S → Result (Unit {0}) Str
  pub transport : Str → Body → S → Answered HttpResponse × S

module _ {Method : Type 0} (Message Reply : Method → Type 0) where
  -- `tonic::server::Grpc::unary` reads the message of a body, or answers in the method's place; then
  -- it writes the method's result. `tonic::client::Grpc::unary` writes a message to a body under the
  -- path and the names of the method, and reads the response.
  pub record Wire : Type 1 where
    pub CompressionEncoding : Type 0
    pub EnabledCompressionEncodings : Type 0
    pub no_encodings : EnabledCompressionEncodings
    pub enable : EnabledCompressionEncodings → CompressionEncoding → EnabledCompressionEncodings
    pub Body : Type 0
    pub HttpResponse : Type 0
    -- `http::Response::new` of an empty body, and `insert` of a header
    pub empty_response : HttpResponse
    pub insert : HttpResponse → Str → Str → HttpResponse
    pub read :
        (m : Method)
        → EnabledCompressionEncodings
        → Option ℕ
        → Body
        → Result (Message m) HttpResponse
    pub write :
        (m : Method)
        → EnabledCompressionEncodings
        → Option ℕ
        → Result (Reply m) Status
        → HttpResponse
    -- `InterceptedService::new`: a service behind an interceptor
    pub Interceptor : Type 0
    pub intercepted :
        {S : Type 0}
        → (Str → Body → S → Answered HttpResponse × S)
        → Interceptor
        → Str
        → Body
        → S
        → Answered HttpResponse × S
    -- `Endpoint::new`
    pub Destination : Type 0
    pub Endpoint : Type 0
    pub TransportError : Type 0
    pub new_endpoint : Destination → Result Endpoint TransportError
    -- `tonic::client::Grpc` without its transport
    pub Grpc : Type 0
    pub new_grpc : Grpc
    pub Uri : Type 0
    pub with_origin : Uri → Grpc
    pub send_compressed : Grpc → CompressionEncoding → Grpc
    pub accept_compressed : Grpc → CompressionEncoding → Grpc
    pub max_decoding_message_size : Grpc → ℕ → Grpc
    pub max_encoding_message_size : Grpc → ℕ → Grpc
    pub send : (m : Method) → Grpc → Str × Str → Message m → Result Body Status
    pub receive : (m : Method) → Grpc → HttpResponse → Result (Reply m) Status
    -- the status of a call whose connection ends without a response
    pub broken : Status
