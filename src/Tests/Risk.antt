-- ===== src/Tests/Risk.antt =====
-- A wire that carries each message of the risk service as it is, and a scorer behind it that counts
-- its calls.
use ai_auth.Common.{ℕ, ◌+◌, ◌≡◌, refl, List, [], ◌∷◌, none, some, Result, ok, err}
use ai_auth.Proto.{Status, internal}
use ai_auth.Risk.{
  Method, scoring, Message, Reply, ScoreRequest, ScoreResponse, RiskAssessment, Tonic,
}
use ai_auth.Risk.Client.{score}
use ai_auth.Risk.Remote.{connected, Carries, heard, score_remote}
use ai_auth.Risk.Server.{RiskServiceServer}
use ai_auth.Service.Guard.{returned}
use ai_auth.Text.{Str, str}

data Page : Type 0 where
  blank : Page
  header : Page → Str → Str → Page
  scored : Result (ScoreResponse ℕ) Status → Page

abbrev read_content : (m : Method) → ScoreRequest → Result (Message m) Page
read_content scoring q = ok q

abbrev write_content : (m : Method) → Message m → ScoreRequest
write_content scoring q = q

abbrev write_page : (m : Method) → Result (Reply ℕ m) Status → Page
write_page scoring = scored

abbrev read_page : (m : Method) → Page → Result (Reply ℕ m) Status
read_page scoring (scored r) = r
read_page scoring p = err (internal [])

abbrev wire : Tonic ℕ
wire = record {
  CompressionEncoding = ℕ;
  EnabledCompressionEncodings = List ℕ;
  no_encodings = [];
  enable = λ es e. e ∷ es;
  Body = ScoreRequest;
  HttpResponse = Page;
  empty_response = blank;
  insert = header;
  read = λ m es limit body. read_content m body;
  write = λ m es limit r. write_page m r;
  Interceptor = Unit;
  intercepted = λ service i. service;
  Destination = ℕ;
  Endpoint = ℕ;
  TransportError = Unit;
  new_endpoint = ok;
  Grpc = ℕ;
  new_grpc = 0;
  Uri = ℕ;
  with_origin = λ origin. origin;
  send_compressed = λ c e. c;
  accept_compressed = λ c e. c;
  max_decoding_message_size = λ c n. n;
  max_encoding_message_size = λ c n. n;
  send = λ m c names q. ok (write_content m q);
  receive = λ m c p. read_page m p;
  broken = internal (str "broken");
}

abbrev attempt : ScoreRequest
attempt = record {
  tenant_id = str "a";
  subject_id = str "u";
  request_id = str "r";
  client_ip = [];
  user_agent = [];
  device_fingerprint = [];
  attempted_at_unix_ms = 7;
  country_code = str "KH";
}

abbrev assessment : RiskAssessment ℕ
assessment = record {
  score = 1;
  band = 3;
  reasons = [];
  model_version = str "m";
  assessed_at_unix_ms = 8;
}

abbrev server : RiskServiceServer wire ℕ
server = record {
  inner = record {
    score = λ q s. (returned (ok (record { assessment = some assessment })), s + 1);
  };
  accept_compression_encodings = [];
  send_compression_encodings = [];
  max_decoding_message_size = none;
  max_encoding_message_size = none;
}

carries : Carries wire 0 server attempt 4
carries = record { body = attempt; sent = refl; read = refl; received = λ r _. refl }

score_remote_example :
    score wire (connected wire 0 server) attempt 4
    ≡ (heard wire (server.inner.score attempt 4).0, (server.inner.score attempt 4).1)
score_remote_example = score_remote wire 0 server attempt 4 carries
