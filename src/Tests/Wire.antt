-- ===== src/Tests/Wire.antt =====
-- A wire that carries each message as it is, and a Guard behind it.
use ai_auth.Common.{ℕ, ◌≡◌, refl, List, [], ◌∷◌, none, Result, ok, err}
use ai_auth.Limits.Bound.{IsWellFormed}
use ai_auth.Limits.Float.{nanos}
use ai_auth.Limits.Bound.{new-IsWellFormed}
use ai_auth.Proto.{
  Status, internal, VerifyAssertionRequest, VerifyAssertionResponse, EncryptFieldRequest,
  EncryptFieldResponse, DecryptFieldRequest, DecryptFieldResponse, BlindIndexRequest,
  BlindIndexResponse,
}
use ai_auth.Rpc.{Method, verifying, encrypting, decrypting, indexing, Message, Reply, Tonic}
use ai_auth.Rpc.Remote.{guard_service, connected, invoke, Carries, invoke_guard}
use ai_auth.Rpc.Routes.{path, method, Dispatched, call_lem}
use ai_auth.Rpc.Served.{Arrival, served, served-IsWellFormed}
use ai_auth.Rpc.Server.{CryptoServiceServer, call}
use ai_auth.Service.Guard.{State, Outcome, returned}
use ai_auth.Tests.Fixtures.{in_order-perm}
use ai_auth.Tests.Requests.{g, ask, bare, anonymous, first}
use ai_auth.Text.{Str, str}

data Content : Type 0 where
  verifies : VerifyAssertionRequest → Content
  encrypts : EncryptFieldRequest → Content
  decrypts : DecryptFieldRequest → Content
  indexes : BlindIndexRequest → Content

data Page : Type 0 where
  blank : Page
  header : Page → Str → Str → Page
  verified : Result VerifyAssertionResponse Status → Page
  encrypted : Result EncryptFieldResponse Status → Page
  decrypted : Result DecryptFieldResponse Status → Page
  indexed : Result BlindIndexResponse Status → Page

abbrev read_content : (m : Method) → Content → Result (Message m) Page
read_content verifying (verifies q) = ok q
read_content encrypting (encrypts q) = ok q
read_content decrypting (decrypts q) = ok q
read_content indexing (indexes q) = ok q
read_content m c = err blank

abbrev write_content : (m : Method) → Message m → Content
write_content verifying = verifies
write_content encrypting = encrypts
write_content decrypting = decrypts
write_content indexing = indexes

abbrev write_page : (m : Method) → Result (Reply m) Status → Page
write_page verifying = verified
write_page encrypting = encrypted
write_page decrypting = decrypted
write_page indexing = indexed

abbrev read_page : (m : Method) → Page → Result (Reply m) Status
read_page verifying (verified r) = r
read_page encrypting (encrypted r) = r
read_page decrypting (decrypted r) = r
read_page indexing (indexed r) = r
read_page m p = err (internal [])

abbrev wire : Tonic
wire = record {
  CompressionEncoding = ℕ;
  EnabledCompressionEncodings = List ℕ;
  no_encodings = [];
  enable = λ es e. e ∷ es;
  Body = Content;
  HttpResponse = Page;
  empty_response = blank;
  insert = header;
  read = λ m es limit body. read_content m body;
  write = λ m es limit r. write_page m r;
  Interceptor = Unit;
  intercepted = λ service i. service;
  Destination = ℕ;
  Endpoint = ℕ;
  TransportError = Unit;
  new_endpoint = ok;
  Grpc = ℕ;
  new_grpc = 0;
  Uri = ℕ;
  with_origin = λ origin. origin;
  send_compressed = λ c e. c;
  accept_compressed = λ c e. c;
  max_decoding_message_size = λ c n. n;
  max_encoding_message_size = λ c n. n;
  send = λ m c names q. ok (write_content m q);
  receive = λ m c p. read_page m p;
  broken = internal (str "broken");
}

abbrev server : CryptoServiceServer wire (State g)
server = record {
  inner = guard_service g 0;
  accept_compression_encodings = [];
  send_compression_encodings = [];
  max_decoding_message_size = none;
  max_encoding_message_size = none;
}

carries : Carries wire 0 server indexing ask first
carries = record { body = indexes ask; sent = refl; read = refl; received = λ r _. refl }

invoke_guard_example :
    (r : Result BlindIndexResponse Status) × (method (guard_service g 0) indexing ask first).0
      ≡ returned r
    × invoke wire indexing (connected wire 0 server) ask first
      ≡ (r, (method (guard_service g 0) indexing ask first).1)
invoke_guard_example = invoke_guard wire g 0 0 server indexing ask first refl carries

call_lem_example :
    Dispatched wire server
      (path verifying)
      (verifies bare)
      first
      (call wire server (path verifying) (verifies bare) first)
call_lem_example = call_lem wire server (path verifying) (verifies bare) first

abbrev arrivals : List (Arrival wire)
arrivals =
    record { now = 4; path = path indexing; body = indexes ask }
    ∷ record { now = 9; path = str "/"; body = indexes ask }
    ∷ record { now = 2; path = path decrypting; body = decrypts anonymous }
    ∷ []

fresh : IsWellFormed first.limiter
unfolding ai_auth.Service.Guard.start ai_auth.Limits.default_limiter
fresh = new-IsWellFormed nanos 120 (nanos.from 20)

served-IsWellFormed_example : IsWellFormed (served wire g server arrivals first).limiter
served-IsWellFormed_example = served-IsWellFormed wire g in_order-perm server arrivals first fresh
