-- ===== src/Tests/Requests.antt =====
-- Each kind of request at a running guard.
use ai_auth.Common.{
  ℕ, ◌≡◌, ◌≢◌, refl, inl, inr, true, false, ◌++◌, List, [], ◌∷◌, none, some, ok, err, replicate,
  arith,
}
use ai_auth.Limits
use ai_auth.Limits.{RateLimiter}
use ai_auth.Limits.Float.{nanos}
use ai_auth.Proto.{
  RequestContext, BlindIndexRequest, BlindIndexResponse, VerifyAssertionRequest,
  DecryptFieldRequest,
}
use ai_auth.Service.Gate.{Authorised, Rejects, serve-Authorised, serve-Rejects}
use ai_auth.Service.Guard.{Guard, State, start, returned, panicked}
use ai_auth.Service.Rows.{guard}
use ai_auth.Service.Serve.{serve, decrypts, indexes}
use ai_auth.Software.{index_parts}
use ai_auth.Software.Frame.{concat}
use ai_auth.Text.{Str, Bytes, str}
use ai_auth.Tests.Fixtures.{clear, clear-IsAead, index_key, kek, box, libraries, in_order}

abbrev pub g : Guard
g = guard clear clear-IsAead box nanos in_order libraries index_key kek

abbrev pub caller : RequestContext
caller = record { tenant_id = str "a"; subject_id = []; purpose = 4; request_id = str "r" }

abbrev pub ask : BlindIndexRequest
ask = record { context = some caller; input = 1 ∷ [] }

abbrev reply : BlindIndexResponse
reply = record { index = replicate 32 0x5a ++ concat (index_parts (str "a") (1 ∷ [])) }

abbrev pub first : State g
first = start g 7

serve-Authorised_example : Authorised g 0 (indexes ask) first
unfolding serve ai_auth.Service.Handlers.encrypt_field ai_auth.Service.Handlers.blind_index
    ai_auth.Service.Handlers.blind_index_body ai_auth.Software.blind_index ai_auth.Software.updates
    ai_auth.Software.index_parts ai_auth.Software.domain_blind_index
    ai_auth.Service.Handlers.decrypt_field ai_auth.Service.Guard.gated ai_auth.Context.validate str
    ai_auth.Proto.Purpose.Purpose-discrete ai_auth.Proto.Purpose.from_i32
    ai_auth.Service.Guard.within_limits ai_auth.Limits.allow ai_auth.Limits.charge_global
    ai_auth.Limits.take_token ai_auth.Limits.or_insert ai_auth.HashMap.lookup start
    ai_auth.Limits.default_limiter ai_auth.Limits.charge_tenant ai_auth.Limits.make_room
    ai_auth.Service.Handlers.encrypt_field_body ai_auth.Service.Handlers.seal_row
    ai_auth.Software.generate_wrapped_dek ai_auth.Software.kek ai_auth.Provider.KeyHandle-discrete
    ai_auth.Text.Str-discrete ai_auth.Common.ℕ_discrete ai_auth.Software.aead_seal
    ai_auth.Software.encrypt_field ai_auth.Software.unwrap_dek ai_auth.Software.aead_open
    ai_auth.Words.u64_to_be_bytes ai_auth.Text.as_bytes
serve-Authorised_example = serve-Authorised g 0 (indexes ask) first reply refl

abbrev pub anonymous : DecryptFieldRequest
anonymous = record { context = none; ciphertext = []; wrapped_dek = [] }

serve-Rejects_example : Rejects g first (serve g 0 (decrypts anonymous) first)
serve-Rejects_example = serve-Rejects g 0 (decrypts anonymous) first (λ a. a)

abbrev pub bare : VerifyAssertionRequest
bare = record {
  context =
      some (record { tenant_id = str "a"; subject_id = []; purpose = 1; request_id = str "r" });
  rp_id = [];
  expected_origin = [];
  expected_challenge = [];
  credential = none;
  assertion = none;
}

-- The operation's ceiling is used up.
abbrev spent : RateLimiter nanos
spent = record {
  buckets = [];
  global = (str "blind_index", record { tokens = 0; last = 5 }) ∷ [];
  capacity = 120;
  refill_per_sec = 20;
  global_capacity = 6000;
  global_refill_per_sec = 1000;
  max_buckets = 10_000;
}

abbrev tired : State g
tired = record { limiter = spent; held = 7; stdout = []; stderr = [] }
