-- ===== src/Tests/Launch.antt =====
-- A process that starts.
use ai_auth.Common.{
  ℕ, ◌≤◌, ◌≡◌, ◌≢◌, refl, inl, inr, ◌⊎◌, true, ok, err, List, [], ◌∷◌, ite, Result, arith,
}
use ai_auth.Profile.{balanced}
use ai_auth.Software
use ai_auth.Startup.{Environment, VarError, not_present, Started, start}
use ai_auth.Startup.Serves.{started, start-round_trip}
use ai_auth.Startup.Announced.{Up, Down, main-announces}
use ai_auth.Startup.Run.{Transport, main}
use ai_auth.Limits.Float.{nanos}
use ai_auth.Tests.Fixtures.{clear, clear-IsAead, in_order, libraries}
use ai_auth.Text.{Str, Bytes, str, Str-discrete}

-- Only the variables for the credentials and the profile are set.
unfoldable variable : Str → Result Str VarError
variable name =
    ite (Str-discrete name (str "CRYPTO_ADDR")) (err not_present)
      (ite (Str-discrete name (str "AIAUTH_PROFILE")) (ok (str "balanced")) (ok (str "f")))

abbrev machine : Environment
machine = record {
  var = variable;
  read = λ path. ok (1 ∷ []);
  SocketAddr = Str;
  parse_addr = λ s. ok s;
  debug = λ s. s;
}

abbrev up : Started Str
up = started machine (str "0.0.0.0:9090") (1 ∷ []) (1 ∷ []) (1 ∷ []) balanced

machine-up : start machine clear ≡ ok up
unfolding start variable ai_auth.Startup.listen_addr ai_auth.Startup.credential
    ai_auth.Startup.required_env Str-discrete str ai_auth.Common.ℕ_discrete
    ai_auth.Startup.must_read ai_auth.Startup.chosen_profile ai_auth.Profile.parse
    ai_auth.Profile.to_ascii_lowercase ai_auth.Profile.trim ai_auth.Profile.trim_start
    ai_auth.Profile.is_whitespace ai_auth.Profile.ascii_lower ai_auth.Profile.check
    ai_auth.Profile.Profile-discrete
machine-up = refl

-- A transport that serves until ctrl-c.
abbrev until_signal : Transport Str
until_signal = record {
  ServerTlsConfig = List Bytes;
  new_config = [];
  identity = λ c cert key. cert ∷ key ∷ c;
  client_ca_root = λ c ca. ca ∷ c;
  Server = List Bytes;
  tls_config = λ c. ok c;
  serve_with_shutdown = λ server guard addr. (true, ok tt);
  display_addr = λ a. a;
}

main-announces_example :
    Up machine until_signal clear nanos in_order libraries
      (main machine until_signal clear nanos in_order libraries)
    ⊎ Down machine until_signal clear nanos in_order libraries
        (main machine until_signal clear nanos in_order libraries)
main-announces_example = main-announces machine until_signal clear nanos in_order libraries

start-round_trip_example :
    (wrapped : Bytes) × (between : ℕ) × (sealed : Bytes) × (after : ℕ)
    × (Software.generate_wrapped_dek clear up.provider up.kek (str "a") 7 ≡ (ok wrapped, between))
    × (Software.encrypt_field clear up.provider up.kek (str "a") wrapped (1 ∷ []) between
        ≡ (ok sealed, after))
    × (Software.decrypt_field clear up.provider up.kek (str "a") wrapped sealed ≡ ok (1 ∷ []))
unfolding str ai_auth.Text.as_bytes
start-round_trip_example =
    start-round_trip machine clear clear-IsAead up (str "a") (1 ∷ []) 7 machine-up (omega arith)
      (omega arith)
