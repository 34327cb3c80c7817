-- ===== src/Startup/Run.antt =====
-- crypto/src/main.rs: `main` from its start to its end. `Transport` is what it calls in tonic and
-- tokio. The result of `main` stands beside what it prints on stdout; `Fatal` holds the line that a
-- refused start prints on stderr.
use ai_auth.Common.{Bool, true, false, ◌++◌, List, [], Result, ok, err, map_err, if◌then◌else◌}
use ai_auth.Limits.{Key, Bucket}
use ai_auth.Limits.Float.{F64}
use ai_auth.Profile
use ai_auth.Profile.{Profile}
use ai_auth.Provider.{ProviderAttestation}
use ai_auth.Service.Guard.{Guard}
use ai_auth.Software
use ai_auth.Software.{Primitives, software}
use ai_auth.Startup.{Environment, Started, Fatal, returned_error, start}
use ai_auth.Text.{Str, Bytes, str}
use ai_auth.Webauthn.{Libraries}

pub record Transport (A : Type 0) : Type 1 where
  -- tonic::transport: `ServerTlsConfig`, with the identity of a certificate and a key, and with the
  -- root that client certificates must come from; `Server::tls_config`, with the text of its error
  pub ServerTlsConfig : Type 0
  pub new_config : ServerTlsConfig
  pub identity : ServerTlsConfig → Bytes → Bytes → ServerTlsConfig
  pub client_ca_root : ServerTlsConfig → Bytes → ServerTlsConfig
  pub Server : Type 0
  pub tls_config : ServerTlsConfig → Result Server Str
  -- `add_service` and `serve_with_shutdown`: whether ctrl-c came, and how the server ended
  pub serve_with_shutdown : Server → Guard → A → Bool × Result (Unit {0}) Str
  -- `{}` of a socket address
  pub display_addr : A → Str

unfoldable pub display_bool : Bool → Str
display_bool true = str "true"
display_bool false = str "false"

unfoldable pub guard_up : Str → Profile → ProviderAttestation → Str
unfolding display_bool
guard_up addr profile attestation =
    str "{\"event\":\"guard_up\",\"addr\":\""
    ++ (addr
        ++ (str "\",\"mtls\":true,\"profile\":\""
            ++ (Profile.as_str profile
                ++ (str "\",\"provider\":\""
                    ++ (attestation.name
                        ++ (str "\",\"fips\":" ++ (display_bool attestation.fips ++ str "}\n")))))))

unfoldable pub guard_shutdown : Str
guard_shutdown = str "{\"event\":\"guard_shutdown\"}\n"

module _ (E : Environment) (T : Transport E.SocketAddr) (P : Primitives) (floats : F64)
    (iter : List (Key × Bucket floats) → List (Key × Bucket floats)) (libraries : Libraries) where
  -- `tls`
  unfoldable pub tls : Started E.SocketAddr → T.ServerTlsConfig
  tls s = T.client_ca_root (T.identity T.new_config s.cert s.key) s.ca

  -- `Guard::new(Arc::new(provider), index_key, kek)`
  unfoldable pub new_guard : Started E.SocketAddr → Guard
  new_guard s = record {
    floats = floats;
    iter = iter;
    libraries = libraries;
    provider = software P s.provider;
    index_key = s.index_key;
    kek = s.kek;
  }

  -- From the announcement on.
  unfoldable pub served : Started E.SocketAddr → Str × Result (Unit {0}) Fatal
  unfolding tls new_guard
  served s =
      let up = guard_up (T.display_addr s.addr) s.profile (Software.attestation P) in
      elim (T.tls_config (tls s)) [
        | err e ↦ (up, err (returned_error e))
        | ok server ↦
            let (signalled, result) = T.serve_with_shutdown server (new_guard s) s.addr in
            (up ++ (if signalled then guard_shutdown else []), map_err result returned_error)
      ]

  unfoldable pub main : Str × Result (Unit {0}) Fatal
  main = elim (start E P) [ err fatal ↦ ([], err fatal) | ok s ↦ served s ]
