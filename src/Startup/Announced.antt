-- ===== src/Startup/Announced.antt =====
-- What the process says of itself, and when it says so.
use ai_auth.Common.{
  ◌++◌, ◌∷◌, Bool, true, false, refl, map_err, append_assoc, ◌≡◌, ◌⊎◌, inl, inr, sym, ap, ◌∙◌, List,
  [], Result, ok, err, arith, Result-cases, if◌then◌else◌,
}
use ai_auth.Limits.{Key, Bucket}
use ai_auth.Limits.Float.{F64}
use ai_auth.Profile
use ai_auth.Profile.{Profile}
use ai_auth.Software
use ai_auth.Software.{Primitives, software}
use ai_auth.Startup.{
  Environment, Started, Fatal, returned_error, start, development_provider, index_key, kek,
}
use ai_auth.Startup.Run.{Transport, guard_up, guard_shutdown, tls, new_guard, served, main}
use ai_auth.Startup.Serves.{IsReady, started, start_iff}
use ai_auth.Text.{Str, Bytes, str}
use ai_auth.Text.Json.{text, flag, json_line}
use ai_auth.Service.Guard.{Guard}
use ai_auth.Webauthn.{Libraries}

module _ (E : Environment) (T : Transport E.SocketAddr) (P : Primitives) (floats : F64)
    (iter : List (Key × Bucket floats) → List (Key × Bucket floats)) (libraries : Libraries) where
  -- What the process says on stdout: that it is up, and that it has been told to stop.
  abbrev pub up_line : E.SocketAddr → Profile → Str
  up_line addr profile = json_line (
      (str "event", text (str "guard_up"))
      ∷ (str "addr", text (T.display_addr addr))
      ∷ (str "mtls", flag true)
      ∷ (str "profile", text (Profile.as_str profile))
      ∷ (str "provider", text (str "RustCrypto (hmac, sha2)"))
      ∷ (str "fips", flag false)
      ∷ [])

  abbrev pub down_line : Bool → Str
  down_line true = json_line ((str "event", text (str "guard_shutdown")) ∷ [])
  down_line false = []

  -- TLS with the server's certificate and key, and clients whose certificates the authority signed.
  abbrev pub mutual_tls : Bytes → Bytes → Bytes → T.ServerTlsConfig
  mutual_tls ca cert key = T.client_ca_root (T.identity T.new_config cert key) ca

  -- The Guard over the software provider with the development keys.
  abbrev pub development_guard : Guard
  development_guard = record {
    floats = floats;
    iter = iter;
    libraries = libraries;
    provider = software P development_provider;
    index_key = index_key;
    kek = kek;
  }

  -- How a process goes on from its first line: the TLS configuration is refused, or the server runs
  -- at the address until it ends.
  pub data Serves (addr : E.SocketAddr) (ca cert key : Bytes) (first : Str)
      (r : Str × Result (Unit {0}) Fatal) : Type 0 where
    unconfigured :
        (e : Str)
        → T.tls_config (mutual_tls ca cert key) ≡ err e
        → r ≡ (first, err (returned_error e))
        → Serves addr ca cert key first r
    ran :
        (server : T.Server) (signalled : Bool) (result : Result (Unit {0}) Str)
        → T.tls_config (mutual_tls ca cert key) ≡ ok server
        → T.serve_with_shutdown server development_guard addr ≡ (signalled, result)
        → r ≡ (first ++ down_line signalled, map_err result returned_error)
        → Serves addr ca cert key first r

  -- The process is ready, says so, and goes on to its server.
  pub record Up (r : Str × Result (Unit {0}) Fatal) : Type 0 where
    pub addr : E.SocketAddr
    pub ca : Bytes
    pub cert : Bytes
    pub key : Bytes
    pub profile : Profile
    pub ready : IsReady E addr ca cert key profile
    pub serves : Serves addr ca cert key (up_line addr profile) r

  -- The process is not ready, says nothing on stdout and ends with an error.
  pub record Down (r : Str × Result (Unit {0}) Fatal) : Type 0 where
    pub unready :
        (addr : E.SocketAddr) (ca cert key : Bytes) (profile : Profile)
        → ¬ IsReady E addr ca cert key profile
    pub silent : r.0 ≡ []
    pub fatal : Fatal
    pub ended : r.1 ≡ err fatal

  guard_up-up_line :
      (addr : E.SocketAddr) (profile : Profile)
      → guard_up (T.display_addr addr) profile (Software.attestation P) ≡ up_line addr profile
  unfolding guard_up ai_auth.Startup.Run.display_bool Software.attestation json_line str
  guard_up-up_line addr profile = simp append_assoc

  shutdown-down_line : (b : Bool) → (if b then guard_shutdown else []) ≡ down_line b
  unfolding guard_shutdown json_line str
  shutdown-down_line true = refl
  shutdown-down_line false = refl

  served-Serves :
      (addr : E.SocketAddr) (ca cert key : Bytes) (profile : Profile)
      → Serves addr ca cert key
          (up_line addr profile)
          (served E T P floats iter libraries (started E addr ca cert key profile))
  unfolding served tls new_guard
  served-Serves addr ca cert key profile =
      let up = guard_up-up_line addr profile in
      elim (Result-cases (T.tls_config (mutual_tls ca cert key))) [
        | inr (e, failed) ↦
            unconfigured e failed
              (rw (failed, served) (ap (λ line. (line, err (returned_error e))) up))
        | inl (server, built) ↦
            let ends = T.serve_with_shutdown server development_guard addr in
            ran server ends.0 ends.1 built refl (
              rw (built, served)
                (λ i. (up i ++ shutdown-down_line ends.0 i, map_err ends.1 returned_error)))
      ]

  start-started :
      (s : Started E.SocketAddr)
      → start E P ≡ ok s
      → s ≡ started E s.addr s.ca s.cert s.key s.profile
  unfolding start
  start-started s h =
      let a : s.provider ≡ development_provider = ground arith in
      let b : s.index_key ≡ index_key = ground arith in
      let c : s.kek ≡ kek = ground arith in
      λ i. record {
        addr = s.addr;
        ca = s.ca;
        cert = s.cert;
        key = s.key;
        profile = s.profile;
        provider = a i;
        index_key = b i;
        kek = c i;
      }

  err-ne-ok :
      (fatal : Fatal) (s : Started E.SocketAddr)
      → ¬ (◌≡◌ {A = Result (Started E.SocketAddr) Fatal} (err fatal) (ok s))
  err-ne-ok fatal s h = cc

  -- The process announces itself exactly when it is ready, as IsReady says of its environment. Its
  -- first line on stdout names its address, its profile and its provider, and says mtls and not
  -- fips; it then serves the Guard with the development keys at that address, under TLS with the
  -- certificate and key of its files and clients of the authority of its file, unless that TLS
  -- configuration is refused, which is its error; and a last line says so if it was told to stop. A
  -- process that is not ready prints nothing on stdout and ends with an error.
  pub main-announces :
      Up (main E T P floats iter libraries) ⊎ Down (main E T P floats iter libraries)
  unfolding main
  main-announces = elim (Result-cases (start E P)) [
    | inl (s, up) ↦
        let started_up = up ∙ ap ok (start-started s up) in
        inl (record {
          addr = s.addr;
          ca = s.ca;
          cert = s.cert;
          key = s.key;
          profile = s.profile;
          ready = (start_iff E P s.addr s.ca s.cert s.key s.profile).0 started_up;
          serves = rw (started_up, main) (served-Serves s.addr s.ca s.cert s.key s.profile);
        })
    | inr (fatal, down) ↦ inr (record {
      unready = λ addr ca cert key profile r.
          err-ne-ok fatal _ (sym down ∙ (start_iff E P addr ca cert key profile).1 r);
      silent = rw (down, main);
      fatal = fatal;
      ended = rw (down, main);
    })
  ]
