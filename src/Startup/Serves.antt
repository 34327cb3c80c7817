-- ===== src/Startup/Serves.antt =====
-- When the process serves, and with which keys.
use ai_auth.Common.{
  ℕ, ◌≤◌, ◌^◌, ◌≡◌, ◌≢◌, ◌↔◌, refl, sym, ap, ◌∙◌, Bool, true, false, List, [], Result, ok, err, inl,
  inr, arith, length, replicate, is_empty, Result-cases, Bool-cases, >>=-eq-ok, map_err,
  map_err-eq-ok, ok-injective,
}
use ai_auth.Context.Gate.{is_empty-eq-true}
use ai_auth.Profile
use ai_auth.Profile.{Profile, strict, regulated}
use ai_auth.Profile.Parse.{parse_iff}
use ai_auth.Profile.Check.{check_iff}
use ai_auth.Software
use ai_auth.Software.{Primitives}
use ai_auth.Software.Assumptions.{IsAead}
use ai_auth.Software.Envelope.{envelope_round_trip}
use ai_auth.Startup.{
  Environment, VarError, returned_error, exited, profile_line, Started, required_env, must_read,
  credential, listen_addr, chosen_profile, start, development_provider, index_key, kek,
}
use ai_auth.Text.{Str, Bytes, str, len}

module _ (E : Environment) where
  -- The variable is set to a path that is not empty, and the file there holds the bytes.
  pub record IsCredential (name : Str) (bytes : Bytes) : Type 0 where
    pub path : Str
    pub named : E.var name ≡ ok path
    pub given : path ≢ []
    pub loaded : E.read path ≡ ok bytes

  credential-IsCredential :
      (name : Str) (bytes : Bytes) → credential E name ≡ ok bytes → IsCredential name bytes
  unfolding credential required_env must_read
  credential-IsCredential name bytes h = elim (Result-cases (E.var name)) [
    | inr (e, bad) ↦ absurd (ground arith)
    | inl (path, named) ↦ elim (Result-cases (E.read path)) [
      | inr (e, bad) ↦ absurd (ground arith)
      | inl (b, loaded) ↦ record {
        path = path;
        named = named;
        given = ground arith;
        loaded = ground arith;
      }
    ]
  ]

  credential_of_IsCredential :
      (name : Str) (bytes : Bytes) → IsCredential name bytes → credential E name ≡ ok bytes
  unfolding credential required_env must_read
  credential_of_IsCredential name bytes c = ground (arith, is_empty-eq-true c.path)

  abbrev pub started : E.SocketAddr → Bytes → Bytes → Bytes → Profile → Started E.SocketAddr
  started addr ca cert key profile = record {
    addr = addr;
    ca = ca;
    cert = cert;
    key = key;
    profile = profile;
    provider = development_provider;
    index_key = index_key;
    kek = kek;
  }

  -- The address that a reading of its variable gives: the value's, or the default where there is none.
  abbrev pub AddressFrom : Result Str VarError → E.SocketAddr → Type 0
  AddressFrom (ok v) addr = E.parse_addr v ≡ ok addr
  AddressFrom (err e) addr = E.parse_addr (str "0.0.0.0:9090") ≡ ok addr

  -- The profile that a reading of its variable gives: the one that the value names, trimmed and in
  -- lower case, or `strict` where there is none.
  abbrev pub ProfileFrom : Result Str VarError → Profile → Type 0
  ProfileFrom (ok v) profile = Profile.to_ascii_lowercase (Profile.trim v) ≡ Profile.as_str profile
  ProfileFrom (err e) profile = profile ≡ strict

  listen_addr_iff :
      (addr : E.SocketAddr)
      → (listen_addr E ≡ ok addr) ↔ AddressFrom (E.var (str "CRYPTO_ADDR")) addr
  unfolding listen_addr
  listen_addr_iff addr = elim (Result-cases (E.var (str "CRYPTO_ADDR"))) [
    | inl (v, named) ↦
        rw (named, listen_addr)
          (map_err-eq-ok (E.parse_addr v) _, λ h. ap (λ r. map_err r returned_error) h)
    | inr (e, absent) ↦
        rw (absent, listen_addr)
          (map_err-eq-ok (E.parse_addr _) _, λ h. ap (λ r. map_err r returned_error) h)
  ]

  chosen_profile_iff :
      (profile : Profile)
      → (chosen_profile E ≡ ok profile) ↔ ProfileFrom (E.var (str "AIAUTH_PROFILE")) profile
  unfolding chosen_profile Profile.default
  chosen_profile_iff profile = elim (Result-cases (E.var (str "AIAUTH_PROFILE"))) [
    | inl (v, named) ↦
        let (names, named_by) = parse_iff E.debug v profile in
        rw (named, chosen_profile)
          (
            λ h. names (map_err-eq-ok (Profile.parse E.debug v) _ h),
            λ h. ap (λ r. map_err r λ e. exited (profile_line e)) (named_by h),
          )
    | inr (e, absent) ↦ rw (absent, chosen_profile) (λ h. sym (ok-injective h), λ h. ap ok (sym h))
  ]

  -- What must hold for the process to get to its server.
  pub record IsReady (addr : E.SocketAddr) (ca cert key : Bytes) (profile : Profile) : Type 0 where
    pub listens : AddressFrom (E.var (str "CRYPTO_ADDR")) addr
    pub authority : IsCredential (str "CRYPTO_CA_FILE") ca
    pub certificate : IsCredential (str "CRYPTO_CERT_FILE") cert
    pub private_key : IsCredential (str "CRYPTO_KEY_FILE") key
    pub chosen : ProfileFrom (E.var (str "AIAUTH_PROFILE")) profile
    pub permitted : profile ≢ regulated

  module _ (P : Primitives) where
    not_regulated :
        (profile : Profile)
        → (Profile.check profile (Software.attestation P) ≡ ok tt) ↔ (profile ≢ regulated)
    unfolding Software.attestation
    not_regulated profile = (
      λ h. elim ((check_iff profile (Software.attestation P)).0 h) [
        | inl n ↦ n
        | inr f ↦ absurd (cc)
      ],
      λ n. (check_iff profile (Software.attestation P)).1 (inl n),
    )

    start-IsReady :
        (addr : E.SocketAddr) (ca cert key : Bytes) (profile : Profile)
        → start E P ≡ ok (started addr ca cert key profile)
        → IsReady addr ca cert key profile
    unfolding start
    start-IsReady addr ca cert key profile h =
        let listens : listen_addr E ≡ ok addr = ground arith in
        let first : credential E (str "CRYPTO_CA_FILE") ≡ ok ca = ground arith in
        let second : credential E (str "CRYPTO_CERT_FILE") ≡ ok cert = ground arith in
        let third : credential E (str "CRYPTO_KEY_FILE") ≡ ok key = ground arith in
        let chosen : chosen_profile E ≡ ok profile = ground arith in
        let passed : Profile.check profile (Software.attestation P) ≡ ok tt = ground arith in
        record {
          listens = (listen_addr_iff addr).0 listens;
          authority = credential-IsCredential _ ca first;
          certificate = credential-IsCredential _ cert second;
          private_key = credential-IsCredential _ key third;
          chosen = (chosen_profile_iff profile).0 chosen;
          permitted = (not_regulated profile).0 passed;
        }

    start_of_IsReady :
        (addr : E.SocketAddr) (ca cert key : Bytes) (profile : Profile)
        → IsReady addr ca cert key profile
        → start E P ≡ ok (started addr ca cert key profile)
    unfolding start
    start_of_IsReady addr ca cert key profile r = ground (
      arith,
      (listen_addr_iff addr).1 r.listens,
      credential_of_IsCredential _ ca r.authority,
      credential_of_IsCredential _ cert r.certificate,
      credential_of_IsCredential _ key r.private_key,
      (chosen_profile_iff profile).1 r.chosen,
      (not_regulated profile).1 r.permitted,
    )

    pub start_iff :
        (addr : E.SocketAddr) (ca cert key : Bytes) (profile : Profile)
        → (start E P ≡ ok (started addr ca cert key profile)) ↔ IsReady addr ca cert key profile
    start_iff addr ca cert key profile =
        (start-IsReady addr ca cert key profile, start_of_IsReady addr ca cert key profile)

    development_kek : Software.kek development_provider kek ≡ ok (replicate 32 0xa5)
    unfolding Software.kek development_provider Software.with_key Software.new index_key kek str
        ai_auth.HashMap.lookup ai_auth.HashMap.insert ai_auth.Provider.KeyHandle-discrete
        ai_auth.Text.Str-discrete ai_auth.Common.ℕ_discrete
    development_kek = refl

    start-development :
        (s : Started E.SocketAddr)
        → start E P ≡ ok s
        → (s.provider ≡ development_provider) × (s.kek ≡ kek)
    unfolding start
    start-development s e = (ground arith, ground arith)

    -- A process that gets to its server can seal and open rows with the provider and the key that it was
    -- started with, for a tenant id of at most 2^32 bytes and a text of at most 2^36.
    pub start-round_trip :
        (h : IsAead P) (s : Started E.SocketAddr) (t : Str) (text : Bytes) (rng : P.Rng)
        → start E P ≡ ok s
        → len t ≤ 2 ^ 32
        → length text ≤ 2 ^ 36
        → (wrapped : Bytes) × (between : P.Rng) × (sealed : Bytes) × (after : P.Rng)
          × (Software.generate_wrapped_dek P s.provider s.kek t rng ≡ (ok wrapped, between))
          × (Software.encrypt_field P s.provider s.kek t wrapped text between ≡ (ok sealed, after))
          × (Software.decrypt_field P s.provider s.kek t wrapped sealed ≡ ok text)
    start-round_trip h s t text rng e short bounded =
        let (provider, handle) = start-development s e in
        envelope_round_trip P h s.provider s.kek t (replicate 32 0xa5) text rng
          (rw (provider, handle) development_kek) refl short bounded
