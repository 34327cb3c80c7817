-- ===== src/Webauthn/Accepted.antt =====
-- Exactly which assertions are accepted.
use ai_auth.Common.{
  ℕ, ◌≤◌, ◌<◌, ◌≡◌, ◌≢◌, ◌↔◌, ◌⊎◌, inl, inr, Bool, true, ◌++◌, Option, none, some, ok, length, take,
  bit_and, arith, Option-cases,
}
use ai_auth.Text.{Str, Bytes, str, as_bytes}
use ai_auth.Webauthn.{
  Rejection, Verified, Expectations, Libraries, guard, or_else, byte_at, flag_up, auth_data_min,
  sign_count_of, text_field, is_text, check_client_data, check_authenticator_data, check_signature,
  verify,
}

guard-eq-ok : (b : Bool) (e : Rejection) → guard b e ≡ ok tt → b ≡ true
guard-eq-ok b e h = ground arith

module _ (L : Libraries) where
  is_text-eq-true : (o : Option Str) (want : Str) → is_text L o want ≡ true → o ≡ some want
  unfolding is_text
  is_text-eq-true none want h = cc
  is_text-eq-true (some s) want h = ground arith

  is_text_self : (want : Str) → is_text L (some want) want ≡ true
  unfolding is_text
  is_text_self want = ground arith

  -- Steps 1 to 3: the type, the challenge and the origin that the browser recorded.
  pub record IsFresh (exp : Expectations) (client_data_json : Bytes) : Type 0 where
    pub client : L.Value
    pub encoded : Str
    pub parsed : L.json_from_slice client_data_json ≡ some client
    pub kind : text_field L client (str "type") ≡ some (str "webauthn.get")
    pub stated : text_field L client (str "challenge") ≡ some encoded
    pub challenge : L.base64_decode encoded ≡ some exp.challenge
    pub origin : text_field L client (str "origin") ≡ some exp.origin

  -- Steps 4 to 6: the relying party, user presence and the counter.
  pub record IsPresent (exp : Expectations) (authenticator_data : Bytes) : Type 0 where
    pub long : auth_data_min ≤ length authenticator_data
    pub relying_party : take 32 authenticator_data ≡ L.sha256 (as_bytes exp.rp_id)
    pub touched : bit_and (byte_at authenticator_data 32) flag_up ≢ 0
    pub counted :
        (sign_count_of authenticator_data ≡ 0)
        ⊎ (exp.stored_sign_count < sign_count_of authenticator_data)

  -- Step 7: a signature by the credential's key over both.
  pub record IsSigned (public_key authenticator_data client_data_json signature : Bytes)
      : Type 0 where
    pub key : L.VerifyingKey
    pub sig : L.Signature
    pub key_read : L.key_from_sec1_bytes public_key ≡ some key
    pub sig_read :
        or_else (L.signature_from_der signature) (L.signature_from_slice signature) ≡ some sig
    pub valid : L.verify key (authenticator_data ++ L.sha256 client_data_json) sig ≡ true

  check_client_data-IsFresh :
      (exp : Expectations) (json : Bytes) → check_client_data L exp json ≡ ok tt → IsFresh exp json
  unfolding check_client_data
  check_client_data-IsFresh exp json e = elim (Option-cases (L.json_from_slice json)) [
    | inl p ↦ absurd (ground arith)
    | inr (client, parsed) ↦ elim (Option-cases (text_field L client (str "challenge"))) [
      | inl p ↦ absurd (ground arith)
      | inr (encoded, stated) ↦ record {
        client = client;
        encoded = encoded;
        parsed = parsed;
        kind =
            is_text-eq-true (text_field L client (str "type")) (str "webauthn.get") (ground arith);
        stated = stated;
        challenge = ground arith;
        origin = is_text-eq-true (text_field L client (str "origin")) exp.origin (ground arith);
      }
    ]
  ]

  check_client_data_of_IsFresh :
      (exp : Expectations) (json : Bytes) → IsFresh exp json → check_client_data L exp json ≡ ok tt
  unfolding check_client_data
  check_client_data_of_IsFresh exp json f = ground (
    arith,
    f.parsed,
    f.kind,
    f.stated,
    f.challenge,
    f.origin,
    is_text_self (str "webauthn.get"),
    is_text_self exp.origin,
  )

  check_authenticator_data_iff :
      (exp : Expectations) (ad : Bytes) (n : ℕ)
      → (check_authenticator_data L exp ad ≡ ok n) ↔ (IsPresent exp ad × (sign_count_of ad ≡ n))
  unfolding check_authenticator_data
  check_authenticator_data_iff exp ad n = (
    λ e. (
      record {
        long = ground arith;
        relying_party = ground arith;
        touched = ground arith;
        counted = ground arith;
      },
      ground arith,
    ),
    λ (f, same). ground (arith, f.long, f.relying_party, f.touched, f.counted),
  )

  check_signature_iff :
      (pk ad json sg : Bytes) → (check_signature L pk ad json sg ≡ ok tt) ↔ IsSigned pk ad json sg
  unfolding check_signature
  check_signature_iff pk ad json sg = (
    λ e. elim (Option-cases (L.key_from_sec1_bytes pk)) [
      | inl p ↦ absurd (ground arith)
      | inr (key, key_read) ↦
          elim (Option-cases (or_else (L.signature_from_der sg) (L.signature_from_slice sg))) [
            | inl p ↦ absurd (ground arith)
            | inr (sig, sig_read) ↦ record {
              key = key;
              sig = sig;
              key_read = key_read;
              sig_read = sig_read;
              valid = ground arith;
            }
          ]
    ],
    λ f. ground (arith, f.key_read, f.sig_read, f.valid),
  )

  -- An assertion is accepted exactly when its client data is fresh and from the right origin, its
  -- authenticator data is for the relying party, shows the user's presence and a counter that is
  -- zero or above the stored one, and the credential's key has signed both; the new count is then
  -- the one in the authenticator data.
  pub verify_iff :
      (exp : Expectations) (pk ad json sg : Bytes) (v : Verified)
      → (verify L exp pk ad json sg ≡ ok v) ↔ (
          IsFresh exp json
          × IsPresent exp ad
          × IsSigned pk ad json sg
          × (sign_count_of ad ≡ v.new_sign_count))
  unfolding verify
  verify_iff exp pk ad json sg v = (
    λ e.
        let c₁ : check_client_data L exp json ≡ ok tt = ground arith in
        let c₂ : check_authenticator_data L exp ad ≡ ok v.new_sign_count = ground arith in
        let c₃ : check_signature L pk ad json sg ≡ ok tt = ground arith in
        let (present, count) = (check_authenticator_data_iff exp ad v.new_sign_count).0 c₂ in
        (
          check_client_data-IsFresh exp json c₁,
          present,
          (check_signature_iff pk ad json sg).0 c₃,
          count,
        ),
    λ (fresh, present, signed, count). ground (
      arith,
      check_client_data_of_IsFresh exp json fresh,
      (check_authenticator_data_iff exp ad v.new_sign_count).1 (present, count),
      (check_signature_iff pk ad json sg).1 signed,
    ),
  )
