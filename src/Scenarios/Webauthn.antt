-- ===== src/Scenarios/Webauthn.antt =====
-- crypto/src/webauthn.rs: the tests of the assertion verifier, for keys that the caller draws.
use ai_auth.Common.{ℕ, Bool, true, false, ◌++◌, [], ◌∷◌, Result, ok, err, ◌==◌, ite, replicate}
use ai_auth.Scenarios.{is_ok}
use ai_auth.Text.{Str, Bytes, str, as_bytes}
use ai_auth.Webauthn
use ai_auth.Webauthn.{Libraries, Rejection, Verified, Expectations, verify, flag_up}
use ai_auth.Webauthn.Honest
use ai_auth.Webauthn.Honest.{Client, Fixture, client_data, auth_data, sign}

unfoldable pub rp : Str
rp = str "auth.example.com"

unfoldable pub origin : Str
origin = str "https://auth.example.com"

unfoldable pub Rejection-discrete : Discrete Rejection
Rejection-discrete = hlevel

unfoldable pub refused : Result Verified Rejection → Rejection → Bool
refused (ok v) want = false
refused (err e) want = ite (Rejection-discrete e want) true false

module _ (L : Libraries) (C : Client) (key other_key : C.SigningKey) where
  unfoldable pub fixture : Fixture L C
  fixture = Honest.fixture L C key (replicate 32 9)

  unfoldable pub expectations : ℕ → Expectations
  expectations stored = Honest.expectations L C rp origin fixture stored

  -- What a test changes in a genuine assertion: the document, the authenticator data, and the
  -- stored count.
  unfoldable pub attempt : ℕ → Bytes → Bytes → Result Verified Rejection
  attempt stored ad cd =
      verify L (expectations stored) fixture.pubkey ad cd (sign L C fixture ad cd)

  unfoldable pub genuine : Bytes
  genuine = client_data L C (str "webauthn.get") fixture.challenge origin

  unfoldable pub a_genuine_assertion_verifies : Bool
  a_genuine_assertion_verifies = elim (attempt 4 (auth_data L C rp flag_up 5) genuine) [
    | ok v ↦ v.new_sign_count == 5
    | err e ↦ false
  ]

  unfoldable pub a_lookalike_origin_is_refused : Bool
  a_lookalike_origin_is_refused =
      let cd =
        client_data L C (str "webauthn.get") fixture.challenge (str "https://auth.exarnple.com") in
      refused (attempt 4 (auth_data L C rp flag_up 5) cd) Webauthn.origin_mismatch

  unfoldable pub a_replayed_challenge_is_refused : Bool
  a_replayed_challenge_is_refused =
      let cd = client_data L C (str "webauthn.get") (replicate 32 1) origin in
      refused (attempt 4 (auth_data L C rp flag_up 5) cd) Webauthn.challenge_mismatch

  unfoldable pub a_registration_response_cannot_be_used_to_log_in : Bool
  a_registration_response_cannot_be_used_to_log_in =
      let cd = client_data L C (str "webauthn.create") fixture.challenge origin in
      refused (attempt 4 (auth_data L C rp flag_up 5) cd) Webauthn.wrong_type

  unfoldable pub an_assertion_for_another_relying_party_is_refused : Bool
  an_assertion_for_another_relying_party_is_refused =
      let ad = auth_data L C (str "other.example.com") flag_up 5 in
      refused (attempt 4 ad genuine) Webauthn.rp_id_mismatch

  unfoldable pub absent_user_presence_is_refused : Bool
  absent_user_presence_is_refused =
      refused (attempt 4 (auth_data L C rp 0x00 5) genuine) Webauthn.user_not_present

  unfoldable pub a_regressing_sign_count_suggests_a_clone : Bool
  a_regressing_sign_count_suggests_a_clone =
      refused (attempt 7 (auth_data L C rp flag_up 3) genuine) Webauthn.sign_count_regression

  unfoldable pub a_zero_sign_count_is_accepted : Bool
  a_zero_sign_count_is_accepted = is_ok (attempt 9 (auth_data L C rp flag_up 0) genuine)

  unfoldable pub another_credential_cannot_sign_for_this_one : Bool
  another_credential_cannot_sign_for_this_one =
      let impostor = Honest.fixture L C other_key (replicate 32 9) in
      let ad = auth_data L C rp flag_up 5 in
      let sig = sign L C impostor ad genuine in
      refused (verify L (expectations 4) fixture.pubkey ad genuine sig) Webauthn.bad_signature

  unfoldable pub tampered_authenticator_data_breaks_the_signature : Bool
  tampered_authenticator_data_breaks_the_signature =
      let ad = auth_data L C rp flag_up 5 in
      let sig = sign L C fixture ad genuine in
      let tampered = ad ++ 0xff ∷ [] in
      refused (verify L (expectations 4) fixture.pubkey tampered genuine sig) Webauthn.bad_signature

  unfoldable pub truncated_authenticator_data_is_rejected_not_panicked : Bool
  truncated_authenticator_data_is_rejected_not_panicked =
      refused (verify L (expectations 4) fixture.pubkey (replicate 10 0) genuine (replicate 64 0))
        Webauthn.malformed_authenticator_data

  unfoldable pub garbage_client_data_is_rejected_not_panicked : Bool
  garbage_client_data_is_rejected_not_panicked =
      refused
        (verify L (expectations 4) fixture.pubkey (auth_data L C rp flag_up 5)
          (as_bytes (str "not json")) (replicate 64 0))
        Webauthn.malformed_client_data
