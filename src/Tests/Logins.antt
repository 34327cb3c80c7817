-- ===== src/Tests/Logins.antt =====
-- The verifier on assertions that it accepts.
use ai_auth.Common.{◌≡◌, ◌≢◌, ◌↔◌, refl, ◌++◌, List, [], ◌∷◌, ok, err, replicate, arith}
use ai_auth.Tests.Fixtures.{libraries, field}
use ai_auth.Text.{Bytes, str}
use ai_auth.Webauthn
use ai_auth.Webauthn.{Expectations, Verified, sign_count_regression}
use ai_auth.Webauthn.Accepted.{IsFresh, IsPresent, IsSigned, verify_iff}
use ai_auth.Webauthn.Replay.{with_count, verify_replayed, verify_uncounted}

abbrev expectations : Expectations
expectations = record {
  rp_id = str "p";
  origin = str "o";
  challenge = str "c";
  stored_sign_count = 4;
}

-- The relying party's hash, the flags with the user present, and a count of five.
abbrev authenticator_data : Bytes
authenticator_data = replicate 32 7 ++ (1 ∷ 0 ∷ 0 ∷ 0 ∷ 5 ∷ [])

abbrev verified_five : Verified
verified_five = record { new_sign_count = 5 }

verify_iff_example :
    (Webauthn.verify libraries expectations (3 ∷ []) authenticator_data [] (9 ∷ [])
      ≡ ok verified_five)
    ↔ (IsFresh libraries expectations []
        × IsPresent libraries expectations authenticator_data
        × IsSigned libraries (3 ∷ []) authenticator_data [] (9 ∷ [])
        × (Webauthn.sign_count_of authenticator_data ≡ 5))
verify_iff_example =
    verify_iff libraries expectations (3 ∷ []) authenticator_data [] (9 ∷ []) verified_five

-- The same assertion is accepted.
accepted :
    Webauthn.verify libraries expectations (3 ∷ []) authenticator_data [] (9 ∷ [])
    ≡ ok verified_five
unfolding Webauthn.verify Webauthn.check_client_data Webauthn.is_text Webauthn.text_field field
    ai_auth.Text.Str-discrete str ai_auth.Common.ℕ_discrete Webauthn.check_authenticator_data
    Webauthn.sign_count_of ai_auth.Words.u32_from_be_bytes Webauthn.check_signature
accepted = refl

verify_replayed_example :
    Webauthn.verify libraries
      (with_count libraries expectations 5)
      (3 ∷ [])
      authenticator_data
      []
      (9 ∷ [])
    ≡ err sign_count_regression
verify_replayed_example =
    verify_replayed libraries expectations (3 ∷ []) authenticator_data [] (9 ∷ []) verified_five
      accepted (λ h. omega arith)

abbrev uncounted_data : Bytes
uncounted_data = replicate 32 7 ++ (1 ∷ 0 ∷ 0 ∷ 0 ∷ 0 ∷ [])

abbrev verified_zero : Verified
verified_zero = record { new_sign_count = 0 }

uncounted :
    Webauthn.verify libraries expectations (3 ∷ []) uncounted_data [] (9 ∷ []) ≡ ok verified_zero
unfolding Webauthn.verify Webauthn.check_client_data Webauthn.is_text Webauthn.text_field field
    ai_auth.Text.Str-discrete str ai_auth.Common.ℕ_discrete Webauthn.check_authenticator_data
    Webauthn.sign_count_of ai_auth.Words.u32_from_be_bytes Webauthn.check_signature
uncounted = refl

verify_uncounted_example :
    (Webauthn.verify libraries
        (with_count libraries expectations 900)
        (3 ∷ [])
        uncounted_data
        []
        (9 ∷ [])
      ≡ ok verified_zero)
    × (verified_zero.new_sign_count ≡ 0)
unfolding Webauthn.sign_count_of ai_auth.Words.u32_from_be_bytes
verify_uncounted_example =
    verify_uncounted libraries expectations (3 ∷ []) uncounted_data [] (9 ∷ []) verified_zero 900
      uncounted refl
