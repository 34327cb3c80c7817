-- ===== src/Scenarios/Profile.antt =====
-- crypto/src/profile.rs: the tests of the profiles.
use ai_auth.Common.{Bool, true, false, not, ◌&&◌, [], none, some, ok, err, ite, if◌then◌else◌}
use ai_auth.Profile.{
  Profile, strict, balanced, legacy, regulated, Profile-discrete, default, parse, check,
  refusal_text,
}
use ai_auth.Provider.{ProviderAttestation}
use ai_auth.Scenarios.{is_ok, contains}
use ai_auth.Text.{Str, str}

unfoldable pub attestation : Bool → ProviderAttestation
attestation fips = record {
  name = if fips then str "aws-lc-fips" else str "RustCrypto (hmac, sha2)";
  version = str "test";
  fips = fips;
  certificate = if fips then some (str "4816") else none;
}

unfoldable pub same : Profile → Profile → Bool
same p q = ite (Profile-discrete p q) true false

unfoldable pub parses : (Str → Str) → Str → Profile → Bool
parses debug name p = elim (parse debug name) [ ok q ↦ same q p | err e ↦ false ]

unfoldable pub the_default_profile_is_strict : Bool
the_default_profile_is_strict = same default strict

-- `debug` is `{:?}` of a str.
unfoldable pub known_names_parse_case_insensitively : (Str → Str) → Bool
known_names_parse_case_insensitively debug =
    parses debug (str "strict") strict
    && parses debug (str " Regulated ") regulated
    && parses debug (str "LEGACY") legacy

unfoldable pub an_unknown_profile_is_an_error_not_a_fallback : (Str → Str) → Bool
an_unknown_profile_is_an_error_not_a_fallback debug =
    not (is_ok (parse debug (str "strickt"))) && not (is_ok (parse debug []))

unfoldable pub regulated_refuses_an_unvalidated_provider : Bool
regulated_refuses_an_unvalidated_provider = elim (check regulated (attestation false)) [
  | ok u ↦ false
  | err e ↦ contains (refusal_text e) (str "not validated")
]

unfoldable pub regulated_accepts_a_validated_provider : Bool
regulated_accepts_a_validated_provider = is_ok (check regulated (attestation true))

unfoldable pub other_profiles_do_not_require_validation : Bool
other_profiles_do_not_require_validation =
    is_ok (check strict (attestation false))
    && is_ok (check balanced (attestation false))
    && is_ok (check legacy (attestation false))
