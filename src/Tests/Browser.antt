-- ===== src/Tests/Browser.antt =====
-- A parser of the one document that a browser writes, and keys that sign by prefixing themselves.
use ai_auth.Common.{
  ℕ, ◌≡◌, ◌≢◌, refl, ap, inr, Bool, true, false, ◌++◌, List, [], ◌∷◌, Option, none, some, Result,
  ok, err, ◌==◌, if◌then◌else◌, ite, take, get_or, length, length-take, length-append, replicate,
  arith,
}
use ai_auth.Scenarios.Webauthn as Scenarios
use ai_auth.Text.{Str, Bytes, str, Str-discrete}
use ai_auth.Webauthn
use ai_auth.Webauthn.{Libraries}
use ai_auth.Webauthn.Honest
use ai_auth.Webauthn.Honest.{
  Client, Fixture, client_data, IsInverse, Reads, verify-sign, verify-client_data,
}

abbrev push : ℕ → List Str → List Str
push c [] = (c ∷ []) ∷ []
push c (p ∷ ps) = (c ∷ p) ∷ ps

-- The pieces of a text between its quotes.
unfoldable pieces : Str → List Str
pieces [] = [] ∷ []
pieces (c ∷ s) = let rest = pieces s in if c == 0x22 then [] ∷ rest else push c rest

-- The pieces of a document with three fields.
abbrev document : List Str → Option (List Str)
document (open_ ∷ k₁ ∷ c₁ ∷ v₁ ∷ s₁ ∷ k₂ ∷ c₂ ∷ v₂ ∷ s₂ ∷ k₃ ∷ c₃ ∷ v₃ ∷ rest) =
    some (v₁ ∷ v₂ ∷ v₃ ∷ [])
document _ = none

unfoldable value_of : List Str → Str → Option Str
value_of (v₁ ∷ v₂ ∷ v₃ ∷ []) key = ite (Str-discrete key (str "type")) (some v₁) (
    ite (Str-discrete key (str "challenge")) (some v₂)
      (ite (Str-discrete key (str "origin")) (some v₃) none))
value_of _ key = none

abbrev digest : Bytes → Bytes
digest msg = take 32 (msg ++ replicate 32 0)

abbrev parsing : Libraries
parsing = record {
  Value = Option (List Str) × Str;
  json_from_slice = λ bytes. elim (document (pieces bytes)) [
    | none ↦ none
    | some fields ↦ some (some fields, [])
  ];
  get = λ v key. elim v.0 [
    | none ↦ none
    | some fields ↦ elim (value_of fields key) [ none ↦ none | some text ↦ some (none, text) ]
  ];
  as_str = λ v. some v.1;
  base64_decode = λ s. some s;
  sha256 = digest;
  VerifyingKey = Bytes;
  Signature = Bytes;
  key_from_sec1_bytes = λ bytes. some bytes;
  signature_from_der = λ bytes. some bytes;
  signature_from_slice = λ bytes. some bytes;
  verify = λ key msg sig. ite (Str-discrete sig (key ++ msg)) true false;
}

abbrev prefixing : Client
prefixing = record {
  base64_encode = λ bytes. bytes;
  SigningKey = Bytes;
  public_key = λ k. k;
  sign_der = λ k msg. k ++ msg;
}

ite_self : (s : Str) → ite (Str-discrete s s) true false ≡ true
ite_self s = ground arith

prefixing-IsInverse : IsInverse parsing prefixing
prefixing-IsInverse = record {
  digests = λ msg.
      omega (arith, length-take 32 (msg ++ replicate 32 0), length-append msg (replicate 32 0));
  decodes = λ msg. refl;
  verifies = λ k msg. record {
    key = k;
    sig = k ++ msg;
    key_read = refl;
    sig_read = refl;
    valid = ite_self (k ++ msg);
  };
}

abbrev get : Str
get = str "webauthn.get"

abbrev challenge : Bytes
challenge = 9 ∷ 8 ∷ []

abbrev device : Fixture parsing prefixing
device = record { key = 1 ∷ []; pubkey = 1 ∷ []; challenge = challenge }

written :
    (origin : Str) (value : Option (List Str) × Str)
    → parsing.json_from_slice (client_data parsing prefixing get challenge origin) ≡ some value
    → Webauthn.text_field parsing value (str "type") ≡ some get
    → Webauthn.text_field parsing value (str "challenge") ≡ some challenge
    → Webauthn.text_field parsing value (str "origin") ≡ some origin
    → Reads parsing prefixing get challenge origin
written origin value parsed kind stated named = record {
  value = value;
  parsed = parsed;
  kind = kind;
  stated = stated;
  named = named;
}

document_at : (origin : Str) → Option (List Str) × Str
document_at origin = (some (get ∷ challenge ∷ origin ∷ []), [])

honest : Reads parsing prefixing get challenge (str "o")
unfolding client_data pieces value_of str ai_auth.Text.as_bytes Webauthn.text_field Str-discrete
    ai_auth.Common.ℕ_discrete document_at
honest = written (str "o") (document_at (str "o")) refl refl refl refl

lured : Reads parsing prefixing get challenge (str "0")
unfolding client_data pieces value_of str ai_auth.Text.as_bytes Webauthn.text_field Str-discrete
    ai_auth.Common.ℕ_discrete document_at
lured = written (str "0") (document_at (str "0")) refl refl refl refl

verify-sign_example :
    let f = Honest.fixture parsing prefixing (1 ∷ []) challenge in
    let ad = Honest.auth_data parsing prefixing (str "r") 1 5 in
    let cd = client_data parsing prefixing get challenge (str "o") in
    Webauthn.verify parsing
      (Honest.expectations parsing prefixing (str "r") (str "o") f 4)
      f.pubkey
      ad
      cd
      (Honest.sign parsing prefixing f ad cd)
    ≡ ok (record { new_sign_count = 5 })
verify-sign_example =
    verify-sign parsing prefixing (1 ∷ []) challenge (str "r") (str "o") 1 5 4 prefixing-IsInverse
      honest (omega arith) (λ h. omega arith) (inr (omega arith))

lure : str "0" ≢ str "o"
unfolding str
lure h = omega (arith, ap (λ (l : Str). get_or l 0 0) h)

verify-client_data_example :
    Webauthn.verify parsing
      (Honest.expectations parsing prefixing (str "r") (str "o") device 4)
      (1 ∷ [])
      (Honest.auth_data parsing prefixing (str "r") 1 5)
      (client_data parsing prefixing get challenge (str "0"))
      (2 ∷ [])
    ≡ err Webauthn.origin_mismatch
verify-client_data_example =
    verify-client_data parsing prefixing device (str "r") (str "o") (str "0") 4 (1 ∷ [])
      (Honest.auth_data parsing prefixing (str "r") 1 5) (2 ∷ []) prefixing-IsInverse lured lure

verifier_tests :
    (Scenarios.a_genuine_assertion_verifies parsing prefixing (1 ∷ []) (2 ∷ []) ≡ true)
    × (Scenarios.a_lookalike_origin_is_refused parsing prefixing (1 ∷ []) (2 ∷ []) ≡ true)
    × (Scenarios.a_replayed_challenge_is_refused parsing prefixing (1 ∷ []) (2 ∷ []) ≡ true)
    × (Scenarios.a_registration_response_cannot_be_used_to_log_in parsing prefixing
          (1 ∷ [])
          (2 ∷ [])
        ≡ true)
    × (Scenarios.an_assertion_for_another_relying_party_is_refused parsing prefixing
          (1 ∷ [])
          (2 ∷ [])
        ≡ true)
    × (Scenarios.absent_user_presence_is_refused parsing prefixing (1 ∷ []) (2 ∷ []) ≡ true)
    × (Scenarios.a_regressing_sign_count_suggests_a_clone parsing prefixing (1 ∷ []) (2 ∷ [])
        ≡ true)
    × (Scenarios.a_zero_sign_count_is_accepted parsing prefixing (1 ∷ []) (2 ∷ []) ≡ true)
    × (Scenarios.another_credential_cannot_sign_for_this_one parsing prefixing (1 ∷ []) (2 ∷ [])
        ≡ true)
    × (Scenarios.tampered_authenticator_data_breaks_the_signature parsing prefixing
          (1 ∷ [])
          (2 ∷ [])
        ≡ true)
    × (Scenarios.truncated_authenticator_data_is_rejected_not_panicked parsing prefixing
          (1 ∷ [])
          (2 ∷ [])
        ≡ true)
    × (Scenarios.garbage_client_data_is_rejected_not_panicked parsing prefixing (1 ∷ []) (2 ∷ [])
        ≡ true)
unfolding Scenarios.a_genuine_assertion_verifies Scenarios.a_lookalike_origin_is_refused
    Scenarios.a_replayed_challenge_is_refused
    Scenarios.a_registration_response_cannot_be_used_to_log_in
    Scenarios.an_assertion_for_another_relying_party_is_refused
    Scenarios.absent_user_presence_is_refused Scenarios.a_regressing_sign_count_suggests_a_clone
    Scenarios.a_zero_sign_count_is_accepted Scenarios.another_credential_cannot_sign_for_this_one
    Scenarios.tampered_authenticator_data_breaks_the_signature
    Scenarios.truncated_authenticator_data_is_rejected_not_panicked
    Scenarios.garbage_client_data_is_rejected_not_panicked Scenarios.rp Scenarios.origin
    Scenarios.refused Scenarios.Rejection-discrete Scenarios.fixture Scenarios.expectations
    Scenarios.attempt Scenarios.genuine ai_auth.Scenarios.is_ok client_data Honest.auth_data
    Honest.fixture Honest.expectations Honest.sign pieces value_of str ai_auth.Text.as_bytes
    Webauthn.text_field Str-discrete ai_auth.Common.ℕ_discrete Webauthn.verify
    Webauthn.check_client_data Webauthn.check_authenticator_data Webauthn.check_signature
    Webauthn.is_text Webauthn.sign_count_of ai_auth.Words.u32_from_be_bytes
    ai_auth.Words.u32_to_be_bytes
verifier_tests = (refl, refl, refl, refl, refl, refl, refl, refl, refl, refl, refl, refl)
