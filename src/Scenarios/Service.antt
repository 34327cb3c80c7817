-- ===== src/Scenarios/Service.antt =====
-- crypto/src/service.rs: the tests of the Guard, over the software provider, for any primitives and
-- libraries. No time passes within a test.
use ai_auth.Common.{
  ℕ, zero, suc, ◌==◌, Bool, true, false, not, ◌&&◌, List, [], Option, none, some, ok, err, ite,
  is_empty, length, replicate,
}
use ai_auth.Limits.{Key, Bucket}
use ai_auth.Limits.Float.{F64}
use ai_auth.Proto.{
  invalid_argument, permission_denied, resource_exhausted, RequestContext, EncryptFieldResponse,
}
use ai_auth.Proto.Purpose
use ai_auth.Proto.Purpose.{Purpose}
use ai_auth.Proto.Verdict
use ai_auth.Service.Guard.{Guard, State, Outcome, returned, start}
use ai_auth.Service.Handlers.{verify_assertion, encrypt_field, decrypt_field, blind_index}
use ai_auth.Software
use ai_auth.Software.{Primitives, software}
use ai_auth.Text.{Str, Bytes, str, Str-discrete, as_bytes}
use ai_auth.Webauthn.{Libraries}

unfoldable pub ctx : Purpose → Option RequestContext
ctx purpose = some (record {
  tenant_id = str "t1";
  subject_id = str "s1";
  purpose = Purpose.as_i32 purpose;
  request_id = str "req-1";
})

-- `unwrap`, and the assertions on the reply.
unfoldable pub replied_with : {A : Type 0} → Outcome A → (A → Bool) → Bool
replied_with (returned (ok a)) test = test a
replied_with _ test = false

-- The code of the error, `Code::InvalidArgument` and so on.
unfoldable pub invalid : {A : Type 0} → Outcome A → Bool
invalid (returned (err (invalid_argument m))) = true
invalid _ = false

unfoldable pub denied : {A : Type 0} → Outcome A → Bool
denied (returned (err (permission_denied m))) = true
denied _ = false

unfoldable pub exhausted : {A : Type 0} → Outcome A → Bool
exhausted (returned (err (resource_exhausted m))) = true
exhausted _ = false

unfoldable pub same_bytes : Bytes → Bytes → Bool
same_bytes a b = ite (Str-discrete a b) true false

module _ (P : Primitives) (floats : F64)
    (iter : List (Key × Bucket floats) → List (Key × Bucket floats)) (libraries : Libraries) where
  abbrev pub guard : Guard
  guard = record {
    floats = floats;
    iter = iter;
    libraries = libraries;
    provider = software P (
        Software.with_key
          (Software.with_key Software.new (record { id = str "idx-1" }) (replicate 32 9))
          (record { id = str "kek-1" }) (replicate 32 3));
    index_key = record { id = str "idx-1" };
    kek = record { id = str "kek-1" };
  }

  unfoldable pub no_context_is_invalid_argument : P.Rng → Bool
  unfolding invalid
  no_context_is_invalid_argument rng =
      invalid
        (verify_assertion guard 0
          (record {
            context = none;
            rp_id = [];
            expected_origin = [];
            expected_challenge = [];
            credential = none;
            assertion = none;
          })
          (start guard rng)).0

  unfoldable pub wrong_purpose_is_permission_denied : P.Rng → Bool
  unfolding denied ctx
  wrong_purpose_is_permission_denied rng =
      denied
        (decrypt_field guard 0
          (record { context = ctx Purpose.passkey_login; ciphertext = []; wrapped_dek = [] })
          (start guard rng)).0

  unfoldable pub a_malformed_assertion_is_a_rejected_verdict_not_an_error : P.Rng → Bool
  unfolding replied_with ctx same_bytes
  a_malformed_assertion_is_a_rejected_verdict_not_an_error rng =
      replied_with
        (verify_assertion guard 0
          (record {
            context = ctx Purpose.passkey_login;
            rp_id = str "auth.example.com";
            expected_origin = str "https://auth.example.com";
            expected_challenge = replicate 32 1;
            credential = some (record { cose_public_key = replicate 65 4; sign_count = 0 });
            assertion = some (record {
              authenticator_data = replicate 37 0;
              client_data_json = as_bytes (str "not json");
              signature = replicate 64 0;
            });
          })
          (start guard rng)).0
        λ resp.
          (resp.verdict == Verdict.as_i32 Verdict.rejected)
          && same_bytes resp.reason (str "malformed_client_data")

  -- Whether one of `n` decryptions is over the budget.
  unfoldable pub trips : ℕ → State guard → Bool
  unfolding exhausted ctx
  trips zero s = false
  trips (suc n) s =
      let r =
        decrypt_field guard 0
          (record {
            context = ctx Purpose.row_decrypt;
            ciphertext = replicate 32 0;
            wrapped_dek = replicate 32 0;
          })
          s in
      elim (exhausted r.0) [ true ↦ true | false ↦ trips n r.1 ]

  unfoldable pub a_flood_of_decrypts_trips_the_budget : P.Rng → Bool
  unfolding trips
  a_flood_of_decrypts_trips_the_budget rng = trips 10_000 (start guard rng)

  unfoldable pub a_missing_assertion_is_an_error : P.Rng → Bool
  unfolding invalid ctx
  a_missing_assertion_is_an_error rng =
      invalid
        (verify_assertion guard 0
          (record {
            context = ctx Purpose.passkey_login;
            rp_id = [];
            expected_origin = [];
            expected_challenge = [];
            credential = none;
            assertion = none;
          })
          (start guard rng)).0

  -- The first write of a row, and what follows it.
  unfoldable pub with_row : Str → P.Rng → (EncryptFieldResponse → State guard → Bool) → Bool
  unfolding replied_with ctx
  with_row text rng rest =
      let (enc, s) =
        encrypt_field guard 0
          (record {
            context = ctx Purpose.row_encrypt;
            plaintext = as_bytes text;
            wrapped_dek = [];
          })
          (start guard rng) in
      replied_with enc λ row. rest row s

  unfoldable pub envelope_round_trip_over_the_service : P.Rng → Bool
  unfolding with_row same_bytes
  envelope_round_trip_over_the_service rng = with_row (str "alice@example.com") rng λ enc s.
      not (is_empty enc.wrapped_dek)
      && replied_with
          (decrypt_field guard 0
            (record {
              context = ctx Purpose.row_decrypt;
              ciphertext = enc.ciphertext;
              wrapped_dek = enc.wrapped_dek;
            })
            s).0
          λ dec. same_bytes dec.plaintext (as_bytes (str "alice@example.com"))

  unfoldable pub another_tenant_cannot_decrypt_the_row : P.Rng → Bool
  unfolding with_row denied
  another_tenant_cannot_decrypt_the_row rng = with_row (str "payload") rng λ enc s.
      denied
        (decrypt_field guard 0
          (record {
            context = some (record {
              tenant_id = str "tenant-b";
              subject_id = str "s1";
              purpose = Purpose.as_i32 Purpose.row_decrypt;
              request_id = str "req-1";
            });
            ciphertext = enc.ciphertext;
            wrapped_dek = enc.wrapped_dek;
          })
          s).0

  unfoldable pub blind_index_returns_a_32_byte_index : P.Rng → Bool
  unfolding replied_with ctx
  blind_index_returns_a_32_byte_index rng =
      replied_with
        (blind_index guard 0
          (record { context = ctx Purpose.blind_index; input = as_bytes (str "user@example.com") })
          (start guard rng)).0
        λ resp. length resp.index == 32

  unfoldable pub blind_index_still_refuses_a_wrong_purpose : P.Rng → Bool
  unfolding denied ctx
  blind_index_still_refuses_a_wrong_purpose rng =
      denied
        (blind_index guard 0
          (record { context = ctx Purpose.row_encrypt; input = as_bytes (str "x") })
          (start guard rng)).0

  unfoldable pub unspecified_purpose_never_reaches_the_operation : P.Rng → Bool
  unfolding invalid ctx
  unspecified_purpose_never_reaches_the_operation rng =
      invalid
        (encrypt_field guard 0
          (record { context = ctx Purpose.unspecified; plaintext = []; wrapped_dek = [] })
          (start guard rng)).0
