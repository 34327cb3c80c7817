-- ===== src/Tests/Provider.antt =====
-- Primitives with a checksum, and the crate's own tests of the provider and the Guard.
use ai_auth.Common.{
  ℕ, zero, suc, ◌+◌, ◌*◌, ◌/◌, ◌%◌, ◌^◌, ◌≡◌, refl, Bool, true, ◌==◌, ◌&&◌, ◌++◌, List, [], ◌∷◌,
  Option, none, some, ok, ite, map, length, take, drop, replicate, if◌then◌else◌,
}
use ai_auth.Limits.Float.{nanos}
use ai_auth.Scenarios.Service as Guarded
use ai_auth.Scenarios.Software as Provided
use ai_auth.Software.{Primitives}
use ai_auth.Tests.Fixtures.{in_order, libraries}
use ai_auth.Text.{Bytes, str, Str-discrete}
use ai_auth.Webauthn.{Libraries}

unfoldable checksum : Bytes → ℕ
checksum [] = 0
checksum (b ∷ rest) = (b + 257 * checksum rest) % 2 ^ 256

unfoldable little_endian : ℕ → ℕ → Bytes
little_endian zero n = []
little_endian (suc k) n = (n % 256) ∷ little_endian k (n / 256)

abbrev mask : Bytes → Bytes
mask = map (λ b. (b + 128) % 256)

-- The body of a sealed text: its associated data, and the masked message.
unfoldable masked_open : Bytes → Bytes → Option Bytes
masked_open ad [] = none
masked_open ad (n ∷ rest) = ite (Str-discrete (take n rest) ad) (some (mask (drop n rest))) none

abbrev body : Bytes → Bytes → Bytes
body ad msg = length ad ∷ ad ++ mask msg

abbrev masked : Primitives
masked = record {
  Rng = ℕ;
  fill_bytes = λ n seed. (replicate n (seed % 256), 1 + seed);
  Cipher = Bytes;
  cipher_from_slice = λ key. ok key;
  cipher_encrypt =
      λ c nonce ad msg. ok (little_endian 16 (checksum (c ++ nonce ++ body ad msg)) ++ body ad msg);
  cipher_decrypt = λ c nonce ad ct.
      ite (Str-discrete (take 16 ct) (little_endian 16 (checksum (c ++ nonce ++ drop 16 ct))))
        (masked_open ad (drop 16 ct)) none;
  Mac = Bytes;
  mac_from_slice = λ key. ok key;
  mac_update = λ mac part. mac ++ part;
  mac_finalize = λ mac. little_endian 32 (checksum mac);
  package_version = str "0.1.0";
}

provider_tests :
    (Provided.index_is_deterministic masked ≡ true)
    × (Provided.same_plaintext_differs_across_tenants masked ≡ true)
    × (Provided.framing_prevents_cross_boundary_collision masked ≡ true)
    × (Provided.different_input_differs masked ≡ true)
    × (Provided.unknown_handle_is_an_error_not_a_default_key masked ≡ true)
    × (Provided.attestation_admits_it_is_not_fips masked ≡ true)
    × (Provided.key_handle_debug_shows_id_not_material ≡ true)
unfolding checksum little_endian Provided.index_is_deterministic
    Provided.same_plaintext_differs_across_tenants
    Provided.framing_prevents_cross_boundary_collision Provided.different_input_differs
    Provided.unknown_handle_is_an_error_not_a_default_key Provided.attestation_admits_it_is_not_fips
    Provided.key_handle_debug_shows_id_not_material ai_auth.Software.new ai_auth.Software.with_key
    ai_auth.Software.blind_index ai_auth.Software.updates ai_auth.Software.index_parts
    ai_auth.Software.domain_blind_index ai_auth.Software.attestation ai_auth.Words.u64_to_be_bytes
    ai_auth.Provider.KeyHandle-discrete ai_auth.Provider.debug ai_auth.Scenarios.contains
    ai_auth.HashMap.lookup ai_auth.HashMap.insert Str-discrete ai_auth.Common.ℕ_discrete str
    ai_auth.Text.as_bytes
provider_tests = (refl, refl, refl, refl, refl, refl, refl)

envelope_tests :
    (Provided.an_envelope_round_trip masked 7 ≡ true)
    × (Provided.ciphertext_never_contains_the_plaintext masked 7 ≡ true)
    × (Provided.a_dek_cannot_open_another_tenants_ciphertext masked 7 ≡ true)
    × (Provided.wrapped_dek_is_bound_to_its_tenant masked 7 ≡ true)
    × (Provided.tampered_ciphertext_is_rejected masked 7 ≡ true)
    × (Provided.each_encryption_uses_a_fresh_nonce masked 7 ≡ true)
    × (Provided.truncated_input_is_rejected_not_panicked masked 7 ≡ true)
unfolding checksum little_endian masked_open Provided.an_envelope_round_trip
    Provided.ciphertext_never_contains_the_plaintext
    Provided.a_dek_cannot_open_another_tenants_ciphertext
    Provided.wrapped_dek_is_bound_to_its_tenant Provided.tampered_ciphertext_is_rejected
    Provided.each_encryption_uses_a_fresh_nonce Provided.truncated_input_is_rejected_not_panicked
    ai_auth.Software.new ai_auth.Software.with_key ai_auth.Software.kek
    ai_auth.Software.generate_wrapped_dek ai_auth.Software.encrypt_field
    ai_auth.Software.decrypt_field ai_auth.Software.unwrap_dek ai_auth.Software.aead_seal
    ai_auth.Software.aead_open ai_auth.Software.aad ai_auth.Software.domain_dek_wrap
    ai_auth.Software.domain_field ai_auth.Words.u64_to_be_bytes ai_auth.Provider.KeyHandle-discrete
    ai_auth.Scenarios.contains ai_auth.HashMap.lookup ai_auth.HashMap.insert Str-discrete
    ai_auth.Common.ℕ_discrete str ai_auth.Text.as_bytes
envelope_tests = (refl, refl, refl, refl, refl, refl, refl)

-- No document is read.
abbrev unreadable : Libraries
unreadable = record libraries { json_from_slice = λ bytes. none }

guard_tests :
    (Guarded.no_context_is_invalid_argument masked nanos in_order unreadable 7 ≡ true)
    × (Guarded.wrong_purpose_is_permission_denied masked nanos in_order unreadable 7 ≡ true)
    × (Guarded.a_malformed_assertion_is_a_rejected_verdict_not_an_error masked nanos in_order
          unreadable 7
        ≡ true)
    × (Guarded.a_missing_assertion_is_an_error masked nanos in_order unreadable 7 ≡ true)
    × (Guarded.envelope_round_trip_over_the_service masked nanos in_order unreadable 7 ≡ true)
    × (Guarded.another_tenant_cannot_decrypt_the_row masked nanos in_order unreadable 7 ≡ true)
    × (Guarded.blind_index_returns_a_32_byte_index masked nanos in_order unreadable 7 ≡ true)
    × (Guarded.blind_index_still_refuses_a_wrong_purpose masked nanos in_order unreadable 7 ≡ true)
    × (Guarded.unspecified_purpose_never_reaches_the_operation masked nanos in_order unreadable 7
        ≡ true)
    × (Guarded.a_flood_of_decrypts_trips_the_budget masked nanos in_order unreadable 7 ≡ true)
unfolding checksum little_endian masked_open Guarded.no_context_is_invalid_argument
    Guarded.wrong_purpose_is_permission_denied
    Guarded.a_malformed_assertion_is_a_rejected_verdict_not_an_error
    Guarded.a_missing_assertion_is_an_error Guarded.envelope_round_trip_over_the_service
    Guarded.another_tenant_cannot_decrypt_the_row Guarded.blind_index_returns_a_32_byte_index
    Guarded.blind_index_still_refuses_a_wrong_purpose
    Guarded.unspecified_purpose_never_reaches_the_operation
    Guarded.a_flood_of_decrypts_trips_the_budget ai_auth.Service.Guard.start
    ai_auth.Service.Guard.gated ai_auth.Service.Guard.within_limits ai_auth.Service.Guard.audit
    ai_auth.Service.Guard.fail ai_auth.Service.Guard.fail_status
    ai_auth.Service.Handlers.verify_assertion ai_auth.Service.Handlers.verify_assertion_body
    ai_auth.Service.Handlers.verdict_of ai_auth.Service.Handlers.encrypt_field
    ai_auth.Service.Handlers.encrypt_field_body ai_auth.Service.Handlers.seal_row
    ai_auth.Service.Handlers.decrypt_field ai_auth.Service.Handlers.decrypt_field_body
    ai_auth.Service.Handlers.blind_index ai_auth.Service.Handlers.blind_index_body
    ai_auth.Service.Handlers.refuse ai_auth.Context.validate ai_auth.Proto.Purpose.as_i32
    ai_auth.Proto.Purpose.from_i32 ai_auth.Proto.Purpose.Purpose-discrete
    ai_auth.Proto.Verdict.as_i32 ai_auth.Webauthn.verify ai_auth.Webauthn.check_client_data
    ai_auth.Webauthn.code ai_auth.Limits.default_limiter ai_auth.Limits.allow
    ai_auth.Limits.charge_global ai_auth.Limits.take_token ai_auth.Limits.or_insert
    ai_auth.Limits.refilled ai_auth.Limits.charge_tenant ai_auth.Limits.make_room
    ai_auth.Limits.Key-discrete ai_auth.Software.new ai_auth.Software.blind_index
    ai_auth.Software.updates ai_auth.Software.index_parts ai_auth.Software.domain_blind_index
    ai_auth.Software.with_key ai_auth.Software.kek ai_auth.Software.generate_wrapped_dek
    ai_auth.Software.encrypt_field ai_auth.Software.decrypt_field ai_auth.Software.unwrap_dek
    ai_auth.Software.aead_seal ai_auth.Software.aead_open ai_auth.Software.aad
    ai_auth.Software.domain_dek_wrap ai_auth.Software.domain_field ai_auth.Words.u64_to_be_bytes
    ai_auth.Provider.KeyHandle-discrete ai_auth.HashMap.lookup ai_auth.HashMap.insert Str-discrete
    ai_auth.Common.ℕ_discrete str ai_auth.Text.as_bytes
guard_tests = (refl, refl, refl, refl, refl, refl, refl, refl, refl, refl)
